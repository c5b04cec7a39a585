-- ===== src/Taskflow/Store/Writes.antt =====
-- taskflow/store/gorm/store.go: the guarded UPDATE statements of a task row.
use nsw_core.Common.{
  ℕ, suc, ◌+◌, String, Bool, true, false, not, ◌&&◌, ◌||◌, Option, none, some, List, [], ◌∷◌,
  str_eq, leb, ltb, ◌==◌, if◌then◌else◌, mem_text,
}
use nsw_core.Shared.Value.{Fields}
use nsw_core.Taskflow.Record.{
  state_completed, state_advancing, state_cancelled, state_on_hold, ended_states,
  undraftable_states, StepClaim,
}
use nsw_core.Taskflow.Store.{reload, Row, Db}

-- The WHERE clause after the task's ID, and the SET clause.
pub record Statement : Type 0 where
  pub guard : Row → Bool
  pub set : Row → Row

unfoldable pub update_rows : String → Statement → List Row → ℕ × List Row
update_rows id w [] = (0, [])
update_rows id w (r ∷ rs) =
    let (n, rs') = update_rows id w rs in
    if str_eq r.task_id id && w.guard r then (suc n, w.set r ∷ rs') else (n, r ∷ rs')

-- stepUpdate: the rows changed, and the tables after it.
unfoldable pub step_update : String → Statement → Db → ℕ × Db
unfolding update_rows
step_update id w db = let (n, rows) = update_rows id w db.tasks in (n, record db { tasks = rows })

-- column = ?, which NULL never is
abbrev pub holds_text : String → Option String → Bool
holds_text s none = false
holds_text s (some t) = str_eq t s

abbrev pub claim_step_statement : StepClaim → Statement
claim_step_statement c = record {
  guard = λ r. leb r.seq c.seq && not (str_eq r.state state_cancelled);
  set = λ r. record r {
    active_step_id = some c.step_id;
    seq = c.seq;
    active_task_template_id = c.active_task_template_id;
    state = c.state;
    payload = reload c.payload;
  };
}

abbrev pub is_current : String → ℕ → Row → Bool
is_current step seq r = holds_text step r.active_step_id && (r.seq == seq)

abbrev pub render_statement : String → ℕ → String → Fields → Statement
render_statement step seq state payload = record {
  guard = is_current step seq;
  set = λ r. record r { state = state; payload = reload payload };
}

abbrev pub submission_statement : String → ℕ → Fields → Statement
submission_statement step seq payload = record {
  guard = is_current step seq;
  set = λ r. record r { payload = reload payload; state = state_advancing; seq = seq + 1 };
}

abbrev pub draft_statement : String → ℕ → Fields → Statement
draft_statement step seq payload = record {
  guard = λ r. is_current step seq r && not (mem_text r.state undraftable_states);
  set = λ r. record r { payload = reload payload };
}

abbrev pub cancel_statement : Statement
cancel_statement = record {
  guard = λ r. not (str_eq r.state state_completed);
  set = λ r. record r { state = state_cancelled; seq = r.seq + 1 };
}

abbrev pub hold_statement : ℕ → Statement
hold_statement seq = record {
  guard = λ r.
      (leb r.seq seq || (str_eq r.state state_advancing && (r.seq == seq + 1)))
      && not (mem_text r.state ended_states);
  set = λ r. record r { state = state_on_hold; seq = if ltb seq r.seq then r.seq else seq };
}

abbrev pub complete_statement : ℕ → Statement
complete_statement seq = record {
  guard = λ r. leb r.seq seq && not (str_eq r.state state_cancelled);
  set = λ r. record r { state = state_completed; seq = seq };
}

abbrev pub is_null : Option String → Bool
is_null none = true
is_null (some s) = false

abbrev pub claim_statement : String → ℕ → Statement
claim_statement holder at = record {
  guard = λ r.
      (is_null r.claimed_by || holds_text holder r.claimed_by)
      && not (mem_text r.state ended_states);
  set = λ r. record r {
    claimed_by = some holder;
    claimed_at = if holds_text holder r.claimed_by then r.claimed_at else some at;
  };
}

abbrev pub release_statement : String → Statement
release_statement holder = record {
  guard = λ r. holds_text holder r.claimed_by;
  set = λ r. record r { claimed_by = none; claimed_at = none };
}

-- The statements as one type, for sequences of them.
pub data Op : Type 0 where
  claim_step : StepClaim → Op
  write_render_state : String → ℕ → String → Fields → Op
  persist_submission : String → ℕ → Fields → Op
  write_draft : String → ℕ → Fields → Op
  cancel_task : Op
  hold_task : ℕ → Op
  complete_task : ℕ → Op
  claim_task : String → ℕ → Op
  release_task : String → Op

unfoldable pub statement : Op → Statement
unfolding reload mem_text
statement (claim_step c) = claim_step_statement c
statement (write_render_state step seq state payload) = render_statement step seq state payload
statement (persist_submission step seq payload) = submission_statement step seq payload
statement (write_draft step seq payload) = draft_statement step seq payload
statement cancel_task = cancel_statement
statement (hold_task seq) = hold_statement seq
statement (complete_task seq) = complete_statement seq
statement (claim_task holder at) = claim_statement holder at
statement (release_task holder) = release_statement holder

-- Rows changed, and the tables after the operation on a task.
unfoldable pub run_op : String → Op → Db → ℕ × Db
unfolding step_update statement
run_op id op db = step_update id (statement op) db
