-- ===== src/Taskflow/Store/Finality.antt =====
-- The statements on one task in any order, with the calls that are in flight.
pub mod Kept
use nsw_core.Common.{
  ℕ, zero, suc, ◌+◌, ◌≤◌, ◌<◌, String, ◌≡◌, ◌≢◌, refl, sym, ap, subst, ◌∙◌, Bool, true, false, leb,
  not, ◌&&◌, ◌||◌, Option, none, some, ◌⊎◌, inl, inr, List, [], ◌∷◌, arith, str_eq, str_eq→eq,
  str_eq→ne, eq_iff, if◌then◌else◌, mem_text, In, Bool-cases, Option-cases,
}
use nsw_core.Taskflow.Record.{
  TaskRecord, StepClaim, state_starting_step, state_cancelled, state_completed, state_advancing,
  state_on_hold, ended_states,
}
use nsw_core.Taskflow.Store.{Row, Db, row_of, new_row, init_task}
use nsw_core.Taskflow.Store.Writes.{Statement, Op, claim_step, statement, run_op}
use nsw_core.Taskflow.Store.Rows.{
  applied, map_row, changed, AtMostOnce, row_of-run_op, run_op-changed, run_op-AtMostOnce,
  insert_task-there, insert_task-AtMostOnce,
}

-- A step that some call has read or claimed, with the seq it has seen.
abbrev pub Flights : Type 0
Flights = List (String × ℕ)

pub record System : Type 0 where
  pub db : Db
  pub in_flight : Flights

-- A write of a step names what a call has seen; a plugin reports no cancelled state. A claim has a
-- constructor of its own.
abbrev pub IsIssued : Op → Flights → Type 0
IsIssued (claim_step c) fl = ⊥
IsIssued (Op.write_render_state step seq state payload) fl =
    In (step, seq) fl × (state ≢ state_cancelled)
IsIssued (Op.persist_submission step seq payload) fl = In (step, seq) fl
IsIssued (Op.write_draft step seq payload) fl = In (step, seq) fl
IsIssued _ fl = Unit

abbrev pub landed : ℕ → StepClaim → Flights → Flights
landed zero c fl = fl
landed (suc n) c fl = (c.step_id, c.seq) ∷ fl

pub data Step (id : String) : System → System → Type 0 where
  claims :
      (s : System) (c : StepClaim)
      → c.state ≢ state_cancelled
      → Step id s (record {
        db = (run_op id (claim_step c) s.db).1;
        in_flight = landed (run_op id (claim_step c) s.db).0 c s.in_flight;
      })
  reads :
      (s : System) (r : Row) (step : String)
      → row_of id s.db.tasks ≡ some r
      → mem_text r.state ended_states ≡ false
      → Step id s (record s { in_flight = (step, r.seq) ∷ s.in_flight })
  runs :
      (s : System) (op : Op)
      → IsIssued op s.in_flight
      → Step id s (record s { db = (run_op id op s.db).1 })
  elsewhere :
      (s : System) (j : String) (op : Op)
      → j ≢ id
      → Step id s (record s { db = (run_op j op s.db).1 })
  starts : (s : System) (r : TaskRecord) → Step id s (record s { db = init_task r s.db })

pub data Steps (id : String) (s : System) : System → Type 0 where
  here : Steps id s s
  then_step : {t u : System} → Steps id s t → Step id t u → Steps id s u

abbrev pub IsCancelled : Option Row → Type 0
IsCancelled none = ⊥
IsCancelled (some r) = r.state ≡ state_cancelled

abbrev pub Bounded : Row → Flights → Type 0
Bounded r fl =
    (f : String × ℕ) → In f fl → (f.1 ≤ r.seq) × (r.state ≡ state_cancelled → f.1 < r.seq)

-- The version does not go back, and a cancelled row stays one.
abbrev pub Later : Row → Row → Type 0
Later r q = (r.seq ≤ q.seq) × (r.state ≡ state_cancelled → q.state ≡ state_cancelled)

-- A row that is cancelled after a write was so before, or its version went up.
abbrev Closes : Row → Row → Type 0
Closes r q = q.state ≡ state_cancelled → (r.state ≡ state_cancelled) ⊎ (r.seq < q.seq)

abbrev pub Moves : Row → Row → Type 0
Moves r q = Later r q × Closes r q
