-- ===== src/Taskflow/Store/Rows.antt =====
-- A guarded statement as a change of the one row of its task.
use nsw_core.Common.{
  ℕ, String, ◌≡◌, refl, sym, ◌∙◌, ◌&&◌, Option, none, some, inl, inr, List, [], ◌∷◌, arith, str_eq,
  str_eq→ne, ◌≢◌, eq_iff, if◌then◌else◌, Bool-cases,
}
use nsw_core.Taskflow.Store.{Row, Db, row_of, insert_task}
use nsw_core.Taskflow.Store.Writes.{Statement, update_rows, step_update, Op, statement, run_op}

abbrev pub applied : Statement → Row → Row
applied w r = if w.guard r then w.set r else r

abbrev pub map_row : (Row → Row) → Option Row → Option Row
map_row f none = none
map_row f (some r) = some (f r)

abbrev pub KeepsId : Statement → Type 0
KeepsId w = (r : Row) → (w.set r).task_id ≡ r.task_id

pub statement-KeepsId : (op : Op) → KeepsId (statement op)
unfolding statement
statement-KeepsId (Op.claim_step c) r = refl
statement-KeepsId (Op.write_render_state step seq state payload) r = refl
statement-KeepsId (Op.persist_submission step seq payload) r = refl
statement-KeepsId (Op.write_draft step seq payload) r = refl
statement-KeepsId Op.cancel_task r = refl
statement-KeepsId (Op.hold_task seq) r = refl
statement-KeepsId (Op.complete_task seq) r = refl
statement-KeepsId (Op.claim_task holder at) r = refl
statement-KeepsId (Op.release_task holder) r = refl

row_of-update_rows :
    (id j : String) (w : Statement) (rows : List Row)
    → KeepsId w
    → row_of j (update_rows id w rows).1
      ≡ (if str_eq id j then map_row (applied w) (row_of j rows) else row_of j rows)
unfolding row_of update_rows
row_of-update_rows id j w [] k = ground arith
row_of-update_rows id j w (r ∷ rs) k = ground (
  arith,
  eq_iff id j,
  eq_iff r.task_id id,
  eq_iff r.task_id j,
  k r,
  row_of-update_rows id j w rs k,
  eq_iff (w.set r).task_id j,
)

-- The operation changes the row of its task where the guard holds, and no other row.
pub row_of-run_op :
    (id j : String) (op : Op) (db : Db)
    → row_of j (run_op id op db).1.tasks ≡ (
        if str_eq id j
        then map_row (applied (statement op)) (row_of j db.tasks)
        else row_of j db.tasks)
unfolding run_op step_update
row_of-run_op id j op db = row_of-update_rows id j (statement op) db.tasks (statement-KeepsId op)

-- The primary key: one row at most has the ID.
abbrev pub AtMostOnce : String → List Row → Type 0
AtMostOnce id [] = Unit
AtMostOnce id (r ∷ rs) = (r.task_id ≡ id → row_of id rs ≡ none) × AtMostOnce id rs

absent-count :
    (id : String) (w : Statement) (rows : List Row)
    → row_of id rows ≡ none
    → (update_rows id w rows).0 ≡ 0
unfolding row_of update_rows
absent-count id w [] h = refl
absent-count id w (r ∷ rs) h = ground (arith, eq_iff r.task_id id, absent-count id w rs)

abbrev pub changed : Statement → Option Row → ℕ
changed w none = 0
changed w (some r) = if w.guard r then 1 else 0

count-changed :
    (id : String) (w : Statement) (rows : List Row)
    → AtMostOnce id rows
    → (update_rows id w rows).0 ≡ changed w (row_of id rows)
unfolding row_of update_rows
count-changed id w [] h = refl
count-changed id w (r ∷ rs) (once, later) =
    ground (arith, eq_iff r.task_id id, absent-count id w rs, count-changed id w rs later)

-- The number of rows that a statement reports: one where its guard holds of the row, else none.
pub run_op-changed :
    (id : String) (op : Op) (db : Db)
    → AtMostOnce id db.tasks
    → (run_op id op db).0 ≡ changed (statement op) (row_of id db.tasks)
unfolding run_op step_update
run_op-changed id op db h = count-changed id (statement op) db.tasks h

absent-update_rows :
    (id j : String) (w : Statement) (rows : List Row)
    → KeepsId w
    → row_of id rows ≡ none
    → row_of id (update_rows j w rows).1 ≡ none
absent-update_rows id j w rows k gone = ground (arith, row_of-update_rows j id w rows k)

AtMostOnce-update_rows :
    (id j : String) (w : Statement) (rows : List Row)
    → KeepsId w
    → AtMostOnce id rows
    → AtMostOnce id (update_rows j w rows).1
unfolding update_rows
AtMostOnce-update_rows id j w [] k h = tt
AtMostOnce-update_rows id j w (r ∷ rs) k (once, later) =
    let later' = AtMostOnce-update_rows id j w rs k later in
    let still = absent-update_rows id j w rs k in
    elim (Bool-cases (str_eq r.task_id j && w.guard r)) [
      | inl fits ↦ rw fits ((λ p. still (once (sym (k r) ∙ p))), later')
      | inr other ↦ rw other ((λ p. still (once p)), later')
    ]

pub run_op-AtMostOnce :
    (id j : String) (op : Op) (db : Db)
    → AtMostOnce id db.tasks
    → AtMostOnce id (run_op j op db).1.tasks
unfolding run_op step_update
run_op-AtMostOnce id j op db h =
    AtMostOnce-update_rows id j (statement op) db.tasks (statement-KeepsId op) h

insert-absent :
    (id : String) (n : Row) (rows : List Row)
    → n.task_id ≢ id
    → row_of id rows ≡ none
    → row_of id (insert_task n rows) ≡ none
unfolding row_of insert_task
insert-absent id n [] d h = ground (arith, eq_iff n.task_id id)
insert-absent id n (r ∷ rs) d h = ground (arith, eq_iff r.task_id id, insert-absent id n rs)

-- A second insert of a task changes nothing of it.
pub insert_task-there :
    (id : String) (n : Row) (rows : List Row) (r : Row)
    → row_of id rows ≡ some r
    → row_of id (insert_task n rows) ≡ some r
unfolding row_of insert_task
insert_task-there id n [] r h = absurd (ground arith)
insert_task-there id n (q ∷ rs) r h = ground (arith, insert_task-there id n rs r)

pub insert_task-AtMostOnce :
    (id : String) (n : Row) (rows : List Row)
    → AtMostOnce id rows
    → AtMostOnce id (insert_task n rows)
unfolding insert_task row_of
insert_task-AtMostOnce id n [] h = ((λ p. refl), tt)
insert_task-AtMostOnce id n (r ∷ rs) (once, later) =
    elim (Bool-cases (str_eq r.task_id n.task_id)) [
      | inl same ↦ rw same (once, later)
      | inr other ↦ rw other (
        (λ p.
            insert-absent id n rs (λ q. str_eq→ne r.task_id n.task_id other (p ∙ sym q)) (once p)),
        insert_task-AtMostOnce id n rs later,
      )
    ]
