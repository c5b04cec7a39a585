-- ===== src/Taskflow/Store/Reads/Origins.antt =====
-- What the tables hold of the tasks that have been started.
use nsw_core.Common.{
  String, ◌≡◌, ◌≢◌, refl, ap, ◌∙◌, ◌&&◌, ◌⊎◌, inl, inr, List, [], ◌∷◌, str_eq, In, Bool-cases,
}
use nsw_core.Taskflow.Record.{TaskRecord}
use nsw_core.Taskflow.Store.{Row, RoleRow, Db, insert_task, insert_roles, init_task}
use nsw_core.Taskflow.Store.Writes.{Statement, update_rows, Op, statement, run_op}
use nsw_core.Taskflow.Store.Listing.{HasRoles}
use nsw_core.Taskflow.Store.Reads.{Owns, insert_roles-HasRoles}

-- The tables after any statements, with the records that tasks have been started with.
pub data Started : List TaskRecord → Db → Type 0 where
  empty : Started [] (record { tasks = []; roles = [] })
  first :
      {rs : List TaskRecord} {db : Db} (r : TaskRecord)
      → Started rs db
      → ((o : TaskRecord) → In o rs → r.task_id ≢ o.task_id)
      → Started (r ∷ rs) (init_task r db)
  again :
      {rs : List TaskRecord} {db : Db} (r : TaskRecord)
      → Started rs db
      → In r rs
      → Started rs (init_task r db)
  writes :
      {rs : List TaskRecord} {db : Db} (id : String) (op : Op)
      → Started rs db
      → Started rs (run_op id op db).1

abbrev Origin : List TaskRecord → Row → Type 0
Origin rs row = (r : TaskRecord) × In r rs × (row.task_id ≡ r.task_id) × (row.case_id ≡ r.case_id)

pub In-insert_task :
    (n row : Row) (rows : List Row) → In row (insert_task n rows) → (row ≡ n) ⊎ In row rows
unfolding insert_task
In-insert_task n row [] (inl e) = inl e
In-insert_task n row [] (inr i) = elim i [ ]
In-insert_task n row (s ∷ rows) i = elim (Bool-cases (str_eq s.task_id n.task_id)) [
  | inl same ↦ inr (rw same at i)
  | inr other ↦ elim (rw other at i) [
    | inl e ↦ inr (inl e)
    | inr j ↦ elim (In-insert_task n row rows j) [ inl e ↦ inl e | inr k ↦ inr (inr k) ]
  ]
]

-- A statement keeps the ID and the case of a row.
abbrev KeepsCase : Statement → Type 0
KeepsCase w = (r : Row) → ((w.set r).task_id ≡ r.task_id) × ((w.set r).case_id ≡ r.case_id)

pub statement-KeepsCase : (op : Op) → KeepsCase (statement op)
unfolding statement
statement-KeepsCase (Op.claim_step c) r = (refl, refl)
statement-KeepsCase (Op.write_render_state step seq state payload) r = (refl, refl)
statement-KeepsCase (Op.persist_submission step seq payload) r = (refl, refl)
statement-KeepsCase (Op.write_draft step seq payload) r = (refl, refl)
statement-KeepsCase Op.cancel_task r = (refl, refl)
statement-KeepsCase (Op.hold_task seq) r = (refl, refl)
statement-KeepsCase (Op.complete_task seq) r = (refl, refl)
statement-KeepsCase (Op.claim_task holder at) r = (refl, refl)
statement-KeepsCase (Op.release_task holder) r = (refl, refl)

pub Origin-update :
    (rs : List TaskRecord) (id : String) (w : Statement) (rows : List Row) (row : Row)
    → KeepsCase w
    → ((q : Row) → In q rows → Origin rs q)
    → In row (update_rows id w rows).1
    → Origin rs row
unfolding update_rows
Origin-update rs id w [] row k o i = elim i [ ]
Origin-update rs id w (q ∷ rows) row k o i =
    let later = Origin-update rs id w rows row k (λ p j. o p (inr j)) in
    elim (Bool-cases (str_eq q.task_id id && w.guard q)) [
      | inr other ↦ elim (rw other at i) [ inl e ↦ o row (inl e) | inr j ↦ later j ]
      | inl fits ↦ elim (rw fits at i) [
        | inr j ↦ later j
        | inl e ↦
            let (r, j, p, c) = o q (inl refl) in
            (
              r,
              j,
              ap (λ (x : Row). x.task_id) e ∙ (k q).0 ∙ p,
              ap (λ (x : Row). x.case_id) e ∙ (k q).1 ∙ c,
            )
      ]
    ]

pub record Tracks (rs : List TaskRecord) (db : Db) : Type 0 where
  pub roles : (r : TaskRecord) → In r rs → HasRoles r db.roles
  pub owners : (q : RoleRow) → In q db.roles → (r : TaskRecord) × In r rs × (q.task_id ≡ r.task_id)
  pub origins : (row : Row) → In row db.tasks → Origin rs row
  pub distinct : (r o : TaskRecord) → In r rs → In o rs → r.task_id ≡ o.task_id → r ≡ o

pub Origin-cons :
    (r : TaskRecord) (rs : List TaskRecord) (row : Row) → Origin rs row → Origin (r ∷ rs) row
Origin-cons r rs row (o, i, p, c) = (o, inr i, p, c)

pub HasRoles-init :
    (r : TaskRecord) (rows : List RoleRow)
    → Owns r rows
    → HasRoles r (insert_roles r r.read_roles rows)
HasRoles-init r rows o =
    let (stored, only) = insert_roles-HasRoles r r.read_roles rows (λ x i. i) o in
    record { stored = stored; only = only }
