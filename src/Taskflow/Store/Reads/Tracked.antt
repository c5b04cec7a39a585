-- ===== src/Taskflow/Store/Reads/Tracked.antt =====
-- The tables and the records of started tasks, through all statements, and what a listing gives of them.
use nsw_core.Common.{
  ◌≡◌, ◌≢◌, refl, sym, ap, subst, ◌∙◌, true, ◌↔◌, inl, inr, List, [], ◌∷◌, str_eq, str_eq→eq,
  str_eq→ne, In, Bool-cases,
}
use nsw_core.Taskflow.Record.{TaskRecord, TaskFilter, matches}
use nsw_core.Taskflow.Store.{
  Row, RoleRow, Db, new_row, insert_roles, init_task, is_selected, select_tasks, get_tasks,
  to_domain,
}
use nsw_core.Taskflow.Store.Writes.{step_update, statement, run_op}
use nsw_core.Taskflow.Store.Listing.{HasRoles, selected-matches}
use nsw_core.Taskflow.Store.Reads.{HasRoles-others, In-insert_roles}
use nsw_core.Taskflow.Store.Reads.Origins.{
  Started, empty, first, again, writes, In-insert_task, statement-KeepsCase, Origin-update, Tracks,
  Origin-cons, HasRoles-init,
}

Tracks-first :
    (r : TaskRecord) (rs : List TaskRecord) (db : Db)
    → ((o : TaskRecord) → In o rs → r.task_id ≢ o.task_id)
    → Tracks rs db
    → Tracks (r ∷ rs) (init_task r db)
unfolding init_task new_row
Tracks-first r rs db new t = record {
  roles = λ o i. elim i [
    | inr j ↦ HasRoles-others r o db.roles (new o j) (t.roles o j)
    | inl e ↦
        subst (λ x. HasRoles x (insert_roles r r.read_roles db.roles)) (sym e)
          (HasRoles-init r db.roles
            (λ q j p. let (o', k, s) = t.owners q j in absurd (new o' k (sym p ∙ s))))
  ];
  owners = λ q i. elim (In-insert_roles r r.read_roles db.roles q i) [
    | inl j ↦ let (o, k, s) = t.owners q j in (o, inr k, s)
    | inr e ↦ (r, inl refl, e)
  ];
  origins = λ row i. elim (In-insert_task (new_row r) row db.tasks i) [
    | inr j ↦ Origin-cons r rs row (t.origins row j)
    | inl e ↦ (r, inl refl, ap (λ (x : Row). x.task_id) e, ap (λ (x : Row). x.case_id) e)
  ];
  distinct = λ a b i j p. elim i [
    | inr k ↦ elim j [
      | inr l ↦ t.distinct a b k l p
      | inl e ↦ absurd (new a k (ap (λ (x : TaskRecord). x.task_id) (sym e) ∙ sym p))
    ]
    | inl d ↦ elim j [
      | inr l ↦ absurd (new b l (ap (λ (x : TaskRecord). x.task_id) (sym d) ∙ p))
      | inl e ↦ d ∙ sym e
    ]
  ];
}

Tracks-again :
    (r : TaskRecord) (rs : List TaskRecord) (db : Db)
    → In r rs
    → Tracks rs db
    → Tracks rs (init_task r db)
unfolding init_task new_row
Tracks-again r rs db there t = record {
  roles = λ o i. elim (Bool-cases (str_eq r.task_id o.task_id)) [
    | inr other ↦ HasRoles-others r o db.roles (str_eq→ne r.task_id o.task_id other) (t.roles o i)
    | inl same ↦
        subst (λ x. HasRoles x (insert_roles r r.read_roles db.roles))
          (t.distinct r o there i (str_eq→eq r.task_id o.task_id same))
          (HasRoles-init r db.roles (λ q j p. (t.roles r there).only q j p))
  ];
  owners = λ q i. elim (In-insert_roles r r.read_roles db.roles q i) [
    | inl j ↦ t.owners q j
    | inr e ↦ (r, there, e)
  ];
  origins = λ row i. elim (In-insert_task (new_row r) row db.tasks i) [
    | inr j ↦ t.origins row j
    | inl e ↦ (r, there, ap (λ (x : Row). x.task_id) e, ap (λ (x : Row). x.case_id) e)
  ];
  distinct = t.distinct;
}

Started-Tracks : {rs : List TaskRecord} {db : Db} → Started rs db → Tracks rs db
unfolding run_op step_update
Started-Tracks empty = record {
  roles = λ r i. elim i [ ];
  owners = λ q i. elim i [ ];
  origins = λ row i. elim i [ ];
  distinct = λ r o i j p. elim i [ ];
}
Started-Tracks (first {rs} {db} r s new) = Tracks-first r rs db new (Started-Tracks s)
Started-Tracks (again {rs} {db} r s there) = Tracks-again r rs db there (Started-Tracks s)
Started-Tracks (writes {rs} {db} id op s) =
    let t = Started-Tracks s in
    record {
      roles = t.roles;
      owners = t.owners;
      origins = λ row i.
          Origin-update rs id (statement op) db.tasks row (statement-KeepsCase op) t.origins i;
      distinct = t.distinct;
    }

is_selected-eq-matches :
    (rs : List TaskRecord) (db : Db) (f : TaskFilter) (row : Row)
    → Started rs db
    → In row db.tasks
    → (r : TaskRecord) × In r rs
      × (row.task_id ≡ r.task_id)
      × (is_selected f db.roles row ≡ matches f r)
is_selected-eq-matches rs db f row s i =
    let t = Started-Tracks s in
    let (r, j, p, c) = t.origins row i in
    (r, j, p, selected-matches f r row db.roles p c (t.roles r j))

In-select_tasks :
    (f : TaskFilter) (roles : List RoleRow) (rows : List Row) (t : TaskRecord)
    → In t (select_tasks f roles rows)
    → (row : Row) × In row rows × (is_selected f roles row ≡ true) × (t ≡ to_domain row)
unfolding select_tasks
In-select_tasks f roles [] t i = elim i [ ]
In-select_tasks f roles (row ∷ rows) t i = elim (Bool-cases (is_selected f roles row)) [
  | inr n ↦ let (q, j, m, e) = In-select_tasks f roles rows t (rw n at i) in (q, inr j, m, e)
  | inl m ↦ elim (rw m at i) [
    | inl e ↦ (row, inl refl, m, e)
    | inr j ↦ let (q, k, l, e) = In-select_tasks f roles rows t j in (q, inr k, l, e)
  ]
]

select_tasks-In :
    (f : TaskFilter) (roles : List RoleRow) (rows : List Row) (row : Row)
    → In row rows
    → is_selected f roles row ≡ true
    → In (to_domain row) (select_tasks f roles rows)
unfolding select_tasks
select_tasks-In f roles [] row i m = elim i [ ]
select_tasks-In f roles (q ∷ rows) row (inl e) m =
    let n : is_selected f roles q ≡ true = subst (λ x. is_selected f roles x ≡ true) e m in
    rw n (inl (ap to_domain e))
select_tasks-In f roles (q ∷ rows) row (inr i) m = elim (Bool-cases (is_selected f roles q)) [
  | inl n ↦ rw n (inr (select_tasks-In f roles rows row i m))
  | inr n ↦ rw n (select_tasks-In f roles rows row i m)
]

-- A row of the table, and the record that its task was started with.
abbrev pub ListedAs : TaskFilter → List TaskRecord → Db → TaskRecord → Type 0
ListedAs f rs db t =
    (row : Row) × In row db.tasks
    × (t ≡ to_domain row)
    × ((r : TaskRecord) × In r rs × (row.task_id ≡ r.task_id) × (matches f r ≡ true))

-- After any starts, retries of a start and store operations, GetTasks of the store lists exactly
-- the records of the rows whose task was started with a record that TaskFilter.Matches accepts,
-- although the roles stand in a table of their own.
pub get_tasks-Matches :
    (rs : List TaskRecord) (db : Db) (f : TaskFilter) (t : TaskRecord)
    → Started rs db
    → In t (get_tasks f db) ↔ ListedAs f rs db t
unfolding get_tasks
get_tasks-Matches rs db f t s = (
  λ i.
      let (row, j, m, e) = In-select_tasks f db.roles db.tasks t i in
      let (r, k, p, same) = is_selected-eq-matches rs db f row s j in
      (row, j, e, (r, k, p, sym same ∙ m)),
  λ h.
      let (row, j, e, (o, l, q, m)) = h in
      let (r, k, p, same) = is_selected-eq-matches rs db f row s j in
      let one : r ≡ o = (Started-Tracks s).distinct r o k l (sym p ∙ q) in
      subst (λ x. In x (get_tasks f db)) (sym e)
        (select_tasks-In f db.roles db.tasks row j (same ∙ ap (matches f) one ∙ m)),
)
