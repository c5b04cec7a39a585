-- ===== src/Taskflow/Store/Reads.antt =====
-- The read roles of a task and its row, from InitTask on.
pub mod Origins
pub mod Tracked
use nsw_core.Common.{
  ℕ, String, ◌≡◌, ◌≢◌, refl, sym, ap, subst, ◌∙◌, Bool, true, false, not, ◌&&◌, Option, none, some,
  ◌⊎◌, ◌↔◌, inl, inr, List, [], ◌∷◌, arith, str_eq, str_eq→eq, str_eq→ne, eq_iff, if◌then◌else◌, In,
  Bool-cases,
}
use nsw_core.Taskflow.Record.{TaskRecord, TaskFilter, matches}
use nsw_core.Taskflow.Store.{
  Row, RoleRow, Db, new_row, insert_task, insert_role, insert_roles, init_task, is_selected,
  select_tasks, get_tasks, to_domain,
}
use nsw_core.Taskflow.Store.Writes.{Statement, update_rows, step_update, Op, statement, run_op}
use nsw_core.Taskflow.Store.Listing.{role_row, HasRoles, selected-matches}

In-insert_role :
    (q r : RoleRow) (rows : List RoleRow) → In q (insert_role r rows) → In q rows ⊎ (q ≡ r)
unfolding insert_role
In-insert_role q r [] (inl e) = inr e
In-insert_role q r [] (inr i) = elim i [ ]
In-insert_role q r (s ∷ rows) i =
    elim (Bool-cases (str_eq s.task_id r.task_id && str_eq s.role r.role)) [
      | inl same ↦ inl (rw same at i)
      | inr other ↦ elim (rw other at i) [
        | inl e ↦ inl (inl e)
        | inr j ↦ elim (In-insert_role q r rows j) [ inl k ↦ inl (inr k) | inr e ↦ inr e ]
      ]
    ]

insert_role-keeps : (q r : RoleRow) (rows : List RoleRow) → In q rows → In q (insert_role r rows)
unfolding insert_role
insert_role-keeps q r [] i = elim i [ ]
insert_role-keeps q r (s ∷ rows) i =
    elim (Bool-cases (str_eq s.task_id r.task_id && str_eq s.role r.role)) [
      | inl same ↦ rw same i
      | inr other ↦ rw other (elim i [ inl e ↦ inl e | inr j ↦ inr (insert_role-keeps q r rows j) ])
    ]

insert_role-In :
    (r : RoleRow) (rows : List RoleRow)
    → ((q : RoleRow) → In q rows → q.task_id ≡ r.task_id → q.case_id ≡ r.case_id)
    → In r (insert_role r rows)
unfolding insert_role
insert_role-In r [] k = inl refl
insert_role-In r (s ∷ rows) k =
    elim (Bool-cases (str_eq s.task_id r.task_id && str_eq s.role r.role)) [
      | inl same ↦ rw same (
          let a = str_eq→eq s.task_id r.task_id (ground arith) in
          let b = str_eq→eq s.role r.role (ground arith) in
          let c = k s (inl refl) a in let e : r ≡ s = ground arith in inl e)
      | inr other ↦ rw other (inr (insert_role-In r rows (λ q i. k q (inr i))))
    ]

-- The rows of the task are those of the record, so far.
abbrev pub Owns : TaskRecord → List RoleRow → Type 0
Owns r rows =
    (q : RoleRow)
    → In q rows
    → q.task_id ≡ r.task_id
    → (q.case_id ≡ r.case_id) × In q.role r.read_roles

Owns-insert_role :
    (r : TaskRecord) (x : String) (rows : List RoleRow)
    → In x r.read_roles
    → Owns r rows
    → Owns r (insert_role (role_row r x) rows)
Owns-insert_role r x rows i o q j p = elim (In-insert_role q (role_row r x) rows j) [
  | inl k ↦ o q k p
  | inr e ↦
      (ap (λ (y : RoleRow). y.case_id) e, subst (λ (y : RoleRow). In y.role r.read_roles) (sym e) i)
]

insert_roles-keeps :
    (r : TaskRecord) (todo : List String) (rows : List RoleRow) (q : RoleRow)
    → In q rows
    → In q (insert_roles r todo rows)
unfolding insert_roles
insert_roles-keeps r [] rows q i = i
insert_roles-keeps r (x ∷ xs) rows q i =
    insert_roles-keeps r xs (insert_role (role_row r x) rows) q
      (insert_role-keeps q (role_row r x) rows i)

pub insert_roles-HasRoles :
    (r : TaskRecord) (todo : List String) (rows : List RoleRow)
    → ((x : String) → In x todo → In x r.read_roles)
    → Owns r rows
    → ((x : String) → In x todo → In (role_row r x) (insert_roles r todo rows))
      × Owns r (insert_roles r todo rows)
unfolding insert_roles
insert_roles-HasRoles r [] rows k o = ((λ x i. elim i [ ]), o)
insert_roles-HasRoles r (y ∷ ys) rows k o =
    let rows' = insert_role (role_row r y) rows in
    let (stored, owns) =
      insert_roles-HasRoles r ys rows' (λ x i. k x (inr i))
        (Owns-insert_role r y rows (k y (inl refl)) o) in
    (
      (λ x i. elim i [
        | inr j ↦ stored x j
        | inl e ↦
            subst (λ z. In (role_row r z) (insert_roles r ys rows')) (sym e)
              (insert_roles-keeps r ys rows' (role_row r y)
                (insert_role-In (role_row r y) rows (λ q j p. (o q j p).0)))
      ]),
      owns,
    )

pub In-insert_roles :
    (r : TaskRecord) (todo : List String) (rows : List RoleRow) (q : RoleRow)
    → In q (insert_roles r todo rows)
    → In q rows ⊎ (q.task_id ≡ r.task_id)
unfolding insert_roles
In-insert_roles r [] rows q i = inl i
In-insert_roles r (x ∷ xs) rows q i =
    elim (In-insert_roles r xs (insert_role (role_row r x) rows) q i) [
      | inr p ↦ inr p
      | inl j ↦ elim (In-insert_role q (role_row r x) rows j) [
        | inl k ↦ inl k
        | inr e ↦ inr (ap (λ (y : RoleRow). y.task_id) e)
      ]
    ]

pub HasRoles-others :
    (r o : TaskRecord) (rows : List RoleRow)
    → r.task_id ≢ o.task_id
    → HasRoles o rows
    → HasRoles o (insert_roles r r.read_roles rows)
HasRoles-others r o rows n h = record {
  stored = λ x i. insert_roles-keeps r r.read_roles rows (role_row o x) (h.stored x i);
  only = λ q i p. elim (In-insert_roles r r.read_roles rows q i) [
    | inl j ↦ h.only q j p
    | inr e ↦ absurd (n (sym e ∙ p))
  ];
}
