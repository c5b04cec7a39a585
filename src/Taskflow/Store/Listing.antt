-- ===== src/Taskflow/Store/Listing.antt =====
-- GetTasks against TaskFilter.Matches, its reference.
use nsw_core.Common.{
  String, ◌≡◌, refl, sym, ap, subst, ◌∙◌, Bool, true, false, ◌&&◌, ◌||◌, inl, inr, List, [], ◌∷◌,
  arith, str_eq, str_eq→eq, eq→str_eq, mem_text, mem_text→In, In→mem_text, In, Bool-cases,
}
use nsw_core.Taskflow.Record.{TaskRecord, TaskFilter, any_mem, matches}
use nsw_core.Taskflow.Store.{Row, RoleRow, has_role, is_selected}

abbrev pub role_row : TaskRecord → String → RoleRow
role_row r role = record { task_id = r.task_id; role = role; case_id = r.case_id }

-- The roles table holds the read roles of the record, under its case, and no other roles of the task.
pub record HasRoles (r : TaskRecord) (rows : List RoleRow) : Type 0 where
  pub stored : (x : String) → In x r.read_roles → In (role_row r x) rows
  pub only :
      (q : RoleRow)
      → In q rows
      → q.task_id ≡ r.task_id
      → (q.case_id ≡ r.case_id) × In q.role r.read_roles

abbrev pub case_fits : TaskFilter → String → Bool
case_fits f case_id = str_eq f.case_id "" || str_eq case_id f.case_id

same_truth : (a b : Bool) → (a ≡ true → b ≡ true) → (b ≡ true → a ≡ true) → a ≡ b
same_truth true b k l = sym (k refl)
same_truth false true k l = l refl
same_truth false false k l = refl

any_mem-In : (xs held : List String) (x : String) → In x xs → In x held → any_mem xs held ≡ true
unfolding any_mem
any_mem-In [] held x i j = elim i [ ]
any_mem-In (y ∷ ys) held x (inl p) j =
    let m : mem_text y held ≡ true = In→mem_text y held (subst (λ z. In {A = String} z held) p j) in
    ground arith
any_mem-In (y ∷ ys) held x (inr i) j = let m = any_mem-In ys held x i j in ground arith

In-any_mem : (xs held : List String) → any_mem xs held ≡ true → (x : String) × In x xs × In x held
unfolding any_mem
In-any_mem [] held h = absurd (ground arith)
In-any_mem (y ∷ ys) held h = elim (Bool-cases (mem_text y held)) [
  | inl m ↦ (y, inl refl, mem_text→In y held m)
  | inr n ↦ let (x, i, j) = In-any_mem ys held (ground arith) in (x, inr i, j)
]

has_role-In :
    (f : TaskFilter) (id : String) (rows : List RoleRow)
    → has_role f id rows ≡ true
    → (q : RoleRow) × In q rows × (q.task_id ≡ id) × In q.role f.roles
unfolding has_role
has_role-In f id [] h = absurd (ground arith)
has_role-In f id (q ∷ rows) h =
    elim (Bool-cases (str_eq q.task_id id && (mem_text q.role f.roles && case_fits f q.case_id))) [
      | inl m ↦ (
        q,
        inl refl,
        str_eq→eq q.task_id id (ground arith),
        mem_text→In q.role f.roles (ground arith),
      )
      | inr n ↦ let (p, i, j, k) = has_role-In f id rows (ground arith) in (p, inr i, j, k)
    ]

In-has_role :
    (f : TaskFilter) (id : String) (rows : List RoleRow) (q : RoleRow)
    → In q rows
    → q.task_id ≡ id
    → In q.role f.roles
    → case_fits f q.case_id ≡ true
    → has_role f id rows ≡ true
unfolding has_role
In-has_role f id [] q i p m c = elim i [ ]
In-has_role f id (r ∷ rows) q (inr i) p m c =
    let rest = In-has_role f id rows q i p m c in ground arith
In-has_role f id (r ∷ rows) q (inl e) p m c =
    let a : str_eq r.task_id id ≡ true =
      eq→str_eq r.task_id id (ap (λ (x : RoleRow). x.task_id) (sym e) ∙ p) in
    let b : mem_text r.role f.roles ≡ true =
      In→mem_text r.role f.roles (subst (λ (x : RoleRow). In x.role f.roles) e m) in
    let d : case_fits f r.case_id ≡ true =
      subst (λ (x : RoleRow). case_fits f x.case_id ≡ true) e c in
    ground arith

pub selected-matches :
    (f : TaskFilter) (r : TaskRecord) (row : Row) (rows : List RoleRow)
    → row.task_id ≡ r.task_id
    → row.case_id ≡ r.case_id
    → HasRoles r rows
    → is_selected f rows row ≡ matches f r
unfolding is_selected matches
selected-matches f r row rows p q h = elim (Bool-cases (case_fits f r.case_id)) [
  | inr other ↦
      let left : case_fits f row.case_id ≡ false = ap (case_fits f) q ∙ other in
      rw (left, other) refl
  | inl fits ↦
      let left : case_fits f row.case_id ≡ true = ap (case_fits f) q ∙ fits in
      let same : has_role f row.task_id rows ≡ any_mem r.read_roles f.roles =
        same_truth (has_role f row.task_id rows) (any_mem r.read_roles f.roles)
          (λ a.
            let (x, i, j, k) = has_role-In f row.task_id rows a in
            any_mem-In r.read_roles f.roles x.role (h.only x i (j ∙ p)).1 k)
          (λ a.
            let (x, i, k) = In-any_mem r.read_roles f.roles a in
            In-has_role f row.task_id rows (role_row r x) (h.stored x i) (sym p) k fits) in
      rw (left, fits, same) refl
]
