-- ===== src/Engine/Batch/Partition.antt =====
-- The edge that partitionItems picks for an item.
use nsw_core.Common.{
  String, ◌≡◌, ◌≢◌, refl, ap, ◌∙◌, Bool, true, false, Option, none, some, ◌⊎◌, inl, inr, List, [],
  ◌∷◌, ◌++◌, arith, if◌then◌else◌, All, Bool-cases,
}
use nsw_core.Shared.Value.{Fields}
use nsw_core.Engine.Dsl.{Edge}
use nsw_core.Engine.Park.{Failure, Result, ok, err}
use nsw_core.Engine.Items.{evaluate_condition}
use nsw_core.Engine.Batch.{is_default, first_default, choose_edge}

Verdict-cases : (r : Result Bool) → ((f : Failure) × (r ≡ err f)) ⊎ ((r ≡ ok true) ⊎ (r ≡ ok false))
Verdict-cases (err f) = inl (f, refl)
Verdict-cases (ok true) = inr (inl refl)
Verdict-cases (ok false) = inr (inr refl)

module _ (expr : String → Fields → Result Bool) where
  -- The edge refuses the item: a default edge is not tried, and any other one's condition is false.
  abbrev pub Passes : Fields → Edge → Type 0
  Passes scope e = (is_default e ≡ true) ⊎ (evaluate_condition expr e.condition scope ≡ ok false)

  abbrev pub Takes : Fields → Edge → Type 0
  Takes scope e = (is_default e ≡ false) × (evaluate_condition expr e.condition scope ≡ ok true)

  -- Where `e` stands first among the edges that take the item.
  pub record IsFirst (edges : List Edge) (scope : Fields) (e : Edge) : Type 0 where
    pub before : List Edge
    pub after : List Edge
    pub split : edges ≡ before ++ e ∷ after
    pub passed : All (Passes scope) before
    pub takes : Takes scope e

  -- The default edge: the one that is there already, else the first of the edges.
  abbrev pub default_of : Option Edge → List Edge → Option Edge
  default_of (some d) es = some d
  default_of none [] = none
  default_of none (e ∷ es) = let rest = default_of none es in if is_default e then some e else rest

  default_of_met :
      (d : Option Edge) (e : Edge) (es : List Edge)
      → is_default e ≡ true
      → default_of d (e ∷ es) ≡ default_of (first_default d e) es
  default_of_met none e es h = ground arith
  default_of_met (some d) e es h = refl

  default_of_skip :
      (d : Option Edge) (e : Edge) (es : List Edge)
      → is_default e ≡ false
      → default_of d (e ∷ es) ≡ default_of d es
  default_of_skip none e es h = ground arith
  default_of_skip (some d) e es h = refl

  abbrev pub IsChoice : List Edge → Option Edge → Fields → Option Edge → Type 0
  IsChoice edges d scope none = All (Passes scope) edges × (default_of d edges ≡ none)
  IsChoice edges d scope (some e) =
      IsFirst edges scope e ⊎ (All (Passes scope) edges × (default_of d edges ≡ some e))

  IsChoice-skip :
      (e : Edge) (es : List Edge) (d d' : Option Edge) (scope : Fields) (o : Option Edge)
      → Passes scope e
      → default_of d (e ∷ es) ≡ default_of d' es
      → IsChoice es d' scope o
      → IsChoice (e ∷ es) d scope o
  IsChoice-skip e es d d' scope none p q h = ((p, h.0), q ∙ h.1)
  IsChoice-skip e es d d' scope (some c) p q (inr h) = inr ((p, h.0), q ∙ h.1)
  IsChoice-skip e es d d' scope (some c) p q (inl h) = inl (record {
    before = e ∷ h.before;
    after = h.after;
    split = ap (λ (l : List Edge). e ∷ l) h.split;
    passed = (p, h.passed);
    takes = h.takes;
  })

  -- One round of the loop.
  choose_default :
      (e : Edge) (es : List Edge) (d : Option Edge) (scope : Fields)
      → is_default e ≡ true
      → choose_edge expr (e ∷ es) d scope ≡ choose_edge expr es (first_default d e) scope
  unfolding choose_edge
  choose_default e es d scope h = ground arith

  choose_taken :
      (e : Edge) (es : List Edge) (d : Option Edge) (scope : Fields)
      → Takes scope e
      → choose_edge expr (e ∷ es) d scope ≡ ok (some e)
  unfolding choose_edge
  choose_taken e es d scope h = ground arith

  choose_passed :
      (e : Edge) (es : List Edge) (d : Option Edge) (scope : Fields)
      → is_default e ≡ false
      → evaluate_condition expr e.condition scope ≡ ok false
      → choose_edge expr (e ∷ es) d scope ≡ choose_edge expr es d scope
  unfolding choose_edge
  choose_passed e es d scope h p = ground arith

  choose_failed :
      (e : Edge) (es : List Edge) (d : Option Edge) (scope : Fields) (f : Failure) (o : Option Edge)
      → is_default e ≡ false
      → evaluate_condition expr e.condition scope ≡ err f
      → choose_edge expr (e ∷ es) d scope ≢ ok o
  unfolding choose_edge
  choose_failed e es d scope f o h p q = ground arith

  choose_nil :
      (d : Option Edge) (scope : Fields) (o : Option Edge)
      → choose_edge expr [] d scope ≡ ok o
      → d ≡ o
  unfolding choose_edge
  choose_nil d scope o h = ground arith

  IsChoice-nil : (d : Option Edge) (scope : Fields) → IsChoice [] d scope d
  IsChoice-nil none scope = (tt, refl)
  IsChoice-nil (some e) scope = inr (tt, refl)

  choose_same :
      (e : Edge) (es : List Edge) (d : Option Edge) (scope : Fields) (o : Option Edge)
      → Takes scope e
      → choose_edge expr (e ∷ es) d scope ≡ ok o
      → some e ≡ o
  choose_same e es d scope o t h = cc (choose_taken e es d scope t)

  -- Where the loop over the edges of a BATCH_SPLIT ends without an error, an edge it picks is the
  -- first one whose condition holds among those that are no defaults, or, where no such edge is
  -- there, the first default edge; it picks none only where neither is there.
  pub choose_edge-IsChoice :
      (edges : List Edge) (d : Option Edge) (scope : Fields) (o : Option Edge)
      → choose_edge expr edges d scope ≡ ok o
      → IsChoice edges d scope o
  choose_edge-IsChoice [] d scope o h = rw (← choose_nil d scope o h) (IsChoice-nil d scope)
  choose_edge-IsChoice (e ∷ es) d scope o h = elim (Bool-cases (is_default e)) [
    | inl default ↦
        IsChoice-skip e es d (first_default d e) scope o (inl default)
          (default_of_met d e es default)
          (choose_edge-IsChoice es (first_default d e) scope o
            (rw (choose_default e es d scope default) at h))
    | inr other ↦ elim (Verdict-cases (evaluate_condition expr e.condition scope)) [
      | inl (f, p) ↦ absurd (choose_failed e es d scope f o other p h)
      | inr (inl p) ↦
          let same : some e ≡ o = choose_same e es d scope o (other, p) h in
          rw (← same) (
            inl (record { before = []; after = es; split = refl; passed = tt; takes = (other, p) }))
      | inr (inr p) ↦
          IsChoice-skip e es d d scope o (inr p) (default_of_skip d e es other)
            (choose_edge-IsChoice es d scope o (rw (choose_passed e es d scope other p) at h))
    ]
  ]
