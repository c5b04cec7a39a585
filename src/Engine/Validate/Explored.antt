-- ===== src/Engine/Validate/Explored.antt =====
-- The nodes that the loops of validateGatewayRegion see.
use nsw_core.Common.{
  ℕ, zero, suc, String, ◌≡◌, refl, sym, subst, ap, ◌∙◌, Bool, true, false, not, ◌&&◌, ◌||◌, some,
  ◌⊎◌, ◌↔◌, inl, inr, List, [], ◌∷◌, ◌++◌, arith, str_eq, str_eq→eq, eq→str_eq, mem_text,
  mem_text→In, In, In-append, In-append_left, In-append_right, Bool-cases,
}
use nsw_core.Engine.Dsl.{Edge}
use nsw_core.Engine.Validate.{visit_edges, explore}

module _ (stop : String → Bool) (edges : List Edge) where
  -- A path of edges whose nodes after the first are none that is stopped at.
  pub data Walk (a : String) : String → Type 0 where
    here : Walk a a
    step :
        (e : Edge) → Walk a e.source_id → In e edges → stop e.target_id ≡ false → Walk a e.target_id

module _ (stop : String → Bool) where
  -- The edge leads on from `curr`, or to a node that is stopped at or seen.
  abbrev Handled : String → List String → Edge → Type 0
  Handled curr seen e =
      e.source_id ≡ curr → (stop e.target_id ≡ true) ⊎ In {A = String} e.target_id seen

  record Visited (es : List Edge) (curr : String) (queue seen queue' seen' : List String)
      : Type 0 where
    kept : (x : String) → In x seen → In x seen'
    queued : (x : String) → In x queue → In x queue'
    inside : (x : String) → In x queue' → In x queue ⊎ In x seen'
    found :
        (x : String)
        → In x seen'
        → In x seen
          ⊎ (In x queue'
              × ((e : Edge) × In e es
                  × (e.source_id ≡ curr)
                  × (stop e.target_id ≡ false)
                  × (e.target_id ≡ x)))
    handled : (e : Edge) → In e es → Handled curr seen' e

  pub taken-parts :
      (a b c : Bool) → (a && not (b || c)) ≡ true → (a ≡ true) × (b ≡ false) × (c ≡ false)
  taken-parts a b c h = ground arith

  left-parts : (a b c : Bool) → (a && not (b || c)) ≡ false → a ≡ true → (b ≡ true) ⊎ (c ≡ true)
  left-parts true true c h p = inl refl
  left-parts true false true h p = inr refl
  left-parts true false false h p = absurd (ground arith)
  left-parts false b c h p = absurd (ground arith)

  pub visit_taken :
      (e : Edge) (es : List Edge) (curr : String) (queue seen : List String)
      → (str_eq e.source_id curr && not (stop e.target_id || mem_text e.target_id seen)) ≡ true
      → visit_edges stop (e ∷ es) curr queue seen
        ≡ visit_edges stop es curr (queue ++ e.target_id ∷ []) (e.target_id ∷ seen)
  unfolding visit_edges
  visit_taken e es curr queue seen h = ground arith

  pub visit_left :
      (e : Edge) (es : List Edge) (curr : String) (queue seen : List String)
      → (str_eq e.source_id curr && not (stop e.target_id || mem_text e.target_id seen)) ≡ false
      → visit_edges stop (e ∷ es) curr queue seen ≡ visit_edges stop es curr queue seen
  unfolding visit_edges
  visit_left e es curr queue seen h = ground arith

  Visited-cons_taken :
      (e : Edge) (es : List Edge) (curr : String) (queue seen queue' seen' : List String)
      → e.source_id ≡ curr
      → stop e.target_id ≡ false
      → Visited es curr (queue ++ e.target_id ∷ []) (e.target_id ∷ seen) queue' seen'
      → Visited (e ∷ es) curr queue seen queue' seen'
  Visited-cons_taken e es curr queue seen queue' seen' from free v = record {
    kept = λ x i. v.kept x (inr i);
    queued = λ x i. v.queued x (In-append_left x queue (e.target_id ∷ []) i);
    inside = λ x i. elim (v.inside x i) [
      | inr j ↦ inr j
      | inl j ↦ elim (In-append x queue (e.target_id ∷ []) j) [
        | inl k ↦ inl k
        | inr k ↦ elim k [ inl p ↦ inr (v.kept x (inl p)) | inr n ↦ elim n [ ] ]
      ]
    ];
    found = λ x i. elim (v.found x i) [
      | inr (j, (d, k, p, q, r)) ↦ inr (j, (d, inr k, p, q, r))
      | inl (inr j) ↦ inl j
      | inl (inl p) ↦ inr (
        v.queued x (In-append_right x queue (e.target_id ∷ []) (inl p)),
        (e, inl refl, from, free, sym p),
      )
    ];
    handled = λ d i q. elim i [
      | inr j ↦ v.handled d j q
      | inl p ↦ inr (v.kept d.target_id (inl (ap (λ (x : Edge). x.target_id) p)))
    ];
  }

  Visited-cons_left :
      (e : Edge) (es : List Edge) (curr : String) (queue seen queue' seen' : List String)
      → (e.source_id ≡ curr → (stop e.target_id ≡ true) ⊎ In e.target_id seen)
      → Visited es curr queue seen queue' seen'
      → Visited (e ∷ es) curr queue seen queue' seen'
  Visited-cons_left e es curr queue seen queue' seen' old v = record {
    kept = v.kept;
    queued = v.queued;
    inside = v.inside;
    found = λ x i. elim (v.found x i) [
      | inl j ↦ inl j
      | inr (j, (d, k, p, q, r)) ↦ inr (j, (d, inr k, p, q, r))
    ];
    handled = λ d i q. elim i [
      | inr j ↦ v.handled d j q
      | inl p ↦
          let there : (stop e.target_id ≡ true) ⊎ In e.target_id seen =
            old (ap (λ (x : Edge). x.source_id) (sym p) ∙ q) in
          rw p (elim there [ inl s ↦ inl s | inr k ↦ inr (v.kept e.target_id k) ])
    ];
  }

  visit-Visited :
      (es : List Edge) (curr : String) (queue seen : List String)
      → Visited es curr queue seen
          (visit_edges stop es curr queue seen).0
          (visit_edges stop es curr queue seen).1
  unfolding visit_edges
  visit-Visited [] curr queue seen = record {
    kept = λ x i. i;
    queued = λ x i. i;
    inside = λ x i. inl i;
    found = λ x i. inl i;
    handled = λ e i. elim i [ ];
  }
  visit-Visited (e ∷ es) curr queue seen =
      elim (Bool-cases
        (str_eq e.source_id curr && not (stop e.target_id || mem_text e.target_id seen))) [
          | inl taken ↦
              let (a, b, c) =
                taken-parts (str_eq e.source_id curr) (stop e.target_id) (mem_text e.target_id seen)
                  taken in
              rw (visit_taken e es curr queue seen taken) (
                Visited-cons_taken e es curr queue seen _ _ (str_eq→eq e.source_id curr a) b
                  (visit-Visited es curr (queue ++ e.target_id ∷ []) (e.target_id ∷ seen)))
          | inr left ↦ rw (visit_left e es curr queue seen left) (
              Visited-cons_left e es curr queue seen _ _
                (λ p.
                  elim (left-parts (str_eq e.source_id curr) (stop e.target_id)
                    (mem_text e.target_id seen) left (eq→str_eq e.source_id curr p)) [
                      | inl s ↦ inl s
                      | inr m ↦ inr (mem_text→In e.target_id seen m)
                    ])
                (visit-Visited es curr queue seen))
        ]

  -- The loop so far: what is seen is reached, and what is not queued any more is handled.
  record Explored (edges : List Edge) (a : String) (queue seen : List String) : Type 0 where
    start : In a seen
    inside : (x : String) → In x queue → In x seen
    reached : (x : String) → In x seen → Walk stop edges a x
    done : (x : String) → In x seen → In x queue ⊎ ((e : Edge) → In e edges → Handled x seen e)

  Handled-later :
      (x : String) (seen seen' : List String) (e : Edge)
      → ((y : String) → In y seen → In y seen')
      → Handled x seen e
      → Handled x seen' e
  Handled-later x seen seen' e k h p = elim (h p) [ inl s ↦ inl s | inr i ↦ inr (k e.target_id i) ]

  found-Walk :
      (edges : List Edge) (a x curr : String)
      → Walk stop edges a curr
      → (e : Edge) × In e edges
        × (e.source_id ≡ curr)
        × (stop e.target_id ≡ false)
        × (e.target_id ≡ x)
      → Walk stop edges a x
  found-Walk edges a x curr p (e, i, from, free, to) =
      subst (Walk stop edges a) to (step e (subst (Walk stop edges a) (sym from) p) i free)

  Explored-step :
      (edges : List Edge) (a curr : String) (queue seen queue' seen' : List String)
      → Explored edges a (curr ∷ queue) seen
      → Visited edges curr queue seen queue' seen'
      → Explored edges a queue' seen'
  Explored-step edges a curr queue seen queue' seen' h v = record {
    start = v.kept a h.start;
    inside = λ x i. elim (v.inside x i) [ inl j ↦ v.kept x (h.inside x (inr j)) | inr j ↦ j ];
    reached = λ x i. elim (v.found x i) [
      | inl j ↦ h.reached x j
      | inr (j, w) ↦ found-Walk edges a x curr (h.reached curr (h.inside curr (inl refl))) w
    ];
    done = λ x i. elim (v.found x i) [
      | inr (j, w) ↦ inl j
      | inl j ↦ elim (h.done x j) [
        | inl (inl p) ↦ inr (λ e k q. v.handled e k (q ∙ p))
        | inl (inr k) ↦ inl (v.queued x k)
        | inr k ↦ inr (λ e l. Handled-later x seen seen' e v.kept (k e l))
      ]
    ];
  }

  Walk-In :
      (edges : List Edge) (a : String) (seen : List String)
      → Explored edges a [] seen
      → {x : String} → Walk stop edges a x
      → In x seen
  Walk-In edges a seen h here = h.start
  Walk-In edges a seen h (step e p i free) = elim (h.done e.source_id (Walk-In edges a seen h p)) [
    | inl n ↦ elim n [ ]
    | inr k ↦ elim (k e i refl) [ inl s ↦ absurd (ground arith) | inr j ↦ j ]
  ]

  explore_end :
      (n : ℕ) (edges : List Edge) (seen ids : List String)
      → explore stop n edges [] seen ≡ some ids
      → seen ≡ ids
  unfolding explore
  explore_end zero edges seen ids h = ground arith
  explore_end (suc n) edges seen ids h = ground arith

  explore-Explored :
      (n : ℕ) (edges : List Edge) (a : String) (queue seen ids : List String)
      → Explored edges a queue seen
      → explore stop n edges queue seen ≡ some ids
      → Explored edges a [] ids
  unfolding explore
  explore-Explored n edges a [] seen ids h e =
      subst (Explored edges a []) (explore_end n edges seen ids e) h
  explore-Explored zero edges a (curr ∷ queue) seen ids h e = absurd (ground arith)
  explore-Explored (suc n) edges a (curr ∷ queue) seen ids h e =
      explore-Explored n edges a (visit_edges stop edges curr queue seen).0
        (visit_edges stop edges curr queue seen).1 ids
        (Explored-step edges a curr queue seen _ _ h (visit-Visited edges curr queue seen)) e

  -- Where the search of validateGatewayRegion from a node ends within its fuel, the nodes that it
  -- has seen are exactly those that a path of edges reaches from that node without passing a node
  -- that is stopped at.
  pub explore-Walk :
      (n : ℕ) (edges : List Edge) (a : String) (ids : List String)
      → explore stop n edges (a ∷ []) (a ∷ []) ≡ some ids
      → (x : String) → In x ids ↔ Walk stop edges a x
  explore-Walk n edges a ids h x =
      let d =
        explore-Explored n edges a (a ∷ []) (a ∷ []) ids
          (record {
            start = inl refl;
            inside = λ y i. i;
            reached = λ y i. elim i [
              | inl p ↦ subst (Walk stop edges a) (sym p) here
              | inr n ↦ elim n [ ]
            ];
            done = λ y i. inl i;
          })
          h in
      (d.reached x, Walk-In edges a ids d)
