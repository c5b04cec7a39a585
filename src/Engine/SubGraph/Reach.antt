-- ===== src/Engine/SubGraph/Reach.antt =====
-- The walk of extractSubGraph over the edges, and the paths it follows.
use nsw_core.Common.{
  ℕ, zero, suc, String, ◌≡◌, ◌≢◌, refl, sym, ap, ◌∙◌, true, false, ◌||◌, Option, some, ◌⊎◌, ◌↔◌,
  inl, inr, List, [], ◌∷◌, arith, In, str_eq, str_eq→eq, eq→str_eq, mem_text, mem_text→In,
  Bool-cases, Option-cases, eq_iff,
}
use nsw_core.Engine.Dsl.{Edge}
use nsw_core.Engine.SubGraph.{walk_edges, walk_from}

module _ (edges : List Edge) (stop : String) where
  -- A path of edges from `a` whose nodes are all other than the stop.
  pub data Reach (a : String) : String → Type 0 where
    here : a ≢ stop → Reach a a
    step : (e : Edge) → Reach a e.source_id → In e edges → e.target_id ≢ stop → Reach a e.target_id

  Reach-ne-stop : {a x : String} → Reach a x → a ≢ stop
  Reach-ne-stop (here h) = h
  Reach-ne-stop (step e r i h) = Reach-ne-stop r

  pub Reach-end : {a x : String} → Reach a x → x ≢ stop
  Reach-end (here h) = h
  Reach-end (step e r i h) = h

  -- A path is lengthened at its start.
  Reach-edge :
      (e : Edge) (a : String) {x : String}
      → a ≢ stop
      → In e edges
      → e.source_id ≡ a
      → Reach e.target_id x
      → Reach a x
  Reach-edge e a n i s (here h) = step e (rw s (here n)) i h
  Reach-edge e a n i s (step d r j h) = step d (Reach-edge e a n i s r) j h

  -- Every edge of `x` leads to the stop or into `ids`.
  abbrev pub IsClosedAt : List String → String → Type 0
  IsClosedAt ids x =
      (e : Edge) → In e edges → e.source_id ≡ x → (e.target_id ≡ stop) ⊎ In e.target_id ids

  IsClosedAt-mono :
      (ids ids' : List String) (x : String)
      → ((y : String) → In y ids → In y ids')
      → IsClosedAt ids x
      → IsClosedAt ids' x
  IsClosedAt-mono ids ids' x k h e i s = elim (h e i s) [
    | inl p ↦ inl p
    | inr p ↦ inr (k e.target_id p)
  ]

  -- What a walk from `id` adds to the visited IDs.
  pub record Walked (id : String) (before after : List String) : Type 0 where
    pub keeps : (x : String) → In x before → In x after
    pub arrives : (id ≡ stop) ⊎ In id after
    pub closed : (x : String) → In x after → In x before ⊎ IsClosedAt after x
    pub reached : (x : String) → In x after → In x before ⊎ Reach id x

  record WalkedEdges (es : List Edge) (id : String) (before after : List String) : Type 0 where
    keeps : (x : String) → In x before → In x after
    arrives : (e : Edge) → In e es → e.source_id ≡ id → (e.target_id ≡ stop) ⊎ In e.target_id after
    closed : (x : String) → In x after → In x before ⊎ IsClosedAt after x
    reached : (x : String) → In x after → In x before ⊎ Reach id x

  module _ (walk : String → List String → Option (List String)) where
    pub edges_nil :
        (id : String) (before after : List String)
        → walk_edges walk [] id before ≡ some after
        → before ≡ after
    unfolding walk_edges
    edges_nil id before after h = ground arith

    pub edges_skip :
        (e : Edge) (es : List Edge) (id : String) (before : List String)
        → str_eq e.source_id id ≡ false
        → walk_edges walk (e ∷ es) id before ≡ walk_edges walk es id before
    unfolding walk_edges
    edges_skip e es id before h = ground arith

    edges_follow :
        (e : Edge) (es : List Edge) (id : String) (before after : List String)
        → str_eq e.source_id id ≡ true
        → walk_edges walk (e ∷ es) id before ≡ some after
        → (mid : List String) × (walk e.target_id before ≡ some mid)
          × (walk_edges walk es id mid ≡ some after)
    unfolding walk_edges
    edges_follow e es id before after h p = elim (Option-cases (walk e.target_id before)) [
      | inl q ↦ absurd (ground arith)
      | inr (mid, q) ↦ (mid, q, ground arith)
    ]

    not_own :
        (e d : Edge) (id : String) → str_eq e.source_id id ≡ false → d ≡ e → d.source_id ≡ id → ⊥
    not_own e d id other same s =
        cc (other, eq→str_eq e.source_id id (ap (λ (x : Edge). x.source_id) (sym same) ∙ s))

    walk_edges-WalkedEdges :
        ((id : String) (before after : List String)
          → walk id before ≡ some after
          → Walked id before after)
        → (es : List Edge) (id : String) (before after : List String)
        → ((e : Edge) → In e es → In e edges)
        → id ≢ stop
        → walk_edges walk es id before ≡ some after
        → WalkedEdges es id before after
    walk_edges-WalkedEdges w [] id before after sub n h =
        rw (← edges_nil id before after h) (record {
          keeps = λ x p. p;
          arrives = λ e i. elim i [ ];
          closed = λ x p. inl p;
          reached = λ x p. inl p;
        })
    walk_edges-WalkedEdges w (e ∷ es) id before after sub n h =
        elim (Bool-cases (str_eq e.source_id id)) [
          | inr other ↦
              let r =
                walk_edges-WalkedEdges w es id before after (λ d i. sub d (inr i)) n
                  (rw (edges_skip e es id before other) at h) in
              record {
                keeps = r.keeps;
                arrives = λ d i s. elim i [
                  | inl same ↦ absurd (not_own e d id other same s)
                  | inr i' ↦ r.arrives d i' s
                ];
                closed = r.closed;
                reached = r.reached;
              }
          | inl own ↦
              let (mid, first, rest) = edges_follow e es id before after own h in
              let f = w e.target_id before mid first in
              let r = walk_edges-WalkedEdges w es id mid after (λ d i. sub d (inr i)) n rest in
              record {
                keeps = λ x p. r.keeps x (f.keeps x p);
                arrives = λ d i s. elim i [
                  | inl same ↦
                      rw same
                        (elim f.arrives [ inl p ↦ inl p | inr p ↦ inr (r.keeps e.target_id p) ])
                  | inr i' ↦ r.arrives d i' s
                ];
                closed = λ x p. elim (r.closed x p) [
                  | inr c ↦ inr c
                  | inl m ↦ elim (f.closed x m) [
                    | inl b ↦ inl b
                    | inr c ↦ inr (IsClosedAt-mono mid after x r.keeps c)
                  ]
                ];
                reached = λ x p. elim (r.reached x p) [
                  | inr c ↦ inr c
                  | inl m ↦ elim (f.reached x m) [
                    | inl b ↦ inl b
                    | inr c ↦
                        inr (Reach-edge e id n (sub e (inl refl)) (str_eq→eq e.source_id id own) c)
                  ]
                ];
              }
        ]

  pub walk_seen :
      (n : ℕ) (id : String) (before after : List String)
      → (str_eq id stop || mem_text id before) ≡ true
      → walk_from (suc n) edges stop id before ≡ some after
      → before ≡ after
  unfolding walk_from
  walk_seen n id before after s h = ground arith

  pub walk_new :
      (n : ℕ) (id : String) (before : List String)
      → (str_eq id stop || mem_text id before) ≡ false
      → walk_from (suc n) edges stop id before
        ≡ walk_edges (walk_from n edges stop) edges id (id ∷ before)
  unfolding walk_from
  walk_new n id before s = ground arith

  seen_cases :
      (id : String) (before : List String)
      → (str_eq id stop || mem_text id before) ≡ true
      → (id ≡ stop) ⊎ In id before
  seen_cases id before s = elim (Bool-cases (str_eq id stop)) [
    | inl p ↦ inl (str_eq→eq id stop p)
    | inr p ↦ inr (mem_text→In id before (rw p at s))
  ]

  pub new_cases :
      (id : String) (before : List String)
      → (str_eq id stop || mem_text id before) ≡ false
      → (id ≢ stop) × (mem_text id before ≡ false)
  new_cases id before s = ground (arith, eq_iff id stop)

  pub walk_from-Walked :
      (n : ℕ) (id : String) (before after : List String)
      → walk_from n edges stop id before ≡ some after
      → Walked id before after
  walk_from-Walked zero id before after h = absurd (unfold walk_from in ground arith)
  walk_from-Walked (suc n) id before after h =
      elim (Bool-cases (str_eq id stop || mem_text id before)) [
        | inl seen ↦ rw (← walk_seen n id before after seen h) (record {
          keeps = λ x p. p;
          arrives = seen_cases id before seen;
          closed = λ x p. inl p;
          reached = λ x p. inl p;
        })
        | inr new ↦
            let (n', fresh) = new_cases id before new in
            let r =
              walk_edges-WalkedEdges (walk_from n edges stop) (walk_from-Walked n) edges id
                (id ∷ before) after (λ d i. i) n' (rw (walk_new n id before new) at h) in
            record {
              keeps = λ x p. r.keeps x (inr p);
              arrives = inr (r.keeps id (inl refl));
              closed = λ x p. elim (r.closed x p) [
                | inr c ↦ inr c
                | inl (inr b) ↦ inl b
                | inl (inl same) ↦ inr (λ e i s. r.arrives e i (s ∙ same))
              ];
              reached = λ x p. elim (r.reached x p) [
                | inr c ↦ inr c
                | inl (inr b) ↦ inl b
                | inl (inl same) ↦ inr (rw same (here n'))
              ];
            }
      ]

  Reach-In :
      (start : String) (ids : List String) {x : String}
      → Walked start [] ids
      → Reach start x
      → In x ids
  Reach-In start ids w (here n) = elim w.arrives [ inl p ↦ absurd (n p) | inr p ↦ p ]
  Reach-In start ids w (step e r i h) = elim (w.closed e.source_id (Reach-In start ids w r)) [
    | inl q ↦ elim q [ ]
    | inr c ↦ elim (c e i refl) [ inl p ↦ absurd (h p) | inr p ↦ p ]
  ]

  -- Where the walk of extractSubGraph from a node ends within its fuel, the IDs that it has visited
  -- are exactly those that a path of edges reaches from that node without passing the stop node.
  pub walk_from-Reach :
      (n : ℕ) (start : String) (ids : List String)
      → walk_from n edges stop start [] ≡ some ids
      → (x : String) → In x ids ↔ Reach start x
  walk_from-Reach n start ids h x =
      let w = walk_from-Walked n start [] ids h in
      (λ p. elim (w.reached x p) [ inl q ↦ elim q [ ] | inr q ↦ q ], Reach-In start ids w)
