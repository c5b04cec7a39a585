-- ===== src/Payment/Settled.antt =====
-- Deliveries of webhooks on the table of payments: a payment settles once.
use nsw_core.Common.{
  ℕ, ◌+◌, String, ◌≡◌, ◌≢◌, refl, sym, ap, subst, ◌∙◌, Bool, true, false, not, ◌&&◌, Option, none,
  some, ◌⊎◌, inl, inr, List, [], ◌∷◌, In, arith, str_eq, str_eq→eq, str_eq→ne, eq_iff, Bool-cases,
  Option-cases, if◌then◌else◌,
}
use nsw_core.Payment.Transaction.{PaymentError, Outcome, done, failed, Transaction, status_success}
use nsw_core.Payment.Table.{Table, by_reference, save}
use nsw_core.Payment.Gateway.{WebhookPayload}
use nsw_core.Payment.Service.{
  is_settled, Settlement, signal_of, matches_payment, settled_row, settlement, settle_row, settle,
}

abbrev is_final : Option String → Bool
is_final none = false
is_final (some signal) = true

module _ {Amount : Type 0} where
  -- The rows of one primary key have one reference.
  abbrev pub IsKeyed : Table Amount → Type 0
  IsKeyed ts =
      (t s : Transaction Amount)
      → In t ts
      → In s ts
      → t.id ≡ s.id
      → t.reference_number ≡ s.reference_number

  pub by_reference-In :
      (ref : String) (ts : Table Amount) (t : Transaction Amount)
      → by_reference ref ts ≡ some t
      → In t ts × (t.reference_number ≡ ref)
  unfolding by_reference
  by_reference-In ref [] t e = absurd (ground arith)
  by_reference-In ref (s ∷ ts) t e = elim (Bool-cases (str_eq s.reference_number ref)) [
    | inl same ↦
        let p : s ≡ t = ground arith in
        (
          inl (sym p),
          subst (λ (x : Transaction Amount). x.reference_number ≡ ref) p
              (str_eq→eq s.reference_number ref same),
        )
    | inr other ↦ let (i, p) = by_reference-In ref ts t (ground arith) in (inr i, p)
  ]

  pub by_reference-save :
      (t s : Transaction Amount) (ts : Table Amount)
      → by_reference t.reference_number ts ≡ some s
      → s.id ≡ t.id
      → by_reference t.reference_number (save t ts) ≡ some t
  unfolding by_reference save
  by_reference-save t s [] e p = absurd (ground arith)
  by_reference-save t s (r ∷ ts) e p = elim (Bool-cases (str_eq r.id t.id)) [
    | inl same ↦ ground (arith, eq_iff t.reference_number t.reference_number)
    | inr other ↦ elim (Bool-cases (str_eq r.reference_number t.reference_number)) [
      | inl found ↦
          let q : r ≡ s = ground arith in
          absurd (str_eq→ne r.id t.id other (ap (λ (x : Transaction Amount). x.id) q ∙ p))
      | inr missed ↦ let rest = by_reference-save t s ts (ground arith) p in ground (arith, rest)
    ]
  ]

  by_reference-save_ne :
      (ref : String) (t : Transaction Amount) (ts : Table Amount)
      → ref ≢ t.reference_number
      → ((r : Transaction Amount) → In r ts → r.id ≡ t.id → r.reference_number ≡ t.reference_number)
      → by_reference ref (save t ts) ≡ by_reference ref ts
  unfolding by_reference save
  by_reference-save_ne ref t [] n k = ground (arith, eq_iff t.reference_number ref)
  by_reference-save_ne ref t (r ∷ ts) n k = elim (Bool-cases (str_eq r.id t.id)) [
    | inl same ↦
        let q = k r (inl refl) (str_eq→eq r.id t.id same) in
        ground (arith, eq_iff t.reference_number ref, eq_iff r.reference_number ref)
    | inr other ↦
        let rest = by_reference-save_ne ref t ts n (λ x i. k x (inr i)) in ground (arith, rest)
  ]

  In-save : (r t : Transaction Amount) (ts : Table Amount) → In r (save t ts) → (r ≡ t) ⊎ In r ts
  unfolding save
  In-save r t [] (inl e) = inl e
  In-save r t [] (inr i) = elim i [ ]
  In-save r t (s ∷ ts) i = elim (Bool-cases (str_eq s.id t.id)) [
    | inl same ↦ elim (rw same at i) [ inl e ↦ inl e | inr j ↦ inr (inr j) ]
    | inr other ↦ elim (rw other at i) [
      | inl e ↦ inr (inl e)
      | inr j ↦ elim (In-save r t ts j) [ inl e ↦ inl e | inr k ↦ inr (inr k) ]
    ]
  ]

  save-IsKeyed :
      (s t : Transaction Amount) (ts : Table Amount)
      → In s ts
      → s.id ≡ t.id
      → s.reference_number ≡ t.reference_number
      → IsKeyed ts
      → IsKeyed (save t ts)
  save-IsKeyed s t ts there p q k a b i j e = elim (In-save a t ts i) [
    | inl x ↦ elim (In-save b t ts j) [
      | inl y ↦ ap (λ (r : Transaction Amount). r.reference_number) (x ∙ sym y)
      | inr m ↦
          let d : s.id ≡ b.id = p ∙ sym (ap (λ (r : Transaction Amount). r.id) x) ∙ e in
          ap (λ (r : Transaction Amount). r.reference_number) x ∙ sym q ∙ k s b there m d
    ]
    | inr l ↦ elim (In-save b t ts j) [
      | inl y ↦
          let d : a.id ≡ s.id = e ∙ ap (λ (r : Transaction Amount). r.id) y ∙ sym p in
          k a s l there d ∙ q ∙ sym (ap (λ (r : Transaction Amount). r.reference_number) y)
      | inr m ↦ k a b l m e
    ]
  ]

  abbrev pub ended : Option (Transaction Amount) → ℕ
  ended none = 0
  ended (some t) = if is_settled t.status then 1 else 0

  -- Whether the delivery has taken the payment of a reference to a final status, and so its step.
  abbrev pub advances : String → Outcome (Option (Settlement Amount)) → ℕ
  advances ref (failed e) = 0
  advances ref (done none) = 0
  advances ref (done (some s)) =
      if str_eq s.reference ref && is_final (signal_of s.status) then 1 else 0

  unfoldable pub total : String → List (Outcome (Option (Settlement Amount))) → ℕ
  unfolding signal_of
  total ref [] = 0
  total ref (r ∷ rs) = advances ref r + total ref rs

module _ {Amount : Type 0} (same_amount : Amount → Amount → Bool) where
  -- Deliveries in the order in which their transactions commit, each with its status.
  unfoldable pub settle_all :
      List (String × WebhookPayload Amount)
      → Table Amount
      → List (Outcome (Option (Settlement Amount))) × Table Amount
  unfolding settle
  settle_all [] ts = ([], ts)
  settle_all ((status, p) ∷ ds) ts =
      let (r, ts') = settle same_amount status p ts in
      let (rs, last) = settle_all ds ts' in (r ∷ rs, last)

  -- A delivery advances a payment exactly when it ends it, and leaves one that has ended.
  record Once (ref : String) (ts : Table Amount) (r : Outcome (Option (Settlement Amount)))
      (us : Table Amount) : Type 0 where
    counted : advances ref r + ended (by_reference ref ts) ≡ ended (by_reference ref us)
    kept : ended (by_reference ref ts) ≡ 1 → by_reference ref us ≡ by_reference ref ts
    keyed : IsKeyed us

  idle-Once :
      (ref : String) (ts : Table Amount) (r : Outcome (Option (Settlement Amount)))
      → advances ref r ≡ 0
      → IsKeyed ts
      → Once ref ts r ts
  idle-Once ref ts r z k = record {
    counted = ap (λ n. n + ended (by_reference ref ts)) z ∙ omega arith;
    kept = λ e. refl;
    keyed = k;
  }

  saved-Once :
      (ref status : String) (t u : Transaction Amount) (ts : Table Amount)
      → by_reference t.reference_number ts ≡ some t
      → is_settled t.status ≡ false
      → u.id ≡ t.id
      → u.reference_number ≡ t.reference_number
      → u.status ≡ status
      → IsKeyed ts
      → Once ref ts (done (some (settlement same_amount status t))) (save u ts)
  unfolding signal_of
  saved-Once ref status t u ts found fresh i r q k =
      let there = (by_reference-In t.reference_number ts t found).0 in
      let after = by_reference-save u t ts (ap (λ x. by_reference x ts) r ∙ found) (sym i) in
      let keyed = save-IsKeyed t u ts there (sym i) (sym r) k in
      elim (Bool-cases (str_eq t.reference_number ref)) [
        | inl same ↦
            let e = str_eq→eq t.reference_number ref same in
            let before = subst (λ x. by_reference x ts ≡ some t) e found in
            let then_u = subst (λ x. by_reference x (save u ts) ≡ some u) (r ∙ e) after in
            record {
              counted = rw (before, then_u) (ground arith);
              kept = λ over. absurd (ground (arith, before, fresh, over));
              keyed = keyed;
            }
        | inr other ↦
            let same_row =
              by_reference-save_ne ref u ts
                (λ e. str_eq→ne t.reference_number ref other (sym (e ∙ r)))
                (λ x j d. k x t j there (d ∙ i) ∙ sym r) in
            record {
              counted = rw (other, same_row) (omega arith);
              kept = λ over. same_row;
              keyed = keyed;
            }
      ]

  settle_row-Once :
      (ref status : String) (p : WebhookPayload Amount) (t : Transaction Amount) (ts : Table Amount)
      → by_reference p.reference_number ts ≡ some t
      → IsKeyed ts
      → Once ref ts
          (settle_row same_amount status p t ts).0
          (settle_row same_amount status p t ts).1
  unfolding settle_row settled_row signal_of
  settle_row-Once ref status p t ts found k = elim (Bool-cases (is_settled t.status)) [
    | inl over ↦ rw over (idle-Once ref ts (done none) refl k)
    | inr fresh ↦
        elim (Bool-cases (str_eq status status_success && not (matches_payment same_amount p t))) [
          | inl wrong ↦
              rw (fresh, wrong) (idle-Once ref ts (failed PaymentError.amount_mismatch) refl k)
          | inr right ↦
              let at_row = (by_reference-In p.reference_number ts t found).1 in
              rw (fresh, right)
                (saved-Once ref status t (settled_row same_amount status p t) ts
                  (ap (λ x. by_reference x ts) at_row ∙ found) fresh refl refl refl k)
        ]
  ]

  settle-Once :
      (ref status : String) (p : WebhookPayload Amount) (ts : Table Amount)
      → IsKeyed ts
      → Once ref ts (settle same_amount status p ts).0 (settle same_amount status p ts).1
  unfolding settle
  settle-Once ref status p ts k = elim (Option-cases (by_reference p.reference_number ts)) [
    | inl gone ↦
        rw (settle, gone) (idle-Once ref ts (failed PaymentError.transaction_not_found) refl k)
    | inr (t, found) ↦ rw (settle, found) (settle_row-Once ref status p t ts found k)
  ]

  -- Where the rows of one primary key have one reference, and for every sequence of webhook
  -- deliveries in the order in which their transactions commit: the number of deliveries that
  -- advance the step of a reference, and one if its payment is settled before, make one if its
  -- payment is settled after and none otherwise, so a payment advances its step at most once; and a
  -- payment that is settled before keeps its row.
  pub settle_all-once :
      (ref : String) (ds : List (String × WebhookPayload Amount)) (ts : Table Amount)
      → IsKeyed ts
      → (total ref (settle_all ds ts).0 + ended (by_reference ref ts)
          ≡ ended (by_reference ref (settle_all ds ts).1))
        × (ended (by_reference ref ts) ≡ 1
            → by_reference ref (settle_all ds ts).1 ≡ by_reference ref ts)
  unfolding settle_all total
  settle_all-once ref [] ts k = (omega arith, λ e. refl)
  settle_all-once ref ((status, p) ∷ ds) ts k =
      let now = settle-Once ref status p ts k in
      let later = settle_all-once ref ds (settle same_amount status p ts).1 now.keyed in
      (omega (arith, now.counted, later.0), λ e. later.1 (ap ended (now.kept e) ∙ e) ∙ now.kept e)
