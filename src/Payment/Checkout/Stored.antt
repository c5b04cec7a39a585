-- ===== src/Payment/Checkout/Stored.antt =====
-- The row that CreateCheckoutSession leaves for the reference that it answers.
use nsw_core.Common.{
  ℕ, String, ◌≡◌, refl, sym, ap, ◌∙◌, true, false, Option, none, some, inl, inr, [], ◌∷◌, arith,
  str_eq, str_eq→eq, eq_iff, Bool-cases,
}
use nsw_core.Payment.Transaction.{
  PaymentError, Outcome, done, failed, status_failed, Transaction, CheckoutRequest,
  CheckoutResponse, is_valid_request,
}
use nsw_core.Payment.Table.{Table, by_reference, save, create, is_taken, append}
use nsw_core.Payment.Gateway.{SessionRequest, SessionResponse, Payments}
use nsw_core.Payment.Settled.{by_reference-save}
use nsw_core.Payment.Checkout.{
  with_session_id, create_row, update_row, new_transaction, session_request, checkout_response,
  with_session, create_checkout_session,
}

by_reference-append :
    {Amount : Type 0} (t : Transaction Amount) (ts : Table Amount)
    → is_taken t ts ≡ false
    → by_reference t.reference_number (append t ts) ≡ some t
unfolding by_reference is_taken
by_reference-append t [] e = ground (arith, eq_iff t.reference_number t.reference_number)
by_reference-append t (s ∷ ts) e =
    let rest = by_reference-append t ts (ground arith) in ground (arith, rest)

-- No other call comes between, the database answers, and what is called leaves the table.
pub record Alone (h : Payments) : Type 0 where
  pub stored : (ts : Table h.Amount) (w : h.World) → h.load (h.store ts w) ≡ ts
  pub answers : (w : h.World) → h.database w ≡ (none, w)
  pub opened :
      (g : String) (q : SessionRequest h.Amount) (w : h.World)
      → h.load (h.create_session g q w).1 ≡ h.load w

-- A request that gets as far as the gateway: each check passes, and the reference is a new one.
pub record Opens (h : Payments) (r : CheckoutRequest h.Amount) (w : h.World) : Type 0 where
  pub valid : is_valid_request h.is_positive (h.now w) r ≡ true
  pub known : h.has_gateway r.gateway_id ≡ true
  pub mapping : String
  pub resolved : h.resolve_payee r.gateway_id r.payee ≡ some mapping
  pub reference : String
  pub issued : h.World
  pub generated : h.generate_reference r w ≡ (done reference, issued)
  pub named : str_eq reference "" ≡ false
  pub free :
      is_taken (new_transaction h (h.new_id issued).0 reference r) (h.load (h.new_id issued).1)
      ≡ false

module _ (h : Payments) (r : CheckoutRequest h.Amount) where
  open h use {Amount, World}

  -- The answer, and the row of the reference, by what the gateway has answered.
  abbrev pub IsLeft :
      ℕ
      → Transaction Amount
      → Outcome (Option SessionResponse)
      → Outcome CheckoutResponse × World
      → Type 0
  IsLeft started t (failed e) (o, w) =
      (o ≡ failed e)
      × (by_reference t.reference_number (h.load w) ≡ some (record t { status = status_failed }))
  IsLeft started t (done none) (o, w) =
      (o ≡ failed PaymentError.missing_session)
      × (by_reference t.reference_number (h.load w) ≡ some t)
  IsLeft started t (done (some s)) (o, w) =
      (o ≡ done (checkout_response h started r t s))
      × (by_reference t.reference_number (h.load w) ≡ some (with_session_id s.session_id t))

  module _ (alone : Alone h) where
    row_updated :
        (t u : Transaction Amount) (w : World)
        → by_reference t.reference_number (h.load w) ≡ some t
        → t.id ≡ u.id
        → t.reference_number ≡ u.reference_number
        → ((update_row h u w).0 ≡ none)
          × (by_reference t.reference_number (h.load (update_row h u w).1) ≡ some u)
    unfolding update_row
    row_updated t u w there i q =
        let kept = ap (λ x. by_reference x (h.load w)) (sym q) ∙ there in
        rw (alone.answers w) (
          refl,
          ap (by_reference t.reference_number) (alone.stored (save u (h.load w)) w)
              ∙ ap (λ x. by_reference x (save u (h.load w))) q
              ∙ by_reference-save u t (h.load w) kept i,
        )

    with_session-IsLeft :
        (started : ℕ) (t : Transaction Amount) (o : Outcome (Option SessionResponse)) (w : World)
        → t.session_id ≡ ""
        → by_reference t.reference_number (h.load w) ≡ some t
        → IsLeft started t o (with_session h started r t (o, w))
    with_session-IsLeft started t (failed e) w new there =
        (refl, (row_updated t (record t { status = status_failed }) w there refl refl).1)
    with_session-IsLeft started t (done none) w new there = (refl, there)
    with_session-IsLeft started t (done (some s)) w new there =
        elim (Bool-cases (str_eq s.session_id "")) [
          | inl bare ↦
              let e = str_eq→eq s.session_id "" bare ∙ sym new in
              rw bare (refl, there ∙ ap (λ x. some (with_session_id x t)) (sym e))
          | inr given ↦
              let d = row_updated t (with_session_id s.session_id t) w there refl refl in
              rw (given, d.0) (refl, d.1)
        ]

module _ (h : Payments) (r : CheckoutRequest h.Amount) (w : h.World) where
  open h use {Amount, World}

  abbrev pub opened_row : Opens h r w → Transaction Amount
  opened_row o = new_transaction h (h.new_id o.issued).0 o.reference r

  -- The world in which the gateway is called.
  abbrev pub opened_world : Opens h r w → World
  opened_world o = let v = (h.new_id o.issued).1 in h.store (append (opened_row o) (h.load v)) v

  -- Where no other call comes between, the database answers, the gateway leaves the table, the
  -- request passes each check and its reference is a new one, CreateCheckoutSession ends by the
  -- answer of the gateway, which is called when the row is there: with an error its row is FAILED
  -- and the error returned; without a session the row stays as it was inserted and an error is
  -- returned; with a session the row is pending with the ID of the session, and the session is
  -- answered under the new reference.
  pub create_checkout_session-IsLeft :
      (alone : Alone h) (o : Opens h r w)
      → IsLeft h r
          (h.now w)
          (opened_row o)
          (h.create_session r.gateway_id (session_request h o.mapping r) (opened_world o)).0
          (create_checkout_session h r w)
  unfolding create_checkout_session create_row create
  create_checkout_session-IsLeft alone o =
      let v = (h.new_id o.issued).1 in
      let ans = h.create_session r.gateway_id (session_request h o.mapping r) (opened_world o) in
      let there =
        ap (by_reference o.reference) (
          alone.opened r.gateway_id (session_request h o.mapping r) (opened_world o)
          ∙ alone.stored (append (opened_row o) (h.load v)) v)
        ∙ by_reference-append (opened_row o) (h.load v) o.free in
      rw (o.valid, o.known, o.resolved, o.generated, o.named, alone.answers v, o.free)
        (with_session-IsLeft h r alone (h.now w) (opened_row o) ans.0 ans.1 refl there)
