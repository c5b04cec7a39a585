-- ===== src/Payment/Retried.antt =====
-- A delivery that could not advance its step, and the ones after it.
use nsw_core.Common.{
  String, ◌≡◌, refl, sym, ap, ◌∙◌, Bool, true, false, not, ◌&&◌, Option, none, some, arith, str_eq,
  inl, inr, Bool-cases,
}
use nsw_core.Payment.Transaction.{
  PaymentError, task_not_advanced, done, failed, Transaction, status_success,
}
use nsw_core.Payment.Table.{Table, by_reference, save}
use nsw_core.Payment.Gateway.{WebhookPayload, Response, Payments}
use nsw_core.Payment.Service.{
  to_domain_status, is_settled, signal_of, settlement, settled_row, settle_row, settle,
  matches_payment, run_in_transaction, step_payload, advance, process_webhook,
}
use nsw_core.Payment.Checkout.{with_session_id}
use nsw_core.Payment.Settled.{by_reference-save, by_reference-In}

module _ {Amount : Type 0} (same_amount : Amount → Amount → Bool) where
  -- By the row that is found.
  settle_ended :
      (status : String) (p : WebhookPayload Amount) (t : Transaction Amount) (ts : Table Amount)
      → by_reference p.reference_number ts ≡ some t
      → is_settled t.status ≡ true
      → settle same_amount status p ts ≡ (done none, ts)
  unfolding settle settle_row
  settle_ended status p t ts found over = rw (settle, found, over) refl

  settle_refused :
      (status : String) (p : WebhookPayload Amount) (t : Transaction Amount) (ts : Table Amount)
      → by_reference p.reference_number ts ≡ some t
      → is_settled t.status ≡ false
      → (str_eq status status_success && not (matches_payment same_amount p t)) ≡ true
      → settle same_amount status p ts ≡ (failed PaymentError.amount_mismatch, ts)
  unfolding settle settle_row
  settle_refused status p t ts found fresh wrong = rw (settle, found, fresh, wrong) refl

  settle_taken :
      (status : String) (p : WebhookPayload Amount) (t : Transaction Amount) (ts : Table Amount)
      → by_reference p.reference_number ts ≡ some t
      → is_settled t.status ≡ false
      → (str_eq status status_success && not (matches_payment same_amount p t)) ≡ false
      → settle same_amount status p ts ≡ (
        done (some (settlement same_amount status t)),
        save (settled_row same_amount status p t) ts,
      )
  unfolding settle settle_row
  settle_taken status p t ts found fresh right = rw (settle, found, fresh, right) refl

module _ (h : Payments) where
  open h use {Amount, Request, World}

  -- A delivery that a gateway vouches for, up to its transaction.
  pub record Delivers (gateway : String) (request : Request) (p : WebhookPayload Amount)
      (status : String) (ack : Option Response) (w v : World) : Type 0 where
    pub known : h.has_gateway gateway ≡ true
    pub arrived : World
    pub verified : h.verify_webhook gateway request w ≡ (none, arrived)
    pub read : World
    pub parsed : h.parse_webhook gateway request arrived ≡ (done (some p, ack), read)
    pub named : to_domain_status p.status ≡ some status
    pub locked : h.database read ≡ (none, v)

  -- A delivery that finds its payment settled.
  ignored :
      (gateway : String) (request : Request) (p : WebhookPayload Amount) (status : String)
      (ack : Option Response) (w v : World) (t : Transaction Amount)
      → Delivers gateway request p status ack w v
      → by_reference p.reference_number (h.load v) ≡ some t
      → is_settled t.status ≡ true
      → process_webhook h gateway request w ≡ (done ack, h.store (h.load v) v)
  unfolding process_webhook run_in_transaction
  ignored gateway request p status ack w v t d found over =
      rw
        (
          d.known,
          d.verified,
          d.parsed,
          d.named,
          d.locked,
          settle_ended h.same_amount status p t (h.load v) found over,
        )
        refl

  unadvanced :
      (gateway : String) (request : Request) (p : WebhookPayload Amount) (status signal : String)
      (ack : Option Response) (w v u : World) (t : Transaction Amount) (e : PaymentError)
      → Delivers gateway request p status ack w v
      → by_reference p.reference_number (h.load v) ≡ some t
      → is_settled t.status ≡ false
      → (str_eq status status_success && not (matches_payment h.same_amount p t)) ≡ false
      → signal_of status ≡ some signal
      → h.has_completer ≡ true
      → h.complete_step t.callback_token
          (step_payload h signal (settlement h.same_amount status t))
          (h.store (save (settled_row h.same_amount status p t) (h.load v)) v)
        ≡ (some e, u)
      → process_webhook h gateway request w ≡ (failed task_not_advanced, u)
  unfolding process_webhook run_in_transaction advance
  unadvanced gateway request p status signal ack w v u t e d found fresh right s c fails =
      rw
        (
          d.known,
          d.verified,
          d.parsed,
          d.named,
          d.locked,
          settle_taken h.same_amount status p t (h.load v) found fresh right,
          c,
          s,
          fails,
        )
        refl

  final : (status signal : String) → signal_of status ≡ some signal → is_settled status ≡ true
  unfolding signal_of
  final status signal s = ground arith

  -- Where a delivery settles a payment and the task engine then answers with an error and leaves
  -- the table, ProcessWebhook returns that the step was not advanced; and for a later delivery of
  -- the same payload that finds that row it returns the acknowledgement and ends in the world right
  -- after its transaction, in which no call of the task engine stands, so the step is not advanced
  -- by it.
  pub process_webhook-lost :
      (gateway : String) (request : Request) (p : WebhookPayload Amount) (status signal : String)
      (ack : Option Response) (w v u : World) (t : Transaction Amount) (e : PaymentError)
      (w' v' : World)
      → Delivers gateway request p status ack w v
      → by_reference p.reference_number (h.load v) ≡ some t
      → is_settled t.status ≡ false
      → (str_eq status status_success && not (matches_payment h.same_amount p t)) ≡ false
      → signal_of status ≡ some signal
      → h.has_completer ≡ true
      → h.complete_step t.callback_token
          (step_payload h signal (settlement h.same_amount status t))
          (h.store (save (settled_row h.same_amount status p t) (h.load v)) v)
        ≡ (some e, u)
      → h.load u ≡ save (settled_row h.same_amount status p t) (h.load v)
      → Delivers gateway request p status ack w' v'
      → by_reference p.reference_number (h.load v') ≡ by_reference p.reference_number (h.load u)
      → (process_webhook h gateway request w ≡ (failed task_not_advanced, u))
        × (process_webhook h gateway request w' ≡ (done ack, h.store (h.load v') v'))
  unfolding settled_row
  process_webhook-lost gateway request p status signal ack w v u t e w' v' d found fresh right s c
        fails kept d' same =
      let at_row = (by_reference-In p.reference_number (h.load v) t found).1 in
      let t' = settled_row h.same_amount status p t in
      let there =
        by_reference-save t' t (h.load v) (ap (λ x. by_reference x (h.load v)) at_row ∙ found)
          refl in
      let held =
        same
        ∙ ap (by_reference p.reference_number) kept
        ∙ ap (λ x. by_reference x (save t' (h.load v))) (sym at_row)
        ∙ there in
      (
        unadvanced gateway request p status signal ack w v u t e d found fresh right s c fails,
        ignored gateway request p status ack w' v' t' d' held (final status signal s),
      )

module _ {Amount : Type 0} (same_amount : Amount → Amount → Bool) where
  -- Where a payment that is not settled has a row, and the row as it was inserted is saved whole
  -- with the ID of the session after a delivery has settled the payment, the same delivery takes
  -- the payment once more with the same outcome: the save has undone the settlement.
  pub settle-reverted :
      (status session : String) (p : WebhookPayload Amount) (t : Transaction Amount)
      (ts : Table Amount)
      → by_reference p.reference_number ts ≡ some t
      → is_settled t.status ≡ false
      → (settle same_amount status p
          (save (with_session_id session t) (settle same_amount status p ts).1)).0
        ≡ (settle same_amount status p ts).0
  unfolding matches_payment settled_row
  settle-reverted status session p t ts found fresh =
      let q = with_session_id session t in
      let at_row = (by_reference-In p.reference_number ts t found).1 in
      let held : by_reference t.reference_number ts ≡ some t =
        ap (λ x. by_reference x ts) at_row ∙ found in
      elim (Bool-cases (str_eq status status_success && not (matches_payment same_amount p t))) [
        | inl wrong ↦
            let first = settle_refused same_amount status p t ts found fresh wrong in
            let back =
              ap (λ x. by_reference x (save q ts)) (sym at_row)
              ∙ by_reference-save q t ts held refl in
            let again = settle_refused same_amount status p q (save q ts) back fresh wrong in
            rw first (ap (λ x. x.0) again)
        | inr right ↦
            let t' = settled_row same_amount status p t in
            let first = settle_taken same_amount status p t ts found fresh right in
            let after = by_reference-save t' t ts held refl in
            let back =
              ap (λ x. by_reference x (save q (save t' ts))) (sym at_row)
              ∙ by_reference-save q t' (save t' ts) after refl in
            let again =
              settle_taken same_amount status p q (save q (save t' ts)) back fresh right in
            rw first (ap (λ x. x.0) again)
      ]
