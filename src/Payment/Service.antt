-- ===== src/Payment/Service.antt =====
-- payment/service.go: ProcessWebhook.
use nsw_core.Common.{
  ℕ, ◌+◌, String, Bool, true, false, not, ◌&&◌, ◌||◌, Option, none, some, str_eq, leb, ◌==◌,
  if◌then◌else◌,
}
use nsw_core.Shared.Value.{str, Fields, end, field}
use nsw_core.Payment.Transaction.{
  PaymentError, unknown_gateway, unsupported_status, transaction_not_found, amount_mismatch,
  missing_payload, Outcome, done, failed, status_pending, status_success, status_failed, put_text,
  Transaction,
}
use nsw_core.Payment.Table.{Table, by_reference, save}
use nsw_core.Payment.Gateway.{WebhookPayload, Response, Payments}
use Prim.Native.Char.{code}

-- toDomainStatus, on the canonical statuses, which have the same texts
unfoldable pub to_domain_status : String → Option String
to_domain_status s =
    if str_eq s status_pending
    then some status_pending
    else if str_eq s status_success
    then some status_success
    else if str_eq s status_failed
    then some status_failed
    else none

-- strings.EqualFold, on ASCII
abbrev fold_code : ℕ → ℕ
fold_code n = if leb 65 n && leb n 90 then n + 32 else n

unfoldable pub equal_fold : String → String → Bool
equal_fold String.[] String.[] = true
equal_fold String.[] (String.◌∷◌ d t) = false
equal_fold (String.◌∷◌ c s) String.[] = false
equal_fold (String.◌∷◌ c s) (String.◌∷◌ d t) =
    (fold_code (code c) == fold_code (code d)) && equal_fold s t

abbrev pub is_settled : String → Bool
is_settled status = str_eq status status_success || str_eq status status_failed

-- What ProcessWebhook takes out of its transaction when it has claimed the payment.
pub record Settlement (Amount : Type 0) : Type 0 where
  pub token : String
  pub status : String
  pub reference : String
  pub amount : Amount
  pub currency : String

-- The signal of a status to the step.
unfoldable pub signal_of : String → Option String
signal_of s =
    if str_eq s status_success
    then some "success"
    else if str_eq s status_failed
    then some "fail"
    else none

module _ {Amount : Type 0} (same_amount : Amount → Amount → Bool) where
  unfoldable pub matches_payment : WebhookPayload Amount → Transaction Amount → Bool
  unfolding equal_fold
  matches_payment p t = same_amount p.amount t.amount && equal_fold p.currency t.currency

  unfoldable pub settled_row :
      String → WebhookPayload Amount → Transaction Amount → Transaction Amount
  unfolding put_text
  settled_row status p t = record t {
    status = status;
    payment_method = p.payment_method;
    gateway_metadata =
        put_text "webhook_timestamp" p.timestamp
          (put_text "gateway_transaction_id" p.gateway_transaction_id t.gateway_metadata);
  }

  abbrev pub settlement : String → Transaction Amount → Settlement Amount
  settlement status t = record {
    token = t.callback_token;
    status = status;
    reference = t.reference_number;
    amount = t.amount;
    currency = t.currency;
  }

  unfoldable pub settle_row :
      String
      → WebhookPayload Amount
      → Transaction Amount
      → Table Amount
      → Outcome (Option (Settlement Amount)) × Table Amount
  unfolding matches_payment settled_row save
  settle_row status p t ts =
      if is_settled t.status
      then (done none, ts)
      else if str_eq status status_success && not (matches_payment p t)
      then (failed amount_mismatch, ts)
      else (done (some (settlement status t)), save (settled_row status p t) ts)

  -- The function that ProcessWebhook runs in a transaction, under the lock of the row.
  unfoldable pub settle :
      String
      → WebhookPayload Amount
      → Table Amount
      → Outcome (Option (Settlement Amount)) × Table Amount
  unfolding by_reference settle_row
  settle status p ts = elim (by_reference p.reference_number ts) [
    | none ↦ (failed transaction_not_found, ts)
    | some t ↦ settle_row status p t ts
  ]

module _ (h : Payments) where
  open h use {Amount, Request, World}

  -- RunInTransaction: an error of the function, or of the database, takes every write back.
  abbrev committed : {A : Type 0} → Outcome A × Table Amount → World → Outcome A × World
  committed (failed e, ts) w = (failed e, w)
  committed (done a, ts) w = (done a, h.store ts w)

  abbrev transacted :
      {A : Type 0}
      → (Table Amount → Outcome A × Table Amount)
      → Option PaymentError × World
      → Outcome A × World
  transacted f (some e, w) = (failed e, w)
  transacted f (none, w) = committed (f (h.load w)) w

  unfoldable pub run_in_transaction :
      {A : Type 0} → (Table Amount → Outcome A × Table Amount) → World → Outcome A × World
  run_in_transaction f w = transacted f (h.database w)

  unfoldable pub step_payload : String → Settlement Amount → Fields
  step_payload signal s = field "payment_status" (str signal) (
      field "reference_number" (str s.reference)
        (field "amount" (str (h.amount_text s.amount)) (field "currency" (str s.currency) end)))

  abbrev acknowledged :
      Option Response → Option PaymentError × World → Outcome (Option Response) × World
  acknowledged ack (none, w) = (done ack, w)
  acknowledged ack (some e, w) = (failed PaymentError.task_not_advanced, w)

  -- The step is advanced outside of the transaction, by a final status alone.
  unfoldable pub advance :
      Option Response → Settlement Amount → World → Outcome (Option Response) × World
  unfolding signal_of step_payload
  advance ack s w =
      if h.has_completer
      then elim (signal_of s.status) [
        | none ↦ (done ack, w)
        | some signal ↦ acknowledged ack (h.complete_step s.token (step_payload signal s) w)
      ]
      else (done ack, w)

  abbrev after_settling :
      Option Response
      → Outcome (Option (Settlement Amount)) × World
      → Outcome (Option Response) × World
  after_settling ack (failed e, w) = (failed e, w)
  after_settling ack (done none, w) = (done ack, w)
  after_settling ack (done (some s), w) = advance ack s w

  abbrev pub settling :
      Option Response
      → WebhookPayload Amount
      → Option String
      → World
      → Outcome (Option Response) × World
  settling ack p none w = (failed unsupported_status, w)
  settling ack p (some status) w =
      after_settling ack (run_in_transaction (settle h.same_amount status p) w)

  abbrev parsed :
      Outcome (Option (WebhookPayload Amount) × Option Response) × World
      → Outcome (Option Response) × World
  parsed (failed e, w) = (failed e, w)
  parsed (done (none, ack), w) = (failed missing_payload, w)
  parsed (done (some p, ack), w) = settling ack p (to_domain_status p.status) w

  abbrev verified :
      String → Request → Option PaymentError × World → Outcome (Option Response) × World
  verified gateway request (some e, w) = (failed e, w)
  verified gateway request (none, w) = parsed (h.parse_webhook gateway request w)

  unfoldable pub process_webhook : String → Request → World → Outcome (Option Response) × World
  unfolding to_domain_status settle run_in_transaction advance
  process_webhook gateway request w =
      if h.has_gateway gateway
      then verified gateway request (h.verify_webhook gateway request w)
      else (failed unknown_gateway, w)
