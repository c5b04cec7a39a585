-- ===== src/Payment/Checkout.antt =====
-- payment/service.go: CreateCheckoutSession, ValidateReference; payment/handler.go: the answers by HTTP.
pub mod Stored
use nsw_core.Common.{
  ℕ, ◌-◌, String, Bool, false, ◌&&◌, Option, none, some, str_eq, ltb, if◌then◌else◌,
}
use nsw_core.Payment.Transaction.{
  PaymentError, unknown_gateway, payee_not_mapped, invalid_request, empty_reference,
  missing_session, Outcome, done, failed, status_pending, status_failed, Transaction,
  CheckoutRequest, CheckoutResponse, is_valid_request,
}
use nsw_core.Payment.Table.{Table, by_reference, save, create}
use nsw_core.Payment.Gateway.{
  SessionRequest, SessionResponse, ValidationTransaction, Response, Payments,
}

-- The row as it was inserted, with the session's ID.
abbrev pub with_session_id : {Amount : Type 0} → String → Transaction Amount → Transaction Amount
with_session_id session t = record t { session_id = session }

module _ (h : Payments) where
  open h use {Amount, Request, World}

  -- A statement of its own: the database may refuse it.
  abbrev written :
      (Table Amount → Option PaymentError × Table Amount)
      → Option PaymentError × World
      → Option PaymentError × World
  written f (some e, w) = (some e, w)
  written f (none, w) = let (o, ts) = f (h.load w) in (o, h.store ts w)

  unfoldable pub create_row : Transaction Amount → World → Option PaymentError × World
  unfolding create
  create_row t w = written (create t) (h.database w)

  unfoldable pub update_row : Transaction Amount → World → Option PaymentError × World
  unfolding save
  update_row t w = written (λ ts. (none, save t ts)) (h.database w)

  abbrev pub new_transaction : String → String → CheckoutRequest Amount → Transaction Amount
  new_transaction id ref r = record {
    id = id;
    reference_number = ref;
    callback_token = r.callback_token;
    gateway_id = r.gateway_id;
    payee = r.payee;
    session_id = "";
    amount = r.amount;
    currency = r.currency;
    status = status_pending;
    payment_method = "";
    expiry_date = r.expires_at;
    gateway_metadata = r.metadata;
  }

  abbrev pub session_request : String → CheckoutRequest Amount → SessionRequest Amount
  session_request mapping r = record {
    amount = r.amount;
    currency = r.currency;
    success_redirect_url = r.success_redirect_url;
    cancel_redirect_url = r.cancel_redirect_url;
    payee = r.payee;
    payee_mapping = mapping;
    metadata = r.metadata;
  }

  abbrev pub checkout_response :
      ℕ → CheckoutRequest Amount → Transaction Amount → SessionResponse → CheckoutResponse
  checkout_response started r t s = record {
    reference_number = t.reference_number;
    session_id = s.session_id;
    type = s.type;
    checkout_url = s.checkout_url;
    instructions = s.instructions;
    expires_in = r.expires_at - started;
  }

  abbrev session_saved :
      CheckoutResponse → Option PaymentError × World → Outcome CheckoutResponse × World
  session_saved answer (some e, w) = (failed e, w)
  session_saved answer (none, w) = (done answer, w)

  abbrev with_session :
      ℕ
      → CheckoutRequest Amount
      → Transaction Amount
      → Outcome (Option SessionResponse) × World
      → Outcome CheckoutResponse × World
  with_session started r t (failed e, w) =
      (failed e, (update_row (record t { status = status_failed }) w).1)
  with_session started r t (done none, w) = (failed missing_session, w)
  with_session started r t (done (some s), w) =
      if str_eq s.session_id ""
      then (done (checkout_response started r t s), w)
      else session_saved (checkout_response started r t s)
          (update_row (with_session_id s.session_id t) w)

  -- The gateway is called for a row that is there.
  abbrev created :
      ℕ
      → String
      → CheckoutRequest Amount
      → Transaction Amount
      → Option PaymentError × World
      → Outcome CheckoutResponse × World
  created started mapping r t (some e, w) = (failed e, w)
  created started mapping r t (none, w) =
      with_session started r t (h.create_session r.gateway_id (session_request mapping r) w)

  abbrev referenced :
      ℕ
      → String
      → CheckoutRequest Amount
      → Outcome String × World
      → Outcome CheckoutResponse × World
  referenced started mapping r (failed e, w) = (failed e, w)
  referenced started mapping r (done ref, w) =
      let (id, w') = h.new_id w in
      if str_eq ref ""
      then (failed empty_reference, w)
      else created started mapping r (new_transaction id ref r)
          (create_row (new_transaction id ref r) w')

  abbrev mapped : CheckoutRequest Amount → Option String → World → Outcome CheckoutResponse × World
  mapped r none w = (failed payee_not_mapped, w)
  mapped r (some mapping) w = referenced (h.now w) mapping r (h.generate_reference r w)

  unfoldable pub create_checkout_session :
      CheckoutRequest Amount → World → Outcome CheckoutResponse × World
  unfolding is_valid_request create_row update_row
  create_checkout_session r w =
      if is_valid_request h.is_positive (h.now w) r
      then (if h.has_gateway r.gateway_id
          then mapped r (h.resolve_payee r.gateway_id r.payee) w
          else (failed unknown_gateway, w))
      else (failed invalid_request, w)

  -- Payable: of this gateway, still pending, not expired.
  abbrev pub is_payable : ℕ → Transaction Amount → Bool
  is_payable at t = str_eq t.status status_pending && ltb at t.expiry_date

  abbrev pub details : Transaction Amount → String → ValidationTransaction Amount
  details t mapping = record {
    reference_number = t.reference_number;
    amount = t.amount;
    currency = t.currency;
    status = t.status;
    expiry_date = t.expiry_date;
    metadata = t.gateway_metadata;
    payee = t.payee;
    payee_mapping = mapping;
  }

  abbrev presented :
      String
      → Request
      → Transaction Amount
      → Option String
      → World
      → Outcome (Option Response) × World
  presented gateway request t none w = (failed payee_not_mapped, w)
  presented gateway request t (some mapping) w =
      h.validation_response gateway (some (details t mapping)) (is_payable (h.now w) t) request w

  abbrev looked_up :
      String → Request → Option (Transaction Amount) → World → Outcome (Option Response) × World
  looked_up gateway request none w = h.validation_response gateway none false request w
  looked_up gateway request (some t) w =
      if str_eq t.gateway_id gateway
      then presented gateway request t (h.resolve_payee gateway t.payee) w
      else h.validation_response gateway none false request w

  abbrev read :
      String → Request → String → Option PaymentError × World → Outcome (Option Response) × World
  read gateway request ref (some e, w) = (failed e, w)
  read gateway request ref (none, w) = looked_up gateway request (by_reference ref (h.load w)) w

  abbrev extracted : String → Request → Outcome String × World → Outcome (Option Response) × World
  extracted gateway request (failed e, w) = (failed e, w)
  extracted gateway request (done ref, w) = read gateway request ref (h.database w)

  abbrev cleared :
      String → Request → Option PaymentError × World → Outcome (Option Response) × World
  cleared gateway request (some e, w) = (failed e, w)
  cleared gateway request (none, w) =
      extracted gateway request (h.extract_reference gateway request w)

  unfoldable pub validate_reference : String → Request → World → Outcome (Option Response) × World
  unfolding by_reference
  validate_reference gateway request w =
      if h.has_gateway gateway
      then cleared gateway request (h.verify_webhook gateway request w)
      else (failed unknown_gateway, w)

-- HandleWebhook: the status of the HTTP answer.
abbrev pub webhook_status : Outcome (Option Response) → ℕ
webhook_status (failed PaymentError.verification_failed) = 401
webhook_status (failed PaymentError.transaction_not_found) = 404
webhook_status (failed PaymentError.unsupported_status) = 400
webhook_status (failed PaymentError.amount_mismatch) = 422
webhook_status (failed e) = 500
webhook_status (done none) = 500
webhook_status (done (some r)) = r.http_status

-- HandleValidateReference
abbrev pub validation_status : Outcome (Option Response) → ℕ
validation_status (failed PaymentError.verification_failed) = 401
validation_status (failed e) = 500
validation_status (done none) = 500
validation_status (done (some r)) = r.http_status
