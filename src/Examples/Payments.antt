-- ===== src/Examples/Payments.antt =====
-- One payment, its webhooks, and a task engine that is down.
use nsw_core.Common.{
  ℕ, ◌+◌, String, ◌≡◌, ◌==◌, refl, sym, ap, ◌∙◌, Bool, true, Option, none, some, List, [], ◌∷◌, inl,
  inr,
}
use nsw_core.Payment.Transaction.{
  outside, task_not_advanced, done, failed, Transaction, CheckoutRequest, is_valid_request,
  status_pending, status_success,
}
use nsw_core.Payment.Table.{Table, by_reference, save, is_taken}
use nsw_core.Payment.Gateway.{WebhookPayload, Response, Payments, SessionResponse}
use nsw_core.Payment.Checkout.{with_session_id, webhook_status, create_checkout_session}
use nsw_core.Payment.Checkout.Stored.{Alone, Opens, IsLeft, create_checkout_session-IsLeft}
use nsw_core.Payment.Service.{settle, settlement, settled_row, process_webhook}
use nsw_core.Payment.Settled.{IsKeyed, ended, total, settle_all, settle_all-once}
use nsw_core.Payment.Retried.{Delivers, process_webhook-lost, settle-reverted}

abbrev payment : Transaction ℕ
payment = record {
  id = "1";
  reference_number = "R";
  callback_token = "token";
  gateway_id = "bank";
  payee = record { org_id = "org"; service_id = "permit" };
  session_id = "";
  amount = 500;
  currency = "LKR";
  status = status_pending;
  payment_method = "";
  expiry_date = 100;
  gateway_metadata = [];
}

abbrev paid : WebhookPayload ℕ
paid = record {
  reference_number = "R";
  gateway_transaction_id = "77";
  status = status_success;
  amount = 500;
  currency = "lkr";
  payment_method = "CC";
  timestamp = "noon";
}

abbrev same : ℕ → ℕ → Bool
same n k = n == k

abbrev payments : Table ℕ
payments = payment ∷ []

payments-IsKeyed : IsKeyed payments
payments-IsKeyed t s (inl p) (inl q) e = ap (λ (x : Transaction ℕ). x.reference_number) (p ∙ sym q)
payments-IsKeyed t s (inl p) (inr j) e = elim j [ ]
payments-IsKeyed t s (inr i) j e = elim i [ ]

abbrev twice : List (String × WebhookPayload ℕ)
twice = (status_success, paid) ∷ (status_success, paid) ∷ []

settle_all-once_example :
    (total "R" (settle_all same twice payments).0 + ended (by_reference "R" payments)
      ≡ ended (by_reference "R" (settle_all same twice payments).1))
    × (ended (by_reference "R" payments) ≡ 1
        → by_reference "R" (settle_all same twice payments).1 ≡ by_reference "R" payments)
settle_all-once_example = settle_all-once same "R" twice payments payments-IsKeyed

settle-reverted_example :
    (settle same status_success paid
      (save (with_session_id "session" payment) (settle same status_success paid payments).1)).0
    ≡ (settle same status_success paid payments).0
unfolding by_reference
settle-reverted_example =
    settle-reverted same status_success "session" paid payment payments refl refl

-- The world is the table; the task engine answers with an error.
abbrev ack : Option Response
ack = some (record { payload = "ok"; http_status = 200 })

abbrev engine_down : Payments
engine_down = record {
  Amount = ℕ;
  Request = Unit {0};
  World = Table ℕ;
  same_amount = same;
  is_positive = λ n. true;
  amount_text = λ n. "500";
  now = λ w. 8;
  load = λ w. w;
  store = λ ts w. ts;
  database = λ w. (none, w);
  has_gateway = λ id. true;
  resolve_payee = λ id p. some "{}";
  generate_reference = λ r w. (done "R", w);
  new_id = λ w. ("1", w);
  create_session = λ id r w. (done none, w);
  verify_webhook = λ id r w. (none, w);
  parse_webhook = λ id r w. (done (some paid, ack), w);
  extract_reference = λ id r w. (done "R", w);
  validation_response = λ id t b r w. (done none, w);
  has_completer = true;
  complete_step = λ token values w. (some outside, w);
}

abbrev settled_payments : Table ℕ
settled_payments = save (settled_row same status_success paid payment) payments

delivers : (w : Table ℕ) → Delivers engine_down "bank" tt paid status_success ack w w
unfolding nsw_core.Payment.Service.to_domain_status
delivers w = record {
  known = refl;
  arrived = w;
  verified = refl;
  read = w;
  parsed = refl;
  named = refl;
  locked = refl;
}

process_webhook-lost_example :
    (process_webhook engine_down "bank" tt payments ≡ (failed task_not_advanced, settled_payments))
    × (process_webhook engine_down "bank" tt settled_payments ≡ (done ack, settled_payments))
unfolding by_reference nsw_core.Payment.Service.matches_payment nsw_core.Payment.Service.equal_fold
    nsw_core.Payment.Service.signal_of
process_webhook-lost_example =
    process_webhook-lost engine_down "bank" tt paid status_success "success" ack payments payments
      settled_payments payment outside settled_payments settled_payments (delivers payments) refl
      refl refl refl refl refl refl (delivers settled_payments) refl

-- The gateway takes the second answer for a success.
lost_answer : webhook_status (done ack) ≡ 200
lost_answer = refl

-- A gateway that opens a session, for the first payment of the table.
abbrev opened_session : SessionResponse
opened_session = record {
  session_id = "s";
  type = "REDIRECT";
  checkout_url = "url";
  instructions = "";
}

abbrev gateway_up : Payments
gateway_up = record engine_down { create_session = λ id r w. (done (some opened_session), w) }

abbrev checkout : CheckoutRequest ℕ
checkout = record {
  gateway_id = "bank";
  payee = record { org_id = "org"; service_id = "permit" };
  amount = 500;
  currency = "LKR";
  success_redirect_url = "";
  cancel_redirect_url = "";
  expires_at = 100;
  metadata = [];
  callback_token = "token";
}

gateway_up-Alone : Alone gateway_up
gateway_up-Alone = record { stored = λ ts w. refl; answers = λ w. refl; opened = λ g q w. refl }

abbrev checkout_opens : Opens gateway_up checkout []
unfolding is_valid_request is_taken
checkout_opens = record {
  valid = refl;
  known = refl;
  mapping = "{}";
  resolved = refl;
  reference = "R";
  issued = [];
  generated = refl;
  named = refl;
  free = refl;
}

create_checkout_session-IsLeft_example :
    IsLeft gateway_up checkout 8 payment
      (done (some opened_session))
      (create_checkout_session gateway_up checkout [])
unfolding is_valid_request is_taken
create_checkout_session-IsLeft_example =
    create_checkout_session-IsLeft gateway_up checkout [] gateway_up-Alone checkout_opens
