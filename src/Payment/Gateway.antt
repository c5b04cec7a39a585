-- ===== src/Payment/Gateway.antt =====
-- What the payment service calls, as the fields of one record: payment/gateway.go, the registry, the
-- database, the task engine.
use nsw_core.Common.{ℕ, String, Bool, Option, List}
use nsw_core.Shared.Value.{Fields}
use nsw_core.Payment.Transaction.{
  PaymentError, Outcome, Payee, Metadata, Transaction, CheckoutRequest,
}

pub record SessionRequest (Amount : Type 0) : Type 0 where
  pub amount : Amount
  pub currency : String
  pub success_redirect_url : String
  pub cancel_redirect_url : String
  pub payee : Payee
  pub payee_mapping : String
  pub metadata : Metadata

pub record SessionResponse : Type 0 where
  pub session_id : String
  pub type : String
  pub checkout_url : String
  pub instructions : String

pub record WebhookPayload (Amount : Type 0) : Type 0 where
  pub reference_number : String
  pub gateway_transaction_id : String
  pub status : String
  pub amount : Amount
  pub currency : String
  pub payment_method : String
  pub timestamp : String

pub record ValidationTransaction (Amount : Type 0) : Type 0 where
  pub reference_number : String
  pub amount : Amount
  pub currency : String
  pub status : String
  pub expiry_date : ℕ
  pub metadata : Metadata
  pub payee : Payee
  pub payee_mapping : String

-- WebhookResponse and ValidationResponse, which have the same fields.
pub record Response : Type 0 where
  pub payload : String
  pub http_status : ℕ

-- Each operation takes the world before it to its answer and the world after it; what other calls do
-- meanwhile is part of that.
pub record Payments : Type 1 where
  pub Amount : Type 0
  pub Request : Type 0
  pub World : Type 0
  pub same_amount : Amount → Amount → Bool
  pub is_positive : Amount → Bool
  pub amount_text : Amount → String
  pub now : World → ℕ
  -- The table, and whether a statement or a transaction on it comes through.
  pub load : World → List (Transaction Amount)
  pub store : List (Transaction Amount) → World → World
  pub database : World → Option PaymentError × World
  -- Registry
  pub has_gateway : String → Bool
  pub resolve_payee : String → Payee → Option String
  -- ReferenceGenerator, uuid.NewString
  pub generate_reference : CheckoutRequest Amount → World → Outcome String × World
  pub new_id : World → String × World
  -- Gateway
  pub create_session :
      String → SessionRequest Amount → World → Outcome (Option SessionResponse) × World
  pub verify_webhook : String → Request → World → Option PaymentError × World
  pub parse_webhook :
      String → Request → World → Outcome (Option (WebhookPayload Amount) × Option Response) × World
  pub extract_reference : String → Request → World → Outcome String × World
  pub validation_response :
      String
      → Option (ValidationTransaction Amount)
      → Bool
      → Request
      → World
      → Outcome (Option Response) × World
  -- TaskCompleter; `has_completer` is false for nil.
  pub has_completer : Bool
  pub complete_step : String → Fields → World → Option PaymentError × World
