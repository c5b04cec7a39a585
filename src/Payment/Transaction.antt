-- ===== src/Payment/Transaction.antt =====
-- payment/models.go and payment/payee.go: payments, payees and the check of a checkout request. An
-- amount is a decimal of a library; a time is a number. Spaces of a text are those of ASCII.
use nsw_core.Common.{
  ℕ, String, Bool, true, not, ◌&&◌, ◌||◌, List, [], ◌∷◌, str_eq, ltb, leb, ◌==◌, if◌then◌else◌,
}
use Prim.Native.Char.{code}

-- An error by what errors.Is finds in it.
pub data PaymentError : Type 0 where
  unknown_gateway verification_failed unsupported_status transaction_not_found : PaymentError
  amount_mismatch duplicate_reference payee_not_mapped invalid_request : PaymentError
  empty_reference missing_payload missing_session task_not_advanced outside : PaymentError

pub data Outcome (A : Type 0) : Type 0 where
  done : A → Outcome A
  failed : PaymentError → Outcome A

abbrev pub status_pending : String
status_pending = "PENDING"

abbrev pub status_success : String
status_success = "SUCCESS"

abbrev pub status_failed : String
status_failed = "FAILED"

pub record Payee : Type 0 where
  pub org_id : String
  pub service_id : String

abbrev pub Metadata : Type 0
Metadata = List (String × String)

unfoldable pub put_text : String → String → Metadata → Metadata
put_text k v [] = (k, v) ∷ []
put_text k v ((l, u) ∷ m) =
    let rest = put_text k v m in if str_eq l k then (k, v) ∷ m else (l, u) ∷ rest

-- Transaction; the payee's two columns are one field.
pub record Transaction (Amount : Type 0) : Type 0 where
  pub id : String
  pub reference_number : String
  pub callback_token : String
  pub gateway_id : String
  pub payee : Payee
  pub session_id : String
  pub amount : Amount
  pub currency : String
  pub status : String
  pub payment_method : String
  pub expiry_date : ℕ
  pub gateway_metadata : Metadata

pub record CheckoutRequest (Amount : Type 0) : Type 0 where
  pub gateway_id : String
  pub payee : Payee
  pub amount : Amount
  pub currency : String
  pub success_redirect_url : String
  pub cancel_redirect_url : String
  pub expires_at : ℕ
  pub metadata : Metadata
  pub callback_token : String

pub record CheckoutResponse : Type 0 where
  pub reference_number : String
  pub session_id : String
  pub type : String
  pub checkout_url : String
  pub instructions : String
  pub expires_in : ℕ

-- strings.TrimSpace(s) == ""
unfoldable pub is_blank : String → Bool
is_blank String.[] = true
is_blank (String.◌∷◌ c s) = ((code c == b' ') || (leb 9 (code c) && leb (code c) 13)) && is_blank s

-- Payee.validate
unfoldable pub is_valid_payee : Payee → Bool
unfolding is_blank
is_valid_payee p = not (is_blank p.org_id) && not (is_blank p.service_id)

-- CreateCheckoutRequest.validate
unfoldable pub is_valid_request :
    {Amount : Type 0} → (Amount → Bool) → ℕ → CheckoutRequest Amount → Bool
unfolding is_valid_payee
is_valid_request is_positive now r =
    not (str_eq r.gateway_id "")
    && (is_valid_payee r.payee
        && (not (str_eq r.callback_token "")
            && (is_positive r.amount && (not (str_eq r.currency "") && ltb now r.expires_at))))
