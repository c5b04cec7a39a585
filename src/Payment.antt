-- ===== src/Payment.antt =====
-- The payment service (payment/), which settles a payment once and wakes the step that waits for it.
pub mod Transaction
pub mod Table
pub mod Gateway
pub mod Service
pub mod Checkout
pub mod Settled
pub mod Retried
