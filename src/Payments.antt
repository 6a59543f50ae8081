-- ===== src/Payments.antt =====
-- The payment rails of backend/internal/mpesa and backend/internal/paystack. The servers of
-- Safaricom and Paystack are functions from a request to what it comes to; JSON, hex, base64 and
-- HMAC-SHA512 are arguments.
pub mod Daraja
pub mod Tokens
pub mod Callback
pub mod Paystack
pub mod Signed
mod Tests
use geo_querry.Prelude.{ℕ, String}

-- What http.Client.Do comes to: an error, or a status and a body cut at the reader's limit.
pub data Reply : Type 0 where
  unreachable : Reply
  replied : ℕ → String → Reply
