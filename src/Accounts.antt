-- ===== src/Accounts.antt =====
-- apps/accounts: users and the codes that they log in with (models.py). A time is a number of
-- microseconds. `OTPChallenge.Purpose` has one value, so it is no column here.
pub mod Otp
pub mod Challenges
pub mod Limits
pub mod Attempts
pub mod Guesses
pub mod Login
mod Tests
use sanga.Common.{ℕ, Bool, Option, List, leb}
use sanga.Common.Text.{Text}

-- The columns of `User` that the services read or write.
pub record User : Type 0 where
  pub id : ℕ
  pub phone : Text
  pub is_active : Bool
  pub last_login : Option ℕ

-- `OTPChallenge`
pub record OtpChallenge : Type 0 where
  pub id : ℕ
  pub phone : Text
  pub code_hash : Text
  pub attempts : ℕ
  pub max_attempts : ℕ
  pub is_used : Bool
  pub created_at : ℕ
  pub expires_at : ℕ
  pub request_ip : Option Text
  pub user_agent : Text

-- `OTPChallenge.is_expired`, at the time `now`.
abbrev pub is_expired : ℕ → OtpChallenge → Bool
is_expired now c = leb c.expires_at now

-- The tables that the services use.
pub record Accounts : Type 0 where
  pub challenges : List OtpChallenge
  pub users : List User
