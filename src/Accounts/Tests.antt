-- ===== src/Accounts/Tests.antt =====
-- A code asked for, mistyped, and typed: the services on small inputs.
use sanga.Common.{
  ℕ, ◌+◌, ◌*◌, ◌≡◌, refl, ap, Bool, true, false, ◌||◌, ◌&&◌, ◌==◌, none, some, [], ◌∷◌, arith,
  count_where,
}
use sanga.Common.Text.{Text, codes, strip, lstrip}
use sanga.Common.Results.{ok, err}
use sanga.Persian.{
  normalize_digits, normalize_phone, drop_country_code, add_leading_zero, is_ascii_digit,
}
use sanga.Accounts.{User, OtpChallenge, Accounts}
use sanga.Accounts.Otp.{
  too_soon, wrong_code, Settings, Platform, RequestEnv, OtpRequested, LoginEnv, second, client_ip,
  refuse_request, fits_address, start_session, get_or_create_user, send_code, request_login_otp,
  log_in, check_code, verify_login_otp,
}
use sanga.Accounts.Attempts.{Reachable, Step}
use sanga.Accounts.Guesses.{used, verify_uses_one}
use sanga.Accounts.Login.{verify-request}

-- The defaults of the settings.
abbrev settings : Settings
settings = record {
  cooldown_seconds = 60;
  max_requests_per_hour = 10;
  expiry_seconds = 300;
  max_attempts = 5;
  shows_code = false;
}

-- Digits and dots, for the sake of an example.
abbrev is_dotted : Text → Bool
is_dotted [] = true
is_dotted (c ∷ s) = (is_ascii_digit c || c == b'.') && is_dotted s

abbrev platform : Platform
platform = record {
  hash_code = λ code. b's' ∷ b':' ∷ code;
  is_digit = is_ascii_digit;
  is_address = is_dotted;
}

abbrev phone : Text
phone = codes "0912 345 6789"

abbrev code : Text
code = codes "407215"

-- A request at a second.
abbrev request_at : ℕ → ℕ → RequestEnv
request_at uuid at = record {
  uuid = uuid;
  code = code;
  now = at * second;
  inserted_at = at * second + 5;
  sms_sent = true;
}

abbrev login_at : ℕ → LoginEnv
login_at at = record { uuid = 7; now = at * second; login_at = at * second + 9 }

abbrev empty : Accounts
empty = record { challenges = []; users = [] }

abbrev challenge : ℕ → Bool → OtpChallenge
challenge attempts is_used = record {
  id = 1;
  phone = codes "09123456789";
  code_hash = codes "s:407215";
  attempts = attempts;
  max_attempts = 5;
  is_used = is_used;
  created_at = 1000 * second + 5;
  expires_at = 1300 * second;
  request_ip = none;
  user_agent = [];
}

abbrev with_challenge : ℕ → Accounts
with_challenge attempts = record { challenges = challenge attempts false ∷ []; users = [] }

abbrev sent : OtpRequested
sent = record {
  phone = codes "09123456789";
  expires_at = 1300 * second;
  cooldown_seconds = 60;
  dev_code = none;
}

asked :
    request_login_otp platform settings (request_at 1 1000) phone none empty
    ≡ (ok sent, with_challenge 0)
unfolding request_login_otp send_code fits_address refuse_request client_ip normalize_phone
    normalize_digits drop_country_code add_leading_zero
asked = refl

asked_again :
    (request_login_otp platform settings (request_at 2 1030) phone none (with_challenge 0)).0
    ≡ err too_soon
unfolding request_login_otp send_code fits_address refuse_request client_ip normalize_phone
    normalize_digits drop_country_code add_leading_zero
asked_again = refl

mistyped :
    verify_login_otp platform (login_at 1020) phone (codes "111111") (with_challenge 0)
    ≡ (err wrong_code, with_challenge 1)
unfolding verify_login_otp check_code log_in start_session get_or_create_user normalize_phone
    normalize_digits drop_country_code add_leading_zero strip lstrip
mistyped = refl

-- The first forwarded address, and the address of the connection without one.
client_ip_forwarded :
    client_ip (
      some (record {
        forwarded_for = some (codes "10.0.0.1, 10.0.0.2");
        remote_addr = some (codes "127.0.0.1");
        user_agent = none;
      }))
    ≡ some (codes "10.0.0.1")
unfolding client_ip strip lstrip
client_ip_forwarded = refl

abbrev reached : Reachable platform settings (with_challenge 1)
reached =
    Reachable.step
      (Reachable.step (Reachable.start {accounts = empty} refl)
        (Step.request (request_at 1 1000) phone none (omega arith) (ap (λ x. x.1) asked)))
      (Step.verify (login_at 1020) phone (codes "111111") (ap (λ x. x.1) mistyped))

verify_uses_one_example :
    count_where used
      (verify_login_otp platform (login_at 1050) phone code (with_challenge 1)).1.challenges
    ≡ 1 + 0
unfolding verify_login_otp check_code log_in start_session get_or_create_user normalize_phone
    normalize_digits drop_country_code add_leading_zero strip lstrip
verify_uses_one_example = verify_uses_one reached (login_at 1050) phone code

verify-request_example :
    let after = (request_login_otp platform settings (request_at 1 1000) phone none empty).1 in
    (u : User) × ((verify_login_otp platform (login_at 1050) phone code after).0 ≡ ok u)
    × (u.phone ≡ normalize_phone phone)
    × (u.last_login ≡ some (1050 * second + 9))
verify-request_example =
    verify-request platform settings (request_at 1 1000) phone none (login_at 1050) empty sent
      (omega arith) (ap (λ x. x.0) asked) (refl, (refl, (refl, (refl, (refl, (refl, tt)))))) refl
      refl (omega arith) (omega arith) tt (λ absent. refl)
