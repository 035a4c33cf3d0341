-- ===== src/Accounts/Challenges.antt =====
-- The invariant of the table of challenges, and how the services change that table.
use sanga.Common.{
  ℕ, ◌+◌, ◌*◌, ◌≤◌, ◌<◌, ◌≡◌, refl, inl, inr, Bool, true, false, Option, none, some, List, [], ◌∷◌,
  ◌&&◌, not, leb, arith, exists, count_where, All, Bool-cases,
}
use sanga.Common.Text.{Text, strip, is_empty, text_eq}
use sanga.Common.Results.{Result, ok, err}
use sanga.Persian.{normalize_digits, normalize_phone}
use sanga.Accounts.{User, OtpChallenge, Accounts, is_expired}
use sanga.Accounts.Otp.{
  OtpError, no_challenge, expired, no_attempts_left, invalid_code, inactive_user, wrong_code,
  Settings, Platform, RequestMeta, RequestEnv, LoginEnv, second, hour, of_phone, new_challenge,
  has_challenge_id, refuse_request, send_code, request_login_otp, open_challenge, count_attempt,
  use_challenge, get_or_create_user, start_session, client_ip, fits_address, log_in, check_code,
  verify_login_otp, all_digits,
}

-- The challenges of a phone in an hour that starts at `w`.
abbrev pub in_window : Text → ℕ → OtpChallenge → Bool
in_window phone w c = of_phone phone c && (leb w c.created_at && leb c.created_at (w + hour))

abbrev pub HasKeys : List OtpChallenge → Type 0
HasKeys [] = Unit
HasKeys (c ∷ cs) = (exists (has_challenge_id c.id) cs ≡ false) × HasKeys cs

-- Two challenges of one phone are the given time apart.
abbrev pub IsSpaced : ℕ → List OtpChallenge → Type 0
IsSpaced gap [] = Unit
IsSpaced gap (c ∷ cs) =
    All (λ (d : OtpChallenge). text_eq d.phone c.phone ≡ true → d.created_at + gap ≤ c.created_at)
      cs
    × IsSpaced gap cs

-- No challenge has had more attempts than the settings allow.
abbrev pub IsBounded : ℕ → OtpChallenge → Type 0
IsBounded most c = (c.attempts ≤ most) × (c.max_attempts ≡ most)

pub record IsValid (s : Settings) (rows : List OtpChallenge) : Type 0 where
  pub keys : HasKeys rows
  pub limited :
      (phone : Text) (w : ℕ) → count_where (in_window phone w) rows ≤ s.max_requests_per_hour
  pub spaced : IsSpaced (s.cooldown_seconds * second) rows
  pub bounded : All (IsBounded s.max_attempts) rows

-- What `request_login_otp` does to the tables.
pub data Requested (platform : Platform) (s : Settings) (env : RequestEnv)
    (request : Option RequestMeta) (phone : Text) (before : Accounts) : Accounts → Type 0 where
  refused : Requested platform s env request phone before before
  issued :
      refuse_request s env.now phone before.challenges ≡ none
      → exists (has_challenge_id env.uuid) before.challenges ≡ false
      → Requested platform s env request phone before (record before {
        challenges = new_challenge platform s env request phone ∷ before.challenges;
      })

send_code-Requested :
    (platform : Platform) (s : Settings) (env : RequestEnv) (request : Option RequestMeta)
    (phone : Text) (accounts : Accounts) (o : Option OtpError)
    → refuse_request s env.now phone accounts.challenges ≡ o
    → Requested platform s env request phone accounts
        (send_code platform s env (new_challenge platform s env request phone) o accounts).1
unfolding send_code
send_code-Requested platform s env request phone accounts (some e) said = refused
send_code-Requested platform s env request phone accounts none said =
    let address = fits_address platform (client_ip request) in
    elim (Bool-cases address) [
      | inr malformed ↦ rw malformed refused
      | inl fits ↦ elim (Bool-cases (exists (has_challenge_id env.uuid) accounts.challenges)) [
        | inl taken ↦ rw (fits, taken) refused
        | inr free ↦ rw (fits, free) (issued said free)
      ]
    ]

pub request_login_otp-Requested :
    (platform : Platform) (s : Settings) (env : RequestEnv) (raw : Text)
    (request : Option RequestMeta) (accounts : Accounts)
    → Requested platform s env request
        (normalize_phone raw)
        accounts
        (request_login_otp platform s env raw request accounts).1
unfolding request_login_otp
request_login_otp-Requested platform s env raw request accounts =
    send_code-Requested platform s env request (normalize_phone raw) accounts
      (refuse_request s env.now (normalize_phone raw) accounts.challenges) refl

-- What `verify_login_otp` returns, and does to the challenges.
pub data Verified (platform : Platform) (env : LoginEnv) (phone code : Text)
    (rows : List OtpChallenge) : Result OtpError User → List OtpChallenge → Type 0 where
  refused : (e : OtpError) → Verified platform env phone code rows (err e) rows
  failed :
      (c : OtpChallenge)
      → open_challenge phone rows ≡ some c
      → c.attempts < c.max_attempts
      → Verified platform env phone code rows (err wrong_code) (count_attempt c rows)
  passed :
      (c : OtpChallenge) (u : User)
      → open_challenge phone rows ≡ some c
      → is_expired env.now c ≡ false
      → c.attempts < c.max_attempts
      → text_eq c.code_hash (platform.hash_code code) ≡ true
      → Verified platform env phone code rows (ok u) (use_challenge c rows)

start_session-cases :
    (platform : Platform) (env : LoginEnv) (phone code : Text) (c : OtpChallenge)
    (accounts : Accounts) (r : Result OtpError (User × List User))
    → open_challenge phone accounts.challenges ≡ some c
    → is_expired env.now c ≡ false
    → c.attempts < c.max_attempts
    → text_eq c.code_hash (platform.hash_code code) ≡ true
    → let after = start_session env c accounts r in
      Verified platform env phone code accounts.challenges after.0 after.1.challenges
unfolding start_session
start_session-cases platform env phone code c accounts (err e) found live left right = refused e
start_session-cases platform env phone code c accounts (ok (u, users)) found live left right =
    elim (Bool-cases u.is_active) [
      | inl active ↦ rw active (passed c _ found live left right)
      | inr inactive ↦ rw inactive (refused inactive_user)
    ]

log_in-cases :
    (platform : Platform) (env : LoginEnv) (phone code : Text) (c : OtpChallenge)
    (accounts : Accounts)
    → open_challenge phone accounts.challenges ≡ some c
    → is_expired env.now c ≡ false
    → c.attempts < c.max_attempts
    → text_eq c.code_hash (platform.hash_code code) ≡ true
    → let after = log_in env phone c accounts in
      Verified platform env phone code accounts.challenges after.0 after.1.challenges
unfolding log_in
log_in-cases platform env phone code c accounts found live left right =
    start_session-cases platform env phone code c accounts
      (get_or_create_user env.uuid phone accounts.users) found live left right

check_code-Verified :
    (platform : Platform) (env : LoginEnv) (phone code : Text) (o : Option OtpChallenge)
    (accounts : Accounts)
    → open_challenge phone accounts.challenges ≡ o
    → let after = check_code platform env phone code o accounts in
      Verified platform env phone code accounts.challenges after.0 after.1.challenges
unfolding check_code
check_code-Verified platform env phone code none accounts found = refused no_challenge
check_code-Verified platform env phone code (some c) accounts found =
    elim (Bool-cases (is_expired env.now c)) [
      | inl late ↦ rw late (refused expired)
      | inr live ↦ elim (Bool-cases (leb c.max_attempts c.attempts)) [
        | inl spent ↦ rw (live, spent) (refused no_attempts_left)
        | inr left ↦ elim (Bool-cases (text_eq c.code_hash (platform.hash_code code))) [
          | inl right ↦
              rw (live, left, right)
                (log_in-cases platform env phone code c accounts found live (ground arith) right)
          | inr wrong ↦ rw (live, left, wrong) (failed c found (ground arith))
        ]
      ]
    ]

pub verify_login_otp-Verified :
    (platform : Platform) (env : LoginEnv) (raw_phone raw_code : Text) (accounts : Accounts)
    → let after = verify_login_otp platform env raw_phone raw_code accounts in
      Verified platform env
        (normalize_phone raw_phone)
        (normalize_digits (strip raw_code))
        accounts.challenges
        after.0
        after.1.challenges
unfolding verify_login_otp
verify_login_otp-Verified platform env raw_phone raw_code accounts =
    let code = normalize_digits (strip raw_code) in
    elim (Bool-cases (not (is_empty code) && all_digits platform.is_digit code)) [
      | inl digits ↦ rw digits (
          check_code-Verified platform env (normalize_phone raw_phone) code
            (open_challenge (normalize_phone raw_phone) accounts.challenges) accounts refl)
      | inr other ↦ rw other (refused invalid_code)
    ]
