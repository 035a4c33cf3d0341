-- ===== src/Accounts/Otp.antt =====
-- apps/accounts/services.py: asking for a code by SMS, and logging in with it. The services run
-- outside a transaction, so they return the tables also when they raise.
use sanga.Common.{
  ℕ, zero, suc, ◌+◌, ◌*◌, ◌==◌, Bool, true, false, Option, none, some, List, [], ◌∷◌, ◌&&◌, ◌||◌,
  not, ltb, leb, if◌then◌else◌, exists, where_, count_where, find_first, update_where, newest,
}
use sanga.Common.Text.{Text, strip, is_empty, text_eq}
use sanga.Common.Results.{Result, ok, err}
use sanga.Persian.{normalize_digits, normalize_phone, is_mobile}
use sanga.Accounts.{User, OtpChallenge, is_expired, Accounts}

-- `OTPError` (the SMS was not sent), `OTPRateLimitError` and the messages of `OTPValidationError`, and a
-- primary key that is taken.
pub data OtpError : Type 0 where
  sms_failed too_soon too_many : OtpError
  invalid_phone invalid_code no_challenge expired no_attempts_left wrong_code : OtpError
  inactive_user integrity_error data_error : OtpError

-- The settings OTP_*; `shows_code` is `DEBUG and SMS_PROVIDER == "console"`.
pub record Settings : Type 0 where
  pub cooldown_seconds : ℕ
  pub max_requests_per_hour : ℕ
  pub expiry_seconds : ℕ
  pub max_attempts : ℕ
  pub shows_code : Bool

-- What is not in the repository: the hash of a code under the secret key, and which characters
-- `str.isdigit` takes for digits, and which texts the database takes for an IP address.
pub record Platform : Type 0 where
  pub hash_code : Text → Text
  pub is_digit : ℕ → Bool
  pub is_address : Text → Bool

-- The headers of a request that the service reads.
pub record RequestMeta : Type 0 where
  pub forwarded_for : Option Text
  pub remote_addr : Option Text
  pub user_agent : Option Text

-- What a call draws from outside: the row's UUID, the random code, the clock at the start and at the
-- insertion, and whether the provider sent the SMS.
pub record RequestEnv : Type 0 where
  pub uuid : ℕ
  pub code : Text
  pub now : ℕ
  pub inserted_at : ℕ
  pub sms_sent : Bool

abbrev pub second : ℕ
second = 1000000

abbrev pub hour : ℕ
hour = 3600 * second

-- `forwarded.split(",")[0]`
abbrev pub before_comma : Text → Text
before_comma [] = []
before_comma (c ∷ s) = let rest = before_comma s in if c == b',' then [] else c ∷ rest

-- `_client_ip`
unfoldable pub client_ip : Option RequestMeta → Option Text
client_ip none = none
client_ip (some r) = elim r.forwarded_for [
  | none ↦ r.remote_addr
  | some forwarded ↦
      if is_empty forwarded then r.remote_addr else some (strip (before_comma forwarded))
]

abbrev pub take : ℕ → Text → Text
take zero s = []
take (suc n) [] = []
take (suc n) (c ∷ s) = c ∷ take n s

abbrev pub user_agent_of : Option RequestMeta → Text
user_agent_of none = []
user_agent_of (some r) = elim r.user_agent [ none ↦ [] | some agent ↦ take 255 agent ]

abbrev pub of_phone : Text → OtpChallenge → Bool
of_phone phone c = text_eq c.phone phone

abbrev pub issued_at : OtpChallenge → ℕ
issued_at c = c.created_at

-- `(now - recent.created_at).total_seconds() < cooldown`, for the newest row of the phone.
abbrev pub is_cooling : ℕ → ℕ → Option OtpChallenge → Bool
is_cooling now cooldown none = false
is_cooling now cooldown (some c) = ltb now (c.created_at + cooldown * second)

-- The rows of the phone in the last hour.
abbrev pub in_last_hour : Text → ℕ → OtpChallenge → Bool
in_last_hour phone now c = of_phone phone c && leb now (c.created_at + hour)

abbrev pub new_challenge :
    Platform → Settings → RequestEnv → Option RequestMeta → Text → OtpChallenge
new_challenge platform s env request phone = record {
  id = env.uuid;
  phone = phone;
  code_hash = platform.hash_code env.code;
  attempts = 0;
  max_attempts = s.max_attempts;
  is_used = false;
  created_at = env.inserted_at;
  expires_at = env.now + s.expiry_seconds * second;
  request_ip = client_ip request;
  user_agent = user_agent_of request;
}

-- `GenericIPAddressField`: an address, or nothing.
unfoldable pub fits_address : Platform → Option Text → Bool
fits_address platform none = true
fits_address platform (some t) = is_empty t || platform.is_address t

abbrev pub has_challenge_id : ℕ → OtpChallenge → Bool
has_challenge_id i c = c.id == i

-- `OTPRequestResult`
pub record OtpRequested : Type 0 where
  pub phone : Text
  pub expires_at : ℕ
  pub cooldown_seconds : ℕ
  pub dev_code : Option Text

-- The guards of `request_login_otp` for a normalized phone; `none` lets it go on.
unfoldable pub refuse_request : Settings → ℕ → Text → List OtpChallenge → Option OtpError
refuse_request s now phone rows =
    if not (is_mobile phone)
    then some invalid_phone
    else if is_cooling now s.cooldown_seconds (newest issued_at (where_ (of_phone phone) rows))
    then some too_soon
    else if leb s.max_requests_per_hour (count_where (in_last_hour phone now) rows)
    then some too_many
    else none

-- What is returned once the row is there.
abbrev pub sms_outcome : Settings → RequestEnv → OtpChallenge → Result OtpError OtpRequested
sms_outcome s env row =
    if env.sms_sent
    then ok (record {
      phone = row.phone;
      expires_at = row.expires_at;
      cooldown_seconds = s.cooldown_seconds;
      dev_code = if s.shows_code then some env.code else none;
    })
    else err sms_failed

-- The rest of `request_login_otp`, for what its guards said.
unfoldable pub send_code :
    Platform
    → Settings
    → RequestEnv
    → OtpChallenge
    → Option OtpError
    → Accounts
    → Result OtpError OtpRequested × Accounts
send_code platform s env row (some e) accounts = (err e, accounts)
send_code platform s env row none accounts =
    if not (fits_address platform row.request_ip)
    then (err data_error, accounts)
    else if exists (has_challenge_id env.uuid) accounts.challenges
    then (err integrity_error, accounts)
    else (sms_outcome s env row, record accounts { challenges = row ∷ accounts.challenges })

-- `request_login_otp`
unfoldable pub request_login_otp :
    Platform
    → Settings
    → RequestEnv
    → Text
    → Option RequestMeta
    → Accounts
    → Result OtpError OtpRequested × Accounts
request_login_otp platform s env raw request accounts =
    send_code platform s env (new_challenge platform s env request (normalize_phone raw))
      (refuse_request s env.now (normalize_phone raw) accounts.challenges) accounts

-- What a login draws from outside: the UUID of a user that is issued_at, and the clock at the check
-- and at the login.
pub record LoginEnv : Type 0 where
  pub uuid : ℕ
  pub now : ℕ
  pub login_at : ℕ

abbrev pub all_digits : (ℕ → Bool) → Text → Bool
all_digits is_digit [] = true
all_digits is_digit (c ∷ s) = is_digit c && all_digits is_digit s

-- The newest row of the phone that is not used.
abbrev pub is_open : Text → OtpChallenge → Bool
is_open phone c = of_phone phone c && not c.is_used

abbrev pub open_challenge : Text → List OtpChallenge → Option OtpChallenge
open_challenge phone rows = newest issued_at (where_ (is_open phone) rows)

-- `challenge.attempts += 1; challenge.save(update_fields=["attempts"])`
abbrev pub count_attempt : OtpChallenge → List OtpChallenge → List OtpChallenge
count_attempt c =
    update_where (has_challenge_id c.id)
      (λ (row : OtpChallenge). record row { attempts = c.attempts + 1 })

-- `challenge.is_used = True; challenge.save(update_fields=["is_used"])`
abbrev pub use_challenge : OtpChallenge → List OtpChallenge → List OtpChallenge
use_challenge c =
    update_where (has_challenge_id c.id) (λ (row : OtpChallenge). record row { is_used = true })

abbrev pub has_user_id : ℕ → User → Bool
has_user_id i u = u.id == i

abbrev pub has_phone : Text → User → Bool
has_phone phone u = text_eq u.phone phone

-- `User.objects.get_or_create(phone=phone)`: the user, and the table with it. A challenge of that
-- phone is there, so the phone fits its column.
unfoldable pub get_or_create_user : ℕ → Text → List User → Result OtpError (User × List User)
get_or_create_user uuid phone users = elim (find_first (has_phone phone) users) [
  | some u ↦ ok (u, users)
  | none ↦
      let u : User = record { id = uuid; phone = phone; is_active = true; last_login = none } in
      if exists (has_user_id uuid) users then err integrity_error else ok (u, u ∷ users)
]

abbrev pub touch_login : ℕ → User → List User → List User
touch_login now u =
    update_where (λ (row : User). row.id == u.id)
      (λ (row : User). record row { last_login = some now })

-- The transaction for the user that is there; `login` starts the session of the user.
unfoldable pub start_session :
    LoginEnv
    → OtpChallenge
    → Accounts
    → Result OtpError (User × List User)
    → Result OtpError User × Accounts
start_session env c accounts (err e) = (err e, accounts)
start_session env c accounts (ok (u, users)) =
    if u.is_active
    then (
      ok (record u { last_login = some env.login_at }),
      record {
        challenges = use_challenge c accounts.challenges;
        users = touch_login env.login_at u users;
      },
    )
    else (err inactive_user, accounts)

-- The transaction at the end of `verify_login_otp`: it raises, and then it leaves the tables.
unfoldable pub log_in : LoginEnv → Text → OtpChallenge → Accounts → Result OtpError User × Accounts
unfolding start_session
log_in env phone c accounts =
    start_session env c accounts (get_or_create_user env.uuid phone accounts.users)

-- `verify_login_otp` for a normalized phone and code, and the challenge it found.
unfoldable pub check_code :
    Platform
    → LoginEnv
    → Text
    → Text
    → Option OtpChallenge
    → Accounts
    → Result OtpError User × Accounts
unfolding log_in
check_code platform env phone code none accounts = (err no_challenge, accounts)
check_code platform env phone code (some c) accounts =
    if is_expired env.now c
    then (err expired, accounts)
    else if leb c.max_attempts c.attempts
    then (err no_attempts_left, accounts)
    else if text_eq c.code_hash (platform.hash_code code)
    then log_in env phone c accounts
    else (err wrong_code, record accounts { challenges = count_attempt c accounts.challenges })

-- `verify_login_otp`
unfoldable pub verify_login_otp :
    Platform → LoginEnv → Text → Text → Accounts → Result OtpError User × Accounts
verify_login_otp platform env raw_phone raw_code accounts =
    let phone = normalize_phone raw_phone in
    let code = normalize_digits (strip raw_code) in
    if not (is_empty code) && all_digits platform.is_digit code
    then check_code platform env phone code (open_challenge phone accounts.challenges) accounts
    else (err invalid_code, accounts)
