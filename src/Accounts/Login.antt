-- ===== src/Accounts/Login.antt =====
-- A code that was asked for, typed back in time: apps/accounts/services.py, both services.
use sanga.Common.{
  ℕ, ◌+◌, ◌*◌, ◌≤◌, ◌<◌, ◌≡◌, refl, ◌∙◌, ap, inl, inr, true, false, Option, none, some, List, [],
  ◌∷◌, leb, arith, exists, where_, find_first, newest, All, Bool-cases, Option-cases, All-map,
  find_first-All, find_first_sound, find_first-none, where_-imp, newest-front,
}
use mathlib.Core.List.{reverse, reverse_aux, reverse-reverse}
use sanga.Common.Text.{Text, strip, lstrip, is_space, is_empty, text_eq, text_eq_refl, text_eq-eq}
use sanga.Common.Results.{Result, ok}
use sanga.Persian.{ascii_digit, normalize_digits, normalize_phone}
use sanga.Persian.Phone.{AreDigits}
use sanga.Accounts.{User, OtpChallenge, Accounts, is_expired}
use sanga.Accounts.Otp.{
  OtpError, Settings, Platform, RequestMeta, RequestEnv, LoginEnv, OtpRequested, second, issued_at,
  is_open, new_challenge, has_challenge_id, refuse_request, send_code, request_login_otp,
  open_challenge, all_digits, get_or_create_user, start_session, client_ip, fits_address,
  has_user_id, has_phone, log_in, check_code, verify_login_otp,
}
use sanga.Accounts.Limits.{refuse_request-IsAllowed, new-IsSpaced}

reverse_aux-AreDigits : (s t : Text) → AreDigits s → AreDigits t → AreDigits (reverse_aux s t)
reverse_aux-AreDigits [] t d e = e
reverse_aux-AreDigits (c ∷ s) t d e = reverse_aux-AreDigits s (c ∷ t) d.1 (d.0, e)

lstrip-digits : (s : Text) → AreDigits s → lstrip s ≡ s
unfolding lstrip
lstrip-digits [] d = refl
lstrip-digits (c ∷ s) d =
    let other : is_space c ≡ false = let digit = d.0 in ground arith in rw other refl

strip-digits : (s : Text) → AreDigits s → strip s ≡ s
unfolding strip
strip-digits s d =
    ap (λ t. reverse (lstrip (reverse t))) (lstrip-digits s d)
    ∙ ap reverse (lstrip-digits (reverse s) (reverse_aux-AreDigits s [] d tt))
    ∙ reverse-reverse s

normalize_digits-digits : (s : Text) → AreDigits s → normalize_digits s ≡ s
unfolding normalize_digits
normalize_digits-digits [] d = refl
normalize_digits-digits (c ∷ s) d =
    let same : ascii_digit c ≡ c = let digit = d.0 in ground arith in
    rw (same, normalize_digits-digits s d.1) refl

-- A row that is the newest of its phone and not used is the open challenge.
open_challenge-new :
    (row : OtpChallenge) (rows : List OtpChallenge)
    → row.is_used ≡ false
    → All
        (λ (d : OtpChallenge). text_eq d.phone row.phone ≡ true → d.created_at ≤ row.created_at)
        rows
    → open_challenge row.phone (row ∷ rows) ≡ some row
open_challenge-new row rows fresh older =
    let no_newer =
      where_-imp (λ d. issued_at d ≤ issued_at row) (is_open row.phone) rows
        (All-map {Q = λ d. is_open row.phone d ≡ true → issued_at d ≤ issued_at row}
          (λ d h unspent. h (ground arith)) rows older) in
    let kept : is_open row.phone row ≡ true = rw (text_eq_refl row.phone, fresh) refl in
    let split : where_ (is_open row.phone) (row ∷ rows) ≡ row ∷ where_ (is_open row.phone) rows =
      rw kept refl in
    ap (newest issued_at) split
    ∙ newest-front issued_at row (where_ (is_open row.phone) rows) no_newer

-- No user with the phone is blocked.
abbrev pub MayLogIn : Text → List User → Type 0
MayLogIn phone = All (λ (u : User). text_eq u.phone phone ≡ true → u.is_active ≡ true)

-- The UUID that a new user would get is free, if there is no user with the phone.
abbrev pub IsFreeFor : Text → ℕ → List User → Type 0
IsFreeFor phone uuid users =
    exists (has_phone phone) users ≡ false → exists (has_user_id uuid) users ≡ false

get_or_create_user-MayLogIn :
    (uuid : ℕ) (phone : Text) (users : List User)
    → MayLogIn phone users
    → IsFreeFor phone uuid users
    → (u : User) × (rows : List User) × (get_or_create_user uuid phone users ≡ ok (u, rows))
      × (u.is_active ≡ true)
      × (u.phone ≡ phone)
unfolding get_or_create_user
get_or_create_user-MayLogIn uuid phone users may free =
    elim (Option-cases (find_first (has_phone phone) users)) [
      | inl none_yet ↦
          let absent = free (find_first-none (has_phone phone) users none_yet) in
          let u : User = record { id = uuid; phone = phone; is_active = true; last_login = none } in
          (u, u ∷ users, rw (get_or_create_user, none_yet, absent) refl, refl, refl)
      | inr (u, found) ↦
          let named = find_first_sound (has_phone phone) users u found in
          let active =
            find_first-All (λ (u : User). text_eq u.phone phone ≡ true → u.is_active ≡ true)
              (has_phone phone) users u may found named in
          (u, users, rw (get_or_create_user, found) refl, active, text_eq-eq u.phone phone named)
    ]

-- What a login returns, when the user may log in.
log_in-ok :
    (env : LoginEnv) (phone : Text) (c : OtpChallenge) (accounts : Accounts)
    → MayLogIn phone accounts.users
    → IsFreeFor phone env.uuid accounts.users
    → (u : User) × ((log_in env phone c accounts).0 ≡ ok u)
      × (u.phone ≡ phone)
      × (u.last_login ≡ some env.login_at)
unfolding log_in start_session
log_in-ok env phone c accounts may free =
    let (u, rows, got, active, named) =
      get_or_create_user-MayLogIn env.uuid phone accounts.users may free in
    let returned : (log_in env phone c accounts).0
        ≡ ok (record u { last_login = some env.login_at }) =
      rw (got, active) refl in
    (record u { last_login = some env.login_at }, returned, named, refl)

-- The open challenge lets its own code through.
check_code-ok :
    (platform : Platform) (env : LoginEnv) (phone code : Text) (c : OtpChallenge)
    (accounts : Accounts)
    → env.now < c.expires_at
    → c.attempts < c.max_attempts
    → c.code_hash ≡ platform.hash_code code
    → check_code platform env phone code (some c) accounts ≡ log_in env phone c accounts
unfolding check_code
check_code-ok platform env phone code c accounts live left same =
    let in_time : is_expired env.now c ≡ false = ground arith in
    let tries : leb c.max_attempts c.attempts ≡ false = ground arith in
    let right : text_eq c.code_hash (platform.hash_code code) ≡ true =
      rw same (text_eq_refl (platform.hash_code code)) in
    rw (in_time, tries, right) refl

-- Typing the digits of a code back.
verify_login_otp-typed :
    (platform : Platform) (env : LoginEnv) (raw_phone code : Text) (accounts : Accounts)
    → AreDigits code
    → is_empty code ≡ false
    → all_digits platform.is_digit code ≡ true
    → verify_login_otp platform env raw_phone code accounts
      ≡ check_code platform env
          (normalize_phone raw_phone)
          code
          (open_challenge (normalize_phone raw_phone) accounts.challenges)
          accounts
unfolding verify_login_otp
verify_login_otp-typed platform env raw_phone code accounts digits some_digit known =
    let same : normalize_digits (strip code) ≡ code =
      ap normalize_digits (strip-digits code digits) ∙ normalize_digits-digits code digits in
    rw (same, some_digit, known) refl

-- What a request that returned did to the tables.
request_login_otp-sent :
    (platform : Platform) (s : Settings) (env : RequestEnv) (raw : Text) (meta : Option RequestMeta)
    (accounts : Accounts) {sent : OtpRequested}
    → (request_login_otp platform s env raw meta accounts).0 ≡ ok sent
    → let row = new_challenge platform s env meta (normalize_phone raw) in
      (refuse_request s env.now (normalize_phone raw) accounts.challenges ≡ none)
      × ((request_login_otp platform s env raw meta accounts).1
          ≡ record accounts { challenges = row ∷ accounts.challenges })
unfolding request_login_otp send_code
request_login_otp-sent platform s env raw meta accounts returned =
    elim (Option-cases (refuse_request s env.now (normalize_phone raw) accounts.challenges)) [
      | inr (e, refused) ↦ absurd (let h = rw refused at returned in cc)
      | inl went_on ↦ elim (Bool-cases (fits_address platform (client_ip meta))) [
        | inr malformed ↦ absurd (let h = rw (went_on, malformed) at returned in cc)
        | inl fits ↦ elim (Bool-cases (exists (has_challenge_id env.uuid) accounts.challenges)) [
          | inl taken ↦ absurd (let h = rw (went_on, fits, taken) at returned in cc)
          | inr free ↦ (went_on, rw (went_on, fits, free) refl)
        ]
      ]
    ]

-- When `request_login_otp` has returned, its code consists of ASCII digits that the platform takes for
-- digits, the settings allow an attempt, and no user of the phone is blocked, then typing the code at the
-- same phone number before it expires logs a user of that phone in. The clock does not run backwards
-- within the request, and the UUID drawn for a user, if the phone has none yet, is not that of another.
pub verify-request :
    (platform : Platform) (s : Settings) (env : RequestEnv) (raw : Text) (meta : Option RequestMeta)
    (login : LoginEnv) (before : Accounts) (sent : OtpRequested)
    → env.now ≤ env.inserted_at
    → (request_login_otp platform s env raw meta before).0 ≡ ok sent
    → AreDigits env.code
    → is_empty env.code ≡ false
    → all_digits platform.is_digit env.code ≡ true
    → 0 < s.max_attempts
    → login.now < env.now + s.expiry_seconds * second
    → MayLogIn (normalize_phone raw) before.users
    → IsFreeFor (normalize_phone raw) login.uuid before.users
    → let after = (request_login_otp platform s env raw meta before).1 in
      (u : User) × ((verify_login_otp platform login raw env.code after).0 ≡ ok u)
      × (u.phone ≡ normalize_phone raw)
      × (u.last_login ≡ some login.login_at)
verify-request platform s env raw meta login before sent later returned digits some_digit known
      tries live may free =
    let phone = normalize_phone raw in
    let row = new_challenge platform s env meta phone in
    let after : Accounts = record before { challenges = row ∷ before.challenges } in
    let (said, issued) = request_login_otp-sent platform s env raw meta before returned in
    let allowed = refuse_request-IsAllowed s env.now phone before.challenges said in
    let older =
      All-map
        {Q = λ (d : OtpChallenge). text_eq d.phone phone ≡ true → d.created_at ≤ env.inserted_at}
        (λ d h same. let below = h same in omega (arith, below)) before.challenges
        (new-IsSpaced s env.now phone before.challenges allowed env.inserted_at later) in
    let opened = open_challenge-new row before.challenges refl older in
    let typed = verify_login_otp-typed platform login raw env.code after digits some_digit known in
    let passes = check_code-ok platform login phone env.code row after live tries refl in
    let (u, logged, named, stamped) = log_in-ok login phone row after may free in
    let logs = typed ∙ ap (λ o. check_code platform login phone env.code o after) opened ∙ passes in
    rw issued (u, ap (λ (x : Result OtpError User × Accounts). x.0) logs ∙ logged, named, stamped)
