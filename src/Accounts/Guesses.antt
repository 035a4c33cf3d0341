-- ===== src/Accounts/Guesses.antt =====
-- The limits on codes and guesses in the states that the services of apps/accounts/services.py
-- reach, and what a login does to the table of challenges.
use sanga.Common.{
  ℕ, ◌+◌, ◌==◌, ◌≡◌, refl, ◌∙◌, Bool, true, false, List, [], ◌∷◌, arith, if◌then◌else◌, exists,
  newest-All, where_-All, All-map, All-both, exists-All, count_where-update_where, ==_refl, where_,
  count_where, update_where, All,
}
use sanga.Common.Text.{Text}
use sanga.Common.Results.{Result, ok, err}
use sanga.Accounts.{User, OtpChallenge, Accounts}
use sanga.Accounts.Otp.{
  OtpError, Settings, Platform, LoginEnv, has_challenge_id, is_open, use_challenge, count_attempt,
  issued_at, verify_login_otp,
}
use sanga.Accounts.Challenges.{HasKeys, Verified, verify_login_otp-Verified}
use sanga.Accounts.Challenges
use sanga.Accounts.Attempts.{Reachable, Reachable-IsValid, open_challenge-All}

-- The wrong codes that were tried on the challenges that a test selects.
abbrev pub guesses : (OtpChallenge → Bool) → List OtpChallenge → ℕ
guesses p [] = 0
guesses p (c ∷ cs) = (if p c then c.attempts else 0) + guesses p cs

abbrev pub used : OtpChallenge → Bool
used c = c.is_used

-- No other row has the key of a row.
count_where-other :
    (i : ℕ) (cs : List OtpChallenge)
    → exists (has_challenge_id i) cs ≡ false
    → count_where used (
        update_where
          (has_challenge_id i)
          (λ (row : OtpChallenge). record row { is_used = true })
          cs)
      ≡ count_where used cs
count_where-other i [] h = refl
count_where-other i (c ∷ cs) h = ground (arith, count_where-other i cs)

-- Setting the flag of one row that does not have it adds one to the rows that have it.
abbrev Adds : List OtpChallenge → OtpChallenge → Type 0
Adds cs c = c.is_used ≡ false → count_where used (use_challenge c cs) ≡ 1 + count_where used cs

abbrev IsOther : OtpChallenge → OtpChallenge → Type 0
IsOther c d = (d.id == c.id) ≡ false

count_where-use : (cs : List OtpChallenge) → HasKeys cs → All (Adds cs) cs
count_where-use [] k = tt
count_where-use (c ∷ cs) k =
    let here : Adds (c ∷ cs) c =
      λ unused. rw (==_refl c.id, count_where-other c.id cs k.0, unused) (omega arith) in
    let there : (d : OtpChallenge) → IsOther c d × Adds cs d → Adds (c ∷ cs) d = λ d both unused.
      let rest = both.1 unused in
      let miss : (c.id == d.id) ≡ false = let e = both.0 in ground arith in
      rw (miss, rest) (omega arith) in
    (
      here,
      All-map there cs (
          All-both (IsOther c) (Adds cs) cs (exists-All (has_challenge_id c.id) cs k.0)
            (count_where-use cs k.1)),
    )

count_where-attempt :
    (c : OtpChallenge) (cs : List OtpChallenge)
    → count_where used (count_attempt c cs) ≡ count_where used cs
count_where-attempt c cs =
    count_where-update_where used (has_challenge_id c.id)
      (λ (row : OtpChallenge). record row { attempts = c.attempts + 1 }) (λ x. refl) cs

-- Whether a service returned.
abbrev pub is_ok : Result OtpError User → Bool
is_ok (ok u) = true
is_ok (err e) = false

Verified-used :
    (platform : Platform) (env : LoginEnv) (phone code : Text) (rows : List OtpChallenge)
    {outcome : Result OtpError User} {after : List OtpChallenge}
    → Verified platform env phone code rows outcome after
    → HasKeys rows
    → count_where used after ≡ (if is_ok outcome then 1 else 0) + count_where used rows
Verified-used platform env phone code rows (Challenges.Verified.refused e) k = omega arith
Verified-used platform env phone code rows (Challenges.Verified.failed c found left) k =
    count_where-attempt c rows ∙ omega arith
Verified-used platform env phone code rows (Challenges.Verified.passed c u found live left right)
      k =
    let unspent =
      newest-All (λ d. is_open phone d ≡ true) issued_at (where_ (is_open phone) rows) c
        (where_-All (is_open phone) rows) found in
    open_challenge-All (Adds rows) phone rows c (count_where-use rows k) found (ground arith)

-- From every state that the services reach, a call of `verify_login_otp` that logs a user in turns
-- exactly one challenge into a used one, and a call that raises leaves the number of used ones as it is.
pub verify_uses_one :
    {platform : Platform} {s : Settings} {accounts : Accounts}
    → Reachable platform s accounts
    → (env : LoginEnv) (raw_phone raw_code : Text)
    → let after = verify_login_otp platform env raw_phone raw_code accounts in
      count_where used after.1.challenges
      ≡ (if is_ok after.0 then 1 else 0) + count_where used accounts.challenges
verify_uses_one {platform} {accounts = accounts} reached env raw_phone raw_code =
    Verified-used platform env _ _ accounts.challenges
      (verify_login_otp-Verified platform env raw_phone raw_code accounts)
      (Reachable-IsValid reached).keys
