-- ===== src/Accounts/Attempts.antt =====
-- The invariant of the challenges through a login, and every state that the services reach.
use sanga.Common.{
  ℕ, ◌+◌, ◌*◌, ◌≤◌, ◌==◌, ◌≡◌, refl, ◌∙◌, subst, inl, inr, Bool, true, Option, some, List, [], ◌∷◌,
  arith, exists, where_, update_where, All, Bool-cases, newest-All, All-map, where_-keeps-All,
  count_where-update_where, All-update_where,
}
use sanga.Common.Text.{Text, text_eq}
use sanga.Common.Results.{Result}
use sanga.Persian.{normalize_phone}
use sanga.Accounts.{User, OtpChallenge, Accounts}
use sanga.Accounts.Otp.{
  OtpError, Settings, Platform, RequestMeta, RequestEnv, LoginEnv, second, issued_at, is_open,
  has_challenge_id, open_challenge, request_login_otp, verify_login_otp,
}
use sanga.Accounts.Challenges.{
  in_window, HasKeys, IsSpaced, IsBounded, IsValid, Requested, Verified,
  request_login_otp-Requested, verify_login_otp-Verified,
}
use sanga.Accounts.Challenges
use sanga.Accounts.Limits.{new_challenge-IsValid}

-- An update that leaves the key, the phone and the time of each row.
module _ (q : OtpChallenge → Bool) (f : OtpChallenge → OtpChallenge)
    (same_id : (c : OtpChallenge) → (f c).id ≡ c.id)
    (same_phone : (c : OtpChallenge) → (f c).phone ≡ c.phone)
    (same_time : (c : OtpChallenge) → (f c).created_at ≡ c.created_at) where
  exists-id-update :
      (i : ℕ) (cs : List OtpChallenge)
      → exists (has_challenge_id i) (update_where q f cs) ≡ exists (has_challenge_id i) cs
  exists-id-update i [] = refl
  exists-id-update i (c ∷ cs) =
      let rest = exists-id-update i cs in
      elim (Bool-cases (q c)) [
        | inl hit ↦ rw (hit, same_id c, rest) refl
        | inr miss ↦ rw (miss, rest) refl
      ]

  HasKeys-update : (cs : List OtpChallenge) → HasKeys cs → HasKeys (update_where q f cs)
  HasKeys-update [] k = tt
  HasKeys-update (c ∷ cs) k =
      let rest = HasKeys-update cs k.1 in
      elim (Bool-cases (q c)) [
        | inl hit ↦ rw (hit, same_id c) (exists-id-update c.id cs ∙ k.0, rest)
        | inr miss ↦ rw miss (exists-id-update c.id cs ∙ k.0, rest)
      ]

  spaced_below :
      (gap at : ℕ) (phone : Text) (cs : List OtpChallenge)
      → All (λ (d : OtpChallenge). text_eq d.phone phone ≡ true → d.created_at + gap ≤ at) cs
      → All
          (λ (d : OtpChallenge). text_eq d.phone phone ≡ true → d.created_at + gap ≤ at)
          (update_where q f cs)
  spaced_below gap at phone cs a =
      All-update_where
        (λ (d : OtpChallenge). text_eq d.phone phone ≡ true → d.created_at + gap ≤ at) q f cs a
        (All-map (λ d older hit. rw (same_phone d, same_time d) older) cs a)

  IsSpaced-update :
      (gap : ℕ) (cs : List OtpChallenge) → IsSpaced gap cs → IsSpaced gap (update_where q f cs)
  IsSpaced-update gap [] a = tt
  IsSpaced-update gap (c ∷ cs) a =
      let rest = IsSpaced-update gap cs a.1 in
      let older = spaced_below gap c.created_at c.phone cs a.0 in
      elim (Bool-cases (q c)) [
        | inl hit ↦ rw (hit, same_phone c, same_time c) (older, rest)
        | inr miss ↦ rw miss (older, rest)
      ]

  update-IsValid :
      (s : Settings) (cs : List OtpChallenge)
      → All (λ c. q c ≡ true → IsBounded s.max_attempts (f c)) cs
      → IsValid s cs
      → IsValid s (update_where q f cs)
  update-IsValid s cs bounded v = record {
    keys = HasKeys-update cs v.keys;
    limited = λ phone w.
        rw
          (count_where-update_where (in_window phone w) q f
            (λ c. rw (same_phone c, same_time c) refl) cs)
          (v.limited phone w);
    spaced = IsSpaced-update (s.cooldown_seconds * second) cs v.spaced;
    bounded = All-update_where (IsBounded s.max_attempts) q f cs v.bounded bounded;
  }

-- The open challenge of a phone is a row of the table.
pub open_challenge-All {κ} :
    (P : OtpChallenge → Type κ) (phone : Text) (rows : List OtpChallenge) (c : OtpChallenge)
    → All P rows
    → open_challenge phone rows ≡ some c
    → P c
open_challenge-All P phone rows c a found =
    newest-All P issued_at (where_ (is_open phone) rows) c
      (where_-keeps-All P (is_open phone) rows a) found

Verified-IsValid :
    (platform : Platform) (s : Settings) (env : LoginEnv) (phone code : Text)
    (rows : List OtpChallenge) {outcome : Result OtpError User} {after : List OtpChallenge}
    → Verified platform env phone code rows outcome after
    → IsValid s rows
    → IsValid s after
Verified-IsValid platform s env phone code rows (Challenges.Verified.refused e) v = v
Verified-IsValid platform s env phone code rows (Challenges.Verified.failed c found left) v =
    let bound = open_challenge-All (IsBounded s.max_attempts) phone rows c v.bounded found in
    update-IsValid (has_challenge_id c.id)
      (λ (row : OtpChallenge). record row { attempts = c.attempts + 1 }) (λ x. refl) (λ x. refl)
      (λ x. refl) s rows
      (All-map
        {Q = λ x.
          (x.id == c.id) ≡ true
          → (c.attempts + 1 ≤ s.max_attempts) × (x.max_attempts ≡ s.max_attempts)}
        (λ x b hit. (subst (λ m. c.attempts + 1 ≤ m) bound.1 (omega arith), b.1)) rows v.bounded)
      v
Verified-IsValid platform s env phone code rows
      (Challenges.Verified.passed c u found live left right) v =
    update-IsValid (has_challenge_id c.id) (λ (row : OtpChallenge). record row { is_used = true })
      (λ x. refl) (λ x. refl) (λ x. refl) s rows
      (All-map {Q = λ x. (x.id == c.id) ≡ true → IsBounded s.max_attempts x} (λ x b hit. b) rows
        v.bounded)
      v

-- One call of a service; the clock does not run backwards within it.
pub data Step (platform : Platform) (s : Settings) : Accounts → Accounts → Type 0 where
  request :
      (env : RequestEnv) (raw : Text) (meta : Option RequestMeta) {before after : Accounts}
      → env.now ≤ env.inserted_at
      → (request_login_otp platform s env raw meta before).1 ≡ after
      → Step platform s before after
  verify :
      (env : LoginEnv) (raw_phone raw_code : Text) {before after : Accounts}
      → (verify_login_otp platform env raw_phone raw_code before).1 ≡ after
      → Step platform s before after

-- The states that calls reach from tables with no challenge.
pub data Reachable (platform : Platform) (s : Settings) : Accounts → Type 0 where
  start : {accounts : Accounts} → accounts.challenges ≡ [] → Reachable platform s accounts
  step :
      {before after : Accounts}
      → Reachable platform s before
      → Step platform s before after
      → Reachable platform s after

Requested-IsValid :
    (platform : Platform) (s : Settings) (env : RequestEnv) (meta : Option RequestMeta)
    (phone : Text) (before : Accounts) {after : Accounts}
    → env.now ≤ env.inserted_at
    → Requested platform s env meta phone before after
    → IsValid s before.challenges
    → IsValid s after.challenges
Requested-IsValid platform s env meta phone before later Challenges.Requested.refused v = v
Requested-IsValid platform s env meta phone before later (Challenges.Requested.issued said fresh)
      v =
    new_challenge-IsValid platform s env meta phone before.challenges later said fresh v

pub Reachable-IsValid :
    {platform : Platform} {s : Settings} {accounts : Accounts}
    → Reachable platform s accounts
    → IsValid s accounts.challenges
Reachable-IsValid (start none_yet) =
    rw none_yet (record { keys = tt; limited = λ phone w. omega arith; spaced = tt; bounded = tt })
Reachable-IsValid {platform} {s} (step {before} reached (request env raw meta later after)) =
    subst (λ (x : Accounts). IsValid s x.challenges) after
      (Requested-IsValid platform s env meta (normalize_phone raw) before later
        (request_login_otp-Requested platform s env raw meta before) (Reachable-IsValid reached))
Reachable-IsValid {platform} {s} (step {before} reached (verify env raw_phone raw_code after)) =
    subst (λ (x : Accounts). IsValid s x.challenges) after
      (Verified-IsValid platform s env _ _ before.challenges
        (verify_login_otp-Verified platform env raw_phone raw_code before)
        (Reachable-IsValid reached))
