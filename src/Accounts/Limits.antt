-- ===== src/Accounts/Limits.antt =====
-- The services keep the invariant of the challenges: the limits on codes and on guesses.
use sanga.Common.{
  ℕ, ◌+◌, ◌*◌, ◌≤◌, ◌<◌, ◌≡◌, refl, subst, inl, inr, true, false, Option, none, some, List, ◌∷◌,
  leb, arith, exists, where_, count_where, newest, All, Bool-cases, newest_max, newest-none,
  All-where_, All-map, count_where_mono,
}
use sanga.Common.Text.{Text, text_eq, text_eq-eq}
use sanga.Persian.{is_mobile}
use sanga.Accounts.{OtpChallenge}
use sanga.Accounts.Otp.{
  Settings, Platform, RequestMeta, RequestEnv, second, hour, of_phone, issued_at, is_cooling,
  in_last_hour, new_challenge, has_challenge_id, refuse_request,
}
use sanga.Accounts.Challenges.{in_window, IsValid}

-- What the guards of a request have checked.
pub record IsAllowed (s : Settings) (now : ℕ) (phone : Text) (rows : List OtpChallenge)
    : Type 0 where
  pub mobile : is_mobile phone ≡ true
  pub cool :
      is_cooling now s.cooldown_seconds (newest issued_at (where_ (of_phone phone) rows)) ≡ false
  pub few : count_where (in_last_hour phone now) rows < s.max_requests_per_hour

pub refuse_request-IsAllowed :
    (s : Settings) (now : ℕ) (phone : Text) (rows : List OtpChallenge)
    → refuse_request s now phone rows ≡ none
    → IsAllowed s now phone rows
unfolding refuse_request
refuse_request-IsAllowed s now phone rows h = elim (Bool-cases (is_mobile phone)) [
  | inr bad ↦ absurd (let e = rw bad at h in ground arith)
  | inl mobile ↦
      elim (Bool-cases
        (is_cooling now s.cooldown_seconds (newest issued_at (where_ (of_phone phone) rows)))) [
          | inl hot ↦ absurd (let e = rw (mobile, hot) at h in ground arith)
          | inr cool ↦
              elim (Bool-cases
                (leb s.max_requests_per_hour (count_where (in_last_hour phone now) rows))) [
                  | inl many ↦ absurd (let e = rw (mobile, cool, many) at h in ground arith)
                  | inr few ↦ record { mobile = mobile; cool = cool; few = ground arith }
                ]
        ]
]

module _ (s : Settings) (now : ℕ) (phone : Text) (rows : List OtpChallenge)
    (allowed : IsAllowed s now phone rows) where
  abbrev gap : ℕ
  gap = s.cooldown_seconds * second

  -- All challenges of the phone are older than the cooldown.
  cooled :
      (o : Option OtpChallenge)
      → newest issued_at (where_ (of_phone phone) rows) ≡ o
      → is_cooling now s.cooldown_seconds o ≡ false
      → All (λ (d : OtpChallenge). text_eq d.phone phone ≡ true → d.created_at + gap ≤ now) rows
  cooled none found cool =
      All-where_ (λ d. d.created_at + gap ≤ now) (of_phone phone) rows
        (newest-none issued_at (where_ (of_phone phone) rows) (λ d. d.created_at + gap ≤ now) found)
  cooled (some c) found cool =
      All-where_ (λ d. d.created_at + gap ≤ now) (of_phone phone) rows
        (All-map (λ d older. ground arith) (where_ (of_phone phone) rows)
          (newest_max issued_at (where_ (of_phone phone) rows) c found))

  pub new-IsSpaced :
      (at : ℕ)
      → now ≤ at
      → All (λ (d : OtpChallenge). text_eq d.phone phone ≡ true → d.created_at + gap ≤ at) rows
  new-IsSpaced at later =
      All-map (λ d older same. ground (arith, older same)) rows
        (cooled (newest issued_at (where_ (of_phone phone) rows)) refl allowed.cool)

  -- A window that a new challenge falls into has room for it.
  window_has_room :
      (at w : ℕ)
      → now ≤ at
      → at ≤ w + hour
      → count_where (in_window phone w) rows < s.max_requests_per_hour
  window_has_room at w later within =
      let most =
        count_where_mono (in_window phone w) (in_last_hour phone now) (λ c inside. ground arith)
          rows in
      omega (arith, allowed.few)

module _ (platform : Platform) (s : Settings) (env : RequestEnv) (request : Option RequestMeta)
    (phone : Text) (rows : List OtpChallenge) where
  abbrev row : OtpChallenge
  row = new_challenge platform s env request phone

  pub new_challenge-IsValid :
      env.now ≤ env.inserted_at
      → refuse_request s env.now phone rows ≡ none
      → exists (has_challenge_id env.uuid) rows ≡ false
      → IsValid s rows
      → IsValid s (row ∷ rows)
  new_challenge-IsValid later said fresh v =
      let allowed = refuse_request-IsAllowed s env.now phone rows said in
      record {
        keys = (fresh, v.keys);
        limited = λ phone' w. elim (Bool-cases (in_window phone' w row)) [
          | inr outside ↦ let rest = v.limited phone' w in ground arith
          | inl inside ↦
              let same = text_eq-eq phone phone' (ground arith) in
              let room =
                window_has_room s env.now phone rows allowed env.inserted_at w later
                  (ground arith) in
              subst (λ p. count_where (in_window p w) (row ∷ rows) ≤ s.max_requests_per_hour) same
                (ground arith)
        ];
        spaced = (new-IsSpaced s env.now phone rows allowed env.inserted_at later, v.spaced);
        bounded = ((omega arith, refl), v.bounded);
      }
