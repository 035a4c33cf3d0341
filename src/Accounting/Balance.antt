-- ===== src/Accounting/Balance.antt =====
-- The balance of an account: the newest entry's `balance_after` against the sum of the deltas.
use sanga.Common.{
  ℕ, ◌<◌, ◌≡◌, refl, inl, inr, true, false, Option, none, some, List, [], ◌∷◌, arith, if◌then◌else◌,
  where_, Bool-cases, subst, ◌∙◌,
}
use sanga.Common.Int.{◌+ℤ◌}
use sanga.Accounting.{LedgerEntry}
use sanga.Accounting.Selectors.{of_account, later_of, latest, current_balance, balance_sum}

-- The clock has passed every entry of an account.
abbrev pub IsPast : ℕ → ℕ → ℕ → List LedgerEntry → Type 0
IsPast now business contact [] = Unit
IsPast now business contact (e ∷ es) =
    (of_account business contact e ≡ true → e.created_at < now) × IsPast now business contact es

-- Each entry carries the sum of the deltas up to it, and is the newest of its account.
abbrev pub IsConsistent : List LedgerEntry → Type 0
IsConsistent [] = Unit
IsConsistent (e ∷ es) =
    (e.balance_after ≡ balance_sum e.business e.contact (e ∷ es))
    × IsPast e.created_at e.business e.contact es
    × IsConsistent es

later_of_trans :
    (e f : LedgerEntry) (o : Option LedgerEntry)
    → f.created_at < e.created_at
    → later_of e o ≡ some e
    → later_of e (later_of f o) ≡ some e
later_of_trans e f none lt h = ground arith
later_of_trans e f (some g) lt h = ground arith

module _ (b c : ℕ) where
  pub balance_sum-cons :
      (e : LedgerEntry) (es : List LedgerEntry)
      → balance_sum b c (e ∷ es)
        ≡ (if of_account b c e then e.balance_delta +ℤ balance_sum b c es else balance_sum b c es)
  unfolding balance_sum
  balance_sum-cons e es = elim (Bool-cases (of_account b c e)) [ inl h ↦ rw h | inr h ↦ rw h ]

  latest_newest :
      (e : LedgerEntry) (es : List LedgerEntry)
      → IsPast e.created_at b c es
      → later_of e (latest (where_ (of_account b c) es)) ≡ some e
  latest_newest e [] h = refl
  latest_newest e (f ∷ fs) h = elim (Bool-cases (of_account b c f)) [
    | inl own ↦ rw own (
        later_of_trans e f (latest (where_ (of_account b c) fs)) (h.0 own) (latest_newest e fs h.1))
    | inr other ↦ rw other (latest_newest e fs h.1)
  ]

  pub own_business : (e : LedgerEntry) → of_account b c e ≡ true → e.business ≡ b
  own_business e own = ground arith

  pub own_contact : (e : LedgerEntry) → of_account b c e ≡ true → e.contact ≡ c
  own_contact e own = ground arith

  own-IsPast :
      (e : LedgerEntry) (es : List LedgerEntry)
      → of_account b c e ≡ true
      → IsPast e.created_at e.business e.contact es
      → IsPast e.created_at b c es
  own-IsPast e es own h =
      subst (λ x. IsPast e.created_at b x es) (own_contact e own)
        (subst (λ x. IsPast e.created_at x e.contact es) (own_business e own) h)

  current_balance-own :
      (e : LedgerEntry) (es : List LedgerEntry)
      → of_account b c e ≡ true
      → IsPast e.created_at b c es
      → current_balance b c (e ∷ es) ≡ e.balance_after
  unfolding current_balance
  current_balance-own e es own past = rw own (rw (latest_newest e es past))

  own_sum :
      (e : LedgerEntry) (es : List LedgerEntry)
      → of_account b c e ≡ true
      → balance_sum e.business e.contact (e ∷ es) ≡ balance_sum b c (e ∷ es)
  own_sum e es own = cc (own_business e own, own_contact e own)

  current_balance-other :
      (e : LedgerEntry) (es : List LedgerEntry)
      → of_account b c e ≡ false
      → current_balance b c (e ∷ es) ≡ current_balance b c es
  unfolding current_balance
  current_balance-other e es other = rw other

  -- The newest entry's balance is the sum of the deltas of the account.
  pub current_balance-eq-sum :
      (es : List LedgerEntry) → IsConsistent es → current_balance b c es ≡ balance_sum b c es
  current_balance-eq-sum [] h = current_balance_nil
    where
      current_balance_nil : current_balance b c [] ≡ balance_sum b c []
      current_balance_nil = unfold current_balance balance_sum in refl
  current_balance-eq-sum (e ∷ es) h = elim (Bool-cases (of_account b c e)) [
    | inl own ↦ current_balance-own e es own (own-IsPast e es own h.1) ∙ h.0 ∙ own_sum e es own
    | inr other ↦
        current_balance-other e es other
        ∙ current_balance-eq-sum es h.2
        ∙ (rw (balance_sum-cons e es) (rw other))
  ]
