-- ===== src/Accounting/Add.antt =====
-- A row added in front of a table that is sound.
use sanga.Common.{
  ℕ, ◌≡◌, refl, ◌∙◌, ap, inl, inr, true, false, none, List, [], ◌∷◌, arith, exists, refers_to, All,
  All-map, Bool-cases,
}
use sanga.Common.Int.{◌+ℤ◌, int_laws}
use sanga.Accounting.{LedgerEntry, is_reversal, clashes}
use sanga.Accounting.Selectors.{of_account, balance_sum, current_balance}
use sanga.Accounting.Balance.{IsPast, IsConsistent, balance_sum-cons, current_balance-eq-sum}
use sanga.Accounting.Valid.{
  live_sum, live_sum-cons, has_id, reverses_id, IsSigned, IsStamped, RefersInto, IsSound, IsValid,
}

of_account_self : (e : LedgerEntry) → of_account e.business e.contact e ≡ true
of_account_self e = ground arith

-- The new row continues its account's balance, at a later time.
pub record Continues (e : LedgerEntry) (es : List LedgerEntry) : Type 0 where
  pub after : e.balance_after ≡ current_balance e.business e.contact es +ℤ e.balance_delta
  pub past : IsPast e.created_at e.business e.contact es

pub record IsNew (e : LedgerEntry) (es : List LedgerEntry) : Type 0 where
  pub continues : Continues e es
  pub fresh : exists (has_id e.id) es ≡ false
  pub free : exists (clashes e) es ≡ false
  pub signed : IsSigned e
  pub target : RefersInto es e

add-IsConsistent :
    (e : LedgerEntry) (es : List LedgerEntry)
    → Continues e es
    → IsConsistent es
    → IsConsistent (e ∷ es)
add-IsConsistent e es k h = (
  k.after
      ∙ ap (λ t. t +ℤ e.balance_delta) (current_balance-eq-sum e.business e.contact es h)
      ∙ rw (balance_sum-cons e.business e.contact e es) (rw (of_account_self e) (omega int_laws)),
  k.past,
  h,
)

RefersInto-cons :
    (e : LedgerEntry) (es : List LedgerEntry) (x : LedgerEntry)
    → RefersInto es x
    → RefersInto (e ∷ es) x
RefersInto-cons e es x h i r = ground (arith, h i r)

pub add-IsSound :
    (e : LedgerEntry) (es : List LedgerEntry) → IsNew e es → IsSound es → IsSound (e ∷ es)
add-IsSound e es n s = record {
  consistent = add-IsConsistent e es n.continues s.consistent;
  keys = (n.fresh, s.keys);
  slots = (n.free, s.slots);
  signed = (n.signed, s.signed);
  refers = (RefersInto-cons e es e n.target, All-map (RefersInto-cons e es) es s.refers);
}

-- Nothing refers to a key that no row has.
pub no_reference :
    (i : ℕ) (table es : List LedgerEntry)
    → exists (has_id i) table ≡ false
    → All (RefersInto table) es
    → exists (reverses_id i) es ≡ false
no_reference i table [] absent h = refl
no_reference i table (e ∷ es) absent h = elim (Bool-cases (refers_to e.reverses i)) [
  | inl r ↦ absurd (cc (h.0 i r))
  | inr r ↦ rw r (no_reference i table es absent h.1)
]

IsStamped-cons :
    (e : LedgerEntry) (es : List LedgerEntry) (x : LedgerEntry)
    → e.reverses ≡ none
    → IsStamped es x
    → IsStamped (e ∷ es) x
IsStamped-cons e es x h s = ground arith

live_sum-add :
    (b c : ℕ) (e : LedgerEntry) (es : List LedgerEntry)
    → e.reversed_at ≡ none
    → is_reversal e.entry_type ≡ false
    → live_sum b c es ≡ balance_sum b c es
    → live_sum b c (e ∷ es) ≡ balance_sum b c (e ∷ es)
live_sum-add b c e es live kind h =
    live_sum-cons b c e es ∙ ground (arith, balance_sum-cons b c e es)

-- An entry that reverses nothing, added to a valid table.
pub add-IsValid :
    (e : LedgerEntry) (es : List LedgerEntry)
    → IsNew e es
    → e.reversed_at ≡ none
    → e.reverses ≡ none
    → is_reversal e.entry_type ≡ false
    → IsValid es
    → IsValid (e ∷ es)
add-IsValid e es n live plain kind v = record {
  sound = add-IsSound e es n v.sound;
  stamped = (
    ground (arith, no_reference e.id es es n.fresh v.sound.refers),
    All-map (λ x. IsStamped-cons e es x plain) es v.stamped,
  );
  live_sums = λ b c. live_sum-add b c e es live kind (v.live_sums b c);
}
