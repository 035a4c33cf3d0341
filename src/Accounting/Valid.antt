-- ===== src/Accounting/Valid.antt =====
-- The invariant of the ledger's table of entries, and an entry added in front of a valid table.
use sanga.Common.{
  ℕ, ◌≡◌, inl, inr, Bool, true, false, List, [], ◌∷◌, ◌&&◌, ◌==◌, not, arith, if◌then◌else◌, where_,
  exists, refers_to, is_none, All, Bool-cases,
}
use sanga.Common.Int.{ℤ, ◌+ℤ◌, magnitude, pos_part, is_pos, sum_ℤ}
use sanga.Common.Results.{ok, raise_if-eq-ok}
use sanga.Accounting.{LedgerEntry, Books, is_reversal, clashes, fits_columns, create_entry}
use sanga.Accounting.Selectors.{of_account, balance_sum}
use sanga.Accounting.Balance.{IsConsistent}

-- The entries of an account that are not reversed and are no reversals.
abbrev pub live_of : ℕ → ℕ → LedgerEntry → Bool
live_of b c e = of_account b c e && (is_none e.reversed_at && not (is_reversal e.entry_type))

unfoldable pub live_sum : ℕ → ℕ → List LedgerEntry → ℤ
live_sum b c es = sum_ℤ (λ (e : LedgerEntry). e.balance_delta) (where_ (live_of b c) es)

abbrev pub has_id : ℕ → LedgerEntry → Bool
has_id i e = e.id == i

abbrev pub reverses_id : ℕ → LedgerEntry → Bool
reverses_id i e = refers_to e.reverses i

-- No two rows have one primary key.
abbrev pub HasKeys : List LedgerEntry → Type 0
HasKeys [] = Unit
HasKeys (e ∷ es) = (exists (has_id e.id) es ≡ false) × HasKeys es

-- `uniq_trade_entry_per_offer` holds.
abbrev pub HasSlots : List LedgerEntry → Type 0
HasSlots [] = Unit
HasSlots (e ∷ es) = (exists (clashes e) es ≡ false) × HasSlots es

-- An entry moves its balance by its amount, which is positive, and fits its columns.
abbrev pub IsSigned : LedgerEntry → Type 0
IsSigned e =
    (is_pos e.amount ≡ true)
    × (magnitude e.balance_delta ≡ pos_part e.amount)
    × (fits_columns e ≡ true)
    × (is_reversal e.entry_type ≡ not (is_none e.reverses))

-- A row is stamped exactly if a row of the table reverses it.
abbrev pub IsStamped : List LedgerEntry → LedgerEntry → Type 0
IsStamped table e = is_none e.reversed_at ≡ not (exists (reverses_id e.id) table)

-- What a row reverses is in the table.
abbrev pub RefersInto : List LedgerEntry → LedgerEntry → Type 0
RefersInto table e = (i : ℕ) → refers_to e.reverses i ≡ true → exists (has_id i) table ≡ true

-- What holds at every moment, also between the stamp of an entry and its reversal.
pub record IsSound (es : List LedgerEntry) : Type 0 where
  pub consistent : IsConsistent es
  pub keys : HasKeys es
  pub slots : HasSlots es
  pub signed : All IsSigned es
  pub refers : All (RefersInto es) es

-- What holds after every service: also, stamps and reversals match, and the live entries of each
-- account sum to its balance.
pub record IsValid (es : List LedgerEntry) : Type 0 where
  pub sound : IsSound es
  pub stamped : All (IsStamped es) es
  pub live_sums : (b c : ℕ) → live_sum b c es ≡ balance_sum b c es

-- What a successful `create_entry` has checked, and the table after it.
pub record IsCreated (e : LedgerEntry) (books : Books) (e' : LedgerEntry) (books' : Books)
    : Type 0 where
  pub same : e' ≡ e
  pub added : books' ≡ record books { entries = e ∷ books.entries }
  pub fits : fits_columns e ≡ true
  pub positive : is_pos e.amount ≡ true
  pub fresh : exists (has_id e.id) books.entries ≡ false
  pub free : exists (clashes e) books.entries ≡ false

pub create_entry-IsCreated :
    (e : LedgerEntry) (books : Books) (e' : LedgerEntry) (books' : Books)
    → create_entry e books ≡ ok (e', books')
    → IsCreated e books e' books'
unfolding create_entry
create_entry-IsCreated e books e' books' h =
    let (fits, h₁) = raise_if-eq-ok (not (fits_columns e)) _ _ h in
    let (positive, h₂) = raise_if-eq-ok (not (is_pos e.amount)) _ _ h₁ in
    let (fresh, h₃) = raise_if-eq-ok (exists (has_id e.id) books.entries) _ _ h₂ in
    let (free, h₄) = raise_if-eq-ok (exists (clashes e) books.entries) _ _ h₃ in
    record {
      same = ground arith;
      added = ground arith;
      fits = ground arith;
      positive = ground arith;
      fresh = fresh;
      free = free;
    }

module _ (b c : ℕ) where
  pub live_sum-cons :
      (e : LedgerEntry) (es : List LedgerEntry)
      → live_sum b c (e ∷ es)
        ≡ (if live_of b c e then e.balance_delta +ℤ live_sum b c es else live_sum b c es)
  unfolding live_sum
  live_sum-cons e es = elim (Bool-cases (live_of b c e)) [ inl h ↦ rw h | inr h ↦ rw h ]
