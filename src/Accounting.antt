-- ===== src/Accounting.antt =====
-- apps/accounting: the ledger of each contact (models.py). Money is in hundredths. The table of
-- entries is a list with the row created last in front; `created_at` is the time that the
-- database column holds, so the order of the list is not used as the order of the entries.
pub mod Selectors
pub mod Services
pub mod Reports
pub mod Balance
pub mod Valid
pub mod Add
pub mod Stamp
pub mod Posting
pub mod Reversal
pub mod Trade
pub mod Release
pub mod Fifo
pub mod Overdue
pub mod Groups
pub mod Reconcile
pub mod Summary
pub mod Refinement
mod Tests
mod Labels
use sanga.Common.{
  ℕ, ◌≡◌, Bool, true, false, Option, none, some, List, [], ◌∷◌, ◌&&◌, ◌||◌, ◌==◌, ◌^◌, ltb, leb,
  length, not, if◌then◌else◌, exists, refers_to, is_none,
}
use sanga.Common.Int.{ℤ, pos, negsuc, magnitude, is_pos, is_neg}
use sanga.Common.Text.{Text, codes}
use sanga.Common.Results.{Result, ok, err, ◌>>=◌, ◌>>◌, raise_if}
use sanga.Contacts.{Contact}
use Labels.{
  sale_label, purchase_label, payment_received_label, payment_made_label, adjust_debit_label,
  adjust_credit_label, reversal_label,
}

-- `LedgerEntry.Type`
pub data EntryType : Type 0 where
  sale purchase payment_received payment_made adjust_debit adjust_credit reversal : EntryType

pub record LedgerEntry : Type 0 where
  pub id : ℕ
  pub business : ℕ
  pub contact : ℕ
  pub entry_type : EntryType
  pub amount : ℤ
  pub balance_delta : ℤ
  pub balance_after : ℤ
  pub currency : Text
  pub description : Text
  pub reference : Text
  pub occurred_on : ℕ
  pub related_lot : Option ℕ
  pub related_offer : Option ℕ
  pub reverses : Option ℕ
  pub reversed_at : Option ℕ
  pub created_by : ℕ
  pub created_at : ℕ

-- `get_entry_type_display`
abbrev pub entry_type_label : EntryType → Text
entry_type_label sale = sale_label
entry_type_label purchase = purchase_label
entry_type_label payment_received = payment_received_label
entry_type_label payment_made = payment_made_label
entry_type_label adjust_debit = adjust_debit_label
entry_type_label adjust_credit = adjust_credit_label
entry_type_label reversal = reversal_label

-- `entry_type in TRADE_ENTRY_TYPES`
abbrev pub is_trade : EntryType → Bool
is_trade sale = true
is_trade purchase = true
is_trade _ = false

abbrev pub is_reversal : EntryType → Bool
is_reversal reversal = true
is_reversal _ = false

abbrev pub is_debit : LedgerEntry → Bool
is_debit e = is_pos e.balance_delta

abbrev pub is_credit : LedgerEntry → Bool
is_credit e = is_neg e.balance_delta

-- What the services raise: the messages of `LedgerError`, `LedgerDuplicateError` with the entry
-- that is there, and the exceptions of the database and of `decimal` that can pass through.
pub data LedgerError : Type 0 where
  not_allowed invalid_access foreign_contact invalid_entry_type invalid_amount : LedgerError
  amount_not_positive reason_required foreign_lot foreign_offer : LedgerError
  invalid_trade_type offer_not_accepted reversal_of_reversal already_reversed : LedgerError
  duplicate : Option LedgerEntry → LedgerError
  does_not_exist integrity_error data_error decimal_invalid_operation : LedgerError

-- The tables that the ledger's services use.
pub record Books : Type 0 where
  pub contacts : List Contact
  pub entries : List LedgerEntry

-- The condition of `uniq_trade_entry_per_offer`: a trade that names an offer and is not reversed.
abbrev pub holds_slot : ℕ → ℕ → LedgerEntry → Bool
holds_slot business offer e =
    e.business == business
    && (is_trade e.entry_type && (refers_to e.related_offer offer && is_none e.reversed_at))

-- Two rows that the constraint forbids together.
abbrev pub clashes : LedgerEntry → LedgerEntry → Bool
clashes e f =
    is_trade e.entry_type
    && (is_none e.reversed_at
        && elim e.related_offer [ none ↦ false | some o ↦ holds_slot e.business o f ])

-- `DecimalField(max_digits=14, decimal_places=2)` and the balance's 18 digits.
abbrev pub amount_limit : ℕ
amount_limit = 10 ^ 14

abbrev pub balance_limit : ℕ
balance_limit = 10 ^ 18

abbrev pub fits_columns : LedgerEntry → Bool
fits_columns e =
    ltb (magnitude e.amount) amount_limit
    && (ltb (magnitude e.balance_delta) amount_limit
        && (ltb (magnitude e.balance_after) balance_limit
            && (leb (length e.currency) 3
                && (leb (length e.description) 255 && leb (length e.reference) 100))))

-- `LedgerEntry.objects.create`: the columns' widths, `ledger_amount_positive`, the primary key and
-- `uniq_trade_entry_per_offer`.
unfoldable pub create_entry : LedgerEntry → Books → Result LedgerError (LedgerEntry × Books)
create_entry e books = do
  raise_if (not (fits_columns e)) data_error
  raise_if (not (is_pos e.amount)) integrity_error
  raise_if (exists (λ (f : LedgerEntry). f.id == e.id) books.entries) integrity_error
  raise_if (exists (clashes e) books.entries) integrity_error
  ok (e, record books { entries = e ∷ books.entries })
