-- ===== src/Accounting/Tests.antt =====
-- Runs of the ledger on small inputs, and each theorem at one of them.
use sanga.Common.{
  ℕ, ◌≡◌, refl, true, false, Option, none, some, List, [], ◌∷◌, ◌≢◌, ◌⊎◌, inl, ◌+◌, if◌then◌else◌,
  arith,
}
use sanga.Common.Int.{pos, negsuc, ◌+ℤ◌, ◌-ℤ◌, ◌*ℤ◌, neg, is_pos}
use sanga.Common.Decimal.{finite, nan, quantize, hundredths}
use sanga.Common.Text.{strip}
use sanga.Common.Results.{ok, err}
use sanga.Businesses.Permissions.{owner}
use sanga.Businesses.{Membership, MembershipStatus, lacks_capability}
use sanga.Contacts.{Contact, get_contact}
use sanga.PurchaseRequests.{PurchaseRequest, RequestStatus, OfferStatus}
use sanga.Accounting.{
  EntryType, LedgerEntry, Books, duplicate, already_reversed, decimal_invalid_operation,
  create_entry,
}
use sanga.Accounting.Selectors.{
  of_account, current_balance, balance_sum, TradeOffer, trade_entry_for_offer,
  business_financial_summary,
}
use sanga.Accounting.Services.{
  Env, Posting, rial, direction, post_entry, check_posting, require_manage, positive_amount,
  post_trade_entry, check_trade, default_trade_description, reverse_entry, reversal_entry,
}
use sanga.Accounting.Reports.{Bucket, total, amount_in, aging_from_entries, business_aging}
use sanga.Accounting.Valid.{IsValid, live_sum}
use sanga.Accounting.Posting.{post_entry-IsValid, post_entry-amount}
use sanga.Accounting.Reversal.{reverse_entry-IsValid}
use sanga.Accounting.Trade.{post_trade_entry-IsValid, post_trade_entry_once}
use sanga.Accounting.Release.{reverse_entry_once, reverse_entry_releases}
use sanga.Accounting.Overdue.{
  overdue, credit_sum, aging_from_entries-fifo, aging_from_entries-totals,
}
use sanga.Accounting.Reconcile.{business_aging_reconciles}
use sanga.Accounting.Refinement.{Call, Run, entry_move, balances_after, current_balance_refines}
use sanga.Accounting.Summary.{business_financial_summary_adds_up}

abbrev boss : Option Membership
boss = some (record {
  id = 1;
  user = 7;
  business = 1;
  role = owner;
  permissions = [];
  status = MembershipStatus.active;
})

abbrev colleague : Contact
colleague = record {
  id = 10;
  business = 1;
  display_name = [];
  phone = [];
  address = [];
  notes = [];
  linked_business = some 2;
  is_active = true;
}

abbrev env : ℕ → ℕ → Env
env uuid now = record { uuid = uuid; stamp = now; now = now; today = 50; date_text = λ day. [] }

abbrev request : PurchaseRequest
request = record {
  id = 30;
  business = 2;
  created_by = 8;
  title = b'A' ∷ [];
  stone_type = [];
  category = [];
  color = [];
  application = [];
  required_qty_sqm = pos 1000;
  thickness_mm = none;
  length_cm = none;
  width_cm = none;
  acceptable_grade = [];
  budget_amount = none;
  budget_currency = rial;
  destination_city = [];
  required_by = none;
  similar_accepted = true;
  notes = [];
  status = RequestStatus.closed;
  is_public_to_network = true;
  created_at = 1;
  closed_at = some 2;
}

abbrev deal : TradeOffer
deal = record {
  offer = record {
    id = 40;
    purchase_request = 30;
    seller_business = 1;
    created_by = 7;
    lot = none;
    unit_price = pos 100;
    offered_qty_sqm = pos 1000;
    message = [];
    status = OfferStatus.accepted;
    created_at = 2;
  };
  request = request;
  lot_code = none;
}

-- A sale of 100.00 from an accepted offer.
abbrev sale_posting : Posting
sale_posting = record {
  business = 1;
  contact = colleague;
  membership = boss;
  entry_type = some EntryType.sale;
  amount = finite false 100 (pos 0);
  description = b'x' ∷ [];
  reference = [];
  occurred_on = some 10;
  related_lot = none;
  related_offer = some deal;
}

abbrev empty_books : Books
empty_books = record { contacts = colleague ∷ []; entries = [] }

abbrev sale_row : LedgerEntry
sale_row = record {
  id = 100;
  business = 1;
  contact = 10;
  entry_type = EntryType.sale;
  amount = pos 10000;
  balance_delta = pos 10000;
  balance_after = pos 10000;
  currency = rial;
  description = b'x' ∷ [];
  reference = [];
  occurred_on = 10;
  related_lot = none;
  related_offer = some 40;
  reverses = none;
  reversed_at = none;
  created_by = 7;
  created_at = 5;
}

abbrev sale_books : Books
sale_books = record { contacts = colleague ∷ []; entries = sale_row ∷ [] }

program : Unit {0}
unfolding check_posting check_trade require_manage positive_amount post_entry post_trade_entry
    reverse_entry default_trade_description create_entry current_balance trade_entry_for_offer
    get_contact strip quantize lacks_capability ◌+ℤ◌ ◌-ℤ◌ ◌*ℤ◌ neg
program = tt

sale_recorded : post_trade_entry (env 100 5) sale_posting empty_books ≡ ok (sale_row, sale_books)
unfolding program
sale_recorded = refl

sale_posted : post_entry (env 100 5) sale_posting empty_books ≡ ok (sale_row, sale_books)
unfolding program
sale_posted = refl

abbrev undo_row : LedgerEntry
undo_row = reversal_entry (env 101 6) sale_row 7 (pos 10000)

abbrev undone_books : Books
undone_books = record {
  contacts = colleague ∷ [];
  entries = undo_row ∷ record sale_row { reversed_at = some 6 } ∷ [];
}

sale_undone : reverse_entry (env 101 6) sale_row boss sale_books ≡ ok (undo_row, undone_books)
unfolding program
sale_undone = refl

-- A NaN passes `_quantize`, and the comparison raises.
nan_escapes :
    post_entry (env 100 5) (record sale_posting { amount = nan }) empty_books
    ≡ err decimal_invalid_operation
unfolding program
nan_escapes = refl

empty-IsValid : IsValid []
unfolding live_sum balance_sum
empty-IsValid = record {
  sound = record { consistent = tt; keys = tt; slots = tt; signed = tt; refers = tt };
  stamped = tt;
  live_sums = λ b c. refl;
}

sale-IsValid : IsValid (sale_row ∷ [])
sale-IsValid =
    (post_entry-IsValid (env 100 5) sale_posting empty_books empty-IsValid tt sale_posted).0

post_entry-IsValid_example :
    IsValid (sale_row ∷ [])
    × ((b c : ℕ)
        → current_balance b c (sale_row ∷ []) ≡ (
            if of_account b c sale_row
            then current_balance b c [] +ℤ pos 10000
            else current_balance b c []))
post_entry-IsValid_example =
    post_entry-IsValid (env 100 5) sale_posting empty_books empty-IsValid tt sale_posted

post_entry-amount_example :
    (sale_row ∷ [] ≡ sale_row ∷ [])
    × (of_account 1 10 sale_row ≡ true)
    × (◌≡◌ {A = ℕ} 1 1)
    × (quantize (finite false 100 (pos 0)) ≡ hundredths (pos 10000))
    × (is_pos (pos 10000) ≡ true)
    × (some EntryType.sale ≡ some EntryType.sale)
    × ((direction (some EntryType.sale) ≡ some (pos 1)) × (pos 10000 ≡ pos 10000)
        ⊎ (direction (some EntryType.sale) ≡ some (negsuc 0)) × (pos 10000 ≡ neg (pos 10000)))
post_entry-amount_example = post_entry-amount (env 100 5) sale_posting empty_books sale_posted

post_trade_entry-IsValid_example :
    IsValid (sale_row ∷ [])
    × ((b c : ℕ)
        → current_balance b c (sale_row ∷ []) ≡ (
            if of_account b c sale_row
            then current_balance b c [] +ℤ pos 10000
            else current_balance b c []))
post_trade_entry-IsValid_example =
    post_trade_entry-IsValid (env 100 5) sale_posting empty_books empty-IsValid tt sale_recorded

post_trade_entry_once_example :
    (post_trade_entry (env 102 9) sale_posting sale_books ≡ err (duplicate (some sale_row)))
    × ((q : Posting) (u : TradeOffer)
        → q.business ≡ 1
        → q.related_offer ≡ some u
        → u.offer.id ≡ 40
        → (result : LedgerEntry × Books) → post_trade_entry (env 102 9) q sale_books ≢ ok result)
post_trade_entry_once_example =
    post_trade_entry_once (env 100 5) (env 102 9) sale_posting deal empty_books refl sale_recorded

reverse_entry-IsValid_example :
    IsValid undone_books.entries
    × ((b c : ℕ)
        → current_balance b c undone_books.entries ≡ (
            if of_account b c sale_row
            then current_balance b c (sale_row ∷ []) +ℤ neg (pos 10000)
            else current_balance b c (sale_row ∷ [])))
reverse_entry-IsValid_example =
    reverse_entry-IsValid (env 101 6) sale_row boss sale_books sale-IsValid
      (inl (record {
        id = refl;
        business = refl;
        contact = refl;
        entry_type = refl;
        amount = refl;
        balance_delta = refl;
      }))
      (λ own. omega arith, tt) sale_undone

-- A sale and its reversal, as moves.
current_balance_refines_example :
    current_balance 1 10 undone_books.entries
    ≡ balances_after
        (entry_move sale_row (neg (pos 10000)) ∷ entry_move sale_row (pos 10000) ∷ [])
        1
        10
current_balance_refines_example =
    current_balance_refines
      (Run.next
        (Run.next (Run.start {books = empty_books} refl)
          (Call.posted (env 100 5) sale_posting tt sale_posted))
        (Call.reversed (env 101 6) sale_row boss
          (inl (record {
            id = refl;
            business = refl;
            contact = refl;
            entry_type = refl;
            amount = refl;
            balance_delta = refl;
          }))
          (λ own. omega arith, tt) sale_undone))
      1 10

reverse_entry_once_example :
    (reverse_entry (env 103 9) sale_row boss undone_books ≡ err already_reversed)
    × ((f : LedgerEntry) (m : Option Membership)
        → f.id ≡ 100
        → (result : LedgerEntry × Books) → reverse_entry (env 103 9) f m undone_books ≢ ok result)
reverse_entry_once_example =
    reverse_entry_once (env 101 6) (env 103 9) sale_row boss sale_books sale_undone

sale_found : trade_entry_for_offer 1 40 sale_books.entries ≡ some sale_row
unfolding program
sale_found = refl

reverse_entry_releases_example : trade_entry_for_offer 1 40 undone_books.entries ≡ none
reverse_entry_releases_example =
    reverse_entry_releases (env 101 6) 1 40 sale_row boss sale_books sale-IsValid sale_found
      sale_undone

-- A debit of 100.00 on day 10 and a payment of 30.00: 70.00 are over 30 days old on day 50.
abbrev paid : List LedgerEntry
paid =
    sale_row
    ∷ record sale_row {
      id = 105;
      entry_type = EntryType.payment_received;
      amount = pos 3000;
      balance_delta = negsuc 2999;
    }
    ∷ []

aging_from_entries-fifo_example :
    ((k : Bucket)
      → amount_in k (aging_from_entries paid 50)
        ≡ pos (overdue k 50 (credit_sum paid) 0 (sale_row ∷ [])))
    × ((aging_from_entries paid 50).unapplied_credit ≡ pos 0)
aging_from_entries-fifo_example = aging_from_entries-fifo paid 50

aging_from_entries-totals_example :
    (total (aging_from_entries paid 50) ≡ pos 7000)
    × ((aging_from_entries paid 50).unapplied_credit ≡ pos 0)
unfolding program
aging_from_entries-totals_example = aging_from_entries-totals paid 50

business_aging_reconciles_example :
    (total (business_aging 1 50 sale_books.entries).sums
      ≡ (business_financial_summary 1 sale_books).receivable_total)
    × ((business_aging 1 50 sale_books.entries).sums.unapplied_credit
        ≡ (business_financial_summary 1 sale_books).payable_total)
business_aging_reconciles_example =
    business_aging_reconciles 1 50 sale_books sale-IsValid (λ own. refl, tt)

business_financial_summary_adds_up_example :
    let s = business_financial_summary 1 sale_books in
    (s.receivable_total -ℤ s.payable_total ≡ s.net_balance)
    × (s.debtor_count + s.creditor_count + s.settled_count ≡ s.contact_count)
business_financial_summary_adds_up_example = business_financial_summary_adds_up 1 sale_books

-- The summary at work: one debtor, 100.00 receivable.
summary_run : (business_financial_summary 1 sale_books).receivable_total ≡ pos 10000
unfolding program business_financial_summary
summary_run = refl
