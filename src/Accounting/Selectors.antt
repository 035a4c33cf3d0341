-- ===== src/Accounting/Selectors.antt =====
-- apps/accounting/selectors.py: balances, statements and the rows that belong to an offer.
use sanga.Common.{
  ℕ, ◌+◌, ◌*◌, ◌==◌, Bool, true, false, Option, none, some, List, [], ◌∷◌, ◌&&◌, ◌||◌, leb, not,
  if◌then◌else◌, where_, find_first, count_where, refers_to, length,
}
use sanga.Common.Int.{ℤ, pos, negsuc, pos_part, neg, is_pos, is_neg, is_zero, sum_ℤ}
use sanga.Common.Decimal.{round_half_up}
use sanga.Contacts.{Contact}
use sanga.PurchaseRequests.{PurchaseOffer, PurchaseRequest, is_accepted}
use sanga.Accounting.{EntryType, LedgerEntry, Books, is_debit, is_credit, holds_slot}

-- `LedgerEntry.objects.filter(business=business, contact=contact)`
abbrev pub of_account : ℕ → ℕ → LedgerEntry → Bool
of_account business contact e = e.business == business && e.contact == contact

-- `.order_by("-created_at").first()`
abbrev pub later_of : LedgerEntry → Option LedgerEntry → Option LedgerEntry
later_of e none = some e
later_of e (some f) = if leb f.created_at e.created_at then some e else some f

abbrev pub latest : List LedgerEntry → Option LedgerEntry
latest [] = none
latest (e ∷ es) = later_of e (latest es)

abbrev pub balance_or_zero : Option LedgerEntry → ℤ
balance_or_zero none = pos 0
balance_or_zero (some e) = e.balance_after

-- `current_balance`
unfoldable pub current_balance : ℕ → ℕ → List LedgerEntry → ℤ
current_balance business contact entries =
    balance_or_zero (latest (where_ (of_account business contact) entries))

-- The annotation `balance` of `contact_balances`: `Coalesce(Sum("balance_delta"), 0)`.
unfoldable pub balance_sum : ℕ → ℕ → List LedgerEntry → ℤ
balance_sum business contact entries =
    sum_ℤ (λ (e : LedgerEntry). e.balance_delta) (where_ (of_account business contact) entries)

-- The states of a balance, with the labels of `BALANCE_STATE_LABELS` left to the templates.
pub data BalanceState : Type 0 where
  debtor creditor settled : BalanceState

pub record Description : Type 0 where
  pub state : BalanceState
  pub amount : ℤ
  pub signed : ℤ

-- `describe_balance`
unfoldable pub describe_balance : ℤ → Description
describe_balance balance =
    if is_pos balance
    then record { state = debtor; amount = balance; signed = balance }
    else if is_neg balance
    then record { state = creditor; amount = neg balance; signed = balance }
    else record { state = settled; amount = pos 0; signed = pos 0 }

-- One row of `contact_balances`.
pub record BalanceRow : Type 0 where
  pub contact : Contact
  pub balance : ℤ
  pub entry_count : ℕ

abbrev pub balance_row : ℕ → List LedgerEntry → Contact → BalanceRow
balance_row business entries c = record {
  contact = c;
  balance = balance_sum business c.id entries;
  entry_count = count_where (of_account business c.id) entries;
}

-- The rows before the filter on the state: active contacts, and archived ones that are not settled.
unfoldable pub balance_rows : ℕ → List LedgerEntry → List Contact → List BalanceRow
unfolding balance_sum
balance_rows business entries [] = []
balance_rows business entries (c ∷ cs) =
    let rest = balance_rows business entries cs in
    let row = balance_row business entries c in
    if c.business == business && (c.is_active || not (is_zero row.balance))
    then row ∷ rest
    else rest

-- The query parameter `state`; any other text narrows nothing.
abbrev pub in_state : Option BalanceState → BalanceRow → Bool
in_state none row = true
in_state (some debtor) row = is_pos row.balance
in_state (some creditor) row = is_neg row.balance
in_state (some settled) row = is_zero row.balance

-- `contact_balances`, but for the order of its rows.
unfoldable pub contact_balances : ℕ → Option BalanceState → Books → List BalanceRow
unfolding balance_rows
contact_balances business state books =
    where_ (in_state state) (balance_rows business books.entries books.contacts)

pub record Summary : Type 0 where
  pub receivable_total : ℤ
  pub payable_total : ℤ
  pub net_balance : ℤ
  pub net : Description
  pub debtor_count : ℕ
  pub creditor_count : ℕ
  pub settled_count : ℕ
  pub contact_count : ℕ

abbrev pub positive : BalanceRow → ℤ
positive row = if is_pos row.balance then row.balance else pos 0

abbrev pub negative : BalanceRow → ℤ
negative row = if is_neg row.balance then row.balance else pos 0

-- The aggregate of `business_financial_summary` over given rows.
unfoldable pub summarize : List BalanceRow → Summary
unfolding describe_balance
summarize rows = record {
  receivable_total = sum_ℤ positive rows;
  payable_total = neg (sum_ℤ negative rows);
  net_balance = sum_ℤ (λ (row : BalanceRow). row.balance) rows;
  net = describe_balance (sum_ℤ (λ (row : BalanceRow). row.balance) rows);
  debtor_count = count_where (λ (row : BalanceRow). is_pos row.balance) rows;
  creditor_count = count_where (λ (row : BalanceRow). is_neg row.balance) rows;
  settled_count = count_where (λ (row : BalanceRow). is_zero row.balance) rows;
  contact_count = length rows;
}

-- `business_financial_summary`
unfoldable pub business_financial_summary : ℕ → Books → Summary
unfolding contact_balances summarize
business_financial_summary business books = summarize (contact_balances business none books)

-- `order_by("created_at")`, which leaves rows of one time in the order of the table.
abbrev pub insert_by_time : LedgerEntry → List LedgerEntry → List LedgerEntry
insert_by_time e [] = e ∷ []
insert_by_time e (f ∷ fs) =
    let rest = insert_by_time e fs in if leb e.created_at f.created_at then e ∷ f ∷ fs else f ∷ rest

abbrev pub order_by_time : List LedgerEntry → List LedgerEntry
order_by_time [] = []
order_by_time (e ∷ es) = insert_by_time e (order_by_time es)

-- The filters of a statement. A type that is no choice filters nothing, and is `none` here.
pub record StatementFilter : Type 0 where
  pub date_from : Option ℕ
  pub date_to : Option ℕ
  pub entry_type : Option EntryType

abbrev pub same_type : EntryType → EntryType → Bool
same_type EntryType.sale EntryType.sale = true
same_type EntryType.purchase EntryType.purchase = true
same_type EntryType.payment_received EntryType.payment_received = true
same_type EntryType.payment_made EntryType.payment_made = true
same_type EntryType.adjust_debit EntryType.adjust_debit = true
same_type EntryType.adjust_credit EntryType.adjust_credit = true
same_type EntryType.reversal EntryType.reversal = true
same_type _ _ = false

abbrev pub passes : StatementFilter → LedgerEntry → Bool
passes f e =
    elim f.date_from [ none ↦ true | some d ↦ leb d e.occurred_on ]
    && (elim f.date_to [ none ↦ true | some d ↦ leb e.occurred_on d ]
        && elim f.entry_type [ none ↦ true | some t ↦ same_type e.entry_type t ])

-- `contact_statement`
unfoldable pub contact_statement : ℕ → ℕ → StatementFilter → List LedgerEntry → List LedgerEntry
contact_statement business contact f entries =
    order_by_time (where_ (passes f) (where_ (of_account business contact) entries))

abbrev pub last : List LedgerEntry → Option LedgerEntry
last [] = none
last (e ∷ []) = some e
last (e ∷ f ∷ fs) = last (f ∷ fs)

pub record Totals : Type 0 where
  pub debit : ℤ
  pub credit : ℤ
  pub row_count : ℕ
  pub closing : Option ℤ
  pub closing_balance : Option Description

-- `statement_totals`
unfoldable pub statement_totals : List LedgerEntry → Totals
unfolding describe_balance
statement_totals entries = record {
  debit = sum_ℤ (λ (e : LedgerEntry). e.amount) (where_ is_debit entries);
  credit = sum_ℤ (λ (e : LedgerEntry). e.amount) (where_ is_credit entries);
  row_count = length entries;
  closing = elim (last entries) [ none ↦ none | some e ↦ some e.balance_after ];
  closing_balance = elim (last entries) [
    | none ↦ none
    | some e ↦ some (describe_balance e.balance_after)
  ];
}

-- An offer with the rows that its foreign keys name.
pub record TradeOffer : Type 0 where
  pub offer : PurchaseOffer
  pub request : PurchaseRequest
  pub lot_code : Option (List ℕ)

-- `business.id in {seller_business_id, purchase_request.business_id}`
abbrev pub is_party : ℕ → TradeOffer → Bool
is_party business t = t.offer.seller_business == business || t.request.business == business

-- `accepted_offer_for`
unfoldable pub accepted_offer_for : ℕ → ℕ → List TradeOffer → Option TradeOffer
accepted_offer_for business offer offers =
    find_first
      (λ (t : TradeOffer).
        is_party business t && (t.offer.id == offer && is_accepted t.offer.status))
      offers

-- `trade_entry_for_offer`
unfoldable pub trade_entry_for_offer : ℕ → ℕ → List LedgerEntry → Option LedgerEntry
trade_entry_for_offer business offer entries = find_first (holds_slot business offer) entries

-- `offer_counterparty`
unfoldable pub offer_counterparty : ℕ → TradeOffer → Option ℕ
offer_counterparty business t =
    if t.offer.seller_business == business
    then some t.request.business
    else if t.request.business == business
    then some t.offer.seller_business
    else none

abbrev pub only : {A : Type 0} → List A → Option A
only [] = none
only (x ∷ []) = some x
only (x ∷ y ∷ xs) = none

abbrev pub is_link : ℕ → ℕ → Contact → Bool
is_link business other c =
    c.business == business && (refers_to c.linked_business other && c.is_active)

-- `suggested_contact_for_offer`
unfoldable pub suggested_contact_for_offer : ℕ → TradeOffer → List Contact → Option Contact
unfolding offer_counterparty
suggested_contact_for_offer business t contacts = elim (offer_counterparty business t) [
  | none ↦ none
  | some other ↦ only (where_ (is_link business other) contacts)
]

-- `suggested_amount_for_offer`: hundredths times thousandths, rounded half up to hundredths.
unfoldable pub suggested_amount_for_offer : PurchaseOffer → Option ℤ
unfolding round_half_up
suggested_amount_for_offer o =
    if is_pos o.unit_price
    then (elim o.offered_qty_sqm [
      | pos q ↦ some (pos (round_half_up (pos_part o.unit_price * q) 1000))
      | negsuc q ↦ some (neg (pos (round_half_up (pos_part o.unit_price * (q + 1)) 1000)))
    ])
    else none
