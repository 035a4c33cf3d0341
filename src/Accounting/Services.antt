-- ===== src/Accounting/Services.antt =====
-- apps/accounting/services.py: posting an entry, recording a trade, reversing an entry. Each service
-- runs in one transaction, so what raises changes nothing: it returns an error and no tables.
use sanga.Common.{
  ℕ, ◌==◌, Bool, true, false, Option, none, some, List, [], ◌++◌, ◌&&◌, not, if◌then◌else◌, exists,
  update_where, refers_to, is_none,
}
use sanga.Common.Int.{ℤ, pos, negsuc, pos_part, ◌+ℤ◌, ◌*ℤ◌, neg, is_pos}
use sanga.Common.Decimal.{DecimalInput, quantize, hundredths, not_a_number, invalid_operation}
use sanga.Common.Text.{Text, codes, strip, is_empty, or_text, show_thousandths}
use sanga.Common.Results.{Result, ok, err, ◌>>=◌, ◌>>◌, raise_if, or_raise}
use sanga.Businesses.Permissions.{ledger_manage}
use sanga.Businesses.{Membership, lacks_capability}
use sanga.Contacts.{Contact, get_contact}
use sanga.Inventory.{InventoryLot}
use sanga.PurchaseRequests.{is_accepted}
use sanga.Accounting.{
  EntryType, sale, purchase, payment_received, payment_made, adjust_debit, adjust_credit, reversal,
  LedgerEntry, LedgerError, not_allowed, invalid_access, foreign_contact, invalid_entry_type,
  invalid_amount, amount_not_positive, reason_required, foreign_lot, foreign_offer,
  invalid_trade_type, offer_not_accepted, reversal_of_reversal, already_reversed, duplicate,
  does_not_exist, integrity_error, decimal_invalid_operation, Books, is_trade, is_reversal,
  entry_type_label, create_entry,
}
use sanga.Accounting.Labels.{
  sale_label, purchase_label, based_on_offer, after_title, lot_word, after_lot, square_metres,
  reversal_of, dated,
}
use sanga.Accounting.Selectors.{current_balance, TradeOffer, is_party, trade_entry_for_offer}

-- What a call draws from outside: the new row's UUID, the clock at the stamp of a reversed entry
-- and at the insertion, today's date, and the text of a date.
pub record Env : Type 0 where
  pub uuid : ℕ
  pub stamp : ℕ
  pub now : ℕ
  pub today : ℕ
  pub date_text : ℕ → Text

-- `_require_manage`, with the membership that passed.
unfoldable pub require_manage : Option Membership → Result LedgerError Membership
unfolding lacks_capability
require_manage m = do
  raise_if (lacks_capability m ledger_manage) not_allowed
  or_raise m not_allowed

-- `DIRECTION`; `none` is a text that is no entry type.
abbrev pub direction : Option EntryType → Option ℤ
direction (some sale) = some (pos 1)
direction (some payment_made) = some (pos 1)
direction (some adjust_debit) = some (pos 1)
direction (some purchase) = some (negsuc 0)
direction (some payment_received) = some (negsuc 0)
direction (some adjust_credit) = some (negsuc 0)
direction (some reversal) = none
direction none = none

-- `entry_type in ADJUSTMENT_TYPES`
abbrev pub is_adjustment : EntryType → Bool
is_adjustment adjust_debit = true
is_adjustment adjust_credit = true
is_adjustment _ = false

-- `_quantize(amount)` and the test `amount <= 0`, which raises on a NaN.
unfoldable pub positive_amount : DecimalInput → Result LedgerError ℤ
positive_amount value = elim (quantize value) [
  | hundredths a ↦ if is_pos a then ok a else err amount_not_positive
  | not_a_number ↦ err decimal_invalid_operation
  | invalid_operation ↦ err invalid_amount
]

-- The arguments that `post_entry` and `post_trade_entry` share.
pub record Posting : Type 0 where
  pub business : ℕ
  pub contact : Contact
  pub membership : Option Membership
  pub entry_type : Option EntryType
  pub amount : DecimalInput
  pub description : Text
  pub reference : Text
  pub occurred_on : Option ℕ
  pub related_lot : Option InventoryLot
  pub related_offer : Option TradeOffer

abbrev pub lot_is_foreign : ℕ → Option InventoryLot → Bool
lot_is_foreign business none = false
lot_is_foreign business (some lot) = not (lot.business == business)

abbrev pub offer_is_foreign : ℕ → Option TradeOffer → Bool
offer_is_foreign business none = false
offer_is_foreign business (some t) = not (is_party business t)

abbrev pub lot_id : Option InventoryLot → Option ℕ
lot_id none = none
lot_id (some lot) = some lot.id

abbrev pub offer_id : Option TradeOffer → Option ℕ
offer_id none = none
offer_id (some t) = some t.offer.id

abbrev pub or_today : Option ℕ → ℕ → ℕ
or_today none today = today
or_today (some d) today = d

-- What the guards of `post_entry` hand to its second half.
pub record Accepted : Type 0 where
  pub user : ℕ
  pub kind : EntryType
  pub sign : ℤ
  pub amount : ℤ
  pub description : Text

-- The guards of `post_entry`, in their order.
unfoldable pub check_posting : Posting → Result LedgerError Accepted
unfolding require_manage
check_posting p = do
  m ← require_manage p.membership
  raise_if (not (m.business == p.business)) invalid_access
  raise_if (not (p.contact.business == p.business)) foreign_contact
  sign ← or_raise (direction p.entry_type) invalid_entry_type
  kind ← or_raise p.entry_type invalid_entry_type
  amount ← positive_amount p.amount
  let description = strip p.description
  raise_if (is_adjustment kind && is_empty description) reason_required
  raise_if (lot_is_foreign p.business p.related_lot) foreign_lot
  raise_if (offer_is_foreign p.business p.related_offer) foreign_offer
  ok (record {
    user = m.user;
    kind = kind;
    sign = sign;
    amount = amount;
    description = description;
  })

abbrev pub rial : Text
rial = codes "IRR"

-- The row that `post_entry` builds, for the balance before it.
abbrev pub posted_entry : Env → Posting → Accepted → ℤ → LedgerEntry
posted_entry env p a previous = record {
  id = env.uuid;
  business = p.business;
  contact = p.contact.id;
  entry_type = a.kind;
  amount = a.amount;
  balance_delta = a.amount *ℤ a.sign;
  balance_after = previous +ℤ a.amount *ℤ a.sign;
  currency = rial;
  description = a.description;
  reference = strip p.reference;
  occurred_on = or_today p.occurred_on env.today;
  related_lot = lot_id p.related_lot;
  related_offer = offer_id p.related_offer;
  reverses = none;
  reversed_at = none;
  created_by = a.user;
  created_at = env.now;
}

-- `post_entry`
unfoldable pub post_entry : Env → Posting → Books → Result LedgerError (LedgerEntry × Books)
post_entry env p books = do
  a ← check_posting p
  locked ← or_raise (get_contact p.contact.id p.business books.contacts) does_not_exist
  let previous = current_balance p.business p.contact.id books.entries
  create_entry (posted_entry env p a previous) books

-- `_default_trade_description`, with `_format_quantity` for a stored quantity.
unfoldable pub default_trade_description : EntryType → Option TradeOffer → Text
unfolding show_thousandths
default_trade_description kind none = []
default_trade_description kind (some t) =
    elim kind [ sale ↦ sale_label | _ ↦ purchase_label ]
    ++ (based_on_offer
        ++ (t.request.title
            ++ (after_title
                ++ (elim t.lot_code [ none ↦ [] | some code ↦ lot_word ++ (code ++ after_lot) ]
                    ++ (show_thousandths (pos_part t.offer.offered_qty_sqm) ++ square_metres)))))

-- The guards of `post_trade_entry` before the lock.
unfoldable pub check_trade : Posting → Result LedgerError EntryType
unfolding require_manage
check_trade p = do
  m ← require_manage p.membership
  raise_if (not (m.business == p.business)) invalid_access
  kind ← or_raise p.entry_type invalid_trade_type
  raise_if (not (is_trade kind)) invalid_trade_type
  raise_if (not (p.contact.business == p.business)) foreign_contact
  raise_if (lot_is_foreign p.business p.related_lot) foreign_lot
  raise_if (offer_is_foreign p.business p.related_offer) foreign_offer
  raise_if (elim p.related_offer [ none ↦ false | some t ↦ not (is_accepted t.offer.status) ])
      offer_not_accepted
  ok kind

-- The query for an entry that is there already, made only for a trade with an offer.
abbrev pub existing_trade : Posting → Books → Option LedgerEntry
existing_trade p books = elim p.related_offer [
  | none ↦ none
  | some t ↦ trade_entry_for_offer p.business t.offer.id books.entries
]

-- `except IntegrityError`, on what the inner block returned.
abbrev pub catch_integrity : {A : Type 0} → Result LedgerError A → Result LedgerError A
catch_integrity (ok a) = ok a
catch_integrity (err integrity_error) = err (duplicate none)
catch_integrity (err e) = err e

abbrev pub with_trade_description : EntryType → Posting → Posting
with_trade_description kind p = record p {
  description = or_text (strip p.description) (default_trade_description kind p.related_offer);
}

-- `post_trade_entry`
unfoldable pub post_trade_entry : Env → Posting → Books → Result LedgerError (LedgerEntry × Books)
post_trade_entry env p books = do
  kind ← check_trade p
  locked ← or_raise (get_contact p.contact.id p.business books.contacts) does_not_exist
  elim (existing_trade p books) [ none ↦ ok tt | some e ↦ err (duplicate (some e)) ]
  catch_integrity (post_entry env (with_trade_description kind p) books)

-- `LedgerEntry.objects.filter(pk=entry.pk, reversed_at__isnull=True).update(reversed_at=...)`
abbrev pub stamp_reversed : ℕ → ℕ → List LedgerEntry → List LedgerEntry
stamp_reversed pk time =
    update_where (λ (e : LedgerEntry). e.id == pk && is_none e.reversed_at)
      (λ (e : LedgerEntry). record e { reversed_at = some time })

abbrev pub reversal_entry : Env → LedgerEntry → ℕ → ℤ → LedgerEntry
reversal_entry env e user previous = record {
  id = env.uuid;
  business = e.business;
  contact = e.contact;
  entry_type = reversal;
  amount = e.amount;
  balance_delta = neg e.balance_delta;
  balance_after = previous +ℤ neg e.balance_delta;
  currency = e.currency;
  description =
      reversal_of ++ (entry_type_label e.entry_type ++ (dated ++ env.date_text e.occurred_on));
  reference = e.reference;
  occurred_on = env.today;
  related_lot = none;
  related_offer = none;
  reverses = some e.id;
  reversed_at = none;
  created_by = user;
  created_at = env.now;
}

-- `reverse_entry`
unfoldable pub reverse_entry :
    Env → LedgerEntry → Option Membership → Books → Result LedgerError (LedgerEntry × Books)
unfolding require_manage
reverse_entry env e membership books = do
  m ← require_manage membership
  raise_if (not (m.business == e.business)) invalid_access
  raise_if (is_reversal e.entry_type) reversal_of_reversal
  locked ← or_raise (get_contact e.contact e.business books.contacts) does_not_exist
  raise_if (exists (λ (f : LedgerEntry). refers_to f.reverses e.id) books.entries) already_reversed
  let previous = current_balance e.business e.contact books.entries
  let stamped = record books { entries = stamp_reversed e.id env.stamp books.entries }
  create_entry (reversal_entry env e m.user previous) stamped
