-- ===== src/Accounting/Trade.antt =====
-- apps/accounting/services.py: `post_trade_entry` as a whole, and a second trade for one offer.
use sanga.Common.{
  ℕ, ◌≡◌, ◌≢◌, sym, ◌∙◌, ap, inl, inr, true, none, some, List, ◌∷◌, arith, if◌then◌else◌,
  Option-cases,
}
use sanga.Common.Int.{◌+ℤ◌}
use sanga.Common.Results.{Result, ok, err, >>=-eq-ok, or_raise-eq-ok}
use sanga.Contacts.{get_contact}
use sanga.Accounting.{
  EntryType, LedgerEntry, LedgerError, Books, duplicate, does_not_exist, is_trade, holds_slot,
}
use sanga.Accounting.Selectors.{TradeOffer, of_account, current_balance, trade_entry_for_offer}
use sanga.Accounting.Services.{
  Env, Posting, check_trade, with_trade_description, existing_trade, catch_integrity, post_entry,
  post_trade_entry, posted_entry,
}
use sanga.Accounting.Balance.{IsPast}
use sanga.Accounting.Valid.{IsValid}
use sanga.Accounting.Posting.{post_entry-IsPosted, post_entry-IsValid}

catch_integrity-eq-ok :
    {A : Type 0} (r : Result LedgerError A) {a : A} → catch_integrity r ≡ ok a → r ≡ ok a
catch_integrity-eq-ok (ok x) h = h
catch_integrity-eq-ok (err e) h = absurd (ground arith)

-- What a successful `post_trade_entry` has checked before it posts.
pub record IsTrade (env : Env) (p : Posting) (books : Books) (e : LedgerEntry) (books' : Books)
    : Type 0 where
  pub kind : EntryType
  pub given : p.entry_type ≡ some kind
  pub trade : is_trade kind ≡ true
  pub absent : existing_trade p books ≡ none
  pub posted : post_entry env (with_trade_description kind p) books ≡ ok (e, books')

check_trade-kind :
    (p : Posting) (kind : EntryType)
    → check_trade p ≡ ok kind
    → (p.entry_type ≡ some kind) × (is_trade kind ≡ true)
unfolding check_trade
check_trade-kind p kind h = (ground arith, ground arith)

pub post_trade_entry-IsTrade :
    (env : Env) (p : Posting) (books : Books) {e : LedgerEntry} {books' : Books}
    → post_trade_entry env p books ≡ ok (e, books')
    → IsTrade env p books e books'
unfolding post_trade_entry
post_trade_entry-IsTrade env p books {e} {books'} h =
    let (kind, h₁, h₂) = >>=-eq-ok (check_trade p) _ h in
    let (locked, h₃, h₄) =
      or_raise-eq-ok (get_contact p.contact.id p.business books.contacts) does_not_exist _ h₂ in
    let (given, trade) = check_trade-kind p kind h₁ in
    elim (Option-cases (existing_trade p books)) [
      | inl absent ↦ record {
        kind = kind;
        given = given;
        trade = trade;
        absent = absent;
        posted =
            catch_integrity-eq-ok (post_entry env (with_trade_description kind p) books)
              (rw absent at h₄);
      }
      | inr (f, found) ↦ absurd (ground arith)
    ]

-- A successful `post_trade_entry` keeps the ledger valid, changes the balance of the entry's account
-- by the entry's delta and no other balance, if the clock has passed the account's entries.
pub post_trade_entry-IsValid :
    (env : Env) (p : Posting) (books : Books) {e : LedgerEntry} {books' : Books}
    → IsValid books.entries
    → IsPast env.now p.business p.contact.id books.entries
    → post_trade_entry env p books ≡ ok (e, books')
    → IsValid books'.entries
      × ((b c : ℕ)
          → current_balance b c books'.entries ≡ (
              if of_account b c e
              then current_balance b c books.entries +ℤ e.balance_delta
              else current_balance b c books.entries))
post_trade_entry-IsValid env p books v past h =
    let t = post_trade_entry-IsTrade env p books h in
    post_entry-IsValid env (with_trade_description t.kind p) books v past t.posted

found_first :
    (b o : ℕ) (e : LedgerEntry) (es : List LedgerEntry)
    → holds_slot b o e ≡ true
    → trade_entry_for_offer b o (e ∷ es) ≡ some e
unfolding trade_entry_for_offer
found_first b o e es h = rw h

posted_slot :
    (env : Env) (p : Posting) (t : TradeOffer) (books : Books) {e : LedgerEntry} {books' : Books}
    → p.related_offer ≡ some t
    → post_trade_entry env p books ≡ ok (e, books')
    → (trade_entry_for_offer p.business t.offer.id books'.entries ≡ some e)
      × (books'.contacts ≡ books.contacts)
posted_slot env p t books {e} {books'} offer h =
    let i = post_trade_entry-IsTrade env p books h in
    let posted = post_entry-IsPosted env (with_trade_description i.kind p) books i.posted in
    let a = posted.accepted in
    let made = posted.created in
    let row =
      posted_entry env (with_trade_description i.kind p) a
        (current_balance p.business p.contact.id books.entries) in
    let kind : is_trade a.kind ≡ true = ground (arith, posted.checked.kind, i.given, i.trade) in
    let holds : holds_slot p.business t.offer.id row ≡ true = ground arith in
    (
      ap (λ (b : Books). trade_entry_for_offer p.business t.offer.id b.entries) made.added
          ∙ found_first p.business t.offer.id row books.entries holds
          ∙ ap some (sym made.same),
      ap (λ (b : Books). b.contacts) made.added,
    )

recorded_again :
    (env env' : Env) (p : Posting) (t : TradeOffer) (books : Books) {e : LedgerEntry}
    {books' : Books}
    → p.related_offer ≡ some t
    → post_trade_entry env p books ≡ ok (e, books')
    → trade_entry_for_offer p.business t.offer.id books'.entries ≡ some e
    → books'.contacts ≡ books.contacts
    → post_trade_entry env' p books' ≡ err (duplicate (some e))
unfolding post_trade_entry
recorded_again env env' p t books offer h slot contacts =
    let (kind, h₁, h₂) = >>=-eq-ok (check_trade p) _ h in
    let (locked, h₃, h₄) =
      or_raise-eq-ok (get_contact p.contact.id p.business books.contacts) does_not_exist _ h₂ in
    rw (h₁, contacts, h₃, offer, slot)

-- Once `post_trade_entry` has recorded a trade for an offer, the same call again raises
-- `LedgerDuplicateError` with the recorded entry, and no call with that offer in that business
-- succeeds on the new tables.
pub post_trade_entry_once :
    (env env' : Env) (p : Posting) (t : TradeOffer) (books : Books) {e : LedgerEntry}
    {books' : Books}
    → p.related_offer ≡ some t
    → post_trade_entry env p books ≡ ok (e, books')
    → (post_trade_entry env' p books' ≡ err (duplicate (some e)))
      × ((q : Posting) (u : TradeOffer)
          → q.business ≡ p.business
          → q.related_offer ≡ some u
          → u.offer.id ≡ t.offer.id
          → (result : LedgerEntry × Books) → post_trade_entry env' q books' ≢ ok result)
post_trade_entry_once env env' p t books {e} {books'} offer h =
    let (slot, contacts) = posted_slot env p t books offer h in
    (
      recorded_again env env' p t books offer h slot contacts,
      λ q u same offer' id result k.
          let i = post_trade_entry-IsTrade env' q books' k in
          let absent : trade_entry_for_offer q.business u.offer.id books'.entries ≡ none =
            rw offer' at i.absent in
          ground (arith, absent, slot),
    )
