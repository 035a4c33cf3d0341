-- ===== src/Accounting/Posting.antt =====
-- apps/accounting/services.py: `post_entry` as a whole, and the tables after it.
use sanga.Common.{
  ℕ, ◌≡◌, refl, sym, ◌∙◌, ap, ◌⊎◌, inl, inr, true, false, Option, some, ◌∷◌, ◌&&◌, arith,
  if◌then◌else◌, subst,
}
use sanga.Common.Int.{
  ℤ, pos, negsuc, ◌+ℤ◌, ◌*ℤ◌, neg, magnitude, pos_part, is_pos, *ℤ_one, *ℤ_minus_one, +ℤ_comm,
}
use sanga.Common.Decimal.{DecimalInput, quantize, hundredths}
use sanga.Common.Text.{is_empty}
use sanga.Common.Results.{ok, >>=-eq-ok, or_raise-eq-ok}
use sanga.Contacts.{get_contact}
use sanga.Accounting.{EntryType, LedgerEntry, Books, is_reversal, does_not_exist}
use sanga.Accounting.Selectors.{of_account, balance_sum, current_balance}
use sanga.Accounting.Services.{
  Env, Posting, Accepted, check_posting, direction, positive_amount, is_adjustment, lot_is_foreign,
  offer_is_foreign, posted_entry, post_entry,
}
use sanga.Accounting.Balance.{IsPast, balance_sum-cons, current_balance-eq-sum}
use sanga.Accounting.Valid.{IsValid, IsCreated, create_entry-IsCreated}
use sanga.Accounting.Add.{IsNew, add-IsValid}

-- What the guards of `post_entry` have checked when they pass.
pub record IsAccepted (p : Posting) (a : Accepted) : Type 0 where
  pub own_contact : p.contact.business ≡ p.business
  pub kind : p.entry_type ≡ some a.kind
  pub sign : direction (some a.kind) ≡ some a.sign
  pub amount : positive_amount p.amount ≡ ok a.amount
  pub reason : is_adjustment a.kind && is_empty a.description ≡ false
  pub own_lot : lot_is_foreign p.business p.related_lot ≡ false
  pub own_offer : offer_is_foreign p.business p.related_offer ≡ false

pub check_posting-IsAccepted :
    (p : Posting) (a : Accepted) → check_posting p ≡ ok a → IsAccepted p a
unfolding check_posting
check_posting-IsAccepted p a h = record {
  own_contact = ground arith;
  kind = ground arith;
  sign = ground arith;
  amount = ground arith;
  reason = ground arith;
  own_lot = ground arith;
  own_offer = ground arith;
}

-- What a successful `post_entry` has done.
pub record IsPosted (env : Env) (p : Posting) (books : Books) (e : LedgerEntry) (books' : Books)
    : Type 0 where
  pub accepted : Accepted
  pub checked : IsAccepted p accepted
  pub created :
      IsCreated
        (posted_entry env p accepted (current_balance p.business p.contact.id books.entries))
        books
        e
        books'

pub post_entry-IsPosted :
    (env : Env) (p : Posting) (books : Books) {e : LedgerEntry} {books' : Books}
    → post_entry env p books ≡ ok (e, books')
    → IsPosted env p books e books'
unfolding post_entry
post_entry-IsPosted env p books {e} {books'} h =
    let (a, h₁, h₂) = >>=-eq-ok (check_posting p) _ h in
    let (locked, h₃, h₄) =
      or_raise-eq-ok (get_contact p.contact.id p.business books.contacts) does_not_exist _ h₂ in
    record {
      accepted = a;
      checked = check_posting-IsAccepted p a h₁;
      created = create_entry-IsCreated _ books e books' h₄;
    }

-- The effect of each entry type on the balance.
signed_magnitude :
    (kind : EntryType) (s a : ℤ)
    → direction (some kind) ≡ some s
    → is_pos a ≡ true
    → magnitude (a *ℤ s) ≡ pos_part a
unfolding ◌*ℤ◌
signed_magnitude kind s a d h = ground arith

not_reversal :
    (kind : EntryType) (s : ℤ) → direction (some kind) ≡ some s → is_reversal kind ≡ false
not_reversal kind s d = ground arith

module _ (env : Env) (p : Posting) (books : Books) {e : LedgerEntry} {books' : Books}
    (posted : IsPosted env p books e books') where
  open posted use {accepted, checked, created}

  abbrev row : LedgerEntry
  row = posted_entry env p accepted (current_balance p.business p.contact.id books.entries)

  posted-IsNew : IsPast env.now p.business p.contact.id books.entries → IsNew row books.entries
  posted-IsNew past = record {
    continues = record { after = refl; past = past };
    fresh = created.fresh;
    free = created.free;
    signed = (
      created.positive,
      signed_magnitude accepted.kind accepted.sign accepted.amount checked.sign created.positive,
      created.fits,
      not_reversal accepted.kind accepted.sign checked.sign,
    );
    target = λ i r. absurd (cc);
  }

  pub posted-IsValid :
      IsPast env.now p.business p.contact.id books.entries
      → IsValid books.entries
      → IsValid books'.entries
  posted-IsValid past v =
      subst (λ (b : Books). IsValid b.entries) (sym created.added)
        (add-IsValid row books.entries (posted-IsNew past) refl refl
          (not_reversal accepted.kind accepted.sign checked.sign) v)

  -- Only the account of the entry moves, and by its delta.
  pub posted-balance :
      IsPast env.now p.business p.contact.id books.entries
      → IsValid books.entries
      → (b c : ℕ)
      → current_balance b c books'.entries ≡ (
          if of_account b c e
          then current_balance b c books.entries +ℤ e.balance_delta
          else current_balance b c books.entries)
  posted-balance past v b c =
      current_balance-eq-sum b c books'.entries (posted-IsValid past v).sound.consistent
      ∙ ap (λ (x : Books). balance_sum b c x.entries) created.added
      ∙ balance_sum-cons b c row books.entries
      ∙ rw (created.same, current_balance-eq-sum b c books.entries v.sound.consistent)
          (ground (arith, +ℤ_comm row.balance_delta (balance_sum b c books.entries)))

direction_cases :
    (kind : EntryType) (s : ℤ) → direction (some kind) ≡ some s → (s ≡ pos 1) ⊎ (s ≡ negsuc 0)
direction_cases kind s d = ground arith

delta_cases :
    (o : Option EntryType) (kind : EntryType) (s a : ℤ)
    → o ≡ some kind
    → direction (some kind) ≡ some s
    → (direction o ≡ some (pos 1)) × (a *ℤ s ≡ a)
      ⊎ (direction o ≡ some (negsuc 0)) × (a *ℤ s ≡ neg a)
delta_cases o kind s a k d = elim (direction_cases kind s d) [
  | inl up ↦ inl (rw k (d ∙ ap some up), rw up (*ℤ_one a))
  | inr down ↦ inr (rw k (d ∙ ap some down), rw down (*ℤ_minus_one a))
]

positive_amount-eq-ok :
    (value : DecimalInput) (a : ℤ)
    → positive_amount value ≡ ok a
    → (quantize value ≡ hundredths a) × (is_pos a ≡ true)
unfolding positive_amount
positive_amount-eq-ok value a h = (ground arith, ground arith)

-- A successful `post_entry` keeps the ledger valid, and changes the balance of the entry's account
-- by the entry's delta and no other balance, if the clock has passed the account's entries.
pub post_entry-IsValid :
    (env : Env) (p : Posting) (books : Books) {e : LedgerEntry} {books' : Books}
    → IsValid books.entries
    → IsPast env.now p.business p.contact.id books.entries
    → post_entry env p books ≡ ok (e, books')
    → IsValid books'.entries
      × ((b c : ℕ)
          → current_balance b c books'.entries ≡ (
              if of_account b c e
              then current_balance b c books.entries +ℤ e.balance_delta
              else current_balance b c books.entries))
post_entry-IsValid env p books v past h =
    let posted = post_entry-IsPosted env p books h in
    (posted-IsValid env p books posted past v, posted-balance env p books posted past v)

-- The entry that `post_entry` returns is the new first row, in the account of the posting, for the
-- quantized amount, which is positive, with the sign of the entry's type.
pub post_entry-amount :
    (env : Env) (p : Posting) (books : Books) {e : LedgerEntry} {books' : Books}
    → post_entry env p books ≡ ok (e, books')
    → (books'.entries ≡ e ∷ books.entries)
      × (of_account p.business p.contact.id e ≡ true)
      × (p.contact.business ≡ p.business)
      × (quantize p.amount ≡ hundredths e.amount)
      × (is_pos e.amount ≡ true)
      × (p.entry_type ≡ some e.entry_type)
      × ((direction p.entry_type ≡ some (pos 1)) × (e.balance_delta ≡ e.amount)
          ⊎ (direction p.entry_type ≡ some (negsuc 0)) × (e.balance_delta ≡ neg e.amount))
post_entry-amount env p books {e} {books'} h =
    let posted = post_entry-IsPosted env p books h in
    let a = posted.accepted in
    let checked = posted.checked in
    let made = posted.created in
    let value = positive_amount-eq-ok p.amount a.amount checked.amount in
    let r = posted_entry env p a (current_balance p.business p.contact.id books.entries) in
    subst
      (λ (x : LedgerEntry).
        (books'.entries ≡ x ∷ books.entries)
        × (of_account p.business p.contact.id x ≡ true)
        × (p.contact.business ≡ p.business)
        × (quantize p.amount ≡ hundredths x.amount)
        × (is_pos x.amount ≡ true)
        × (p.entry_type ≡ some x.entry_type)
        × ((direction p.entry_type ≡ some (pos 1)) × (x.balance_delta ≡ x.amount)
            ⊎ (direction p.entry_type ≡ some (negsuc 0)) × (x.balance_delta ≡ neg x.amount)))
      (sym made.same)
      (
        ap (λ (b : Books). b.entries) made.added,
        ground arith,
        checked.own_contact,
        value.0,
        value.1,
        checked.kind,
        delta_cases p.entry_type a.kind a.sign a.amount checked.kind checked.sign,
      )
