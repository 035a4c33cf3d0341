-- ===== src/Accounting/Release.antt =====
-- apps/accounting/services.py: what is left to do after `reverse_entry`.
use sanga.Common.{
  ℕ, ◌≡◌, ◌≢◌, refl, sym, ◌∙◌, ap, inl, inr, true, false, Option, none, some, List, [], ◌∷◌, ◌&&◌,
  ◌==◌, not, arith, exists, find_first, is_none, Bool-cases, subst, exists-update_where,
}
use sanga.Common.Results.{ok, err, >>=-eq-ok, raise_if-eq-ok, or_raise-eq-ok}
use sanga.Businesses.{Membership}
use sanga.Contacts.{get_contact}
use sanga.Accounting.{
  LedgerEntry, Books, already_reversed, does_not_exist, invalid_access, reversal_of_reversal,
  is_reversal, holds_slot, clashes,
}
use sanga.Accounting.Selectors.{current_balance, trade_entry_for_offer}
use sanga.Accounting.Services.{Env, require_manage, stamp_reversed, reversal_entry, reverse_entry}
use sanga.Accounting.Valid.{HasSlots, IsValid, reverses_id}
use sanga.Accounting.Reversal.{IsReversed, reverse_entry-IsReversed}

reversed_exists :
    (env : Env) (e : LedgerEntry) (books : Books) {r : LedgerEntry} {books' : Books}
    → IsReversed env e books r books'
    → exists (reverses_id e.id) books'.entries ≡ true
reversed_exists env e books done = ground (arith, done.created.added)

-- With a reversal in the table every further call is refused.
reversed_again :
    (env : Env) (f : LedgerEntry) (m : Option Membership) (books : Books)
    → exists (reverses_id f.id) books.entries ≡ true
    → (result : LedgerEntry × Books) → reverse_entry env f m books ≢ ok result
reversed_again env f m books there result h =
    ground (arith, (reverse_entry-IsReversed env f m books h).unreversed)

refused_again :
    (env env' : Env) (e : LedgerEntry) (m : Option Membership) (books : Books) {r : LedgerEntry}
    {books' : Books}
    → reverse_entry env e m books ≡ ok (r, books')
    → books'.contacts ≡ books.contacts
    → exists (reverses_id e.id) books'.entries ≡ true
    → reverse_entry env' e m books' ≡ err already_reversed
unfolding reverse_entry
refused_again env env' e m books {r} {books'} h contacts there =
    let (who, h₁, h₂) = >>=-eq-ok (require_manage m) _ h in
    let (own, h₄) = raise_if-eq-ok (not (who.business == e.business)) invalid_access _ h₂ in
    let (original, h₅) = raise_if-eq-ok (is_reversal e.entry_type) reversal_of_reversal _ h₄ in
    let (locked, h₆, h₇) =
      or_raise-eq-ok (get_contact e.contact e.business books.contacts) does_not_exist _ h₅ in
    rw (h₁, own, original, contacts, h₆, there)

-- After a successful `reverse_entry` the same call again raises that the entry is reversed already,
-- and no call on an entry with its key succeeds on the new tables.
pub reverse_entry_once :
    (env env' : Env) (e : LedgerEntry) (m : Option Membership) (books : Books) {r : LedgerEntry}
    {books' : Books}
    → reverse_entry env e m books ≡ ok (r, books')
    → (reverse_entry env' e m books' ≡ err already_reversed)
      × ((f : LedgerEntry) (m' : Option Membership)
          → f.id ≡ e.id
          → (result : LedgerEntry × Books) → reverse_entry env' f m' books' ≢ ok result)
reverse_entry_once env env' e m books {r} {books'} h =
    let done = reverse_entry-IsReversed env e m books h in
    let there = reversed_exists env e books done in
    (
      refused_again env env' e m books h (ap (λ (b : Books). b.contacts) done.created.added) there,
      λ f m' same result.
          reversed_again env' f m' books'
            (subst (λ i. exists (reverses_id i) books'.entries ≡ true) (sym same) there) result,
    )

module _ (b o : ℕ) where
  not_found :
      (es : List LedgerEntry)
      → exists (holds_slot b o) es ≡ false
      → find_first (holds_slot b o) es ≡ none
  not_found [] h = refl
  not_found (e ∷ es) h = ground (arith, not_found es)

  holder_clashes : (e f : LedgerEntry) → holds_slot b o e ≡ true → clashes e f ≡ holds_slot b o f
  holder_clashes e f h = ground arith

  -- Beside a holder of the slot there is no second one.
  only_holder :
      (e : LedgerEntry) (es : List LedgerEntry)
      → holds_slot b o e ≡ true
      → exists (clashes e) es ≡ false
      → exists (holds_slot b o) es ≡ false
  only_holder e [] h c = refl
  only_holder e (f ∷ fs) h c = ground (arith, holder_clashes e f h, only_holder e fs h)

  stamped_misses :
      (x : LedgerEntry) (t : ℕ) → holds_slot b o (record x { reversed_at = some t }) ≡ false
  stamped_misses x t = ground arith

  stamped_free :
      (i t : ℕ) (es : List LedgerEntry)
      → exists (holds_slot b o) es ≡ false
      → exists (holds_slot b o) (stamp_reversed i t es) ≡ false
  stamped_free i t es h =
      exists-update_where (holds_slot b o) (λ (x : LedgerEntry). x.id == i && is_none x.reversed_at)
        (λ (x : LedgerEntry). record x { reversed_at = some t }) (λ x. stamped_misses x t) es h

  released_head :
      (t : ℕ) (x : LedgerEntry) (xs : List LedgerEntry)
      → HasSlots (x ∷ xs)
      → holds_slot b o x ≡ true
      → exists (holds_slot b o) (stamp_reversed x.id t (x ∷ xs)) ≡ false
  released_head t x xs s holder =
      let hit : (x.id == x.id && is_none x.reversed_at) ≡ true = ground arith in
      rw (hit, stamped_misses x t) (stamped_free x.id t xs (only_holder x xs holder s.0))

  released :
      (t : ℕ) (e : LedgerEntry) (es : List LedgerEntry)
      → HasSlots es
      → find_first (holds_slot b o) es ≡ some e
      → exists (holds_slot b o) (stamp_reversed e.id t es) ≡ false
  released t e [] s h = absurd (ground arith)
  released t e (x ∷ xs) s h = elim (Bool-cases (holds_slot b o x)) [
    | inl holder ↦
        let same : x ≡ e = ground arith in
        subst
          (λ (y : LedgerEntry). exists (holds_slot b o) (stamp_reversed y.id t (x ∷ xs)) ≡ false)
          same (released_head t x xs s holder)
    | inr other ↦ ground (arith, released t e xs s.1)
  ]

-- When the trade that `trade_entry_for_offer` finds in a valid ledger is reversed, it finds none: the
-- offer is free for a corrected entry.
pub reverse_entry_releases :
    (env : Env) (b o : ℕ) (e : LedgerEntry) (m : Option Membership) (books : Books)
    {r : LedgerEntry} {books' : Books}
    → IsValid books.entries
    → trade_entry_for_offer b o books.entries ≡ some e
    → reverse_entry env e m books ≡ ok (r, books')
    → trade_entry_for_offer b o books'.entries ≡ none
unfolding trade_entry_for_offer
reverse_entry_releases env b o e m books {r} {books'} v found h =
    let done = reverse_entry-IsReversed env e m books h in
    let row = reversal_entry env e done.user (current_balance e.business e.contact books.entries) in
    let free = released b o env.stamp e books.entries v.sound.slots found in
    ap (λ (x : Books). find_first (holds_slot b o) x.entries) done.created.added
    ∙ not_found b o (row ∷ stamp_reversed e.id env.stamp books.entries) (ground (arith, free))
