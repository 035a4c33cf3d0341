-- ===== src/Accounting/Reversal.antt =====
-- apps/accounting/services.py: `reverse_entry` as a whole, and the tables after it.
use sanga.Common.{
  ℕ, ◌≡◌, refl, sym, ◌∙◌, ap, ◌⊎◌, inl, inr, true, false, Option, some, List, [], ◌∷◌, ◌&&◌, ◌==◌,
  not, arith, if◌then◌else◌, exists, is_none, All, subst,
}
use sanga.Common.Int.{
  ℤ, pos, ◌+ℤ◌, neg, magnitude, pos_part, is_pos, +ℤ_comm, +ℤ_zero, +ℤ_assoc, int_laws,
}
use sanga.Common.Results.{ok, >>=-eq-ok, raise_if-eq-ok, or_raise-eq-ok}
use sanga.Businesses.{Membership}
use sanga.Contacts.{get_contact}
use sanga.Accounting.{
  LedgerEntry, Books, is_reversal, invalid_access, reversal_of_reversal, does_not_exist,
  already_reversed,
}
use sanga.Accounting.Selectors.{of_account, balance_sum, current_balance}
use sanga.Accounting.Services.{Env, require_manage, stamp_reversed, reversal_entry, reverse_entry}
use sanga.Accounting.Balance.{IsPast, balance_sum-cons, current_balance-eq-sum}
use sanga.Accounting.Valid.{
  live_sum, live_sum-cons, has_id, reverses_id, HasKeys, IsSigned, IsStamped, RefersInto, IsValid,
  IsCreated, create_entry-IsCreated,
}
use sanga.Accounting.Add.{IsNew, add-IsSound, no_reference}
use sanga.Accounting.Stamp.{
  balance_sum-stamp, IsPast-stamp, exists-has_id-stamp, exists-reverses_id-stamp, stamp-IsSound,
  stamp_absent,
}

-- The columns of an entry that no service changes, in a row of the table.
pub record SameRow (e r : LedgerEntry) : Type 0 where
  pub id : r.id ≡ e.id
  pub business : r.business ≡ e.business
  pub contact : r.contact ≡ e.contact
  pub entry_type : r.entry_type ≡ e.entry_type
  pub amount : r.amount ≡ e.amount
  pub balance_delta : r.balance_delta ≡ e.balance_delta

-- The entry was read from the table; its `reversed_at` may be stale.
abbrev pub IsStored : LedgerEntry → List LedgerEntry → Type 0
IsStored e [] = ⊥
IsStored e (r ∷ rs) = SameRow e r ⊎ IsStored e rs

pub solve_neg : (l d s : ℤ) → l +ℤ d ≡ s → l ≡ neg d +ℤ s
solve_neg l d s h = subst (λ x. l ≡ neg d +ℤ x) h (omega int_laws)

module _ (e : LedgerEntry) where
  stored_exists : (es : List LedgerEntry) → IsStored e es → exists (has_id e.id) es ≡ true
  stored_exists [] h = absurd h
  stored_exists (r ∷ rs) (inl same) = ground arith
  stored_exists (r ∷ rs) (inr h) = ground (arith, stored_exists rs h)

  stored_signed :
      (es : List LedgerEntry)
      → IsStored e es
      → All IsSigned es
      → (is_pos e.amount ≡ true) × (magnitude e.balance_delta ≡ pos_part e.amount)
  stored_signed [] h s = absurd h
  stored_signed (r ∷ rs) (inl same) s = (ground arith, ground arith)
  stored_signed (r ∷ rs) (inr h) s = stored_signed rs h s.1

  abbrev effect : ℕ → ℕ → ℤ
  effect b c = if of_account b c e then e.balance_delta else pos 0

  live_sum-stamp :
      (t b c : ℕ) (table es : List LedgerEntry)
      → IsStored e es
      → HasKeys es
      → All (IsStamped table) es
      → exists (reverses_id e.id) table ≡ false
      → is_reversal e.entry_type ≡ false
      → live_sum b c (stamp_reversed e.id t es) +ℤ effect b c ≡ live_sum b c es
  live_sum-stamp t b c table [] h k s un kind = absurd h
  live_sum-stamp t b c table (r ∷ rs) (inl same) k s un kind =
      let gone : stamp_reversed e.id t rs ≡ rs = stamp_absent e.id t rs (ground arith) in
      let hit : (r.id == e.id && is_none r.reversed_at) ≡ true = ground arith in
      rw (hit, gone)
        (rw (live_sum-cons b c (record r { reversed_at = some t }) rs, live_sum-cons b c r rs)
          (ground (arith, +ℤ_comm e.balance_delta (live_sum b c rs), +ℤ_zero (live_sum b c rs))))
  live_sum-stamp t b c table (r ∷ rs) (inr h) k s un kind =
      let other : (r.id == e.id) ≡ false = ground (arith, stored_exists rs h) in
      let rest = live_sum-stamp t b c table rs h k.1 s.1 un kind in
      rw other (
        rw (live_sum-cons b c r (stamp_reversed e.id t rs), live_sum-cons b c r rs)
          (ground (
            arith,
            rest,
            +ℤ_assoc r.balance_delta (live_sum b c (stamp_reversed e.id t rs)) (effect b c),
          )))

  stamp_matches :
      (r : LedgerEntry) (t : ℕ) (table es : List LedgerEntry)
      → r.reverses ≡ some e.id
      → All (IsStamped table) es
      → All (IsStamped (r ∷ stamp_reversed e.id t table)) (stamp_reversed e.id t es)
  stamp_matches r t table [] target h = tt
  stamp_matches r t table (x ∷ xs) target h = (
    ground (arith, exists-reverses_id-stamp e.id t x.id table),
    stamp_matches r t table xs target h.1,
  )

-- What a successful `reverse_entry` has done.
pub record IsReversed (env : Env) (e : LedgerEntry) (books : Books) (r : LedgerEntry)
    (books' : Books) : Type 0 where
  pub user : ℕ
  pub original : is_reversal e.entry_type ≡ false
  pub unreversed : exists (reverses_id e.id) books.entries ≡ false
  pub created :
      IsCreated
        (reversal_entry env e user (current_balance e.business e.contact books.entries))
        (record books { entries = stamp_reversed e.id env.stamp books.entries })
        r
        books'

pub reverse_entry-IsReversed :
    (env : Env) (e : LedgerEntry) (m : Option Membership) (books : Books) {r : LedgerEntry}
    {books' : Books}
    → reverse_entry env e m books ≡ ok (r, books')
    → IsReversed env e books r books'
unfolding reverse_entry
reverse_entry-IsReversed env e m books {r} {books'} h =
    let (who, h₁, h₂) = >>=-eq-ok (require_manage m) _ h in
    let (h₃, h₄) = raise_if-eq-ok (not (who.business == e.business)) invalid_access _ h₂ in
    let (original, h₅) = raise_if-eq-ok (is_reversal e.entry_type) reversal_of_reversal _ h₄ in
    let (locked, h₆, h₇) =
      or_raise-eq-ok (get_contact e.contact e.business books.contacts) does_not_exist _ h₅ in
    let (unreversed, h₈) =
      raise_if-eq-ok (exists (reverses_id e.id) books.entries) already_reversed _ h₇ in
    record {
      user = who.user;
      original = original;
      unreversed = unreversed;
      created = create_entry-IsCreated _ _ r books' h₈;
    }

module _ (env : Env) (e : LedgerEntry) (books : Books) {r : LedgerEntry} {books' : Books}
    (done : IsReversed env e books r books') (stored : IsStored e books.entries)
    (past : IsPast env.now e.business e.contact books.entries) (v : IsValid books.entries) where
  open done use {user, original, unreversed, created}

  abbrev row : LedgerEntry
  row = reversal_entry env e user (current_balance e.business e.contact books.entries)

  abbrev table : List LedgerEntry
  table = stamp_reversed e.id env.stamp books.entries

  same_current : (b c : ℕ) → current_balance b c table ≡ current_balance b c books.entries
  same_current b c =
      current_balance-eq-sum b c table
        (stamp-IsSound e.id env.stamp books.entries v.sound).consistent
      ∙ balance_sum-stamp e.id env.stamp b c books.entries
      ∙ sym (current_balance-eq-sum b c books.entries v.sound.consistent)

  magnitude-neg : (d : ℤ) → magnitude (neg d) ≡ magnitude d
  unfolding neg
  magnitude-neg d = ground arith

  target_stored : RefersInto table row
  target_stored i ref =
      exists-has_id-stamp e.id env.stamp i books.entries
      ∙ subst (λ j. exists (has_id j) books.entries ≡ true) (ground arith)
          (stored_exists e books.entries stored)

  row-IsNew : IsNew row table
  row-IsNew =
      let signed = stored_signed e books.entries stored v.sound.signed in
      record {
        continues = record {
          after = ap (λ x. x +ℤ neg e.balance_delta) (sym (same_current e.business e.contact));
          past = IsPast-stamp e.id env.stamp env.now e.business e.contact books.entries past;
        };
        fresh = created.fresh;
        free = created.free;
        signed = (created.positive, magnitude-neg e.balance_delta ∙ signed.1, created.fits, refl);
        target = target_stored;
      }

  row-IsStamped : IsStamped (row ∷ table) row
  row-IsStamped = ground (
    arith,
    no_reference row.id table table created.fresh
        (stamp-IsSound e.id env.stamp books.entries v.sound).refers,
    exists-has_id-stamp e.id env.stamp e.id books.entries,
    stored_exists e books.entries stored,
    created.fresh,
  )

  row-live_sums : (b c : ℕ) → live_sum b c (row ∷ table) ≡ balance_sum b c (row ∷ table)
  row-live_sums b c =
      let moved =
        live_sum-stamp e env.stamp b c books.entries books.entries stored v.sound.keys v.stamped
          unreversed original in
      rw (live_sum-cons b c row table, balance_sum-cons b c row table)
        (rw (balance_sum-stamp e.id env.stamp b c books.entries) (
          ground (
            arith,
            v.live_sums b c,
            +ℤ_zero (live_sum b c table),
            solve_neg (live_sum b c table) e.balance_delta (live_sum b c books.entries),
            moved,
          )))

  table-IsValid : IsValid (row ∷ table)
  table-IsValid = record {
    sound = add-IsSound row table row-IsNew (stamp-IsSound e.id env.stamp books.entries v.sound);
    stamped =
        (row-IsStamped, stamp_matches e row env.stamp books.entries books.entries refl v.stamped);
    live_sums = row-live_sums;
  }

  pub reversed-IsValid : IsValid books'.entries
  reversed-IsValid = subst (λ (b : Books). IsValid b.entries) (sym created.added) table-IsValid

  pub reversed-balance :
      (b c : ℕ)
      → current_balance b c books'.entries ≡ (
          if of_account b c e
          then current_balance b c books.entries +ℤ neg e.balance_delta
          else current_balance b c books.entries)
  reversed-balance b c =
      current_balance-eq-sum b c books'.entries reversed-IsValid.sound.consistent
      ∙ ap (λ (x : Books). balance_sum b c x.entries) created.added
      ∙ balance_sum-cons b c row table
      ∙ rw
          (
            balance_sum-stamp e.id env.stamp b c books.entries,
            current_balance-eq-sum b c books.entries v.sound.consistent,
          )
          (ground (arith, +ℤ_comm (neg e.balance_delta) (balance_sum b c books.entries)))

-- A successful `reverse_entry` of an entry of a valid ledger keeps the ledger valid, takes the
-- entry's delta back from the balance of its account and changes no other balance, if the clock has
-- passed the account's entries.
pub reverse_entry-IsValid :
    (env : Env) (e : LedgerEntry) (m : Option Membership) (books : Books) {r : LedgerEntry}
    {books' : Books}
    → IsValid books.entries
    → IsStored e books.entries
    → IsPast env.now e.business e.contact books.entries
    → reverse_entry env e m books ≡ ok (r, books')
    → IsValid books'.entries
      × ((b c : ℕ)
          → current_balance b c books'.entries ≡ (
              if of_account b c e
              then current_balance b c books.entries +ℤ neg e.balance_delta
              else current_balance b c books.entries))
reverse_entry-IsValid env e m books v stored past h =
    let done = reverse_entry-IsReversed env e m books h in
    (
      reversed-IsValid env e books done stored past v,
      reversed-balance env e books done stored past v,
    )
