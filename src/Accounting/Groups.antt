-- ===== src/Accounting/Groups.antt =====
-- apps/accounting/reports.py: the grouping of `business_aging` by contact.
use sanga.Common.{
  ℕ, ◌≡◌, refl, sym, ◌∙◌, ap, inl, inr, Bool, false, none, List, [], ◌∷◌, ◌++◌, ◌||◌, ◌==◌, arith,
  if◌then◌else◌, All, Bool-cases, exists, where_,
}
use sanga.Common.Int.{ℤ, pos, ◌+ℤ◌, sum_ℤ, int_laws, +ℤ_zero, +ℤ_assoc, +ℤ_comm}
use sanga.Accounting.{LedgerEntry}
use sanga.Accounting.Reports.{
  is_live, for_contact, insert_by_date, order_by_date, before_or_with, live_entries, Groups,
  add_to_group, group_entries,
}
use sanga.Accounting.Valid.{live_sum, live_sum-cons}
use sanga.Accounting.Fifo.{delta_sum}

abbrev pub share : ℕ → LedgerEntry → ℤ
share c e = if e.contact == c then e.balance_delta else pos 0

-- The deltas of one contact in a list of entries.
abbrev pub contact_sum : ℕ → List LedgerEntry → ℤ
contact_sum c es = sum_ℤ (share c) es

-- The deltas of the group of one contact.
abbrev pub group_sum : ℕ → Groups → ℤ
group_sum c [] = pos 0
group_sum c ((k, es) ∷ gs) = if k == c then delta_sum es else group_sum c gs

exchange : (a b c : ℤ) → a +ℤ (b +ℤ c) ≡ b +ℤ (a +ℤ c)
exchange a b c = omega int_laws

contact_sum-insert :
    (c : ℕ) (e : LedgerEntry) (es : List LedgerEntry)
    → contact_sum c (insert_by_date e es) ≡ share c e +ℤ contact_sum c es
contact_sum-insert c e [] = refl
contact_sum-insert c e (f ∷ fs) = elim (Bool-cases (before_or_with e f)) [
  | inl front ↦ rw front
  | inr behind ↦
      rw behind
        (rw (contact_sum-insert c e fs) (exchange (share c f) (share c e) (contact_sum c fs)))
]

contact_sum-order :
    (c : ℕ) (es : List LedgerEntry) → contact_sum c (order_by_date es) ≡ contact_sum c es
contact_sum-order c [] = refl
contact_sum-order c (e ∷ es) =
    contact_sum-insert c e (order_by_date es) ∙ ap (λ x. share c e +ℤ x) (contact_sum-order c es)

zero_add : (a : ℤ) → pos 0 +ℤ a ≡ a
zero_add a = omega int_laws

contact_sum-live :
    (b c : ℕ) (es : List LedgerEntry)
    → contact_sum c (where_ (for_contact none) (where_ (is_live b) es)) ≡ live_sum b c es
contact_sum-live b c [] = unfold live_sum in refl
contact_sum-live b c (e ∷ es) =
    ground (arith, contact_sum-live b c es, live_sum-cons b c e es, zero_add (live_sum b c es))

-- The live entries of the report hold, contact by contact, the live sums of the ledger.
pub contact_sum-live_entries :
    (b c : ℕ) (es : List LedgerEntry) → contact_sum c (live_entries b none es) ≡ live_sum b c es
unfolding live_entries
contact_sum-live_entries b c es =
    contact_sum-order c (where_ (for_contact none) (where_ (is_live b) es))
    ∙ contact_sum-live b c es

delta_sum-snoc :
    (es : List LedgerEntry) (e : LedgerEntry)
    → delta_sum (es ++ e ∷ []) ≡ delta_sum es +ℤ e.balance_delta
delta_sum-snoc [] e = +ℤ_comm e.balance_delta (pos 0)
delta_sum-snoc (f ∷ fs) e =
    ap (λ x. f.balance_delta +ℤ x) (delta_sum-snoc fs e)
    ∙ sym (+ℤ_assoc f.balance_delta (delta_sum fs) e.balance_delta)

group_sum-add :
    (c : ℕ) (e : LedgerEntry) (gs : Groups)
    → group_sum c (add_to_group e gs) ≡ group_sum c gs +ℤ share c e
group_sum-add c e [] = ground (arith, +ℤ_comm e.balance_delta (pos 0), +ℤ_zero (pos 0))
group_sum-add c e ((k, es) ∷ gs) = ground (
  arith,
  group_sum-add c e gs,
  delta_sum-snoc es e,
  +ℤ_zero (delta_sum es),
  +ℤ_zero (group_sum c gs),
)

pub group_sum-group_entries :
    (c : ℕ) (es : List LedgerEntry) (gs : Groups)
    → group_sum c (group_entries es gs) ≡ group_sum c gs +ℤ contact_sum c es
unfolding group_entries
group_sum-group_entries c [] gs = sym (+ℤ_zero (group_sum c gs))
group_sum-group_entries c (e ∷ es) gs =
    group_sum-group_entries c es (add_to_group e gs)
    ∙ ap (λ x. x +ℤ contact_sum c es) (group_sum-add c e gs)
    ∙ +ℤ_assoc (group_sum c gs) (share c e) (contact_sum c es)

abbrev pub has_key : ℕ → ℕ × List LedgerEntry → Bool
has_key k g = g.0 == k

-- Each contact has one group.
abbrev pub HasGroups : Groups → Type 0
HasGroups [] = Unit
HasGroups (g ∷ gs) = (exists (has_key g.0) gs ≡ false) × HasGroups gs

exists-add_to_group :
    (k : ℕ) (e : LedgerEntry) (gs : Groups)
    → exists (has_key k) (add_to_group e gs) ≡ (e.contact == k) || exists (has_key k) gs
exists-add_to_group k e [] = refl
exists-add_to_group k e ((j, es) ∷ gs) = ground (arith, exists-add_to_group k e gs)

HasGroups-add : (e : LedgerEntry) (gs : Groups) → HasGroups gs → HasGroups (add_to_group e gs)
HasGroups-add e [] h = (refl, tt)
HasGroups-add e ((j, es) ∷ gs) h = elim (Bool-cases (j == e.contact)) [
  | inl hit ↦ rw hit h
  | inr miss ↦ rw miss (ground (arith, exists-add_to_group j e gs), HasGroups-add e gs h.1)
]

pub HasGroups-group_entries :
    (es : List LedgerEntry) (gs : Groups) → HasGroups gs → HasGroups (group_entries es gs)
unfolding group_entries
HasGroups-group_entries [] gs h = h
HasGroups-group_entries (e ∷ es) gs h =
    HasGroups-group_entries es (add_to_group e gs) (HasGroups-add e gs h)

-- A property of the contacts of the entries is one of the keys of the groups.
module _ (P : ℕ → Type 0) where
  All-add :
      (e : LedgerEntry) (gs : Groups)
      → P e.contact
      → All (λ (g : ℕ × List LedgerEntry). P g.0) gs
      → All (λ (g : ℕ × List LedgerEntry). P g.0) (add_to_group e gs)
  All-add e [] p h = (p, tt)
  All-add e ((j, es) ∷ gs) p h = elim (Bool-cases (j == e.contact)) [
    | inl hit ↦ rw hit h
    | inr miss ↦ rw miss (h.0, All-add e gs p h.1)
  ]

  pub All-group_entries :
      (es : List LedgerEntry) (gs : Groups)
      → All (λ (e : LedgerEntry). P e.contact) es
      → All (λ (g : ℕ × List LedgerEntry). P g.0) gs
      → All (λ (g : ℕ × List LedgerEntry). P g.0) (group_entries es gs)
  unfolding group_entries
  All-group_entries [] gs p h = h
  All-group_entries (e ∷ es) gs p h =
      All-group_entries es (add_to_group e gs) p.1 (All-add e gs p.0 h)
