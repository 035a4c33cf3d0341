-- ===== src/Accounting/Reconcile.antt =====
-- The aging report of a business against its financial summary.
use sanga.Common.{
  ℕ, ◌+◌, ◌*◌, ◌≡◌, refl, sym, ◌∙◌, ap, inl, inr, Bool, true, false, none, List, [], ◌∷◌, ◌&&◌,
  ◌==◌, arith, if◌then◌else◌, All, Bool-cases, exists, where_, count_where, subst,
}
use sanga.Common.Int.{
  ℤ, pos, ◌+ℤ◌, neg, pos_part, neg_part, is_pos, is_neg, is_zero, sum_ℤ, int_laws, +ℤ_zero,
}
use sanga.Contacts.{Contact}
use sanga.Accounting.{LedgerEntry, Books}
use sanga.Accounting.Selectors.{
  balance_sum, BalanceRow, balance_rows, contact_balances, in_state, positive, negative, summarize,
  business_financial_summary,
}
use sanga.Accounting.Reports.{
  Aging, total, is_live, for_contact, insert_by_date, order_by_date, before_or_with, live_entries,
  Groups, group_entries, Report, add_aging, age_groups, no_aging, aging_from_entries,
  business_aging,
}
use sanga.Accounting.Valid.{IsValid}
use sanga.Accounting.Fifo.{delta_sum}
use sanga.Accounting.Overdue.{aging_from_entries-totals}
use sanga.Accounting.Groups.{
  contact_sum, group_sum, contact_sum-live_entries, group_sum-group_entries, has_key, HasGroups,
  HasGroups-group_entries, All-group_entries,
}

-- The contact is exactly one row of the business's contacts.
abbrev pub is_contact : ℕ → ℕ → Contact → Bool
is_contact b k c = c.id == k && c.business == b

abbrev pub IsKnown : ℕ → List Contact → ℕ → Type 0
IsKnown b cs k = count_where (is_contact b k) cs ≡ 1

-- Each entry of the business is of one of its contacts, by the foreign key and the primary key.
abbrev pub AreKnown : ℕ → List Contact → List LedgerEntry → Type 0
AreKnown b cs es = All (λ (e : LedgerEntry). (e.business == b) ≡ true → IsKnown b cs e.contact) es

module _ (b : ℕ) (cs : List Contact) where
  IsKnown-insert :
      (e : LedgerEntry) (es : List LedgerEntry)
      → IsKnown b cs e.contact
      → All (λ (x : LedgerEntry). IsKnown b cs x.contact) es
      → All (λ (x : LedgerEntry). IsKnown b cs x.contact) (insert_by_date e es)
  IsKnown-insert e [] k h = (k, tt)
  IsKnown-insert e (f ∷ fs) k h = elim (Bool-cases (before_or_with e f)) [
    | inl front ↦ rw front (k, h)
    | inr behind ↦ rw behind (h.0, IsKnown-insert e fs k h.1)
  ]

  IsKnown-order :
      (es : List LedgerEntry)
      → All (λ (x : LedgerEntry). IsKnown b cs x.contact) es
      → All (λ (x : LedgerEntry). IsKnown b cs x.contact) (order_by_date es)
  IsKnown-order [] h = tt
  IsKnown-order (e ∷ es) h = IsKnown-insert e (order_by_date es) h.0 (IsKnown-order es h.1)

  IsKnown-live :
      (es : List LedgerEntry)
      → AreKnown b cs es
      → All
          (λ (x : LedgerEntry). IsKnown b cs x.contact)
          (where_ (for_contact none) (where_ (is_live b) es))
  IsKnown-live [] h = tt
  IsKnown-live (e ∷ es) h = elim (Bool-cases (is_live b e)) [
    | inl live ↦ rw live (h.0 (ground arith), IsKnown-live es h.1)
    | inr other ↦ rw other (IsKnown-live es h.1)
  ]

-- A part of a balance, its positive or its negative one.
module _ (part : ℤ → ℕ) (part-zero : part (pos 0) ≡ 0) (b : ℕ) where
  abbrev over_groups : Groups → ℕ
  over_groups [] = 0
  over_groups ((k, es) ∷ gs) = part (delta_sum es) + over_groups gs

  abbrev over_contacts : (ℕ → ℤ) → List Contact → ℕ
  over_contacts f [] = 0
  over_contacts f (c ∷ cs) = (if c.business == b then part (f c.id) else 0) + over_contacts f cs

  over_contacts-ext :
      (f g : ℕ → ℤ)
      → ((i : ℕ) → f i ≡ g i)
      → (cs : List Contact) → over_contacts f cs ≡ over_contacts g cs
  over_contacts-ext f g h [] = refl
  over_contacts-ext f g h (c ∷ cs) =
      rw (h c.id)
        (ap (λ n. (if c.business == b then part (g c.id) else 0) + n) (over_contacts-ext f g h cs))

  over_contacts-zero : (cs : List Contact) → over_contacts (λ i. pos 0) cs ≡ 0
  over_contacts-zero [] = refl
  over_contacts-zero (c ∷ cs) = ground (arith, part-zero, over_contacts-zero cs)

  group_absent : (k : ℕ) (gs : Groups) → exists (has_key k) gs ≡ false → group_sum k gs ≡ pos 0
  group_absent k [] h = refl
  group_absent k ((j, es) ∷ gs) h = ground (arith, group_absent k gs)

  head_cons :
      (k : ℕ) (es : List LedgerEntry) (gs : Groups) (c : Contact)
      → exists (has_key k) gs ≡ false
      → (if c.business == b then part (group_sum c.id ((k, es) ∷ gs)) else 0)
        ≡ part (delta_sum es) * (if is_contact b k c then 1 else 0)
          + (if c.business == b then part (group_sum c.id gs) else 0)
  head_cons k es gs c h = elim (Bool-cases (k == c.id)) [
    | inl hit ↦
        let same : k ≡ c.id = ground arith in
        let none_ : group_sum c.id gs ≡ pos 0 =
          subst (λ i. group_sum i gs ≡ pos 0) same (group_absent k gs h) in
        rw none_ (ground (arith, part-zero))
    | inr miss ↦ ground arith
  ]

  over_contacts-cons :
      (k : ℕ) (es : List LedgerEntry) (gs : Groups) (cs : List Contact)
      → exists (has_key k) gs ≡ false
      → over_contacts (λ i. group_sum i ((k, es) ∷ gs)) cs
        ≡ part (delta_sum es) * count_where (is_contact b k) cs
          + over_contacts (λ i. group_sum i gs) cs
  over_contacts-cons k es gs [] h = omega arith
  over_contacts-cons k es gs (c ∷ cs) h =
      omega (arith, head_cons k es gs c h, over_contacts-cons k es gs cs h)

  over_contacts-groups :
      (gs : Groups) (cs : List Contact)
      → HasGroups gs
      → All (λ (g : ℕ × List LedgerEntry). IsKnown b cs g.0) gs
      → over_contacts (λ i. group_sum i gs) cs ≡ over_groups gs
  over_contacts-groups [] cs d k = over_contacts-zero cs
  over_contacts-groups ((j, es) ∷ gs) cs d k =
      over_contacts-cons j es gs cs d.0 ∙ rw (k.0, over_contacts-groups gs cs d.1 k.1) (omega arith)

-- The sums of the report are sums over the groups.
total-add_aging : (s a : Aging) → total (add_aging s a) ≡ total s +ℤ total a
unfolding total
total-add_aging s a = omega int_laws

add_pos : (x : ℤ) (m n : ℕ) → x +ℤ pos m +ℤ pos n ≡ x +ℤ pos (m + n)
add_pos x m n = omega int_laws

age_groups-sums :
    (gs : Groups) (as_of : ℕ) (r : Report)
    → (total (age_groups gs as_of r).sums ≡ total r.sums +ℤ pos (over_groups pos_part refl 0 gs))
      × ((age_groups gs as_of r).sums.unapplied_credit
          ≡ r.sums.unapplied_credit +ℤ pos (over_groups neg_part refl 0 gs))
unfolding age_groups
age_groups-sums [] as_of r = (sym (+ℤ_zero _), sym (+ℤ_zero _))
age_groups-sums ((c, es) ∷ gs) as_of r =
    let aging = aging_from_entries es as_of in
    let both = aging_from_entries-totals es as_of in
    let rest = age_groups-sums gs as_of _ in
    (
      rest.0
          ∙ ap (λ x. x +ℤ pos (over_groups pos_part refl 0 gs))
              (total-add_aging r.sums aging ∙ ap (λ x. total r.sums +ℤ x) both.0)
          ∙ add_pos (total r.sums) (pos_part (delta_sum es)) (over_groups pos_part refl 0 gs),
      rest.1
          ∙ ap (λ x. r.sums.unapplied_credit +ℤ x +ℤ pos (over_groups neg_part refl 0 gs)) both.1
          ∙ add_pos r.sums.unapplied_credit (neg_part (delta_sum es))
              (over_groups neg_part refl 0 gs),
    )

-- The totals of the summary are sums over the contacts.
row_positive : (x : ℤ) → (if is_pos x then x else pos 0) ≡ pos (pos_part x)
row_positive x = ground arith

row_negative : (x : ℤ) → (if is_neg x then x else pos 0) ≡ neg (pos (neg_part x))
unfolding neg
row_negative x = ground arith

zero_parts : (x : ℤ) → is_zero x ≡ true → (pos_part x ≡ 0) × (neg_part x ≡ 0)
zero_parts x h = (ground arith, ground arith)

plus_pos : (m n : ℕ) → pos m +ℤ pos n ≡ pos (m + n)
plus_pos m n = omega int_laws

plus_neg : (m n : ℕ) → neg (pos m) +ℤ neg (pos n) ≡ neg (pos (m + n))
plus_neg m n = omega int_laws

module _ (b : ℕ) (es : List LedgerEntry) where
  sum-positive :
      (cs : List Contact)
      → sum_ℤ positive (balance_rows b es cs)
        ≡ pos (over_contacts pos_part refl b (λ i. balance_sum b i es) cs)
  unfolding balance_rows
  sum-positive [] = refl
  sum-positive (c ∷ cs) = ground (
    arith,
    sum-positive cs,
    row_positive (balance_sum b c.id es),
    zero_parts (balance_sum b c.id es),
    plus_pos (pos_part (balance_sum b c.id es))
        (over_contacts pos_part refl b (λ i. balance_sum b i es) cs),
  )

  sum-negative :
      (cs : List Contact)
      → sum_ℤ negative (balance_rows b es cs)
        ≡ neg (pos (over_contacts neg_part refl b (λ i. balance_sum b i es) cs))
  unfolding balance_rows
  sum-negative [] = unfold neg in refl
  sum-negative (c ∷ cs) = ground (
    arith,
    sum-negative cs,
    row_negative (balance_sum b c.id es),
    zero_parts (balance_sum b c.id es),
    plus_neg (neg_part (balance_sum b c.id es))
        (over_contacts neg_part refl b (λ i. balance_sum b i es) cs),
  )

-- Both sides as sums over the contacts of the business.
module _ (b as_of : ℕ) (books : Books) (v : IsValid books.entries)
    (known : AreKnown b books.contacts books.entries) where
  abbrev live : List LedgerEntry
  live = live_entries b none books.entries

  abbrev groups : Groups
  groups = group_entries live []

  group_is_balance : (i : ℕ) → group_sum i groups ≡ balance_sum b i books.entries
  group_is_balance i =
      group_sum-group_entries i live []
      ∙ zero_add (contact_sum i live)
      ∙ contact_sum-live_entries b i books.entries
      ∙ v.live_sums b i
    where
      zero_add : (a : ℤ) → pos 0 +ℤ a ≡ a
      zero_add a = omega int_laws

  groups-IsKnown : All (λ (g : ℕ × List LedgerEntry). IsKnown b books.contacts g.0) groups
  unfolding live_entries
  groups-IsKnown =
      All-group_entries (IsKnown b books.contacts) live []
        (IsKnown-order b books.contacts
          (where_ (for_contact none) (where_ (is_live b) books.entries))
          (IsKnown-live b books.contacts books.entries known))
        tt

  over_both :
      (part : ℤ → ℕ) (z : part (pos 0) ≡ 0)
      → over_groups part z 0 groups
        ≡ over_contacts part z b (λ i. balance_sum b i books.entries) books.contacts
  over_both part z =
      sym (
        over_contacts-groups part z b groups books.contacts (HasGroups-group_entries live [] tt)
          groups-IsKnown)
      ∙ over_contacts-ext part z b (λ i. group_sum i groups) (λ i. balance_sum b i books.entries)
          group_is_balance books.contacts

all_rows : (rows : List BalanceRow) → where_ (in_state none) rows ≡ rows
all_rows [] = refl
all_rows (r ∷ rs) = ap (λ x. r ∷ x) (all_rows rs)

neg-neg : (n : ℕ) → neg (neg (pos n)) ≡ pos n
unfolding neg
neg-neg n = ground arith

summary_parts :
    (b : ℕ) (books : Books)
    → ((business_financial_summary b books).receivable_total
        ≡ pos (over_contacts pos_part refl b (λ i. balance_sum b i books.entries) books.contacts))
      × ((business_financial_summary b books).payable_total
          ≡ pos (over_contacts neg_part refl b (λ i. balance_sum b i books.entries) books.contacts))
unfolding business_financial_summary summarize contact_balances
summary_parts b books = (
  ap (sum_ℤ positive) (all_rows (balance_rows b books.entries books.contacts))
      ∙ sum-positive b books.entries books.contacts,
  ap (λ rows. neg (sum_ℤ negative rows)) (all_rows (balance_rows b books.entries books.contacts))
      ∙ ap neg (sum-negative b books.entries books.contacts)
      ∙ neg-neg _,
)

no_aging_parts : (t : ℕ) (n : ℕ) → (total (no_aging t) +ℤ pos n ≡ pos n) × (pos 0 +ℤ pos n ≡ pos n)
unfolding total
no_aging_parts t n = (omega int_laws, omega int_laws)

-- In a valid ledger whose entries are of known contacts, the outstanding total of the aging report
-- of a business is the receivable total of its financial summary, and the unapplied credit of the
-- report is the payable total; archived contacts are in both.
pub business_aging_reconciles :
    (b as_of : ℕ) (books : Books)
    → IsValid books.entries
    → AreKnown b books.contacts books.entries
    → (total (business_aging b as_of books.entries).sums
        ≡ (business_financial_summary b books).receivable_total)
      × ((business_aging b as_of books.entries).sums.unapplied_credit
          ≡ (business_financial_summary b books).payable_total)
unfolding business_aging
business_aging_reconciles b as_of books v known =
    let sums =
      age_groups-sums (groups b as_of books v known) as_of
        (record { sums = no_aging as_of; rows = [] }) in
    let summary = summary_parts b books in
    (
      sums.0
          ∙ (no_aging_parts as_of _).0
          ∙ ap pos (over_both b as_of books v known pos_part refl)
          ∙ sym summary.0,
      sums.1
          ∙ (no_aging_parts as_of _).1
          ∙ ap pos (over_both b as_of books v known neg_part refl)
          ∙ sym summary.1,
    )
