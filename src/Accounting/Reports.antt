-- ===== src/Accounting/Reports.antt =====
-- apps/accounting/reports.py: the aging of receivables. A date is a number of days.
use sanga.Common.{
  ℕ, ◌==◌, Bool, true, Option, none, some, List, [], ◌∷◌, ◌++◌, ◌&&◌, ◌||◌, ltb, leb, not,
  if◌then◌else◌, where_, is_none,
}
use sanga.Common.Int.{ℤ, pos, ◌+ℤ◌, ◌-ℤ◌, neg, ltb_ℤ, leb_ℤ, is_pos, is_neg}
use sanga.Accounting.{LedgerEntry, is_debit, is_reversal}

pub data Bucket : Type 0 where
  current days_31_60 days_61_90 over_90 : Bucket

pub record Aging : Type 0 where
  pub as_of : ℕ
  pub current : ℤ
  pub days_31_60 : ℤ
  pub days_61_90 : ℤ
  pub over_90 : ℤ
  pub unapplied_credit : ℤ

-- `Aging.total` and `Aging.has_outstanding`
unfoldable pub total : Aging → ℤ
total a = a.current +ℤ a.days_31_60 +ℤ a.days_61_90 +ℤ a.over_90

abbrev pub has_outstanding : Aging → Bool
has_outstanding a = is_pos (total a)

-- `getattr(aging, key)`
abbrev pub amount_in : Bucket → Aging → ℤ
amount_in Bucket.current a = a.current
amount_in Bucket.days_31_60 a = a.days_31_60
amount_in Bucket.days_61_90 a = a.days_61_90
amount_in Bucket.over_90 a = a.over_90

-- `_bucket_key`
unfoldable pub bucket_key : ℤ → Bucket
bucket_key age_days =
    if leb_ℤ age_days (pos 30)
    then Bucket.current
    else if leb_ℤ age_days (pos 60)
    then Bucket.days_31_60
    else if leb_ℤ age_days (pos 90)
    then Bucket.days_61_90
    else Bucket.over_90

-- `buckets[key] += amount`
abbrev pub add_to : Bucket → ℤ → Aging → Aging
add_to Bucket.current x a = record a { current = a.current +ℤ x }
add_to Bucket.days_31_60 x a = record a { days_31_60 = a.days_31_60 +ℤ x }
add_to Bucket.days_61_90 x a = record a { days_61_90 = a.days_61_90 +ℤ x }
add_to Bucket.over_90 x a = record a { over_90 = a.over_90 +ℤ x }

-- `filter(business=..., reversed_at__isnull=True).exclude(entry_type=REVERSAL)`
abbrev pub is_live : ℕ → LedgerEntry → Bool
is_live business e =
    e.business == business && (is_none e.reversed_at && not (is_reversal e.entry_type))

abbrev pub for_contact : Option ℕ → LedgerEntry → Bool
for_contact none e = true
for_contact (some c) e = e.contact == c

-- `order_by("occurred_on", "created_at")`
abbrev pub before_or_with : LedgerEntry → LedgerEntry → Bool
before_or_with e f =
    ltb e.occurred_on f.occurred_on
    || (e.occurred_on == f.occurred_on && leb e.created_at f.created_at)

abbrev pub insert_by_date : LedgerEntry → List LedgerEntry → List LedgerEntry
insert_by_date e [] = e ∷ []
insert_by_date e (f ∷ fs) =
    let rest = insert_by_date e fs in if before_or_with e f then e ∷ f ∷ fs else f ∷ rest

abbrev pub order_by_date : List LedgerEntry → List LedgerEntry
order_by_date [] = []
order_by_date (e ∷ es) = insert_by_date e (order_by_date es)

-- `live_entries`
unfoldable pub live_entries : ℕ → Option ℕ → List LedgerEntry → List LedgerEntry
live_entries business contact entries =
    order_by_date (where_ (for_contact contact) (where_ (is_live business) entries))

-- The first loop of `aging_from_entries`: the debits in order, and the pool of credit.
unfoldable pub collect : List LedgerEntry → ℤ → List LedgerEntry × ℤ
collect [] pool = ([], pool)
collect (e ∷ es) pool =
    let (debits, rest) =
      collect es (if is_neg e.balance_delta then pool +ℤ neg e.balance_delta else pool) in
    (if is_debit e then e ∷ debits else debits, rest)

-- `min(a, b)`
unfoldable pub min_ℤ : ℤ → ℤ → ℤ
min_ℤ a b = if ltb_ℤ b a then b else a

-- The second loop, on the pool and the buckets.
unfoldable pub allocate : List LedgerEntry → ℤ → Aging → Aging
unfolding min_ℤ bucket_key
allocate [] pool a = record a { unapplied_credit = pool }
allocate (e ∷ es) pool a =
    let applied = min_ℤ pool e.balance_delta in
    let outstanding = e.balance_delta -ℤ applied in
    allocate es (pool -ℤ applied) (
      if leb_ℤ outstanding (pos 0)
      then a
      else add_to (bucket_key (pos a.as_of -ℤ pos e.occurred_on)) outstanding a)

abbrev pub no_aging : ℕ → Aging
no_aging as_of = record {
  as_of = as_of;
  current = pos 0;
  days_31_60 = pos 0;
  days_61_90 = pos 0;
  over_90 = pos 0;
  unapplied_credit = pos 0;
}

-- `aging_from_entries`
unfoldable pub aging_from_entries : List LedgerEntry → ℕ → Aging
unfolding collect allocate
aging_from_entries entries as_of =
    let (debits, pool) = collect entries (pos 0) in allocate debits pool (no_aging as_of)

-- `contact_aging`
unfoldable pub contact_aging : ℕ → ℕ → ℕ → List LedgerEntry → Aging
unfolding live_entries aging_from_entries
contact_aging business contact as_of entries =
    aging_from_entries (live_entries business (some contact) entries) as_of

-- The dictionary of groups, in the order of their first entries.
abbrev pub Groups : Type 0
Groups = List (ℕ × List LedgerEntry)

abbrev pub add_to_group : LedgerEntry → Groups → Groups
add_to_group e [] = (e.contact, e ∷ []) ∷ []
add_to_group e ((c, es) ∷ gs) =
    if c == e.contact then (c, es ++ e ∷ []) ∷ gs else (c, es) ∷ add_to_group e gs

unfoldable pub group_entries : List LedgerEntry → Groups → Groups
group_entries [] gs = gs
group_entries (e ∷ es) gs = group_entries es (add_to_group e gs)

-- A row of the report: the contact and its aging.
abbrev pub Row : Type 0
Row = ℕ × Aging

pub record Report : Type 0 where
  pub sums : Aging
  pub rows : List Row

abbrev pub add_aging : Aging → Aging → Aging
add_aging s a = record {
  as_of = s.as_of;
  current = s.current +ℤ a.current;
  days_31_60 = s.days_31_60 +ℤ a.days_31_60;
  days_61_90 = s.days_61_90 +ℤ a.days_61_90;
  over_90 = s.over_90 +ℤ a.over_90;
  unapplied_credit = s.unapplied_credit +ℤ a.unapplied_credit;
}

-- The loop over the groups; `rows.append` at the end of the list.
unfoldable pub age_groups : Groups → ℕ → Report → Report
unfolding aging_from_entries
age_groups [] as_of r = r
age_groups ((c, es) ∷ gs) as_of r =
    let a = aging_from_entries es as_of in
    age_groups gs as_of (record {
      sums = add_aging r.sums a;
      rows = if has_outstanding a then r.rows ++ (c, a) ∷ [] else r.rows;
    })

-- `rows.sort(key=total, reverse=True)`, which is stable.
abbrev pub insert_row : Row → List Row → List Row
insert_row x [] = x ∷ []
insert_row x (y ∷ ys) =
    let rest = insert_row x ys in if leb_ℤ (total y.1) (total x.1) then x ∷ y ∷ ys else y ∷ rest

abbrev pub sort_rows : List Row → List Row
sort_rows [] = []
sort_rows (x ∷ xs) = insert_row x (sort_rows xs)

-- `business_aging`
unfoldable pub business_aging : ℕ → ℕ → List LedgerEntry → Report
unfolding live_entries group_entries age_groups total
business_aging business as_of entries =
    let r =
      age_groups (group_entries (live_entries business none entries) []) as_of
        (record { sums = no_aging as_of; rows = [] }) in
    record r { rows = sort_rows r.rows }
