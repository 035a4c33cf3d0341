-- ===== src/Accounting/Fifo.antt =====
-- apps/accounting/reports.py: the allocation of credits to the debits of one account.
use sanga.Common.{ℕ, ◌≡◌, ◌∙◌, ap, inl, inr, true, List, [], ◌∷◌, arith, if◌then◌else◌, Bool-cases}
use sanga.Common.Int.{ℤ, pos, ◌+ℤ◌, ◌-ℤ◌, ◌≤ℤ◌, leb_ℤ, sum_ℤ, int_laws}
use sanga.Accounting.{LedgerEntry}
use sanga.Accounting.Reports.{Bucket, Aging, total, bucket_key, add_to, min_ℤ, allocate}

abbrev pub delta_sum : List LedgerEntry → ℤ
delta_sum es = sum_ℤ (λ (e : LedgerEntry). e.balance_delta) es

total-add_to : (k : Bucket) (x : ℤ) (a : Aging) → total (add_to k x a) ≡ total a +ℤ x
unfolding total
total-add_to Bucket.current x a = omega int_laws
total-add_to Bucket.days_31_60 x a = omega int_laws
total-add_to Bucket.days_61_90 x a = omega int_laws
total-add_to Bucket.over_90 x a = omega int_laws

-- One round of the second loop adds what the credit leaves of a debit.
abbrev pub applied : LedgerEntry → ℤ → ℤ
applied e pool = min_ℤ pool e.balance_delta

abbrev pub outstanding : LedgerEntry → ℤ → ℤ
outstanding e pool = e.balance_delta -ℤ applied e pool

abbrev pub bucket_of : ℕ → LedgerEntry → Bucket
bucket_of as_of e = bucket_key (pos as_of -ℤ pos e.occurred_on)

abbrev pub round : LedgerEntry → ℤ → Aging → Aging
round e pool a =
    if leb_ℤ (outstanding e pool) (pos 0)
    then a
    else add_to (bucket_of a.as_of e) (outstanding e pool) a

min_ℤ-le : (a b : ℤ) → min_ℤ a b ≤ℤ b
unfolding min_ℤ
min_ℤ-le a b = ground arith

zero_of_le : (x y : ℤ) → y ≤ℤ x → leb_ℤ (x -ℤ y) (pos 0) ≡ true → x -ℤ y ≡ pos 0
zero_of_le x y h k = grind int_laws

total-round :
    (e : LedgerEntry) (pool : ℤ) (a : Aging)
    → total (round e pool a) ≡ total a +ℤ outstanding e pool
total-round e pool a = elim (Bool-cases (leb_ℤ (outstanding e pool) (pos 0))) [
  | inl done ↦ rw done (
      rw (zero_of_le e.balance_delta (applied e pool) (min_ℤ-le pool e.balance_delta) done)
        (omega int_laws))
  | inr open_ ↦ rw open_ (total-add_to (bucket_of a.as_of e) (outstanding e pool) a)
]

balance_step :
    (t d m p s r u : ℤ) → r -ℤ u ≡ (t +ℤ (d -ℤ m)) +ℤ s -ℤ (p -ℤ m) → r -ℤ u ≡ t +ℤ (d +ℤ s) -ℤ p
balance_step t d m p s r u h = h ∙ omega int_laws

pub allocate_conserves :
    (es : List LedgerEntry) (pool : ℤ) (a : Aging)
    → total (allocate es pool a) -ℤ (allocate es pool a).unapplied_credit
      ≡ total a +ℤ delta_sum es -ℤ pool
unfolding allocate
allocate_conserves [] pool a = unfold total in omega int_laws
allocate_conserves (e ∷ es) pool a =
    balance_step (total a) e.balance_delta (applied e pool) pool (delta_sum es) _ _ (
      allocate_conserves es (pool -ℤ applied e pool) (round e pool a)
      ∙ ap (λ x. x +ℤ delta_sum es -ℤ (pool -ℤ applied e pool)) (total-round e pool a))
