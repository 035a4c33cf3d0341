-- ===== src/Accounting/Overdue.antt =====
-- What each bucket of an aging holds, in closed form.
use sanga.Common.{
  ℕ, ◌+◌, ◌-◌, ◌≡◌, refl, sym, ◌∙◌, ap, inl, inr, Bool, true, false, List, [], ◌∷◌, arith,
  if◌then◌else◌, All, Bool-cases, subst, where_,
}
use sanga.Common.Int.{
  ℤ, pos, negsuc, pos_part, neg_part, ◌+ℤ◌, ◌-ℤ◌, neg, is_pos, is_neg, int_laws, +ℤ_zero,
  eq_of_parts,
}
use sanga.Accounting.{LedgerEntry, is_debit}
use sanga.Accounting.Reports.{
  Bucket, Aging, total, amount_in, add_to, collect, min_ℤ, allocate, no_aging, aging_from_entries,
}
use sanga.Accounting.Fifo.{delta_sum, round, bucket_of, allocate_conserves}

-- The sizes of the debits and of the credits.
abbrev pub debit_sum : List LedgerEntry → ℕ
debit_sum [] = 0
debit_sum (e ∷ es) = pos_part e.balance_delta + debit_sum es

abbrev pub credit_sum : List LedgerEntry → ℕ
credit_sum [] = 0
credit_sum (e ∷ es) = neg_part e.balance_delta + credit_sum es

abbrev pub same_bucket : Bucket → Bucket → Bool
same_bucket Bucket.current Bucket.current = true
same_bucket Bucket.days_31_60 Bucket.days_31_60 = true
same_bucket Bucket.days_61_90 Bucket.days_61_90 = true
same_bucket Bucket.over_90 Bucket.over_90 = true
same_bucket _ _ = false

-- The oldest debits come first: a debit behind debits of `before` is met by what `credit` leaves
-- after those, and the rest of it is overdue in the bucket of its age.
abbrev pub overdue : Bucket → ℕ → ℕ → ℕ → List LedgerEntry → ℕ
overdue k as_of credit before [] = 0
overdue k as_of credit before (e ∷ es) =
    (if same_bucket k (bucket_of as_of e) then pos_part e.balance_delta - (credit - before) else 0)
    + overdue k as_of credit (before + pos_part e.balance_delta) es

pool_step : (q : ℕ) (x : ℤ) → is_pos x ≡ true → pos q -ℤ min_ℤ (pos q) x ≡ pos (q - pos_part x)
unfolding min_ℤ ◌-ℤ◌
pool_step q (pos n) h = ground arith
pool_step q (negsuc n) h = absurd (cc)

debit_step : (q : ℕ) (x : ℤ) → is_pos x ≡ true → x -ℤ min_ℤ (pos q) x ≡ pos (pos_part x - q)
unfolding min_ℤ ◌-ℤ◌
debit_step q (pos n) h = ground arith
debit_step q (negsuc n) h = absurd (cc)

amount_in-add_to :
    (k j : Bucket) (x : ℤ) (a : Aging)
    → amount_in k (add_to j x a) ≡ amount_in k a +ℤ (if same_bucket k j then x else pos 0)
amount_in-add_to k j x a = ground (arith, +ℤ_zero (amount_in k a))

as_of-round : (e : LedgerEntry) (pool : ℤ) (a : Aging) → (round e pool a).as_of ≡ a.as_of
as_of-round e pool a = ground arith

amount_in-round :
    (k : Bucket) (e : LedgerEntry) (q : ℕ) (a : Aging)
    → is_debit e ≡ true
    → amount_in k (round e (pos q) a)
      ≡ amount_in k a
        +ℤ pos (if same_bucket k (bucket_of a.as_of e) then pos_part e.balance_delta - q else 0)
amount_in-round k e q a h = rw (debit_step q e.balance_delta h) (
    ground (
      arith,
      amount_in-add_to k (bucket_of a.as_of e) (pos (pos_part e.balance_delta - q)) a,
      +ℤ_zero (amount_in k a),
    ))

add_up : (x y : ℕ) (a : ℤ) → a +ℤ pos x +ℤ pos y ≡ a +ℤ pos (x + y)
add_up x y a = omega int_laws

amount_in-nil :
    (k : Bucket) (a : Aging) (p : ℤ)
    → amount_in k (record a { unapplied_credit = p }) ≡ amount_in k a +ℤ pos 0
amount_in-nil k a p = ground (arith, +ℤ_zero (amount_in k a))

allocate_fifo :
    (k : Bucket) (credit before as_of : ℕ) (es : List LedgerEntry) (a : Aging)
    → a.as_of ≡ as_of
    → All (λ (e : LedgerEntry). is_debit e ≡ true) es
    → amount_in k (allocate es (pos (credit - before)) a)
      ≡ amount_in k a +ℤ pos (overdue k as_of credit before es)
unfolding allocate
allocate_fifo k credit before as_of [] a same h = amount_in-nil k a (pos (credit - before))
allocate_fifo k credit before as_of (e ∷ es) a same h =
    let q = credit - before in
    let d = pos_part e.balance_delta in
    let left : credit - before - d ≡ credit - (before + d) = omega arith in
    ap (λ p. amount_in k (allocate es p (round e (pos q) a)))
      (pool_step q e.balance_delta h.0 ∙ ap pos left)
    ∙ allocate_fifo k credit (before + d) as_of es (round e (pos q) a)
        (as_of-round e (pos q) a ∙ same) h.1
    ∙ ap (λ x. x +ℤ pos (overdue k as_of credit (before + d) es))
        (subst
          (λ t.
            amount_in k (round e (pos q) a)
            ≡ amount_in k a +ℤ pos (if same_bucket k (bucket_of t e) then d - q else 0))
          same (amount_in-round k e q a h.0))
    ∙ add_up _ _ (amount_in k a)

allocate_rest :
    (credit before : ℕ) (es : List LedgerEntry) (a : Aging)
    → All (λ (e : LedgerEntry). is_debit e ≡ true) es
    → (allocate es (pos (credit - before)) a).unapplied_credit
      ≡ pos (credit - (before + debit_sum es))
unfolding allocate
allocate_rest credit before [] a h = ap pos (omega arith)
allocate_rest credit before (e ∷ es) a h =
    let q = credit - before in
    let d = pos_part e.balance_delta in
    let left : credit - before - d ≡ credit - (before + d) = omega arith in
    ap (λ p. (allocate es p (round e (pos q) a)).unapplied_credit)
      (pool_step q e.balance_delta h.0 ∙ ap pos left)
    ∙ allocate_rest credit (before + d) es (round e (pos q) a) h.1
    ∙ ap pos (omega arith)

debits_are_debits :
    (es : List LedgerEntry) → All (λ (e : LedgerEntry). is_debit e ≡ true) (where_ is_debit es)
debits_are_debits [] = tt
debits_are_debits (e ∷ es) = elim (Bool-cases (is_debit e)) [
  | inl yes_ ↦ rw yes_ (yes_, debits_are_debits es)
  | inr no_ ↦ rw no_ (debits_are_debits es)
]

pool_grows : (q : ℕ) (x : ℤ) → (if is_neg x then pos q +ℤ neg x else pos q) ≡ pos (q + neg_part x)
unfolding neg ◌+ℤ◌
pool_grows q x = ground arith

collect_lem :
    (q : ℕ) (es : List LedgerEntry)
    → collect es (pos q) ≡ (where_ is_debit es, pos (q + credit_sum es))
unfolding collect
collect_lem q [] = ap (λ n. ([], pos n)) (omega arith)
collect_lem q (e ∷ es) = rw (pool_grows q e.balance_delta) (
    rw (collect_lem (q + neg_part e.balance_delta) es) (
      ap (λ n. ((if is_debit e then e ∷ where_ is_debit es else where_ is_debit es), pos n))
        (omega arith)))

aging_lem :
    (es : List LedgerEntry) (as_of : ℕ)
    → aging_from_entries es as_of
      ≡ allocate (where_ is_debit es) (pos (credit_sum es - 0)) (no_aging as_of)
unfolding aging_from_entries
aging_lem es as_of =
    rw (collect_lem 0 es)
      (ap (λ n. allocate (where_ is_debit es) (pos n) (no_aging as_of)) (omega arith))

from_zero : (k : Bucket) (t n : ℕ) → amount_in k (no_aging t) +ℤ pos n ≡ pos n
from_zero Bucket.current t n = omega int_laws
from_zero Bucket.days_31_60 t n = omega int_laws
from_zero Bucket.days_61_90 t n = omega int_laws
from_zero Bucket.over_90 t n = omega int_laws

-- Each bucket of an aging holds what the credits leave of the debits of that age when they are
-- applied to the debits in their order, and the credit that no debit takes is reported as unapplied.
pub aging_from_entries-fifo :
    (es : List LedgerEntry) (as_of : ℕ)
    → ((k : Bucket)
        → amount_in k (aging_from_entries es as_of)
          ≡ pos (overdue k as_of (credit_sum es) 0 (where_ is_debit es)))
      × ((aging_from_entries es as_of).unapplied_credit
          ≡ pos (credit_sum es - debit_sum (where_ is_debit es)))
aging_from_entries-fifo es as_of = (
  λ k.
      ap (amount_in k) (aging_lem es as_of)
      ∙ allocate_fifo k (credit_sum es) 0 as_of (where_ is_debit es) (no_aging as_of) refl
          (debits_are_debits es)
      ∙ from_zero k as_of _,
  ap (λ (a : Aging). a.unapplied_credit) (aging_lem es as_of)
      ∙ allocate_rest (credit_sum es) 0 (where_ is_debit es) (no_aging as_of) (debits_are_debits es)
      ∙ ap pos (omega arith),
)

delta_sum-debits :
    (es : List LedgerEntry) → delta_sum (where_ is_debit es) ≡ pos (debit_sum (where_ is_debit es))
delta_sum-debits [] = refl
delta_sum-debits (e ∷ es) = elim (Bool-cases (is_debit e)) [
  | inl debit ↦ rw debit (
      rw (delta_sum-debits es)
        (positive_plus e.balance_delta (debit_sum (where_ is_debit es)) debit))
  | inr other ↦ rw other (delta_sum-debits es)
]
  where
    positive_plus : (x : ℤ) (n : ℕ) → is_pos x ≡ true → x +ℤ pos n ≡ pos (pos_part x + n)
    positive_plus (pos m) n h = omega int_laws
    positive_plus (negsuc m) n h = absurd (cc)

delta_sum-split :
    (es : List LedgerEntry)
    → delta_sum es ≡ pos (debit_sum (where_ is_debit es)) -ℤ pos (credit_sum es)
delta_sum-split [] = omega int_laws
delta_sum-split (e ∷ es) = elim (Bool-cases (is_debit e)) [
  | inl debit ↦ rw debit (rw (delta_sum-split es) (up e.balance_delta _ _ debit))
  | inr other ↦ rw other (rw (delta_sum-split es) (down e.balance_delta _ _ other))
]
  where
    up :
        (x : ℤ) (d c : ℕ)
        → is_pos x ≡ true
        → x +ℤ (pos d -ℤ pos c) ≡ pos (pos_part x + d) -ℤ pos (neg_part x + c)
    up (pos n) d c h = omega int_laws
    up (negsuc n) d c h = absurd (cc)

    down :
        (x : ℤ) (d c : ℕ) → is_pos x ≡ false → x +ℤ (pos d -ℤ pos c) ≡ pos d -ℤ pos (neg_part x + c)
    down (pos n) d c h = let z : n ≡ 0 = ground arith in omega int_laws
    down (negsuc n) d c h = omega int_laws

difference : (d c : ℕ) → (pos_part (pos d -ℤ pos c) ≡ d - c) × (neg_part (pos d -ℤ pos c) ≡ c - d)
unfolding ◌-ℤ◌
difference d c = (ground arith, ground arith)

total_of_rest : (r : ℤ) (d c : ℕ) → r -ℤ pos (c - d) ≡ pos d -ℤ pos c → r ≡ pos (d - c)
total_of_rest r d c h = eq_of_parts r (pos (d - c)) (rest_parts (ap pos_part h) (ap neg_part h))
  where
    rest_parts :
        pos_part (r -ℤ pos (c - d)) ≡ pos_part (pos d -ℤ pos c)
        → neg_part (r -ℤ pos (c - d)) ≡ neg_part (pos d -ℤ pos c)
        → pos_part r + 0 ≡ d - c + neg_part r
    rest_parts p n = omega int_laws

from_none : (d c : ℕ) → pos 0 +ℤ pos d -ℤ pos (c - 0) ≡ pos d -ℤ pos c
from_none d c = omega int_laws

total_none : (t : ℕ) → total (no_aging t) ≡ pos 0
unfolding total
total_none t = omega int_laws

-- The outstanding total of an aging is the positive part of the sum of the deltas, and its unapplied
-- credit the negative part: an account in credit has no amounts due, and the other way round.
pub aging_from_entries-totals :
    (es : List LedgerEntry) (as_of : ℕ)
    → (total (aging_from_entries es as_of) ≡ pos (pos_part (delta_sum es)))
      × ((aging_from_entries es as_of).unapplied_credit ≡ pos (neg_part (delta_sum es)))
aging_from_entries-totals es as_of =
    let d = debit_sum (where_ is_debit es) in
    let c = credit_sum es in
    let rest = (aging_from_entries-fifo es as_of).1 in
    let kept =
      sym (ap (λ u. total (aging_from_entries es as_of) -ℤ u) rest)
      ∙ ap (λ (a : Aging). total a -ℤ a.unapplied_credit) (aging_lem es as_of)
      ∙ allocate_conserves (where_ is_debit es) (pos (c - 0)) (no_aging as_of)
      ∙ rw (total_none as_of, delta_sum-debits es) (from_none d c) in
    let parts = difference d c in
    (
      total_of_rest (total (aging_from_entries es as_of)) d c kept
          ∙ ap pos (sym (ap pos_part (delta_sum-split es) ∙ parts.0)),
      rest ∙ ap pos (sym (ap neg_part (delta_sum-split es) ∙ parts.1)),
    )
