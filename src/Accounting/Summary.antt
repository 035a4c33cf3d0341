-- ===== src/Accounting/Summary.antt =====
-- apps/accounting/selectors.py: the totals and counts of the financial summary.
use sanga.Common.{
  ℕ, ◌+◌, ◌≡◌, ◌∙◌, ap, List, [], ◌∷◌, arith, if◌then◌else◌, count_where, length, none,
}
use sanga.Common.Int.{ℤ, pos, negsuc, ◌+ℤ◌, ◌-ℤ◌, neg, is_pos, is_neg, is_zero, sum_ℤ, int_laws}
use sanga.Accounting.{Books}
use sanga.Accounting.Selectors.{
  BalanceRow, positive, negative, summarize, contact_balances, business_financial_summary,
}

same_pos : (k : ℕ) → (if is_pos (pos k) then pos k else pos 0) ≡ pos k
same_pos k = ground arith

split_sum :
    (x p n : ℤ)
    → (if is_pos x then x else pos 0) +ℤ p +ℤ ((if is_neg x then x else pos 0) +ℤ n) ≡ x +ℤ (p +ℤ n)
split_sum (pos k) p n = rw (same_pos k) (omega int_laws)
split_sum (negsuc k) p n = omega int_laws

sums_split :
    (rows : List BalanceRow)
    → sum_ℤ positive rows +ℤ sum_ℤ negative rows ≡ sum_ℤ (λ (row : BalanceRow). row.balance) rows
sums_split [] = omega int_laws
sums_split (r ∷ rs) =
    split_sum r.balance (sum_ℤ positive rs) (sum_ℤ negative rs)
    ∙ ap (λ x. r.balance +ℤ x) (sums_split rs)

counts_split :
    (rows : List BalanceRow)
    → count_where (λ (row : BalanceRow). is_pos row.balance) rows
        + count_where (λ (row : BalanceRow). is_neg row.balance) rows
        + count_where (λ (row : BalanceRow). is_zero row.balance) rows
      ≡ length rows
counts_split [] = omega arith
counts_split (r ∷ rs) = ground (arith, counts_split rs)

-- The receivable total less the payable total of a business is its net balance, and its debtors,
-- creditors and settled contacts are all the contacts that the summary counts.
pub business_financial_summary_adds_up :
    (b : ℕ) (books : Books)
    → let s = business_financial_summary b books in
      (s.receivable_total -ℤ s.payable_total ≡ s.net_balance)
      × (s.debtor_count + s.creditor_count + s.settled_count ≡ s.contact_count)
unfolding business_financial_summary summarize
business_financial_summary_adds_up b books =
    let rows = contact_balances b none books in
    (minus_neg (sum_ℤ positive rows) (sum_ℤ negative rows) ∙ sums_split rows, counts_split rows)
  where
    minus_neg : (p n : ℤ) → p -ℤ neg n ≡ p +ℤ n
    minus_neg p n = omega int_laws
