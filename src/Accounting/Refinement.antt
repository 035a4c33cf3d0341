-- ===== src/Accounting/Refinement.antt =====
-- The services of apps/accounting/services.py, one after the other, against a ledger that knows only a
-- balance for each business and contact.
use sanga.Common.{ℕ, ◌≡◌, refl, ◌∙◌, List, [], ◌∷◌, Option, ◌==◌, ◌&&◌, if◌then◌else◌}
use sanga.Common.Int.{ℤ, pos, ◌+ℤ◌, neg}
use sanga.Common.Results.{ok}
use sanga.Businesses.{Membership}
use sanga.Accounting.{LedgerEntry, Books}
use sanga.Accounting.Selectors.{current_balance, balance_sum}
use sanga.Accounting.Services.{Env, Posting, post_entry, post_trade_entry, reverse_entry}
use sanga.Accounting.Balance.{IsPast}
use sanga.Accounting.Valid.{IsValid, live_sum}
use sanga.Accounting.Posting.{post_entry-IsValid}
use sanga.Accounting.Trade.{post_trade_entry-IsValid}
use sanga.Accounting.Reversal.{IsStored, reverse_entry-IsValid}

-- The abstract ledger, and what changes it: an amount for one account.
abbrev pub Balances : Type 0
Balances = ℕ → ℕ → ℤ

pub record Move : Type 0 where
  pub business : ℕ
  pub contact : ℕ
  pub by : ℤ

abbrev pub apply : Move → Balances → Balances
apply m balances b c =
    if m.business == b && m.contact == c then balances b c +ℤ m.by else balances b c

-- The balances after moves, the last one in front.
abbrev pub balances_after : List Move → Balances
balances_after [] = λ b c. pos 0
balances_after (m ∷ ms) = apply m (balances_after ms)

abbrev pub entry_move : LedgerEntry → ℤ → Move
entry_move e by = record { business = e.business; contact = e.contact; by = by }

-- A call that succeeds, at a time that the clock has passed the entries of the account, and the move that
-- it stands for: the delta of the entry it returns, or of the entry it reverses, taken back.
pub data Call (before : Books) : Move → Books → Type 0 where
  posted :
      (env : Env) (p : Posting) {e : LedgerEntry} {after : Books}
      → IsPast env.now p.business p.contact.id before.entries
      → post_entry env p before ≡ ok (e, after)
      → Call before (entry_move e e.balance_delta) after
  traded :
      (env : Env) (p : Posting) {e : LedgerEntry} {after : Books}
      → IsPast env.now p.business p.contact.id before.entries
      → post_trade_entry env p before ≡ ok (e, after)
      → Call before (entry_move e e.balance_delta) after
  reversed :
      (env : Env) (e : LedgerEntry) (m : Option Membership) {r : LedgerEntry} {after : Books}
      → IsStored e before.entries
      → IsPast env.now e.business e.contact before.entries
      → reverse_entry env e m before ≡ ok (r, after)
      → Call before (entry_move e (neg e.balance_delta)) after

-- Calls from a ledger without entries, the last one in front.
pub data Run : List Move → Books → Type 0 where
  start : {books : Books} → books.entries ≡ [] → Run [] books
  next :
      {moves : List Move} {m : Move} {before after : Books}
      → Run moves before
      → Call before m after
      → Run (m ∷ moves) after

-- One call changes the balances as its move does.
Call-apply :
    {m : Move} {before after : Books}
    → Call before m after
    → IsValid before.entries
    → IsValid after.entries
      × ((b c : ℕ)
          → current_balance b c after.entries
            ≡ apply m (λ b c. current_balance b c before.entries) b c)
Call-apply {before = before} (posted env p past h) v = post_entry-IsValid env p before v past h
Call-apply {before = before} (traded env p past h) v =
    post_trade_entry-IsValid env p before v past h
Call-apply {before = before} (reversed env e m stored past h) v =
    reverse_entry-IsValid env e m before v stored past h

apply-agree :
    (m : Move) (f g : Balances)
    → ((b c : ℕ) → f b c ≡ g b c)
    → (b c : ℕ) → apply m f b c ≡ apply m g b c
apply-agree m f g same b c = rw (same b c) refl

none-IsValid : IsValid []
unfolding live_sum balance_sum
none-IsValid = record {
  sound = record { consistent = tt; keys = tt; slots = tt; signed = tt; refers = tt };
  stamped = tt;
  live_sums = λ b c. refl;
}

Run-IsValid :
    {moves : List Move} {books : Books}
    → Run moves books
    → IsValid books.entries
      × ((b c : ℕ) → current_balance b c books.entries ≡ balances_after moves b c)
unfolding current_balance
Run-IsValid (start none_yet) = rw none_yet (none-IsValid, λ b c. refl)
Run-IsValid (next {moves} {m} {before} run call) =
    let (v, same) = Run-IsValid run in
    let (v', moved) = Call-apply call v in
    (
      v',
      λ b c.
          moved b c
          ∙ apply-agree m (λ b c. current_balance b c before.entries) (balances_after moves) same b
              c,
    )

-- The ledger refines one that knows only balances: after any calls of `post_entry`, `post_trade_entry`
-- and `reverse_entry` that succeed, from a ledger without entries and with a clock that passes the
-- entries of the account, the balance that `current_balance` reads for any business and contact is the
-- sum that the abstract ledger has for them after the moves of the calls.
pub current_balance_refines :
    {moves : List Move} {books : Books}
    → Run moves books
    → (b c : ℕ) → current_balance b c books.entries ≡ balances_after moves b c
current_balance_refines run = (Run-IsValid run).1
