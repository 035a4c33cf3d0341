-- ===== src/PurchaseRequests/Valid.antt =====
-- The invariant of the offers on each request, and how it passes to a table whose rows changed.
use sanga.Common.{
  ℕ, ◌≤◌, ◌≡◌, refl, ap, inl, inr, Bool, true, false, List, [], ◌∷◌, ◌&&◌, ◌||◌, ◌==◌, not, arith,
  if◌then◌else◌, exists, map, update_where, count_where, All, Bool-cases,
}
use sanga.PurchaseRequests.{PurchaseRequest, PurchaseOffer, is_submitted, is_accepted}
use sanga.PurchaseRequests.Tables.{Market}
use sanga.PurchaseRequests.Offers.{is_over, has_request_id, is_open_offer}

abbrev pub accepted_on : ℕ → PurchaseOffer → Bool
accepted_on i o = o.purchase_request == i && is_accepted o.status

abbrev pub submitted_on : ℕ → PurchaseOffer → Bool
submitted_on i o = o.purchase_request == i && is_submitted o.status

-- The statuses and sellers that two offers on one request must not have.
abbrev pub excludes : PurchaseOffer → PurchaseOffer → Bool
excludes o f =
    (is_accepted o.status && (is_accepted f.status || is_submitted f.status))
    || (is_submitted o.status
        && (is_accepted f.status
            || (is_submitted f.status && f.seller_business == o.seller_business)))

-- Two rows that must not stand in one table.
abbrev pub conflicts : PurchaseOffer → PurchaseOffer → Bool
conflicts o f = f.id == o.id || (f.purchase_request == o.purchase_request && excludes o f)

-- Primary keys differ, a seller has one submitted offer on a request at most, and a request with
-- an accepted offer has no other accepted or submitted one.
abbrev pub IsExclusive : List PurchaseOffer → Type 0
IsExclusive [] = Unit
IsExclusive (o ∷ os) = (exists (conflicts o) os ≡ false) × IsExclusive os

-- A row of the request that can still take offers.
abbrev pub is_live : ℕ → PurchaseRequest → Bool
is_live i r = r.id == i && not (is_over r.status)

-- The offer's request is there, and is over if the offer is accepted.
abbrev pub IsPlaced : List PurchaseRequest → PurchaseOffer → Type 0
IsPlaced rows o =
    (exists (has_request_id o.purchase_request) rows ≡ true)
    × ((is_accepted o.status && exists (is_live o.purchase_request) rows) ≡ false)

pub record IsValid (market : Market) : Type 0 where
  pub exclusive : IsExclusive market.offers
  pub placed : All (IsPlaced market.requests) market.offers

pub update_where-eq-map {ℓ} :
    {A : Type ℓ} (p : A → Bool) (f : A → A) (xs : List A)
    → update_where p f xs ≡ map (λ x. if p x then f x else x) xs
update_where-eq-map p f [] = refl
update_where-eq-map p f (x ∷ xs) =
    ap (λ rest. (if p x then f x else x) ∷ rest) (update_where-eq-map p f xs)

-- Rows that change to rows with no conflict of their own.
module _ (P : PurchaseOffer → Type 0) (g : PurchaseOffer → PurchaseOffer)
    (keeps : (o f : PurchaseOffer)
      → P o
      → P f
      → conflicts o f ≡ false
      → conflicts (g o) (g f) ≡ false) where
  exists-conflicts-map :
      (o : PurchaseOffer) (os : List PurchaseOffer)
      → P o
      → All P os
      → exists (conflicts o) os ≡ false
      → exists (conflicts (g o)) (map g os) ≡ false
  exists-conflicts-map o [] p a h = refl
  exists-conflicts-map o (f ∷ os) p a h =
      let here = keeps o f p a.0 (ground arith) in
      let rest = exists-conflicts-map o os p a.1 (ground arith) in ground arith

  pub IsExclusive-map :
      (os : List PurchaseOffer) → All P os → IsExclusive os → IsExclusive (map g os)
  IsExclusive-map [] a v = tt
  IsExclusive-map (o ∷ os) a v = (exists-conflicts-map o os a.0 a.1 v.0, IsExclusive-map os a.1 v.1)

accepted_none :
    (i : ℕ) (o : PurchaseOffer) (os : List PurchaseOffer)
    → accepted_on i o ≡ true
    → exists (conflicts o) os ≡ false
    → count_where (accepted_on i) os ≡ 0
accepted_none i o [] a h = refl
accepted_none i o (f ∷ os) a h = let rest = accepted_none i o os a (ground arith) in ground arith

-- A request has one accepted offer at most.
pub count_accepted :
    (i : ℕ) (os : List PurchaseOffer) → IsExclusive os → count_where (accepted_on i) os ≤ 1
count_accepted i [] v = omega arith
count_accepted i (o ∷ os) v = elim (Bool-cases (accepted_on i o)) [
  | inl here ↦ let rest = accepted_none i o os here v.0 in ground arith
  | inr other ↦ let rest = count_accepted i os v.1 in ground arith
]

open_none :
    (r s : ℕ) (o : PurchaseOffer) (os : List PurchaseOffer)
    → is_open_offer r s o ≡ true
    → exists (conflicts o) os ≡ false
    → count_where (is_open_offer r s) os ≡ 0
open_none r s o [] a h = refl
open_none r s o (f ∷ os) a h = let rest = open_none r s o os a (ground arith) in ground arith

-- A seller has one submitted offer on a request at most.
pub count_open :
    (r s : ℕ) (os : List PurchaseOffer) → IsExclusive os → count_where (is_open_offer r s) os ≤ 1
count_open r s [] v = omega arith
count_open r s (o ∷ os) v = elim (Bool-cases (is_open_offer r s o)) [
  | inl here ↦ let rest = open_none r s o os here v.0 in ground arith
  | inr other ↦ let rest = count_open r s os v.1 in ground arith
]
