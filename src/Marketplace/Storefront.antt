-- ===== src/Marketplace/Storefront.antt =====
-- The lots of a storefront (apps/catalog/selectors.py) on the marketplace (apps/marketplace/selectors.py).
use sanga.Common.{
  ℕ, ◌==◌, ◌≡◌, refl, inl, inr, Bool, true, false, some, List, [], ◌∷◌, ◌&&◌, where_, exists,
  count_where, sym, ap, ◌∙◌, is_none, arith, Bool-cases, subst,
}
use sanga.Businesses.{Business, is_active_business}
use sanga.Inventory.{InventoryLot, Visibility, private, colleagues, public}
use sanga.Catalog.Selectors.{
  is_on_offer, is_public, is_in_storefront, is_shown_before, public_catalog_lots,
}
use sanga.Marketplace.{
  is_shared, owner_is_active, is_offered_to, is_listed_before, marketplace_lots_for,
}
use sanga.Common.Order.{count_where-order_by}

-- The lots of one owner that are public.
abbrev pub is_public_of : ℕ → InventoryLot → Bool
is_public_of owner lot = lot.business == owner && is_public lot.visibility

count_where-where_ :
    (q p : InventoryLot → Bool) (xs : List InventoryLot)
    → count_where q (where_ p xs) ≡ count_where (λ x. p x && q x) xs
count_where-where_ q p [] = refl
count_where-where_ q p (x ∷ xs) =
    let rest = count_where-where_ q p xs in
    elim (Bool-cases (p x)) [
      | inl kept ↦ rw (kept, rest) refl
      | inr out ↦ rw (out, rest) (omega arith)
    ]

count_where_ext :
    (p q : InventoryLot → Bool)
    → ((x : InventoryLot) → p x ≡ q x)
    → (xs : List InventoryLot) → count_where p xs ≡ count_where q xs
count_where_ext p q same [] = refl
count_where_ext p q same (x ∷ xs) = rw (same x, count_where_ext p q same xs) refl

public-is_shared : (v : Visibility) → is_public v ≡ true → is_shared v ≡ true
public-is_shared private h = absurd (cc)
public-is_shared colleagues h = refl
public-is_shared public h = refl

and_true : (b : Bool) → (b && true) ≡ b
and_true true = refl
and_true false = refl

swap_and : (a b c : Bool) → (a && (b && c)) ≡ ((b && a) && c)
swap_and true b c = ap (λ x. x && c) (sym (and_true b))
swap_and false true c = refl
swap_and false false c = refl

never : (a b : Bool) → false ≡ (a && (b && false))
never true true = refl
never true false = refl
never false b = refl

-- What is offered to the viewer of the public lots of an owner is what is in its storefront.
offered_public :
    (viewer : ℕ) (owner : ℕ) (businesses : List Business) (lot : InventoryLot)
    → exists (λ (b : Business). b.id == owner && is_active_business b) businesses ≡ true
    → (owner == viewer) ≡ false
    → (is_public_of owner lot && is_offered_to viewer businesses lot) ≡ is_in_storefront owner lot
offered_public viewer owner businesses lot owner_active other =
    elim (Bool-cases (lot.business == owner)) [
      | inr foreign ↦ rw foreign refl
      | inl own ↦
          let same : owner ≡ lot.business = ground arith in
          let theirs : owner_is_active businesses lot ≡ true =
            subst
              (λ i. exists (λ (b : Business). b.id == i && is_active_business b) businesses ≡ true)
              same owner_active in
          let foreign : (lot.business == viewer) ≡ false =
            subst (λ i. (i == viewer) ≡ false) same other in
          elim (Bool-cases (is_public lot.visibility)) [
            | inr hidden ↦
                rw (own, hidden) (never (is_none lot.archived_at) (is_on_offer lot.status))
            | inl shown ↦
                rw (own, shown, public-is_shared lot.visibility shown, theirs, foreign) refl
          ]
    ]

-- For an active viewer and another business that is active, the public lots of that business on the
-- viewer's marketplace are exactly the lots of its storefront: of every kind of lot there are as many
-- there as here, however the two pages sort them.
pub marketplace_lots_for-storefront :
    (updated_at : ℕ → ℕ) (viewer : Business) (owner : ℕ) (businesses : List Business)
    (lots : List InventoryLot)
    → is_active_business viewer ≡ true
    → exists (λ (b : Business). b.id == owner && is_active_business b) businesses ≡ true
    → (owner == viewer.id) ≡ false
    → (kind : InventoryLot → Bool)
    → count_where
        (λ lot. is_public_of owner lot && kind lot)
        (marketplace_lots_for updated_at (some viewer) businesses lots)
      ≡ count_where kind (public_catalog_lots updated_at owner lots)
unfolding marketplace_lots_for public_catalog_lots
marketplace_lots_for-storefront updated_at viewer owner businesses lots active owner_active other
      kind =
    let offered = is_offered_to viewer.id businesses in
    let shown = λ (lot : InventoryLot). is_public_of owner lot && kind lot in
    rw active (
      count_where-order_by (is_listed_before updated_at) shown (where_ offered lots)
      ∙ (count_where-where_ shown offered lots
          ∙ (count_where_ext (λ lot. offered lot && shown lot)
                (λ lot. is_in_storefront owner lot && kind lot)
                (λ lot.
                  swap_and (offered lot) (is_public_of owner lot) (kind lot)
                  ∙ ap (λ b. b && kind lot)
                      (offered_public viewer.id owner businesses lot owner_active other))
                lots
              ∙ (sym (count_where-where_ kind (is_in_storefront owner) lots)
                  ∙ sym (
                      count_where-order_by (is_shown_before updated_at) kind
                        (where_ (is_in_storefront owner) lots))))))
