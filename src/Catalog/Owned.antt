-- ===== src/Catalog/Owned.antt =====
-- What `set_catalog_lots` (apps/catalog/services.py) leaves in the table of items.
use sanga.Common.{
  ℕ, suc, ◌==◌, ◌≡◌, refl, ◌∙◌, ap, sym, subst, inl, inr, Bool, true, Option, some, List, [], ◌∷◌,
  ◌++◌, ◌&&◌, not, length, map, exists, where_, is_none, arith, All, All-map, Bool-cases, ==_refl,
  AreKeyed, append-nil, where_-append,
}
use sanga.Common.Text.{Text}
use sanga.Common.Results.{ok, >>=-eq-ok, raise_if-eq-ok, or_raise-eq-ok}
use sanga.Businesses.{Membership}
use sanga.Inventory.{InventoryLot}
use sanga.Catalog.{CustomCatalog, CustomCatalogItem}
use sanga.Catalog.Services.{
  foreign, invalid_lot, foreign_lot, Uuid, Catalogs, require_catalog_manage, given_ids, read_all,
  is_attachable, owned_lots, count_distinct, keep_valid, number_items, is_item_of, replace_items,
  set_catalog_lots,
}
use sanga.Catalog.Items.{is_owned, read_all-IsRead, keep_valid-owned, keep_valid-AreKeyed}

abbrev pub item_lot : CustomCatalogItem → ℕ
item_lot item = item.lot

-- The lots of a catalog, in the order of its items in the table.
abbrev pub lots_of : ℕ → List CustomCatalogItem → List ℕ
lots_of catalog items = map item_lot (where_ (is_item_of catalog) items)

-- The items of the other catalogs.
abbrev pub others_of : ℕ → List CustomCatalogItem → List CustomCatalogItem
others_of catalog = where_ (λ item. not (is_item_of catalog item))

-- A lot of the business that is in the table and not archived.
abbrev pub is_own_lot : ℕ → List InventoryLot → ℕ → Bool
is_own_lot business lots i =
    exists
      (λ (lot : InventoryLot). lot.id == i && (lot.business == business && is_none lot.archived_at))
      lots

where_-numbered :
    (catalog index : ℕ) (ids : List ℕ)
    → (lots_of catalog (number_items catalog index ids) ≡ ids)
      × (others_of catalog (number_items catalog index ids) ≡ [])
unfolding number_items
where_-numbered catalog index [] = (refl, refl)
where_-numbered catalog index (i ∷ ids) =
    let rest = where_-numbered catalog (suc index) ids in
    (rw (==_refl catalog) (ap (λ xs. i ∷ xs) rest.0), rw (==_refl catalog) rest.1)

where_-others :
    (catalog : ℕ) (items : List CustomCatalogItem)
    → (where_ (is_item_of catalog) (others_of catalog items) ≡ [])
      × (others_of catalog (others_of catalog items) ≡ others_of catalog items)
where_-others catalog [] = (refl, refl)
where_-others catalog (item ∷ items) =
    let rest = where_-others catalog items in
    elim (Bool-cases (item.catalog == catalog)) [
      | inl own ↦ rw own rest
      | inr other ↦ rw (other) (rw (other) (rest.0, ap (λ xs. item ∷ xs) rest.1))
    ]

replace_items-lots_of :
    (catalog : ℕ) (ids : List ℕ) (items : List CustomCatalogItem)
    → (lots_of catalog (replace_items catalog ids items) ≡ ids)
      × (others_of catalog (replace_items catalog ids items) ≡ others_of catalog items)
unfolding replace_items
replace_items-lots_of catalog ids items =
    let numbered = where_-numbered catalog 0 ids in
    let others = where_-others catalog items in
    let new = number_items catalog 0 ids in
    (
      ap (map item_lot) (
            where_-append (is_item_of catalog) new (others_of catalog items)
            ∙ ap (λ xs. where_ (is_item_of catalog) new ++ xs) others.0
            ∙ append-nil _)
          ∙ numbered.0,
      where_-append (λ item. not (is_item_of catalog item)) new (others_of catalog items)
          ∙ ap (λ xs. xs ++ others_of catalog (others_of catalog items)) numbered.1
          ∙ others.1,
    )

owned_lots-is_own_lot :
    (business : ℕ) (requested : List (Text × ℕ)) (lots : List InventoryLot) (i : ℕ)
    → is_owned (owned_lots business requested lots) i ≡ true
    → is_own_lot business lots i ≡ true
unfolding owned_lots
owned_lots-is_own_lot business requested [] i h = h
owned_lots-is_own_lot business requested (lot ∷ lots) i h =
    elim (Bool-cases (is_attachable business requested lot)) [
      | inr out ↦
          let rest = owned_lots-is_own_lot business requested lots i (rw (owned_lots, out) at h) in
          ground arith
      | inl attached ↦
          let h' : is_owned (lot.id ∷ owned_lots business requested lots) i ≡ true =
            rw (owned_lots, attached) at h in
          elim (Bool-cases (lot.id == i)) [
            | inl here ↦ ground arith
            | inr miss ↦
                let rest = owned_lots-is_own_lot business requested lots i (rw miss at h') in
                ground arith
          ]
    ]

-- When reading a UUID that was printed gives it back, and `set_catalog_lots` has returned, every lot of
-- the catalog is a lot of the catalog's business that is there and not archived, no lot is in the
-- catalog twice, and the items of the other catalogs are as they were.
pub set_catalog_lots-is_own_lot :
    (uuid : Uuid) (c : CustomCatalog) (m : Option Membership) (lot_ids : List (Option Text))
    (lots : List InventoryLot) (before after : Catalogs)
    → ((i : ℕ) → uuid.read (uuid.show i) ≡ some i)
    → set_catalog_lots uuid c m lot_ids lots before ≡ ok after
    → All (λ i. is_own_lot c.business lots i ≡ true) (lots_of c.id after.items)
      × AreKeyed (λ (i : ℕ). i) (lots_of c.id after.items)
      × (others_of c.id after.items ≡ others_of c.id before.items)
unfolding set_catalog_lots
set_catalog_lots-is_own_lot uuid c m lot_ids lots before after reads h =
    let (member, g, h) = >>=-eq-ok (require_catalog_manage m) _ h in
    let (g, h) = raise_if-eq-ok (not (c.business == member.business)) foreign _ h in
    let (requested, found, h) =
      or_raise-eq-ok (read_all uuid (given_ids lot_ids)) invalid_lot _ h in
    let owned = owned_lots c.business requested lots in
    let (g, h) = raise_if-eq-ok (not (length owned == count_distinct requested)) foreign_lot _ h in
    let ids = keep_valid uuid owned [] requested in
    let read = read_all-IsRead uuid (given_ids lot_ids) requested found in
    let replaced = replace_items-lots_of c.id ids before.items in
    let same : replace_items c.id ids before.items ≡ after.items = cc in
    subst
      (λ items.
        All (λ i. is_own_lot c.business lots i ≡ true) (lots_of c.id items)
        × AreKeyed (λ (i : ℕ). i) (lots_of c.id items)
        × (others_of c.id items ≡ others_of c.id before.items))
      same
      (
        subst (All (λ i. is_own_lot c.business lots i ≡ true)) (sym replaced.0) (
            All-map (λ i own. owned_lots-is_own_lot c.business requested lots i own) ids
              (keep_valid-owned uuid reads owned [] requested read)),
        subst (AreKeyed (λ (i : ℕ). i)) (sym replaced.0)
            (keep_valid-AreKeyed uuid reads owned [] requested read),
        replaced.1,
      )
