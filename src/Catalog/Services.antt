-- ===== src/Catalog/Services.antt =====
-- apps/catalog/services.py: creating a catalog, its lots, and its views. The identifiers of lots come as
-- texts; how a UUID is read and printed is Python's and Django's.
use sanga.Common.{
  ℕ, suc, ◌+◌, ◌==◌, Bool, true, false, Option, none, some, List, [], ◌∷◌, ◌++◌, ◌&&◌, ◌||◌, not,
  ltb, length, map, if◌then◌else◌, exists, where_, update_where, is_none,
}
use sanga.Common.Text.{Text, strip, text_eq}
use sanga.Common.Results.{Result, ok, ◌>>=◌, ◌>>◌, raise_if, or_raise}
use sanga.Businesses.{Membership, lacks_capability}
use sanga.Businesses.Permissions.{catalog_manage}
use sanga.Inventory.{InventoryLot}
use sanga.Catalog.{CustomCatalog, CustomCatalogItem}

-- The messages of `CatalogError`, and the exceptions of the database that pass through.
pub data CatalogError : Type 0 where
  may_not_manage foreign title_too_short invalid_lot foreign_lot : CatalogError
  integrity_error data_error : CatalogError

-- Reading and printing a UUID.
pub record Uuid : Type 0 where
  pub read : Text → Option ℕ
  pub show : ℕ → Text

-- The tables that the services write.
pub record Catalogs : Type 0 where
  pub catalogs : List CustomCatalog
  pub items : List CustomCatalogItem

-- `_require_catalog_manage`, with the membership that passed.
unfoldable pub require_catalog_manage : Option Membership → Result CatalogError Membership
unfolding lacks_capability
require_catalog_manage m = do
  raise_if (lacks_capability m catalog_manage) may_not_manage
  or_raise m may_not_manage

-- The identifiers that are given.
abbrev pub given_ids : List (Option Text) → List Text
given_ids [] = []
given_ids (none ∷ ids) = given_ids ids
given_ids (some t ∷ ids) = t ∷ given_ids ids

-- The texts with the identifiers that they spell; one that spells none refuses all.
unfoldable pub read_all : Uuid → List Text → Option (List (Text × ℕ))
read_all uuid [] = some []
read_all uuid (t ∷ ts) = elim (uuid.read t) [
  | none ↦ none
  | some i ↦ elim (read_all uuid ts) [ none ↦ none | some rest ↦ some ((t, i) ∷ rest) ]
]

abbrev pub has_number : ℕ → Text × ℕ → Bool
has_number i (t, j) = j == i

-- The lots of the business among the requested ones that are not archived.
abbrev pub is_attachable : ℕ → List (Text × ℕ) → InventoryLot → Bool
is_attachable business requested lot =
    lot.business == business && (exists (has_number lot.id) requested && is_none lot.archived_at)

abbrev pub lot_id : InventoryLot → ℕ
lot_id lot = lot.id

unfoldable pub owned_lots : ℕ → List (Text × ℕ) → List InventoryLot → List ℕ
owned_lots business requested lots = map lot_id (where_ (is_attachable business requested) lots)

abbrev pub is_text : Text → Text × ℕ → Bool
is_text t (s, i) = text_eq s t

-- `len({str(lot_id) for lot_id in requested})`
abbrev pub count_distinct : List (Text × ℕ) → ℕ
count_distinct [] = 0
count_distinct ((t, i) ∷ rest) = (if exists (is_text t) rest then 0 else 1) + count_distinct rest

-- `key in owned_ids`
abbrev pub is_shown : Uuid → List ℕ → Text → Bool
is_shown uuid owned t = exists (λ i. text_eq (uuid.show i) t) owned

-- The loop that keeps the order and drops what was seen.
unfoldable pub keep_valid : Uuid → List ℕ → List Text → List (Text × ℕ) → List ℕ
keep_valid uuid owned seen [] = []
keep_valid uuid owned seen ((t, i) ∷ rest) =
    let fresh = keep_valid uuid owned (t ∷ seen) rest in
    let skipped = keep_valid uuid owned seen rest in
    if is_shown uuid owned t && not (exists (text_eq t) seen) then i ∷ fresh else skipped

-- `[CustomCatalogItem(...) for index, lot_id in enumerate(valid_ids)]`
unfoldable pub number_items : ℕ → ℕ → List ℕ → List CustomCatalogItem
number_items catalog index [] = []
number_items catalog index (i ∷ ids) =
    record { catalog = catalog; lot = i; sort_order = index; note = [] }
    ∷ number_items catalog (suc index) ids

abbrev pub is_item_of : ℕ → CustomCatalogItem → Bool
is_item_of catalog item = item.catalog == catalog

-- The items after the old ones of the catalog are deleted and the new ones inserted.
unfoldable pub replace_items : ℕ → List ℕ → List CustomCatalogItem → List CustomCatalogItem
replace_items catalog ids items =
    number_items catalog 0 ids ++ where_ (λ item. not (is_item_of catalog item)) items

-- `set_catalog_lots`
unfoldable pub set_catalog_lots :
    Uuid
    → CustomCatalog
    → Option Membership
    → List (Option Text)
    → List InventoryLot
    → Catalogs
    → Result CatalogError Catalogs
set_catalog_lots uuid c m lot_ids lots tables = do
  member ← require_catalog_manage m
  raise_if (not (c.business == member.business)) foreign
  requested ← or_raise (read_all uuid (given_ids lot_ids)) invalid_lot
  raise_if (not (length (owned_lots c.business requested lots) == count_distinct requested))
      foreign_lot
  ok (record tables {
    items =
        replace_items c.id (keep_valid uuid (owned_lots c.business requested lots) [] requested)
          tables.items;
  })

-- The row that `create_custom_catalog` inserts.
abbrev pub new_catalog :
    ℕ → Text → ℕ → (title customer_name custom_message : Text) → Option ℕ → CustomCatalog
new_catalog uuid token business title customer_name custom_message expires_at = record {
  id = uuid;
  business = business;
  title = title;
  customer_name = strip customer_name;
  custom_message = strip custom_message;
  share_token = token;
  expires_at = expires_at;
  is_active = true;
  view_count = 0;
  first_viewed_at = none;
  last_viewed_at = none;
}

-- `CustomCatalog.objects.create(...)`
unfoldable pub create_catalog : CustomCatalog → Catalogs → Result CatalogError Catalogs
create_catalog c tables = do
  raise_if (ltb 200 (length c.title) || ltb 150 (length c.customer_name)) data_error
  raise_if
      (exists (λ (row : CustomCatalog). row.id == c.id || text_eq row.share_token c.share_token)
        tables.catalogs)
      integrity_error
  ok (record tables { catalogs = c ∷ tables.catalogs })

abbrev pub is_nothing : List (Option Text) → Bool
is_nothing [] = true
is_nothing (i ∷ ids) = false

-- `create_custom_catalog`
unfoldable pub create_custom_catalog :
    Uuid
    → (uuid : ℕ) (token : Text) (business : ℕ) → Option Membership
    → (title customer_name custom_message : Text) → List (Option Text)
    → Option ℕ
    → List InventoryLot
    → Catalogs
    → Result CatalogError (CustomCatalog × Catalogs)
create_custom_catalog uuids uuid token business m title customer_name custom_message lot_ids
      expires_at lots tables =
    do
      member ← require_catalog_manage m
      raise_if (not (member.business == business)) foreign
      raise_if (ltb (length (strip title)) 2) title_too_short
      created ←
          create_catalog
            (new_catalog uuid token business (strip title) customer_name custom_message expires_at)
            tables
      after ←
          (if is_nothing lot_ids
            then ok created
            else set_catalog_lots uuids
                (new_catalog uuid token business (strip title) customer_name custom_message
                  expires_at)
                m lot_ids lots created)
      ok (
        new_catalog uuid token business (strip title) customer_name custom_message expires_at,
        after,
      )

-- `record_catalog_view`, at the time `now`; the numbers written are the object's.
unfoldable pub record_catalog_view : ℕ → CustomCatalog → List CustomCatalog → List CustomCatalog
record_catalog_view now c =
    update_where (λ (row : CustomCatalog). row.id == c.id)
      (λ (row : CustomCatalog). record row {
        view_count = c.view_count + 1;
        first_viewed_at = some (elim c.first_viewed_at [ none ↦ now | some at ↦ at ]);
        last_viewed_at = some now;
      })
