-- ===== src/Inventory/Media.antt =====
-- The media of a lot: `add_lot_media` (apps/inventory/services.py) and `LotMedia` (models.py).
use sanga.Common.{
  ℕ, ◌==◌, Bool, true, false, Option, some, List, [], ◌∷◌, ◌&&◌, ◌||◌, not, if◌then◌else◌, exists,
  count_where, update_where, ltb, length, is_none,
}
use mathlib.Core.List.{reverse}
use sanga.Common.Text.{Text, codes, strip}
use sanga.Common.Results.{Result, ok, err, ◌>>=◌, ◌>>◌, raise_if}
use sanga.Persian.{starts_with}
use sanga.Businesses.{Membership}
use sanga.Businesses.Permissions.{inventory_media}
use sanga.Inventory.{InventoryLot}
use sanga.Inventory.Table.{InventoryError, require, check_lot, save_fields}

-- `LotMedia.Kind`
pub data MediaKind : Type 0 where
  image video : MediaKind

pub record LotMedia : Type 0 where
  pub id : ℕ
  pub lot : ℕ
  pub kind : MediaKind
  pub file : ℕ
  pub caption : Text
  pub sort_order : ℕ
  pub is_primary : Bool

-- An uploaded file: its place, and what the browser says of it.
pub record Upload : Type 0 where
  pub file : ℕ
  pub name : Text
  pub content_type : Text

-- `s.endswith(suffixes)`
abbrev pub ends_with_any : List Text → Text → Bool
ends_with_any [] s = false
ends_with_any (e ∷ es) s = starts_with (reverse e) (reverse s) || ends_with_any es s

abbrev pub video_suffixes : List Text
video_suffixes = codes ".mp4" ∷ codes ".mov" ∷ codes ".webm" ∷ []

abbrev pub media_suffixes : List Text
media_suffixes =
    codes ".jpg" ∷ codes ".jpeg" ∷ codes ".png" ∷ codes ".webp" ∷ codes ".gif" ∷ video_suffixes

-- Whether the upload is taken; `lower` is `str.lower`.
unfoldable pub is_allowed : (Text → Text) → Upload → Bool
is_allowed lower u =
    starts_with (codes "image/") u.content_type
    || starts_with (codes "video/") u.content_type
    || ends_with_any media_suffixes (lower u.name)

unfoldable pub media_kind : (Text → Text) → Upload → MediaKind
media_kind lower u =
    if starts_with (codes "video/") u.content_type || ends_with_any video_suffixes (lower u.name)
    then video
    else image

abbrev pub is_image : MediaKind → Bool
is_image image = true
is_image video = false

abbrev pub of_lot : ℕ → LotMedia → Bool
of_lot lot m = m.lot == lot

abbrev pub primary_of : ℕ → LotMedia → Bool
primary_of lot m = of_lot lot m && m.is_primary

-- The errors that a media has besides those of lots.
pub data MediaError : Type 0 where
  lot_error : InventoryError → MediaError
  unsupported integrity_error data_error : MediaError

abbrev pub lift {ℓ} : {A : Type ℓ} → Result InventoryError A → Result MediaError A
lift (ok a) = ok a
lift (err e) = err (lot_error e)

-- `lot.media.filter(is_primary=True).update(is_primary=False)`
abbrev pub clear_primary : ℕ → List LotMedia → List LotMedia
clear_primary lot =
    update_where (primary_of lot) (λ (m : LotMedia). record m { is_primary = false })

-- The media that are left, and whether the new one is primary.
unfoldable pub settle_primary : ℕ → Bool → List LotMedia → Bool × List LotMedia
settle_primary lot is_primary media =
    if is_primary || not (exists (primary_of lot) media)
    then (true, clear_primary lot media)
    else (is_primary, media)

unfoldable pub new_media : ℕ → MediaKind → Upload → Text → ℕ → Bool × List LotMedia → List LotMedia
new_media uuid kind upload caption lot (is_primary, media) =
    record {
      id = uuid;
      lot = lot;
      kind = kind;
      file = upload.file;
      caption = strip caption;
      sort_order = count_where (of_lot lot) media;
      is_primary = is_primary;
    }
    ∷ media

-- The date of the first photograph; the lot may be gone.
unfoldable pub mark_photographed :
    ℕ → MediaKind → InventoryLot → List InventoryLot → Result InventoryError (List InventoryLot)
mark_photographed today kind lot lots =
    if is_none lot.photographed_at && is_image kind
    then save_fields lot.id (λ (row : InventoryLot). record row { photographed_at = some today })
        lots
    else ok lots

-- `add_lot_media`
unfoldable pub add_lot_media :
    (lower : Text → Text) (uuid today : ℕ)
    → InventoryLot
    → Option Membership
    → Upload
    → (is_primary : Bool) (caption : Text) → List InventoryLot
    → List LotMedia
    → Result MediaError (List InventoryLot × List LotMedia)
add_lot_media lower uuid today lot m upload is_primary caption lots media = do
  member ← lift (require m inventory_media)
  lift (check_lot lot member)
  raise_if (not (is_allowed lower upload)) unsupported
  raise_if (ltb 255 (length (strip caption))) data_error
  raise_if (exists (λ (row : LotMedia). row.id == uuid) media) integrity_error
  marked ← lift (mark_photographed today (media_kind lower upload) lot lots)
  ok (
    marked,
    new_media uuid (media_kind lower upload) upload caption lot.id
        (settle_primary lot.id is_primary media),
  )
