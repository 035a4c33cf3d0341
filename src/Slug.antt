-- ===== src/Slug.antt =====
-- The slug of a new row: the loop of `Business.save` (apps/businesses/models.py) and `Product.save`
-- (apps/inventory/models.py), for what `slugify` makes of the name.
mod Search
mod Termination
mod Tests
unfoldable pub use Search.*
pub use Termination.*
