-- ===== src/Slug/Tests.antt =====
-- Slugs on small tables.
use sanga.Common.{◌≡◌, refl, some, List, [], ◌∷◌}
use sanga.Common.Text.{Text, codes, show_fuel}
use sanga.Slug.Search.{candidate, next_slug, new_slug}
use sanga.Slug.Termination.{IsFirst, new_slug-IsFirst}

abbrev slugs : List Text
slugs = codes "sanga" ∷ codes "business" ∷ codes "sanga-2" ∷ []

third : new_slug (codes "sanga") (codes "business") slugs ≡ some (codes "sanga-3")
unfolding new_slug next_slug candidate show_fuel
third = refl

-- A name of which `slugify` leaves nothing.
fallback : new_slug [] (codes "business") slugs ≡ some (codes "business-2")
unfolding new_slug next_slug candidate show_fuel
fallback = refl

new_slug-IsFirst_example :
    (slug : Text) × (new_slug (codes "sanga") (codes "business") slugs ≡ some slug)
    × IsFirst (codes "sanga") 1 slugs slug
new_slug-IsFirst_example = new_slug-IsFirst (codes "sanga") (codes "business") slugs
