-- ===== src/Businesses/Permissions.antt =====
-- apps/businesses/permissions.py: the capability codes and what each role has by default.
use sanga.Common.{ℕ, Bool, false, List, [], ◌∷◌, ◌==◌, ◌||◌}

pub data Capability : Type 0 where
  inventory_view inventory_create inventory_edit inventory_quantity : Capability
  inventory_media inventory_publish inventory_confirm : Capability
  prices_view prices_edit inquiries_view inquiries_respond : Capability
  customers_manage catalog_manage team_manage business_settings : Capability
  analytics_view audit_view ledger_view ledger_manage : Capability

-- The place of a capability in `ALL_CAPABILITIES`, by which two codes are compared.
abbrev pub index : Capability → ℕ
index inventory_view = 0
index inventory_create = 1
index inventory_edit = 2
index inventory_quantity = 3
index inventory_media = 4
index inventory_publish = 5
index inventory_confirm = 6
index prices_view = 7
index prices_edit = 8
index inquiries_view = 9
index inquiries_respond = 10
index customers_manage = 11
index catalog_manage = 12
index team_manage = 13
index business_settings = 14
index analytics_view = 15
index audit_view = 16
index ledger_view = 17
index ledger_manage = 18

-- `capability in permissions`
abbrev pub contains : Capability → List Capability → Bool
contains c [] = false
contains c (d ∷ ds) = index d == index c || contains c ds

abbrev pub all_capabilities : List Capability
all_capabilities =
    inventory_view ∷ inventory_create ∷ inventory_edit ∷ inventory_quantity ∷ inventory_media
    ∷ inventory_publish ∷ inventory_confirm ∷ prices_view ∷ prices_edit ∷ inquiries_view
    ∷ inquiries_respond ∷ customers_manage ∷ catalog_manage ∷ team_manage ∷ business_settings
    ∷ analytics_view ∷ audit_view ∷ ledger_view ∷ ledger_manage ∷ []

-- `BusinessMembership.Role`
pub data Role : Type 0 where
  owner manager staff viewer : Role

abbrev pub staff_defaults : List Capability
staff_defaults =
    inventory_view ∷ inventory_create ∷ inventory_edit ∷ inventory_quantity ∷ inventory_media
    ∷ inventory_publish ∷ inventory_confirm ∷ prices_view ∷ inquiries_view ∷ inquiries_respond
    ∷ customers_manage ∷ catalog_manage ∷ ledger_view ∷ []

abbrev pub viewer_defaults : List Capability
viewer_defaults = inventory_view ∷ analytics_view ∷ inquiries_view ∷ []

-- `ROLE_DEFAULTS`, and `defaults_for_role`, whose fallback no value of `Role` reaches.
abbrev pub defaults_for_role : Role → List Capability
defaults_for_role owner = all_capabilities
defaults_for_role manager = all_capabilities
defaults_for_role staff = staff_defaults
defaults_for_role viewer = viewer_defaults
