-- ===== src/Contacts.antt =====
-- apps/contacts: a business's private contacts (models.py).
pub mod Services
pub mod Links
pub mod Requests
mod Tests
use sanga.Common.{ℕ, Bool, Option, List, ◌&&◌, ◌==◌, find_first}
use sanga.Common.Text.{Text}

pub record Contact : Type 0 where
  pub id : ℕ
  pub business : ℕ
  pub display_name : Text
  pub phone : Text
  pub address : Text
  pub notes : Text
  pub linked_business : Option ℕ
  pub is_active : Bool

-- `Contact.objects.select_for_update().get(pk=pk, business=business)`
unfoldable pub get_contact : ℕ → ℕ → List Contact → Option Contact
get_contact pk business = find_first (λ (c : Contact). c.id == pk && c.business == business)
