-- ===== src/Inventory/Tests.antt =====
-- The transition of a lot that is sold in part, eight and thirty days after its confirmation.
use sanga.Common.{◌≡◌, refl, some, none, [], false, arith}
use sanga.Common.Int.{pos, ◌+ℤ◌, ◌*ℤ◌}
use sanga.Inventory.{
  InventoryLot, Visibility, partially_sold, needs_confirmation, available, hidden, mark_confirmed,
}
use sanga.Inventory.Freshness.{
  FreshnessPolicy, evaluate_freshness, apply_freshness_transition, apply_freshness_transition_later,
}

abbrev policy : FreshnessPolicy
policy = record { confirm_after_days = pos 7; stale_after_days = pos 14; hide_after_days = pos 21 }

abbrev lot : InventoryLot
lot = record {
  id = 60;
  business = 1;
  product = 1;
  warehouse = 1;
  lot_code = [];
  status = partially_sold;
  visibility = Visibility.public;
  available_sqm = pos 1000;
  original_sqm = pos 2000;
  slab_count = none;
  bundle_count = none;
  length_cm = none;
  width_cm = none;
  thickness_mm = none;
  grade = [];
  processing_type = [];
  min_sale_qty = pos 0;
  ready_for_loading_at = none;
  photographed_at = none;
  inventory_confirmed_at = some 0;
  offer_expires_at = none;
  description = [];
  defect_notes = [];
  is_featured = false;
  is_urgent_sale = false;
  archived_at = none;
}

after_a_week : (apply_freshness_transition policy 691200 lot).status ≡ needs_confirmation
unfolding apply_freshness_transition evaluate_freshness ◌+ℤ◌ ◌*ℤ◌
after_a_week = refl

after_a_month : (apply_freshness_transition policy 2592000 lot).status ≡ hidden
unfolding apply_freshness_transition evaluate_freshness ◌+ℤ◌ ◌*ℤ◌
after_a_month = refl

-- A lot that was sold in part is available once it is confirmed again.
confirmed_again :
    (mark_confirmed 691200 (apply_freshness_transition policy 691200 lot)).status ≡ available
unfolding apply_freshness_transition evaluate_freshness ◌+ℤ◌ ◌*ℤ◌ mark_confirmed
confirmed_again = refl

apply_freshness_transition_later_example :
    apply_freshness_transition policy 2592000 (apply_freshness_transition policy 691200 lot)
    ≡ apply_freshness_transition policy 2592000 lot
apply_freshness_transition_later_example =
    apply_freshness_transition_later policy 691200 2592000 lot (omega arith)
