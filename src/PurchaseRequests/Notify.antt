-- ===== src/PurchaseRequests/Notify.antt =====
-- apps/purchase_requests/services.py: the notifications of an offer and of the decision on it.
use sanga.Common.{
  ℕ, suc, zero, ◌==◌, Bool, true, false, some, List, [], ◌∷◌, ◌++◌, ◌&&◌, if◌then◌else◌, where_,
  length,
}
use sanga.Common.Text.{Text, codes}
use sanga.Businesses.Permissions.{Role, owner, manager}
use sanga.Businesses.{Business, Membership, is_active_membership}
use sanga.Notifications.{Notification, general, notify_user}
use sanga.PurchaseRequests.{PurchaseRequest, PurchaseOffer}
use sanga.PurchaseRequests.Tables.{Market, Env}
use sanga.PurchaseRequests.Labels.{
  new_offer_title, on_request, offered_word, accepted_title, rejected_title, your_offer_on,
  object_mark, accepted_verb, rejected_verb, full_stop,
}

abbrev pub take : {A : Type 0} → ℕ → List A → List A
take zero xs = []
take (suc n) [] = []
take (suc n) (x ∷ xs) = x ∷ take n xs

abbrev pub leads : Role → Bool
leads owner = true
leads manager = true
leads _ = false

-- The members that are told: active owners and managers, the first five.
abbrev pub recipients : ℕ → List Membership → List Membership
recipients business rows = take 5 (
    where_
      (λ (m : Membership).
        m.business == business && (is_active_membership m.status && leads m.role))
      rows)

-- `notify_user` for each of them.
unfoldable pub notify_all :
    Env → ℕ → (title body link : Text) → List Membership → List Notification → List Notification
unfolding notify_user
notify_all env business title body link [] rows = rows
notify_all env business title body link (m ∷ ms) rows = notify_all env business title body link ms (
    notify_user (env.note_uuid (length ms)) env.now m.user (some business) general title body link
      rows)

-- The notifications of `submit_private_offer` to the buyer's leaders.
unfoldable pub notify_offer :
    Env → (seller : Business) (request : PurchaseRequest) → Market → List Notification
unfolding notify_all
notify_offer env seller request market =
    notify_all env request.business new_offer_title
      (seller.name ++ (on_request ++ (request.title ++ offered_word)))
      (codes "/app/purchase-requests/" ++ (env.uuid_text request.id ++ codes "/"))
      (recipients request.business market.memberships) market.notifications

-- `_notify_offer_decision`, to the seller's leaders.
unfoldable pub notify_offer_decision :
    Env → PurchaseOffer → PurchaseRequest → Business → Bool → Market → List Notification
unfolding notify_all
notify_offer_decision env offer request buyer accept market =
    notify_all env offer.seller_business (if accept then accepted_title else rejected_title)
      (buyer.name
        ++ (your_offer_on
            ++ (request.title
                ++ (object_mark
                    ++ ((if accept then accepted_verb else rejected_verb) ++ full_stop)))))
      (codes "/app/purchase-requests/network/" ++ (env.uuid_text request.id ++ codes "/"))
      (recipients offer.seller_business market.memberships) market.notifications
