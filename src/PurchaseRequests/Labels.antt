-- ===== src/PurchaseRequests/Labels.antt =====
-- The Persian texts of the notifications of apps/purchase_requests/services.py, as code points.
use sanga.Common.{[], ◌∷◌}
use sanga.Common.Text.{Text}

abbrev pub new_offer_title : Text
new_offer_title =
    1662 ∷ 1740 ∷ 1588 ∷ 1606 ∷ 1607 ∷ 1575 ∷ 1583 ∷ 32 ∷ 1582 ∷ 1589 ∷ 1608 ∷ 1589 ∷ 1740 ∷ 32
    ∷ 1580 ∷ 1583 ∷ 1740 ∷ 1583 ∷ []

abbrev pub on_request : Text
on_request = 32 ∷ 1585 ∷ 1608 ∷ 1740 ∷ 32 ∷ 171 ∷ []

abbrev pub offered_word : Text
offered_word =
    187 ∷ 32 ∷ 1662 ∷ 1740 ∷ 1588 ∷ 1606 ∷ 1607 ∷ 1575 ∷ 1583 ∷ 32 ∷ 1583 ∷ 1575 ∷ 1583 ∷ 46 ∷ []

abbrev pub accepted_title : Text
accepted_title =
    1662 ∷ 1740 ∷ 1588 ∷ 1606 ∷ 1607 ∷ 1575 ∷ 1583 ∷ 32 ∷ 1588 ∷ 1605 ∷ 1575 ∷ 32 ∷ 1662 ∷ 1584
    ∷ 1740 ∷ 1585 ∷ 1601 ∷ 1578 ∷ 1607 ∷ 32 ∷ 1588 ∷ 1583 ∷ []

abbrev pub rejected_title : Text
rejected_title =
    1662 ∷ 1740 ∷ 1588 ∷ 1606 ∷ 1607 ∷ 1575 ∷ 1583 ∷ 32 ∷ 1588 ∷ 1605 ∷ 1575 ∷ 32 ∷ 1585 ∷ 1583 ∷ 32
    ∷ 1588 ∷ 1583 ∷ []

abbrev pub your_offer_on : Text
your_offer_on =
    32 ∷ 1662 ∷ 1740 ∷ 1588 ∷ 1606 ∷ 1607 ∷ 1575 ∷ 1583 ∷ 32 ∷ 1588 ∷ 1605 ∷ 1575 ∷ 32 ∷ 1585 ∷ 1608
    ∷ 1740 ∷ 32 ∷ 171 ∷ []

abbrev pub object_mark : Text
object_mark = 187 ∷ 32 ∷ 1585 ∷ 1575 ∷ 32 ∷ []

abbrev pub accepted_verb : Text
accepted_verb = 1662 ∷ 1584 ∷ 1740 ∷ 1585 ∷ 1601 ∷ 1578 ∷ []

abbrev pub rejected_verb : Text
rejected_verb = 1585 ∷ 1583 ∷ 32 ∷ 1705 ∷ 1585 ∷ 1583 ∷ []

abbrev pub full_stop : Text
full_stop = 46 ∷ []
