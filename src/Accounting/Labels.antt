-- ===== src/Accounting/Labels.antt =====
-- The Persian texts of apps/accounting (models.py, services.py) by their code points.
use sanga.Common.{[], ◌∷◌}
use sanga.Common.Text.{Text}

-- `Type.SALE`, also the side of a default description
abbrev pub sale_label : Text
sale_label = 0x641 ∷ 0x631 ∷ 0x648 ∷ 0x634 ∷ []

-- `Type.PURCHASE`, also the side of a default description
abbrev pub purchase_label : Text
purchase_label = 0x62e ∷ 0x631 ∷ 0x6cc ∷ 0x62f ∷ []

-- `Type.PAYMENT_RECEIVED`
abbrev pub payment_received_label : Text
payment_received_label = 0x62f ∷ 0x631 ∷ 0x6cc ∷ 0x627 ∷ 0x641 ∷ 0x62a ∷ []

-- `Type.PAYMENT_MADE`
abbrev pub payment_made_label : Text
payment_made_label = 0x67e ∷ 0x631 ∷ 0x62f ∷ 0x627 ∷ 0x62e ∷ 0x62a ∷ []

-- `Type.ADJUST_DEBIT`
abbrev pub adjust_debit_label : Text
adjust_debit_label =
    0x627 ∷ 0x635 ∷ 0x644 ∷ 0x627 ∷ 0x62d ∷ 0x20 ∷ 0x628 ∷ 0x62f ∷ 0x647 ∷ 0x6a9 ∷ 0x627 ∷ 0x631
    ∷ []

-- `Type.ADJUST_CREDIT`
abbrev pub adjust_credit_label : Text
adjust_credit_label =
    0x627 ∷ 0x635 ∷ 0x644 ∷ 0x627 ∷ 0x62d ∷ 0x20 ∷ 0x628 ∷ 0x633 ∷ 0x62a ∷ 0x627 ∷ 0x646 ∷ 0x6a9
    ∷ 0x627 ∷ 0x631 ∷ []

-- `Type.REVERSAL`
abbrev pub reversal_label : Text
reversal_label = 0x628 ∷ 0x631 ∷ 0x6af ∷ 0x634 ∷ 0x62a ∷ 0x20 ∷ 0x633 ∷ 0x646 ∷ 0x62f ∷ []

-- the words of a default description before the title of the request
abbrev pub based_on_offer : Text
based_on_offer =
    0x20 ∷ 0x628 ∷ 0x631 ∷ 0x20 ∷ 0x627 ∷ 0x633 ∷ 0x627 ∷ 0x633 ∷ 0x20 ∷ 0x67e ∷ 0x6cc ∷ 0x634
    ∷ 0x646 ∷ 0x647 ∷ 0x627 ∷ 0x62f ∷ 0x20 ∷ 0x67e ∷ 0x630 ∷ 0x6cc ∷ 0x631 ∷ 0x641 ∷ 0x62a ∷ 0x647
    ∷ 0x200c ∷ 0x634 ∷ 0x62f ∷ 0x647 ∷ 0x20 ∷ 0xab ∷ []

-- after the title
abbrev pub after_title : Text
after_title = 0xbb ∷ 0x20 ∷ 0xb7 ∷ 0x20 ∷ []

-- before the code of the lot
abbrev pub lot_word : Text
lot_word = 0x645 ∷ 0x62d ∷ 0x645 ∷ 0x648 ∷ 0x644 ∷ 0x647 ∷ 0x20 ∷ []

-- after the code of the lot
abbrev pub after_lot : Text
after_lot = 0x20 ∷ 0xb7 ∷ 0x20 ∷ []

-- after the quantity
abbrev pub square_metres : Text
square_metres = 0x20 ∷ 0x645 ∷ 0x62a ∷ 0x631 ∷ 0x645 ∷ 0x631 ∷ 0x628 ∷ 0x639 ∷ []

-- the words of a reversal before the label of the entry
abbrev pub reversal_of : Text
reversal_of =
    0x628 ∷ 0x631 ∷ 0x6af ∷ 0x634 ∷ 0x62a ∷ 0x20 ∷ 0x633 ∷ 0x646 ∷ 0x62f ∷ 0x20 ∷ 0xab ∷ []

-- before its date
abbrev pub dated : Text
dated = 0xbb ∷ 0x20 ∷ 0x645 ∷ 0x648 ∷ 0x631 ∷ 0x62e ∷ 0x20 ∷ []
