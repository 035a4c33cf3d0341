-- ===== src/Persian/Tests.antt =====
-- Phone numbers and search terms on small inputs.
use sanga.Common.{◌≡◌, refl}
use sanga.Common.Text.{codes, strip, lstrip}
use sanga.Persian.{
  normalize_digits, normalize_phone, drop_country_code, add_leading_zero, normalize_persian_text,
}
use sanga.Persian.Phone.{AreDigits, normalize_phone_idem}

normalize_phone_country_code : normalize_phone (codes "+98 912-345 6789") ≡ codes "09123456789"
unfolding normalize_phone normalize_digits drop_country_code add_leading_zero
normalize_phone_country_code = refl

-- "۹۱۲۳۴۵۶۷۸۹" has no zero in front.
normalize_phone_short : normalize_phone (codes "۹۱۲۳۴۵۶۷۸۹") ≡ codes "09123456789"
unfolding normalize_phone normalize_digits drop_country_code add_leading_zero
normalize_phone_short = refl

normalize_persian_text_spaces : normalize_persian_text (codes " a  b ") ≡ codes "a b"
unfolding normalize_persian_text strip lstrip
normalize_persian_text_spaces = refl

normalize_phone_idem_example :
    AreDigits (normalize_phone (codes "+98 912-345 6789"))
    × (normalize_phone (normalize_phone (codes "+98 912-345 6789"))
        ≡ normalize_phone (codes "+98 912-345 6789"))
normalize_phone_idem_example = normalize_phone_idem (codes "+98 912-345 6789")
