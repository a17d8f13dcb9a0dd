-- ===== src/Examples/Amounts.antt =====
-- Amounts of internal/money/money.go at concrete inputs.
use Prim.Native.Char.{code}
use sethu_care.Prelude.{◌≡◌, refl, true, [], ◌∷◌, String, arith, ◌+◌, ◌*◌, leb, if◌then◌else◌}
use sethu_care.Money.{
  pos, negsuc, Chars, amount, sub_paise, overflow, total_of, signed, max_int64, from_rupees,
  parse_signed, parse_unsigned, parse_int, trim_space, trim_left, trim_right, cut, rupees,
  magnitude, decimal, emit,
}
use sethu_care.Money.Bounds.{total_of-exact}
use sethu_care.Money.Roundtrip.{from_rupees-rupees}

abbrev codes : String → Chars
codes String.[] = []
codes (String.◌∷◌ c s) = code c ∷ codes s

total_of-exact_example : total_of true 92233720368547758 8 ≡ (
    if leb (92233720368547758 * 100 + 8) max_int64
    then amount (signed true (pos (92233720368547758 * 100 + 8)))
    else overflow)
total_of-exact_example = total_of-exact true 92233720368547758 8 (omega arith) (omega arith)

from_rupees-rupees_example : from_rupees (rupees (negsuc 24999)) ≡ amount (negsuc 24999)
from_rupees-rupees_example = from_rupees-rupees (negsuc 24999) (omega arith)

printed : rupees (negsuc 24999) ≡ codes "-250.00"
unfolding rupees magnitude decimal emit
printed = refl

read : from_rupees (codes " 499.9 ") ≡ amount (pos 49990)
unfolding from_rupees parse_signed parse_unsigned parse_int trim_space trim_left trim_right cut
    total_of
read = refl

too_fine : from_rupees (codes "1.005") ≡ sub_paise
unfolding from_rupees parse_signed parse_unsigned parse_int trim_space trim_left trim_right cut
    total_of
too_fine = refl

too_big : from_rupees (codes "92233720368547758.08") ≡ overflow
unfolding from_rupees parse_signed parse_unsigned parse_int trim_space trim_left trim_right cut
    total_of
too_big = refl
