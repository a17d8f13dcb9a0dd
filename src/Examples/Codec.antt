-- ===== src/Examples/Codec.antt =====
-- A printer and a parser of lists of texts that satisfy what the preferences need of `JSON`.
use Prim.Native.Char.{Char, code}
use sethu_care.Prelude.{
  ◌≡◌, refl, ap, ◌∙◌, Bool, true, false, String, Option, none, some, List, [], ◌∷◌, map,
  if◌then◌else◌, ◌==◌,
}
use sethu_care.Preferences.{JsonValue, array, Json, IsJson}

abbrev close : Option (List String) → Option (List String)
close none = none
close (some ts) = some ("" ∷ ts)

abbrev push : Char → Option (List String) → Option (List String)
push c none = none
push c (some []) = none
push c (some (t ∷ ts)) = some (String.◌∷◌ c t ∷ ts)

abbrev is_end : Char → Bool
is_end c = code c == 46

-- Each character of a text has a mark before it, and the text a full stop behind it.
unfoldable print_text : String → String → String
print_text String.[] rest = String.◌∷◌ "." rest
print_text (String.◌∷◌ c t) rest = String.◌∷◌ "_" (String.◌∷◌ c (print_text t rest))

unfoldable pub print : List String → String
unfolding print_text
print [] = ""
print (t ∷ ts) = String.◌∷◌ "," (print_text t (print ts))

unfoldable scan : Bool → String → Option (List String)
scan false String.[] = some []
scan true String.[] = none
scan false (String.◌∷◌ c r) = scan true r
scan true (String.◌∷◌ m String.[]) = if is_end m then some ("" ∷ []) else none
scan true (String.◌∷◌ m (String.◌∷◌ c r)) =
    if is_end m then close (scan false (String.◌∷◌ c r)) else push c (scan true r)

scan-end : (rest : String) → scan true (String.◌∷◌ "." rest) ≡ close (scan false rest)
unfolding scan
scan-end String.[] = refl
scan-end (String.◌∷◌ c r) = refl

scan-mark :
    (c : Char) (r : String) → scan true (String.◌∷◌ "_" (String.◌∷◌ c r)) ≡ push c (scan true r)
unfolding scan
scan-mark c r = refl

scan-print_text :
    (t rest : String) {ts : List String}
    → scan false rest ≡ some ts
    → scan true (print_text t rest) ≡ some (t ∷ ts)
unfolding print_text
scan-print_text String.[] rest e = rw (scan-end rest) (ap close e)
scan-print_text (String.◌∷◌ c t) rest e =
    scan-mark c (print_text t rest) ∙ ap (push c) (scan-print_text t rest e)

scan-print : (ts : List String) → scan false (print ts) ≡ some ts
unfolding scan print
scan-print [] = refl
scan-print (t ∷ ts) = scan-print_text t (print ts) (scan-print ts)

abbrev value_of : Option (List String) → Option JsonValue
value_of none = none
value_of (some ts) = some (array (map some ts))

unfoldable pub parse : String → Option JsonValue
unfolding scan
parse String.[] = none
parse (String.◌∷◌ c r) = value_of (scan false r)

abbrev pub codec : Json
codec = record { parse = parse; stringify = λ ts. String.◌∷◌ "[" (print ts) }

pub codec-IsJson : IsJson codec
unfolding parse
codec-IsJson = record { round_trip = λ ts. ap value_of (scan-print ts); empty_text = refl }
