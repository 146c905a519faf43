-- ===== src/Text.antt =====
-- The string operations of JavaScript that the wallet scripts call. A string is the list of its
-- UTF-16 code units.
pub mod Laws
pub mod Hex
pub mod Digits
pub mod Tests
use Prim.Native.Char.{code}
use Prim.Native.String.{String}
use mathlib.Core.Option
use moa_crypto.Common.{
  ℕ, zero, suc, ◌+◌, ◌-◌, ◌*◌, ◌/◌, ◌%◌, min, max, Bool, true, false, ◌&&◌, ◌||◌, Option, none,
  some, List, [], ◌∷◌, ◌++◌, length, take, drop, leb, ltb, ◌==◌, if◌then◌else◌,
}

abbrev pub Text : Type 0
Text = List ℕ

-- The code units of an ASCII literal.
abbrev pub codes : String → Text
codes String.[] = []
codes (String.◌∷◌ c s) = code c ∷ codes s

-- s === t
abbrev pub text_eq : Text → Text → Bool
text_eq [] [] = true
text_eq (a ∷ s) (b ∷ t) = (a == b) && text_eq s t
text_eq _ _ = false

-- Whether the second text is a prefix of the first.
abbrev pub starts_with : Text → Text → Bool
starts_with s [] = true
starts_with [] (b ∷ t) = false
starts_with (a ∷ s) (b ∷ t) = (a == b) && starts_with s t

-- s.indexOf(t); `none` is -1.
unfoldable pub index_of : Text → Text → Option ℕ
index_of [] t = if starts_with [] t then some 0 else none
index_of (a ∷ s) t =
    let later = Option.map suc (index_of s t) in if starts_with (a ∷ s) t then some 0 else later

-- s.indexOf(t) > -1 and s.indexOf(t) == 0
abbrev pub is_found : Option ℕ → Bool
is_found none = false
is_found (some n) = true

abbrev pub is_zero : Option ℕ → Bool
is_zero (some zero) = true
is_zero _ = false

abbrev pub contains : Text → Text → Bool
contains s t = is_found (index_of s t)

-- s.substr(start, len)
abbrev pub substr : Text → ℕ → ℕ → Text
substr s start len = take len (drop start s)

-- s.substr(-n)
abbrev pub substr_last : Text → ℕ → Text
substr_last s n = drop (length s - n) s

-- s.substring(start, end): the ends are put in order first.
abbrev pub substring : Text → ℕ → ℕ → Text
substring s start end = take (max start end - min start end) (drop (min start end) s)

abbrev prepend : ℕ → List Text → List Text
prepend a [] = (a ∷ []) ∷ []
prepend a (s ∷ rest) = (a ∷ s) ∷ rest

-- s.split(sep), for a separator of one code unit.
unfoldable pub split : ℕ → Text → List Text
split sep [] = [] ∷ []
split sep (a ∷ s) = let rest = split sep s in if a == sep then [] ∷ rest else prepend a rest

-- s.toUpperCase(), on the ASCII letters; other code units stay.
unfoldable pub to_upper_unit : ℕ → ℕ
to_upper_unit c = if leb b'a' c && leb c b'z' then c - 32 else c

unfoldable pub to_upper : Text → Text
unfolding to_upper_unit
to_upper [] = []
to_upper (c ∷ s) = to_upper_unit c ∷ to_upper s

-- The digit of a number below 36.
unfoldable pub digit : ℕ → ℕ
digit d = if ltb d 10 then b'0' + d else b'a' + (d - 10)

-- n.toString(radix), with the digits so far; the fuel is at least the number of digits.
unfoldable pub to_radix : ℕ → ℕ → ℕ → Text → Text
unfolding digit
to_radix zero radix n out = out
to_radix (suc fuel) radix n out =
    let here = digit (n % radix) ∷ out in
    let more = to_radix fuel radix (n / radix) here in if n / radix == 0 then here else more

-- A number has at most n + 1 digits.
abbrev pub to_string : ℕ → Text
to_string n = to_radix (suc n) 10 n []

unfoldable pub digit_value : ℕ → Option ℕ
digit_value c =
    if leb b'0' c && leb c b'9'
    then some (c - b'0')
    else if leb b'a' c && leb c b'f'
    then some (c - b'a' + 10)
    else if leb b'A' c && leb c b'F'
    then some (c - b'A' + 10)
    else none

parse_digits : ℕ → Text → ℕ
parse_digits n [] = n
parse_digits n (c ∷ s) = elim (digit_value c) [ none ↦ n | some d ↦ parse_digits (n * 16 + d) s ]

-- parseInt(s, 16), on a text with no sign, space or 0x in front; `none` is NaN.
unfoldable pub parse_int16 : Text → Option ℕ
unfolding parse_digits
parse_int16 [] = none
parse_int16 (c ∷ s) = Option.map (λ d. parse_digits d s) (digit_value c)

-- NaN counts as 0 under the operators on bits.
abbrev pub nan_to_zero : Option ℕ → ℕ
nan_to_zero none = 0
nan_to_zero (some n) = n
