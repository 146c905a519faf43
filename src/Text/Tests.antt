-- ===== src/Text/Tests.antt =====
-- The string operations on small inputs.
use moa_crypto.Common.{◌≡◌, refl, none, some, [], ◌∷◌}
use moa_crypto.Text.{
  codes, index_of, split, substr, substr_last, substring, to_upper, to_string, to_radix,
  parse_int16, digit_value,
}

index_of_tests :
    (index_of (codes "abcabc") (codes "ca") ≡ some 2)
    × (index_of (codes "abc") (codes "") ≡ some 0)
    × (index_of (codes "abc") (codes "cb") ≡ none)
unfolding index_of
index_of_tests = (refl, refl, refl)

cut_tests :
    (split b'$' (codes "a$$bc") ≡ codes "a" ∷ codes "" ∷ codes "bc" ∷ [])
    × (substr (codes "abcdef") 2 3 ≡ codes "cde")
    × (substr_last (codes "00f") 2 ≡ codes "0f")
    × (substring (codes "abcdef") 4 1 ≡ codes "bcd")
unfolding split
cut_tests = (refl, refl, refl, refl)

number_tests :
    (to_string 4096 ≡ codes "4096")
    × (to_radix 3 16 0xe7 [] ≡ codes "e7")
    × (parse_int16 (codes "e7") ≡ some 0xe7)
    × (parse_int16 (codes "x") ≡ none)
    × (to_upper (codes "4d4f$") ≡ codes "4D4F$")
unfolding to_radix parse_int16 to_upper digit_value
number_tests = (refl, refl, refl, refl, refl)
