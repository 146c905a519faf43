-- ===== src/CryptoJs/Base64/Chars.antt =====
-- The 64 digits of Base64: the map back undoes the map, and no digit is "=", "$" or "%".
use Prim.Native.Nat.{bit_or}
use moa_crypto.Common.{
  holds_below, test_of_holds_below, ◌≡◌, ◌≢◌, refl, ℕ, zero, suc, ◌+◌, ◌*◌, ◌/◌, ◌%◌, ◌^◌, ◌<◌,
  arith, Bool, true, not, ◌==◌, ==_iff,
}
use moa_crypto.Text.Laws.{Free}
use moa_crypto.CryptoJs.{Words, byte_of, byte_at}
use moa_crypto.CryptoJs.Digits.{shift, bit_or-shift}
use moa_crypto.CryptoJs.Base64.{
  base64_map, char_at, triplet_at, chars_of, reverse_map, base64_chars,
}

pub reverse_map-char_at : (v : ℕ) → v < 64 → reverse_map (char_at base64_map v) ≡ v
unfolding holds_below
reverse_map-char_at v l =
    (==_iff (reverse_map (char_at base64_map v)) v).0
      (test_of_holds_below (λ v. reverse_map (char_at base64_map v) == v) 64 v l refl)

-- A unit that is none of the 64 digits.
abbrev pub is_foreign : ℕ → Bool
is_foreign unit = holds_below (λ v. not (char_at base64_map v == unit)) 64

char_at-ne : (unit v : ℕ) → is_foreign unit ≡ true → v < 64 → char_at base64_map v ≢ unit
char_at-ne unit v foreign l e =
    let apart = test_of_holds_below (λ v. not (char_at base64_map v == unit)) 64 v l foreign in
    let same = (==_iff (char_at base64_map v) unit).1 e in ground (arith, apart, same)

digit-ne : (unit t : ℕ) → is_foreign unit ≡ true → char_at base64_map (t % 64) ≢ unit
digit-ne unit t foreign = char_at-ne unit (t % 64) foreign (omega arith)

byte_of-below : (word k : ℕ) → byte_of word k < 256
unfolding byte_of
byte_of-below word k = omega arith

or_three :
    (a b c : ℕ)
    → a < 256
    → b < 256
    → c < 256
    → bit_or (bit_or (a * 65536) (b * 256)) c ≡ a * 65536 + b * 256 + c
unfolding shift
or_three a b c _ k l =
    let e : a * 65536 ≡ shift 16 a = omega arith in
    let first : bit_or (a * 65536) (b * 256) ≡ a * 65536 + b * 256 =
      rw e (bit_or-shift 16 a (b * 256) (omega arith)) in
    let f : a * 65536 + b * 256 ≡ shift 8 (a * 256 + b) = omega arith in
    rw first (rw f (bit_or-shift 8 (a * 256 + b) c (omega arith)))

pub triplet_at_lem :
    (words : Words) (i : ℕ)
    → triplet_at words i
      ≡ byte_at words i * 65536 + byte_at words (i + 1) * 256 + byte_at words (i + 2)
unfolding triplet_at
triplet_at_lem words i =
    or_three (byte_at words i) (byte_at words (i + 1)) (byte_at words (i + 2))
      (byte_of-below (words (i / 4)) (i % 4)) (byte_of-below (words ((i + 1) / 4)) ((i + 1) % 4))
      (byte_of-below (words ((i + 2) / 4)) ((i + 2) % 4))

-- Every unit that stands for a number below 64 differs from a foreign one.
pub base64_chars-Free :
    (unit : ℕ)
    → is_foreign unit ≡ true
    → (words : Words) (i left : ℕ) → Free unit (base64_chars words i left)
unfolding base64_chars chars_of
base64_chars-Free unit foreign words i zero = tt
base64_chars-Free unit foreign words i (suc zero) =
    let t = triplet_at words i in
    (digit-ne unit (t / 2 ^ 18) foreign, (digit-ne unit (t / 2 ^ 12) foreign, tt))
base64_chars-Free unit foreign words i (suc (suc zero)) =
    let t = triplet_at words i in
    (
      digit-ne unit (t / 2 ^ 18) foreign,
      (digit-ne unit (t / 2 ^ 12) foreign, (digit-ne unit (t / 2 ^ 6) foreign, tt)),
    )
base64_chars-Free unit foreign words i (suc (suc (suc left))) =
    let t = triplet_at words i in
    (
      digit-ne unit (t / 2 ^ 18) foreign,
      (
        digit-ne unit (t / 2 ^ 12) foreign,
        (
          digit-ne unit (t / 2 ^ 6) foreign,
          (digit-ne unit t foreign, base64_chars-Free unit foreign words (i + 3) left),
        ),
      ),
    )
