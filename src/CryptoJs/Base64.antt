-- ===== src/CryptoJs/Base64.antt =====
-- CryptoJS.enc.Base64.
pub mod Overlap
pub mod Chars
pub mod Steps
pub mod Groups
pub mod RoundTrip
use Prim.Native.Nat.{bit_or}
use moa_crypto.Common.{
  ℕ, zero, suc, ◌+◌, ◌-◌, ◌*◌, ◌/◌, ◌%◌, ◌^◌, Option, none, some, [], ◌∷◌, ◌++◌, length, take,
  if◌then◌else◌, ◌==◌,
}
use moa_crypto.Text.{Text, codes, index_of}
use moa_crypto.CryptoJs.{Words, WordArray, no_words, byte_at, set}
use moa_crypto.CryptoJs.Join.{clamp}

-- _map
abbrev pub base64_map : Text
base64_map = codes "ABCDEFGHIJKLMNOPQRSTUVWXYZabcdefghijklmnopqrstuvwxyz0123456789+/="

-- map.charAt(i) in the map; out of range it is never asked for.
abbrev pub char_at : Text → ℕ → ℕ
char_at [] i = 0
char_at (a ∷ t) zero = a
char_at (a ∷ t) (suc i) = char_at t i

-- (byte1 << 16) | (byte2 << 8) | byte3, of the three bytes from an index on
unfoldable pub triplet_at : Words → ℕ → ℕ
triplet_at words i =
    bit_or (bit_or (byte_at words i * 2 ^ 16) (byte_at words (i + 1) * 2 ^ 8))
      (byte_at words (i + 2))

-- The four characters of a triplet.
unfoldable pub chars_of : ℕ → Text
chars_of triplet =
    char_at base64_map (triplet / 2 ^ 18 % 64)
    ∷ char_at base64_map (triplet / 2 ^ 12 % 64)
    ∷ char_at base64_map (triplet / 2 ^ 6 % 64)
    ∷ char_at base64_map (triplet % 64)
    ∷ []

-- The loop from the index i on, with so many bytes left: the j-th character is written where
-- i + j * 0.75 < sigBytes.
unfoldable pub base64_chars : Words → (i left : ℕ) → Text
unfolding triplet_at chars_of
base64_chars words i zero = []
base64_chars words i (suc zero) = take 2 (chars_of (triplet_at words i))
base64_chars words i (suc (suc zero)) = take 3 (chars_of (triplet_at words i))
base64_chars words i (suc (suc (suc left))) =
    chars_of (triplet_at words i) ++ base64_chars words (i + 3) left

-- while (base64Chars.length % 4) base64Chars.push("=")
abbrev pub padded : Text → Text
padded t =
    if length t % 4 == 0
    then t
    else if length t % 4 == 3
    then t ++ codes "="
    else if length t % 4 == 2
    then t ++ codes "=="
    else t ++ codes "==="

unfoldable pub stringify : WordArray → Text
unfolding clamp base64_chars
stringify w = padded (base64_chars (clamp w).words 0 w.sig_bytes)

-- reverseMap[unit]; undefined counts as 0 under << and >>>.
abbrev pub place_in : Text → (i unit : ℕ) → ℕ
place_in [] i unit = 0
place_in (a ∷ t) i unit = let later = place_in t (suc i) unit in if a == unit then i else later

abbrev pub reverse_map : ℕ → ℕ
reverse_map unit = place_in base64_map 0 unit

-- One round of parseLoop at the index i, with the unit before and the unit there.
unfoldable pub parse_step : (i before here : ℕ) → Words → (n_bytes : ℕ) → Words × ℕ
parse_step i before here words n_bytes =
    let bits1 = reverse_map before * 2 ^ (i % 4 * 2) in
    let bits2 = reverse_map here / 2 ^ (6 - i % 4 * 2) in
    if i % 4 == 0 then (words, n_bytes) else (
      set words (n_bytes / 4)
          (bit_or (words (n_bytes / 4)) (bit_or bits1 bits2 * 2 ^ (24 - n_bytes % 4 * 8) % 2 ^ 32)),
      n_bytes + 1,
    )

-- parseLoop, on what is left of the text.
unfoldable pub parse_loop : Text → (i before : ℕ) → Words → (n_bytes : ℕ) → WordArray
unfolding parse_step
parse_loop [] i before words n_bytes = record { words = words; sig_bytes = n_bytes }
parse_loop (here ∷ rest) i before words n_bytes =
    let (next, count) = parse_step i before here words n_bytes in
    parse_loop rest (suc i) here next count

-- The text up to the first padding character.
abbrev pub until : Text → Option ℕ → Text
until t none = t
until t (some padding_index) = take padding_index t

unfoldable pub parse : Text → WordArray
unfolding parse_loop index_of
parse base64_str = parse_loop (until base64_str (index_of base64_str (codes "="))) 0 0 no_words 0
