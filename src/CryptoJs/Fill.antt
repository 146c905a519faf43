-- ===== src/CryptoJs/Fill.antt =====
-- Filling word arrays byte by byte: what `words[i >>> 2] |= byte << (24 - (i % 4) * 8)` does to the
-- bytes, where the place is clear.
use moa_crypto.Common.{◌≡◌, ◌≢◌, refl, ℕ, zero, suc, ◌+◌, ◌*◌, ◌/◌, ◌%◌, ◌^◌, ◌≤◌, ◌<◌, arith}
use Prim.Native.Nat.{bit_or}
use moa_crypto.CryptoJs.{Words, byte_of, byte_at, or_byte}
use moa_crypto.CryptoJs.Digits.{shift, bit_or-shift}

abbrev pub AreWords : Words → Type 0
AreWords words = (i : ℕ) → words i < 2 ^ 32

-- The bytes from an index on are 0.
abbrev pub IsClear : Words → ℕ → Type 0
IsClear words n = (i : ℕ) → n ≤ i → byte_at words i ≡ 0

-- One byte more in a word whose bytes from there on are 0.
pub record OneMore (word byte k v : ℕ) : Type 0 where
  pub in_range : v < 2 ^ 32
  pub here : byte_of v k ≡ byte
  pub elsewhere : (i : ℕ) → i < 4 → i ≢ k → byte_of v i ≡ byte_of word i

or_at : (m q word y : ℕ) → word ≡ shift m q → y < shift m 1 → bit_or word y ≡ word + y
or_at m q word y e h = rw e (bit_or-shift m q y h)

pub or_byte_first :
    (word byte : ℕ)
    → word < 2 ^ 32
    → byte < 256
    → word ≡ 0
    → or_byte word byte 0 ≡ word + byte * 16777216
unfolding or_byte shift
or_byte_first word byte w b z =
    let fits : byte * 16777216 % 4294967296 ≡ byte * 16777216 = omega arith in
    rw fits (or_at 32 0 word (byte * 16777216) (omega arith) (omega arith))

pub or_byte_second :
    (word byte : ℕ) → byte < 256 → word % 16777216 ≡ 0 → or_byte word byte 1 ≡ word + byte * 65536
unfolding or_byte shift
or_byte_second word byte b z =
    let fits : byte * 65536 % 4294967296 ≡ byte * 65536 = omega arith in
    rw fits (or_at 24 (word / 16777216) word (byte * 65536) (omega arith) (omega arith))

pub or_byte_third :
    (word byte : ℕ) → byte < 256 → word % 65536 ≡ 0 → or_byte word byte 2 ≡ word + byte * 256
unfolding or_byte shift
or_byte_third word byte b z =
    let fits : byte * 256 % 4294967296 ≡ byte * 256 = omega arith in
    rw fits (or_at 16 (word / 65536) word (byte * 256) (omega arith) (omega arith))

pub or_byte_fourth :
    (word byte : ℕ) → byte < 256 → word % 256 ≡ 0 → or_byte word byte 3 ≡ word + byte
unfolding or_byte shift
or_byte_fourth word byte b z =
    let fits : byte * 1 % 4294967296 ≡ byte = omega arith in
    rw fits (or_at 8 (word / 256) word byte (omega arith) (omega arith))

pub below_four : (P : ℕ → Type 0) → P 0 → P 1 → P 2 → P 3 → (i : ℕ) → i < 4 → P i
below_four P a b c d zero h = a
below_four P a b c d (suc zero) h = b
below_four P a b c d (suc (suc zero)) h = c
below_four P a b c d (suc (suc (suc zero))) h = d
below_four P a b c d (suc (suc (suc (suc i)))) h = absurd (omega arith)

-- The bytes of a word from k on are 0.
abbrev pub ClearFrom : ℕ → ℕ → Type 0
ClearFrom word k = (i : ℕ) → i < 4 → k ≤ i → byte_of word i ≡ 0

pub one_more :
    (word byte : ℕ)
    → word < 2 ^ 32
    → byte < 256
    → (k : ℕ) → k < 4
    → ClearFrom word k
    → OneMore word byte k (or_byte word byte k)
unfolding byte_of
one_more word byte w b =
    below_four (λ k. ClearFrom word k → OneMore word byte k (or_byte word byte k))
      (λ clear.
        let z0 = clear 0 (omega arith) (omega arith) in
        let z1 = clear 1 (omega arith) (omega arith) in
        let z2 = clear 2 (omega arith) (omega arith) in
        let z3 = clear 3 (omega arith) (omega arith) in
        let z : word ≡ 0 = omega (arith, z0, z1, z2, z3) in
        rw (or_byte_first word byte w b z) (record {
          in_range = omega arith;
          here = omega arith;
          elsewhere =
              below_four (λ i. i ≢ 0 → byte_of (word + byte * 16777216) i ≡ byte_of word i)
                (λ ne. absurd (ne refl)) (λ _. omega arith) (λ _. omega arith) (λ _. omega arith);
        }))
      (λ clear.
        let z1 = clear 1 (omega arith) (omega arith) in
        let z2 = clear 2 (omega arith) (omega arith) in
        let z3 = clear 3 (omega arith) (omega arith) in
        rw (or_byte_second word byte b (omega (arith, z1, z2, z3))) (record {
          in_range = omega (arith, z1, z2, z3);
          here = omega (arith, z1, z2, z3);
          elsewhere =
              below_four (λ i. i ≢ 1 → byte_of (word + byte * 65536) i ≡ byte_of word i)
                (λ _. omega (arith, z1, z2, z3)) (λ ne. absurd (ne refl)) (λ _. omega arith)
                (λ _. omega arith);
        }))
      (λ clear.
        let z2 = clear 2 (omega arith) (omega arith) in
        let z3 = clear 3 (omega arith) (omega arith) in
        rw (or_byte_third word byte b (omega (arith, z2, z3))) (record {
          in_range = omega (arith, z2, z3);
          here = omega (arith, z2, z3);
          elsewhere =
              below_four (λ i. i ≢ 2 → byte_of (word + byte * 256) i ≡ byte_of word i)
                (λ _. omega (arith, z2, z3)) (λ _. omega (arith, z2, z3)) (λ ne. absurd (ne refl))
                (λ _. omega arith);
        }))
      (λ clear.
        let z3 = clear 3 (omega arith) (omega arith) in
        rw (or_byte_fourth word byte b (omega (arith, z3))) (record {
          in_range = omega (arith, z3);
          here = omega (arith, z3);
          elsewhere =
              below_four (λ i. i ≢ 3 → byte_of (word + byte) i ≡ byte_of word i)
                (λ _. omega (arith, z3)) (λ _. omega (arith, z3)) (λ _. omega (arith, z3))
                (λ ne. absurd (ne refl));
        }))
