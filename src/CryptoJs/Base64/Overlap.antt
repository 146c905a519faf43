-- ===== src/CryptoJs/Base64/Overlap.antt =====
-- The bits that parseLoop shifts above a byte are those that the byte before ends in: the operator |
-- leaves them as they are.
use Prim.Native.Nat.{bit_or}
use moa_crypto.Common.{◌≡◌, ◌≢◌, refl, ◌∙◌, sym, ℕ, ◌+◌, ◌-◌, ◌*◌, ◌/◌, ◌%◌, ◌^◌, ◌<◌, arith}
use moa_crypto.CryptoJs.{byte_of, or_byte}
use moa_crypto.CryptoJs.Digits.{shift, bit_or-overlap}
use moa_crypto.CryptoJs.Fill.{ClearFrom, below_four, or_byte_second, or_byte_third, or_byte_fourth}

overlap_at :
    (m j q word hi y z : ℕ)
    → word ≡ shift m (shift j q + hi)
    → y ≡ shift m hi + z
    → hi < shift j 1
    → z < shift m 1
    → bit_or word y ≡ word + z
overlap_at m j q word hi y z e f h l = rw (e, f) (bit_or-overlap m j q hi z h l)

wide_second :
    (j q word hi b : ℕ)
    → b < 256
    → hi < 16
    → hi < shift j 1
    → word ≡ (shift j q + hi) * 16777216
    → bit_or word ((hi * 256 + b) * 65536 % 4294967296) ≡ word + b * 65536
unfolding shift
wide_second j q word hi b c l h e =
    overlap_at 24 j q word hi ((hi * 256 + b) * 65536 % 4294967296) (b * 65536) (omega arith)
      (omega arith) h (omega arith)

wide_third :
    (j q word hi b : ℕ)
    → b < 256
    → hi < 16
    → hi < shift j 1
    → word ≡ (shift j q + hi) * 65536
    → bit_or word ((hi * 256 + b) * 256 % 4294967296) ≡ word + b * 256
unfolding shift
wide_third j q word hi b c l h e =
    overlap_at 16 j q word hi ((hi * 256 + b) * 256 % 4294967296) (b * 256) (omega arith)
      (omega arith) h (omega arith)

wide_fourth :
    (j q word hi b : ℕ)
    → b < 256
    → hi < 16
    → hi < shift j 1
    → word ≡ (shift j q + hi) * 256
    → bit_or word ((hi * 256 + b) * 1 % 4294967296) ≡ word + b
unfolding shift
wide_fourth j q word hi b c l h e =
    overlap_at 8 j q word hi ((hi * 256 + b) * 1 % 4294967296) b (omega arith) (omega arith) h
      (omega arith)

-- The part of a word in front of the k-th byte ends in the j digits of hi.
abbrev pub EndsIn : (j hi word k : ℕ) → Type 0
EndsIn j hi word k = k ≢ 0 → (q : ℕ) × (word / 2 ^ (32 - k * 8) ≡ shift j q + hi)

pub or_wide :
    (j word hi b : ℕ)
    → word < 2 ^ 32
    → b < 256
    → hi < 16
    → hi < shift j 1
    → (k : ℕ) → k < 4
    → ClearFrom word k
    → EndsIn j hi word k
    → bit_or word ((hi * 256 + b) * 2 ^ (24 - k * 8) % 2 ^ 32) ≡ or_byte word b k
unfolding byte_of or_byte
or_wide j word hi b w c l h =
    below_four
      (λ k.
        ClearFrom word k
        → EndsIn j hi word k
        → bit_or word ((hi * 256 + b) * 2 ^ (24 - k * 8) % 2 ^ 32) ≡ or_byte word b k)
      (λ clear ends.
        let fits : (hi * 256 + b) * 16777216 % 4294967296 ≡ b * 16777216 % 4294967296 =
          omega arith in
        rw fits refl)
      (λ clear ends.
        let z1 = clear 1 (omega arith) (omega arith) in
        let z2 = clear 2 (omega arith) (omega arith) in
        let z3 = clear 3 (omega arith) (omega arith) in
        let low : word % 16777216 ≡ 0 = omega (arith, z1, z2, z3) in
        let (q, e) = ends (omega arith) in
        wide_second j q word hi b c l h (omega (arith, e, low)) ∙ sym (or_byte_second word b c low))
      (λ clear ends.
        let z2 = clear 2 (omega arith) (omega arith) in
        let z3 = clear 3 (omega arith) (omega arith) in
        let low : word % 65536 ≡ 0 = omega (arith, z2, z3) in
        let (q, e) = ends (omega arith) in
        wide_third j q word hi b c l h (omega (arith, e, low)) ∙ sym (or_byte_third word b c low))
      (λ clear ends.
        let z3 = clear 3 (omega arith) (omega arith) in
        let low : word % 256 ≡ 0 = omega (arith, z3) in
        let (q, e) = ends (omega arith) in
        wide_fourth j q word hi b c l h (omega (arith, e, low)) ∙ sym (or_byte_fourth word b c low))
