-- ===== src/CryptoJs/Aes/Checks.antt =====
-- What the tables of AES hold, by a look at each of their places.
use moa_crypto.Common.{
  ◌≡◌, refl, ℕ, zero, suc, ◌+◌, ◌*◌, ◌^◌, ◌<◌, arith, Bool, true, false, ltb, ◌==◌, ==_iff,
  if◌then◌else◌, Bool-cases, inl, inr,
}
use Prim.Native.Nat.{bit_xor}
use moa_crypto.CryptoJs.AesTables.{tables, inv_mixed, turn}
use moa_crypto.CryptoJs.Aes.{mix_bytes}

abbrev all_below : ℕ → (ℕ → Bool) → Bool
all_below zero test = true
all_below (suc n) test = let rest = all_below n test in if test n then rest else false

all_below-holds :
    (n : ℕ) (test : ℕ → Bool) → all_below n test ≡ true → (i : ℕ) → i < n → test i ≡ true
all_below-holds zero test e i h = absurd (omega arith)
all_below-holds (suc n) test e i h = elim (Bool-cases (test n)) [
  | inl good ↦
      let rest : all_below n test ≡ true = rw good at e in
      elim (Bool-cases (i == n)) [
        | inl last ↦ let f : i ≡ n = ground (arith, ==_iff i n) in rw f good
        | inr before ↦ all_below-holds n test rest i (ground (arith, ==_iff i n))
      ]
  | inr bad ↦ absurd (ground (arith, e, bad))
]

-- An equation at each number below a bound.
same_below :
    (n : ℕ) (f g : ℕ → ℕ) → all_below n (λ i. f i == g i) ≡ true → (i : ℕ) → i < n → f i ≡ g i
same_below n f g e i h =
    let found = all_below-holds n (λ i. f i == g i) e i h in
    ground (arith, found, ==_iff (f i) (g i))

less_below :
    (n bound : ℕ) (f : ℕ → ℕ)
    → all_below n (λ i. ltb (f i) bound) ≡ true
    → (i : ℕ) → i < n
    → f i < bound
less_below n bound f e i h =
    let found = all_below-holds n (λ i. ltb (f i) bound) e i h in ground (arith, found)

-- The inverse of "mix columns" at a byte that stands at place k of its word.
unfoldable pub column : (k x : ℕ) → ℕ
column k x = turn (inv_mixed x) (8 * (k + 1))

pub inv_sbox-sbox : (i : ℕ) → i < 256 → tables.inv_sbox (tables.sbox i) ≡ i
unfolding tables
inv_sbox-sbox = same_below 256 (λ i. tables.inv_sbox (tables.sbox i)) (λ i. i) refl

pub sbox-lt : (i : ℕ) → i < 256 → tables.sbox i < 256
unfolding tables
sbox-lt = less_below 256 256 tables.sbox refl

-- The tables of the inverse, behind sub bytes.
pub inv_sub_mix_0-sbox : (i : ℕ) → i < 256 → tables.inv_sub_mix_0 (tables.sbox i) ≡ column 0 i
unfolding tables column
inv_sub_mix_0-sbox = same_below 256 (λ i. tables.inv_sub_mix_0 (tables.sbox i)) (column 0) refl

pub inv_sub_mix_1-sbox : (i : ℕ) → i < 256 → tables.inv_sub_mix_1 (tables.sbox i) ≡ column 1 i
unfolding tables column
inv_sub_mix_1-sbox = same_below 256 (λ i. tables.inv_sub_mix_1 (tables.sbox i)) (column 1) refl

pub inv_sub_mix_2-sbox : (i : ℕ) → i < 256 → tables.inv_sub_mix_2 (tables.sbox i) ≡ column 2 i
unfolding tables column
inv_sub_mix_2-sbox = same_below 256 (λ i. tables.inv_sub_mix_2 (tables.sbox i)) (column 2) refl

pub inv_sub_mix_3-sbox : (i : ℕ) → i < 256 → tables.inv_sub_mix_3 (tables.sbox i) ≡ column 3 i
unfolding tables column
inv_sub_mix_3-sbox = same_below 256 (λ i. tables.inv_sub_mix_3 (tables.sbox i)) (column 3) refl

-- The inverse of "mix columns" of a word.
abbrev pub inv_mix : ℕ → ℕ
inv_mix w = mix_bytes (column 0) (column 1) (column 2) (column 3) w w w w

pub inv_mix-sub_mix_0 : (i : ℕ) → i < 256 → inv_mix (tables.sub_mix_0 i) ≡ tables.sbox i * 2 ^ 24
unfolding tables column
inv_mix-sub_mix_0 =
    same_below 256 (λ i. inv_mix (tables.sub_mix_0 i)) (λ i. tables.sbox i * 2 ^ 24) refl

pub inv_mix-sub_mix_1 : (i : ℕ) → i < 256 → inv_mix (tables.sub_mix_1 i) ≡ tables.sbox i * 2 ^ 16
unfolding tables column
inv_mix-sub_mix_1 =
    same_below 256 (λ i. inv_mix (tables.sub_mix_1 i)) (λ i. tables.sbox i * 2 ^ 16) refl

pub inv_mix-sub_mix_2 : (i : ℕ) → i < 256 → inv_mix (tables.sub_mix_2 i) ≡ tables.sbox i * 2 ^ 8
unfolding tables column
inv_mix-sub_mix_2 =
    same_below 256 (λ i. inv_mix (tables.sub_mix_2 i)) (λ i. tables.sbox i * 2 ^ 8) refl

pub inv_mix-sub_mix_3 : (i : ℕ) → i < 256 → inv_mix (tables.sub_mix_3 i) ≡ tables.sbox i
unfolding tables column
inv_mix-sub_mix_3 = same_below 256 (λ i. inv_mix (tables.sub_mix_3 i)) tables.sbox refl

pub sub_mix-lt :
    (i : ℕ)
    → i < 256
    → (tables.sub_mix_0 i < 2 ^ 32)
      × (tables.sub_mix_1 i < 2 ^ 32)
      × (tables.sub_mix_2 i < 2 ^ 32)
      × (tables.sub_mix_3 i < 2 ^ 32)
unfolding tables
sub_mix-lt i h = (
  less_below 256 (2 ^ 32) tables.sub_mix_0 refl i h,
  less_below 256 (2 ^ 32) tables.sub_mix_1 refl i h,
  less_below 256 (2 ^ 32) tables.sub_mix_2 refl i h,
  less_below 256 (2 ^ 32) tables.sub_mix_3 refl i h,
)

-- A column at a byte is that at its two digits of four bits, and each of these goes through exclusive
-- or.
pub column-digits :
    (k h l : ℕ)
    → k < 4
    → h < 16
    → l < 16
    → column k (16 * h + l) ≡ bit_xor (column k (16 * h)) (column k l)
unfolding column
column-digits k h l ks hs ls =
    same_below 16 (λ l. column k (16 * h + l)) (λ l. bit_xor (column k (16 * h)) (column k l))
      (all_below-holds 16
        (λ h. all_below 16 (λ l. column k (16 * h + l) == bit_xor (column k (16 * h)) (column k l)))
        (all_below-holds 4
          (λ k. all_below 16 (λ h.
            all_below 16 (λ l. column k (16 * h + l) == bit_xor (column k (16 * h)) (column k l))))
          refl k ks)
        h hs)
      l ls

pub column-high :
    (k h g : ℕ)
    → k < 4
    → h < 16
    → g < 16
    → column k (16 * bit_xor h g) ≡ bit_xor (column k (16 * h)) (column k (16 * g))
unfolding column
column-high k h g ks hs gs =
    same_below 16 (λ g. column k (16 * bit_xor h g))
      (λ g. bit_xor (column k (16 * h)) (column k (16 * g)))
      (all_below-holds 16
        (λ h.
          all_below 16
            (λ g. column k (16 * bit_xor h g) == bit_xor (column k (16 * h)) (column k (16 * g))))
        (all_below-holds 4
          (λ k. all_below 16 (λ h.
            all_below 16 (λ g.
              column k (16 * bit_xor h g) == bit_xor (column k (16 * h)) (column k (16 * g)))))
          refl k ks)
        h hs)
      g gs

pub column-low :
    (k h g : ℕ)
    → k < 4
    → h < 16
    → g < 16
    → column k (bit_xor h g) ≡ bit_xor (column k h) (column k g)
unfolding column
column-low k h g ks hs gs =
    same_below 16 (λ g. column k (bit_xor h g)) (λ g. bit_xor (column k h) (column k g))
      (all_below-holds 16
        (λ h. all_below 16 (λ g. column k (bit_xor h g) == bit_xor (column k h) (column k g)))
        (all_below-holds 4
          (λ k.
            all_below 16 (λ h.
              all_below 16 (λ g. column k (bit_xor h g) == bit_xor (column k h) (column k g))))
          refl k ks)
        h hs)
      g gs
