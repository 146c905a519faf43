-- ===== src/CryptoJs/Aes/Rounds.antt =====
-- The rounds of the inverse take the rounds of AES back, the last one first.
use Prim.Native.Nat.{bit_xor}
use moa_crypto.Common.{◌≡◌, refl, ap, ◌∙◌, ℕ, zero, suc, ◌+◌, ◌-◌, ◌*◌, ◌/◌, ◌%◌, ◌^◌, ◌<◌, arith}
use moa_crypto.Common.Bits.{bit_xor-lt, bit_xor_twice}
use moa_crypto.CryptoJs.{Words}
use moa_crypto.CryptoJs.Fill.{AreWords}
use moa_crypto.CryptoJs.AesTables.{tables}
use moa_crypto.CryptoJs.Aes.{
  State, mix_bytes, sub_bytes, add_key, mix_round, last_round, crypt_rounds, forward, inverse,
  swap_rows,
}
use moa_crypto.CryptoJs.Aes.Checks.{
  inv_mix, inv_sbox-sbox, inv_sub_mix_0-sbox, inv_sub_mix_1-sbox, inv_sub_mix_2-sbox,
  inv_sub_mix_3-sbox,
}
use moa_crypto.CryptoJs.Aes.Columns.{
  or_bytes, sub_bytes-at, sub_bytes-lt, sub_mix, sub_mix_word-lt, inv_mix-sub_mix, inv_mix-bit_xor,
}

-- A state of four words of 32 bits.
pub record IsState (s : State) : Type 0 where
  pub first : s.s0 < 2 ^ 32
  pub second : s.s1 < 2 ^ 32
  pub third : s.s2 < 2 ^ 32
  pub fourth : s.s3 < 2 ^ 32

pub add_key-IsState :
    (keys : Words) (row : ℕ) (s : State) → AreWords keys → IsState s → IsState (add_key keys row s)
add_key-IsState keys row s ks h = record {
  first = bit_xor-lt 32 s.s0 (keys row) h.first (ks row);
  second = bit_xor-lt 32 s.s1 (keys (row + 1)) h.second (ks (row + 1));
  third = bit_xor-lt 32 s.s2 (keys (row + 2)) h.third (ks (row + 2));
  fourth = bit_xor-lt 32 s.s3 (keys (row + 3)) h.fourth (ks (row + 3));
}

mix_round-IsState : (s : State) → IsState s → IsState (mix_round (forward tables) s)
mix_round-IsState s h = record {
  first = sub_mix_word-lt s.s0 s.s1 s.s2 s.s3 h.first;
  second = sub_mix_word-lt s.s1 s.s2 s.s3 s.s0 h.second;
  third = sub_mix_word-lt s.s2 s.s3 s.s0 s.s1 h.third;
  fourth = sub_mix_word-lt s.s3 s.s0 s.s1 s.s2 h.fourth;
}

pub last_round-IsState : (s : State) → IsState s → IsState (last_round (forward tables) s)
last_round-IsState s h = record {
  first = sub_bytes-lt s.s0 s.s1 s.s2 s.s3 h.first;
  second = sub_bytes-lt s.s1 s.s2 s.s3 s.s0 h.second;
  third = sub_bytes-lt s.s2 s.s3 s.s0 s.s1 h.third;
  fourth = sub_bytes-lt s.s3 s.s0 s.s1 s.s2 h.fourth;
}

pub state_eq : (s t : State) → s.s0 ≡ t.s0 → s.s1 ≡ t.s1 → s.s2 ≡ t.s2 → s.s3 ≡ t.s3 → s ≡ t
state_eq s t a b c d k = record { s0 = a k; s1 = b k; s2 = c k; s3 = d k }

-- Words that hold the bytes of one word at their places, behind "sub bytes".
mixed_back :
    (x a b c d : ℕ)
    → x < 2 ^ 32
    → a / 2 ^ 24 ≡ tables.sbox (x / 2 ^ 24)
    → b / 2 ^ 16 % 256 ≡ tables.sbox (x / 2 ^ 16 % 256)
    → c / 2 ^ 8 % 256 ≡ tables.sbox (x / 2 ^ 8 % 256)
    → d % 256 ≡ tables.sbox (x % 256)
    → mix_bytes tables.inv_sub_mix_0 tables.inv_sub_mix_1 tables.inv_sub_mix_2 tables.inv_sub_mix_3
        a b c d
      ≡ inv_mix x
mixed_back x a b c d h e f g i =
    rw
      (
        e,
        f,
        g,
        i,
        inv_sub_mix_0-sbox (x / 2 ^ 24) (omega arith),
        inv_sub_mix_1-sbox (x / 2 ^ 16 % 256) (omega arith),
        inv_sub_mix_2-sbox (x / 2 ^ 8 % 256) (omega arith),
        inv_sub_mix_3-sbox (x % 256) (omega arith),
      )
      refl

subbed_back :
    (x a b c d : ℕ)
    → x < 2 ^ 32
    → a / 2 ^ 24 ≡ tables.sbox (x / 2 ^ 24)
    → b / 2 ^ 16 % 256 ≡ tables.sbox (x / 2 ^ 16 % 256)
    → c / 2 ^ 8 % 256 ≡ tables.sbox (x / 2 ^ 8 % 256)
    → d % 256 ≡ tables.sbox (x % 256)
    → sub_bytes tables.inv_sbox a b c d ≡ x
subbed_back x a b c d h e f g i =
    rw
      (
        e,
        f,
        g,
        i,
        inv_sbox-sbox (x / 2 ^ 24) (omega arith),
        inv_sbox-sbox (x / 2 ^ 16 % 256) (omega arith),
        inv_sbox-sbox (x / 2 ^ 8 % 256) (omega arith),
        inv_sbox-sbox (x % 256) (omega arith),
      )
      (or_bytes (x / 2 ^ 24) (x / 2 ^ 16 % 256) (x / 2 ^ 8 % 256) (x % 256) (omega arith)
          (omega arith) (omega arith)
        ∙ omega arith)

abbrev inv_state : State → State
inv_state s = record { s0 = inv_mix s.s0; s1 = inv_mix s.s1; s2 = inv_mix s.s2; s3 = inv_mix s.s3 }

module _ (s : State) (h : IsState s) where
  abbrev subbed : State
  subbed = last_round (forward tables) s

  mix_round_back : mix_round (inverse tables) (swap_rows subbed) ≡ swap_rows (inv_state s)
  mix_round_back =
      let (a0, a1, a2, a3) = sub_bytes-at s.s0 s.s1 s.s2 s.s3 h.first in
      let (b0, b1, b2, b3) = sub_bytes-at s.s1 s.s2 s.s3 s.s0 h.second in
      let (c0, c1, c2, c3) = sub_bytes-at s.s2 s.s3 s.s0 s.s1 h.third in
      let (d0, d1, d2, d3) = sub_bytes-at s.s3 s.s0 s.s1 s.s2 h.fourth in
      state_eq (mix_round (inverse tables) (swap_rows subbed)) (swap_rows (inv_state s))
        (mixed_back s.s0 subbed.s0 subbed.s3 subbed.s2 subbed.s1 h.first a0 d1 c2 b3)
        (mixed_back s.s3 subbed.s3 subbed.s2 subbed.s1 subbed.s0 h.fourth d0 c1 b2 a3)
        (mixed_back s.s2 subbed.s2 subbed.s1 subbed.s0 subbed.s3 h.third c0 b1 a2 d3)
        (mixed_back s.s1 subbed.s1 subbed.s0 subbed.s3 subbed.s2 h.second b0 a1 d2 c3)

  pub last_round_back : last_round (inverse tables) (swap_rows subbed) ≡ swap_rows s
  last_round_back =
      let (a0, a1, a2, a3) = sub_bytes-at s.s0 s.s1 s.s2 s.s3 h.first in
      let (b0, b1, b2, b3) = sub_bytes-at s.s1 s.s2 s.s3 s.s0 h.second in
      let (c0, c1, c2, c3) = sub_bytes-at s.s2 s.s3 s.s0 s.s1 h.third in
      let (d0, d1, d2, d3) = sub_bytes-at s.s3 s.s0 s.s1 s.s2 h.fourth in
      state_eq (last_round (inverse tables) (swap_rows subbed)) (swap_rows s)
        (subbed_back s.s0 subbed.s0 subbed.s3 subbed.s2 subbed.s1 h.first a0 d1 c2 b3)
        (subbed_back s.s3 subbed.s3 subbed.s2 subbed.s1 subbed.s0 h.fourth d0 c1 b2 a3)
        (subbed_back s.s2 subbed.s2 subbed.s1 subbed.s0 subbed.s3 h.third c0 b1 a2 d3)
        (subbed_back s.s1 subbed.s1 subbed.s0 subbed.s3 subbed.s2 h.second b0 a1 d2 c3)

-- A block of four rows of the inverse schedule that is a block of the schedule, with its rows swapped,
-- as it is or through the inverse of "mix columns".
pub record Mirrors (through : ℕ → ℕ) (inv_keys keys : Words) (inv_row row : ℕ) : Type 0 where
  pub row_0 : inv_keys inv_row ≡ through (keys row)
  pub row_1 : inv_keys (inv_row + 1) ≡ through (keys (row + 3))
  pub row_2 : inv_keys (inv_row + 2) ≡ through (keys (row + 2))
  pub row_3 : inv_keys (inv_row + 3) ≡ through (keys (row + 1))

module _ (inv_keys keys : Words) (ks : AreWords keys) where
  column_back :
      (a b c d key : ℕ)
      → a < 2 ^ 32
      → key < 2 ^ 32
      → bit_xor (inv_mix (bit_xor (sub_mix a b c d) key)) (inv_mix key)
        ≡ sub_bytes tables.sbox a b c d
  column_back a b c d key h k =
      ap (λ x. bit_xor x (inv_mix key))
        (inv_mix-bit_xor (sub_mix a b c d) key (sub_mix_word-lt a b c d h) k)
      ∙ bit_xor_twice (inv_mix (sub_mix a b c d)) (inv_mix key)
      ∙ inv_mix-sub_mix a b c d h

  -- A round of the inverse.
  round_back :
      (s : State) (inv_row row : ℕ)
      → IsState s
      → Mirrors inv_mix inv_keys keys inv_row row
      → add_key inv_keys inv_row (
          mix_round (inverse tables) (
            swap_rows
              (last_round (forward tables) (add_key keys row (mix_round (forward tables) s)))))
        ≡ swap_rows (last_round (forward tables) s)
  round_back s inv_row row h m =
      let next = add_key keys row (mix_round (forward tables) s) in
      let nexts =
        add_key-IsState keys row (mix_round (forward tables) s) ks (mix_round-IsState s h) in
      ap (add_key inv_keys inv_row) (mix_round_back next nexts)
      ∙ state_eq (add_key inv_keys inv_row (swap_rows (inv_state next)))
          (swap_rows (last_round (forward tables) s))
          (rw m.row_0 (column_back s.s0 s.s1 s.s2 s.s3 (keys row) h.first (ks row)))
          (rw m.row_1 (column_back s.s3 s.s0 s.s1 s.s2 (keys (row + 3)) h.fourth (ks (row + 3))))
          (rw m.row_2 (column_back s.s2 s.s3 s.s0 s.s1 (keys (row + 2)) h.third (ks (row + 2))))
          (rw m.row_3 (column_back s.s1 s.s2 s.s3 s.s0 (keys (row + 1)) h.second (ks (row + 1))))

  -- The state behind so many rounds.
  unfoldable pub after : (rounds row : ℕ) → State → State
  after zero row s = s
  after (suc rounds) row s =
      add_key keys (row + rounds * 4) (mix_round (forward tables) (after rounds row s))

  pub after-IsState : (rounds row : ℕ) (s : State) → IsState s → IsState (after rounds row s)
  unfolding after
  after-IsState zero row s h = h
  after-IsState (suc rounds) row s h =
      add_key-IsState keys (row + rounds * 4) (mix_round (forward tables) (after rounds row s)) ks
        (mix_round-IsState (after rounds row s) (after-IsState rounds row s h))

  after-first :
      (rounds row : ℕ) (s : State)
      → after rounds (row + 4) (add_key keys row (mix_round (forward tables) s))
        ≡ after (suc rounds) row s
  unfolding after
  after-first zero row s = let e : row + 0 * 4 ≡ row = omega arith in rw e refl
  after-first (suc rounds) row s =
      let e : row + 4 + rounds * 4 ≡ row + suc rounds * 4 = omega arith in
      rw e (
        ap (λ t. add_key keys (row + suc rounds * 4) (mix_round (forward tables) t))
          (after-first rounds row s))

  pub crypt_rounds-after :
      (rounds row : ℕ) (s : State)
      → crypt_rounds (forward tables) keys rounds row s
        ≡ add_key keys (row + rounds * 4) (last_round (forward tables) (after rounds row s))
  unfolding crypt_rounds after
  crypt_rounds-after zero row s = let e : row + 0 * 4 ≡ row = omega arith in rw e refl
  crypt_rounds-after (suc rounds) row s =
      let e : row + 4 + rounds * 4 ≡ row + suc rounds * 4 = omega arith in
      crypt_rounds-after rounds (row + 4) (add_key keys row (mix_round (forward tables) s))
      ∙ rw e (
          ap (λ t. add_key keys (row + suc rounds * 4) (last_round (forward tables) t))
            (after-first rounds row s))

  -- The rounds of the inverse, from behind the last one on.
  pub crypt_rounds_back :
      (rounds inv_row row : ℕ) (s : State)
      → IsState s
      → ((j : ℕ)
          → j < rounds
          → Mirrors inv_mix inv_keys keys (inv_row + j * 4) (row + (rounds - 1 - j) * 4))
      → crypt_rounds
          (inverse tables)
          inv_keys
          rounds
          inv_row
          (swap_rows (last_round (forward tables) (after rounds row s)))
        ≡ add_key inv_keys (inv_row + rounds * 4) (swap_rows s)
  unfolding crypt_rounds after
  crypt_rounds_back zero inv_row row s h m =
      let e : inv_row + 0 * 4 ≡ inv_row = omega arith in
      rw e (ap (add_key inv_keys inv_row) (last_round_back s h))
  crypt_rounds_back (suc rounds) inv_row row s h m =
      let e : inv_row + 4 + rounds * 4 ≡ inv_row + suc rounds * 4 = omega arith in
      let from : inv_row + 0 * 4 ≡ inv_row = omega arith in
      let to : row + (suc rounds - 1 - 0) * 4 ≡ row + rounds * 4 = omega arith in
      let here = rw (from, to) at (m 0 (omega arith)) in
      ap (crypt_rounds (inverse tables) inv_keys rounds (inv_row + 4)) (
        round_back (after rounds row s) inv_row (row + rounds * 4) (after-IsState rounds row s h)
          here)
      ∙ rw e at (
          crypt_rounds_back rounds (inv_row + 4) row s h (λ j l.
            let f : inv_row + 4 + j * 4 ≡ inv_row + suc j * 4 = omega arith in
            let g : rounds - 1 - j ≡ suc rounds - 1 - suc j = omega arith in
            rw (f, g) (m (suc j) (omega arith))))
