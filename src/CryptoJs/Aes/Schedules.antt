-- ===== src/CryptoJs/Aes/Schedules.antt =====
-- The key schedules of AES: words of 32 bits, and the inverse one holds the blocks of the other from
-- behind.
use moa_crypto.Common.{
  ◌≡◌, refl, ◌∙◌, ℕ, zero, suc, ◌+◌, ◌-◌, ◌*◌, ◌/◌, ◌%◌, ◌^◌, ◌<◌, ◌≤◌, arith, List, [], ◌∷◌, All,
  Bool-cases, inl, inr, ltb, leb, ◌==◌, ◌&&◌, ◌||◌, true, false, if◌then◌else◌,
}
use moa_crypto.Common.Bits.{bit_xor-lt}
use moa_crypto.CryptoJs.{Words, WordArray, no_words}
use moa_crypto.CryptoJs.Digits.{shift, bit_or-shift}
use moa_crypto.CryptoJs.Fill.{AreWords}
use moa_crypto.CryptoJs.Append.{set-AreWords}
use moa_crypto.CryptoJs.Bytes.{no_words-AreWords}
use moa_crypto.CryptoJs.Join.{words_of}
use moa_crypto.CryptoJs.AesTables.{tables}
use moa_crypto.CryptoJs.Aes.{
  rcon, rot_word, row_word, schedule_rows, inv_row, do_reset, Schedule, sub_bytes,
}
use moa_crypto.CryptoJs.Aes.Checks.{
  inv_mix, inv_sub_mix_0-sbox, inv_sub_mix_1-sbox, inv_sub_mix_2-sbox, inv_sub_mix_3-sbox,
}
use moa_crypto.CryptoJs.Aes.Columns.{sub_bytes-lt, shift_8}
use moa_crypto.CryptoJs.Aes.Rounds.{Mirrors}

words_of-lt :
    (bound : ℕ) (xs : List ℕ)
    → 0 < bound
    → All (λ x. x < bound) xs
    → (i : ℕ) → words_of xs i < bound
words_of-lt bound [] h xs i = h
words_of-lt bound (x ∷ rest) h (x_lt, rests) zero = x_lt
words_of-lt bound (x ∷ rest) h (x_lt, rests) (suc i) = words_of-lt bound rest h rests i

rcon-lt : (i : ℕ) → rcon i < 256
rcon-lt = words_of-lt 256 (0 ∷ 1 ∷ 2 ∷ 4 ∷ 8 ∷ 16 ∷ 32 ∷ 64 ∷ 128 ∷ 27 ∷ 54 ∷ []) (omega arith) (
  omega arith,
  (
    omega arith,
    (
      omega arith,
      (
        omega arith,
        (
          omega arith,
          (
            omega arith,
            (omega arith, (omega arith, (omega arith, (omega arith, (omega arith, tt))))),
          ),
        ),
      ),
    ),
  ),
)

rot_word-lt : (t : ℕ) → t < 2 ^ 32 → rot_word t < 2 ^ 32
unfolding shift
rot_word-lt t h =
    let e : t * 2 ^ 8 % 2 ^ 32 ≡ t % 2 ^ 24 * 2 ^ 8 = omega arith in
    let joined =
      rw (shift_8 (t % 2 ^ 24)) at (bit_or-shift 8 (t % 2 ^ 24) (t / 2 ^ 24) (omega arith)) in
    rw (e, joined) (omega arith)

row_word-lt : (key_size ks_row t : ℕ) → t < 2 ^ 32 → row_word tables.sbox key_size ks_row t < 2 ^ 32
row_word-lt key_size ks_row t h = elim (Bool-cases (ks_row % key_size == 0)) [
  | inl first ↦
      let turned = rot_word t in
      let r = rcon-lt (ks_row / key_size) in
      rw first (
        bit_xor-lt 32 (sub_bytes tables.sbox turned turned turned turned)
          (rcon (ks_row / key_size) * 2 ^ 24)
          (sub_bytes-lt turned turned turned turned (rot_word-lt t h)) (omega (arith, r)))
  | inr other ↦ elim (Bool-cases (ltb 6 key_size && (ks_row % key_size == 4))) [
    | inl middle ↦ rw (other, middle) (sub_bytes-lt t t t t h)
    | inr plain ↦ rw (other, plain) h
  ]
]

pub schedule_rows-AreWords :
    (key_words : Words) (key_size : ℕ)
    → AreWords key_words
    → (rows ks_row : ℕ) (key_schedule : Words) → AreWords key_schedule
    → AreWords (schedule_rows tables.sbox key_words key_size rows ks_row key_schedule)
unfolding schedule_rows
schedule_rows-AreWords key_words key_size ks zero ks_row key_schedule h = h
schedule_rows-AreWords key_words key_size ks (suc rows) ks_row key_schedule h =
    schedule_rows-AreWords key_words key_size ks rows (suc ks_row) _ (
      set-AreWords key_schedule ks_row _ h (elim (Bool-cases (ltb ks_row key_size)) [
        | inl given ↦ rw given (ks ks_row)
        | inr made ↦ rw made (
            bit_xor-lt 32 (key_schedule (ks_row - key_size))
              (row_word tables.sbox key_size ks_row (key_schedule (ks_row - 1)))
              (h (ks_row - key_size))
              (row_word-lt key_size ks_row (key_schedule (ks_row - 1)) (h (ks_row - 1))))
      ]))

-- The row of the schedule that a row of the inverse one is made of.
abbrev from_row : (keys : Words) (ks_rows i : ℕ) → ℕ
from_row keys ks_rows i = if i % 4 == 0 then keys (ks_rows - i - 4) else keys (ks_rows - i)

mirror :
    (through : ℕ → ℕ) (inv_keys keys : Words) (ks_rows q row : ℕ)
    → ks_rows ≡ q * 4 + row + 4
    → ((i : ℕ) → i / 4 ≡ q → inv_keys i ≡ through (from_row keys ks_rows i))
    → Mirrors through inv_keys keys (q * 4) row
mirror through inv_keys keys ks_rows q row size made = record {
  row_0 =
      let even : q * 4 % 4 ≡ 0 = omega arith in
      let e : ks_rows - q * 4 - 4 ≡ row = omega (arith, size) in
      made (q * 4) (omega arith) ∙ rw (even, e) refl;
  row_1 =
      let odd : (q * 4 + 1) % 4 ≡ 1 = omega arith in
      let e : ks_rows - (q * 4 + 1) ≡ row + 3 = omega (arith, size) in
      made (q * 4 + 1) (omega arith) ∙ rw (odd, e) refl;
  row_2 =
      let odd : (q * 4 + 2) % 4 ≡ 2 = omega arith in
      let e : ks_rows - (q * 4 + 2) ≡ row + 2 = omega (arith, size) in
      made (q * 4 + 2) (omega arith) ∙ rw (odd, e) refl;
  row_3 =
      let odd : (q * 4 + 3) % 4 ≡ 3 = omega arith in
      let e : ks_rows - (q * 4 + 3) ≡ row + 1 = omega (arith, size) in
      made (q * 4 + 3) (omega arith) ∙ rw (odd, e) refl;
}

inv_row-outer :
    (ks_rows : ℕ) (keys : Words) (i : ℕ)
    → (ltb i 4 || leb (ks_rows - i) 4) ≡ true
    → inv_row tables ks_rows keys i ≡ from_row keys ks_rows i
unfolding inv_row
inv_row-outer ks_rows keys i e = rw e refl

inv_row-inner :
    (ks_rows : ℕ) (keys : Words) (i : ℕ)
    → AreWords keys
    → (ltb i 4 || leb (ks_rows - i) 4) ≡ false
    → inv_row tables ks_rows keys i ≡ inv_mix (from_row keys ks_rows i)
unfolding inv_row
inv_row-inner ks_rows keys i ks e =
    let t = from_row keys ks_rows i in
    let t_lt : from_row keys ks_rows i < 2 ^ 32 = (elim (Bool-cases (i % 4 == 0)) [
      | inl even ↦ rw even (ks (ks_rows - i - 4))
      | inr odd ↦ rw odd (ks (ks_rows - i))
    ]) in
    rw
      (
        e,
        inv_sub_mix_0-sbox (t / 2 ^ 24) (omega arith),
        inv_sub_mix_1-sbox (t / 2 ^ 16 % 256) (omega arith),
        inv_sub_mix_2-sbox (t / 2 ^ 8 % 256) (omega arith),
        inv_sub_mix_3-sbox (t % 256) (omega arith),
      )
      refl

-- The schedules of a key.
module _ (key : WordArray) (ks : AreWords key.words) where
  abbrev pub schedule : Schedule
  schedule = do_reset tables key

  abbrev pub keys : Words
  keys = schedule.key_schedule

  pub keys-AreWords : AreWords keys
  unfolding do_reset
  keys-AreWords =
      schedule_rows-AreWords key.words (key.sig_bytes / 4) ks ((key.sig_bytes / 4 + 6 + 1) * 4) 0
        no_words no_words-AreWords

  pub n_rounds-schedule : schedule.n_rounds ≡ key.sig_bytes / 4 + 6
  unfolding do_reset
  n_rounds-schedule = refl

  inv_key-row :
      (i : ℕ)
      → i < (schedule.n_rounds + 1) * 4
      → schedule.inv_key_schedule i ≡ inv_row tables ((schedule.n_rounds + 1) * 4) keys i
  unfolding do_reset
  inv_key-row i h =
      let e : ltb i ((key.sig_bytes / 4 + 6 + 1) * 4) ≡ true = ground arith in rw e refl

  -- Its first block and its last.
  pub outer-Mirrors :
      (q row : ℕ)
      → (schedule.n_rounds + 1) * 4 ≡ q * 4 + row + 4
      → ((i : ℕ) → i / 4 ≡ q → (ltb i 4 || leb ((schedule.n_rounds + 1) * 4 - i) 4) ≡ true)
      → Mirrors (λ x. x) schedule.inv_key_schedule keys (q * 4) row
  outer-Mirrors q row size out =
      mirror (λ x. x) schedule.inv_key_schedule keys ((schedule.n_rounds + 1) * 4) q row size
        (λ i h.
          inv_key-row i (omega (arith, size, h))
          ∙ inv_row-outer ((schedule.n_rounds + 1) * 4) keys i (out i h))

  -- A block between them.
  pub inner-Mirrors :
      (q row : ℕ)
      → (schedule.n_rounds + 1) * 4 ≡ q * 4 + row + 4
      → 0 < q
      → 4 ≤ row
      → Mirrors inv_mix schedule.inv_key_schedule keys (q * 4) row
  inner-Mirrors q row size low high =
      mirror inv_mix schedule.inv_key_schedule keys ((schedule.n_rounds + 1) * 4) q row size (λ i h.
        let after_first : ltb i 4 ≡ false = ground arith in
        let before_last : leb ((schedule.n_rounds + 1) * 4 - i) 4 ≡ false = ground arith in
        inv_key-row i (omega (arith, size, h))
        ∙ inv_row-inner ((schedule.n_rounds + 1) * 4) keys i keys-AreWords
            (rw (after_first, before_last) refl))
