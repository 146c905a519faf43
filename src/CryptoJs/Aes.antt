-- ===== src/CryptoJs/Aes.antt =====
-- CryptoJS.algo.AES: the key schedules, and the blocks. A key is of whole words, as the source's sizes
-- are; whether the key is the one of the reset before, when the schedules stay, makes no difference
-- to them and is not modelled.
pub mod Checks
pub mod Linear
pub mod Columns
pub mod Rounds
pub mod Schedules
pub mod Inverse
use Prim.Native.Nat.{bit_xor, bit_or}
use moa_crypto.Common.{
  ℕ, zero, suc, ◌+◌, ◌-◌, ◌*◌, ◌/◌, ◌%◌, ◌^◌, ltb, leb, ◌==◌, if◌then◌else◌, [], ◌∷◌, ◌&&◌, ◌||◌,
}
use moa_crypto.CryptoJs.{Words, WordArray, no_words, set}
use moa_crypto.CryptoJs.Join.{words_of}
use moa_crypto.CryptoJs.Modes.{Block}
use moa_crypto.CryptoJs.AesTables.{Tables, tables}

-- RCON
abbrev pub rcon : Words
rcon = words_of (0x00 ∷ 0x01 ∷ 0x02 ∷ 0x04 ∷ 0x08 ∷ 0x10 ∷ 0x20 ∷ 0x40 ∷ 0x80 ∷ 0x1b ∷ 0x36 ∷ [])

-- Four tables, or one, at the bytes of four words: >>> 24, >>> 16, >>> 8 and & 0xff.
abbrev pub mix_bytes : (m0 m1 m2 m3 : Words) (a b c d : ℕ) → ℕ
mix_bytes m0 m1 m2 m3 a b c d =
    bit_xor (bit_xor (bit_xor (m0 (a / 2 ^ 24)) (m1 (b / 2 ^ 16 % 256))) (m2 (c / 2 ^ 8 % 256)))
      (m3 (d % 256))

abbrev pub sub_bytes : Words → (a b c d : ℕ) → ℕ
sub_bytes sbox a b c d =
    bit_or
      (bit_or (bit_or (sbox (a / 2 ^ 24) * 2 ^ 24) (sbox (b / 2 ^ 16 % 256) * 2 ^ 16))
        (sbox (c / 2 ^ 8 % 256) * 2 ^ 8))
      (sbox (d % 256))

-- Rot word.
abbrev pub rot_word : ℕ → ℕ
rot_word t = bit_or (t * 2 ^ 8 % 2 ^ 32) (t / 2 ^ 24)

-- What a row of the key schedule adds.
abbrev pub row_word : Words → (key_size ks_row t : ℕ) → ℕ
row_word sbox key_size ks_row t =
    let turned = rot_word t in
    if ks_row % key_size == 0
    then bit_xor (sub_bytes sbox turned turned turned turned) (rcon (ks_row / key_size) * 2 ^ 24)
    else if ltb 6 key_size && (ks_row % key_size == 4)
    then sub_bytes sbox t t t t
    else t

-- The rows from ks_row on, so many.
unfoldable pub schedule_rows : (sbox key_words : Words) (key_size rows ks_row : ℕ) → Words → Words
schedule_rows sbox key_words key_size zero ks_row key_schedule = key_schedule
schedule_rows sbox key_words key_size (suc rows) ks_row key_schedule =
    let row =
      if ltb ks_row key_size
      then key_words ks_row
      else bit_xor (key_schedule (ks_row - key_size))
          (row_word sbox key_size ks_row (key_schedule (ks_row - 1))) in
    schedule_rows sbox key_words key_size rows (suc ks_row) (set key_schedule ks_row row)

-- A row of the inverse key schedule, of so many rows.
unfoldable pub inv_row : Tables → (ks_rows : ℕ) → (key_schedule : Words) → (inv_ks_row : ℕ) → ℕ
inv_row tables ks_rows key_schedule inv_ks_row =
    let ks_row = ks_rows - inv_ks_row in
    let t = if inv_ks_row % 4 == 0 then key_schedule (ks_row - 4) else key_schedule ks_row in
    let sbox = tables.sbox in
    if ltb inv_ks_row 4 || leb ks_row 4
    then t
    else mix_bytes (λ i. tables.inv_sub_mix_0 (sbox i)) (λ i. tables.inv_sub_mix_1 (sbox i))
        (λ i. tables.inv_sub_mix_2 (sbox i)) (λ i. tables.inv_sub_mix_3 (sbox i)) t t t t

-- _nRounds, _keySchedule and _invKeySchedule
pub record Schedule : Type 0 where
  pub n_rounds : ℕ
  pub key_schedule : Words
  pub inv_key_schedule : Words

-- _doReset
unfoldable pub do_reset : Tables → (key : WordArray) → Schedule
unfolding schedule_rows inv_row
do_reset tables key =
    let key_size = key.sig_bytes / 4 in
    let n_rounds = key_size + 6 in
    let ks_rows = (n_rounds + 1) * 4 in
    let key_schedule = schedule_rows tables.sbox key.words key_size ks_rows 0 no_words in
    record {
      n_rounds = n_rounds;
      key_schedule = key_schedule;
      inv_key_schedule = λ i. if ltb i ks_rows then inv_row tables ks_rows key_schedule i else 0;
    }

-- s0 to s3
pub record State : Type 0 where
  pub s0 : ℕ
  pub s1 : ℕ
  pub s2 : ℕ
  pub s3 : ℕ

-- The tables that a direction takes.
pub record Direction : Type 0 where
  pub mix_0 : Words
  pub mix_1 : Words
  pub mix_2 : Words
  pub mix_3 : Words
  pub box : Words

-- Add the round key.
abbrev pub add_key : Words → (ks_row : ℕ) → State → State
add_key key_schedule ks_row s = record {
  s0 = bit_xor s.s0 (key_schedule ks_row);
  s1 = bit_xor s.s1 (key_schedule (ks_row + 1));
  s2 = bit_xor s.s2 (key_schedule (ks_row + 2));
  s3 = bit_xor s.s3 (key_schedule (ks_row + 3));
}

abbrev pub mix_round : Direction → State → State
mix_round t s =
    let mix = mix_bytes t.mix_0 t.mix_1 t.mix_2 t.mix_3 in
    record {
      s0 = mix s.s0 s.s1 s.s2 s.s3;
      s1 = mix s.s1 s.s2 s.s3 s.s0;
      s2 = mix s.s2 s.s3 s.s0 s.s1;
      s3 = mix s.s3 s.s0 s.s1 s.s2;
    }

abbrev pub last_round : Direction → State → State
last_round t s = record {
  s0 = sub_bytes t.box s.s0 s.s1 s.s2 s.s3;
  s1 = sub_bytes t.box s.s1 s.s2 s.s3 s.s0;
  s2 = sub_bytes t.box s.s2 s.s3 s.s0 s.s1;
  s3 = sub_bytes t.box s.s3 s.s0 s.s1 s.s2;
}

-- The rounds, so many, from a row of the key schedule on, and the one behind them.
unfoldable pub crypt_rounds :
    Direction → (key_schedule : Words) → (rounds ks_row : ℕ) → State → State
crypt_rounds t key_schedule zero ks_row s = add_key key_schedule ks_row (last_round t s)
crypt_rounds t key_schedule (suc rounds) ks_row s =
    crypt_rounds t key_schedule rounds (ks_row + 4) (add_key key_schedule ks_row (mix_round t s))

-- _doCryptBlock, from the state that the four words of a block make.
unfoldable pub do_crypt_block : (n_rounds : ℕ) → (key_schedule : Words) → Direction → State → State
unfolding crypt_rounds
do_crypt_block n_rounds key_schedule t m =
    crypt_rounds t key_schedule (n_rounds - 1) 4 (add_key key_schedule 0 m)

abbrev pub forward : Tables → Direction
forward tables = record {
  mix_0 = tables.sub_mix_0;
  mix_1 = tables.sub_mix_1;
  mix_2 = tables.sub_mix_2;
  mix_3 = tables.sub_mix_3;
  box = tables.sbox;
}

abbrev pub inverse : Tables → Direction
inverse tables = record {
  mix_0 = tables.inv_sub_mix_0;
  mix_1 = tables.inv_sub_mix_1;
  mix_2 = tables.inv_sub_mix_2;
  mix_3 = tables.inv_sub_mix_3;
  box = tables.inv_sbox;
}

-- The words of a block, from an offset of 0 on.
abbrev pub state_of : Block → State
state_of m = record { s0 = words_of m 0; s1 = words_of m 1; s2 = words_of m 2; s3 = words_of m 3 }

abbrev pub block_of : State → Block
block_of s = s.s0 ∷ s.s1 ∷ s.s2 ∷ s.s3 ∷ []

-- Swap 2nd and 4th rows.
abbrev pub swap_rows : State → State
swap_rows s = record { s0 = s.s0; s1 = s.s3; s2 = s.s2; s3 = s.s1 }

unfoldable pub encrypt_block : (key : WordArray) → Block → Block
unfolding do_reset do_crypt_block
encrypt_block key m =
    let schedule = do_reset tables key in
    block_of (do_crypt_block schedule.n_rounds schedule.key_schedule (forward tables) (state_of m))

unfoldable pub decrypt_block : (key : WordArray) → Block → Block
unfolding do_reset do_crypt_block
decrypt_block key m =
    let schedule = do_reset tables key in
    block_of (
      swap_rows (
        do_crypt_block schedule.n_rounds schedule.inv_key_schedule (inverse tables)
          (swap_rows (state_of m))))
