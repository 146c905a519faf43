-- ===== src/CryptoJs/AesTables.antt =====
-- The lookup tables of CryptoJS.algo.AES. Words are kept below 2 ^ 32.
use Prim.Native.Nat.{bit_xor, bit_or}
use moa_crypto.Common.{ℕ, zero, suc, ◌-◌, ◌*◌, ◌/◌, ◌%◌, ◌^◌, ltb, ◌==◌, if◌then◌else◌}
use moa_crypto.CryptoJs.{Words, no_words, set}

-- d
abbrev pub double : ℕ → ℕ
double i = if ltb i 128 then i * 2 else bit_xor (i * 2) 0x11b

pub record Tables : Type 0 where
  pub sbox : Words
  pub inv_sbox : Words
  pub sub_mix_0 : Words
  pub sub_mix_1 : Words
  pub sub_mix_2 : Words
  pub sub_mix_3 : Words
  pub inv_sub_mix_0 : Words
  pub inv_sub_mix_1 : Words
  pub inv_sub_mix_2 : Words
  pub inv_sub_mix_3 : Words

abbrev pub no_tables : Tables
no_tables = record {
  sbox = no_words;
  inv_sbox = no_words;
  sub_mix_0 = no_words;
  sub_mix_1 = no_words;
  sub_mix_2 = no_words;
  sub_mix_3 = no_words;
  inv_sub_mix_0 = no_words;
  inv_sub_mix_1 = no_words;
  inv_sub_mix_2 = no_words;
  inv_sub_mix_3 = no_words;
}

-- (t << (32 - n)) | (t >>> n)
abbrev pub turn : (t n : ℕ) → ℕ
turn t n = bit_or (t * 2 ^ (32 - n) % 2 ^ 32) (t / 2 ^ n)

-- sx
abbrev pub sub : (xi : ℕ) → ℕ
sub xi =
    let sx = bit_xor (bit_xor (bit_xor (bit_xor xi (xi * 2)) (xi * 4)) (xi * 8)) (xi * 16) in
    bit_xor (bit_xor (sx / 2 ^ 8) (sx % 2 ^ 8)) 0x63

-- The word of "sub bytes, mix columns", and that of the inverse.
abbrev pub mixed : (sx : ℕ) → ℕ
mixed sx = bit_xor (double sx * 0x101) (sx * 0x1010100)

abbrev pub inv_mixed : (x : ℕ) → ℕ
inv_mixed x =
    let x2 = double x in
    let x4 = double x2 in
    let x8 = double x4 in
    bit_xor (bit_xor (bit_xor (x8 * 0x1010101) (x4 * 0x10001)) (x2 * 0x101)) (x * 0x1010100)

-- What one round sets.
unfoldable pub fill_tables : (x sx : ℕ) → Tables → Tables
fill_tables x sx tables =
    let t = mixed sx in
    let inv_t = inv_mixed x in
    record {
      sbox = set tables.sbox x sx;
      inv_sbox = set tables.inv_sbox sx x;
      sub_mix_0 = set tables.sub_mix_0 x (turn t 8);
      sub_mix_1 = set tables.sub_mix_1 x (turn t 16);
      sub_mix_2 = set tables.sub_mix_2 x (turn t 24);
      sub_mix_3 = set tables.sub_mix_3 x t;
      inv_sub_mix_0 = set tables.inv_sub_mix_0 sx (turn inv_t 8);
      inv_sub_mix_1 = set tables.inv_sub_mix_1 sx (turn inv_t 16);
      inv_sub_mix_2 = set tables.inv_sub_mix_2 sx (turn inv_t 24);
      inv_sub_mix_3 = set tables.inv_sub_mix_3 sx inv_t;
    }

-- The next counter.
abbrev pub next_x : (x : ℕ) → ℕ
next_x x =
    let x2 = double x in
    let x8 = double (double x2) in
    if x == 0 then 1 else bit_xor x2 (double (double (double (bit_xor x8 x2))))

abbrev pub next_xi : (x xi : ℕ) → ℕ
next_xi x xi = if x == 0 then 1 else bit_xor xi (double (double xi))

-- The walk of GF(2^8), for so many rounds.
unfoldable pub walk : (rounds x xi : ℕ) → Tables → Tables
unfolding fill_tables
walk zero x xi tables = tables
walk (suc rounds) x xi tables =
    walk rounds (next_x x) (next_xi x xi) (fill_tables x (sub xi) tables)

unfoldable pub tables : Tables
unfolding walk
tables = walk 256 0 0 no_tables
