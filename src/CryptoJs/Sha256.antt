-- ===== src/CryptoJs/Sha256.antt =====
-- CryptoJS.algo.SHA256. Words are kept below 2 ^ 32, so `| 0` is a remainder; the constants are the
-- first 32 fractional digits of the roots of primes, which the source takes from floating point.
use Prim.Native.Nat.{bit_and, bit_or, bit_xor}
use moa_crypto.Common.{
  ℕ, zero, suc, ◌+◌, ◌-◌, ◌*◌, ◌/◌, ◌%◌, ◌^◌, List, [], ◌∷◌, leb, ltb, ◌==◌, if◌then◌else◌, Bool,
  true, false, not, map, take,
}
use moa_crypto.CryptoJs.{Words, WordArray, no_words, set, put_byte}
use moa_crypto.CryptoJs.Join.{words_of}
use moa_crypto.CryptoJs.Modes.{Block}
use moa_crypto.CryptoJs.Buffer.{Buffer, Algorithm, reset, append, process}

-- !(n % factor) for one of so many factors from 2 on.
abbrev pub has_factor : (n tries factor : ℕ) → Bool
has_factor n zero factor = false
has_factor n (suc tries) factor =
    let later = has_factor n tries (suc factor) in
    if ltb n (factor * factor) then false else if n % factor == 0 then true else later

-- The largest number whose power is at most n, by its digits from a bit on.
abbrev pub root : (power n : ℕ) → (bits found : ℕ) → ℕ
root power n zero found = found
root power n (suc bits) found =
    root power n bits (if leb ((found + 2 ^ bits) ^ power) n then found + 2 ^ bits else found)

-- The first 32 fractional digits of a root of n.
abbrev pub get_fractional_bits : (power n : ℕ) → ℕ
get_fractional_bits power n = root power (n * 2 ^ (32 * power)) 40 0 % 2 ^ 32

-- The primes from n on, so many, within so many numbers.
abbrev pub primes_from : (fuel n n_prime : ℕ) → List ℕ
primes_from zero n n_prime = []
primes_from (suc fuel) n zero = []
primes_from (suc fuel) n (suc n_prime) =
    let is_prime = not (has_factor n 20 2) in
    let rest = primes_from fuel (suc n) (if is_prime then n_prime else suc n_prime) in
    if is_prime then n ∷ rest else rest

-- The 64th prime is 311.
abbrev pub primes : List ℕ
primes = primes_from 310 2 64

-- H and K
abbrev pub initial_hash : Words
initial_hash = words_of (map (get_fractional_bits 2) (take 8 primes))

abbrev pub round_constants : Words
round_constants = words_of (map (get_fractional_bits 3) primes)

-- (x << (32 - n)) | (x >>> n)
abbrev pub rotate : (x n : ℕ) → ℕ
rotate x n = bit_or (x * 2 ^ (32 - n) % 2 ^ 32) (x / 2 ^ n)

-- W[i] is a sum that is not cut to 32 bits; whatever reads it cuts it.
abbrev pub extend : (i : ℕ) → Words → ℕ
extend i w =
    let gamma0x = w (i - 15) in
    let gamma0 = bit_xor (bit_xor (rotate gamma0x 7) (rotate gamma0x 18)) (gamma0x / 2 ^ 3) in
    let gamma1x = w (i - 2) in
    let gamma1 = bit_xor (bit_xor (rotate gamma1x 17) (rotate gamma1x 19)) (gamma1x / 2 ^ 10) in
    (gamma0 + w (i - 7) + gamma1 + w (i - 16)) % 2 ^ 32

pub record Working : Type 0 where
  pub a : ℕ
  pub b : ℕ
  pub c : ℕ
  pub d : ℕ
  pub e : ℕ
  pub f : ℕ
  pub g : ℕ
  pub h : ℕ

unfoldable pub round_step : (k w : ℕ) → Working → Working
round_step k w v =
    let ch = bit_xor (bit_and v.e v.f) (bit_and (2 ^ 32 - 1 - v.e) v.g) in
    let maj = bit_xor (bit_xor (bit_and v.a v.b) (bit_and v.a v.c)) (bit_and v.b v.c) in
    let sigma0 = bit_xor (bit_xor (rotate v.a 2) (rotate v.a 13)) (rotate v.a 22) in
    let sigma1 = bit_xor (bit_xor (rotate v.e 6) (rotate v.e 11)) (rotate v.e 25) in
    let t1 = v.h + sigma1 + ch + k + w in
    let t2 = sigma0 + maj in
    record {
      a = (t1 + t2) % 2 ^ 32;
      b = v.a;
      c = v.b;
      d = v.c;
      e = (v.d + t1) % 2 ^ 32;
      f = v.e;
      g = v.f;
      h = v.g;
    }

-- The computation, for so many rounds from i on, over the words W.
unfoldable pub rounds_from : (constants m : Words) (i rounds : ℕ) → Words → Working → Working
unfolding round_step
rounds_from constants m i zero w v = v
rounds_from constants m i (suc rounds) w v =
    let here = if ltb i 16 then m i else extend i w in
    rounds_from constants m (suc i) rounds (set w i here) (round_step (constants i) here v)

-- _doProcessBlock: the words of the block are M from the offset on.
unfoldable pub do_process_block : (hash : Words) (m : Block) → Words
unfolding rounds_from
do_process_block hash m =
    let v = rounds_from round_constants (words_of m) 0 64 no_words (record {
      a = hash 0;
      b = hash 1;
      c = hash 2;
      d = hash 3;
      e = hash 4;
      f = hash 5;
      g = hash 6;
      h = hash 7;
    }) in
    words_of (
      ((hash 0 + v.a) % 2 ^ 32)
      ∷ ((hash 1 + v.b) % 2 ^ 32)
      ∷ ((hash 2 + v.c) % 2 ^ 32)
      ∷ ((hash 3 + v.d) % 2 ^ 32)
      ∷ ((hash 4 + v.e) % 2 ^ 32)
      ∷ ((hash 5 + v.f) % 2 ^ 32)
      ∷ ((hash 6 + v.g) % 2 ^ 32)
      ∷ ((hash 7 + v.h) % 2 ^ 32)
      ∷ [])

-- The algorithm leaves the words of a block as they are.
abbrev pub sha256 : Algorithm
sha256 = record {
  State = Words;
  block_size = 16;
  min_buffer_size = 0;
  do_process_block = λ hash m. (m, do_process_block hash m);
}

-- The padding of _doFinalize: a bit, zeros to the end of a block, and the count of bits.
unfoldable pub pad_message : Buffer → Buffer
unfolding put_byte
pad_message b =
    let n_bits_total = b.n_data_bytes * 8 in
    let n_bits_left = b.data_.sig_bytes * 8 in
    let last = (n_bits_left + 64) / 512 * 16 + 15 in
    record b {
      data_ = record {
        words =
            set
              (set (put_byte b.data_.words b.data_.sig_bytes 0x80) (last - 1)
                (n_bits_total / 2 ^ 32))
              last (n_bits_total % 2 ^ 32);
        sig_bytes = (last + 1) * 4;
      };
    }

-- Hasher: the buffer, and _hash.
pub record Hasher : Type 0 where
  pub buffer : Buffer
  pub hash : Words

abbrev pub hasher_reset : Hasher
hasher_reset = record { buffer = reset; hash = initial_hash }

-- Appends, and takes the blocks that are ready.
unfoldable pub absorb : Hasher → Buffer → Hasher
unfolding process
absorb hasher b =
    let (_, left, hash) = process sha256 false b hasher.hash in
    record { buffer = left; hash = hash }

unfoldable pub update : Hasher → WordArray → Hasher
unfolding absorb append
update hasher message_update = absorb hasher (append hasher.buffer message_update)

-- The hash, of eight words.
unfoldable pub finalize : Hasher → WordArray → WordArray
unfolding absorb append pad_message
finalize hasher message_update =
    let hash = (absorb hasher (pad_message (append hasher.buffer message_update))).hash in
    record { words = hash; sig_bytes = 32 }

-- CryptoJS.SHA256(message)
unfoldable pub hash_of : WordArray → WordArray
unfolding finalize
hash_of message = finalize hasher_reset message
