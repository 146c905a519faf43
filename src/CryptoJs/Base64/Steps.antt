-- ===== src/CryptoJs/Base64/Steps.antt =====
-- The rounds of parseLoop on digits that stand for bytes.
use Prim.Native.Nat.{bit_or}
use moa_crypto.Common.{◌≡◌, refl, ap, ℕ, suc, ◌+◌, ◌-◌, ◌*◌, ◌/◌, ◌%◌, ◌^◌, ◌<◌, arith, ◌∷◌}
use moa_crypto.Text.{Text}
use moa_crypto.CryptoJs.{Words, byte_of, byte_at, put_byte, set}
use moa_crypto.CryptoJs.Digits.{shift, bit_or-shift}
use moa_crypto.CryptoJs.Fill.{AreWords, IsClear}
use moa_crypto.CryptoJs.Base64.{base64_map, char_at, parse_step, parse_loop}
use moa_crypto.CryptoJs.Base64.Overlap.{EndsIn, or_wide}
use moa_crypto.CryptoJs.Base64.Chars.{reverse_map-char_at}

-- The unit that stands for a number.
abbrev pub unit_of : ℕ → ℕ
unit_of v = char_at base64_map v

-- One round of the loop puts one byte, where the bits above it are those that are there.
put_wide :
    (j hi b n : ℕ) (words : Words)
    → AreWords words
    → IsClear words n
    → b < 256
    → hi < 16
    → hi < shift j 1
    → EndsIn j hi (words (n / 4)) (n % 4)
    → set words (n / 4) (bit_or (words (n / 4)) ((hi * 256 + b) * 2 ^ (24 - n % 4 * 8) % 2 ^ 32))
      ≡ put_byte words n b
unfolding put_byte
put_wide j hi b n words w clear c l h ends = ap (set words (n / 4)) (
    or_wide j (words (n / 4)) hi b (w (n / 4)) c l h (n % 4) (omega arith)
      (λ k lt le.
        let place : (n / 4 * 4 + k) / 4 ≡ n / 4 = omega arith in
        let rest : (n / 4 * 4 + k) % 4 ≡ k = omega arith in
        let cleared : byte_at words (n / 4 * 4 + k) ≡ 0 = clear (n / 4 * 4 + k) (omega arith) in
        rw (place, rest) at cleared)
      ends)

-- The word in front of a place ends in the digits of the byte before.
ends_in :
    (j hi n byte : ℕ) (words : Words)
    → byte_at words n ≡ byte
    → ((x : ℕ) → x % 256 ≡ byte → (q : ℕ) × (x ≡ shift j q + hi))
    → EndsIn j hi (words (suc n / 4)) (suc n % 4)
unfolding byte_of
ends_in j hi n byte words e split ne =
    let place : suc n / 4 ≡ n / 4 = omega arith in
    let rest : 32 - suc n % 4 * 8 ≡ 24 - n % 4 * 8 = omega arith in
    rw (place, rest) (split (words (n / 4) / 2 ^ (24 - n % 4 * 8)) e)

split_two :
    (hi byte : ℕ) → byte % 4 ≡ hi → (x : ℕ) → x % 256 ≡ byte → (q : ℕ) × (x ≡ shift 2 q + hi)
unfolding shift
split_two hi byte f x e = (x / 4, omega arith)

split_four :
    (hi byte : ℕ) → byte % 16 ≡ hi → (x : ℕ) → x % 256 ≡ byte → (q : ℕ) × (x ≡ shift 4 q + hi)
unfolding shift
split_four hi byte f x e = (x / 16, omega arith)

split_none : (x : ℕ) → (q : ℕ) × (x ≡ shift 0 q + 0)
unfolding shift
split_none x = (x, omega arith)

or_digits_one : (v w : ℕ) → w < 64 → bit_or (v * 4) (w / 16) ≡ v * 4 + w / 16
unfolding shift
or_digits_one v w l =
    let e : v * 4 ≡ shift 2 v = omega arith in rw e (bit_or-shift 2 v (w / 16) (omega arith))

or_digits_two : (v w : ℕ) → w < 64 → bit_or (v * 16) (w / 4) ≡ v * 16 + w / 4
unfolding shift
or_digits_two v w l =
    let e : v * 16 ≡ shift 4 v = omega arith in rw e (bit_or-shift 4 v (w / 4) (omega arith))

or_digits_three : (v w : ℕ) → w < 64 → bit_or (v * 64) (w / 1) ≡ v * 64 + w
unfolding shift
or_digits_three v w l =
    let e : v * 64 ≡ shift 6 v = omega arith in
    let f : w / 1 ≡ w = omega arith in rw (e, f) (bit_or-shift 6 v w l)

pub loop_step :
    (i before here n n' : ℕ) (rest : Text) (words words' : Words)
    → parse_step i before here words n ≡ (words', n')
    → parse_loop (here ∷ rest) i before words n ≡ parse_loop rest (suc i) here words' n'
unfolding parse_loop
loop_step i before here n n' rest words words' e =
    ap (λ (r : Words × ℕ). parse_loop rest (suc i) here r.0 r.1) e

pub step_none :
    (i before here n : ℕ) (words : Words)
    → i % 4 ≡ 0
    → parse_step i before here words n ≡ (words, n)
unfolding parse_step
step_none i before here n words e = rw e refl

module _ (words : Words) (n : ℕ) (w : AreWords words) (clear : IsClear words n) where
  pub step_one :
      (i v v' b : ℕ)
      → i % 4 ≡ 1
      → v < 64
      → v' < 64
      → v * 4 + v' / 16 ≡ b
      → parse_step i (unit_of v) (unit_of v') words n ≡ (put_byte words n b, suc n)
  unfolding parse_step shift
  step_one i v v' b e l l' f =
      let whole : v * 4 + v' / 16 ≡ 0 * 256 + b = omega arith in
      let below : b < 256 = omega arith in
      let next : n + 1 ≡ suc n = omega arith in
      rw (e, reverse_map-char_at v l, reverse_map-char_at v' l', or_digits_one v v' l', whole, next)
        (ap (λ ws. (ws, suc n))
          (put_wide 0 0 b n words w clear below (omega arith) (omega arith)
            (λ _. split_none (words (n / 4) / 2 ^ (32 - n % 4 * 8)))))

module _ (words : Words) (n byte : ℕ) (w : AreWords words) (clear : IsClear words (suc n))
    (last : byte_at words n ≡ byte) where
  pub step_two :
      (i v v' hi b : ℕ)
      → i % 4 ≡ 2
      → v < 64
      → v' < 64
      → b < 256
      → v * 16 + v' / 4 ≡ hi * 256 + b
      → byte % 4 ≡ hi
      → parse_step i (unit_of v) (unit_of v') words (suc n)
        ≡ (put_byte words (suc n) b, suc (suc n))
  unfolding parse_step shift
  step_two i v v' hi b e l l' below f g =
      let next : suc n + 1 ≡ suc (suc n) = omega arith in
      rw (e, reverse_map-char_at v l, reverse_map-char_at v' l', or_digits_two v v' l', f, next)
        (ap (λ ws. (ws, suc (suc n)))
          (put_wide 2 hi b (suc n) words w clear below (omega arith) (omega arith)
            (ends_in 2 hi n byte words last (split_two hi byte g))))

  pub step_three :
      (i v v' hi b : ℕ)
      → i % 4 ≡ 3
      → v < 64
      → v' < 64
      → b < 256
      → v * 64 + v' ≡ hi * 256 + b
      → byte % 16 ≡ hi
      → parse_step i (unit_of v) (unit_of v') words (suc n)
        ≡ (put_byte words (suc n) b, suc (suc n))
  unfolding parse_step shift
  step_three i v v' hi b e l l' below f g =
      let next : suc n + 1 ≡ suc (suc n) = omega arith in
      rw (e, reverse_map-char_at v l, reverse_map-char_at v' l', or_digits_three v v' l', f, next)
        (ap (λ ws. (ws, suc (suc n)))
          (put_wide 4 hi b (suc n) words w clear below (omega arith) (omega arith)
            (ends_in 4 hi n byte words last (split_four hi byte g))))
