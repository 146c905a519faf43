-- ===== src/CryptoJs/Base64/Groups.antt =====
-- The digits of one, two or three bytes, as parseLoop reads them.
use moa_crypto.Common.{◌≡◌, refl, ◌∙◌, ℕ, suc, ◌+◌, ◌*◌, ◌/◌, ◌%◌, ◌<◌, arith, ◌∷◌}
use moa_crypto.Text.{Text}
use moa_crypto.CryptoJs.{Words, put_byte}
use moa_crypto.CryptoJs.Fill.{AreWords, IsClear}
use moa_crypto.CryptoJs.Bytes.{put_byte-AreWords, put_byte-here, put_byte-IsClear}
use moa_crypto.CryptoJs.Base64.{parse_loop}
use moa_crypto.CryptoJs.Base64.Steps.{unit_of, loop_step, step_none, step_one, step_two, step_three}

module _ (t a b c : ℕ) (whole : t ≡ a * 65536 + b * 256 + c) (first : a < 256) (second : b < 256)
    (third : c < 256) (words : Words) (n : ℕ) (w : AreWords words) (clear : IsClear words n)
    (i before : ℕ) (even : i % 4 ≡ 0) where
  abbrev after_one : Words
  after_one = put_byte words n a

  abbrev after_two : Words
  after_two = put_byte after_one (suc n) b

  abbrev pub after_three : Words
  after_three = put_byte after_two (suc (suc n)) c

  pub group_one :
      (rest : Text)
      → parse_loop (unit_of (t / 262144 % 64) ∷ unit_of (t / 4096 % 64) ∷ rest) i before words n
        ≡ parse_loop rest (suc (suc i)) (unit_of (t / 4096 % 64)) after_one (suc n)
  group_one rest =
      loop_step i before (unit_of (t / 262144 % 64)) n n (unit_of (t / 4096 % 64) ∷ rest) words
        words (step_none i before (unit_of (t / 262144 % 64)) n words even)
      ∙ loop_step (suc i) (unit_of (t / 262144 % 64)) (unit_of (t / 4096 % 64)) n (suc n) rest words
          after_one
          (step_one words n w clear (suc i) (t / 262144 % 64) (t / 4096 % 64) a (omega arith)
            (omega arith) (omega arith) (omega arith))

  after_one-AreWords : AreWords after_one
  after_one-AreWords = put_byte-AreWords words n a w clear first

  after_one-IsClear : IsClear after_one (suc n)
  after_one-IsClear = put_byte-IsClear words n a w clear first

  pub group_two :
      (rest : Text)
      → parse_loop
          (unit_of (t / 262144 % 64) ∷ unit_of (t / 4096 % 64) ∷ unit_of (t / 64 % 64) ∷ rest)
          i
          before
          words
          n
        ≡ parse_loop rest (suc (suc (suc i))) (unit_of (t / 64 % 64)) after_two (suc (suc n))
  group_two rest =
      group_one (unit_of (t / 64 % 64) ∷ rest)
      ∙ loop_step (suc (suc i)) (unit_of (t / 4096 % 64)) (unit_of (t / 64 % 64)) (suc n)
          (suc (suc n)) rest after_one after_two
          (step_two after_one n a after_one-AreWords after_one-IsClear
            (put_byte-here words n a w clear first) (suc (suc i)) (t / 4096 % 64) (t / 64 % 64)
            (a % 4) b (omega arith) (omega arith) (omega arith) second (omega arith) refl)

  after_two-AreWords : AreWords after_two
  after_two-AreWords =
      put_byte-AreWords after_one (suc n) b after_one-AreWords after_one-IsClear second

  after_two-IsClear : IsClear after_two (suc (suc n))
  after_two-IsClear =
      put_byte-IsClear after_one (suc n) b after_one-AreWords after_one-IsClear second

  pub group_three :
      (rest : Text)
      → parse_loop
          (unit_of (t / 262144 % 64)
            ∷ unit_of (t / 4096 % 64)
            ∷ unit_of (t / 64 % 64)
            ∷ unit_of (t % 64)
            ∷ rest)
          i
          before
          words
          n
        ≡ parse_loop rest
            (suc (suc (suc (suc i))))
            (unit_of (t % 64))
            after_three
            (suc (suc (suc n)))
  group_three rest =
      group_two (unit_of (t % 64) ∷ rest)
      ∙ loop_step (suc (suc (suc i))) (unit_of (t / 64 % 64)) (unit_of (t % 64)) (suc (suc n))
          (suc (suc (suc n))) rest after_two after_three
          (step_three after_two (suc n) b after_two-AreWords after_two-IsClear
            (put_byte-here after_one (suc n) b after_one-AreWords after_one-IsClear second)
            (suc (suc (suc i))) (t / 64 % 64) (t % 64) (b % 16) c (omega arith) (omega arith)
            (omega arith) third (omega arith) refl)
