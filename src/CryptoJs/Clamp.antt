-- ===== src/CryptoJs/Clamp.antt =====
-- Clamping keeps the significant bytes and clears the rest.
use Prim.Native.Nat.{bit_and}
use moa_crypto.Common.{
  ◌≡◌, ◌≢◌, refl, ◌∙◌, ℕ, ◌+◌, ◌*◌, ◌/◌, ◌%◌, ◌^◌, ◌≤◌, ◌<◌, arith, true, ltb, ◌↔◌, Bool-cases, inl,
  inr, ◌⊎◌,
}
use moa_crypto.CryptoJs.{Words, WordArray, set, byte_of, byte_at, bytes}
use moa_crypto.CryptoJs.Digits.{shift, ones, bit_and-mask}
use moa_crypto.CryptoJs.Fill.{AreWords, IsClear, below_four}
use moa_crypto.CryptoJs.Bytes.{set_here, set_elsewhere, zero-byte_of, bytes_from_same}
use moa_crypto.CryptoJs.Join.{mask, truncate, clamp}

and_at :
    (m k word msk hi lo : ℕ)
    → word ≡ shift m hi + lo
    → msk ≡ shift m (ones k)
    → lo < shift m 1
    → hi < shift k 1
    → bit_and word msk ≡ shift m hi
and_at m k word msk hi lo e f l h = rw (e, f) (bit_and-mask m k hi lo l h)

-- The first k bytes of a word, and nothing else.
record FirstOf (word k v : ℕ) : Type 0 where
  in_range : v < 2 ^ 32
  kept : (i : ℕ) → i < k → byte_of v i ≡ byte_of word i
  cleared : (i : ℕ) → k ≤ i → i < 4 → byte_of v i ≡ 0

mask_one : (word : ℕ) → word < 2 ^ 32 → bit_and word (mask 1) ≡ word / 16777216 * 16777216
unfolding shift ones
mask_one word w =
    and_at 24 8 word (mask 1) (word / 16777216) (word % 16777216) (omega arith) refl (omega arith)
      (omega arith)
    ∙ omega arith

mask_two : (word : ℕ) → word < 2 ^ 32 → bit_and word (mask 2) ≡ word / 65536 * 65536
unfolding shift ones
mask_two word w =
    and_at 16 16 word (mask 2) (word / 65536) (word % 65536) (omega arith) refl (omega arith)
      (omega arith)
    ∙ omega arith

mask_three : (word : ℕ) → word < 2 ^ 32 → bit_and word (mask 3) ≡ word / 256 * 256
unfolding shift ones
mask_three word w =
    and_at 8 24 word (mask 3) (word / 256) (word % 256) (omega arith) refl (omega arith)
      (omega arith)
    ∙ omega arith

first_of :
    (word : ℕ) → word < 2 ^ 32 → (k : ℕ) → k < 4 → k ≢ 0 → FirstOf word k (bit_and word (mask k))
unfolding byte_of
first_of word w =
    below_four (λ k. k ≢ 0 → FirstOf word k (bit_and word (mask k))) (λ ne. absurd (ne refl))
      (λ _. rw (mask_one word w) (record {
        in_range = omega arith;
        kept = λ i h.
            below_four (λ i. i < 1 → byte_of (word / 16777216 * 16777216) i ≡ byte_of word i)
              (λ _. omega arith) (λ h. absurd (omega arith)) (λ h. absurd (omega arith))
              (λ h. absurd (omega arith)) i (omega arith) h;
        cleared = λ i le h.
            below_four (λ i. 1 ≤ i → byte_of (word / 16777216 * 16777216) i ≡ 0)
              (λ h. absurd (omega arith)) (λ _. omega arith) (λ _. omega arith) (λ _. omega arith) i
              h le;
      }))
      (λ _. rw (mask_two word w) (record {
        in_range = omega arith;
        kept = λ i h.
            below_four (λ i. i < 2 → byte_of (word / 65536 * 65536) i ≡ byte_of word i)
              (λ _. omega arith) (λ _. omega arith) (λ h. absurd (omega arith))
              (λ h. absurd (omega arith)) i (omega arith) h;
        cleared = λ i le h.
            below_four (λ i. 2 ≤ i → byte_of (word / 65536 * 65536) i ≡ 0)
              (λ h. absurd (omega arith)) (λ h. absurd (omega arith)) (λ _. omega arith)
              (λ _. omega arith) i h le;
      }))
      (λ _. rw (mask_three word w) (record {
        in_range = omega arith;
        kept = λ i h.
            below_four (λ i. i < 3 → byte_of (word / 256 * 256) i ≡ byte_of word i)
              (λ _. omega arith) (λ _. omega arith) (λ _. omega arith) (λ h. absurd (omega arith)) i
              (omega arith) h;
        cleared = λ i le h.
            below_four (λ i. 3 ≤ i → byte_of (word / 256 * 256) i ≡ 0) (λ h. absurd (omega arith))
              (λ h. absurd (omega arith)) (λ h. absurd (omega arith)) (λ _. omega arith) i h le;
      }))

ltb_iff : (a b : ℕ) → (ltb a b ≡ true) ↔ (a < b)
ltb_iff a b = ground arith

truncate-below : (words : Words) (n i : ℕ) → i < n → truncate words n i ≡ words i
truncate-below words n i h = rw ((ltb_iff i n).1 h) refl

truncate-above : (words : Words) (n i : ℕ) → n ≤ i → truncate words n i ≡ 0
truncate-above words n i h = elim (Bool-cases (ltb i n)) [
  | inl below ↦ absurd (omega (arith, (ltb_iff i n).0 below))
  | inr above ↦ rw above refl
]

module _ (w : WordArray) (ws : AreWords w.words) where
  abbrev last_place : ℕ
  last_place = w.sig_bytes / 4

  abbrev last_word : ℕ
  last_word = bit_and (w.words last_place) (mask (w.sig_bytes % 4))

  abbrev masked : Words
  masked = set w.words last_place last_word

  -- The words after the clamp, place by place.
  clamp-before : (i : ℕ) → i < last_place → (clamp w).words i ≡ w.words i
  unfolding clamp
  clamp-before i h =
      truncate-below masked ((w.sig_bytes + 3) / 4) i (omega arith)
      ∙ set_elsewhere w.words last_place last_word i (λ e. omega arith)

  clamp-at : w.sig_bytes % 4 ≢ 0 → (clamp w).words last_place ≡ last_word
  unfolding clamp
  clamp-at ne =
      truncate-below masked ((w.sig_bytes + 3) / 4) last_place (omega arith)
      ∙ set_here w.words last_place last_word

  clamp-after : (i : ℕ) → w.sig_bytes ≤ 4 * i → (clamp w).words i ≡ 0
  unfolding clamp
  clamp-after i h = truncate-above masked ((w.sig_bytes + 3) / 4) i (omega arith)

  cut : w.sig_bytes % 4 ≢ 0 → FirstOf (w.words last_place) (w.sig_bytes % 4) last_word
  cut ne = first_of (w.words last_place) (ws last_place) (w.sig_bytes % 4) (omega arith) ne

  -- Where a place stands to the last significant one.
  places :
      (i : ℕ)
      → (i < last_place) ⊎ ((i ≡ last_place) × (w.sig_bytes % 4 ≢ 0)) ⊎ (w.sig_bytes ≤ 4 * i)
  places i = ground arith

  pub clamp-AreWords : AreWords (clamp w).words
  clamp-AreWords i = elim (places i) [
    | inl before ↦ rw (clamp-before i before) (ws i)
    | inr (inl (same, ne)) ↦ rw (same, clamp-at ne) (cut ne).in_range
    | inr (inr after) ↦ rw (clamp-after i after) (omega arith)
  ]

  pub clamp-bytes : (i : ℕ) → i < w.sig_bytes → byte_at (clamp w).words i ≡ byte_at w.words i
  clamp-bytes i h = elim (places (i / 4)) [
    | inl before ↦ rw (clamp-before (i / 4) before) refl
    | inr (inl (same, ne)) ↦ rw (same, clamp-at ne) ((cut ne).kept (i % 4) (omega arith))
    | inr (inr after) ↦ absurd (omega arith)
  ]

  pub clamp-IsClear : IsClear (clamp w).words w.sig_bytes
  clamp-IsClear i le = elim (places (i / 4)) [
    | inl before ↦ absurd (omega arith)
    | inr (inl (same, ne)) ↦
        rw (same, clamp-at ne) ((cut ne).cleared (i % 4) (omega arith) (omega arith))
    | inr (inr after) ↦ rw (clamp-after (i / 4) after) (zero-byte_of (i % 4))
  ]

  -- Clamping leaves the bytes of an array of 32-bit words as they are, clears what follows them,
  -- and keeps the words in range.
  pub bytes-clamp :
      (bytes (clamp w) ≡ bytes w) × IsClear (clamp w).words w.sig_bytes × AreWords (clamp w).words
  unfolding clamp
  bytes-clamp = (
    bytes_from_same (clamp w).words w.words 0 w.sig_bytes (λ i le h. clamp-bytes i (omega arith)),
    clamp-IsClear,
    clamp-AreWords,
  )
