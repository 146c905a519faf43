-- ===== src/CryptoJs/Join.antt =====
-- CryptoJS.lib.WordArray: init, clamp and concat.
use Prim.Native.Nat.{bit_and}
use moa_crypto.Common.{
  ℕ, zero, suc, ◌+◌, ◌-◌, ◌*◌, ◌/◌, ◌%◌, ◌^◌, if◌then◌else◌, ◌==◌, ltb, List, [], ◌∷◌, length,
  Option, none, some,
}
use moa_crypto.CryptoJs.{Words, WordArray, set, byte_at, put_byte}

-- An array literal.
abbrev pub words_of : List ℕ → Words
words_of [] i = 0
words_of (word ∷ rest) zero = word
words_of (word ∷ rest) (suc i) = words_of rest i

-- `none` is a size that is not given.
abbrev pub init : List ℕ → Option ℕ → WordArray
init words none = record { words = words_of words; sig_bytes = length words * 4 }
init words (some sig_bytes) = record { words = words_of words; sig_bytes = sig_bytes }

-- 0xffffffff << (32 - k * 8), whose count is taken modulo 32.
abbrev pub mask : ℕ → ℕ
mask k = 0xffffffff * 2 ^ ((32 - k * 8) % 32) % 2 ^ 32

-- words.length = n
abbrev pub truncate : Words → ℕ → Words
truncate words n i = if ltb i n then words i else 0

unfoldable pub clamp : WordArray → WordArray
clamp w = record w {
  words =
      truncate
        (set w.words (w.sig_bytes / 4)
          (bit_and (w.words (w.sig_bytes / 4)) (mask (w.sig_bytes % 4))))
        ((w.sig_bytes + 3) / 4);
}

-- One byte at a time, so many from the index i on.
unfoldable pub copy_bytes : (that : Words) (this_sig_bytes i count : ℕ) → Words → Words
copy_bytes that this_sig_bytes i zero words = words
copy_bytes that this_sig_bytes i (suc count) words =
    copy_bytes that this_sig_bytes (suc i) count
      (put_byte words (this_sig_bytes + i) (byte_at that i))

-- One word at a time, for so many rounds from the index i on.
unfoldable pub copy_words : (that : Words) (this_sig_bytes i rounds : ℕ) → Words → Words
copy_words that this_sig_bytes i zero words = words
copy_words that this_sig_bytes i (suc rounds) words =
    copy_words that this_sig_bytes (i + 4) rounds
      (set words ((this_sig_bytes + i) / 4) (that (i / 4)))

-- What `this` holds afterwards.
unfoldable pub concat : WordArray → WordArray → WordArray
unfolding clamp copy_bytes copy_words
concat this that = record {
  words =
      if this.sig_bytes % 4 == 0
      then copy_words that.words this.sig_bytes 0 ((that.sig_bytes + 3) / 4) (clamp this).words
      else copy_bytes that.words this.sig_bytes 0 that.sig_bytes (clamp this).words;
  sig_bytes = this.sig_bytes + that.sig_bytes;
}
