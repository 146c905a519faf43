-- ===== src/Wallet/RestoreFormat.antt =====
-- The restore message: what generateRestoreDataFormat writes, the registration and the reply carry,
-- and createRestoreWallet reads.
use moa_crypto.Common.{
  ◌≡◌, refl, ap, ◌∙◌, some, ◌++◌, ◌∷◌, [], ℕ, ◌+◌, ◌-◌, List, length, length-append, get_elem?,
  take-append, drop-append, take_all, append_assoc, arith, ltb, false, sym, ◌⊎◌, inl, inr, ◌↔◌,
}
use moa_crypto.Text.{Text, split, substr}
use mathlib.Core.Path.{subst}
use moa_crypto.Text.Laws.{
  Free, Free-or_cut, split_cons, split-append, split_of_Free, split-append_any,
}
use moa_crypto.Browser.{Result, ok, type_error}
use moa_crypto.CryptoModule.{CryptoModule, CodecLaws}
use moa_crypto.Wallet.Restore.{from_end, substr_from_end, repack, convert_restore_data_format}

get_elem?-length :
    (xs : List Text) (a : Text) (r : List Text) → get_elem? (xs ++ a ∷ r) (length xs) ≡ some a
get_elem?-length [] a r = refl
get_elem?-length (x ∷ xs) a r = get_elem?-length xs a r

from_end_two : (xs : List Text) (a b : Text) → from_end (xs ++ a ∷ b ∷ []) 2 ≡ some a
from_end_two xs a b =
    let e : length (xs ++ a ∷ b ∷ []) - 2 ≡ length xs =
      omega (arith, length-append xs (a ∷ b ∷ [])) in
    let enough : ltb (length (xs ++ a ∷ b ∷ [])) 2 ≡ false =
      ground (arith, length-append xs (a ∷ b ∷ [])) in
    rw (enough, e) (get_elem?-length xs a (b ∷ []))

from_end_one : (xs : List Text) (a b : Text) → from_end (xs ++ a ∷ b ∷ []) 1 ≡ some b
from_end_one xs a b =
    let e : length (xs ++ a ∷ b ∷ []) - 1 ≡ length (xs ++ a ∷ []) =
      omega (arith, length-append xs (a ∷ b ∷ []), length-append xs (a ∷ [])) in
    let enough : ltb (length (xs ++ a ∷ b ∷ [])) 1 ≡ false =
      ground (arith, length-append xs (a ∷ b ∷ [])) in
    rw (enough, e, ← append_assoc xs (a ∷ []) (b ∷ [])) (get_elem?-length (xs ++ a ∷ []) b [])

-- The cuts of convertRestoreDataFormat and verifyPsw, of three joined texts with known lengths.
module _ (a b r : Text) (b_size : length b ≡ 64) (r_size : length r ≡ 64) where
  abbrev whole : Text
  whole = a ++ (b ++ r)

  length-whole : length whole ≡ length a + 128
  length-whole = omega (arith, length-append a (b ++ r), length-append b r)

  pub cut_front : substr whole 0 (length whole - 128) ≡ a
  cut_front = take-append a (b ++ r) (omega (arith, length-whole))

  pub cut_back : substr_from_end whole 64 ≡ r
  cut_back =
      let enough : ltb (length whole) 64 ≡ false = ground (arith, length-whole) in
      rw
        (
          enough,
          ← append_assoc a b r,
          drop-append (a ++ b) r {n = length ((a ++ b) ++ r) - 64}
              (omega (arith, length-append (a ++ b) r, length-append a b)),
        )
        (take_all 64 r (omega arith))

  pub cut_middle : (n : ℕ) → n ≡ length a → substr whole n 64 ≡ b
  cut_middle n e = rw (drop-append a (b ++ r) e) (take-append b r {n = 64} (omega arith))

module _ (c : CryptoModule) where
  open c use {WordArray, base64_stringify, concat}

  -- The parts of a restore message, as one text.
  abbrev pub restore_data : (enc_prk enc_puk salt : WordArray) → Text
  restore_data enc_prk enc_puk salt =
      base64_stringify enc_prk
      ++ (b'$' ∷ (base64_stringify enc_puk ++ (b'$' ∷ base64_stringify salt)))

  -- The second field of a registration: E(puk), its HMAC and the salt.
  abbrev pub packed : (enc_puk hmac salt : WordArray) → WordArray
  packed enc_puk hmac salt = concat (concat enc_puk hmac) salt

module _ (c : CryptoModule) (codec : CodecLaws c) where
  open c use {
    WordArray, hex_stringify, hex_parse, base64_stringify, base64_parse, hmac_sha256, utf8_parse,
  }

  pub split-restore_data :
      (enc_prk enc_puk salt : WordArray)
      → split b'$' (restore_data c enc_prk enc_puk salt)
        ≡ base64_stringify enc_prk ∷ base64_stringify enc_puk ∷ base64_stringify salt ∷ []
  split-restore_data enc_prk enc_puk salt =
      split-append b'$' _ _ (codec.base64_no_dollar enc_prk)
      ∙ ap (λ r. base64_stringify enc_prk ∷ r)
          (split-append b'$' _ _ (codec.base64_no_dollar enc_puk)
            ∙ ap (λ r. base64_stringify enc_puk ∷ r)
                (split_of_Free b'$' _ (codec.base64_no_dollar salt)))

  pub hex-packed :
      (e h s : WordArray)
      → hex_stringify (packed c e h s) ≡ hex_stringify e ++ (hex_stringify h ++ hex_stringify s)
  hex-packed e h s = rw (codec.hex_stringify-concat, codec.hex_stringify-concat, append_assoc) refl

  module _ (e h s : WordArray) (h_size : length (hex_stringify h) ≡ 64)
      (s_size : length (hex_stringify s) ≡ 64) where
    repack-packed :
        (enc_prk : WordArray)
        → repack c
            (base64_stringify enc_prk)
            (hex_stringify (base64_parse (base64_stringify (packed c e h s))))
          ≡ restore_data c enc_prk e s
    unfolding repack
    repack-packed enc_prk = rw (
      codec.base64_parse-base64_stringify,
      hex-packed,
      cut_front (hex_stringify e) (hex_stringify h) (hex_stringify s) h_size s_size,
      cut_back (hex_stringify e) (hex_stringify h) (hex_stringify s) h_size s_size,
      codec.hex_parse-hex_stringify e,
      codec.hex_parse-hex_stringify s,
    )

    pub split_reply :
        (front : Text) (enc_prk : WordArray)
        → split b'$'
            (front ++ b'$' ∷ (base64_stringify enc_prk ++ b'$' ∷ base64_stringify (packed c e h s)))
          ≡ split b'$' front ++ base64_stringify enc_prk ∷ base64_stringify (packed c e h s) ∷ []
    split_reply front enc_prk =
        split-append_any b'$' front _
        ∙ ap (λ r. split b'$' front ++ r)
            (split-append b'$' _ _ (codec.base64_no_dollar enc_prk)
              ∙ ap (λ r. base64_stringify enc_prk ∷ r)
                  (split_of_Free b'$' _ (codec.base64_no_dollar (packed c e h s))))

    -- Whatever stands in front, a reply that ends in the two fields of the registration is turned
    -- into the restore data, where the HMAC and the salt have 32 bytes, under the laws of the
    -- encoders.
    pub convert_restore_data_format_lem :
        (front : Text) (enc_prk : WordArray)
        → convert_restore_data_format c
            (front ++ b'$' ∷ (base64_stringify enc_prk ++ b'$' ∷ base64_stringify (packed c e h s)))
          ≡ ok (restore_data c enc_prk e s)
    unfolding convert_restore_data_format
    convert_restore_data_format_lem front enc_prk =
        rw
          (
            split_reply front enc_prk,
            from_end_two (split b'$' front) (base64_stringify enc_prk)
                (base64_stringify (packed c e h s)),
            from_end_one (split b'$' front) (base64_stringify enc_prk)
                (base64_stringify (packed c e h s)),
          )
          (ap ok (repack-packed enc_prk))

-- The last two parts of a list of two or more.
last_two :
    (a b : Text) (xs : List Text)
    → (ys : List Text) × (x : Text) × (y : Text) × (a ∷ b ∷ xs ≡ ys ++ x ∷ y ∷ [])
last_two a b [] = ([], a, b, refl)
last_two a b (d ∷ xs) = let (ys, x, y, e) = last_two b d xs in (a ∷ ys, x, y, ap (λ r. a ∷ r) e)

cut_not-Free : (sep : ℕ) (a t : Text) → Free sep (a ++ sep ∷ t) → ⊥
cut_not-Free sep [] t (ne, h) = ne refl
cut_not-Free sep (b ∷ a) t (ne, h) = cut_not-Free sep a t h

module _ (c : CryptoModule) where
  open c use {hex_stringify, base64_parse}

  two_or_more :
      (msg a b : Text) (xs : List Text)
      → split b'$' msg ≡ a ∷ b ∷ xs
      → (data_ : Text) × (convert_restore_data_format c msg ≡ ok data_)
  unfolding convert_restore_data_format
  two_or_more msg a b xs e =
      let (ys, x, y, f) = last_two a b xs in
      (
        repack c x (hex_stringify (base64_parse y)),
        rw (e ∙ f, from_end_two ys x y, from_end_one ys x y) refl,
      )

  returns :
      (a t : Text)
      → Free b'$' a
      → (data_ : Text) × (convert_restore_data_format c (a ++ b'$' ∷ t) ≡ ok data_)
  returns a t free =
      let (b, xs, e) = split_cons b'$' t in
      two_or_more (a ++ b'$' ∷ t) a b xs (split-append b'$' a t free ∙ ap (λ r. a ∷ r) e)

  ok-ne-type_error : (d : Text) → ◌≡◌ {A = Result Text} (ok d) type_error → ⊥
  ok-ne-type_error d e = cc

  -- convertRestoreDataFormat stops with a TypeError exactly on a text that holds no "$"; on every
  -- other text it returns.
  pub convert_restore_data_format-type_error_iff :
      (msg : Text)
      → ((convert_restore_data_format c msg ≡ type_error) ↔ Free b'$' msg)
        × (Free b'$' msg ⊎ ((data_ : Text) × (convert_restore_data_format c msg ≡ ok data_)))
  unfolding convert_restore_data_format
  convert_restore_data_format-type_error_iff msg = elim (Free-or_cut b'$' msg) [
    | inl free ↦ (((λ _. free), (λ _. rw (split_of_Free b'$' msg free) refl)), inl free)
    | inr (a, t, free, e) ↦
        let (d, made) = returns a t free in
        let result = ap (convert_restore_data_format c) e ∙ made in
        (
          (
            (λ stopped. absurd (ok-ne-type_error d (sym result ∙ stopped))),
            (λ none_there. absurd (cut_not-Free b'$' a t (subst (Free b'$') e none_there))),
          ),
          inr (d, result),
        )
  ]
