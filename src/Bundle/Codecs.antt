-- ===== src/Bundle/Codecs.antt =====
-- The encoders and digests of the bundle satisfy the laws that the wallet's theorems assume.
use moa_crypto.Common.{
  ◌≡◌, refl, ◌∙◌, sym, ap, ℕ, ◌*◌, ◌/◌, ◌%◌, arith, length, List, [], ◌∷◌, ◌++◌,
}
use moa_crypto.Text.{digit}
use moa_crypto.Text.Digits.{hex_of, hex_of-IsHex}
use moa_crypto.CryptoModule.{CodecLaws, DigestLaws}
use moa_crypto.CryptoJs.{WordArray, bytes}
use moa_crypto.CryptoJs.Fill.{AreWords}
use moa_crypto.CryptoJs.Bytes.{length-bytes_from}
use moa_crypto.CryptoJs.Octets.{Octets, octets_eq, of_octets, to_octets, of_octets_lem}
use moa_crypto.CryptoJs.Join.{concat}
use moa_crypto.CryptoJs.Concat.{bytes-concat}
use moa_crypto.CryptoJs.Hex
use moa_crypto.CryptoJs.Base64.RoundTrip.{base64_parse-stringify}
use moa_crypto.CryptoJs.Sha256.{hash_of, finalize}
use moa_crypto.CryptoJs.HmacSha256.{hmac_sha256}
use moa_crypto.CryptoJs.Hmac.{hmac, hmac_finalize}
use moa_crypto.Bundle.{Primitives, bundle}

pub octets-AreWords : (v : Octets) → AreWords (of_octets v).words
octets-AreWords v = (of_octets_lem v).0

pub bytes-of_octets : (v : Octets) → bytes (of_octets v) ≡ v.0
bytes-of_octets v = (of_octets_lem v).2

pub to_octets-of_octets : (v : Octets) → to_octets (of_octets v) ≡ v
to_octets-of_octets v = octets_eq _ v (bytes-of_octets v)

pub hex_lem : (v : Octets) → Hex.stringify (of_octets v) ≡ hex_of v.0
hex_lem v = (Hex.stringify-parse (of_octets v) [] tt).0 ∙ ap hex_of (bytes-of_octets v)

pub hex_of-append : (xs ys : List ℕ) → hex_of (xs ++ ys) ≡ hex_of xs ++ hex_of ys
hex_of-append [] ys = refl
hex_of-append (x ∷ xs) ys = ap (λ r. digit (x / 16) ∷ digit (x % 16) ∷ r) (hex_of-append xs ys)

pub length-hex_of : (bs : List ℕ) → length (hex_of bs) ≡ 2 * length bs
length-hex_of [] = refl
length-hex_of (b ∷ bs) = omega (arith, length-hex_of bs)

pub bytes-concat_octets :
    (v w : Octets) → (to_octets (concat (of_octets v) (of_octets w))).0 ≡ v.0 ++ w.0
bytes-concat_octets v w =
    bytes-concat (of_octets v) (of_octets w) (octets-AreWords v)
    ∙ rw (bytes-of_octets v, bytes-of_octets w) refl

module _ (primitives : Primitives) where
  -- The encoders of the bundle read back what they write, and write no "$" or "%".
  pub bundle-CodecLaws : CodecLaws (bundle primitives)
  bundle-CodecLaws = record {
    hex_parse-hex_stringify =
        λ w. octets_eq _ w ((Hex.stringify-parse (of_octets w) [] tt).3 ∙ bytes-of_octets w);
    hex_stringify-hex_parse = λ t h.
        hex_lem (to_octets (Hex.parse t))
        ∙ sym (Hex.stringify-parse (Hex.parse t) t h).0
        ∙ (Hex.stringify-parse (of_octets ([], tt)) t h).2;
    hex_stringify-IsHex = λ w. rw (hex_lem w) (hex_of-IsHex w.0 w.1);
    base64_parse-base64_stringify = λ w.
        octets_eq _ w
          ((base64_parse-stringify (of_octets w) (octets-AreWords w)).0 ∙ bytes-of_octets w);
    base64_no_dollar = λ w. (base64_parse-stringify (of_octets w) (octets-AreWords w)).1;
    base64_no_percent = λ w. (base64_parse-stringify (of_octets w) (octets-AreWords w)).2;
    hex_stringify-concat = λ v w.
        hex_lem (to_octets (concat (of_octets v) (of_octets w)))
        ∙ ap hex_of (bytes-concat_octets v w)
        ∙ hex_of-append v.0 w.0
        ∙ rw (hex_lem v, hex_lem w) refl;
  }

  hash_size : (m : WordArray) → (hash_of m).sig_bytes ≡ 32
  unfolding hash_of finalize
  hash_size m = refl

  hmac_size : (m k : WordArray) → (hmac_sha256 m k).sig_bytes ≡ 32
  unfolding hmac_sha256 hmac hmac_finalize finalize
  hmac_size m k = refl

  digits_of :
      (w : WordArray) → w.sig_bytes ≡ 32 → length (Hex.stringify (of_octets (to_octets w))) ≡ 64
  digits_of w size =
      ap length (hex_lem (to_octets w))
      ∙ length-hex_of (bytes w)
      ∙ omega (arith, size, length-bytes_from w.words 0 w.sig_bytes)

  -- The digests of the bundle have 32 bytes.
  pub bundle-DigestLaws : DigestLaws (bundle primitives)
  bundle-DigestLaws = record {
    length-sha256 = λ w. digits_of (hash_of (of_octets w)) (hash_size (of_octets w));
    length-hmac_sha256 = λ w k.
        digits_of (hmac_sha256 (of_octets w) (of_octets k)) (hmac_size (of_octets w) (of_octets k));
  }
