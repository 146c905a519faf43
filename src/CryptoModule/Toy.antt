-- ===== src/CryptoModule/Toy.antt =====
-- A concrete module and key generator that satisfy the laws: a word array is its hexadecimal text,
-- the digests cut a text to 32 bytes, and encryption keeps the message. It shows that the laws can
-- hold together, and is the input of the witnesses.
mod Parts
pub use Parts.{fit, fit-IsHex, length-fit, octets, octets-IsHex}
use mathlib.Core.HLevel.{Σ_prop_path}
use moa_crypto.Common.{
  ℕ, ◌*◌, ◌≡◌, refl, sym, ◌∙◌, ap, ◌++◌, ◌∷◌, [], Option, none, some, List, length, drop,
  drop-append, append_assoc, length-append, arith, take,
}
use moa_crypto.Text.{Text, codes, text_eq}
use moa_crypto.Text.Laws.{Free, text_eq_refl}
use moa_crypto.Text.Hex.{IsHex, IsHex-append}
use moa_crypto.CryptoModule.{
  CryptoModule, CipherParams, CodecLaws, DigestLaws, CipherLaws, salted_prefix, openssl_stringify,
}
use moa_crypto.CryptoModule.Toy.Parts.{
  IsHex-prop, dec_IsHex, fit, fit-IsHex, length-fit, octets, octets-IsHex, words_of, Free-of_IsHex,
}

abbrev Hexed : Type 0
Hexed = (t : Text) × IsHex t

abbrev read_if : (t : Text) → Dec (IsHex t) → Hexed
read_if t (yes h) = (t, h)
read_if t (no _) = ([], tt)

abbrev read : Text → Hexed
read t = read_if t (dec_IsHex t)

abbrev fitted : ℕ → Text → Hexed
fitted n t = let u = read t in (fit n u.0, fit-IsHex n u.0 u.1)

abbrev joined : Hexed → Hexed → Hexed
joined v w = (v.0 ++ w.0, IsHex-append v.0 w.0 v.1 w.1)

abbrev pub toy : CryptoModule
toy = record {
  WordArray = Hexed;
  words = λ w. words_of w.0;
  hex_stringify = λ w. w.0;
  hex_parse = read;
  base64_stringify = λ w. w.0;
  base64_parse = read;
  utf8_parse = λ t. (octets t, octets-IsHex t);
  concat = joined;
  sha256 = λ w. (fit 32 w.0, fit-IsHex 32 w.0 w.1);
  hmac_sha256 = λ w k. let v = joined w k in (fit 32 v.0, fit-IsHex 32 v.0 v.1);
  pbkdf2_sha384 =
      λ p s size n. let v = joined p s in (fit (4 * size) v.0, fit-IsHex (4 * size) v.0 v.1);
  ctr_encrypt = λ m k iv. record { ciphertext = m; salt = none };
  cbc_encrypt = λ m k iv. record { ciphertext = joined m k; salt = none };
  ctr_decrypt = λ t k iv. read t;
  pbe_encrypt = λ s m p. record { ciphertext = m; salt = some (fit 8 s.0, fit-IsHex 8 s.0 s.1) };
  pbe_decrypt = λ t p. read (drop 32 t);
}

read_if-eq : (t : Text) (h : IsHex t) (d : Dec (IsHex t)) → read_if t d ≡ (t, h)
read_if-eq t h (yes g) = Σ_prop_path IsHex-prop refl
read_if-eq t h (no n) = absurd (n h)

read_lem : (w : Hexed) → read w.0 ≡ w
read_lem w = read_if-eq w.0 w.1 (dec_IsHex w.0)

pub toy-CodecLaws : CodecLaws toy
toy-CodecLaws = record {
  hex_parse-hex_stringify = read_lem;
  hex_stringify-hex_parse = λ t h. ap (λ (w : Hexed). w.0) (read_lem (t, h));
  hex_stringify-IsHex = λ w. w.1;
  base64_parse-base64_stringify = read_lem;
  base64_no_dollar = λ w. Free-of_IsHex b'$' refl w.0 w.1;
  base64_no_percent = λ w. Free-of_IsHex b'%' refl w.0 w.1;
  hex_stringify-concat = λ v w. refl;
}

pub toy-DigestLaws : DigestLaws toy
toy-DigestLaws = record {
  length-sha256 = λ w. length-fit 32 w.0;
  length-hmac_sha256 = λ w k. length-fit 32 (w.0 ++ k.0);
}

pub toy-CipherLaws : CipherLaws toy
toy-CipherLaws = record {
  ctr-salt = λ m k iv. refl;
  length-ctr = λ m k iv. refl;
  ctr_decrypt-ctr_encrypt = λ m k iv h. read_lem m;
  pbe_decrypt-pbe_encrypt =
      λ s m p. ap read (drop-append (fit 8 s.0) m.0 (sym (length-fit 8 s.0))) ∙ read_lem m;
}
