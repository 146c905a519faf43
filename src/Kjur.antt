-- ===== src/Kjur.antt =====
-- moaECDSACoreAPI (JavascriptSrc/WebContent/wallet/moaCryptoCoreJS/moaECDSACoreAPI-v1.0.0.js) over
-- the ECDSA and Signature classes of jsrsasign, which are parameters.
pub mod Toy
use moa_crypto.Common.{ℕ, ◌≡◌, true, Bool}
use moa_crypto.Text.{Text, codes}
use moa_crypto.Text.Hex.{IsHex}

pub record KeyPair : Type 0 where
  pub ecprvhex : Text
  pub ecpubhex : Text

-- KJUR.crypto: the randomness that a call draws is an argument.
pub record Kjur : Type 0 where
  -- new ECDSA({ curve }).generateKeyPairHex()
  pub generate_key_pair_hex : (curve : Text) → ℕ → KeyPair
  -- new Signature({ alg }), init({ d, curve }), updateString(msg), sign()
  pub sign : (alg curve d msg : Text) → ℕ → Text
  -- new Signature({ alg, prov }), init({ xy, curve }), updateString(msg), verify(sig)
  pub verify : (alg prov curve xy msg sig : Text) → Bool

abbrev pub provider : Text
provider = codes "cryptojs/jsrsa"

module _ (k : Kjur) where
  unfoldable pub do_generate : (ec_curve : Text) → ℕ → KeyPair
  do_generate ec_curve seed = k.generate_key_pair_hex ec_curve seed

  unfoldable pub do_sign : (ec_curve hash msg private_key : Text) → ℕ → Text
  do_sign ec_curve hash msg private_key seed = k.sign hash ec_curve private_key msg seed

  unfoldable pub do_verify : (ec_curve hash msg sign public_key : Text) → Bool
  do_verify ec_curve hash msg sign public_key = k.verify hash provider ec_curve public_key msg sign

  -- A key pair that was generated on a curve, by the randomness it drew: its halves are bytes in
  -- hexadecimal, and the signatures of an algorithm by the one half verify under the other. The
  -- library fills a number up with ten zeros at most, so of a private key or a coordinate that has
  -- fewer digits by far the halves are no whole bytes; for such a draw this does not hold.
  pub record KeyPairLaws (curve alg : Text) (seed : ℕ) : Type 0 where
    pub ecprvhex-IsHex : IsHex (do_generate curve seed).ecprvhex
    pub ecpubhex-IsHex : IsHex (do_generate curve seed).ecpubhex
    pub verify-sign :
        (msg : Text) (nonce : ℕ)
        → do_verify curve alg msg
            (do_sign curve alg msg (do_generate curve seed).ecprvhex nonce)
            (do_generate curve seed).ecpubhex
          ≡ true
