-- ===== src/Kjur/Toy.antt =====
-- A concrete key generator and signature that satisfy the laws: the public key is "04" and the
-- private key, and a signature is the public key and the message.
use moa_crypto.Common.{ℕ, ◌++◌, refl, ◌∷◌, []}
use moa_crypto.Text.{Text, codes, text_eq}
use moa_crypto.Text.Laws.{text_eq_refl}
use moa_crypto.CryptoModule.Toy.{fit, fit-IsHex, octets, octets-IsHex}
use moa_crypto.Kjur.{Kjur, KeyPairLaws, do_generate, do_sign, do_verify}

abbrev toy_private : ℕ → Text
toy_private seed = fit 32 (octets (seed ∷ []))

abbrev toy_public : Text → Text
toy_public d = fit 65 (codes "04" ++ d)

abbrev pub toy_kjur : Kjur
toy_kjur = record {
  generate_key_pair_hex = λ curve seed. record {
    ecprvhex = toy_private seed;
    ecpubhex = toy_public (toy_private seed);
  };
  sign = λ alg curve d msg nonce. toy_public d ++ msg;
  verify = λ alg prov curve xy msg sig. text_eq sig (xy ++ msg);
}

pub toy_kjur-KeyPairLaws : (curve alg : Text) (seed : ℕ) → KeyPairLaws toy_kjur curve alg seed
unfolding do_generate do_sign do_verify
toy_kjur-KeyPairLaws curve alg seed = record {
  ecprvhex-IsHex = fit-IsHex 32 (octets (seed ∷ [])) (octets-IsHex (seed ∷ []));
  ecpubhex-IsHex =
      fit-IsHex 65 (codes "04" ++ toy_private seed)
        (refl, refl, fit-IsHex 32 (octets (seed ∷ [])) (octets-IsHex (seed ∷ [])));
  verify-sign = λ msg nonce. text_eq_refl (toy_public (toy_private seed) ++ msg);
}
