-- ===== src/Wallet/Tests/Messages.antt =====
-- Restore messages, keys and passwords, on the concrete module.
use moa_crypto.Common.{
  ◌≡◌, refl, true, ℕ, ◌∷◌, [], ◌++◌, ◌↔◌, length, All, arith, ◌/◌, ◌+◌, ◌*◌, List, ◌≤◌, sym, ◌⊎◌,
}
use moa_crypto.Text.{codes}
use mathlib.Core.Path.{ap₂}
use moa_crypto.Common.Bits.{bit_xor-zero}
use moa_crypto.Text.{Text, split}
use moa_crypto.Text.Laws.{Free}
use moa_crypto.Text.Digits.{unhex, length-unhex}
use moa_crypto.CryptoModule.Toy.{fit, length-fit, octets}
use moa_crypto.Browser.{ok, type_error}
use moa_crypto.CryptoModule.Toy.{toy, toy-CodecLaws, toy-DigestLaws, toy-CipherLaws}
use moa_crypto.Kjur.Toy.{toy_kjur}
use moa_crypto.Kjur.{do_generate}
use moa_crypto.Wallet.{salt_size}
use moa_crypto.Wallet.Lifecycle.{generated}
use moa_crypto.Wallet.Restored.{verify_psw_iff, data_to_restore}
use moa_crypto.Wallet.KeyRecovery.{hex-decrypt_prk}
use moa_crypto.Wallet.Restore.{convert_restore_data_format, substr_from_end}
use moa_crypto.Wallet.KeyReuse.{under, xor_bytes, CounterLaw, generate_restore_data_format-reveals}
use moa_crypto.Wallet.RestoreFormat.{
  restore_data, packed, convert_restore_data_format_lem, convert_restore_data_format-type_error_iff,
}
use moa_crypto.Wallet.RestoreCycle.{
  restore_message, enc_prk, enc_puk, generate_restore_data_format_lem,
  generate_wallet_regist_msg_lem,
}
use moa_crypto.Wallet.Halving.{half_hmac-xor_hex, xor_hex}
use moa_crypto.Wallet.Bytes.{
  word_to_byte_array_lem, length-generate_hmac_psw, IsByte, words_of_bytes,
}
use moa_crypto.Wallet.Password.{verify_psw, half_hmac, word_to_byte_array, generate_hmac_psw}
use moa_crypto.Wallet.Create.{generate_restore_data_format}
use moa_crypto.Wallet.Cipher.{decrypt_prk}
use moa_crypto.Auth.Requests.{◌$◌, generate_wallet_regist_msg, base64_id}
use moa_crypto.Wallet.Registration.{sent_prk, sent_puk, registration_restores}
use moa_crypto.Auth.{wallet_regist_req}
use moa_crypto.Wallet.Tests.{the_keys, a_draw, normal_target, prk_is_hex, prk-IsUnsalted, pw}

hex-decrypt_prk_example :
    toy.hex_stringify
      (decrypt_prk toy (toy.base64_stringify (toy.hex_parse normal_target)) pw (a_draw 0 salt_size))
    ≡ (generated toy_kjur 7).ecprvhex
hex-decrypt_prk_example =
    hex-decrypt_prk toy toy-CodecLaws toy-CipherLaws (a_draw 1 8) (generated toy_kjur 7).ecprvhex pw
      (a_draw 0 salt_size) prk_is_hex prk-IsUnsalted

generate_restore_data_format_lem_example :
    generate_restore_data_format toy toy_kjur a_draw 7 pw
    ≡ restore_message toy pw
        (enc_prk toy toy_kjur a_draw 7 pw)
        (enc_puk toy toy_kjur a_draw 7 pw)
        (a_draw 0 salt_size)
generate_restore_data_format_lem_example =
    generate_restore_data_format_lem toy toy-CodecLaws toy-CipherLaws toy_kjur a_draw 7 pw

abbrev a_puk : toy.WordArray
a_puk = a_draw 0 65

abbrev a_salt : toy.WordArray
a_salt = a_draw 0 32

abbrev a_hmac : toy.WordArray
a_hmac = toy.hmac_sha256 a_puk (toy.utf8_parse pw)

generate_wallet_regist_msg_lem_example :
    generate_wallet_regist_msg toy
      (codes "id")
      (codes "c0de")
      (restore_message toy pw (a_draw 0 32) a_puk a_salt)
    ≡ ok (
        wallet_regist_req
        $ base64_id toy (codes "id")
        $ toy.base64_stringify (toy.hex_parse (codes "c0de"))
        $ toy.base64_stringify (a_draw 0 32)
        $ toy.base64_stringify (packed toy a_puk a_hmac a_salt))
generate_wallet_regist_msg_lem_example =
    generate_wallet_regist_msg_lem toy toy-CodecLaws (codes "id") (codes "c0de") pw (a_draw 0 32)
      a_puk a_salt

convert_restore_data_format_lem_example :
    convert_restore_data_format toy (
      codes "4D4F414008$6084"
      ++ b'$'
        ∷ (toy.base64_stringify (a_draw 0 32)
            ++ b'$' ∷ toy.base64_stringify (packed toy a_puk a_hmac a_salt)))
    ≡ ok (restore_data toy (a_draw 0 32) a_puk a_salt)
convert_restore_data_format_lem_example =
    convert_restore_data_format_lem toy toy-CodecLaws a_puk a_hmac a_salt refl refl
      (codes "4D4F414008$6084") (a_draw 0 32)

verify_psw_iff_example :
    (verify_psw toy (codes "px") (
        (codes "4D4F414008" ++ b'$' ∷ codes "6084")
        ++ b'$'
          ∷ (toy.base64_stringify (a_draw 0 32)
              ++ b'$' ∷ toy.base64_stringify (packed toy a_puk a_hmac a_salt)))
      ≡ ok true)
    ↔ (toy.hex_stringify a_hmac
        ≡ toy.hex_stringify (toy.hmac_sha256 a_puk (toy.utf8_parse (codes "px"))))
verify_psw_iff_example =
    verify_psw_iff toy toy-CodecLaws toy-DigestLaws pw (codes "px") (codes "4D4F414008")
      (codes "6084") (a_draw 0 32) a_puk a_salt (ground arith) (ground arith) refl refl

half_hmac-xor_hex_example :
    half_hmac ((length (codes "a1b2" ++ codes "0fff") / 2 + 1) / 2) 0 (codes "a1b2" ++ codes "0fff")
    ≡ xor_hex (codes "a1b2") (codes "0fff")
half_hmac-xor_hex_example =
    half_hmac-xor_hex (codes "a1b2") (codes "0fff") refl (refl, refl, (refl, refl, tt))
      (refl, refl, (refl, refl, tt))

word_to_byte_array_lem_example :
    All IsByte (word_to_byte_array (0xdeadbeef ∷ 7 ∷ []))
    × (length (word_to_byte_array (0xdeadbeef ∷ 7 ∷ [])) ≡ 4 * length {A = ℕ} (0xdeadbeef ∷ 7 ∷ []))
    × (words_of_bytes (word_to_byte_array (0xdeadbeef ∷ 7 ∷ [])) ≡ 0xdeadbeef ∷ 7 ∷ [])
word_to_byte_array_lem_example =
    word_to_byte_array_lem (0xdeadbeef ∷ 7 ∷ []) (omega arith, (omega arith, tt))

length-generate_hmac_psw_example : length (generate_hmac_psw toy pw) ≡ 28
length-generate_hmac_psw_example = length-generate_hmac_psw toy toy-DigestLaws pw

registration_restores_example :
    (generate_wallet_regist_msg toy
        (codes "id")
        (codes "c0de")
        (generate_restore_data_format toy toy_kjur a_draw 7 pw)
      ≡ ok (
          wallet_regist_req
          $ base64_id toy (codes "id")
          $ toy.base64_stringify (toy.hex_parse (codes "c0de"))
          $ sent_prk toy toy_kjur a_draw 7 pw
          $ sent_puk toy toy_kjur a_draw 7 pw))
    × (convert_restore_data_format toy (
          codes "4D4F414008$6084"
          $ sent_prk toy toy_kjur a_draw 7 pw
          $ sent_puk toy toy_kjur a_draw 7 pw)
        ≡ ok (data_to_restore toy toy_kjur a_draw 7 pw))
registration_restores_example =
    registration_restores toy toy-CodecLaws toy-DigestLaws toy-CipherLaws toy_kjur a_draw 7 pw
      (codes "id") (codes "c0de") (codes "4D4F414008$6084") refl

convert_restore_data_format-type_error_iff_example :
    ((convert_restore_data_format toy (codes "aa") ≡ type_error) ↔ Free b'$' (codes "aa"))
    × (Free b'$' (codes "aa")
        ⊎ ((data_ : Text) × (convert_restore_data_format toy (codes "aa") ≡ ok data_)))
convert_restore_data_format-type_error_iff_example =
    convert_restore_data_format-type_error_iff toy (codes "aa")

convert_restore_data_format_test :
    (convert_restore_data_format toy (codes "aa") ≡ type_error)
    × (convert_restore_data_format toy (codes "aa$") ≡ ok (codes "aa$$"))
unfolding convert_restore_data_format split
convert_restore_data_format_test = (refl, refl)

-- A hexadecimal text of less than 64 units: the start counts from the end again.
substr_from_end_test : substr_from_end (codes "abcdefgh") 5 ≡ codes "defgh"
substr_from_end_test = refl

substr_from_end_short_test : substr_from_end (codes "abcdefgh") 10 ≡ codes "gh"
substr_from_end_short_test = refl

-- A stream of zeros.
under_zeros : (bs : List ℕ) → bs ≡ under (λ i. 0) bs
under_zeros [] = refl
under_zeros (b ∷ bs) = ap₂ (λ x r. x ∷ r) (sym (bit_xor-zero b)) (under_zeros bs)

toy-CounterLaw : CounterLaw toy
toy-CounterLaw = record {
  stream = λ key iv i. 0;
  ctr_encrypt-under = λ m key iv. under_zeros (unhex m.0);
}

sizes :
    length (unhex (generated toy_kjur 7).ecprvhex) ≤ length (unhex (generated toy_kjur 7).ecpubhex)
unfolding do_generate
sizes = omega (
  arith,
  length-unhex (generated toy_kjur 7).ecprvhex the_keys.ecprvhex-IsHex,
  length-unhex (generated toy_kjur 7).ecpubhex the_keys.ecpubhex-IsHex,
  length-fit 32 (octets (7 ∷ [])),
  length-fit 65 (codes "04" ++ fit 32 (octets (7 ∷ []))),
)

generate_restore_data_format-reveals_example :
    (e1 : toy.WordArray) × (e2 : toy.WordArray) × (generate_restore_data_format toy toy_kjur a_draw
        7 pw
      ≡ restore_message toy pw e1 e2 (a_draw 0 salt_size))
    × (xor_bytes
          (xor_bytes (unhex (toy.hex_stringify e1)) (unhex (toy.hex_stringify e2)))
          (unhex (generated toy_kjur 7).ecpubhex)
        ≡ unhex (generated toy_kjur 7).ecprvhex)
generate_restore_data_format-reveals_example =
    generate_restore_data_format-reveals toy toy-CodecLaws toy-CipherLaws toy-CounterLaw toy_kjur
      a_draw 7 pw the_keys.ecprvhex-IsHex the_keys.ecpubhex-IsHex sizes
