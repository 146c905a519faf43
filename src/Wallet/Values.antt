-- ===== src/Wallet/Values.antt =====
-- The values that the scripts mix: strings, numbers, null, word arrays and cipher parameters, with
-- the conversions of the language.
use moa_crypto.Common.{ℕ, ◌+◌, ◌++◌}
use moa_crypto.Text.{Text, codes, to_string}
use moa_crypto.Browser.{Result, ok, type_error}
use moa_crypto.CryptoModule.{CryptoModule, CipherParams, openssl_stringify}

pub data Value (W : Type 0) : Type 0 where
  null : Value W
  number : ℕ → Value W
  text : Text → Value W
  words : W → Value W
  cipher : CipherParams W → Value W

module _ (c : CryptoModule) where
  open c use {WordArray, hex_stringify, base64_parse, utf8_parse}

  -- String(v), as `+` with a string and localStorage.setItem convert.
  abbrev pub as_text : Value WordArray → Text
  as_text null = codes "null"
  as_text (number n) = to_string n
  as_text (text t) = t
  as_text (words w) = hex_stringify w
  as_text (cipher p) = openssl_stringify c p

  -- v.toString() and v.toString(CryptoJS.enc.Hex): a string gives itself, and null has no members.
  abbrev pub call_to_string : Value WordArray → Result Text
  call_to_string null = type_error
  call_to_string v = ok (as_text v)

  -- v + w: numbers (and null, as 0) are added, all else is joined as text.
  abbrev pub add : Value WordArray → Value WordArray → Value WordArray
  add null null = number 0
  add null (number n) = number n
  add (number m) null = number m
  add (number m) (number n) = number (m + n)
  add v w = text (as_text v ++ as_text w)
