-- ===== src/Bundle/Tests.antt =====
-- The laws over the code of the bundle, with simple primitives: a key derivation that gives
-- zeros, and a hasher of empty digests.
use moa_crypto.Common.{some}
use moa_crypto.CryptoJs.{no_words}
use moa_crypto.CryptoJs.Bytes.{no_words-AreWords}
use moa_crypto.CryptoJs.Hmac.{HasherOps}
use moa_crypto.CryptoModule.{CodecLaws, DigestLaws, CipherLaws}
use moa_crypto.Bundle.{Primitives, bundle}
use moa_crypto.Bundle.Ciphers.{PrimitiveLaws, bundle_laws}

abbrev one_block : HasherOps
one_block = record {
  State = Unit {0};
  block_size = 32;
  fresh = tt;
  update = λ s m. tt;
  finalize = λ s m. record { words = no_words; sig_bytes = 0 };
}

abbrev simple : Primitives
simple = record {
  compute = λ key_size password salt. record { words = no_words; sig_bytes = 48 };
  sha384 = one_block;
  utf8 = record { encode = λ t. t; decode = λ t. some t };
}

simple-PrimitiveLaws : PrimitiveLaws simple
simple-PrimitiveLaws = record { compute-AreWords = λ key_size password salt. no_words-AreWords }

laws_test : CodecLaws (bundle simple) × DigestLaws (bundle simple) × CipherLaws (bundle simple)
laws_test = bundle_laws simple simple-PrimitiveLaws
