-- ===== src/CryptoJs/HmacSha256.antt =====
-- CryptoJS.HmacSHA256: HMAC over the hasher of SHA256.
use moa_crypto.CryptoJs.{WordArray}
use moa_crypto.CryptoJs.Sha256.{Hasher, hasher_reset, update, finalize}
use moa_crypto.CryptoJs.Hmac.{HasherOps, hmac}

abbrev pub sha256_ops : HasherOps
sha256_ops = record {
  State = Hasher;
  block_size = 16;
  fresh = hasher_reset;
  update = update;
  finalize = finalize;
}

unfoldable pub hmac_sha256 : (message key : WordArray) → WordArray
unfolding hmac
hmac_sha256 message key = hmac sha256_ops message key
