-- ===== src/Lib.antt =====
-- The wallet and the authentication messages of MoaCrypto's JavaScript client.
--
-- The program has three scripts under JavascriptSrc/WebContent/wallet.
-- moaSecurityJS/moaBCWalletLib-v1.0.2.js keeps a blockchain wallet in the browser's localStorage:
-- it makes a key pair, encrypts the private key under a password, seals the entries with a MAC,
-- and signs transactions after checking the MAC. A restore wallet can be made again on another
-- page from data that a server keeps. moaSecurityJS/moaClientCoreAuthLib-v1.0.1.js writes the
-- requests to that server and reads its replies. moaCryptoCoreJS/moaECDSACoreAPI-v1.0.0.js wraps
-- ECDSA. All three call the bundle moaCryptoJS/moaCryptoModule-v1.0.0.js of CryptoJS and
-- jsrsasign.
--
-- How the files correspond to the code:
-- - Text: strings as lists of UTF-16 code units, with indexOf, substr, substring, split,
--   toUpperCase, toString(radix) and parseInt. toString is recursion on fuel; a number n has at
--   most n + 1 digits, which is the fuel given.
-- - Browser: a page (localStorage as a function, and the alerts shown); a script is a function
--   from a page to a result and a page; a member call on null or undefined is type_error, which
--   stops the script where it stands.
-- - CryptoModule: the calls of CryptoJS as a record, and their documented behaviour as the
--   records CodecLaws, DigestLaws and CipherLaws; CryptoModule.Toy is a concrete module that
--   satisfies them. A string handed to CryptoJS is read as UTF-8, so the model writes utf8_parse
--   there. Utf8.parse throws a URIError on a string with a lone surrogate, which stops the call;
--   this error is not modelled, so the strings that reach utf8_parse (passwords, ids and dates of
--   birth) stand for strings without lone surrogates.
-- - Kjur: moaECDSACoreAPI over the classes of jsrsasign, and what is assumed of a generated key
--   pair (KeyPairLaws: of one draw, on the curve and for the algorithm of the program's options);
--   Kjur.Toy is a concrete instance.
-- - Wallet: the options and names of moaBCWalletLib. Wallet.Values has the mixed values of the
--   language and its conversions. Wallet.Cipher: getPrk, getPBKDF2, getAESData, getPBEData.
--   Wallet.Mac: generateAddr, generateMAC, verifyMAC. Wallet.Save: saveData. Wallet.Create:
--   createNonRestoreWallet, generateRestoreDataFormat. Wallet.Restore: createRestoreWallet,
--   convertRestoreDataFormat. Wallet.Sign: getPublicKey, getWalletAddr, generateTransactionSign,
--   verifyTransactionSign, setType. Wallet.Password: wordToByteArray, generateHmacPsw,
--   decimalToHexString, getHmacPsw, getEncryptedHmacPsw, verifyPsw.
-- - Auth: the codes and replies of moaClientCoreAuthLib; Auth.Requests: its requests.
-- - CryptoJs: word arrays of the bundle; its children are named for the parts of CryptoJS (Join:
--   init, clamp, concat; Hex; Latin1, with Utf8 over the conversion of the language; Base64;
--   Pkcs7; Modes: CBC and CTR over a block cipher; Buffer: BufferedBlockAlgorithm; OpenSsl: the
--   formatter; Sha256; Hmac, with PBKDF2; HmacSha256). An array of words is the function from
--   places to words. BlockCipher: Cipher, BlockCipher, SerializableCipher and PasswordBasedCipher
--   over a block function. AesTables and Aes: the lookup tables of AES, its key schedules and its
--   block function, from the same lines; Aes.Checks looks at every place of the tables. The loop
--   of PBKDF2 has the number of words wanted as its fuel, since each round adds a digest, of a
--   word at least.
-- - Wallet.Steps: the calls of MoaWallet in any order, as a step relation on pages, and the pages
--   that they reach.
-- - Bundle: the calls that the wallet makes of the bundle, by the code of CryptoJs: an instance
--   of CryptoModule in which a word array stands for its bytes, over EvpKDF, SHA384 and the
--   conversion to UTF-8 as parameters; Bundle.Ciphers has the laws that are assumed of these.
--   CryptoJs and Bundle follow a copy of a third-party library; they show that the laws of
--   CryptoModule hold of an implementation, and no result below rests on them.
-- - The other modules below Wallet, Auth, Bundle and CryptoJs hold proofs, each named for what it
--   is about.
--
-- Random word arrays, the key generator's randomness and a signature's nonce are arguments (draw,
-- drawn, seed, nonce). The halving loop of getEncryptedHmacPsw is recursion on its number of
-- rounds, which its caller computes from the text's length.
--
-- Not modelled: the bundle as a component of the program, since it is a copy of third-party
-- libraries, whose calls are parameters; the URIError of Utf8.parse; the overwriting of a
-- password or key variable by null, which nothing reads afterwards; a localStorage that is full;
-- the test pages; the minified copies; the Java projects beside JavascriptSrc.
pub mod Common
pub mod Text
pub mod Browser
pub mod CryptoModule
pub mod Kjur
pub mod Wallet
pub mod Auth
pub mod Bundle
pub mod CryptoJs
