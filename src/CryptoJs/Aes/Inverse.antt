-- ===== src/CryptoJs/Aes/Inverse.antt =====
-- AES decrypts what it encrypts.
use moa_crypto.Common.{
  ◌≡◌, refl, ap, ◌∙◌, ℕ, suc, ◌+◌, ◌-◌, ◌*◌, arith, [], ◌∷◌, ltb, leb, true, Bool-cases, inl, inr,
}
use moa_crypto.Common.Bits.{bit_xor_twice}
use moa_crypto.CryptoJs.{Words, WordArray}
use moa_crypto.CryptoJs.Fill.{AreWords}
use moa_crypto.CryptoJs.Modes.{Block}
use moa_crypto.CryptoJs.BlockCipher.Loop.{IsBlock}
use moa_crypto.CryptoJs.BlockCipher.CbcRoundTrip.{BlockLaws}
use moa_crypto.CryptoJs.AesTables.{tables}
use moa_crypto.CryptoJs.Aes.{
  State, add_key, last_round, crypt_rounds, do_crypt_block, forward, inverse, state_of, block_of,
  swap_rows, encrypt_block, decrypt_block,
}
use moa_crypto.CryptoJs.Aes.Rounds.{
  IsState, Mirrors, state_eq, add_key-IsState, last_round-IsState, after, after-IsState,
  crypt_rounds-after, crypt_rounds_back,
}
use moa_crypto.CryptoJs.Aes.Schedules.{
  schedule, keys, keys-AreWords, n_rounds-schedule, outer-Mirrors, inner-Mirrors,
}

-- A key that was added, taken off the swapped rows again.
key_back :
    (inv_keys keys : Words) (inv_row row : ℕ) (s : State)
    → Mirrors (λ x. x) inv_keys keys inv_row row
    → add_key inv_keys inv_row (swap_rows (add_key keys row s)) ≡ swap_rows s
key_back inv_keys keys inv_row row s m =
    state_eq (add_key inv_keys inv_row (swap_rows (add_key keys row s))) (swap_rows s)
      (rw m.row_0 (bit_xor_twice s.s0 (keys row)))
      (rw m.row_1 (bit_xor_twice s.s3 (keys (row + 3))))
      (rw m.row_2 (bit_xor_twice s.s2 (keys (row + 2))))
      (rw m.row_3 (bit_xor_twice s.s1 (keys (row + 1))))

-- The state of a block, and the block of a state.
state_of-IsState :
    (block : Block)
    → IsBlock 4 block
    → IsState (state_of block) × (block_of (state_of block) ≡ block)
state_of-IsState [] (e, rest) = absurd (omega (arith, e))
state_of-IsState (a ∷ []) (e, rest) = absurd (omega (arith, e))
state_of-IsState (a ∷ b ∷ []) (e, rest) = absurd (omega (arith, e))
state_of-IsState (a ∷ b ∷ c ∷ []) (e, rest) = absurd (omega (arith, e))
state_of-IsState (a ∷ b ∷ c ∷ d ∷ []) (e, (h, (k, (l, (m, rest))))) =
    (record { first = h; second = k; third = l; fourth = m }, refl)
state_of-IsState (a ∷ b ∷ c ∷ d ∷ x ∷ more) (e, rest) = absurd (omega (arith, e))

block_of-IsBlock : (s : State) → IsState s → IsBlock 4 (block_of s)
block_of-IsBlock s h = (refl, (h.first, (h.second, (h.third, (h.fourth, tt)))))

module _ (key : WordArray) (ks : AreWords key.words) (m : State) (h : IsState m) where
  abbrev n : ℕ
  n = (schedule key ks).n_rounds - 1

  abbrev inv_keys : Words
  inv_keys = (schedule key ks).inv_key_schedule

  abbrev start : State
  start = add_key (keys key ks) 0 m

  start-IsState : IsState start
  start-IsState = add_key-IsState (keys key ks) 0 m (keys-AreWords key ks) h

  abbrev encrypted : State
  encrypted = do_crypt_block (schedule key ks).n_rounds (keys key ks) (forward tables) m

  abbrev behind : State
  behind =
      last_round (forward tables) (after inv_keys (keys key ks) (keys-AreWords key ks) n 4 start)

  encrypted-behind : encrypted ≡ add_key (keys key ks) (4 + n * 4) behind
  unfolding do_crypt_block
  encrypted-behind = crypt_rounds-after inv_keys (keys key ks) (keys-AreWords key ks) n 4 start

  encrypted-IsState : IsState encrypted
  encrypted-IsState = rw encrypted-behind (
      add_key-IsState (keys key ks) (4 + n * 4) behind (keys-AreWords key ks) (
        last_round-IsState _
          (after-IsState inv_keys (keys key ks) (keys-AreWords key ks) n 4 start start-IsState)))

  abbrev decrypted : State
  decrypted =
      swap_rows
        (do_crypt_block (schedule key ks).n_rounds inv_keys (inverse tables) (swap_rows encrypted))

  decrypted-back : decrypted ≡ m
  unfolding do_crypt_block
  decrypted-back =
      let rounds = n_rounds-schedule key ks in
      let first = key_back inv_keys (keys key ks) 0 (4 + n * 4) behind (
        outer-Mirrors key ks 0 (4 + n * 4) (omega (arith, rounds))
          (λ i l. let e : ltb i 4 ≡ true = ground arith in rw e refl)) in
      let last_row : 4 + n * 4 ≡ suc n * 4 = omega arith in
      let last = key_back inv_keys (keys key ks) (suc n * 4) 0 m (
        outer-Mirrors key ks (suc n) 0 (omega (arith, rounds)) (λ i l.
          let e : leb (((schedule key ks).n_rounds + 1) * 4 - i) 4 ≡ true =
            ground (arith, rounds) in
          elim (Bool-cases (ltb i 4)) [ inl low ↦ rw low refl | inr high ↦ rw (high, e) refl ])) in
      ap swap_rows (
        ap (λ t. crypt_rounds (inverse tables) inv_keys n 4 (add_key inv_keys 0 (swap_rows t)))
          encrypted-behind
        ∙ ap (crypt_rounds (inverse tables) inv_keys n 4) first
        ∙ crypt_rounds_back inv_keys (keys key ks) (keys-AreWords key ks) n 4 4 start start-IsState
            (λ j l.
              let from : suc j * 4 ≡ 4 + j * 4 = omega arith in
              rw from at (
                inner-Mirrors key ks (suc j) (4 + (n - 1 - j) * 4) (omega (arith, rounds, l))
                  (omega arith) (omega arith)))
        ∙ (rw last_row last))

-- Under every key of 32-bit words, encryptBlock makes four words of 32 bits of a block of four
-- words of 32 bits, and decryptBlock gives the block back from them.
pub decrypt_block-encrypt_block :
    (key : WordArray) (block : Block)
    → AreWords key.words
    → IsBlock 4 block
    → IsBlock 4 (encrypt_block key block) × (decrypt_block key (encrypt_block key block) ≡ block)
unfolding encrypt_block decrypt_block
decrypt_block-encrypt_block key block ks h =
    let (state, back) = state_of-IsState block h in
    (
      block_of-IsBlock (encrypted key ks (state_of block) state)
          (encrypted-IsState key ks (state_of block) state),
      ap block_of (decrypted-back key ks (state_of block) state) ∙ back,
    )

pub aes-BlockLaws :
    (key : WordArray) → AreWords key.words → BlockLaws (encrypt_block key) (decrypt_block key)
aes-BlockLaws key ks = record {
  encrypt-IsBlock = λ block h. (decrypt_block-encrypt_block key block ks h).0;
  decrypt-encrypt = λ block h. (decrypt_block-encrypt_block key block ks h).1;
}
