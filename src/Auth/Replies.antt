-- ===== src/Auth/Replies.antt =====
-- Which replies are taken: the header's codes, and the state of a wallet reply.
use moa_crypto.Common.{
  ◌≡◌, refl, ◌↔◌, ℕ, zero, suc, Bool, true, false, ◌||◌, ◌&&◌, none, some, Option, List, [], ◌∷◌,
  ◌++◌, if◌then◌else◌, ◌∙◌, ap, ◌⊎◌, inl, inr, Bool-cases,
}
use moa_crypto.Text.{Text, starts_with, is_zero, to_upper, split, contains}
use moa_crypto.Text.Laws.{
  Free, index_of-eq-zero_iff, index_of-unit, index_of-unit_none, substring-append, substring-front,
  Free-or_cut, split-append, split_of_Free,
}
use moa_crypto.Browser.{Result, ok, type_error}
use moa_crypto.Auth.{
  core_id_exist_ack, core_id_psw_reg_res, manager_id_psw_reg_res, core_log_in_start_res,
  core_log_in_res, manager_log_in_res, core_change_psw_res, core_un_regist_res, has_code,
  check_header, verify_state, core_msg_packet_parser, verify_register_wallet_msg,
  verify_restore_wallet_msg, wallet_regist_res, wallet_regist_success, wallet_restore_res,
  wallet_restore_success,
}

-- The codes of the replies that the library takes.
abbrev pub reply_codes : List Text
reply_codes =
    core_id_exist_ack ∷ core_id_psw_reg_res ∷ manager_id_psw_reg_res ∷ core_log_in_start_res
    ∷ core_log_in_res ∷ manager_log_in_res ∷ core_change_psw_res ∷ core_un_regist_res ∷ []

abbrev pub begins_with_one : List Text → Text → Bool
begins_with_one [] header = false
begins_with_one (code ∷ rest) header = starts_with header code || begins_with_one rest header

is_zero_of : (o : Option ℕ) (b : Bool) → ((o ≡ some 0) ↔ (b ≡ true)) → is_zero o ≡ b
is_zero_of none true e = cc (e.1 refl)
is_zero_of none false e = refl
is_zero_of (some zero) true e = refl
is_zero_of (some zero) false e = cc (e.0 refl)
is_zero_of (some (suc n)) true e = cc (e.1 refl)
is_zero_of (some (suc n)) false e = refl

has_code_lem : (header code : Text) → has_code header code ≡ starts_with header code
has_code_lem header code = is_zero_of _ _ (index_of-eq-zero_iff header code)

if_same : (b : Bool) → (if b then true else false) ≡ b
if_same true = refl
if_same false = refl

or_false : (b : Bool) → (b || false) ≡ b
or_false true = refl
or_false false = refl

check_header_lem : (header : Text) → check_header header ≡ begins_with_one reply_codes header
unfolding check_header
check_header_lem header = rw (
  if_same,
  or_false,
  has_code_lem header core_id_exist_ack,
  has_code_lem header core_id_psw_reg_res,
  has_code_lem header manager_id_psw_reg_res,
  has_code_lem header core_log_in_start_res,
  has_code_lem header core_log_in_res,
  has_code_lem header manager_log_in_res,
  has_code_lem header core_change_psw_res,
  has_code_lem header core_un_regist_res,
)

-- A reply whose header, in upper case, begins with one of the eight codes gives the text behind
-- the first "$"; another header gives "", and so does a text with no "$". The header holds no
-- "$".
pub core_msg_packet_parser_lem :
    (header fields : Text)
    → Free b'$' header
    → (core_msg_packet_parser (header ++ b'$' ∷ fields)
        ≡ (if begins_with_one reply_codes (to_upper header) then fields else []))
      × (core_msg_packet_parser header ≡ [])
unfolding core_msg_packet_parser
core_msg_packet_parser_lem header fields free = (
  rw
      (
        index_of-unit b'$' header fields free,
        substring-front header (b'$' ∷ fields),
        substring-append b'$' header fields,
        check_header_lem,
      )
      refl,
  rw (index_of-unit_none b'$' header free) refl,
)

state_iff :
    (a b : Bool)
    → (◌≡◌ {A = Result Bool} (ok (if a && b then true else false)) (ok true))
      ↔ ((a ≡ true) × (b ≡ true))
state_iff true true = (λ _. (refl, refl), λ _. refl)
state_iff true false = (λ h. cc, λ h. cc)
state_iff false b = (λ h. cc, λ h. cc)

-- A text whose first two fields are these: neither holds a "$", and the text ends behind the second
-- or goes on behind another "$".
abbrev pub HasFields : (header state msg : Text) → Type 0
HasFields header state msg =
    Free b'$' header
    × Free b'$' state
    × ((msg ≡ header ++ b'$' ∷ state)
        ⊎ ((rest : Text) × (msg ≡ header ++ b'$' ∷ (state ++ b'$' ∷ rest))))

split_of_HasFields :
    (header state msg : Text)
    → HasFields header state msg
    → (rest : List Text) × (split b'$' msg ≡ header ∷ state ∷ rest)
split_of_HasFields header state msg (h, k, inl e) = (
  [],
  ap (split b'$') e
      ∙ split-append b'$' header state h
      ∙ ap (λ r. header ∷ r) (split_of_Free b'$' state k),
)
split_of_HasFields header state msg (h, k, inr (rest, e)) = (
  split b'$' rest,
  ap (split b'$') e
      ∙ split-append b'$' header (state ++ b'$' ∷ rest) h
      ∙ ap (λ r. header ∷ r) (split-append b'$' state rest k),
)

-- A text has no "$", or two fields.
fields_of :
    (msg : Text) → Free b'$' msg ⊎ ((header : Text) × (state : Text) × HasFields header state msg)
fields_of msg = elim (Free-or_cut b'$' msg) [
  | inl free ↦ inl free
  | inr (header, t, h, e) ↦ elim (Free-or_cut b'$' t) [
    | inl k ↦ inr (header, t, (h, k, inl e))
    | inr (state, rest, k, f) ↦
        inr (header, state, (h, k, inr (rest, e ∙ ap (λ r. header ++ b'$' ∷ r) f)))
  ]
]

-- What makes a reply a success.
abbrev pub IsSuccess : (code success msg : Text) → Type 0
IsSuccess code success msg =
    (header : Text) × (state : Text) × HasFields header state msg
    × (contains header code ≡ true)
    × (contains state success ≡ true)

module _ (code success msg : Text) where
  verify_state_iff :
      (verify_state code success (split b'$' msg) ≡ ok true) ↔ IsSuccess code success msg
  unfolding verify_state
  verify_state_iff = (
    (λ accepted. elim (fields_of msg) [
      | inl free ↦ elim (Bool-cases (contains msg code)) [
        | inl there ↦ cc (rw (split_of_Free b'$' msg free, there) at accepted)
        | inr none_there ↦ cc (rw (split_of_Free b'$' msg free, none_there) at accepted)
      ]
      | inr (header, state, fields) ↦
          let (rest, e) = split_of_HasFields header state msg fields in
          let (first, second) =
            (state_iff (contains header code) (contains state success)).0 (rw e at accepted) in
          (header, state, fields, first, second)
    ]),
    (λ (header, state, fields, first, second).
        let (rest, e) = split_of_HasFields header state msg fields in rw (e, first, second) refl),
  )

  verify_state-type_error_iff :
      (verify_state code success (split b'$' msg) ≡ type_error)
      ↔ (Free b'$' msg × (contains msg code ≡ true))
  unfolding verify_state
  verify_state-type_error_iff = (
    (λ stopped. elim (fields_of msg) [
      | inl free ↦ elim (Bool-cases (contains msg code)) [
        | inl there ↦ (free, there)
        | inr none_there ↦ cc (rw (split_of_Free b'$' msg free, none_there) at stopped)
      ]
      | inr (header, state, fields) ↦
          let (rest, e) = split_of_HasFields header state msg fields in cc (rw e at stopped)
    ]),
    (λ (free, there). rw (split_of_Free b'$' msg free, there) refl),
  )

-- For every text: it is the success of a wallet registration exactly when its first two fields
-- hold the code 4D4F414004 and the state 6080, anywhere in the field, and of a restoration
-- exactly when they hold 4D4F414008 and 6084; and each check stops with a TypeError exactly when
-- the text holds its code and no "$".
pub verify_wallet_msg_iff :
    (msg : Text)
    → ((verify_register_wallet_msg msg ≡ ok true)
        ↔ IsSuccess wallet_regist_res wallet_regist_success msg)
      × ((verify_register_wallet_msg msg ≡ type_error)
          ↔ (Free b'$' msg × (contains msg wallet_regist_res ≡ true)))
      × ((verify_restore_wallet_msg msg ≡ ok true)
          ↔ IsSuccess wallet_restore_res wallet_restore_success msg)
      × ((verify_restore_wallet_msg msg ≡ type_error)
          ↔ (Free b'$' msg × (contains msg wallet_restore_res ≡ true)))
unfolding verify_register_wallet_msg verify_restore_wallet_msg
verify_wallet_msg_iff msg = (
  verify_state_iff wallet_regist_res wallet_regist_success msg,
  verify_state-type_error_iff wallet_regist_res wallet_regist_success msg,
  verify_state_iff wallet_restore_res wallet_restore_success msg,
  verify_state-type_error_iff wallet_restore_res wallet_restore_success msg,
)
