-- ===== src/Text/Laws.antt =====
-- Laws of the string operations.
use mathlib.Core.Option
use moa_crypto.Common.{
  ap, Bool-cases, inl, inr, ◌==◌, ◌+◌, ◌-◌, min, max, length-append, append_assoc, take-append,
  drop-append, take_all, ℕ, zero, suc, ◌≡◌, refl, ◌≢◌, ◌↔◌, true, Option, none, some, List, [], ◌∷◌,
  ◌++◌, arith, append-nil, All, ==-refl, ==_iff, length, ◌⊎◌,
}
use moa_crypto.Text.{Text, text_eq, starts_with, index_of, split, is_zero, substring}

-- No code unit of the text is `c`.
abbrev pub Free : ℕ → Text → Type 0
Free c = All (λ a. a ≢ c)

pub text_eq_refl : (s : Text) → text_eq s s ≡ true
text_eq_refl [] = refl
text_eq_refl (a ∷ s) = rw (==-refl a) (text_eq_refl s)

pub eq_of_text_eq : (s t : Text) → text_eq s t ≡ true → s ≡ t
eq_of_text_eq [] [] h = refl
eq_of_text_eq [] (b ∷ t) h = cc
eq_of_text_eq (a ∷ s) [] h = cc
eq_of_text_eq (a ∷ s) (b ∷ t) h = ground (arith, eq_of_text_eq s t)

pub text_eq_iff : (s t : Text) → (text_eq s t ≡ true) ↔ (s ≡ t)
text_eq_iff s t = (eq_of_text_eq s t, λ e. rw e (text_eq_refl t))

pub starts_with-append : (p s : Text) → starts_with (p ++ s) p ≡ true
starts_with-append [] s = starts_with-nil s
  where
    starts_with-nil : (s : Text) → starts_with s [] ≡ true
    starts_with-nil [] = refl
    starts_with-nil (a ∷ s) = refl
starts_with-append (a ∷ p) s = rw (==-refl a) (starts_with-append p s)

-- A text that starts with another is that one and a rest.
pub append_of_starts_with : (s p : Text) → starts_with s p ≡ true → (r : Text) × (s ≡ p ++ r)
append_of_starts_with s [] h = (s, refl)
append_of_starts_with [] (b ∷ p) h = cc
append_of_starts_with (a ∷ s) (b ∷ p) h =
    let head_eq : a ≡ b = ground arith in
    let (r, e) = append_of_starts_with s p (ground arith) in (r, cc (head_eq, e))

pub index_of-prefix : (s t : Text) → starts_with s t ≡ true → index_of s t ≡ some 0
unfolding index_of
index_of-prefix [] t h = rw h refl
index_of-prefix (a ∷ s) t h = rw h refl

pub index_of_self : (s : Text) → index_of s s ≡ some 0
index_of_self s = index_of-prefix s s (rw append-nil at (starts_with-append s []))

suc-eq-zero : (o : Option ℕ) → Option.map suc o ≢ some 0
suc-eq-zero none h = cc
suc-eq-zero (some n) h = cc

-- `indexOf` is 0 exactly for a prefix.
pub index_of-eq-zero_iff : (s t : Text) → (index_of s t ≡ some 0) ↔ (starts_with s t ≡ true)
unfolding index_of
index_of-eq-zero_iff [] t = ground arith
index_of-eq-zero_iff (a ∷ s) t = ground (arith, suc-eq-zero (index_of s t))

pub index_of-nil : (s : Text) → index_of s [] ≡ some 0
index_of-nil s = index_of-prefix s [] (starts_with-append [] s)

-- Splitting at the first separator.
pub split-append : (sep : ℕ) (s t : Text) → Free sep s → split sep (s ++ sep ∷ t) ≡ s ∷ split sep t
unfolding split
split-append sep [] t h = rw (==-refl sep) refl
split-append sep (a ∷ s) t (ne, h) = ground (arith, split-append sep s t h)

pub split_of_Free : (sep : ℕ) (s : Text) → Free sep s → split sep s ≡ s ∷ []
unfolding split
split_of_Free sep [] h = refl
split_of_Free sep (a ∷ s) (ne, h) = ground (arith, split_of_Free sep s h)

-- The position of the separator is the length of what stands before it.
pub index_of-unit :
    (sep : ℕ) (s t : Text) → Free sep s → index_of (s ++ sep ∷ t) (sep ∷ []) ≡ some (length s)
unfolding index_of
index_of-unit sep [] t h = rw (==-refl sep) refl
index_of-unit sep (a ∷ s) t (ne, h) = ground (arith, index_of-unit sep s t h)

pub index_of-unit_none : (sep : ℕ) (s : Text) → Free sep s → index_of s (sep ∷ []) ≡ none
unfolding index_of
index_of-unit_none sep [] h = refl
index_of-unit_none sep (a ∷ s) (ne, h) = ground (arith, index_of-unit_none sep s h)

-- A text is free of the separator, or has a first part before one.
pub Free-or_cut :
    (sep : ℕ) (s : Text) → Free sep s ⊎ ((a : Text) × (t : Text) × Free sep a × (s ≡ a ++ sep ∷ t))
Free-or_cut sep [] = inl tt
Free-or_cut sep (b ∷ s) = elim (Bool-cases (b == sep)) [
  | inl same ↦ let e : b ≡ sep = ground (arith, ==_iff b sep) in inr ([], s, tt, ap (λ c. c ∷ s) e)
  | inr other ↦
      let away : b ≢ sep = λ e. ground (arith, ==_iff b sep) in
      elim (Free-or_cut sep s) [
        | inl free ↦ inl (away, free)
        | inr (a, t, free, e) ↦ inr (b ∷ a, t, (away, free), ap (λ r. b ∷ r) e)
      ]
]

-- A split has a first part.
pub split_cons : (sep : ℕ) (s : Text) → (a : Text) × (r : List Text) × (split sep s ≡ a ∷ r)
unfolding split
split_cons sep [] = ([], [], refl)
split_cons sep (b ∷ s) = elim (Bool-cases (b == sep)) [
  | inl same ↦ rw same ([], split sep s, refl)
  | inr other ↦ let (a, r, e) = split_cons sep s in rw (other, e) (b ∷ a, r, refl)
]

-- Splitting at any separator, whatever stands before it.
pub split-append_any :
    (sep : ℕ) (s t : Text) → split sep (s ++ sep ∷ t) ≡ split sep s ++ split sep t
unfolding split
split-append_any sep [] t = rw (==-refl sep) refl
split-append_any sep (a ∷ s) t = elim (Bool-cases (a == sep)) [
  | inl same ↦ rw same (ap (λ r. [] ∷ r) (split-append_any sep s t))
  | inr other ↦ let (b, r, e) = split_cons sep s in rw (other, split-append_any sep s t, e) refl
]

pub eq_of_starts_with : (s p : Text) → length s ≡ length p → starts_with s p ≡ true → s ≡ p
eq_of_starts_with [] [] e h = refl
eq_of_starts_with [] (b ∷ p) e h = cc
eq_of_starts_with (a ∷ s) [] e h = absurd (omega arith)
eq_of_starts_with (a ∷ s) (b ∷ p) e h =
    let head_eq : a ≡ b = ground arith in
    cc (head_eq, eq_of_starts_with s p (omega arith) (ground arith))

-- Between texts of one length, the test of `indexOf` for 0 is equality.
pub is_zero-index_of_iff :
    (s p : Text) → length s ≡ length p → (is_zero (index_of s p) ≡ true) ↔ (s ≡ p)
is_zero-index_of_iff s p e = (
  λ h. eq_of_starts_with s p e ((index_of-eq-zero_iff s p).0 (is_zero_some (index_of s p) h)),
  λ h. rw h (rw (index_of_self p) refl),
)
  where
    is_zero_some : (o : Option ℕ) → is_zero o ≡ true → o ≡ some 0
    is_zero_some none h = cc
    is_zero_some (some zero) h = refl
    is_zero_some (some (suc n)) h = cc

-- What follows the first separator.
pub substring-append :
    (sep : ℕ) (s t : Text) → substring (s ++ sep ∷ t) (length s + 1) (length (s ++ sep ∷ t)) ≡ t
substring-append sep s t =
    let total = length-append s (sep ∷ t) in
    let size : max (length s + 1) (length (s ++ sep ∷ t))
          - min (length s + 1) (length (s ++ sep ∷ t))
        ≡ length t =
      omega (arith, total) in
    let start : min (length s + 1) (length (s ++ sep ∷ t)) ≡ length (s ++ sep ∷ []) =
      omega (arith, total, length-append s (sep ∷ [])) in
    rw (size, start, ← append_assoc s (sep ∷ []) t, drop-append (s ++ sep ∷ []) t refl)
      (take_all (length t) t (omega arith))

-- What stands before the first separator.
pub substring-front : (s t : Text) → substring (s ++ t) 0 (length s) ≡ s
substring-front s t =
    let size : max 0 (length s) - min 0 (length s) ≡ length s = omega arith in
    let start : min 0 (length s) ≡ 0 = omega arith in rw (size, start) (take-append s t refl)
