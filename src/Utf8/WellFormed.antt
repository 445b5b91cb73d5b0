-- ===== src/Utf8/WellFormed.antt =====
-- src/utf8.c accepts exactly the well-formed strings of RFC 3629, given by their bytes.
use openps3ftp.Base.{
  ℕ, zero, suc, ◌≤◌, ◌<◌, ◌≡◌, ◌↔◌, refl, sym, subst, true, some, [], ◌∷◌, ltb, Bytes, length,
  arith, Bool-cases, Option-cases, inl, inr,
}
use openps3ftp.Utf8.{continuation, lead, scalar_ok, sequence, valid_fuel, utf8_valid}

abbrev pub IsTail : ℕ → Type 0
IsTail b = (0x80 ≤ b) × (b < 0xC0)

abbrev pub IsTwo : ℕ → ℕ → Type 0
IsTwo a b = (0xC2 ≤ a) × (a < 0xE0) × IsTail b

-- no overlong form after E0, no surrogate after ED
abbrev pub IsThree : ℕ → ℕ → ℕ → Type 0
IsThree a b c =
    (0xE0 ≤ a) × (a < 0xF0) × IsTail b × IsTail c × (a ≡ 0xE0 → 0xA0 ≤ b) × (a ≡ 0xED → b < 0xA0)

-- no overlong form after F0, nothing above U+10FFFF after F4
abbrev pub IsFour : ℕ → ℕ → ℕ → ℕ → Type 0
IsFour a b c d =
    (0xF0 ≤ a)
    × (a < 0xF5)
    × IsTail b
    × IsTail c
    × IsTail d
    × (a ≡ 0xF0 → 0x90 ≤ b)
    × (a ≡ 0xF4 → b < 0x90)

pub data IsUtf8 : Bytes → Type 0 where
  done : IsUtf8 []
  one : (a : ℕ) (s : Bytes) → a < 0x80 → IsUtf8 s → IsUtf8 (a ∷ s)
  two : (a b : ℕ) (s : Bytes) → IsTwo a b → IsUtf8 s → IsUtf8 (a ∷ b ∷ s)
  three : (a b c : ℕ) (s : Bytes) → IsThree a b c → IsUtf8 s → IsUtf8 (a ∷ b ∷ c ∷ s)
  four : (a b c d : ℕ) (s : Bytes) → IsFour a b c d → IsUtf8 s → IsUtf8 (a ∷ b ∷ c ∷ d ∷ s)

sequence-two : (a b : ℕ) (s : Bytes) → IsTwo a b → sequence a (b ∷ s) ≡ some s
unfolding sequence lead continuation scalar_ok
sequence-two a b s h = ground arith

sequence-three : (a b c : ℕ) (s : Bytes) → IsThree a b c → sequence a (b ∷ c ∷ s) ≡ some s
unfolding sequence lead continuation scalar_ok
sequence-three a b c s h = ground arith

sequence-four : (a b c d : ℕ) (s : Bytes) → IsFour a b c d → sequence a (b ∷ c ∷ d ∷ s) ≡ some s
unfolding sequence lead continuation scalar_ok
sequence-four a b c d s h = ground arith

IsTwo-sequence :
    (a b : ℕ) (s rest : Bytes)
    → 0xC0 ≤ a
    → a < 0xE0
    → sequence a (b ∷ s) ≡ some rest
    → IsTwo a b × (s ≡ rest)
unfolding sequence lead continuation scalar_ok
IsTwo-sequence a b s rest lo hi e = ground arith

IsThree-sequence :
    (a b c : ℕ) (s rest : Bytes)
    → 0xE0 ≤ a
    → a < 0xF0
    → sequence a (b ∷ c ∷ s) ≡ some rest
    → IsThree a b c × (s ≡ rest)
unfolding sequence lead continuation scalar_ok
IsThree-sequence a b c s rest lo hi e = ground arith

IsFour-sequence :
    (a b c d : ℕ) (s rest : Bytes)
    → 0xF0 ≤ a
    → sequence a (b ∷ c ∷ d ∷ s) ≡ some rest
    → IsFour a b c d × (s ≡ rest)
unfolding sequence lead continuation scalar_ok
IsFour-sequence a b c d s rest lo e = ground arith

low-sequence : (a : ℕ) (s rest : Bytes) → 0x80 ≤ a → a < 0xC0 → sequence a s ≡ some rest → ⊥
unfolding sequence lead
low-sequence a s rest lo hi e = absurd (ground arith)

-- a lead byte of two, three or four bytes, and what stands behind it
from-two :
    (a : ℕ) (s rest : Bytes)
    → 0xC0 ≤ a
    → a < 0xE0
    → sequence a s ≡ some rest
    → IsUtf8 rest
    → IsUtf8 (a ∷ s)
unfolding sequence lead continuation
from-two a [] rest lo hi e k = absurd (ground arith)
from-two a (b ∷ s) rest lo hi e k =
    let (ok, same) = IsTwo-sequence a b s rest lo hi e in two a b s ok (subst IsUtf8 (sym same) k)

from-three :
    (a : ℕ) (s rest : Bytes)
    → 0xE0 ≤ a
    → a < 0xF0
    → sequence a s ≡ some rest
    → IsUtf8 rest
    → IsUtf8 (a ∷ s)
unfolding sequence lead continuation
from-three a [] rest lo hi e k = absurd (ground arith)
from-three a (b ∷ []) rest lo hi e k = absurd (ground arith)
from-three a (b ∷ c ∷ s) rest lo hi e k =
    let (ok, same) = IsThree-sequence a b c s rest lo hi e in
    three a b c s ok (subst IsUtf8 (sym same) k)

from-four :
    (a : ℕ) (s rest : Bytes) → 0xF0 ≤ a → sequence a s ≡ some rest → IsUtf8 rest → IsUtf8 (a ∷ s)
unfolding sequence lead continuation
from-four a [] rest lo e k = absurd (ground arith)
from-four a (b ∷ []) rest lo e k = absurd (ground arith)
from-four a (b ∷ c ∷ []) rest lo e k = absurd (ground arith)
from-four a (b ∷ c ∷ d ∷ s) rest lo e k =
    let (ok, same) = IsFour-sequence a b c d s rest lo e in
    four a b c d s ok (subst IsUtf8 (sym same) k)

from-sequence :
    (a : ℕ) (s rest : Bytes) → 0x80 ≤ a → sequence a s ≡ some rest → IsUtf8 rest → IsUtf8 (a ∷ s)
from-sequence a s rest lo e k = elim (Bool-cases (ltb a 0xC0)) [
  | inl low ↦ absurd (low-sequence a s rest lo (ground arith) e)
  | inr over ↦ elim (Bool-cases (ltb a 0xE0)) [
    | inl small ↦ from-two a s rest (ground arith) (ground arith) e k
    | inr large ↦ elim (Bool-cases (ltb a 0xF0)) [
      | inl medium ↦ from-three a s rest (ground arith) (ground arith) e k
      | inr huge ↦ from-four a s rest (ground arith) e k
    ]
  ]
]

valid_fuel-IsUtf8 : (n : ℕ) (s : Bytes) → valid_fuel n s ≡ true → IsUtf8 s
unfolding valid_fuel
valid_fuel-IsUtf8 n [] h = done
valid_fuel-IsUtf8 zero (c ∷ s) h = absurd cc
valid_fuel-IsUtf8 (suc n) (c ∷ s) h = elim (Bool-cases (ltb c 0x80)) [
  | inl ascii ↦ one c s (ground arith) (valid_fuel-IsUtf8 n s (ground (arith, ascii)))
  | inr lead ↦ elim (Option-cases (sequence c s)) [
    | inl n ↦ absurd (ground (arith, n))
    | inr (rest, e) ↦
        from-sequence c s rest (ground arith) e (valid_fuel-IsUtf8 n rest (ground (arith, e)))
  ]
]

IsUtf8-valid_fuel : {s : Bytes} (k : IsUtf8 s) (n : ℕ) → length s ≤ n → valid_fuel n s ≡ true
unfolding valid_fuel
IsUtf8-valid_fuel done n h = refl
IsUtf8-valid_fuel (one a s lo k) zero h = absurd (omega arith)
IsUtf8-valid_fuel (one a s lo k) (suc n) h = ground (arith, IsUtf8-valid_fuel k n (omega arith))
IsUtf8-valid_fuel (two a b s ok k) zero h = absurd (omega arith)
IsUtf8-valid_fuel (two a b s ok k) (suc n) h =
    ground (arith, sequence-two a b s ok, IsUtf8-valid_fuel k n (omega arith))
IsUtf8-valid_fuel (three a b c s ok k) zero h = absurd (omega arith)
IsUtf8-valid_fuel (three a b c s ok k) (suc n) h =
    ground (arith, sequence-three a b c s ok, IsUtf8-valid_fuel k n (omega arith))
IsUtf8-valid_fuel (four a b c d s ok k) zero h = absurd (omega arith)
IsUtf8-valid_fuel (four a b c d s ok k) (suc n) h =
    ground (arith, sequence-four a b c d s ok, IsUtf8-valid_fuel k n (omega arith))

-- The validator accepts a string exactly when it is well-formed UTF-8 by the byte ranges of RFC 3629: no
-- overlong form, no surrogate, nothing above U+10FFFF, and no truncated or stray byte.
pub utf8_valid_iff : (s : Bytes) → (utf8_valid s ≡ true) ↔ IsUtf8 s
unfolding utf8_valid
utf8_valid_iff s =
    (valid_fuel-IsUtf8 (length s) s, λ k. IsUtf8-valid_fuel k (length s) (omega arith))
