-- ===== src/Utf8.antt =====
-- src/utf8.c: validation of UTF-8 after RFC 2640. Bit masks are written as the ranges that they select:
-- `(c & 0xE0) == 0xC0` is 0xC0 ≤ c < 0xE0, and `cp << 6 | b` is `cp * 64 + b`.
pub mod WellFormed
use openps3ftp.Base.{
  ℕ, zero, suc, ◌+◌, ◌-◌, ◌*◌, Bool, true, false, not, ◌&&◌, Option, none, some, [], ◌∷◌, leb, ltb,
  ◌==◌, if◌then◌else◌, Bytes, length,
}

-- the loop over `need` continuation bytes; at the end of the string `*p` is 0, which is none
unfoldable pub continuation : ℕ → ℕ → Bytes → Option (ℕ × Bytes)
continuation zero cp s = some (cp, s)
continuation (suc need) cp [] = none
continuation (suc need) cp (c ∷ s) =
    let rest = continuation need (cp * 64 + (c - 0x80)) s in
    if leb 0x80 c && ltb c 0xC0 then rest else none

-- the lead byte: the bits of the code point that it holds, and `need`
unfoldable pub lead : ℕ → Option (ℕ × ℕ)
lead c =
    if leb 0xC0 c && ltb c 0xE0
    then (if c - 0xC0 == 0 then none else some (c - 0xC0, 1))
    else if leb 0xE0 c && ltb c 0xF0
    then some (c - 0xE0, 2)
    else if leb 0xF0 c && ltb c 0xF8
    then some (c - 0xF0, 3)
    else none

-- overlong forms, surrogates, and what lies above U+10FFFF
unfoldable pub scalar_ok : ℕ → ℕ → Bool
scalar_ok need cp =
    not (need == 1 && ltb cp 0x80)
    && not (need == 2 && ltb cp 0x800)
    && not (need == 3 && ltb cp 0x10000)
    && not (leb 0xD800 cp && leb cp 0xDFFF)
    && not (ltb 0x10FFFF cp)

-- One round of the loop at a byte of 0x80 or more: what is left, or `none` for an invalid sequence.
unfoldable pub sequence : ℕ → Bytes → Option Bytes
unfolding lead continuation scalar_ok
sequence c s = elim (lead c) [
  | none ↦ none
  | some (cp, need) ↦ elim (continuation need cp s) [
    | none ↦ none
    | some (cp', rest) ↦ if scalar_ok need cp' then some rest else none
  ]
]

-- The loop. Each round consumes a byte, so the length of the string is fuel enough.
unfoldable pub valid_fuel : ℕ → Bytes → Bool
unfolding sequence
valid_fuel fuel [] = true
valid_fuel zero (c ∷ s) = false
valid_fuel (suc fuel) (c ∷ s) = elim (ltb c 0x80) [
  | true ↦ valid_fuel fuel s
  | false ↦ elim (sequence c s) [ none ↦ false | some rest ↦ valid_fuel fuel rest ]
]

unfoldable pub utf8_valid : Bytes → Bool
unfolding valid_fuel
utf8_valid s = valid_fuel (length s) s
