-- ===== src/Scan.antt =====
-- The conversions of the C library that the handlers call: `strtol`, `strtoull`, `atoi`, and the
-- directives `%u` and `%n[^|]` of `sscanf`. A `long` has 64 bits and an `int` 32.
use openps3ftp.Base.{
  ℕ, zero, suc, ◌+◌, ◌-◌, ◌*◌, ◌%◌, ◌^◌, Bool, true, false, ◌&&◌, ◌||◌, Option, none, some, [], ◌∷◌,
  ltb, leb, ◌==◌, if◌then◌else◌, ◌>>=◌, Bytes, is_nil,
}

-- `isspace` in the C locale
abbrev pub is_space : ℕ → Bool
is_space c = (leb 9 c && leb c 13) || c == b' '

unfoldable pub skip_whitespace : Bytes → Bytes
skip_whitespace [] = []
skip_whitespace (c ∷ s) = let rest = skip_whitespace s in if is_space c then rest else c ∷ s

abbrev pub is_digit_of : ℕ → ℕ → Bool
is_digit_of base c = leb b'0' c && ltb c (b'0' + base)

-- the value of the digits at the front, and what follows them
unfoldable pub scan_digits : ℕ → ℕ → Bytes → ℕ × Bytes
scan_digits base v [] = (v, [])
scan_digits base v (c ∷ s) =
    let rest = scan_digits base (v * base + (c - b'0')) s in
    if is_digit_of base c then rest else (v, c ∷ s)

-- a number as it was read: its sign, its magnitude, and `*end`
pub record Scanned : Type 0 where
  pub negative : Bool
  pub magnitude : ℕ
  pub rest : Bytes

scan_unsigned : ℕ → Bool → Bytes → Option Scanned
unfolding scan_digits
scan_unsigned base negative [] = none
scan_unsigned base negative (c ∷ s) =
    if is_digit_of base c
    then (let (v, rest) = scan_digits base 0 (c ∷ s) in
        some (record { negative = negative; magnitude = v; rest = rest }))
    else none

scan_signed : ℕ → Bytes → Option Scanned
unfolding scan_unsigned
scan_signed base [] = none
scan_signed base (c ∷ s) =
    if c == b'-'
    then scan_unsigned base true s
    else if c == b'+'
    then scan_unsigned base false s
    else scan_unsigned base false (c ∷ s)

-- `none` if there is no conversion (`end == nptr`)
unfoldable pub scan_number : ℕ → Bytes → Option Scanned
unfolding skip_whitespace scan_signed
scan_number base s = scan_signed base (skip_whitespace s)

abbrev pub u64_mod : ℕ
u64_mod = 2 ^ 64

-- The value of `strtoull`: it saturates, and a minus sign negates modulo 2 ^ 64.
unfoldable pub to_ull : Scanned → ℕ
to_ull n =
    if leb u64_mod n.magnitude
    then u64_mod - 1
    else if n.negative
    then (u64_mod - n.magnitude) % u64_mod
    else n.magnitude

-- The value of `strtol` modulo 2 ^ 64: it saturates at -2 ^ 63 and 2 ^ 63 - 1.
unfoldable pub to_long : Scanned → ℕ
to_long n =
    if n.negative
    then (if ltb (2 ^ 63) n.magnitude then 2 ^ 63 else (u64_mod - n.magnitude) % u64_mod)
    else if leb (2 ^ 63) n.magnitude
    then 2 ^ 63 - 1
    else n.magnitude

-- `atoi`, as the bit pattern of an `int`; 0 if there is no conversion
unfoldable pub atoi : Bytes → ℕ
unfolding scan_number to_long
atoi s = elim (scan_number 10 s) [ none ↦ 0 | some n ↦ to_long n % 2 ^ 32 ]

-- `%u`
unfoldable pub scan_u : Bytes → Option (ℕ × Bytes)
unfolding scan_number to_ull
scan_u s = scan_number 10 s >>= λ n. some (to_ull n % 2 ^ 32, n.rest)

-- a literal character of the format
unfoldable pub scan_char : ℕ → Bytes → Option Bytes
scan_char c [] = none
scan_char c (d ∷ s) = if d == c then some s else none

-- `%n[^|]` with `n` left: the longest run of at most that many bytes other than '|'
unfoldable pub scan_until_bar : ℕ → Bytes → Bytes × Bytes
scan_until_bar zero s = ([], s)
scan_until_bar (suc n) [] = ([], [])
scan_until_bar (suc n) (c ∷ s) =
    let (t, rest) = scan_until_bar n s in if c == b'|' then ([], c ∷ s) else (c ∷ t, rest)

unfoldable pub scan_set : ℕ → Bytes → Option (Bytes × Bytes)
unfolding scan_until_bar
scan_set n s = let (t, rest) = scan_until_bar n s in if is_nil t then none else some (t, rest)
