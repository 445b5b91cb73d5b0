-- ===== src/Stream/Lines.antt =====
-- src/client.c: the lines that are read from the control connection.
use openps3ftp.Base.{
  ℕ, zero, suc, ◌+◌, ◌-◌, ◌<◌, ◌≡◌, ◌≢◌, refl, sym, ◌∙◌, ap, Option-cases, inl, inr, none, some,
  List, [], ◌∷◌, ◌++◌, arith, length, length-append, take-eq_of_le, append_assoc, All, Bytes,
  c_string, crlf, ◌>>=◌,
}
use openps3ftp.Stream.{split_line, strip_cr, client_getline, get_lines}

split_line-append :
    (a b : Bytes) {r : Bytes × Bytes}
    → split_line a ≡ some r
    → split_line (a ++ b) ≡ some (r.0, r.1 ++ b)
unfolding split_line
split_line-append [] b h = absurd cc
split_line-append (c ∷ a) b h = elim (Option-cases (split_line a)) [
  | inl none_left ↦ ground (arith, none_left)
  | inr (r, e) ↦ ground (arith, e, split_line-append a b e)
]

-- what is left is shorter
split_line-lt : (a : Bytes) {r : Bytes × Bytes} → split_line a ≡ some r → length r.1 < length a
unfolding split_line
split_line-lt [] h = absurd cc
split_line-lt (c ∷ a) h = elim (Option-cases (split_line a)) [
  | inl none_left ↦ ground (arith, none_left)
  | inr (r, e) ↦ ground (arith, e, split_line-lt a e)
]

module _ (size : ℕ) where
  pub getline-append :
      (a b : Bytes) {r : Bytes × Bytes}
      → client_getline size a ≡ some r
      → client_getline size (a ++ b) ≡ some (r.0, r.1 ++ b)
  unfolding client_getline
  getline-append a b h = elim (Option-cases (split_line a)) [
    | inl none_left ↦ ground (arith, none_left)
    | inr (r, e) ↦ ground (arith, e, split_line-append a b e)
  ]

  pub getline-lt :
      (a : Bytes) {r : Bytes × Bytes} → client_getline size a ≡ some r → length r.1 < length a
  unfolding client_getline
  getline-lt a h = elim (Option-cases (split_line a)) [
    | inl none_left ↦ ground (arith, none_left)
    | inr (r, e) ↦ ground (arith, e, split_line-lt a e)
  ]

  get_lines-none :
      (n : ℕ) (a : Bytes) → client_getline size a ≡ none → get_lines (suc n) size a ≡ ([], a)
  unfolding get_lines
  get_lines-none n a e = rw (e, get_lines) refl

  get_lines-some :
      (n : ℕ) (a : Bytes) {r : Bytes × Bytes}
      → client_getline size a ≡ some r
      → get_lines (suc n) size a ≡ (r.0 ∷ (get_lines n size r.1).0, (get_lines n size r.1).1)
  unfolding get_lines
  get_lines-some n a e = rw (e, get_lines) refl

  -- any fuel above the length gives the same
  get_lines_enough :
      (n m : ℕ) (a : Bytes) → length a < n → length a < m → get_lines n size a ≡ get_lines m size a
  get_lines_enough zero m a p q = absurd (omega arith)
  get_lines_enough (suc n) zero a p q = absurd (omega arith)
  get_lines_enough (suc n) (suc m) a p q = elim (Option-cases (client_getline size a)) [
    | inl e ↦ get_lines-none n a e ∙ sym (get_lines-none m a e)
    | inr (r, e) ↦
        let less = getline-lt a e in
        rw (get_lines-some n a e) (
          rw (get_lines-some m a e) (
            ap (λ (l : List Bytes × Bytes). (r.0 ∷ l.0, l.1))
              (get_lines_enough n m r.1 (omega arith) (omega arith))))
  ]

  -- Bytes that arrive in two pieces yield the lines that they yield at once, with the same bytes left: those of the first
  -- piece, and those of what it leaves with the second behind it. Fuel above a buffer's length is enough for it.
  pub get_lines-append :
      (n m k : ℕ) (a b : Bytes)
      → length a < n
      → length a + length b < m
      → length a + length b < k
      → let first = get_lines n size a in
        let second = get_lines m size (first.1 ++ b) in
        get_lines k size (a ++ b) ≡ (first.0 ++ second.0, second.1)
  get_lines-append zero m k a b p q u = absurd (omega arith)
  get_lines-append (suc n) m zero a b p q u = absurd (omega arith)
  get_lines-append (suc n) m (suc k) a b p q u = elim (Option-cases (client_getline size a)) [
    | inl e ↦ rw (get_lines-none n a e) (
        get_lines_enough (suc k) m (a ++ b) (omega (arith, length-append a b))
          (omega (arith, length-append a b)))
    | inr (r, e) ↦
        let less = getline-lt a e in
        rw (get_lines-some n a e) (
          rw (get_lines-some k (a ++ b) (getline-append a b e)) (
            ap (λ (l : List Bytes × Bytes). (r.0 ∷ l.0, l.1))
              (get_lines-append n m k r.1 b (omega arith) (omega arith) (omega arith))))
  ]

-- a byte of a command line
abbrev pub IsText : ℕ → Type 0
IsText c = (c ≢ b'\n') × (c ≢ 0)

split_line-print :
    (l rest : Bytes)
    → All IsText l
    → split_line (l ++ b'\r' ∷ b'\n' ∷ rest) ≡ some (l ++ b'\r' ∷ [], rest)
unfolding split_line
split_line-print [] rest h = refl
split_line-print (c ∷ l) rest (h, hs) = ground (arith, split_line-print l rest hs)

strip_cr-print : (l : Bytes) → strip_cr (l ++ b'\r' ∷ []) ≡ l
unfolding strip_cr
strip_cr-print [] = refl
strip_cr-print (c ∷ []) = refl
strip_cr-print (c ∷ d ∷ l) = ap (λ t. c ∷ t) (strip_cr-print (d ∷ l))

c_string-print : (l : Bytes) → All IsText l → c_string l ≡ l
unfolding c_string
c_string-print [] h = refl
c_string-print (c ∷ l) (h, hs) = ground (arith, c_string-print l hs)

-- A line sent with its CRLF is read back as it is.
pub getline-print :
    (size : ℕ) (l rest : Bytes)
    → All IsText l
    → length l < size
    → client_getline size (l ++ crlf ++ rest) ≡ some (l, rest)
unfolding client_getline
getline-print size l rest h fits = rw (append_assoc l crlf rest) (
    rw (split_line-print l rest h, ◌>>=◌)
      (rw (strip_cr-print l)
        (rw (take-eq_of_le (size - 1) l (omega arith)) (rw (c_string-print l h) refl))))

split_line-open : (rest : Bytes) → All IsText rest → split_line rest ≡ none
unfolding split_line
split_line-open [] h = refl
split_line-open (c ∷ s) (h, hs) = ground (arith, split_line-open s hs)

getline-open : (size : ℕ) (rest : Bytes) → All IsText rest → client_getline size rest ≡ none
unfolding client_getline
getline-open size rest h = rw (split_line-open rest h, ◌>>=◌) refl

-- lines, each with its CRLF
abbrev pub print_lines : List Bytes → Bytes → Bytes
print_lines [] rest = rest
print_lines (l ∷ ls) rest = l ++ crlf ++ print_lines ls rest

-- Lines sent with a CRLF each, of text shorter than the line buffer, are read back in their order, and an unfinished line
-- behind them stays in the read buffer.
pub get_lines-print :
    (n size : ℕ) (ls : List Bytes) (rest : Bytes)
    → All (λ l. All IsText l × (length l < size)) ls
    → All IsText rest
    → length (print_lines ls rest) < n
    → get_lines n size (print_lines ls rest) ≡ (ls, rest)
get_lines-print zero size ls rest h r fuel = absurd (omega arith)
get_lines-print (suc n) size [] rest h r fuel =
    get_lines-none size n rest (getline-open size rest r)
get_lines-print (suc n) size (l ∷ ls) rest ((h, fits), hs) r fuel =
    rw (get_lines-some size n _ (getline-print size l (print_lines ls rest) h fits)) (
      ap (λ (t : List Bytes × Bytes). (l ∷ t.0, t.1))
        (get_lines-print n size ls rest hs r
          (omega (arith, length-append (l ++ crlf) (print_lines ls rest), length-append l crlf))))
