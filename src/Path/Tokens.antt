-- ===== src/Path/Tokens.antt =====
-- The tokens between the slashes of a path: the loop of `split_components` in src/resolve.c.
use openps3ftp.Base.{
  ◌≡◌, ◌≢◌, refl, ap, List, [], ◌∷◌, ◌++◌, arith, ◌==◌, if◌then◌else◌, Bytes, All, ==_iff,
  Bool-cases, inl, inr, append-nil,
}

-- An empty token, between two slashes or at an end, is skipped.
abbrev pub push_token : Bytes → List Bytes → List Bytes
push_token [] ts = ts
push_token (c ∷ t) ts = (c ∷ t) ∷ ts

-- the bytes up to the first slash, and the tokens behind it
unfoldable pub scan : Bytes → Bytes × List Bytes
scan [] = ([], [])
scan (c ∷ s) = let (t, ts) = scan s in if c == b'/' then ([], push_token t ts) else (c ∷ t, ts)

unfoldable pub tokens : Bytes → List Bytes
unfolding scan
tokens path = let (t, ts) = scan path in push_token t ts

-- A token is not empty and holds no slash.
abbrev pub NoSlash : Bytes → Type 0
NoSlash = All (λ c. c ≢ b'/')

abbrev pub IsToken : Bytes → Type 0
IsToken t = (t ≢ []) × NoSlash t

push_token-IsToken :
    (t : Bytes) (ts : List Bytes) → NoSlash t → All IsToken ts → All IsToken (push_token t ts)
push_token-IsToken [] ts h k = k
push_token-IsToken (c ∷ t) ts h k = (((λ e. cc), h), k)

scan-IsToken : (s : Bytes) → NoSlash (scan s).0 × All IsToken (scan s).1
unfolding scan
scan-IsToken [] = (tt, tt)
scan-IsToken (c ∷ s) = elim (Bool-cases (c == b'/')) [
  | inl slash ↦
      rw slash (tt, push_token-IsToken (scan s).0 (scan s).1 (scan-IsToken s).0 (scan-IsToken s).1)
  | inr other ↦ rw other (((λ e. ground arith), (scan-IsToken s).0), (scan-IsToken s).1)
]

-- Whatever the path, its tokens are tokens.
pub tokens-IsToken : (s : Bytes) → All IsToken (tokens s)
unfolding tokens
tokens-IsToken s = push_token-IsToken (scan s).0 (scan s).1 (scan-IsToken s).0 (scan-IsToken s).1

pub scan-slash : (s : Bytes) → scan (b'/' ∷ s) ≡ ([], tokens s)
unfolding scan tokens
scan-slash s = refl

-- A text with no slash goes to the front of the first token.
pub scan-append : (t s : Bytes) → NoSlash t → scan (t ++ s) ≡ (t ++ (scan s).0, (scan s).1)
unfolding scan
scan-append [] s h = refl
scan-append (c ∷ t) s h = elim (Bool-cases (c == b'/')) [
  | inl slash ↦ absurd (h.0 ((==_iff c b'/').0 slash))
  | inr other ↦ rw (other, scan-append t s h.1) refl
]

-- "/a/b/c", the components each behind a slash
abbrev pub join : List Bytes → Bytes
join [] = []
join (c ∷ cs) = b'/' ∷ (c ++ join cs)

push_token-nonempty : (t : Bytes) (ts : List Bytes) → t ≢ [] → push_token t ts ≡ t ∷ ts
push_token-nonempty [] ts h = absurd (h refl)
push_token-nonempty (c ∷ t) ts h = refl

scan-join : (cs : List Bytes) → All IsToken cs → scan (join cs) ≡ ([], cs)
unfolding scan
scan-join [] h = refl
scan-join (c ∷ cs) h =
    rw (scan-append c (join cs) h.0.1, scan-join cs h.1, append-nil c)
      (ap (λ ts. ([], ts)) (push_token-nonempty c cs h.0.0))

-- Splitting undoes joining.
pub tokens-join : (cs : List Bytes) → All IsToken cs → tokens (join cs) ≡ cs
unfolding tokens
tokens-join cs h = rw (scan-join cs h)

-- Tokens of the text in front of a slash, and of the text behind it.
pub tokens_slash : (s : Bytes) → tokens (b'/' ∷ s) ≡ tokens s
unfolding tokens scan
tokens_slash s = refl
