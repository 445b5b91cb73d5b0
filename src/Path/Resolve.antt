-- ===== src/Path/Resolve.antt =====
-- opftp_path_resolve (src/resolve.c) as a whole.
use openps3ftp.Base.{
  ℕ, ◌+◌, ◌<◌, ◌≡◌, sym, subst, ◌∙◌, Bool, some, List, [], ◌∷◌, arith, ltb, leb, ◌==◌, ◌&&◌,
  if◌then◌else◌, Bytes, codes, All, All-take, All-drop, Bool-cases, inl, inr, length, first_byte,
  >>=-eq-some, ◌>>=◌,
}
use openps3ftp.Path.Tokens.{IsToken, tokens, tokens-IsToken}
use openps3ftp.Path.Join.{IsRoot, place, rebuild-place}
use openps3ftp.Path.Walk.{IsClean, resolve_components-IsClean}
use openps3ftp.Path.{
  max_path, split_components, base_stack, resolve_components, root_prefix, rebuild, path_resolve,
  ends_with_slash, copy_out,
}

split_components-IsToken :
    (path : Bytes) (bufsz cap : ℕ) → All IsToken (split_components path bufsz cap)
unfolding split_components
split_components-IsToken path bufsz cap = elim (Bool-cases (ltb bufsz (length path + 1))) [
  | inl long ↦ rw long tt
  | inr fits ↦ rw fits (All-take IsToken cap (tokens path) (tokens-IsToken path))
]

split_components-IsClean :
    (path : Bytes) (bufsz cap : ℕ)
    → All IsClean (tokens path)
    → All IsClean (split_components path bufsz cap)
unfolding split_components
split_components-IsClean path bufsz cap h = elim (Bool-cases (ltb bufsz (length path + 1))) [
  | inl long ↦ rw long tt
  | inr fits ↦ rw fits (All-take IsClean cap (tokens path) h)
]

base_stack-IsClean :
    (root base : Bytes) → All IsClean (tokens base) → All IsClean (base_stack root base)
unfolding base_stack
base_stack-IsClean root base h =
    let stack = split_components base max_path 512 in
    let rcomp = split_components root max_path 64 in
    let clean = split_components-IsClean base max_path 512 h in
    elim (Bool-cases (first_byte base == b'/' && leb (length rcomp) (length stack))) [
      | inl cut ↦ rw cut (All-drop IsClean (length rcomp) stack clean)
      | inr whole ↦ rw whole clean
    ]

-- What a resolution returns: a path made of clean components below the root, that fits the buffer.
pub record IsResolved {root : Bytes} (h : IsRoot root) (n : ℕ) (out : Bytes) : Type 0 where
  pub components : List Bytes
  pub clean : All IsClean components
  pub placed : out ≡ place h components
  pub fits : length out < n

IsClean-base :
    (cwd arg : Bytes)
    → All IsClean (tokens cwd)
    → All IsClean (tokens (if first_byte arg == b'/' then codes "/" else cwd))
unfolding tokens
IsClean-base cwd arg h = elim (Bool-cases (first_byte arg == b'/')) [
  | inl abs ↦ rw abs tt
  | inr rel ↦ rw rel h
]

pub All-IsToken : (cs : List Bytes) → All IsClean cs → All IsToken cs
All-IsToken [] h = tt
All-IsToken (c ∷ cs) h = (h.0.0, All-IsToken cs h.1)

resolved :
    {root : Bytes} (h : IsRoot root) (base arg : Bytes) (n : ℕ) (slash : Bool) {out : Bytes}
    {t : Bool}
    → All IsClean (tokens base)
    → (root_prefix root >>= λ prefix.
        rebuild prefix
          (resolve_components (base_stack root base) (split_components arg max_path 512))
        >>= λ result. copy_out n slash result)
      ≡ some (out, t)
    → IsResolved h n out × (t ≡ slash)
resolved {root} h base arg n slash {out} {t} clean e =
    let cs = resolve_components (base_stack root base) (split_components arg max_path 512) in
    let (prefix, p, q) = >>=-eq-some (root_prefix root) _ e in
    let (result, r, u) = >>=-eq-some (rebuild prefix cs) _ q in
    let same : (result ≡ out) × (slash ≡ t) × (length result < n) = ground arith in
    let cs_clean =
      resolve_components-IsClean (base_stack root base) (split_components arg max_path 512)
        (base_stack-IsClean root base clean) (split_components-IsToken arg max_path 512) in
    (
      record {
        components = cs;
        clean = cs_clean;
        placed = sym same.0 ∙ rebuild-place h prefix cs result p (All-IsToken cs cs_clean) r;
        fits = subst (λ x. length x < n) same.0 same.2;
      },
      sym same.1,
    )

-- Whatever the argument, a path that `path_resolve` returns for a canonical current directory lies below
-- the root, has no ".", ".." or empty component behind it, and fits the caller's buffer; the flag
-- says whether the argument ends in a slash.
pub path_resolve-IsResolved :
    {root : Bytes} (h : IsRoot root) (cwd arg : Bytes) (n : ℕ) {out : Bytes} {t : Bool}
    → All IsClean (tokens cwd)
    → path_resolve root cwd arg n ≡ some (out, t)
    → IsResolved h n out × (t ≡ ends_with_slash arg)
unfolding path_resolve
path_resolve-IsResolved {root} h cwd arg n clean e =
    let base = if first_byte arg == b'/' then codes "/" else cwd in
    elim (Bool-cases (leb max_path (length base))) [
      | inl long ↦ absurd (ground (arith, long))
      | inr short ↦
          resolved h base arg n (ends_with_slash arg) (IsClean-base cwd arg clean) (rw short at e)
    ]
