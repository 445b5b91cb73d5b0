-- ===== src/Path/Roots.antt =====
-- opftp_path_resolve (src/resolve.c) under the default root "/", and under a root of its own.
use openps3ftp.Base.{
  ℕ, zero, suc, ◌+◌, ◌≤◌, ◌<◌, ◌≡◌, ◌≢◌, refl, sym, ap, ◌∙◌, Bool, true, false, some, List, [], ◌∷◌,
  ◌++◌, arith, ltb, leb, ◌==◌, ◌&&◌, if◌then◌else◌, Bytes, codes, All, Bool-cases, inl, inr, length,
  drop, length-drop, All-drop, first_byte, take-eq_of_le, str_eq, get_last_or,
}
use mathlib.Core.List.{reverse, reverse-reverse}
use openps3ftp.Path.Tokens.{IsToken, tokens, tokens-join, join, scan}
use openps3ftp.Path.Join.{top, nested, place}
use openps3ftp.Path.Resolve.{All-IsToken}
use openps3ftp.Path.Walk.{IsClean, walk, length-reverse}
use openps3ftp.Path.Exact.{split_components-tokens, path_resolve-from}
use openps3ftp.Path.{max_path, split_components, base_stack, path_resolve, ends_with_slash}

-- Where a path leads: an absolute one starts at the root, a relative one in the current directory.
abbrev pub start_at : Bytes → Bytes → List Bytes
start_at cwd arg = if first_byte arg == b'/' then [] else reverse (tokens cwd)

abbrev pub destination : Bytes → Bytes → List Bytes
destination cwd arg = reverse (walk (start_at cwd arg) (tokens arg))

base_stack_top : (base : Bytes) → length base < 1024 → base_stack (codes "/") base ≡ tokens base
unfolding base_stack
base_stack_top base h = rw (split_components-tokens base h) (
    same_branches
      (first_byte base == b'/'
        && leb (length (split_components (codes "/") max_path 64)) (length (tokens base)))
      (tokens base))
  where
    same_branches : (b : Bool) (x : List Bytes) → (if b then x else x) ≡ x
    same_branches true x = refl
    same_branches false x = refl

start_top :
    (cwd arg : Bytes)
    → length cwd < 1024
    → base_stack (codes "/") (if first_byte arg == b'/' then codes "/" else cwd)
      ≡ reverse (start_at cwd arg)
start_top cwd arg h = elim (Bool-cases (first_byte arg == b'/')) [
  | inl abs ↦ rw abs (base_stack_top (codes "/") (omega arith) ∙ unfold tokens scan in refl)
  | inr rel ↦ rw rel (base_stack_top cwd h ∙ sym (reverse-reverse (tokens cwd)))
]

start_IsClean :
    (cwd arg : Bytes) → All IsClean (tokens cwd) → All IsClean (reverse (start_at cwd arg))
start_IsClean cwd arg h = elim (Bool-cases (first_byte arg == b'/')) [
  | inl abs ↦ rw abs tt
  | inr rel ↦ rw (rel, reverse-reverse (tokens cwd)) h
]

-- Under the root "/" a path is resolved exactly as the walk goes: when the current directory is canonical,
-- both texts are shorter than 1024 bytes, the components are at most 512 together, and the
-- destination fits the buffer, the call succeeds with the destination's path.
pub path_resolve-destination :
    (cwd arg : Bytes) (n : ℕ)
    → All IsClean (tokens cwd)
    → length cwd < 1024
    → length arg < 1024
    → length (start_at cwd arg) + length (tokens arg) ≤ 512
    → length (place top (destination cwd arg)) < n
    → n ≤ 1024
    → path_resolve (codes "/") cwd arg n
      ≡ some (place top (destination cwd arg), ends_with_slash arg)
path_resolve-destination cwd arg n clean lc la room fits ln =
    path_resolve-from top cwd arg n (start_at cwd arg) (start_top cwd arg lc)
      (start_IsClean cwd arg clean) lc la room fits (omega arith)

base_stack_nested :
    (root : Bytes) (ds : List Bytes)
    → length root < 1024
    → length (tokens root) ≤ 64
    → length (join ds) < 1024
    → All IsToken ds
    → ds ≢ []
    → length (tokens root) ≤ length ds
    → base_stack root (join ds) ≡ drop (length (tokens root)) ds
unfolding base_stack
base_stack_nested root [] lr k ld t ne le = absurd (ne refl)
base_stack_nested root (d ∷ ds) lr k ld t ne le =
    let fits : ltb 1024 (length root + 1) ≡ false = ground arith in
    let root_is : split_components root max_path 64 ≡ tokens root =
      unfold split_components in rw fits (take-eq_of_le 64 (tokens root) k) in
    rw (split_components-tokens (join (d ∷ ds)) ld, root_is, tokens-join (d ∷ ds) t) (ground arith)

drop_shorter : (k : ℕ) (ds : List Bytes) → 0 < k → ds ≢ [] → length (drop k ds) < length ds
drop_shorter zero ds h ne = absurd (omega arith)
drop_shorter (suc k) [] h ne = absurd (ne refl)
drop_shorter (suc k) (d ∷ ds) h ne = omega (arith, length-drop k ds)

join-injective :
    (xs ys : List Bytes) → join xs ≡ join ys → All IsToken xs → All IsToken ys → xs ≡ ys
join-injective xs ys e h k = sym (tokens-join xs h) ∙ ap tokens e ∙ tokens-join ys k

append-cancel : (r x y : Bytes) → r ++ x ≡ r ++ y → x ≡ y
append-cancel [] x y e = e
append-cancel (c ∷ r) x y e = append-cancel r x y (ground arith)

walk_dot : (here : List Bytes) → walk here (tokens (codes ".")) ≡ here
unfolding tokens scan str_eq
walk_dot here = refl

length_dot : length (tokens (codes ".")) ≡ 1
unfolding tokens scan
length_dot = refl

ends_apart :
    (xs ys : List Bytes)
    → All IsClean ys
    → All IsClean xs
    → length xs < length ys
    → join xs ≡ join ys
    → ⊥
ends_apart xs ys h k l e =
    absurd (omega (arith, ap length (join-injective xs ys e (All-IsToken xs k) (All-IsToken ys h))))

-- Under a root other than "/" of at most 64 components, when the current directory is kept as the client sees it,
-- below the root, is canonical, has at least as many components as the root and fewer than 512, and both paths and the
-- result fit their buffers, "." is not resolved to the current directory: the path returned lacks as many of its first
-- components as the root has, and is not the path of the current directory.
pub path_resolve_dot :
    (c : ℕ) (r : Bytes) (last : get_last_or c r ≢ b'/') (ds : List Bytes) (n : ℕ)
    → let root = b'/' ∷ c ∷ r in
      length root < 1024
      → 0 < length (tokens root)
      → length (tokens root) ≤ 64
      → length (tokens root) ≤ length ds
      → length ds < 512
      → All IsClean ds
      → length (join ds) < 1024
      → length (place (nested c r last) (drop (length (tokens root)) ds)) < n
      → n ≤ 1024
      → (path_resolve root (join ds) (codes ".") n
          ≡ some (place (nested c r last) (drop (length (tokens root)) ds), false))
        × (place (nested c r last) (drop (length (tokens root)) ds) ≢ place (nested c r last) ds)
path_resolve_dot c r last ds n lr pos k le room clean ld fits ln =
    let root : Bytes = b'/' ∷ c ∷ r in
    let m = length (tokens root) in
    let ne : ds ≢ [] = λ e. absurd (omega (arith, ap length e)) in
    let dropped = drop m ds in
    let base = base_stack_nested root ds lr k ld (All-IsToken ds clean) ne le in
    let back = reverse-reverse dropped in
    let shorter = drop_shorter m ds pos ne in
    let there : reverse (walk (reverse dropped) (tokens (codes "."))) ≡ dropped =
      rw (walk_dot (reverse dropped)) back in
    let resolved =
      path_resolve-from (nested c r last) (join ds) (codes ".") n (reverse dropped)
        (base ∙ sym back) (rw back (All-drop IsClean m ds clean)) ld (omega arith)
        (omega (arith, length-reverse dropped, length_dot, shorter)) (rw there fits)
        (omega arith) in
    (
      rw there at resolved,
      λ e.
          ends_apart dropped ds clean (All-drop IsClean m ds clean) shorter
            (append-cancel root (join dropped) (join ds) e),
    )
