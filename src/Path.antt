-- ===== src/Path.antt =====
-- src/resolve.c: lexical path resolution. A pointer into a buffer is the bytes from there on, and
-- the stack of components is a list with its bottom first.
pub mod Tokens
pub mod Join
pub mod Walk
pub mod Resolve
pub mod Exact
pub mod Roots
mod Tests
use openps3ftp.Base.{
  ℕ, ◌+◌, ◌*◌, ◌≡◌, refl, Bool, true, false, not, ◌&&◌, ◌||◌, Option, none, some, List, [], ◌∷◌,
  ◌++◌, ltb, leb, ◌==◌, if◌then◌else◌, ◌>>=◌, Bytes, codes, str_eq, first_byte, is_nil, length,
  take, drop, drop_last, get_last_or,
}
use Tokens.{tokens}

-- OPFTP_MAX_PATH
abbrev pub max_path : ℕ
max_path = 1024

unfoldable pub split_components : Bytes → ℕ → ℕ → List Bytes
unfolding tokens
split_components path bufsz stackcap =
    if ltb bufsz (length path + 1) then [] else take stackcap (tokens path)

-- one round of the loop over the argument's components
unfoldable pub resolve_component : List Bytes → Bytes → List Bytes
unfolding str_eq
resolve_component stack c =
    if str_eq c (codes ".")
    then stack
    else if str_eq c (codes "..")
    then drop_last stack
    else if ltb (length stack) 512
    then stack ++ c ∷ []
    else stack

unfoldable pub resolve_components : List Bytes → List Bytes → List Bytes
unfolding resolve_component
resolve_components stack [] = stack
resolve_components stack (c ∷ cs) = resolve_components (resolve_component stack c) cs

-- `result` is a buffer of `2 * max_path` bytes
abbrev result_size : ℕ
result_size = 2 * max_path

-- the separator that goes in front of the next component
unfoldable pub add_separator : Bytes → Option Bytes
unfolding str_eq
add_separator result =
    if str_eq result (codes "/")
    then some result
    else if not (is_nil result) && not (get_last_or 0 result == b'/')
    then (if leb result_size (length result + 1) then none else some (result ++ b'/' ∷ []))
    else some result

unfoldable pub append_component : Bytes → Bytes → Option Bytes
unfolding add_separator
append_component result c = add_separator result >>= λ r.
    if ltb result_size (length r + length c + 1) then none else some (r ++ c)

unfoldable pub rebuild : Bytes → List Bytes → Option Bytes
unfolding append_component
rebuild result [] = some result
rebuild result (c ∷ cs) = append_component result c >>= λ r. rebuild r cs

unfoldable pub root_prefix : Bytes → Option Bytes
root_prefix root =
    if ltb 1 (length root)
    then (if ltb result_size (length root + 1) then none else some root)
    else some (codes "/")

-- the stack that the argument's components are resolved against; the first components of the base
-- are dropped, one for each component of the root
unfoldable pub base_stack : Bytes → Bytes → List Bytes
unfolding split_components
base_stack root base =
    let stack = split_components base max_path 512 in
    let rcomp = split_components root max_path 64 in
    if first_byte base == b'/' && leb (length rcomp) (length stack)
    then drop (length rcomp) stack
    else stack

abbrev pub ends_with_slash : Bytes → Bool
ends_with_slash arg = not (is_nil arg) && get_last_or 0 arg == b'/'

-- the copy to `out`
abbrev pub copy_out : ℕ → Bool → Bytes → Option (Bytes × Bool)
copy_out outsz slash result = if ltb outsz (length result + 1) then none else some (result, slash)

-- `none` is a return of -1; otherwise `*out` and `*trailing_slash`
unfoldable pub path_resolve : Bytes → Bytes → Bytes → ℕ → Option (Bytes × Bool)
unfolding split_components base_stack resolve_components root_prefix rebuild
path_resolve root cwd arg outsz =
    let base = if first_byte arg == b'/' then codes "/" else cwd in
    let stack = resolve_components (base_stack root base) (split_components arg max_path 512) in
    if leb max_path (length base)
    then none
    else (root_prefix root >>= λ prefix.
        rebuild prefix stack >>= λ result. copy_out outsz (ends_with_slash arg) result)

-- `while (len > 1 && path[len - 1] == '/') len--;`: the first byte always stays
strip_tail : Bytes → Bytes
strip_tail [] = []
strip_tail (d ∷ t) = let rest = strip_tail t in if is_nil rest && d == b'/' then [] else d ∷ rest

unfoldable pub strip_slashes : Bytes → Bytes
unfolding strip_tail
strip_slashes [] = []
strip_slashes (c ∷ s) = c ∷ strip_tail s

-- the bytes in front of the last '/', if there is one
unfoldable pub before_last_slash : Bytes → Option Bytes
before_last_slash [] = none
before_last_slash (c ∷ s) = elim (before_last_slash s) [
  | some t ↦ some (c ∷ t)
  | none ↦ if c == b'/' then some [] else none
]

unfoldable pub path_parent : Bytes → ℕ → Option Bytes
unfolding strip_slashes before_last_slash
path_parent path outsz =
    if leb (length path) 1
    then (if ltb outsz 1 then none else some [])
    else elim (before_last_slash (strip_slashes path)) [
      | none ↦ if ltb outsz 1 then none else some []
      | some t ↦
          let parent = if is_nil t then codes "/" else t in
          if ltb outsz (length parent + 1) then none else some parent
    ]
