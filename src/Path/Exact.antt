-- ===== src/Path/Exact.antt =====
-- opftp_path_resolve (src/resolve.c) against the walk, success included.
use openps3ftp.Base.{
  ℕ, ◌+◌, ◌*◌, ◌≤◌, ◌<◌, ◌≡◌, ◌≢◌, refl, sym, subst, ap, ◌∙◌, Bool, true, false, Option, none, some,
  List, [], ◌∷◌, ◌++◌, arith, ltb, leb, ◌==◌, if◌then◌else◌, Bytes, codes, All, length, first_byte,
  ◌>>=◌, take-eq_of_le, str_eq_iff, str_eq, get_last_or, length-append, append_assoc, append-nil,
}
use native.Mathlib.Nat.{le_trans}
use mathlib.Core.List.{reverse}
use openps3ftp.Path.Tokens.{IsToken, tokens, tokens-IsToken, join, scan, push_token}
use openps3ftp.Path.Join.{IsRoot, top, nested, place, EndsOpen, append-EndsOpen, token-EndsOpen}
use openps3ftp.Path.Resolve.{All-IsToken}
use openps3ftp.Path.Walk.{IsClean, resolve_components-IsClean, walk, resolve_components-walk}
use openps3ftp.Path.{
  max_path, split_components, base_stack, resolve_components, root_prefix, rebuild, path_resolve,
  ends_with_slash, copy_out, append_component, add_separator,
}

length-push_token :
    (t : Bytes) (ts : List Bytes) → length (push_token t ts) * 2 ≤ length ts * 2 + length t + 1
length-push_token [] ts = omega arith
length-push_token (c ∷ t) ts = omega arith

length-scan : (s : Bytes) → length (scan s).1 * 2 + length (scan s).0 ≤ length s
unfolding scan
length-scan [] = omega arith
length-scan (c ∷ s) = ground (arith, length-scan s, length-push_token (scan s).0 (scan s).1)

-- A path of at most 1023 bytes has at most 512 components, so nothing is cut off.
pub length-tokens-le : (s : Bytes) → length (tokens s) * 2 ≤ length s + 1
unfolding tokens
length-tokens-le s = omega (arith, length-scan s, length-push_token (scan s).0 (scan s).1)

pub split_components-tokens :
    (s : Bytes) → length s < 1024 → split_components s max_path 512 ≡ tokens s
unfolding split_components
split_components-tokens s h =
    let fits : ltb max_path (length s + 1) ≡ false = ground arith in
    rw fits (take-eq_of_le 512 (tokens s) (omega (arith, length-tokens-le s)))

-- The rebuild succeeds when the result fits its buffer.
add_separator-room :
    (r : Bytes)
    → r ≢ []
    → get_last_or 0 r ≢ b'/'
    → length r + 2 ≤ 2048
    → add_separator r ≡ some (r ++ b'/' ∷ [])
unfolding add_separator
add_separator-room [] h k l = absurd (h refl)
add_separator-room (c ∷ r) h k l =
    let not_top : c ∷ r ≢ b'/' ∷ [] = λ p. k (ap (get_last_or 0) p) in
    ground (arith, str_eq_iff (c ∷ r) (codes "/"), not_top, k)

append_component-room :
    (r c : Bytes)
    → r ≢ []
    → get_last_or 0 r ≢ b'/'
    → c ≢ []
    → length r + length c + 2 ≤ 2048
    → append_component r c ≡ some (r ++ b'/' ∷ c)
unfolding append_component
append_component-room r [] h k n l = absurd (n refl)
append_component-room r (x ∷ c) h k n l =
    rw (add_separator-room r h k (omega arith))
      (ground (arith, length-append r (b'/' ∷ []), append_assoc r (b'/' ∷ []) (x ∷ c)))

rebuild-room :
    (r : Bytes) (cs : List Bytes)
    → EndsOpen r
    → All IsToken cs
    → length (r ++ join cs) < 2048
    → rebuild r cs ≡ some (r ++ join cs)
unfolding rebuild
rebuild-room r [] h k l = ap some (sym (append-nil r))
rebuild-room r (c ∷ cs) h k l =
    let assoc : (r ++ b'/' ∷ c) ++ join cs ≡ r ++ join (c ∷ cs) =
      append_assoc r (b'/' ∷ c) (join cs) in
    rw
      (append_component-room r c h.0 h.1 k.0.0
        (omega (arith, length-append r (join (c ∷ cs)), length-append c (join cs))))
      (rebuild-room (r ++ b'/' ∷ c) cs (append-EndsOpen r c k.0) k.1 (rw assoc l) ∙ ap some assoc)

append_component-first :
    (c : Bytes) → length c + 1 < 2048 → append_component (codes "/") c ≡ some (b'/' ∷ c)
unfolding append_component add_separator str_eq
append_component-first c h = ground arith

-- The path of the components, once it fits.
rebuild-place_room :
    {root : Bytes} (h : IsRoot root) (cs : List Bytes)
    → All IsToken cs
    → length (place h cs) < 2048
    → (root_prefix root >>= λ prefix. rebuild prefix cs) ≡ some (place h cs)
unfolding root_prefix rebuild
rebuild-place_room top [] k l = refl
rebuild-place_room top (c ∷ cs) k l =
    rw (append_component-first c (omega (arith, length-append c (join cs))))
      (rebuild-room (b'/' ∷ c) cs (token-EndsOpen c k.0) k.1 l)
rebuild-place_room (nested c r h) cs k l =
    let short : ltb 2048 (length (b'/' ∷ c ∷ r) + 1) ≡ false =
      ground (arith, length-append r (join cs)) in
    let long : ltb 1 (length (b'/' ∷ c ∷ r)) ≡ true = ground arith in
    rw (long, short) (rebuild-room (b'/' ∷ c ∷ r) cs ((λ q. cc), h) k l)

bind_assoc :
    (m : Option Bytes) (f : Bytes → Option Bytes) (g : Bytes → Option (Bytes × Bool)) (b : Bytes)
    → (m >>= f) ≡ some b
    → (m >>= λ x. f x >>= g) ≡ g b
bind_assoc none f g b e = cc
bind_assoc (some x) f g b e = rw e

short_base :
    (abs : Bool) (cwd : Bytes)
    → length cwd < 1024
    → leb max_path (length (if abs then codes "/" else cwd)) ≡ false
short_base true cwd h = refl
short_base false cwd h = ground arith

copy_out-room :
    (n : ℕ) (slash : Bool) (r : Bytes) → length r < n → copy_out n slash r ≡ some (r, slash)
copy_out-room n slash r h = ground arith

-- With a stack to start from, the resolution is the walk.
pub path_resolve-from :
    {root : Bytes} (h : IsRoot root) (cwd arg : Bytes) (n : ℕ) (start : List Bytes)
    → base_stack root (if first_byte arg == b'/' then codes "/" else cwd) ≡ reverse start
    → All IsClean (reverse start)
    → length cwd < 1024
    → length arg < 1024
    → length start + length (tokens arg) ≤ 512
    → length (place h (reverse (walk start (tokens arg)))) < n
    → n ≤ 2048
    → path_resolve root cwd arg n
      ≡ some (place h (reverse (walk start (tokens arg))), ends_with_slash arg)
unfolding path_resolve
path_resolve-from {root} h cwd arg n start b clean lc la room fits ln =
    let cs = reverse (walk start (tokens arg)) in
    let cs_is : resolve_components (reverse start) (tokens arg) ≡ cs =
      resolve_components-walk start (tokens arg) room in
    let cs_clean : All IsClean cs =
      subst (All IsClean) cs_is
        (resolve_components-IsClean (reverse start) (tokens arg) clean (tokens-IsToken arg)) in
    let short = short_base (first_byte arg == b'/') cwd lc in
    rw (short, b, split_components-tokens arg la, cs_is)
      (bind_assoc (root_prefix root) (λ prefix. rebuild prefix cs)
          (copy_out n (ends_with_slash arg)) (place h cs)
          (rebuild-place_room h cs (All-IsToken cs cs_clean) (le_trans fits ln))
        ∙ copy_out-room n (ends_with_slash arg) (place h cs) fits)
