-- ===== src/Path/Join.antt =====
-- What the rebuild of `opftp_path_resolve` (src/resolve.c) writes.
use openps3ftp.Base.{
  ℕ, ◌≡◌, ◌≢◌, refl, sym, subst, ap, ◌∙◌, some, List, [], ◌∷◌, ◌++◌, arith, Bytes, codes, All,
  append-nil, append_assoc, str_eq_iff, str_eq, get_last_or, >>=-eq-some,
}
use openps3ftp.Path.Tokens.{IsToken, NoSlash, join}
use openps3ftp.Path.{add_separator, append_component, rebuild, root_prefix}

-- A root as the server is configured with: "/", or an absolute path that does not end in a slash.
pub data IsRoot : Bytes → Type 0 where
  top : IsRoot (b'/' ∷ [])
  nested : (c : ℕ) (r : Bytes) → get_last_or c r ≢ b'/' → IsRoot (b'/' ∷ c ∷ r)

-- The path of the directory or file with these components below the root.
abbrev pub place_nested : Bytes → List Bytes → Bytes
place_nested root cs = root ++ join cs

abbrev pub place : {root : Bytes} → IsRoot root → List Bytes → Bytes
place top [] = b'/' ∷ []
place top (c ∷ cs) = join (c ∷ cs)
place (nested c r h) cs = place_nested (b'/' ∷ c ∷ r) cs

-- A text that ends in something other than a slash.
abbrev pub EndsOpen : Bytes → Type 0
EndsOpen r = (r ≢ []) × (get_last_or 0 r ≢ b'/')

get_last_or-append : (d e : ℕ) (r t : Bytes) → t ≢ [] → get_last_or d (r ++ t) ≡ get_last_or e t
get_last_or-append d e [] [] h = absurd (h refl)
get_last_or-append d e [] (x ∷ t) h = refl
get_last_or-append d e (x ∷ r) t h = get_last_or-append x e r t h

NoSlash-last : (d : ℕ) (t : Bytes) → d ≢ b'/' → NoSlash t → get_last_or d t ≢ b'/'
NoSlash-last d [] h k = h
NoSlash-last d (x ∷ t) h k = NoSlash-last x t k.0 k.1

add_separator-open : (r s : Bytes) → EndsOpen r → add_separator r ≡ some s → s ≡ r ++ b'/' ∷ []
unfolding add_separator
add_separator-open [] s h e = absurd (h.0 refl)
add_separator-open (c ∷ r) s h e =
    let not_top : c ∷ r ≢ b'/' ∷ [] = λ p. h.1 (ap (get_last_or 0) p) in
    ground (arith, str_eq_iff (c ∷ r) (codes "/"), not_top, h.1)

append_component-open :
    (r c s : Bytes) → EndsOpen r → append_component r c ≡ some s → s ≡ r ++ b'/' ∷ c
unfolding append_component
append_component-open r c s h e =
    let (t, p, q) = >>=-eq-some (add_separator r) _ e in
    let t_is = add_separator-open r t h p in
    let s_is : s ≡ t ++ c = ground arith in
    s_is ∙ ap (λ u. u ++ c) t_is ∙ append_assoc r (b'/' ∷ []) c

-- Appending a component leaves an open end again.
pub append-EndsOpen : (r c : Bytes) → IsToken c → EndsOpen (r ++ b'/' ∷ c)
append-EndsOpen r [] h = absurd (h.0 refl)
append-EndsOpen r (x ∷ c) h = (
  (λ e. append-ne-nil r _ e),
  (λ e. NoSlash-last x c h.1.0 h.1.1 (sym (get_last_or-append 0 0 r (b'/' ∷ x ∷ c) (λ p. cc)) ∙ e)),
)
  where
    append-ne-nil : (r : Bytes) (t : Bytes) → r ++ b'/' ∷ t ≡ [] → ⊥
    append-ne-nil [] t e = cc
    append-ne-nil (y ∷ r) t e = cc

rebuild-open :
    (r : Bytes) (cs : List Bytes) (out : Bytes)
    → EndsOpen r
    → All IsToken cs
    → rebuild r cs ≡ some out
    → out ≡ r ++ join cs
unfolding rebuild
rebuild-open r [] out h k e = ground (arith, append-nil r)
rebuild-open r (c ∷ cs) out h k e =
    let (s, p, q) = >>=-eq-some (append_component r c) _ e in
    let s_is = append_component-open r c s h p in
    let open_s : EndsOpen s = subst EndsOpen (sym s_is) (append-EndsOpen r c k.0) in
    rebuild-open s cs out open_s k.1 q
    ∙ ap (λ u. u ++ join cs) s_is
    ∙ append_assoc r (b'/' ∷ c) (join cs)

append_component-top : (c s : Bytes) → append_component (codes "/") c ≡ some s → s ≡ b'/' ∷ c
unfolding append_component add_separator str_eq
append_component-top c s e = ground arith

pub token-EndsOpen : (c : Bytes) → IsToken c → EndsOpen (b'/' ∷ c)
token-EndsOpen c h = append-EndsOpen [] c h

-- The rebuild puts the components below the root.
pub rebuild-place :
    {root : Bytes} (h : IsRoot root) (prefix : Bytes) (cs : List Bytes) (out : Bytes)
    → root_prefix root ≡ some prefix
    → All IsToken cs
    → rebuild prefix cs ≡ some out
    → out ≡ place h cs
unfolding root_prefix rebuild
rebuild-place top prefix [] out p k e = ground arith
rebuild-place top prefix (c ∷ cs) out p k e =
    let prefix_is : prefix ≡ codes "/" = ground arith in
    let (s, q, q') = >>=-eq-some (append_component prefix c) _ e in
    let s_is = append_component-top c s (subst (λ x. append_component x c ≡ some s) prefix_is q) in
    rebuild-open s cs out (subst EndsOpen (sym s_is) (token-EndsOpen c k.0)) k.1 q'
    ∙ ap (λ u. u ++ join cs) s_is
rebuild-place (nested c r h) prefix cs out p k e =
    let prefix_is : b'/' ∷ c ∷ r ≡ prefix = ground arith in
    rebuild-open (b'/' ∷ c ∷ r) cs out ((λ q. cc), h) k (rw prefix_is e)
