-- ===== src/Commands/Cwd.antt =====
-- CWD and CDUP of src/commands.c: the current directory stays a canonical path.
use openps3ftp.Base.{
  ℕ, ◌-◌, ◌<◌, ◌≡◌, sym, ◌∙◌, subst, some, List, [], ◌∷◌, ◌++◌, arith, Bytes, codes, All,
  Bool-cases, Option-cases, inl, inr, if◌then◌else◌, ltb, length, drop, take-eq_of_le, str_eq,
  snprintf, length-append, >>=-eq-some,
}
use openps3ftp.Session.{Result, ok, err, Stat, State, Fs, Os}
use openps3ftp.Path.{max_path, path_resolve}
use openps3ftp.Path.Tokens.{tokens, scan, join, tokens-join}
use openps3ftp.Path.Join.{IsRoot, top, nested, place}
use openps3ftp.Path.Walk.{IsClean}
use openps3ftp.Path.Resolve.{All-IsToken, path_resolve-IsResolved}
use openps3ftp.Rooted.{r_stat}
use openps3ftp.Rooted.Contain.{drop-append}
use openps3ftp.Rooted.Frame.{Frame, guarded-Frame}
use openps3ftp.Listing.{is_dir}
use openps3ftp.Commands.Common.{Param, resolve_arg, no_arg, text_of}
use openps3ftp.Commands.Files.{visible, change_dir, cmd_cwd}

snprintf-fits : (n : ℕ) (s : Bytes) → length s < n → snprintf n s ≡ s
unfolding snprintf
snprintf-fits n s h = take-eq_of_le (n - 1) s (omega arith)

tokens-IsClean : (cs : List Bytes) → All IsClean cs → All IsClean (tokens (join cs))
tokens-IsClean cs h = subst (All IsClean) (sym (tokens-join cs (All-IsToken cs h))) h

slash-IsClean : All IsClean (tokens (codes "/"))
unfolding tokens scan
slash-IsClean = tt

-- what is stored, when it is not the root itself
abbrev below : Bytes → Bytes → Bytes
below root path = if ltb 1 (length root) then drop (length root) path else path

visible-below :
    (root path : Bytes)
    → length (below root path) < max_path
    → All IsClean (tokens (below root path))
    → All IsClean (tokens (visible root path))
unfolding visible
visible-below root path fits clean = elim (Bool-cases (str_eq path root)) [
  | inl same ↦ rw same slash-IsClean
  | inr other ↦ rw (other, snprintf-fits max_path (below root path) fits) clean
]

below-place :
    (c : ℕ) (r : Bytes) (cs : List Bytes)
    → below (b'/' ∷ c ∷ r) (b'/' ∷ c ∷ (r ++ join cs)) ≡ join cs
below-place c r cs = ground (arith, drop-append r (join cs))

visible-IsClean :
    {root : Bytes} (h : IsRoot root) (cs : List Bytes)
    → All IsClean cs
    → length (place h cs) < max_path
    → All IsClean (tokens (visible root (place h cs)))
visible-IsClean top [] clean fits = visible-below (codes "/") (codes "/") fits slash-IsClean
visible-IsClean top (c ∷ cs) clean fits =
    visible-below (codes "/") (join (c ∷ cs)) fits (tokens-IsClean (c ∷ cs) clean)
visible-IsClean (nested c r last) cs clean fits =
    let e = below-place c r cs in
    visible-below (b'/' ∷ c ∷ r) (b'/' ∷ c ∷ (r ++ join cs))
      (rw e (omega (arith, length-append r (join cs)))) (rw e (tokens-IsClean cs clean))

module _ {W : Type 0} where
  -- the current directory is canonical
  abbrev pub IsCanonical : State W → Type 0
  IsCanonical s = All IsClean (tokens s.client.cwd)

module _ {W : Type 0} (fs : Fs W) (os : Os W) where
  change_dir-IsCanonical :
      (path : Bytes) (r : Result Stat × State W)
      → IsCanonical r.1
      → All IsClean (tokens (visible r.1.server.root path))
      → IsCanonical (change_dir fs os path r)
  unfolding change_dir
  change_dir-IsCanonical path (ok st, s) old new = elim (Bool-cases (is_dir st.mode)) [
    | inl directory ↦ rw (directory, change_dir) new
    | inr other ↦ rw (other, change_dir) old
  ]
  change_dir-IsCanonical path (err e, s) old new = old

  pub stored-IsClean :
      (p : Param) (s : State W) {path : Bytes}
      → IsRoot s.server.root
      → IsCanonical s
      → resolve_arg p s ≡ some path
      → All IsClean (tokens (visible s.server.root path))
  unfolding resolve_arg
  stored-IsClean p s {path} h clean e =
      let arg = if no_arg p then s.client.cwd else text_of p in
      let (out, found, taken) =
        >>=-eq-some (path_resolve s.server.root s.client.cwd arg max_path) _ e in
      let r = (path_resolve-IsResolved h s.client.cwd arg max_path clean found).0 in
      let same : out.0 ≡ path = ground arith in
      let placed : path ≡ place h r.components = sym same ∙ r.placed in
      subst (λ x. All IsClean (tokens (visible s.server.root x))) (sym placed)
        (visible-IsClean h r.components r.clean (subst (λ x. length x < max_path) r.placed r.fits))

  -- CWD leaves a canonical current directory canonical, whatever its argument and whatever the file system
  -- answers: it stays without ".", ".." and empty components, when the server's root is "/" or an absolute
  -- path that does not end in a slash.
  pub cmd_cwd-IsCanonical :
      (p : Param) (s : State W)
      → IsRoot s.server.root
      → IsCanonical s
      → IsCanonical (cmd_cwd fs os p s)
  unfolding cmd_cwd
  cmd_cwd-IsCanonical p s h clean = elim (Option-cases (resolve_arg p s)) [
    | inl n ↦ rw (n, cmd_cwd) clean
    | inr (path, e) ↦
        let same : Frame s (r_stat fs os path s).1 = guarded-Frame os path (fs.stat path) s in
        rw (e, cmd_cwd)
          (change_dir-IsCanonical path (r_stat fs os path s)
            (subst (λ q. All IsClean (tokens q.0.cwd)) (sym same) clean)
            (subst (λ q. All IsClean (tokens (visible q.1.root path))) (sym same)
              (stored-IsClean p s h clean e)))
  ]
