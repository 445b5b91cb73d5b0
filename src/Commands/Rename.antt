-- ===== src/Commands/Rename.antt =====
-- RNFR and RNTO of src/commands.c: the source of a rename is used once.
use openps3ftp.Base.{
  ℕ, ◌≡◌, refl, ◌∙◌, ap, Bool, true, false, Bytes, Bool-cases, Option-cases, inl, inr,
}
use openps3ftp.Session.{Result, ok, err, State, Fs, Os, send_reply}
use openps3ftp.Rooted.{r_rename}
use openps3ftp.Rooted.Frame.{r_rename-Frame}
use openps3ftp.Commands.Common.{Param, r503, resolve_arg, parent_is_dir}
use openps3ftp.Commands.Files.{cmd_rnto, rename_to, finish}

module _ {W : Type 0} (fs : Fs W) (os : Os W) where
  finish_keeps :
      (code : ℕ) (msg : Bytes) (r : Result (Unit {0}) × State W)
      → (finish fs os code msg r).client.have_rnfr ≡ r.1.client.have_rnfr
  finish_keeps code msg (ok u, s) = refl
  finish_keeps code msg (err e, s) = refl

  rename_to_forgets :
      (path : Bytes) (r : Bool × State W) → (rename_to fs os path r).client.have_rnfr ≡ false
  unfolding rename_to
  rename_to_forgets path (true, s) =
      finish_keeps _ _ (r_rename fs os s.client.rnfr path _)
      ∙ ap (λ p. p.0.have_rnfr) (r_rename-Frame fs os s.client.rnfr path _)
  rename_to_forgets path (false, s) = refl

  cmd_rnto_forgets : (p : Param) (s : State W) → (cmd_rnto fs os p s).client.have_rnfr ≡ false
  unfolding cmd_rnto
  cmd_rnto_forgets p s = elim (Bool-cases s.client.have_rnfr) [
    | inr missing ↦ rw missing refl
    | inl there ↦ elim (Option-cases (resolve_arg p s)) [
      | inl n ↦ rw (there, n) refl
      | inr (path, e) ↦ rw (there, e) (rename_to_forgets path (parent_is_dir fs os path s))
    ]
  ]

  -- Whatever RNTO answers, the source that RNFR left is gone: a second RNTO gets 503 and changes nothing else.
  pub cmd_rnto_once :
      (p q : Param) (s : State W)
      → cmd_rnto fs os q (cmd_rnto fs os p s) ≡ send_reply 503 r503 (cmd_rnto fs os p s)
  cmd_rnto_once p q s = without_source q (cmd_rnto fs os p s) (cmd_rnto_forgets p s)
    where
      without_source :
          (q : Param) (t : State W)
          → t.client.have_rnfr ≡ false
          → cmd_rnto fs os q t ≡ send_reply 503 r503 t
      without_source q t h = unfold cmd_rnto in rw h refl
