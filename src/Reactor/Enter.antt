-- ===== src/Reactor/Enter.antt =====
-- src/server.c with the login commands of src/commands.c: how a client becomes logged in.
use openps3ftp.Base.{
  ap, ◌↔◌, str_eq, ◌≡◌, refl, sym, ◌∙◌, subst, Bool, true, false, some, List, [], ◌∷◌, Bytes, codes,
  Bool-cases, inl, inr, if_both, skip_spaces, is_nil, arith,
}
use openps3ftp.Session.{State, Fs, Os, send_reply, send, on_client, line}
use openps3ftp.Commands.Common.{Param, text_of}
use openps3ftp.Commands.Login.{
  authorised, cmd_user, cmd_pass, cmd_quit, cmd_help, cmd_syst, cmd_noop, cmd_opts, cmd_feat,
  send_lines, feat_names, feat_tls_names, feat_lines,
}
use openps3ftp.Commands.Tls.{
  cmd_auth, cmd_pbsz, cmd_prot, client_start_tls, tls_created, auth_started,
}
use openps3ftp.Commands.Run.{run_command}
use openps3ftp.Commands.Registry.{Command, commands_init, pass}
use openps3ftp.Dispatch.{dispatch_find, dispatch_init}
use openps3ftp.Commands.Found.{command_table}
use openps3ftp.Reactor.Gate.{
  IsOpen, open_user, open_pass, open_quit, open_help, open_feat, open_syst, open_noop, open_opts,
  open_auth, open_pbsz, open_prot, is_one_of-All, Opens, Opens-All, process_open, process_empty,
  process_closed,
}
use openps3ftp.Reactor.{process_command, take_name, prelogin_names, prelogin_command, process_line}

find_pass : (allow : Bool) → dispatch_find (codes "PASS") (command_table allow) ≡ some pass
unfolding commands_init dispatch_find dispatch_init str_eq
find_pass true = refl
find_pass false = refl

module _ {W : Type 0} where
  -- the login is as before
  unfoldable pub Same : State W → State W → Type 0
  Same s t = t.client.logged_in ≡ s.client.logged_in

  same : (s t : State W) → t.client.logged_in ≡ s.client.logged_in → Same s t
  unfolding Same
  same s t e = e

  Same-trans : (s t u : State W) → Same s t → Same t u → Same s u
  unfolding Same
  Same-trans s t u h k = k ∙ h

  send_lines-Same : (ls : List Bytes) (s : State W) → Same s (send_lines ls s)
  unfolding send_lines
  send_lines-Same [] s = same s _ refl
  send_lines-Same (l ∷ ls) s =
      Same-trans _ _ _ (same s (send (line l) s) refl) (send_lines-Same ls (send (line l) s))

  tls_created-Same : (os : Os W) (r : Bool × W) (s : State W) → Same s (tls_created os r s).1
  unfolding tls_created
  tls_created-Same os (true, w) s = same s _ refl
  tls_created-Same os (false, w) s = same s _ refl

  auth_started-Same : (os : Os W) (r : Bool × State W) → Same r.1 (auth_started os r)
  auth_started-Same os (true, s) = same s _ refl
  auth_started-Same os (false, s) = same s _ refl

  client_start_tls-Same : (os : Os W) (s : State W) → Same s (client_start_tls os s).1
  unfolding client_start_tls
  client_start_tls-Same os s =
      if_both (λ (r : Bool × State W). Same s r.1) _ (same s s refl)
        (Same-trans _ _ _ (same s (on_client (λ c. record c { rbuf = [] }) s) refl)
          (tls_created-Same os (os.tls_session_create s.client.fd s.client.rbuf s.world) _))

  cmd_user-Same : (param : Param) (s : State W) → Same s (cmd_user param s)
  unfolding Same cmd_user
  cmd_user-Same param s = ground arith

  cmd_opts-Same : (param : Param) (s : State W) → Same s (cmd_opts param s)
  unfolding Same cmd_opts
  cmd_opts-Same param s = ground arith

  cmd_pbsz-Same : (param : Param) (s : State W) → Same s (cmd_pbsz param s)
  unfolding Same cmd_pbsz
  cmd_pbsz-Same param s = ground arith

  cmd_prot-Same : (param : Param) (s : State W) → Same s (cmd_prot param s)
  unfolding Same cmd_prot
  cmd_prot-Same param s = ground arith

  feat_lines-Same : (s : State W) → Same s (feat_lines s)
  unfolding Same feat_lines
  feat_lines-Same s = ground (
    arith,
    send_lines-Same feat_names s,
    send_lines-Same feat_tls_names (send_lines feat_names s),
  )

  cmd_feat-Same : (param : Param) (s : State W) → Same s (cmd_feat param s)
  unfolding Same cmd_feat
  cmd_feat-Same param s = feat_lines-Same s

  cmd_auth-Same : (os : Os W) (param : Param) (s : State W) → Same s (cmd_auth os param s)
  unfolding Same cmd_auth
  cmd_auth-Same os param s =
      ground (arith, auth_started-Same os (client_start_tls os s), client_start_tls-Same os s)

  -- What the password command may have done: the login, by a password that is accepted.
  abbrev pub IsAuthorised : Param → State W → Type 0
  IsAuthorised param s =
      (is_nil s.client.user ≡ false)
      × (authorised s.server.auth s.client.user (text_of param) ≡ true)

  abbrev pub Enters : Bytes → Param → State W → State W → Type 0
  Enters name param s t = t.client.logged_in ≡ true → (name ≡ codes "PASS") × IsAuthorised param s

  stays-out :
      (name : Bytes) (param : Param) (s t : State W)
      → s.client.logged_in ≡ false
      → Same s t
      → Enters name param s t
  unfolding Same
  stays-out name param s t out kept entered = absurd (ground arith)

  cmd_pass-Enters :
      (param : Param) (s : State W)
      → s.client.logged_in ≡ false
      → (cmd_pass param s).client.logged_in ≡ true
      → IsAuthorised param s
  unfolding cmd_pass
  cmd_pass-Enters param s out entered = elim (Bool-cases (is_nil s.client.user)) [
    | inl missing ↦ absurd (ground arith)
    | inr named ↦ elim (Bool-cases (authorised s.server.auth s.client.user (text_of param))) [
      | inl accepted ↦ (named, accepted)
      | inr denied ↦ absurd (ground arith)
    ]
  ]

  run-Enters :
      (fs : Fs W) (os : Os W) {name : Bytes} {f : Command} (o : IsOpen name f) (param : Param)
      (s : State W)
      → s.client.logged_in ≡ false
      → Enters name param s (run_command fs os f param s)
  unfolding run_command cmd_quit cmd_help cmd_syst cmd_noop
  run-Enters fs os open_pass param s out = λ entered. (refl, cmd_pass-Enters param s out entered)
  run-Enters fs os open_user param s out =
      stays-out _ param s (cmd_user param s) out (cmd_user-Same param s)
  run-Enters fs os open_quit param s out =
      stays-out _ param s (cmd_quit param s) out (same s _ refl)
  run-Enters fs os open_help param s out =
      stays-out _ param s (cmd_help param s) out (same s _ refl)
  run-Enters fs os open_feat param s out =
      stays-out _ param s (cmd_feat param s) out (cmd_feat-Same param s)
  run-Enters fs os open_syst param s out =
      stays-out _ param s (cmd_syst param s) out (same s _ refl)
  run-Enters fs os open_noop param s out =
      stays-out _ param s (cmd_noop param s) out (same s _ refl)
  run-Enters fs os open_opts param s out =
      stays-out _ param s (cmd_opts param s) out (cmd_opts-Same param s)
  run-Enters fs os open_auth param s out =
      stays-out _ param s (cmd_auth os param s) out (cmd_auth-Same os param s)
  run-Enters fs os open_pbsz param s out =
      stays-out _ param s (cmd_pbsz param s) out (cmd_pbsz-Same param s)
  run-Enters fs os open_prot param s out =
      stays-out _ param s (cmd_prot param s) out (cmd_prot-Same param s)

  process_line-Enters :
      (fs : Fs W) (os : Os W) (allow : Bool) (text : Bytes) (s : State W)
      → s.client.logged_in ≡ false
      → (process_line fs os (command_table allow) text s).client.logged_in ≡ true
      → let (name, rest) = take_name 7 (skip_spaces text) in
        (name ≡ codes "PASS") × IsAuthorised (some (skip_spaces rest)) s
  unfolding process_line
  process_line-Enters fs os allow text s out =
      let (name, rest) = take_name 7 (skip_spaces text) in
      let param = skip_spaces rest in
      let enters : State W → Type 0 = Enters name (some param) s in
      elim (Bool-cases (is_nil name)) [
        | inl empty ↦
            subst enters (sym (process_empty os fs allow name param s empty))
              (stays-out name (some param) s s out (same s s refl))
        | inr named ↦ elim (Bool-cases (prelogin_command name)) [
          | inr closed ↦
              subst enters (sym (process_closed os fs allow name param s named out closed)) (
                stays-out name (some param) s (send_reply 530 (codes "Not logged in.") s) out
                  (same s _ refl))
          | inl allowed ↦
              let (f, o, found) =
                is_one_of-All Opens name prelogin_names Opens-All
                  (unfold prelogin_command in allowed) allow in
              subst enters (sym (process_open os fs allow name param f s named allowed found))
                (run-Enters fs os o (some param) s out)
        ]
      ]

  cmd_pass_accepts :
      (param : Param) (s : State W)
      → IsAuthorised param s
      → (cmd_pass param s).client.logged_in ≡ true
  unfolding cmd_pass
  cmd_pass_accepts param s ok = rw (ok.0, ok.1) refl

  process_pass :
      (fs : Fs W) (os : Os W) (allow : Bool) (name param : Bytes) (s : State W)
      → name ≡ codes "PASS"
      → IsAuthorised (some param) s
      → (process_command fs os (command_table allow) name param s).client.logged_in ≡ true
  unfolding run_command prelogin_command str_eq
  process_pass fs os allow name param s named ok =
      subst (λ n. (process_command fs os (command_table allow) n param s).client.logged_in ≡ true)
        (sym named)
        (ap (λ (t : State W). t.client.logged_in)
            (process_open os fs allow (codes "PASS") param pass s refl refl (find_pass allow))
          ∙ cmd_pass_accepts (some param) s ok)

  -- With the commands that opftp_commands_init registers, a line logs in a client that is not, exactly when its
  -- command is PASS, a user name was given before, and the server's check accepts that name with the
  -- line's parameter as the password.
  pub process_line_iff :
      (fs : Fs W) (os : Os W) (allow : Bool) (text : Bytes) (s : State W)
      → s.client.logged_in ≡ false
      → let (name, rest) = take_name 7 (skip_spaces text) in
        ((process_line fs os (command_table allow) text s).client.logged_in ≡ true)
        ↔ ((name ≡ codes "PASS") × IsAuthorised (some (skip_spaces rest)) s)
  unfolding process_line
  process_line_iff fs os allow text s out =
      let (name, rest) = take_name 7 (skip_spaces text) in
      (
        process_line-Enters fs os allow text s out,
        λ k. process_pass fs os allow name (skip_spaces rest) s k.0 k.1,
      )
