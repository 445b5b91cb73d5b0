-- ===== src/Commands/Step/Login.antt =====
-- The login, session and parameter commands, and FTPS: src/commands.c.
use openps3ftp.Base.{
  refl, sym, Bool, true, false, not, ◌&&◌, ◌||◌, List, [], ◌∷◌, append-nil, arith, Bytes, codes,
  if◌then◌else◌, if_both, is_nil, first_byte, ◌==◌, skip_spaces, drop, starts_with_case,
  str_case_eq, to_upper, str_eq,
}
use openps3ftp.Session.{Message, State, Os, line, send, on_client}
use openps3ftp.Commands.Common.{Param, no_arg, text_of}
use openps3ftp.Commands.Login.{
  authorised, feat_names, feat_tls_names, feat_lines, send_lines, cmd_user, cmd_pass, cmd_quit,
  cmd_noop, cmd_syst, cmd_feat, cmd_help, cmd_opts, cmd_acct, cmd_allo, cmd_type, cmd_mode,
  cmd_stru, cmd_stop,
}
use openps3ftp.Commands.Tls.{
  cmd_auth, cmd_pbsz, cmd_prot, client_start_tls, tls_created, auth_started,
}
use openps3ftp.Commands.Step.{Step, Step-trans, quiet, send-Step, Frame-Step}

module _ {W : Type 0} where
  pub cmd_user-Step : (p : Param) (s : State W) → Step s (cmd_user p s)
  unfolding cmd_user
  cmd_user-Step p s = if_both (Step s) (no_arg p) (quiet s _ _ refl refl) (quiet s _ _ refl refl)

  -- The one command that logs in.
  pub cmd_pass-Step : (p : Param) (s : State W) → Step s (cmd_pass p s)
  unfolding cmd_pass
  cmd_pass-Step p s = if_both (Step s) (is_nil s.client.user) (send-Step _ s) (
      if_both (Step s) (authorised s.server.auth s.client.user (text_of p))
        (record {
          fixed = refl;
          login = λ h. refl;
          buffer = omega arith;
          job = λ i h. h;
          refs = refl;
          channel = λ h. h;
          canonical = λ r h. h;
          sent = (_ ∷ [], refl);
        })
        (quiet s _ _ refl refl))

  pub cmd_quit-Step : (p : Param) (s : State W) → Step s (cmd_quit p s)
  unfolding cmd_quit
  cmd_quit-Step p s = quiet s _ _ refl refl

  pub cmd_noop-Step : (p : Param) (s : State W) → Step s (cmd_noop p s)
  unfolding cmd_noop
  cmd_noop-Step p s = send-Step _ s

  pub cmd_syst-Step : (p : Param) (s : State W) → Step s (cmd_syst p s)
  unfolding cmd_syst
  cmd_syst-Step p s = send-Step _ s

  send_lines-Step : (ls : List Bytes) (s : State W) → Step s (send_lines ls s)
  unfolding send_lines
  send_lines-Step [] s = Frame-Step s s refl
  send_lines-Step (l ∷ ls) s =
      Step-trans (send-Step (line l) s) (send_lines-Step ls (send (line l) s))

  feat_lines-Step : (s : State W) → Step s (feat_lines s)
  unfolding feat_lines
  feat_lines-Step s =
      let listed = send_lines-Step feat_names s in
      if_both (Step s) s.server.tls
        (Step-trans listed (send_lines-Step feat_tls_names (send_lines feat_names s))) listed

  pub cmd_feat-Step : (p : Param) (s : State W) → Step s (cmd_feat p s)
  unfolding cmd_feat
  cmd_feat-Step p s =
      Step-trans (feat_lines-Step s) (send-Step (line (codes "211 End")) (feat_lines s))

  pub cmd_help-Step : (p : Param) (s : State W) → Step s (cmd_help p s)
  unfolding cmd_help
  cmd_help-Step p s = send-Step _ s

  pub cmd_opts-Step : (p : Param) (s : State W) → Step s (cmd_opts p s)
  unfolding cmd_opts
  cmd_opts-Step p s =
      if_both (Step s)
        (starts_with_case (codes "UTF8") (text_of p)
          && str_case_eq (skip_spaces (drop 4 (text_of p))) (codes "ON"))
        (send-Step _ s) (send-Step _ s)

  pub cmd_acct-Step : (p : Param) (s : State W) → Step s (cmd_acct p s)
  unfolding cmd_acct
  cmd_acct-Step p s = send-Step _ s

  pub cmd_allo-Step : (p : Param) (s : State W) → Step s (cmd_allo p s)
  unfolding cmd_allo
  cmd_allo-Step p s = send-Step _ s

  -- a reply on either side of a test
  pub reply-Step :
      (b : Bool) (m n : Message) (s : State W) → Step s (if b then send m s else send n s)
  reply-Step true m n s = send-Step m s
  reply-Step false m n s = send-Step n s

  pub cmd_type-Step : (p : Param) (s : State W) → Step s (cmd_type p s)
  unfolding cmd_type
  cmd_type-Step p s =
      let t = to_upper (first_byte (text_of p)) in
      if_both (Step s) (no_arg p) (send-Step _ s) (
        if_both (Step s) (t == b'I') (reply-Step _ _ _ s)
          (if_both (Step s) (t == b'A') (reply-Step _ _ _ s) (send-Step _ s)))

  pub cmd_mode-Step : (p : Param) (s : State W) → Step s (cmd_mode p s)
  unfolding cmd_mode
  cmd_mode-Step p s = reply-Step _ _ _ s

  pub cmd_stru-Step : (p : Param) (s : State W) → Step s (cmd_stru p s)
  unfolding cmd_stru
  cmd_stru-Step p s = reply-Step _ _ _ s

  pub cmd_stop-Step : (p : Param) (s : State W) → Step s (cmd_stop p s)
  unfolding cmd_stop
  cmd_stop-Step p s = quiet s _ _ refl refl

  tls_created-Step : (os : Os W) (r : Bool × W) (s : State W) → Step s (tls_created os r s).1
  unfolding tls_created
  tls_created-Step os (true, w) s = quiet s _ [] refl (sym (append-nil s.client.sent))
  tls_created-Step os (false, w) s = Frame-Step s _ refl

  -- The read buffer is emptied: its bytes go to the handshake.
  emptied-Step : (s : State W) → Step s (on_client (λ c. record c { rbuf = [] }) s)
  emptied-Step s = record {
    fixed = refl;
    login = λ h. h;
    buffer = omega arith;
    job = λ i h. h;
    refs = refl;
    channel = λ h. h;
    canonical = λ r h. h;
    sent = ([], sym (append-nil s.client.sent));
  }

  client_start_tls-Step : (os : Os W) (s : State W) → Step s (client_start_tls os s).1
  unfolding client_start_tls
  client_start_tls-Step os s =
      if_both (λ (r : Bool × State W). Step s r.1)
        (not s.server.tls || s.client.tls || s.client.tls_handshaking) (Frame-Step s s refl)
        (Step-trans (emptied-Step s)
          (tls_created-Step os (os.tls_session_create s.client.fd s.client.rbuf s.world) _))

  auth_started-Step : (os : Os W) (r : Bool × State W) → Step r.1 (auth_started os r)
  auth_started-Step os (true, s) = send-Step _ s
  auth_started-Step os (false, s) = quiet s _ _ refl refl

  pub cmd_auth-Step : (os : Os W) (p : Param) (s : State W) → Step s (cmd_auth os p s)
  unfolding cmd_auth
  cmd_auth-Step os p s =
      if_both (Step s) (not (str_case_eq (text_of p) (codes "TLS"))) (send-Step _ s) (
        if_both (Step s) (not s.server.tls) (send-Step _ s) (
          if_both (Step s) s.client.tls (send-Step _ s) (
            Step-trans (client_start_tls-Step os s)
              (auth_started-Step os (client_start_tls os s)))))

  pub cmd_pbsz-Step : (p : Param) (s : State W) → Step s (cmd_pbsz p s)
  unfolding cmd_pbsz
  cmd_pbsz-Step p s = if_both (Step s) (not s.client.tls) (send-Step _ s) (reply-Step _ _ _ s)

  pub cmd_prot-Step : (p : Param) (s : State W) → Step s (cmd_prot p s)
  unfolding cmd_prot
  cmd_prot-Step p s = if_both (Step s) (not s.client.tls) (send-Step _ s) (
      if_both (Step s) (str_eq (text_of p) (codes "P")) (quiet s _ _ refl refl)
        (if_both (Step s) (str_eq (text_of p) (codes "C")) (quiet s _ _ refl refl) (send-Step _ s)))
