-- ===== src/Commands/Step/Channel.antt =====
-- PASV, PORT, EPSV and EPRT: src/commands.c.
use openps3ftp.Base.{
  ℕ, ◌≡◌, refl, sym, ◌∙◌, ap, Bool, true, false, not, ◌&&◌, ◌||◌, Option, none, some, List, [], ◌∷◌,
  ◌++◌, append-nil, append_assoc, arith, Bytes, codes, if_both, option_both, ltb, All, subst,
  length, ◌==◌, first_byte,
}
use openps3ftp.Session.{
  Result, ok, err, Addr, af_inet, af_inet6, State, Os, Family, Message, send, send_reply, Client,
  Server,
}
use openps3ftp.Scan.{atoi}
use openps3ftp.Rooted.Frame.{Frame, session, settle-Frame}
use openps3ftp.Commands.Address.{
  Local, refuse, unknown, v4, port_number, local_v4, scan_tuple, scan_eprt, all_bytes, tuple_addr,
  control_proto,
}
use openps3ftp.Commands.Channel.{
  listener, close_pasv, pasv_bound, pasv_socket, open_socket, set_listener, set_peer, use_peer,
  epsv_bound, epsv_v4, epsv_socket, eprt_target, eprt_fields, cmd_pasv, cmd_port, cmd_epsv,
  cmd_eprt,
}
use openps3ftp.Commands.Common.{Param, no_arg, text_of, close_fd, r425}
use openps3ftp.Commands.Jobs.{close_fd-Frame}
use openps3ftp.Commands.OneChannel.{
  IsOneChannel, listener-Frame, cmd_pasv-IsOneChannel, cmd_port-IsOneChannel, cmd_epsv-IsOneChannel,
  cmd_eprt-IsOneChannel,
}
use openps3ftp.Commands.Step.{Vital, vital_of, Step, held}
use openps3ftp.Path.Tokens.{tokens}
use openps3ftp.Path.Walk.{IsClean}

-- the vital fields but for the data channel
abbrev core_of : Client × Server → Vital
core_of (c, v) = record (vital_of (c, v)) { pasv_fd = none; have_data_peer = false }

module _ {W : Type 0} where
  -- at most the data channel changes, and messages are sent
  record Chan (s t : State W) : Type 0 where
    same : core_of (session t) ≡ core_of (session s)
    sent : (ms : List Message) × (t.client.sent ≡ s.client.sent ++ ms)

  Chan-trans : {s t u : State W} → Chan s t → Chan t u → Chan s u
  Chan-trans {s} {t} {u} a b = record {
    same = b.same ∙ a.same;
    sent = (
      a.sent.0 ++ b.sent.0,
      b.sent.1 ∙ ap (λ l. l ++ b.sent.0) a.sent.1 ∙ append_assoc s.client.sent a.sent.0 b.sent.0,
    );
  }

  Frame-Chan : (s t : State W) → Frame s t → Chan s t
  Frame-Chan s t f = record {
    same = ap core_of f;
    sent = ([], ap (λ p. p.0.sent) f ∙ sym (append-nil s.client.sent));
  }

  send-Chan : (m : Message) (s : State W) → Chan s (send m s)
  send-Chan m s = record { same = refl; sent = (m ∷ [], refl) }

  by_channel : (s t : State W) → Chan s t → (IsOneChannel s → IsOneChannel t) → Step s t
  by_channel s t c one = record {
    fixed = ap (λ v. v.fixed) c.same;
    login = λ h. ap (λ v. v.logged_in) c.same ∙ h;
    buffer = omega (arith, ap (λ (v : Vital). length v.rbuf) c.same);
    job = λ i h. ap (λ v. v.job) c.same ∙ h;
    refs = omega (arith, ap (λ (v : Vital). v.refs) c.same, ap (λ (v : Vital). held v.job) c.same);
    channel = one;
    canonical =
        λ r h. subst (λ (d : Bytes). All IsClean (tokens d)) (sym (ap (λ v. v.cwd) c.same)) h;
    sent = c.sent;
  }

module _ {W : Type 0} (os : Os W) where
  close_fd-Chan : (fd : Option ℕ) (s : State W) → Chan s (close_fd os fd s)
  close_fd-Chan fd s = Frame-Chan s _ (close_fd-Frame os fd s)

  close_pasv-Chan : (s : State W) → Chan s (close_pasv os s)
  close_pasv-Chan s =
      Chan-trans (close_fd-Chan s.client.pasv_fd s)
        (record { same = refl; sent = ([], sym (append-nil _)) })

  listener-Chan : (fd : ℕ) (fam : Family) (s : State W) → Chan s (listener os fd fam s).1
  listener-Chan fd fam s = Frame-Chan s _ (listener-Frame os fd fam s)

  open_socket-Chan : (fam : Family) (s : State W) → Chan s (open_socket os fam s).1
  open_socket-Chan fam s = Frame-Chan s _ (settle-Frame (os.socket fam s.world) s)

  -- the listener is noted, and a reply sent
  replied-Chan : (fd : ℕ) (m : Message) (s : State W) → Chan s (send m (set_listener os fd s))
  replied-Chan fd m s = record { same = refl; sent = (m ∷ [], refl) }

  -- the socket is closed, and a reply sent
  closed-Chan : (fd : ℕ) (m : Message) (s : State W) → Chan s (send m (close_fd os (some fd) s))
  closed-Chan fd m s = record { same = refl; sent = (m ∷ [], refl) }

  pasv_bound-Chan : (ip : Bytes) (fd : ℕ) (r : Bool × State W) → Chan r.1 (pasv_bound os ip fd r)
  unfolding pasv_bound
  pasv_bound-Chan ip fd (true, s) = replied-Chan fd _ s
  pasv_bound-Chan ip fd (false, s) = closed-Chan fd _ s

  pasv_socket-Chan : (ip : Bytes) (r : Result ℕ × State W) → Chan r.1 (pasv_socket os ip r)
  unfolding pasv_socket
  pasv_socket-Chan ip (ok fd, s) =
      Chan-trans (listener-Chan fd af_inet s) (pasv_bound-Chan ip fd (listener os fd af_inet s))
  pasv_socket-Chan ip (err e, s) = send-Chan _ s

  -- after the old listener is closed and a socket made
  opened-Chan : (fam : Family) (s : State W) → Chan s (open_socket os fam (close_pasv os s)).1
  opened-Chan fam s = Chan-trans (close_pasv-Chan s) (open_socket-Chan fam (close_pasv os s))

  pasv_local-Chan :
      (a : Local) (s : State W)
      → Chan s (elim a [
        | refuse ↦ send_reply 522 (codes "Network protocol not supported, use (1)") s
        | unknown ↦ send_reply 425 r425 s
        | v4 ip ↦ pasv_socket os ip (open_socket os af_inet (close_pasv os s))
      ])
  pasv_local-Chan refuse s = send-Chan _ s
  pasv_local-Chan unknown s = send-Chan _ s
  pasv_local-Chan (v4 ip) s =
      let r = open_socket os af_inet (close_pasv os s) in
      Chan-trans (opened-Chan af_inet s) (pasv_socket-Chan ip r)

  pub cmd_pasv-Step : (p : Param) (s : State W) → Step s (cmd_pasv os p s)
  cmd_pasv-Step p s =
      by_channel s _
        (unfold cmd_pasv in pasv_local-Chan (local_v4 (os.getsockname s.client.fd s.world)) s)
        (cmd_pasv-IsOneChannel os p s)

  epsv_bound-Chan : (fd : ℕ) (r : Bool × State W) → Chan r.1 (epsv_bound os fd r)
  unfolding epsv_bound
  epsv_bound-Chan fd (true, s) = replied-Chan fd _ s
  epsv_bound-Chan fd (false, s) = closed-Chan fd _ s

  epsv_v4-Chan : (r : Result ℕ × State W) → Chan r.1 (epsv_v4 os r)
  unfolding epsv_v4
  epsv_v4-Chan (ok fd, s) =
      Chan-trans (listener-Chan fd af_inet s) (epsv_bound-Chan fd (listener os fd af_inet s))
  epsv_v4-Chan (err e, s) = send-Chan _ s

  epsv_socket-Chan : (r : Result ℕ × State W) → Chan r.1 (epsv_socket os r)
  unfolding epsv_socket
  epsv_socket-Chan (ok fd, s) =
      Chan-trans (listener-Chan fd af_inet6 s) (epsv_bound-Chan fd (listener os fd af_inet6 s))
  epsv_socket-Chan (err e, s) =
      Chan-trans (open_socket-Chan af_inet s) (epsv_v4-Chan (open_socket os af_inet s))

  epsv-Chan : (p : Param) (s : State W) → Chan s (cmd_epsv os p s)
  unfolding cmd_epsv
  epsv-Chan p s =
      if_both (Chan s) (not (no_arg p) && not (atoi (text_of p) == control_proto s.client.peer))
        (send-Chan _ s)
        (Chan-trans (opened-Chan af_inet6 s)
          (epsv_socket-Chan (open_socket os af_inet6 (close_pasv os s))))

  pub cmd_epsv-Step : (p : Param) (s : State W) → Step s (cmd_epsv os p s)
  cmd_epsv-Step p s = by_channel s _ (epsv-Chan p s) (cmd_epsv-IsOneChannel os p s)

  -- a target is stored, and a reply sent
  target-Chan : (a : Addr) (m : Message) (s : State W) → Chan s (send m (set_peer os a s))
  target-Chan a m s = record { same = refl; sent = (m ∷ [], refl) }

  use_peer-Chan : (a : Addr) (s : State W) → Chan s (use_peer os (set_peer os a s))
  use_peer-Chan a s =
      let s' = record s { client = record s.client { data_peer = a; have_data_peer = true } } in
      let set : Chan s s' = record { same = refl; sent = ([], sym (append-nil _)) } in
      Chan-trans set (Chan-trans (close_pasv-Chan s') (send-Chan _ (close_pasv os s')))

  port-Chan : (p : Param) (s : State W) → Chan s (cmd_port os p s)
  unfolding cmd_port
  port-Chan p s =
      option_both (Chan s) (scan_tuple 6 (text_of p)) (send-Chan _ s)
        (λ t. if_both (Chan s) (all_bytes t) (use_peer-Chan (tuple_addr t) s) (send-Chan _ s))

  pub cmd_port-Step : (p : Param) (s : State W) → Step s (cmd_port os p s)
  cmd_port-Step p s = by_channel s _ (port-Chan p s) (cmd_port-IsOneChannel os p s)

  eprt_target-Chan :
      (p : ℕ) (addr : Bytes) (pnum : ℕ) (s : State W) → Chan s (eprt_target os p addr pnum s)
  unfolding eprt_target
  eprt_target-Chan p addr pnum s =
      if_both (Chan s) (p == 1)
        (option_both (Chan s) (os.inet_pton af_inet addr) (target-Chan _ _ s)
          (λ a. use_peer-Chan _ s))
        (if_both (Chan s) (p == 2)
          (option_both (Chan s) (os.inet_pton af_inet6 addr) (target-Chan _ _ s)
            (λ a. use_peer-Chan _ s))
          (target-Chan _ _ s))

  eprt_fields-Chan : (t : Bytes × Bytes × Bytes) (s : State W) → Chan s (eprt_fields os t s)
  unfolding eprt_fields
  eprt_fields-Chan (proto, addr, port) s =
      let pnum = port_number port in
      if_both (Chan s) (ltb pnum 1 || ltb 65535 pnum) (send-Chan _ s)
        (eprt_target-Chan (atoi proto) addr pnum s)

  eprt-Chan : (p : Param) (s : State W) → Chan s (cmd_eprt os p s)
  unfolding cmd_eprt
  eprt-Chan p s =
      if_both (Chan s) (not (first_byte (text_of p) == b'|')) (send-Chan _ s)
        (option_both (Chan s) (scan_eprt (text_of p)) (send-Chan _ s) (λ t. eprt_fields-Chan t s))

  pub cmd_eprt-Step : (p : Param) (s : State W) → Step s (cmd_eprt os p s)
  cmd_eprt-Step p s = by_channel s _ (eprt-Chan p s) (cmd_eprt-IsOneChannel os p s)
