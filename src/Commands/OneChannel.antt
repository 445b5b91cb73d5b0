-- ===== src/Commands/OneChannel.antt =====
-- PASV, EPSV, PORT and EPRT of src/commands.c: a listener and a PORT target never stand together.
use openps3ftp.Base.{
  ℕ, zero, suc, ◌+◌, ◌-◌, ◌≡◌, refl, ◌∙◌, ap, Bool, true, false, ◌&&◌, ◌||◌, none, arith, Bytes,
  ltb, ◌==◌, Option-cases, inl, inr,
}
use openps3ftp.Session.{Result, ok, err, Family, State, Os, af_inet, af_inet6}
use openps3ftp.Rooted.{settle}
use openps3ftp.Rooted.Frame.{Frame, settle-Frame, if-Frame}
use openps3ftp.Commands.Common.{Param, is_some, text_of}
use openps3ftp.Scan.{atoi}
use openps3ftp.Commands.Address.{
  port_number, Local, refuse, unknown, v4, local_v4, scan_tuple, scan_eprt,
}
use openps3ftp.Commands.Channel.{
  did, bind_to, bind_from, bind_in_range, then_listen, listener, close_pasv, pasv_bound,
  pasv_socket, open_socket, use_peer, epsv_bound, epsv_v4, epsv_socket, eprt_target, eprt_fields,
  cmd_pasv, cmd_port, cmd_epsv, cmd_eprt,
}

module _ {W : Type 0} where
  -- there is no listener, or no target
  abbrev pub IsOneChannel : State W → Type 0
  IsOneChannel s = (is_some s.client.pasv_fd && s.client.have_data_peer) ≡ false

module _ {W : Type 0} (os : Os W) where
  pub did-Frame : (r : Result (Unit {0}) × State W) → Frame r.1 (did os r).1
  did-Frame (ok u, s) = refl
  did-Frame (err e, s) = refl

  pub bind_to-Frame :
      (fd : ℕ) (fam : Family) (port : ℕ) (s : State W) → Frame s (bind_to os fd fam port s).1
  bind_to-Frame fd fam port s =
      did-Frame (settle (os.bind fd fam port s.world) s)
      ∙ settle-Frame (os.bind fd fam port s.world) s

  pub bind_from-Frame :
      (fd : ℕ) (fam : Family) (cand more : ℕ) (s : State W)
      → Frame s (bind_from os fd fam cand more s).1
  unfolding bind_from
  bind_from-Frame fd fam cand zero s =
      let (bound, s') = bind_to os fd fam cand s in
      let first = bind_to-Frame fd fam cand s in
      if-Frame bound s _ _ first
        (if-Frame (cand == 0) s _ _ first (bind_to-Frame fd fam 0 s' ∙ first))
  bind_from-Frame fd fam cand (suc more) s =
      let (bound, s') = bind_to os fd fam cand s in
      let first = bind_to-Frame fd fam cand s in
      if-Frame bound s _ _ first (bind_from-Frame fd fam (cand + 1) more s' ∙ first)

  pub bind_in_range-Frame :
      (fd : ℕ) (fam : Family) (lo hi : ℕ) (s : State W)
      → Frame s (bind_in_range os fd fam lo hi s).1
  unfolding bind_in_range
  bind_in_range-Frame fd fam lo hi s =
      if-Frame (lo == 0 || ltb hi lo) s _ _ (bind_from-Frame fd fam 0 0 s)
        (bind_from-Frame fd fam lo (hi - lo) s)

  pub then_listen-Frame : (fd : ℕ) (r : Bool × State W) → Frame r.1 (then_listen os fd r).1
  then_listen-Frame fd (true, s) =
      did-Frame (settle (os.listen fd s.world) s) ∙ settle-Frame (os.listen fd s.world) s
  then_listen-Frame fd (false, s) = refl

  pub listener-Frame : (fd : ℕ) (fam : Family) (s : State W) → Frame s (listener os fd fam s).1
  listener-Frame fd fam s =
      then_listen-Frame fd (bind_in_range os fd fam s.server.pasv_min s.server.pasv_max s)
      ∙ bind_in_range-Frame fd fam s.server.pasv_min s.server.pasv_max s

  -- without a listener
  IsBare : State W → Type 0
  IsBare s = s.client.pasv_fd ≡ none

  close_pasv-IsBare : (s : State W) → IsBare (close_pasv os s)
  unfolding IsBare
  close_pasv-IsBare s = refl

  IsBare-Frame : (s t : State W) → IsBare s → Frame s t → IsBare t
  unfolding IsBare
  IsBare-Frame s t bare same = ap (λ p. p.0.pasv_fd) same ∙ bare

  pasv_bound-IsOneChannel :
      (ip : Bytes) (fd : ℕ) (r : Bool × State W) → IsBare r.1 → IsOneChannel (pasv_bound os ip fd r)
  unfolding pasv_bound IsBare
  pasv_bound-IsOneChannel ip fd (true, s) bare = refl
  pasv_bound-IsOneChannel ip fd (false, s) bare = rw bare refl

  pasv_socket-IsOneChannel :
      (ip : Bytes) (r : Result ℕ × State W) → IsBare r.1 → IsOneChannel (pasv_socket os ip r)
  unfolding pasv_socket
  pasv_socket-IsOneChannel ip (ok fd, s) bare =
      pasv_bound-IsOneChannel ip fd (listener os fd af_inet s)
        (IsBare-Frame s _ bare (listener-Frame fd af_inet s))
  pasv_socket-IsOneChannel ip (err e, s) bare = unfold IsBare in rw bare refl

  epsv_bound-IsOneChannel :
      (fd : ℕ) (r : Bool × State W) → IsBare r.1 → IsOneChannel (epsv_bound os fd r)
  unfolding epsv_bound IsBare
  epsv_bound-IsOneChannel fd (true, s) bare = refl
  epsv_bound-IsOneChannel fd (false, s) bare = rw bare refl

  epsv_v4-IsOneChannel : (r : Result ℕ × State W) → IsBare r.1 → IsOneChannel (epsv_v4 os r)
  unfolding epsv_v4
  epsv_v4-IsOneChannel (ok fd, s) bare =
      epsv_bound-IsOneChannel fd (listener os fd af_inet s)
        (IsBare-Frame s _ bare (listener-Frame fd af_inet s))
  epsv_v4-IsOneChannel (err e, s) bare = unfold IsBare in rw bare refl

  epsv_socket-IsOneChannel : (r : Result ℕ × State W) → IsBare r.1 → IsOneChannel (epsv_socket os r)
  unfolding epsv_socket
  epsv_socket-IsOneChannel (ok fd, s) bare =
      epsv_bound-IsOneChannel fd (listener os fd af_inet6 s)
        (IsBare-Frame s _ bare (listener-Frame fd af_inet6 s))
  epsv_socket-IsOneChannel (err e, s) bare =
      epsv_v4-IsOneChannel (open_socket os af_inet s)
        (IsBare-Frame s _ bare (settle-Frame (os.socket af_inet s.world) s))

  opened-IsBare : (fam : Family) (s : State W) → IsBare (open_socket os fam (close_pasv os s)).1
  opened-IsBare fam s =
      let s' = close_pasv os s in
      IsBare-Frame s' _ (close_pasv-IsBare s) (settle-Frame (os.socket fam s'.world) s')

  pub cmd_pasv-IsOneChannel :
      (p : Param) (s : State W) → IsOneChannel s → IsOneChannel (cmd_pasv os p s)
  unfolding cmd_pasv
  cmd_pasv-IsOneChannel p s h = by_address (local_v4 (os.getsockname s.client.fd s.world)) refl
    where
      by_address :
          (a : Local)
          → local_v4 (os.getsockname s.client.fd s.world) ≡ a
          → IsOneChannel (cmd_pasv os p s)
      by_address refuse e = rw (e, cmd_pasv) h
      by_address unknown e = rw (e, cmd_pasv) h
      by_address (v4 ip) e =
          rw (e, cmd_pasv)
            (pasv_socket-IsOneChannel ip (open_socket os af_inet (close_pasv os s))
              (opened-IsBare af_inet s))

  pub cmd_epsv-IsOneChannel :
      (p : Param) (s : State W) → IsOneChannel s → IsOneChannel (cmd_epsv os p s)
  unfolding cmd_epsv
  cmd_epsv-IsOneChannel p s h = ground (
    arith,
    epsv_socket-IsOneChannel (open_socket os af_inet6 (close_pasv os s)) (opened-IsBare af_inet6 s),
  )

  use_peer-IsOneChannel : (s : State W) → IsOneChannel (use_peer os s)
  use_peer-IsOneChannel s = refl

  pub cmd_port-IsOneChannel :
      (p : Param) (s : State W) → IsOneChannel s → IsOneChannel (cmd_port os p s)
  unfolding cmd_port
  cmd_port-IsOneChannel p s h = elim (Option-cases (scan_tuple 6 (text_of p))) [
    | inl n ↦ rw (n, cmd_port) h
    | inr (t, e) ↦ rw (e, cmd_port) (ground arith)
  ]

  eprt_target-IsOneChannel :
      (p : ℕ) (addr : Bytes) (pnum : ℕ) (s : State W)
      → IsOneChannel s
      → IsOneChannel (eprt_target os p addr pnum s)
  unfolding eprt_target
  eprt_target-IsOneChannel p addr pnum s h = ground arith

  eprt_fields-IsOneChannel :
      (t : Bytes × Bytes × Bytes) (s : State W) → IsOneChannel s → IsOneChannel (eprt_fields os t s)
  unfolding eprt_fields
  eprt_fields-IsOneChannel (proto, addr, port) s h =
      ground (arith, eprt_target-IsOneChannel (atoi proto) addr (port_number port) s h)

  pub cmd_eprt-IsOneChannel :
      (p : Param) (s : State W) → IsOneChannel s → IsOneChannel (cmd_eprt os p s)
  unfolding cmd_eprt
  cmd_eprt-IsOneChannel p s h = elim (Option-cases (scan_eprt (text_of p))) [
    | inl n ↦ ground (arith, n)
    | inr (t, e) ↦ ground (arith, eprt_fields-IsOneChannel t s h)
  ]

  -- A client that does not have a passive listener and an active target at once does not after PASV, EPSV,
  -- PORT or EPRT either, whether the command succeeds or fails.
  pub channel_commands-IsOneChannel :
      (p : Param) (s : State W)
      → IsOneChannel s
      → IsOneChannel (cmd_pasv os p s)
        × IsOneChannel (cmd_epsv os p s)
        × IsOneChannel (cmd_port os p s)
        × IsOneChannel (cmd_eprt os p s)
  channel_commands-IsOneChannel p s h = (
    cmd_pasv-IsOneChannel p s h,
    cmd_epsv-IsOneChannel p s h,
    cmd_port-IsOneChannel p s h,
    cmd_eprt-IsOneChannel p s h,
  )
