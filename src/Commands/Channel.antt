-- ===== src/Commands/Channel.antt =====
-- src/commands.c: the set-up of the data channel.
use openps3ftp.Base.{
  ℕ, zero, suc, ◌+◌, ◌-◌, Bool, true, false, not, ◌&&◌, ◌||◌, none, some, [], ◌∷◌, ◌++◌, ltb, ◌==◌,
  if◌then◌else◌, Bytes, codes, first_byte, snprintf, decimal,
}
use openps3ftp.Session.{
  Result, ok, err, Addr, unspec, inet, inet6, is_v4mapped, Family, af_inet, af_inet6, State, Os,
  send_reply, on_client,
}
use openps3ftp.Scan.{atoi}
use openps3ftp.Rooted.{settle}
use openps3ftp.Commands.Address.{
  refuse, unknown, v4, local_v4, or_loopback, pasv_text, scan_tuple, all_bytes, tuple_addr,
  control_proto, scan_eprt, port_number, port_of,
}
use openps3ftp.Commands.Common.{Param, no_arg, text_of, r200, r425, r501, close_fd}

module _ {W : Type 0} (os : Os W) where
  abbrev pub did : Result (Unit {0}) × State W → Bool × State W
  did (ok u, s) = (true, s)
  did (err e, s) = (false, s)

  abbrev pub bind_to : ℕ → Family → ℕ → State W → Bool × State W
  bind_to fd fam port s = did (settle (os.bind fd fam port s.world) s)

  -- The attempts from `cand` on, with `more` further ports up to the end of the range; a failure falls
  -- through to an ephemeral port once the range is used up. Port 0 stands alone.
  unfoldable pub bind_from : ℕ → Family → ℕ → ℕ → State W → Bool × State W
  bind_from fd fam cand zero s =
      let (bound, s') = bind_to fd fam cand s in
      if bound then (true, s') else if cand == 0 then (false, s') else bind_to fd fam 0 s'
  bind_from fd fam cand (suc more) s =
      let (bound, s') = bind_to fd fam cand s in
      let rest = bind_from fd fam (cand + 1) more s' in if bound then (true, s') else rest

  -- bind_listener_in_range; `lo` is 0 for an ephemeral port
  unfoldable pub bind_in_range : ℕ → Family → ℕ → ℕ → State W → Bool × State W
  unfolding bind_from
  bind_in_range fd fam lo hi s =
      if lo == 0 || ltb hi lo then bind_from fd fam 0 0 s else bind_from fd fam lo (hi - lo) s

  abbrev pub then_listen : ℕ → Bool × State W → Bool × State W
  then_listen fd (true, s) = did (settle (os.listen fd s.world) s)
  then_listen fd (false, s) = (false, s)

  -- PASV and EPSV: the old listener goes first
  abbrev pub close_pasv : State W → State W
  close_pasv s = on_client (λ c. record c { pasv_fd = none }) (close_fd os s.client.pasv_fd s)

  abbrev pub listener : ℕ → Family → State W → Bool × State W
  listener fd fam s = then_listen fd (bind_in_range fd fam s.server.pasv_min s.server.pasv_max s)

  abbrev pub set_listener : ℕ → State W → State W
  set_listener fd s = on_client (λ c. record c { pasv_fd = some fd; have_data_peer = false }) s

  -- with the listener bound, or not; `errno` is what `bind` or `listen` left
  unfoldable pub pasv_bound : Bytes → ℕ → Bool × State W → State W
  unfolding pasv_text
  pasv_bound ip fd (true, s) =
      send_reply 227 (pasv_text (or_loopback ip) (port_of (os.getsockname (some fd) s.world)))
        (set_listener fd s)
  pasv_bound ip fd (false, s) = send_reply 425 r425 (close_fd os (some fd) s)

  unfoldable pub pasv_socket : Bytes → Result ℕ × State W → State W
  unfolding pasv_bound bind_in_range
  pasv_socket ip (ok fd, s) = pasv_bound ip fd (listener fd af_inet s)
  pasv_socket ip (err e, s) = send_reply 425 r425 s

  abbrev pub open_socket : Family → State W → Result ℕ × State W
  open_socket fam s = settle (os.socket fam s.world) s

  unfoldable pub cmd_pasv : Param → State W → State W
  unfolding local_v4 pasv_socket
  cmd_pasv param s = elim (local_v4 (os.getsockname s.client.fd s.world)) [
    | refuse ↦ send_reply 522 (codes "Network protocol not supported, use (1)") s
    | unknown ↦ send_reply 425 r425 s
    | v4 ip ↦ pasv_socket ip (open_socket af_inet (close_pasv s))
  ]

  abbrev pub set_peer : Addr → State W → State W
  set_peer a s = on_client (λ c. record c { data_peer = a }) s

  -- the end of PORT and EPRT: the target is complete, and a listener is given up
  abbrev pub use_peer : State W → State W
  use_peer s =
      send_reply 200 r200 (close_pasv (on_client (λ c. record c { have_data_peer = true }) s))

  unfoldable pub cmd_port : Param → State W → State W
  unfolding scan_tuple
  cmd_port param s = elim (scan_tuple 6 (text_of param)) [
    | none ↦ send_reply 501 r501 s
    | some t ↦ if all_bytes t then use_peer (set_peer (tuple_addr t) s) else send_reply 501 r501 s
  ]

  unfoldable pub epsv_bound : ℕ → Bool × State W → State W
  unfolding decimal snprintf
  epsv_bound fd (true, s) =
      send_reply 229
        (snprintf 64 (
          codes "Entering Extended Passive Mode (|||"
          ++ (decimal (port_of (os.getsockname (some fd) s.world)) ++ codes "|)")))
        (set_listener fd s)
  epsv_bound fd (false, s) = send_reply 425 r425 (close_fd os (some fd) s)

  unfoldable pub epsv_v4 : Result ℕ × State W → State W
  unfolding epsv_bound bind_in_range
  epsv_v4 (ok fd, s) = epsv_bound fd (listener fd af_inet s)
  epsv_v4 (err e, s) = send_reply 425 r425 s

  unfoldable pub epsv_socket : Result ℕ × State W → State W
  unfolding epsv_bound bind_in_range epsv_v4
  epsv_socket (ok fd, s) = epsv_bound fd (listener fd af_inet6 s)
  epsv_socket (err e, s) = epsv_v4 (open_socket af_inet s)

  unfoldable pub cmd_epsv : Param → State W → State W
  unfolding atoi is_v4mapped epsv_socket
  cmd_epsv param s =
      if not (no_arg param) && not (atoi (text_of param) == control_proto s.client.peer)
      then send_reply 522 (codes "Network protocol not supported, use (1,2)") s
      else epsv_socket (open_socket af_inet6 (close_pasv s))

  -- EPRT with a parsed protocol: the stored target is overwritten before the address is read
  unfoldable pub eprt_target : ℕ → Bytes → ℕ → State W → State W
  eprt_target p addr pnum s =
      if p == 1
      then elim (os.inet_pton af_inet addr) [
        | none ↦ send_reply 501 r501 (set_peer (inet (0 ∷ 0 ∷ 0 ∷ 0 ∷ []) 0) s)
        | some a ↦ use_peer (set_peer (inet a pnum) s)
      ]
      else if p == 2
      then elim (os.inet_pton af_inet6 addr) [
        | none ↦ send_reply 501 r501 (
            set_peer (inet6 (0 ∷ 0 ∷ 0 ∷ 0 ∷ 0 ∷ 0 ∷ 0 ∷ 0 ∷ 0 ∷ 0 ∷ 0 ∷ 0 ∷ 0 ∷ 0 ∷ 0 ∷ 0 ∷ []) 0)
              s)
        | some a ↦ use_peer (set_peer (inet6 a pnum) s)
      ]
      else send_reply 522 (codes "Network protocol not supported, use (1,2)") (set_peer unspec s)

  unfoldable pub eprt_fields : Bytes × Bytes × Bytes → State W → State W
  unfolding eprt_target port_number atoi
  eprt_fields (proto, addr, port) s =
      let pnum = port_number port in
      if ltb pnum 1 || ltb 65535 pnum
      then send_reply 501 r501 s
      else eprt_target (atoi proto) addr pnum s

  unfoldable pub cmd_eprt : Param → State W → State W
  unfolding scan_eprt eprt_fields
  cmd_eprt param s =
      if not (first_byte (text_of param) == b'|')
      then send_reply 501 r501 s
      else elim (scan_eprt (text_of param)) [
        | none ↦ send_reply 501 r501 s
        | some t ↦ eprt_fields t s
      ]
