-- ===== src/Reactor/Events.antt =====
-- src/server.c: the events of one client, from the socket to its commands, and its disconnection.
-- The pollset's interest in the socket is left out.
pub mod Sound
use openps3ftp.Base.{
  ℕ, zero, suc, ◌+◌, ◌-◌, Bool, true, false, ◌||◌, ◌==◌, Option, none, some, [], if◌then◌else◌,
  Bytes, codes, length, get_elem?,
}
use openps3ftp.Session.{State, Fs, Os, on_client}
use openps3ftp.Dispatch.{Table, dispatch_find}
use openps3ftp.Commands.Common.{close_fd}
use openps3ftp.Commands.Transfer.{cancel_job}
use openps3ftp.Commands.Registry.{Command}
use openps3ftp.Commands.Run.{run_command}
use openps3ftp.Stream.{
  Net, line_size, client_getline, ReadResult, got, eof, not_yet, unreadable, client_read,
  client_release, Handshake, finished, want_read, want_write, broken,
}
use openps3ftp.Reactor.{process_line}

-- POLLPRI, POLLIN, and one of POLLERR, POLLHUP and POLLNVAL
pub record Revents : Type 0 where
  pub urgent : Bool
  pub readable : Bool
  pub hung_up : Bool

module _ {W : Type 0} where
  -- the loops over a client's lines stop
  abbrev pub is_interrupted : State W → Bool
  is_interrupted s = s.client.disconnect_requested || s.client.tls_handshaking

  abbrev pub ask_disconnect : State W → State W
  ask_disconnect s = on_client (λ c. record c { disconnect_requested = true }) s

  abbrev pub with_rbuf : Bytes → State W → State W
  with_rbuf buf s = on_client (λ c. record c { rbuf = buf }) s

module _ {W : Type 0} (os : Os W) (net : Net W) where
  abbrev pub cancel_active : Option ℕ → State W → State W
  cancel_active none s = s
  cancel_active (some i) s = on_client (λ c. record c { job = none }) (cancel_job os i s)

  abbrev pub end_tls : State W → State W
  end_tls s =
      if s.client.tls
      then record s {
        client = record s.client { tls = false; tls_handshaking = false };
        world = net.tls_session_free s.world;
      }
      else s

  unfoldable pub client_disconnect : State W → State W
  unfolding cancel_job client_release
  client_disconnect s =
      let stale =
        on_client (λ c. record c { generation = c.generation + 1 })
          (cancel_active s.client.job s) in
      let bare =
        on_client (λ c. record c { pasv_fd = none }) (close_fd os stale.client.pasv_fd stale) in
      let plain = end_tls bare in
      let closed = on_client (λ c. record c { fd = none }) (close_fd os plain.client.fd plain) in
      client_release os (record closed { world = net.disconnected closed.world })

module _ {W : Type 0} (fs : Fs W) (os : Os W) (net : Net W) (t : Table Command) where
  -- The lines in the buffer, until none is left or one of them ends the connection or starts TLS.
  unfoldable pub line_loop : ℕ → State W → State W
  unfolding client_getline process_line
  line_loop zero s = s
  line_loop (suc n) s = elim (client_getline line_size s.client.rbuf) [
    | none ↦ s
    | some r ↦
        let s' = process_line fs os t r.0 (with_rbuf r.1 s) in
        let rest = line_loop n s' in if is_interrupted s' then s' else rest
  ]

  abbrev pub all_lines : State W → State W
  all_lines s = line_loop (suc (length s.client.rbuf)) s

  -- One read and what follows from it, with the rounds after it; whether the loop has ended, and the state.
  unfoldable pub after_read : (State W → Bool × State W) → ReadResult × State W → Bool × State W
  unfolding line_loop
  after_read again (not_yet, s) = (true, s)
  after_read again (unreadable, s) = (true, ask_disconnect s)
  after_read again (eof, s) = (true, ask_disconnect s)
  after_read again (got, s) =
      let s' = all_lines s in if is_interrupted s' then (true, s') else again s'

  -- At most so many reads: the peer decides how many there are.
  unfoldable pub read_loop : ℕ → State W → Bool × State W
  unfolding client_read after_read
  read_loop zero s = (false, s)
  read_loop (suc n) s = after_read (read_loop n) (client_read net s)

  abbrev pub handshake_done : Handshake × W → State W → State W
  handshake_done (finished, w) s = record s {
    client = record s.client { tls_handshaking = false };
    world = w;
  }
  handshake_done (want_read, w) s = record s { world = w }
  handshake_done (want_write, w) s = record s { world = w }
  handshake_done (broken, w) s = ask_disconnect (record s { world = w })

  abbrev pub close_if_asked : State W → State W
  close_if_asked s = if s.client.disconnect_requested then client_disconnect os net s else s

  -- the ABOR of the out-of-band byte
  abbrev pub urgent_abort : State W → State W
  urgent_abort s = elim (dispatch_find (codes "ABOR") t) [
    | none ↦ s
    | some f ↦ run_command fs os f none s
  ]

  abbrev pub hang_up : Bool → Bool × State W → Bool × State W
  hang_up b (ended, s) = (ended, if b then ask_disconnect s else s)

  -- the events of a client that is past its handshake, before it is disconnected
  unfoldable pub serve_events : ℕ → Revents → State W → Bool × State W
  unfolding read_loop dispatch_find
  serve_events n r s =
      let s' = if r.urgent then urgent_abort s else s in
      hang_up r.hung_up (if r.readable then read_loop n s' else (true, s'))

  -- The flag says whether the reads have ended; while they have not, the client is not disconnected either.
  unfoldable pub handle_client_events : ℕ → Revents → State W → Bool × State W
  unfolding serve_events client_disconnect
  handle_client_events n r s =
      if s.client.tls_handshaking
      then (true, close_if_asked (handshake_done (net.tls_handshake s.world) s))
      else let (ended, s') = serve_events n r s in (ended, if ended then close_if_asked s' else s')
