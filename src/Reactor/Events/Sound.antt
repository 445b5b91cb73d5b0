-- ===== src/Reactor/Events/Sound.antt =====
-- src/server.c: what the events of a client keep.
use openps3ftp.Base.{
  ℕ, zero, suc, ◌-◌, ◌≤◌, ◌<◌, ◌≡◌, ◌⊎◌, inl, inr, Bool, true, ◌&&◌, not, Option, none, ◌++◌, arith,
  Bytes, codes, length, length-append, leb, if_both, option_both, option_both_eq, Bool-cases,
  Option-cases, if◌then◌else◌,
}
use openps3ftp.Session.{State, Fs, Os}
use openps3ftp.Dispatch.{Table, dispatch_find}
use openps3ftp.Commands.Registry.{Command}
use openps3ftp.Commands.Step.{Step}
use openps3ftp.Commands.Step.Run.{run_command-Step}
use openps3ftp.Reactor.{process_line}
use openps3ftp.Reactor.Sound.{IsSound, Step-IsSound, process_line-Step}
use openps3ftp.Stream.{
  Net, rbuf_size, line_size, client_getline, Received, chunk, end, again, failed, ReadResult, got,
  eof, not_yet, unreadable, read_into, client_read,
}
use openps3ftp.Stream.Lines.{getline-lt}
use openps3ftp.Reactor.Events.{
  Revents, is_interrupted, with_rbuf, ask_disconnect, line_loop, all_lines, after_read, read_loop,
  urgent_abort, hang_up, serve_events,
}

-- A read puts no more bytes into the buffer than there is room for.
abbrev pub Fits : ℕ → Received → Type 0
Fits room (chunk b) = length b ≤ room
Fits room _ = Unit {0}

module _ {W : Type 0} where
  pub record IsBounded (net : Net W) : Type 0 where
    pub recv : (fd : Option ℕ) (room : ℕ) (w : W) → Fits room (net.recv fd room w).0
    pub tls_read : (room : ℕ) (w : W) → Fits room (net.tls_read room w).0

  -- a sound session whose unread bytes fit the buffer
  pub record IsServed (k : ℕ) (s : State W) : Type 0 where
    pub sound : IsSound k s
    pub within : length s.client.rbuf ≤ rbuf_size

  Step-IsServed : (k : ℕ) {s t : State W} → Step s t → IsServed k s → IsServed k t
  Step-IsServed k b h = record {
    sound = Step-IsSound k b h.sound;
    within = omega (arith, b.buffer, h.within);
  }

  -- other fields, and a buffer that fits
  rebuf-IsServed :
      (k : ℕ) (s : State W) (buf : Bytes)
      → length buf ≤ rbuf_size
      → IsServed k s
      → IsServed k (with_rbuf buf s)
  rebuf-IsServed k s buf fits h =
      let v = h.sound in
      record {
        sound = record {
          rooted = v.rooted;
          canonical = v.canonical;
          one_channel = v.one_channel;
          counted = v.counted;
        };
        within = fits;
      }

  world-IsServed :
      (k : ℕ) (s : State W) (w : W) → IsServed k s → IsServed k (record s { world = w })
  world-IsServed k s w h =
      let v = h.sound in
      record {
        sound = record {
          rooted = v.rooted;
          canonical = v.canonical;
          one_channel = v.one_channel;
          counted = v.counted;
        };
        within = h.within;
      }

  asked-IsServed : (k : ℕ) (s : State W) → IsServed k s → IsServed k (ask_disconnect s)
  asked-IsServed k s h =
      let v = h.sound in
      record {
        sound = record {
          rooted = v.rooted;
          canonical = v.canonical;
          one_channel = v.one_channel;
          counted = v.counted;
        };
        within = h.within;
      }

module _ {W : Type 0} (net : Net W) (k : ℕ) where
  read_into-IsServed :
      (r : Received × W) (s : State W)
      → Fits (rbuf_size - length s.client.rbuf) r.0
      → IsServed k s
      → IsServed k (read_into net r s).1
  unfolding read_into
  read_into-IsServed (chunk b, w) s fits h =
      let h' = world-IsServed k s w h in
      let s' = record s { world = w } in
      rebuf-IsServed k s' (s.client.rbuf ++ b)
        (omega (arith, length-append s.client.rbuf b, h.within)) h'
  read_into-IsServed (end, w) s fits h = world-IsServed k s w h
  read_into-IsServed (again, w) s fits h = world-IsServed k s w h
  read_into-IsServed (failed, w) s fits h = world-IsServed k s w h

  client_read-IsServed :
      IsBounded net → (s : State W) → IsServed k s → IsServed k (client_read net s).1
  unfolding client_read
  client_read-IsServed bounded s h =
      let room = rbuf_size - length s.client.rbuf in
      let P = λ (r : ReadResult × State W). IsServed k r.1 in
      if_both P (leb rbuf_size (length s.client.rbuf)) h (
        if_both P (s.client.tls && not s.client.tls_handshaking)
          (read_into-IsServed (net.tls_read room s.world) s (bounded.tls_read room s.world) h)
          (read_into-IsServed (net.recv s.client.fd room s.world) s
            (bounded.recv s.client.fd room s.world) h))

module _ {W : Type 0} (fs : Fs W) (os : Os W) (net : Net W) (t : Table Command) where
  -- With as much fuel as there are bytes in the buffer, the loop over the lines leaves no line there, or was interrupted.
  pub line_loop_ends :
      (n : ℕ) (s : State W)
      → length s.client.rbuf < n
      → let u = line_loop fs os net t n s in
        (client_getline line_size u.client.rbuf ≡ none) ⊎ (is_interrupted u ≡ true)
  unfolding line_loop
  line_loop_ends zero s h = absurd (omega arith)
  line_loop_ends (suc n) s h = elim (Option-cases (client_getline line_size s.client.rbuf)) [
    | inl e ↦ inl (rw (e, line_loop) e)
    | inr (r, e) ↦
        let s' = process_line fs os t r.0 (with_rbuf r.1 s) in
        let shorter : length s'.client.rbuf < n = omega (
          arith,
          getline-lt line_size s.client.rbuf e,
          (process_line-Step fs os t r.0 (with_rbuf r.1 s)).buffer,
        ) in
        elim (Bool-cases (is_interrupted s')) [
          | inl stop ↦ inr (rw (e, line_loop) (rw stop stop))
          | inr go ↦ rw (e, line_loop) (rw go (line_loop_ends n s' shorter))
        ]
  ]

  line_loop-IsServed :
      (k n : ℕ) (s : State W) → IsServed k s → IsServed k (line_loop fs os net t n s)
  unfolding line_loop
  line_loop-IsServed k zero s h = h
  line_loop-IsServed k (suc n) s h =
      option_both_eq (IsServed k) (client_getline line_size s.client.rbuf) h (λ r e.
        let s' = process_line fs os t r.0 (with_rbuf r.1 s) in
        let h' : IsServed k s' = Step-IsServed k (process_line-Step fs os t r.0 (with_rbuf r.1 s)) (
          rebuf-IsServed k s r.1 (omega (arith, getline-lt line_size s.client.rbuf e, h.within))
            h) in
        if_both (IsServed k) (is_interrupted s') h' (line_loop-IsServed k n s' h'))

  after_read-IsServed :
      (k : ℕ) (more : State W → Bool × State W) (r : ReadResult × State W)
      → ((s : State W) → IsServed k s → IsServed k (more s).1)
      → IsServed k r.1
      → IsServed k (after_read fs os net t more r).1
  unfolding after_read
  after_read-IsServed k more (not_yet, s) later h = h
  after_read-IsServed k more (unreadable, s) later h = asked-IsServed k s h
  after_read-IsServed k more (eof, s) later h = asked-IsServed k s h
  after_read-IsServed k more (got, s) later h =
      let s' = all_lines fs os net t s in
      let h' = line_loop-IsServed k (suc (length s.client.rbuf)) s h in
      if_both (λ (r : Bool × State W). IsServed k r.1) (is_interrupted s') h' (later s' h')

  read_loop-IsServed :
      (k n : ℕ)
      → IsBounded net
      → (s : State W) → IsServed k s
      → IsServed k (read_loop fs os net t n s).1
  unfolding read_loop
  read_loop-IsServed k zero b s h = h
  read_loop-IsServed k (suc n) b s h =
      after_read-IsServed k (read_loop fs os net t n) (client_read net s)
        (λ s' h'. read_loop-IsServed k n b s' h') (client_read-IsServed net k b s h)

  urgent_abort-IsServed :
      (k : ℕ) (s : State W) → IsServed k s → IsServed k (urgent_abort fs os net t s)
  urgent_abort-IsServed k s h =
      option_both (IsServed k) (dispatch_find (codes "ABOR") t) h
        (λ f. Step-IsServed k (run_command-Step fs os f none s) h)

  hang_up-IsServed :
      (k : ℕ) (b : Bool) (r : Bool × State W)
      → IsServed k r.1
      → IsServed k (hang_up fs os net t b r).1
  hang_up-IsServed k b (ended, s) h = if_both (IsServed k) b (asked-IsServed k s h) h

  -- Whatever arrives, in however many reads that do not overrun the room they are given, a sound session whose unread
  -- bytes fit the read buffer is still one when its events are served.
  pub serve_events-IsServed :
      (k n : ℕ) (r : Revents) (s : State W)
      → IsBounded net
      → IsServed k s
      → IsServed k (serve_events fs os net t n r s).1
  unfolding serve_events
  serve_events-IsServed k n r s b h =
      let s' = if r.urgent then urgent_abort fs os net t s else s in
      let h' : IsServed k s' = if_both (IsServed k) r.urgent (urgent_abort-IsServed k s h) h in
      hang_up-IsServed k r.hung_up (if r.readable then read_loop fs os net t n s' else (true, s')) (
        if_both (λ (q : Bool × State W). IsServed k q.1) r.readable (read_loop-IsServed k n b s' h')
          h')
