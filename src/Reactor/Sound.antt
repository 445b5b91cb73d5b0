-- ===== src/Reactor/Sound.antt =====
-- src/server.c: what a command line keeps of the client and of the server, over all the commands of src/commands.c.
use openps3ftp.Base.{
  ℕ, ◌+◌, ◌≡◌, refl, sym, ap, subst, true, not, ◌&&◌, Option, none, some, List, ◌++◌, arith, Bytes,
  is_nil, skip_spaces, if_both,
}
use openps3ftp.Session.{Message, State, Fs, Os}
use openps3ftp.Path.Join.{IsRoot}
use openps3ftp.Rooted.Frame.{session}
use openps3ftp.Dispatch.{Table, dispatch_find}
use openps3ftp.Commands.Common.{Param}
use openps3ftp.Commands.Registry.{Command}
use openps3ftp.Commands.Cwd.{IsCanonical}
use openps3ftp.Commands.OneChannel.{IsOneChannel}
use openps3ftp.Commands.Step.{Step, Frame-Step, send-Step, fixed_of, held}
use openps3ftp.Commands.Step.Run.{run_command-Step}
use openps3ftp.Reactor.{take_name, prelogin_command, call_found, process_command, process_line}

module _ {W : Type 0} where
  -- The invariant of a session: the root is "/" or an absolute path that does not end in a slash, the current
  -- directory is canonical, there is no listener beside a target, and the client has `k` references and one more for an
  -- active transfer.
  pub record IsSound (k : ℕ) (s : State W) : Type 0 where
    pub rooted : IsRoot s.server.root
    pub canonical : IsCanonical s
    pub one_channel : IsOneChannel s
    pub counted : s.client.refs ≡ k + held s.client.job

  pub Step-IsSound : (k : ℕ) {s t : State W} → Step s t → IsSound k s → IsSound k t
  Step-IsSound k b h = record {
    rooted = subst IsRoot (sym (ap (λ f. f.root) b.fixed)) h.rooted;
    canonical = b.canonical h.rooted h.canonical;
    one_channel = b.channel h.one_channel;
    counted = omega (arith, b.refs, h.counted);
  }

module _ {W : Type 0} (fs : Fs W) (os : Os W) (t : Table Command) where
  call_found-Step : (f : Option Command) (p : Param) (s : State W) → Step s (call_found fs os f p s)
  call_found-Step none p s = send-Step _ s
  call_found-Step (some f) p s = run_command-Step fs os f p s

  process_command-Step :
      (name param : Bytes) (s : State W) → Step s (process_command fs os t name param s)
  unfolding process_command
  process_command-Step name param s = if_both (Step s) (is_nil name) (Frame-Step s s refl) (
      if_both (Step s) (not s.client.logged_in && not (prelogin_command name)) (send-Step _ s)
        (call_found-Step (dispatch_find name t) (some param) s))

  pub process_line-Step : (line : Bytes) (s : State W) → Step s (process_line fs os t line s)
  unfolding process_line
  process_line-Step line s =
      let r = take_name 7 (skip_spaces line) in process_command-Step r.0 (skip_spaces r.1) s

  -- Whatever the line, the table of commands, the file system and the operating system, a sound session stays sound.
  pub process_line-IsSound :
      (k : ℕ) (line : Bytes) (s : State W) → IsSound k s → IsSound k (process_line fs os t line s)
  process_line-IsSound k line s h = Step-IsSound k (process_line-Step line s) h

  -- While a transfer is active, no line replaces it or forgets it, takes or gives up a reference, or logs a client out
  -- that is logged in.
  pub process_line-active :
      (line : Bytes) (s : State W) (i : ℕ)
      → s.client.job ≡ some i
      → s.client.logged_in ≡ true
      → let u = process_line fs os t line s in
        (u.client.job ≡ some i) × (u.client.refs ≡ s.client.refs) × (u.client.logged_in ≡ true)
  process_line-active line s i active inside =
      let b = process_line-Step line s in
      (
        b.job i active,
        omega (arith, b.refs, ap held active, ap held (b.job i active)),
        b.login inside,
      )

  -- A line changes nothing of the server's configuration or of the connection's identity, and takes back nothing that
  -- was sent.
  pub process_line-Fixed :
      (line : Bytes) (s : State W)
      → let u = process_line fs os t line s in
        (fixed_of (session u) ≡ fixed_of (session s))
        × ((ms : List Message) × (u.client.sent ≡ s.client.sent ++ ms))
  process_line-Fixed line s = let b = process_line-Step line s in (b.fixed, b.sent)
