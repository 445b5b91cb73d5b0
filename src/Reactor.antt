-- ===== src/Reactor.antt =====
-- src/server.c: a command line on the control channel.
pub mod Gate
pub mod Enter
pub mod Sound
pub mod Events
use openps3ftp.Base.{
  ℕ, zero, suc, Bool, false, not, ◌&&◌, ◌||◌, Option, none, some, List, [], ◌∷◌, ◌==◌,
  if◌then◌else◌, Bytes, codes, is_nil, skip_spaces, to_upper, str_eq,
}
use openps3ftp.Session.{State, Fs, Os, send_reply}
use openps3ftp.Dispatch.{Table, dispatch_find}
use openps3ftp.Commands.Common.{Param, r502}
use openps3ftp.Commands.Registry.{Command}
use openps3ftp.Commands.Run.{run_command}

-- The command's name, in upper case, and what follows it; the number is the room left in `name[8]`.
unfoldable pub take_name : ℕ → Bytes → Bytes × Bytes
unfolding to_upper
take_name zero s = ([], s)
take_name (suc n) [] = ([], [])
take_name (suc n) (c ∷ s) =
    let (name, rest) = take_name n s in if c == b' ' then ([], c ∷ s) else (to_upper c ∷ name, rest)

abbrev pub prelogin_names : List Bytes
prelogin_names =
    codes "USER"
    ∷ codes "PASS"
    ∷ codes "QUIT"
    ∷ codes "HELP"
    ∷ codes "FEAT"
    ∷ codes "SYST"
    ∷ codes "NOOP"
    ∷ codes "OPTS"
    ∷ codes "AUTH"
    ∷ codes "PBSZ"
    ∷ codes "PROT"
    ∷ []

unfoldable pub is_one_of : Bytes → List Bytes → Bool
is_one_of name [] = false
is_one_of name (n ∷ ns) = str_eq n name || is_one_of name ns

unfoldable pub prelogin_command : Bytes → Bool
unfolding is_one_of str_eq
prelogin_command name = is_one_of name prelogin_names

module _ {W : Type 0} (fs : Fs W) (os : Os W) where
  -- a command with its parameter: the gate, and the dispatch
  abbrev pub call_found : Option Command → Param → State W → State W
  call_found none param s = send_reply 502 r502 s
  call_found (some f) param s = run_command fs os f param s

  unfoldable pub process_command : Table Command → Bytes → Bytes → State W → State W
  unfolding prelogin_command dispatch_find
  process_command t name param s =
      if is_nil name
      then s
      else if not s.client.logged_in && not (prelogin_command name)
      then send_reply 530 (codes "Not logged in.") s
      else call_found (dispatch_find name t) (some param) s

  unfoldable pub process_line : Table Command → Bytes → State W → State W
  unfolding take_name skip_spaces process_command
  process_line t line s =
      let (name, rest) = take_name 7 (skip_spaces line) in
      process_command t name (skip_spaces rest) s
