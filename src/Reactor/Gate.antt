-- ===== src/Reactor/Gate.antt =====
-- src/server.c: what a client can do before it has logged in.
use openps3ftp.Base.{
  ◌≡◌, refl, sym, ◌∙◌, subst, Bool, true, false, some, List, [], ◌∷◌, Bytes, codes, All, Bool-cases,
  inl, inr, str_eq, str_eq_iff, skip_spaces, is_nil, arith,
}
use openps3ftp.Session.{State, Fs, Os, send_reply}
use openps3ftp.Dispatch.{dispatch_find, dispatch_init}
use openps3ftp.Commands.Common.{Param}
use openps3ftp.Commands.Run.{run_command}
use openps3ftp.Commands.Registry.{
  Command, commands_init, user, pass, quit, help, feat, syst, noop, opts, auth, pbsz, prot,
}
use openps3ftp.Commands.Found.{command_table}
use openps3ftp.Reactor.{
  take_name, prelogin_names, is_one_of, prelogin_command, process_command, process_line,
}

pub is_one_of-All {ℓ} :
    (P : Bytes → Type ℓ) (name : Bytes) (ns : List Bytes)
    → All P ns
    → is_one_of name ns ≡ true
    → P name
unfolding is_one_of
is_one_of-All P name [] h e = absurd cc
is_one_of-All P name (n ∷ ns) (h, hs) e = elim (Bool-cases (str_eq n name)) [
  | inl same ↦ subst P ((str_eq_iff n name).0 same) h
  | inr differ ↦ is_one_of-All P name ns hs (ground arith)
]

-- a name is looked up as one of these
pub data IsOpen : Bytes → Command → Type 0 where
  open_user : IsOpen (codes "USER") user
  open_pass : IsOpen (codes "PASS") pass
  open_quit : IsOpen (codes "QUIT") quit
  open_help : IsOpen (codes "HELP") help
  open_feat : IsOpen (codes "FEAT") feat
  open_syst : IsOpen (codes "SYST") syst
  open_noop : IsOpen (codes "NOOP") noop
  open_opts : IsOpen (codes "OPTS") opts
  open_auth : IsOpen (codes "AUTH") auth
  open_pbsz : IsOpen (codes "PBSZ") pbsz
  open_prot : IsOpen (codes "PROT") prot

-- what a look-up of an allowed name finds
abbrev pub Opens : Bytes → Type 0
Opens name =
    (allow : Bool)
    → (f : Command) × IsOpen name f × (dispatch_find name (command_table allow) ≡ some f)

IsOpen-Opens :
    {name : Bytes} {f : Command}
    → IsOpen name f
    → dispatch_find name (command_table true) ≡ some f
    → dispatch_find name (command_table false) ≡ some f
    → Opens name
IsOpen-Opens {f = f} o with_stop without true = (f, o, with_stop)
IsOpen-Opens {f = f} o with_stop without false = (f, o, without)

pub Opens-All : All Opens prelogin_names
unfolding commands_init dispatch_find dispatch_init str_eq
Opens-All = (
  IsOpen-Opens open_user refl refl,
  (
    IsOpen-Opens open_pass refl refl,
    (
      IsOpen-Opens open_quit refl refl,
      (
        IsOpen-Opens open_help refl refl,
        (
          IsOpen-Opens open_feat refl refl,
          (
            IsOpen-Opens open_syst refl refl,
            (
              IsOpen-Opens open_noop refl refl,
              (
                IsOpen-Opens open_opts refl refl,
                (
                  IsOpen-Opens open_auth refl refl,
                  (IsOpen-Opens open_pbsz refl refl, (IsOpen-Opens open_prot refl refl, tt)),
                ),
              ),
            ),
          ),
        ),
      ),
    ),
  ),
)

module _ {W : Type 0} (os : Os W) where
  same_run :
      (fs fs' : Fs W) {name : Bytes} {f : Command} (o : IsOpen name f) (param : Param) (s : State W)
      → run_command fs os f param s ≡ run_command fs' os f param s
  unfolding run_command
  same_run fs fs' open_user param s = refl
  same_run fs fs' open_pass param s = refl
  same_run fs fs' open_quit param s = refl
  same_run fs fs' open_help param s = refl
  same_run fs fs' open_feat param s = refl
  same_run fs fs' open_syst param s = refl
  same_run fs fs' open_noop param s = refl
  same_run fs fs' open_opts param s = refl
  same_run fs fs' open_auth param s = refl
  same_run fs fs' open_pbsz param s = refl
  same_run fs fs' open_prot param s = refl

  pub process_empty :
      (fs : Fs W) (allow : Bool) (name param : Bytes) (s : State W)
      → is_nil name ≡ true
      → process_command fs os (command_table allow) name param s ≡ s
  unfolding process_command
  process_empty fs allow name param s empty = rw empty refl

  pub process_closed :
      (fs : Fs W) (allow : Bool) (name param : Bytes) (s : State W)
      → is_nil name ≡ false
      → s.client.logged_in ≡ false
      → prelogin_command name ≡ false
      → process_command fs os (command_table allow) name param s
        ≡ send_reply 530 (codes "Not logged in.") s
  unfolding process_command
  process_closed fs allow name param s named out closed = rw (named, out, closed) refl

  pub process_open :
      (fs : Fs W) (allow : Bool) (name param : Bytes) (f : Command) (s : State W)
      → is_nil name ≡ false
      → prelogin_command name ≡ true
      → dispatch_find name (command_table allow) ≡ some f
      → process_command fs os (command_table allow) name param s
        ≡ run_command fs os f (some param) s
  unfolding process_command
  process_open fs allow name param f s named allowed found = elim (Bool-cases s.client.logged_in) [
    | inl h ↦ rw (named, h, found) refl
    | inr h ↦ rw (named, h, allowed, found) refl
  ]

  -- With the commands that opftp_commands_init registers, before the login, a line is answered without the file system: with any other file system
  -- behind it the server ends in the same state.
  pub process_line-same_fs :
      (fs fs' : Fs W) (allow : Bool) (text : Bytes) (s : State W)
      → s.client.logged_in ≡ false
      → process_line fs os (command_table allow) text s
        ≡ process_line fs' os (command_table allow) text s
  unfolding process_line
  process_line-same_fs fs fs' allow text s out =
      let (name, rest) = take_name 7 (skip_spaces text) in
      let param = skip_spaces rest in
      elim (Bool-cases (is_nil name)) [
        | inl empty ↦
            process_empty fs allow name param s empty
            ∙ sym (process_empty fs' allow name param s empty)
        | inr named ↦ elim (Bool-cases (prelogin_command name)) [
          | inr closed ↦
              process_closed fs allow name param s named out closed
              ∙ sym (process_closed fs' allow name param s named out closed)
          | inl allowed ↦
              let (f, o, found) =
                is_one_of-All Opens name prelogin_names Opens-All
                  (unfold prelogin_command in allowed) allow in
              process_open fs allow name param f s named allowed found
              ∙ same_run fs fs' o (some param) s
              ∙ sym (process_open fs' allow name param f s named allowed found)
        ]
      ]
