-- ===== src/Commands/Login.antt =====
-- src/commands.c: login, session and parameter commands.
use openps3ftp.Base.{
  Bool, true, ◌&&◌, ◌||◌, Option, none, some, List, [], ◌∷◌, ◌++◌, ◌==◌, if◌then◌else◌, Bytes,
  codes, first_byte, is_nil, drop, snprintf, skip_spaces, starts_with_case, str_case_eq, to_upper,
}
use openps3ftp.Session.{State, line, send, send_reply, on_client, on_server}
use openps3ftp.Commands.Common.{Param, no_arg, text_of, r200, r501, r503, r504}

-- `s->cb.auth ? s->cb.auth(...) : true`
abbrev pub authorised : Option (Bytes → Bytes → Bool) → Bytes → Bytes → Bool
authorised none user pass = true
authorised (some auth) user pass = auth user pass

-- the format control of TYPE A: none, or one of N, T and C
abbrev format_control : Bytes → Bool
format_control rest =
    is_nil rest
    || ((first_byte rest == b'N' || first_byte rest == b'T' || first_byte rest == b'C')
        && is_nil (drop 1 rest))

abbrev pub feat_names : List Bytes
feat_names =
    codes "211-Features:"
    ∷ codes " UTF8"
    ∷ codes " SIZE"
    ∷ codes " MDTM"
    ∷ codes " MLSD"
    ∷ codes " MLST type*;size*;modify*;perm*;"
    ∷ codes " MFMT"
    ∷ codes " REST STREAM"
    ∷ codes " EPSV"
    ∷ codes " EPRT"
    ∷ codes " CPFR"
    ∷ codes " CPTO"
    ∷ []

abbrev pub feat_tls_names : List Bytes
feat_tls_names = codes " AUTH TLS" ∷ codes " PBSZ" ∷ codes " PROT" ∷ []

module _ {W : Type 0} where
  unfoldable pub cmd_user : Param → State W → State W
  unfolding snprintf
  cmd_user param s =
      if no_arg param
      then send_reply 501 r501 s
      else (let user = snprintf 256 (text_of param) in
          send_reply 331
            (snprintf 256 (codes "Username " ++ (user ++ codes " OK. Password required.")))
            (on_client (λ c. record c { user = user }) s))

  unfoldable pub cmd_pass : Param → State W → State W
  unfolding snprintf
  cmd_pass param s =
      if is_nil s.client.user
      then send_reply 503 r503 s
      else if authorised s.server.auth s.client.user (text_of param)
      then send_reply 230
          (snprintf 256 (codes "Successfully logged in as " ++ (s.client.user ++ codes ".")))
          (on_client (λ c. record c { logged_in = true }) s)
      else send_reply 530 (codes "Not logged in.") (on_client (λ c. record c { user = [] }) s)

  unfoldable pub cmd_quit : Param → State W → State W
  cmd_quit param s =
      on_client (λ c. record c { disconnect_requested = true }) (send_reply 221 (codes "Bye.") s)

  unfoldable pub cmd_noop : Param → State W → State W
  cmd_noop param s = send_reply 200 r200 s

  unfoldable pub cmd_syst : Param → State W → State W
  cmd_syst param s = send_reply 215 (codes "UNIX Type: L8") s

  unfoldable pub send_lines : List Bytes → State W → State W
  send_lines [] s = s
  send_lines (l ∷ ls) s = send_lines ls (send (line l) s)

  -- the lines of FEAT before the last, with FTPS and without
  unfoldable pub feat_lines : State W → State W
  unfolding send_lines
  feat_lines s =
      let listed = send_lines feat_names s in
      if s.server.tls then send_lines feat_tls_names listed else listed

  unfoldable pub cmd_feat : Param → State W → State W
  unfolding feat_lines
  cmd_feat param s = send (line (codes "211 End")) (feat_lines s)

  unfoldable pub cmd_help : Param → State W → State W
  cmd_help param s = send_reply 214 (codes "The following commands are recognized.") s

  unfoldable pub cmd_opts : Param → State W → State W
  unfolding starts_with_case skip_spaces str_case_eq
  cmd_opts param s =
      if starts_with_case (codes "UTF8") (text_of param)
        && str_case_eq (skip_spaces (drop 4 (text_of param))) (codes "ON")
      then send_reply 200 r200 s
      else send_reply 501 r501 s

  unfoldable pub cmd_acct : Param → State W → State W
  cmd_acct param s = send_reply 202 (codes "Already logged in.") s

  unfoldable pub cmd_allo : Param → State W → State W
  cmd_allo param s = send_reply 202 (codes "Already logged in.") s

  unfoldable pub cmd_type : Param → State W → State W
  unfolding to_upper skip_spaces
  cmd_type param s =
      let t = to_upper (first_byte (text_of param)) in
      let rest = skip_spaces (drop 1 (text_of param)) in
      if no_arg param
      then send_reply 501 r501 s
      else if t == b'I'
      then (if is_nil rest then send_reply 200 r200 s else send_reply 504 r504 s)
      else if t == b'A'
      then (if format_control rest then send_reply 200 r200 s else send_reply 504 r504 s)
      else send_reply 504 r504 s

  unfoldable pub cmd_mode : Param → State W → State W
  cmd_mode param s =
      if first_byte (text_of param) == b'S' then send_reply 200 r200 s else send_reply 504 r504 s

  unfoldable pub cmd_stru : Param → State W → State W
  cmd_stru param s =
      if first_byte (text_of param) == b'F' then send_reply 200 r200 s else send_reply 504 r504 s

  unfoldable pub cmd_stop : Param → State W → State W
  cmd_stop param s = on_server (λ v. record v { stopping = true }) (send_reply 200 r200 s)
