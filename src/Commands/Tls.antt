-- ===== src/Commands/Tls.antt =====
-- src/commands.c: the commands of FTPS.
use openps3ftp.Base.{Bool, true, false, not, ◌||◌, [], if◌then◌else◌, codes, str_eq, str_case_eq}
use openps3ftp.Session.{State, Os, send_reply, on_client}
use openps3ftp.Commands.Common.{Param, no_arg, text_of, r200, r501, r502, r503, r504}

module _ {W : Type 0} (os : Os W) where
  unfoldable pub tls_created : Bool × W → State W → Bool × State W
  tls_created (true, w) s = (
    true,
    record s { world = w; client = record s.client { tls = true; tls_handshaking = true } },
  )
  tls_created (false, w) s = (false, record s { world = w })

  -- src/client.c: the unread bytes go to the handshake
  unfoldable pub client_start_tls : State W → Bool × State W
  unfolding tls_created
  client_start_tls s =
      if not s.server.tls || s.client.tls || s.client.tls_handshaking
      then (false, s)
      else tls_created (os.tls_session_create s.client.fd s.client.rbuf s.world)
          (on_client (λ c. record c { rbuf = [] }) s)

  abbrev pub auth_started : Bool × State W → State W
  auth_started (true, s) = send_reply 234 (codes "AUTH TLS successful.") s
  auth_started (false, s) =
      on_client (λ c. record c { disconnect_requested = true })
        (send_reply 421 (codes "Closing control connection.") s)

  unfoldable pub cmd_auth : Param → State W → State W
  unfolding str_case_eq client_start_tls
  cmd_auth param s =
      if not (str_case_eq (text_of param) (codes "TLS"))
      then send_reply 504 r504 s
      else if not s.server.tls
      then send_reply 502 r502 s
      else if s.client.tls
      then send_reply 503 r503 s
      else auth_started (client_start_tls s)

module _ {W : Type 0} where
  unfoldable pub cmd_pbsz : Param → State W → State W
  cmd_pbsz param s =
      if not s.client.tls
      then send_reply 503 r503 s
      else if no_arg param
      then send_reply 501 r501 s
      else send_reply 200 r200 s

  unfoldable pub cmd_prot : Param → State W → State W
  unfolding str_eq
  cmd_prot param s =
      if not s.client.tls
      then send_reply 503 r503 s
      else if str_eq (text_of param) (codes "P")
      then send_reply 200 r200 (on_client (λ c. record c { tls_prot = true }) s)
      else if str_eq (text_of param) (codes "C")
      then send_reply 200 r200 (on_client (λ c. record c { tls_prot = false }) s)
      else send_reply 504 r504 s
