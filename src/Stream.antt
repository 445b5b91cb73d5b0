-- ===== src/Stream.antt =====
-- src/client.c: the read buffer of the control connection and its lines, and the references to a client.
pub mod Lines
use openps3ftp.Base.{
  ℕ, zero, suc, ◌-◌, Bool, true, false, not, ◌&&◌, Option, none, some, List, [], ◌∷◌, ◌++◌, ◌==◌,
  leb, length, take, if◌then◌else◌, Bytes, c_string, ◌>>=◌,
}
use openps3ftp.Session.{State, Os, on_client}
use openps3ftp.Commands.Common.{close_fd}

-- OPFTP_RBUF, and the size of the reactor's line buffer
abbrev pub rbuf_size : ℕ
rbuf_size = 4096

abbrev pub line_size : ℕ
line_size = 1024

-- What `recv` and `opftp_tls_read` return: bytes, 0, "not now" (EAGAIN, EWOULDBLOCK, WANT_READ, WANT_WRITE), or another error.
pub data Received : Type 0 where
  chunk : Bytes → Received
  end again failed : Received

-- opftp_tls_handshake
pub data Handshake : Type 0 where
  finished want_read want_write broken : Handshake

-- The socket calls of the reactor, over the TLS layer: what is read from a descriptor into so much room, the handshake,
-- the end of a session, and the callback for a disconnection.
pub record Net (W : Type 0) : Type 0 where
  pub recv : Option ℕ → ℕ → W → Received × W
  pub tls_read : ℕ → W → Received × W
  pub tls_handshake : W → Handshake × W
  pub tls_session_free : W → W
  pub disconnected : W → W

-- the bytes before the first '\n', and those behind it
unfoldable pub split_line : Bytes → Option (Bytes × Bytes)
split_line [] = none
split_line (c ∷ s) =
    let rest = split_line s in
    if c == b'\n' then some ([], s) else elim rest [ none ↦ none | some r ↦ some (c ∷ r.0, r.1) ]

-- a '\r' in front of the '\n' is not part of the line
unfoldable pub strip_cr : Bytes → Bytes
strip_cr [] = []
strip_cr (c ∷ []) = if c == b'\r' then [] else c ∷ []
strip_cr (c ∷ d ∷ s) = c ∷ strip_cr (d ∷ s)

-- opftp_client_getline: the line as the C string in a buffer of `size` bytes, and the bytes left
unfoldable pub client_getline : ℕ → Bytes → Option (Bytes × Bytes)
unfolding split_line strip_cr c_string
client_getline size buf =
    split_line buf >>= λ r. some (c_string (take (size - 1) (strip_cr r.0)), r.1)

-- opftp_client_read: a positive number, 0, -2 or -1
pub data ReadResult : Type 0 where
  got eof not_yet unreadable : ReadResult

module _ {W : Type 0} (net : Net W) where
  unfoldable pub read_into : Received × W → State W → ReadResult × State W
  read_into (chunk b, w) s =
      (got, record s { world = w; client = record s.client { rbuf = s.client.rbuf ++ b } })
  read_into (end, w) s = (eof, record s { world = w })
  read_into (again, w) s = (not_yet, record s { world = w })
  read_into (failed, w) s = (unreadable, record s { world = w })

  unfoldable pub client_read : State W → ReadResult × State W
  unfolding read_into
  client_read s =
      let room = rbuf_size - length s.client.rbuf in
      if leb rbuf_size (length s.client.rbuf)
      then (unreadable, s)
      else if s.client.tls && not s.client.tls_handshaking
      then read_into (net.tls_read room s.world) s
      else read_into (net.recv s.client.fd room s.world) s

-- Every line of a buffer in turn, and the bytes left: the calls of `opftp_client_getline` until it fails.
unfoldable pub get_lines : ℕ → ℕ → Bytes → List Bytes × Bytes
unfolding client_getline
get_lines zero size buf = ([], buf)
get_lines (suc fuel) size buf = elim (client_getline size buf) [
  | none ↦ ([], buf)
  | some r ↦ let later = get_lines fuel size r.1 in (r.0 ∷ later.0, later.1)
]

module _ {W : Type 0} (os : Os W) where
  -- opftp_client_release: the last reference closes the descriptor and frees the client
  unfoldable pub client_release : State W → State W
  client_release s =
      let left = on_client (λ c. record c { refs = c.refs - 1 }) s in
      if s.client.refs == 1 then close_fd os s.client.fd left else left
