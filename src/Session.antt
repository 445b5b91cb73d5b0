-- ===== src/Session.antt =====
-- The state that one command handler sees: src/opftp.h and include/openps3ftp/openps3ftp.h.
-- A handler runs on the reactor thread for one client. `W` is the world behind the file system's
-- operations and the system calls.
use openps3ftp.Base.{
  ℕ, Bool, Option, List, [], ◌∷◌, ◌++◌, Bytes, str_eq, take, snprintf, decimal, crlf,
}
use openps3ftp.Time.{Tm}

pub data Errno : Type 0 where
  enoent enotdir eacces eperm eisdir einval enametoolong eloop ecanceled epipe : Errno
  econnreset etimedout eagain enotsup enomem eio enotconn enospc : Errno
  other : ℕ → Errno

-- 0 with an output, or -1 with an errno
pub data Result {ℓ} (A : Type ℓ) : Type ℓ where
  ok : A → Result A
  err : Errno → Result A

-- A socket address. IPv4 and IPv6 addresses are their 4 and 16 bytes in network order; `unspec` is
-- zeroed storage, whose family is neither.
pub data Addr : Type 0 where
  unspec : Addr
  inet : Bytes → ℕ → Addr
  inet6 : Bytes → ℕ → Addr

-- AF_INET and AF_INET6
pub data Family : Type 0 where
  af_inet af_inet6 : Family

-- opftp_is_v4mapped
unfoldable pub is_v4mapped : Bytes → Bool
is_v4mapped a = str_eq (take 12 a) (0 ∷ 0 ∷ 0 ∷ 0 ∷ 0 ∷ 0 ∷ 0 ∷ 0 ∷ 0 ∷ 0 ∷ 255 ∷ 255 ∷ [])

-- opftp_stat_t; `mode` has 16 bits. The kind of a file is `mode & S_IFMT`.
pub record Stat : Type 0 where
  pub mode : ℕ
  pub size : ℕ
  pub mtime : ℕ  -- seconds since the year 0, see Time
  pub uid : ℕ
  pub gid : ℕ

-- opftp_dirent_t
pub record Dirent : Type 0 where
  pub name : Bytes
  pub mode : ℕ
  pub size : ℕ
  pub mtime : ℕ
  pub uid : ℕ
  pub gid : ℕ

pub data JobOp : Type 0 where
  list stor appe retr copy : JobOp

-- struct opftp_transfer_job: what the reactor fills in before the dispatch, the cancel flag, and the
-- completion fields that the worker posts. A file descriptor of -1 is `none`.
pub record Job : Type 0 where
  pub generation : ℕ
  pub op : JobOp
  pub path : Bytes
  pub dst : Bytes
  pub rest : ℕ
  pub nlst : Bool
  pub mlsd : Bool
  pub cancelled : Bool
  pub cancel_pipe : Option (ℕ × ℕ)
  pub data_fd : Option ℕ
  pub need_tls : Bool
  pub pasv_fd : Option ℕ
  pub data_peer : Addr
  pub have_data_peer : Bool
  pub ctl_peer : Addr
  pub conn_ok : Bool
  pub result : Option Errno  -- `none` is 0
  pub posted : Bool

-- What one call of a sending function writes to the control socket.
pub data Message : Type 0 where
  reply : ℕ → Bytes → Message
  line : Bytes → Message
  raw : Bytes → Message

-- the bytes of a message, after `snprintf` into a buffer of 1024
unfoldable pub wire : Message → Bytes
unfolding snprintf decimal
wire (reply code msg) = snprintf 1024 (decimal code ++ (b' ' ∷ (msg ++ crlf)))
wire (line msg) = snprintf 1024 (msg ++ crlf)
wire (raw s) = s

-- struct opftp_client. A descriptor of -1 is `none`; `rbuf` is the unconsumed part of the read buffer, `job` an index into the
-- server's jobs, and `sent` the messages written so far. A buffer and its `have_` flag are two fields.
pub record Client : Type 0 where
  pub refs : ℕ
  pub generation : ℕ
  pub fd : Option ℕ
  pub peer : Addr
  pub rbuf : Bytes
  pub logged_in : Bool
  pub disconnect_requested : Bool
  pub user : Bytes
  pub cwd : Bytes
  pub job : Option ℕ
  pub abor_pending : Bool
  pub rest : ℕ
  pub rnfr : Bytes
  pub have_rnfr : Bool
  pub cpfr : Bytes
  pub have_cpfr : Bool
  pub tls : Bool
  pub tls_handshaking : Bool
  pub tls_prot : Bool
  pub pasv_fd : Option ℕ
  pub data_peer : Addr
  pub have_data_peer : Bool
  pub sent : List Message

-- struct opftp_server, as far as the handlers read or write it. `fs_root` is the root of the rooted
-- wrapper in use, and `check_realpath` its flag; `queue` holds the jobs that wait for a worker,
-- oldest first, and `jobs` every job allocated.
-- `stou_seq` is the static counter of `cmd_stou`.
pub record Server : Type 0 where
  pub root : Bytes
  pub fs_root : Bytes
  pub check_realpath : Bool
  pub auth : Option (Bytes → Bytes → Bool)
  pub allow_foreign_port : Bool
  pub allow_stop : Bool
  pub tls : Bool
  pub pasv_min : ℕ
  pub pasv_max : ℕ
  pub stopping : Bool
  pub queue : List ℕ
  pub queue_cap : ℕ
  pub jobs : List Job
  pub stou_seq : ℕ

pub record State (W : Type 0) : Type 0 where
  pub server : Server
  pub client : Client
  pub world : W
  pub errno : Errno

-- opftp_fs_t, for the operations that handlers call. A directory handle is a number; `readdir_all` is
-- the entries that `readdir` yields up to its first answer other than 1.
pub record Fs (W : Type 0) : Type 0 where
  pub stat : Bytes → W → Result Stat × W
  pub opendir : Bytes → W → Result ℕ × W
  pub readdir_all : ℕ → W → List Dirent × W
  pub closedir : ℕ → W → W
  pub mkdir : Bytes → ℕ → W → Result (Unit {0}) × W
  pub rmdir : Bytes → W → Result (Unit {0}) × W
  pub unlink : Bytes → W → Result (Unit {0}) × W
  pub rename : Bytes → Bytes → W → Result (Unit {0}) × W
  pub chmod : Bytes → ℕ → W → Result (Unit {0}) × W
  pub utimes : Bytes → ℕ → W → Result (Unit {0}) × W

module _ {W : Type 0} where
  -- An update of the client, of the server.
  abbrev pub on_client : (Client → Client) → State W → State W
  on_client f s = record s { client = f s.client }

  abbrev pub on_server : (Server → Server) → State W → State W
  on_server f s = record s { server = f s.server }

  -- opftp_client_send_reply, opftp_client_send, opftp_client_send_raw
  abbrev pub send : Message → State W → State W
  send m s = on_client (λ c. record c { sent = c.sent ++ m ∷ [] }) s

  abbrev pub send_reply : ℕ → Bytes → State W → State W
  send_reply code msg s = send (reply code msg) s

-- The system calls and C library functions that reach outside the program. A socket that `accept`,
-- `socket` or `pipe` returns is a descriptor; `bind` takes the address family, the port and whether
-- a later `listen` follows it. `realpath`, `inet_pton` and `localtime` read their surroundings only.
pub record Os (W : Type 0) : Type 0 where
  pub pipe : W → Option (ℕ × ℕ) × W
  pub write_pipe : ℕ → W → W
  pub close : ℕ → W → W
  pub socket : Family → W → Result ℕ × W
  pub bind : ℕ → Family → ℕ → W → Result (Unit {0}) × W
  pub listen : ℕ → W → Result (Unit {0}) × W
  pub getsockname : Option ℕ → W → Addr
  pub realpath : Bytes → W → Result Bytes
  pub inet_pton : Family → Bytes → Option Bytes
  pub tls_session_create : Option ℕ → Bytes → W → Bool × W
  pub time : W → ℕ
  pub localtime : ℕ → Option Tm
