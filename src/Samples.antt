-- ===== src/Samples.antt =====
-- The theorems on sample values: a server with one client that has sent PORT, over a file system that
-- has one directory, /d.
pub mod Witnesses
pub mod Control
pub mod Pool
pub mod Worker
pub mod Connect
pub mod Copy
pub mod Memory
pub mod Run
use openps3ftp.Base.{
  ℕ, suc, Bool, true, false, Option, none, some, List, [], ◌∷◌, ◌++◌, Bytes, codes, str_eq,
  if◌then◌else◌,
}
use openps3ftp.Stream.{Net, again, end, finished}
use openps3ftp.Session.{
  unspec, Job, JobOp, enoent, eio, ok, err, inet, Stat, Client, Server, State, Fs, Os,
}

-- the world is the next descriptor
abbrev pub World : Type 0
World = ℕ

abbrev pub directory : Stat
directory = record { mode = 16877; size = 0; mtime = 0; uid = 0; gid = 0 }

abbrev pub sample_fs : Fs World
sample_fs = record {
  stat = λ path w. (if str_eq path (codes "/d") then ok directory else err enoent, w);
  opendir = λ path w. (ok w, suc w);
  readdir_all = λ dir w. ([], w);
  closedir = λ dir w. w;
  mkdir = λ path mode w. (ok tt, w);
  rmdir = λ path w. (ok tt, w);
  unlink = λ path w. (ok tt, w);
  rename = λ a b w. (ok tt, w);
  chmod = λ path mode w. (ok tt, w);
  utimes = λ path t w. (ok tt, w);
}

-- a file system on which nothing succeeds
abbrev pub broken_fs : Fs World
broken_fs = record {
  stat = λ path w. (err eio, w);
  opendir = λ path w. (err eio, w);
  readdir_all = λ dir w. ([], w);
  closedir = λ dir w. w;
  mkdir = λ path mode w. (err eio, w);
  rmdir = λ path w. (err eio, w);
  unlink = λ path w. (err eio, w);
  rename = λ a b w. (err eio, w);
  chmod = λ path mode w. (err eio, w);
  utimes = λ path t w. (err eio, w);
}

abbrev pub sample_os : Os World
sample_os = record {
  pipe = λ w. (some (w, suc w), suc (suc w));
  write_pipe = λ fd w. w;
  close = λ fd w. w;
  socket = λ fam w. (ok w, suc w);
  bind = λ fd fam port w. (ok tt, w);
  listen = λ fd w. (ok tt, w);
  getsockname = λ fd w. inet (10 ∷ 0 ∷ 0 ∷ 1 ∷ []) 2121;
  realpath = λ path w. err enoent;
  inet_pton = λ fam text. none;
  tls_session_create = λ fd early w. (false, w);
  time = λ w. w;
  localtime = λ t. none;
}

abbrev pub sample_client : Client
sample_client = record {
  refs = 1;
  generation = 7;
  fd = some 5;
  peer = inet (10 ∷ 0 ∷ 0 ∷ 2 ∷ []) 40000;
  rbuf = [];
  logged_in = false;
  disconnect_requested = false;
  user = codes "ps3";
  cwd = codes "/d";
  job = none;
  abor_pending = false;
  rest = 100;
  rnfr = codes "/d/a";
  have_rnfr = true;
  cpfr = [];
  have_cpfr = false;
  tls = false;
  tls_handshaking = false;
  tls_prot = false;
  pasv_fd = none;
  data_peer = inet (10 ∷ 0 ∷ 0 ∷ 2 ∷ []) 40001;
  have_data_peer = true;
  sent = [];
}

abbrev pub sample_server : Server
sample_server = record {
  root = codes "/";
  fs_root = codes "/";
  check_realpath = false;
  auth = some (λ user pass. str_eq pass (codes "secret"));
  allow_foreign_port = false;
  allow_stop = false;
  tls = false;
  pasv_min = 0;
  pasv_max = 0;
  stopping = false;
  queue = [];
  queue_cap = 16;
  jobs = [];
  stou_seq = 0;
}

abbrev pub sample : State World
sample = record { server = sample_server; client = sample_client; world = 10; errno = eio }

-- after CPFR of /d/a
abbrev pub copying : State World
copying = record sample { client = record sample_client { cpfr = codes "/d/a"; have_cpfr = true } }

-- with a transfer under way
abbrev pub transferring : State World
transferring = record sample {
  client = record sample_client {
    logged_in = true;
    refs = 2;
    job = some 0;
    have_data_peer = false;
  };
}

-- a transfer that reached its data connection
abbrev pub sample_job : Job
sample_job = record {
  generation = 7;
  op = JobOp.retr;
  path = codes "/d/a";
  dst = [];
  rest = 0;
  nlst = false;
  mlsd = false;
  cancelled = false;
  cancel_pipe = some (20, 21);
  data_fd = some 22;
  need_tls = false;
  pasv_fd = none;
  data_peer = unspec;
  have_data_peer = false;
  ctl_peer = unspec;
  conn_ok = true;
  result = none;
  posted = true;
}

-- the reactor with that transfer under way
abbrev pub busy : State World
busy = record transferring { server = record sample_server { jobs = sample_job ∷ [] } }

-- a socket from which nothing arrives
abbrev pub sample_net : Net World
sample_net = record {
  recv = λ fd room w. (again, w);
  tls_read = λ room w. (end, w);
  tls_handshake = λ w. (finished, w);
  tls_session_free = λ w. w;
  disconnected = λ w. w;
}

-- after a line has arrived
abbrev pub with_line : State World
with_line = record sample {
  client = record sample_client { rbuf = codes "NOOP" ++ b'\r' ∷ b'\n' ∷ [] };
}
