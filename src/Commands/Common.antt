-- ===== src/Commands/Common.antt =====
-- The helpers at the top of src/commands.c, and the reply texts of src/opftp.h.
use openps3ftp.Base.{
  ℕ, zero, suc, ◌+◌, ◌-◌, Bool, true, false, not, ◌&&◌, Option, none, some, List, [], ◌∷◌, ◌++◌,
  leb, ◌==◌, if◌then◌else◌, Bytes, codes, length, get_elem?, first_byte, is_nil, starts_with, drop,
  ◌>>=◌,
}
use openps3ftp.Session.{
  Errno, enoent, enotdir, eacces, eperm, eisdir, Result, ok, err, unspec, Stat, Job, JobOp, State,
  Fs, Os, send_reply, on_client, on_server,
}
use openps3ftp.Path.{max_path, path_resolve, path_parent}
use openps3ftp.Rooted.{r_stat}
use openps3ftp.Listing.{is_dir}

abbrev pub r501 : Bytes
r501 = codes "Bad command syntax."

abbrev pub r502 : Bytes
r502 = codes "Command not implemented."

abbrev pub r503 : Bytes
r503 = codes "Bad command usage."

abbrev pub r504 : Bytes
r504 = codes "Parameter not accepted."

abbrev pub r200 : Bytes
r200 = codes "OK."

abbrev pub r250 : Bytes
r250 = codes "File operation successful."

abbrev pub r425 : Bytes
r425 = codes "Cannot open data connection."

abbrev pub r450 : Bytes
r450 = codes "Another data transfer is already in progress."

abbrev pub r451 : Bytes
r451 = codes "Data transfer error (network)."

abbrev pub r550 : Bytes
r550 = codes "Cannot access specified file or directory."

-- A `const char*` parameter; `none` is NULL.
abbrev pub Param : Type 0
Param = Option Bytes

-- `!param || !param[0]`
abbrev pub no_arg : Param → Bool
no_arg none = true
no_arg (some s) = is_nil s

-- the string, with NULL read as the empty one
abbrev pub text_of : Param → Bytes
text_of none = []
text_of (some s) = s

abbrev pub is_none {ℓ} : {A : Type ℓ} → Option A → Bool
is_none none = true
is_none (some a) = false

abbrev pub is_some {ℓ} : {A : Type ℓ} → Option A → Bool
is_some o = not (is_none o)

unfoldable pub fs_error_text : Errno → Bytes
fs_error_text enoent = codes "No such file or directory."
fs_error_text enotdir = codes "No such file or directory."
fs_error_text eacces = codes "Permission denied."
fs_error_text eperm = codes "Permission denied."
fs_error_text eisdir = codes "Is a directory."
fs_error_text _ = r550

-- opftp_path_is_under
unfoldable pub path_is_under : Bytes → Bytes → Bool
path_is_under path dir =
    if length dir == 1 && first_byte dir == b'/'
    then first_byte path == b'/' && not (is_nil (drop 1 path))
    else starts_with dir path && first_byte (drop (length dir) path) == b'/'

-- the job at an index, changed
abbrev pub update_nth : ℕ → (Job → Job) → List Job → List Job
update_nth n f [] = []
update_nth zero f (j ∷ js) = f j ∷ js
update_nth (suc n) f (j ∷ js) = j ∷ update_nth n f js

module _ {W : Type 0} where
  abbrev pub reply_fs_error : State W → State W
  reply_fs_error s = send_reply 550 (fs_error_text s.errno) s

  unfoldable pub resolve_arg : Param → State W → Option Bytes
  resolve_arg param s =
      let arg = if no_arg param then s.client.cwd else text_of param in
      path_resolve s.server.root s.client.cwd arg max_path >>= λ out. some out.0

  abbrev pub is_dir_result : Result Stat × State W → Bool × State W
  is_dir_result (ok st, s) = (is_dir st.mode, s)
  is_dir_result (err e, s) = (false, s)

  unfoldable pub parent_is_dir : Fs W → Os W → Bytes → State W → Bool × State W
  parent_is_dir fs os path s = elim (path_parent path max_path) [
    | none ↦ (false, s)
    | some parent ↦ if is_nil parent then (true, s) else is_dir_result (r_stat fs os parent s)
  ]

  -- `calloc` of a job and its pipe. `some` is the index of the job in `jobs`; memory does not run out,
  -- so `none` is a failed `pipe`.
  abbrev pub blank_job : State W → JobOp → ℕ × ℕ → Job
  blank_job s op pipe = record {
    generation = s.client.generation;
    op = op;
    path = [];
    dst = [];
    rest = 0;
    nlst = false;
    mlsd = false;
    cancelled = false;
    cancel_pipe = some pipe;
    data_fd = none;
    need_tls = false;
    pasv_fd = none;
    data_peer = unspec;
    have_data_peer = false;
    ctl_peer = unspec;
    conn_ok = false;
    result = none;
    posted = false;
  }

  abbrev pub new_job : JobOp → Option (ℕ × ℕ) × W → State W → Option ℕ × State W
  new_job op (none, w) s = (none, record s { world = w })
  new_job op (some pipe, w) s = (
    some (length s.server.jobs),
    record s {
      world = w;
      client = record s.client { refs = s.client.refs + 1 };
      server = record s.server { jobs = s.server.jobs ++ blank_job s op pipe ∷ [] };
    },
  )

  unfoldable pub job_new : Os W → JobOp → State W → Option ℕ × State W
  job_new os op s = new_job op (os.pipe s.world) s

  abbrev pub on_job : ℕ → (Job → Job) → State W → State W
  on_job i f = on_server (λ v. record v { jobs = update_nth i f v.jobs })

  abbrev pub close_fd : Os W → Option ℕ → State W → State W
  close_fd os none s = s
  close_fd os (some fd) s = record s { world = os.close fd s.world }

  abbrev pub close_pipe : Os W → Option (ℕ × ℕ) → State W → State W
  close_pipe os none s = s
  close_pipe os (some (a, b)) s = record s { world = os.close b (os.close a s.world) }

  abbrev pub free_job : Os W → Option Job → State W → State W
  free_job os none s = s
  free_job os (some j) s =
      on_client (λ c. record c { refs = c.refs - 1 })
        (close_fd os j.pasv_fd (close_pipe os j.cancel_pipe s))

  -- The job is not referred to again, and stays in `jobs` as freed memory.
  unfoldable pub job_free : Os W → ℕ → State W → State W
  job_free os i s = free_job os (get_elem? s.server.jobs i) s

  -- opftp_job_dispatch of src/datachan.c; `false` is its -EAGAIN
  unfoldable pub job_dispatch : ℕ → State W → Bool × State W
  job_dispatch i s =
      if leb s.server.queue_cap (length s.server.queue)
      then (false, s)
      else (true, on_server (λ v. record v { queue = v.queue ++ i ∷ [] }) s)
