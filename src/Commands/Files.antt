-- ===== src/Commands/Files.antt =====
-- src/commands.c: the commands on paths.
use openps3ftp.Base.{
  ℕ, ◌+◌, Bool, true, false, not, ◌||◌, Option, none, some, [], ◌∷◌, ◌++◌, ltb, if◌then◌else◌,
  Bytes, codes, length, drop, snprintf, str_eq,
}
use openps3ftp.Session.{Result, ok, err, Stat, State, Fs, Os, send_reply, on_client, JobOp}
use openps3ftp.Path.{max_path}
use openps3ftp.Rooted.{r_stat, r_mkdir, r_rmdir, r_unlink, r_rename}
use openps3ftp.Listing.{is_dir, is_reg}
use openps3ftp.Commands.Common.{
  Param, no_arg, r250, r450, r451, r501, r503, reply_fs_error, resolve_arg, parent_is_dir,
  path_is_under, job_new, job_free, job_dispatch, on_job, is_some,
}

module _ {W : Type 0} where
  unfoldable pub cmd_pwd : Param → State W → State W
  unfolding snprintf
  cmd_pwd param s = send_reply 257 (snprintf (max_path + 16) (b'"' ∷ (s.client.cwd ++ b'"' ∷ []))) s

-- the path that the client sees: without the root
unfoldable pub visible : Bytes → Bytes → Bytes
unfolding str_eq snprintf
visible root path =
    if str_eq path root
    then codes "/"
    else snprintf max_path (if ltb 1 (length root) then drop (length root) path else path)

module _ {W : Type 0} (fs : Fs W) (os : Os W) where
  unfoldable pub change_dir : Bytes → Result Stat × State W → State W
  unfolding visible
  change_dir path (ok st, s) =
      if is_dir st.mode
      then send_reply 250 r250 (on_client (λ c. record c { cwd = visible s.server.root path }) s)
      else reply_fs_error s
  change_dir path (err e, s) = reply_fs_error s

  unfoldable pub cmd_cwd : Param → State W → State W
  unfolding resolve_arg change_dir
  cmd_cwd param s = elim (resolve_arg param s) [
    | none ↦ send_reply 501 r501 s
    | some path ↦ change_dir path (r_stat fs os path s)
  ]

  unfoldable pub cmd_cdup : Param → State W → State W
  unfolding cmd_cwd
  cmd_cdup param s = cmd_cwd (some (codes "..")) s

  -- the reply to an operation that either succeeded or set errno
  abbrev pub finish : ℕ → Bytes → Result (Unit {0}) × State W → State W
  finish code msg (ok u, s) = send_reply code msg s
  finish code msg (err e, s) = reply_fs_error s

  unfoldable pub make_dir : Bytes → Bool × State W → State W
  unfolding snprintf
  make_dir path (true, s) =
      finish 257 (snprintf (max_path + 16) (b'"' ∷ (path ++ b'"' ∷ []))) (r_mkdir fs os path 493 s)
  make_dir path (false, s) = reply_fs_error s

  unfoldable pub cmd_mkd : Param → State W → State W
  unfolding resolve_arg parent_is_dir make_dir
  cmd_mkd param s = if no_arg param then send_reply 501 r501 s else elim (resolve_arg param s) [
    | none ↦ reply_fs_error s
    | some path ↦ make_dir path (parent_is_dir fs os path s)
  ]

  unfoldable pub cmd_rmd : Param → State W → State W
  unfolding resolve_arg
  cmd_rmd param s = elim (resolve_arg param s) [
    | none ↦ send_reply 501 r501 s
    | some path ↦ finish 250 r250 (r_rmdir fs os path s)
  ]

  unfoldable pub cmd_dele : Param → State W → State W
  unfolding resolve_arg
  cmd_dele param s = elim (resolve_arg param s) [
    | none ↦ send_reply 501 r501 s
    | some path ↦ finish 250 r250 (r_unlink fs os path s)
  ]

  unfoldable pub rename_from : Bytes → Result Stat × State W → State W
  unfolding snprintf
  rename_from path (ok st, s) =
      send_reply 350 (codes "Ready for next command.")
        (on_client (λ c. record c { rnfr = snprintf max_path path; have_rnfr = true }) s)
  rename_from path (err e, s) = reply_fs_error s

  unfoldable pub cmd_rnfr : Param → State W → State W
  unfolding resolve_arg rename_from
  cmd_rnfr param s = elim (resolve_arg param s) [
    | none ↦ send_reply 501 r501 s
    | some path ↦ rename_from path (r_stat fs os path s)
  ]

  abbrev pub forget_rnfr : State W → State W
  forget_rnfr s = on_client (λ c. record c { have_rnfr = false }) s

  unfoldable pub rename_to : Bytes → Bool × State W → State W
  unfolding r_rename
  rename_to path (true, s) = finish 250 r250 (r_rename fs os s.client.rnfr path (forget_rnfr s))
  rename_to path (false, s) = reply_fs_error (forget_rnfr s)

  unfoldable pub cmd_rnto : Param → State W → State W
  unfolding resolve_arg parent_is_dir rename_to
  cmd_rnto param s =
      if not s.client.have_rnfr then send_reply 503 r503 s else elim (resolve_arg param s) [
        | none ↦ reply_fs_error (forget_rnfr s)
        | some path ↦ rename_to path (parent_is_dir fs os path s)
      ]

  unfoldable pub copy_from : Bytes → Result Stat × State W → State W
  unfolding snprintf
  copy_from path (ok st, s) =
      if is_reg st.mode || is_dir st.mode
      then send_reply 350
          (if is_dir st.mode
            then codes "Directory exists, ready for destination name."
            else codes "File exists, ready for destination name.")
          (on_client (λ c. record c { cpfr = snprintf max_path path; have_cpfr = true }) s)
      else reply_fs_error s
  copy_from path (err e, s) = reply_fs_error s

  unfoldable pub cmd_cpfr : Param → State W → State W
  unfolding resolve_arg copy_from
  cmd_cpfr param s = elim (resolve_arg param s) [
    | none ↦ send_reply 501 r501 s
    | some path ↦ copy_from path (r_stat fs os path s)
  ]

  abbrev pub forget_cpfr : State W → State W
  forget_cpfr s = on_client (λ c. record c { have_cpfr = false }) s

  -- after `opftp_job_dispatch`
  abbrev pub copy_sent : ℕ → Bool × State W → State W
  copy_sent i (true, s) = on_client (λ c. record c { job = some i }) s
  copy_sent i (false, s) = send_reply 451 r451 (job_free os i s)

  abbrev pub copy_job : Bytes → Option ℕ × State W → State W
  copy_job path (none, s) = send_reply 451 r451 s
  copy_job path (some i, s) = copy_sent i (
      job_dispatch i (
        on_job i
          (λ j. record j { path = snprintf max_path s.client.cpfr; dst = snprintf max_path path })
          s))

  unfoldable pub copy_to : Bytes → Bool × State W → State W
  unfolding path_is_under job_new job_free job_dispatch snprintf str_eq
  copy_to path (true, s) =
      if str_eq s.client.cpfr path
      then send_reply 550 (codes "Source and destination are the same file.") (forget_cpfr s)
      else if path_is_under path s.client.cpfr
      then send_reply 550 (codes "Destination is inside the source directory.") (forget_cpfr s)
      else copy_job path (job_new os JobOp.copy (forget_cpfr s))
  copy_to path (false, s) = reply_fs_error (forget_cpfr s)

  unfoldable pub cmd_cpto : Param → State W → State W
  unfolding resolve_arg parent_is_dir copy_to
  cmd_cpto param s =
      if not s.client.have_cpfr
      then send_reply 503 r503 s
      else if is_some s.client.job
      then send_reply 450 r450 s
      else elim (resolve_arg param s) [
        | none ↦ reply_fs_error (forget_cpfr s)
        | some path ↦ copy_to path (parent_is_dir fs os path s)
      ]
