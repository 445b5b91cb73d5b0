-- ===== src/Commands/Stats.antt =====
-- src/commands.c: the commands on sizes, times and listings of single files.
use openps3ftp.Base.{
  ℕ, ◌+◌, not, ◌||◌, Option, none, some, List, [], ◌∷◌, ◌++◌, ltb, ◌==◌, if◌then◌else◌, Bytes,
  codes, length, first_byte, is_nil, drop, snprintf, skip_spaces, decimal,
}
use openps3ftp.Session.{
  Result, ok, err, Stat, Dirent, State, Fs, Os, line, raw, send, send_reply, on_client,
}
use openps3ftp.Path.{max_path}
use openps3ftp.Scan.{Scanned, scan_number, to_ull}
use openps3ftp.Time.{parse_ftp_time, gmtime, format_time}
use openps3ftp.Rooted.{r_stat, r_opendir}
use openps3ftp.Listing.{is_dir, is_reg, listing_format, listing_format_mlsd, file_entry}
use openps3ftp.Commands.Common.{Param, no_arg, text_of, r501, reply_fs_error, resolve_arg}
use openps3ftp.Commands.Site.{set_time}

module _ {W : Type 0} (fs : Fs W) (os : Os W) where
  unfoldable pub reply_size : Result Stat × State W → State W
  unfolding decimal
  reply_size (ok st, s) =
      if is_reg st.mode then send_reply 213 (decimal st.size) s else reply_fs_error s
  reply_size (err e, s) = reply_fs_error s

  unfoldable pub cmd_size : Param → State W → State W
  unfolding resolve_arg reply_size
  cmd_size param s = elim (resolve_arg param s) [
    | none ↦ send_reply 501 r501 s
    | some path ↦ reply_size (r_stat fs os path s)
  ]

  unfoldable pub reply_mdtm : Result Stat × State W → State W
  unfolding gmtime format_time snprintf
  reply_mdtm (ok st, s) = elim (gmtime st.mtime) [
    | none ↦ reply_fs_error s
    | some tm ↦ send_reply 213 (snprintf 64 (format_time tm)) s
  ]
  reply_mdtm (err e, s) = reply_fs_error s

  unfoldable pub cmd_mdtm : Param → State W → State W
  unfolding resolve_arg reply_mdtm
  cmd_mdtm param s = elim (resolve_arg param s) [
    | none ↦ send_reply 501 r501 s
    | some path ↦ reply_mdtm (r_stat fs os path s)
  ]

  -- STAT of a directory: a line for each entry
  unfoldable pub send_listing : List Dirent → State W → State W
  unfolding listing_format
  send_listing [] s = s
  send_listing (de ∷ des) s = send_listing des (send (raw (listing_format os.localtime 1024 de)) s)

  unfoldable pub list_dir : Result ℕ × State W → State W
  unfolding send_listing
  list_dir (ok dir, s) =
      let (des, w) = fs.readdir_all dir s.world in
      send_listing des (record s { world = fs.closedir dir w })
  list_dir (err e, s) = s

  unfoldable pub stat_path : Bytes → Result Stat × State W → State W
  unfolding list_dir listing_format file_entry snprintf
  stat_path path (ok st, s) =
      let s' = send (line (snprintf 1024 (codes "211-Status of " ++ (path ++ codes ":")))) s in
      send (line (codes "211 End")) (
        if is_dir st.mode
        then list_dir (r_opendir fs os path s')
        else send (raw (listing_format os.localtime 1024 (file_entry path st))) s')
  stat_path path (err e, s) = reply_fs_error s

  unfoldable pub cmd_stat : Param → State W → State W
  unfolding resolve_arg stat_path snprintf
  cmd_stat param s =
      if no_arg param
      then send (line (codes "211 End")) (
          send
            (line (snprintf (max_path + 64) (codes "211-Status of server: cwd=" ++ s.client.cwd)))
            s)
      else elim (resolve_arg param s) [
        | none ↦ send_reply 501 r501 s
        | some path ↦ stat_path path (r_stat fs os path s)
      ]

  unfoldable pub reply_mlst : Bytes → Result Stat × State W → State W
  unfolding listing_format_mlsd file_entry snprintf
  reply_mlst path (ok st, s) =
      let entry = listing_format_mlsd 1024 (file_entry path st) in
      send_reply 250 (codes "End")
        (send (raw (snprintf 1025 (b' ' ∷ entry))) (send (line (codes "250-Start of list")) s))
  reply_mlst path (err e, s) = reply_fs_error s

  unfoldable pub cmd_mlst : Param → State W → State W
  unfolding resolve_arg reply_mlst
  cmd_mlst param s = if no_arg param then send_reply 501 r501 s else elim (resolve_arg param s) [
    | none ↦ send_reply 501 r501 s
    | some path ↦ reply_mlst path (r_stat fs os path s)
  ]

  unfoldable pub reply_mfmt : ℕ → Result (Unit {0}) × State W → State W
  unfolding gmtime format_time snprintf
  reply_mfmt t (ok u, s) = elim (gmtime t) [
    | none ↦ reply_fs_error s
    | some tm ↦ send_reply 213 (snprintf 64 (codes "Modify=" ++ format_time tm)) s
  ]
  reply_mfmt t (err e, s) = reply_fs_error s

  unfoldable pub mfmt_path : ℕ → Bytes → State W → State W
  unfolding resolve_arg reply_mfmt
  mfmt_path t arg s = elim (resolve_arg (some arg) s) [
    | none ↦ send_reply 501 r501 s
    | some path ↦ reply_mfmt t (set_time fs os path t (r_stat fs os path s))
  ]

  unfoldable pub cmd_mfmt : Param → State W → State W
  unfolding parse_ftp_time mfmt_path skip_spaces
  cmd_mfmt param s =
      let text = text_of param in
      if ltb (length text) 15 || not (first_byte (drop 14 text) == b' ')
      then send_reply 501 r501 s
      else elim (parse_ftp_time text) [
        | none ↦ send_reply 501 r501 s
        | some t ↦ mfmt_path t (skip_spaces (drop 15 text)) s
      ]

module _ {W : Type 0} where
  unfoldable pub rest_from : Option Scanned → State W → State W
  unfolding to_ull decimal snprintf
  rest_from none s = send_reply 554 (codes "Invalid REST restart point.") s
  rest_from (some n) s =
      if is_nil n.rest
      then send_reply 350
          (snprintf 64 (codes "Restarting at " ++ (decimal (to_ull n) ++ codes ".")))
          (on_client (λ c. record c { rest = to_ull n }) s)
      else send_reply 554 (codes "Invalid REST restart point.") s

  unfoldable pub cmd_rest : Param → State W → State W
  unfolding scan_number rest_from
  cmd_rest param s =
      if no_arg param then send_reply 501 r501 s else rest_from (scan_number 10 (text_of param)) s
