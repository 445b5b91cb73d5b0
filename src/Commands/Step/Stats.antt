-- ===== src/Commands/Step/Stats.antt =====
-- SITE, and the commands on sizes, times and listings of single files: src/commands.c.
use openps3ftp.Base.{
  ℕ, ◌%◌, ◌^◌, refl, ◌∙◌, not, ◌||◌, Option, none, some, List, [], ◌∷◌, ◌++◌, append_assoc,
  snprintf, Bytes, codes, if_both, option_both, is_nil, first_byte, length, ltb, ◌==◌, drop,
  skip_spaces, starts_with_case,
}
use openps3ftp.Session.{Result, ok, err, Stat, Dirent, State, Fs, Os, send, line, raw}
use openps3ftp.Scan.{Scanned, scan_number, to_long}
use openps3ftp.Time.{gmtime, parse_ftp_time}
use openps3ftp.Listing.{is_dir, listing_format, file_entry}
use openps3ftp.Rooted.{r_stat, r_opendir, r_chmod}
use openps3ftp.Rooted.Frame.{Frame, guarded-Frame}
use openps3ftp.Commands.Common.{Param, no_arg, text_of, resolve_arg}
use openps3ftp.Commands.Site.{
  site_chmod_to, site_chmod, set_time, site_utime_to, utime_args, site_utime, site_stop, done_200,
  cmd_site,
}
use openps3ftp.Commands.Stats.{
  reply_size, cmd_size, reply_mdtm, cmd_mdtm, send_listing, list_dir, stat_path, cmd_stat,
  reply_mlst, cmd_mlst, reply_mfmt, mfmt_path, cmd_mfmt, rest_from, cmd_rest,
}
use openps3ftp.Commands.Step.{Step, Step-trans, quiet, send-Step, Frame-Step, after-Step}
use openps3ftp.Commands.Step.Login.{cmd_stop-Step, reply-Step}

module _ {W : Type 0} (fs : Fs W) (os : Os W) where
  done_200-Step : (r : Result (Unit {0}) × State W) → Step r.1 (done_200 fs os r)
  done_200-Step (ok u, s) = send-Step _ s
  done_200-Step (err e, s) = send-Step _ s

  set_time-Frame :
      (path : Bytes) (t : ℕ) (r : Result Stat × State W) → Frame r.1 (set_time fs os path t r).1
  set_time-Frame path t (ok st, s) = guarded-Frame os path (fs.utimes path t) s
  set_time-Frame path t (err e, s) = refl

  -- the file's time is set behind a look at the file
  touched-Frame :
      (path : Bytes) (t : ℕ) (s : State W) → Frame s (set_time fs os path t (r_stat fs os path s)).1
  touched-Frame path t s =
      set_time-Frame path t (r_stat fs os path s) ∙ guarded-Frame os path (fs.stat path) s

  site_chmod_to-Step : (mode : ℕ) (p : Bytes) (s : State W) → Step s (site_chmod_to fs os mode p s)
  unfolding site_chmod_to
  site_chmod_to-Step mode p s =
      option_both (Step s) (resolve_arg (some p) s) (send-Step _ s) (λ path.
        let r = r_chmod fs os path mode s in
        after-Step s r (done_200 fs os r) (guarded-Frame os path (fs.chmod path mode) s)
          (done_200-Step r))

  site_chmod-Step : (p : Bytes) (s : State W) → Step s (site_chmod fs os p s)
  unfolding site_chmod
  site_chmod-Step p s = option_both (Step s) (scan_number 8 (skip_spaces p)) (send-Step _ s) (λ n.
      if_both (Step s) (not (first_byte n.rest == b' ')) (send-Step _ s)
        (site_chmod_to-Step (to_long n % 2 ^ 16) (skip_spaces n.rest) s))

  site_utime_to-Step : (t : ℕ) (p : Bytes) (s : State W) → Step s (site_utime_to fs os t p s)
  unfolding site_utime_to
  site_utime_to-Step t p s = option_both (Step s) (resolve_arg (some p) s) (send-Step _ s) (λ path.
      let r = set_time fs os path t (r_stat fs os path s) in
      after-Step s r (done_200 fs os r) (touched-Frame path t s) (done_200-Step r))

  site_utime-Step : (p : Bytes) (s : State W) → Step s (site_utime fs os p s)
  unfolding site_utime
  site_utime-Step p s =
      option_both (Step s) (utime_args (skip_spaces p)) (send-Step _ s)
        (λ a. site_utime_to-Step a.0 a.1 s)

  site_stop-Step : (p : Param) (b : Bytes) (s : State W) → Step s (site_stop fs os p b s)
  unfolding site_stop
  site_stop-Step p b s =
      if_both (Step s) (not (is_nil (skip_spaces b))) (send-Step _ s)
        (if_both (Step s) (not s.server.allow_stop) (send-Step _ s) (cmd_stop-Step p s))

  pub cmd_site-Step : (p : Param) (s : State W) → Step s (cmd_site fs os p s)
  unfolding cmd_site
  cmd_site-Step p s =
      let text = text_of p in
      if_both (Step s) (no_arg p) (send-Step _ s) (
        if_both (Step s) (starts_with_case (codes "CHMOD") text) (site_chmod-Step (drop 5 text) s) (
          if_both (Step s) (starts_with_case (codes "UTIME") text) (site_utime-Step (drop 5 text) s)
            (if_both (Step s) (starts_with_case (codes "STOP") text)
              (site_stop-Step p (drop 4 text) s) (send-Step _ s))))

  reply_size-Step : (r : Result Stat × State W) → Step r.1 (reply_size fs os r)
  unfolding reply_size
  reply_size-Step (ok st, s) = reply-Step _ _ _ s
  reply_size-Step (err e, s) = send-Step _ s

  pub cmd_size-Step : (p : Param) (s : State W) → Step s (cmd_size fs os p s)
  unfolding cmd_size
  cmd_size-Step p s = option_both (Step s) (resolve_arg p s) (send-Step _ s) (λ path.
      let r = r_stat fs os path s in
      after-Step s r (reply_size fs os r) (guarded-Frame os path (fs.stat path) s)
        (reply_size-Step r))

  reply_mdtm-Step : (r : Result Stat × State W) → Step r.1 (reply_mdtm fs os r)
  unfolding reply_mdtm
  reply_mdtm-Step (ok st, s) =
      option_both (Step s) (gmtime st.mtime) (send-Step _ s) (λ tm. send-Step _ s)
  reply_mdtm-Step (err e, s) = send-Step _ s

  pub cmd_mdtm-Step : (p : Param) (s : State W) → Step s (cmd_mdtm fs os p s)
  unfolding cmd_mdtm
  cmd_mdtm-Step p s = option_both (Step s) (resolve_arg p s) (send-Step _ s) (λ path.
      let r = r_stat fs os path s in
      after-Step s r (reply_mdtm fs os r) (guarded-Frame os path (fs.stat path) s)
        (reply_mdtm-Step r))

  send_listing-Step : (des : List Dirent) (s : State W) → Step s (send_listing fs os des s)
  unfolding send_listing
  send_listing-Step [] s = Frame-Step s s refl
  send_listing-Step (de ∷ des) s =
      let m = raw (listing_format os.localtime 1024 de) in
      Step-trans (send-Step m s) (send_listing-Step des (send m s))

  list_dir-Step : (r : Result ℕ × State W) → Step r.1 (list_dir fs os r)
  unfolding list_dir
  list_dir-Step (ok dir, s) =
      let (des, w) = fs.readdir_all dir s.world in
      let s' = record s { world = fs.closedir dir w } in
      Step-trans (Frame-Step s s' refl) (send_listing-Step des s')
  list_dir-Step (err e, s) = Frame-Step s s refl

  stat_path-Step : (path : Bytes) (r : Result Stat × State W) → Step r.1 (stat_path fs os path r)
  unfolding stat_path
  stat_path-Step path (ok st, s) =
      let head = line (snprintf 1024 (codes "211-Status of " ++ (path ++ codes ":"))) in
      let s' = send head s in
      let r = r_opendir fs os path s' in
      Step-trans (send-Step head s) (
        Step-trans
          (if_both (Step s') (is_dir st.mode)
            (after-Step s' r (list_dir fs os r) (guarded-Frame os path (fs.opendir path) s')
              (list_dir-Step r))
            (send-Step (raw (listing_format os.localtime 1024 (file_entry path st))) s'))
          (send-Step (line (codes "211 End")) _))
  stat_path-Step path (err e, s) = send-Step _ s

  pub cmd_stat-Step : (p : Param) (s : State W) → Step s (cmd_stat fs os p s)
  unfolding cmd_stat
  cmd_stat-Step p s =
      if_both (Step s) (no_arg p) (quiet s _ (_ ∷ _ ∷ []) refl (append_assoc s.client.sent _ _)) (
        option_both (Step s) (resolve_arg p s) (send-Step _ s) (λ path.
          let r = r_stat fs os path s in
          after-Step s r (stat_path fs os path r) (guarded-Frame os path (fs.stat path) s)
            (stat_path-Step path r)))

  reply_mlst-Step : (path : Bytes) (r : Result Stat × State W) → Step r.1 (reply_mlst fs os path r)
  unfolding reply_mlst
  reply_mlst-Step path (ok st, s) =
      Step-trans (send-Step (line (codes "250-Start of list")) s)
        (Step-trans (send-Step _ _) (send-Step _ _))
  reply_mlst-Step path (err e, s) = send-Step _ s

  pub cmd_mlst-Step : (p : Param) (s : State W) → Step s (cmd_mlst fs os p s)
  unfolding cmd_mlst
  cmd_mlst-Step p s = if_both (Step s) (no_arg p) (send-Step _ s) (
      option_both (Step s) (resolve_arg p s) (send-Step _ s) (λ path.
        let r = r_stat fs os path s in
        after-Step s r (reply_mlst fs os path r) (guarded-Frame os path (fs.stat path) s)
          (reply_mlst-Step path r)))

  reply_mfmt-Step : (t : ℕ) (r : Result (Unit {0}) × State W) → Step r.1 (reply_mfmt fs os t r)
  unfolding reply_mfmt
  reply_mfmt-Step t (ok u, s) =
      option_both (Step s) (gmtime t) (send-Step _ s) (λ tm. send-Step _ s)
  reply_mfmt-Step t (err e, s) = send-Step _ s

  mfmt_path-Step : (t : ℕ) (p : Bytes) (s : State W) → Step s (mfmt_path fs os t p s)
  unfolding mfmt_path
  mfmt_path-Step t p s = option_both (Step s) (resolve_arg (some p) s) (send-Step _ s) (λ path.
      let r = set_time fs os path t (r_stat fs os path s) in
      after-Step s r (reply_mfmt fs os t r) (touched-Frame path t s) (reply_mfmt-Step t r))

  pub cmd_mfmt-Step : (p : Param) (s : State W) → Step s (cmd_mfmt fs os p s)
  unfolding cmd_mfmt
  cmd_mfmt-Step p s =
      let text = text_of p in
      if_both (Step s) (ltb (length text) 15 || not (first_byte (drop 14 text) == b' '))
        (send-Step _ s)
        (option_both (Step s) (parse_ftp_time text) (send-Step _ s)
          (λ t. mfmt_path-Step t (skip_spaces (drop 15 text)) s))

module _ {W : Type 0} where
  rest_from-Step : (n : Option Scanned) (s : State W) → Step s (rest_from n s)
  unfolding rest_from
  rest_from-Step none s = send-Step _ s
  rest_from-Step (some n) s =
      if_both (Step s) (is_nil n.rest) (quiet s _ (_ ∷ []) refl refl) (send-Step _ s)

  pub cmd_rest-Step : (p : Param) (s : State W) → Step s (cmd_rest p s)
  unfolding cmd_rest
  cmd_rest-Step p s =
      if_both (Step s) (no_arg p) (send-Step _ s) (rest_from-Step (scan_number 10 (text_of p)) s)
