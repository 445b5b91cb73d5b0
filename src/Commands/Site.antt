-- ===== src/Commands/Site.antt =====
-- src/commands.c: SITE CHMOD, SITE UTIME and SITE STOP.
use openps3ftp.Base.{
  ℕ, ◌%◌, ◌^◌, Bool, true, not, ◌&&◌, ◌||◌, Option, none, some, [], ◌∷◌, leb, ltb, ◌==◌,
  if◌then◌else◌, Bytes, codes, length, first_byte, is_nil, drop, skip_spaces, starts_with_case,
}
use openps3ftp.Session.{Result, ok, err, Stat, State, Fs, Os, send_reply}
use openps3ftp.Path.{max_path}
use openps3ftp.Scan.{scan_number, to_long}
use openps3ftp.Time.{parse_ftp_time, all_digits}
use openps3ftp.Rooted.{r_stat, r_chmod, r_utimes}
use openps3ftp.Commands.Common.{
  Param, no_arg, text_of, r200, r501, r502, reply_fs_error, resolve_arg,
}
use openps3ftp.Commands.Login.{cmd_stop}

-- The text in front of the last word, and the text from the last word on, trailing spaces included;
-- the flag says that a space, or the start, is just before.
last_word_from : Bool → Bytes → Option (Bytes × Bytes)
last_word_from spaced [] = none
last_word_from spaced (c ∷ s) = elim (last_word_from (c == b' ') s) [
  | some (before, word) ↦ some (c ∷ before, word)
  | none ↦ if spaced && not (c == b' ') then some ([], c ∷ s) else none
]

unfoldable pub last_word : Bytes → Option (Bytes × Bytes)
unfolding last_word_from
last_word s = last_word_from true s

-- The spaces at the end go, but the first byte stays.
trim_tail : Bytes → Bytes
trim_tail [] = []
trim_tail (c ∷ s) = let rest = trim_tail s in if is_nil rest && c == b' ' then [] else c ∷ rest

unfoldable pub trim_end : Bytes → Bytes
unfolding trim_tail
trim_end [] = []
trim_end (c ∷ s) = c ∷ trim_tail s

-- The time and the path of SITE UTIME, or `none` for a 501.
unfoldable pub utime_args : Bytes → Option (ℕ × Bytes)
unfolding last_word trim_end all_digits parse_ftp_time
utime_args p = elim (last_word p) [
  | none ↦ none
  | some (before, tok) ↦
      let path = trim_end before in
      if is_nil before || ltb (length tok) 14
      then none
      else if not (all_digits 14 tok)
      then none
      else if leb max_path (length path)
      then none
      else elim (parse_ftp_time tok) [ none ↦ none | some t ↦ some (t, path) ]
]

module _ {W : Type 0} (fs : Fs W) (os : Os W) where
  abbrev pub done_200 : Result (Unit {0}) × State W → State W
  done_200 (ok u, s) = send_reply 200 r200 s
  done_200 (err e, s) = reply_fs_error s

  unfoldable pub site_chmod_to : ℕ → Bytes → State W → State W
  unfolding resolve_arg
  site_chmod_to mode end s = elim (resolve_arg (some end) s) [
    | none ↦ send_reply 501 r501 s
    | some path ↦ done_200 (r_chmod fs os path mode s)
  ]

  -- SITE CHMOD <mode> <path>; the argument is what follows CHMOD
  unfoldable pub site_chmod : Bytes → State W → State W
  unfolding skip_spaces scan_number to_long site_chmod_to
  site_chmod p s = elim (scan_number 8 (skip_spaces p)) [
    | none ↦ send_reply 501 r501 s
    | some n ↦
        if not (first_byte n.rest == b' ')
        then send_reply 501 r501 s
        else site_chmod_to (to_long n % 2 ^ 16) (skip_spaces n.rest) s
  ]

  -- `stat` and then `utimes`, as SITE UTIME and MFMT make them
  abbrev pub set_time : Bytes → ℕ → Result Stat × State W → Result (Unit {0}) × State W
  set_time path t (ok st, s) = r_utimes fs os path t s
  set_time path t (err e, s) = (err e, s)

  unfoldable pub site_utime_to : ℕ → Bytes → State W → State W
  unfolding resolve_arg
  site_utime_to t pathbuf s = elim (resolve_arg (some pathbuf) s) [
    | none ↦ send_reply 501 r501 s
    | some path ↦ done_200 (set_time path t (r_stat fs os path s))
  ]

  -- SITE UTIME <path> <time>
  unfoldable pub site_utime : Bytes → State W → State W
  unfolding skip_spaces utime_args site_utime_to
  site_utime p s = elim (utime_args (skip_spaces p)) [
    | none ↦ send_reply 501 r501 s
    | some (t, pathbuf) ↦ site_utime_to t pathbuf s
  ]

  unfoldable pub site_stop : Param → Bytes → State W → State W
  unfolding skip_spaces cmd_stop
  site_stop param p s =
      if not (is_nil (skip_spaces p))
      then send_reply 501 r501 s
      else if not s.server.allow_stop
      then send_reply 502 r502 s
      else cmd_stop param s

  unfoldable pub cmd_site : Param → State W → State W
  unfolding starts_with_case site_chmod site_utime site_stop
  cmd_site param s =
      let text = text_of param in
      if no_arg param
      then send_reply 502 r502 s
      else if starts_with_case (codes "CHMOD") text
      then site_chmod (drop 5 text) s
      else if starts_with_case (codes "UTIME") text
      then site_utime (drop 5 text) s
      else if starts_with_case (codes "STOP") text
      then site_stop param (drop 4 text) s
      else send_reply 502 r502 s
