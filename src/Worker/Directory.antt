-- ===== src/Worker/Directory.antt =====
-- src/transfer.c: LIST, NLST and MLSD.
use openps3ftp.Base.{
  ℕ, zero, suc, ◌+◌, ◌-◌, Bool, true, false, Option, none, some, [], ◌∷◌, ◌++◌, if◌then◌else◌,
  length, Bytes, ltb, snprintf, crlf,
}
use openps3ftp.Session.{ecanceled, Result, ok, err, Stat, Dirent, Fs}
use openps3ftp.Time.{Tm}
use openps3ftp.Listing.{is_dir, listing_format, listing_format_mlsd, file_entry}
use openps3ftp.Worker.{Channel, Run, send_all}

-- `char batch[8 * 1024]`
abbrev pub batch_size : ℕ
batch_size = 8192

-- `readdir` of opftp_fs_t, with its error and its end, and `localtime`
pub record Dirs (W : Type 0) : Type 0 where
  pub readdir : ℕ → W → Result (Option Dirent) × W
  pub localtime : ℕ → Option Tm

module _ {W : Type 0} (fs : Fs W) (dirs : Dirs W) (ch : Channel W) where
  -- the line of an entry; names have at most 255 bytes, so a line fits its buffer
  unfoldable pub listing_line : Bool → Bool → Dirent → Bytes
  unfolding snprintf listing_format listing_format_mlsd
  listing_line nlst mlsd de =
      if nlst
      then snprintf 1024 (de.name ++ crlf)
      else if mlsd
      then listing_format_mlsd 1024 de
      else listing_format dirs.localtime 1024 de

  -- LIST_FLUSH, with what follows when the batch has gone out; each loop below has a number of rounds
  abbrev pub flushed : (ℕ → W → Run W) → Bytes → ℕ → Option (Result (Unit {0})) × W → Run W
  flushed again batch count (some (ok u), w) = again (count + length batch) w
  flushed again batch count (some (err e), w) = (some (err e), count, w)
  flushed again batch count (none, w) = (none, count, w)

  unfoldable pub list_flush : (ℕ → W → Run W) → ℕ → Bool → Bytes → ℕ → W → Run W
  unfolding send_all
  list_flush again n tls [] count w = again count w
  list_flush again n tls (b ∷ batch) count w =
      flushed again (b ∷ batch) count (send_all ch n tls (b ∷ batch) w)

  abbrev pub listed_all : ℕ → W → Run W
  listed_all count w = (some (ok tt), count, w)

  -- the flush behind the loop, which puts its own result in the place of the loop's when there is something to send
  unfoldable pub list_end : Option (Result (Unit {0})) → ℕ → Bool → Bytes → ℕ → W → Run W
  unfolding list_flush
  list_end rc n tls [] count w = (rc, count, w)
  list_end rc n tls (b ∷ batch) count w = list_flush listed_all n tls (b ∷ batch) count w

  -- a line that does not fit is put behind the flush
  unfoldable pub put_line : (Bytes → ℕ → W → Run W) → ℕ → Bool → Bytes → Bytes → ℕ → W → Run W
  unfolding list_flush
  put_line again n tls line batch count w =
      if ltb (batch_size - length batch) (length line)
      then list_flush (again line) n tls batch count w
      else again (batch ++ line) count w

  unfoldable pub list_entry :
      (Bytes → ℕ → W → Run W)
      → ℕ
      → Bool
      → Bool
      → Bool
      → Bytes
      → ℕ
      → Result (Option Dirent) × W
      → Run W
  unfolding put_line list_end listing_line
  list_entry again n tls nlst mlsd batch count (ok (some de), w) =
      put_line again n tls (listing_line nlst mlsd de) batch count w
  list_entry again n tls nlst mlsd batch count (ok none, w) =
      list_end (some (ok tt)) n tls batch count w
  list_entry again n tls nlst mlsd batch count (err e, w) =
      list_end (some (err e)) n tls batch count w

  abbrev pub list_round : (W → Run W) → ℕ → Bool → Bytes → ℕ → Bool × W → Run W
  list_round go n tls batch count (true, w) = list_end (some (err ecanceled)) n tls batch count w
  list_round go n tls batch count (false, w) = go w

  unfoldable pub list_loop : ℕ → ℕ → Bool → Bool → Bool → ℕ → Bytes → ℕ → W → Run W
  unfolding list_entry list_end
  list_loop zero n tls nlst mlsd dir batch count w = (none, count, w)
  list_loop (suc m) n tls nlst mlsd dir batch count w =
      list_round
        (λ w'.
          list_entry (list_loop m n tls nlst mlsd dir) n tls nlst mlsd batch count
            (dirs.readdir dir w'))
        n tls batch count (ch.cancelled w)

  abbrev pub closing_dir : ℕ → Run W → Run W
  closing_dir dir (rc, count, w) = (rc, count, fs.closedir dir w)

  abbrev pub dir_opened : ℕ → ℕ → Bool → Bool → Bool → Result ℕ × W → Run W
  dir_opened m n tls nlst mlsd (ok dir, w) =
      closing_dir dir (list_loop m n tls nlst mlsd dir [] 0 w)
  dir_opened m n tls nlst mlsd (err e, w) = (some (err e), 0, w)

  -- a file has the one line, which is that of LIST also for NLST
  abbrev pub path_listed : ℕ → ℕ → Bool → Bool → Bool → Bytes → Result Stat × W → Run W
  path_listed m n tls nlst mlsd path (err e, w) = (some (err e), 0, w)
  path_listed m n tls nlst mlsd path (ok st, w) =
      if is_dir st.mode
      then dir_opened m n tls nlst mlsd (fs.opendir path w)
      else list_flush listed_all n tls (listing_line false mlsd (file_entry path st)) 0 w

  unfoldable pub transfer_list : ℕ → ℕ → Bool → Bool → Bool → Bytes → W → Run W
  unfolding list_loop list_flush listing_line file_entry
  transfer_list m n tls nlst mlsd path w = path_listed m n tls nlst mlsd path (fs.stat path w)
