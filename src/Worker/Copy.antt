-- ===== src/Worker/Copy.antt =====
-- src/transfer.c: the copy of one file for CPTO, and the paths below the two roots of a copy.
use openps3ftp.Base.{
  ℕ, zero, suc, Bool, true, false, Option, none, some, [], ◌∷◌, ◌++◌, if◌then◌else◌, length, Bytes,
  leb, codes, str_eq, is_nil,
}
use openps3ftp.Session.{Result, ok, err, Stat, Fs}
use openps3ftp.Worker.{Files, Channel, Run, Flags, transfer_buf, fs_write_all}
use openps3ftp.Worker.Moves.{moved, unless_cancelled, read_only}

-- copy_join, without its error number
unfoldable pub copy_path : Bytes → Bytes → Bytes
unfolding str_eq
copy_path root rel =
    if is_nil rel
    then root
    else if str_eq root (codes "/")
    then b'/' ∷ rel
    else root ++ (b'/' ∷ rel)

unfoldable pub copy_join : ℕ → Bytes → Bytes → Option Bytes
unfolding copy_path
copy_join outsz root rel =
    if leb outsz (length (copy_path root rel)) then none else some (copy_path root rel)

module _ {W : Type 0} (fs : Fs W) (files : Files W) (ch : Channel W) where
  unfoldable pub copy_chunk : (ℕ → W → Run W) → ℕ → ℕ → ℕ → Result Bytes × W → Run W
  unfolding moved fs_write_all
  copy_chunk again n out count (ok [], w) = (some (ok tt), count, w)
  copy_chunk again n out count (ok (b ∷ buf), w) =
      moved files ch again (length (b ∷ buf)) count (fs_write_all files n out (b ∷ buf) w)
  copy_chunk again n out count (err e, w) = (some (err e), count, w)

  unfoldable pub copy_loop : ℕ → ℕ → ℕ → ℕ → ℕ → W → Run W
  unfolding copy_chunk
  copy_loop zero n into out count w = (none, count, w)
  copy_loop (suc m) n into out count w =
      unless_cancelled files ch
        (λ v. copy_chunk (copy_loop m n into out) n out count (files.read into transfer_buf v))
        count (ch.cancelled w)

  abbrev pub copy_flags : Flags
  copy_flags = record { writes = true; creates = true; truncates = true; appends = false }

  -- A new file is removed again when the copy failed. The descriptors of a copy that has not ended stay open.
  unfoldable pub copy_end : Bool → Bytes → ℕ → ℕ → Run W → Run W
  copy_end existed dst into out (none, count, w) = (none, count, w)
  copy_end existed dst into out (some (ok u), count, w) =
      (some (ok u), count, files.close out (files.close into w))
  copy_end existed dst into out (some (err e), count, w) =
      let closed = files.close out (files.close into w) in
      (some (err e), count, if existed then closed else (fs.unlink dst closed).1)

  abbrev pub copy_out_opened : ℕ → ℕ → Bool → Bytes → ℕ → ℕ → Result ℕ × W → Run W
  copy_out_opened m n existed dst into count (ok out, w) =
      copy_end existed dst into out (copy_loop m n into out count w)
  copy_out_opened m n existed dst into count (err e, w) = (some (err e), count, files.close into w)

  abbrev pub copy_checked : ℕ → ℕ → Bytes → ℕ → ℕ → Result Stat × W → Run W
  copy_checked m n dst into count (ok st, w) =
      copy_out_opened m n true dst into count (files.open_file dst copy_flags 420 w)
  copy_checked m n dst into count (err e, w) =
      copy_out_opened m n false dst into count (files.open_file dst copy_flags 420 w)

  abbrev pub copy_in_opened : ℕ → ℕ → Bytes → ℕ → Result ℕ × W → Run W
  copy_in_opened m n dst count (ok into, w) = copy_checked m n dst into count (fs.stat dst w)
  copy_in_opened m n dst count (err e, w) = (some (err e), count, w)

  -- copy_file, from a count of bytes
  unfoldable pub copy_file : ℕ → ℕ → Bytes → Bytes → ℕ → W → Run W
  unfolding copy_loop copy_end
  copy_file m n src dst count w =
      copy_in_opened m n dst count (files.open_file src (read_only files ch) 0 w)
