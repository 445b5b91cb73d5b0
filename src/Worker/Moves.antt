-- ===== src/Worker/Moves.antt =====
-- src/transfer.c: RETR, STOR and APPE.
use openps3ftp.Base.{
  ℕ, zero, suc, ◌+◌, Bool, true, false, ◌&&◌, Option, none, some, [], ◌∷◌, if◌then◌else◌, length,
  Bytes, ltb, ◌==◌,
}
use openps3ftp.Session.{ecanceled, eagain, Result, ok, err, JobOp, stor, appe}
use openps3ftp.Worker.{Files, Channel, Run, Flags, transfer_buf, send_all, fs_write_all, recv_some}

-- The loops below have a number of rounds, and one for the loops inside them.
module _ {W : Type 0} (files : Files W) (ch : Channel W) where
  -- the rest of a loop over the data, from a count of bytes
  abbrev pub Rest : Type 0
  Rest = ℕ → W → Run W

  -- a chunk of `len` bytes has gone through, or not
  unfoldable pub moved : Rest → ℕ → ℕ → Option (Result (Unit {0})) × W → Run W
  moved again len count (some (ok u), w) = again (count + len) w
  moved again len count (some (err e), w) = (some (err e), count, w)
  moved again len count (none, w) = (none, count, w)

  unfoldable pub retr_chunk : Rest → ℕ → Bool → ℕ → Result Bytes × W → Run W
  unfolding moved send_all
  retr_chunk again n tls count (ok [], w) = (some (ok tt), count, w)
  retr_chunk again n tls count (ok (b ∷ buf), w) =
      moved again (length (b ∷ buf)) count (send_all ch n tls (b ∷ buf) w)
  retr_chunk again n tls count (err e, w) = (some (err e), count, w)

  abbrev pub unless_cancelled : (W → Run W) → ℕ → Bool × W → Run W
  unless_cancelled go count (true, w) = (some (err ecanceled), count, w)
  unless_cancelled go count (false, w) = go w

  unfoldable pub retr_loop : ℕ → ℕ → Bool → ℕ → Rest
  unfolding retr_chunk
  retr_loop zero n tls fd count w = (none, count, w)
  retr_loop (suc m) n tls fd count w =
      unless_cancelled
        (λ w'. retr_chunk (retr_loop m n tls fd) n tls count (files.read fd transfer_buf w')) count
        (ch.cancelled w)

  unfoldable pub stor_chunk : Rest → ℕ → ℕ → ℕ → Result Bytes × W → Run W
  unfolding moved fs_write_all
  stor_chunk again n fd count (ok [], w) = (some (ok tt), count, w)
  stor_chunk again n fd count (ok (b ∷ buf), w) =
      moved again (length (b ∷ buf)) count (fs_write_all files n fd (b ∷ buf) w)
  stor_chunk again n fd count (err eagain, w) = again count w
  stor_chunk again n fd count (err e, w) = (some (err e), count, w)

  unfoldable pub stor_loop : ℕ → ℕ → Bool → ℕ → Rest
  unfolding stor_chunk recv_some
  stor_loop zero n tls fd count w = (none, count, w)
  stor_loop (suc m) n tls fd count w =
      unless_cancelled
        (λ w'. stor_chunk (stor_loop m n tls fd) n fd count (recv_some ch tls transfer_buf w'))
        count (ch.cancelled w)

  abbrev pub closing : ℕ → Run W → Run W
  closing fd (rc, count, w) = (rc, count, files.close fd w)

  -- the position, when the client has asked for one
  abbrev pub seek_to : Bool → ℕ → ℕ → W → Result (Unit {0}) × W
  seek_to wanted fd rest w = if wanted then files.seek fd rest w else (ok tt, w)

  abbrev pub after_seek : (W → Run W) → ℕ → Result (Unit {0}) × W → Run W
  after_seek go fd (ok u, w) = closing fd (go w)
  after_seek go fd (err e, w) = (some (err e), 0, files.close fd w)

  abbrev pub read_only : Flags
  read_only = record { writes = false; creates = false; truncates = false; appends = false }

  -- the size that `fstat` gives is only displayed
  abbrev pub retr_opened : ℕ → ℕ → Bool → ℕ → Result ℕ × W → Run W
  retr_opened m n tls rest (ok fd, w) =
      after_seek (retr_loop m n tls fd 0) fd (seek_to (ltb 0 rest) fd rest (files.fstat fd w).1)
  retr_opened m n tls rest (err e, w) = (some (err e), 0, w)

  unfoldable pub transfer_retr : ℕ → ℕ → Bool → Bytes → ℕ → W → Run W
  unfolding retr_loop
  transfer_retr m n tls path rest w = retr_opened m n tls rest (files.open_file path read_only 0 w)

  abbrev pub is_stor : JobOp → Bool
  is_stor stor = true
  is_stor _ = false

  abbrev pub is_appe : JobOp → Bool
  is_appe appe = true
  is_appe _ = false

  -- REST before STOR resumes, so nothing is truncated
  abbrev pub stor_flags : JobOp → ℕ → Flags
  stor_flags op rest = record {
    writes = true;
    creates = true;
    truncates = is_stor op && rest == 0;
    appends = is_appe op;
  }

  abbrev pub stor_opened : ℕ → ℕ → Bool → JobOp → ℕ → Result ℕ × W → Run W
  stor_opened m n tls op rest (ok fd, w) =
      after_seek (stor_loop m n tls fd 0) fd (seek_to (ltb 0 rest && is_stor op) fd rest w)
  stor_opened m n tls op rest (err e, w) = (some (err e), 0, w)

  unfoldable pub transfer_stor : ℕ → ℕ → Bool → JobOp → Bytes → ℕ → W → Run W
  unfolding stor_loop
  transfer_stor m n tls op path rest w =
      stor_opened m n tls op rest (files.open_file path (stor_flags op rest) 420 w)
