-- ===== src/Worker/Copied.antt =====
-- The copy of one file in src/transfer.c: what the new file holds, and what a failed copy leaves.
use openps3ftp.Base.{
  ℕ, zero, suc, ◌<◌, ◌≡◌, refl, sym, ◌∙◌, ap, true, false, none, some, [], ◌∷◌, ◌++◌, length, Bytes,
  str_eq, arith, starts_with, starts_with-append,
}
use openps3ftp.Session.{Errno, Result, ok, err, Fs}
use openps3ftp.Commands.Common.{path_is_under}
use openps3ftp.Rooted.Contain.{drop-append}
use openps3ftp.Worker.{Files, Channel, Run, transfer_buf, fs_write_all}
use openps3ftp.Worker.Moves.{read_only}
use openps3ftp.Worker.Laws.{view, Yields, Writes}
use openps3ftp.Worker.Send.{IsPart}
use openps3ftp.Worker.Retr.{IsSent, ended, restart, moved-IsSent, unless_cancelled-IsSent}
use openps3ftp.Worker.Stor.{fs_write_all-IsWritten}
use openps3ftp.Worker.Copy.{
  copy_path, copy_join, copy_chunk, copy_loop, copy_flags, copy_end, copy_out_opened, copy_checked,
  copy_in_opened, copy_file,
}

pub copy_path-under :
    (root : Bytes) (c : ℕ) (rel : Bytes) → path_is_under (copy_path root (c ∷ rel)) root ≡ true
unfolding copy_path path_is_under str_eq starts_with
copy_path-under [] c rel = refl
copy_path-under (a ∷ []) c rel = ground arith
copy_path-under (a ∷ b ∷ root) c rel =
    ground (arith, starts_with-append root (b'/' ∷ c ∷ rel), drop-append root (b'/' ∷ c ∷ rel))

-- Every path that copy_join makes of a root and a name in the tree is under the root, and fits the buffer.
pub copy_join-under :
    (size : ℕ) (root : Bytes) (c : ℕ) (rel path : Bytes)
    → copy_join size root (c ∷ rel) ≡ some path
    → (path_is_under path root ≡ true) × (length path < size)
unfolding copy_join
copy_join-under size root c rel path h = ground (arith, copy_path-under root c rel)

module _ {W : Type 0} (written left : ℕ → W → Bytes) (fs : Fs W) (files : Files W) (ch : Channel W)
    (into out : ℕ) where
  -- what the copy relies on: reads of the one descriptor, writes of the other, and a flag that touches neither
  pub record IsCopying : Type 0 where
    pub cancelled :
        (w : W) → view (written out) left into (ch.cancelled w).1 ≡ view (written out) left into w
    pub reads : (w : W) → Yields (written out) left into w (files.read into transfer_buf w)
    pub writes :
        (buf : Bytes) (w : W) → Writes written (left into) out buf w (files.write out buf w)

  module _ (law : IsCopying) where
    IsPart-copy :
        (n : ℕ) (buf : Bytes) (w : W)
        → IsPart (written out) left into buf w (fs_write_all files n out buf w)
    IsPart-copy n buf w =
        let p = fs_write_all-IsWritten written (left into) out files law.writes n buf w in
        record { sent = p.sent; unsent = p.unsent; parts = p.parts; moved = p.moved; done = p.done }

    copy_chunk-IsSent :
        (n : ℕ) (again : ℕ → W → Run W) (count : ℕ) (w : W) (r : Result Bytes × W)
        → ((c : ℕ) (w : W) → IsSent (written out) (left into w) c w (again c w))
        → Yields (written out) left into w r
        → IsSent (written out) (left into w) count w (copy_chunk fs files ch again n out count r)
    unfolding copy_chunk
    copy_chunk-IsSent n again count w (ok [], w') h y =
        ended (written out) (left into w) count w w' (some (ok tt)) (y.0, omega arith)
          (ap (λ (v : Bytes × Bytes). v.0) y.1)
    copy_chunk-IsSent n again count w (ok (b ∷ buf), w') h y =
        restart (written out) (left into w) (b ∷ buf ++ left into w') count w w' _ y.1 y.2 (
          moved-IsSent (written out) left files ch into (b ∷ buf) again count w'
            (fs_write_all files n out (b ∷ buf) w') h (IsPart-copy n (b ∷ buf) w'))
    copy_chunk-IsSent n again count w (err e, w') h y =
        ended (written out) (left into w) count w w' (some (err e)) tt
          (ap (λ (v : Bytes × Bytes). v.0) y)

    -- However many rounds the copy of a file has made, and whatever its result, what has been written is the first part of
    -- what was left to read, in order; when the result is 0 it is all of it, and its length has been added to the count.
    pub copy_loop-IsSent :
        (m n count : ℕ) (w : W)
        → IsSent (written out) (left into w) count w (copy_loop fs files ch m n into out count w)
    unfolding copy_loop
    copy_loop-IsSent zero n count w = ended (written out) (left into w) count w w none tt refl
    copy_loop-IsSent (suc m) n count w =
        let again = copy_loop fs files ch m n into out in
        unless_cancelled-IsSent (written out) left files ch into count w
          (λ v. copy_chunk fs files ch again n out count (files.read into transfer_buf v))
          (ch.cancelled w)
          (λ v.
            copy_chunk-IsSent n again count v (files.read into transfer_buf v)
              (λ c u. copy_loop-IsSent m n c u) (law.reads v))
          (law.cancelled w)

module _ {W : Type 0} (fs : Fs W) (files : Files W) (ch : Channel W) where
  copy_end-removes :
      (dst : Bytes) (into out : ℕ) (r : Run W) {e : Errno}
      → (copy_end fs files ch false dst into out r).0 ≡ some (err e)
      → (v : W) × ((copy_end fs files ch false dst into out r).2 ≡ (fs.unlink dst v).1)
  unfolding copy_end
  copy_end-removes dst into out (none, count, w) h = absurd cc
  copy_end-removes dst into out (some (ok u), count, w) h = absurd cc
  copy_end-removes dst into out (some (err x), count, w) h =
      (files.close out (files.close into w), refl)

  -- When a copy fails after it has created its destination, which stat had not found, its last act is to remove it.
  pub copy_file-removes :
      (m n : ℕ) (src dst : Bytes) (count : ℕ) (w w1 w2 w3 : W) (into out : ℕ) (x : Errno)
      {e : Errno}
      → files.open_file src (read_only files ch) 0 w ≡ (ok into, w1)
      → fs.stat dst w1 ≡ (err x, w2)
      → files.open_file dst (copy_flags fs files ch) 420 w2 ≡ (ok out, w3)
      → (copy_file fs files ch m n src dst count w).0 ≡ some (err e)
      → (v : W) × ((copy_file fs files ch m n src dst count w).2 ≡ (fs.unlink dst v).1)
  unfolding copy_file
  copy_file-removes m n src dst count w w1 w2 w3 into out x opened missing created failed =
      let same : copy_file fs files ch m n src dst count w
          ≡ copy_end fs files ch false dst into out (copy_loop fs files ch m n into out count w3) =
        ap (copy_in_opened fs files ch m n dst count) opened
        ∙ ap (copy_checked fs files ch m n dst into count) missing
        ∙ ap (copy_out_opened fs files ch m n false dst into count) created in
      let r =
        copy_end-removes dst into out (copy_loop fs files ch m n into out count w3)
          (ap (λ (q : Run W). q.0) (sym same) ∙ failed) in
      (r.0, ap (λ (q : Run W). q.2) same ∙ r.1)
