-- ===== src/Worker/Ends.antt =====
-- transfer_retr of src/transfer.c: it ends, and serves the file, when nothing stalls.
use openps3ftp.Base.{
  ℕ, zero, suc, ◌+◌, ◌≤◌, ◌<◌, ◌≡◌, refl, ◌∙◌, ap, Bool, true, false, Option, none, some, [], ◌∷◌,
  ◌++◌, Bytes, length, length-append, drop, length-drop, arith, ltb, if_both,
}
use openps3ftp.Session.{Result, ok, err}
use openps3ftp.Worker.{Files, Channel, Run, send_all, transfer_buf}
use openps3ftp.Worker.Moves.{
  moved, retr_chunk, unless_cancelled, retr_loop, after_seek, retr_opened, read_only, transfer_retr,
}
use openps3ftp.Worker.Laws.{Yields, Opens, Seeks, Succeeds, IsFaithful, IsReadable, IsPrompt}
use openps3ftp.Worker.Send.{send_all-IsPart, send_all_finishes}
use openps3ftp.Worker.Retr.{IsSent-all, transfer_retr-IsSent}

module _ {W : Type 0} (out : W → Bytes) (left : ℕ → W → Bytes) (files : Files W) (ch : Channel W)
    (law : IsFaithful out left files ch) (prompt : IsPrompt files ch) where
  Finished : Run W → Type 0
  Finished r = r.0 ≡ some (ok tt)

  moved_finishes :
      (again : ℕ → W → Run W) (len count : ℕ) (r : Option (Result (Unit {0})) × W)
      → r.0 ≡ some (ok tt)
      → ((c : ℕ) → Finished (again c r.1))
      → Finished (moved files ch again len count r)
  unfolding moved
  moved_finishes again len count (some (ok u), w) e h = h (count + len)
  moved_finishes again len count (some (err e'), w) e h = cc
  moved_finishes again len count (none, w) e h = cc

  retr_chunk_finishes :
      (fd n : ℕ) (tls : Bool) (again : ℕ → W → Run W) (count m : ℕ) (w : W) (r : Result Bytes × W)
      → ((c : ℕ) (v : W) → length (left fd v) < m → Finished (again c v))
      → length (left fd w) < suc m
      → transfer_buf ≤ n
      → Yields out left fd w r
      → Succeeds r
      → Finished (retr_chunk files ch again n tls count r)
  unfolding retr_chunk Finished
  retr_chunk_finishes fd n tls again count m w (ok [], w') h small room y good = refl
  retr_chunk_finishes fd n tls again count m w (err e, w') h small room y good =
      absurd (omega (arith, good))
  retr_chunk_finishes fd n tls again count m w (ok (b ∷ buf), w') h small room y good =
      let r = send_all ch n tls (b ∷ buf) w' in
      let p = send_all-IsPart out left fd ch law.carries n tls (b ∷ buf) w' in
      let rest : left fd r.1 ≡ left fd w' = ap (λ (v : Bytes × Bytes). v.1) p.moved in
      let shorter : length (left fd r.1) < m =
        omega (arith, ap length rest, ap length y.1, length-append (b ∷ buf) (left fd w')) in
      moved_finishes again (length (b ∷ buf)) count r
        (send_all_finishes files ch prompt n tls (b ∷ buf) w' (omega (arith, y.0, room)))
        (λ c. h c r.1 shorter)

  unless_cancelled_finishes :
      (go : W → Run W) (count : ℕ) (r : Bool × W)
      → r.0 ≡ false
      → Finished (go r.1)
      → Finished (unless_cancelled files ch go count r)
  unless_cancelled_finishes go count (true, w) e h = absurd cc
  unless_cancelled_finishes go count (false, w) e h = h

  retr_loop_finishes :
      (m n : ℕ) (tls : Bool) (fd count : ℕ) (w : W)
      → length (left fd w) < m
      → transfer_buf ≤ n
      → Finished (retr_loop files ch m n tls fd count w)
  unfolding retr_loop
  retr_loop_finishes zero n tls fd count w small room = absurd (omega arith)
  retr_loop_finishes (suc m) n tls fd count w small room =
      let again = retr_loop files ch m n tls fd in
      let w' = (ch.cancelled w).1 in
      let same : left fd w' ≡ left fd w =
        ap (λ (v : Bytes × Bytes). v.1) (law.carries.cancelled fd w) in
      unless_cancelled_finishes
        (λ v. retr_chunk files ch again n tls count (files.read fd transfer_buf v)) count
        (ch.cancelled w) (prompt.cancelled w)
        (retr_chunk_finishes fd n tls again count m w' (files.read fd transfer_buf w')
          (λ c v h. retr_loop_finishes m n tls fd c v h room) (omega (arith, ap length same, small))
          room (law.read fd w') (prompt.reads fd w'))

  module _ (whole : ℕ → W → Bytes) (content : Bytes → W → Bytes)
      (readable : IsReadable out left whole content files ch) where
    after_seek_finishes :
        (m n : ℕ) (tls : Bool) (fd : ℕ) (r : Result (Unit {0}) × W)
        → Succeeds r
        → length (left fd r.1) < m
        → transfer_buf ≤ n
        → Finished (after_seek files ch (retr_loop files ch m n tls fd 0) fd r)
    unfolding Finished
    after_seek_finishes m n tls fd (ok u, w) good small room =
        retr_loop_finishes m n tls fd 0 w small room
    after_seek_finishes m n tls fd (err e, w) good small room = absurd (omega (arith, good))

    Seeks-le :
        (fd rest : ℕ) (w : W) (r : Result (Unit {0}) × W)
        → Seeks out left whole fd rest w r
        → Succeeds r
        → length (left fd r.1) ≤ length (whole fd w)
    Seeks-le fd rest w (ok u, w') h good =
        omega (arith, ap (λ (v : Bytes × Bytes). length v.1) h, length-drop rest (whole fd w))
    Seeks-le fd rest w (err e, w') h good = absurd (omega (arith, good))

    opened_finishes :
        (m n : ℕ) (tls : Bool) (path : Bytes) (rest : ℕ) (w : W) (r : Result ℕ × W)
        → Opens out left whole content path w r
        → Succeeds r
        → length (content path w) < m
        → transfer_buf ≤ n
        → Finished (retr_opened files ch m n tls rest r)
    opened_finishes m n tls path rest w (err e, w') h good small room = absurd (omega (arith, good))
    opened_finishes m n tls path rest w (ok fd, w') h good small room =
        let w'' = (files.fstat fd w').1 in
        let at : length (left fd w'') ≡ length (content path w) =
          ap (λ (v : Bytes × Bytes × Bytes). length v.1) (readable.fstats fd w' ∙ h) in
        let full : length (whole fd w'') ≡ length (content path w) =
          ap (λ (v : Bytes × Bytes × Bytes). length v.2) (readable.fstats fd w' ∙ h) in
        let seek = files.seek fd rest w'' in
        if_both (λ r. Finished (after_seek files ch (retr_loop files ch m n tls fd 0) fd r))
          (ltb 0 rest)
          (after_seek_finishes m n tls fd seek (prompt.seeks fd rest w'')
            (omega (
              arith,
              full,
              Seeks-le fd rest w'' seek (readable.seeks fd rest w'') (prompt.seeks fd rest w''),
            ))
            room)
          (after_seek_finishes m n tls fd (ok tt, w'') tt (omega (arith, at, small)) room)

    -- When no call fails, the connection takes bytes and nobody cancels, RETR ends within one round more than the file has
    -- bytes, with 0, and the client has the file from the offset on; the number of bytes reported is the number sent.
    pub transfer_retr_serves :
        (m n : ℕ) (tls : Bool) (path : Bytes) (rest : ℕ) (w : W)
        → length (content path w) < m
        → transfer_buf ≤ n
        → let r = transfer_retr files ch m n tls path rest w in
          (r.0 ≡ some (ok tt))
          × (r.1 ≡ length (drop rest (content path w)))
          × (out r.2 ≡ out w ++ drop rest (content path w))
    unfolding transfer_retr Finished
    transfer_retr_serves m n tls path rest w small room =
        let file = files.open_file path (read_only files ch) 0 w in
        let r = transfer_retr files ch m n tls path rest w in
        let done : r.0 ≡ some (ok tt) =
          opened_finishes m n tls path rest w file (readable.opens path w) (prompt.opens path w)
            small room in
        let all =
          IsSent-all out (drop rest (content path w)) w r
            (transfer_retr-IsSent out left files ch law whole content readable m n tls path rest w)
            done in
        (done, all.0, all.1)
