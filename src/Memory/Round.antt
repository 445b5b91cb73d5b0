-- ===== src/Memory/Round.antt =====
-- src/fs_mem.c under src/transfer.c: a file that is stored, and then retrieved.
use openps3ftp.Base.{
  ℕ, ◌≡◌, sym, ◌∙◌, ap, Bool, none, some, [], ◌++◌, Bytes, length, drop, arith, append-nil,
}
use openps3ftp.Session.{ok, err, stor}
use openps3ftp.Worker.{Channel, Run}
use openps3ftp.Worker.Moves.{transfer_stor, transfer_retr}
use openps3ftp.Worker.Retr.{IsSent-all, IsSent, transfer_retr-IsSent}
use openps3ftp.Memory.{Mctx}
use openps3ftp.Memory.Serve.{
  memory_files, over_network, content, sent, Carries, left, whole, memory-IsFaithful,
  memory-IsReadable,
}
use openps3ftp.Memory.Lookup.{IsFile}
use openps3ftp.Memory.Upload.{Delivers, Holds, stor-Holds}

module _ {N : Type 0} (out arrived : N → Bytes) where
  -- RETR over the memory, whatever its rounds and its result, sends the first bytes of what the path's file holds from the
  -- offset on, and all of them when the result is 0.
  pub memory_retr-IsSent :
      (now : ℕ) (ch : Channel N)
      → Carries out ch
      → (k n : ℕ) (tls : Bool) (path : Bytes) (rest : ℕ) (w : Mctx × N)
      → IsSent
          (sent out)
          (drop rest (content path w))
          0
          w
          (transfer_retr (memory_files now) (over_network ch) k n tls path rest w)
  memory_retr-IsSent now ch law k n tls path rest w =
      transfer_retr-IsSent (sent out) left (memory_files now) (over_network ch)
        (memory-IsFaithful out now ch law) whole content (memory-IsReadable out now ch) k n tls path
        rest w

  all_through :
      (path start : Bytes) (r : Run (Mctx × N))
      → (h : Holds arrived path [] start r) → r.0 ≡ some (ok tt)
      → (arrived r.2.1 ≡ start ++ content path r.2) × (r.1 ≡ length (content path r.2))
  all_through path start (some (ok u), count, w) h e =
      let kept : content path w ≡ h.kept = h.stored in
      (
        h.received
            ∙ ap (λ l. start ++ (h.kept ++ l)) h.through.0
            ∙ ap (λ l. start ++ l) (append-nil h.kept ∙ sym kept),
        omega (arith, h.through.1, ap length kept),
      )
  all_through path start (some (err x), count, w) h e = absurd cc
  all_through path start (none, count, w) h e = absurd cc

  -- When STOR to an existing file of the memory ends with 0, and RETR of it, over another connection, does so afterwards, the
  -- second peer is sent exactly the bytes that had arrived from the first, and both report their number.
  pub stor_retr :
      (now later : ℕ) (up down : Channel N) (delivers : Delivers arrived up)
      (carries : Carries out down) (k n k' n' : ℕ) (tls tls' : Bool) (path : Bytes) (x : ℕ)
      (w : Mctx × N)
      → IsFile path x w.0
      → let r = transfer_stor (memory_files now) (over_network up) k n tls stor path 0 w in
        let s = transfer_retr (memory_files later) (over_network down) k' n' tls' path 0 r.2 in
        r.0 ≡ some (ok tt)
        → s.0 ≡ some (ok tt)
        → (text : Bytes) × (arrived r.2.1 ≡ arrived w.1 ++ text)
          × (out s.2.1 ≡ out r.2.1 ++ text)
          × (r.1 ≡ length text)
          × (s.1 ≡ length text)
  stor_retr now later up down delivers carries k n k' n' tls tls' path x w file stored served =
      let r = transfer_stor (memory_files now) (over_network up) k n tls stor path 0 w in
      let s = transfer_retr (memory_files later) (over_network down) k' n' tls' path 0 r.2 in
      let a =
        all_through path (arrived w.1) r (stor-Holds arrived now up delivers path k n tls x w file)
          stored in
      let b =
        IsSent-all (sent out) (content path r.2) r.2 s
          (memory_retr-IsSent later down carries k' n' tls' path 0 r.2) served in
      (content path r.2, a.0, b.1, a.1, b.0)
