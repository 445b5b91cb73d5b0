-- ===== src/Memory/Upload.antt =====
-- src/fs_mem.c under transfer_stor of src/transfer.c: what STOR and APPE leave in a file that exists.
use openps3ftp.Base.{
  ℕ, ◌≡◌, refl, sym, ◌∙◌, ap, subst, Bool, false, ◌&&◌, Option, none, some, [], ◌++◌, if◌then◌else◌,
  Bytes, length, set, drop, arith, ltb, append-nil, if_both, option_both, option_some,
}
use openps3ftp.Session.{Errno, enoent, Result, ok, err, JobOp, stor, appe}
use openps3ftp.Worker.{Channel, Run, Arrived, bytes, recv_error}
use openps3ftp.Worker.Moves.{transfer_stor, stor_loop, stor_opened, closing, is_stor}
use openps3ftp.Worker.Laws.{Receives, IsKeeping}
use openps3ftp.Worker.Keeps.{IsKept, stor_loop-keeps}
use openps3ftp.Worker.Retr.{Through}
use openps3ftp.Worker.Stor.{stor_loop-IsStored}
use openps3ftp.Memory.{Mctx, Mnode, emfile, ebadf, modify, node_lookup, node_lookup_parent}
use openps3ftp.Memory.Lookup.{IsFile, modify_same, SameTree-modify, node_lookup-SameTree}
use openps3ftp.Memory.Descriptors.{
  mem_open, open_node, take_slot, truncated, has_bit, trunc, creat, create_in, find_or_create,
  free_slot, opened_fd, mem_close, used_fd, set_fd,
}
use openps3ftp.Memory.Serve.{
  memory_files, over_network, aside, beside, content, content_at, used_fd-taken,
}
use openps3ftp.Memory.Store.{written, write-Writes, IsAtEnd, mem_write-IsAtEnd, written-content}

module _ {N : Type 0} (arrived : N → Bytes) where
  abbrev pub got : Mctx × N → Bytes
  got w = arrived w.1

  -- what is relied on of the connection
  pub record Delivers (ch : Channel N) : Type 0 where
    pub cancelled : (n : N) → arrived (ch.cancelled n).1 ≡ arrived n
    pub poll : (b : Bool) (n : N) → arrived (ch.poll b n).1 ≡ arrived n
    pub recv : (room : ℕ) (n : N) → Receives (λ fd n. []) arrived 0 n (ch.recv room n)
    pub tls_read : (room : ℕ) (n : N) → Receives (λ fd n. []) arrived 0 n (ch.tls_read room n)

  Receives-aside :
      (fd : ℕ) (m : Mctx) (n : N) (r : Arrived × N)
      → Receives (λ fd n. []) arrived 0 n r
      → Receives written got fd (m, n) (aside m r)
  Receives-aside fd m n (bytes b, n') h = ap (λ (v : Bytes × Bytes). (written fd (m, n), v.1)) h
  Receives-aside fd m n (Arrived.want_read, n') h =
      ap (λ (v : Bytes × Bytes). (written fd (m, n), v.1)) h
  Receives-aside fd m n (Arrived.want_write, n') h =
      ap (λ (v : Bytes × Bytes). (written fd (m, n), v.1)) h
  Receives-aside fd m n (recv_error e, n') h =
      ap (λ (v : Bytes × Bytes). (written fd (m, n), v.1)) h

  pub memory-IsKeeping :
      (now : ℕ) (ch : Channel N)
      → Delivers ch
      → IsKeeping written got (memory_files now) (over_network ch)
  unfolding over_network
  memory-IsKeeping now ch law = record {
    cancelled = λ fd w. ap (λ a. (written fd w, a)) (law.cancelled w.1);
    poll = λ fd b w. ap (λ a. (written fd w, a)) (law.poll b w.1);
    recv = λ fd room w. Receives-aside fd w.0 w.1 (ch.recv room w.1) (law.recv room w.1);
    tls_read =
        λ fd room w. Receives-aside fd w.0 w.1 (ch.tls_read room w.1) (law.tls_read room w.1);
    writes = λ fd b w. write-Writes now fd arrived b w;
  }

  IsAtEnd-IsKept :
      (now : ℕ) (ch : Channel N) (path : Bytes) (fd : ℕ)
      → IsKept (λ (w : Mctx × N). IsAtEnd path fd w.0) fd (memory_files now) (over_network ch)
  unfolding over_network memory_files
  IsAtEnd-IsKept now ch path fd = record {
    cancelled = λ w h. h;
    poll = λ b w h. h;
    recv = λ room w h. h;
    tls_read = λ room w h. h;
    writes = λ b w h. mem_write-IsAtEnd path now fd b w.0 h;
  }

  -- The file of a path has its old bytes and then the first of those received, and all of them if the result says so;
  -- `start` is what had been received before.
  pub record Holds (path before start : Bytes) (r : Run (Mctx × N)) : Type 0 where
    pub kept : Bytes
    pub lost : Bytes
    pub received : got r.2 ≡ start ++ (kept ++ lost)
    pub stored : content path r.2 ≡ before ++ kept
    pub through : Through r.0 0 r.1 kept lost

  module _ (now : ℕ) (ch : Channel N) (law : Delivers ch) (path : Bytes) where
    loop-Holds :
        (m n : ℕ) (tls : Bool) (fd : ℕ) (w : Mctx × N)
        → IsAtEnd path fd w.0
        → Holds path
            (content path w)
            (got w)
            (stor_loop (memory_files now) (over_network ch) m n tls fd 0 w)
    loop-Holds m n tls fd w h =
        let files = memory_files now in
        let r = stor_loop files (over_network ch) m n tls fd 0 w in
        let s =
          stor_loop-IsStored written got fd files (over_network ch) (memory-IsKeeping now ch law) m
            n tls 0 w in
        let k : IsAtEnd path fd r.2.0 =
          stor_loop-keeps (λ (w : Mctx × N). IsAtEnd path fd w.0) fd files (over_network ch)
            (IsAtEnd-IsKept now ch path fd) m n tls 0 w h in
        record {
          kept = s.kept;
          lost = s.lost;
          received = s.received;
          stored =
              sym (written-content path fd r.2 k)
              ∙ s.stored
              ∙ ap (λ b. b ++ s.kept) (written-content path fd w h);
          through = s.through;
        }

    close-content :
        (fd : ℕ) (w : Mctx × N) → content path ((mem_close fd w.0).1, w.1) ≡ content path w
    unfolding mem_close node_lookup
    close-content fd w =
        option_both
          (λ (r : Result (Unit {0}) × Mctx). content {N = N} path (r.1, w.1) ≡ content path w)
          (used_fd w.0 fd) {x = (err ebadf, w.0)}
          {f = λ f. (ok tt, set_fd fd (record f { is_open = false }) w.0)} refl (λ f. refl)

    closing-Holds :
        (before : Bytes) (fd : ℕ) (w : Mctx × N) (r : Run (Mctx × N))
        → Holds path before (got w) r
        → Holds path before (got w) (closing (memory_files now) (over_network ch) fd r)
    unfolding memory_files
    closing-Holds before fd w (rc, count, w') h = record {
      kept = h.kept;
      lost = h.lost;
      received = h.received;
      stored = close-content fd w' ∙ h.stored;
      through = h.through;
    }

    -- nothing was received
    failed :
        (before : Bytes) (w w' : Mctx × N) (e : Errno)
        → got w' ≡ got w
        → content path w' ≡ before
        → Holds path before (got w) (some (err e), 0, w')
    failed before w w' e a c = record {
      kept = [];
      lost = [];
      received = a ∙ sym (append-nil (got w));
      stored = c ∙ sym (append-nil before);
      through = tt;
    }

    truncated-found :
        (flags x : ℕ) (m : Mctx)
        → node_lookup m path ≡ some x
        → node_lookup (truncated flags x m) path ≡ some x
    unfolding truncated
    truncated-found flags x m h =
        let clear : Mnode → Mnode = λ d. record d { contents = [] } in
        if_both (λ m'. node_lookup m' path ≡ some x) (has_bit flags trunc)
          (node_lookup-SameTree (record m { nodes = modify x clear m.nodes }) m path
              (SameTree-modify m.nodes x clear (λ d. refl) (λ d. refl)) refl
            ∙ h)
          h

    slot-IsAtEnd :
        (flags x s : ℕ) (m : Mctx)
        → node_lookup m path ≡ some x
        → free_slot 1 (drop 1 m.fds) ≡ some s
        → (opened_fd flags x m).pos ≡ length (m.nodes x).contents
        → IsAtEnd path s (record m { fds = set m.fds s (opened_fd flags x m) })
    unfolding node_lookup
    slot-IsAtEnd flags x s m h e at = record {
      file = opened_fd flags x m;
      used =
          used_fd-taken m (record m { fds = set m.fds s (opened_fd flags x m) }) s
            (opened_fd flags x m) e refl refl;
      end = at;
      found = h;
    }

    slot-Holds :
        (k n : ℕ) (tls : Bool) (op : JobOp) (rest flags x : ℕ) (w : Mctx × N) (o : Option ℕ)
        → (ltb 0 rest && is_stor (memory_files {N = N} now) (over_network ch) op) ≡ false
        → node_lookup w.0 path ≡ some x
        → free_slot 1 (drop 1 w.0.fds) ≡ o
        → (opened_fd flags x w.0).pos ≡ length (w.0.nodes x).contents
        → Holds path (w.0.nodes x).contents (got w) (
            stor_opened
              (memory_files now)
              (over_network ch)
              k
              n
              tls
              op
              rest
              (beside w.1 (take_slot flags x w.0 o)))
    unfolding node_lookup
    slot-Holds k n tls op rest flags x w none seek h e at =
        failed (w.0.nodes x).contents w w emfile refl (ap (λ o. content_at o w.0.nodes) h)
    slot-Holds k n tls op rest flags x w (some s) seek h e at =
        let w' : Mctx × N = (record w.0 { fds = set w.0.fds s (opened_fd flags x w.0) }, w.1) in
        let good : IsAtEnd path s w'.0 = slot-IsAtEnd flags x s w.0 h e at in
        rw seek (
          closing-Holds (w.0.nodes x).contents s w
            (stor_loop (memory_files now) (over_network ch) k n tls s 0 w')
            (subst
              (λ b.
                Holds path b (got w)
                  (stor_loop (memory_files now) (over_network ch) k n tls s 0 w'))
              (ap (λ o. content_at o w.0.nodes) h) (loop-Holds k n tls s w' good)))

    mem_open-file :
        (flags mode x : ℕ) (m : Mctx)
        → IsFile path x m
        → mem_open now path flags mode m
          ≡ take_slot flags x (truncated flags x m) (free_slot 1 (drop 1 m.fds))
    unfolding mem_open find_or_create IsFile
    mem_open-file flags mode x m (found, file) =
        option_some
          (λ r.
            open_node flags r
            ≡ take_slot flags x (truncated flags x m) (free_slot 1 (drop 1 m.fds)))
          (node_lookup m path)
          (if has_bit flags creat
            then create_in now mode m (node_lookup_parent m path)
            else (err enoent, m))
          (λ n. (ok n, m)) found (rw file refl)

    pub stor-Holds :
        (k n : ℕ) (tls : Bool) (x : ℕ) (w : Mctx × N)
        → IsFile path x w.0
        → Holds path []
            (got w)
            (transfer_stor (memory_files now) (over_network ch) k n tls stor path 0 w)
    unfolding transfer_stor memory_files truncated IsFile
    stor-Holds k n tls x w h =
        let clear : Mnode → Mnode = λ d. record d { contents = [] } in
        let m : Mctx = record w.0 { nodes = modify x clear w.0.nodes } in
        let empty : (m.nodes x).contents ≡ [] =
          ap (λ (d : Mnode). d.contents) (modify_same w.0.nodes x clear) in
        subst
          (λ r.
            Holds path [] (got w)
              (stor_opened (memory_files now) (over_network ch) k n tls stor 0 (beside w.1 r)))
          (sym (mem_open-file 578 420 x w.0 h))
          (subst
            (λ b. Holds path b (got w) (
              stor_opened (memory_files now) (over_network ch) k n tls stor 0
                (beside w.1 (take_slot 578 x m (free_slot 1 (drop 1 m.fds))))))
            empty
            (slot-Holds k n tls stor 0 578 x (m, w.1) (free_slot 1 (drop 1 m.fds)) refl
              (truncated-found 578 x w.0 h.0) refl (ap length (sym empty))))

    pub appe-Holds :
        (k n : ℕ) (tls : Bool) (rest x : ℕ) (w : Mctx × N)
        → IsFile path x w.0
        → Holds path
            (w.0.nodes x).contents
            (got w)
            (transfer_stor (memory_files now) (over_network ch) k n tls appe path rest w)
    unfolding transfer_stor memory_files truncated IsFile
    appe-Holds k n tls rest x w h =
        subst
          (λ r.
            Holds path (w.0.nodes x).contents (got w)
              (stor_opened (memory_files now) (over_network ch) k n tls appe rest (beside w.1 r)))
          (sym (mem_open-file 1090 420 x w.0 h))
          (slot-Holds k n tls appe rest 1090 x w (free_slot 1 (drop 1 w.0.fds)) (ground arith) h.0
            refl refl)
