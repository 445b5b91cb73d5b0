-- ===== src/Memory/Serve.antt =====
-- src/fs_mem.c as the file system of a worker (src/transfer.c): what a transfer reads is what the memory holds.
-- The world is the memory with the network behind it, which the connection works on.
use openps3ftp.Base.{
  ℕ, zero, suc, ◌+◌, ◌-◌, ◌%◌, ◌≤◌, ◌<◌, ◌≡◌, refl, sym, ◌∙◌, ap, Bool, true, Option, none, some,
  List, [], ◌∷◌, ◌++◌, if◌then◌else◌, ◌==◌, ltb, Bytes, length, get_elem?, set, length-drop,
  length-take-le, take-append-drop, drop-drop, take, drop, arith, inl, inr, Bool-cases, >>=-eq-some,
  get_elem?-set, option_both_eq, if_both,
}
use openps3ftp.Session.{Result, ok, err}
use openps3ftp.Listing.{is_dir}
use openps3ftp.Worker.{Flags, Files, Channel, Sent, accepted, send_error, nothing, transfer_buf}
use openps3ftp.Worker.Laws.{Passes, Yields, IsFaithful, Opens, Seeks, IsReadable}
use openps3ftp.Memory.{Nodes, Mctx, Mfd, node_lookup}
use openps3ftp.Memory.Descriptors.{
  mem_open, open_node, take_slot, truncated, find_or_create, free_slot, opened_fd, mem_close,
  mem_read, read_at, mem_write, mem_seek, mem_fstat, used_fd, set_fd, forward, seek_set, wronly,
  rdonly,
}

-- the numbers of the flags
abbrev pub flag : Bool → ℕ → ℕ
flag b n = if b then n else 0

unfoldable pub flag_bits : Flags → ℕ
flag_bits f =
    (if f.writes then 2 else 1) + flag f.creates 64 + flag f.truncates 512 + flag f.appends 1024

-- the state of the memory and a result
abbrev pub beside {ℓ} : {A : Type ℓ} {N : Type 0} → N → A × Mctx → A × (Mctx × N)
beside n (a, m) = (a, (m, n))

abbrev pub forget {ℓ} : {A : Type ℓ} → Result A × Mctx → Result (Unit {0}) × Mctx
forget (ok a, m) = (ok tt, m)
forget (err e, m) = (err e, m)

module _ {N : Type 0} where
  -- mem_vtable, for the operations on descriptors, at a given time
  unfoldable pub memory_files : ℕ → Files (Mctx × N)
  unfolding flag_bits mem_open mem_close mem_read mem_write mem_seek mem_fstat
  memory_files now = record {
    open_file = λ path flags mode w. beside w.1 (mem_open now path (flag_bits flags) mode w.0);
    close = λ fd w. ((mem_close fd w.0).1, w.1);
    read = λ fd n w. beside w.1 (mem_read fd n w.0);
    write = λ fd b w. beside w.1 (mem_write now fd b w.0);
    seek = λ fd n w. beside w.1 (forget (mem_seek fd (forward n) seek_set w.0));
    fstat = λ fd w. (mem_fstat fd w.0, w);
  }

  -- a connection that works on the network only
  abbrev pub aside {ℓ} : {A : Type ℓ} → Mctx → A × N → A × (Mctx × N)
  aside m (a, n) = (a, (m, n))

  unfoldable pub over_network : Channel N → Channel (Mctx × N)
  over_network ch = record {
    cancelled = λ w. aside w.0 (ch.cancelled w.1);
    poll = λ b w. aside w.0 (ch.poll b w.1);
    send = λ b w. aside w.0 (ch.send b w.1);
    recv = λ n w. aside w.0 (ch.recv n w.1);
    tls_write = λ b w. aside w.0 (ch.tls_write b w.1);
    tls_read = λ n w. aside w.0 (ch.tls_read n w.1);
  }

-- what the file of a descriptor holds, and what is left of it behind the position; nothing for one not in use
abbrev pub contents_at : Option Mfd → Mctx → Bytes
contents_at none m = []
contents_at (some f) m = (m.nodes f.node).contents

abbrev pub left_at : Option Mfd → Mctx → Bytes
left_at none m = []
left_at (some f) m = drop f.pos (m.nodes f.node).contents

-- what a path names
abbrev pub content_at : Option ℕ → Nodes → Bytes
content_at none nodes = []
content_at (some n) nodes = (nodes n).contents

module _ {N : Type 0} where
  abbrev pub whole : ℕ → Mctx × N → Bytes
  whole fd w = contents_at (used_fd w.0 fd) w.0

  abbrev pub left : ℕ → Mctx × N → Bytes
  left fd w = left_at (used_fd w.0 fd) w.0

  abbrev pub content : Bytes → Mctx × N → Bytes
  content path w = content_at (node_lookup w.0 path) w.0.nodes

pub used_fd-set :
    (m m' : Mctx) (fd : ℕ) (f g : Mfd)
    → used_fd m fd ≡ some f
    → m'.fds ≡ set m.fds fd g
    → g.is_open ≡ true
    → used_fd m' fd ≡ some g
unfolding used_fd
used_fd-set m m' zero f g h e o = absurd cc
used_fd-set m m' (suc i) f g h e o =
    let (x, at, _) = >>=-eq-some (get_elem? m.fds (suc i)) _ h in
    rw (e, get_elem?-set m.fds (suc i) g at, o) refl

pub used_fd-open : (m : Mctx) (fd : ℕ) (f : Mfd) → used_fd m fd ≡ some f → f.is_open ≡ true
unfolding used_fd
used_fd-open m zero f h = absurd cc
used_fd-open m (suc i) f h =
    let (x, at, e) = >>=-eq-some (get_elem? m.fds (suc i)) _ h in
    elim (Bool-cases x.is_open) [ inl o ↦ ground (arith, o, e) | inr o ↦ ground (arith, o, e) ]

pub free_slot_lem :
    (i : ℕ) (fs : List Mfd) (s : ℕ)
    → free_slot i fs ≡ some s
    → (f : Mfd) × (j : ℕ) × (s ≡ i + j) × (get_elem? fs j ≡ some f)
unfolding free_slot
free_slot_lem i [] s h = absurd cc
free_slot_lem i (f ∷ fs) s h = elim (Bool-cases f.is_open) [
  | inr o ↦ (f, 0, ground (arith, o, h), refl)
  | inl o ↦
      let (g, j, e, at) = free_slot_lem (suc i) fs s (ground (arith, o, h)) in
      (g, suc j, omega (arith, e), at)
]

-- A descriptor that has just been given out is the one that was opened.
pub used_fd-taken :
    (m m' : Mctx) (s : ℕ) (g : Mfd)
    → free_slot 1 (drop 1 m.fds) ≡ some s
    → m'.fds ≡ set m.fds s g
    → g.is_open ≡ true
    → used_fd m' s ≡ some g
unfolding used_fd
used_fd-taken m m' s g h e o =
    let (f, j, same, at) = free_slot_lem 1 (drop 1 m.fds) s h in
    let there : s ≡ suc j = omega (arith, same) in
    let at' : get_elem? m.fds (suc j) ≡ some f = get_elem?-drop m.fds j at in
    let e' : m'.fds ≡ set m.fds (suc j) g = e ∙ ap (λ i. set m.fds i g) there in
    rw (there, e', get_elem?-set m.fds (suc j) g at', o) refl
  where
    get_elem?-drop :
        (xs : List Mfd) (j : ℕ) {f : Mfd}
        → get_elem? (drop 1 xs) j ≡ some f
        → get_elem? xs (suc j) ≡ some f
    get_elem?-drop [] j h = h
    get_elem?-drop (x ∷ xs) j h = h

-- A round of reading: `n < avail ? n : avail` bytes, none only when there are none.
abbrev at_most : ℕ → ℕ → ℕ
at_most n room = if ltb n room then n else room

at_most-le : (n room : ℕ) → at_most n room ≤ n
at_most-le n room = ground arith

kept_some : (k x : ℕ) (text : Bytes) → 0 < k → take k (x ∷ text) ≡ [] → x ∷ text ≡ []
kept_some zero x text h e = absurd (omega arith)
kept_some (suc k) x text h e = absurd cc

nothing_left : (n : ℕ) (text : Bytes) → 0 < n → take (at_most n (length text)) text ≡ [] → text ≡ []
nothing_left n [] h e = refl
nothing_left n (x ∷ text) h e = kept_some (at_most n (length (x ∷ text))) x text (ground arith) e

module _ {N : Type 0} (out : N → Bytes) where
  abbrev pub sent : Mctx × N → Bytes
  sent w = out w.1

  yields :
      (fd : ℕ) (w w' : Mctx × N) (chunk : Bytes)
      → length chunk ≤ transfer_buf
      → left fd w ≡ chunk ++ left fd w'
      → (chunk ≡ [] → left fd w ≡ [])
      → sent w' ≡ sent w
      → Yields sent left fd w (ok chunk, w')
  yields fd w w' [] small e end o = (end refl, rw (o, sym e) refl)
  yields fd w w' (b ∷ bs) small e end o = (small, e, o)

  read_at-Yields :
      (fd : ℕ) (m : Mctx) (n : N) (f : Mfd)
      → used_fd m fd ≡ some f
      → Yields sent left fd (m, n) (beside n (read_at fd transfer_buf m f))
  read_at-Yields fd m n f h =
      let text = (m.nodes f.node).contents in
      let k = at_most transfer_buf (length text - f.pos) in
      let g = record f { pos = f.pos + k } in
      let m' = set_fd fd g m in
      let before : left fd (m, n) ≡ drop f.pos text = rw h refl in
      let after : left fd (m', n) ≡ drop (f.pos + k) text =
        rw (used_fd-set m m' fd f g h refl (used_fd-open m fd f h)) refl in
      let room : length (drop f.pos text) ≡ length text - f.pos = length-drop f.pos text in
      yields fd (m, n) (m', n) (take k (drop f.pos text))
        (omega (
          arith,
          length-take-le k (drop f.pos text),
          at_most-le transfer_buf (length text - f.pos),
        ))
        (before
          ∙ sym (take-append-drop k (drop f.pos text))
          ∙ ap (λ l. take k (drop f.pos text) ++ l) (drop-drop f.pos k text ∙ sym after))
        (λ e. before ∙ nothing_left transfer_buf (drop f.pos text) (omega arith) (rw room e)) refl

  read-Yields :
      (now fd : ℕ) (w : Mctx × N)
      → Yields sent left fd w ((memory_files now).read fd transfer_buf w)
  unfolding memory_files mem_read
  read-Yields now fd w =
      option_both_eq (λ (r : Result Bytes × Mctx). Yields sent left fd w (beside w.1 r))
        (used_fd w.0 fd) refl
        (λ f e.
          if_both (λ (r : Result Bytes × Mctx). Yields sent left fd w (beside w.1 r))
            (f.flags % 4 == wronly) refl (read_at-Yields fd w.0 w.1 f e))

  -- what is relied on of the connection
  pub record Carries (ch : Channel N) : Type 0 where
    pub cancelled : (n : N) → out (ch.cancelled n).1 ≡ out n
    pub poll : (b : Bool) (n : N) → out (ch.poll b n).1 ≡ out n
    pub send : (buf : Bytes) (n : N) → Passes out (λ fd n. []) 0 buf n (ch.send buf n)
    pub tls_write : (buf : Bytes) (n : N) → Passes out (λ fd n. []) 0 buf n (ch.tls_write buf n)

  Passes-aside :
      (fd : ℕ) (buf : Bytes) (m : Mctx) (n : N) (r : Sent × N)
      → Passes out (λ fd n. []) 0 buf n r
      → Passes sent left fd buf (m, n) (aside m r)
  Passes-aside fd buf m n (accepted k, n') h =
      (h.0, ap (λ (v : Bytes × Bytes). (v.0, left fd (m, n))) h.1)
  Passes-aside fd buf m n (Sent.want_read, n') h =
      ap (λ (v : Bytes × Bytes). (v.0, left fd (m, n))) h
  Passes-aside fd buf m n (Sent.want_write, n') h =
      ap (λ (v : Bytes × Bytes). (v.0, left fd (m, n))) h
  Passes-aside fd buf m n (send_error e, n') h = ap (λ (v : Bytes × Bytes). (v.0, left fd (m, n))) h
  Passes-aside fd buf m n (nothing, n') h = ap (λ (v : Bytes × Bytes). (v.0, left fd (m, n))) h

  pub memory-IsFaithful :
      (now : ℕ) (ch : Channel N)
      → Carries ch
      → IsFaithful sent left (memory_files now) (over_network ch)
  unfolding over_network
  memory-IsFaithful now ch law = record {
    carries = record {
      cancelled = λ fd w. ap (λ o. (o, left fd w)) (law.cancelled w.1);
      poll = λ fd b w. ap (λ o. (o, left fd w)) (law.poll b w.1);
      send = λ fd b w. Passes-aside fd b w.0 w.1 (ch.send b w.1) (law.send b w.1);
      tls_write = λ fd b w. Passes-aside fd b w.0 w.1 (ch.tls_write b w.1) (law.tls_write b w.1);
    };
    read = λ fd w. read-Yields now fd w;
  }

  take_slot-Opens :
      (path : Bytes) (m : Mctx) (n : N) (x : ℕ) (s : Option ℕ)
      → node_lookup m path ≡ some x
      → free_slot 1 (drop 1 m.fds) ≡ s
      → Opens sent left whole content path (m, n) (beside n (take_slot rdonly x m s))
  take_slot-Opens path m n x none h e = refl
  take_slot-Opens path m n x (some s) h e =
      rw
        (
          h,
          used_fd-taken m (record m { fds = set m.fds s (opened_fd rdonly x m) }) s
              (opened_fd rdonly x m) e refl refl,
        )
        refl

  mem_open-Opens :
      (now : ℕ) (path : Bytes) (w : Mctx × N)
      → Opens sent left whole content path w (beside w.1 (mem_open now path rdonly 0 w.0))
  unfolding mem_open find_or_create truncated
  mem_open-Opens now path w =
      option_both_eq
        (λ (r : Result ℕ × Mctx).
          Opens sent left whole content path w (beside w.1 (open_node rdonly r)))
        (node_lookup w.0 path) refl
        (λ x e.
          if_both (λ (r : Result ℕ × Mctx). Opens sent left whole content path w (beside w.1 r))
            (is_dir (w.0.nodes x).mode) refl
            (take_slot-Opens path w.0 w.1 x (free_slot 1 (drop 1 w.0.fds)) e refl))

  mem_seek-Seeks :
      (fd k : ℕ) (w : Mctx × N)
      → Seeks sent left whole fd k w (beside w.1 (forget (mem_seek fd (forward k) seek_set w.0)))
  unfolding mem_seek
  mem_seek-Seeks fd k w =
      option_both_eq (λ (r : Result ℕ × Mctx). Seeks sent left whole fd k w (beside w.1 (forget r)))
        (used_fd w.0 fd) refl
        (λ f e.
          let g = record f { pos = 0 + k } in
          let at : 0 + k ≡ k = omega arith in
          rw (e, used_fd-set w.0 (set_fd fd g w.0) fd f g e refl (used_fd-open w.0 fd f e))
            (ap (λ (i : ℕ). (out w.1, drop i (w.0.nodes f.node).contents)) at))

  pub memory-IsReadable :
      (now : ℕ) (ch : Channel N)
      → IsReadable sent left whole content (memory_files now) (over_network ch)
  unfolding memory_files
  memory-IsReadable now ch = record {
    opens = mem_open-Opens now;
    seeks = mem_seek-Seeks;
    fstats = λ fd w. refl;
    closes = λ fd w. refl;
  }
