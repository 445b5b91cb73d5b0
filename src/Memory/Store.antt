-- ===== src/Memory/Store.antt =====
-- src/fs_mem.c as the file system of a worker (src/transfer.c): what STOR and APPE leave in the memory.
use openps3ftp.Base.{
  ℕ, zero, suc, ◌+◌, ◌-◌, ◌%◌, ◌≤◌, ◌≡◌, refl, sym, ◌∙◌, ap, Option, none, some, [], ◌∷◌, ◌++◌,
  if◌then◌else◌, ◌==◌, Bytes, length, take, drop, replicate, arith, option_both_eq, if_both,
  append_assoc, append-nil, length-append, take-eq_of_le, length-replicate, drop-eq_of_le,
  option_some,
}
use openps3ftp.Session.{Result, err}
use openps3ftp.Worker.Laws.{Writes}
use openps3ftp.Memory.{Mctx, ebadf, Mfd, Mnode, node_lookup}
use openps3ftp.Memory.Lookup.{modify_same, SameTree-modify, node_lookup-SameTree}
use openps3ftp.Memory.Descriptors.{
  mem_write, write_at, put_bytes, overwrite, grown, used_fd, rdonly,
}
use openps3ftp.Memory.Serve.{memory_files, beside, content, content_at, used_fd-set, used_fd-open}

-- The first bytes of a file up to a position, with zeros where it has none: what a write there does not touch.
abbrev pub padded : ℕ → Bytes → Bytes
padded zero text = []
padded (suc p) [] = 0 ∷ padded p []
padded (suc p) (x ∷ text) = x ∷ padded p text

take-padded :
    (p k : ℕ) (text : Bytes) → p ≤ length text + k → take p (text ++ replicate k 0) ≡ padded p text
take-padded zero k text h = refl
take-padded (suc p) zero [] h = absurd (omega arith)
take-padded (suc p) (suc k) [] h = ap (◌∷◌ 0) (take-padded p k [] (omega arith))
take-padded (suc p) k (x ∷ text) h = ap (◌∷◌ x) (take-padded p k text (omega arith))

length-padded : (p : ℕ) (text : Bytes) → length (padded p text) ≡ p
length-padded zero text = refl
length-padded (suc p) [] = omega (arith, length-padded p [])
length-padded (suc p) (x ∷ text) = omega (arith, length-padded p text)

padded-append : (l d : Bytes) (p : ℕ) → length l ≡ p → padded p (l ++ d) ≡ l
padded-append [] d zero h = refl
padded-append [] d (suc p) h = absurd (omega arith)
padded-append (x ∷ l) d zero h = absurd (omega arith)
padded-append (x ∷ l) d (suc p) h = ap (◌∷◌ x) (padded-append l d p (omega arith))

padded-length : (text : Bytes) → padded (length text) text ≡ text
padded-length [] = refl
padded-length (x ∷ text) = ap (◌∷◌ x) (padded-length text)

-- A write keeps what is before its position, padded, then has its bytes, and keeps what is behind them.
overwrite_lem :
    (text : Bytes) (p : ℕ) (buf : Bytes)
    → overwrite text p buf
      ≡ (padded p text ++ buf) ++ drop (p + length buf) (grown text (p + length buf))
unfolding overwrite
overwrite_lem text p buf =
    let need = p + length buf in
    ap (λ l. l ++ (buf ++ drop need (grown text need)))
      (take-padded p (need - length text) text (omega arith))
    ∙ sym (append_assoc (padded p text) buf (drop need (grown text need)))

-- what has been written through a descriptor, with what it began behind
abbrev pub written_at : Option Mfd → Mctx → Bytes
written_at none m = []
written_at (some f) m = padded f.pos (m.nodes f.node).contents

module _ {N : Type 0} where
  abbrev pub written : ℕ → Mctx × N → Bytes
  written fd w = written_at (used_fd w.0 fd) w.0

  pub write-Writes :
      (now fd : ℕ) (arrived : N → Bytes) (buf : Bytes) (w : Mctx × N)
      → Writes written (λ (w : Mctx × N). arrived w.1) fd buf w ((memory_files now).write fd buf w)
  unfolding memory_files mem_write
  write-Writes now fd arrived buf w =
      let P : Result ℕ × Mctx → Type 0 =
        λ r. Writes written (λ (w : Mctx × N). arrived w.1) fd buf w (beside w.1 r) in
      option_both_eq P (used_fd w.0 fd) refl
        (λ f e. if_both P (f.flags % 4 == rdonly) refl (step f e))
    where
      step :
          (f : Mfd)
          → used_fd w.0 fd ≡ some f
          → Writes written
              (λ (w : Mctx × N). arrived w.1)
              fd
              buf
              w
              (beside w.1 (write_at now fd buf w.0 f))
      step f e =
          let g = record f { pos = f.pos + length buf } in
          let m' = (write_at now fd buf w.0 f).1 in
          let text = (w.0.nodes f.node).contents in
          let need = f.pos + length buf in
          let at : used_fd m' fd ≡ some g =
            used_fd-set w.0 m' fd f g e refl (used_fd-open w.0 fd f e) in
          let there : (m'.nodes f.node).contents ≡ overwrite text f.pos buf =
            ap (λ (d : Mnode). d.contents)
              (modify_same w.0.nodes f.node (put_bytes now f.pos buf)) in
          let after : written fd (m', w.1) ≡ padded f.pos text ++ buf =
            ap (λ o. written_at o m') at
            ∙ ap (padded need) (there ∙ overwrite_lem text f.pos buf)
            ∙ padded-append (padded f.pos text ++ buf) (drop need (grown text need)) need
                (omega (arith, length-append (padded f.pos text) buf, length-padded f.pos text)) in
          let before : written fd w ≡ padded f.pos text = ap (λ o. written_at o w.0) e in
          (omega arith, rw (after, before, take-eq_of_le (length buf) buf (omega arith)) refl)

-- A descriptor stands at the end of the file that a path names.
pub record IsAtEnd (path : Bytes) (fd : ℕ) (m : Mctx) : Type 0 where
  pub file : Mfd
  pub used : used_fd m fd ≡ some file
  pub end : file.pos ≡ length (m.nodes file.node).contents
  pub found : node_lookup m path ≡ some file.node

length-overwrite :
    (text buf : Bytes) → length (overwrite text (length text) buf) ≡ length text + length buf
length-overwrite text buf =
    let need = length text + length buf in
    let fits : length (grown text need) ≤ need = omega (
      arith,
      length-append text (replicate (need - length text) 0),
      length-replicate {A = ℕ} (need - length text) 0,
    ) in
    ap length (
      overwrite_lem text (length text) buf
      ∙ ap (λ l. (padded (length text) text ++ buf) ++ l)
          (drop-eq_of_le need (grown text need) fits)
      ∙ append-nil (padded (length text) text ++ buf))
    ∙ omega (arith, length-append (padded (length text) text) buf, length-padded (length text) text)

write_at-IsAtEnd :
    (path : Bytes) (now fd : ℕ) (buf : Bytes) (m : Mctx) (h : IsAtEnd path fd m)
    → IsAtEnd path fd (write_at now fd buf m h.file).1
write_at-IsAtEnd path now fd buf m h =
    let f = h.file in
    let g = record f { pos = f.pos + length buf } in
    let m' = (write_at now fd buf m f).1 in
    let text = (m.nodes f.node).contents in
    let there : (m'.nodes f.node).contents ≡ overwrite text f.pos buf =
      ap (λ (d : Mnode). d.contents) (modify_same m.nodes f.node (put_bytes now f.pos buf)) in
    record {
      file = g;
      used = used_fd-set m m' fd f g h.used refl (used_fd-open m fd f h.used);
      end =
          ap (λ p. p + length buf) h.end
          ∙ sym (length-overwrite text buf)
          ∙ ap (λ p. length (overwrite text p buf)) (sym h.end)
          ∙ sym (ap length there);
      found =
          node_lookup-SameTree m' m path
            (SameTree-modify m.nodes f.node (put_bytes now f.pos buf) (λ d. refl) (λ d. refl)) refl
          ∙ h.found;
    }

pub mem_write-IsAtEnd :
    (path : Bytes) (now fd : ℕ) (buf : Bytes) (m : Mctx)
    → IsAtEnd path fd m
    → IsAtEnd path fd (mem_write now fd buf m).1
unfolding mem_write
mem_write-IsAtEnd path now fd buf m h =
    let P : Result ℕ × Mctx → Type 0 = λ r. IsAtEnd path fd r.1 in
    option_some P (used_fd m fd) (err ebadf, m)
      (λ f. if f.flags % 4 == rdonly then (err ebadf, m) else write_at now fd buf m f) h.used
      (if_both P (h.file.flags % 4 == rdonly) h (write_at-IsAtEnd path now fd buf m h))

-- At the end of its file, what stands before a descriptor is the file.
pub written-content :
    {N : Type 0} (path : Bytes) (fd : ℕ) (w : Mctx × N)
    → IsAtEnd path fd w.0
    → written fd w ≡ content path w
written-content path fd w h =
    let text = (w.0.nodes h.file.node).contents in
    ap (λ o. written_at o w.0) h.used
    ∙ ap (λ p. padded p text) h.end
    ∙ padded-length text
    ∙ sym (ap (λ o. content_at o w.0.nodes) h.found)
