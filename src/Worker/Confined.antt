-- ===== src/Worker/Confined.antt =====
-- The copy job of src/transfer.c: it stays below its two roots.
pub mod Tree
use openps3ftp.Base.{
  ℕ, codes, ◌++◌, if◌then◌else◌, All, ◌∙◌, subst, append-nil, append_assoc, All-append, some-inj,
  str_eq_iff, zero, suc, ◌+◌, ◌≡◌, ◌⊎◌, inl, inr, refl, sym, ap, Bool, true, false, Option, none,
  some, List, [], ◌∷◌, Bytes, length, str_eq, is_nil, ◌==◌, leb, if_both, option_both_eq,
  option_both, arith,
}
use openps3ftp.Session.{ecanceled, eloop, enametoolong, einval, Result, ok, err, Stat, Dirent, Fs}
use openps3ftp.Path.{max_path}
use openps3ftp.Listing.{file_type, is_dir}
use openps3ftp.Commands.Common.{path_is_under}
use openps3ftp.Worker.{Files, Channel, Run, transfer_buf, fs_write_all}
use openps3ftp.Worker.Moves.{moved, unless_cancelled, read_only}
use openps3ftp.Worker.Copy.{
  copy_path, copy_join, copy_chunk, copy_loop, copy_flags, copy_end, copy_out_opened, copy_checked,
  copy_in_opened, copy_file,
}
use openps3ftp.Path.Tokens.{IsToken, join}
use openps3ftp.Path.Walk.{IsClean}
use openps3ftp.Worker.Keeps.{fs_write_all-keeps}
use openps3ftp.Worker.Directory.{Dirs}
use openps3ftp.Worker.Walk.{
  CopyDir, Walked, Onward, copied, joined, push_dir, copy_child, copy_entry, unless_stopped,
  copy_entries, dir_walked, dir_found, dst_made, dst_checked, copy_dir, dir_round, copy_tree,
  path_checked, transfer_copy, child_rel, is_dot,
}

-- a path inside the tree, given from its root: names, none of them empty, "." or "..", with slashes between them
abbrev pub InTree : Bytes → Type 0
InTree rel = (rel ≡ []) ⊎ ((cs : List Bytes) × All IsClean cs × (b'/' ∷ rel ≡ join cs))

abbrev pub below : Bytes → List Bytes → Bytes
below root cs = if str_eq root (codes "/") then join cs else root ++ join cs

-- the root itself, or a path that goes down from it by names, none of them empty, "." or ".."
abbrev pub Within : Bytes → Bytes → Type 0
Within root path = (path ≡ root) ⊎ ((cs : List Bytes) × All IsClean cs × (path ≡ below root cs))

copy_path-Within : (root rel : Bytes) → InTree rel → Within root (copy_path root rel)
unfolding copy_path
copy_path-Within root [] h = inl refl
copy_path-Within root (c ∷ rel) (inl e) = absurd cc
copy_path-Within root (c ∷ rel) (inr (cs, clean, e)) =
    inr (cs, clean, ap (λ (l : Bytes). if str_eq root (codes "/") then l else root ++ l) e)

pub copy_join-Within :
    (size : ℕ) (root rel path : Bytes)
    → InTree rel
    → copy_join size root rel ≡ some path
    → Within root path
unfolding copy_join
copy_join-Within size root rel path i h =
    subst (Within root) (by_size (leb size (length (copy_path root rel))) h)
      (copy_path-Within root rel i)
  where
    by_size : {x : Bytes} (b : Bool) → (if b then none else some x) ≡ some path → x ≡ path
    by_size true h = absurd cc
    by_size false h = some-inj h

join-snoc : (cs : List Bytes) (c : Bytes) → join cs ++ (b'/' ∷ c) ≡ join (cs ++ c ∷ [])
join-snoc [] c = ap (λ l. b'/' ∷ l) (sym (append-nil c))
join-snoc (d ∷ cs) c =
    ap (λ l. b'/' ∷ l) (append_assoc d (join cs) (b'/' ∷ c) ∙ ap (λ l. d ++ l) (join-snoc cs c))

-- the guard against "." and ".."
pub is_dot-IsClean : (name : Bytes) → IsToken name → is_dot name ≡ false → IsClean name
unfolding is_dot
is_dot-IsClean name t h = (
  t,
  (λ e.
      let dot : str_eq name (codes ".") ≡ true = (str_eq_iff name (codes ".")).1 e in
      let bad : true ≡ false = sym (rw dot refl) ∙ h in cc),
  (λ e.
      let dots : str_eq name (codes "..") ≡ true = (str_eq_iff name (codes "..")).1 e in
      absurd (ground (arith, dots, h))),
)

pub child_rel-InTree :
    (rel name path : Bytes)
    → InTree rel
    → IsClean name
    → child_rel rel name ≡ some path
    → InTree path
unfolding child_rel
child_rel-InTree [] name path i clean h =
    let e : name ≡ path = ground (arith, h) in
    inr (name ∷ [], (clean, tt), ap (λ l. b'/' ∷ l) (sym e ∙ sym (append-nil name)))
child_rel-InTree (c ∷ rel) name path (inl e) clean h = absurd cc
child_rel-InTree (c ∷ rel) name path (inr (cs, all, e)) clean h =
    let is : c ∷ (rel ++ (b'/' ∷ name)) ≡ path = ground (arith, h) in
    inr (
      cs ++ name ∷ [],
      All-append IsClean cs (name ∷ []) all (clean, tt),
      ap (λ l. b'/' ∷ l) (sym is) ∙ ap (λ l. l ++ (b'/' ∷ name)) e ∙ join-snoc cs name,
    )

module _ {W : Type 0} (P : W → Type 0) (fs : Fs W) (dirs : Dirs W) (files : Files W)
    (ch : Channel W) (src dst : Bytes) where
  -- What is kept by calls on the data of open files and directories, by those that look at a path below one of the roots,
  -- and by those that change a path below the destination. The names in a directory are not empty and have no slash.
  pub record IsKeptBelow : Type 0 where
    pub cancelled : (w : W) → P w → P (ch.cancelled w).1
    pub reads : (fd : ℕ) (w : W) → P w → P (files.read fd transfer_buf w).1
    pub writes : (fd : ℕ) (buf : Bytes) (w : W) → P w → P (files.write fd buf w).1
    pub closes : (fd : ℕ) (w : W) → P w → P (files.close fd w)
    pub readdirs : (dir : ℕ) (w : W) → P w → P (dirs.readdir dir w).1
    pub names :
        (dir : ℕ) (w w' : W) (de : Dirent)
        → dirs.readdir dir w ≡ (ok (some de), w')
        → IsToken de.name
    pub closedirs : (dir : ℕ) (w : W) → P w → P (fs.closedir dir w)
    pub src_stats : (path : Bytes) (w : W) → Within src path → P w → P (fs.stat path w).1
    pub dst_stats : (path : Bytes) (w : W) → Within dst path → P w → P (fs.stat path w).1
    pub opendirs : (path : Bytes) (w : W) → Within src path → P w → P (fs.opendir path w).1
    pub opens :
        (path : Bytes) (w : W)
        → Within src path
        → P w
        → P (files.open_file path (read_only files ch) 0 w).1
    pub creates :
        (path : Bytes) (w : W)
        → Within dst path
        → P w
        → P (files.open_file path (copy_flags fs files ch) 420 w).1
    pub mkdirs : (path : Bytes) (w : W) → Within dst path → P w → P (fs.mkdir path 493 w).1
    pub unlinks : (path : Bytes) (w : W) → Within dst path → P w → P (fs.unlink path w).1

  module _ (law : IsKeptBelow) where
    moved-keeps :
        (again : ℕ → W → Run W) (len count : ℕ) (r : Option (Result (Unit {0})) × W)
        → ((c : ℕ) (w : W) → P w → P (again c w).2)
        → P r.1
        → P (moved files ch again len count r).2
    unfolding moved
    moved-keeps again len count (some (ok u), w) h k = h _ w k
    moved-keeps again len count (some (err e), w) h k = k
    moved-keeps again len count (none, w) h k = k

    copy_chunk-keeps :
        (again : ℕ → W → Run W) (n out count : ℕ) (r : Result Bytes × W)
        → ((c : ℕ) (w : W) → P w → P (again c w).2)
        → P r.1
        → P (copy_chunk fs files ch again n out count r).2
    unfolding copy_chunk
    copy_chunk-keeps again n out count (ok [], w) h k = k
    copy_chunk-keeps again n out count (ok (b ∷ buf), w) h k =
        moved-keeps again (length (b ∷ buf)) count (fs_write_all files n out (b ∷ buf) w) h
          (fs_write_all-keeps P out files (law.writes out) n (b ∷ buf) w k)
    copy_chunk-keeps again n out count (err e, w) h k = k

    unless_cancelled-keeps :
        (go : W → Run W) (count : ℕ) (r : Bool × W)
        → ((w : W) → P w → P (go w).2)
        → P r.1
        → P (unless_cancelled files ch go count r).2
    unless_cancelled-keeps go count (true, w) h k = k
    unless_cancelled-keeps go count (false, w) h k = h w k

    copy_loop-keeps :
        (m n into out count : ℕ) (w : W) → P w → P (copy_loop fs files ch m n into out count w).2
    unfolding copy_loop
    copy_loop-keeps zero n into out count w h = h
    copy_loop-keeps (suc m) n into out count w h =
        unless_cancelled-keeps
          (λ v.
            copy_chunk fs files ch (copy_loop fs files ch m n into out) n out count
              (files.read into transfer_buf v))
          count (ch.cancelled w)
          (λ v k.
            copy_chunk-keeps (copy_loop fs files ch m n into out) n out count
              (files.read into transfer_buf v) (λ c u. copy_loop-keeps m n into out c u)
              (law.reads into v k))
          (law.cancelled w h)

    copy_end-keeps :
        (existed : Bool) (path : Bytes) (into out : ℕ) (r : Run W)
        → Within dst path
        → P r.2
        → P (copy_end fs files ch existed path into out r).2
    unfolding copy_end
    copy_end-keeps existed path into out (none, count, w) i h = h
    copy_end-keeps existed path into out (some (ok u), count, w) i h =
        law.closes out _ (law.closes into w h)
    copy_end-keeps existed path into out (some (err e), count, w) i h =
        let closed = law.closes out _ (law.closes into w h) in
        if_both P existed closed (law.unlinks path _ i closed)

    copy_out_opened-keeps :
        (m n : ℕ) (existed : Bool) (path : Bytes) (into count : ℕ) (r : Result ℕ × W)
        → Within dst path
        → P r.1
        → P (copy_out_opened fs files ch m n existed path into count r).2
    copy_out_opened-keeps m n existed path into count (ok out, w) i h =
        copy_end-keeps existed path into out (copy_loop fs files ch m n into out count w) i
          (copy_loop-keeps m n into out count w h)
    copy_out_opened-keeps m n existed path into count (err e, w) i h = law.closes into w h

    copy_checked-keeps :
        (m n : ℕ) (path : Bytes) (into count : ℕ) (r : Result Stat × W)
        → Within dst path
        → P r.1
        → P (copy_checked fs files ch m n path into count r).2
    copy_checked-keeps m n path into count (ok st, w) i h =
        copy_out_opened-keeps m n true path into count _ i (law.creates path w i h)
    copy_checked-keeps m n path into count (err e, w) i h =
        copy_out_opened-keeps m n false path into count _ i (law.creates path w i h)

    copy_in_opened-keeps :
        (m n : ℕ) (path : Bytes) (count : ℕ) (r : Result ℕ × W)
        → Within dst path
        → P r.1
        → P (copy_in_opened fs files ch m n path count r).2
    copy_in_opened-keeps m n path count (ok into, w) i h =
        copy_checked-keeps m n path into count (fs.stat path w) i (law.dst_stats path w i h)
    copy_in_opened-keeps m n path count (err e, w) i h = h

    pub copy_file-keeps :
        (m n : ℕ) (s d : Bytes) (count : ℕ) (w : W)
        → Within src s
        → Within dst d
        → P w
        → P (copy_file fs files ch m n s d count w).2
    unfolding copy_file
    copy_file-keeps m n s d count w i j h = copy_in_opened-keeps m n d count _ j (law.opens s w i h)
