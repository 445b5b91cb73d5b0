-- ===== src/Worker/Confined/Tree.antt =====
-- The walk of a tree in src/transfer.c: it stays below the two roots of the copy.
use openps3ftp.Base.{
  ℕ, All, Bool-cases, inr, ◌≡◌, zero, suc, ◌+◌, inl, refl, Bool, true, false, Option, none, some,
  List, [], ◌∷◌, Bytes, str_eq, ◌==◌, leb, if_both, option_both_eq,
}
use openps3ftp.Session.{enametoolong, Result, ok, err, Stat, Dirent, Fs}
use openps3ftp.Path.{max_path}
use openps3ftp.Listing.{file_type, is_dir}
use openps3ftp.Worker.{Files, Channel, Run}
use openps3ftp.Worker.Copy.{copy_join, copy_file}
use openps3ftp.Worker.Directory.{Dirs}
use openps3ftp.Worker.Walk.{
  CopyDir, Walked, Onward, copied, joined, copy_child, copy_entry, unless_stopped, copy_entries,
  dir_walked, dir_found, dst_made, dst_checked, copy_dir, dir_round, copy_tree, path_checked,
  transfer_copy, child_rel, is_dot, copy_max_depth,
}
use openps3ftp.Worker.Confined.{
  Within, InTree, IsKeptBelow, copy_join-Within, copy_file-keeps, is_dot-IsClean, child_rel-InTree,
}
use openps3ftp.Path.Tokens.{IsToken}

module _ {W : Type 0} (P : W → Type 0) (fs : Fs W) (dirs : Dirs W) (files : Files W)
    (ch : Channel W) (src dst : Bytes) (law : IsKeptBelow P fs dirs files ch src dst) where
  -- the directories that are still to be walked are in the tree
  abbrev Pending : List CopyDir → Type 0
  Pending = All (λ d. InTree d.rel)

  -- what a walk leaves
  Kept : Walked W → Type 0
  Kept r = Pending r.2 × P r.3

  Goes : Onward fs dirs files ch src dst → Type 0
  Goes again = (stack : List CopyDir) (c : ℕ) (w : W) → Pending stack → P w → Kept (again stack c w)

  copied-keeps :
      (again : Onward fs dirs files ch src dst) (stack : List CopyDir) (r : Run W)
      → Goes again
      → Pending stack
      → P r.2
      → Kept (copied fs dirs files ch src dst again stack r)
  unfolding Kept Goes
  copied-keeps again stack (some (ok u), count, w) h q k = h stack count w q k
  copied-keeps again stack (some (err e), count, w) h q k = (q, k)
  copied-keeps again stack (none, count, w) h q k = (q, k)

  joined-keeps :
      {A : Type 0} (Q : A → Type 0) (rel : Bytes) (x : A) (go : Bytes → Bytes → A)
      → InTree rel
      → Q x
      → ((s d : Bytes) → Within src s → Within dst d → Q (go s d))
      → Q (joined fs dirs files ch src dst rel x go)
  unfolding joined
  joined-keeps Q rel x go i h k = option_both_eq Q (copy_join max_path src rel) h (λ s e.
      option_both_eq Q (copy_join max_path dst rel) h (λ d e'.
        k s d (copy_join-Within max_path src rel s i e) (copy_join-Within max_path dst rel d i e')))

  copy_child-keeps :
      (again : Onward fs dirs files ch src dst) (m n depth type : ℕ) (rel : Bytes)
      (stack : List CopyDir) (count : ℕ) (w : W)
      → Goes again
      → InTree rel
      → Pending stack
      → P w
      → Kept (copy_child fs dirs files ch src dst again m n depth type rel stack count w)
  unfolding copy_child Kept Goes
  copy_child-keeps again m n depth type rel stack count w h t q k =
      if_both Kept (type == 4)
        (if_both Kept (leb copy_max_depth (depth + 1)) (q, k) (h _ count w (t, q) k))
        (if_both Kept (type == 8)
          (joined-keeps Kept rel (some (err enametoolong), count, stack, w)
            (λ s d.
              copied fs dirs files ch src dst again stack (copy_file fs files ch m n s d count w))
            t (q, k)
            (λ s d i j.
              copied-keeps again stack (copy_file fs files ch m n s d count w) h q
                (copy_file-keeps P fs dirs files ch src dst law m n s d count w i j k)))
          (h stack count w q k))

  copy_entry-keeps :
      (again : Onward fs dirs files ch src dst) (m n : ℕ) (d : CopyDir) (stack : List CopyDir)
      (count : ℕ) (r : Result (Option Dirent) × W)
      → Goes again
      → InTree d.rel
      → ((de : Dirent) (w : W) → r ≡ (ok (some de), w) → IsToken de.name)
      → Pending stack
      → P r.1
      → Kept (copy_entry fs dirs files ch src dst again m n d stack count r)
  unfolding copy_entry Kept Goes
  copy_entry-keeps again m n d stack count (err e, w) h i t q k = (q, k)
  copy_entry-keeps again m n d stack count (ok none, w) h i t q k = (q, k)
  copy_entry-keeps again m n d stack count (ok (some de), w) h i t q k =
      elim (Bool-cases (is_dot de.name)) [
        | inl dot ↦ rw dot (h stack count w q k)
        | inr name ↦ rw name (
            option_both_eq Kept (child_rel d.rel de.name) (q, k)
              (λ rel e.
                copy_child-keeps again m n d.depth (file_type de.mode) rel stack count w h
                  (child_rel-InTree d.rel de.name rel i (is_dot-IsClean de.name (t de w refl) name)
                    e)
                  q k))
      ]

  unless_stopped-keeps :
      (go : W → Walked W) (stack : List CopyDir) (count : ℕ) (r : Bool × W)
      → ((w : W) → P w → Kept (go w))
      → Pending stack
      → P r.1
      → Kept (unless_stopped fs dirs files ch src dst go stack count r)
  unfolding Kept
  unless_stopped-keeps go stack count (true, w) h q k = (q, k)
  unless_stopped-keeps go stack count (false, w) h q k = h w k

  copy_entries-keeps :
      (j m n dir : ℕ) (d : CopyDir)
      → InTree d.rel
      → Goes (copy_entries fs dirs files ch src dst j m n dir d)
  unfolding copy_entries Goes Kept
  copy_entries-keeps zero m n dir d i stack count w q h = (q, h)
  copy_entries-keeps (suc j) m n dir d i stack count w q h =
      let again = copy_entries fs dirs files ch src dst j m n dir d in
      unless_stopped-keeps
        (λ v. copy_entry fs dirs files ch src dst again m n d stack count (dirs.readdir dir v))
        stack count (ch.cancelled w)
        (λ v k.
          copy_entry-keeps again m n d stack count (dirs.readdir dir v)
            (copy_entries-keeps j m n dir d i) i (λ de v' e. law.names dir v v' de e) q
            (law.readdirs dir v k))
        q (law.cancelled w h)

  Resumes : (List CopyDir → ℕ → W → Run W) → Type 0
  Resumes again =
      (stack : List CopyDir) (c : ℕ) (w : W) → Pending stack → P w → P (again stack c w).2

  dir_walked-keeps :
      (again : List CopyDir → ℕ → W → Run W) (dir : ℕ) (r : Walked W)
      → Resumes again
      → Kept r
      → P (dir_walked fs dirs files ch src dst again dir r).2
  unfolding Kept Resumes
  dir_walked-keeps again dir (some (ok u), count, stack, w) h k =
      h stack count _ k.0 (law.closedirs dir w k.1)
  dir_walked-keeps again dir (some (err e), count, stack, w) h k = law.closedirs dir w k.1
  dir_walked-keeps again dir (none, count, stack, w) h k = k.1

  dir_found-keeps :
      (again : List CopyDir → ℕ → W → Run W) (j m n : ℕ) (d : CopyDir) (stack : List CopyDir)
      (count : ℕ) (r : Result ℕ × W)
      → Resumes again
      → InTree d.rel
      → Pending stack
      → P r.1
      → P (dir_found fs dirs files ch src dst again j m n d stack count r).2
  unfolding dir_found Goes
  dir_found-keeps again j m n d stack count (ok dir, w) h i q k =
      dir_walked-keeps again dir (copy_entries fs dirs files ch src dst j m n dir d stack count w) h
        (copy_entries-keeps j m n dir d i stack count w q k)
  dir_found-keeps again j m n d stack count (err e, w) h i q k = k

  dst_made-keeps :
      (go : W → Run W) (count : ℕ) (r : Result (Unit {0}) × W)
      → ((w : W) → P w → P (go w).2)
      → P r.1
      → P (dst_made fs dirs files ch src dst go count r).2
  dst_made-keeps go count (ok u, w) h k = h w k
  dst_made-keeps go count (err e, w) h k = k

  dst_checked-keeps :
      (go : W → Run W) (path : Bytes) (count : ℕ) (r : Result Stat × W)
      → Within dst path
      → ((w : W) → P w → P (go w).2)
      → P r.1
      → P (dst_checked fs dirs files ch src dst go path count r).2
  dst_checked-keeps go path count (ok st, w) i h k = h w k
  dst_checked-keeps go path count (err e, w) i h k =
      dst_made-keeps go count _ h (law.mkdirs path w i k)

  dir_round-keeps :
      (go : W → Run W) (count : ℕ) (r : Bool × W)
      → ((w : W) → P w → P (go w).2)
      → P r.1
      → P (dir_round fs dirs files ch src dst go count r).2
  dir_round-keeps go count (true, w) h k = k
  dir_round-keeps go count (false, w) h k = h w k

  copy_dir-keeps :
      (again : List CopyDir → ℕ → W → Run W) (j m n : ℕ) (d : CopyDir) (stack : List CopyDir)
      (count : ℕ) (w : W)
      → Resumes again
      → InTree d.rel
      → Pending stack
      → P w
      → P (copy_dir fs dirs files ch src dst again j m n d stack count w).2
  unfolding copy_dir
  copy_dir-keeps again j m n d stack count w h tree q k =
      joined-keeps (λ (r : Run W). P r.2) d.rel (some (err enametoolong), count, w)
        (λ s t.
          dst_checked fs dirs files ch src dst
            (λ v. dir_found fs dirs files ch src dst again j m n d stack count (fs.opendir s v)) t
            count (fs.stat t w))
        tree k
        (λ s t i i'.
          dst_checked-keeps
            (λ v. dir_found fs dirs files ch src dst again j m n d stack count (fs.opendir s v)) t
            count (fs.stat t w) i'
            (λ v k'.
              dir_found-keeps again j m n d stack count (fs.opendir s v) h tree q
                (law.opendirs s v i k'))
            (law.dst_stats t w i' k))

  copy_tree-keeps : (i j m n : ℕ) → Resumes (copy_tree fs dirs files ch src dst i j m n)
  unfolding copy_tree Resumes
  copy_tree-keeps zero j m n stack count w q h = h
  copy_tree-keeps (suc i) j m n [] count w q h = h
  copy_tree-keeps (suc i) j m n (d ∷ stack) count w q h =
      let again = copy_tree fs dirs files ch src dst i j m n in
      dir_round-keeps (λ v. copy_dir fs dirs files ch src dst again j m n d stack count v) count
        (ch.cancelled w)
        (λ v k. copy_dir-keeps again j m n d stack count v (copy_tree-keeps i j m n) q.0 q.1 k)
        (law.cancelled w h)

  path_checked-keeps :
      (i j m n : ℕ) (r : Result Stat × W)
      → P r.1
      → P (path_checked fs dirs files ch src dst i j m n r).2
  unfolding path_checked Resumes
  path_checked-keeps i j m n (err e, w) h = h
  path_checked-keeps i j m n (ok st, w) h =
      if_both (λ (r : Run W). P r.2) (is_dir st.mode)
        (copy_tree-keeps i j m n (record { rel = []; depth = 0 } ∷ []) 0 w (inl refl, tt) h)
        (copy_file-keeps P fs dirs files ch src dst law m n src dst 0 w (inl refl) (inl refl) h)

  -- However many rounds the copy of CPTO makes, and whatever the directories hold (their names are not empty and have no
  -- slash), what is kept by looking at the source, at the destination and at paths that go down from them by names other than "."
  -- and "..", by calls on open files and directories, and by making, writing and removing the destination and paths that go
  -- down from it in this way, is kept by the copy.
  pub transfer_copy-keeps :
      (i j m n : ℕ) (w : W) → P w → P (transfer_copy fs dirs files ch src dst i j m n w).2
  unfolding transfer_copy
  transfer_copy-keeps i j m n w h =
      if_both (λ (r : Run W). P r.2) (str_eq src dst) h
        (path_checked-keeps i j m n (fs.stat src w) (law.src_stats src w (inl refl) h))
