-- ===== src/Worker/Walk.antt =====
-- src/transfer.c: the walk of a tree for CPTO, and the copy job.
use openps3ftp.Base.{
  ℕ, zero, suc, ◌+◌, Bool, true, false, ◌||◌, Option, none, some, List, [], ◌∷◌, ◌++◌,
  if◌then◌else◌, length, Bytes, leb, ◌==◌, codes, str_eq, is_nil,
}
use openps3ftp.Session.{ecanceled, einval, eloop, enametoolong, Result, ok, err, Stat, Dirent, Fs}
use openps3ftp.Path.{max_path}
use openps3ftp.Listing.{file_type, is_dir}
use openps3ftp.Worker.{Files, Channel, Run}
use openps3ftp.Worker.Copy.{copy_join, copy_file}
use openps3ftp.Worker.Directory.{Dirs}

-- COPY_MAX_DEPTH
abbrev pub copy_max_depth : ℕ
copy_max_depth = 32

-- struct copy_dir; the stack of the walk is a list of them
pub record CopyDir : Type 0 where
  pub rel : Bytes
  pub depth : ℕ

unfoldable pub is_dot : Bytes → Bool
unfolding str_eq
is_dot name = str_eq name (codes ".") || str_eq name (codes "..")

-- the path of an entry below the two roots, when it fits
unfoldable pub child_rel : Bytes → Bytes → Option Bytes
child_rel rel name =
    let path = if is_nil rel then name else rel ++ (b'/' ∷ name) in
    if leb max_path (length path) then none else some path

-- the return code of a walk, the counter of bytes, what is left on the stack, and the world
abbrev pub Walked : Type 0 → Type 0
Walked W = Option (Result (Unit {0})) × ℕ × List CopyDir × W

module _ {W : Type 0} (fs : Fs W) (dirs : Dirs W) (files : Files W) (ch : Channel W)
    (src dst : Bytes) where
  abbrev pub Onward : Type 0
  Onward = List CopyDir → ℕ → W → Walked W

  -- after the copy of a file
  abbrev pub copied : Onward → List CopyDir → Run W → Walked W
  copied again stack (some (ok u), count, w) = again stack count w
  copied again stack (some (err e), count, w) = (some (err e), count, stack, w)
  copied again stack (none, count, w) = (none, count, stack, w)

  -- both paths, when they fit their buffers
  unfoldable pub joined {ℓ} : {A : Type ℓ} → Bytes → A → (Bytes → Bytes → A) → A
  unfolding copy_join
  joined rel too_long go = elim (copy_join max_path src rel) [
    | none ↦ too_long
    | some s ↦ elim (copy_join max_path dst rel) [ none ↦ too_long | some d ↦ go s d ]
  ]

  abbrev pub push_dir : Onward → ℕ → Bytes → List CopyDir → ℕ → W → Walked W
  push_dir again depth rel stack count w =
      if leb copy_max_depth (depth + 1)
      then (some (err eloop), count, stack, w)
      else again (record { rel = rel; depth = depth + 1 } ∷ stack) count w

  unfoldable pub copy_child : Onward → ℕ → ℕ → ℕ → ℕ → Bytes → List CopyDir → ℕ → W → Walked W
  unfolding joined copy_file
  copy_child again m n depth type rel stack count w =
      if type == 4
      then push_dir again depth rel stack count w
      else if type == 8
      then joined rel (some (err enametoolong), count, stack, w)
          (λ s d. copied again stack (copy_file fs files ch m n s d count w))
      else again stack count w

  -- an entry of the directory
  unfoldable pub copy_entry :
      Onward → ℕ → ℕ → CopyDir → List CopyDir → ℕ → Result (Option Dirent) × W → Walked W
  unfolding copy_child is_dot child_rel
  copy_entry again m n d stack count (err e, w) = (some (err e), count, stack, w)
  copy_entry again m n d stack count (ok none, w) = (some (ok tt), count, stack, w)
  copy_entry again m n d stack count (ok (some de), w) =
      if is_dot de.name then again stack count w else elim (child_rel d.rel de.name) [
        | none ↦ (some (err enametoolong), count, stack, w)
        | some rel ↦ copy_child again m n d.depth (file_type de.mode) rel stack count w
      ]

  abbrev pub unless_stopped : (W → Walked W) → List CopyDir → ℕ → Bool × W → Walked W
  unless_stopped go stack count (true, w) = (some (err ecanceled), count, stack, w)
  unless_stopped go stack count (false, w) = go w

  -- the loop over the entries; each loop here has a number of rounds
  unfoldable pub copy_entries : ℕ → ℕ → ℕ → ℕ → CopyDir → List CopyDir → ℕ → W → Walked W
  unfolding copy_entry
  copy_entries zero m n dir d stack count w = (none, count, stack, w)
  copy_entries (suc k) m n dir d stack count w =
      unless_stopped
        (λ v. copy_entry (copy_entries k m n dir d) m n d stack count (dirs.readdir dir v)) stack
        count (ch.cancelled w)

  -- a directory has been walked: the next one, unless it failed
  abbrev pub dir_walked : (List CopyDir → ℕ → W → Run W) → ℕ → Walked W → Run W
  dir_walked again dir (some (ok u), count, stack, w) = again stack count (fs.closedir dir w)
  dir_walked again dir (some (err e), count, stack, w) = (some (err e), count, fs.closedir dir w)
  dir_walked again dir (none, count, stack, w) = (none, count, w)

  unfoldable pub dir_found :
      (List CopyDir → ℕ → W → Run W) → ℕ → ℕ → ℕ → CopyDir → List CopyDir → ℕ → Result ℕ × W → Run W
  unfolding copy_entries
  dir_found again k m n d stack count (ok dir, w) =
      dir_walked again dir (copy_entries k m n dir d stack count w)
  dir_found again k m n d stack count (err e, w) = (some (err e), count, w)

  -- the destination directory is there, or made
  abbrev pub dst_made : (W → Run W) → ℕ → Result (Unit {0}) × W → Run W
  dst_made go count (ok u, w) = go w
  dst_made go count (err e, w) = (some (err e), count, w)

  abbrev pub dst_checked : (W → Run W) → Bytes → ℕ → Result Stat × W → Run W
  dst_checked go path count (ok st, w) = go w
  dst_checked go path count (err e, w) = dst_made go count (fs.mkdir path 493 w)

  unfoldable pub copy_dir :
      (List CopyDir → ℕ → W → Run W) → ℕ → ℕ → ℕ → CopyDir → List CopyDir → ℕ → W → Run W
  unfolding joined dir_found
  copy_dir again k m n d stack count w =
      joined d.rel (some (err enametoolong), count, w)
        (λ s t.
          dst_checked (λ v. dir_found again k m n d stack count (fs.opendir s v)) t count
            (fs.stat t w))

  abbrev pub dir_round : (W → Run W) → ℕ → Bool × W → Run W
  dir_round go count (true, w) = (some (err ecanceled), count, w)
  dir_round go count (false, w) = go w

  -- copy_tree, from a stack
  unfoldable pub copy_tree : ℕ → ℕ → ℕ → ℕ → List CopyDir → ℕ → W → Run W
  unfolding copy_dir
  copy_tree zero k m n stack count w = (none, count, w)
  copy_tree (suc j) k m n [] count w = (some (ok tt), count, w)
  copy_tree (suc j) k m n (d ∷ stack) count w =
      dir_round (λ v. copy_dir (copy_tree j k m n) k m n d stack count v) count (ch.cancelled w)

  unfoldable pub path_checked : ℕ → ℕ → ℕ → ℕ → Result Stat × W → Run W
  unfolding copy_tree copy_file
  path_checked j k m n (err e, w) = (some (err e), 0, w)
  path_checked j k m n (ok st, w) =
      if is_dir st.mode
      then copy_tree j k m n (record { rel = []; depth = 0 } ∷ []) 0 w
      else copy_file fs files ch m n src dst 0 w

  unfoldable pub transfer_copy : ℕ → ℕ → ℕ → ℕ → W → Run W
  unfolding path_checked str_eq
  transfer_copy j k m n w =
      if str_eq src dst then (some (err einval), 0, w) else path_checked j k m n (fs.stat src w)
