-- ===== src/Memory/Runs.antt =====
-- src/fs_mem.c: the operations in any order on a file system that is new.
use openps3ftp.Base.{
  ℕ, refl, Option, none, some, List, [], ◌∷◌, ◌++◌, ◌==◌, ◌%◌, ◌>>=◌, Bytes, arith, if_both,
  option_both, set, get_elem?,
}
use openps3ftp.Session.{Result}
use openps3ftp.Listing.{is_dir}
use openps3ftp.Memory.{Mctx, node_create, node_lookup, node_lookup_parent, fs_mem_create}
use openps3ftp.Memory.Descriptors.{
  mem_open, mem_close, mem_read, mem_write, mem_seek, used_fd, Offset, Whence, wronly, seek_base,
  offset_from,
}
use openps3ftp.Memory.Tree.{
  mem_opendir, mem_readdir, read_entry, mem_closedir, mem_mkdir, mem_rmdir, mem_unlink, mem_rename,
  mem_chmod, mem_utimes, next_in, first,
}
use openps3ftp.Memory.Acyclic.{Rooted}
use openps3ftp.Memory.Invariant.{IsTree, node_lookup-Below, node_lookup_parent-Below}
use openps3ftp.Memory.Created.{set_fds-IsTree, mem_open-IsTree, mkdir_in-IsTree}
use openps3ftp.Memory.Changed.{
  Good, on_node-IsTree, mem_write-IsTree, mem_rename-IsTree, mem_rmdir-IsTree, mem_unlink-IsTree,
  mem_chmod-IsTree, mem_utimes-IsTree,
}

-- what can be asked of the file system that changes its state, with the time where it is read
pub data MemOp : Type 0 where
  open_op : (now : ℕ) (path : Bytes) (flags mode : ℕ) → MemOp
  close_op : (fd : ℕ) → MemOp
  read_op : (fd n : ℕ) → MemOp
  write_op : (now fd : ℕ) (buf : Bytes) → MemOp
  seek_op : (fd : ℕ) (off : Offset) (whence : Whence) → MemOp
  opendir_op : (path : Bytes) → MemOp
  readdir_op closedir_op : (dir : ℕ) → MemOp
  mkdir_op : (now : ℕ) (path : Bytes) (mode : ℕ) → MemOp
  rmdir_op unlink_op : (path : Bytes) → MemOp
  rename_op : (from to : Bytes) → MemOp
  chmod_op utimes_op : (path : Bytes) (value : ℕ) → MemOp

unfoldable pub mem_step : MemOp → Mctx → Mctx
unfolding mem_open mem_close mem_read mem_write mem_seek mem_opendir mem_readdir mem_closedir
    mem_mkdir mem_rmdir mem_unlink mem_rename mem_chmod mem_utimes
mem_step (open_op now path flags mode) m = (mem_open now path flags mode m).1
mem_step (close_op fd) m = (mem_close fd m).1
mem_step (read_op fd n) m = (mem_read fd n m).1
mem_step (write_op now fd buf) m = (mem_write now fd buf m).1
mem_step (seek_op fd off whence) m = (mem_seek fd off whence m).1
mem_step (opendir_op path) m = (mem_opendir path m).1
mem_step (readdir_op dir) m = (mem_readdir dir m).1
mem_step (closedir_op dir) m = mem_closedir dir m
mem_step (mkdir_op now path mode) m = (mem_mkdir now path mode m).1
mem_step (rmdir_op path) m = (mem_rmdir path m).1
mem_step (unlink_op path) m = (mem_unlink path m).1
mem_step (rename_op from to) m = (mem_rename from to m).1
mem_step (chmod_op path mode) m = (mem_chmod path mode m).1
mem_step (utimes_op path mtime) m = (mem_utimes path mtime m).1

unfoldable pub mem_runs : List MemOp → Mctx → Mctx
unfolding mem_step
mem_runs [] m = m
mem_runs (op ∷ ops) m = mem_runs ops (mem_step op m)

mem_mkdir-IsTree :
    (now : ℕ) (path : Bytes) (mode : ℕ) (m : Mctx) → IsTree m → Good (mem_mkdir now path mode m)
unfolding mem_mkdir
mem_mkdir-IsTree now path mode m h =
    mkdir_in-IsTree now mode m (node_lookup_parent m path) (node_lookup_parent-Below m path h) h

-- the operations that leave the nodes alone
module _ (m : Mctx) (h : IsTree m) where
  mem_close-IsTree : (fd : ℕ) → Good (mem_close fd m)
  unfolding mem_close
  mem_close-IsTree fd = option_both Good (used_fd m fd) h (λ f. set_fds-IsTree m _ m.dirs h)

  mem_read-IsTree : (fd n : ℕ) → IsTree (mem_read fd n m).1
  unfolding mem_read
  mem_read-IsTree fd n =
      option_both (λ (r : Result Bytes × Mctx). IsTree r.1) (used_fd m fd) h
        (λ f.
          if_both (λ (r : Result Bytes × Mctx). IsTree r.1) (f.flags % 4 == wronly) h
            (set_fds-IsTree m _ m.dirs h))

  mem_seek-IsTree : (fd : ℕ) (off : Offset) (whence : Whence) → IsTree (mem_seek fd off whence m).1
  unfolding mem_seek
  mem_seek-IsTree fd off whence =
      option_both (λ (r : Result ℕ × Mctx). IsTree r.1) (used_fd m fd) h
        (λ f.
          option_both (λ (r : Result ℕ × Mctx). IsTree r.1)
            (seek_base m f whence >>= λ base. offset_from base off) h
            (λ pos. set_fds-IsTree m _ m.dirs h))

  mem_opendir-IsTree : (path : Bytes) → IsTree (mem_opendir path m).1
  unfolding mem_opendir
  mem_opendir-IsTree path =
      on_node-IsTree _ m (node_lookup m path) (node_lookup-Below m path h)
        (λ n b.
          if_both (λ (r : Result ℕ × Mctx). IsTree r.1) (is_dir (m.nodes n).mode)
            (set_fds-IsTree m m.fds (m.dirs ++ some (first (m.nodes n).children) ∷ []) h) h)
        h

  read_entry-IsTree : (dir : ℕ) (o : Option (Option (Option ℕ))) → IsTree (read_entry dir m o).1
  read_entry-IsTree dir (some (some (some n))) =
      set_fds-IsTree m m.fds (set m.dirs dir (some (next_in m.nodes n (m.nodes n).parent))) h
  read_entry-IsTree dir (some (some none)) = h
  read_entry-IsTree dir (some none) = h
  read_entry-IsTree dir none = h

  mem_readdir-IsTree : (dir : ℕ) → IsTree (mem_readdir dir m).1
  unfolding mem_readdir
  mem_readdir-IsTree dir = read_entry-IsTree dir (get_elem? m.dirs dir)

  mem_closedir-IsTree : (dir : ℕ) → IsTree (mem_closedir dir m)
  unfolding mem_closedir
  mem_closedir-IsTree dir = set_fds-IsTree m m.fds (set m.dirs dir none) h

fs_mem_create-IsTree : (now : ℕ) → IsTree (fs_mem_create now)
unfolding fs_mem_create node_create
fs_mem_create-IsTree now = record {
  forest = record {
    rooted = λ c. Rooted.top refl;
    parents = λ c p e. absurd cc;
    children = λ c. tt;
    fresh = λ i le. refl;
    root = omega arith;
    top = refl;
  };
  linked = record { owned = λ c. tt; single = λ c. tt; listed = λ c p a e. absurd cc };
}

mem_step-IsTree : (op : MemOp) (m : Mctx) → IsTree m → IsTree (mem_step op m)
unfolding mem_step
mem_step-IsTree (open_op now path flags mode) m h = mem_open-IsTree now path flags mode m h
mem_step-IsTree (close_op fd) m h = mem_close-IsTree m h fd
mem_step-IsTree (read_op fd n) m h = mem_read-IsTree m h fd n
mem_step-IsTree (write_op now fd buf) m h = mem_write-IsTree now fd buf m h
mem_step-IsTree (seek_op fd off whence) m h = mem_seek-IsTree m h fd off whence
mem_step-IsTree (opendir_op path) m h = mem_opendir-IsTree m h path
mem_step-IsTree (readdir_op dir) m h = mem_readdir-IsTree m h dir
mem_step-IsTree (closedir_op dir) m h = mem_closedir-IsTree m h dir
mem_step-IsTree (mkdir_op now path mode) m h = mem_mkdir-IsTree now path mode m h
mem_step-IsTree (rmdir_op path) m h = mem_rmdir-IsTree path m h
mem_step-IsTree (unlink_op path) m h = mem_unlink-IsTree path m h
mem_step-IsTree (rename_op from to) m h = mem_rename-IsTree from to m h
mem_step-IsTree (chmod_op path mode) m h = mem_chmod-IsTree path mode m h
mem_step-IsTree (utimes_op path mtime) m h = mem_utimes-IsTree path mtime m h

kept : (ops : List MemOp) (m : Mctx) → IsTree m → IsTree (mem_runs ops m)
unfolding mem_runs
kept [] m h = h
kept (op ∷ ops) m h = kept ops (mem_step op m) (mem_step-IsTree op m h)

-- Whatever operations are asked of a new file system, in whatever order and with whatever arguments, the nodes are a
-- tree afterwards: from every node the parents come to an end, so no directory is below itself; the children of a node
-- are, each once, exactly the nodes not freed that have it as their parent; every parent, every child and the root
-- are nodes that have been made; and the root, like a number that no node has yet, has no parent.
pub mem_runs-IsTree : (now : ℕ) (ops : List MemOp) → IsTree (mem_runs ops (fs_mem_create now))
mem_runs-IsTree now ops = kept ops (fs_mem_create now) (fs_mem_create-IsTree now)
