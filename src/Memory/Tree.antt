-- ===== src/Memory/Tree.antt =====
-- src/fs_mem.c: the operations on paths and on directory handles.
use openps3ftp.Base.{
  ℕ, zero, suc, ◌+◌, ◌*◌, ◌/◌, ◌%◌, Bool, true, false, not, Option, none, some, List, [], ◌∷◌, ◌++◌,
  ◌||◌, if◌then◌else◌, ◌==◌, Bytes, length, get_elem?, set, is_nil, snprintf,
}
use openps3ftp.Path.Tokens.{tokens}
use openps3ftp.Session.{einval, eisdir, enoent, enotdir, Result, ok, err, Stat, Dirent}
use openps3ftp.Listing.{is_dir}
use openps3ftp.Memory.{
  Mnode, Nodes, Mctx, eexist, ebusy, enotempty, modify, node_lookup, node_lookup_parent,
  node_find_child, add_node, link, remove, unlink_node, free_node,
}
use openps3ftp.Memory.Descriptors.{or_bit, or_default, node_to_stat}

-- what an operation does with the node that its path names, and ENOENT when there is none
abbrev pub on_node {ℓ} : {A : Type ℓ} → (ℕ → Result A × Mctx) → Mctx → Option ℕ → Result A × Mctx
on_node f m none = (err enoent, m)
on_node f m (some n) = f n

abbrev pub set_nodes : Nodes → Mctx → Mctx
set_nodes nodes m = record m { nodes = nodes }

-- mem_stat
unfoldable pub mem_stat : Bytes → Mctx → Result Stat
unfolding node_lookup
mem_stat path m = elim (node_lookup m path) [
  | none ↦ err enoent
  | some n ↦ ok (node_to_stat (m.nodes n))
]

abbrev pub first : List ℕ → Option ℕ
first [] = none
first (c ∷ cs) = some c

-- mem_opendir; a handle is the place of its node in `dirs`
unfoldable pub mem_opendir : Bytes → Mctx → Result ℕ × Mctx
unfolding node_lookup
mem_opendir path m =
    on_node
      (λ n.
        if is_dir (m.nodes n).mode
        then (
          ok (length m.dirs),
          record m { dirs = m.dirs ++ some (first (m.nodes n).children) ∷ [] },
        )
        else (err enotdir, m))
      m (node_lookup m path)

-- `n->next`: what follows the node among the children of its parent
unfoldable pub next_after : ℕ → List ℕ → Option ℕ
next_after n [] = none
next_after n (c ∷ cs) = let rest = next_after n cs in if c == n then first cs else rest

abbrev pub next_in : Nodes → ℕ → Option ℕ → Option ℕ
next_in nodes n none = none
next_in nodes n (some p) = next_after n (nodes p).children

abbrev pub entry_of : Mnode → Dirent
entry_of n = record {
  name = snprintf 256 n.name;
  mode = n.mode;
  size = length n.contents;
  mtime = n.mtime;
  uid = n.uid;
  gid = n.gid;
}

-- mem_readdir: an entry, or none at the end, for a handle that is open
abbrev pub read_entry : ℕ → Mctx → Option (Option (Option ℕ)) → Option Dirent × Mctx
read_entry dir m (some (some (some n))) = (
  some (entry_of (m.nodes n)),
  record m { dirs = set m.dirs dir (some (next_in m.nodes n (m.nodes n).parent)) },
)
read_entry dir m _ = (none, m)

unfoldable pub mem_readdir : ℕ → Mctx → Option Dirent × Mctx
unfolding next_after snprintf
mem_readdir dir m = read_entry dir m (get_elem? m.dirs dir)

-- mem_closedir
unfoldable pub mem_closedir : ℕ → Mctx → Mctx
mem_closedir dir m = record m { dirs = set m.dirs dir none }

-- mem_mkdir
abbrev pub mkdir_in : ℕ → ℕ → Mctx → Result (ℕ × Bytes) → Result (Unit {0}) × Mctx
mkdir_in now mode m (err e) = (err e, m)
mkdir_in now mode m (ok (p, name)) = elim (node_find_child m.nodes p name) [
  | some c ↦ (err eexist, m)
  | none ↦ (ok tt, add_node now p name (or_bit 16384 (or_default 493 mode)) m)
]

unfoldable pub mem_mkdir : ℕ → Bytes → ℕ → Mctx → Result (Unit {0}) × Mctx
unfolding node_lookup_parent add_node
mem_mkdir now path mode m = mkdir_in now mode m (node_lookup_parent m path)

abbrev pub is_root : Mnode → Bool
is_root n = elim n.parent [ none ↦ true | some p ↦ false ]

-- mem_rmdir
unfoldable pub mem_rmdir : Bytes → Mctx → Result (Unit {0}) × Mctx
unfolding node_lookup modify remove
mem_rmdir path m =
    on_node
      (λ n.
        if not (is_dir (m.nodes n).mode)
        then (err enotdir, m)
        else if not (is_nil (m.nodes n).children)
        then (err enotempty, m)
        else if is_root (m.nodes n)
        then (err ebusy, m)
        else (ok tt, set_nodes (free_node n (unlink_node n m.nodes)) m))
      m (node_lookup m path)

-- mem_unlink
unfoldable pub mem_unlink : Bytes → Mctx → Result (Unit {0}) × Mctx
unfolding node_lookup modify remove
mem_unlink path m =
    on_node
      (λ n.
        if is_dir (m.nodes n).mode
        then (err eisdir, m)
        else (ok tt, set_nodes (free_node n (unlink_node n m.nodes)) m))
      m (node_lookup m path)

-- mem_rename: whether the node is the directory or above it; the loop has a number of rounds, one for each parent
unfoldable pub is_above : ℕ → Nodes → ℕ → Option ℕ → Bool
is_above fuel nodes n none = false
is_above zero nodes n (some p) = true
is_above (suc fuel) nodes n (some p) =
    let rest = is_above fuel nodes n (nodes p).parent in if p == n then true else rest

-- the node leaves its parent, gets its new name, and goes to the head of its new parent's children
abbrev pub moved_to : ℕ → ℕ → Bytes → Nodes → Nodes
moved_to n p name nodes =
    link n p (modify n (λ d. record d { name = snprintf 256 name }) (unlink_node n nodes))

abbrev pub replaces : ℕ → ℕ → Bytes → Mctx → Option ℕ → Result (Unit {0}) × Mctx
replaces n p name m none = (ok tt, set_nodes (moved_to n p name m.nodes) m)
replaces n p name m (some x) =
    if x == n
    then (ok tt, m)
    else if is_dir (m.nodes x).mode || is_dir (m.nodes n).mode
    then (err eisdir, m)
    else (ok tt, set_nodes (moved_to n p name (free_node x (unlink_node x m.nodes))) m)

abbrev pub rename_node : ℕ → ℕ → Mctx → Result (ℕ × Bytes) → Result (Unit {0}) × Mctx
rename_node fuel n m (err e) = (err e, m)
rename_node fuel n m (ok (p, name)) =
    if is_above fuel m.nodes n (some p)
    then (err einval, m)
    else replaces n p name m (node_find_child m.nodes p name)

-- A directory has as many parents above it as its path has components, which is the number of rounds given.
unfoldable pub mem_rename : Bytes → Bytes → Mctx → Result (Unit {0}) × Mctx
unfolding node_lookup node_lookup_parent is_above modify remove snprintf tokens
mem_rename from to m =
    on_node
      (λ n.
        if is_root (m.nodes n)
        then (err ebusy, m)
        else rename_node (length (tokens to)) n m (node_lookup_parent m to))
      m (node_lookup m from)

-- mem_chmod, for modes of 16 bits
unfoldable pub mem_chmod : Bytes → ℕ → Mctx → Result (Unit {0}) × Mctx
unfolding node_lookup modify
mem_chmod path mode m =
    on_node
      (λ n. (
        ok tt,
        set_nodes (modify n (λ d. record d { mode = d.mode / 4096 * 4096 + mode % 4096 }) m.nodes)
            m,
      ))
      m (node_lookup m path)

-- mem_utimes
unfoldable pub mem_utimes : Bytes → ℕ → Mctx → Result (Unit {0}) × Mctx
unfolding node_lookup modify
mem_utimes path mtime m =
    on_node (λ n. (ok tt, set_nodes (modify n (λ d. record d { mtime = mtime }) m.nodes) m)) m
      (node_lookup m path)
