-- ===== src/Memory.antt =====
-- src/fs_mem.c: the file system in memory. This file has its nodes and how a path finds one.
-- A node is a number. The siblings linked by `next` are the list of `children` of their parent, newest first; the size of
-- a file is the length of its contents. A node that is freed stays where it is with `live` false, so that a use of it can be told.
pub mod Descriptors
pub mod Serve
pub mod Lookup
pub mod Store
pub mod Upload
pub mod Round
pub mod Acyclic
pub mod Linked
pub mod Relink
pub mod Invariant
pub mod Created
pub mod Changed
pub mod Runs
pub mod Tree
use openps3ftp.Base.{
  ℕ, suc, ◌/◌, ◌%◌, ◌+◌, Bool, true, false, ◌&&◌, Option, none, some, List, [], ◌∷◌, ◌++◌, ◌>>=◌,
  if◌then◌else◌, ◌==◌, Bytes, codes, str_eq, snprintf, length, drop_last, get_last_or, replicate,
}
use openps3ftp.Path.Tokens.{tokens}
use openps3ftp.Listing.{is_dir}
use openps3ftp.Session.{Errno, other, enoent, enotdir, Result, ok, err}

-- EEXIST, EBADF, EBUSY, EMFILE, ENOTEMPTY
abbrev pub eexist : Errno
eexist = other 17

abbrev pub ebadf : Errno
ebadf = other 9

abbrev pub ebusy : Errno
ebusy = other 16

abbrev pub emfile : Errno
emfile = other 24

abbrev pub enotempty : Errno
enotempty = other 39

-- struct mnode
pub record Mnode : Type 0 where
  pub name : Bytes
  pub mode : ℕ
  pub mtime : ℕ
  pub uid : ℕ
  pub gid : ℕ
  pub contents : Bytes
  pub children : List ℕ
  pub parent : Option ℕ
  pub live : Bool

abbrev pub Nodes : Type 0
Nodes = ℕ → Mnode

-- struct mfd; `flags` has the access mode only
pub record Mfd : Type 0 where
  pub node : ℕ
  pub pos : ℕ
  pub flags : ℕ
  pub is_open : Bool

-- struct mctx, with the number that the next new node gets, and the directory handles given out: each has the node
-- that comes next, and is `none` when it is closed
pub record Mctx : Type 0 where
  pub nodes : Nodes
  pub next_node : ℕ
  pub root : ℕ
  pub fds : List Mfd
  pub dirs : List (Option (Option ℕ))

-- node_create, at the time `now`
unfoldable pub node_create : ℕ → Bytes → ℕ → Mnode
unfolding snprintf
node_create now name mode = record {
  name = snprintf 256 name;
  mode = mode;
  mtime = now;
  uid = 0;
  gid = 0;
  contents = [];
  children = [];
  parent = none;
  live = true;
}

-- an assignment to the fields of a node
unfoldable pub modify : ℕ → (Mnode → Mnode) → Nodes → Nodes
modify i f nodes j = if j == i then f (nodes j) else nodes j

-- the first child with a name: node_find_child, and the loop inside node_lookup
unfoldable pub find_child : Nodes → Bytes → List ℕ → Option ℕ
unfolding str_eq
find_child nodes name [] = none
find_child nodes name (c ∷ cs) =
    let rest = find_child nodes name cs in if str_eq (nodes c).name name then some c else rest

abbrev pub node_find_child : Nodes → ℕ → Bytes → Option ℕ
node_find_child nodes parent name = find_child nodes name (nodes parent).children

-- node_lookup; the only error is ENOENT
unfoldable pub descend : Nodes → ℕ → List Bytes → Option ℕ
unfolding find_child
descend nodes cur [] = some cur
descend nodes cur (t ∷ ts) = node_find_child nodes cur t >>= λ c. descend nodes c ts

unfoldable pub node_lookup : Mctx → Bytes → Option ℕ
unfolding descend tokens str_eq
node_lookup m path =
    if str_eq path (codes "/") then some m.root else descend m.nodes m.root (tokens path)

-- node_lookup_parent: the directory, through directories only, and the rest of the path from its last component on
unfoldable pub descend_dirs : Nodes → ℕ → List Bytes → Result ℕ
unfolding find_child
descend_dirs nodes cur [] = ok cur
descend_dirs nodes cur (t ∷ ts) = elim (node_find_child nodes cur t) [
  | none ↦ err enoent
  | some c ↦
      let rest = descend_dirs nodes c ts in if is_dir (nodes c).mode then rest else err enotdir
]

unfoldable pub trailing_slashes : Bytes → Bytes
trailing_slashes [] = []
trailing_slashes (c ∷ s) =
    let rest = trailing_slashes s in if c == b'/' && length rest == length s then c ∷ rest else rest

abbrev pub with_name : Bytes → Result ℕ → Result (ℕ × Bytes)
with_name name (ok p) = ok (p, name)
with_name name (err e) = err e

abbrev pub parent_of : Mctx → Bytes → List Bytes → Result (ℕ × Bytes)
parent_of m slashes [] = err enoent
parent_of m slashes (t ∷ ts) =
    with_name (get_last_or t ts ++ slashes) (descend_dirs m.nodes m.root (drop_last (t ∷ ts)))

unfoldable pub node_lookup_parent : Mctx → Bytes → Result (ℕ × Bytes)
unfolding descend_dirs trailing_slashes tokens str_eq
node_lookup_parent m path =
    if str_eq path (codes "/")
    then err eexist
    else parent_of m (trailing_slashes path) (tokens path)

-- a node at the head of the children of another
abbrev pub link : ℕ → ℕ → Nodes → Nodes
link n p nodes =
    modify p (λ d. record d { children = n ∷ d.children })
      (modify n (λ d. record d { parent = some p }) nodes)

-- the first occurrence of a node among its parent's children is taken out
unfoldable pub remove : ℕ → List ℕ → List ℕ
remove n [] = []
remove n (c ∷ cs) = let rest = remove n cs in if c == n then cs else c ∷ rest

abbrev pub unlink_from : ℕ → Option ℕ → Nodes → Nodes
unlink_from n none nodes = nodes
unlink_from n (some p) nodes = modify p (λ d. record d { children = remove n d.children }) nodes

abbrev pub unlink_node : ℕ → Nodes → Nodes
unlink_node n nodes = unlink_from n (nodes n).parent nodes

-- `free`
abbrev pub free_node : ℕ → Nodes → Nodes
free_node n nodes = modify n (λ d. record d { live = false }) nodes

-- a new node under a directory: the end of mem_mkdir, and of the creation in mem_open
unfoldable pub add_node : ℕ → ℕ → Bytes → ℕ → Mctx → Mctx
unfolding node_create modify
add_node now p name mode m = record m {
  nodes = link m.next_node p (modify m.next_node (λ d. node_create now name mode) m.nodes);
  next_node = suc m.next_node;
}

-- opftp_fs_mem_create: the root, and 64 descriptors that are not in use; slot 0 is never used
unfoldable pub fs_mem_create : ℕ → Mctx
unfolding node_create
fs_mem_create now = record {
  nodes = λ i. record (node_create now (codes "/") (16384 + 493)) { live = i == 0 };
  next_node = 1;
  root = 0;
  fds = replicate 64 (record { node = 0; pos = 0; flags = 0; is_open = false });
  dirs = [];
}
