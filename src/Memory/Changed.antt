-- ===== src/Memory/Changed.antt =====
-- src/fs_mem.c: what an operation that changes nodes keeps of the tree of nodes.
use openps3ftp.Base.{
  ℕ, arith, ◌≡◌, true, false, sym, ap, ==_iff, ◌*◌, ◌/◌, ◌%◌, ◌+◌, ◌<◌, refl, ◌∙◌, not, ◌||◌,
  Option, none, some, ◌==◌, Bytes, if_both, Bool-cases, inl, inr, is_nil, length, snprintf,
  option_both,
}
use openps3ftp.Path.Tokens.{tokens}
use openps3ftp.Session.{Result, ok, err}
use openps3ftp.Listing.{is_dir}
use openps3ftp.Memory.{
  Mnode, Nodes, Mctx, modify, node_lookup, node_lookup_parent, node_find_child, unlink_node,
  free_node,
}
use openps3ftp.Memory.Descriptors.{mem_write, put_bytes, used_fd, rdonly}
use openps3ftp.Memory.Tree.{
  on_node, set_nodes, mem_rmdir, mem_unlink, is_above, is_root, moved_to, replaces, rename_node,
  mem_rename, mem_chmod, mem_utimes,
}
use openps3ftp.Memory.Acyclic.{
  Avoids, is_above-Avoids, SubTree, SubTree-refl, modify-SubTree, SubTree-trans,
  unlink_from-SubTree, freed-SubTree,
}
use openps3ftp.Memory.Linked.{
  IsLinked, Same, modify-Same, Same-LinkedBut, unlink_node-LinkedBut, modify_other,
}
use openps3ftp.Memory.Relink.{free_node-IsLinked, unlink_from-live}
use openps3ftp.Memory.Invariant.{
  IsTree, IsForest-SubTree, Found, Below, BelowParent, node_lookup-Below, node_lookup_parent-Below,
  link-IsTree,
}
use openps3ftp.Memory.Created.{set_fds-IsTree, modify-IsTree}

pub on_node-IsTree {ℓ} :
    {A : Type ℓ} (f : ℕ → Result A × Mctx) (m : Mctx) (o : Option ℕ)
    → Below (Found m) o
    → ((n : ℕ) → Found m n → IsTree (f n).1)
    → IsTree m
    → IsTree (on_node f m o).1
on_node-IsTree f m none b g h = h
on_node-IsTree f m (some n) b g h = g n b

freed-IsLinked : (m : Mctx) (n : ℕ) → IsTree m → IsLinked (free_node n (unlink_node n m.nodes))
freed-IsLinked m n h =
    free_node-IsLinked n (unlink_node n m.nodes) (unlink_node-LinkedBut n m.nodes h.linked)

freed-IsTree :
    (m : Mctx) (n : ℕ) → IsTree m → IsTree (set_nodes (free_node n (unlink_node n m.nodes)) m)
freed-IsTree m n h = record {
  forest =
      IsForest-SubTree m (free_node n (unlink_node n m.nodes)) (freed-SubTree n m.nodes) h.forest;
  linked = freed-IsLinked m n h;
}

-- a node that can be moved
record IsInner (m : Mctx) (n : ℕ) : Type 0 where
  made : n < m.next_node
  alive : (m.nodes n).live ≡ true
  inner : (m.root == n) ≡ false

Found-IsInner :
    (m : Mctx) (n : ℕ) → IsTree m → Found m n → is_root (m.nodes n) ≡ false → IsInner m n
Found-IsInner m n h (made, inl e) r = let bad : true ≡ false = sym (rw e refl) ∙ r in absurd cc
Found-IsInner m n h (made, inr a) r = record {
  made = made;
  alive = a;
  inner = elim (Bool-cases (m.root == n)) [
    | inr ne ↦ ne
    | inl met ↦
        let at : m.root ≡ n = (==_iff m.root n).0 met in
        let none_above : (m.nodes n).parent ≡ none =
          ap (λ i. (m.nodes i).parent) (sym at) ∙ h.forest.top in
        let bad : true ≡ false = sym (rw none_above refl) ∙ r in absurd cc
  ];
}

Avoids-SubTree : (new old : Nodes) (n c : ℕ) → SubTree new old → Avoids old n c → Avoids new n c
Avoids-SubTree new old n c s (Avoids.top ne e) = Avoids.top ne (s.parents c ∙ e)
Avoids-SubTree new old n c s (Avoids.under {p = q} ne e h) =
    Avoids.under ne (s.parents c ∙ e) (Avoids-SubTree new old n q s h)

moved_to-IsTree :
    (m : Mctx) (n p : ℕ) (name : Bytes) (nodes : Nodes)
    → SubTree nodes m.nodes
    → IsLinked nodes
    → (nodes n).live ≡ true
    → IsInner m n
    → p < m.next_node
    → Avoids m.nodes n p
    → IsTree m
    → IsTree (set_nodes (moved_to n p name nodes) m)
unfolding modify
moved_to-IsTree m n p name nodes s l alive i there above h =
    let named : Mnode → Mnode = λ d. record d { name = snprintf 256 name } in
    let out : Nodes = unlink_node n nodes in
    let base : Nodes = modify n named out in
    let same : Same base out = modify-Same n named out (λ d. refl) (λ d. refl) (λ d. refl) in
    let b : SubTree base m.nodes =
      SubTree-trans base nodes m.nodes
        (SubTree-trans base out nodes (modify-SubTree n named out (λ d. refl) (λ k d a. a))
          (unlink_from-SubTree n (nodes n).parent nodes))
        s in
    link-IsTree (set_nodes base m) n p (IsForest-SubTree m base b h.forest) i.made there
      (Avoids-SubTree base m.nodes n p b above)
      (Same-LinkedBut base out same n (unlink_node-LinkedBut n nodes l))
      (same.live n ∙ unlink_from-live n (nodes n).parent nodes n ∙ alive) i.inner

-- the result of an operation
abbrev pub Good : Result (Unit {0}) × Mctx → Type 0
Good r = IsTree r.1

replaces-IsTree :
    (n p : ℕ) (name : Bytes) (m : Mctx) (o : Option ℕ)
    → IsInner m n
    → p < m.next_node
    → Avoids m.nodes n p
    → IsTree m
    → Good (replaces n p name m o)
replaces-IsTree n p name m none i there above h =
    moved_to-IsTree m n p name m.nodes (SubTree-refl m.nodes) h.linked i.alive i there above h
replaces-IsTree n p name m (some x) i there above h = elim (Bool-cases (x == n)) [
  | inl same ↦ rw same h
  | inr other ↦
      let ne : (n == x) ≡ false = ground (arith, other) in
      let freed : Nodes = free_node x (unlink_node x m.nodes) in
      let alive : (freed n).live ≡ true =
        ap (λ (d : Mnode). d.live)
          (modify_other x n (λ d. record d { live = false }) (unlink_node x m.nodes) ne)
        ∙ unlink_from-live x (m.nodes x).parent m.nodes n
        ∙ i.alive in
      rw other (
        if_both Good (is_dir (m.nodes x).mode || is_dir (m.nodes n).mode) h (
          moved_to-IsTree m n p name freed (freed-SubTree x m.nodes) (freed-IsLinked m x h) alive i
            there above h))
]

rename_node-IsTree :
    (fuel n : ℕ) (m : Mctx) (r : Result (ℕ × Bytes))
    → BelowParent (Found m) r
    → IsInner m n
    → IsTree m
    → Good (rename_node fuel n m r)
rename_node-IsTree fuel n m (err e) b i h = h
rename_node-IsTree fuel n m (ok (p, name)) b i h =
    elim (Bool-cases (is_above fuel m.nodes n (some p))) [
      | inl found ↦ rw found h
      | inr clear ↦ rw clear (
          replaces-IsTree n p name m (node_find_child m.nodes p name) i b.0
            (is_above-Avoids fuel m.nodes n p clear) h)
    ]

pub mem_rename-IsTree : (from to : Bytes) (m : Mctx) → IsTree m → Good (mem_rename from to m)
unfolding mem_rename
mem_rename-IsTree from to m h =
    on_node-IsTree _ m (node_lookup m from) (node_lookup-Below m from h)
      (λ n b. elim (Bool-cases (is_root (m.nodes n))) [
        | inl top ↦ rw top h
        | inr inner ↦ rw inner (
            rename_node-IsTree (length (tokens to)) n m (node_lookup_parent m to)
              (node_lookup_parent-Below m to h) (Found-IsInner m n h b inner) h)
      ])
      h

pub mem_rmdir-IsTree : (path : Bytes) (m : Mctx) → IsTree m → Good (mem_rmdir path m)
unfolding mem_rmdir
mem_rmdir-IsTree path m h =
    on_node-IsTree _ m (node_lookup m path) (node_lookup-Below m path h)
      (λ n b. if_both Good (not (is_dir (m.nodes n).mode)) h (
        if_both Good (not (is_nil (m.nodes n).children)) h
          (if_both Good (is_root (m.nodes n)) h (freed-IsTree m n h))))
      h

pub mem_unlink-IsTree : (path : Bytes) (m : Mctx) → IsTree m → Good (mem_unlink path m)
unfolding mem_unlink
mem_unlink-IsTree path m h =
    on_node-IsTree _ m (node_lookup m path) (node_lookup-Below m path h)
      (λ n b. if_both Good (is_dir (m.nodes n).mode) h (freed-IsTree m n h)) h

pub mem_chmod-IsTree :
    (path : Bytes) (mode : ℕ) (m : Mctx) → IsTree m → Good (mem_chmod path mode m)
unfolding mem_chmod
mem_chmod-IsTree path mode m h =
    on_node-IsTree _ m (node_lookup m path) (node_lookup-Below m path h)
      (λ n b.
        modify-IsTree m n (λ d. record d { mode = d.mode / 4096 * 4096 + mode % 4096 }) (λ d. refl)
          (λ d. refl) (λ d. refl) h)
      h

pub mem_utimes-IsTree :
    (path : Bytes) (mtime : ℕ) (m : Mctx) → IsTree m → Good (mem_utimes path mtime m)
unfolding mem_utimes
mem_utimes-IsTree path mtime m h =
    on_node-IsTree _ m (node_lookup m path) (node_lookup-Below m path h)
      (λ n b.
        modify-IsTree m n (λ d. record d { mtime = mtime }) (λ d. refl) (λ d. refl) (λ d. refl) h)
      h

pub mem_write-IsTree :
    (now fd : ℕ) (buf : Bytes) (m : Mctx) → IsTree m → IsTree (mem_write now fd buf m).1
unfolding mem_write
mem_write-IsTree now fd buf m h =
    option_both (λ (r : Result ℕ × Mctx). IsTree r.1) (used_fd m fd) h
      (λ f.
        if_both (λ (r : Result ℕ × Mctx). IsTree r.1) (f.flags % 4 == rdonly) h
          (set_fds-IsTree _ _ m.dirs (
            modify-IsTree m f.node (put_bytes now f.pos buf) (λ d. refl) (λ d. refl) (λ d. refl)
              h)))
