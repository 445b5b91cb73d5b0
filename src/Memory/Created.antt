-- ===== src/Memory/Created.antt =====
-- src/fs_mem.c: what an opening and a new directory keep of the tree of nodes.
use openps3ftp.Base.{
  ℕ, suc, ◌<◌, ◌≡◌, refl, sym, subst, Option, none, some, List, [], ◌∷◌, ◌==◌, ==_refl, true, false,
  Bytes, All, arith, if_both, Bool-cases, inl, inr, drop, set, option_both,
}
use openps3ftp.Session.{Result, ok, err}
use openps3ftp.Listing.{is_dir}
use openps3ftp.Memory.{
  Mnode, Mfd, Nodes, Mctx, node_create, modify, node_lookup, node_lookup_parent, node_find_child,
  add_node,
}
use openps3ftp.Memory.Descriptors.{
  mem_open, find_or_create, create_in, open_node, take_slot, truncated, opened_fd, free_slot,
  has_bit, creat, trunc, or_bit, or_default,
}
use openps3ftp.Memory.Tree.{set_nodes, mkdir_in}
use openps3ftp.Memory.Acyclic.{Rooted, Avoids, SubTree, modify-SubTree}
use openps3ftp.Memory.Linked.{modify-Same, Same-IsLinked}
use openps3ftp.Memory.Relink.{new_node-LinkedBut}
use openps3ftp.Memory.Invariant.{
  IsTree, IsForest, IsForest-SubTree, Found, BelowParent, node_lookup_parent-Below, link-IsTree,
}

-- descriptors and handles do not matter
pub set_fds-IsTree :
    (m : Mctx) (fds : List Mfd) (dirs : List (Option (Option ℕ)))
    → IsTree m
    → IsTree (record m { fds = fds; dirs = dirs })
set_fds-IsTree m fds dirs h = record {
  forest = record {
    rooted = h.forest.rooted;
    parents = h.forest.parents;
    children = h.forest.children;
    fresh = h.forest.fresh;
    root = h.forest.root;
    top = h.forest.top;
  };
  linked = h.linked;
}

-- an assignment to other fields of a node
pub modify-IsTree :
    (m : Mctx) (n : ℕ) (f : Mnode → Mnode)
    → ((d : Mnode) → (f d).parent ≡ d.parent)
    → ((d : Mnode) → (f d).children ≡ d.children)
    → ((d : Mnode) → (f d).live ≡ d.live)
    → IsTree m
    → IsTree (set_nodes (modify n f m.nodes) m)
modify-IsTree m n f e e' e'' h = record {
  forest =
      IsForest-SubTree m (modify n f m.nodes)
        (modify-SubTree n f m.nodes e (λ k d a. subst (All (λ x. x < k)) (sym (e' d)) a)) h.forest;
  linked = Same-IsLinked (modify n f m.nodes) m.nodes (modify-Same n f m.nodes e e' e'') h.linked;
}

fresh-Avoids :
    (m : Mctx) (n p : ℕ)
    → ((c q : ℕ) → (m.nodes c).parent ≡ some q → q < n)
    → p < n
    → Rooted m.nodes p
    → Avoids m.nodes n p
fresh-Avoids m n p bound lt (Rooted.top e) = Avoids.top (ground arith) e
fresh-Avoids m n p bound lt (Rooted.under {p = q} e h) =
    Avoids.under (ground arith) e (fresh-Avoids m n q bound (bound p q e) h)

All-mono : (k : ℕ) (cs : List ℕ) → All (λ d. d < k) cs → All (λ d. d < suc k) cs
All-mono k [] h = tt
All-mono k (c ∷ cs) h = (omega (arith, h.0), All-mono k cs h.1)

-- a node that has not been made is made, without a parent
module _ (now : ℕ) (name : Bytes) (mode : ℕ) (m : Mctx) (h : IsTree m) where
  made_nodes : Nodes
  made_nodes = modify m.next_node (λ d. node_create now name mode) m.nodes

  made_parents : (c : ℕ) → (made_nodes c).parent ≡ (m.nodes c).parent
  unfolding made_nodes modify node_create
  made_parents c = elim (Bool-cases (c == m.next_node)) [
    | inl new ↦ rw new (sym (h.forest.fresh c (ground (arith, new))))
    | inr old ↦ rw old refl
  ]

  made-SubTree : SubTree made_nodes m.nodes
  unfolding made_nodes modify node_create
  made-SubTree = record {
    parents = made_parents;
    children =
        λ k c a. if_both (λ (d : Mnode). All (λ e. e < k) d.children) (c == m.next_node) tt a;
  }

  made-IsForest : IsForest (record m { nodes = made_nodes; next_node = suc m.next_node })
  made-IsForest =
      let t = IsForest-SubTree m made_nodes made-SubTree h.forest in
      record {
        rooted = t.rooted;
        parents = λ c p e. omega (arith, t.parents c p e);
        children = λ c. All-mono m.next_node (made_nodes c).children (t.children c);
        fresh = λ i le. t.fresh i (omega (arith, le));
        root = omega (arith, t.root);
        top = t.top;
      }

  made-alive : (made_nodes m.next_node).live ≡ true
  unfolding made_nodes modify node_create
  made-alive = rw (==_refl m.next_node) refl

  add_node-IsTree : (p : ℕ) → p < m.next_node → IsTree (add_node now p name mode m)
  unfolding add_node made_nodes node_create
  add_node-IsTree p lt =
      let t = IsForest-SubTree m made_nodes made-SubTree h.forest in
      let apart : (m.root == m.next_node) ≡ false = ground (arith, h.forest.root) in
      link-IsTree (record m { nodes = made_nodes; next_node = suc m.next_node }) m.next_node p
        made-IsForest (omega arith) (omega (arith, lt))
        (fresh-Avoids (set_nodes made_nodes m) m.next_node p t.parents lt (t.rooted p))
        (new_node-LinkedBut m.next_node (node_create now name mode) m.nodes refl h.forest.children
          h.forest.parents h.linked)
        made-alive apart

take_slot-IsTree :
    (flags n : ℕ) (m : Mctx) (o : Option ℕ) → IsTree m → IsTree (take_slot flags n m o).1
take_slot-IsTree flags n m none h = h
take_slot-IsTree flags n m (some s) h =
    set_fds-IsTree m (set m.fds s (opened_fd flags n m)) m.dirs h

open_node-IsTree : (flags : ℕ) (r : Result ℕ × Mctx) → IsTree r.1 → IsTree (open_node flags r).1
unfolding truncated
open_node-IsTree flags (err e, m) h = h
open_node-IsTree flags (ok n, m) h =
    if_both (λ (r : Result ℕ × Mctx). IsTree r.1) (is_dir (m.nodes n).mode) h
      (take_slot-IsTree flags n (truncated flags n m) (free_slot 1 (drop 1 m.fds)) (
        if_both IsTree (has_bit flags trunc)
          (modify-IsTree m n (λ d. record d { contents = [] }) (λ d. refl) (λ d. refl) (λ d. refl)
            h)
          h))

create_in-IsTree :
    (now mode : ℕ) (m : Mctx) (r : Result (ℕ × Bytes))
    → BelowParent (Found m) r
    → IsTree m
    → IsTree (create_in now mode m r).1
create_in-IsTree now mode m (err e) b h = h
create_in-IsTree now mode m (ok (p, name)) b h =
    if_both (λ (r : Result ℕ × Mctx). IsTree r.1) (is_dir (m.nodes p).mode)
      (add_node-IsTree now name (or_bit 32768 (or_default 420 mode)) m h p b.0) h

pub mem_open-IsTree :
    (now : ℕ) (path : Bytes) (flags mode : ℕ) (m : Mctx)
    → IsTree m
    → IsTree (mem_open now path flags mode m).1
unfolding mem_open find_or_create
mem_open-IsTree now path flags mode m h =
    open_node-IsTree flags (find_or_create now path flags mode m) (
      option_both (λ (r : Result ℕ × Mctx). IsTree r.1) (node_lookup m path)
        (if_both (λ (r : Result ℕ × Mctx). IsTree r.1) (has_bit flags creat)
          (create_in-IsTree now mode m (node_lookup_parent m path)
            (node_lookup_parent-Below m path h) h)
          h)
        (λ n. h))

pub mkdir_in-IsTree :
    (now mode : ℕ) (m : Mctx) (r : Result (ℕ × Bytes))
    → BelowParent (Found m) r
    → IsTree m
    → IsTree (mkdir_in now mode m r).1
mkdir_in-IsTree now mode m (err e) b h = h
mkdir_in-IsTree now mode m (ok (p, name)) b h =
    option_both (λ (r : Result (Unit {0}) × Mctx). IsTree r.1) (node_find_child m.nodes p name)
      (add_node-IsTree now name (or_bit 16384 (or_default 493 mode)) m h p b.0) (λ c. h)
