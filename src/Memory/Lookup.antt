-- ===== src/Memory/Lookup.antt =====
-- src/fs_mem.c: what a look-up depends on.
use openps3ftp.Base.{
  ℕ, ◌≡◌, refl, false, some, List, [], ◌∷◌, Bytes, ◌==◌, ==_refl, if_both, >>=-ap,
}
use openps3ftp.Path.Tokens.{tokens}
use openps3ftp.Listing.{is_dir}
use openps3ftp.Memory.{Mnode, Nodes, Mctx, modify, find_child, descend, node_lookup}

pub modify_same : (nodes : Nodes) (n : ℕ) (f : Mnode → Mnode) → modify n f nodes n ≡ f (nodes n)
unfolding modify
modify_same nodes n f = rw (==_refl n) refl

-- the same names and children
pub record SameTree (new old : Nodes) : Type 0 where
  pub names : (i : ℕ) → (new i).name ≡ (old i).name
  pub children : (i : ℕ) → (new i).children ≡ (old i).children

pub SameTree-modify :
    (nodes : Nodes) (n : ℕ) (f : Mnode → Mnode)
    → ((d : Mnode) → (f d).name ≡ d.name)
    → ((d : Mnode) → (f d).children ≡ d.children)
    → SameTree (modify n f nodes) nodes
unfolding modify
SameTree-modify nodes n f e e' = record {
  names = λ i. if_both (λ (d : Mnode). d.name ≡ (nodes i).name) (i == n) (e (nodes i)) refl;
  children =
      λ i. if_both (λ (d : Mnode). d.children ≡ (nodes i).children) (i == n) (e' (nodes i)) refl;
}

find_child-SameTree :
    (new old : Nodes) (name : Bytes) (cs : List ℕ)
    → SameTree new old
    → find_child new name cs ≡ find_child old name cs
unfolding find_child
find_child-SameTree new old name [] h = refl
find_child-SameTree new old name (c ∷ cs) h =
    rw (h.names c, find_child-SameTree new old name cs h) refl

pub descend-SameTree :
    (new old : Nodes) (cur : ℕ) (ts : List Bytes)
    → SameTree new old
    → descend new cur ts ≡ descend old cur ts
unfolding descend
descend-SameTree new old cur [] h = refl
descend-SameTree new old cur (t ∷ ts) h =
    rw (h.children cur, find_child-SameTree new old t (old cur).children h)
      (>>=-ap (find_child old t (old cur).children) (λ c. descend-SameTree new old c ts h))

-- A look-up depends on the names and the children only.
pub node_lookup-SameTree :
    (new old : Mctx) (path : Bytes)
    → SameTree new.nodes old.nodes
    → new.root ≡ old.root
    → node_lookup new path ≡ node_lookup old path
unfolding node_lookup
node_lookup-SameTree new old path h e =
    rw (descend-SameTree new.nodes old.nodes new.root (tokens path) h, e) refl

-- a path names a node that is no directory
unfoldable pub IsFile : Bytes → ℕ → Mctx → Type 0
IsFile path x m = (node_lookup m path ≡ some x) × (is_dir (m.nodes x).mode ≡ false)
