-- ===== src/Memory/Invariant.antt =====
-- src/fs_mem.c: the invariant of the tree of nodes.
use openps3ftp.Base.{
  ℕ, ◌⊎◌, true, false, ◌<◌, ◌≤◌, ◌≡◌, sym, ◌∙◌, ap, false, Option, none, some, List, [], ◌∷◌, ◌>>=◌,
  ◌==◌, ==_iff, ==_refl, Bytes, str_eq, codes, All, arith, if_both, Bool-cases, inl, inr, some-inj,
  drop_last,
}
use openps3ftp.Path.Tokens.{tokens}
use openps3ftp.Session.{Result, ok, err}
use openps3ftp.Listing.{is_dir}
use openps3ftp.Memory.{
  Mnode, Nodes, Mctx, modify, find_child, descend, node_lookup, descend_dirs, with_name, parent_of,
  node_lookup_parent, link, trailing_slashes,
}
use openps3ftp.Memory.Acyclic.{Rooted, Avoids, reparent, SubTree, Rooted-SubTree}
use openps3ftp.Memory.Linked.{IsChild, IsLinked, LinkedBut, All-both}
use openps3ftp.Memory.Relink.{link-IsLinked}
use openps3ftp.Memory.Tree.{set_nodes}

-- The parents of every node end, so there is no cycle; parents and children are nodes that have been made; a node that
-- has not been made has no parent; and the root has none.
pub record IsForest (m : Mctx) : Type 0 where
  pub rooted : (c : ℕ) → Rooted m.nodes c
  pub parents : (c p : ℕ) → (m.nodes c).parent ≡ some p → p < m.next_node
  pub children : (c : ℕ) → All (λ d. d < m.next_node) (m.nodes c).children
  pub fresh : (i : ℕ) → m.next_node ≤ i → (m.nodes i).parent ≡ none
  pub root : m.root < m.next_node
  pub top : (m.nodes m.root).parent ≡ none

-- Besides, the children of a node are the nodes that have it as their parent.
pub record IsTree (m : Mctx) : Type 0 where
  pub forest : IsForest m
  pub linked : IsLinked m.nodes

pub IsForest-SubTree :
    (m : Mctx) (new : Nodes) → SubTree new m.nodes → IsForest m → IsForest (set_nodes new m)
IsForest-SubTree m new s h = record {
  rooted = λ c. Rooted-SubTree new m.nodes c s (h.rooted c);
  parents = λ c p e. h.parents c p (sym (s.parents c) ∙ e);
  children = λ c. s.children m.next_node c (h.children c);
  fresh = λ i le. s.parents i ∙ h.fresh i le;
  root = h.root;
  top = s.parents m.root ∙ h.top;
}

-- A node that a look-up may yield: it has been made, and it is the top of a tree or not freed.
abbrev pub Found : Mctx → ℕ → Type 0
Found m c = (c < m.next_node) × (((m.nodes c).parent ≡ none) ⊎ ((m.nodes c).live ≡ true))

-- what a look-up yields is a node that has been made
module _ (Q : ℕ → Type 0) where
  abbrev pub Below : Option ℕ → Type 0
  Below none = Unit {0}
  Below (some c) = Q c

  abbrev pub BelowResult : Result ℕ → Type 0
  BelowResult (ok c) = Q c
  BelowResult (err e) = Unit {0}

  abbrev pub BelowParent : Result (ℕ × Bytes) → Type 0
  BelowParent (ok p) = Q p.0
  BelowParent (err e) = Unit {0}

  pub on_below {ℓ κ} :
      {B : Type ℓ} (P : B → Type κ) (o : Option ℕ) {x : B} {f : ℕ → B}
      → Below o
      → P x
      → ((c : ℕ) → Q c → P (f c))
      → P (elim o [ none ↦ x | some c ↦ f c ])
  on_below P none b h g = h
  on_below P (some c) b h g = g c b

  module _ (nodes : Nodes) (kids : (c : ℕ) → All Q (nodes c).children) where
    find_child-Below : (name : Bytes) (cs : List ℕ) → All Q cs → Below (find_child nodes name cs)
    unfolding find_child
    find_child-Below name [] h = tt
    find_child-Below name (c ∷ cs) h =
        if_both Below (str_eq (nodes c).name name) h.0 (find_child-Below name cs h.1)

    pub child-Below : (p : ℕ) (name : Bytes) → Below (find_child nodes name (nodes p).children)
    child-Below p name = find_child-Below name (nodes p).children (kids p)

    bind-Below :
        (o : Option ℕ) (g : ℕ → Option ℕ)
        → Below o
        → ((c : ℕ) → Q c → Below (g c))
        → Below (o >>= g)
    bind-Below none g h f = tt
    bind-Below (some c) g h f = f c h

    pub descend-Below : (cur : ℕ) (ts : List Bytes) → Q cur → Below (descend nodes cur ts)
    unfolding descend
    descend-Below cur [] h = h
    descend-Below cur (t ∷ ts) h =
        bind-Below (find_child nodes t (nodes cur).children) (λ c. descend nodes c ts)
          (child-Below cur t) (λ c b. descend-Below c ts b)

    pub descend_dirs-Below :
        (cur : ℕ) (ts : List Bytes) → Q cur → BelowResult (descend_dirs nodes cur ts)
    unfolding descend_dirs
    descend_dirs-Below cur [] h = h
    descend_dirs-Below cur (t ∷ ts) h =
        on_below BelowResult (find_child nodes t (nodes cur).children) (child-Below cur t) tt
          (λ c b. if_both BelowResult (is_dir (nodes c).mode) (descend_dirs-Below c ts b) tt)

top_Found : (m : Mctx) → IsTree m → Found m m.root
top_Found m h = (h.forest.root, inl h.forest.top)

pub kids_Found : (m : Mctx) → IsTree m → (c : ℕ) → All (Found m) (m.nodes c).children
kids_Found m h c =
    All-both (λ d. d < m.next_node) (IsChild m.nodes c) (Found m) (m.nodes c).children
      (λ d lt k. (lt, inr k.1)) (h.forest.children c) (h.linked.owned c)

pub node_lookup-Below : (m : Mctx) (path : Bytes) → IsTree m → Below (Found m) (node_lookup m path)
unfolding node_lookup
node_lookup-Below m path h =
    if_both (Below (Found m)) (str_eq path (codes "/")) (top_Found m h)
      (descend-Below (Found m) m.nodes (kids_Found m h) m.root (tokens path) (top_Found m h))

with_name-Below :
    (Q : ℕ → Type 0) (name : Bytes) (r : Result ℕ)
    → BelowResult Q r
    → BelowParent Q (with_name name r)
with_name-Below Q name (ok p) h = h
with_name-Below Q name (err e) h = tt

parent_of-Below :
    (m : Mctx) (slashes : Bytes) (ts : List Bytes)
    → IsTree m
    → BelowParent (Found m) (parent_of m slashes ts)
parent_of-Below m slashes [] h = tt
parent_of-Below m slashes (t ∷ ts) h =
    with_name-Below (Found m) _ (descend_dirs m.nodes m.root (drop_last (t ∷ ts))) (
      descend_dirs-Below (Found m) m.nodes (kids_Found m h) m.root (drop_last (t ∷ ts))
        (top_Found m h))

pub node_lookup_parent-Below :
    (m : Mctx) (path : Bytes) → IsTree m → BelowParent (Found m) (node_lookup_parent m path)
unfolding node_lookup_parent
node_lookup_parent-Below m path h =
    if_both (BelowParent (Found m)) (str_eq path (codes "/")) tt
      (parent_of-Below m (trailing_slashes path) (tokens path) h)

-- A node is put under another whose parents do not meet it.
module _ (m : Mctx) (n p : ℕ) (h : IsForest m) (made : n < m.next_node) (there : p < m.next_node)
    (above : Avoids m.nodes n p) (but : LinkedBut n m.nodes) (alive : (m.nodes n).live ≡ true)
    (inner : (m.root == n) ≡ false) where
  link_other : (c : ℕ) → (c == n) ≡ false → (link n p m.nodes c).parent ≡ (m.nodes c).parent
  unfolding modify
  link_other c ne = ground (arith, ne)

  link_self : (link n p m.nodes n).parent ≡ some p
  unfolding modify
  link_self = ground (arith, ==_refl n)

  link-parents : (c q : ℕ) → (link n p m.nodes c).parent ≡ some q → q < m.next_node
  link-parents c q e = elim (Bool-cases (c == n)) [
    | inl met ↦
        let at : c ≡ n = (==_iff c n).0 met in
        let same : q ≡ p =
          some-inj (sym e ∙ ap (λ i. (link n p m.nodes i).parent) at ∙ link_self) in
        omega (arith, same, there)
    | inr ne ↦ h.parents c q (sym (link_other c ne) ∙ e)
  ]

  link-children : (c : ℕ) → All (λ d. d < m.next_node) (link n p m.nodes c).children
  unfolding modify
  link-children c =
      let Q : Mnode → Type 0 = λ d. All (λ e. e < m.next_node) d.children in
      let inner : Q (modify n (λ d. record d { parent = some p }) m.nodes c) =
        if_both Q (c == n) (h.children c) (h.children c) in
      if_both Q (c == p) (made, inner) inner

  pub link-IsTree : IsTree (set_nodes (link n p m.nodes) m)
  link-IsTree = record {
    forest = record {
      rooted =
          λ c. reparent m.nodes (link n p m.nodes) n p link_other link_self above c (h.rooted c);
      parents = link-parents;
      children = link-children;
      fresh = λ i le.
          let ne : (i == n) ≡ false = ground (arith, le, made) in link_other i ne ∙ h.fresh i le;
      root = h.root;
      top = link_other m.root inner ∙ h.top;
    };
    linked = link-IsLinked n p m.nodes but alive;
  }
