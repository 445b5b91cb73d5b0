-- ===== src/Memory/Relink.antt =====
-- src/fs_mem.c: a node that is among no children is freed, put under another, or new.
use openps3ftp.Base.{
  ℕ, ◌<◌, ◌≡◌, refl, sym, ◌∙◌, ap, subst, true, false, Option, none, some, List, [], ◌∷◌, ◌==◌,
  ==_iff, ==_refl, All, arith, if_both, Bool-cases, inl, inr, some-inj,
}
use openps3ftp.Memory.{Mnode, Nodes, modify, unlink_from, free_node, link}
use openps3ftp.Memory.Linked.{
  member, Single, IsChild, IsLinked, LinkedBut, All-imp, All-both, modify_self, modify_other,
}

-- a node among no children is freed
pub free_node-IsLinked : (n : ℕ) (nodes : Nodes) → LinkedBut n nodes → IsLinked (free_node n nodes)
unfolding modify
free_node-IsLinked n nodes h =
    let kids : (c : ℕ) → (free_node n nodes c).children ≡ (nodes c).children =
      λ c. if_both (λ (d : Mnode). d.children ≡ (nodes c).children) (c == n) refl refl in
    let parent : (c : ℕ) → (free_node n nodes c).parent ≡ (nodes c).parent =
      λ c. if_both (λ (d : Mnode). d.parent ≡ (nodes c).parent) (c == n) refl refl in
    let live : (c : ℕ) → (c == n) ≡ false → (free_node n nodes c).live ≡ (nodes c).live = λ c ne.
      ap (λ (d : Mnode). d.live) (modify_other n c (λ x. record x { live = false }) nodes ne) in
    record {
      owned = λ c. subst (All (IsChild (free_node n nodes) c)) (sym (kids c)) (
          All-imp (λ d. IsChild nodes c d × ((d == n) ≡ false)) _ (nodes c).children
            (λ d k. (parent d ∙ k.0.0, live d k.1 ∙ k.0.1)) (h.owned c));
      single = λ c. subst Single (sym (kids c)) (h.single c);
      listed = λ c q a e. elim (Bool-cases (c == n)) [
        | inl met ↦
            let at : c ≡ n = (==_iff c n).0 met in
            let dead : (free_node n nodes n).live ≡ false =
              ap (λ (d : Mnode). d.live) (modify_self n (λ x. record x { live = false }) nodes) in
            let bad : true ≡ false = sym a ∙ ap (λ i. (free_node n nodes i).live) at ∙ dead in
            absurd cc
        | inr ne ↦
            ap (member c) (kids q) ∙ h.listed c q ne (sym (live c ne) ∙ a) (sym (parent c) ∙ e)
      ];
    }

-- a node among no children is put at the head of those of another
module _ (n p : ℕ) (nodes : Nodes) (h : LinkedBut n nodes) (alive : (nodes n).live ≡ true) where
  linked : Nodes
  linked = link n p nodes

  linked_self : (linked n).parent ≡ some p
  unfolding linked modify
  linked_self =
      if_both (λ (d : Mnode). d.parent ≡ some p) (n == p) (rw (==_refl n) refl)
        (rw (==_refl n) refl)

  linked_other : (c : ℕ) → (c == n) ≡ false → (linked c).parent ≡ (nodes c).parent
  unfolding linked modify
  linked_other c ne =
      if_both (λ (d : Mnode). d.parent ≡ (nodes c).parent) (c == p) (rw ne refl) (rw ne refl)

  linked-live : (c : ℕ) → (linked c).live ≡ (nodes c).live
  unfolding linked modify
  linked-live c =
      let P : Mnode → Type 0 = λ d. d.live ≡ (nodes c).live in
      if_both P (c == p) (if_both P (c == n) refl refl) (if_both P (c == n) refl refl)

  linked_kids : (c : ℕ) → (c == p) ≡ false → (linked c).children ≡ (nodes c).children
  unfolding linked modify
  linked_kids c ne =
      rw ne (if_both (λ (d : Mnode). d.children ≡ (nodes c).children) (c == n) refl refl)

  linked_head : (linked p).children ≡ n ∷ (nodes p).children
  unfolding linked modify
  linked_head = rw (==_refl p) (
      ap (λ cs. n ∷ cs)
        (if_both (λ (d : Mnode). d.children ≡ (nodes p).children) (p == n) refl refl))

  linked-children :
      (Q : ℕ → List ℕ → Type 0) (c : ℕ)
      → Q p (n ∷ (nodes p).children)
      → Q c (nodes c).children
      → Q c (linked c).children
  linked-children Q c f g = elim (Bool-cases (c == p)) [
    | inl met ↦
        subst (λ i. Q i (linked i).children) (sym ((==_iff c p).0 met))
          (subst (Q p) (sym linked_head) f)
    | inr ne ↦ subst (Q c) (sym (linked_kids c ne)) g
  ]

  linked-old : (c : ℕ) → All (IsChild linked c) (nodes c).children
  linked-old c =
      All-imp (λ d. IsChild nodes c d × ((d == n) ≡ false)) _ (nodes c).children
        (λ d k. (linked_other d k.1 ∙ k.0.0, linked-live d ∙ k.0.1)) (h.owned c)

  pub link-IsLinked : IsLinked (link n p nodes)
  unfolding linked member
  link-IsLinked = record {
    owned = λ c.
        linked-children (λ i cs. All (IsChild linked i) cs) c
          ((linked_self, linked-live n ∙ alive), linked-old p) (linked-old c);
    single = λ c.
        linked-children (λ i cs. Single cs) c
          (
            All-imp (λ d. IsChild nodes p d × ((d == n) ≡ false)) _ (nodes p).children (λ d k. k.1)
                (h.owned p),
            h.single p,
          )
          (h.single c);
    listed = λ c q a e. elim (Bool-cases (c == n)) [
      | inl met ↦
          let at : c ≡ n = (==_iff c n).0 met in
          let up : q ≡ p = some-inj (sym e ∙ ap (λ i. (linked i).parent) at ∙ linked_self) in
          subst (λ i. member c (linked i).children ≡ true) (sym up)
            (subst (λ cs. member c cs ≡ true) (sym linked_head) (rw met refl))
      | inr ne ↦
          let before : member c (nodes q).children ≡ true =
            h.listed c q ne (sym (linked-live c) ∙ a) (sym (linked_other c ne) ∙ e) in
          elim (Bool-cases (q == p)) [
            | inl met ↦
                let at : q ≡ p = (==_iff q p).0 met in
                subst (λ i. member c (linked i).children ≡ true) (sym at)
                  (subst (λ cs. member c cs ≡ true) (sym linked_head)
                    (rw (ne, sym at, before) refl))
            | inr other ↦ ap (member c) (linked_kids q other) ∙ before
          ]
    ];
  }

-- a new node, at a number that no child and no parent has
pub new_node-LinkedBut :
    (k : ℕ) (node : Mnode) (nodes : Nodes)
    → node.children ≡ []
    → ((c : ℕ) → All (λ d. d < k) (nodes c).children)
    → ((c p : ℕ) → (nodes c).parent ≡ some p → p < k)
    → IsLinked nodes
    → LinkedBut k (modify k (λ d. node) nodes)
new_node-LinkedBut k node nodes empty kids parents h =
    let new : Nodes = modify k (λ d. node) nodes in
    let old : (c : ℕ) → (c == k) ≡ false → new c ≡ nodes c =
      λ c. modify_other k c (λ d. node) nodes in
    let at_new : (Q : Mnode → Type 0) (c : ℕ)
        → Q node
        → ((c == k) ≡ false → Q (nodes c))
        → Q (new c) =
      λ Q c f g. elim (Bool-cases (c == k)) [
        | inl met ↦
            subst (λ i. Q (new i)) (sym ((==_iff c k).0 met))
              (subst Q (sym (modify_self k (λ d. node) nodes)) f)
        | inr ne ↦ subst Q (sym (old c ne)) (g ne)
      ] in
    let kid : (c d : ℕ) → IsChild nodes c d → d < k → IsChild new c d × ((d == k) ≡ false) =
      λ c d e lt.
        let ne : (d == k) ≡ false = ground (arith, lt) in
        (
          (
            ap (λ (x : Mnode). x.parent) (old d ne) ∙ e.0,
            ap (λ (x : Mnode). x.live) (old d ne) ∙ e.1,
          ),
          ne,
        ) in
    record {
      owned = λ c.
          at_new (λ x. All (λ d. IsChild new c d × ((d == k) ≡ false)) x.children) c
            (subst (All (λ d. IsChild new c d × ((d == k) ≡ false))) (sym empty) tt)
            (λ ne.
              All-both (IsChild nodes c) (λ d. d < k) _ (nodes c).children (kid c) (h.owned c)
                (kids c));
      single =
          λ c. at_new (λ x. Single x.children) c (subst Single (sym empty) tt) (λ ne. h.single c);
      listed = λ c q ne a e.
          let up : (nodes c).parent ≡ some q = sym (ap (λ (x : Mnode). x.parent) (old c ne)) ∙ e in
          let there = h.listed c q (sym (ap (λ (x : Mnode). x.live) (old c ne)) ∙ a) up in
          let other : (q == k) ≡ false = ground (arith, parents c q up) in
          ap (λ (x : Mnode). member c x.children) (old q other) ∙ there;
    }

pub unlink_from-live :
    (n : ℕ) (o : Option ℕ) (nodes : Nodes) (d : ℕ) → (unlink_from n o nodes d).live ≡ (nodes d).live
unfolding modify
unlink_from-live n none nodes d = refl
unlink_from-live n (some p) nodes d =
    if_both (λ (x : Mnode). x.live ≡ (nodes d).live) (d == p) refl refl
