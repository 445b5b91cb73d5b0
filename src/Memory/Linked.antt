-- ===== src/Memory/Linked.antt =====
-- src/fs_mem.c: the children of a node are the nodes that have it as their parent.
use openps3ftp.Base.{
  ℕ, ◌≡◌, refl, sym, ◌∙◌, ap, subst, Bool, true, false, Option, none, some, List, [], ◌∷◌, ◌==◌,
  ==_iff, ==_refl, if◌then◌else◌, All, arith, if_both, Bool-cases, inl, inr, some-inj,
}
use openps3ftp.Memory.{Mnode, Nodes, modify, remove, unlink_from, unlink_node}

unfoldable pub member : ℕ → List ℕ → Bool
member c [] = false
member c (d ∷ ds) = let rest = member c ds in if c == d then true else rest

-- no node twice
abbrev pub Single : List ℕ → Type 0
Single [] = Unit {0}
Single (c ∷ cs) = All (λ d. (d == c) ≡ false) cs × Single cs

abbrev pub IsChild : Nodes → ℕ → ℕ → Type 0
IsChild nodes c d = ((nodes d).parent ≡ some c) × ((nodes d).live ≡ true)

-- What is among the children of a node has it as its parent and is not freed, and is there once; and what has a parent and is
-- not freed is among the children of that.
pub record IsLinked (nodes : Nodes) : Type 0 where
  pub owned : (c : ℕ) → All (IsChild nodes c) (nodes c).children
  pub single : (c : ℕ) → Single (nodes c).children
  pub listed :
      (c p : ℕ)
      → (nodes c).live ≡ true
      → (nodes c).parent ≡ some p
      → member c (nodes p).children ≡ true

-- The same, but for one node, which is among no children.
pub record LinkedBut (n : ℕ) (nodes : Nodes) : Type 0 where
  pub owned : (c : ℕ) → All (λ d. IsChild nodes c d × ((d == n) ≡ false)) (nodes c).children
  pub single : (c : ℕ) → Single (nodes c).children
  pub listed :
      (c p : ℕ)
      → (c == n) ≡ false
      → (nodes c).live ≡ true
      → (nodes c).parent ≡ some p
      → member c (nodes p).children ≡ true

pub All-imp {ℓ κ μ} :
    {A : Type ℓ} (P : A → Type κ) (Q : A → Type μ) (xs : List A)
    → ((x : A) → P x → Q x)
    → All P xs
    → All Q xs
All-imp P Q [] f h = tt
All-imp P Q (x ∷ xs) f h = (f x h.0, All-imp P Q xs f h.1)

pub All-both {ℓ κ μ ν} :
    {A : Type ℓ} (P : A → Type κ) (Q : A → Type μ) (R : A → Type ν) (xs : List A)
    → ((x : A) → P x → Q x → R x)
    → All P xs
    → All Q xs
    → All R xs
All-both P Q R [] f h k = tt
All-both P Q R (x ∷ xs) f h k = (f x h.0 k.0, All-both P Q R xs f h.1 k.1)

module _ (n : ℕ) where
  pub All-remove : (P : ℕ → Type 0) (cs : List ℕ) → All P cs → All P (remove n cs)
  unfolding remove
  All-remove P [] h = tt
  All-remove P (c ∷ cs) h = if_both (All P) (c == n) h.1 (h.0, All-remove P cs h.1)

  remove-others : (cs : List ℕ) → Single cs → All (λ d. (d == n) ≡ false) (remove n cs)
  unfolding remove
  remove-others [] h = tt
  remove-others (c ∷ cs) h = elim (Bool-cases (c == n)) [
    | inl met ↦ rw met (subst (λ (i : ℕ). All (λ d. (d == i) ≡ false) cs) ((==_iff c n).0 met) h.0)
    | inr ne ↦ rw ne (ne, remove-others cs h.1)
  ]

  remove-Single : (cs : List ℕ) → Single cs → Single (remove n cs)
  unfolding remove
  remove-Single [] h = tt
  remove-Single (c ∷ cs) h =
      if_both Single (c == n) h.1 (All-remove (λ d. (d == c) ≡ false) cs h.0, remove-Single cs h.1)

  member-remove :
      (c : ℕ) (cs : List ℕ) → (c == n) ≡ false → member c cs ≡ true → member c (remove n cs) ≡ true
  unfolding member remove
  member-remove c [] ne h = h
  member-remove c (d ∷ cs) ne h = ground (arith, ne, h, member-remove c cs ne)

pub modify_self : (i : ℕ) (f : Mnode → Mnode) (nodes : Nodes) → modify i f nodes i ≡ f (nodes i)
unfolding modify
modify_self i f nodes = rw (==_refl i) refl

pub modify_other :
    (i c : ℕ) (f : Mnode → Mnode) (nodes : Nodes) → (c == i) ≡ false → modify i f nodes c ≡ nodes c
unfolding modify
modify_other i c f nodes ne = rw ne refl

-- The two have the same links.
pub record Same (new old : Nodes) : Type 0 where
  pub parent : (c : ℕ) → (new c).parent ≡ (old c).parent
  pub kids : (c : ℕ) → (new c).children ≡ (old c).children
  pub live : (c : ℕ) → (new c).live ≡ (old c).live

pub modify-Same :
    (i : ℕ) (f : Mnode → Mnode) (nodes : Nodes)
    → ((d : Mnode) → (f d).parent ≡ d.parent)
    → ((d : Mnode) → (f d).children ≡ d.children)
    → ((d : Mnode) → (f d).live ≡ d.live)
    → Same (modify i f nodes) nodes
unfolding modify
modify-Same i f nodes p k l = record {
  parent = λ c. if_both (λ (d : Mnode). d.parent ≡ (nodes c).parent) (c == i) (p (nodes c)) refl;
  kids = λ c. if_both (λ (d : Mnode). d.children ≡ (nodes c).children) (c == i) (k (nodes c)) refl;
  live = λ c. if_both (λ (d : Mnode). d.live ≡ (nodes c).live) (c == i) (l (nodes c)) refl;
}

module _ (new old : Nodes) (s : Same new old) where
  Same-IsChild : (c d : ℕ) → IsChild old c d → IsChild new c d
  Same-IsChild c d k = (s.parent d ∙ k.0, s.live d ∙ k.1)

  pub Same-IsLinked : IsLinked old → IsLinked new
  Same-IsLinked h = record {
    owned = λ c.
        subst (All (IsChild new c)) (sym (s.kids c))
          (All-imp (IsChild old c) _ (old c).children (Same-IsChild c) (h.owned c));
    single = λ c. subst Single (sym (s.kids c)) (h.single c);
    listed = λ c q a e.
        ap (member c) (s.kids q) ∙ h.listed c q (sym (s.live c) ∙ a) (sym (s.parent c) ∙ e);
  }

  pub Same-LinkedBut : (n : ℕ) → LinkedBut n old → LinkedBut n new
  Same-LinkedBut n h = record {
    owned = λ c. subst (All (λ d. IsChild new c d × ((d == n) ≡ false))) (sym (s.kids c)) (
        All-imp (λ d. IsChild old c d × ((d == n) ≡ false)) _ (old c).children
          (λ d k. (Same-IsChild c d k.0, k.1)) (h.owned c));
    single = λ c. subst Single (sym (s.kids c)) (h.single c);
    listed = λ c q ne a e.
        ap (member c) (s.kids q) ∙ h.listed c q ne (sym (s.live c) ∙ a) (sym (s.parent c) ∙ e);
  }

-- a node is taken out of the children of its parent
module _ (n p : ℕ) (nodes : Nodes) (e : (nodes n).parent ≡ some p) (h : IsLinked nodes) where
  taken : Nodes
  taken = unlink_from n (some p) nodes

  taken-parent : (d : ℕ) → (taken d).parent ≡ (nodes d).parent
  unfolding modify taken
  taken-parent d = if_both (λ (x : Mnode). x.parent ≡ (nodes d).parent) (d == p) refl refl

  taken-live : (d : ℕ) → (taken d).live ≡ (nodes d).live
  unfolding modify taken
  taken-live d = if_both (λ (x : Mnode). x.live ≡ (nodes d).live) (d == p) refl refl

  -- the children of a node afterwards
  taken-children :
      (Q : List ℕ → Type 0) (c : ℕ)
      → (c ≡ p → Q (remove n (nodes c).children))
      → ((c == p) ≡ false → Q (nodes c).children)
      → Q (taken c).children
  unfolding modify taken
  taken-children Q c f g = elim (Bool-cases (c == p)) [
    | inl met ↦ rw met (f ((==_iff c p).0 met))
    | inr ne ↦ rw ne (g ne)
  ]

  not_taken : (c d : ℕ) → (c == p) ≡ false → IsChild nodes c d → (d == n) ≡ false
  not_taken c d ne k = elim (Bool-cases (d == n)) [
    | inl met ↦
        let at : d ≡ n = (==_iff d n).0 met in
        let same : c ≡ p = some-inj (sym k.0 ∙ ap (λ i. (nodes i).parent) at ∙ e) in
        absurd (ground (arith, same, ne))
    | inr other ↦ other
  ]

  taken-LinkedBut : LinkedBut n taken
  taken-LinkedBut = record {
    owned = λ c.
        let kid : (d : ℕ)
            → IsChild nodes c d
            → (d == n) ≡ false
            → IsChild taken c d × ((d == n) ≡ false) =
          λ d k ne. ((taken-parent d ∙ k.0, taken-live d ∙ k.1), ne) in
        taken-children (All (λ d. IsChild taken c d × ((d == n) ≡ false))) c
          (λ at.
            All-both (IsChild nodes c) (λ d. (d == n) ≡ false) _ (remove n (nodes c).children) kid
              (All-remove n (IsChild nodes c) (nodes c).children (h.owned c))
              (remove-others n (nodes c).children (h.single c)))
          (λ ne.
            All-imp (IsChild nodes c) _ (nodes c).children (λ d k. kid d k (not_taken c d ne k))
              (h.owned c));
    single = λ c.
        taken-children Single c (λ at. remove-Single n (nodes c).children (h.single c))
          (λ ne. h.single c);
    listed = λ c q ne a there.
        let before = h.listed c q (sym (taken-live c) ∙ a) (sym (taken-parent c) ∙ there) in
        taken-children (λ cs. member c cs ≡ true) q
          (λ at. member-remove n c (nodes q).children ne before) (λ other. before);
  }

pub unlink_node-LinkedBut :
    (n : ℕ) (nodes : Nodes) → IsLinked nodes → LinkedBut n (unlink_node n nodes)
unfolding taken
unlink_node-LinkedBut n nodes h = by_parent (nodes n).parent refl
  where
    by_parent : (o : Option ℕ) → (nodes n).parent ≡ o → LinkedBut n (unlink_from n o nodes)
    by_parent (some p) e = taken-LinkedBut n p nodes e h
    by_parent none e = record {
      owned = λ c.
          All-imp (IsChild nodes c) _ (nodes c).children
            (λ d k. (
              k,
              elim (Bool-cases (d == n)) [
                | inl met ↦
                    let at : d ≡ n = (==_iff d n).0 met in
                    let bad : some c ≡ none = sym k.0 ∙ ap (λ i. (nodes i).parent) at ∙ e in
                    absurd cc
                | inr ne ↦ ne
              ],
            ))
            (h.owned c);
      single = h.single;
      listed = λ c q ne a there. h.listed c q a there;
    }
