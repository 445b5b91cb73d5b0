-- ===== src/Memory/Acyclic.antt =====
-- src/fs_mem.c: the parents of a node lead to a node without one, whatever is created, moved and removed.
use openps3ftp.Base.{
  ℕ, zero, suc, ◌<◌, ◌≡◌, refl, sym, ◌∙◌, subst, Bool, true, false, Option, none, some, List, [],
  ◌∷◌, ◌==◌, ==_iff, if◌then◌else◌, All, if_both, Bool-cases, inl, inr,
}
use openps3ftp.Memory.{Mnode, Nodes, modify, remove, unlink_from, unlink_node, free_node}
use openps3ftp.Memory.Tree.{is_above}

-- The parents of a node end.
pub data Rooted (nodes : Nodes) : ℕ → Type 0 where
  top : {c : ℕ} → (nodes c).parent ≡ none → Rooted nodes c
  under : {c p : ℕ} → (nodes c).parent ≡ some p → Rooted nodes p → Rooted nodes c

-- They end, and a node is not among them.
pub data Avoids (nodes : Nodes) (n : ℕ) : ℕ → Type 0 where
  top : {c : ℕ} → (c == n) ≡ false → (nodes c).parent ≡ none → Avoids nodes n c
  under :
      {c p : ℕ} → (c == n) ≡ false → (nodes c).parent ≡ some p → Avoids nodes n p → Avoids nodes n c

not_met : (b c : Bool) → (if b then true else c) ≡ false → (b ≡ false) × (c ≡ false)
not_met true c h = absurd cc
not_met false c h = (refl, h)

walk-Avoids :
    (fuel : ℕ) (nodes : Nodes) (n p : ℕ) (o : Option ℕ)
    → (nodes p).parent ≡ o
    → (p == n) ≡ false
    → is_above fuel nodes n o ≡ false
    → Avoids nodes n p
unfolding is_above
walk-Avoids fuel nodes n p none e ne h = Avoids.top ne e
walk-Avoids zero nodes n p (some q) e ne h = absurd cc
walk-Avoids (suc fuel) nodes n p (some q) e ne h =
    let (ne', h') = not_met (q == n) (is_above fuel nodes n (nodes q).parent) h in
    Avoids.under ne e (walk-Avoids fuel nodes n q (nodes q).parent refl ne' h')

-- The loop of mem_rename over the parents, when it does not find the node.
pub is_above-Avoids :
    (fuel : ℕ) (nodes : Nodes) (n p : ℕ) → is_above fuel nodes n (some p) ≡ false → Avoids nodes n p
unfolding is_above
is_above-Avoids zero nodes n p h = absurd cc
is_above-Avoids (suc fuel) nodes n p h =
    let (ne, h') = not_met (p == n) (is_above fuel nodes n (nodes p).parent) h in
    walk-Avoids fuel nodes n p (nodes p).parent refl ne h'

module _ (nodes new : Nodes) (n p : ℕ)
    (same : (c : ℕ) → (c == n) ≡ false → (new c).parent ≡ (nodes c).parent) where
  Avoids-Rooted : (c : ℕ) → Avoids nodes n c → Rooted new c
  Avoids-Rooted c (Avoids.top ne e) = Rooted.top (same c ne ∙ e)
  Avoids-Rooted c (Avoids.under {p = q} ne e h) = Rooted.under (same c ne ∙ e) (Avoids-Rooted q h)

  -- One node gets another parent, whose parents do not meet it.
  pub reparent :
      (new n).parent ≡ some p → Avoids nodes n p → (c : ℕ) → Rooted nodes c → Rooted new c
  reparent moved above c (Rooted.top e) = elim (Bool-cases (c == n)) [
    | inl met ↦
        subst (λ x. Rooted new x) (sym ((==_iff c n).0 met))
          (Rooted.under moved (Avoids-Rooted p above))
    | inr ne ↦ Rooted.top (same c ne ∙ e)
  ]
  reparent moved above c (Rooted.under {p = q} e h) =
      let up : Rooted new q = reparent moved above q h in
      elim (Bool-cases (c == n)) [
        | inl met ↦
            subst (λ x. Rooted new x) (sym ((==_iff c n).0 met))
              (Rooted.under moved (Avoids-Rooted p above))
        | inr ne ↦ Rooted.under (same c ne ∙ e) up
      ]

-- The same parents, and no new children.
pub record SubTree (new old : Nodes) : Type 0 where
  pub parents : (c : ℕ) → (new c).parent ≡ (old c).parent
  pub children : (k c : ℕ) → All (λ d. d < k) (old c).children → All (λ d. d < k) (new c).children

pub Rooted-SubTree : (new old : Nodes) (c : ℕ) → SubTree new old → Rooted old c → Rooted new c
Rooted-SubTree new old c s (Rooted.top e) = Rooted.top (s.parents c ∙ e)
Rooted-SubTree new old c s (Rooted.under {p = q} e h) =
    Rooted.under (s.parents c ∙ e) (Rooted-SubTree new old q s h)

pub modify-SubTree :
    (i : ℕ) (f : Mnode → Mnode) (nodes : Nodes)
    → ((d : Mnode) → (f d).parent ≡ d.parent)
    → ((k : ℕ) (d : Mnode) → All (λ e. e < k) d.children → All (λ e. e < k) (f d).children)
    → SubTree (modify i f nodes) nodes
unfolding modify
modify-SubTree i f nodes e h = record {
  parents = λ c. if_both (λ (d : Mnode). d.parent ≡ (nodes c).parent) (c == i) (e (nodes c)) refl;
  children =
      λ k c a. if_both (λ (d : Mnode). All (λ e. e < k) d.children) (c == i) (h k (nodes c) a) a;
}

pub SubTree-refl : (nodes : Nodes) → SubTree nodes nodes
SubTree-refl nodes = record { parents = λ c. refl; children = λ k c a. a }

pub SubTree-trans : (a b c : Nodes) → SubTree a b → SubTree b c → SubTree a c
SubTree-trans a b c s t = record {
  parents = λ i. s.parents i ∙ t.parents i;
  children = λ k i h. s.children k i (t.children k i h);
}

All-remove : (k n : ℕ) (cs : List ℕ) → All (λ d. d < k) cs → All (λ d. d < k) (remove n cs)
unfolding remove
All-remove k n [] h = tt
All-remove k n (c ∷ cs) h = if_both (All (λ d. d < k)) (c == n) h.1 (h.0, All-remove k n cs h.1)

pub unlink_from-SubTree :
    (n : ℕ) (o : Option ℕ) (nodes : Nodes) → SubTree (unlink_from n o nodes) nodes
unlink_from-SubTree n none nodes = SubTree-refl nodes
unlink_from-SubTree n (some p) nodes =
    modify-SubTree p (λ d. record d { children = remove n d.children }) nodes (λ d. refl)
      (λ k d h. All-remove k n d.children h)

-- A node is taken out of its parent, and freed.
pub freed-SubTree : (n : ℕ) (nodes : Nodes) → SubTree (free_node n (unlink_node n nodes)) nodes
freed-SubTree n nodes =
    SubTree-trans (free_node n (unlink_node n nodes)) (unlink_node n nodes) nodes
      (modify-SubTree n (λ d. record d { live = false }) (unlink_node n nodes) (λ d. refl)
        (λ k d h. h))
      (unlink_from-SubTree n (nodes n).parent nodes)
