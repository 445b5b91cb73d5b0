-- ===== src/Path/Walk.antt =====
-- The components of a resolved path (src/resolve.c), against a walk through a tree of directories.
use openps3ftp.Base.{
  suc, ◌+◌, ◌≤◌, ◌<◌, ◌≡◌, ◌≢◌, refl, List, [], ◌∷◌, arith, ltb, if◌then◌else◌, Bytes, codes, All,
  All-append, All-drop_last, Bool-cases, inl, inr, str_eq, str_eq_iff, length, length-append,
  drop_last, drop_last-concat,
}
use mathlib.Core.List.{reverse, reverse-cons, tail}
use openps3ftp.Path.Tokens.{IsToken}
use openps3ftp.Path.{resolve_component, resolve_components}

-- A component of a canonical path.
abbrev pub IsClean : Bytes → Type 0
IsClean c = IsToken c × (c ≢ codes ".") × (c ≢ codes "..")

-- The walk: where it is, innermost directory first, and where it goes. ".." at the top stays there.
abbrev pub visit : List Bytes → Bytes → List Bytes
visit here c =
    if str_eq c (codes ".") then here else if str_eq c (codes "..") then tail here else c ∷ here

abbrev pub walk : List Bytes → List Bytes → List Bytes
walk here [] = here
walk here (c ∷ cs) = walk (visit here c) cs

resolve_component-IsClean :
    (stack : List Bytes) (c : Bytes)
    → All IsClean stack
    → IsToken c
    → All IsClean (resolve_component stack c)
unfolding resolve_component
resolve_component-IsClean stack c h k = elim (Bool-cases (str_eq c (codes "."))) [
  | inl dot ↦ rw dot h
  | inr not_dot ↦ elim (Bool-cases (str_eq c (codes ".."))) [
    | inl up ↦ rw (not_dot, up) (All-drop_last IsClean stack h)
    | inr down ↦ elim (Bool-cases (ltb (length stack) 512)) [
      | inl room ↦
          rw (not_dot, down, room)
            (All-append IsClean stack (c ∷ []) h (
              (
                k,
                (λ e. ground (arith, str_eq_iff c (codes "."))),
                (λ e. ground (arith, str_eq_iff c (codes ".."))),
              ),
              tt,
            ))
      | inr full ↦ rw (not_dot, down, full) h
    ]
  ]
]

-- Neither "." nor ".." nor an empty component is left.
pub resolve_components-IsClean :
    (stack cs : List Bytes)
    → All IsClean stack
    → All IsToken cs
    → All IsClean (resolve_components stack cs)
unfolding resolve_components
resolve_components-IsClean stack [] h k = h
resolve_components-IsClean stack (c ∷ cs) h k =
    resolve_components-IsClean (resolve_component stack c) cs
      (resolve_component-IsClean stack c h k.0) k.1

drop_last-reverse : (xs : List Bytes) → drop_last (reverse xs) ≡ reverse (tail xs)
drop_last-reverse [] = refl
drop_last-reverse (x ∷ xs) = rw (reverse-cons x xs) (drop_last-concat (reverse xs) x)

pub length-reverse : (xs : List Bytes) → length (reverse xs) ≡ length xs
length-reverse [] = refl
length-reverse (x ∷ xs) =
    rw (reverse-cons x xs, length-append (reverse xs) (x ∷ [])) (omega (arith, length-reverse xs))

resolve_component-visit :
    (here : List Bytes) (c : Bytes)
    → length here < 512
    → resolve_component (reverse here) c ≡ reverse (visit here c)
unfolding resolve_component
resolve_component-visit here c h =
    ground (arith, drop_last-reverse here, reverse-cons c here, length-reverse here)

length-visit-le : (here : List Bytes) (c : Bytes) → length (visit here c) ≤ suc (length here)
length-visit-le [] c = ground arith
length-visit-le (x ∷ xs) c = ground arith

-- The loop is the walk, as long as the stack of 512 components cannot overflow.
pub resolve_components-walk :
    (here cs : List Bytes)
    → length here + length cs ≤ 512
    → resolve_components (reverse here) cs ≡ reverse (walk here cs)
unfolding resolve_components
resolve_components-walk here [] h = refl
resolve_components-walk here (c ∷ cs) h =
    rw (resolve_component-visit here c (omega arith))
      (resolve_components-walk (visit here c) cs (omega (arith, length-visit-le here c)))
