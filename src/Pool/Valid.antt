-- ===== src/Pool/Valid.antt =====
-- The ring of src/datachan.c: its invariant, and the arithmetic of its indices.
use openps3ftp.Base.{
  ℕ, zero, suc, ◌+◌, ◌-◌, ◌*◌, ◌%◌, ◌≤◌, ◌<◌, ◌≡◌, refl, Option, none, some, List, [], ◌∷◌, ltb,
  if◌then◌else◌, arith, replicate, set, length, Bool-cases, inl, inr, ltb→lt, ◌∙◌,
}
use native.Mathlib.Nat.{mod-eq_of_lt, mod-eq-sub-mod}
use openps3ftp.Pool.{Pool, datachan_init, dispatch, worker_turn}

-- an index that may have passed the end once
abbrev pub wrap : ℕ → ℕ → ℕ
wrap n i = if ltb i n then i else i - n

pub mod-wrap : (n i : ℕ) → 0 < n → i < n + n → i % n ≡ wrap n i
mod-wrap n i pos h = elim (Bool-cases (ltb i n)) [
  | inl small ↦ rw small (mod-eq_of_lt (ltb→lt i n small))
  | inr large ↦
      let over : n ≤ i = ground arith in
      rw large (mod-eq-sub-mod over ∙ mod-eq_of_lt (omega (arith, over)))
]

pub wrap-lt : (n i : ℕ) → i < n + n → wrap n i < n
wrap-lt n i h = ground arith

pub length-set {ℓ} : {A : Type ℓ} (xs : List A) (i : ℕ) (v : A) → length (set xs i v) ≡ length xs
length-set [] i v = refl
length-set (x ∷ xs) zero v = refl
length-set (x ∷ xs) (suc i) v = omega (arith, length-set xs i v)

length-replicate {ℓ} : {A : Type ℓ} (n : ℕ) (a : A) → length (replicate n a) ≡ n
length-replicate zero a = refl
length-replicate (suc n) a = omega (arith, length-replicate n a)

-- Every index is within the array, and the tail is where the next job goes.
pub record IsValid (r : Pool) : Type 0 where
  pub room : 0 < r.cap
  pub storage : length r.slots ≡ r.cap
  pub head_in : r.head < r.cap
  pub count_in : r.count ≤ r.cap
  pub tail_at : r.tail ≡ wrap r.cap (r.head + r.count)

pub datachan_init-IsValid : (n : ℕ) → 0 < n → IsValid (datachan_init n)
unfolding datachan_init
datachan_init-IsValid n h = ground (arith, length-replicate {A = Option ℕ} (n * 2) none)

pub dispatch-IsValid : (j : ℕ) (r : Pool) → IsValid r → IsValid (dispatch j r).1
unfolding dispatch
dispatch-IsValid j r v = ground (
  arith,
  length-set r.slots r.tail (some j),
  mod-wrap r.cap (r.tail + 1) v.room
      (omega (arith, wrap-lt r.cap (r.head + r.count) (omega arith))),
)

pub worker_turn-IsValid : (r : Pool) → IsValid r → IsValid (worker_turn r).1
unfolding worker_turn
worker_turn-IsValid r v = ground (arith, mod-wrap r.cap (r.head + 1) v.room (omega arith))
