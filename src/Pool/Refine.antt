-- ===== src/Pool/Refine.antt =====
-- The ring of src/datachan.c as a queue of jobs.
use openps3ftp.Base.{
  ℕ, zero, suc, ◌+◌, ◌-◌, ◌%◌, ◌≤◌, ◌<◌, ◌≡◌, ◌≢◌, refl, sym, subst, ◌∙◌, ap, Bool, true, false,
  Option, some, List, [], ◌∷◌, ◌++◌, ◌==◌, leb, if◌then◌else◌, arith, set, length, map, Bool-cases,
  inl, inr,
}
use openps3ftp.Pool.{
  Pool, Turn, sleep, leave, start, slot_at, datachan_init, dispatch, worker_turn, walk_queue,
  datachan_stop,
}
use openps3ftp.Pool.Valid.{
  IsValid, wrap, mod-wrap, wrap-lt, length-set, datachan_init-IsValid, worker_turn-IsValid,
}

module _ {ℓ} {A : Type ℓ} where
  map-append_one : (f : ℕ → A) (q : List ℕ) (j : ℕ) → map f (q ++ j ∷ []) ≡ map f q ++ f j ∷ []
  map-append_one f [] j = refl
  map-append_one f (x ∷ q) j = ap (λ l. f x ∷ l) (map-append_one f q j)

slot_at-set_self :
    (xs : List (Option ℕ)) (i : ℕ) (v : Option ℕ) → i < length xs → slot_at (set xs i v) i ≡ v
slot_at-set_self [] i v h = absurd (omega arith)
slot_at-set_self (x ∷ xs) zero v h = refl
slot_at-set_self (x ∷ xs) (suc i) v h = slot_at-set_self xs i v (omega arith)

slot_at-set_other :
    (xs : List (Option ℕ)) (i k : ℕ) (v : Option ℕ) → i ≢ k → slot_at (set xs i v) k ≡ slot_at xs k
slot_at-set_other [] i k v h = refl
slot_at-set_other (x ∷ xs) zero zero v h = absurd (h refl)
slot_at-set_other (x ∷ xs) zero (suc k) v h = refl
slot_at-set_other (x ∷ xs) (suc i) zero v h = refl
slot_at-set_other (x ∷ xs) (suc i) (suc k) v h = slot_at-set_other xs i k v (λ e. h (ap suc e))

-- `n` entries from index `i` on, round the end of the array
pub window : List (Option ℕ) → ℕ → ℕ → ℕ → List (Option ℕ)
window xs size i zero = []
window xs size i (suc n) = slot_at xs i ∷ window xs size (wrap size (i + 1)) n

wrap_step :
    (size i n : ℕ) → i < size → n < size → wrap size (wrap size (i + 1) + n) ≡ wrap size (i + suc n)
wrap_step size i n p q = ground arith

-- one entry more
window-suc :
    (xs : List (Option ℕ)) (size i n : ℕ)
    → i < size
    → n < size
    → window xs size i (suc n) ≡ window xs size i n ++ slot_at xs (wrap size (i + n)) ∷ []
unfolding window
window-suc xs size i zero p q = ground (arith)
window-suc xs size i (suc n) p q =
    ap (λ l. slot_at xs i ∷ l)
      (window-suc xs size (wrap size (i + 1)) n (wrap-lt size (i + 1) (omega arith)) (omega arith)
        ∙ ap (λ k. window xs size (wrap size (i + 1)) n ++ slot_at xs k ∷ [])
            (wrap_step size i n p (omega arith)))

-- an entry behind the window may change
window-set :
    (xs : List (Option ℕ)) (size i n : ℕ) (v : Option ℕ)
    → i < size
    → n < size
    → window (set xs (wrap size (i + n)) v) size i n ≡ window xs size i n
unfolding window
window-set xs size i zero v p q = refl
window-set xs size i (suc n) v p q =
    let k = wrap size (i + suc n) in
    let apart : k ≢ i = λ e. ground arith in
    let rest : window (set xs k v) size (wrap size (i + 1)) n
        ≡ window xs size (wrap size (i + 1)) n =
      subst
        (λ m. window (set xs m v) size (wrap size (i + 1)) n ≡ window xs size (wrap size (i + 1)) n)
        (wrap_step size i n p (omega arith))
        (window-set xs size (wrap size (i + 1)) n v (wrap-lt size (i + 1) (omega arith))
          (omega arith)) in
    rw rest (rw (slot_at-set_other xs k i v apart) refl)

length-window : (xs : List (Option ℕ)) (size i n : ℕ) → length (window xs size i n) ≡ n
unfolding window
length-window xs size i zero = refl
length-window xs size i (suc n) = omega (arith, length-window xs size (wrap size (i + 1)) n)

length-map : (q : List ℕ) → length (map (λ (j : ℕ). some j) q) ≡ length q
length-map [] = refl
length-map (j ∷ q) = omega (arith, length-map q)

-- a valid ring whose entries, from the head on, are these jobs
pub record Represents (r : Pool) (q : List ℕ) : Type 0 where
  pub valid : IsValid r
  pub entries : window r.slots r.cap r.head r.count ≡ map (λ (j : ℕ). some j) q

length-Represents : {r : Pool} {q : List ℕ} → Represents r q → length q ≡ r.count
length-Represents {r} {q} h =
    omega (arith, length-map q, length-window r.slots r.cap r.head r.count, ap length h.entries)

-- The queue: its jobs, oldest first.
unfoldable pub enqueue : ℕ → ℕ → List ℕ → Bool × List ℕ
enqueue size j q = if leb size (length q) then (false, q) else (true, q ++ j ∷ [])

unfoldable pub next_job : Bool → List ℕ → Turn × List ℕ
next_job running [] = (if running then sleep else leave, [])
next_job running (j ∷ q) = (start (some j), q)

-- with a job at the tail
added_to : ℕ → Pool → Pool
added_to j r = record r {
  slots = set r.slots r.tail (some j);
  tail = (r.tail + 1) % r.cap;
  count = r.count + 1;
}

added :
    (j : ℕ) (r : Pool) (q : List ℕ)
    → Represents r q
    → r.count < r.cap
    → Represents (added_to j r) (q ++ j ∷ [])
unfolding added_to
added j r q h free =
    let v = h.valid in
    let xs = set r.slots r.tail (some j) in
    record {
      valid = ground (
        arith,
        length-set r.slots r.tail (some j),
        mod-wrap r.cap (r.tail + 1) v.room
            (omega (arith, wrap-lt r.cap (r.head + r.count) (omega arith))),
      );
      entries =
          ap (window xs r.cap r.head) (omega arith)
          ∙ window-suc xs r.cap r.head r.count v.head_in free
          ∙ ap (λ l. l ++ slot_at xs (wrap r.cap (r.head + r.count)) ∷ [])
              (subst
                (λ m.
                  window (set r.slots m (some j)) r.cap r.head r.count
                  ≡ window r.slots r.cap r.head r.count)
                (sym v.tail_at) (window-set r.slots r.cap r.head r.count (some j) v.head_in free))
          ∙ ap (λ x. window r.slots r.cap r.head r.count ++ x ∷ [])
              (ap (slot_at xs) (sym v.tail_at)
                ∙ slot_at-set_self r.slots r.tail (some j) (
                    omega (
                      arith,
                      v.tail_at,
                      v.storage,
                      wrap-lt r.cap (r.head + r.count) (omega arith),
                    )))
          ∙ ap (λ l. l ++ some j ∷ []) h.entries
          ∙ sym (map-append_one (λ (j : ℕ). some j) q j);
    }

pub dispatch-Represents :
    (j : ℕ) (r : Pool) (q : List ℕ)
    → Represents r q
    → ((dispatch j r).0 ≡ (enqueue r.cap j q).0) × Represents (dispatch j r).1 (enqueue r.cap j q).1
unfolding dispatch enqueue added_to
dispatch-Represents j r q h = elim (Bool-cases (leb r.cap r.count)) [
  | inl full ↦
      let full' : leb r.cap (length q) ≡ true = rw (length-Represents h) full in
      rw full (rw full' (refl, h))
  | inr free ↦
      let free' : leb r.cap (length q) ≡ false = rw (length-Represents h) free in
      rw free (rw free' (refl, added j r q h (ground arith)))
]

cons-head {ℓ} : {A : Type ℓ} {x y : A} {xs ys : List A} → x ∷ xs ≡ y ∷ ys → x ≡ y
cons-head h = cc

cons-tail {ℓ} : {A : Type ℓ} {x y : A} {xs ys : List A} → x ∷ xs ≡ y ∷ ys → xs ≡ ys
cons-tail h = cc

taken_eq :
    (r : Pool)
    → (r.count == 0) ≡ false
    → (worker_turn r).1 ≡ record r { head = (r.head + 1) % r.cap; count = r.count - 1 }
unfolding worker_turn
taken_eq r h = rw h refl

wrap_next :
    (size h i : ℕ)
    → h < size
    → i < size
    → wrap size (wrap size (h + i) + 1) ≡ wrap size (h + (i + 1))
wrap_next size h i p q = ground arith

pub worker_turn-Represents :
    (r : Pool) (q : List ℕ)
    → Represents r q
    → ((worker_turn r).0 ≡ (next_job r.running q).0)
      × Represents (worker_turn r).1 (next_job r.running q).1
unfolding worker_turn next_job window
worker_turn-Represents r [] h =
    let none_left : (r.count == 0) ≡ true = ground (arith, length-Represents h) in
    rw none_left (refl, h)
worker_turn-Represents r (j ∷ q) h =
    let some_left : (r.count == 0) ≡ false = ground (arith, length-Represents h) in
    let same : suc (r.count - 1) ≡ r.count = omega (arith, length-Represents h) in
    let e : window r.slots r.cap r.head (suc (r.count - 1)) ≡ some j ∷ map (λ (j : ℕ). some j) q =
      ap (window r.slots r.cap r.head) same ∙ h.entries in
    let first : slot_at r.slots r.head ≡ some j = cons-head e in
    let next = mod-wrap r.cap (r.head + 1) h.valid.room (omega arith) in
    rw some_left (
      ap start first,
      record {
        valid = subst IsValid (taken_eq r some_left) (worker_turn-IsValid r h.valid);
        entries = ap (λ i. window r.slots r.cap i (r.count - 1)) next ∙ cons-tail e;
      },
    )

walk_queue-window :
    (i n : ℕ) (r : Pool)
    → IsValid r
    → i + n ≤ r.cap
    → walk_queue i n r ≡ window r.slots r.cap (wrap r.cap (r.head + i)) n
unfolding walk_queue window
walk_queue-window i zero r v h = refl
walk_queue-window i (suc n) r v h = rw (mod-wrap r.cap (r.head + i) v.room (omega arith)) (
    ap (λ l. slot_at r.slots (wrap r.cap (r.head + i)) ∷ l)
      (walk_queue-window (i + 1) n r v (omega arith)
        ∙ ap (λ k. window r.slots r.cap k n)
            (sym (wrap_next r.cap r.head i v.head_in (omega arith)))))

pub datachan_stop-Represents :
    (r : Pool) (q : List ℕ)
    → Represents r q
    → ((datachan_stop r).0 ≡ map (λ (j : ℕ). some j) q) × Represents (datachan_stop r).1 q
unfolding datachan_stop
datachan_stop-Represents r q h =
    let v = h.valid in
    (
      walk_queue-window 0 r.count r v (omega arith)
          ∙ ap (λ i. window r.slots r.cap i r.count) (ground arith)
          ∙ h.entries,
      record {
        valid = record {
          room = v.room;
          storage = v.storage;
          head_in = v.head_in;
          count_in = v.count_in;
          tail_at = v.tail_at;
        };
        entries = h.entries;
      },
    )

pub datachan_init-Represents : (n : ℕ) → 0 < n → Represents (datachan_init n) []
unfolding datachan_init window
datachan_init-Represents n h = record { valid = datachan_init-IsValid n h; entries = refl }
