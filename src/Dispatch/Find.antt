-- ===== src/Dispatch/Find.antt =====
-- What src/dispatch.c finds after a registration.
use openps3ftp.Base.{
  ◌≡◌, ◌≢◌, refl, sym, ◌∙◌, ap, true, false, Option, none, some, [], ◌∷◌, map, ◌||◌, ◌==◌, leb,
  length, arith, if◌then◌else◌, Bytes, str_eq, str_eq_iff, to_upper, Bool-cases, Option-cases, inl,
  inr,
}
use openps3ftp.Dispatch.{Slot, Table, replace, fill, dispatch_register, dispatch_find}

-- of two different names one answer stands in front of the other
swap_tests {ℓ} :
    {A : Type ℓ} (n up q : Bytes) (a b c : A)
    → str_eq n up ≡ false
    → (if str_eq n q then a else if str_eq up q then b else c)
      ≡ (if str_eq up q then b else if str_eq n q then a else c)
swap_tests n up q a b c apart = elim (Bool-cases (str_eq up q)) [
  | inr differ ↦ rw differ refl
  | inl same ↦
      let e : str_eq n q ≡ false = ap (str_eq n) (sym ((str_eq_iff up q).0 same)) ∙ apart in
      rw (e, same) refl
]

module _ {ℓ} {F : Type ℓ} where
  -- the answer for a name once `up` is registered with `fn`
  abbrev pub found_after : Bytes → F → Bytes → Table F → Option F
  found_after up fn q t = if str_eq up q then some fn else dispatch_find q t

  -- the same name, so the same answers
  find-replace_here :
      (x : Slot F) (up : Bytes) (fn : F) (q : Bytes) (c : Option F)
      → str_eq x.name up ≡ true
      → (if str_eq x.name q then some fn else c)
        ≡ (if str_eq up q then some fn else if str_eq x.name q then some x.fn else c)
  find-replace_here x up fn q c same = ground (arith, (str_eq_iff x.name up).0 same)

  find-replace :
      (up : Bytes) (fn : F) (q : Bytes) (t : Table F) {t' : Table F}
      → replace up fn t ≡ some t'
      → dispatch_find q t' ≡ found_after up fn q t
  unfolding replace dispatch_find
  find-replace up fn q [] e = absurd cc
  find-replace up fn q (none ∷ t) e = elim (Option-cases (replace up fn t)) [
    | inl n ↦ absurd (ground arith)
    | inr (r, k) ↦ ground (arith, find-replace up fn q t k)
  ]
  find-replace up fn q (some x ∷ t) e = elim (Bool-cases (str_eq x.name up)) [
    | inl same ↦ ground (arith, find-replace_here x up fn q (dispatch_find q t) same)
    | inr apart ↦ elim (Option-cases (replace up fn t)) [
      | inl n ↦ absurd (ground arith)
      | inr (r, k) ↦ ground (
        arith,
        find-replace up fn q t k,
        swap_tests x.name up q (some x.fn) (some fn) (dispatch_find q t) apart,
      )
    ]
  ]

  find-fill :
      (up : Bytes) (fn : F) (q : Bytes) (t : Table F) {t' : Table F}
      → replace up fn t ≡ none
      → fill up fn t ≡ some t'
      → dispatch_find q t' ≡ found_after up fn q t
  unfolding replace fill dispatch_find
  find-fill up fn q [] r e = absurd cc
  find-fill up fn q (none ∷ t) r e = ground arith
  find-fill up fn q (some x ∷ t) r e = elim (Bool-cases (str_eq x.name up)) [
    | inl same ↦ absurd (ground arith)
    | inr apart ↦ elim (Option-cases (fill up fn t)) [
      | inl n ↦ absurd (ground arith)
      | inr (t'', k) ↦ elim (Option-cases (replace up fn t)) [
        | inl m ↦ ground (
          arith,
          find-fill up fn q t m k,
          swap_tests x.name up q (some x.fn) (some fn) (dispatch_find q t) apart,
        )
        | inr (u, m) ↦ absurd (ground arith)
      ]
    ]
  ]

  -- When a registration returns no error, a look-up of the name in upper case yields the new handler, and a
  -- look-up of any other name yields what it did before; when it returns one, the table is unchanged.
  pub find-dispatch_register :
      (name : Bytes) (fn : F) (q : Bytes) (t : Table F)
      → ((dispatch_register name fn t).1 ≡ none
          → dispatch_find q (dispatch_register name fn t).0
            ≡ found_after (map to_upper name) fn q t)
        × ((dispatch_register name fn t).1 ≢ none → (dispatch_register name fn t).0 ≡ t)
  unfolding dispatch_register
  find-dispatch_register name fn q t = elim (Bool-cases (length name == 0 || leb 8 (length name))) [
    | inl bad ↦ rw bad (λ e. absurd cc, λ ne. refl)
    | inr good ↦ elim (Option-cases (replace (map to_upper name) fn t)) [
      | inr (t', e) ↦
          rw (good, e) (λ ok. find-replace (map to_upper name) fn q t e, λ ne. absurd (ne refl))
      | inl n ↦ elim (Option-cases (fill (map to_upper name) fn t)) [
        | inl full ↦ rw (good, n, full) (λ e. absurd cc, λ ne. refl)
        | inr (t', e) ↦
            rw (good, n, e) (λ ok. find-fill (map to_upper name) fn q t n e, λ ne. absurd (ne refl))
      ]
    ]
  ]
