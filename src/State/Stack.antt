-- ===== src/State/Stack.antt =====
-- The matrix stack of src/state.c: a push copies the matrix on top, and a pop goes back.
use profit.Prelude.{
  zero, ap, ◌≤◌, take, drop, ℕ, suc, ◌+◌, ◌-◌, ◌%◌, ◌^◌, ◌<◌, ◌≡◌, refl, sym, ◌∙◌, some, List, [],
  ◌∷◌, ◌++◌, arith, inl, inr, Bool-cases, length, get_elem?, set, leb, ltb, if◌then◌else◌,
  length-append, length-set, get_elem?-set_self,
}
use profit.Prelude.Windows.{get_elem?-some, get_elem?-agree, take-append_short, drop-length}
use profit.State.{State, Matrix, push, pop}

room_for :
    (m : List Matrix) (junk : Matrix) (n : ℕ)
    → n < length m
    → let m' = if leb (length m) (n + 1) then m ++ junk ∷ [] else m in
      (n + 1 < length m') × (get_elem? m' n ≡ get_elem? m n)
room_for m junk n h = elim (Bool-cases (leb (length m) (n + 1))) [
  | inl e ↦ rw e (
    omega (arith, length-append m (junk ∷ [])),
    get_elem?-agree (n + 1) n (m ++ junk ∷ []) m
        (take-append_short (n + 1) m (junk ∷ []) (omega arith)) (omega arith),
  )
  | inr e ↦ rw e (ground arith, refl)
]

take-set_below : (n : ℕ) (x : Matrix) (xs : List Matrix) → take n (set xs n x) ≡ take n xs
take-set_below zero x xs = refl
take-set_below (suc n) x [] = refl
take-set_below (suc n) x (y ∷ xs) = ap (λ l. y ∷ l) (take-set_below n x xs)

drop-set_above : (n m : ℕ) (x : Matrix) (xs : List Matrix) → n < m → drop m (set xs n x) ≡ drop m xs
drop-set_above n zero x xs h = absurd (omega arith)
drop-set_above n (suc m) x [] h = refl
drop-set_above zero (suc m) x (y ∷ xs) h = refl
drop-set_above (suc n) (suc m) x (y ∷ xs) h = drop-set_above n m x xs (omega arith)

module _ {N W : Type 0} where
  -- The level is on the stack, and k more levels fit in its 16 bits.
  pub record Ready (k : ℕ) (s : State N W) : Type 0 where
    pub on_stack : s.state_push_level < length s.matrix
    pub room : s.state_push_level + k < 2 ^ 16
    pub deep : s.physical_level + k < 2 ^ 16

  -- what a push gives
  pub record Pushed (s s' : State N W) : Type 0 where
    pub level : s'.state_push_level ≡ s.state_push_level + 1
    pub grown : s.state_push_level + 1 < length s'.matrix
    pub copied : get_elem? s'.matrix s'.state_push_level ≡ get_elem? s.matrix s.state_push_level
    pub below : take (s.state_push_level + 1) s'.matrix ≡ take (s.state_push_level + 1) s.matrix
    pub above : drop (s.state_push_level + 2) s'.matrix ≡ drop (s.state_push_level + 2) s.matrix
    pub others : s' ≡ record s { state_push_level = s'.state_push_level; matrix = s'.matrix }

  -- what a pop gives
  pub record Popped (s s' : State N W) : Type 0 where
    pub level : s'.state_push_level + 1 ≡ s.state_push_level
    pub others : s' ≡ record s { state_push_level = s'.state_push_level; inv_dirty = s'.inv_dirty }

  stacked : Matrix → State N W → List Matrix
  stacked junk s =
      let level : ℕ = s.state_push_level + 1 in
      if leb (length s.matrix) level then s.matrix ++ junk ∷ [] else s.matrix

  stacked-below :
      (junk : Matrix) (s : State N W)
      → s.state_push_level < length s.matrix
      → take (s.state_push_level + 1) (stacked junk s) ≡ take (s.state_push_level + 1) s.matrix
  unfolding stacked
  stacked-below junk s on = elim (Bool-cases (leb (length s.matrix) (s.state_push_level + 1))) [
    | inl e ↦ rw e (take-append_short (s.state_push_level + 1) s.matrix (junk ∷ []) (omega arith))
    | inr e ↦ rw e refl
  ]

  stacked-above :
      (junk : Matrix) (s : State N W)
      → drop (s.state_push_level + 2) (stacked junk s) ≡ drop (s.state_push_level + 2) s.matrix
  unfolding stacked
  stacked-above junk s = elim (Bool-cases (leb (length s.matrix) (s.state_push_level + 1))) [
    | inl e ↦
        let short : length s.matrix ≤ s.state_push_level + 1 = ground arith in
        rw e (
          drop-length (s.state_push_level + 2) (s.matrix ++ junk ∷ [])
            (omega (arith, short, length-append s.matrix (junk ∷ [])))
          ∙ sym (drop-length (s.state_push_level + 2) s.matrix (omega (arith, short))))
    | inr e ↦ rw e refl
  ]

  push-run :
      (junk : Matrix) (s : State N W) (below : Matrix)
      → s.state_push_level + 1 < 2 ^ 16
      → s.state_push_level + 1 < length (stacked junk s)
      → get_elem? (stacked junk s) s.state_push_level ≡ some below
      → push junk s
        ≡ some (record s {
          state_push_level = s.state_push_level + 1;
          matrix = set (stacked junk s) (s.state_push_level + 1) below;
        })
  unfolding push stacked
  push-run junk s below lt on e =
      let l : (s.state_push_level + 1) % 2 ^ 16 ≡ s.state_push_level + 1 = omega arith in
      let p : s.state_push_level + 1 - 1 ≡ s.state_push_level = omega arith in
      rw (l, p, e) (ground arith)

  -- On a state whose level is on its stack of matrices, with room for a level more, `prf_state_push`
  -- goes one level up, copies the matrix on top to it, and leaves all other matrices and the rest of the
  -- state alone.
  pub push-Pushed :
      (junk : Matrix) (s : State N W) (k : ℕ)
      → Ready (suc k) s
      → (s' : State N W) × (push junk s ≡ some s') × Pushed s s'
  unfolding stacked
  push-Pushed junk s k r =
      let (grows, same_below) = room_for s.matrix junk s.state_push_level r.on_stack in
      let (below, e) = get_elem?-some s.matrix s.state_push_level r.on_stack in
      (
        _,
        push-run junk s below (omega arith) grows (same_below ∙ e),
        record {
          level = refl;
          grown = omega (arith, length-set (stacked junk s) (s.state_push_level + 1) below);
          below =
              take-set_below (s.state_push_level + 1) below (stacked junk s)
              ∙ stacked-below junk s r.on_stack;
          above =
              drop-set_above (s.state_push_level + 1) (s.state_push_level + 2) below
                (stacked junk s) (omega arith)
              ∙ stacked-above junk s;
          copied = get_elem?-set_self (stacked junk s) (s.state_push_level + 1) below grows ∙ sym e;
          others = refl;
        },
      )

  -- On a state whose level is above 0 and on its stack of matrices, `prf_state_pop` goes one level
  -- down and changes nothing else but the mark of the inverse matrix.
  pub pop-Popped :
      (s : State N W)
      → 0 < s.state_push_level
      → s.state_push_level < 2 ^ 16
      → s.state_push_level < length s.matrix
      → (s' : State N W) × (pop s ≡ some s') × Popped s s'
  unfolding pop
  pop-Popped s h lt on =
      let (m1, e1) = get_elem?-some s.matrix (s.state_push_level - 1) (omega arith) in
      let (m2, e2) = get_elem?-some s.matrix s.state_push_level on in
      let l : (s.state_push_level + 2 ^ 16 - 1) % 2 ^ 16 ≡ s.state_push_level - 1 = omega arith in
      elim (Bool-cases s.inv_dirty) [
        | inl e ↦ rw (l, e) (_, refl, record { level = omega arith; others = refl })
        | inr e ↦ elim (Bool-cases (ltb 1 s.state_push_level)) [
          | inl e' ↦ rw (l, e, e', e1, e2) (_, refl, record { level = omega arith; others = refl })
          | inr e' ↦ rw (l, e, e') (_, refl, record { level = omega arith; others = refl })
        ]
      ]
