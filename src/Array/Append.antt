-- ===== src/Array/Append.antt =====
-- `prf_array_append_*`, `prf_array_set_size` and `prf_array_fit`.
use profit.Prelude.Windows.{take-set_end, take-append_short, take-take_of_le}
use profit.Prelude.{
  ℕ, suc, ◌+◌, ◌-◌, ◌*◌, ◌/◌, ◌^◌, ◌%◌, ◌≤◌, ◌<◌, ◌≡◌, refl, ap, ◌∙◌, [], ◌∷◌, ◌++◌, arith, length,
  take, set, replicate, length-append, length-take, length-replicate, leb, none, some, length-set,
  ◌>>=◌, inl, inr, Bool-cases, lt→ltb,
}
use native.Mathlib.Nat.{mul-div_cancel}
use profit.Array.{Array, set_size, fit, append, store, numelem_bits}
use profit.Array.Elems.{elems, IsValid}

module _ {A : Type 0} (junk : A) where
  abbrev resized : ℕ → Array A → Array A
  resized n a = record a { size = n; cells = take n a.cells ++ replicate (n - length a.cells) junk }

module _ {A : Type 0} (junk : A) (width : ℕ) where
  set_size-resized :
      (n : ℕ) (a : Array A)
      → IsValid width a
      → n < 2 ^ 31
      → set_size junk width n a ≡ some (resized junk n a)
  unfolding set_size
  set_size-resized n a v lt =
      let slots : n * a.elemsize / width ≡ n = rw v.element (mul-div_cancel n v.width_pos) in
      rw (lt→ltb n (2 ^ 31) lt, slots)

  resized-IsValid :
      (n : ℕ) (a : Array A)
      → IsValid width a
      → a.numelem ≤ n
      → n < 2 ^ 31
      → IsValid width (resized junk n a) × (elems (resized junk n a) ≡ elems a)
  resized-IsValid n a v h lt = (
    record {
      slots = omega (
        arith,
        length-append (take n a.cells) (replicate (n - length a.cells) junk),
        length-take n a.cells,
        length-replicate (n - length a.cells) junk,
      );
      element = v.element;
      width_pos = v.width_pos;
      counted = h;
      size_lt = lt;
      numelem_lt = v.numelem_lt;
    },
    take-append_short a.numelem (take n a.cells) _
          (omega (arith, length-take n a.cells, v.slots, v.counted))
        ∙ take-take_of_le a.numelem n a.cells h,
  )

  store-end :
      (x : A) (a : Array A)
      → IsValid width a
      → a.numelem < a.size
      → a.numelem + 1 < numelem_bits
      → let a' : Array A = record a { cells = set a.cells a.numelem x } in
        let a'' : Array A = record a' { numelem = (a.numelem + 1) % numelem_bits } in
        (store a.numelem x a ≡ some a') × IsValid width a'' × (elems a'' ≡ elems a ++ x ∷ [])
  unfolding store
  store-end x a v h lt = (
    rw (lt→ltb a.numelem (length a.cells) (omega arith)),
    record {
      slots = omega (arith, length-set a.cells a.numelem x);
      element = v.element;
      width_pos = v.width_pos;
      counted = omega arith;
      size_lt = v.size_lt;
      numelem_lt = omega arith;
    },
    ap (λ k. take k (set a.cells a.numelem x)) {x = (a.numelem + 1) % numelem_bits}
          {y = suc a.numelem} (omega arith)
        ∙ take-set_end a.numelem x a.cells (omega arith),
  )

  -- What appending does to a well-formed array of positive capacity.
  abbrev pub Appended : A → Array A → Array A → Type 0
  Appended x a b =
      (append junk width x a ≡ some b)
      × IsValid width b
      × (elems b ≡ elems a ++ x ∷ [])
      × (b.numelem ≡ a.numelem + 1)

  -- On a well-formed array whose capacity is positive and below 2^30, with room for one more in the
  -- 28-bit count, `prf_array_append_*` succeeds, keeps the array well formed, and adds exactly the
  -- new element behind the others, whether it grows the block or not.
  pub append-elems :
      (x : A) (a : Array A)
      → IsValid width a
      → 0 < a.size
      → a.size < 2 ^ 30
      → a.numelem + 1 < numelem_bits
      → (b : Array A) × Appended x a b
  unfolding append
  append-elems x a v pos lt cnt = elim (Bool-cases (leb a.size a.numelem)) [
    | inl full ↦
        let n : ℕ = a.size * 2 % 2 ^ 32 in
        let (v', e') = resized-IsValid n a v (omega arith) (omega arith) in
        let (s, v'', e'') = store-end x (resized junk n a) v' (ground arith) cnt in
        (
          _,
          (
            rw (full, set_size-resized n a v (omega arith)) (rw s refl),
            v'',
            e'' ∙ ap (λ l. l ++ x ∷ []) e',
            omega arith,
          ),
        )
    | inr roomy ↦
        let (s, v'', e'') = store-end x a v (ground arith) cnt in
        (_, (rw roomy (rw s refl), v'', e'', omega arith))
  ]

  -- With no slot to spare and none to double, an append writes outside the block.
  append-no_slot : (x : A) (a : Array A) → a.size ≡ 0 → a.cells ≡ [] → append junk width x a ≡ none
  unfolding append set_size store
  append-no_slot x a e c =
      let z : 0 * a.elemsize / width ≡ 0 = grind arith in rw (e, c, z) (ground arith)

  fit-empty :
      (a : Array A)
      → IsValid width a
      → a.numelem ≡ 0
      → fit junk width a ≡ some (record a { size = 0; cells = [] })
  unfolding fit
  fit-empty a v e =
      let none_more : 0 - length a.cells ≡ 0 = omega arith in
      ap (λ n. set_size junk width n a) e
      ∙ set_size-resized 0 a v (omega arith)
      ∙ ap (λ n. some (record a { size = 0; cells = replicate n junk })) none_more

  -- `prf_array_fit` on a well-formed empty array leaves no slot, and doubling a capacity of zero adds
  -- none: the next append writes outside the block.
  pub append-fit_empty :
      (x : A) (a : Array A)
      → IsValid width a
      → a.numelem ≡ 0
      → (fit junk width a >>= append junk width x) ≡ none
  append-fit_empty x a v e = rw (fit-empty a v e) (append-no_slot x _ refl refl)
