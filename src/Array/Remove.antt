-- ===== src/Array/Remove.antt =====
-- `prf_array_remove` and `prf_array_remove_fast`.
use mathlib.Core.Option.{some-injective}
use profit.Prelude.{
  ◌*◌, ◌/◌, ◌||◌, not, leb, ◌==◌, guard, Option, ◌>>=◌, ◌>>◌, if◌then◌else◌, ℕ, zero, suc, ◌+◌, ◌-◌,
  ◌%◌, ◌≤◌, ◌<◌, ◌≡◌, refl, sym, ap, ◌∙◌, List, [], ◌∷◌, ◌++◌, arith, length, take, drop, set,
  length-append, length-take, none, some, length-set, ltb, inl, inr, ◌⊎◌, Bool-cases, true, false,
  get_elem?, append-nil, append_assoc, length-drop, Bool,
}
use profit.Prelude.Windows.{
  take-nil, take-append_left, drop-length, get_elem?-agree, splice, length-splice, take-take_of_le,
  get_elem?-some,
}
use profit.Array.{Array, remove, remove_fast, unit, numelem_bits}
use profit.Array.Elems.{elems, IsValid, cells-IsValid}

times_one : (n : ℕ) → n * 1 ≡ n
times_one n = omega arith

module _ {A : Type 0} where
  drop-take : (m k : ℕ) (xs : List A) → drop m (take (m + k) xs) ≡ take k (drop m xs)
  drop-take zero k xs = ap (λ n. take n xs) (omega arith)
  drop-take (suc m) k [] = ap (drop (suc m)) (take-nil (suc m + k)) ∙ sym (take-nil k)
  drop-take (suc m) k (x ∷ xs) =
      ap (λ n. drop (suc m) (take n (x ∷ xs))) {x = suc m + k} {y = suc (m + k)} (omega arith)
      ∙ drop-take m k xs

  -- The first n - 1 slots, after the rest of the first n moved one place down.
  take-splice_down :
      (i k n m : ℕ) (xs : List A)
      → n ≡ i + 1 + k
      → m ≡ i + k
      → n ≤ length xs
      → take m (splice i (take k (drop (i + 1) xs)) xs)
        ≡ take i (take n xs) ++ drop (i + 1) (take n xs)
  take-splice_down i k n m xs e e' p =
      let mid : List A = take k (drop (i + 1) xs) in
      ap (take m) (sym (append_assoc (take i xs) mid _))
      ∙ take-append_left m (take i xs ++ mid) _ (
          omega (
            arith,
            length-append (take i xs) mid,
            length-take i xs,
            length-take k (drop (i + 1) xs),
            length-drop (i + 1) xs,
          ))
      ∙ rw (take-take_of_le i n xs (omega arith), e, drop-take (i + 1) k xs) refl

  take_front :
      (n m : ℕ) (xs : List A)
      → n ≡ suc m
      → n ≤ length xs
      → take m xs ≡ take m (take n xs) ++ drop (m + 1) (take n xs)
  take_front n m xs e p =
      rw
        (
          drop-length (m + 1) (take n xs) (omega (arith, length-take n xs)),
          append-nil,
          take-take_of_le m n xs (omega arith),
        )
        refl

  set-take : (n i : ℕ) (x : A) (xs : List A) → set (take n xs) i x ≡ take n (set xs i x)
  set-take zero i x xs = refl
  set-take (suc n) i x [] = refl
  set-take (suc n) zero x (y ∷ xs) = refl
  set-take (suc n) (suc i) x (y ∷ xs) = ap (λ l. y ∷ l) (set-take n i x xs)

  shorter-IsValid :
      (width n : ℕ) (a : Array A)
      → IsValid width a
      → n ≤ a.numelem
      → IsValid width (record a { numelem = n })
  shorter-IsValid width n a v h = record {
    slots = v.slots;
    element = v.element;
    width_pos = v.width_pos;
    counted = omega arith;
    size_lt = v.size_lt;
    numelem_lt = omega arith;
  }

  -- `remove` on elements of the size of a `void *`
  remove_pointer : Bool → ℕ → Array A → Option (Array A)
  remove_pointer debug index a = do
    guard (not debug || ltb index a.numelem)
    a' ←
        (if ltb (index + 1) a.numelem
          then (do
            guard (leb a.numelem (length a.cells))
            some (record a {
              cells =
                  splice index (take (a.numelem - index - 1) (drop (index + 1) a.cells)) a.cells;
            }))
          else (do guard (not debug || index == a.numelem); some a))
    some (record a' { numelem = (a'.numelem + numelem_bits - 1) % numelem_bits })

  unit-pointer : (a : Array A) → IsValid 8 a → unit a ≡ 1
  unit-pointer a v = ap (λ w. 8 / w) v.element

  remove-pointer :
      (debug : Bool) (i : ℕ) (a : Array A)
      → IsValid 8 a
      → remove debug i a ≡ remove_pointer debug i a
  unfolding remove remove_pointer
  remove-pointer debug i a v =
      rw
        (
          unit-pointer a v,
          times_one i,
          times_one (i + 1),
          times_one a.numelem,
          times_one (a.numelem - i - 1),
        )
        refl

  remove_pointer-elems :
      (debug : Bool) (i : ℕ) (a : Array A)
      → IsValid 8 a
      → i < a.numelem
      → (debug ≡ false) ⊎ (i + 1 < a.numelem)
      → (b : Array A) × (remove_pointer debug i a ≡ some b)
        × IsValid 8 b
        × (elems b ≡ take i (elems a) ++ drop (i + 1) (elems a))
  unfolding remove_pointer
  remove_pointer-elems debug i a v h d =
      let n' : ℕ = (a.numelem + numelem_bits - 1) % numelem_bits in
      let k : ℕ = a.numelem - i - 1 in
      let mid : List A = take k (drop (i + 1) a.cells) in
      elim (Bool-cases (ltb (i + 1) a.numelem)) [
        | inl inner ↦
            let len : length mid ≡ k =
              ground (
                arith,
                length-take k (drop (i + 1) a.cells),
                length-drop (i + 1) a.cells,
                v.slots,
              ) in
            (
              record a { cells = splice i mid a.cells; numelem = n' },
              ground (arith, v.slots),
              shorter-IsValid 8 n' _
                  (cells-IsValid 8 a _ v (length-splice i mid a.cells (ground (arith, v.slots))))
                  (ground arith),
              take-splice_down i k a.numelem n' a.cells (ground arith) (ground arith)
                  (ground (arith, v.slots)),
            )
        | inr last ↦ (
          record a { numelem = n' },
          ground arith,
          shorter-IsValid 8 n' a v (ground arith),
          take_front a.numelem n' a.cells (ground arith) (ground (arith, v.slots))
              ∙ ap (λ m. take m (elems a) ++ drop (m + 1) (elems a)) {x = n'} {y = i}
                  (ground arith),
        )
      ]

  -- In a well-formed array of pointers, removing an element that is not the last one (or any one, where
  -- assertions are off) drops it, and keeps the others in order.
  pub remove-elems :
      (debug : Bool) (i : ℕ) (a : Array A)
      → IsValid 8 a
      → i < a.numelem
      → (debug ≡ false) ⊎ (i + 1 < a.numelem)
      → (b : Array A) × (remove debug i a ≡ some b)
        × IsValid 8 b
        × (elems b ≡ take i (elems a) ++ drop (i + 1) (elems a))
  remove-elems debug i a v h d =
      let (b, run, valid, kept) = remove_pointer-elems debug i a v h d in
      (b, remove-pointer debug i a v ∙ run, valid, kept)

  -- Where assertions are on, removing the last element always fails one: the code then asserts that
  -- the index is the count, right after asserting that it is below the count.
  pub remove-last_aborts : (i : ℕ) (a : Array A) → i + 1 ≡ a.numelem → remove true i a ≡ none
  unfolding remove
  remove-last_aborts i a h = ground arith

  splice-one : (i : ℕ) (x : A) (xs : List A) → i < length xs → splice i (x ∷ []) xs ≡ set xs i x
  splice-one i x [] h = absurd (omega arith)
  splice-one zero x (y ∷ xs) h = refl
  splice-one (suc i) x (y ∷ xs) h =
      ap (λ l. y ∷ l) (splice-next i x y xs ∙ splice-one i x xs (omega arith))
    where
      splice-next :
          (i : ℕ) (x y : A) (xs : List A)
          → take i xs ++ (x ∷ drop (suc i + 1) (y ∷ xs)) ≡ splice i (x ∷ []) xs
      splice-next i x y xs = let e : suc i + 1 ≡ suc (i + 1) = omega arith in rw e refl

  take_one : (i : ℕ) (x : A) (xs : List A) → get_elem? xs i ≡ some x → take 1 (drop i xs) ≡ x ∷ []
  take_one i x [] e = cc
  take_one zero x (y ∷ xs) e = ap (λ z. z ∷ []) (some-injective y x e)
  take_one (suc i) x (y ∷ xs) e = take_one i x xs e

  -- In a well-formed array of pointers, removing fast puts the last element in the place of the one
  -- removed.
  pub remove_fast-elems :
      (i : ℕ) (a : Array A)
      → IsValid 8 a
      → i < a.numelem
      → (last : A) × (b : Array A) × (get_elem? (elems a) (a.numelem - 1) ≡ some last)
        × (remove_fast i a ≡ some b)
        × IsValid 8 b
        × (elems b ≡ take (a.numelem - 1) (set (elems a) i last))
  unfolding remove_fast
  remove_fast-elems i a v h =
      let n' : ℕ = a.numelem - 1 in
      let (last, e) = get_elem?-some a.cells n' (omega (arith, v.slots, v.counted)) in
      let n : (a.numelem + numelem_bits - 1) % numelem_bits ≡ n' = omega (arith, v.numelem_lt) in
      let room_last : leb (n' + 1) (length a.cells) ≡ true = ground (arith, v.slots, v.counted) in
      let room : leb (i + 1) (length a.cells) ≡ true = ground (arith, v.slots, v.counted) in
      (
        last,
        record a { cells = set a.cells i last; numelem = n' },
        get_elem?-agree a.numelem n' (elems a) a.cells
              (take-take_of_le a.numelem a.numelem a.cells (omega arith)) (omega arith)
            ∙ e,
        rw
            (
              n,
              unit-pointer a v,
              times_one i,
              times_one (i + 1),
              times_one n',
              times_one (n' + 1),
              room_last,
              room,
              take_one n' last a.cells e,
              splice-one i last a.cells (omega (arith, v.slots, v.counted)),
            )
            refl,
        shorter-IsValid 8 n' _ (cells-IsValid 8 a _ v (length-set a.cells i last)) (omega arith),
        sym (take-take_of_le n' a.numelem (set a.cells i last) (omega arith))
            ∙ ap (take n') (sym (set-take a.numelem i last a.cells)),
      )
