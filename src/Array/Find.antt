-- ===== src/Array/Find.antt =====
-- `prf_array_find_int` and `prf_array_find_ptr`.
use profit.Prelude.{
  ℕ, zero, suc, ◌+◌, ◌≤◌, ◌<◌, ◌≡◌, ◌≢◌, refl, ap, List, arith, length, Option, none, some, inl,
  inr, Bool-cases, get_elem?, ◌==◌,
}
use profit.Prelude.Windows.{get_elem?-some}
use profit.Array.{Array, find, find_from, load}
use profit.Array.Elems.{IsValid}

-- What a search for x among `xs` from index i on, before n, returns.
pub data Found (x : ℕ) (xs : List ℕ) (i n : ℕ) : Option ℕ → Type 0 where
  at_index :
      (j : ℕ)
      → i ≤ j
      → j < n
      → get_elem? xs j ≡ some x
      → ((k : ℕ) → i ≤ k → k < j → get_elem? xs k ≢ some x)
      → Found x xs i n (some j)
  nowhere : ((k : ℕ) → i ≤ k → k < n → get_elem? xs k ≢ some x) → Found x xs i n none

module _ (x : ℕ) (a : Array ℕ) (n : ℕ) (room : n ≤ length a.cells) where
  -- A search that goes past index i, which does not hold x.
  Found-skip :
      (i : ℕ) (y : ℕ) (r : Option ℕ)
      → get_elem? a.cells i ≡ some y
      → y ≢ x
      → Found x a.cells (i + 1) n r
      → Found x a.cells i n r
  Found-skip i y _ e ne (at_index j p q h before) = at_index j (omega arith) q h λ k pk qk eq.
      elim (Bool-cases (k == i)) [
        | inl same ↦ ground (arith, ap (get_elem? a.cells) {x = k} {y = i} (ground arith))
        | inr other ↦ before k (ground arith) qk eq
      ]
  Found-skip i y _ e ne (nowhere before) = nowhere λ k pk qk eq. elim (Bool-cases (k == i)) [
    | inl same ↦ ground (arith, ap (get_elem? a.cells) {x = k} {y = i} (ground arith))
    | inr other ↦ before k (ground arith) qk eq
  ]

  find_from-Found :
      (k i : ℕ) → i + k ≡ n → (r : Option ℕ) × (find_from x k i a ≡ some r) × Found x a.cells i n r
  unfolding find_from load
  find_from-Found zero i e = (none, refl, nowhere λ k p q. absurd (omega arith))
  find_from-Found (suc k) i e =
      let (y, h) = get_elem?-some a.cells i (omega arith) in
      let (r, found, is) = find_from-Found k (i + 1) (omega arith) in
      elim (Bool-cases (y == x)) [
        | inl hit ↦ (
          some i,
          rw (h, hit) refl,
          at_index i (omega arith) (omega arith) (ground arith) (λ j p q. absurd (omega arith)),
        )
        | inr miss ↦ (r, rw (h, miss) found, Found-skip i y r h (ground arith) is)
      ]

-- On a well-formed array the search neither faults nor runs past the elements. It returns the first
-- index that holds x, or -1 (the inner `none`) exactly when no element is x.
pub find-Found :
    (width x : ℕ) (a : Array ℕ)
    → IsValid width a
    → (r : Option ℕ) × (find x a ≡ some r) × Found x a.cells 0 a.numelem r
unfolding find
find-Found width x a v =
    find_from-Found x a a.numelem (omega (arith, v.slots, v.counted)) a.numelem 0 (omega arith)
