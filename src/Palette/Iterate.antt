-- ===== src/Palette/Iterate.antt =====
-- A client's walk over the vertices of a palette's node, with the first index and the next one.
use profit.Prelude.{
  ℕ, zero, suc, ◌+◌, ◌%◌, ◌^◌, ◌≤◌, ◌<◌, ◌≡◌, refl, sym, ap, true, false, Bool-cases, inl, inr,
  Option, none, some, List, [], ◌∷◌, arith, length, drop, leb, le→leb, leb→le, lt→ltb, ◌==◌, ◌>>=◌,
  if◌then◌else◌,
}
use profit.Palette.{Host, Palette, read, get_first_index, get_next_index}
use profit.Palette.RoundTrip.{palette_of}

-- `for ( i = first; i != 0; i = next( i ) )`, with the rounds that are left: the indices, if the walk ends.
unfoldable pub indices : Host → Palette → ℕ → ℕ → Option (List ℕ)
indices h m zero idx = none
indices h m (suc fuel) idx = elim (idx == 0) [
  | true ↦ some []
  | false ↦ do next ← get_next_index h m idx; rest ← indices h m fuel next; some (idx ∷ rest)
]

-- Records of some sizes stand one behind the other, from an index to the end.
pub data Rows (h : Host) (node : List ℕ) (len : ℕ) : ℕ → List ℕ → Type 0 where
  stop : {i : ℕ} → i ≡ len → Rows h node len i []
  row :
      {i n : ℕ} {is : List ℕ}
      → read h 2 2 (drop i node) ≡ some n
      → 0 < n
      → n % 4 ≡ 0
      → i + n ≤ len
      → Rows h node len (i + n) is
      → Rows h node len i (i ∷ is)

module _ (h : Host) (node : List ℕ) (len : ℕ) (says : read h 0 4 node ≡ some len)
    (low : len < 2 ^ 32) where
  next-run :
      (i n : ℕ)
      → 8 ≤ i
      → i % 4 ≡ 0
      → read h 2 2 (drop i node) ≡ some n
      → i < len
      → i + n ≤ len
      → get_next_index h (palette_of node none) i ≡ some (if leb len (i + n) then 0 else i + n)
  unfolding get_next_index
  next-run i n above aligned at inside fits =
      let a : (i % 4 == 0) ≡ true = ground arith in
      let w : (i + n) % 2 ^ 32 ≡ i + n = omega arith in
      rw (le→leb 8 i above, a, says, lt→ltb i len inside, at, w) refl

  -- behind the last record
  end-of-Rows : (i : ℕ) (is : List ℕ) → len ≤ i → Rows h node len i is → is ≡ []
  end-of-Rows i [] le r = refl
  end-of-Rows i (j ∷ is) le (row at pos aligned fits rest) = absurd (omega arith)

  indices-end :
      (fuel : ℕ) (is : List ℕ)
      → 0 < fuel
      → is ≡ []
      → indices h (palette_of node none) fuel 0 ≡ some is
  unfolding indices
  indices-end zero is more e = absurd (omega arith)
  indices-end (suc fuel) is more e = ap some (sym e)

  indices-next :
      (fuel i next : ℕ) (is : List ℕ)
      → 0 < i
      → get_next_index h (palette_of node none) i ≡ some next
      → indices h (palette_of node none) fuel next ≡ some is
      → indices h (palette_of node none) (suc fuel) i ≡ some (i ∷ is)
  unfolding indices
  indices-next fuel i next is pos step rest =
      let a : (i == 0) ≡ false = ground arith in rw (a, step, rest, indices) refl

  indices-Rows :
      (is : List ℕ) (fuel i : ℕ)
      → Rows h node len i is
      → 8 ≤ i
      → i % 4 ≡ 0
      → i < len
      → length is < fuel
      → indices h (palette_of node none) fuel i ≡ some is
  indices-Rows is zero i r above aligned inside enough = absurd (omega arith)
  indices-Rows [] (suc fuel) i (stop e) above aligned inside enough = absurd (omega arith)
  indices-Rows (j ∷ is) (suc fuel) i (row {n = n} at pos by_4 fits rest) above aligned inside
        enough =
      let next = next-run i n above aligned at inside fits in
      elim (Bool-cases (leb len (i + n))) [
        | inl e ↦
            indices-next fuel i 0 is (omega arith) (rw e at next) (
              indices-end fuel is (omega arith)
                (end-of-Rows (i + n) is (leb→le len (i + n) e) rest))
        | inr e ↦ indices-next fuel i (i + n) is (omega arith) (rw e at next) (
            indices-Rows is fuel (i + n) rest (omega arith) (omega arith) (ground arith)
              (omega arith))
      ]

  -- On the palette of a node that says that it holds len bytes, with one record or more behind its first
  -- eight bytes, each of a positive size that four divides, the walk from the first index ends. It comes
  -- to each record once, and needs a round for each of them and one to end.
  pub indices-all :
      (is : List ℕ) (fuel : ℕ)
      → 8 < len
      → Rows h node len 8 is
      → length is < fuel
      → indices h (palette_of node none) fuel (get_first_index (palette_of node none)) ≡ some is
  unfolding get_first_index
  indices-all is fuel some_left rows enough =
      indices-Rows is fuel 8 rows (omega arith) (omega arith) some_left enough
