-- ===== src/State/Copy.antt =====
-- prf_state_clone and prf_state_copy of src/state.c, and the matrices of the levels that are in use.
use profit.Prelude.{
  Bool, false, ℕ, zero, suc, ◌+◌, ◌≤◌, ◌<◌, ◌≡◌, refl, sym, ap, ◌∙◌, Option, some, List, [], ◌∷◌,
  ◌++◌, arith, inl, inr, Bool-cases, length, take, get_elem?, set, leb, ltb, lt→ltb, if◌then◌else◌,
  ◌>>=◌, ◌>>◌, guard, length-append, length-set,
}
use profit.Prelude.Windows.{get_elem?-some, take-set_end, take-append_short}
use profit.State.{State, Matrix, identity, create, reset}

-- The loop over the levels from i on, with the rounds that are left: a matrix that is missing is
-- appended, and then copied.
unfoldable pub copy_matrices : Matrix → ℕ → ℕ → List Matrix → List Matrix → Option (List Matrix)
copy_matrices junk zero i original copy = some copy
copy_matrices junk (suc k) i original copy = do
  let grown = if leb (length copy) i then copy ++ junk ∷ [] else copy
  m ← get_elem? original i
  guard (ltb i (length grown))
  copy_matrices junk k (i + 1) original (set grown i m)

-- The rest of a state: what a copy takes from the original, the callback and the traversal method, which it
-- does not take, and the inverse matrix, which it takes where that is up to date.
pub record Rest (W V : Type 0) : Type 0 where
  pub copied : W
  pub traversal : V
  pub inv_matrix : Matrix

unfoldable pub copy_rest : {W V : Type 0} → Bool → Rest W V → Rest W V → Rest W V
copy_rest dirty copy original = record copy {
  copied = original.copied;
  inv_matrix = if dirty then copy.inv_matrix else original.inv_matrix;
}

module _ {N W V : Type 0} where
  -- `prf_state_copy`, member by member, with the levels of the matrix stack that are in use.
  unfoldable pub state_copy :
      Matrix → State N (Rest W V) → State N (Rest W V) → Option (State N (Rest W V))
  state_copy junk copy original = do
    matrices ← copy_matrices junk (original.state_push_level + 1) 0 original.matrix copy.matrix
    some (record copy {
      node = original.node;
      inv_dirty = original.inv_dirty;
      client = copy_rest original.inv_dirty copy.client original.client;
      matrix = matrices;
      state_push_level = original.state_push_level;
      physical_level = original.physical_level;
    })

  -- `prf_state_clone`: the same on a new state, whose rest is `fresh`; its callback and its traversal
  -- method are what `malloc` left there.
  unfoldable pub state_clone : Matrix → Rest W V → State N (Rest W V) → Option (State N (Rest W V))
  state_clone junk fresh original = do
    clone ← create {N = N} junk fresh
    matrices ← copy_matrices junk (original.state_push_level + 1) 0 original.matrix clone.matrix
    some (record clone {
      node = original.node;
      inv_dirty = original.inv_dirty;
      client = copy_rest original.inv_dirty clone.client original.client;
      matrix = matrices;
      state_push_level = original.state_push_level;
      physical_level = original.physical_level;
    })

take-get_elem? :
    {A : Type 0} (l : List A) (i : ℕ) (a : A)
    → get_elem? l i ≡ some a
    → take (suc i) l ≡ take i l ++ a ∷ []
take-get_elem? [] i a e = cc
take-get_elem? (x ∷ l) zero a e = cc
take-get_elem? (x ∷ l) (suc i) a e = ap (λ t. x ∷ t) (take-get_elem? l i a e)

grown-take :
    (junk : Matrix) (i : ℕ) (copy : List Matrix)
    → i ≤ length copy
    → let grown = if leb (length copy) i then copy ++ junk ∷ [] else copy in
      (i < length grown) × (take i grown ≡ take i copy)
grown-take junk i copy h = elim (Bool-cases (leb (length copy) i)) [
  | inl e ↦
      rw e (omega (arith, length-append copy (junk ∷ [])), take-append_short i copy (junk ∷ []) h)
  | inr e ↦ rw e (ground arith, refl)
]

-- What the loop gives, when the levels below i are copied.
copy_matrices-take :
    (junk : Matrix) (k i : ℕ) (original copy : List Matrix)
    → i ≤ length copy
    → i + k ≤ length original
    → take i copy ≡ take i original
    → (ms : List Matrix) × (copy_matrices junk k i original copy ≡ some ms)
      × (i + k ≤ length ms)
      × (take (i + k) ms ≡ take (i + k) original)
unfolding copy_matrices
copy_matrices-take junk zero i original copy h room same = (
  copy,
  refl,
  omega arith,
  ap (λ j. take j copy) {x = i + 0} {y = i} (omega arith)
      ∙ same
      ∙ ap (λ j. take j original) {x = i} {y = i + 0} (omega arith),
)
copy_matrices-take junk (suc k) i original copy h room same =
    let grown : List Matrix = if leb (length copy) i then copy ++ junk ∷ [] else copy in
    let (fits, kept) = grown-take junk i copy h in
    let (m, at) = get_elem?-some original i (omega arith) in
    let next : take (suc i) (set grown i m) ≡ take (suc i) original =
      take-set_end i m grown fits
      ∙ ap (λ l. l ++ m ∷ []) (kept ∙ same)
      ∙ sym (take-get_elem? original i m at) in
    let one : i + 1 ≡ suc i = omega arith in
    let (ms, run, long, agree) =
      copy_matrices-take junk k (suc i) original (set grown i m)
        (omega (arith, length-set grown i m)) (omega arith) next in
    let end : i + suc k ≡ suc i + k = omega arith in
    (
      ms,
      rw (at, lt→ltb i (length grown) fits, one) run,
      omega arith,
      ap (λ j. take j ms) end ∙ agree ∙ ap (λ j. take j original) (sym end),
    )

module _ {N W V : Type 0} where
  -- A copy `s'` of s onto a state whose rest was `before`
  pub record Copied (before : Rest W V) (s s' : State N (Rest W V)) : Type 0 where
    pub node : s'.node ≡ s.node
    pub levels : (s'.state_push_level ≡ s.state_push_level) × (s'.physical_level ≡ s.physical_level)
    pub dirty : s'.inv_dirty ≡ s.inv_dirty
    pub copied : s'.client.copied ≡ s.client.copied
    pub traversal : s'.client.traversal ≡ before.traversal
    pub inverse : s.inv_dirty ≡ false → s'.client.inv_matrix ≡ s.client.inv_matrix
    pub on_stack : s'.state_push_level < length s'.matrix
    pub same : take (suc s.state_push_level) s'.matrix ≡ take (suc s.state_push_level) s.matrix

  with_matrices : List Matrix → Rest W V → State N (Rest W V) → State N (Rest W V)
  with_matrices ms before s = record s {
    matrix = ms;
    client = copy_rest s.inv_dirty before s.client;
  }

  copied :
      (junk : Matrix) (before : Rest W V) (s : State N (Rest W V)) (copy : List Matrix)
      → s.state_push_level < length s.matrix
      → (ms : List Matrix) × (copy_matrices junk (s.state_push_level + 1) 0 s.matrix copy ≡ some ms)
        × Copied before s (with_matrices ms before s)
  unfolding with_matrices copy_rest
  copied junk before s copy on =
      let (ms, run, long, agree) =
        copy_matrices-take junk (s.state_push_level + 1) 0 s.matrix copy (omega arith) (omega arith)
          refl in
      let end : 0 + (s.state_push_level + 1) ≡ suc s.state_push_level = omega arith in
      (
        ms,
        run,
        record {
          node = refl;
          levels = (refl, refl);
          dirty = refl;
          copied = refl;
          traversal = refl;
          inverse = λ e. ap (λ d. if d then before.inv_matrix else s.client.inv_matrix) e;
          on_stack = omega arith;
          same = ap (λ j. take j ms) (sym end) ∙ agree ∙ ap (λ j. take j s.matrix) end;
        },
      )

  -- Copying a state whose level is on its matrix stack onto any other state, or cloning it, succeeds. The
  -- result has the node, the levels, the mark of the inverse matrix and the other members of the state but
  -- for the callback and the traversal method, which are those of the state before; where the inverse
  -- matrix is up to date, it is the same, and so are the matrices up to the level of the state.
  pub state_copy-Copied :
      (junk : Matrix) (fresh : Rest W V) (copy s : State N (Rest W V))
      → s.state_push_level < length s.matrix
      → ((s' : State N (Rest W V)) × (state_copy junk copy s ≡ some s') × Copied copy.client s s')
        × ((s' : State N (Rest W V)) × (state_clone junk fresh s ≡ some s') × Copied fresh s s')
  unfolding state_copy state_clone create reset with_matrices
  state_copy-Copied junk fresh copy s on =
      let (ms, run, c) = copied junk copy.client s copy.matrix on in
      let (ms', run', c') = copied junk fresh s (set (junk ∷ []) 0 identity) on in
      (
        (with_matrices ms copy.client s, rw run refl, c),
        (with_matrices ms' fresh s, rw run' refl, c'),
      )
