-- ===== src/Traverse/Registry.antt =====
-- The registration of a record type in the table of src/nodeinfo.c.
use profit.Prelude.{
  ℕ, zero, suc, ◌+◌, ◌-◌, ◌<◌, ◌≡◌, ◌≢◌, refl, sym, ap, ◌∙◌, Option, none, some, List, [], ◌∷◌,
  ◌++◌, arith, ltb, length, set, guard, ◌>>◌, length-append, get_elem?-set_self, get_elem?-set_ne,
}
use profit.Traverse.{NodeInfo, nodeinfo_get}

module _ {W : Type 0} where
  -- The loop that appends NULL to the table, with the rounds that are left
  unfoldable pub pad : ℕ → List (Option (NodeInfo W)) → List (Option (NodeInfo W))
  pad zero ts = ts
  pad (suc k) ts = pad k (ts ++ none ∷ [])

  -- `prf_nodeinfo_set` for an opcode: the copy of what is registered is a value.
  unfoldable pub nodeinfo_set :
      ℕ → NodeInfo W → List (Option (NodeInfo W)) → Option (List (Option (NodeInfo W)))
  nodeinfo_set op info ts = do
    guard (ltb 0 op)
    let ts' = pad (op + 1 - length ts) ts
    guard (ltb op (length ts'))
    some (set ts' op (some info))

  entry : Option (Option (NodeInfo W)) → Option (NodeInfo W)
  entry r = elim r [ some info ↦ info | none ↦ none ]

  longer-get :
      (ts : List (Option (NodeInfo W))) (i : ℕ)
      → nodeinfo_get (ts ++ none ∷ []) i ≡ nodeinfo_get ts i
  unfolding nodeinfo_get
  longer-get [] zero = refl
  longer-get [] (suc i) = refl
  longer-get (t ∷ ts) zero = refl
  longer-get (t ∷ ts) (suc i) = longer-get ts i

  pad-get :
      (k : ℕ) (ts : List (Option (NodeInfo W))) (i : ℕ)
      → nodeinfo_get (pad k ts) i ≡ nodeinfo_get ts i
  unfolding pad
  pad-get zero ts i = refl
  pad-get (suc k) ts i = pad-get k (ts ++ none ∷ []) i ∙ longer-get ts i

  length-pad : (k : ℕ) (ts : List (Option (NodeInfo W))) → length (pad k ts) ≡ length ts + k
  unfolding pad
  length-pad zero ts = omega arith
  length-pad (suc k) ts =
      omega (arith, length-pad k (ts ++ none ∷ []), length-append ts (none ∷ []))

  -- Registering a record type under a positive opcode succeeds; a look-up of the opcode gives it then,
  -- and a look-up of any other opcode gives what it gave before.
  pub nodeinfo_set-get :
      (op : ℕ) (info : NodeInfo W) (ts : List (Option (NodeInfo W)))
      → 0 < op
      → (ts' : List (Option (NodeInfo W))) × (nodeinfo_set op info ts ≡ some ts')
        × (nodeinfo_get ts' op ≡ some info)
        × ((i : ℕ) → i ≢ op → nodeinfo_get ts' i ≡ nodeinfo_get ts i)
  unfolding nodeinfo_set nodeinfo_get entry
  nodeinfo_set-get op info ts pos =
      let padded : List (Option (NodeInfo W)) = pad (op + 1 - length ts) ts in
      let fits : op < length padded = omega (arith, length-pad (op + 1 - length ts) ts) in
      (
        set padded op (some info),
        ground arith,
        ap entry (get_elem?-set_self padded op (some info) fits),
        λ i ne.
            ap entry (get_elem?-set_ne padded (some info) (λ q. ne (sym q)))
            ∙ pad-get (op + 1 - length ts) ts i,
      )
