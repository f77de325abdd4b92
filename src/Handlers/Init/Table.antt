-- ===== src/Handlers/Init/Table.antt =====
-- What a look-up gives after a list of registrations: the last entry for the opcode.
use profit.Prelude.{
  ℕ, ◌<◌, ◌≡◌, ◌≢◌, refl, ap, ◌∙◌, Bool-cases, inl, inr, Option, some, List, [], ◌∷◌, ◌==◌, arith,
  if◌then◌else◌,
}
use profit.Traverse.{NodeInfo, nodeinfo_get}
use profit.Traverse.Registry.{nodeinfo_set-get}
use profit.Handlers.Init.{set_all}

module _ {W : Type 0} where
  -- the last entry of a list for an opcode, or else what was there before
  unfoldable pub last : List (ℕ × NodeInfo W) → ℕ → Option (NodeInfo W) → Option (NodeInfo W)
  last [] op d = d
  last ((o, info) ∷ l) op d = last l op (if o == op then some info else d)

  abbrev pub ArePositive : List (ℕ × NodeInfo W) → Type 0
  ArePositive [] = Unit {0}
  ArePositive ((o, info) ∷ l) = (0 < o) × ArePositive l

  set-last :
      (o : ℕ) (info : NodeInfo W) (ts ts' : List (Option (NodeInfo W))) (op : ℕ)
      → nodeinfo_get ts' o ≡ some info
      → ((i : ℕ) → i ≢ o → nodeinfo_get ts' i ≡ nodeinfo_get ts i)
      → nodeinfo_get ts' op ≡ (if o == op then some info else nodeinfo_get ts op)
  set-last o info ts ts' op self others = elim (Bool-cases (o == op)) [
    | inl e ↦ let same : op ≡ o = ground arith in rw e (ap (nodeinfo_get ts') same ∙ self)
    | inr e ↦ rw e (others op (λ same. ground (arith, same)))
  ]

  -- Entries with positive opcodes can be set one behind the other, and a look-up gives the last of them
  -- for its opcode, or what the table had.
  pub set_all-get :
      (l : List (ℕ × NodeInfo W)) (ts : List (Option (NodeInfo W)))
      → ArePositive l
      → (ts' : List (Option (NodeInfo W))) × (set_all l ts ≡ some ts')
        × ((op : ℕ) → nodeinfo_get ts' op ≡ last l op (nodeinfo_get ts op))
  unfolding set_all last
  set_all-get [] ts pos = (ts, refl, λ op. refl)
  set_all-get ((o, info) ∷ l) ts (p, pos) =
      let (ts₁, run, self, others) = nodeinfo_set-get o info ts p in
      let (ts', runs, get) = set_all-get l ts₁ pos in
      (ts', rw run runs, λ op. get op ∙ ap (last l op) (set-last o info ts ts₁ op self others))
