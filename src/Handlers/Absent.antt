-- ===== src/Handlers/Absent.antt =====
-- The last entry that a list of registrations has for an opcode, and opcodes without one.
use profit.Prelude.{
  ℕ, ◌<◌, ◌≡◌, refl, ap, subst, ◌∙◌, Bool, true, false, Bool-cases, ◌||◌, inl, inr, ◌⊎◌, Option,
  none, some, List, [], ◌∷◌, ◌++◌, map, ◌==◌, arith, if◌then◌else◌, ltb, ◌&&◌,
}
use profit.Traverse.{Node, NodeInfo}
use profit.Traverse.Handled.{entry_of, exit_of, traverse_of}
use profit.Handlers.{Context}
use profit.Handlers.Init.{plain}
use profit.Handlers.Init.Table.{last, ArePositive}
use profit.Handlers.Follow.{Action, dispatch}

module _ {W : Type 0} where
  pub last-append :
      (l l' : List (ℕ × NodeInfo W)) (op : ℕ) (d : Option (NodeInfo W))
      → last (l ++ l') op d ≡ last l' op (last l op d)
  unfolding last
  last-append [] l' op d = refl
  last-append ((o, i) ∷ l) l' op d = last-append l l' op (if o == op then some i else d)

  -- No entry of the list is for the opcode.
  abbrev pub IsAbsent : ℕ → List (ℕ × NodeInfo W) → Type 0
  IsAbsent op [] = Unit {0}
  IsAbsent op ((o, i) ∷ l) = ((o == op) ≡ false) × IsAbsent op l

  abbrev pub AllGood : (ℕ → NodeInfo W → Type 0) → List (ℕ × NodeInfo W) → Type 0
  AllGood P [] = Unit {0}
  AllGood P ((o, i) ∷ l) = P o i × AllGood P l

  pub last-cases :
      (P : ℕ → NodeInfo W → Type 0) (l : List (ℕ × NodeInfo W)) (op : ℕ) (d : Option (NodeInfo W))
      → AllGood P l
      → ((info : NodeInfo W) × (last l op d ≡ some info) × P op info)
        ⊎ ((last l op d ≡ d) × IsAbsent op l)
  unfolding last
  last-cases P [] op d all = inr (refl, tt)
  last-cases P ((o, i) ∷ l) op d (p, all) =
      elim (last-cases P l op (if o == op then some i else d) all) [
        | inl found ↦ inl found
        | inr (e, absent) ↦ elim (Bool-cases (o == op)) [
          | inl at ↦
              let same : o ≡ op = ground arith in
              inl (i, e ∙ ap (λ b. if b then some i else d) at, subst (λ k. P k i) same p)
          | inr off ↦ inr (e ∙ ap (λ b. if b then some i else d) off, (off, absent))
        ]
      ]

  -- Default entries have no handlers.
  unfoldable pub HasNone : Option (NodeInfo W) → Type 0
  HasNone i = (entry_of i ≡ none) × (exit_of i ≡ none) × (traverse_of i ≡ none)

  pub last-HasNone :
      (l : List (ℕ × ℕ)) (op : ℕ) (d : Option (NodeInfo W))
      → HasNone d
      → HasNone (last (map plain l) op d)
  unfolding last HasNone
  last-HasNone [] op d h = h
  last-HasNone ((o, flags) ∷ l) op d h =
      last-HasNone l op (if o == op then some (plain {W = W} (o, flags)).1 else d)
        (elim (o == op) as (λ b. HasNone (if b then some (plain {W = W} (o, flags)).1 else d)) [
          | true ↦ (refl, refl, refl)
          | false ↦ h
        ])

  unfoldable pub all_positive : List (ℕ × NodeInfo W) → Bool
  all_positive [] = true
  all_positive ((o, i) ∷ l) = let rest = all_positive l in ltb 0 o && rest

  pub check-ArePositive : (l : List (ℕ × NodeInfo W)) → all_positive l ≡ true → ArePositive l
  unfolding all_positive
  check-ArePositive [] e = tt
  check-ArePositive ((o, i) ∷ l) e =
      let both : (0 < o) × (all_positive l ≡ true) = ground arith in
      (both.0, check-ArePositive l both.1)

module _ {U : Type 0} where
  unfoldable pub is_listed : ℕ → List (ℕ × NodeInfo (Context U)) → Bool
  is_listed op [] = false
  is_listed op ((o, i) ∷ l) = let rest = is_listed op l in op == o || rest

  absent-listed :
      (o op : ℕ) (l : List (ℕ × NodeInfo (Context U)))
      → IsAbsent op l
      → is_listed o l ≡ true
      → (o == op) ≡ false
  unfolding is_listed
  absent-listed o op [] a e = cc
  absent-listed o op ((p, i) ∷ l) (a, absent) e = elim (Bool-cases (o == p)) [
    | inl at ↦ ground arith
    | inr off ↦ absent-listed o op l absent (ground arith)
  ]

  -- The registry has entries for all opcodes of a table.
  unfoldable pub are_listed : List (ℕ × Action U) → List (ℕ × NodeInfo (Context U)) → Bool
  are_listed [] l = true
  are_listed ((o, f) ∷ rows) l = let rest = are_listed rows l in is_listed o l && rest

  -- An opcode without an entry has no row of such a table.
  pub dispatch-absent :
      (rows : List (ℕ × Action U)) (l : List (ℕ × NodeInfo (Context U))) (op : ℕ) (n : Node)
      (c : Context U)
      → are_listed rows l ≡ true
      → IsAbsent op l
      → dispatch rows op n c ≡ c
  unfolding dispatch are_listed
  dispatch-absent [] l op n c e a = refl
  dispatch-absent ((o, f) ∷ rows) l op n c e a =
      let both : (is_listed o l ≡ true) × (are_listed rows l ≡ true) = ground arith in
      ap (λ b. elim b [ true ↦ f n c | false ↦ dispatch rows op n c ])
        (absent-listed o op l a both.0)
      ∙ dispatch-absent rows l op n c both.1 a
