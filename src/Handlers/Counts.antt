-- ===== src/Handlers/Counts.antt =====
-- Counting the records that raise a counter of the state and those that lower it.
use profit.Prelude.{
  ℕ, ◌+◌, ◌%◌, ◌^◌, ◌≡◌, refl, ap, ◌∙◌, Bool, true, false, Bool-cases, inl, inr, List, [], ◌∷◌,
  ◌==◌, arith, if◌then◌else◌,
}
use profit.Traverse.{Node, opcode}
use profit.Traverse.Collect.{fold}
use profit.Traverse.Handled.{visit_step}
use profit.Handlers.{Context, up_16, down_16}
use profit.Handlers.Follow.{Action, dispatch, enters, enter, leaves, leave}

-- How many nodes have an opcode
unfoldable pub count_op : ℕ → List Node → ℕ
count_op op [] = 0
count_op op (n ∷ ns) = (if opcode n == op then 1 else 0) + count_op op ns

-- a callback that changes nothing of the state but what the client keeps of its own
abbrev pub for_user : {U : Type 0} → (Context U → Node → U) → Context U → Node → Context U
for_user g c n = record c { user = g c n }

module _ {U B : Type 0} (get : Context U → B) where
  -- All actions of a table but those for some opcodes leave what `get` sees.
  abbrev pub AllLeave : (ℕ → Bool) → List (ℕ × Action U) → Type 0
  AllLeave but [] = Unit {0}
  AllLeave but ((o, f) ∷ l) =
      (but o ≡ false → (n : Node) (c : Context U) → get (f n c) ≡ get c) × AllLeave but l

  pub dispatch-leaves :
      (but : ℕ → Bool) (l : List (ℕ × Action U)) (op : ℕ) (n : Node) (c : Context U)
      → AllLeave but l
      → but op ≡ false
      → get (dispatch l op n c) ≡ get c
  unfolding dispatch
  dispatch-leaves but [] op n c all off = refl
  dispatch-leaves but ((o, f) ∷ l) op n c (here, all) off = elim (Bool-cases (o == op)) [
    | inl e ↦
        let same : o ≡ op = ground arith in
        ap (λ b. get (elim b as (λ _. Context U) [ true ↦ f n c | false ↦ dispatch l op n c ])) e
        ∙ here (ap but same ∙ off) n c
    | inr e ↦
        ap (λ b. get (elim b as (λ _. Context U) [ true ↦ f n c | false ↦ dispatch l op n c ])) e
        ∙ dispatch-leaves but l op n c all off
  ]

  -- a value that is kept, or replaced by one that `get` does not see
  pub kept : (b : Bool) (c x : Context U) → get x ≡ get c → get (if b then c else x) ≡ get c
  kept true c x e = refl
  kept false c x e = e

module _ {U : Type 0} (same : Node → Node → Bool) (stale : Node → ℕ → ℕ) (get : Context U → ℕ)
    (push pop : ℕ) where
  -- Records of type `push` raise the counter when they are entered, those of type `pop` lower it when
  -- they are left, and no others change it.
  pub record Counts : Type 0 where
    pub apart : (push == pop) ≡ false
    pub raises :
        (n : Node) (c : Context U) → get (dispatch (enters same stale) push n c) ≡ up_16 (get c)
    pub lowers : (n : Node) (c : Context U) → get (dispatch leaves pop n c) ≡ down_16 (get c)
    pub enters_leave : AllLeave get (λ o. o == push) (enters same stale)
    pub leaves_leave : AllLeave get (λ o. o == pop) leaves
    pub user : (c : Context U) (u : U) → get (record c { user = u }) ≡ get c

  module _ (k : Counts) (g : Context U → Node → U) where
    entered : Node → Context U → ℕ
    entered n c = if opcode n == push then up_16 (get c) else get c

    get-enter : (n : Node) (c : Context U) → get (enter same stale n c) ≡ entered n c
    unfolding entered
    get-enter n c = elim (Bool-cases (opcode n == push)) [
      | inl e ↦
          let at : opcode n ≡ push = ground arith in
          rw e (ap (λ o. get (dispatch (enters same stale) o n c)) at ∙ k.raises n c)
      | inr e ↦
          rw e (
            dispatch-leaves get (λ o. o == push) (enters same stale) (opcode n) n c k.enters_leave
              e)
    ]

    get-leave :
        (n : Node) (c : Context U)
        → get (leave n c) ≡ (if opcode n == pop then down_16 (get c) else get c)
    get-leave n c = elim (Bool-cases (opcode n == pop)) [
      | inl e ↦
          let at : opcode n ≡ pop = ground arith in
          rw e (ap (λ o. get (dispatch leaves o n c)) at ∙ k.lowers n c)
      | inr e ↦ rw e (dispatch-leaves get (λ o. o == pop) leaves (opcode n) n c k.leaves_leave e)
    ]

    unfoldable pub step : Context U → Node → Context U
    step = visit_step (enter same stale) leave (for_user g)

    get-step :
        (n : Node) (c : Context U)
        → get (step c n) ≡ (if opcode n == pop then down_16 (entered n c) else entered n c)
    unfolding step
    get-step n c =
        let mid : get (for_user g (enter same stale n c) n) ≡ entered n c =
          k.user (enter same stale n c) _ ∙ get-enter n c in
        get-leave n (for_user g (enter same stale n c) n)
        ∙ ap (λ v. if opcode n == pop then down_16 v else v) mid

    -- Over a list of nodes, the counter rises with the one type and falls with the other.
    pub fold-count :
        (l : List Node) (c : Context U)
        → (get (fold step c l) + count_op pop l) % 2 ^ 16 ≡ (get c + count_op push l) % 2 ^ 16
    unfolding fold count_op entered
    fold-count [] c = refl
    fold-count (n ∷ l) c =
        let apart = k.apart in
        let ih = fold-count l (step c n) in
        let e = get-step n c in
        elim (Bool-cases (opcode n == push)) [
          | inl p ↦
              let q : (opcode n == pop) ≡ false = ground arith in
              let v : get (step c n) ≡ up_16 (get c) = rw (p, q) at e in
              rw (p, q) (omega (arith, ih, v))
          | inr p ↦ elim (Bool-cases (opcode n == pop)) [
            | inl q ↦
                let v : get (step c n) ≡ down_16 (get c) = rw (p, q) at e in
                rw (p, q) (omega (arith, ih, v))
            | inr q ↦
                let v : get (step c n) ≡ get c = rw (p, q) at e in rw (p, q) (omega (arith, ih, v))
          ]
        ]
