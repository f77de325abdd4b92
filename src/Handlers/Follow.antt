-- ===== src/Handlers/Follow.antt =====
-- The registry that prf_nodeinfo_init makes, and what the handlers in it do to the state, record type by
-- record type.
use profit.Prelude.{
  if◌then◌else◌, ℕ, ◌≡◌, refl, sym, ap, ◌∙◌, Bool, true, false, Bool-cases, inl, inr, none, some,
  List, [], ◌∷◌, ◌++◌, ◌==◌, arith, length-set, get_elem?, Option-cases,
}
use profit.State.{Matrix}
use profit.Traverse.{Node, NodeInfo, NodeState, opcode}
use profit.Traverse.Handled.{Handles, Follows}
use profit.Handlers.{
  Context, up_16, down_16, for_opcode, header_context, object_context, color_palette_context,
  material_palette_context, vertex_palette_context, matrix_context, instance_context, matrix_entry,
  matrix_mult_right, object_entry, object_exit, product,
}
use profit.Handlers.Init.{plain, entering, leaving}

-- What is done for a node, by its opcode
abbrev pub Action : Type 0 → Type 0
Action U = Node → Context U → Context U

unfoldable pub dispatch : {U : Type 0} → List (ℕ × Action U) → ℕ → Action U
dispatch [] op n c = c
dispatch ((o, f) ∷ l) op n c = elim (o == op) [ true ↦ f n c | false ↦ dispatch l op n c ]

module _ {U : Type 0} (same : Node → Node → Bool) (stale : Node → ℕ → ℕ) where
  -- what the entry handlers do to the context
  abbrev pub enters : List (ℕ × Action U)
  enters =
      (1, header_context same stale)
      ∷ (4, object_context same stale)
      ∷ (10, λ n c. record c { push_level = up_16 c.push_level })
      ∷ (19, λ n c. record c { subface_level = up_16 c.subface_level })
      ∷ (21, λ n c. record c { extension_level = up_16 c.extension_level })
      ∷ (32, color_palette_context same stale)
      ∷ (49, matrix_context)
      ∷ (62, instance_context same stale)
      ∷ (64, λ n c. record c { textures = c.textures ++ n ∷ [] })
      ∷ (66, material_palette_context same stale)
      ∷ (67, vertex_palette_context same stale)
      ∷ (113, λ n c. record c { materials = c.materials ++ n ∷ [] })
      ∷ (122, λ n c. record c { attribute_level = up_16 c.attribute_level })
      ∷ []

  abbrev pub enter : Action U
  enter n = dispatch enters (opcode n) n

-- what the exit handlers do
abbrev pub leaves : {U : Type 0} → List (ℕ × Action U)
leaves =
    (4, λ n c. record c { object_transparency = 0 })
    ∷ (11, λ n c. record c { push_level = down_16 c.push_level })
    ∷ (20, λ n c. record c { subface_level = down_16 c.subface_level })
    ∷ (22, λ n c. record c { extension_level = down_16 c.extension_level })
    ∷ (123, λ n c. record c { attribute_level = down_16 c.attribute_level })
    ∷ []

abbrev pub leave : {U : Type 0} → Action U
leave n = dispatch leaves (opcode n) n

module _ {U : Type 0} where
  pub nothing : (w : Context U) (s : NodeState (Context U)) → w ≡ s.client → Handles w s s
  nothing w s e = record {
    node = refl;
    stays = record { client = sym e; level = refl; depth = refl; stack = refl };
  }

  for_opcode-Handles :
      (op : ℕ) (f : Action U) (n : Node) (s : NodeState (Context U)) (w : Context U)
      → opcode n ≡ op
      → w ≡ f n s.client
      → Handles w s (for_opcode op f n s)
  for_opcode-Handles op f n s w e same =
      let test : (opcode n == op) ≡ true = ground arith in
      rw test (record {
        node = refl;
        stays = record { client = sym same; level = refl; depth = refl; stack = refl };
      })

module _ {U : Type 0} (same : Node → Node → Bool) (stale : Node → ℕ → ℕ) where
  -- An entry for an opcode does what the tables above say.
  abbrev pub Good : ℕ → NodeInfo (Context U) → Type 0
  Good op info = (n : Node) → opcode n ≡ op → Follows (enter same stale) leave n (some info)

  pub entering-Good :
      (op flags : ℕ) (f : Action U)
      → ((n : Node) (c : Context U) → dispatch (enters same stale) op n c ≡ f n c)
      → ((n : Node) (c : Context U) → dispatch leaves op n c ≡ c)
      → Good op (entering op flags (for_opcode op f)).1
  entering-Good op flags f go out n e = record {
    entering = λ s.
        for_opcode-Handles op f n s _ e
          (ap (λ o. dispatch (enters same stale) o n s.client) e ∙ go n s.client);
    leaving = λ s. nothing _ s (ap (λ o. dispatch leaves o n s.client) e ∙ out n s.client);
    plain = refl;
  }

  pub leaving-Good :
      (op flags : ℕ) (f : Action U)
      → ((n : Node) (c : Context U) → dispatch (enters same stale) op n c ≡ c)
      → ((n : Node) (c : Context U) → dispatch leaves op n c ≡ f n c)
      → Good op (leaving op flags (for_opcode op f)).1
  leaving-Good op flags f go out n e = record {
    entering =
        λ s. nothing _ s (ap (λ o. dispatch (enters same stale) o n s.client) e ∙ go n s.client);
    leaving = λ s.
        for_opcode-Handles op f n s _ e (ap (λ o. dispatch leaves o n s.client) e ∙ out n s.client);
    plain = refl;
  }

  pub plain-Good :
      (op flags : ℕ)
      → ((n : Node) (c : Context U) → dispatch (enters same stale) op n c ≡ c)
      → ((n : Node) (c : Context U) → dispatch leaves op n c ≡ c)
      → Good op (plain {W = Context U} (op, flags)).1
  plain-Good op flags go out n e = record {
    entering =
        λ s. nothing _ s (ap (λ o. dispatch (enters same stale) o n s.client) e ∙ go n s.client);
    leaving = λ s. nothing _ s (ap (λ o. dispatch leaves o n s.client) e ∙ out n s.client);
    plain = refl;
  }

  pub object-Good :
      (flags : ℕ)
      → Good 4 (record {
        flags = flags;
        entry_f = some (object_entry same stale);
        exit_f = some object_exit;
        traverse_f = none;
      })
  unfolding dispatch
  object-Good flags n e = record {
    entering = λ s. record {
      node = refl;
      stays = record {
        client = ap (λ o. dispatch (enters same stale) o n s.client) {y = opcode n} (sym e);
        level = refl;
        depth = refl;
        stack = refl;
      };
    };
    leaving = λ s. record {
      node = refl;
      stays = record {
        client = ap (λ o. dispatch leaves o n s.client) {y = opcode n} (sym e);
        level = refl;
        depth = refl;
        stack = refl;
      };
    };
    plain = refl;
  }

  -- A multiplication changes the matrix on top, and no context.
  multiplied :
      (add mul : ℕ → ℕ → ℕ) (s : NodeState (Context U)) (m : Matrix) (w : Context U)
      → w ≡ s.client
      → Handles w s (elim (matrix_mult_right add mul s m) as (λ _. NodeState (Context U)) [
        | none ↦ s
        | some s' ↦ s'
      ])
  unfolding matrix_mult_right
  multiplied add mul s m w e = elim (Option-cases (get_elem? s.matrix s.state_push_level)) [
    | inl out ↦ rw out (nothing w s e)
    | inr (c, at) ↦ rw at (record {
      node = refl;
      stays = record {
        client = sym e;
        level = refl;
        depth = refl;
        stack = length-set s.matrix s.state_push_level (product add mul c m);
      };
    })
  ]

  matrix_entry-Handles :
      (add mul : ℕ → ℕ → ℕ) (n : Node) (s : NodeState (Context U)) (w : Context U)
      → w ≡ (if opcode n == 49 then matrix_context n s.client else s.client)
      → Handles w s (matrix_entry stale add mul n s)
  unfolding matrix_entry
  matrix_entry-Handles add mul n s w e = elim (Bool-cases (opcode n == 49)) [
    | inl test ↦
        let at : w ≡ matrix_context n s.client =
          e ∙ ap (λ b. if b then matrix_context n s.client else s.client) test in
        let done = multiplied add mul (record s { client = matrix_context n s.client }) _ w at in
        rw test (record {
          node = done.node;
          stays = record {
            client = done.stays.client;
            level = done.stays.level;
            depth = done.stays.depth;
            stack = done.stays.stack;
          };
        })
    | inr test ↦
        rw test (nothing w s (e ∙ ap (λ b. if b then matrix_context n s.client else s.client) test))
  ]

  pub matrix-Good :
      (add mul : ℕ → ℕ → ℕ) (flags : ℕ) → Good 49 (entering 49 flags (matrix_entry stale add mul)).1
  unfolding dispatch
  matrix-Good add mul flags n e = record {
    entering = λ s. matrix_entry-Handles add mul n s _ (
        ap (λ o. dispatch (enters same stale) o n s.client) {x = opcode n} e
        ∙ ap (λ o. if o == 49 then matrix_context n s.client else s.client) (sym e));
    leaving = λ s. nothing _ s (ap (λ o. dispatch leaves o n s.client) {x = opcode n} e);
    plain = refl;
  }
