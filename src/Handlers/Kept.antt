-- ===== src/Handlers/Kept.antt =====
-- The parts of a state that few record types change: a table of handlers leaves one of them, where the
-- rows for the record types that change it are left aside.
use profit.Prelude.{ℕ, ◌≡◌, refl, Bool, false, Option, List, [], ◌∷◌, ◌++◌}
use profit.Traverse.{Node, opcode}
use profit.Handlers.{
  Context, up_16, down_16, header_context, object_context, color_palette_context,
  material_palette_context, instance_context, is_other, has_node,
}
use profit.Handlers.Follow.{Action, enters, leaves, leave}
use profit.Handlers.Counts.{AllLeave, dispatch-leaves, kept}

-- The four counters of a context, its textures, its materials and its material palette
abbrev pub Seen : Type 0
Seen = ℕ × ℕ × ℕ × ℕ × List Node × List Node × Option Node

abbrev pub seen : {U : Type 0} → Context U → Seen
seen c = (
  c.push_level, c.subface_level, c.extension_level, c.attribute_level, c.textures, c.materials,
  c.material_palette,
)

module _ {U B : Type 0} (get : Seen → B) where
  abbrev pub IsKept : (ℕ → Bool) → ℕ → Action U → Type 0
  IsKept but o f = but o ≡ false → (n : Node) (c : Context U) → get (seen (f n c)) ≡ get (seen c)

  -- The entry handlers leave a part, where those do that change one of the parts.
  pub enters-AllLeave :
      (same : Node → Node → Bool) (stale : Node → ℕ → ℕ) (but : ℕ → Bool)
      → IsKept but 1 (header_context same stale)
      → IsKept but 10 (λ n c. record c { push_level = up_16 c.push_level })
      → IsKept but 19 (λ n c. record c { subface_level = up_16 c.subface_level })
      → IsKept but 21 (λ n c. record c { extension_level = up_16 c.extension_level })
      → IsKept but 64 (λ n c. record c { textures = c.textures ++ n ∷ [] })
      → IsKept but 66 (material_palette_context same stale)
      → IsKept but 113 (λ n c. record c { materials = c.materials ++ n ∷ [] })
      → IsKept but 122 (λ n c. record c { attribute_level = up_16 c.attribute_level })
      → AllLeave (λ (c : Context U). get (seen c)) but (enters same stale)
  unfolding object_context color_palette_context instance_context
  enters-AllLeave same stale but header push subface extension texture palette material attribute =
      (
        header,
        (
          λ e n c. refl,
          (
            push,
            (
              subface,
              (
                extension,
                (
                  λ e n c. kept (λ x. get (seen x)) (is_other same c.color_palette n) c _ refl,
                  (
                    λ e n c. refl,
                    (
                      λ e n c. kept (λ x. get (seen x)) (has_node same c.instances n) c _ refl,
                      (texture, (palette, (λ e n c. refl, (material, (attribute, tt))))),
                    ),
                  ),
                ),
              ),
            ),
          ),
        ),
      )

  pub leaves-AllLeave :
      (but : ℕ → Bool)
      → IsKept but 11 (λ n c. record c { push_level = down_16 c.push_level })
      → IsKept but 20 (λ n c. record c { subface_level = down_16 c.subface_level })
      → IsKept but 22 (λ n c. record c { extension_level = down_16 c.extension_level })
      → IsKept but 123 (λ n c. record c { attribute_level = down_16 c.attribute_level })
      → AllLeave (λ (c : Context U). get (seen c)) but leaves
  leaves-AllLeave but push subface extension attribute =
      (λ e n c. refl, (push, (subface, (extension, (attribute, tt)))))

-- Exit handlers see none of the lists and the palettes.
pub leave-lists :
    {U B : Type 0} (get : List Node × List Node × Option Node → B) (n : Node) (c : Context U)
    → get ((leave n c).textures, (leave n c).materials, (leave n c).material_palette)
      ≡ get (c.textures, c.materials, c.material_palette)
leave-lists get n c =
    let part : Seen → _ = λ q. get (q.4, q.5, q.6) in
    dispatch-leaves (λ x. part (seen x)) (λ o. false) leaves (opcode n) n c
      (leaves-AllLeave part (λ o. false) (λ e m d. refl) (λ e m d. refl) (λ e m d. refl)
        (λ e m d. refl))
      refl
