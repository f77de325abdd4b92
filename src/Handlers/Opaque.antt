-- ===== src/Handlers/Opaque.antt =====
-- The colours that a look-up gives.
use profit.Prelude.{
  ℕ, zero, suc, ◌≤◌, ◌<◌, ◌≡◌, refl, Bool, true, false, Bool-cases, inl, inr, none, some, List, [],
  ◌∷◌, ◌&&◌, arith, if◌then◌else◌, ltb, lt→ltb, get_elem?,
}
use profit.Traverse.{Node}
use profit.Handlers.{Context}
use profit.Handlers.Colors.{default_values}
use profit.Handlers.Lookup.{is_opaque, held_color, color_lookup}

all_opaque : List ℕ → Bool
all_opaque [] = true
all_opaque (v ∷ vs) = let rest = all_opaque vs in is_opaque v && rest

has_all : ℕ → List ℕ → Bool
has_all zero l = true
has_all (suc k) [] = false
has_all (suc k) (v ∷ vs) = has_all k vs

opaque-get :
    (l : List ℕ) (k i : ℕ)
    → all_opaque l ≡ true
    → has_all k l ≡ true
    → i < k
    → (v : ℕ) × (get_elem? l i ≡ some v) × (is_opaque v ≡ true)
unfolding all_opaque has_all
opaque-get l zero i all many h = absurd (omega arith)
opaque-get [] (suc k) i all many h = cc
opaque-get (v ∷ vs) (suc k) zero all many h = (v, refl, ground (arith, all))
opaque-get (v ∷ vs) (suc k) (suc i) all many h =
    opaque-get vs k i (ground (arith, all)) many (omega arith)

defaults_opaque : (all_opaque default_values ≡ true) × (has_all 1024 default_values ≡ true)
unfolding all_opaque has_all
defaults_opaque = (refl, refl)

chosen :
    (color default : ℕ)
    → is_opaque default ≡ true
    → is_opaque (if is_opaque color then color else default) ≡ true
chosen color default h = elim (Bool-cases (is_opaque color)) [ inl e ↦ rw e e | inr e ↦ rw e h ]

-- A look-up of a colour with an index below 1024 gives an opaque colour, whatever the palette holds;
-- with another index it fails an assertion.
pub color_lookup-opaque :
    {U : Type 0} (brightest : Node → ℕ → ℕ) (c : Context U)
    → ((index : ℕ)
        → index < 1024
        → (color : ℕ) × (color_lookup brightest c index ≡ some color) × (is_opaque color ≡ true))
      × ((index : ℕ) → 1024 ≤ index → color_lookup brightest c index ≡ none)
unfolding color_lookup
color_lookup-opaque brightest c = (λ index h. inside index h, λ index h. outside index h)
  where
    inside :
        (index : ℕ)
        → index < 1024
        → (color : ℕ) × (color_lookup brightest c index ≡ some color) × (is_opaque color ≡ true)
    inside index h =
        let (v, e, opaque) =
          opaque-get default_values 1024 index defaults_opaque.0 defaults_opaque.1 h in
        rw (lt→ltb index 1024 h, e) (_, refl, chosen (held_color brightest c index v) v opaque)

    outside : (index : ℕ) → 1024 ≤ index → color_lookup brightest c index ≡ none
    outside index h = let e : ltb index 1024 ≡ false = ground arith in rw e refl
