-- ===== src/Array/Elems.antt =====
-- The elements that an array of src/util/array.c holds, and what makes an array well formed.
use profit.Prelude.{
  ℕ, ◌^◌, ◌≤◌, ◌<◌, ◌≡◌, refl, ◌∙◌, List, [], arith, length, take, length-take, length-replicate,
}
use native.Mathlib.Nat.{mul-div_cancel}
use profit.Array.{Array, init, elemsize_bits, numelem_bits}

abbrev pub elems : {A : Type 0} → Array A → List A
elems a = take a.numelem a.cells

-- The slots behind the header are as many as it says, and hold the counted elements.
pub record IsValid {A : Type 0} (width : ℕ) (a : Array A) : Type 0 where
  pub slots : length a.cells ≡ a.size
  pub element : a.elemsize ≡ width
  pub width_pos : 0 < width
  pub counted : a.numelem ≤ a.size
  pub size_lt : a.size < 2 ^ 31
  pub numelem_lt : a.numelem < numelem_bits

module _ {A : Type 0} where
  -- A new array is well formed and empty.
  pub init-IsValid :
      (junk : A) (initsize width : ℕ)
      → 0 < width
      → width < elemsize_bits
      → initsize < 2 ^ 31
      → IsValid width (init junk width initsize width)
        × (elems (init junk width initsize width) ≡ [])
  unfolding init
  init-IsValid junk n width p q r = (
    record {
      slots = length-replicate _ junk ∙ mul-div_cancel n p ∙ omega arith;
      element = omega arith;
      width_pos = p;
      counted = omega arith;
      size_lt = omega arith;
      numelem_lt = omega arith;
    },
    refl,
  )

  -- Only the number of slots matters.
  pub cells-IsValid :
      (width : ℕ) (a : Array A) (cells : List A)
      → IsValid width a
      → length cells ≡ length a.cells
      → IsValid width (record a { cells = cells })
  cells-IsValid width a cells v h = record {
    slots = h ∙ v.slots;
    element = v.element;
    width_pos = v.width_pos;
    counted = v.counted;
    size_lt = v.size_lt;
    numelem_lt = v.numelem_lt;
  }

  -- The elements are as many as the array counts.
  pub length-elems : {width : ℕ} (a : Array A) → IsValid width a → length (elems a) ≡ a.numelem
  length-elems a v = omega (arith, length-take a.numelem a.cells, v.slots, v.counted)
