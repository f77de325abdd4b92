-- ===== src/Loader/Tests/Records.antt =====
-- The records of the small model are whole.
use profit.Prelude.{ℕ, ◌<◌, refl, none, arith, inl, inr}
use profit.Record.Save.{IsRecord}
use profit.Record.Layouts.Primary.{group}
use profit.Record.Layouts.{layouts, find_layout}
use profit.Traverse.{nil, cons}
use profit.Loader.Shape.{reading}
use profit.Loader.File.Codec.{layout_or_raw}
use profit.Loader.File.Files.{AreGood}
use profit.Loader.Tests.Model.{no_content, a_group, model}

pub a_group-IsRecord : IsRecord group a_group
a_group-IsRecord = record {
  op_small = omega arith;
  len_small = omega arith;
  enough = omega arith;
  long = omega arith;
  fits = (
    refl,
    omega arith,
    (
      refl,
      (
        omega arith,
        (
          omega arith,
          (
            omega arith,
            (omega arith, (omega arith, (omega arith, (omega arith, (omega arith, tt))))),
          ),
        ),
      ),
      omega arith,
    ),
    (
      refl,
      omega arith,
      omega arith,
      (
        refl,
        omega arith,
        omega arith,
        (
          refl,
          omega arith,
          omega arith,
          (
            refl,
            omega arith,
            omega arith,
            (
              refl,
              omega arith,
              omega arith,
              (
                refl,
                omega arith,
                omega arith,
                (refl, omega arith, omega arith, (refl, omega arith, omega arith, refl)),
              ),
            ),
          ),
        ),
      ),
    ),
  );
  rest_length = refl;
  rest_bytes = tt;
  narrow = omega arith;
}

pub good_leaf : (op : ℕ) → op < 100 → IsRecord (layout_or_raw none op) no_content
good_leaf op h = record {
  op_small = omega arith;
  len_small = omega arith;
  enough = omega arith;
  long = omega arith;
  fits = tt;
  rest_length = refl;
  rest_bytes = tt;
  narrow = omega arith;
}

pub model-AreGood : AreGood layouts (reading (cons model nil))
unfolding reading find_layout
model-AreGood = (
  record {
    stored = record {
      is_record = record {
        op_small = omega arith;
        len_small = omega arith;
        enough = omega arith;
        long = omega arith;
        fits = refl;
        rest_length = refl;
        rest_bytes = tt;
        narrow = omega arith;
      };
      same = refl;
    };
    half = 2;
    even = refl;
    opcode = inl refl;
    not_swapped = refl;
  },
  refl,
  (
    record {
      stored = record {
        is_record = record {
          op_small = omega arith;
          len_small = omega arith;
          enough = omega arith;
          long = omega arith;
          fits = tt;
          rest_length = refl;
          rest_bytes = (omega arith, (omega arith, tt));
          narrow = omega arith;
        };
        same = refl;
      };
      half = 3;
      even = refl;
      opcode = inl refl;
      not_swapped = refl;
    },
    refl,
    (
      record {
        stored = record { is_record = good_leaf 10 (omega arith); same = refl };
        half = 2;
        even = refl;
        opcode = inl refl;
        not_swapped = refl;
      },
      refl,
      (
        record {
          stored = record { is_record = a_group-IsRecord; same = refl };
          half = 14;
          even = refl;
          opcode = inl refl;
          not_swapped = refl;
        },
        refl,
        (
          record {
            stored = record { is_record = good_leaf 11 (omega arith); same = refl };
            half = 2;
            even = refl;
            opcode = inr refl;
            not_swapped = refl;
          },
          refl,
          tt,
        ),
      ),
    ),
  ),
)
