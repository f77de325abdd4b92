-- ===== src/Record/Tests.antt =====
-- Records of the sources' types, and the theorems at them.
use profit.Prelude.{
  inl, none, ℕ, ◌+◌, ◌-◌, ◌≡◌, refl, List, [], ◌∷◌, ◌++◌, arith, length, min, false, some,
}
use profit.Bfile.{Bfile, ok, Stdio, IsStdio, create_w, create_r, destroy, ◌>>◌}
use profit.Bfile.Sessions.{create_w-Writes, create_r-Reads}
use profit.Record.{Loaded, load_f, save_f, number, bytes}
use profit.Record.Save.{IsRecord, Whole, PutsAnd, save_f-Whole}
use profit.Bfile.Reading.{Reads}
use profit.Record.Load.Reject.{load_f-rejects}
use profit.Record.Load.{GivesAnd, load_f-Whole}
use profit.Record.Layouts.Ancillary.{instance_reference}
use profit.Record.Layouts.{find_layout}
use profit.Record.Layouts.Primary.{group}
use profit.Record.Layouts.Agree.{agreeing-save_load}
use profit.Record.Layouts.Bounds.{bounded-length}

-- A library that moves at most three bytes a call.
abbrev in_threes : Stdio
in_threes = record {
  fread_count = λ disk p n. min 3 (min n (length disk - p));
  fwrite_count = λ n. min 3 n;
}

in_threes-IsStdio : IsStdio in_threes
in_threes-IsStdio = record {
  fread_le = λ disk p n. omega arith;
  fread_pos = λ disk p n h k. omega arith;
  fwrite_le = λ n. omega arith;
  fwrite_pos = λ n h. omega arith;
}

-- A group of 30 bytes: its members but the last, and two bytes behind them.
abbrev a_group : Loaded
a_group = record {
  len = 30;
  members =
      bytes (103 ∷ 49 ∷ 0 ∷ 0 ∷ 0 ∷ 0 ∷ 0 ∷ 0 ∷ [])
      ∷ number 1
      ∷ number 0
      ∷ number 65536
      ∷ number 7
      ∷ number 8
      ∷ number 9
      ∷ number 255
      ∷ number 0
      ∷ [];
  rest = 5 ∷ 6 ∷ [];
}

a_group-IsRecord : IsRecord group a_group
a_group-IsRecord = record {
  op_small = omega arith;
  len_small = omega arith;
  enough = omega arith;
  long = omega arith;
  fits = (
    refl,
    omega arith,
    (
      refl,
      (
        omega arith,
        (
          omega arith,
          (
            omega arith,
            (omega arith, (omega arith, (omega arith, (omega arith, (omega arith, tt))))),
          ),
        ),
      ),
      omega arith,
    ),
    (
      refl,
      omega arith,
      omega arith,
      (
        refl,
        omega arith,
        omega arith,
        (
          refl,
          omega arith,
          omega arith,
          (
            refl,
            omega arith,
            omega arith,
            (
              refl,
              omega arith,
              omega arith,
              (
                refl,
                omega arith,
                omega arith,
                (refl, omega arith, omega arith, (refl, omega arith, omega arith, refl)),
              ),
            ),
          ),
        ),
      ),
    ),
  );
  rest_length = refl;
  rest_bytes = (omega arith, (omega arith, tt));
  narrow = omega arith;
}

abbrev block : List ℕ
block = 0 ∷ 0 ∷ 0 ∷ 0 ∷ 0 ∷ []

agreeing-save_load_example :
    (b₁ b₂ : Bfile) × ((save_f in_threes false group a_group >> destroy in_threes) (create_w block)
      ≡ ok tt b₁)
    × (load_f in_threes false group (create_r block b₁.disk (length b₁.disk))
        ≡ ok (some a_group) b₂)
    × (b₂.pos ≡ length b₁.disk)
unfolding find_layout
agreeing-save_load_example =
    agreeing-save_load in_threes in_threes-IsStdio false block block (omega arith) (omega arith) 2
      group a_group refl a_group-IsRecord

bounded-length_example :
    (b' : Bfile) × (save_f in_threes false group a_group (create_w block) ≡ ok tt b')
    × (b'.pos ≡ (create_w block).pos + 30)
unfolding find_layout create_w
bounded-length_example =
    bounded-length in_threes in_threes-IsStdio false 2 group a_group [] (create_w block) refl
      a_group-IsRecord (omega arith) (create_w-Writes block (omega arith)) (omega arith)

-- A reference to an instance, its bytes, and a file that has one byte behind them.
abbrev a_reference : Loaded
a_reference = record { len = 8; members = number 0 ∷ number 5 ∷ []; rest = [] }

abbrev in_file : List ℕ
in_file = 0 ∷ 61 ∷ 0 ∷ 8 ∷ 0 ∷ 0 ∷ 0 ∷ 5 ∷ []

a_reference-IsRecord : IsRecord instance_reference a_reference
a_reference-IsRecord = record {
  op_small = omega arith;
  len_small = omega arith;
  enough = omega arith;
  long = omega arith;
  fits = (refl, omega arith, omega arith, (refl, omega arith, omega arith, tt));
  rest_length = refl;
  rest_bytes = tt;
  narrow = omega arith;
}

a_reference-Whole : Whole instance_reference a_reference in_file
a_reference-Whole = (
  0 ∷ 61 ∷ [],
  0 ∷ 8 ∷ [],
  0 ∷ 0 ∷ 0 ∷ 5 ∷ [],
  refl,
  (refl, (omega arith, (omega arith, tt)), refl),
  (refl, (omega arith, (omega arith, tt)), refl),
  (
    0 ∷ 0 ∷ [],
    0 ∷ 5 ∷ [],
    (refl, (omega arith, (omega arith, tt)), refl),
    refl,
    (0 ∷ 5 ∷ [], [], (refl, (omega arith, (omega arith, tt)), refl), refl, refl),
  ),
)

save_f-Whole_example :
    (bs : List ℕ) × Whole instance_reference a_reference bs
    × PutsAnd []
        (create_w block)
        (save_f in_threes false instance_reference a_reference (create_w block))
        tt
        bs
unfolding create_w
save_f-Whole_example =
    save_f-Whole in_threes in_threes-IsStdio false instance_reference a_reference []
      (create_w block) a_reference-IsRecord (create_w-Writes block (omega arith)) (omega arith)

load_f-Whole_example :
    GivesAnd
      (in_file ++ 9 ∷ [])
      (create_r block (in_file ++ 9 ∷ []) 9)
      (load_f in_threes false instance_reference (create_r block (in_file ++ 9 ∷ []) 9))
      (some a_reference)
      8
unfolding create_r
load_f-Whole_example =
    load_f-Whole in_threes in_threes-IsStdio false instance_reference a_reference
      (in_file ++ 9 ∷ []) in_file (9 ∷ []) (create_r block (in_file ++ 9 ∷ []) 9) refl
      a_reference-IsRecord a_reference-Whole
      (
        omega arith,
        (
          omega arith,
          (
            omega arith,
            (
              omega arith,
              (omega arith, (omega arith, (omega arith, (omega arith, (omega arith, tt))))),
            ),
          ),
        ),
      )
      (create_r-Reads block (in_file ++ 9 ∷ []) (omega arith) (omega arith)) refl

-- The file holds no group.
load_f-rejects_example :
    (b' : Bfile) × (load_f in_threes false group (create_r block in_file 8) ≡ ok none b')
    × Reads in_file b'
    × (b'.pos ≡ (create_r block in_file 8).pos)
unfolding create_r
load_f-rejects_example =
    load_f-rejects in_threes in_threes-IsStdio false in_file
      (
        omega arith,
        (
          omega arith,
          (
            omega arith,
            (omega arith, (omega arith, (omega arith, (omega arith, (omega arith, tt))))),
          ),
        ),
      )
      group (create_r block in_file 8) (create_r-Reads block in_file (omega arith) (omega arith))
      refl refl (omega arith) (inl (refl, λ e. absurd (omega (arith, e))))
