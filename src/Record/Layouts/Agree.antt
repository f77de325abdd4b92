-- ===== src/Record/Layouts/Agree.antt =====
-- The record types whose load and save functions move the same members.
use profit.Prelude.{
  ℕ, ◌<◌, ◌≡◌, refl, sym, ap, ◌∙◌, Bool, some, subst, List, [], ◌∷◌, ◌==◌, if◌then◌else◌, inl, inr,
  Bool-cases, length,
}
use mathlib.Core.Option.{some-injective, none-ne-some}
use profit.Bfile.{Bfile, Stdio, IsStdio, ok, create_w, create_r, destroy, ◌>>◌}
use profit.Record.{Layout, Loaded, load_f, save_f}
use profit.Record.Save.{IsRecord}
use profit.Record.RoundTrip.{save_f-load_f}
use profit.Record.Layouts.{find_layout, agreeing}

-- what all layouts of a table have
abbrev pub All : (Layout → Type 0) → List Layout → Type 0
All P [] = Unit {0}
All P (l ∷ ls) = P l × All P ls

pub find_layout-All :
    (P : Layout → Type 0) (ls : List Layout) (op : ℕ) (l : Layout)
    → All P ls
    → find_layout ls op ≡ some l
    → P l
unfolding find_layout
find_layout-All P [] op l all e = absurd (none-ne-some l e)
find_layout-All P (m ∷ ls) op l (p, all) e = elim (Bool-cases (m.opcode == op)) [
  | inl hit ↦
      subst P (some-injective m l (sym (ap (λ t. if t then some m else find_layout ls op) hit) ∙ e))
        p
  | inr miss ↦
      find_layout-All P ls op l all
        (sym (ap (λ t. if t then some m else find_layout ls op) miss) ∙ e)
]

abbrev pub Agrees : Layout → Type 0
Agrees l = l.load_steps ≡ l.save_steps

agreeing-Agrees : All Agrees agreeing
agreeing-Agrees = (
  refl,
  (
    refl,
    (
      refl,
      (
        refl,
        (
          refl,
          (
            refl,
            (
              refl,
              (refl, (refl, (refl, (refl, (refl, (refl, (refl, (refl, (refl, (refl, tt)))))))))),
            ),
          ),
        ),
      ),
    ),
  ),
)

module _ (io : Stdio) (std : IsStdio io) (big : Bool) (wbuf rbuf : List ℕ) (wpos : 0 < length wbuf)
    (rpos : 0 < length rbuf) where
  -- A record of any type in `agreeing` that is saved to a new file, which is then closed, is what the
  -- load function of the type reads from it: the same length, members and bytes behind them. The
  -- buffers have any positive sizes, the C library cuts up the transfers as it likes, and the host has
  -- either byte order. The reader has then read the whole file.
  pub agreeing-save_load :
      (op : ℕ) (l : Layout) (r : Loaded)
      → find_layout agreeing op ≡ some l
      → IsRecord l r
      → (b₁ b₂ : Bfile) × ((save_f io big l r >> destroy io) (create_w wbuf) ≡ ok tt b₁)
        × (load_f io big l (create_r rbuf b₁.disk (length b₁.disk)) ≡ ok (some r) b₂)
        × (b₂.pos ≡ length b₁.disk)
  agreeing-save_load op l r found ok_r =
      save_f-load_f io std big wbuf rbuf wpos rpos l r
        (find_layout-All Agrees agreeing op l agreeing-Agrees found) ok_r
