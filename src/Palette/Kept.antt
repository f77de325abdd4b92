-- ===== src/Palette/Kept.antt =====
-- A vertex that prf_model_add_vertex put into the pools is there from then on.
use profit.Prelude.{
  ℕ, ◌+◌, ◌-◌, ◌%◌, ◌^◌, ◌≤◌, ◌≡◌, refl, sym, ap, subst, ◌∙◌, some, List, [], ◌∷◌, Bool-cases, inl,
  inr, arith, length, take, drop, ltb, le→leb,
}
use profit.Prelude.Windows.{take-drop_agree}
use profit.Palette.{Host, IsHost, Vertex, VertexPool, Cell, write}
use profit.Palette.Store.{
  opcode_of, length_of, members, new_vertex_pool, vertex_block_size, put, put_last, used,
}
use profit.Palette.Memory.{encode, sizes, length-write, take-write, take-drop-write}

-- the record of a vertex
abbrev pub record_of : Vertex → List Cell
record_of v = (2, opcode_of v) ∷ (2, length_of v) ∷ members v

-- The length that the code gives a record is the number of its bytes.
pub sizes-record_of : (v : Vertex) → sizes (record_of v) ≡ length_of v
unfolding length_of members
sizes-record_of v = elim (Bool-cases v.has_normal) [
  | inl e ↦ elim (Bool-cases v.has_texture) [
    | inl e' ↦ simp (e, e') (refl)
    | inr e' ↦ simp (e, e') (refl)
  ]
  | inr e ↦ elim (Bool-cases v.has_texture) [
    | inl e' ↦ simp (e, e') (refl)
    | inr e' ↦ simp (e, e') (refl)
  ]
]

-- A record takes 40 to 60 bytes.
pub length_of-bounds : (v : Vertex) → (40 ≤ length_of v) × (length_of v ≤ 60)
unfolding length_of
length_of-bounds v = ground arith

-- The block of a pool has the size that it says, and the position lies in it.
pub record IsPool (p : VertexPool) : Type 0 where
  pub whole : length p.block ≡ vertex_block_size
  pub said : p.data_size ≡ vertex_block_size
  pub inside : p.position ≤ vertex_block_size

abbrev pub IsPools : List VertexPool → Type 0
IsPools [] = Unit {0}
IsPools (p ∷ ps) = IsPool p × IsPools ps

-- Where the look-up arrives from an offset into the pools, there is the record of the vertex.
pub data Kept (h : Host) (v : Vertex) : List VertexPool → ℕ → Type 0 where
  here :
      {p : VertexPool} {ps : List VertexPool} {o : ℕ}
      → o + length_of v ≤ p.position
      → take (length_of v) (drop o p.block) ≡ encode h (record_of v)
      → Kept h v (p ∷ ps) o
  there :
      {p : VertexPool} {ps : List VertexPool} {o : ℕ}
      → p.position ≤ o
      → Kept h v ps (o - p.position)
      → Kept h v (p ∷ ps) o

-- What an addition does to a pool, and to the pools.
pub record Put (h : Host) (v : Vertex) (p q : VertexPool) : Type 0 where
  pub valid : IsPool q
  pub end : q.position ≡ p.position + length_of v
  pub before : take p.position q.block ≡ take p.position p.block
  pub written : take (length_of v) (drop p.position q.block) ≡ encode h (record_of v)

pub record Added (h : Host) (v : Vertex) (ps qs : List VertexPool) : Type 0 where
  pub valid : IsPools qs
  pub more : used qs ≡ used ps + length_of v
  pub kept : Kept h v qs (used ps)
  pub others : (w : Vertex) (o : ℕ) → Kept h w ps o → Kept h w qs o

module _ (h : Host) (host : IsHost h) (v : Vertex) where
  put-Put :
      (p : VertexPool)
      → IsPool p
      → p.position + length_of v ≤ vertex_block_size
      → (q : VertexPool) × (put h v p ≡ some q) × Put h v p q
  unfolding put
  put-Put p i room =
      let n : sizes (record_of v) ≡ length_of v = sizes-record_of v in
      let whole = i.whole in
      let fits : p.position + sizes (record_of v) ≤ length p.block = omega arith in
      let end : (p.position + length_of v) % 2 ^ 32 ≡ p.position + length_of v = omega arith in
      (
        _,
        rw (le→leb (p.position + length_of v) (length p.block) (omega arith)) refl,
        record {
          valid = record {
            whole = length-write h host p.position (record_of v) p.block fits ∙ whole;
            said = i.said;
            inside = omega arith;
          };
          end = end;
          before = take-write h host p.position p.position (record_of v) p.block (omega arith) fits;
          written =
              ap (λ k. take k (drop p.position (write h p.position (record_of v) p.block))) (sym n)
              ∙ take-drop-write h host p.position (record_of v) p.block fits;
        },
      )

  -- In the only pool there is, a record stands before its position.
  last-Kept :
      (p : VertexPool) (w : Vertex) (o : ℕ)
      → Kept h w (p ∷ []) o
      → (o + length_of w ≤ p.position)
        × (take (length_of w) (drop o p.block) ≡ encode h (record_of w))
  last-Kept p w o (here le e) = (le, e)
  last-Kept p w o (there le k) = elim k [ ]

  -- A record before the position of a pool is still done.
  stays :
      (p q : VertexPool) (qs : List VertexPool) (w : Vertex) (o : ℕ)
      → Put h v p q
      → o + length_of w ≤ p.position
      → take (length_of w) (drop o p.block) ≡ encode h (record_of w)
      → Kept h w (q ∷ qs) o
  stays p q qs w o done le e =
      let end = done.end in
      here (omega arith)
        (take-drop_agree p.position o (length_of w) q.block p.block done.before le ∙ e)

  -- A record that is put at the end of valid pools stands at the offset that the positions add up to,
  -- and no other record moves.
  pub put_last-Added :
      (block : List ℕ) (p : VertexPool) (ps : List VertexPool)
      → length block ≡ vertex_block_size
      → IsPools (p ∷ ps)
      → (qs : List VertexPool) × (put_last h block v (p ∷ ps) ≡ some qs) × Added h v (p ∷ ps) qs
  unfolding put_last used
  put_last-Added block p [] whole (i, _) =
      let (lo, hi) = length_of-bounds v in
      let said = i.said in
      let inside = i.inside in
      elim (Bool-cases (ltb ((p.data_size + 2 ^ 32 - p.position) % 2 ^ 32) (length_of v))) [
        | inl full ↦
            let new : IsPool (new_vertex_pool block) = record {
              whole = whole;
              said = refl;
              inside = omega arith;
            } in
            let (q, run, done) = put-Put (new_vertex_pool block) new (omega arith) in
            let end = done.end in
            rw (full, run)
              (
                p ∷ q ∷ [],
                refl,
                record {
                  valid = (i, (done.valid, tt));
                  more = omega arith;
                  kept = there (omega arith) (
                      subst (λ o. Kept h v (q ∷ []) o) {x = 0} (omega arith)
                        (here (omega arith) done.written));
                  others = λ w o k. let (le, e) = last-Kept p w o k in here le e;
                },
              )
        | inr room ↦
            let (q, run, done) = put-Put p i (ground arith) in
            let end = done.end in
            rw (room, run)
              (
                q ∷ [],
                refl,
                record {
                  valid = (done.valid, tt);
                  more = omega arith;
                  kept =
                      subst (λ o. Kept h v (q ∷ []) o) {x = p.position} (omega arith)
                        (here (omega arith) done.written);
                  others = λ w o k. let (le, e) = last-Kept p w o k in stays p q [] w o done le e;
                },
              )
      ]
  put_last-Added block p (p' ∷ ps) whole (i, is) =
      let (qs, run, a) = put_last-Added block p' ps whole is in
      let more = a.more in
      rw run (
        p ∷ qs,
        refl,
        record {
          valid = (i, a.valid);
          more = omega arith;
          kept =
              there (omega arith)
                (subst (λ o. Kept h v qs o) {x = used (p' ∷ ps)} (omega arith) a.kept);
          others = λ w o k. below qs a w o k;
        },
      )
    where
      below :
          (qs : List VertexPool)
          → Added h v (p' ∷ ps) qs
          → (w : Vertex) (o : ℕ) → Kept h w (p ∷ p' ∷ ps) o
          → Kept h w (p ∷ qs) o
      below qs a w o (here le e) = here le e
      below qs a w o (there le k) = there le (a.others w (o - p.position) k)
