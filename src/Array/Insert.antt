-- ===== src/Array/Insert.antt =====
-- `prf_array_insert_*`: the loop that makes room.
use profit.Prelude.{
  ℕ, zero, suc, ◌+◌, ◌-◌, ◌^◌, ◌≤◌, ◌<◌, ◌≡◌, refl, sym, ap, ◌∙◌, List, [], ◌∷◌, ◌++◌, arith,
  length, take, drop, set, length-append, length-take, some, length-set, ltb, ◌>>=◌, inl, inr,
  Bool-cases, lt→ltb, get_elem?, append_assoc, length-drop,
}
use profit.Prelude.Windows.{
  take-append_left, get_elem?-drop, take-length, drop-length, take-drop_agree, take-append_short,
  get_elem?-some,
}
use profit.Array.{Array, insert, load, store, shift_up, numelem_bits}
use profit.Array.Elems.{elems, IsValid, cells-IsValid, length-elems}
use profit.Array.Append.{append-elems}

module _ {A : Type 0} where
  take-set_behind : (i j : ℕ) (v : A) (xs : List A) → take i (set xs (i + j) v) ≡ take i xs
  take-set_behind zero j v xs = refl
  take-set_behind (suc i) j v [] = refl
  take-set_behind (suc i) j v (x ∷ xs) =
      ap (λ n. take (suc i) (set (x ∷ xs) n v)) {x = suc i + j} {y = suc (i + j)} (omega arith)
      ∙ ap (λ l. x ∷ l) (take-set_behind i j v xs)

  drop-set_behind :
      (i j : ℕ) (v : A) (xs : List A) → drop i (set xs (i + j) v) ≡ set (drop i xs) j v
  drop-set_behind zero j v xs = ap (λ n. set xs n v) (omega arith)
  drop-set_behind (suc i) j v [] = refl
  drop-set_behind (suc i) j v (x ∷ xs) =
      ap (λ n. drop (suc i) (set (x ∷ xs) n v)) {x = suc i + j} {y = suc (i + j)} (omega arith)
      ∙ drop-set_behind i j v xs

  -- The first k elements, behind x, in place of the first k + 1.
  abbrev roll : ℕ → A → List A → List A
  roll k x xs = x ∷ (take k xs ++ drop (suc k) xs)

  -- A round of the loop copies element k to place k + 1.
  roll-set :
      (k : ℕ) (x v : A) (xs : List A)
      → get_elem? xs k ≡ some v
      → suc k < length xs
      → roll k x (set xs (suc k) v) ≡ roll (suc k) x xs
  roll-set k x v [] e h = absurd (omega arith)
  roll-set k x v (y ∷ []) e h = absurd (omega arith)
  roll-set zero x v (y ∷ z ∷ xs) e h = cc
  roll-set (suc k) x v (y ∷ z ∷ xs) e h =
      ap (λ l. x ∷ y ∷ l) (ap (tail x) (roll-set k x v (z ∷ xs) e (omega arith)))
    where
      tail : A → List A → List A
      tail a [] = []
      tail a (_ ∷ l) = l

  set-roll :
      (i : ℕ) (x : A) (xs : List A) → i < length xs → set xs i x ≡ take i xs ++ roll 0 x (drop i xs)
  set-roll i x [] h = absurd (omega arith)
  set-roll zero x (y ∷ xs) h = refl
  set-roll (suc i) x (y ∷ xs) h = ap (λ l. y ∷ l) (set-roll i x xs (omega arith))

  -- The slots that the loop and the write at idx leave.
  shift_up-roll :
      (k idx : ℕ) (x : A) (a : Array A)
      → idx + k < length a.cells
      → (shift_up k (idx + k) a >>= store idx x)
        ≡ some (record a { cells = take idx a.cells ++ roll k x (drop idx a.cells) })
  unfolding shift_up load store
  shift_up-roll zero idx x a h =
      rw (lt→ltb idx (length a.cells) (omega arith), set-roll idx x a.cells (omega arith)) refl
  shift_up-roll (suc k) idx x a h =
      let (v, e) = get_elem?-some a.cells (idx + k) (omega arith) in
      let j : idx + suc k - 1 ≡ idx + k = omega arith in
      let a' : Array A = record a { cells = set a.cells (idx + suc k) v } in
      let room : idx + k < length a'.cells = omega (arith, length-set a.cells (idx + suc k) v) in
      rw (j, e, lt→ltb (idx + suc k) (length a.cells) h)
        (shift_up-roll k idx x a' room
          ∙ rw
              (
                take-set_behind idx (suc k) v a.cells,
                drop-set_behind idx (suc k) v a.cells,
                roll-set k x v (drop idx a.cells) (get_elem?-drop idx k a.cells ∙ e)
                    (omega (arith, length-drop idx a.cells)),
              )
              refl)

  -- The first n + 1 slots of that, where n is the old count.
  take-roll :
      (idx k : ℕ) (x : A) (xs : List A)
      → idx + k ≤ length xs
      → take (suc (idx + k)) (take idx xs ++ roll k x (drop idx xs))
        ≡ take idx xs ++ x ∷ take k (drop idx xs)
  take-roll idx k x xs h =
      ap (take (suc (idx + k))) (sym (append_assoc (take idx xs) (x ∷ take k (drop idx xs)) _))
      ∙ take-append_left (suc (idx + k)) (take idx xs ++ x ∷ take k (drop idx xs)) _ (
          omega (
            arith,
            length-append (take idx xs) (x ∷ take k (drop idx xs)),
            length-take idx xs,
            length-take k (drop idx xs),
            length-drop idx xs,
          ))

  take-drop-append :
      (i k : ℕ) (l ys : List A) → length l ≡ i + k → take k (drop i (l ++ ys)) ≡ drop i l
  take-drop-append zero k l ys h = take-append_left k l ys (omega arith)
  take-drop-append (suc i) k [] ys h = absurd (omega arith)
  take-drop-append (suc i) k (x ∷ l) ys h = take-drop-append i k l ys (omega arith)

  -- The slots after the loop, by what they held before: the elements l, then x.
  inserted :
      (idx k n : ℕ) (x : A) (c l : List A)
      → n ≡ suc (idx + k)
      → length l ≡ idx + k
      → take n c ≡ l ++ x ∷ []
      → idx + k ≤ length c
      → take n (take idx c ++ roll k x (drop idx c)) ≡ take idx l ++ x ∷ drop idx l
  inserted idx k n x c l e len h room =
      let full : l ++ x ∷ [] ≡ take n (l ++ x ∷ []) =
        sym (take-length n (l ++ x ∷ []) (omega (arith, length-append l (x ∷ [])))) in
      let front : take idx c ≡ take idx l =
        take-drop_agree n 0 idx c (l ++ x ∷ []) (h ∙ full) (omega arith)
        ∙ take-append_short idx l (x ∷ []) (omega arith) in
      let back : take k (drop idx c) ≡ drop idx l =
        take-drop_agree n idx k c (l ++ x ∷ []) (h ∙ full) (omega arith)
        ∙ take-drop-append idx k l (x ∷ []) len in
      ap (λ m. take m (take idx c ++ roll k x (drop idx c))) e
      ∙ take-roll idx k x c room
      ∙ rw (front, back) refl

module _ {A : Type 0} (junk : A) (width : ℕ) where
  -- On a well-formed array whose capacity is positive and below 2^30, with room for one more in the
  -- 28-bit count, `prf_array_insert_*` succeeds and keeps the array well formed. At an index among the elements the new one stands there and
  -- those from the index on follow it; at any other index it stands last.
  pub insert-elems :
      (idx : ℕ) (x : A) (a : Array A)
      → IsValid width a
      → 0 < a.size
      → a.size < 2 ^ 30
      → a.numelem + 1 < numelem_bits
      → (b : Array A) × (insert junk width idx x a ≡ some b)
        × IsValid width b
        × (elems b ≡ take idx (elems a) ++ x ∷ drop idx (elems a))
  unfolding insert
  insert-elems idx x a v pos lt cnt =
      let (b, (done, v', e', n')) = append-elems junk width x a v pos lt cnt in
      elim (Bool-cases (ltb idx a.numelem)) [
        | inl inside ↦
            let k : ℕ = a.numelem - idx in
            let fits : idx + k < length b.cells = ground arith in
            let sh = shift_up-roll k idx x b fits in
            let i : a.numelem ≡ idx + k = ground arith in
            (
              record b { cells = take idx b.cells ++ roll k x (drop idx b.cells) },
              rw (done, inside) (ap (λ n. shift_up k n b >>= store idx x) i ∙ sh),
              cells-IsValid width b _ v' (
                  omega (
                    arith,
                    length-append (take idx b.cells) (roll k x (drop idx b.cells)),
                    length-append (take k (drop idx b.cells)) (drop (suc k) (drop idx b.cells)),
                    length-take idx b.cells,
                    length-take k (drop idx b.cells),
                    length-drop idx b.cells,
                    length-drop (suc k) (drop idx b.cells),
                  )),
              inserted idx k b.numelem x b.cells (elems a) (omega arith) (length-elems a v ∙ i) e'
                  (omega arith),
            )
        | inr behind ↦
            let len : length (elems a) ≤ idx = ground (arith, length-elems a v) in
            (
              b,
              rw (done, behind) refl,
              v',
              e' ∙ rw (take-length idx (elems a) len, drop-length idx (elems a) len) refl,
            )
      ]
