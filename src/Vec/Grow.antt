-- ===== src/Vec/Grow.antt =====
-- `vec_reserve` and `vec_push_back`, and what `vec_pop_back` takes off again.
use os_pi_is_cool.Base.{
  ℕ, zero, suc, ◌+◌, ◌-◌, ◌^◌, ◌≤◌, ◌<◌, ◌≡◌, refl, List, [], ◌∷◌, ◌++◌, arith, Bool, true, false,
  length, some, none, inl, inr, Option-cases, Bool-cases, leb, ltb, append_assoc, length-snoc,
  append-cons, take, drop, length-take, length-drop, take-append-drop, ◌*◌, load-append,
  store-append, ok, Ends, returns, stops, Ends-bind, Ends-mono, cons_of_pos, ap, ◌∙◌, load, leb→le,
  sym, ◌==◌, Ptr, null, Allocator, OutOfMemory, if◌then◌else◌,
}
use os_pi_is_cool.Vec.{
  Vec, bytes_for, append_within, copy_cells, reserve, grown, push_back, pop_back,
}
use os_pi_is_cool.Vec.Holds.{Holds, SameDrops}

-- The copy of `xs` over as many cells keeps what stands before and behind.
copy_cells-append :
    (xs pre from pre' old to : List Ptr) (i n : ℕ)
    → i ≡ length pre
    → i ≡ length pre'
    → n ≡ length xs
    → length old ≡ length xs
    → copy_cells n i (pre ++ (xs ++ from)) (pre' ++ (old ++ to)) ≡ ok (pre' ++ (xs ++ to))
unfolding copy_cells
copy_cells-append [] pre from pre' [] to i zero p p' c e = refl
copy_cells-append [] pre from pre' [] to i (suc n) p p' c e = absurd (omega arith)
copy_cells-append [] pre from pre' (y ∷ old) to i n p p' c e = absurd (omega arith)
copy_cells-append (x ∷ xs) pre from pre' [] to i n p p' c e = absurd (omega arith)
copy_cells-append (x ∷ xs) pre from pre' (y ∷ old) to i zero p p' c e = absurd (omega arith)
copy_cells-append (x ∷ xs) pre from pre' (y ∷ old) to i (suc n) p p' c e =
    rw
      (
        load-append pre x (xs ++ from) i p,
        store-append pre' y (old ++ to) i x p',
        append-cons pre x (xs ++ from),
        append-cons pre' x (old ++ to),
        append-cons pre' x (xs ++ to),
      )
      (copy_cells-append xs (pre ++ x ∷ []) from (pre' ++ x ∷ []) old to (i + 1) n
        (omega (arith, length-snoc pre x)) (omega (arith, length-snoc pre' x)) (omega arith)
        (omega arith))

append_within-Holds :
    {v : Vec} (xs : List Ptr) {F : Type 0} (x : Ptr)
    → Holds v xs
    → length xs < v.capacity
    → Ends (λ w. Holds w (xs ++ x ∷ []) × SameDrops v w) F (append_within v x)
unfolding append_within
append_within-Holds {v} xs x h lt =
    let (y, rest, split) = cons_of_pos h.spare (omega (arith, h.room)) in
    rw (h.stored, split, store-append xs y rest v.length x h.counted)
      (returns (
        record {
          spare = rest;
          stored = append-cons xs x rest;
          counted = omega (arith, h.counted, h.small, h.fits, length-snoc xs x);
          room = omega (arith, h.room, ap length split, length-snoc xs x);
          fits = omega (arith, length-snoc xs x);
          small = h.small;
        },
        (refl, refl),
      ))

module _ (k : Allocator) {v : Vec} {xs : List Ptr} where
  pub reserve-Holds :
      (n : ℕ)
      → Holds v xs
      → length xs ≤ n
      → n ≤ 2 ^ 46
      → Ends (λ w. Holds w xs × (w.capacity ≡ n) × SameDrops v w) (OutOfMemory k) (reserve k v n)
  unfolding reserve
  reserve-Holds n h le small = elim (Option-cases (k.alloc (bytes_for n))) [
    | inl e ↦ rw (e, reserve, le_test) (stops (_, e))
    | inr (cells, e) ↦
        let old = take (length xs) cells in
        let to = drop (length xs) cells in
        let covered : 8 * n ≤ 8 * length cells = omega (arith, k.covers (bytes_for n) cells e) in
        let old_length : length old ≡ length xs = omega (arith, length-take (length xs) cells) in
        let copied : copy_cells v.length 0 v.data_cells cells ≡ ok (xs ++ to) = rw h.stored (
          rw (take-append-drop (length xs) cells) at (
            copy_cells-append xs [] h.spare [] old to 0 v.length refl refl h.counted old_length)) in
        rw (e, reserve, le_test, copied)
          (returns (
            record {
              spare = to;
              stored = refl;
              counted = h.counted;
              room = omega (arith, length-drop (length xs) cells);
              fits = le;
              small = omega (arith, k.bounded (bytes_for n) cells e);
            },
            refl,
            (refl, refl),
          ))
  ]
    where
      le_test : ltb n v.length ≡ false
      le_test = ground (arith, h.counted)

  -- A full vector gets at least one free cell.
  pub reserve-grown :
      Holds v xs
      → v.capacity ≤ v.length
      → Ends
          (λ w. Holds w xs × (length xs < w.capacity) × SameDrops v w)
          (OutOfMemory k)
          (reserve k v (grown v))
  reserve-grown h full =
      Ends-mono (reserve-Holds (grown v) h (omega (arith, more)) (ground (arith, h.small, h.fits)))
        λ w (hw, cap, same). (hw, omega (arith, more), same)
    where
      more : length xs < grown v
      more = ground (arith, h.counted, h.fits, h.small)

  -- On a vector in good order, `vec_push_back` appends the element, growing the storage where it
  -- is full. It is fatal only for want of memory.
  pub push_back-Holds :
      (x : Ptr)
      → Holds v xs
      → Ends (λ w. Holds w (xs ++ x ∷ []) × SameDrops v w) (OutOfMemory k) (push_back k v x)
  unfolding push_back
  push_back-Holds x h = elim (Bool-cases (leb v.capacity v.length)) [
    | inl full ↦ rw full (
        Ends-bind (reserve-grown h (leb→le _ _ full)) λ w (hw, lt, same).
          Ends-mono (append_within-Holds xs x hw lt)
            λ u (hu, same'). (hu, (same'.0 ∙ same.0, same'.1 ∙ same.1)))
    | inr free ↦ rw free (append_within-Holds xs x h (ground (arith, h.counted)))
  ]

-- On a vector in good order that is not empty, `vec_pop_back` takes the last element off and hands
-- it out if it is asked to.
pub pop_back-Holds :
    {v : Vec} (out : Bool) (xs : List Ptr) (x : Ptr)
    → Holds v (xs ++ x ∷ [])
    → Ends
        (λ (w, took, got).
          Holds w xs × (took ≡ true) × (got ≡ (if out then some x else none)) × SameDrops v w)
        ⊥
        (pop_back out v)
unfolding pop_back
pop_back-Holds {v} out xs x h = elim (Bool-cases out) [
  | inl wanted ↦ rw (wanted, more, there) (returns (shorter, refl, refl, (refl, refl)))
  | inr unwanted ↦ rw (unwanted, more) (returns (shorter, refl, refl, (refl, refl)))
]
  where
    count : v.length ≡ suc (length xs)
    count = h.counted ∙ length-snoc xs x

    more : (v.length == 0) ≡ false
    more = ground (arith, count)

    last : v.length - 1 ≡ length xs
    last = omega (arith, count)

    there : load v.data_cells (v.length - 1) ≡ ok x
    there = rw (h.stored, append_assoc) (load-append xs x h.spare _ last)

    shorter : Holds (record v { length = v.length - 1 }) xs
    shorter = record {
      spare = x ∷ h.spare;
      stored = h.stored ∙ sym (append-cons xs x h.spare);
      counted = last;
      room = omega (arith, h.room, length-snoc xs x);
      fits = omega (arith, h.fits, length-snoc xs x);
      small = h.small;
    }

-- On an empty vector it says so, changes nothing, and hands out NULL.
pub pop_back-empty :
    {v : Vec} (out : Bool)
    → Holds v []
    → pop_back out v ≡ ok (v, false, if out then some null else none)
unfolding pop_back
pop_back-empty out h = rw h.counted
