-- ===== src/Vec/Shift.antt =====
-- `vec_insert`, `vec_erase` and `vec_clear` on a vector in good order.
use os_pi_is_cool.Base.{
  ℕ, suc, ◌+◌, ◌-◌, ◌<◌, ◌≡◌, refl, sym, ap, ◌∙◌, List, [], ◌∷◌, ◌++◌, arith, Bool, true, false,
  length, inl, inr, Bool-cases, leb, ltb, ◌==◌, append_assoc, append-nil, length-append,
  length-snoc, append-cons, cons_of_pos, load, load-append, store-append, ok, Ends, returns,
  Ends-bind, Ends-mono, Ptr, Allocator, OutOfMemory, if◌then◌else◌,
}
use os_pi_is_cool.Vec.{Vec, insert_within, insert, shift_down, erase, drop_elem, drop_cells, clear}
use os_pi_is_cool.Vec.Holds.{Holds, SameDrops, at_elem}
use os_pi_is_cool.Vec.Grow.{push_back-Holds, reserve-grown}
use os_pi_is_cool.Vec.Loops.{shift_up-append, shift_down-append, drop_cells-append}

inserted_cells :
    (xs zs ys rest : List Ptr) (x u y : Ptr)
    → zs ++ u ∷ [] ≡ y ∷ ys
    → (xs ++ x ∷ []) ++ zs ++ u ∷ rest ≡ (xs ++ x ∷ y ∷ ys) ++ rest
inserted_cells xs zs ys rest x u y moved = rw (← moved) (simp append_assoc)

insert_within-Holds :
    {v : Vec} (xs : List Ptr) (y : Ptr) (ys : List Ptr) {F : Type 0} (i : ℕ) (x : Ptr)
    → Holds v (xs ++ y ∷ ys)
    → i ≡ length xs
    → length (xs ++ y ∷ ys) < v.capacity
    → Ends (λ w. Holds w (xs ++ x ∷ y ∷ ys) × SameDrops v w) F (insert_within v i x)
unfolding insert_within
insert_within-Holds {v} xs y ys i x h e lt =
    let (z, rest, split) = cons_of_pos h.spare (omega (arith, h.room)) in
    let pre = xs ++ x ∷ [] in
    let start : i + 1 ≡ length pre = omega (arith, length-snoc xs x) in
    let rounds : v.length - (i + 1) ≡ length ys = omega (arith, h.counted, count) in
    let (u, zs, run, moved) = shift_up-append ys pre (z ∷ rest) (i + 1) _ y start rounds in
    let end : v.length ≡ length (pre ++ zs) =
      omega
        (arith, h.counted, count, start, length-append pre zs, length-snoc zs u, ap length moved) in
    rw
      (
        h.stored,
        split,
        append_assoc,
        load-append xs y (ys ++ z ∷ rest) i e,
        store-append xs y (ys ++ z ∷ rest) i x e,
        append-cons xs x (ys ++ z ∷ rest),
        run,
        ← append_assoc pre zs (z ∷ rest),
        store-append (pre ++ zs) z rest v.length u end,
      )
      (returns (
        record {
          spare = rest;
          stored = inserted_cells xs zs ys rest x u y moved;
          counted = omega (arith, h.counted, h.fits, h.small, count, count');
          room = omega (arith, h.room, ap length split, count, count');
          fits = omega (arith, count, count');
          small = h.small;
        },
        (refl, refl),
      ))
  where
    count : length (xs ++ y ∷ ys) ≡ length xs + suc (length ys)
    count = length-append xs (y ∷ ys)

    count' : length (xs ++ x ∷ y ∷ ys) ≡ length xs + suc (suc (length ys))
    count' = length-append xs (x ∷ y ∷ ys)

-- On a vector in good order, `vec_insert` at an index up to the length puts the element there and
-- moves those from there on up by one place. It is fatal only for want of memory.
pub insert-Holds :
    (k : Allocator) {v : Vec} (xs ys : List Ptr) (i : ℕ) (x : Ptr)
    → Holds v (xs ++ ys)
    → i ≡ length xs
    → Ends (λ w. Holds w (xs ++ x ∷ ys) × SameDrops v w) (OutOfMemory k) (insert k v i x)
unfolding insert
insert-Holds k {v} xs [] i x h e =
    let held : Holds v xs = rw append-nil at h in
    let last : (i == v.length) ≡ true = ground (arith, held.counted) in
    rw last (push_back-Holds k x held)
insert-Holds k {v} xs (y ∷ ys) i x h e =
    rw (inner, inside)
      (elim (Bool-cases (v.length == v.capacity)) [
        | inl full ↦ rw full (
            Ends-bind (reserve-grown k h (ground arith)) λ w (hw, lt, same).
              Ends-mono (insert_within-Holds xs y ys i x hw e lt)
                λ u (hu, same'). (hu, (same'.0 ∙ same.0, same'.1 ∙ same.1)))
        | inr free ↦
            rw free (insert_within-Holds xs y ys i x h e (ground (arith, h.counted, h.fits)))
      ])
  where
    count : length (xs ++ y ∷ ys) ≡ length xs + suc (length ys)
    count = length-append xs (y ∷ ys)

    inner : (i == v.length) ≡ false
    inner = ground (arith, h.counted, count)

    inside : ltb v.length i ≡ false
    inside = ground (arith, h.counted, count)

-- On a vector in good order, `vec_erase` at an index below the length takes out the element there,
-- moves those behind it down by one place, and calls the destructor, if there is one, on the
-- element.
pub erase-Holds :
    {v : Vec} (xs : List Ptr) (x : Ptr) (ys : List Ptr) (i : ℕ)
    → Holds v (xs ++ x ∷ ys)
    → i ≡ length xs
    → Ends (λ w. Holds w (xs ++ ys) × (w.dtor ≡ v.dtor) × (w.dropped ≡ drop_elem v x)) ⊥ (erase v i)
unfolding erase
erase-Holds {v} xs x ys i h e = elim (Bool-cases v.dtor) [
  | inl some_dtor ↦ rw (inside, some_dtor, there, cells, run) (returns (shorter _ _, refl, refl))
  | inr no_dtor ↦ rw (inside, no_dtor, cells, run) (returns (shorter _ _, refl, refl))
]
  where
    inside : leb v.length i ≡ false
    inside = (at_elem xs x ys i h e).0

    there : load v.data_cells i ≡ ok x
    there = (at_elem xs x ys i h e).1

    count : length (xs ++ x ∷ ys) ≡ length xs + suc (length ys)
    count = length-append xs (x ∷ ys)

    moved :
        (z : Ptr) × (shift_down (v.length - 1 - i) i (xs ++ x ∷ (ys ++ h.spare))
          ≡ ok (xs ++ (ys ++ z ∷ h.spare)))
    moved = shift_down-append ys xs h.spare i _ x e (omega (arith, h.counted, count))

    cells : v.data_cells ≡ xs ++ x ∷ (ys ++ h.spare)
    cells = h.stored ∙ append_assoc xs (x ∷ ys) h.spare

    run :
        shift_down (v.length - 1 - i) i (xs ++ x ∷ (ys ++ h.spare))
        ≡ ok (xs ++ (ys ++ moved.0 ∷ h.spare))
    run = moved.1

    shorter :
        (d : Bool) (l : List Ptr)
        → Holds
            (record {
              data_cells = xs ++ (ys ++ moved.0 ∷ h.spare);
              length = v.length - 1;
              capacity = v.capacity;
              dtor = d;
              dropped = l;
            })
            (xs ++ ys)
    shorter d l = record {
      spare = moved.0 ∷ h.spare;
      stored = sym (append_assoc xs ys (moved.0 ∷ h.spare));
      counted = omega (arith, h.counted, count, length-append xs ys);
      room = omega (arith, h.room, count, length-append xs ys);
      fits = omega (arith, h.fits, count, length-append xs ys);
      small = h.small;
    }

-- On a vector in good order, `vec_clear` leaves no element, and calls the destructor, if there is
-- one, once on each, in order.
pub clear-Holds :
    {v : Vec} (xs : List Ptr)
    → Holds v xs
    → Ends
        (λ w.
          Holds w []
          × (w.dtor ≡ v.dtor)
          × (w.dropped ≡ (if v.dtor then v.dropped ++ xs else v.dropped)))
        ⊥
        (clear v)
unfolding clear
clear-Holds {v} xs h = elim (Bool-cases v.dtor) [
  | inl some_dtor ↦ rw (some_dtor, run) (returns (cleared _ _, refl, refl))
  | inr no_dtor ↦ rw no_dtor (returns (cleared _ _, refl, refl))
]
  where
    run : drop_cells v.length 0 v.data_cells v.dropped ≡ ok (v.dropped ++ xs)
    run = rw h.stored (drop_cells-append xs [] h.spare v.dropped 0 v.length refl h.counted)

    cleared : (d : Bool) (l : List Ptr) → Holds (record v { length = 0; dtor = d; dropped = l }) []
    cleared d l = record {
      spare = v.data_cells;
      stored = refl;
      counted = refl;
      room = omega (arith, h.room, ap length h.stored, length-append xs h.spare);
      fits = omega arith;
      small = h.small;
    }
