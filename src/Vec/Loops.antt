-- ===== src/Vec/Loops.antt =====
-- The loops of `vec_insert`, `vec_erase` and `vec_clear` on storage that is split at the index.
use os_pi_is_cool.Base.{
  ℕ, zero, suc, ◌+◌, ◌≡◌, refl, ap, List, [], ◌∷◌, ◌++◌, arith, length, append-nil, length-snoc,
  append-cons, load-append, store-append, ok, Ptr,
}
use os_pi_is_cool.Vec.{shift_up, shift_down, drop_cells}

-- One round after the other the carried element changes places with the next one.
pub shift_up-append :
    (xs pre rest : List Ptr) (i n t : ℕ)
    → i ≡ length pre
    → n ≡ length xs
    → (u : Ptr) × (ys : List Ptr) × (shift_up n i t (pre ++ (xs ++ rest))
        ≡ ok (u, pre ++ (ys ++ rest)))
      × (ys ++ u ∷ [] ≡ t ∷ xs)
unfolding shift_up
shift_up-append [] pre rest i zero t e c = (t, [], refl, refl)
shift_up-append [] pre rest i (suc n) t e c = absurd (omega arith)
shift_up-append (x ∷ xs) pre rest i zero t e c = absurd (omega arith)
shift_up-append (x ∷ xs) pre rest i (suc n) t e c =
    let (u, ys, run, moved) =
      shift_up-append xs (pre ++ t ∷ []) rest (i + 1) n x (omega (arith, length-snoc pre t))
        (omega arith) in
    (
      u,
      t ∷ ys,
      rw
          (
            load-append pre x (xs ++ rest) i e,
            store-append pre x (xs ++ rest) i t e,
            append-cons pre t (xs ++ rest),
            append-cons pre t (ys ++ rest),
          )
          run,
      ap (λ zs. t ∷ zs) moved,
    )

pub shift_down-append :
    (ys pre rest : List Ptr) (i n x : ℕ)
    → i ≡ length pre
    → n ≡ length ys
    → (z : Ptr) × (shift_down n i (pre ++ x ∷ (ys ++ rest)) ≡ ok (pre ++ (ys ++ z ∷ rest)))
unfolding shift_down
shift_down-append [] pre rest i zero x e c = (x, refl)
shift_down-append [] pre rest i (suc n) x e c = absurd (omega arith)
shift_down-append (y ∷ ys) pre rest i zero x e c = absurd (omega arith)
shift_down-append (y ∷ ys) pre rest i (suc n) x e c =
    let next : i + 1 ≡ length (pre ++ x ∷ []) = omega (arith, length-snoc pre x) in
    let next' : i + 1 ≡ length (pre ++ y ∷ []) = omega (arith, length-snoc pre y) in
    let (z, run) = shift_down-append ys (pre ++ y ∷ []) rest (i + 1) n y next' (omega arith) in
    (
      z,
      rw
          (
            append-cons pre x (y ∷ (ys ++ rest)),
            load-append (pre ++ x ∷ []) y (ys ++ rest) (i + 1) next,
            ← append-cons pre x (y ∷ (ys ++ rest)),
            store-append pre x (y ∷ (ys ++ rest)) i y e,
            append-cons pre y (y ∷ (ys ++ rest)),
            append-cons pre y (ys ++ z ∷ rest),
          )
          run,
    )

pub drop_cells-append :
    (xs pre rest dropped : List Ptr) (i n : ℕ)
    → i ≡ length pre
    → n ≡ length xs
    → drop_cells n i (pre ++ (xs ++ rest)) dropped ≡ ok (dropped ++ xs)
unfolding drop_cells
drop_cells-append [] pre rest dropped i zero e c = rw append-nil
drop_cells-append [] pre rest dropped i (suc n) e c = absurd (omega arith)
drop_cells-append (x ∷ xs) pre rest dropped i zero e c = absurd (omega arith)
drop_cells-append (x ∷ xs) pre rest dropped i (suc n) e c =
    rw
      (load-append pre x (xs ++ rest) i e, append-cons pre x (xs ++ rest), append-cons dropped x xs)
      (drop_cells-append xs (pre ++ x ∷ []) rest (dropped ++ x ∷ []) (i + 1) n
        (omega (arith, length-snoc pre x)) (omega arith))
