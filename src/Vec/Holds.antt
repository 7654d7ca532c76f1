-- ===== src/Vec/Holds.antt =====
-- What a vector of vec.c stands for: the elements below `length`, in order.
use os_pi_is_cool.Base.{
  ℕ, ◌+◌, ◌^◌, ◌≤◌, ◌≡◌, refl, List, [], ◌∷◌, ◌++◌, arith, Bool, false, length, leb, load, inl, inr,
  Option-cases, append_assoc, length-append, store-append, ok, Ends, returns, stops, load-append,
  Ptr, Allocator, OutOfMemory,
}
use os_pi_is_cool.Vec.{Vec, bytes_for, vec_new, get, set, drop_elem}

pub record Holds (v : Vec) (xs : List Ptr) : Type 0 where
  pub spare : List Ptr
  pub stored : v.data_cells ≡ xs ++ spare
  pub counted : v.length ≡ length xs
  pub room : v.capacity ≤ length xs + length spare
  pub fits : length xs ≤ v.capacity
  pub small : v.capacity ≤ 2 ^ 45

-- The destructor and what it was called with are as before.
abbrev pub SameDrops : Vec → Vec → Type 0
SameDrops v w = (w.dtor ≡ v.dtor) × (w.dropped ≡ v.dropped)

-- `vec_new` of a capacity up to 2^45 gives an empty vector that remembers whether there is a
-- destructor. It is fatal only for want of memory.
pub vec_new-Holds :
    (k : Allocator) (n : ℕ) (dtor : Bool)
    → n ≤ 2 ^ 45
    → Ends (λ v. Holds v [] × (v.dtor ≡ dtor) × (v.dropped ≡ [])) (OutOfMemory k) (vec_new k n dtor)
unfolding vec_new
vec_new-Holds k n dtor small = elim (Option-cases (k.alloc (bytes_for n))) [
  | inl e ↦ rw (e, vec_new) (stops (_, e))
  | inr (cells, e) ↦
      rw (e, vec_new)
        (returns (
          record {
            spare = cells;
            stored = refl;
            counted = refl;
            room = omega (arith, k.covers (bytes_for n) cells e);
            fits = omega arith;
            small = small;
          },
          refl,
          refl,
        ))
]

module _ {v : Vec} (xs : List Ptr) (x : Ptr) (ys : List Ptr) (i : ℕ) where
  -- The test `index >= length` fails at an element, and the element is at its place.
  pub at_elem :
      Holds v (xs ++ x ∷ ys)
      → i ≡ length xs
      → (leb v.length i ≡ false) × (load v.data_cells i ≡ ok x)
  at_elem h e = (
    ground (arith, h.counted, length-append xs (x ∷ ys)),
    rw (h.stored, append_assoc) (load-append xs x (ys ++ h.spare) i e),
  )

  -- On a vector in good order, `vec_get` at an index below the length returns the element there.
  pub get-Holds : Holds v (xs ++ x ∷ ys) → i ≡ length xs → get v i ≡ ok x
  unfolding get
  get-Holds h e = let (inside, there) = at_elem h e in rw (inside) there

  -- On a vector in good order, `vec_set` at an index below the length replaces the element there
  -- alone, and calls the destructor, if there is one, on the old one.
  pub set-Holds :
      (y : Ptr)
      → Holds v (xs ++ x ∷ ys)
      → i ≡ length xs
      → Ends
          (λ w. Holds w (xs ++ y ∷ ys) × (w.dtor ≡ v.dtor) × (w.dropped ≡ drop_elem v x))
          ⊥
          (set v i y)
  unfolding set
  set-Holds y h e =
      let (inside, there) = at_elem h e in
      rw (inside, there, h.stored, append_assoc, store-append xs x (ys ++ h.spare) i y e)
        (returns (
          record {
            spare = h.spare;
            stored = rw append_assoc;
            counted =
                omega (arith, h.counted, length-append xs (x ∷ ys), length-append xs (y ∷ ys));
            room = omega (arith, h.room, length-append xs (x ∷ ys), length-append xs (y ∷ ys));
            fits = omega (arith, h.fits, length-append xs (x ∷ ys), length-append xs (y ∷ ys));
            small = h.small;
          },
          refl,
          refl,
        ))
