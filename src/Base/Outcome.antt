-- ===== src/Base/Outcome.antt =====
-- How a call of kernel code ends, and C arrays whose accesses are checked.
use Prim.Native.Nat.{ℕ, zero, suc, ◌<◌}
use mathlib.Core.Path.{◌≡◌, refl, ap, subst}
use mathlib.Core.Bool.{Bool, true, false}
use mathlib.Core.List.{List, [], ◌∷◌, ◌++◌}
use native.Mathlib.Omega.{arith}
use os_pi_is_cool.Base.Lists.{length, get_or, set}
use os_pi_is_cool.Base.Tests.{if◌then◌else◌}

-- `fatal`: `fatal_exception` was called, which stops the kernel.
-- `fault`: an access outside the object's storage, or through NULL.
pub data Run (A : Type 0) : Type 0 where
  ok : A → Run A
  fatal : Run A
  fault : Run A

infixl 5 ◌>>=◌
abbrev pub ◌>>=◌ : {A B : Type 0} → Run A → (A → Run B) → Run B
ok a >>= f = f a
fatal >>= f = fatal
fault >>= f = fault

-- The run is no fault; if it returns, the value has `P`; it is fatal only if `F`.
pub data Ends {A : Type 0} (P : A → Type 0) (F : Type 0) : Run A → Type 0 where
  returns : {a : A} → P a → Ends P F (ok a)
  stops : F → Ends P F fatal

pub Ends-mono :
    {A : Type 0} {P Q : A → Type 0} {F : Type 0} {r : Run A}
    → Ends P F r
    → ((a : A) → P a → Q a)
    → Ends Q F r
Ends-mono (returns {a} h) k = returns (k a h)
Ends-mono (stops h) k = stops h

pub Ends-bind :
    {A B : Type 0} {P : A → Type 0} {Q : B → Type 0} {F : Type 0} {r : Run A} {f : A → Run B}
    → Ends P F r
    → ((a : A) → P a → Ends Q F (f a))
    → Ends Q F (r >>= f)
Ends-bind (returns {a} h) k = k a h
Ends-bind (stops h) k = stops h

-- The run is a return: the value, and its property.
pub Ends-value : {A : Type 0} {P : A → Type 0} {r : Run A} → Ends P ⊥ r → (a : A) × (r ≡ ok a) × P a
Ends-value (returns {a} h) = (a, refl, h)
Ends-value (stops h) = absurd h

-- A run that always returns may be said to stop for any reason.
pub Ends-any : {A : Type 0} {P : A → Type 0} {F : Type 0} {r : Run A} → Ends P ⊥ r → Ends P F r
Ends-any (returns h) = returns h
Ends-any (stops h) = absurd h

pub Ends-ok :
    {A : Type 0} {P : A → Type 0} {F : Type 0} {r : Run A} {a : A} → Ends P F r → r ≡ ok a → P a
Ends-ok {P} (returns {a = b} h) e = subst P (cc) h
Ends-ok (stops h) e = cc

-- A run whose value was changed by a function, without it.
pub Ends-unmap :
    {A B : Type 0} {P : B → Type 0} {F : Type 0} {f : A → B} (r : Run A)
    → Ends P F (r >>= λ a. ok (f a))
    → Ends (λ a. P (f a)) F r
Ends-unmap (ok a) h = returns (Ends-ok h refl)
Ends-unmap fatal (stops h) = stops h
Ends-unmap fault h = elim h [ ]

-- The run of a conditional, by its two branches.
pub Ends-if :
    {A : Type 0} {P : A → Type 0} {F : Type 0} (b : Bool) {r s : Run A}
    → (b ≡ true → Ends P F r)
    → (b ≡ false → Ends P F s)
    → Ends P F (if b then r else s)
Ends-if true p q = p refl
Ends-if false p q = q refl

module _ {A : Type 0} where
  -- `a[i]`
  abbrev pub load : List A → ℕ → Run A
  load [] i = fault
  load (x ∷ xs) zero = ok x
  load (x ∷ xs) (suc i) = load xs i

  -- `a[i] = v`
  abbrev pub store : List A → ℕ → A → Run (List A)
  store [] i v = fault
  store (x ∷ xs) zero v = ok (v ∷ xs)
  store (x ∷ xs) (suc i) v = store xs i v >>= λ ys. ok (x ∷ ys)

  -- An access at the border of two parts of the array.
  pub load-append :
      (xs : List A) (x : A) (ys : List A) (i : ℕ) → i ≡ length xs → load (xs ++ x ∷ ys) i ≡ ok x
  load-append [] x ys zero h = refl
  load-append [] x ys (suc i) h = absurd (omega arith)
  load-append (z ∷ xs) x ys zero h = absurd (omega arith)
  load-append (z ∷ xs) x ys (suc i) h = load-append xs x ys i (omega arith)

  pub store-append :
      (xs : List A) (x : A) (ys : List A) (i : ℕ) (v : A)
      → i ≡ length xs
      → store (xs ++ x ∷ ys) i v ≡ ok (xs ++ v ∷ ys)
  store-append [] x ys zero v h = refl
  store-append [] x ys (suc i) v h = absurd (omega arith)
  store-append (z ∷ xs) x ys zero v h = absurd (omega arith)
  store-append (z ∷ xs) x ys (suc i) v h =
      ap (λ r. r >>= λ ws. ok (z ∷ ws)) (store-append xs x ys i v (omega arith))

  -- Inside the array a checked access is the plain one.
  pub load-get_or : (xs : List A) (i : ℕ) (d : A) → i < length xs → load xs i ≡ ok (get_or xs i d)
  load-get_or [] i d h = absurd (omega arith)
  load-get_or (x ∷ xs) zero d h = refl
  load-get_or (x ∷ xs) (suc i) d h = load-get_or xs i d (omega arith)

  pub store-set : (xs : List A) (i : ℕ) (v : A) → i < length xs → store xs i v ≡ ok (set xs i v)
  store-set [] i v h = absurd (omega arith)
  store-set (x ∷ xs) zero v h = refl
  store-set (x ∷ xs) (suc i) v h =
      ap (λ r. r >>= λ ys. ok (x ∷ ys)) (store-set xs i v (omega arith))
