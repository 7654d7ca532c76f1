-- ===== src/Fs/Bytes/Read.antt =====
-- The reads from a buffer stay in it.
use os_pi_is_cool.Base.{
  ℕ, zero, suc, ◌+◌, ◌<◌, ◌≤◌, ◌≡◌, sym, subst, Option, none, some, Option-cases, inl, inr, List,
  [], ◌∷◌, length, drop, length-append, length-drop, Run, ok, ◌>>=◌, Ends, returns, Ends-bind,
  Ends-if, load, not, ◌==◌, arith,
}
use os_pi_is_cool.Fs.Device.{Device}
use os_pi_is_cool.Fs.Bytes.{fill, read_into, read_le32, read_le64, bytes_equal}

-- A run that is no fault and not fatal.
abbrev pub Safe : {A : Type 0} → Run A → Type 0
Safe r = Ends (λ _. Unit) ⊥ r

pub Safe-bind :
    {A B : Type 0} {r : Run A} {f : A → Run B} → Safe r → ((a : A) → Safe (f a)) → Safe (r >>= f)
Safe-bind h k = Ends-bind h (λ a _. k a)

pub load-Safe : {A : Type 0} (xs : List A) (i : ℕ) → i < length xs → Safe (load xs i)
load-Safe [] i h = absurd (omega arith)
load-Safe (x ∷ xs) zero h = returns tt
load-Safe (x ∷ xs) (suc i) h = load-Safe xs i (omega arith)

pub read_le32-Safe : (buf : List ℕ) (at : ℕ) → at + 4 ≤ length buf → Safe (read_le32 buf at)
unfolding read_le32
read_le32-Safe buf at h = Safe-bind (load-Safe buf at (omega arith)) (λ b0.
    Safe-bind (load-Safe buf (at + 1) (omega arith)) (λ b1.
      Safe-bind (load-Safe buf (at + 2) (omega arith))
        (λ b2. Safe-bind (load-Safe buf (at + 3) (omega arith)) (λ b3. returns tt))))

pub read_le64-Safe : (buf : List ℕ) (at : ℕ) → at + 8 ≤ length buf → Safe (read_le64 buf at)
unfolding read_le64
read_le64-Safe buf at h =
    Safe-bind (read_le32-Safe buf at (omega arith))
      (λ low. Safe-bind (read_le32-Safe buf (at + 4) (omega arith)) (λ high. returns tt))

pub bytes_equal-Safe :
    (buf : List ℕ) (at : ℕ) (ys : List ℕ)
    → at + length ys ≤ length buf
    → Safe (bytes_equal buf at ys)
unfolding bytes_equal
bytes_equal-Safe buf at [] h = returns tt
bytes_equal-Safe buf at (y ∷ ys) h = Safe-bind (load-Safe buf at (omega arith)) (λ x.
    Ends-if (not (x == y)) (λ _. returns tt) (λ _. bytes_equal-Safe buf (at + 1) ys (omega arith)))

-- The driver stores one block, of the size that it tells.
abbrev pub IsSized : Device → Type 0
IsSized d = (n : ℕ) (bytes : List ℕ) → d.block_read n ≡ some bytes → length bytes ≡ d.block_get_size

-- A read into a buffer keeps its length.
pub fill-length :
    (bytes buf : List ℕ) → length bytes ≤ length buf → length (fill bytes buf) ≡ length buf
fill-length bytes buf h =
    omega (arith, length-append bytes (drop (length bytes) buf), length-drop (length bytes) buf)

-- How a read into a buffer ends.
pub data ReadInto (d : Device) (buf : List ℕ) : Option (List ℕ) → Type 0 where
  filled : {buf' : List ℕ} → length buf' ≡ length buf → ReadInto d buf (some buf')
  failed : (n : ℕ) → d.block_read n ≡ none → ReadInto d buf none

pub read_into_lem :
    (d : Device) (n : ℕ) (buf : List ℕ)
    → IsSized d
    → d.block_get_size ≤ length buf
    → ReadInto d buf (read_into d n buf)
read_into_lem d n buf w h = elim (Option-cases (d.block_read n)) [
  | inl e ↦
      subst (λ o. ReadInto d buf (elim o [ none ↦ none | some bytes ↦ some (fill bytes buf) ]))
        (sym e) (failed n e)
  | inr (bytes, e) ↦
      subst (λ o. ReadInto d buf (elim o [ none ↦ none | some bytes ↦ some (fill bytes buf) ]))
        (sym e) (filled (fill-length bytes buf (omega (arith, w n bytes e))))
]

-- What a caller does with it.
pub ReadInto-Ends :
    {A : Type 0} {d : Device} {buf : List ℕ} {o : Option (List ℕ)} {P : A → Type 0} {bad : A}
    {f : List ℕ → Run A}
    → ReadInto d buf o
    → ((buf' : List ℕ) → length buf' ≡ length buf → Ends P ⊥ (f buf'))
    → ((n : ℕ) → d.block_read n ≡ none → P bad)
    → Ends P ⊥ (elim o [ none ↦ ok bad | some buf' ↦ f buf' ])
ReadInto-Ends (filled {buf'} h) k l = k buf' h
ReadInto-Ends (failed n h) k l = returns (l n h)
