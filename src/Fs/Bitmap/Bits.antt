-- ===== src/Fs/Bitmap/Bits.antt =====
-- The bits of a block of a bitmap, and what changing one of them does to the others.
use os_pi_is_cool.Base.{
  ℕ, zero, suc, ◌+◌, ◌-◌, ◌*◌, ◌/◌, ◌%◌, ◌<◌, ◌≤◌, ◌≡◌, ◌≢◌, refl, subst, sym, ap, ◌∙◌, bit_and,
  bit_or, Bool, true, false, not, ◌&&◌, if◌then◌else◌, ◌==◌, ltb, ltb→lt, Bool-cases, inl, inr,
  List, [], ◌∷◌, length, get_or, set, length-set, ok, ◌>>=◌, store, load-get_or, store-set, arith,
}
use os_pi_is_cool.Fs.Bitmap.{mask, change_bit}

-- Whether a bit of a byte is set, the most significant first.
abbrev pub test_bit : ℕ → ℕ → Bool
test_bit byte bit = not (bit_and byte (mask bit) == 0)

-- Whether a bit of a block is set.
abbrev pub bit_at : List ℕ → ℕ → Bool
bit_at [] k = false
bit_at (b ∷ bs) k = if ltb k 8 then test_bit b k else bit_at bs (k - 8)

-- All numbers are bytes.
abbrev pub AreBytes : List ℕ → Type 0
AreBytes [] = Unit
AreBytes (b ∷ bs) = b < 256 × AreBytes bs

if_true : {A : Type 0} (b : Bool) (x y : A) → b ≡ true → (if b then x else y) ≡ x
if_true true x y h = refl
if_true false x y h = absurd cc

if_false : {A : Type 0} (b : Bool) (x y : A) → b ≡ false → (if b then x else y) ≡ y
if_false false x y h = refl
if_false true x y h = absurd cc

-- Whether numbers under a bound all pass.
every : (ℕ → Bool) → ℕ → Bool
every p zero = true
every p (suc n) = let rest = every p n in if p n then rest else false

passes : (p : ℕ → Bool) (n : ℕ) → every p n ≡ true → (k : ℕ) → k < n → p k ≡ true
unfolding every
passes p zero h k l = absurd (omega arith)
passes p (suc n) h k l = elim (Bool-cases (p n)) [
  | inl t ↦ elim (Bool-cases (k == n)) [
    | inl e ↦ subst (λ z. p z ≡ true) (ground arith) t
    | inr e ↦ passes p n (sym (if_true (p n) (every p n) false t) ∙ h) k (ground arith)
  ]
  | inr t ↦ absurd (cc (sym (if_false (p n) (every p n) false t) ∙ h))
]

-- A byte with one bit written.
abbrev pub with_bit : Bool → ℕ → ℕ → ℕ
with_bit v byte bit = if v then bit_or byte (mask bit) else bit_and byte (255 - mask bit)

same : Bool → Bool → Bool
same true b = b
same false b = not b

same_lem : (a b : Bool) → same a b ≡ true → a ≡ b
unfolding same
same_lem true b h = sym h
same_lem false false h = refl
same_lem false true h = absurd cc

-- The written bit has the value, the others are as before, and the byte is a byte.
byte_case : Bool → ℕ → ℕ → ℕ → Bool
byte_case v byte bit other =
    same (test_bit (with_bit v byte bit) other) (if other == bit then v else test_bit byte other)
    && ltb (with_bit v byte bit) 256

-- The 256 bytes, each with a bit written and a bit read.
byte_table :
    (every (λ b. every (λ i. every (byte_case true b i) 8) 8) 256 ≡ true)
    × (every (λ b. every (λ i. every (byte_case false b i) 8) 8) 256 ≡ true)
unfolding every byte_case same
byte_table = (refl, refl)

full_table : every (test_bit 0xff) 8 ≡ true
unfolding every
full_table = refl

-- Of the byte 0xff all bits are set.
pub full_byte : (i : ℕ) → i < 8 → test_bit 0xff i ≡ true
full_byte i h = passes (test_bit 0xff) 8 full_table i h

and_true : (a b : Bool) → (a && b) ≡ true → (a ≡ true) × (b ≡ true)
and_true true b h = (refl, h)
and_true false b h = absurd cc

byte_case-true : (v : Bool) (b i j : ℕ) → b < 256 → i < 8 → j < 8 → byte_case v b i j ≡ true
byte_case-true true b i j p q r = passes _ 8 (passes _ 8 (passes _ 256 byte_table.0 b p) i q) j r
byte_case-true false b i j p q r = passes _ 8 (passes _ 8 (passes _ 256 byte_table.1 b p) i q) j r

with_bit_lem :
    (v : Bool) (b i j : ℕ)
    → b < 256
    → i < 8
    → j < 8
    → (test_bit (with_bit v b i) j ≡ (if j == i then v else test_bit b j)) × with_bit v b i < 256
unfolding byte_case
with_bit_lem v b i j p q r =
    let h = and_true _ _ (byte_case-true v b i j p q r) in (same_lem _ _ h.0, ltb→lt _ _ h.1)

-- The bytes with one bit written.
pub written_bit : Bool → List ℕ → ℕ → ℕ → List ℕ
written_bit v bs a i = set bs a (with_bit v (get_or bs a 0) i)

pub bit_at_head : (b : ℕ) (bs : List ℕ) (k : ℕ) → k < 8 → bit_at (b ∷ bs) k ≡ test_bit b k
bit_at_head b bs k h = if_true (ltb k 8) _ _ (ground arith)

pub bit_at_tail : (b : ℕ) (bs : List ℕ) (k : ℕ) → bit_at (b ∷ bs) (8 + k) ≡ bit_at bs k
bit_at_tail b bs k = if_false (ltb (8 + k) 8) _ _ (ground arith) ∙ ap (bit_at bs) (omega arith)

-- A bit past the first byte.
pub past_byte : (k : ℕ) → 8 ≤ k → (j : ℕ) × (k ≡ 8 + j)
past_byte k h = (k - 8, omega arith)

-- The written bit.
pub written_bit_self :
    (v : Bool) (bs : List ℕ) (a i : ℕ)
    → AreBytes bs
    → a < length bs
    → i < 8
    → bit_at (written_bit v bs a i) (a * 8 + i) ≡ v
unfolding written_bit
written_bit_self v [] a i w h q = absurd (omega arith)
written_bit_self v (b ∷ bs) zero i w h q =
    ap (bit_at (with_bit v b i ∷ bs)) (omega arith)
    ∙ bit_at_head (with_bit v b i) bs i q
    ∙ (with_bit_lem v b i i w.0 q q).0
    ∙ if_true (i == i) _ _ (ground arith)
written_bit_self v (b ∷ bs) (suc a) i w h q =
    ap (bit_at (b ∷ written_bit v bs a i)) (omega arith)
    ∙ bit_at_tail b (written_bit v bs a i) (a * 8 + i)
    ∙ written_bit_self v bs a i w.1 (omega arith) q

-- The other bits.
pub written_bit_other :
    (v : Bool) (bs : List ℕ) (a i k : ℕ)
    → AreBytes bs
    → i < 8
    → k ≢ a * 8 + i
    → bit_at (written_bit v bs a i) k ≡ bit_at bs k
unfolding written_bit
written_bit_other v [] a i k w q n = refl
written_bit_other v (b ∷ bs) zero i k w q n = elim (Bool-cases (ltb k 8)) [
  | inl t ↦
      let l : k < 8 = ground arith in
      bit_at_head (with_bit v b i) bs k l
      ∙ (with_bit_lem v b i k w.0 q l).0
      ∙ if_false (k == i) _ _ (ground arith)
      ∙ sym (bit_at_head b bs k l)
  | inr t ↦
      let (j, e) = past_byte k (ground arith) in
      ap (bit_at (with_bit v b i ∷ bs)) e
      ∙ bit_at_tail (with_bit v b i) bs j
      ∙ sym (bit_at_tail b bs j)
      ∙ ap (bit_at (b ∷ bs)) (sym e)
]
written_bit_other v (b ∷ bs) (suc a) i k w q n = elim (Bool-cases (ltb k 8)) [
  | inl t ↦
      let l : k < 8 = ground arith in
      bit_at_head b (written_bit v bs a i) k l ∙ sym (bit_at_head b bs k l)
  | inr t ↦
      let (j, e) = past_byte k (ground arith) in
      ap (bit_at (b ∷ written_bit v bs a i)) e
      ∙ bit_at_tail b (written_bit v bs a i) j
      ∙ written_bit_other v bs a i j w.1 q (λ z. n (omega arith))
      ∙ sym (bit_at_tail b bs j)
      ∙ ap (bit_at (b ∷ bs)) (sym e)
]

pub written_bit-AreBytes :
    (v : Bool) (bs : List ℕ) (a i : ℕ) → AreBytes bs → i < 8 → AreBytes (written_bit v bs a i)
unfolding written_bit
written_bit-AreBytes v [] a i w q = tt
written_bit-AreBytes v (b ∷ bs) zero i w q = ((with_bit_lem v b i 0 w.0 q (omega arith)).1, w.1)
written_bit-AreBytes v (b ∷ bs) (suc a) i w q = (w.0, written_bit-AreBytes v bs a i w.1 q)

-- `change_bit` writes the bit and no other, inside the block.
pub change_bit_lem :
    (v : Bool) (bs : List ℕ) (k : ℕ)
    → k < length bs * 8
    → change_bit v bs k ≡ ok (written_bit v bs (k / 8) (k % 8))
unfolding change_bit written_bit
change_bit_lem v bs k h =
    ap (λ r. r >>= λ b. store bs (k / 8) (with_bit v b (k % 8)))
      (load-get_or bs (k / 8) 0 (omega arith))
    ∙ store-set bs (k / 8) (with_bit v (get_or bs (k / 8) 0) (k % 8)) (omega arith)

pub length-written_bit :
    (v : Bool) (bs : List ℕ) (a i : ℕ) → length (written_bit v bs a i) ≡ length bs
unfolding written_bit
length-written_bit v bs a i = length-set bs a (with_bit v (get_or bs a 0) i)
