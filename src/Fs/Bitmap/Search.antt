-- ===== src/Fs/Bitmap/Search.antt =====
-- The search of one block of a bitmap finds its first free bit.
use os_pi_is_cool.Base.{
  ℕ, zero, suc, ◌+◌, ◌-◌, ◌*◌, ◌<◌, ◌≤◌, ◌≡◌, refl, subst, ap, ◌∙◌, inl, inr, bit_and, min, Bool,
  true, false, not, ◌==◌, leb, ltb, if-elim, Bool-cases, Option, none, some, List, [], ◌∷◌, length,
  Run, ok, Ends, returns, Ends-mono, Ends-if, arith,
}
use os_pi_is_cool.Fs.Bitmap.{mask, find_in_byte, find_in_bytes}
use os_pi_is_cool.Fs.Bitmap.Bits.{test_bit, bit_at, bit_at_head, bit_at_tail, past_byte, full_byte}

-- The first number from `from` on and below `limit` that is not `taken`, told from `base` on.
pub data FirstFree (taken : ℕ → Bool) (from limit base : ℕ) : Option ℕ → Type 0 where
  free :
      {k n : ℕ}
      → n ≡ base + k
      → from ≤ k
      → k < limit
      → taken k ≡ false
      → ((j : ℕ) → from ≤ j → j < k → taken j ≡ true)
      → FirstFree taken from limit base (some n)
  full : ((j : ℕ) → from ≤ j → j < limit → taken j ≡ true) → FirstFree taken from limit base none

-- The first number, or a later one.
first_or : (p : ℕ → Type 0) (i j : ℕ) → i ≤ j → p i → (i + 1 ≤ j → p j) → p j
first_or p i j h t k = elim (Bool-cases (i == j)) [
  | inl e ↦ subst p (ground arith) t
  | inr e ↦ k (ground arith)
]

taken_first :
    (taken : ℕ → Bool) (i limit : ℕ) (o : Option ℕ)
    → taken i ≡ true
    → FirstFree taken (i + 1) limit 0 o
    → FirstFree taken i limit 0 o
taken_first taken i limit (some n) t (free e l m f a) =
    free e (omega arith) m f (λ j p q. first_or (λ z. taken z ≡ true) i j p t (λ r. a j r q))
taken_first taken i limit none t (full a) =
    full (λ j p q. first_or (λ z. taken z ≡ true) i j p t (λ r. a j r q))

find_in_byte_lem :
    (left i byte first valid : ℕ)
    → i + left ≡ 8
    → FirstFree (test_bit byte) i (min 8 (valid - first)) 0 (find_in_byte left i byte first valid)
unfolding find_in_byte
find_in_byte_lem zero i byte first valid h = full (λ j p q. absurd (omega arith))
find_in_byte_lem (suc left) i byte first valid h =
    let P = λ (o : Option ℕ). FirstFree (test_bit byte) i (min 8 (valid - first)) 0 o in
    if-elim P (leb valid (first + i)) (λ t. full (λ j p q. absurd (ground arith)))
      (λ t.
        if-elim P (bit_and byte (mask i) == 0)
          (λ u.
            free (omega arith) (omega arith) (ground arith) (ap not u)
              (λ j p q. absurd (omega arith)))
          (λ u.
            taken_first (test_bit byte) i _ _ (ap not u)
              (find_in_byte_lem left (i + 1) byte first valid (omega arith))))

-- A bit of the first byte, or a later one.
bit_or_later :
    (byte : ℕ) (bytes : List ℕ) (limit j : ℕ)
    → ((j : ℕ) → j < min 8 limit → test_bit byte j ≡ true)
    → ((i : ℕ) → j ≡ 8 + i → bit_at bytes i ≡ true)
    → j < limit
    → bit_at (byte ∷ bytes) j ≡ true
bit_or_later byte bytes limit j h k q = elim (Bool-cases (ltb j 8)) [
  | inl t ↦ bit_at_head byte bytes j (ground arith) ∙ h j (ground arith)
  | inr t ↦
      let (i, e) = past_byte j (ground arith) in
      ap (bit_at (byte ∷ bytes)) e ∙ bit_at_tail byte bytes i ∙ k i e
]

-- The first byte is full as far as it counts, and the search goes on behind it.
full_first :
    (byte : ℕ) (bytes : List ℕ) (limit base : ℕ) (o : Option ℕ)
    → ((j : ℕ) → j < min 8 limit → test_bit byte j ≡ true)
    → FirstFree (bit_at bytes) 0 (limit - 8) (base + 8) o
    → FirstFree (bit_at (byte ∷ bytes)) 0 limit base o
full_first byte bytes limit base (some n) h (free {k} e l m f a) =
    free {k = 8 + k} (omega arith) (omega arith) (omega arith) (bit_at_tail byte bytes k ∙ f)
      (λ j p q.
        bit_or_later byte bytes limit j h (λ i r. a i (omega arith) (omega arith)) (omega arith))
full_first byte bytes limit base none h (full a) =
    full (λ j p q. bit_or_later byte bytes limit j h (λ i r. a i (omega arith) (omega arith)) q)

-- A byte that is not full, with the bytes behind it.
after_byte :
    (byte : ℕ) (bytes : List ℕ) (limit base : ℕ) (o : Option ℕ) (rest : Run (Option ℕ))
    → FirstFree (test_bit byte) 0 (min 8 limit) 0 o
    → Ends (FirstFree (bit_at bytes) 0 (limit - 8) (base + 8)) ⊥ rest
    → Ends
        (FirstFree (bit_at (byte ∷ bytes)) 0 limit base)
        ⊥
        (elim o [ none ↦ rest | some index ↦ ok (some (base + index)) ])
after_byte byte bytes limit base none rest (full a) r =
    Ends-mono r (λ o f. full_first byte bytes limit base o (λ j p. a j (omega arith) p) f)
after_byte byte bytes limit base (some n) rest (free {k} e l m f a) r = returns (
    free {k = k} (omega arith) l (omega arith) (bit_at_head byte bytes k (omega arith) ∙ f)
      (λ j p q. bit_at_head byte bytes j (omega arith) ∙ a j p q))

pub find_in_bytes_lem :
    (left i : ℕ) (bytes : List ℕ) (valid : ℕ)
    → left ≤ length bytes
    → valid - i * 8 ≤ left * 8
    → Ends (FirstFree (bit_at bytes) 0 (valid - i * 8) (i * 8)) ⊥ (find_in_bytes left i bytes valid)
unfolding find_in_bytes
find_in_bytes_lem zero i bytes valid h k = returns (full (λ j p q. absurd (omega arith)))
find_in_bytes_lem (suc left) i [] valid h k = absurd (omega arith)
find_in_bytes_lem (suc left) i (byte ∷ bytes) valid h k =
    let rest : Ends (FirstFree (bit_at bytes) 0 (valid - i * 8 - 8) (i * 8 + 8)) ⊥
        (find_in_bytes left (i + 1) bytes valid) =
      subst
        (λ n.
          Ends (FirstFree (bit_at bytes) 0 n (i * 8 + 8)) ⊥
            (find_in_bytes left (i + 1) bytes valid))
        (omega arith)
        (subst
          (λ n.
            Ends (FirstFree (bit_at bytes) 0 (valid - n) n) ⊥
              (find_in_bytes left (i + 1) bytes valid))
          (omega arith) (find_in_bytes_lem left (i + 1) bytes valid (omega arith) (omega arith))) in
    Ends-if (byte == 0xff)
      (λ t. Ends-mono rest (λ o f.
        full_first byte bytes (valid - i * 8) (i * 8) o
          (λ j p. subst (λ b. test_bit b j ≡ true) (ground arith) (full_byte j (omega arith))) f))
      (λ t.
        after_byte byte bytes (valid - i * 8) (i * 8) _ _
          (find_in_byte_lem 8 0 byte (i * 8) valid refl) rest)
