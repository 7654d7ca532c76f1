-- ===== src/Fs/Bitmap/Places.antt =====
-- The bits of a whole bitmap on the device, by their block and their place in it.
use os_pi_is_cool.Base.{
  ℕ, zero, suc, ◌+◌, ◌*◌, ◌/◌, ◌%◌, ◌^◌, ◌<◌, ◌≤◌, ◌≡◌, ◌≢◌, sym, subst, ap, ◌∙◌, ◌⊎◌, inl, inr,
  Bool, true, false, ltb, ◌==◌, Bool-cases, arith,
}
use native.Mathlib.Nat.{mul-le-mul_right}
use os_pi_is_cool.Fs.Store.{Store}
use os_pi_is_cool.Fs.Bitmap.{bits_per_block}
use os_pi_is_cool.Fs.Bitmap.Bits.{
  bit_at, AreBytes, written_bit, written_bit_self, written_bit_other, written_bit-AreBytes,
}

-- The place of a bit comes before another one's.
pub before_place :
    (a p b q bits : ℕ)
    → p < bits
    → q < bits
    → a * bits + p < b * bits + q
    → (a < b) ⊎ ((a ≡ b) × p < q)
before_place a p b q bits h k l = elim (Bool-cases (ltb a b)) [
  | inl t ↦ inl (ground arith)
  | inr t ↦ elim (Bool-cases (ltb b a)) [
    | inl u ↦
        let m = mul-le-mul_right {m = b + 1} {n = a} bits (ground arith) in
        absurd (grind (arith, m))
    | inr u ↦
        let e : a ≡ b = ground arith in
        inr (e, omega (arith, subst (λ z. z * bits + p < b * bits + q) e l))
  ]
]

-- A block of the bitmap begins at a number of 32 bits.
pub small_start : (i n b : ℕ) → i < n → n * b ≤ 2 ^ 32 → i * b < 2 ^ 32
small_start i n zero h k = omega arith
small_start i n (suc b) h k =
    grind (arith, mul-le-mul_right {m = i + 1} {n = n} (suc b) (omega arith))

module _ (T : Store) where
  -- Bit `p` of block `a` of the bitmap that starts at block `start`.
  abbrev pub taken : T.S → ℕ → ℕ → ℕ → Bool
  taken s start a p = bit_at (T.view s (start + a)) p

  -- A bitmap of `blocks` blocks, of which `valid` bits count, inside the store.
  pub record IsBitmap (s : T.S) (start blocks valid : ℕ) : Type 0 where
    pub bytes : (n : ℕ) → n < T.count → AreBytes (T.view s n)
    pub within : start + blocks ≤ T.count
    pub narrow : start + blocks ≤ 2 ^ 32
    pub small : blocks * bits_per_block T ≤ 2 ^ 32
    pub covers : valid ≤ blocks * bits_per_block T

  abbrev pub SameBlocks : T.S → T.S → Type 0
  SameBlocks s s' = (m : ℕ) → T.view s' m ≡ T.view s m

  -- What becomes of the blocks, if the bit is only found or also taken.
  pub data After (s s' : T.S) (start a p : ℕ) : Bool → Type 0 where
    only_found : SameBlocks s s' → After s s' start a p false
    marked :
        taken s' start a p ≡ true
        → ((q : ℕ) → q ≢ p → taken s' start a q ≡ taken s start a q)
        → AreBytes (T.view s' (start + a))
        → ((m : ℕ) → m < T.count → m ≢ start + a → T.view s' m ≡ T.view s m)
        → After s s' start a p true

  -- The block of a bit that was written, of which the state `t` had what `s` has.
  pub bit_written :
      (v : Bool) (s t s' : T.S) (start a p : ℕ)
      → AreBytes (T.view s (start + a))
      → p < bits_per_block T
      → SameBlocks s t
      → T.view s' (start + a) ≡ written_bit v (T.view s (start + a)) (p / 8) (p % 8)
      → (taken s' start a p ≡ v)
        × ((q : ℕ) → q ≢ p → taken s' start a q ≡ taken s start a q)
        × AreBytes (T.view s' (start + a))
  bit_written v s t s' start a p w h same e =
      let bs = T.view s (start + a) in
      (
        ap (λ z. bit_at z p) e
            ∙ subst (λ z. bit_at (written_bit v bs (p / 8) (p % 8)) z ≡ v) (omega arith)
                (written_bit_self v bs (p / 8) (p % 8) w (omega (arith, T.view_bytes s (start + a)))
                  (omega arith)),
        (λ q ne.
            ap (λ z. bit_at z q) e
            ∙ written_bit_other v bs (p / 8) (p % 8) q w (omega arith) (λ z. ne (omega arith))),
        subst AreBytes (sym e) (written_bit-AreBytes v bs (p / 8) (p % 8) w (omega arith)),
      )

  -- A bitmap is one also when a bit has been found or taken.
  pub After-IsBitmap :
      (s s' : T.S) (start blocks valid a p : ℕ) (update : Bool)
      → IsBitmap s start blocks valid
      → After s s' start a p update
      → IsBitmap s' start blocks valid
  After-IsBitmap s s' start blocks valid a p update w after = record {
    bytes = after_bytes s s' start a p update after w.bytes;
    within = w.within;
    narrow = w.narrow;
    small = w.small;
    covers = w.covers;
  }
    where
      after_bytes :
          (s s' : T.S) (start a p : ℕ) (update : Bool)
          → After s s' start a p update
          → ((n : ℕ) → n < T.count → AreBytes (T.view s n))
          → (n : ℕ) → n < T.count
          → AreBytes (T.view s' n)
      after_bytes s s' start a p false (only_found same) k n h =
          subst AreBytes (sym (same n)) (k n h)
      after_bytes s s' start a p true (marked t o b same) k n h =
          elim (Bool-cases (n == start + a)) [
            | inl e ↦ subst (λ z. AreBytes (T.view s' z)) (ground arith) b
            | inr e ↦ subst AreBytes (sym (same n h (λ z. absurd (ground arith)))) (k n h)
          ]
