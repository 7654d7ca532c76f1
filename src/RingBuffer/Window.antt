-- ===== src/RingBuffer/Window.antt =====
-- The bytes of a ring buffer in the order of their places, round the end of the storage.
use os_pi_is_cool.Base.{
  ℕ, zero, suc, ◌+◌, ◌-◌, ◌≤◌, ◌<◌, ◌≡◌, ◌≢◌, refl, ap, ap₂, ◌∙◌, List, [], ◌∷◌, ◌++◌, arith,
  if◌then◌else◌, ltb, length, get_or, set, get_or-set_ne,
}
use os_pi_is_cool.RingBuffer.{step_up}

-- The `k`-th place from `h` on, round the end of the storage.
abbrev pub place : ℕ → ℕ → ℕ → ℕ
place cap h k = if ltb (h + k) cap then h + k else h + k - cap

-- The `n` bytes from the `k`-th place on.
abbrev pub window : List ℕ → ℕ → ℕ → ℕ → ℕ → List ℕ
window cells cap h k zero = []
window cells cap h k (suc n) = get_or cells (place cap h k) 0 ∷ window cells cap h (k + 1) n

module _ (cap h k : ℕ) where
  -- Two places less than `cap` steps apart are different.
  pub place_ne : (m : ℕ) → h < cap → k < m → m < cap → place cap h m ≢ place cap h k
  place_ne m p lt q = ground arith

  pub place-step_up : h < cap → k + 1 < cap → place cap (step_up cap h) k ≡ place cap h (k + 1)
  place-step_up p q = ground arith

module _ (cells : List ℕ) (cap h : ℕ) where
  pub length-window : (k n : ℕ) → length (window cells cap h k n) ≡ n
  length-window k zero = refl
  length-window k (suc n) = ap suc (length-window (k + 1) n)

  pub window_snoc :
      (k n : ℕ)
      → window cells cap h k (suc n)
        ≡ window cells cap h k n ++ get_or cells (place cap h (k + n)) 0 ∷ []
  window_snoc k zero = ap (λ i. get_or cells (place cap h i) 0 ∷ []) (omega arith)
  window_snoc k (suc n) =
      ap (λ w. get_or cells (place cap h k) 0 ∷ w)
        (window_snoc (k + 1) n
          ∙ ap (λ i. window cells cap h (k + 1) n ++ get_or cells (place cap h i) 0 ∷ [])
              (omega arith))

  -- A write past the window does not change it.
  pub window-set :
      (k n m c : ℕ)
      → h < cap
      → m < cap
      → k + n ≤ m
      → window (set cells (place cap h m) c) cap h k n ≡ window cells cap h k n
  window-set k zero m c p q e = refl
  window-set k (suc n) m c p q e =
      ap₂ ◌∷◌ (get_or-set_ne cells _ _ c 0 (place_ne cap h k m p (omega arith) q))
        (window-set (k + 1) n m c p q (omega arith))

  -- The window seen from the next place.
  pub window_shift :
      (k n : ℕ)
      → h < cap
      → k + n < cap
      → window cells cap (step_up cap h) k n ≡ window cells cap h (k + 1) n
  window_shift k zero p q = refl
  window_shift k (suc n) p q =
      ap₂ ◌∷◌ (ap (λ i. get_or cells i 0) (place-step_up cap h k p (omega arith)))
        (window_shift (k + 1) n p (omega arith))
