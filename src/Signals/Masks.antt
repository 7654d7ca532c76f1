-- ===== src/Signals/Masks.antt =====
-- A change of the mask can be taken back.
use os_pi_is_cool.Base.{ℕ, ◌≡◌, refl, some, ◌==◌, inl, inr, Bool-cases}
use os_pi_is_cool.Signals.{sig_set, sig_block, sig_unblock, sigprocmask}

-- Whatever `sigprocmask` does to the mask of a thread, also for a `how` that it refuses, it
-- reports the mask from before, and setting that again gives the thread its old mask.
pub sigprocmask-sig_set :
    (how set mask : ℕ)
    → (old : ℕ) × (new : ℕ) × ((sigprocmask how (some set) (some mask)).0 ≡ some new)
      × ((sigprocmask how (some set) (some mask)).1 ≡ some old)
      × ((sigprocmask sig_set (some old) (some new)).0 ≡ some mask)
unfolding sigprocmask
sigprocmask-sig_set how set mask = elim (Bool-cases (how == sig_block)) [
  | inl e ↦ rw e (mask, _, refl, refl, refl)
  | inr e ↦ elim (Bool-cases (how == sig_unblock)) [
    | inl e' ↦ rw (e, e') (mask, _, refl, refl, refl)
    | inr e' ↦ elim (Bool-cases (how == sig_set)) [
      | inl e'' ↦ rw (e, e', e'') (mask, _, refl, refl, refl)
      | inr e'' ↦ rw (e, e', e'') (mask, _, refl, refl, refl)
    ]
  ]
]
