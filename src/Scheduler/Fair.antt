-- ===== src/Scheduler/Fair.antt =====
-- How long a priority waits for its turn.
use os_pi_is_cool.Base.{
  ℕ, zero, suc, ◌+◌, ◌-◌, ◌%◌, ◌≤◌, ◌<◌, ◌≡◌, ◌≢◌, refl, sym, subst, Bool, [], ◌∷◌, ◌⊎◌,
  if◌then◌else◌, ◌==◌, ltb, arith, Ptr, Bool-cases, inl, inr,
}
use native.Mathlib.Nat.{le_trans}
use os_pi_is_cool.Scheduler.{max_pri_cntrs, next_pri}
use os_pi_is_cool.Scheduler.Ready.{Ready, live, at, Chosen, charged_counter, charged_turn}

-- How many more threads of the priority are chosen before the turn passes on.
abbrev pub left : (ℕ → ℕ) → ℕ → ℕ
left c p = max_pri_cntrs p + 1 - c p

-- How many threads of other priorities may be chosen before one of priority `p`.
abbrev pub wait_of : (ℕ → ℕ) → ℕ → ℕ → ℕ
wait_of c turn p =
    if turn == p
    then 0
    else if next_pri turn == p
    then left c turn
    else left c turn + left c (next_pri turn)

pub record IsCharged (c : ℕ → ℕ) (turn : ℕ) : Type 0 where
  pub turn_in : turn < 3
  pub counters : (p : ℕ) → c p ≤ max_pri_cntrs p

max-le : (p : ℕ) → max_pri_cntrs p ≤ 9
max-le zero = omega arith
max-le (suc zero) = omega arith
max-le (suc (suc p)) = omega arith

-- `next_thread` keeps the counters within their limits.
counters-IsCharged :
    (c : ℕ → ℕ) (p : ℕ)
    → p < 3
    → ((j : ℕ) → c j ≤ max_pri_cntrs j)
    → IsCharged (charged_counter c p) (charged_turn c p)
counters-IsCharged c p lt le = elim (Bool-cases (ltb (max_pri_cntrs p) (c p + 1))) [
  | inl over ↦ rw over (record { turn_in = omega arith; counters = λ j. ground (arith, le j) })
  | inr under ↦ rw under (record {
    turn_in = lt;
    counters = λ j. elim (Bool-cases (p == j)) [
      | inl same ↦
          rw same (
            let e : p ≡ j = ground arith in subst (λ i. c p + 1 ≤ max_pri_cntrs i) e (ground arith))
      | inr other ↦ rw other (le j)
    ];
  })
]

-- A thread chosen for the priority whose turn it is shortens the wait of every other priority.
charged_here :
    (c : ℕ → ℕ) (q p : ℕ)
    → q < 3
    → p < 3
    → q ≢ p
    → c q ≤ max_pri_cntrs q
    → wait_of (charged_counter c q) (charged_turn c q) p < wait_of c q p
charged_here c zero zero lq lp ne le = absurd (ne refl)
charged_here c zero (suc zero) lq lp ne le = ground arith
charged_here c zero (suc (suc zero)) lq lp ne le = ground arith
charged_here c (suc zero) zero lq lp ne le = ground arith
charged_here c (suc zero) (suc zero) lq lp ne le = absurd (ne refl)
charged_here c (suc zero) (suc (suc zero)) lq lp ne le = ground arith
charged_here c (suc (suc zero)) zero lq lp ne le = ground arith
charged_here c (suc (suc zero)) (suc zero) lq lp ne le = ground arith
charged_here c (suc (suc zero)) (suc (suc zero)) lq lp ne le = absurd (ne refl)
charged_here c (suc (suc (suc q))) p lq lp ne le = absurd (omega arith)
charged_here c q (suc (suc (suc p))) lq lp ne le = absurd (omega arith)

passed :
    (c : ℕ → ℕ) (turn p : ℕ)
    → turn < 3
    → p < 3
    → turn ≢ p
    → wait_of c (next_pri turn) p ≤ wait_of c turn p
passed c turn p lt lp ne = ground arith

-- The wait is never longer than the shares of the two other priorities.
pub wait_bound : (c : ℕ → ℕ) (turn p : ℕ) → turn < 3 → wait_of c turn p ≤ 17
wait_bound c zero p lt = ground arith
wait_bound c (suc zero) p lt = ground arith
wait_bound c (suc (suc zero)) p lt = ground arith
wait_bound c (suc (suc (suc n))) p lt = absurd (omega arith)

-- The wait does not grow while the turn passes over other priorities.
passed_all :
    (c : ℕ → ℕ) (turn p s : ℕ)
    → turn < 3
    → p < 3
    → ((k : ℕ) → k < s → (turn + k) % 3 ≢ p)
    → wait_of c ((turn + s) % 3) p ≤ wait_of c turn p
passed_all c turn p zero lt lp ne =
    let here : turn ≡ (turn + 0) % 3 = omega arith in
    subst (λ i. wait_of c i p ≤ wait_of c turn p) here (omega arith)
passed_all c turn p (suc s) lt lp ne =
    let next : next_pri ((turn + s) % 3) ≡ (turn + suc s) % 3 = omega arith in
    subst (λ i. wait_of c i p ≤ wait_of c turn p) next
      (le_trans (passed c ((turn + s) % 3) p (omega arith) lp (ne s (omega arith)))
        (passed_all c turn p s lt lp (λ k h. ne k (omega arith))))

module _ (is_live : Ptr → Bool) {r r' : Ready} {t : Ptr}
    (charged : IsCharged r.counter r.turn) where
  pub Chosen-IsCharged : {n : ℕ} → Chosen is_live r n r' t → IsCharged r'.counter r'.turn
  Chosen-IsCharged c =
      rw (c.counted, c.turned)
        (counters-IsCharged r.counter (at r c.steps) (omega arith) charged.counters)

  -- A choice serves the priority, or its ready threads stay and its wait is shorter.
  pub served_or_sooner :
      (p : ℕ)
      → p < 3
      → live is_live (r.queue p) ≢ []
      → Chosen is_live r 3 r' t
      → (live is_live (r.queue p) ≡ t ∷ live is_live (r'.queue p))
        ⊎ (live is_live (r'.queue p) ≡ live is_live (r.queue p))
          × (wait_of r'.counter r'.turn p < wait_of r.counter r.turn p)
  served_or_sooner p lt waiting c = elim (Bool-cases (at r c.steps == p)) [
    | inl same ↦ inl (
        subst (λ j. live is_live (r.queue j) ≡ t ∷ live is_live (r'.queue j)) (ground arith)
          c.taken)
    | inr other ↦
        let ne : at r c.steps ≢ p = ground arith in
        inr (
          c.others p (λ e. ne (sym e)),
          rw (c.counted, c.turned)
              (le_trans
                (charged_here r.counter (at r c.steps) p (omega arith) lt ne (charged.counters _))
                (passed_all r.counter r.turn p c.steps charged.turn_in lt (λ k h e.
                  waiting (subst (λ j. live is_live (r.queue j) ≡ []) e (c.before k h))))),
        )
  ]
