-- ===== src/Scheduler/Ready.antt =====
-- What the ready queues promise: three first-in first-out queues of threads, oldest first, of which
-- the threads that are not ready any more are dropped when they are met.
use os_pi_is_cool.Base.{
  ℕ, zero, suc, ◌+◌, ◌%◌, ◌<◌, ◌≡◌, ◌≢◌, refl, ap, ◌∙◌, sym, subst, Bool, true, false, Option, none,
  some, List, [], ◌∷◌, if◌then◌else◌, ◌==◌, ltb, arith, Ptr, Bool-cases, inl, inr,
}
use os_pi_is_cool.Thread.{update}
use os_pi_is_cool.Scheduler.{max_pri_cntrs, next_pri}

pub record Ready : Type 0 where
  pub queue : ℕ → List Ptr
  pub counter : ℕ → ℕ
  pub turn : ℕ

unfoldable pub take_ready : (Ptr → Bool) → List Ptr → List Ptr × Option Ptr
take_ready is_live [] = ([], none)
take_ready is_live (t ∷ q) = if is_live t then (q, some t) else take_ready is_live q

-- The counters and the turn after a thread of priority `p` was chosen: the turn passes on when the
-- priority has had its share.
abbrev pub charged_counter : (ℕ → ℕ) → ℕ → ℕ → ℕ
charged_counter c p = if ltb (max_pri_cntrs p) (c p + 1) then update c p 0 else update c p (c p + 1)

abbrev pub charged_turn : (ℕ → ℕ) → ℕ → ℕ
charged_turn c p = if ltb (max_pri_cntrs p) (c p + 1) then next_pri p else p

abbrev pub charge : Ready → Ready
charge r = record r {
  counter = charged_counter r.counter r.turn;
  turn = charged_turn r.counter r.turn;
}

-- After the current queue was searched: its thread, or what the next priorities give.
abbrev pub proceed :
    (Ready → Ready × Option Ptr) → Ready → List Ptr × Option Ptr → Ready × Option Ptr
proceed rest r (q, none) =
    rest (record r { queue = update r.queue r.turn q; turn = next_pri r.turn })
proceed rest r (q, some t) = (charge (record r { queue = update r.queue r.turn q }), some t)

unfoldable pub next_from : ℕ → (Ptr → Bool) → Ready → Ready × Option Ptr
next_from zero is_live r = (r, none)
next_from (suc n) is_live r = proceed (next_from n is_live) r (take_ready is_live (r.queue r.turn))

-- The ready threads of a queue.
unfoldable pub live : (Ptr → Bool) → List Ptr → List Ptr
live is_live [] = []
live is_live (t ∷ q) = if is_live t then t ∷ live is_live q else live is_live q

-- Of the ready threads `l` of a queue the first is taken, and `q` keeps the others; or there is none.
pub data Taken (is_live : Ptr → Bool) (l : List Ptr) : List Ptr × Option Ptr → Type 0 where
  nothing : l ≡ [] → Taken is_live l ([], none)
  first :
      {q : List Ptr} {t : Ptr}
      → l ≡ t ∷ live is_live q
      → is_live t ≡ true
      → Taken is_live l (q, some t)

pub take_ready-Taken :
    (is_live : Ptr → Bool) (q : List Ptr) → Taken is_live (live is_live q) (take_ready is_live q)
unfolding take_ready live
take_ready-Taken is_live [] = nothing refl
take_ready-Taken is_live (t ∷ q) = elim (Bool-cases (is_live t)) [
  | inl yes_live ↦ rw yes_live (first refl yes_live)
  | inr not_live ↦ rw not_live (take_ready-Taken is_live q)
]

-- The `k`-th priority from the turn on.
abbrev pub at : Ready → ℕ → ℕ
at r k = (r.turn + k) % 3

-- The outcome of a choice among the `n` priorities from the turn on: either no thread of them is
-- ready, or the first ready thread of the first priority that has one is chosen and charged for.
-- Either way every other ready thread stays where it is.
module _ (is_live : Ptr → Bool) where
  abbrev pub Same : Ready → Ready → ℕ → Type 0
  Same r r' p = live is_live (r'.queue p) ≡ live is_live (r.queue p)

  abbrev pub Idle : Ready → ℕ → Type 0
  Idle r n = (k : ℕ) → k < n → live is_live (r.queue (at r k)) ≡ []

  pub record Chosen (r : Ready) (n : ℕ) (r' : Ready) (t : Ptr) : Type 0 where
    pub steps : ℕ
    pub in_range : steps < n
    pub before : Idle r steps
    pub taken : live is_live (r.queue (at r steps)) ≡ t ∷ live is_live (r'.queue (at r steps))
    pub ready_now : is_live t ≡ true
    pub others : (p : ℕ) → p ≢ at r steps → Same r r' p
    pub counted : r'.counter ≡ charged_counter r.counter (at r steps)
    pub turned : r'.turn ≡ charged_turn r.counter (at r steps)

  pub data Choice (r : Ready) (n : ℕ) : Ready × Option Ptr → Type 0 where
    idle :
        {r' : Ready}
        → Idle r n
        → ((p : ℕ) → Same r r' p)
        → r'.counter ≡ r.counter
        → r'.turn ≡ at r n
        → Choice r n (r', none)
    chosen : {r' : Ready} {t : Ptr} → Chosen r n r' t → Choice r n (r', some t)

  module _ (r : Ready) (none_here : live is_live (r.queue r.turn) ≡ []) where
    here : (p : ℕ) → r.turn ≡ p → live is_live (r.queue p) ≡ []
    here p e = ap (λ j. live is_live (r.queue j)) (sym e) ∙ none_here

    emptied : (p : ℕ) → live is_live (update r.queue r.turn [] p) ≡ live is_live (r.queue p)
    unfolding live
    emptied p = elim (Bool-cases (r.turn == p)) [
      | inl same ↦ rw (same, here p (ground arith))
      | inr other ↦ rw other
    ]

    step : (k : ℕ) → (next_pri r.turn + k) % 3 ≡ at r (suc k)
    step k = omega arith

    quiet_too :
        (n : ℕ)
        → r.turn < 3
        → Idle (record r { queue = update r.queue r.turn []; turn = next_pri r.turn }) n
        → Idle r (suc n)
    quiet_too n lt quiet zero h = here (at r 0) (omega arith)
    quiet_too n lt quiet (suc k) h =
        ap (λ j. live is_live (r.queue j)) (sym (step k))
        ∙ sym (emptied (at r' k))
        ∙ quiet k (omega arith)
      where
        r' : Ready
        r' = record r { turn = next_pri r.turn }

    -- The turn passes over a priority with no ready thread.
    pass_over :
        (n : ℕ) {x : Ready × Option Ptr}
        → r.turn < 3
        → Choice (record r { queue = update r.queue r.turn []; turn = next_pri r.turn }) n x
        → Choice r (suc n) x
    pass_over n lt (idle quiet same count turned) =
        idle (quiet_too n lt quiet) (λ p. same p ∙ emptied p) count (turned ∙ step n)
    pass_over n lt (chosen {r'} {t} c) = chosen (record {
      steps = suc c.steps;
      in_range = omega (arith, c.in_range);
      before = quiet_too c.steps lt c.before;
      taken =
          subst (λ p. live is_live (r.queue p) ≡ t ∷ live is_live (r'.queue p)) (step c.steps)
            (sym (emptied _) ∙ c.taken);
      ready_now = c.ready_now;
      others = λ p ne. c.others p (λ e. ne (e ∙ step c.steps)) ∙ emptied p;
      counted = c.counted ∙ ap (charged_counter r.counter) (step c.steps);
      turned = c.turned ∙ ap (charged_turn r.counter) (step c.steps);
    })

  Chosen-here :
      (r : Ready) (n : ℕ) (q : List Ptr) {t : Ptr}
      → r.turn < 3
      → live is_live (r.queue r.turn) ≡ t ∷ live is_live q
      → is_live t ≡ true
      → Chosen r (suc n) (charge (record r { queue = update r.queue r.turn q })) t
  Chosen-here r n q {t} lt e live_t = record {
    steps = 0;
    in_range = omega arith;
    before = λ k h. absurd (omega arith);
    taken =
        subst (λ p. live is_live (r.queue p) ≡ t ∷ live is_live (update r.queue r.turn q p))
          (sym now) (rw self e);
    ready_now = live_t;
    others = λ p ne. rw (other p ne);
    counted = ap (charged_counter r.counter) (sym now);
    turned = ap (charged_turn r.counter) (sym now);
  }
    where
      now : at r 0 ≡ r.turn
      now = omega arith

      self : (r.turn == r.turn) ≡ true
      self = ground arith

      other : (p : ℕ) → p ≢ at r 0 → (r.turn == p) ≡ false
      other p ne = ground arith

  -- `next_from` makes such a choice.
  pub next_from-Choice : (n : ℕ) (r : Ready) → r.turn < 3 → Choice r n (next_from n is_live r)
  unfolding next_from
  next_from-Choice zero r lt = idle (λ k h. absurd (omega arith)) (λ p. refl) refl (omega arith)
  next_from-Choice (suc n) r lt = go _ (take_ready-Taken is_live (r.queue r.turn)) (
      next_from-Choice n (record r { queue = update r.queue r.turn []; turn = next_pri r.turn })
        (omega arith))
    where
      go :
          (x : List Ptr × Option Ptr)
          → Taken is_live (live is_live (r.queue r.turn)) x
          → Choice
              (record r { queue = update r.queue r.turn []; turn = next_pri r.turn })
              n
              (next_from n is_live
                (record r { queue = update r.queue r.turn []; turn = next_pri r.turn }))
          → Choice r (suc n) (proceed (next_from n is_live) r x)
      go _ (nothing e) rest = pass_over r e n lt rest
      go _ (first {q} e live_t) rest = chosen (Chosen-here r n q lt e live_t)
