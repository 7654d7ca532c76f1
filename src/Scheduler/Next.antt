-- ===== src/Scheduler/Next.antt =====
-- What `get_next_thread` does to the ready threads, and how long it keeps them waiting.
use os_pi_is_cool.Base.{
  ℕ, ◌+◌, ◌-◌, ◌%◌, ◌∙◌, ◌<◌, ◌≤◌, ◌≡◌, ◌≢◌, ◌⊎◌, inl, inr, refl, subst, true, Option, List, [],
  ◌∷◌, arith, Ptr, null, Ends, Ends-mono,
}
use os_pi_is_cool.Thread.{Tcbs}
use os_pi_is_cool.Scheduler.{Scheduler, get_next_thread}
use os_pi_is_cool.Scheduler.Ready.{Ready, live, Choice, at, Chosen, idle, chosen, next_from-Choice}
use os_pi_is_cool.Scheduler.Fair.{
  IsCharged, wait_of, wait_bound, Chosen-IsCharged, served_or_sooner,
}
use os_pi_is_cool.Scheduler.Enqueue.{occurs_in, next_from-occurs}
use os_pi_is_cool.Scheduler.Refine.{Queues, is_live, get_next_thread-Queues, ptr_of}

module _ (m : Tcbs) (r : Ready) where
  -- No thread of the three queues is ready.
  abbrev pub NoneReady : Type 0
  NoneReady = (p : ℕ) → p < 3 → live (is_live m) (r.queue p) ≡ []

  abbrev pub Outcome : Ready → Ptr → Type 0
  Outcome r' t =
      IsCharged r'.counter r'.turn
      × ((u : Ptr) → occurs_in u r' ≤ occurs_in u r)
      × ((t ≡ null) × NoneReady ⊎ (t ≢ null) × Chosen (is_live m) r 3 r' t)

  live-ne-null : (t : Ptr) → is_live m t ≡ true → t ≢ null
  live-ne-null t live_t e =
      let none_live : is_live m null ≡ true = subst (λ j. is_live m j ≡ true) e live_t in cc

  Choice-Outcome :
      IsCharged r.counter r.turn
      → (x : Ready × Option Ptr) → ((u : Ptr) → occurs_in u x.0 ≤ occurs_in u r)
      → Choice (is_live m) r 3 x
      → Outcome x.0 (ptr_of x.1)
  Choice-Outcome charged _ fewer (idle quiet same count turned) = (
    rw (count, turned) (record { turn_in = omega arith; counters = charged.counters }),
    fewer,
    inl (
      refl,
      λ p lt.
          let k = (p + 3 - r.turn) % 3 in
          let there : at r k ≡ p = omega (arith, charged.turn_in) in
          subst (λ j. live (is_live m) (r.queue j) ≡ []) there (quiet k (omega arith)),
    ),
  )
  Choice-Outcome charged _ fewer (chosen {t} c) =
      (Chosen-IsCharged (is_live m) charged c, fewer, inr (live-ne-null t c.ready_now, c))

module _ (m : Tcbs) (s : Scheduler) (r : Ready) (charged : IsCharged r.counter r.turn)
    (held : Queues s r) where
  -- If the vectors hold queues and the counters are within their limits, a call of
  -- `get_next_thread` returns NULL only if no thread of the three queues is ready. Else it returns
  -- a ready thread, the oldest of the first priority from the turn on that has one, takes it out
  -- and leaves all other ready threads in their queues. Either way the vectors hold queues again,
  -- no thread stands in the queues more often than before, and the counters stay within their
  -- limits.
  pub get_next_thread_lem :
      Ends (λ (s', t). (r' : Ready) × Queues s' r' × Outcome m r r' t) ⊥ (get_next_thread m s)
  get_next_thread_lem =
      Ends-mono (get_next_thread-Queues m s r charged.turn_in held) λ (s', t) (h, e). (
        _,
        h,
        rw e (
            Choice-Outcome m r charged _ (next_from-occurs 3 (is_live m) r)
              (next_from-Choice (is_live m) 3 r charged.turn_in)),
      )

  -- No priority starves: if the vectors hold queues and the counters are within their limits, then
  -- while a priority has a ready thread, each call either returns its oldest ready thread, or
  -- leaves its ready threads in place and makes its wait, which is never above 17, shorter.
  pub get_next_thread_fair :
      (p : ℕ) (t₀ : Ptr) (rest : List Ptr)
      → p < 3
      → live (is_live m) (r.queue p) ≡ t₀ ∷ rest
      → Ends
          (λ (s', t).
            (r' : Ready) × Queues s' r'
            × IsCharged r'.counter r'.turn
            × (wait_of r.counter r.turn p ≤ 17)
            × ((t ≡ t₀) × (live (is_live m) (r'.queue p) ≡ rest)
                ⊎ (live (is_live m) (r'.queue p) ≡ t₀ ∷ rest)
                  × (wait_of r'.counter r'.turn p < wait_of r.counter r.turn p)))
          ⊥
          (get_next_thread m s)
  get_next_thread_fair p t₀ rest lt waiting =
      Ends-mono get_next_thread_lem λ (s', t) (r', h, (c, _, out)). (
        r',
        h,
        c,
        wait_bound r.counter r.turn p charged.turn_in,
        elim out [
          | inl (e, quiet) ↦ cc (quiet p lt)
          | inr (ne, choice) ↦ elim (served_or_sooner (is_live m) charged p lt (λ e. cc) choice) [
            | inl served ↦ inl (cc, cc)
            | inr (same, sooner) ↦ inr (same ∙ waiting, sooner)
          ]
        ],
      )
