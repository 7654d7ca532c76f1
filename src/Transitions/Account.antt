-- ===== src/Transitions/Account.antt =====
-- A process follows the transitions of its threads.
use os_pi_is_cool.Base.{
  ℕ, zero, suc, ◌^◌, ◌<◌, ◌≡◌, refl, sym, ap, subst, arith, Bool, not, List, [], ◌∷◌, ◌++◌,
  append-cons, length, ◌==◌, if-elim, bit_and,
}
use os_pi_is_cool.Thread.{
  ThreadState, ready, stopped, zombie, Tcb, is_blocked, is_stopped, is_zombie,
}
use os_pi_is_cool.Process.{Pcb, pcb_thread_change_state}
use os_pi_is_cool.Process.Account.{Accounts, Settled, state_of, pcb_thread_change_state_lem}
use os_pi_is_cool.Transitions.{
  Call, session_stop, session_exit, session_continue, Turned, unturned, turn_into, yield_if,
  unblock_thread, resumed, is_ready_again, scheduled, Turn, stop, terminate, block, unblock,
  continue, event, turn, turn_at, run,
}

abbrev pub states : List Tcb → List ThreadState
states [] = []
states (t ∷ ts) = t.state ∷ states ts

length-states : (ts : List Tcb) → length (states ts) ≡ length ts
length-states [] = refl
length-states (t ∷ ts) = ap suc (length-states ts)

-- The counters are right, and the state of the process is what the states of its threads make it.
abbrev pub Follows : Pcb → List ThreadState → Type 0
Follows p l = Accounts p l × (p.state ≡ state_of l)

module _ (pre post : List ThreadState) where
  Turns : Tcb → Pcb → Turned → Type 0
  Turns t p r = Follows r.pcb (pre ++ r.tcb.state ∷ post)

  module _ (t : Tcb) (p : Pcb) (small : length (pre ++ t.state ∷ post) < 2 ^ 31)
      (f : Follows p (pre ++ t.state ∷ post)) where
    turn_into-Follows :
        (new : ThreadState) (before after : List Call) (t' : Tcb)
        → t'.state ≡ t.state
        → Turns t p (turn_into new before after t' p)
    unfolding Turns
    turn_into-Follows new before after t' same =
        let (accounts, state, told) =
          subst (λ st. Settled (pre ++ new ∷ post) (pcb_thread_change_state p st new)) (sym same)
            (pcb_thread_change_state_lem pre post t.state new small f.0) in
        (accounts, state)

    unturned-Follows : Turns t p (unturned t p)
    unfolding Turns
    unturned-Follows = f

    unblocked-Follows : Turns t p (unblock_thread t p)
    unblocked-Follows =
        if-elim (Turns t p) (not (is_blocked t.state)) (λ same. unturned-Follows)
          (λ other.
            turn_into-Follows ready [] (scheduled ∷ []) (record t { blocked_until = 0 }) refl)

    turn-Follows : (a : Turn) → Turns t p (turn a t p)
    turn-Follows (stop current) =
        if-elim (Turns t p) (is_stopped t.state) (λ same. unturned-Follows)
          (λ other.
            turn_into-Follows stopped (session_stop ∷ []) (yield_if current)
              (record t { stopped_state = t.state }) refl)
    turn-Follows (terminate current) =
        if-elim (Turns t p) (is_zombie t.state) (λ same. unturned-Follows)
          (λ other. turn_into-Follows zombie (session_exit ∷ []) (yield_if current) t refl)
    turn-Follows (block current st) =
        if-elim (Turns t p) (not (is_blocked st)) (λ same. unturned-Follows)
          (λ other. turn_into-Follows st [] (yield_if current) t refl)
    turn-Follows unblock = unblocked-Follows
    turn-Follows continue =
        if-elim (Turns t p) (not (is_stopped t.state)) (λ same. unturned-Follows)
          (λ other.
            turn_into-Follows (resumed t) (session_continue ∷ []) (is_ready_again (resumed t))
              (record t { stopped_state = ready }) refl)
    turn-Follows (event e) =
        if-elim (λ (r : Turned × Bool). Turns t p r.0) (not (is_blocked t.state))
          (λ awake. unturned-Follows)
          (λ asleep.
            if-elim (λ (r : Turned × Bool). Turns t p r.0) (not (bit_and t.blocked_until e == 0))
              (λ expected. unblocked-Follows) (λ other. unturned-Follows))

turn_at-Follows :
    (pre : List ThreadState) (i : ℕ) (a : Turn) (ts : List Tcb) (p : Pcb)
    → length (pre ++ states ts) < 2 ^ 31
    → Follows p (pre ++ states ts)
    → Follows (turn_at i a ts p).1 (pre ++ states (turn_at i a ts p).0)
unfolding Turns
turn_at-Follows pre i a [] p small f = f
turn_at-Follows pre zero a (t ∷ ts) p small f = turn-Follows pre (states ts) t p small f a
turn_at-Follows pre (suc i) a (t ∷ ts) p small f =
    let longer = append-cons pre t.state (states ts) in
    let after =
      turn_at-Follows (pre ++ t.state ∷ []) i a ts p (subst (λ l. length l < 2 ^ 31) longer small)
        (subst (Follows p) longer f) in
    subst (Follows (turn_at i a ts p).1)
      (sym (append-cons pre t.state (states (turn_at i a ts p).0))) after

length-turn_at :
    (i : ℕ) (a : Turn) (ts : List Tcb) (p : Pcb)
    → length (states (turn_at i a ts p).0) ≡ length (states ts)
length-turn_at i a [] p = refl
length-turn_at zero a (t ∷ ts) p = refl
length-turn_at (suc i) a (t ∷ ts) p = ap suc (length-turn_at i a ts p)

-- If the counters of a process with fewer than 2^31 threads are right, and its state is what the
-- states of its threads make it, then so it is after its threads were stopped, continued, blocked,
-- unblocked, sent events and terminated, in any number and order, whatever their states are.
pub run-Follows :
    (turns : List (ℕ × Turn)) (ts : List Tcb) (p : Pcb)
    → length (states ts) < 2 ^ 31
    → Follows p (states ts)
    → Follows (run turns (ts, p)).1 (states (run turns (ts, p)).0)
run-Follows [] ts p small f = f
run-Follows ((i, a) ∷ turns) ts p small f =
    run-Follows turns (turn_at i a ts p).0 (turn_at i a ts p).1
      (omega (arith, small, length-turn_at i a ts p)) (turn_at-Follows [] i a ts p small f)
