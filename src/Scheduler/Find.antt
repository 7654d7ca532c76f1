-- ===== src/Scheduler/Find.antt =====
-- Searching the ready queues for a thread, and taking it out of them.
use mathlib.Core.List.{reverse-cons}
use os_pi_is_cool.Base.{
  ℕ, zero, suc, ◌+◌, ◌≡◌, refl, ap, ◌∙◌, sym, subst, Bool, not, List, [], ◌∷◌, ◌++◌, reverse,
  append-nil, append-cons, if◌then◌else◌, ◌==◌, arith, length, length-snoc, Ptr, Bool-cases, inl,
  inr, ok, Ends, returns, Ends-bind,
}
use os_pi_is_cool.Vec.{Vec}
use os_pi_is_cool.Vec.Holds.{Holds, get-Holds}
use os_pi_is_cool.Vec.Shift.{erase-Holds}
use os_pi_is_cool.Scheduler.{queue_has, remove_from_queue}

-- How often the thread stands in a queue.
unfoldable pub occurs : Ptr → List Ptr → ℕ
occurs t [] = 0
occurs t (x ∷ q) = if x == t then suc (occurs t q) else occurs t q

unfoldable pub without : Ptr → List Ptr → List Ptr
without t [] = []
without t (x ∷ q) = if x == t then without t q else x ∷ without t q

abbrev pub has : Ptr → List Ptr → Bool
has t q = not (occurs t q == 0)

module _ (t : Ptr) where
  pub occurs-append : (xs ys : List Ptr) → occurs t (xs ++ ys) ≡ occurs t xs + occurs t ys
  unfolding occurs
  occurs-append [] ys = omega arith
  occurs-append (x ∷ xs) ys = ground (arith, occurs-append xs ys)

  pub occurs-reverse : (xs : List Ptr) → occurs t (reverse xs) ≡ occurs t xs
  occurs-reverse [] = refl
  occurs-reverse (x ∷ xs) =
      ap (occurs t) (reverse-cons x xs)
      ∙ occurs-append (reverse xs) (x ∷ [])
      ∙ omega (arith, occurs-append (x ∷ []) xs, occurs-reverse xs)

  pub without-append : (xs ys : List Ptr) → without t (xs ++ ys) ≡ without t xs ++ without t ys
  unfolding without
  without-append [] ys = refl
  without-append (x ∷ xs) ys = elim (Bool-cases (x == t)) [
    | inl same ↦ rw same (without-append xs ys)
    | inr other ↦ rw other (ap (λ zs. x ∷ zs) (without-append xs ys))
  ]

  pub without-reverse : (xs : List Ptr) → without t (reverse xs) ≡ reverse (without t xs)
  unfolding without
  without-reverse [] = refl
  without-reverse (x ∷ xs) =
      ap (without t) (reverse-cons x xs)
      ∙ without-append (reverse xs) (x ∷ [])
      ∙ elim (Bool-cases (x == t)) [
        | inl same ↦ rw same (append-nil _ ∙ without-reverse xs)
        | inr other ↦
            rw other
              (ap (λ zs. zs ++ x ∷ []) (without-reverse xs) ∙ sym (reverse-cons x (without t xs)))
      ]

  -- No other thread is touched.
  pub occurs-without :
      (u : Ptr) (xs : List Ptr) → occurs u (without t xs) ≡ (if t == u then 0 else occurs u xs)
  unfolding occurs without
  occurs-without u [] = ground arith
  occurs-without u (x ∷ xs) = ground (arith, occurs-without u xs)

  pub queue_has-occurs :
      (xs pre : List Ptr) (n i : ℕ) {v : Vec}
      → n ≡ length xs
      → i ≡ length pre
      → Holds v (pre ++ xs)
      → queue_has n i v t ≡ ok (has t xs)
  unfolding queue_has occurs
  queue_has-occurs [] pre zero i c e h = refl
  queue_has-occurs [] pre (suc n) i c e h = absurd (omega arith)
  queue_has-occurs (x ∷ xs) pre zero i c e h = absurd (omega arith)
  queue_has-occurs (x ∷ xs) pre (suc n) i {v} c e h =
      let rest =
        queue_has-occurs xs (pre ++ x ∷ []) n (i + 1) (omega arith)
          (omega (arith, length-snoc pre x)) (subst (Holds v) (append-cons pre x xs) h) in
      rw (get-Holds pre x xs i h e) (elim (Bool-cases (x == t)) [
        | inl same ↦ rw same (ap ok (ground arith))
        | inr other ↦ rw other rest
      ])

  pub remove_from_queue-without :
      (xs pre : List Ptr) (n i : ℕ) {v : Vec}
      → n ≡ length xs
      → i ≡ length pre
      → Holds v (pre ++ xs)
      → Ends (λ w. Holds w (pre ++ without t xs)) ⊥ (remove_from_queue n i t v)
  unfolding remove_from_queue without
  remove_from_queue-without [] pre zero i c e h = returns h
  remove_from_queue-without [] pre (suc n) i c e h = absurd (omega arith)
  remove_from_queue-without (x ∷ xs) pre zero i c e h = absurd (omega arith)
  remove_from_queue-without (x ∷ xs) pre (suc n) i {v} c e h =
      rw (get-Holds pre x xs i h e) (elim (Bool-cases (x == t)) [
        | inl same ↦ rw same (
            Ends-bind (erase-Holds pre x xs i h e)
              λ w (hw, _, _). remove_from_queue-without xs pre n i (omega arith) e hw)
        | inr other ↦
            rw (other, append-cons pre x (without t xs))
              (remove_from_queue-without xs (pre ++ x ∷ []) n (i + 1) (omega arith)
                (omega (arith, length-snoc pre x)) (subst (Holds v) (append-cons pre x xs) h))
      ])
