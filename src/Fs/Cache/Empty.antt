-- ===== src/Fs/Cache/Empty.antt =====
-- The cache is emptied to its last node.
use os_pi_is_cool.Base.{
  ℕ, zero, suc, ◌≤◌, ◌≡◌, refl, ◌∙◌, List, [], ◌∷◌, length, ok, Ends, returns, Ends-bind, Ends-mono,
  Ends-if, ◌==◌, arith,
}
use os_pi_is_cool.Fs.Errors.{Result, success, error}
use os_pi_is_cool.Fs.Driver.{Driver}
use os_pi_is_cool.Fs.Cache.{Node, Disk, max_size, empty_rounds, lru_cache_empty}
use os_pi_is_cool.Fs.Cache.Coherent.{IsCoherent, Cached, lru_cache_remove_back-IsCoherent}

module _ (D : Driver) where
  nil_of : (ns : List Node) → length ns ≤ 0 → ns ≡ []
  nil_of [] h = refl
  nil_of (n ∷ ns) h = absurd (omega arith)

  limited : (d : Disk D) (k l : ℕ) → IsCoherent D k d → length d.nodes ≤ l → IsCoherent D l d
  limited d k l h e = record {
    counted = h.counted;
    few = e;
    clean = h.clean;
    within = h.within;
    sized = h.sized;
  }

  empty_rounds_lem :
      (left : ℕ) (d : Disk D)
      → IsCoherent D left d
      → Ends (λ r. (r.1.nodes ≡ []) × Cached D 0 d r) ⊥ (empty_rounds D left d)
  unfolding empty_rounds
  empty_rounds_lem zero d h = returns (nil_of d.nodes h.few, (refl, h, (refl, refl), refl))
  empty_rounds_lem (suc left) d h =
      Ends-if (length d.nodes == 0)
        (λ t.
          let e : length d.nodes ≤ 0 = ground arith in
          returns (nil_of d.nodes e, (refl, limited d (suc left) 0 h e, (refl, refl), refl)))
        (λ t.
          Ends-bind (lru_cache_remove_back-IsCoherent D d left h (ground arith))
            (λ x c. next x c (λ d' k. empty_rounds_lem left d' k)))
    where
      next :
          (x : Result Unit × Disk D)
          → Cached D left d x
          → ((d' : Disk D)
              → IsCoherent D left d'
              → Ends (λ r. (r.1.nodes ≡ []) × Cached D 0 d' r) ⊥ (empty_rounds D left d'))
          → Ends
              (λ r. (r.1.nodes ≡ []) × Cached D 0 d r)
              ⊥
              (elim x.0 [ error e ↦ ok (error e, x.1) | success u ↦ empty_rounds D left x.1 ])
      next (error e, d') c ih = absurd (cc c.0)
      next (success u, d') (e, c, k, v) ih =
          Ends-mono (ih d' c)
            (λ r (n, (e', c', k', v')). (n, (e', c', (k'.0 ∙ k.0, k'.1 ∙ k.1), v' ∙ v)))

  -- Emptying a cache of at most 12 nodes that agrees with the device ends with no node left and
  -- succeeds, whatever the device does, and the device is as before: no node had to be written back.
  pub lru_cache_empty_lem :
      (d : Disk D)
      → IsCoherent D max_size d
      → Ends (λ r. (r.1.nodes ≡ []) × Cached D 0 d r) ⊥ (lru_cache_empty D d)
  unfolding lru_cache_empty
  lru_cache_empty_lem d h =
      empty_rounds_lem (length d.nodes) d (limited d max_size (length d.nodes) h (omega arith))
