-- ===== src/RingBuffer/Queue.antt =====
-- What a ring buffer promises: a queue of at most `capacity` bytes, oldest first.
use os_pi_is_cool.Base.{
  ℕ, Bool, true, false, Option, none, some, List, [], ◌∷◌, ◌++◌, if◌then◌else◌, ◌==◌, length,
}

pub data Op : Type 0 where
  produce : ℕ → Op
  consume remove_back : Op

pub record Reply : Type 0 where
  pub done : Bool
  pub byte : Option ℕ

abbrev pub reply : Bool → Option ℕ → Reply
reply d b = record { done = d; byte = b }

abbrev pub drop_last : List ℕ → List ℕ
drop_last [] = []
drop_last (x ∷ []) = []
drop_last (x ∷ y ∷ q) = x ∷ drop_last (y ∷ q)

abbrev pub has_any : List ℕ → Bool
has_any [] = false
has_any (x ∷ q) = true

module _ (capacity : ℕ) where
  unfoldable pub call : Op → List ℕ → List ℕ × Reply
  call (produce c) q =
      if length q == capacity then (q, reply false none) else (q ++ c ∷ [], reply true none)
  call consume [] = ([], reply false none)
  call consume (x ∷ q) = (q, reply true (some x))
  call remove_back q = (drop_last q, reply (has_any q) none)

  unfoldable pub run : List Op → List ℕ → List Reply
  run [] q = []
  run (op ∷ ops) q = let (q', out) = call op q in out ∷ run ops q'
