-- ===== src/Fs/Cache/Nodes.antt =====
-- The list of nodes: which block each holds, and the operations that look one up and take one out.
use os_pi_is_cool.Base.{
  ℕ, zero, suc, ◌<◌, ◌≡◌, ◌≢◌, refl, sym, ap, false, ◌==◌, Option, none, some, List, [], ◌∷◌, ◌++◌,
  length, ok, ◌>>=◌, Ends, returns, Ends-bind, Ends-if, arith,
}
use os_pi_is_cool.Fs.Cache.{Node, find_node, take_out, take_last}

-- No node has the block.
abbrev pub Absent : ℕ → List Node → Type 0
Absent block [] = Unit
Absent block (n ∷ ns) = n.block ≢ block × Absent block ns

-- A node has what `view` has at its block, one of `count`, and need not be written back.
abbrev pub IsClean : (ℕ → List ℕ) → ℕ → Node → Type 0
IsClean view count n = (n.dirty ≡ false) × (n.bytes ≡ view n.block) × (n.block < count)

-- All nodes are clean, each of another block.
abbrev pub AllClean : (ℕ → List ℕ) → ℕ → List Node → Type 0
AllClean view count [] = Unit
AllClean view count (n ∷ ns) = IsClean view count n × Absent n.block ns × AllClean view count ns

pub Absent-append : (b : ℕ) (xs ys : List Node) → Absent b (xs ++ ys) → Absent b xs × Absent b ys
Absent-append b [] ys h = (tt, h)
Absent-append b (x ∷ xs) ys (p, h) = let r = Absent-append b xs ys h in ((p, r.0), r.1)

pub append-Absent : (b : ℕ) (xs ys : List Node) → Absent b xs → Absent b ys → Absent b (xs ++ ys)
append-Absent b [] ys h k = k
append-Absent b (x ∷ xs) ys (p, h) k = (p, append-Absent b xs ys h k)

-- A node in the middle is clean and the only one of its block, and the others stay as they are.
pub AllClean-remove :
    (view : ℕ → List ℕ) (count : ℕ) (xs : List Node) (n : Node) (ys : List Node)
    → AllClean view count (xs ++ n ∷ ys)
    → IsClean view count n × Absent n.block (xs ++ ys) × AllClean view count (xs ++ ys)
AllClean-remove view count [] n ys h = h
AllClean-remove view count (x ∷ xs) n ys (c, a, h) =
    let r = AllClean-remove view count xs n ys h in
    let s = Absent-append x.block xs (n ∷ ys) a in
    (r.0, ((λ e. s.1.0 (sym e)), r.1), (c, append-Absent x.block xs ys s.0 s.1.1, r.2))

-- A change of a block that no node has.
pub AllClean-view :
    {view view' : ℕ → List ℕ} {count b : ℕ} (ns : List Node)
    → ((m : ℕ) → m < count → m ≢ b → view' m ≡ view m)
    → Absent b ns
    → AllClean view count ns
    → AllClean view' count ns
AllClean-view [] same a h = tt
AllClean-view {view} {view'} (n ∷ ns) same (p, a) ((d, e, l), q, h) =
    ((d, cc (same n.block l p), l), q, AllClean-view ns same a h)

-- How the lookup of a block ends, in a list of nodes.
pub data Found (block : ℕ) (ns : List Node) : Option ℕ → Type 0 where
  hit :
      {i : ℕ} (before : List Node) (n : Node) (after : List Node)
      → ns ≡ before ++ n ∷ after
      → i ≡ length before
      → n.block ≡ block
      → Found block ns (some i)
  miss : Absent block ns → Found block ns none

found_later :
    {block : ℕ} {ns : List Node} (n : Node) {o : Option ℕ}
    → n.block ≢ block
    → Found block ns o
    → Found block (n ∷ ns) (elim o [ none ↦ none | some i ↦ some (suc i) ])
found_later n p (hit before m after e i q) =
    hit (n ∷ before) m after (ap (λ z. n ∷ z) e) (omega arith) q
found_later n p (miss a) = miss (p, a)

pub find_node_lem :
    (block left : ℕ) (ns : List Node)
    → left ≡ length ns
    → Ends (Found block ns) ⊥ (find_node block left ns)
unfolding find_node
find_node_lem block zero [] h = returns (miss tt)
find_node_lem block zero (n ∷ ns) h = absurd (omega arith)
find_node_lem block (suc left) [] h = absurd (omega arith)
find_node_lem block (suc left) (n ∷ ns) h =
    Ends-if (n.block == block) (λ t. returns (hit [] n ns refl refl (ground arith)))
      (λ t.
        Ends-bind (find_node_lem block left ns (omega arith))
          (λ o f. returns (found_later n (λ e. absurd (ground arith)) f)))

pub take_out_lem :
    (before : List Node) (n : Node) (after : List Node) (i : ℕ)
    → i ≡ length before
    → take_out i (before ++ n ∷ after) ≡ ok (n, before ++ after)
unfolding take_out
take_out_lem [] n after zero h = refl
take_out_lem [] n after (suc i) h = absurd (omega arith)
take_out_lem (x ∷ before) n after zero h = absurd (omega arith)
take_out_lem (x ∷ before) n after (suc i) h =
    ap (λ r. r >>= λ (m, rest). ok (m, x ∷ rest)) (take_out_lem before n after i (omega arith))

-- The tail, after the other nodes.
pub take_last_lem :
    (n : Node) (ns : List Node) → Ends (λ r. (n ∷ ns) ≡ r.1 ++ (r.0 ∷ [])) ⊥ (take_last (n ∷ ns))
unfolding take_last
take_last_lem n [] = returns refl
take_last_lem n (m ∷ ns) = Ends-bind (take_last_lem m ns) (λ r e. returns (ap (λ z. n ∷ z) e))
