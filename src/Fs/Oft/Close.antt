-- ===== src/Fs/Oft/Close.antt =====
-- `oft_close_file` gives back one reference, and the entry with the last one.
use os_pi_is_cool.Base.{
  ℕ, zero, suc, ◌+◌, ◌-◌, ◌%◌, ◌^◌, ◌<◌, ◌≡◌, ◌≢◌, inl, inr, refl, sym, ap, subst, ◌∙◌, arith, true,
  false, Option, none, some, List, [], ◌∷◌, ◌++◌, append_assoc, length, length-append, length-snoc,
  get_or, if◌then◌else◌, ◌==◌, ltb, leb, Bool-cases, ok, ◌>>=◌, store, store-append, Ptr, null,
  Ends, returns, Ends-bind, Ends-if,
}
use os_pi_is_cool.Thread.{update}
use os_pi_is_cool.Vec.{Vec, pop_back}
use os_pi_is_cool.Vec.Holds.{Holds}
use os_pi_is_cool.Vec.Grow.{pop_back-Holds}
use os_pi_is_cool.Fs.Errors.{Result, success, error, file_not_found, oft_fd_does_not_exist}
use os_pi_is_cool.Fs.Oft.{
  Oft, entry_deletor, null_at, remove_entry, close_found, oft_close_file, get_oft_entry_by_fd,
}
use os_pi_is_cool.Fs.Oft.Find.{place_of, search_lem}
use os_pi_is_cool.Fs.Oft.Open.{entry_of, get_oft_entry_by_fd_lem}

-- The table without the entry between `xs` and `ys`.
abbrev pub without : List Ptr → List Ptr → List Ptr
without xs [] = xs
without xs (y ∷ ys) = xs ++ null ∷ y ∷ ys

place_split :
    (e : Ptr) (i : ℕ) (es : List Ptr) (j : ℕ)
    → place_of e i es ≡ some j
    → (xs : List Ptr) × (ys : List Ptr) × (es ≡ xs ++ e ∷ ys) × (j ≡ i + length xs)
place_split e i [] j h = absurd (cc)
place_split e i (x ∷ es) j h = elim (Bool-cases (x == e)) [
  | inl here ↦
      let same : some i ≡ some j = rw here at h in
      let at : i ≡ j = cc in
      let is_e : x ≡ e = ground arith in ([], es, ap (λ z. z ∷ es) is_e, omega arith)
  | inr other ↦
      let (xs, ys, split, at) = place_split e (i + 1) es j (rw other at h) in
      (x ∷ xs, ys, ap (λ z. x ∷ z) split, omega arith)
]

get_or-without :
    (xs : List Ptr) (e : Ptr) (ys : List Ptr) (fd : ℕ)
    → get_or (without xs ys) fd null
      ≡ (if fd == length xs then null else get_or (xs ++ e ∷ ys) fd null)
get_or-without [] e [] zero = refl
get_or-without [] e [] (suc fd) = let no : (suc fd == 0) ≡ false = ground arith in rw no refl
get_or-without [] e (y ∷ ys) zero = refl
get_or-without [] e (y ∷ ys) (suc fd) = let no : (suc fd == 0) ≡ false = ground arith in rw no refl
get_or-without (x ∷ xs) e [] zero =
    let no : (0 == suc (length xs)) ≡ false = ground arith in rw no refl
get_or-without (x ∷ xs) e (y ∷ ys) zero =
    let no : (0 == suc (length xs)) ≡ false = ground arith in rw no refl
get_or-without (x ∷ xs) e [] (suc fd) =
    let same : (suc fd == suc (length xs)) ≡ (fd == length xs) = ground arith in
    rw same (get_or-without xs e [] fd)
get_or-without (x ∷ xs) e (y ∷ ys) (suc fd) =
    let same : (suc fd == suc (length xs)) ≡ (fd == length xs) = ground arith in
    rw same (get_or-without xs e (y ∷ ys) fd)

pub entry_of-without :
    (xs : List Ptr) (e : Ptr) (ys : List Ptr) (fd : ℕ)
    → entry_of (without xs ys) fd
      ≡ (if fd == length xs then error oft_fd_does_not_exist else entry_of (xs ++ e ∷ ys) fd)
entry_of-without xs e ys fd = elim (Bool-cases (leb (2 ^ 31) fd)) [
  | inl negative ↦ elim (Bool-cases (fd == length xs)) [
    | inl here ↦ rw (negative, here) refl
    | inr other ↦ rw (negative, other) refl
  ]
  | inr valid ↦
      rw (valid, get_or-without xs e ys fd)
        (elim (Bool-cases (fd == length xs)) [
          | inl here ↦ rw here refl
          | inr other ↦ rw other refl
        ])
]

-- How a close of the entry at `e` ends.
pub data Closed (o : Oft) (es : List Ptr) (e : Ptr) : Oft × Result Unit → Type 0 where
  unknown : place_of e 0 es ≡ none → Closed o es e (o, error file_not_found)
  kept :
      {o' : Oft} {fd : ℕ}
      → place_of e 0 es ≡ some fd
      → 1 < (o.entries e).ref_count
      → o'.table ≡ o.table
      → o'.entries
        ≡ update o.entries e (record (o.entries e) { ref_count = (o.entries e).ref_count - 1 })
      → (o'.freed ≡ o.freed) × (o'.put_inodes ≡ o.put_inodes)
      → Closed o es e (o', success tt)
  removed :
      {o' : Oft} {fd : ℕ} (xs ys : List Ptr)
      → place_of e 0 es ≡ some fd
      → (o.entries e).ref_count ≡ 1
      → (es ≡ xs ++ e ∷ ys) × (fd ≡ length xs)
      → Holds o'.table (without xs ys)
      → (o'.freed ≡ o.freed ++ e ∷ [])
        × (o'.put_inodes ≡ (
            if ltb 0 (o.entries e).ino_id
            then o.put_inodes ++ (o.entries e).inode ∷ []
            else o.put_inodes))
      → ((n : ℕ)
          → get_oft_entry_by_fd n o'
            ≡ ok (if n == fd then error oft_fd_does_not_exist else entry_of es n))
      → Closed o es e (o', success tt)

taken_out :
    (v : Vec) (xs : List Ptr) (e : Ptr) (ys : List Ptr)
    → Holds v (xs ++ e ∷ ys)
    → Ends
        (λ w. Holds w (without xs ys))
        ⊥
        (if v.length == length xs + 1
          then (pop_back false v >>= λ (w, took, x). ok w)
          else null_at (length xs) v)
taken_out v xs e [] h =
    let last : (v.length == length xs + 1) ≡ true = ground (arith, h.counted, length-snoc xs e) in
    rw last (Ends-bind (pop_back-Holds false xs e h) λ w (held, _, _, _). returns held)
taken_out v xs e (y ∷ ys) h =
    let inside : (v.length == length xs + 1) ≡ false =
      ground (arith, h.counted, length-append xs (e ∷ y ∷ ys)) in
    let cells : store v.data_cells (length xs) null ≡ ok (xs ++ null ∷ ((y ∷ ys) ++ h.spare)) =
      rw (h.stored, append_assoc xs (e ∷ y ∷ ys) h.spare)
        (store-append xs e ((y ∷ ys) ++ h.spare) (length xs) null refl) in
    rw (inside, cells)
      (returns (record {
        spare = h.spare;
        stored = sym (append_assoc xs (null ∷ y ∷ ys) h.spare);
        counted =
            h.counted ∙ length-append xs (e ∷ y ∷ ys) ∙ sym (length-append xs (null ∷ y ∷ ys));
        room =
            omega (arith, h.room, length-append xs (e ∷ y ∷ ys), length-append xs (null ∷ y ∷ ys));
        fits =
            omega (arith, h.fits, length-append xs (e ∷ y ∷ ys), length-append xs (null ∷ y ∷ ys));
        small = h.small;
      }))

deleted :
    (e : Ptr) (o : Oft)
    → e ≢ null
    → ((entry_deletor e o).table ≡ o.table)
      × ((entry_deletor e o).freed ≡ o.freed ++ e ∷ [])
      × ((entry_deletor e o).put_inodes ≡ (
          if ltb 0 (o.entries e).ino_id
          then o.put_inodes ++ (o.entries e).inode ∷ []
          else o.put_inodes))
unfolding entry_deletor
deleted e o ne =
    let there : (e == null) ≡ false = ground arith in
    elim (Bool-cases (ltb 0 (o.entries e).ino_id)) [
      | inl numbered ↦ rw (there, numbered) (refl, refl, refl)
      | inr unnumbered ↦ rw (there, unnumbered) (refl, refl, refl)
    ]

one_less : (n : ℕ) → 0 < n → n < 2 ^ 16 → (n + 65535) % 2 ^ 16 ≡ n - 1
one_less n more small = omega arith

update-same {ℓ} : {A : Type ℓ} (f : ℕ → A) (i : ℕ) (a : A) → update f i a i ≡ a
update-same f i a = let here : (i == i) ≡ true = ground arith in rw here refl

-- The entry with this count.
abbrev recounted : ℕ → Ptr → Oft → Oft
recounted count e o = record o {
  entries = update o.entries e (record (o.entries e) { ref_count = count });
}

last_closed :
    (o : Oft) (es : List Ptr) (e : Ptr) (fd : ℕ)
    → Holds o.table es
    → e ≢ null
    → place_of e 0 es ≡ some fd
    → (o.entries e).ref_count ≡ 1
    → Ends (Closed o es e) ⊥ (remove_entry fd e (recounted 0 e o))
unfolding remove_entry
last_closed o es e fd h ne place one =
    let (xs, ys, split, found) = place_split e 0 es fd place in
    let at : fd ≡ length xs = omega (arith, found) in
    rw at (
      Ends-bind (taken_out o.table xs e ys (subst (Holds o.table) split h)) λ v held.
        let o' = record (recounted 0 e o) { table = v } in
        let (tables, frees, puts) = deleted e o' ne in
        let holds : Holds (entry_deletor e o').table (without xs ys) =
          subst (λ w. Holds w (without xs ys)) (sym tables) held in
        let same = update-same o.entries e (record (o.entries e) { ref_count = 0 }) in
        returns (
          removed xs ys place one (split, at) holds
            (
              frees,
              puts
                  ∙ ap (λ x. if ltb 0 x.ino_id then o.put_inodes ++ x.inode ∷ [] else o.put_inodes)
                      same,
            )
            (λ n.
              get_oft_entry_by_fd_lem (entry_deletor e o') (without xs ys) n holds
              ∙ ap ok (
                  entry_of-without xs e ys n
                  ∙ ap (λ z. if n == length xs then error oft_fd_does_not_exist else entry_of z n)
                      (sym split)
                  ∙ ap (λ z. if n == z then error oft_fd_does_not_exist else entry_of es n)
                      (sym at)))))

close_found_lem :
    (o : Oft) (es : List Ptr) (e : Ptr) (found : Option ℕ)
    → Holds o.table es
    → e ≢ null
    → place_of e 0 es ≡ found
    → 0 < (o.entries e).ref_count
    → (o.entries e).ref_count < 2 ^ 16
    → Ends (Closed o es e) ⊥ (close_found e o found)
close_found_lem o es e none h ne place more small = returns (unknown place)
close_found_lem o es e (some fd) h ne place more small =
    let less = one_less (o.entries e).ref_count more small in
    Ends-if _
      (λ was_last.
        let gone : ((o.entries e).ref_count + 65535) % 2 ^ 16 ≡ 0 = ground arith in
        subst (λ count. Ends (Closed o es e) ⊥ (remove_entry fd e (recounted count e o))) (sym gone)
          (last_closed o es e fd h ne place (omega (arith, gone, less))))
      (λ others. returns (
        kept place (ground (arith, less)) refl
          (ap (λ count. update o.entries e (record (o.entries e) { ref_count = count })) less)
          (refl, refl)))

-- `oft_close_file` on an entry that has at least one reference always returns. An entry that no
-- descriptor stands for is FILE_NOT_FOUND and nothing changes. Otherwise one reference is given
-- back; if it was not the last nothing else changes, and if it was, the first descriptor of the
-- entry stands for nothing, every other one stands for what it stood for before, the entry is
-- freed, and its inode is put if it has a number.
pub oft_close_file_lem :
    (o : Oft) (es : List Ptr) (e : Ptr)
    → Holds o.table es
    → e ≢ null
    → 0 < (o.entries e).ref_count
    → (o.entries e).ref_count < 2 ^ 16
    → Ends (Closed o es e) ⊥ (oft_close_file e o)
unfolding oft_close_file
oft_close_file_lem o es e h ne more small =
    let there : (e == null) ≡ false = ground arith in
    rw (there, search_lem o.table [] es o.table.length 0 e h refl h.counted ne)
      (close_found_lem o es e (place_of e 0 es) h ne refl more small)
