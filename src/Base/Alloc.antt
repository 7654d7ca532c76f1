-- ===== src/Base/Alloc.antt =====
-- What the data structures ask of `kmalloc` (kernel/memory/kmalloc.c): storage by the byte, or NULL.
use Prim.Native.Nat.{ℕ, ◌*◌, ◌^◌, ◌≤◌}
use mathlib.Core.Path.{◌≡◌}
use mathlib.Core.Option.{Option, none, some}
use mathlib.Core.List.{List}
use os_pi_is_cool.Base.Lists.{length}

-- `ptr_t`, an address or a number that the caller stores as one; NULL is 0.
abbrev pub Ptr : Type 0
Ptr = ℕ

abbrev pub null : Ptr
null = 0

-- A block of pointers, with what it happens to contain, is as large as was asked for, and no
-- request beyond the 48 bits of an address is met.
pub record Allocator : Type 0 where
  pub alloc : ℕ → Option (List Ptr)
  pub covers : (bytes : ℕ) (cells : List Ptr) → alloc bytes ≡ some cells → bytes ≤ 8 * length cells
  pub bounded : (bytes : ℕ) (cells : List Ptr) → alloc bytes ≡ some cells → bytes ≤ 2 ^ 48

-- Some request was refused.
abbrev pub OutOfMemory : Allocator → Type 0
OutOfMemory k = (bytes : ℕ) × (k.alloc bytes ≡ none)
