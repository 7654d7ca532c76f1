-- ===== src/Tests/Memory.antt =====
-- A concrete `kmalloc`: up to a page, zeroed, in cells that are no smaller than asked.
use os_pi_is_cool.Base.{
  ℕ, ◌*◌, ◌^◌, ◌≤◌, ◌≡◌, Option, some, none, List, arith, length, replicate, length-replicate, leb,
  if◌then◌else◌, Ptr, Allocator,
}

abbrev pub page_alloc : ℕ → Option (List Ptr)
page_alloc bytes = if leb bytes 4096 then some (replicate bytes 0) else none

pub page_alloc-covers :
    (bytes : ℕ) (cells : List Ptr) → page_alloc bytes ≡ some cells → bytes ≤ 8 * length cells
page_alloc-covers bytes cells e = ground (arith, length-replicate {A = ℕ} bytes 0)

pub page_alloc-bounded :
    (bytes : ℕ) (cells : List Ptr) → page_alloc bytes ≡ some cells → bytes ≤ 2 ^ 48
page_alloc-bounded bytes cells e = ground arith

abbrev pub page_allocator : Allocator
page_allocator = record {
  alloc = page_alloc;
  covers = page_alloc-covers;
  bounded = page_alloc-bounded;
}
