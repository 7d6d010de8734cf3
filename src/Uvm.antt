-- ===== src/Uvm.antt =====
-- p5/xv6-public/vm.c and proc.c: the reference counts of page directories that threads share.
-- `uvmrefcount` is an array of NPROC descriptors; one with count -1 is free. A page directory with
-- no descriptor belongs to one process.
pub mod Counts
pub mod Sharing
mod Tests
use cs537pair.Prelude.{
  ℕ, Bool, true, false, ◌&&◌, not, List, Option, none, some, ◌==◌, if◌then◌else◌, find_index,
  get_or, set, modify, replicate,
}
use cs537pair.Prelude.Int.{ℤ, pos, negsuc, ◌+ℤ◌, ltb_ℤ, ◌==ℤ◌}

-- `struct uvmdesc`
pub record Uvmdesc : Type 0 where
  pub pgdir : ℕ
  pub refcount : ℤ

abbrev pub is_free : Uvmdesc → Bool
is_free d = d.refcount ==ℤ negsuc 0

abbrev pub describes : ℕ → Uvmdesc → Bool
describes pgdir d = not (is_free d) && (d.pgdir == pgdir)

-- The loop of `pinit`.
unfoldable pub pinit : List Uvmdesc
pinit = replicate 64 (record { pgdir = 0; refcount = negsuc 0 })

unfoldable pub locate_uvmrefcount : ℕ → List Uvmdesc → Option ℕ
locate_uvmrefcount pgdir u = find_index (describes pgdir) u

-- The descriptor, if there is a free one, and the array.
unfoldable pub allocate_uvmrefcount : ℕ → ℤ → List Uvmdesc → Option ℕ × List Uvmdesc
allocate_uvmrefcount pgdir refcount u = elim (find_index is_free u) [
  | none ↦ (none, u)
  | some i ↦ (some i, modify u i (λ _. record { pgdir = pgdir; refcount = refcount }))
]

-- `clone`: one more process uses the page directory.
unfoldable pub share : ℕ → List Uvmdesc → List Uvmdesc
share pgdir u = elim (locate_uvmrefcount pgdir u) [
  | some i ↦ modify u i (λ d. record d { refcount = d.refcount +ℤ pos 1 })
  | none ↦ (allocate_uvmrefcount pgdir (pos 2) u).1
]

abbrev pub zero_desc : Uvmdesc
zero_desc = record { pgdir = 0; refcount = pos 0 }

-- The count of a located descriptor: `freevm` panics below 1, and else takes one away; at 0 it frees
-- the descriptor and goes on to free the pages.
unfoldable pub decrement : ℤ → Option (Bool × ℤ)
decrement count =
    let less = count +ℤ negsuc 0 in
    if ltb_ℤ count (pos 1)
    then none
    else if less ==ℤ pos 0
    then some (true, negsuc 0)
    else some (false, less)

abbrev pub store_count : List Uvmdesc → ℕ → Option (Bool × ℤ) → Option (Bool × List Uvmdesc)
store_count u i none = none
store_count u i (some (last, c)) = some (last, modify u i (λ d. record d { refcount = c }))

-- The head of `freevm`: whether it goes on to free the pages, and the array; `none` is its panic.
unfoldable pub drop_ref : ℕ → List Uvmdesc → Option (Bool × List Uvmdesc)
drop_ref pgdir u = elim (locate_uvmrefcount pgdir u) [
  | none ↦ some (true, u)
  | some i ↦ store_count u i (decrement (get_or u i zero_desc).refcount)
]
