-- ===== src/Kalloc.antt =====
-- p5/xv6-public/kalloc.c: the allocator of physical pages.
-- The free list is the list of the addresses that its `next` pointers link. What a free page holds
-- besides its link (the junk of `memset`) is not kept; `kmem.lock` only makes each call atomic.
-- `end` is set by the linker script and is a parameter.
pub mod Safety
pub mod Range
mod Tests
use cs537pair.Prelude.{
  ℕ, zero, suc, ◌+◌, ◌-◌, ◌*◌, ◌/◌, ◌%◌, ◌^◌, Bool, true, false, ◌||◌, not, List, [], ◌∷◌, Option,
  none, some, ltb, leb, ◌==◌, if◌then◌else◌, ◌>>=◌,
}

abbrev pub pgsize : ℕ
pgsize = 4096

abbrev pub kernbase : ℕ
kernbase = 0x80000000

abbrev pub phystop : ℕ
phystop = 0xE000000

-- `V2P`, a subtraction on `uint`.
abbrev pub v2p : ℕ → ℕ
v2p v = (v + 2 ^ 32 - kernbase) % 2 ^ 32

abbrev pub pg_round_up : ℕ → ℕ
pg_round_up a = (a + pgsize - 1) / pgsize * pgsize

-- `struct kmem`
pub record Kmem : Type 0 where
  pub use_lock : Bool
  pub freelist : List ℕ

module _ (end : ℕ) where
  -- The test that `kfree` panics on.
  abbrev pub bad_page : ℕ → Bool
  bad_page v = not (v % pgsize == 0) || ltb v end || leb phystop (v2p v)

  -- `none` is the panic.
  unfoldable pub kfree : ℕ → Kmem → Option Kmem
  kfree v k = if bad_page v then none else some (record k { freelist = v ∷ k.freelist })

  -- The loop of `freerange`, with fuel for its rounds.
  unfoldable pub freerange_loop : ℕ → ℕ → ℕ → Kmem → Option Kmem
  freerange_loop zero p vend k = none
  freerange_loop (suc fuel) p vend k =
      let rest = kfree p k >>= freerange_loop fuel (p + pgsize) vend in
      if leb (p + pgsize) vend then rest else some k

  -- A round needs a page of the address space, so 2 ^ 20 rounds and the last test are enough.
  unfoldable pub freerange : ℕ → ℕ → Kmem → Option Kmem
  freerange vstart vend k = freerange_loop (vend / pgsize + 1) (pg_round_up vstart) vend k

  unfoldable pub kinit1 : ℕ → ℕ → Kmem → Option Kmem
  kinit1 vstart vend k = freerange vstart vend (record k { use_lock = false })

  unfoldable pub kinit2 : ℕ → ℕ → Kmem → Option Kmem
  kinit2 vstart vend k = freerange vstart vend k >>= λ k'. some (record k' { use_lock = true })

-- The page at the head of the free list; `none` stands for the null pointer.
unfoldable pub kalloc : Kmem → Option ℕ × Kmem
kalloc k = elim k.freelist [ [] ↦ (none, k) | r ∷ next ↦ (some r, record k { freelist = next }) ]
