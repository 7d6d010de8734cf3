-- ===== src/Vm.antt =====
-- p5/xv6-public/vm.c and mmu.h: page tables.
-- A page directory and a page table are pages of 1024 words; a `pte_t *` is the address of its page and
-- its index there. A virtual address is below 2 ^ 32. `none` is a panic.
pub mod Fill
pub mod Map
pub mod Range
pub mod Space
pub mod Copy
pub mod Freed
pub mod FreePage
pub mod Dealloc
pub mod Freevm
mod Tests
use Prim.Native.Nat.{bit_or}
use cs537pair.Prelude.{
  ℕ, zero, suc, ◌+◌, ◌-◌, ◌*◌, ◌/◌, ◌%◌, ◌^◌, Bool, true, false, not, ◌&&◌, Option, none, some, ltb,
  leb, ◌==◌, if◌then◌else◌, ◌>>=◌,
}
use cs537pair.Kalloc.{Kmem, kalloc, kfree, kernbase, pgsize, v2p, pg_round_up}

-- The words of each page, by the kernel address of the page.
abbrev pub Tables : Type 0
Tables = ℕ → ℕ → ℕ

abbrev pub put : ℕ → ℕ → ℕ → Tables → Tables
put t i w ts p j = if (p == t) && (j == i) then w else ts p j

-- `memset(pgtab, 0, PGSIZE)`
abbrev pub clear : ℕ → Tables → Tables
clear t ts p j = if p == t then 0 else ts p j

pub record Vm : Type 0 where
  pub kmem : Kmem
  pub tables : Tables

abbrev pub u32 : ℕ → ℕ
u32 n = n % 2 ^ 32

-- `P2V`
abbrev pub p2v : ℕ → ℕ
p2v a = u32 (a + kernbase)

-- `PDX` and `PTX`
abbrev pub pdx : ℕ → ℕ
pdx va = va / 4194304 % 1024

abbrev pub ptx : ℕ → ℕ
ptx va = va / 4096 % 1024

-- `PGROUNDDOWN`
abbrev pub page_of : ℕ → ℕ
page_of a = a / 4096 * 4096

-- `*pte & PTE_P`
abbrev pub present : ℕ → Bool
present w = w % 2 == 1

-- `PTE_ADDR`
abbrev pub pte_addr : ℕ → ℕ
pte_addr w = w / 4096 * 4096

-- `perm | PTE_P`
abbrev pub with_p : ℕ → ℕ
with_p perm = if present perm then perm else perm + 1

-- The new page table of `walkpgdir`. Its address is that of a page, so `|` adds the flags.
abbrev pub add_table : ℕ → ℕ → ℕ → Vm → Option (ℕ × ℕ) × Vm
add_table pgdir va pgtab s = (
  some (pgtab, ptx va),
  record s { tables = put pgdir (pdx va) (v2p pgtab + 7) (clear pgtab s.tables) },
)

-- `none` is the null pointer here.
unfoldable pub walkpgdir : ℕ → ℕ → Bool → Vm → Option (ℕ × ℕ) × Vm
walkpgdir pgdir va alloc s =
    let pde = s.tables pgdir (pdx va) in
    let (page, k) = kalloc s.kmem in
    if present pde
    then (some (p2v (pte_addr pde), ptx va), s)
    else if not alloc
    then (none, s)
    else elim page [
      | none ↦ (none, record s { kmem = k })
      | some pgtab ↦ add_table pgdir va pgtab (record s { kmem = k })
    ]

-- A round of `mappages` behind `walkpgdir`, with `pa | perm | PTE_P`; `false` is its return of -1.
abbrev pub fill : Option (ℕ × ℕ) → ℕ → ℕ → Vm → Option (Bool × Vm)
fill none pa perm s = some (false, s)
fill (some (t, i)) pa perm s =
    if present (s.tables t i)
    then none
    else some (true, record s { tables = put t i (bit_or pa (with_p perm)) s.tables })

unfoldable pub map_page : ℕ → ℕ → ℕ → ℕ → Vm → Option (Bool × Vm)
map_page pgdir a pa perm s = let (p, s') = walkpgdir pgdir a true s in fill p pa perm s'

-- The loop of `mappages`, with fuel for its rounds.
unfoldable pub mappages_loop : ℕ → ℕ → ℕ → ℕ → ℕ → ℕ → Vm → Option (Bool × Vm)
mappages_loop zero pgdir a last pa perm s = none
mappages_loop (suc fuel) pgdir a last pa perm s = map_page pgdir a pa perm s >>= λ r.
    if not r.0
    then some (false, r.1)
    else if a == last
    then some (true, r.1)
    else mappages_loop fuel pgdir (u32 (a + pgsize)) last (u32 (pa + pgsize)) perm r.1

-- The pages of the address space are 2 ^ 20, and a round is for one of them, up to the last.
unfoldable pub mappages : ℕ → ℕ → ℕ → ℕ → ℕ → Vm → Option (Bool × Vm)
mappages pgdir va size pa perm s =
    mappages_loop (2 ^ 20) pgdir (page_of va) (page_of (u32 (va + size + 2 ^ 32 - 1))) pa perm s
