-- ===== src/Vm/Copy.antt =====
-- p5/xv6-public/vm.c: address spaces, made and copied.
-- `end` and `kdata` (`data` there) are symbols of the linker script.
use cs537pair.Prelude.{
  ℕ, zero, suc, ◌+◌, ◌-◌, ◌%◌, ◌^◌, ◌==◌, Bool, true, false, List, [], ◌∷◌, Option, none, some, ltb,
  if◌then◌else◌, ◌>>=◌,
}
use cs537pair.Kalloc.{Kmem, kalloc, kfree, kernbase, phystop, pgsize, v2p}
use cs537pair.Uvm.{Uvmdesc, drop_ref}
use cs537pair.Vm.{Vm, Tables, clear, u32, p2v, present, pte_addr, walkpgdir, mappages}
use cs537pair.Vm.Space.{free_pages}

-- The page tables, and the counts of the directories that threads share.
pub record Space : Type 0 where
  pub vm : Vm
  pub uvm : List Uvmdesc

-- `struct kmap`
pub record Kmap : Type 0 where
  pub virt : ℕ
  pub phys_start : ℕ
  pub phys_end : ℕ
  pub perm : ℕ

abbrev pub devspace : ℕ
devspace = 0xFE000000

module _ (end kdata : ℕ) where
  unfoldable pub freevm : ℕ → Space → Option Space
  freevm pgdir s = drop_ref pgdir s.uvm >>= λ r.
      if r.0
      then (free_pages end pgdir s.vm >>= λ v. some (record { vm = v; uvm = r.1 }))
      else some (record s { uvm = r.1 })

  abbrev pub kmap : List Kmap
  kmap =
      record { virt = kernbase; phys_start = 0; phys_end = 0x100000; perm = 2 }
      ∷ record { virt = kernbase + 0x100000; phys_start = 0x100000; phys_end = v2p kdata; perm = 0 }
      ∷ record { virt = kdata; phys_start = v2p kdata; phys_end = phystop; perm = 2 }
      ∷ record { virt = devspace; phys_start = devspace; phys_end = 0; perm = 2 }
      ∷ []

  -- The loop of `setupkvm`; the inner `none` is its null pointer.
  unfoldable pub map_kernel : List Kmap → ℕ → Space → Option (Option ℕ × Space)
  map_kernel [] pgdir s = some (some pgdir, s)
  map_kernel (k ∷ ks) pgdir s =
      mappages pgdir k.virt (u32 (k.phys_end + 2 ^ 32 - k.phys_start)) k.phys_start k.perm s.vm
      >>= λ r.
          let s' : Space = record s { vm = r.1 } in
          let failed = freevm pgdir s' >>= λ s''. some (none, s'') in
          if r.0 then map_kernel ks pgdir s' else failed

  unfoldable pub setup_at : Option ℕ × Kmem → Space → Option (Option ℕ × Space)
  setup_at (none, m) s = some (none, record s { vm = record s.vm { kmem = m } })
  setup_at (some pgdir, m) s =
      if ltb devspace (p2v phystop)
      then none
      else map_kernel kmap pgdir
          (record s { vm = record { kmem = m; tables = clear pgdir s.vm.tables } })

  unfoldable pub setupkvm : Space → Option (Option ℕ × Space)
  setupkvm s = setup_at (kalloc s.vm.kmem) s

  -- `memmove` of a page
  abbrev pub copy_page : ℕ → ℕ → Tables → Tables
  copy_page to from ts p i = if p == to then ts from i else ts p i

  -- What `copyuvm` does with an entry that is present, and a new page, or null.
  unfoldable pub copy_to : ℕ → ℕ → ℕ → Option ℕ × Kmem → Tables → Option (Bool × Vm)
  copy_to d i w (none, m) ts = some (false, record { kmem = m; tables = ts })
  copy_to d i w (some mem, m) ts =
      let s : Vm = record { kmem = m; tables = copy_page mem (p2v (pte_addr w)) ts } in
      mappages d i pgsize (v2p mem) (w % pgsize) s >>= λ r.
      if r.0
      then some (true, r.1)
      else kfree end mem r.1.kmem >>= λ k. some (false, record r.1 { kmem = k })

  abbrev pub copy_entry : ℕ → ℕ → Option (ℕ × ℕ) × Vm → Option (Bool × Vm)
  copy_entry d i (none, s) = none
  copy_entry d i (some (t, j), s) =
      if present (s.tables t j) then copy_to d i (s.tables t j) (kalloc s.kmem) s.tables else none

  -- The loop of `copyuvm` from address `i` on, with fuel for its rounds.
  unfoldable pub copy_loop : ℕ → ℕ → ℕ → ℕ → ℕ → Space → Option (Option ℕ × Space)
  copy_loop zero pgdir d i sz s = none
  copy_loop (suc fuel) pgdir d i sz s =
      let body = copy_entry d i (walkpgdir pgdir i false s.vm) >>= λ r.
      let s' : Space = record s { vm = r.1 } in
      let bad = freevm d s' >>= λ s''. some (none, s'') in
      if r.0 then copy_loop fuel pgdir d (u32 (i + pgsize)) sz s' else bad in
      if ltb i sz then body else some (some d, s)

  unfoldable pub copyuvm : ℕ → ℕ → Space → Option (Option ℕ × Space)
  copyuvm pgdir sz s = setupkvm s >>= λ r. elim r.0 [
    | none ↦ some (none, r.1)
    | some d ↦ copy_loop (2 ^ 20 + 1) pgdir d 0 sz r.1
  ]
