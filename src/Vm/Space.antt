-- ===== src/Vm/Space.antt =====
-- p5/xv6-public/vm.c: address spaces, grown, shrunk and freed.
-- A page holds 1024 words, a user page too; what a free page holds is not kept. `end` is a
-- symbol of the linker script.
use cs537pair.Prelude.{
  ℕ, zero, suc, ◌+◌, ◌-◌, ◌*◌, ◌/◌, ◌%◌, ◌^◌, ◌==◌, Bool, false, not, Option, none, some, ltb, leb,
  if◌then◌else◌, ◌>>=◌,
}
use cs537pair.Kalloc.{Kmem, kalloc, kfree, kernbase, pgsize, v2p, pg_round_up}
use cs537pair.Vm.{Vm, Tables, put, clear, u32, p2v, pdx, present, pte_addr, walkpgdir, mappages}

-- `PTE_U` in an entry
abbrev pub user : ℕ → Bool
user w = w / 4 % 2 == 1

-- `*pte &= ~PTE_U`
abbrev pub without_u : ℕ → ℕ
without_u w = if user w then w - 4 else w

abbrev clear_u : Option (ℕ × ℕ) × Vm → Option Vm
clear_u (none, s) = none
clear_u (some (t, i), s) = some (record s { tables = put t i (without_u (s.tables t i)) s.tables })

unfoldable pub clearpteu : ℕ → ℕ → Vm → Option Vm
clearpteu pgdir uva s = clear_u (walkpgdir pgdir uva false s)

-- The inner `none` is the null pointer; where there is no page table, `uva2ka` reads through one.
abbrev user_page : Option (ℕ × ℕ) × Vm → Option (Option ℕ)
user_page (none, s) = none
user_page (some (t, i), s) =
    let w = s.tables t i in
    if not (present w)
    then some none
    else if not (user w)
    then some none
    else some (some (p2v (pte_addr w)))

unfoldable pub uva2ka : ℕ → ℕ → Vm → Option (Option ℕ)
uva2ka pgdir uva s = user_page (walkpgdir pgdir uva false s)

-- `PGADDR(PDX(a) + 1, 0, 0) - PGSIZE`
abbrev pub skip_table : ℕ → ℕ
skip_table a = u32 (u32 ((pdx a + 1) * 4194304) + 2 ^ 32 - pgsize)

module _ (end : ℕ) where
  -- The body of the loop of `deallocuvm`, and what it leaves in `a`.
  unfoldable pub dealloc_page : ℕ → Option (ℕ × ℕ) × Vm → Option (ℕ × Vm)
  dealloc_page a (none, s) = some (skip_table a, s)
  dealloc_page a (some (t, i), s) =
      let w = s.tables t i in
      let freed = kfree end (p2v (pte_addr w)) s.kmem >>= λ m.
      some (a, record s { kmem = m; tables = put t i 0 s.tables }) in
      if not (present w) then some (a, s) else if pte_addr w == 0 then none else freed

  -- With fuel for its rounds.
  unfoldable pub dealloc_loop : ℕ → ℕ → ℕ → ℕ → Vm → Option Vm
  dealloc_loop zero pgdir a oldsz s = none
  dealloc_loop (suc fuel) pgdir a oldsz s =
      let rest = dealloc_page a (walkpgdir pgdir a false s) >>= λ r.
      dealloc_loop fuel pgdir (u32 (r.0 + pgsize)) oldsz r.1 in
      if ltb a oldsz then rest else some s

  unfoldable pub deallocuvm : ℕ → ℕ → ℕ → Vm → Option (ℕ × Vm)
  deallocuvm pgdir oldsz newsz s =
      if leb oldsz newsz
      then some (oldsz, s)
      else dealloc_loop (2 ^ 20 + 1) pgdir (u32 (pg_round_up newsz)) oldsz s >>= λ s'.
          some (newsz, s')

  -- The way out of `allocuvm` when memory runs out, with the page that is not mapped.
  abbrev grow_failed : ℕ → ℕ → ℕ → Option ℕ → Vm → Option (Option ℕ × Vm)
  grow_failed pgdir oldsz newsz mem s = deallocuvm pgdir newsz oldsz s >>= λ r. elim mem [
    | none ↦ some (some 0, r.1)
    | some v ↦ kfree end v r.1.kmem >>= λ m. some (some 0, record r.1 { kmem = m })
  ]

  -- The body of the loop of `allocuvm`: what it returns, if it does, and the state.
  unfoldable pub alloc_page : ℕ → ℕ → ℕ → ℕ → Option ℕ × Kmem → Tables → Option (Option ℕ × Vm)
  alloc_page pgdir a oldsz newsz (none, k) ts =
      grow_failed pgdir oldsz newsz none (record { kmem = k; tables = ts })
  alloc_page pgdir a oldsz newsz (some mem, k) ts =
      mappages pgdir a pgsize (v2p mem) 6 (record { kmem = k; tables = clear mem ts }) >>= λ r.
      if r.0 then some (none, r.1) else grow_failed pgdir oldsz newsz (some mem) r.1

  unfoldable pub alloc_loop : ℕ → ℕ → ℕ → ℕ → ℕ → Vm → Option (ℕ × Vm)
  alloc_loop zero pgdir a oldsz newsz s = none
  alloc_loop (suc fuel) pgdir a oldsz newsz s =
      let body = alloc_page pgdir a oldsz newsz (kalloc s.kmem) s.tables >>= λ r. elim r.0 [
        | none ↦ alloc_loop fuel pgdir (u32 (a + pgsize)) oldsz newsz r.1
        | some size ↦ some (size, r.1)
      ] in
      if ltb a newsz then body else some (newsz, s)

  unfoldable pub allocuvm : ℕ → ℕ → ℕ → Vm → Option (ℕ × Vm)
  allocuvm pgdir oldsz newsz s =
      if leb kernbase newsz
      then some (0, s)
      else if ltb newsz oldsz
      then some (oldsz, s)
      else alloc_loop (2 ^ 20 + 1) pgdir (u32 (pg_round_up oldsz)) oldsz newsz s

  -- The loop of `freevm` over the `n` entries of the directory from index `i` on.
  unfoldable pub free_tables : ℕ → ℕ → ℕ → Vm → Option Vm
  free_tables zero i pgdir s = some s
  free_tables (suc n) i pgdir s =
      let w = s.tables pgdir i in
      let page = if present w then kfree end (p2v (pte_addr w)) s.kmem else some s.kmem in
      page >>= λ m. free_tables n (i + 1) pgdir (record s { kmem = m })

  -- `freevm` behind the count of the directory.
  unfoldable pub free_pages : ℕ → Vm → Option Vm
  free_pages pgdir s =
      if pgdir == 0
      then none
      else deallocuvm pgdir kernbase 0 s >>= λ r. free_tables 1024 0 pgdir r.1 >>= λ s'.
          kfree end pgdir s'.kmem >>= λ m. some (record s' { kmem = m })
