-- ===== src/Wmap/Pages.antt =====
-- p4/xv6-public/wmap.c: the pages of the mappings, on the page tables of `Vm`, whose `walkpgdir` and
-- `mappages` vm.c has in p4 as in p5. Files are the interface `Files`; `end` is a symbol of the linker script.
use cs537pair.Prelude.{
  ℕ, zero, suc, ◌+◌, ◌-◌, ◌/◌, ◌^◌, Bool, true, false, ◌&&◌, not, List, [], ◌∷◌, Option, none, some,
  ltb, if◌then◌else◌, get_elem?, modify, set, replicate, ◌>>=◌,
}
use cs537pair.Prelude.Int.{ℤ}
use cs537pair.Kalloc.{Kmem, kalloc, kfree, v2p}
use cs537pair.Vm.{Vm, Tables, put, clear, p2v, present, pte_addr, walkpgdir, mappages}
use cs537pair.Vm.Space.{user}
use cs537pair.Wmap.{
  MapEn, Maps, u32, minus, has_flag, map_anonymous, map_shared, pgsize, pg_round_down, drop_map,
  fault_entry,
}

-- What the mappings call on files: `ilock`, `readi` of a page at an offset to a page, and `iunlock`; and
-- `filewrite` of a page.
pub record Files (S : Type 0) : Type 0 where
  pub read_page : ℕ → ℕ → ℕ → Tables → S → Option (Tables × S)
  pub write_page : ℕ → ℕ → Tables → S → Option S

-- What the calls change: the page tables and pages, the mappings of the process, and the files.
pub record Mem (S : Type 0) : Type 0 where
  pub vm : Vm
  pub maps : Maps
  pub files : S

abbrev file_at : ℕ → List (Option ℕ) → Option ℕ
file_at fd ofile = get_elem? ofile fd >>= λ f. f

module _ {S : Type 0} (ops : Files S) (end : ℕ) (pgdir : ℕ) (ofile : List (Option ℕ)) where
  -- `mappages` of a new page, which is freed where that fails, and `memset` of an anonymous one.
  unfoldable pub map_new : Bool → ℕ → ℕ → ℕ → ℕ → Mem S → Option (ℕ × Mem S)
  map_new anon failed i mem va m = mappages pgdir va pgsize (v2p mem) 6 m.vm >>= λ r.
      let ts = if anon then clear mem r.1.tables else r.1.tables in
      let count : Maps = record (m.maps) {
        wmaps = modify m.maps.wmaps i (λ e. record e { lpgs = u32 (e.lpgs + 1) });
      } in
      if r.0
      then some (0, record m { vm = record r.1 { tables = ts }; maps = count })
      else (kfree end mem r.1.kmem >>= λ k.
          some (minus failed, record m { vm = record r.1 { kmem = k } }))

  -- `alloc_nu_pte` with the page that `kalloc` gives.
  unfoldable pub alloc_with : ℕ → MapEn → ℕ → Option ℕ × Kmem → Mem S → Option (ℕ × Mem S)
  alloc_with i e va (none, k) m = some (minus 2, record m { vm = record m.vm { kmem = k } })
  alloc_with i e va (some mem, k) m =
      let m' : Mem S = record m { vm = record m.vm { kmem = k } } in
      if has_flag map_anonymous e.flags
      then map_new true 3 i mem va m'
      else (file_at e.fd ofile >>= λ f.
          ops.read_page f (u32 (va + 2 ^ 32 - e.addr)) mem m.vm.tables m.files >>= λ r.
          map_new false 4 i mem va
            (record m' { vm = record (m'.vm) { tables = r.0 }; files = r.1 }))

  -- `alloc_nu_pte` for the `i`-th mapping
  unfoldable pub alloc_nu_pte : ℕ → ℕ → Mem S → Option (ℕ × Mem S)
  alloc_nu_pte i va m = get_elem? m.maps.wmaps i >>= λ e. alloc_with i e va (kalloc m.vm.kmem) m

  -- `pf_handler`, which does not look at what `alloc_nu_pte` returns.
  unfoldable pub pf_handler : ℕ → Mem S → Option (ℕ × Mem S)
  pf_handler va m = elim (fault_entry va m.maps) [
    | none ↦ some (minus 1, m)
    | some i ↦ alloc_nu_pte i (pg_round_down va) m >>= λ r. some (0, r.1)
  ]

  -- The body of the loop of `wunmap` behind `walkpgdir`.
  unfoldable pub unmap_page : MapEn → Option (ℕ × ℕ) → Mem S → Option (Mem S)
  unmap_page e none m = some m
  unmap_page e (some (t, j)) m =
      let a = pte_addr (m.vm.tables t j) in
      let written = file_at e.fd ofile >>= λ f. ops.write_page f (p2v a) m.vm.tables m.files in
      (if not (has_flag map_anonymous e.flags) && has_flag map_shared e.flags
        then written
        else some m.files)
      >>= λ s. kfree end (p2v a) m.vm.kmem >>= λ k.
          some (record m { vm = record { kmem = k; tables = put t j 0 m.vm.tables }; files = s })

  -- The loop of `wunmap` from address `i` up to `top`, with fuel for its rounds. `walkpgdir` without `alloc`
  -- changes nothing.
  unfoldable pub unmap_loop : ℕ → MapEn → ℕ → ℕ → Mem S → Option (Mem S)
  unmap_loop zero e i top m = none
  unmap_loop (suc fuel) e i top m =
      let rest =
        unmap_page e (walkpgdir pgdir i false m.vm).0 m
        >>= unmap_loop fuel e (u32 (i + pgsize)) top in
      if ltb i top then rest else some m

  unfoldable pub unmap_entry : Option (MapEn × Maps) → ℕ → Mem S → Option (ℕ × Mem S)
  unmap_entry none addr m = some (minus 1, m)
  unmap_entry (some (e, maps)) addr m =
      unmap_loop (2 ^ 20 + 1) e addr (u32 (addr + e.length)) (record m { maps = maps }) >>= λ m'.
      some (0, m')

  -- `wunmap`: what it returns, and the state.
  unfoldable pub wunmap : ℕ → Mem S → Option (ℕ × Mem S)
  wunmap addr m = unmap_entry (drop_map addr m.maps) (pg_round_down addr) m

-- `pte != 0 && (*pte & PTE_P) != 0`
abbrev loaded : Option (ℕ × ℕ) → Vm → Bool
loaded none s = false
loaded (some (t, j)) s = present (s.tables t j)

-- The loop of `count_allocated_pages` from `va` on, over the `rest` pages that the length has.
unfoldable pub count_from : ℕ → ℕ → ℕ → Vm → ℕ
count_from zero pgdir va s = 0
count_from (suc rest) pgdir va s =
    (if loaded (walkpgdir pgdir va false s).0 s then 1 else 0)
    + count_from rest pgdir (u32 (va + pgsize)) s

-- A length that is negative as an `int` has no pages.
unfoldable pub count_allocated_pages : ℕ → ℕ → ℕ → Vm → ℕ
count_allocated_pages pgdir addr length s =
    count_from (if ltb length (2 ^ 31) then (length + 4095) / 4096 else 0) pgdir addr s

-- `struct wmapinfo`
pub record Wmapinfo : Type 0 where
  pub total_mmaps : ℤ
  pub addr : List ℕ
  pub length : List ℕ
  pub n_loaded_pages : List ℕ

abbrev store_info : ℕ → MapEn → Wmapinfo → Wmapinfo
store_info i e w =
    if e.valid
    then record w {
      addr = set w.addr i e.addr;
      length = set w.length i e.length;
      n_loaded_pages = set w.n_loaded_pages i e.lpgs;
    }
    else w

-- The loop of `getwmapinfo` from index `i` on.
unfoldable pub info_from : ℕ → List MapEn → Wmapinfo → Wmapinfo
info_from i [] w = w
info_from i (e ∷ es) w = info_from (i + 1) es (store_info i e w)

unfoldable pub getwmapinfo : Maps → Wmapinfo → Wmapinfo
getwmapinfo m w = info_from 0 m.wmaps (record w { total_mmaps = m.total_maps })

-- `struct pgdirinfo`
pub record Pgdirinfo : Type 0 where
  pub n_upages : ℕ
  pub va : List ℕ
  pub pa : List ℕ

abbrev max_upage_info : ℕ
max_upage_info = 32

abbrev pub user_entry : Option (ℕ × ℕ) → Vm → Option ℕ
user_entry none s = none
user_entry (some (t, j)) s =
    let w = s.tables t j in if present w && user w then some (pte_addr w) else none

abbrev pub add_page : ℕ → Option ℕ → Pgdirinfo → Pgdirinfo
add_page va none d = d
add_page va (some pa) d = record {
  n_upages = d.n_upages + 1;
  va = set d.va d.n_upages va;
  pa = set d.pa d.n_upages pa;
}

-- The loop of `getpgdirinfo`, where the index is the number of pages found; `none` if the fuel runs out.
unfoldable pub pages_from : ℕ → ℕ → ℕ → Vm → Pgdirinfo → Option Pgdirinfo
pages_from zero pgdir va s d = none
pages_from (suc fuel) pgdir va s d =
    let rest =
      pages_from fuel pgdir (u32 (va + pgsize)) s
        (add_page va (user_entry (walkpgdir pgdir va false s).0 s) d) in
    if ltb d.n_upages max_upage_info then rest else some d

unfoldable pub getpgdirinfo : ℕ → ℕ → Vm → Option Pgdirinfo
getpgdirinfo fuel pgdir s =
    pages_from fuel pgdir 0 s
      (record { n_upages = 0; va = replicate max_upage_info 0; pa = replicate max_upage_info 0 })
