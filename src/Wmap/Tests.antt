-- ===== src/Wmap/Tests.antt =====
-- One mapping of a page at the bottom of the region.
use cs537pair.Prelude.{
  find_index, ℕ, ◌+◌, ◌*◌, ◌%◌, ◌<◌, ◌≤◌, ◌≡◌, ◌&&◌, ◌==◌, if◌then◌else◌, ltb, refl, ap, sym, subst,
  [], ◌∷◌, none, some, arith, true, false, Bool, All, Bool-cases, inl, inr,
}
use cs537pair.Prelude.Int.{pos, ◌+ℤ◌}
use cs537pair.Vm.{Vm, present, walkpgdir}
use cs537pair.Vm.Map.{IsApart, target}
use cs537pair.Vm.Freed.{Owned, IsUserPage, Freed}
use cs537pair.Wmap.{MapEn, Maps, check_valid, drop_map, pg_round_down}
use cs537pair.Wmap.Overlap.{Apart, check_valid_iff}
use cs537pair.Wmap.Pages.{Mem, Files, Pgdirinfo, wunmap, pages_from, getpgdirinfo}
use cs537pair.Wmap.Unmap.{Untouched}
use cs537pair.Wmap.Wunmap.{TakenOff, wunmap_lem, wunmap_panics}
use cs537pair.Wmap.Info.{HasNoPages, getpgdirinfo_lem}

abbrev page : MapEn
page = record { valid = true; addr = 0x60000000; length = 4096; lpgs = 0; flags = 6; fd = 0 }

check_valid_iff_example :
    (check_valid 0x60002000 4096 (page ∷ []) ≡ 0 → All (Apart 0x60002000 4096) (page ∷ []))
    × (All (Apart 0x60002000 4096) (page ∷ []) → check_valid 0x60002000 4096 (page ∷ []) ≡ 0)
check_valid_iff_example =
    check_valid_iff 0x60002000 4096 (page ∷ []) (omega arith) (omega arith)
      ((λ e. (omega arith, omega arith, omega arith)), tt)

-- A directory with one page table, which has the first page of the region and not the second.
abbrev dir : ℕ
dir = 0x80400000

abbrev table : ℕ
table = 0x80401000

abbrev space : Vm
space = record {
  kmem = record { use_lock = true; freelist = [] };
  tables = λ p j.
      if (p == dir) && (j == 384)
      then 0x401007
      else if (p == table) && (j == 0)
      then 0x402007
      else 0;
}

abbrev two_pages : MapEn
two_pages = record page { length = 8192 }

abbrev one_mapped : Mem Bool
one_mapped = record {
  vm = space;
  maps = record { wmaps = page ∷ []; total_maps = pos 1 };
  files = true;
}

abbrev two_mapped : Mem Bool
two_mapped = record {
  vm = space;
  maps = record { wmaps = two_pages ∷ []; total_maps = pos 1 };
  files = true;
}

abbrev files : Files Bool
files = record { read_page = λ f off mem ts s. some (ts, s); write_page = λ f mem ts s. some s }

dir_word :
    (i : ℕ) → present (space.tables dir i) ≡ true → (i ≡ 384) × (space.tables dir i ≡ 0x401007)
dir_word i p = elim (Bool-cases (i == 384)) [
  | inl z ↦ (ground arith, rw z refl)
  | inr nz ↦ absurd (ground (arith, rw nz at p))
]

space-IsApart : IsApart dir space
space-IsApart = record {
  pages = tt;
  distinct = tt;
  dir_used = tt;
  tables_used = λ i p. tt;
  beside = λ i p e. let (z, w) = dir_word i p in let t = ap target w in omega (arith, e, t);
  apart =
      λ i j p q e. let (z, w) = dir_word i p in let (z', w') = dir_word j q in omega (arith, z, z');
}

only : (b : ℕ) → b % 4096 ≡ 0 → 0x60000000 ≤ b → b < 0x60000000 + 4096 * 1 → b ≡ 0x60000000
only b z l h = omega arith

space-Owned : Owned 0x80115000 dir 0x60000000 1 space
space-Owned = record {
  good = λ b z l h p. subst (IsUserPage 0x80115000 dir space) (sym (only b z l h)) first_page;
  once = λ b c z l h p z' l' h' p' t. omega arith;
}
  where
    first_page : IsUserPage 0x80115000 dir space 0x60000000
    first_page = record {
      placed = refl;
      fits = refl;
      used = tt;
      not_dir = λ e. omega (arith, e);
      not_table = λ j q t. let (z, w) = dir_word j q in let u = ap target w in omega (arith, t, u);
    }

found_page :
    find_index (λ (x : MapEn). x.addr == pg_round_down 0x60000123) one_mapped.maps.wmaps ≡ some 0
found_page = refl

wunmap_lem_example :
    (s' : Vm) × (maps : Maps) × (wunmap files 0x80115000 dir [] 0x60000123 one_mapped
      ≡ some (0, record one_mapped { vm = s'; maps = maps }))
    × TakenOff 0 page one_mapped.maps maps
    × Freed dir 0x60000000 1 space s'
wunmap_lem_example =
    wunmap_lem files 0x80115000 dir [] 0x60000123 0 one_mapped page found_page refl refl
      (omega arith) space-IsApart space-Owned (λ b z l h p. rw (only b z l h) refl)

found_two :
    drop_map 0x60000000 two_mapped.maps
    ≡ some
        (two_pages, record { wmaps = record two_pages { valid = false } ∷ []; total_maps = pos 0 })
unfolding drop_map ◌+ℤ◌
found_two = refl

wunmap_panics_example : wunmap files 0x80115000 dir [] 0x60000000 two_mapped ≡ none
wunmap_panics_example =
    wunmap_panics files 0x80115000 dir [] 0x60000000 two_mapped two_pages
      (record { wmaps = record two_pages { valid = false } ∷ []; total_maps = pos 0 }) 1 found_two
      refl (omega arith) (omega arith) (omega arith) second_page
  where
    second_page : Untouched dir (0x60000000 + 4096 * 1) space
    second_page = record { beside = space-IsApart.beside; has_table = refl; empty = refl }

-- Thirty-two pages from address 0 on.
abbrev full_space : Vm
full_space = record {
  kmem = record { use_lock = true; freelist = [] };
  tables = λ p j.
      if (p == dir) && (j == 0)
      then 0x401007
      else if (p == table) && ltb j 32
      then 0x402007 + 4096 * j
      else 0;
}

abbrev report : Pgdirinfo
report = record {
  n_upages = 32;
  va =
      0 ∷ 4096 ∷ 8192 ∷ 12288 ∷ 16384 ∷ 20480 ∷ 24576 ∷ 28672 ∷ 32768 ∷ 36864 ∷ 40960 ∷ 45056
      ∷ 49152 ∷ 53248 ∷ 57344 ∷ 61440 ∷ 65536 ∷ 69632 ∷ 73728 ∷ 77824 ∷ 81920 ∷ 86016 ∷ 90112
      ∷ 94208 ∷ 98304 ∷ 102400 ∷ 106496 ∷ 110592 ∷ 114688 ∷ 118784 ∷ 122880 ∷ 126976 ∷ [];
  pa =
      4202496 ∷ 4206592 ∷ 4210688 ∷ 4214784 ∷ 4218880 ∷ 4222976 ∷ 4227072 ∷ 4231168 ∷ 4235264
      ∷ 4239360 ∷ 4243456 ∷ 4247552 ∷ 4251648 ∷ 4255744 ∷ 4259840 ∷ 4263936 ∷ 4268032 ∷ 4272128
      ∷ 4276224 ∷ 4280320 ∷ 4284416 ∷ 4288512 ∷ 4292608 ∷ 4296704 ∷ 4300800 ∷ 4304896 ∷ 4308992
      ∷ 4313088 ∷ 4317184 ∷ 4321280 ∷ 4325376 ∷ 4329472 ∷ [];
}

reports : getpgdirinfo 33 dir full_space ≡ some report
unfolding getpgdirinfo pages_from walkpgdir
reports = refl

getpgdirinfo_lem_example : (report.n_upages ≡ 32) × ¬ HasNoPages dir full_space
getpgdirinfo_lem_example = getpgdirinfo_lem dir full_space 33 report reports
