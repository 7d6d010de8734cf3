-- ===== src/Vm/Tests.antt =====
-- Page tables with a directory at 0x80400000 and two free pages.
use cs537pair.Prelude.{
  ℕ, ◌≤◌, ◌≡◌, ◌&&◌, ◌==◌, if◌then◌else◌, refl, ap, ◌∙◌, [], ◌∷◌, some, true, arith, Bool-cases,
  inl, inr, IsDistinct,
}
use cs537pair.Vm.{Vm, Tables, mappages, present, pdx, ptx}
use cs537pair.Vm.Map.{IsApart, entry, target}
use cs537pair.Vm.Freed.{Owned}
use cs537pair.Vm.Space.{free_pages}
use cs537pair.Vm.Freevm.{given_back, free_pages_lem}
use cs537pair.Vm.Range.{Maps, mappages_lem}

abbrev dir : ℕ
dir = 0x80400000

abbrev blank : Tables
blank p j = 0

abbrev start : Vm
start = record {
  kmem = record { use_lock = true; freelist = 0x80500000 ∷ 0x80501000 ∷ [] };
  tables = blank;
}

start-IsApart : IsApart dir start
start-IsApart = record {
  pages = ((refl, omega arith), ((refl, omega arith), tt));
  distinct = (((λ e. omega (arith, e)), tt), (tt, tt));
  dir_used = ((λ e. omega (arith, e)), ((λ e. omega (arith, e)), tt));
  tables_used = λ i p. absurd (cc);
  beside = λ i p e. absurd (cc);
  apart = λ i j p q e. absurd (cc);
}

-- Two pages from an address in the middle of a page.
mappages_lem_example : Maps dir 4096 2 0x200000 6 start (mappages dir 5000 4096 0x200000 6 start)
mappages_lem_example =
    mappages_lem dir 6 (omega arith) 5000 4096 0x200000 start (omega arith) (omega arith) refl
      (omega arith) start-IsApart (λ x l m. refl)

-- A directory with one page table, which has one page, the fourth.
abbrev table : ℕ
table = 0x80401000

abbrev space : Vm
space = record {
  kmem = record { use_lock = true; freelist = 0x80500000 ∷ [] };
  tables = λ p j.
      if (p == dir) && (j == 0) then 0x401007 else if (p == table) && (j == 3) then 0x402007 else 0;
}

dir_word : (i : ℕ) → present (space.tables dir i) ≡ true → (i ≡ 0) × (space.tables dir i ≡ 0x401007)
dir_word i p = elim (Bool-cases (i == 0)) [
  | inl z ↦ (ground arith, rw z refl)
  | inr nz ↦ absurd (ground (arith, rw nz at p))
]

space-IsApart : IsApart dir space
space-IsApart = record {
  pages = ((refl, omega arith), tt);
  distinct = (tt, tt);
  dir_used = ((λ e. omega (arith, e)), tt);
  tables_used =
      λ i p. let (z, w) = dir_word i p in ((λ e. let t = ap target w in omega (arith, e, t)), tt);
  beside = λ i p e. let (z, w) = dir_word i p in let t = ap target w in omega (arith, e, t);
  apart =
      λ i j p q e. let (z, w) = dir_word i p in let (z', w') = dir_word j q in omega (arith, z, z');
}

-- The page that is there.
page_word :
    (b : ℕ)
    → present (entry dir space b) ≡ true
    → (pdx b ≡ 0) × (ptx b ≡ 3) × (entry dir space b ≡ 0x402007)
page_word b p = elim (Bool-cases (present (space.tables dir (pdx b)))) [
  | inr none_here ↦ absurd (ground (arith, rw none_here at p))
  | inl is ↦
      let (z, w) = dir_word (pdx b) is in
      let e : entry dir space b ≡ space.tables table (ptx b) =
        rw is (ap (λ x. space.tables (target x) (ptx b)) w) in
      elim (Bool-cases (ptx b == 3)) [
        | inl three ↦ (z, ground arith, e ∙ rw three refl)
        | inr other ↦
            let q : entry dir space b ≡ 0 = e ∙ rw other refl in
            absurd (ground (arith, ap present q, p))
      ]
]

space-Owned : (n : ℕ) → n ≤ 524288 → Owned 0x80115000 dir 0 n space
space-Owned n le = record {
  good = λ b y l h p.
      let (z, i, w) = page_word b p in
      record {
        placed = rw w refl;
        fits = rw w refl;
        used = rw w ((λ e. omega (arith, e)), tt);
        not_dir = λ t. let u = ap target w in omega (arith, t, u);
        not_table = λ j q t.
            let u = ap target w in
            let (z', w') = dir_word j q in let u' = ap target w' in omega (arith, t, u, u');
      };
  once = λ b c y l h p y' l' h' p' t.
      let (z, i, w) = page_word b p in let (z', i', w') = page_word c p' in omega arith;
}

free_pages_lem_example :
    (s' : Vm) × (free_pages 0x80115000 dir space ≡ some s')
    × (s'.kmem.freelist ≡ given_back dir space)
    × IsDistinct (given_back dir space)
free_pages_lem_example =
    free_pages_lem 0x80115000 dir space (omega arith) refl space-IsApart
      (space-Owned 524288 (omega arith)) λ i l p. let (z, w) = dir_word i p in rw w refl
