-- ===== src/Wmap/Info.antt =====
-- `getpgdirinfo`: it never reports fewer pages than fit.
use cs537pair.Prelude.{
  sym, ◌∙◌, ℕ, zero, suc, ◌+◌, ◌≤◌, ◌<◌, ◌≡◌, refl, true, false, ◌&&◌, none, some, arith, ltb,
  Bool-cases, Option-cases, inl, inr,
}
use cs537pair.Vm.{Vm, u32, pdx, ptx, present, walkpgdir}
use cs537pair.Vm.Map.{target, entry}
use cs537pair.Vm.Space.{user}
use cs537pair.Wmap.{pgsize}
use cs537pair.Wmap.Pages.{Pgdirinfo, user_entry, add_page, pages_from, getpgdirinfo}

-- No page of the address space is there for the user.
abbrev pub HasNoPages : ℕ → Vm → Type 0
HasNoPages d s = (va : ℕ) → (present (entry d s va) && user (entry d s va)) ≡ false

module _ (d : ℕ) (s : Vm) where
  full :
      (fuel va : ℕ) (i i' : Pgdirinfo)
      → i.n_upages ≤ 32
      → pages_from fuel d va s i ≡ some i'
      → i'.n_upages ≡ 32
  unfolding pages_from
  full zero va i i' le h = absurd (cc)
  full (suc fuel) va i i' le h = elim (Bool-cases (ltb i.n_upages 32)) [
    | inr stop ↦
        let done : i.n_upages ≡ 32 = ground arith in
        let same : some i ≡ some i' = rw stop at h in ground (arith, same, done)
    | inl more ↦ elim (Option-cases (user_entry (walkpgdir d va false s).0 s)) [
      | inl none_here ↦ full fuel (u32 (va + pgsize)) i i' le (rw (more, none_here) at h)
      | inr (pa, e) ↦
          full fuel (u32 (va + pgsize)) (add_page va (some pa) i) i' (ground arith)
            (rw (more, e) at h)
    ]
  ]

  unseen : HasNoPages d s → (va : ℕ) → user_entry (walkpgdir d va false s).0 s ≡ none
  unfolding walkpgdir
  unseen h va = elim (Bool-cases (present (s.tables d (pdx va)))) [
    | inr no_table ↦ rw no_table refl
    | inl is ↦
        let w = s.tables (target (s.tables d (pdx va))) (ptx va) in
        let e : (present w && user w) ≡ false = rw is at (h va) in rw (is, e) refl
  ]

  endless :
      (fuel va : ℕ) (i : Pgdirinfo)
      → HasNoPages d s
      → i.n_upages < 32
      → pages_from fuel d va s i ≡ none
  unfolding pages_from
  endless zero va i h l = refl
  endless (suc fuel) va i h l =
      let more : ltb i.n_upages 32 ≡ true = ground arith in
      rw (more, unseen h va) (endless fuel (u32 (va + pgsize)) i h l)

  -- Whenever `getpgdirinfo` returns, it reports 32 pages, however many the process has, and some page is there
  -- for the user: where none is, it does not return.
  pub getpgdirinfo_lem :
      (fuel : ℕ) (i : Pgdirinfo)
      → getpgdirinfo fuel d s ≡ some i
      → (i.n_upages ≡ 32) × ¬ HasNoPages d s
  unfolding getpgdirinfo
  getpgdirinfo_lem fuel i h = (
    full fuel 0 _ i (omega arith) h,
    λ e. absurd (let w : none ≡ some i = sym (endless fuel 0 _ e (omega arith)) ∙ h in cc),
  )
