-- ===== src/Wmap/Unmap.antt =====
-- A round of the loop of `wunmap`, and the page at which the loop panics.
use cs537pair.Prelude.{
  ℕ, zero, suc, ◌+◌, ◌*◌, ◌%◌, ◌<◌, ◌≤◌, ◌≡◌, ◌≢◌, ◌⊎◌, inl, inr, ◌∙◌, refl, ap, sym, subst, true,
  false, not, ◌&&◌, List, ◌∷◌, Option, none, some, arith, ltb, ◌==◌, if◌then◌else◌, Bool-cases,
  ==_of_ne,
}
use cs537pair.Kalloc.{Kmem, kfree, bad_page, kernbase}
use cs537pair.Vm.{Vm, u32, put, pdx, ptx, present, pte_addr, walkpgdir}
use cs537pair.Vm.Map.{target, entry, IsApart}
use cs537pair.Vm.Fill.{filled}
use cs537pair.Vm.Freed.{freed}
use cs537pair.Wmap.{MapEn, has_flag, map_anonymous, map_shared, pgsize}
use cs537pair.Wmap.Pages.{Files, Mem, unmap_page, unmap_loop}

-- A mapping whose pages are not written to a file when it ends.
abbrev pub IsUnwritten : MapEn → Type 0
IsUnwritten e = (not (has_flag map_anonymous e.flags) && has_flag map_shared e.flags) ≡ false

-- The page table entry for an address, 1 standing for none.
abbrev pub slot : ℕ → Vm → ℕ → ℕ
slot d s va =
    if present (s.tables d (pdx va)) then s.tables (target (s.tables d (pdx va))) (ptx va) else 1

module _ {S : Type 0} (ops : Files S) (end d : ℕ) (ofile : List (Option ℕ)) (e : MapEn)
    (quiet : IsUnwritten e) where
  abbrev pub with_vm : Mem S → Vm → Mem S
  with_vm m s = record m { vm = s }

  pub turn :
      (fuel i i' hi : ℕ) (m : Mem S) (s1 : Vm)
      → ltb i hi ≡ true
      → unmap_page ops end d ofile e (walkpgdir d i false m.vm).0 m ≡ some (with_vm m s1)
      → u32 (i + pgsize) ≡ i'
      → unmap_loop ops end d ofile (suc fuel) e i hi m
        ≡ unmap_loop ops end d ofile fuel e i' hi (with_vm m s1)
  unfolding unmap_loop
  turn fuel i i' hi m s1 more page t =
      rw (more, page) (ap (λ x. unmap_loop ops end d ofile fuel e x hi (with_vm m s1)) t)

  module _ (a : ℕ) (m : Mem S) where
    abbrev pub Page : Option (Mem S) → Type 0
    Page r = unmap_page ops end d ofile e (walkpgdir d a false m.vm).0 m ≡ r

    pub Page-no_table : present (m.vm.tables d (pdx a)) ≡ false → Page (some m)
    unfolding unmap_page walkpgdir
    Page-no_table u = rw u refl

    module _ (is : present (m.vm.tables d (pdx a)) ≡ true) where
      pub Page-here :
          (v : IsApart d m.vm)
          → bad_page end (target (entry d m.vm a)) ≡ false
          → Page (some (with_vm m (freed (target (entry d m.vm a)) (filled d a 0 m.vm v is))))
      unfolding unmap_page walkpgdir kfree
      Page-here v g =
          let i : entry d m.vm a ≡ m.vm.tables (target (m.vm.tables d (pdx a))) (ptx a) =
            rw is refl in
          let y = ap (λ y. bad_page end (target y)) (sym i) ∙ g in rw (is, quiet, y) refl

      Page-cases :
          Page none
          ⊎ (k : Kmem) × Page (
              some (
                with_vm m record {
                  kmem = k;
                  tables = put (target (m.vm.tables d (pdx a))) (ptx a) 0 m.vm.tables;
                }))
      unfolding unmap_page walkpgdir kfree
      Page-cases =
          elim (Bool-cases
            (bad_page end (target (m.vm.tables (target (m.vm.tables d (pdx a))) (ptx a))))) [
              | inl bad ↦ inl (rw (is, quiet, bad) refl)
              | inr ok ↦ inr (
                record (m.vm.kmem) {
                  freelist =
                      target (m.vm.tables (target (m.vm.tables d (pdx a))) (ptx a))
                      ∷ m.vm.kmem.freelist;
                },
                rw (is, quiet, ok) refl,
              )
            ]

      Page-untouched :
          kernbase < end
          → pte_addr (m.vm.tables (target (m.vm.tables d (pdx a))) (ptx a)) ≡ 0
          → Page none
      unfolding unmap_page walkpgdir kfree
      Page-untouched l z =
          let bad : bad_page end (target (m.vm.tables (target (m.vm.tables d (pdx a))) (ptx a)))
              ≡ true =
            rw z (ground arith) in
          rw (is, quiet, bad) refl

-- Among the `n` pages from `a` on, those that have a page table are there.
abbrev pub Touched : ℕ → ℕ → ℕ → Vm → Type 0
Touched d a n s =
    (b : ℕ)
    → b % 4096 ≡ 0
    → a ≤ b
    → b < a + 4096 * n
    → present (s.tables d (pdx b)) ≡ true
    → present (entry d s b) ≡ true

-- The page at `p` has a page table, whose word for it leads nowhere; no page table is the directory.
pub record Untouched (d p : ℕ) (s : Vm) : Type 0 where
  pub beside : (i : ℕ) → present (s.tables d i) ≡ true → target (s.tables d i) ≢ d
  pub has_table : present (s.tables d (pdx p)) ≡ true
  pub empty : pte_addr (s.tables (target (s.tables d (pdx p))) (ptx p)) ≡ 0

-- A cleared entry of another page leaves it so.
put-Untouched :
    (d p a : ℕ) (s : Vm) (k : Kmem)
    → present (s.tables d (pdx a)) ≡ true
    → Untouched d p s
    → Untouched d p
        record { kmem = k; tables = put (target (s.tables d (pdx a))) (ptx a) 0 s.tables }
put-Untouched d p a s k is u =
    let t = target (s.tables d (pdx a)) in
    let ts = put t (ptx a) 0 s.tables in
    let same : (i : ℕ) → ts d i ≡ s.tables d i = λ i.
      (let n : (d == t) ≡ false = ==_of_ne d t (λ e. u.beside (pdx a) is (sym e)) in rw n refl) in
    let tp = target (s.tables d (pdx p)) in
    let word : pte_addr (ts tp (ptx p)) ≡ 0 = elim (Bool-cases ((tp == t) && (ptx p == ptx a))) [
      | inl hit ↦ rw hit refl
      | inr other ↦ rw other u.empty
    ] in
    record {
      beside = λ i q e. u.beside i (ap present (sym (same i)) ∙ q) (ap target (sym (same i)) ∙ e);
      has_table = ap present (same (pdx p)) ∙ u.has_table;
      empty = ap (λ w. pte_addr (ts (target w) (ptx p))) (same (pdx p)) ∙ word;
    }

module _ {S : Type 0} (ops : Files S) (end d : ℕ) (ofile : List (Option ℕ)) (e : MapEn)
    (quiet : IsUnwritten e) (hi : ℕ) (user_half : hi ≤ kernbase) where
  -- The loop panics at a page that was never touched.
  pub stuck :
      (fuel k a : ℕ) (m : Mem S)
      → kernbase < end
      → a + 4096 * k < hi
      → Untouched d (a + 4096 * k) m.vm
      → unmap_loop ops end d ofile fuel e a hi m ≡ none
  unfolding unmap_loop
  stuck zero k a m l le u = refl
  stuck (suc fuel) zero a m l le u =
      let go : ltb a hi ≡ true = ground arith in
      let at : a + 4096 * 0 ≡ a = omega arith in
      let u' = subst (λ x. Untouched d x m.vm) at u in
      rw (go, Page-untouched ops end d ofile e quiet a m u'.has_table l u'.empty) refl
  stuck (suc fuel) (suc k) a m l le u =
      let go : ltb a hi ≡ true = ground arith in
      let i' : u32 (a + pgsize) ≡ a + 4096 = omega arith in
      let later : a + 4096 * suc k ≡ a + 4096 + 4096 * k = omega arith in
      elim (Bool-cases (present (m.vm.tables d (pdx a)))) [
        | inr no_table ↦
            turn ops end d ofile e quiet fuel a (a + 4096) hi m m.vm go
              (Page-no_table ops end d ofile e quiet a m no_table) i'
            ∙ stuck fuel k (a + 4096) m l (omega arith) (subst (λ x. Untouched d x m.vm) later u)
        | inl is ↦ elim (Page-cases ops end d ofile e quiet a m is) [
          | inl panics ↦ rw (go, panics) refl
          | inr (f, page) ↦
              let s1 : Vm = record {
                kmem = f;
                tables = put (target (m.vm.tables d (pdx a))) (ptx a) 0 m.vm.tables;
              } in
              turn ops end d ofile e quiet fuel a (a + 4096) hi m s1 go page i'
              ∙ stuck fuel k (a + 4096) (record m { vm = s1 }) l (omega arith)
                  (put-Untouched d (a + 4096 + 4096 * k) a m.vm f is
                    (subst (λ x. Untouched d x m.vm) later u))
        ]
      ]
