-- ===== src/Vm/Dealloc.antt =====
-- `deallocuvm`: which pages it gives back.
use cs537pair.Prelude.{
  ℕ, zero, suc, ◌+◌, ◌-◌, ◌*◌, ◌/◌, ◌%◌, ◌^◌, ◌<◌, ◌≤◌, ◌≡◌, inl, inr, ◌∙◌, refl, ap, sym, subst,
  true, false, some, arith, ltb, leb, ◌==◌, if◌then◌else◌, dec_lt, ap₂, Bool-cases, ◌>>=◌,
}
use cs537pair.Kalloc.{kfree, bad_page, pgsize, kernbase, pg_round_up}
use cs537pair.Vm.{Vm, u32, pdx, ptx, present, pte_addr, walkpgdir}
use cs537pair.Vm.Map.{target, entry, IsApart}
use cs537pair.Vm.Fill.{filled}
use cs537pair.Vm.Space.{skip_table, dealloc_page, dealloc_loop, deallocuvm}
use cs537pair.Vm.FreePage.{next, next-IsApart, next-Owned, Freed-next}
use cs537pair.Vm.Freed.{
  give_back, Owned, Owned-rest, freed, Freed, Freed-refl, Freed-none, Freed-skip, no_entries,
}

-- The loop from `a` on, up to `hi`, is over `n` pages.
abbrev Ends : ℕ → ℕ → ℕ → Type 0
Ends a n hi = (hi ≤ a + 4096 * n) × ((m : ℕ) → n ≡ suc m → a + 4096 * m < hi)

module _ (end d hi : ℕ) (user_half : hi ≤ kernbase) where
  -- What the loop does with this fuel.
  abbrev Does : ℕ → ℕ → ℕ → Vm → Type 0
  Does fuel n a s =
      n < fuel
      → a % 4096 ≡ 0
      → Ends a n hi
      → IsApart d s
      → Owned end d a n s
      → (s' : Vm) × (dealloc_loop end fuel d a hi s ≡ some s') × Freed d a n s s'

  turn :
      (fuel a a' b : ℕ) (s s1 : Vm)
      → ltb a hi ≡ true
      → dealloc_page end a (walkpgdir d a false s) ≡ some (b, s1)
      → u32 (b + pgsize) ≡ a'
      → dealloc_loop end (suc fuel) d a hi s ≡ dealloc_loop end fuel d a' hi s1
  unfolding dealloc_loop
  turn fuel a a' b s s1 more page e = rw (more, page) (ap (λ x. dealloc_loop end fuel d x hi s1) e)

  module _ (a : ℕ) (s : Vm) where
    page_no_table :
        present (s.tables d (pdx a)) ≡ false
        → dealloc_page end a (walkpgdir d a false s) ≡ some (skip_table a, s)
    unfolding dealloc_page walkpgdir
    page_no_table e = rw e refl

    module _ (is : present (s.tables d (pdx a)) ≡ true) where
      page_absent :
          present (entry d s a) ≡ false → dealloc_page end a (walkpgdir d a false s) ≡ some (a, s)
      unfolding dealloc_page walkpgdir
      page_absent e =
          let w : present (s.tables (target (s.tables d (pdx a))) (ptx a)) ≡ false = rw is at e in
          rw (is, w) refl

      page_here :
          (v : IsApart d s)
          → present (entry d s a) ≡ true
          → (pte_addr (entry d s a) == 0) ≡ false
          → bad_page end (target (entry d s a)) ≡ false
          → dealloc_page end a (walkpgdir d a false s)
            ≡ some (a, freed (target (entry d s a)) (filled d a 0 s v is))
      unfolding dealloc_page walkpgdir kfree
      page_here v e f g =
          let i : entry d s a ≡ s.tables (target (s.tables d (pdx a))) (ptx a) = rw is refl in
          let w = ap present (sym i) ∙ e in
          let x = ap (λ y. pte_addr y == 0) (sym i) ∙ f in
          let y = ap (λ y. bad_page end (target y)) (sym i) ∙ g in rw (is, w, x, y) refl

  entry-same : (a x : ℕ) (s : Vm) → pdx x ≡ pdx a → ptx x ≡ ptx a → entry d s x ≡ entry d s a
  entry-same a x s =
      ap₂ (λ i j. if present (s.tables d i) then s.tables (target (s.tables d i)) j else 0)

  module _ (fuel n a : ℕ) (s : Vm) (ih : (n' a' : ℕ) (s1 : Vm) → Does fuel n' a' s1)
      (l : suc n < suc fuel) (z : a % 4096 ≡ 0) (ends : Ends a (suc n) hi) (v : IsApart d s)
      (o : Owned end d a (suc n) s) (go : ltb a hi ≡ true) (last : a + 4096 * n < hi) where
    abbrev Result : Type 0
    Result = (s' : Vm) × (dealloc_loop end (suc fuel) d a hi s ≡ some s') × Freed d a (suc n) s s'

    round_no_table : present (s.tables d (pdx a)) ≡ false → Result
    round_no_table e =
        let k = 1024 - a / 4096 % 1024 in
        let same : (x : ℕ) → a ≤ x → x < a + 4096 * k → pdx x ≡ pdx a = (λ x p q. omega arith) in
        let jump : u32 (skip_table a + pgsize) ≡ a + 4096 * k = omega arith in
        let page = page_no_table a s e in
        elim (dec_lt (suc n) k) [
          | no inside ↦
              let (s', t, f) =
                ih (suc n - k) (a + 4096 * k) s (omega arith) (omega arith)
                  (omega arith, (λ m q. omega arith)) v
                  (Owned-rest end d a (suc n) k s (omega arith) o) in
              (
                s',
                turn fuel a (a + 4096 * k) (skip_table a) s s go page jump ∙ t,
                Freed-skip d a (suc n) s s' k (omega arith)
                    (λ x p q. no_entries d a x s e (same x p q)) f,
              )
          | yes beyond ↦
              let c = a + 4096 * k in
              let (s', t, f) =
                ih 0 c s (omega arith) (omega arith) (omega arith, (λ m q. absurd (omega arith))) v
                  record {
                    good = λ b z l h. absurd (omega arith);
                    once = λ b c z l h. absurd (omega arith);
                  } in
              (
                s',
                turn fuel a c (skip_table a) s s go page jump ∙ t,
                Freed-skip d a (suc n) s s' (suc n) (omega arith)
                    (λ x p q. no_entries d a x s e (same x p (omega arith)))
                    (subst (λ m. Freed d (a + 4096 * suc n) m s s') (omega arith)
                      (Freed-none d (a + 4096 * suc n) n s s' c f)),
              )
        ]

    module _ (is : present (s.tables d (pdx a)) ≡ true) where
      round_absent : present (entry d s a) ≡ false → Result
      round_absent absent =
          let (s', e, f) =
            ih (suc n - 1) (a + 4096 * 1) s (omega arith) (omega arith)
              (omega arith, (λ m q. omega arith)) v
              (Owned-rest end d a (suc n) 1 s (omega arith) o) in
          (
            s',
            turn fuel a (a + 4096 * 1) a s s go (page_absent a s is absent) (omega arith) ∙ e,
            Freed-skip d a (suc n) s s' 1 (omega arith)
                (λ x p q.
                  let w : pdx x ≡ pdx a = omega arith in
                  let u : ptx x ≡ ptx a = omega arith in ap present (entry-same a x s w u) ∙ absent)
                f,
          )

      round_here : present (entry d s a) ≡ true → Result
      round_here here =
          let small : a + 4096 * suc n ≤ 2 ^ 32 = omega arith in
          let own = o.good a z (omega arith) (omega arith) here in
          let s1 = next end d a n s z small v o is here in
          let (s', e, f) =
            ih n (a + 4096) s1 (omega arith) (omega arith) (omega arith, (λ m q. omega arith))
              (next-IsApart end d a n s z small v o is here)
              (next-Owned end d a n s z small v o is here) in
          (
            s',
            turn fuel a (a + 4096) a s s1 go (page_here a s is v here own.placed own.fits)
                  (omega arith)
                ∙ e,
            Freed-next end d a n s z small v o is here s' f,
          )

  dealloc_loop_lem : (fuel n a : ℕ) (s : Vm) → Does fuel n a s
  unfolding dealloc_loop give_back
  dealloc_loop_lem zero n a s l z ends v o = absurd (omega arith)
  dealloc_loop_lem (suc fuel) zero a s l z ends v o =
      let stop : ltb a hi ≡ false = ground arith in (s, rw stop refl, Freed-refl d a s v)
  dealloc_loop_lem (suc fuel) (suc n) a s l z ends v o =
      let ih : (n' a' : ℕ) (s1 : Vm) → Does fuel n' a' s1 =
        λ n' a' s1. dealloc_loop_lem fuel n' a' s1 in
      let last = ends.1 n refl in
      let go : ltb a hi ≡ true = ground arith in
      elim (Bool-cases (present (s.tables d (pdx a)))) [
        | inr no_table ↦ round_no_table fuel n a s ih l z ends v o go last no_table
        | inl is ↦ elim (Bool-cases (present (entry d s a))) [
          | inr absent ↦ round_absent fuel n a s ih l z ends v o go last is absent
          | inl here ↦ round_here fuel n a s ih l z ends v o go last is here
        ]
      ]

-- The number of pages that a call from size `oldsz` down to `newsz` goes over.
abbrev pub pages_between : ℕ → ℕ → ℕ
pages_between newsz oldsz = (oldsz + 4095) / 4096 - (newsz + 4095) / 4096

-- For sizes in the user half, where the directory, its tables and the free pages are different pages,
-- and the pages between the sizes that are there are pages in use beside them, each mapped once:
-- `deallocuvm` does not panic, and returns the new size; those pages are gone from the address space and are
-- on the free list in their order, every other entry is as it was, and the pages stay different.
pub deallocuvm_lem :
    (end d oldsz newsz : ℕ) (s : Vm)
    → newsz < oldsz
    → oldsz ≤ kernbase
    → IsApart d s
    → Owned end d (pg_round_up newsz) (pages_between newsz oldsz) s
    → (s' : Vm) × (deallocuvm end d oldsz newsz s ≡ some (newsz, s'))
      × Freed d (pg_round_up newsz) (pages_between newsz oldsz) s s'
unfolding deallocuvm
deallocuvm_lem end d oldsz newsz s l half v o =
    let less : leb oldsz newsz ≡ false = ground arith in
    let start : u32 (pg_round_up newsz) ≡ pg_round_up newsz = omega arith in
    let (s', e, f) =
      dealloc_loop_lem end d oldsz half (2 ^ 20 + 1) (pages_between newsz oldsz) (pg_round_up newsz)
        s (omega arith) (omega arith) (omega arith, (λ m q. omega arith)) v o in
    (
      s',
      rw less (
          ap (λ a. dealloc_loop end (2 ^ 20 + 1) d a oldsz s >>= λ r. some (newsz, r)) start
          ∙ ap (λ r. r >>= λ x. some (newsz, x)) e),
      f,
    )
