-- ===== src/Wmap/Wunmap.antt =====
-- `wunmap`: which pages it gives back, and when it panics.
use cs537pair.Prelude.{
  ℕ, zero, suc, ◌+◌, ◌-◌, ◌*◌, ◌/◌, ◌%◌, ◌^◌, ◌<◌, ◌≤◌, ◌≡◌, inl, inr, ◌∙◌, refl, ap, sym, true,
  false, List, Option, none, some, arith, ltb, ◌>>=◌, Bool-cases, ◌≢◌, ◌==◌, find_index, get_elem?,
  get_elem?-modify, modify,
}
use cs537pair.Prelude.Int.{negsuc, ◌+ℤ◌}
use cs537pair.Kalloc.{kernbase}
use cs537pair.Vm.{Vm, u32, pdx, present}
use cs537pair.Vm.Map.{IsApart}
use cs537pair.Vm.Freed.{Owned, Owned-rest, Freed, Freed-refl, Freed-skip, no_entries}
use cs537pair.Vm.FreePage.{next, next-IsApart, next-Owned, Freed-next}
use cs537pair.Wmap.{MapEn, Maps, pg_round_down, pgsize, drop_map}
use cs537pair.Wmap.Pages.{Files, Mem, unmap_loop, unmap_entry, wunmap}
use cs537pair.Vm.FreePage.{entry-later}
use cs537pair.Vm.Fill.{dir_same}
use cs537pair.Wmap.Unmap.{IsUnwritten, Touched, Untouched, turn, Page-no_table, Page-here, stuck}

Touched-rest : (d a n k : ℕ) (s : Vm) → k ≤ n → Touched d a n s → Touched d (a + 4096 * k) (n - k) s
Touched-rest d a n k s le t b z l h = t b z (omega arith) (omega arith)

same_table : (a x : ℕ) → a % 4096 ≡ 0 → a ≤ x → x < a + 4096 → pdx x ≡ pdx a
same_table a x z p q = omega arith

module _ {S : Type 0} (ops : Files S) (end d : ℕ) (ofile : List (Option ℕ)) (e : MapEn)
    (quiet : IsUnwritten e) (hi : ℕ) (user_half : hi ≤ kernbase) where
  abbrev Does : ℕ → ℕ → ℕ → Mem S → Type 0
  Does fuel n a m =
      n < fuel
      → a % 4096 ≡ 0
      → (hi ≤ a + 4096 * n) × ((k : ℕ) → n ≡ suc k → a + 4096 * k < hi)
      → IsApart d m.vm
      → Owned end d a n m.vm
      → Touched d a n m.vm
      → (s' : Vm) × (unmap_loop ops end d ofile fuel e a hi m ≡ some (record m { vm = s' }))
        × Freed d a n m.vm s'

  unmap_loop_lem : (fuel n a : ℕ) (m : Mem S) → Does fuel n a m
  unfolding unmap_loop
  unmap_loop_lem zero n a m l z ends v o t = absurd (omega arith)
  unmap_loop_lem (suc fuel) zero a m l z ends v o t =
      let stop : ltb a hi ≡ false = ground arith in (m.vm, rw stop refl, Freed-refl d a m.vm v)
  unmap_loop_lem (suc fuel) (suc n) a m l z ends v o t =
      let last = ends.1 n refl in
      let go : ltb a hi ≡ true = ground arith in
      let i' : u32 (a + pgsize) ≡ a + 4096 * 1 = omega arith in
      elim (Bool-cases (present (m.vm.tables d (pdx a)))) [
        | inr no_table ↦
            let (s', q, f) =
              unmap_loop_lem fuel (suc n - 1) (a + 4096 * 1) m (omega arith) (omega arith)
                (omega arith, (λ k q. omega arith)) v
                (Owned-rest end d a (suc n) 1 m.vm (omega arith) o)
                (Touched-rest d a (suc n) 1 m.vm (omega arith) t) in
            (
              s',
              turn ops end d ofile e quiet fuel a (a + 4096 * 1) hi m m.vm go
                    (Page-no_table ops end d ofile e quiet a m no_table) i'
                  ∙ q,
              Freed-skip d a (suc n) m.vm s' 1 (omega arith)
                  (λ x p q. no_entries d a x m.vm no_table (same_table a x z p (omega arith))) f,
            )
        | inl is ↦
            let here = t a z (omega arith) (omega arith) is in
            let small : a + 4096 * suc n ≤ 2 ^ 32 = omega arith in
            let s1 = next end d a n m.vm z small v o is here in
            let (s', q, f) =
              unmap_loop_lem fuel n (a + 4096) (record m { vm = s1 }) (omega arith) (omega arith)
                (omega arith, (λ k q. omega arith))
                (next-IsApart end d a n m.vm z small v o is here)
                (next-Owned end d a n m.vm z small v o is here)
                (λ b y l h p.
                  let w = dir_same d a 0 m.vm v is (pdx b) in
                  let r = t b y (omega arith) (omega arith) (ap present (sym w) ∙ p) in
                  ap present
                    (entry-later end d a n m.vm z small v o is here b (omega arith) (inr l))
                  ∙ r) in
            (
              s',
              turn ops end d ofile e quiet fuel a (a + 4096) hi m s1 go
                    (Page-here ops end d ofile e quiet a m is v
                      (o.good a z (omega arith) (omega arith) here).fits)
                    i'
                  ∙ q,
              Freed-next end d a n m.vm z small v o is here s' f,
            )
      ]

-- The mappings with entry `i` taken off: it is not valid, and there is one mapping less.
pub record TakenOff (i : ℕ) (e : MapEn) (m m' : Maps) : Type 0 where
  pub off : get_elem? m'.wmaps i ≡ some (record e { valid = false })
  pub others : (j : ℕ) → j ≢ i → get_elem? m'.wmaps j ≡ get_elem? m.wmaps j
  pub fewer : m'.total_maps ≡ m.total_maps +ℤ negsuc 0

drop_map-TakenOff :
    (addr i : ℕ) (m : Maps) (e : MapEn)
    → find_index (λ (x : MapEn). x.addr == pg_round_down addr) m.wmaps ≡ some i
    → get_elem? m.wmaps i ≡ some e
    → (m' : Maps) × (drop_map addr m ≡ some (e, m')) × TakenOff i e m m'
unfolding drop_map
drop_map-TakenOff addr i m e at h = (
  record m {
    wmaps = modify m.wmaps i (λ x. record x { valid = false });
    total_maps = m.total_maps +ℤ negsuc 0;
  },
  rw (at, h) refl,
  record {
    off = ground (arith, get_elem?-modify m.wmaps i i (λ x. record x { valid = false }));
    others = λ j d. ground (arith, get_elem?-modify m.wmaps i j (λ x. record x { valid = false }));
    fewer = refl;
  },
)

module _ {S : Type 0} (ops : Files S) (end d : ℕ) (ofile : List (Option ℕ)) (addr i : ℕ) (m : Mem S)
    (e : MapEn) where
  -- For the first mapping, valid or not, that starts at the page of the address, whose pages no file gets, which
  -- ends in the user half, and all of whose pages that have a page table were touched: `wunmap` does not
  -- panic and returns 0; the mapping is no longer valid, `total_maps` is one less, and the other mappings
  -- are unchanged; its pages are gone from the address space and are on the free list, and no other
  -- entry of the address space changes.
  pub wunmap_lem :
      let a = pg_round_down addr in
      let n = (e.length + 4095) / 4096 in
      find_index (λ (x : MapEn). x.addr == pg_round_down addr) m.maps.wmaps ≡ some i
      → get_elem? m.maps.wmaps i ≡ some e
      → IsUnwritten e
      → a + e.length ≤ kernbase
      → IsApart d m.vm
      → Owned end d a n m.vm
      → Touched d a n m.vm
      → (s' : Vm) × (maps : Maps) × (wunmap ops end d ofile addr m
          ≡ some (0, record m { vm = s'; maps = maps }))
        × TakenOff i e m.maps maps
        × Freed d a n m.vm s'
  unfolding wunmap unmap_entry
  wunmap_lem at here quiet half v o t =
      let a = pg_round_down addr in
      let n = (e.length + 4095) / 4096 in
      let top : u32 (a + e.length) ≡ a + e.length = omega arith in
      let (maps, found, off) = drop_map-TakenOff addr i m.maps e at here in
      let (s', q, f) =
        unmap_loop_lem ops end d ofile e quiet (a + e.length) half (2 ^ 20 + 1) n a
          (record m { maps = maps }) (omega arith) (omega arith) (omega arith, (λ k q. omega arith))
          v o t in
      (
        s',
        maps,
        rw found (
            ap
              (λ x.
                unmap_loop ops end d ofile (2 ^ 20 + 1) e a x (record m { maps = maps }) >>= λ r.
                some (0, r))
              top
            ∙ ap (λ r. r >>= λ x. some (0, x)) q),
        off,
        f,
      )

module _ {S : Type 0} (ops : Files S) (end d : ℕ) (ofile : List (Option ℕ)) (addr : ℕ) (m : Mem S)
    (e : MapEn) (maps : Maps) where
  -- For a mapping that is found, whose pages no file gets, which ends in the user half, and one of whose pages
  -- has a page table but was never touched: `wunmap` panics.
  pub wunmap_panics :
      (k : ℕ)
      → drop_map addr m.maps ≡ some (e, maps)
      → IsUnwritten e
      → pg_round_down addr + e.length ≤ kernbase
      → kernbase < end
      → 4096 * k < e.length
      → Untouched d (pg_round_down addr + 4096 * k) m.vm
      → wunmap ops end d ofile addr m ≡ none
  unfolding wunmap unmap_entry
  wunmap_panics k found quiet half l in_range u =
      let a = pg_round_down addr in
      let top : u32 (a + e.length) ≡ a + e.length = omega arith in
      rw found (
        ap
          (λ x. unmap_loop ops end d ofile (2 ^ 20 + 1) e a x (record m { maps = maps }) >>= λ r.
            some (0, r))
          top
        ∙ ap (λ r. r >>= λ x. some (0, x))
            (stuck ops end d ofile e quiet (a + e.length) half (2 ^ 20 + 1) k a
              (record m { maps = maps }) l (omega arith) u))
