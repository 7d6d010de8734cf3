-- ===== src/Vm/Range.antt =====
-- `mappages` over a range of pages.
use cs537pair.Prelude.{
  ℕ, zero, suc, ◌+◌, ◌-◌, ◌*◌, ◌/◌, ◌%◌, ◌^◌, ◌<◌, ◌≤◌, ◌≡◌, ◌∙◌, refl, ap, Bool, true, false, ◌&&◌,
  Option, some, arith, ltb, leb, ◌==◌, if◌then◌else◌, dec_lt, ap₂, subst,
}
use cs537pair.Kalloc.{pgsize}
use cs537pair.Vm.{Vm, u32, pdx, ptx, page_of, present, with_p, map_page, mappages_loop, mappages}
use cs537pair.Vm.Fill.{Mapped, failed, mapped, map_page_lem}
use cs537pair.Vm.Map.{entry, IsApart}

pub same_page :
    (a x : ℕ)
    → a % 4096 ≡ 0
    → a < 2 ^ 32
    → x < 2 ^ 32
    → (pdx x == pdx a && (ptx x == ptx a)) ≡ (leb a x && ltb x (a + 4096))
same_page a x z l m = ground arith

-- The pages from `a` on, `k` of them, lead to the pages from `pa` on.
abbrev pub Covers : ℕ → ℕ → ℕ → ℕ → ℕ → Vm → Vm → Type 0
Covers d a k pa perm s s' =
    (x : ℕ)
    → x < 2 ^ 32
    → entry d s' x ≡ (
        if leb a x && ltb x (a + 4096 * k)
        then pa + 4096 * ((x - a) / 4096) + with_p perm
        else entry d s x)

-- The call succeeds with all `n` pages mapped, or fails with the first `k` of them mapped.
abbrev pub Maps : ℕ → ℕ → ℕ → ℕ → ℕ → Vm → Option (Bool × Vm) → Type 0
Maps d a n pa perm s r =
    (k : ℕ) × (b : Bool) × (s' : Vm) × (r ≡ some (b, s'))
    × (b ≡ (k == n))
    × (k ≤ n)
    × Covers d a k pa perm s s'
    × IsApart d s'

-- One page mapped, and then `k` behind it.
covered :
    (a k pa c x y z w : ℕ)
    → y ≡ (if leb a x && ltb x (a + 4096) then pa + c else w)
    → z ≡ (
        if leb (a + 4096) x && ltb x (a + 4096 + 4096 * k)
        then pa + 4096 + 4096 * ((x - (a + 4096)) / 4096) + c
        else y)
    → z ≡ (if leb a x && ltb x (a + 4096 * suc k) then pa + 4096 * ((x - a) / 4096) + c else w)
covered a k pa c x y z w first rest = elim (dec_lt x (a + 4096)) [
  | yes here ↦
      let u : (leb (a + 4096) x && ltb x (a + 4096 + 4096 * k)) ≡ false = ground arith in
      rest
      ∙ rw u (
          first ∙ elim (dec_lt x a) [
            | yes low ↦ ground arith
            | no high ↦ let q : (x - a) / 4096 ≡ 0 = omega arith in ground (arith, q)
          ])
  | no there ↦
      let u : (leb (a + 4096) x && ltb x (a + 4096 + 4096 * k))
          ≡ (leb a x && ltb x (a + 4096 * suc k)) =
        ground arith in
      let t : (leb a x && ltb x (a + 4096)) ≡ false = ground arith in
      let q : pa + 4096 + 4096 * ((x - (a + 4096)) / 4096) ≡ pa + 4096 * ((x - a) / 4096) =
        omega arith in
      rest
      ∙ rw u (
          ap₂ (λ m r. if leb a x && ltb x (a + 4096 * suc k) then m + c else r) q
            (first ∙ rw t refl))
]

module _ (d perm : ℕ) (flags : perm < 4096) where
  -- What the loop does for `suc n` pages with this fuel.
  abbrev Does : ℕ → ℕ → ℕ → ℕ → Vm → Type 0
  Does fuel n a pa s =
      n < fuel
      → a % 4096 ≡ 0
      → pa % 4096 ≡ 0
      → a + 4096 * suc n ≤ 2 ^ 32
      → pa + 4096 * suc n ≤ 2 ^ 32
      → IsApart d s
      → ((x : ℕ) → a ≤ x → x < a + 4096 * suc n → present (entry d s x) ≡ false)
      → Maps d a (suc n) pa perm s (mappages_loop fuel d a (a + 4096 * n) pa perm s)

  round :
      (fuel n a pa : ℕ) (s : Vm)
      → ((n' a' pa' : ℕ) (s' : Vm) → Does fuel n' a' pa' s')
      → Mapped d a (pa + with_p perm) s (map_page d a pa perm s)
      → Does (suc fuel) n a pa s
  unfolding mappages_loop
  round fuel n a pa s ih (failed s' e same v') l z zp m p v free =
      (0, false, s', rw e refl, ground arith, omega arith, (λ x k. same x ∙ ground arith), v')
  round fuel zero a pa s ih (mapped s' e same v') l z zp m p v free =
      let w : (a == a + 4096 * 0) ≡ true = ground arith in
      (
        1,
        true,
        s',
        rw e (rw w refl),
        refl,
        omega arith,
        (λ x k.
            covered a 0 pa (with_p perm) x (entry d s' x) (entry d s' x) (entry d s x)
              (same x
                ∙ ap (λ t. if t then pa + with_p perm else entry d s x)
                    (same_page a x z (omega arith) k))
              (let u : (leb (a + 4096) x && ltb x (a + 4096 + 4096 * 0)) ≡ false = ground arith in
                rw u refl)),
        v',
      )
  round fuel (suc n) a pa s ih (mapped s1 e same v1) l z zp m p v free =
      let w : (a == a + 4096 * suc n) ≡ false = ground arith in
      let ua : u32 (a + pgsize) ≡ a + 4096 = omega arith in
      let up : u32 (pa + pgsize) ≡ pa + 4096 = omega arith in
      let (k, b, s', e', f', le, cov, v') =
        ih n (a + 4096) (pa + 4096) s1 (omega arith) (omega arith) (omega arith) (omega arith)
          (omega arith) v1 (λ x c c'. ap present (step x (omega arith)) ∙ behind x c c') in
      (
        suc k,
        b,
        s',
        rw (e, w)
            (ap₂ (λ i j. mappages_loop fuel d i (a + 4096 * suc n) j perm s1) ua up
              ∙ ap (λ i. mappages_loop fuel d (a + 4096) i (pa + 4096) perm s1) (omega arith)
              ∙ e'),
        f' ∙ ground arith,
        omega (arith, le),
        (λ x c.
            covered a k pa (with_p perm) x (entry d s1 x) (entry d s' x) (entry d s x) (step x c)
              (cov x c)),
        v',
      )
    where
      step :
          (x : ℕ)
          → x < 2 ^ 32
          → entry d s1 x ≡ (if leb a x && ltb x (a + 4096) then pa + with_p perm else entry d s x)
      step x k =
          same x
          ∙ ap (λ t. if t then pa + with_p perm else entry d s x) (same_page a x z (omega arith) k)

      behind :
          (x : ℕ)
          → a + 4096 ≤ x
          → x < a + 4096 + 4096 * suc n
          → present (if leb a x && ltb x (a + 4096) then pa + with_p perm else entry d s x) ≡ false
      behind x c c' =
          let t : (leb a x && ltb x (a + 4096)) ≡ false = ground arith in
          rw t (free x (omega arith) (omega arith))

  mappages_loop_lem : (fuel n a pa : ℕ) (s : Vm) → Does fuel n a pa s
  mappages_loop_lem zero n a pa s l z zp m p v free = absurd (omega arith)
  mappages_loop_lem (suc fuel) n a pa s l z zp m p v free =
      round fuel n a pa s (λ n' a' pa' s'. mappages_loop_lem fuel n' a' pa' s')
        (map_page_lem d a pa perm s zp flags v (free a (omega arith) (omega arith))) l z zp m p v
        free

  -- For the address `pa` of a page and flags below the size of a page, where the directory, its tables and the
  -- free pages are different pages, and no page that the range touches is mapped: `mappages` does not panic; it succeeds with every page of the range leading to the page at
  -- the same place from `pa` on, with the flags, or fails with the first pages of the range mapped so and
  -- not all; it changes no other entry, and the pages stay different.
  pub mappages_lem :
      (va size pa : ℕ) (s : Vm)
      → 0 < size
      → va + size ≤ 2 ^ 32
      → pa % 4096 ≡ 0
      → let n = suc ((va + size - 1) / 4096 - va / 4096) in
        pa + 4096 * n ≤ 2 ^ 32
        → IsApart d s
        → ((x : ℕ) → page_of va ≤ x → x < page_of va + 4096 * n → present (entry d s x) ≡ false)
        → Maps d (page_of va) n pa perm s (mappages d va size pa perm s)
  unfolding mappages
  mappages_lem va size pa s q m zp p v free =
      let n = (va + size - 1) / 4096 - va / 4096 in
      let last : page_of va + 4096 * n ≡ page_of (u32 (va + size + 2 ^ 32 - 1)) = omega arith in
      subst
        (λ l.
          Maps d (page_of va) (suc n) pa perm s (mappages_loop (2 ^ 20) d (page_of va) l pa perm s))
        last
        (mappages_loop_lem (2 ^ 20) n (page_of va) pa s (omega arith) (omega arith) zp (omega arith)
          p v free)
