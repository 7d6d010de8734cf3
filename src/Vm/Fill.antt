-- ===== src/Vm/Fill.antt =====
-- What one round of `mappages` makes of the mapping.
use Prim.Native.Nat.{bit_or}
use cs537pair.Prelude.Bits.{bit_or-page}
use cs537pair.Prelude.{
  ◌%◌, ◌<◌, ℕ, ◌+◌, ◌≡◌, ◌≢◌, ◌∙◌, refl, ap, sym, subst, Bool, true, false, ◌&&◌, Option, some,
  arith, ◌==◌, if◌then◌else◌, inl, inr, Bool-cases, ==_of_ne, ==_self, IsFresh,
}
use cs537pair.Vm.{Vm, put, pdx, ptx, present, with_p, walkpgdir, fill, map_page}
use cs537pair.Vm.Map.{target, entry, IsApart, Walked, no_page, found, walkpgdir_lem}

-- A word written to the entry for `va`.
module _ (d va w : ℕ) (s : Vm) (v : IsApart d s) (is : present (s.tables d (pdx va)) ≡ true) where
  abbrev pub filled : Vm
  filled = record s { tables = put (target (s.tables d (pdx va))) (ptx va) w s.tables }

  pub dir_same : (i : ℕ) → filled.tables d i ≡ s.tables d i
  dir_same i =
      let n : (d == target (s.tables d (pdx va))) ≡ false =
        ==_of_ne d (target (s.tables d (pdx va))) (λ e. v.beside (pdx va) is (sym e)) in
      rw n refl

  pub entry-filled :
      (x : ℕ)
      → entry d filled x ≡ (if (pdx x == pdx va) && (ptx x == ptx va) then w else entry d s x)
  entry-filled x =
      ap (λ y. if present y then filled.tables (target y) (ptx x) else 0) (dir_same (pdx x))
      ∙ elim (Bool-cases (pdx x == pdx va)) [
        | inl e ↦
            let o : pdx va ≡ pdx x = ground arith in
            let is' : present (s.tables d (pdx x)) ≡ true =
              ap (λ y. present (s.tables d y)) (sym o) ∙ is in
            let m : (target (s.tables d (pdx x)) == target (s.tables d (pdx va))) ≡ true =
              ap (λ y. target (s.tables d y) == target (s.tables d (pdx va))) (sym o)
              ∙ ==_self (target (s.tables d (pdx va))) in
            rw (is', e) (rw m refl)
        | inr e ↦ elim (Bool-cases (present (s.tables d (pdx x)))) [
          | inr unmapped ↦ rw (unmapped, e) refl
          | inl is' ↦
              let o : pdx x ≢ pdx va = ground arith in
              let m : (target (s.tables d (pdx x)) == target (s.tables d (pdx va))) ≡ false =
                ==_of_ne (target (s.tables d (pdx x))) (target (s.tables d (pdx va)))
                  (λ q. o (v.apart (pdx x) (pdx va) is' is q)) in
              rw (is', e) (rw m refl)
        ]
      ]

  pub filled-IsApart : IsApart d filled
  filled-IsApart = record {
    pages = v.pages;
    distinct = v.distinct;
    dir_used = v.dir_used;
    tables_used = λ i p.
        subst (λ y. IsFresh (target y) s.kmem.freelist) (sym (dir_same i))
          (v.tables_used i (ap present (sym (dir_same i)) ∙ p));
    beside =
        λ i p e. v.beside i (ap present (sym (dir_same i)) ∙ p) (ap target (sym (dir_same i)) ∙ e);
    apart = λ i j p q e.
        v.apart i j (ap present (sym (dir_same i)) ∙ p) (ap present (sym (dir_same j)) ∙ q)
          (ap target (sym (dir_same i)) ∙ e ∙ ap target (dir_same j));
  }

-- What mapping a page that is not mapped comes to: a failure for want of a page, where no entry changes, or
-- the entry for the page holds `w`, and every other what it held.
pub data Mapped (d va w : ℕ) (s : Vm) (r : Option (Bool × Vm)) : Type 0 where
  failed :
      (s' : Vm)
      → r ≡ some (false, s')
      → ((x : ℕ) → entry d s' x ≡ entry d s x)
      → IsApart d s'
      → Mapped d va w s r
  mapped :
      (s' : Vm)
      → r ≡ some (true, s')
      → ((x : ℕ)
          → entry d s' x ≡ (if (pdx x == pdx va) && (ptx x == ptx va) then w else entry d s x))
      → IsApart d s'
      → Mapped d va w s r

pub map_page_lem :
    (d va pa perm : ℕ) (s : Vm)
    → pa % 4096 ≡ 0
    → perm < 4096
    → IsApart d s
    → present (entry d s va) ≡ false
    → Mapped d va (pa + with_p perm) s (map_page d va pa perm s)
unfolding map_page
map_page_lem d va pa perm s aligned flags v free = go (walkpgdir_lem d va s v)
  where
    go :
        Walked d va s (walkpgdir d va true s)
        → Mapped d va
            (pa + with_p perm)
            s
            (let (p, s') = walkpgdir d va true s in fill p pa perm s')
    go (no_page s' e z same v') = rw e (failed s' refl same v')
    go (found s' e is same v') =
        let w = pa + with_p perm in
        let or : bit_or pa (with_p perm) ≡ w =
          bit_or-page pa (with_p perm) aligned (ground arith) in
        let here : entry d s' va ≡ s'.tables (target (s'.tables d (pdx va))) (ptx va) =
          rw is refl in
        let u : present (s'.tables (target (s'.tables d (pdx va))) (ptx va)) ≡ false =
          ap present (sym here) ∙ ap present (same va) ∙ free in
        rw e (
          mapped (filled d va w s' v' is) (rw (u, or) refl)
            (λ x.
              entry-filled d va w s' v' is x
              ∙ ap (λ y. if (pdx x == pdx va) && (ptx x == ptx va) then w else y) (same x))
            (filled-IsApart d va w s' v' is))
