-- ===== src/Kernel/Reap.antt =====
-- `wait`: which child it returns, and when it fails or sleeps.
use cs537pair.Prelude.{
  ℕ, zero, suc, ◌+◌, ◌≡◌, ◌≢◌, ◌⊎◌, inl, inr, refl, ap, subst, Bool, true, false, ◌&&◌, ◌||◌, [],
  ◌∷◌, Option, none, some, arith, get_elem?, modify, ◌>>=◌, >>=-eq-some, Bool-cases,
}
use cs537pair.Prelude.Int.{pos, negsuc}
use cs537pair.Kalloc.{kfree}
use cs537pair.Proc.{Proc, Table, proc, zombie, is, at, sleep_begin}
use cs537pair.Kernel.{Kernel, Ops, points_to, scan_children, clear_proc}
use cs537pair.Kernel.Alloc.{PidsValid, modify-PidsValid}
use cs537pair.Kernel.Orphans.{at-get}
use cs537pair.Kernel.Calls.{Waited, returned, asleep, freevm, reap, wait_with, wait}

abbrev pub IsChild : ℕ → Proc → Type 0
IsChild cur p = points_to p.parent cur ≡ true

-- What the scan of `wait` over the entries of `t`, from index `i` on, ends with.
data Scan (cur i : ℕ) (have : Bool) (t : Table) (r : Option ℕ × Bool) : Type 0 where
  hit :
      (j : ℕ) (p : Proc)
      → r.0 ≡ some (i + j)
      → get_elem? t j ≡ some p
      → IsChild cur p
      → p.state ≡ zombie
      → Scan cur i have t r
  miss :
      r.0 ≡ none
      → ((j : ℕ) (p : Proc) → get_elem? t j ≡ some p → IsChild cur p → p.state ≢ zombie)
      → (r.1 ≡ false
          → (have ≡ false) × ((j : ℕ) (p : Proc) → get_elem? t j ≡ some p → ¬ IsChild cur p))
      → Scan cur i have t r

module _ (cur i : ℕ) (have : Bool) (x : Proc) (t : Table) (r : Option ℕ × Bool) where
  alive :
      (points_to x.parent cur && is x.state zombie) ≡ false
      → ((j : ℕ) (p : Proc) → get_elem? t j ≡ some p → IsChild cur p → p.state ≢ zombie)
      → (j : ℕ) (p : Proc) → get_elem? (x ∷ t) j ≡ some p
      → IsChild cur p
      → p.state ≢ zombie
  alive n none_dead zero p h c z = ground arith
  alive n none_dead (suc j) p h c z = none_dead j p h c z

  childless :
      points_to x.parent cur ≡ false
      → ((j : ℕ) (p : Proc) → get_elem? t j ≡ some p → ¬ IsChild cur p)
      → (j : ℕ) (p : Proc) → get_elem? (x ∷ t) j ≡ some p
      → ¬ IsChild cur p
  childless n no_kids zero p h c = ground arith
  childless n no_kids (suc j) p h c = no_kids j p h c

  later :
      (points_to x.parent cur && is x.state zombie) ≡ false
      → Scan cur (i + 1) (have || points_to x.parent cur) t r
      → Scan cur i have (x ∷ t) r
  later n (hit j p e h c z) = hit (suc j) p (ground arith) h c z
  later n (miss e none_dead kids) =
      miss e (alive n none_dead)
        (λ w. (ground (arith, (kids w).0), childless (ground (arith, (kids w).0)) (kids w).1))

scan_lem : (cur i : ℕ) (have : Bool) (t : Table) → Scan cur i have t (scan_children cur i have t)
unfolding scan_children
scan_lem cur i have [] = miss refl (λ j p h. absurd (cc)) (λ e. (e, λ j p h. absurd (cc)))
scan_lem cur i have (x ∷ t) = elim (Bool-cases (points_to x.parent cur && is x.state zombie)) [
  | inl found ↦
      rw (found, scan_children) (hit 0 x (ground arith) refl (ground arith) (ground arith))
  | inr more ↦
      rw (more, scan_children)
        (later cur i have x t _ more (scan_lem cur (i + 1) (have || points_to x.parent cur) t))
]

-- What a call of `wait` by `cur` does.
pub record WaitDoes {S : Type 0} (cur : ℕ) (k : Kernel S) (w : Waited S) : Type 0 where
  -- The pid of a zombie child, whose entry is cleared.
  pub gets :
      (pid : ℕ) (k' : Kernel S)
      → w ≡ returned (pos pid) k'
      → (j : ℕ) × (p : Proc) × (get_elem? k.table j ≡ some p)
        × IsChild cur p
        × (p.state ≡ zombie)
        × (p.pid ≡ pid)
        × (k'.table ≡ modify k.table j clear_proc)
  -- A failure changes nothing: there is no child, or the caller is killed.
  pub fails :
      (n : ℕ) (k' : Kernel S)
      → w ≡ returned (negsuc n) k'
      → (k' ≡ k)
        × (((j : ℕ) (p : Proc) → get_elem? k.table j ≡ some p → ¬ IsChild cur p)
            ⊎ ((at k.table cur).killed ≡ true))
  -- A caller that sleeps has no zombie child.
  pub sleeps :
      (k' : Kernel S)
      → w ≡ asleep k'
      → ((j : ℕ) (p : Proc) → get_elem? k.table j ≡ some p → IsChild cur p → p.state ≢ zombie)
        × (k'.table ≡ sleep_begin cur (proc cur) k.table)

module _ {S : Type 0} (ops : Ops S) where
  table-freevm :
      (d : ℕ) (k : Kernel S) {k' : Kernel S} → freevm ops d k ≡ some k' → k'.table ≡ k.table
  unfolding freevm
  table-freevm d k e = ground arith

  reap_lem :
      (j : ℕ) (k : Kernel S) {w : Waited S} {p : Proc}
      → reap ops j k ≡ some w
      → get_elem? k.table j ≡ some p
      → (k' : Kernel S) × (w ≡ returned (pos p.pid) k') × (k'.table ≡ modify k.table j clear_proc)
  unfolding reap
  reap_lem j k {w} {p} e h =
      let finish : Kernel S → Option (Waited S) = λ (k' : Kernel S).
        some (
          returned (pos (at k.table j).pid) (record k' { table = modify k'.table j clear_proc })) in
      let (m, hm, e1) =
        >>=-eq-some (kfree ops.end (at k.table j).kstack k.kmem)
          (λ m. freevm ops (at k.table j).pgdir (record k { kmem = m }) >>= finish) e in
      let (k1, hk, e2) =
        >>=-eq-some (freevm ops (at k.table j).pgdir (record k { kmem = m })) finish e1 in
      let same : at k.table j ≡ p = at-get k.table j h in
      let k2 : Kernel S = record k1 { table = modify k1.table j clear_proc } in
      (
        k2,
        ground (arith, e2, ap (λ r. r.pid) same),
        ap (λ t. modify t j clear_proc)
            (table-freevm (at k.table j).pgdir (record k { kmem = m }) hk),
      )

  wait_with_lem :
      (cur : ℕ) (k : Kernel S) (r : Option ℕ × Bool) {w : Waited S}
      → Scan cur 0 false k.table r
      → wait_with ops cur k r ≡ some w
      → WaitDoes cur k w
  unfolding wait_with
  wait_with_lem cur k (some i, have) {w} (hit j p e h c z) f =
      let ij : i ≡ j = ground arith in
      let (k', made, cleared) = reap_lem j k (subst (λ x. reap ops x k ≡ some w) ij f) h in
      record {
        gets =
            λ pid k'' g. (j, p, h, c, z, ground (arith, made, g), ground (arith, made, g, cleared));
        fails = λ n k'' g. absurd (cc);
        sleeps = λ k'' g. absurd (cc);
      }
  wait_with_lem cur k (none, have) (hit j p e h c z) f = absurd (cc)
  wait_with_lem cur k (some i, have) (miss e dead kids) f = absurd (cc)
  wait_with_lem cur k (none, have) {w} (miss e dead kids) f = record {
    gets = λ pid k'' g. absurd (ground arith);
    fails = λ n k'' g. (ground arith, why n k'' g);
    sleeps = λ k'' g. (dead, ground arith);
  }
    where
      why :
          (n : ℕ) (k'' : Kernel S)
          → w ≡ returned (negsuc n) k''
          → ((j : ℕ) (p : Proc) → get_elem? k.table j ≡ some p → ¬ IsChild cur p)
            ⊎ ((at k.table cur).killed ≡ true)
      why n k'' g = elim (Bool-cases have) [
        | inl some_kids ↦ inr (ground arith)
        | inr no_kids ↦ inl (kids no_kids).1
      ]

  -- Where `wait` does not panic: it returns the pid of a zombie child of the caller, and clears that
  -- entry and no other; or it fails, the caller having no child or being killed, and changes nothing;
  -- or the caller, which has no zombie child, goes to sleep on its own channel.
  pub wait_lem :
      (cur : ℕ) (k : Kernel S) {w : Waited S} → wait ops cur k ≡ some w → WaitDoes cur k w
  unfolding wait
  wait_lem cur k e =
      wait_with_lem cur k (scan_children cur 0 false k.table) (scan_lem cur 0 false k.table) e

  -- A reaped entry leaves pids unique.
  pub wait-PidsValid :
      (cur : ℕ) (k k' : Kernel S) (pid : ℕ)
      → wait ops cur k ≡ some (returned (pos pid) k')
      → PidsValid k.nextpid k.table
      → PidsValid k.nextpid k'.table
  wait-PidsValid cur k k' pid e v =
      let (j, p, h, c, z, q, cleared) = (wait_lem cur k e).gets pid k' refl in
      rw cleared (
        modify-PidsValid k.nextpid k.nextpid j k.table clear_proc (omega arith)
          (λ x g. (omega (arith, v.below j x g), inl refl)) v)
