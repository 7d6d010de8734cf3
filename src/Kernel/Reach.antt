-- ===== src/Kernel/Reach.antt =====
-- The kernel over any sequence of steps of `fork`, `clone`, `exit`, `wait` and the calls on the process table.
use cs537pair.Prelude.{
  ℕ, suc, ◌≡◌, ◌+◌, ◌^◌, ◌<◌, List, inl, inr, ◌∙◌, refl, ap, sym, subst, Option, none, some, arith,
  modify, set, set-modify, get_elem?, Bool, false, if◌then◌else◌, ◌||◌, ◌==◌, Each, Each-from,
  Each-if, Each-some, not,
}
use cs537pair.Prelude.Int.{ℤ}
use cs537pair.Strings.{safestrcpy}
use cs537pair.Kalloc.{kfree}
use cs537pair.Proc.{Proc, Table, at, sleep_begin}
use cs537pair.Kernel.{
  Kernel, Ops, drop_proc, clear_proc, allocproc, dup_files, dup_cwd, fork_copied, fork_with,
  thread_name, scan_children,
}
use cs537pair.Kernel.Alloc.{PidsValid, modify-PidsValid, allocproc-PidsValid}
use cs537pair.Uvm.{drop_ref}
use cs537pair.Kernel.Orphans.{at-get}
use cs537pair.Kernel.Calls.{
  Waited, returned, asleep, clone_with, end_table, wait, freevm, reap, wait_with,
}
use cs537pair.Kernel.Steps.{
  IsCaller, TableStep, SamePids-PidsValid, modify-SamePids, caller_modify, TableStep-SamePids,
  end_table-SamePids,
}

-- What is in place of an entry in use keeps its pid.
set-PidsValid :
    (n i : ℕ) (t : Table) (c : Proc)
    → IsCaller i t
    → ((p : Proc) → get_elem? t i ≡ some p → c.pid ≡ p.pid)
    → PidsValid n t
    → PidsValid n (set t i c)
set-PidsValid n i t c used same v = subst (PidsValid n) (sym (set-modify t i c)) (
    modify-PidsValid n n i t (λ p. c) (omega arith)
      (λ p h. (omega (arith, same p h, v.below i p h), inr (inr (same p h, used p h)))) v)

same-IsCaller : (i j : ℕ) (t : Table) → IsCaller i t → some i ≡ some j → IsCaller j t
same-IsCaller i j t c q = subst (λ x. IsCaller x t) (ground arith) c

module _ {S : Type 0} where
  -- Pids are below the next one, and unique among the entries in use.
  abbrev pub KernelValid : Kernel S → Type 0
  KernelValid k = PidsValid k.nextpid k.table

  -- A found entry is in use from then on.
  abbrev Found : Option ℕ × Kernel S → Type 0
  Found r = KernelValid r.1 × ((i : ℕ) → r.0 ≡ some i → IsCaller i r.1.table)

  -- What a call on files leaves: other open files and another directory of the process, and other files.
  abbrev pub with_files : ℕ → List (Option ℕ) → Option ℕ → S → Kernel S → Kernel S
  with_files cur ofile cwd s k = record k {
    table = modify k.table cur (λ p. record p { ofile = ofile; cwd = cwd });
    files = s;
  }

  module _ (ops : Ops S) where
    fork_copied-KernelValid :
        (cur i : ℕ) (d : Option ℕ) (k : Kernel S)
        → IsCaller i k.table
        → KernelValid k
        → Each (λ r. KernelValid r.1) (fork_copied ops cur i d k)
    unfolding fork_copied
    fork_copied-KernelValid cur i none k used v =
        Each-from _ (kfree ops.end (at k.table i).kstack k.kmem) _ λ m e.
          modify-PidsValid k.nextpid k.nextpid i k.table (λ p. record (drop_proc p) { pgdir = 0 })
            (omega arith) (λ p h. (v.below i p h, inl refl)) v
    fork_copied-KernelValid cur i (some d) k used v =
        Each-from _ (dup_files ops (at k.table cur).ofile (at k.table i).ofile k.files) _ λ dup e.
          Each-from _ (dup_cwd ops (at k.table cur).cwd dup.1) _ λ s e.
            Each-from _ (safestrcpy (at k.table i).name (at k.table cur).name 16) _ λ name e.
              set-PidsValid k.nextpid i k.table _ used (λ p h. ap (λ r. r.pid) (at-get k.table i h))
                v

    fork_with-KernelValid :
        (cur : ℕ) (r : Option ℕ × Kernel S)
        → Found r
        → Each (λ r. KernelValid r.1) (fork_with ops cur r)
    unfolding fork_with
    fork_with-KernelValid cur (none, k) (v, f) = v
    fork_with-KernelValid cur (some i, k) (v, f) =
        Each-from _ (ops.copyuvm (at k.table cur).pgdir (at k.table cur).sz k.kmem) _
          λ c e. fork_copied-KernelValid cur i c.0 (record k { kmem = c.1 }) (f i refl) v

    clone_with-KernelValid :
        (cur fn stack arg : ℕ) (r : Option ℕ × Kernel S)
        → Found r
        → Each (λ r. KernelValid r.1) (clone_with ops cur fn stack arg r)
    unfolding clone_with
    clone_with-KernelValid cur fn stack arg (none, k) (v, f) = v
    clone_with-KernelValid cur fn stack arg (some i, k) (v, f) =
        let counted = modify k.table cur (λ (q : Proc). record q { nclone = suc q.nclone }) in
        let s =
          modify-SamePids k.table cur (λ q. record q { nclone = suc q.nclone })
            (λ p h. (refl, refl)) in
        Each-from _ (dup_files ops (at k.table cur).ofile (at k.table i).ofile k.files) _ λ dup e.
          Each-from _ (dup_cwd ops (at k.table cur).cwd dup.1) _ λ fs e.
            Each-from _
              (thread_name (at k.table i).name (at k.table cur).name (suc (at k.table cur).nclone))
              _
              λ name e.
                set-PidsValid k.nextpid i counted _
                  (λ p h.
                    let (q, hq, a, b) = s i p h in
                    let n = f i refl q hq in λ u. n (ground (arith, b, u)))
                  (λ p h.
                    let (q, hq, a, b) = s i p h in ap (λ r. r.pid) (at-get k.table i hq) ∙ sym a)
                  (SamePids-PidsValid k.nextpid k.table counted s v)

    freevm-kept :
        (d : ℕ) (k : Kernel S)
        → Each (λ k'. (k'.table ≡ k.table) × (k'.nextpid ≡ k.nextpid)) (freevm ops d k)
    unfolding freevm
    freevm-kept d k = Each-from _ (drop_ref d k.uvm) _ λ r e.
        Each-from _
          (if not r.0 then some k.kmem else if d == 0 then none else ops.free_pages d k.kmem) _
          λ m f. (refl, refl)

    abbrev WaitedValid : Waited S → Type 0
    WaitedValid (returned n k) = KernelValid k
    WaitedValid (asleep k) = KernelValid k

    reap-WaitedValid : (i : ℕ) (k : Kernel S) → KernelValid k → Each WaitedValid (reap ops i k)
    unfolding reap
    reap-WaitedValid i k v =
        let d = (at k.table i).pgdir in
        Each-from _ (kfree ops.end (at k.table i).kstack k.kmem) _ λ m e.
          Each-from _ (freevm ops d (record k { kmem = m })) _ λ k' f.
            let (t, n) =
              Each-some _ (freevm ops d (record k { kmem = m })) k'
                (freevm-kept d (record k { kmem = m })) f in
            let v' : KernelValid k' = rw (t, n) v in
            modify-PidsValid k'.nextpid k'.nextpid i k'.table clear_proc (omega arith)
              (λ p h. (omega (arith, v'.below i p h), inl refl)) v'

    wait-WaitedValid :
        (cur : ℕ) (k : Kernel S)
        → IsCaller cur k.table
        → KernelValid k
        → Each WaitedValid (wait ops cur k)
    unfolding wait wait_with sleep_begin
    wait-WaitedValid cur k c v = found (scan_children cur 0 false k.table)
      where
        found : (r : Option ℕ × Bool) → Each WaitedValid (wait_with ops cur k r)
        found (some i, b) = reap-WaitedValid i k v
        found (none, b) = Each-if _ (not b || (at k.table cur).killed) _ _ v (
            SamePids-PidsValid k.nextpid k.table _
              (caller_modify k.table cur _ c (λ p. (refl, refl))) v)

    -- A step of the system: what a process, the scheduler or the clock does between two moments at which
    -- another may run. `fork` and `clone` come after `allocproc`, which other steps may part from them, and
    -- so does `exit` after the calls that close its files.
    pub data Step (k : Kernel S) : Kernel S → Type 0 where
      allocates : k.nextpid + 1 < 2 ^ 31 → Step k (allocproc k).1
      forks :
          (cur i : ℕ) (r : ℤ) (k' : Kernel S)
          → IsCaller i k.table
          → fork_with ops cur (some i, k) ≡ some (r, k')
          → Step k k'
      clones :
          (cur fn stack arg i : ℕ) (r : ℤ) (k' : Kernel S)
          → IsCaller i k.table
          → clone_with ops cur fn stack arg (some i, k) ≡ some (r, k')
          → Step k k'
      files :
          (cur : ℕ) (ofile : List (Option ℕ)) (cwd : Option ℕ) (s : S)
          → Step k (with_files cur ofile cwd s k)
      ends :
          (cur : ℕ)
          → IsCaller cur k.table
          → Step k (record k { table = end_table cur k.initproc k.table })
      waits :
          (cur : ℕ) (r : ℤ) (k' : Kernel S)
          → IsCaller cur k.table
          → wait ops cur k ≡ some (returned r k')
          → Step k k'
      waits_asleep :
          (cur : ℕ) (k' : Kernel S)
          → IsCaller cur k.table
          → wait ops cur k ≡ some (asleep k')
          → Step k k'
      changes : (t : Table) → TableStep k.table t → Step k (record k { table = t })

    pub data Reach (k : Kernel S) : Kernel S → Type 0 where
      here : Reach k k
      further : (k1 k2 : Kernel S) → Reach k k1 → Step k1 k2 → Reach k k2

    Step-KernelValid : (k k' : Kernel S) → Step k k' → KernelValid k → KernelValid k'
    Step-KernelValid k _ (allocates l) v = allocproc-PidsValid k l v
    Step-KernelValid k _ (forks cur i r k' c e) v =
        Each-some _ _ (r, k')
          (fork_with-KernelValid cur (some i, k) (v, λ j q. same-IsCaller i j k.table c q)) e
    Step-KernelValid k _ (clones cur fn stack arg i r k' c e) v =
        Each-some _ _ (r, k')
          (clone_with-KernelValid cur fn stack arg (some i, k)
            (v, λ j q. same-IsCaller i j k.table c q))
          e
    Step-KernelValid k _ (files cur ofile cwd s) v =
        SamePids-PidsValid k.nextpid k.table _ (modify-SamePids k.table cur _ (λ p h. (refl, refl)))
          v
    Step-KernelValid k _ (ends cur c) v =
        SamePids-PidsValid k.nextpid k.table _ (end_table-SamePids cur k.initproc k.table c) v
    Step-KernelValid k _ (waits cur r k' c e) v =
        Each-some _ _ (returned r k') (wait-WaitedValid cur k c v) e
    Step-KernelValid k _ (waits_asleep cur k' c e) v =
        Each-some _ _ (asleep k') (wait-WaitedValid cur k c v) e
    Step-KernelValid k _ (changes t s) v =
        SamePids-PidsValid k.nextpid k.table t (TableStep-SamePids k.table t s) v

    -- From a kernel whose pids are below the next one and unique among the entries in use, so they are after
    -- every sequence of steps in which `nextpid` does not overflow: `allocproc`, the rest of `fork` and
    -- of `clone` with an entry in use, any change of a process's open files and directory, the end of
    -- `exit`, a round of `wait`, `sleep`, `wakeup`, `kill`, `nice`, `yield`, the scheduler and the clock.
    pub Reach-KernelValid : (k k' : Kernel S) → Reach k k' → KernelValid k → KernelValid k'
    Reach-KernelValid k _ here v = v
    Reach-KernelValid k _ (further k1 k' r s) v =
        Step-KernelValid k1 k' s (Reach-KernelValid k k1 r v)
