-- ===== src/Kernel/Calls.antt =====
-- p5/xv6-public/proc.c: `clone`, `wait` and `exit`, and `freevm` of vm.c as they use it.
use cs537pair.Prelude.{
  ℕ, suc, ◌+◌, ◌-◌, ◌%◌, ◌^◌, Bool, false, ◌||◌, not, List, [], ◌∷◌, Option, none, some, ◌==◌,
  if◌then◌else◌, modify, set, length, replicate, ◌>>=◌, ◌>>◌, ensure,
}
use cs537pair.Prelude.Int.{ℤ, pos}
use cs537pair.Kalloc.{kfree}
use cs537pair.Proc.{Proc, Table, Trapframe, null, proc, runnable, zombie, at, wakeup1, sleep_begin}
use cs537pair.Uvm.{share, drop_ref}
use cs537pair.Kernel.{
  Ops, Kernel, failed, poke, parent_chan, reparent, scan_children, clear_proc, thread_name,
  allocproc, dup_files, dup_cwd,
}

-- What a call of `wait` does before it returns or gives up the CPU. After a sleep it starts again.
pub data Waited (S : Type 0) : Type 0 where
  returned : ℤ → Kernel S → Waited S
  asleep : Kernel S → Waited S

abbrev pub close_proc : Proc → Proc
close_proc q = record q { ofile = replicate (length q.ofile) none; cwd = none }

abbrev pub end_proc : Proc → Proc
end_proc q = record q { state = zombie }

-- What `exit` makes of the process table under `ptable.lock`: it wakes the parent, passes the children
-- on, and makes the caller a zombie.
unfoldable pub end_table : ℕ → ℕ → Table → Table
end_table cur init t =
    let woken = wakeup1 (parent_chan (at t cur).parent) t in
    modify (reparent (length woken) 0 cur init woken) cur end_proc

-- What `exit` makes of the process table, with the files of the caller closed first.
unfoldable pub exit_table : ℕ → ℕ → Table → Table
exit_table cur init t = end_table cur init (modify t cur close_proc)

module _ {S : Type 0} (ops : Ops S) where
  open ops use {fileclose, close_cwd, free_pages, end}

  -- `clone` with the entry `i` that `allocproc` has found.
  unfoldable pub clone_with : ℕ → ℕ → ℕ → ℕ → Option ℕ × Kernel S → Option (ℤ × Kernel S)
  clone_with cur fn stack arg (none, k) = some (failed, k)
  clone_with cur fn stack arg (some i, k) = do
    let p = at k.table cur
    let np = at k.table i
    let below : ℕ → ℕ = λ n. (stack + 2 ^ 32 - n) % 2 ^ 32
    dup ← dup_files ops p.ofile np.ofile k.files
    s ← dup_cwd ops p.cwd dup.1
    name ← thread_name np.name p.name (suc p.nclone)
    let tf : Trapframe = record (p.tf) { eax = 0; esp = below 8; eip = fn }
    let child : Proc = record np {
      pgdir = p.pgdir;
      chan = null;
      sz = p.sz;
      parent = some cur;
      tf = tf;
      ofile = dup.0;
      cwd = p.cwd;
      name = name;
      nclone = suc np.nclone;
      state = runnable;
    }
    some (
      pos np.pid,
      record k {
        table = set (modify k.table cur (λ q. record q { nclone = suc q.nclone })) i child;
        uvm = share p.pgdir k.uvm;
        files = s;
        umem = poke (poke k.umem p.pgdir (below 4) arg) p.pgdir (below 8) 0xffffffff;
      },
    )

  unfoldable pub clone : ℕ → ℕ → ℕ → ℕ → Kernel S → Option (ℤ × Kernel S)
  clone cur fn stack arg k = clone_with cur fn stack arg (allocproc k)

  -- `freevm`
  unfoldable pub freevm : ℕ → Kernel S → Option (Kernel S)
  freevm pgdir k = do
    r ← drop_ref pgdir k.uvm
    let k' : Kernel S = record k { uvm = r.1 }
    m ← (if not r.0 then some k.kmem else if pgdir == 0 then none else free_pages pgdir k.kmem)
    some (record k' { kmem = m })

  -- `wait` frees what a zombie child holds, and its entry.
  unfoldable pub reap : ℕ → Kernel S → Option (Waited S)
  reap i k = do
    m ← kfree end (at k.table i).kstack k.kmem
    k' ← freevm (at k.table i).pgdir (record k { kmem = m })
    some (returned (pos (at k.table i).pid) (record k' { table = modify k'.table i clear_proc }))

  -- What follows the scan in `wait`.
  unfoldable pub wait_with : ℕ → Kernel S → Option ℕ × Bool → Option (Waited S)
  wait_with cur k (some i, havekids) = reap i k
  wait_with cur k (none, havekids) =
      if not havekids || (at k.table cur).killed
      then some (returned failed k)
      else some (asleep (record k { table = sleep_begin cur (proc cur) k.table }))

  unfoldable pub wait : ℕ → Kernel S → Option (Waited S)
  wait cur k = wait_with cur k (scan_children cur 0 false k.table)

  -- The loop of `exit` that closes the open files.
  unfoldable pub close_files : List (Option ℕ) → S → Option S
  close_files [] s = some s
  close_files (none ∷ fs) s = close_files fs s
  close_files (some f ∷ fs) s = fileclose f s >>= close_files fs

  unfoldable pub put_cwd : Option ℕ → S → Option S
  put_cwd none s = none
  put_cwd (some i) s = close_cwd i s

  -- `exit` up to `sched`, from which it does not return.
  unfoldable pub exit : ℕ → Kernel S → Option (Kernel S)
  exit cur k = do
    ensure (not (cur == k.initproc))
    s ← close_files (at k.table cur).ofile k.files
    s' ← put_cwd (at k.table cur).cwd s
    some (record k { table = exit_table cur k.initproc k.table; files = s' })
