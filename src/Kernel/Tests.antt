-- ===== src/Kernel/Tests.antt =====
-- A kernel with init, a shell and a dead child of the shell, and one free page.
use cs537pair.Prelude.{
  ℕ, zero, suc, ◌≡◌, ◌≢◌, ◌<◌, refl, Bool, [], ◌∷◌, none, some, arith, true, get_elem?,
}
use cs537pair.Prelude.Int.{pos}
use cs537pair.Kalloc.{kfree, kalloc}
use cs537pair.Proc.{Proc, Table, zero_proc, runnable, zombie, unused, schedule}
use cs537pair.Uvm.{drop_ref, locate_uvmrefcount}
use cs537pair.Kernel.{Kernel, Ops, allocproc, scan_children, clear_proc}
use cs537pair.Kernel.Alloc.{PidsValid, Allocated, allocproc_lem}
use cs537pair.Kernel.Calls.{
  returned, wait, wait_with, reap, freevm, exit, exit_table, close_files, put_cwd,
}
use cs537pair.Kernel.Exit.{Exited, exit_lem}
use cs537pair.Kernel.Steps.{IsCaller, schedules}
use cs537pair.Kernel.Reach.{
  KernelValid, Reach, here, further, waits, changes, allocates, Reach-KernelValid,
}
use cs537pair.Kernel.Reap.{WaitDoes, wait_lem}

-- Files that count nothing, and page tables that own no page.
abbrev ops : Ops Bool
ops = record {
  filedup = λ f s. some s;
  fileclose = λ f s. some s;
  idup = λ i s. some s;
  close_cwd = λ i s. some s;
  copyuvm = λ d sz m. some (none, m);
  free_pages = λ d m. some m;
  end = 0x80115000;
}

abbrev shell : Proc
shell = record zero_proc { state = runnable; pid = 2; parent = some 0; pgdir = 5; cwd = some 1 }

abbrev dead : Proc
dead = record zero_proc { state = zombie; pid = 3; parent = some 1; pgdir = 7; kstack = 0x80400000 }

abbrev table : Table
table = record zero_proc { state = runnable; pid = 1; pgdir = 4 } ∷ shell ∷ dead ∷ zero_proc ∷ []

abbrev kernel : Kernel Bool
kernel = record {
  table = table;
  nextpid = 4;
  initproc = 0;
  kmem = record { use_lock = true; freelist = 0x80401000 ∷ [] };
  uvm = [];
  files = true;
  umem = λ d a. 0;
}

kernel-PidsValid : PidsValid kernel.nextpid kernel.table
kernel-PidsValid = record { below = below; unique = unique }
  where
    below : (i : ℕ) (p : Proc) → get_elem? table i ≡ some p → p.pid < 4
    below zero p h = ground arith
    below (suc zero) p h = ground arith
    below (suc (suc zero)) p h = ground arith
    below (suc (suc (suc zero))) p h = ground arith
    below (suc (suc (suc (suc i)))) p h = absurd (cc)

    numbered : (i : ℕ) (p : Proc) → get_elem? table i ≡ some p → p.state ≢ unused → p.pid ≡ suc i
    numbered zero p h n = ground arith
    numbered (suc zero) p h n = ground arith
    numbered (suc (suc zero)) p h n = ground arith
    numbered (suc (suc (suc zero))) p h n = absurd (n (ground arith))
    numbered (suc (suc (suc (suc i)))) p h n = absurd (cc)

    unique :
        (i j : ℕ) (p q : Proc)
        → get_elem? table i ≡ some p
        → get_elem? table j ≡ some q
        → p.state ≢ unused
        → q.state ≢ unused
        → p.pid ≡ q.pid
        → i ≡ j
    unique i j p q h g n m e = omega (arith, numbered i p h n, numbered j q g m, e)

takes_three : (allocproc kernel).0 ≡ some 3
unfolding allocproc kalloc
takes_three = refl

allocproc_lem_example : Allocated kernel 3 (allocproc kernel).1
allocproc_lem_example = allocproc_lem kernel 3 takes_three

-- What is left once the shell has waited for its child.
abbrev reaped : Kernel Bool
reaped = record kernel {
  table =
      record zero_proc { state = runnable; pid = 1; pgdir = 4 }
      ∷ shell
      ∷ clear_proc dead
      ∷ zero_proc
      ∷ [];
  kmem = record { use_lock = true; freelist = 0x80400000 ∷ 0x80401000 ∷ [] };
}

shell_waits : wait ops 1 kernel ≡ some (returned (pos 3) reaped)
unfolding wait wait_with scan_children reap kfree freevm drop_ref locate_uvmrefcount
shell_waits = refl

wait_lem_example : WaitDoes 1 kernel (returned (pos 3) reaped)
wait_lem_example = wait_lem ops 1 kernel shell_waits

abbrev scheduled : Kernel Bool
scheduled = record reaped { table = (schedule reaped.table).1 }

-- The shell waits for its child, the scheduler takes an entry, and then the first half of a `fork`.
history : Reach ops kernel (allocproc scheduled).1
history =
    further scheduled (allocproc scheduled).1
      (further reaped scheduled
        (further kernel reaped here (waits 1 (pos 3) reaped shell_uses shell_waits))
        (changes (schedule reaped.table).1 schedules))
      (allocates (omega arith))
  where
    shell_uses : IsCaller 1 table
    shell_uses p h u = ground arith

Reach-KernelValid_example : KernelValid (allocproc scheduled).1
Reach-KernelValid_example =
    Reach-KernelValid ops kernel (allocproc scheduled).1 history kernel-PidsValid

-- What is left once the shell has ended.
abbrev ended : Kernel Bool
ended = record kernel { table = exit_table 1 0 table }

shell_ends : exit ops 1 kernel ≡ some ended
unfolding exit close_files put_cwd
shell_ends = refl

exit_lem_example : Exited 1 kernel ended
exit_lem_example = exit_lem ops 1 kernel ended shell_ends
