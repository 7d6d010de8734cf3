-- ===== src/Kernel.antt =====
-- p5/xv6-public/proc.c: the life of a process, from `allocproc` over `fork` and `clone` to `exit`
-- and `wait`, on the state that these share: the process table, the page allocator, the counts
-- of page directories, the files and the user memory.
-- What they call in the file system and in the page table code is the interface `Ops`. `none` is
-- a panic, or an access through a null pointer.
pub mod Calls
pub mod Alloc
pub mod Name
pub mod Orphans
pub mod Exit
pub mod Reap
pub mod Steps
pub mod Reach
mod Tests
use mathlib.Core.Option
use cs537pair.Prelude.{
  ℕ, zero, suc, ◌+◌, ◌-◌, ◌/◌, ◌%◌, ◌^◌, Bool, true, false, ◌&&◌, ◌||◌, not, List, [], ◌∷◌, Option,
  none, some, ltb, ◌==◌, if◌then◌else◌, find_index, modify, set, length, replicate, ◌>>=◌, ◌>>◌,
  ensure,
}
use cs537pair.Prelude.Int.{ℤ, pos, negsuc}
use cs537pair.Strings.{strlen, safestrcpy}
use cs537pair.Kalloc.{Kmem, kalloc, kfree}
use cs537pair.Proc.{
  Proc, Table, Trapframe, Chan, null, proc, unused, embryo, runnable, zombie, is, at, wakeup1,
  sleep_begin,
}
use cs537pair.Uvm.{Uvmdesc, share, drop_ref}

-- What the process code calls elsewhere: on files and inodes, whose state is `S`, and on page tables.
-- `close_cwd` is `iput` between `begin_op` and `end_op`; `free_pages` is `freevm` behind its count.
-- The page of a pipe that `fileclose` gives back belongs to `S` here, and not to `kmem`.
pub record Ops (S : Type 0) : Type 0 where
  pub filedup : ℕ → S → Option S
  pub fileclose : ℕ → S → Option S
  pub idup : ℕ → S → Option S
  pub close_cwd : ℕ → S → Option S
  pub copyuvm : ℕ → ℕ → Kmem → Option (Option ℕ × Kmem)
  pub free_pages : ℕ → Kmem → Option Kmem
  pub end : ℕ

pub record Kernel (S : Type 0) : Type 0 where
  pub table : Table
  -- the bit pattern of the `int`
  pub nextpid : ℕ
  pub initproc : ℕ
  pub kmem : Kmem
  pub uvm : List Uvmdesc
  pub files : S
  -- the word at an address of the address space of a page directory
  pub umem : ℕ → ℕ → ℕ

abbrev pub failed : ℤ
failed = negsuc 0

-- The fields that `allocproc` sets under `found:`.
abbrev pub init_proc : ℕ → Proc → Proc
init_proc pid p = record p {
  state = embryo;
  pid = pid;
  nclone = 0;
  sleepticks = negsuc 0;
  chan = null;
  nice = pos 0;
}

abbrev pub drop_proc : Proc → Proc
drop_proc p = record p { kstack = 0; state = unused }

abbrev pub unused? : Proc → Bool
unused? p = is p.state unused

abbrev pub points_to : Option ℕ → ℕ → Bool
points_to none i = false
points_to (some j) i = j == i

-- The first eleven characters of a name and the digits of `nclone`: the `while` loop of `clone` from
-- index `i` on, with fuel for its rounds, and the NUL behind it.
pub suffix : ℕ → ℕ → ℕ → List ℕ → Option (List ℕ)
suffix zero i threadnum name = none
suffix (suc fuel) i threadnum name =
    let rest = suffix fuel (i + 1) (threadnum / 10) (set name i (48 + threadnum % 10)) in
    if not (threadnum == 0) && ltb i 15 then rest else some (set name i 0)

-- The name of a thread: that of its creator, and the number of its creator's `clone` calls.
pub thread_name : List ℕ → List ℕ → ℕ → Option (List ℕ)
thread_name old name nclone = do
  copy ← safestrcpy old name 16
  i ← strlen copy
  suffix 16 i nclone copy

abbrev pub poke : (ℕ → ℕ → ℕ) → ℕ → ℕ → ℕ → ℕ → ℕ → ℕ
poke m pgdir a v d x = if (d == pgdir) && (x == a) then v else m d x

abbrev pub parent_chan : Option ℕ → Chan
parent_chan none = null
parent_chan (some i) = proc i

-- The body of the loop of `exit` that passes children to init.
abbrev pub adopt : ℕ → ℕ → ℕ → Table → Table
adopt cur init i t =
    let moved = modify t i (λ p. record p { parent = some init }) in
    if points_to (at t i).parent cur
    then (if is (at t i).state zombie then wakeup1 (proc init) moved else moved)
    else t

unfoldable pub reparent : ℕ → ℕ → ℕ → ℕ → Table → Table
reparent zero i cur init t = t
reparent (suc n) i cur init t = reparent n (i + 1) cur init (adopt cur init i t)

-- The scan of `wait`, from entry `i` on: a child that is a zombie, and whether there are children.
unfoldable pub scan_children : ℕ → ℕ → Bool → Table → Option ℕ × Bool
scan_children cur i havekids [] = (none, havekids)
scan_children cur i havekids (p ∷ t) =
    let child = points_to p.parent cur in
    elim (child && is p.state zombie) [
      | true ↦ (some i, true)
      | false ↦ scan_children cur (i + 1) (havekids || child) t
    ]

-- The fields that `wait` clears in the entry of the child.
abbrev pub clear_proc : Proc → Proc
clear_proc p = record p {
  kstack = 0;
  pid = 0;
  parent = none;
  name = set p.name 0 0;
  killed = false;
  state = unused;
}

module _ {S : Type 0} where
  -- Without a stack the entry is given back, but its pid is spent.
  abbrev pub with_stack : ℕ → Kernel S → Option ℕ × Kmem → Option ℕ × Kernel S
  with_stack i k (none, m) = (none, record k { table = modify k.table i drop_proc; kmem = m })
  with_stack i k (some s, m) =
      (some i, record k { table = modify k.table i (λ p. record p { kstack = s }); kmem = m })

  abbrev pub alloc_at : Kernel S → Option ℕ → Option ℕ × Kernel S
  alloc_at k none = (none, k)
  alloc_at k (some i) =
      let k' : Kernel S = record k {
        table = modify k.table i (init_proc k.nextpid);
        nextpid = (k.nextpid + 1) % 2 ^ 32;
      } in
      with_stack i k' (kalloc k.kmem)

  unfoldable pub allocproc : Kernel S → Option ℕ × Kernel S
  allocproc k = alloc_at k (find_index unused? k.table)

  module _ (ops : Ops S) where
    open ops use {filedup, fileclose, idup, close_cwd, copyuvm, free_pages, end}

    -- The loop of `fork` and `clone` over the open files.
    unfoldable pub dup_files : List (Option ℕ) → List (Option ℕ) → S → Option (List (Option ℕ) × S)
    dup_files (some f ∷ from) (_ ∷ to) s =
        filedup f s >>= λ s'. Option.map (λ r. (some f ∷ r.0, r.1)) (dup_files from to s')
    dup_files (none ∷ from) (x ∷ to) s = Option.map (λ r. (x ∷ r.0, r.1)) (dup_files from to s)
    dup_files _ to s = some (to, s)

    unfoldable pub dup_cwd : Option ℕ → S → Option S
    dup_cwd none s = none
    dup_cwd (some i) s = idup i s

    -- `fork` behind `copyuvm`, whose result is a page directory or null.
    unfoldable pub fork_copied : ℕ → ℕ → Option ℕ → Kernel S → Option (ℤ × Kernel S)
    fork_copied cur i none k = do
      m ← kfree end (at k.table i).kstack k.kmem
      some (
        failed,
        record k { table = modify k.table i (λ p. record (drop_proc p) { pgdir = 0 }); kmem = m },
      )
    fork_copied cur i (some d) k = do
      let p = at k.table cur
      let np = at k.table i
      dup ← dup_files p.ofile np.ofile k.files
      s ← dup_cwd p.cwd dup.1
      name ← safestrcpy np.name p.name 16
      let tf : Trapframe = record (p.tf) { eax = 0 }
      let child : Proc = record np {
        pgdir = d;
        sz = p.sz;
        parent = some cur;
        tf = tf;
        ofile = dup.0;
        cwd = p.cwd;
        name = name;
        state = runnable;
      }
      some (pos np.pid, record k { table = set k.table i child; files = s })

    unfoldable pub fork_with : ℕ → Option ℕ × Kernel S → Option (ℤ × Kernel S)
    fork_with cur (none, k) = some (failed, k)
    fork_with cur (some i, k) = do
      r ← copyuvm (at k.table cur).pgdir (at k.table cur).sz k.kmem
      fork_copied cur i r.0 (record k { kmem = r.1 })

    unfoldable pub fork : ℕ → Kernel S → Option (ℤ × Kernel S)
    fork cur k = fork_with cur (allocproc k)
