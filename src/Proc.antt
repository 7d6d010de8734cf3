-- ===== src/Proc.antt =====
-- p5/xv6-public/proc.h and proc.c: the process table and what changes it.
-- A `struct proc *` is an index into `ptable.proc`, and null is `none`; `panic` is `none` too.
-- Each function runs under `ptable.lock`, so it is one step on the whole table. Saved registers
-- that no function here sets, kernel stack contents and the hardware switch are left out.
pub mod Sched
pub mod Sleep
mod Tests
use cs537pair.Prelude.{
  ℕ, suc, ◌+◌, Bool, true, false, ◌&&◌, not, List, [], ◌∷◌, Option, none, some, map, leb, ltb, ◌==◌,
  if◌then◌else◌, find_index, get_or, modify, replicate,
}
use cs537pair.Prelude.Int.{ℤ, pos, negsuc, ◌+ℤ◌, leb_ℤ, ltb_ℤ, ◌==ℤ◌}

abbrev pub nproc : ℕ
nproc = 64

-- `enum procstate`
pub data ProcState : Type 0 where
  unused embryo sleeping runnable running zombie : ProcState

-- The number that C gives the constant.
abbrev pub rank : ProcState → ℕ
rank unused = 0
rank embryo = 1
rank sleeping = 2
rank runnable = 3
rank running = 4
rank zombie = 5

abbrev pub is : ProcState → ProcState → Bool
is a b = rank a == rank b

-- What a `void *chan` points to. Distinct objects have distinct addresses.
pub data Chan : Type 0 where
  null : Chan
  proc : ℕ → Chan
  ticks : Chan
  object : ℕ → Chan

abbrev pub same_chan : Chan → Chan → Bool
same_chan null null = true
same_chan (proc i) (proc j) = i == j
same_chan ticks ticks = true
same_chan (object a) (object b) = a == b
same_chan _ _ = false

-- The fields of `struct trapframe` that the kernel sets; `others` are only copied.
pub record Trapframe : Type 0 where
  pub eax : ℕ
  pub esp : ℕ
  pub eip : ℕ
  pub others : List ℕ

-- `struct proc`. A `pgdir` or `kstack` of 0 is null, an open file is an index into `ftable`.
pub record Proc : Type 0 where
  pub sz : ℕ
  pub pgdir : ℕ
  pub kstack : ℕ
  pub state : ProcState
  pub pid : ℕ
  pub parent : Option ℕ
  pub tf : Trapframe
  pub chan : Chan
  pub killed : Bool
  pub ofile : List (Option ℕ)
  pub cwd : Option ℕ
  pub name : List ℕ
  pub nclone : ℕ
  pub sleepticks : ℤ
  pub nice : ℤ

abbrev pub Table : Type 0
Table = List Proc

-- Static storage is zero.
abbrev pub zero_proc : Proc
zero_proc = record {
  sz = 0;
  pgdir = 0;
  kstack = 0;
  state = unused;
  pid = 0;
  parent = none;
  tf = record { eax = 0; esp = 0; eip = 0; others = [] };
  chan = null;
  killed = false;
  ofile = replicate 16 none;
  cwd = none;
  name = replicate 16 0;
  nclone = 0;
  sleepticks = pos 0;
  nice = pos 0;
}

-- The entry that a pointer into the table points to.
abbrev pub at : Table → ℕ → Proc
at t i = get_or t i zero_proc

-- The scan of `scheduler`: the process that is best so far, and its priority.
unfoldable pub pick_loop : Table → ℕ → Option ℕ → ℤ → Option ℕ
pick_loop [] i nice_p highest_prio = nice_p
pick_loop (p ∷ t) i nice_p highest_prio =
    let better = is p.state runnable && leb_ℤ p.nice highest_prio in
    pick_loop t (i + 1) (if better then some i else nice_p)
      (if better then p.nice else highest_prio)

unfoldable pub pick : Table → Option ℕ
pick t = pick_loop t 0 none (pos 19)

abbrev pub set_state : ProcState → Proc → Proc
set_state s p = record p { state = s }

-- `if(nice_p != 0)` of `scheduler`, up to `swtch`: what the CPU runs now, and the table.
abbrev pub dispatch : Table → Option ℕ → Option ℕ × Table
dispatch t none = (none, t)
dispatch t (some i) = (some i, modify t i (set_state running))

-- One round of `scheduler`.
unfoldable pub schedule : Table → Option ℕ × Table
schedule t = dispatch t (pick t)

-- `yield`, up to `sched`.
unfoldable pub yield : ℕ → Table → Table
yield cur t = modify t cur (set_state runnable)

-- `sleep`, from `p->chan = chan` up to `sched`, and from there on.
unfoldable pub sleep_begin : ℕ → Chan → Table → Table
sleep_begin cur chan t = modify t cur (λ p. record p { chan = chan; state = sleeping })

unfoldable pub sleep_end : ℕ → Table → Table
sleep_end cur t = modify t cur (λ p. record p { chan = null })

abbrev pub wake_one : Chan → Proc → Proc
wake_one chan p =
    if is p.state sleeping && same_chan p.chan chan then record p { state = runnable } else p

-- `wakeup1`, and `wakeup` under the lock.
unfoldable pub wakeup1 : Chan → Table → Table
wakeup1 chan t = map (wake_one chan) t

abbrev pub tick_one : Proc → Proc
tick_one p =
    if is p.state sleeping && same_chan p.chan ticks
    then (if p.sleepticks ==ℤ pos 0
        then record p { state = runnable }
        else record p { sleepticks = p.sleepticks +ℤ negsuc 0 })
    else p

unfoldable pub sleep_proc_notify : Table → Table
sleep_proc_notify t = map tick_one t

abbrev pub mark_killed : Proc → Proc
mark_killed p = record p {
  killed = true;
  state = if is p.state sleeping then runnable else p.state;
}

abbrev pub kill_found : Table → Option ℕ → ℤ × Table
kill_found t none = (negsuc 0, t)
kill_found t (some i) = (pos 0, modify t i mark_killed)

-- `kill`: its result, 0 or -1, and the table.
unfoldable pub kill : ℕ → Table → ℤ × Table
kill pid t = kill_found t (find_index (λ (p : Proc). p.pid == pid) t)

-- `sys_nice` behind `argint`: the new value and its bounds, and the store. The sum is exact: where it
-- overflows an `int`, C leaves it undefined.
abbrev pub clamp_nice : ℤ → ℤ
clamp_nice n = if ltb_ℤ n (negsuc 19) then negsuc 19 else if ltb_ℤ (pos 19) n then pos 19 else n

unfoldable pub nice : ℕ → ℤ → Table → Table
nice cur inc t = modify t cur (λ p. record p { nice = clamp_nice (p.nice +ℤ inc) })

-- What a round of `sys_sleep` comes to: a return, or a `sleep` on the clock.
pub data Napped : Type 0 where
  done : ℤ → Table → Napped
  napping : Table → Napped

abbrev pub set_sleepticks : ℕ → ℤ → Table → Table
set_sleepticks cur n t = modify t cur (λ p. record p { sleepticks = n })

-- A round of the loop of `sys_sleep`, `passed` ticks after the call; after a sleep it goes on with the
-- next round.
unfoldable pub sleep_round : ℕ → ℕ → ℕ → Table → Napped
sleep_round cur n passed t =
    if ltb passed n
    then (if (at t cur).killed then done (negsuc 0) t else napping (sleep_begin cur ticks t))
    else done (pos 0) (set_sleepticks cur (negsuc 0) t)

-- `sys_sleep` behind `argint`, for `n` ticks that are not negative, up to its first sleep.
unfoldable pub sys_sleep : ℕ → ℕ → Table → Napped
sys_sleep cur n t =
    if n == 0
    then done (pos 0) (yield cur t)
    else sleep_round cur n 0 (set_sleepticks cur (pos n) t)
