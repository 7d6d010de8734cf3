-- ===== src/Spinlock.antt =====
-- p5/xv6-public/spinlock.c: spinlocks, and the nesting of `pushcli` and `popcli`.
-- The recorded call stacks and names of locks are left out. `none` is a panic.
pub mod Nesting
mod Tests
use cs537pair.Prelude.{
  ℕ, ◌+◌, ◌-◌, Bool, true, false, not, ◌&&◌, Option, none, some, ◌==◌, if◌then◌else◌, ◌>>=◌,
}

-- What a CPU has for this: its number, the interrupt flag, and `ncli` and `intena` of `struct cpu`.
pub record Cpu : Type 0 where
  pub id : ℕ
  pub intr : Bool
  pub ncli : ℕ
  pub intena : Bool

-- `struct spinlock`
pub record Spinlock : Type 0 where
  pub locked : Bool
  pub cpu : Option ℕ

abbrev pub initlock : Spinlock
initlock = record { locked = false; cpu = none }

unfoldable pub pushcli : Cpu → Cpu
pushcli c = record c {
  intr = false;
  ncli = c.ncli + 1;
  intena = if c.ncli == 0 then c.intr else c.intena;
}

unfoldable pub popcli : Cpu → Option Cpu
popcli c =
    if c.intr
    then none
    else if c.ncli == 0
    then none
    else some (record c { ncli = c.ncli - 1; intr = (c.ncli - 1 == 0) && c.intena })

-- `lock->cpu == mycpu()`
abbrev pub is_cpu : Option ℕ → Cpu → Bool
is_cpu none c = false
is_cpu (some i) c = i == c.id

unfoldable pub holding : Spinlock → Cpu → Option (Bool × Cpu)
holding lk c = popcli (pushcli c) >>= λ c'. some (lk.locked && is_cpu lk.cpu c, c')

-- The lock and the CPU when `acquire` returns; the inner `none` is the loop while another CPU has the lock.
unfoldable pub acquire : Spinlock → Cpu → Option (Option (Spinlock × Cpu))
acquire lk c = holding lk (pushcli c) >>= λ r.
    if r.0
    then none
    else if lk.locked
    then some none
    else some (some (record { locked = true; cpu = some c.id }, r.1))

unfoldable pub release : Spinlock → Cpu → Option (Spinlock × Cpu)
release lk c = holding lk c >>= λ r.
    if not r.0
    then none
    else (popcli r.1 >>= λ c'. some (record { locked = false; cpu = none }, c'))
