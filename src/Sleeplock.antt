-- ===== src/Sleeplock.antt =====
-- p5/xv6-public/sleeplock.c, and mutex.c, which does the same on its own structure: long-term locks.
-- The spinlock of a lock makes each call atomic up to the `sleep` in it.
pub mod Exclusion
mod Tests
use cs537pair.Prelude.{ℕ, Bool, true, false, ◌&&◌, Option, none, some, ◌==◌, if◌then◌else◌}

-- `struct sleeplock`
pub record Sleeplock : Type 0 where
  pub locked : Bool
  pub pid : ℕ

abbrev pub initsleeplock : Sleeplock
initsleeplock = record { locked = false; pid = 0 }

-- One round of `acquiresleep` by process `pid`; `none` is the sleep, after which it tries again.
unfoldable pub acquiresleep : ℕ → Sleeplock → Option Sleeplock
acquiresleep pid lk = if lk.locked then none else some (record { locked = true; pid = pid })

-- `releasesleep`; it wakes the sleepers on the lock.
unfoldable pub releasesleep : Sleeplock → Sleeplock
releasesleep lk = record { locked = false; pid = 0 }

unfoldable pub holdingsleep : ℕ → Sleeplock → Bool
holdingsleep pid lk = lk.locked && (lk.pid == pid)
