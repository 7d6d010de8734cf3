-- ===== src/Spinlock/Tests.antt =====
-- A CPU with interrupts on, and one nested pair under the lock.
use cs537pair.Prelude.{◌≡◌, true, false, [], ◌∷◌, some, arith}
use cs537pair.Spinlock.{Cpu, Spinlock, initlock, acquire, release}
use cs537pair.Spinlock.Nesting.{push, pop, run, empty, nest, Restored, acquire-release}

abbrev idle : Cpu
idle = record { id = 3; intr = true; ncli = 0; intena = false }

abbrev held : Spinlock
held = record { locked = true; cpu = some 3 }

acquire-release_example :
    (c1 : Cpu) × (c2 : Cpu) × (c3 : Cpu) × (acquire initlock idle ≡ some (some (held, c1)))
    × (c1.intr ≡ false)
    × (run (push ∷ pop ∷ []) c1 ≡ some c2)
    × (c2.intr ≡ false)
    × (release held c2 ≡ some (initlock, c3))
    × Restored idle c3
acquire-release_example =
    acquire-release (push ∷ pop ∷ []) idle (nest empty empty) (λ p. absurd (omega (arith, p)))
