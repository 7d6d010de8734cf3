-- ===== src/Log/Tests.antt =====
-- The log on a small disk: a commit of two blocks, and one operation in progress.
use cs537pair.Prelude.{ℕ, ◌≡◌, refl, inr, if◌then◌else◌, ◌==◌, false, [], ◌∷◌, none, some, arith}
use cs537pair.Log.{Block, log_write, Store, Log, begun, commit, begin_op}
use cs537pair.Log.Crash.{crash, recovered}
use cs537pair.Log.Commit.{commit-recovered}
use cs537pair.Log.Space.{System, begin, HasSpace, Step-HasSpace, sum}
use cs537pair.Log.Full.{Reach, fresh, log_write_panics}

-- Every block of the disk holds a 0; the buffers of blocks 40 and 41 hold other contents.
abbrev store : Store
store = record {
  disk = λ b. 0 ∷ [];
  pinned = λ b. if b == 40 then some (4 ∷ []) else if b == 41 then some (5 ∷ []) else none;
  trace = [];
}

commit-recovered_example :
    recovered 2 (crash 4 (commit 2 (40 ∷ 41 ∷ []) store).trace store.disk) 41 ≡ 5 ∷ []
commit-recovered_example =
    (commit-recovered 2 30 40 (41 ∷ []) store (inr (omega arith), (inr (omega arith), tt))
        (omega arith) refl refl 4 41 (inr (omega arith))).1
      (omega arith)

abbrev log : Log
log = record { start = 2; size = 30; outstanding = 0; committing = false; lh = [] }

abbrev idle : System
idle = record { log = log; budgets = [] }

abbrev busy : System
busy = record { log = record log { outstanding = 1 }; budgets = 10 ∷ [] }

idle-HasSpace : HasSpace idle
idle-HasSpace = record { counted = refl; each = tt; fits = omega arith }

opens : begin_op log ≡ begun (record log { outstanding = 1 })
unfolding begin_op
opens = refl

Step-HasSpace_example : HasSpace busy
Step-HasSpace_example = Step-HasSpace (begin opens) idle-HasSpace

log_write_panics_example :
    (s : System) × Reach (fresh 2) s
    × HasSpace s
    × (sum s.budgets ≡ 1)
    × ((b : ℕ) (w : Block) (t : Store) → log_write b w s.log t ≡ none)
log_write_panics_example = log_write_panics 2 (7 ∷ []) store
