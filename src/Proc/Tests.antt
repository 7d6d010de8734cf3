-- ===== src/Proc/Tests.antt =====
-- A table of two processes that can run and one that sleeps on the clock.
use cs537pair.Prelude.{zero, suc, ◌≡◌, refl, [], ◌∷◌, some, arith, get_elem?}
use cs537pair.Prelude.Int.{pos, negsuc}
use cs537pair.Proc.{Proc, Table, zero_proc, ticks, runnable, sleeping, schedule}
use cs537pair.Proc.Sched.{Ranges, Scheduled, schedule_lem}
use cs537pair.Proc.Sleep.{ticks_pass, ticks_pass_lem}

abbrev shell : Proc
shell = record zero_proc { state = runnable; pid = 2; nice = negsuc 4 }

abbrev sleeper : Proc
sleeper = record zero_proc { state = sleeping; pid = 3; chan = ticks; sleepticks = pos 2 }

abbrev table : Table
table = shell ∷ sleeper ∷ record shell { pid = 4; nice = pos 7 } ∷ []

table-Ranges : Ranges table
table-Ranges zero q h = ground arith
table-Ranges (suc zero) q h = ground arith
table-Ranges (suc (suc zero)) q h = ground arith
table-Ranges (suc (suc (suc j))) q h = absurd (ground arith)

schedule_lem_example : Scheduled table (schedule table).0 (schedule table).1
schedule_lem_example = schedule_lem table table-Ranges

ticks_pass_lem_example :
    (get_elem? (ticks_pass 1 table) 1 ≡ some (record sleeper { sleepticks = pos 1 }))
    × (get_elem? (ticks_pass 3 table) 1
        ≡ some (record sleeper { sleepticks = pos 0; state = runnable }))
ticks_pass_lem_example = ticks_pass_lem 1 1 table 1 sleeper refl refl refl refl
