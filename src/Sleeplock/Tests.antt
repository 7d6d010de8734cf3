-- ===== src/Sleeplock/Tests.antt =====
-- A lock that process 3 takes.
use cs537pair.Prelude.{◌≡◌, refl, [], ◌∷◌, inl, some, true}
use cs537pair.Sleeplock.{initsleeplock, acquiresleep}
use cs537pair.Sleeplock.Exclusion.{System, enter, IsExclusive, Step-IsExclusive}

abbrev free : System
free = record { lock = initsleeplock; holders = [] }

abbrev taken : System
taken = record { lock = record { locked = true; pid = 3 }; holders = 3 ∷ [] }

takes : acquiresleep 3 initsleeplock ≡ some taken.lock
unfolding acquiresleep
takes = refl

Step-IsExclusive_example : IsExclusive taken
Step-IsExclusive_example =
    Step-IsExclusive {s = free} {t = taken} (enter 3 takes) (inl (refl, refl))
