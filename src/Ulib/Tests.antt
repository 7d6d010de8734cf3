-- ===== src/Ulib/Tests.antt =====
-- The number 1005, printed and read.
use cs537pair.Prelude.{ℕ, ◌≤◌, ◌≡◌, refl, [], ◌∷◌, ◌++◌, List, some, arith, true, length}
use cs537pair.Ulib.{printint, atoi}
use cs537pair.Ulib.Numbers.{printint-atoi}

printint-atoi_example :
    (out : List ℕ) × (printint 1005 10 true ≡ some out)
    × (length out ≤ 10)
    × (atoi (out ++ (0 ∷ [])) ≡ some 1005)
printint-atoi_example = printint-atoi 1005 true [] (omega arith) refl
