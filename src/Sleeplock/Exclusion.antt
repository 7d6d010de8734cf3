-- ===== src/Sleeplock/Exclusion.antt =====
-- Mutual exclusion by a lock of sleeplock.c or mutex.c.
use cs537pair.Prelude.{
  ℕ, true, false, some, ◌≡◌, ◌≢◌, ◌⊎◌, inl, inr, List, [], ◌∷◌, refl, sym, ◌∙◌, arith, ◌++◌,
}
use cs537pair.Sleeplock.{Sleeplock, acquiresleep, releasesleep}

-- A lock, and the processes that hold it.
pub record System : Type 0 where
  pub lock : Sleeplock
  pub holders : List ℕ

-- Processes take the lock and give it back, in any order; only a holder gives it back.
pub data Step : System → System → Type 0 where
  enter :
      {l l' : Sleeplock} {ps : List ℕ} (pid : ℕ)
      → acquiresleep pid l ≡ some l'
      → Step (record { lock = l; holders = ps }) (record { lock = l'; holders = pid ∷ ps })
  leave :
      {l : Sleeplock} {ps : List ℕ} (front back : List ℕ) (pid : ℕ)
      → ps ≡ front ++ (pid ∷ back)
      → Step
          (record { lock = l; holders = ps })
          (record { lock = releasesleep l; holders = front ++ back })

-- Nobody holds a free lock, and one process holds a taken one, whose pid it has.
abbrev pub IsExclusive : System → Type 0
IsExclusive s =
    ((s.lock.locked ≡ false) × (s.holders ≡ []))
    ⊎ ((p : ℕ) × (s.lock.locked ≡ true) × (s.lock.pid ≡ p) × (s.holders ≡ p ∷ []))

one_left : (front back : List ℕ) (p q : ℕ) → p ∷ [] ≡ front ++ (q ∷ back) → front ++ back ≡ []
one_left [] [] p q e = refl
one_left [] (x ∷ back) p q e = absurd (cc)
one_left (y ∷ []) back p q e = absurd (cc)
one_left (y ∷ z ∷ front) back p q e = absurd (cc)

none_left : (front back : List ℕ) (q : ℕ) → [] ≢ front ++ (q ∷ back)
none_left [] back q e = cc
none_left (x ∷ front) back q e = cc

-- Whatever processes do with a lock, at most one holds it at a time.
pub Step-IsExclusive : {s t : System} → Step s t → IsExclusive s → IsExclusive t
unfolding acquiresleep releasesleep
Step-IsExclusive (enter {l} {l'} {ps} pid e) (inl (f, h)) =
    inr (pid, ground arith, ground arith, ground arith)
Step-IsExclusive (enter {l} {l'} {ps} pid e) (inr (p, t, q, h)) = absurd (ground arith)
Step-IsExclusive (leave {l} {ps} front back pid e) (inl (f, h)) =
    absurd (none_left front back pid (sym h ∙ e))
Step-IsExclusive (leave {l} {ps} front back pid e) (inr (p, t, q, h)) =
    inl (refl, one_left front back p pid (sym h ∙ e))
