-- ===== src/Log/Full.antt =====
-- p5/xv6-public/log.c on a disk as p5/xv6-public/mkfs.c makes it, whose log has LOGSIZE blocks, the header
-- among them.
use cs537pair.Prelude.{
  ℕ, zero, suc, ◌+◌, ◌-◌, ◌<◌, ◌≡◌, refl, false, List, [], ◌∷◌, ◌++◌, none, some, arith, ◌==◌,
  length, length-append, All, find_index, leb, ◌||◌, if◌then◌else◌,
}
use cs537pair.Log.{Block, Store, Log, logsize, begun, begin_op, log_write}
use cs537pair.Log.Space.{System, Step, begin, write, HasSpace, Step-HasSpace, sum}

pub data Reach (s : System) : System → Type 0 where
  here : Reach s s
  further : {t u : System} → Reach s t → Step t u → Reach s u

Reach-HasSpace : {s t : System} → Reach s t → HasSpace s → HasSpace t
Reach-HasSpace here h = h
Reach-HasSpace (further r w) h = Step-HasSpace w (Reach-HasSpace r h)

abbrev log_of : ℕ → ℕ → List ℕ → Log
log_of start n lh = record {
  start = start;
  size = logsize;
  outstanding = n;
  committing = false;
  lh = lh;
}

-- The log behind `initlog` and the recovery.
abbrev pub fresh : ℕ → System
fresh start = record { log = log_of start 0 []; budgets = [] }

abbrev filling : ℕ → List ℕ → ℕ → ℕ → ℕ → System
filling start lh a b c = record { log = log_of start 3 lh; budgets = a ∷ b ∷ c ∷ [] }

opens : (start n : ℕ) → n < 3 → begin_op (log_of start n []) ≡ begun (log_of start (n + 1) [])
unfolding begin_op
opens start n l = ground arith

three : (start : ℕ) → Reach (fresh start) (filling start [] 10 10 10)
three start =
    further
      (further (further here (begin (opens start 0 (omega arith))))
        (begin (opens start 1 (omega arith))))
      (begin (opens start 2 (omega arith)))

not_in : (n : ℕ) (lh : List ℕ) → All (λ x. x < n) lh → find_index (λ c. c == n) lh ≡ none
not_in n [] a = refl
not_in n (x ∷ lh) (l, a) =
    let other : (x == n) ≡ false = ground arith in rw (other, not_in n lh a) refl

below-append : (n : ℕ) (lh : List ℕ) → All (λ x. x < n) lh → All (λ x. x < suc n) (lh ++ (n ∷ []))
below-append n [] a = (omega arith, tt)
below-append n (x ∷ lh) (l, a) = (omega arith, below-append n lh a)

module _ (start : ℕ) (v : Block) (st : Store) where
  logs :
      (n : ℕ) (lh : List ℕ)
      → n < 29
      → length lh ≡ n
      → All (λ x. x < n) lh
      → (s' : Store) × (log_write n v (log_of start 3 lh) st
          ≡ some (log_of start 3 (lh ++ (n ∷ [])), s'))
  unfolding log_write
  logs n lh l e a =
      let room : (leb logsize (length lh) || leb (logsize - 1) (length lh)) ≡ false =
        ground (arith, e) in
      (
        record st { pinned = λ x. if n == x then some v else st.pinned x },
        rw (room, not_in n lh a) refl,
      )

  -- A block that is not in the log yet, by the first operation that has one left.
  next :
      (a b c n : ℕ) (lh : List ℕ) (s' : Store)
      → 0 < a + b + c
      → log_write n v (log_of start 3 lh) st ≡ some (log_of start 3 (lh ++ (n ∷ [])), s')
      → (a' : ℕ) × (b' : ℕ) × (c' : ℕ) × (suc (a' + b' + c') ≡ a + b + c)
        × Step (filling start lh a b c) (filling start (lh ++ (n ∷ [])) a' b' c')
  next (suc a) b c n lh s' l e = (a, b, c, omega arith, write st s' 0 a n v refl e)
  next zero (suc b) c n lh s' l e = (0, b, c, omega arith, write st s' 1 b n v refl e)
  next zero zero (suc c) n lh s' l e = (0, 0, c, omega arith, write st s' 2 c n v refl e)
  next zero zero zero n lh s' l e = absurd (omega arith)

  fill :
      (m n a b c : ℕ) (lh : List ℕ)
      → n + m ≡ 29
      → a + b + c ≡ suc m
      → length lh ≡ n
      → All (λ x. x < n) lh
      → Reach (fresh start) (filling start lh a b c)
      → (lh' : List ℕ) × (a' : ℕ) × (b' : ℕ) × (c' : ℕ) × Reach
          (fresh start)
          (filling start lh' a' b' c')
        × (a' + b' + c' ≡ 1)
        × (length lh' ≡ 29)
  fill zero n a b c lh s t e i r = (lh, a, b, c, r, t, omega arith)
  fill (suc m) n a b c lh s t e i r =
      let (s', w) = logs n lh (omega arith) e i in
      let (a', b', c', u, step) = next a b c n lh s' (omega arith) w in
      fill m (suc n) a' b' c' (lh ++ (n ∷ [])) (omega arith) (omega arith)
        (omega (arith, length-append lh (n ∷ []))) (below-append n lh i) (further r step)

-- On a disk whose log has LOGSIZE blocks: from the empty log, calls of `begin_op` that are admitted and calls of
-- `log_write` that succeed, none of an operation beyond its MAXOPBLOCKS, lead to a system with space for its
-- operations in which an operation has one block left, and in which `log_write` of any block panics.
pub log_write_panics :
    (start : ℕ) (v : Block) (st : Store)
    → (s : System) × Reach (fresh start) s
      × HasSpace s
      × (sum s.budgets ≡ 1)
      × ((b : ℕ) (w : Block) (t : Store) → log_write b w s.log t ≡ none)
unfolding log_write
log_write_panics start v st =
    let (lh, a, b, c, r, one, full) =
      fill start v st 29 0 10 10 10 [] refl refl refl tt (three start) in
    (
      filling start lh a b c,
      r,
      Reach-HasSpace r (record { counted = refl; each = tt; fits = omega arith }),
      omega (arith, one),
      λ b w t. ground (arith, full),
    )
