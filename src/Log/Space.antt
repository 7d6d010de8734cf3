-- ===== src/Log/Space.antt =====
-- The blocks that `begin_op` admits, together with those in the log, are at most LOGSIZE.
use cs537pair.Prelude.{
  ℕ, zero, suc, ◌+◌, ◌*◌, ◌≤◌, ◌<◌, ◌≡◌, ◌≢◌, ap, subst, get_elem?-lt, refl, Bool, true, List, [],
  ◌∷◌, ◌++◌, Option, none, some, arith, ◌==◌, length, length-append, length-set, All, get_elem?,
  set, find_index,
}
use cs537pair.Log.{
  Block, Store, Log, logsize, maxopblocks, begun, begin_op, end_op, end_commit, absorb, absorb_at,
  log_write,
}

abbrev pub sum : List ℕ → ℕ
sum [] = 0
sum (x ∷ xs) = x + sum xs

-- The log, and for each operation between `begin_op` and `end_op` how many blocks it may still write.
pub record System : Type 0 where
  pub log : Log
  pub budgets : List ℕ

-- What operations do, in any order: each writes at most `maxopblocks` times before it ends.
pub data Step : System → System → Type 0 where
  begin :
      {l l' : Log} {bs : List ℕ}
      → begin_op l ≡ begun l'
      → Step (record { log = l; budgets = bs }) (record { log = l'; budgets = maxopblocks ∷ bs })
  write :
      {l l' : Log} {bs : List ℕ} (s s' : Store) (i r b : ℕ) (v : Block)
      → get_elem? bs i ≡ some (suc r)
      → log_write b v l s ≡ some (l', s')
      → Step (record { log = l; budgets = bs }) (record { log = l'; budgets = set bs i r })
  end :
      {l l' : Log} (front back : List ℕ) (r : ℕ) (commits : Bool) {bs : List ℕ}
      → bs ≡ front ++ (r ∷ back)
      → end_op l ≡ some (l', commits)
      → Step (record { log = l; budgets = bs }) (record { log = l'; budgets = front ++ back })
  finish :
      {l : Log}
      → l.committing ≡ true
      → Step (record { log = l; budgets = [] }) (record { log = end_commit l; budgets = [] })

pub record HasSpace (s : System) : Type 0 where
  pub counted : s.log.outstanding ≡ length s.budgets
  pub each : All (λ r. r ≤ maxopblocks) s.budgets
  pub fits : length s.log.lh + sum s.budgets ≤ logsize

length-absorb_at :
    (b : ℕ) (lh : List ℕ) (r : Option ℕ) → length (absorb_at b lh r) ≤ suc (length lh)
length-absorb_at b lh none = omega (arith, length-append lh (b ∷ []))
length-absorb_at b lh (some i) = omega (arith, length-set lh i b)

length-absorb : (b : ℕ) (lh : List ℕ) → length (absorb b lh) ≤ suc (length lh)
length-absorb b lh = length-absorb_at b lh (find_index (λ c. c == b) lh)

sum-set : (bs : List ℕ) (i r : ℕ) → get_elem? bs i ≡ some (suc r) → suc (sum (set bs i r)) ≡ sum bs
sum-set [] i r h = absurd (cc)
sum-set (x ∷ bs) zero r h = ground arith
sum-set (x ∷ bs) (suc i) r h = omega (arith, sum-set bs i r h)

each-set :
    (bs : List ℕ) (i r : ℕ)
    → get_elem? bs i ≡ some (suc r)
    → All (λ x. x ≤ maxopblocks) bs
    → All (λ x. x ≤ maxopblocks) (set bs i r)
each-set [] i r h a = absurd (cc)
each-set (x ∷ bs) zero r h a = (ground arith, a.1)
each-set (x ∷ bs) (suc i) r h a = (a.0, each-set bs i r h a.1)

each-drop :
    (front back : List ℕ) (r : ℕ)
    → All (λ x. x ≤ maxopblocks) (front ++ (r ∷ back))
    → All (λ x. x ≤ maxopblocks) (front ++ back)
each-drop [] back r a = a.1
each-drop (x ∷ front) back r a = (a.0, each-drop front back r a.1)

sum-drop : (front back : List ℕ) (r : ℕ) → sum (front ++ back) ≤ sum (front ++ (r ∷ back))
sum-drop [] back r = omega arith
sum-drop (x ∷ front) back r = omega (arith, sum-drop front back r)

length-drop_one :
    (front back : List ℕ) (r : ℕ) → length (front ++ (r ∷ back)) ≡ suc (length (front ++ back))
length-drop_one [] back r = refl
length-drop_one (x ∷ front) back r = omega (arith, length-drop_one front back r)

sum-le : (bs : List ℕ) → All (λ x. x ≤ maxopblocks) bs → sum bs ≤ length bs * maxopblocks
sum-le [] a = omega arith
sum-le (x ∷ bs) a = omega (arith, a.0, sum-le bs a.1)

-- Each step keeps the space that the admitted operations may need.
pub Step-HasSpace : {s t : System} → Step s t → HasSpace s → HasSpace t
unfolding begin_op log_write end_op end_commit
Step-HasSpace (begin {l} {l'} {bs} e) h = record {
  counted = ground (arith, h.counted);
  each = (omega arith, h.each);
  fits = ground (arith, h.counted, sum-le bs h.each);
}
Step-HasSpace (write {l} {l'} {bs} st st' i r b v g e) h = record {
  counted = ground (arith, h.counted, length-set bs i r);
  each = each-set bs i r g h.each;
  fits = ground (arith, h.fits, sum-set bs i r g, length-absorb b l.lh);
}
Step-HasSpace (end {l} {l'} front back r commits w e) h = record {
  counted = ground (arith, h.counted, length-drop_one front back r, ap length w);
  each = each-drop front back r (subst (All (λ x. x ≤ maxopblocks)) w h.each);
  fits = ground (arith, h.fits, sum-drop front back r, ap sum w);
}
Step-HasSpace (finish c) h = record { counted = h.counted; each = tt; fits = omega arith }

-- In a system with space for its operations, `log_write` by an operation that has not used up its
-- blocks does not panic on a disk whose log has a block more than the header's list.
pub HasSpace-log_write :
    (s : System) (i r b : ℕ) (v : Block) (st : Store)
    → HasSpace s
    → logsize < s.log.size
    → get_elem? s.budgets i ≡ some (suc r)
    → log_write b v s.log st ≢ none
unfolding log_write
HasSpace-log_write s i r b v st h size g e =
    ground (arith, h.fits, size, h.counted, sum-set s.budgets i r g, get_elem?-lt s.budgets i g)
