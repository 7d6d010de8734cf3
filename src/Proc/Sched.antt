-- ===== src/Proc/Sched.antt =====
-- Which process `scheduler` runs.
use cs537pair.Prelude.{
  ℕ, zero, suc, ◌+◌, ◌≤◌, ◌≡◌, ◌≢◌, inl, inr, refl, subst, Bool, true, false, ◌&&◌, [], ◌∷◌, Option,
  none, some, arith, get_elem?, get_elem?-modify, ◌==◌, Bool-cases, Option-cases,
}
use cs537pair.Prelude.Int.{ℤ, pos, negsuc, ◌+ℤ◌, ◌≤ℤ◌, leb_ℤ}
use cs537pair.Proc.{
  Proc, Table, runnable, running, is, pick_loop, pick, schedule, dispatch, set_state, nice,
  clamp_nice,
}

-- Entry `i` of the table is a process `p` that can run, at a priority number of at most `limit`. No
-- process that can run has a smaller number, and of those with the same number it is the last.
pub record IsBest (limit : ℤ) (t : Table) (i : ℕ) (p : Proc) : Type 0 where
  pub here : get_elem? t i ≡ some p
  pub ready : p.state ≡ runnable
  pub prio : p.nice ≤ℤ limit
  pub least : (j : ℕ) (q : Proc) → get_elem? t j ≡ some q → q.state ≡ runnable → p.nice ≤ℤ q.nice
  pub last :
      (j : ℕ) (q : Proc) → get_elem? t j ≡ some q → q.state ≡ runnable → q.nice ≤ℤ p.nice → j ≤ i

-- No process that can run has a priority number of at most `limit`.
abbrev pub NoneBelow : ℤ → Table → Type 0
NoneBelow limit t =
    (j : ℕ) (q : Proc) → get_elem? t j ≡ some q → q.state ≡ runnable → ¬ (q.nice ≤ℤ limit)

-- The scan keeps its best where no later entry is as good, or ends with the best of the rest.
data Outcome (t : Table) (i : ℕ) (best : Option ℕ) (limit : ℤ) (r : Option ℕ) : Type 0 where
  kept : r ≡ best → NoneBelow limit t → Outcome t i best limit r
  found : (k : ℕ) (p : Proc) → r ≡ some (i + k) → IsBest limit t k p → Outcome t i best limit r

module _ (p : Proc) (t : Table) (limit : ℤ) where
  first-IsBest :
      p.state ≡ runnable → p.nice ≤ℤ limit → NoneBelow p.nice t → IsBest limit (p ∷ t) 0 p
  first-IsBest s l n = record { here = refl; ready = s; prio = l; least = least; last = last }
    where
      least :
          (j : ℕ) (q : Proc) → get_elem? (p ∷ t) j ≡ some q → q.state ≡ runnable → p.nice ≤ℤ q.nice
      least zero q h e = let w : p ≡ q = cc in rw w (omega arith)
      least (suc j) q h e = omega (arith, n j q h e)

      last :
          (j : ℕ) (q : Proc)
          → get_elem? (p ∷ t) j ≡ some q
          → q.state ≡ runnable
          → q.nice ≤ℤ p.nice
          → j ≤ 0
      last zero q h e b = omega arith
      last (suc j) q h e b = absurd (n j q h e b)

  later-IsBest :
      (limit' : ℤ) (k : ℕ) (q : Proc)
      → (p.state ≡ runnable → q.nice ≤ℤ p.nice)
      → q.nice ≤ℤ limit
      → IsBest limit' t k q
      → IsBest limit (p ∷ t) (suc k) q
  later-IsBest limit' k q beats l b = record {
    here = b.here;
    ready = b.ready;
    prio = l;
    least = least;
    last = last;
  }
    where
      least :
          (j : ℕ) (x : Proc) → get_elem? (p ∷ t) j ≡ some x → x.state ≡ runnable → q.nice ≤ℤ x.nice
      least zero x h e = let w : p ≡ x = cc in rw (← w) (beats (rw w e))
      least (suc j) x h e = b.least j x h e

      last :
          (j : ℕ) (x : Proc)
          → get_elem? (p ∷ t) j ≡ some x
          → x.state ≡ runnable
          → x.nice ≤ℤ q.nice
          → j ≤ suc k
      last zero x h e c = omega arith
      last (suc j) x h e c = omega (arith, b.last j x h e c)

  step_better :
      (i : ℕ) (best : Option ℕ) {r : Option ℕ}
      → p.state ≡ runnable
      → p.nice ≤ℤ limit
      → Outcome t (i + 1) (some i) p.nice r
      → Outcome (p ∷ t) i best limit r
  step_better i best s l (kept e n) = found 0 p (ground arith) (first-IsBest s l n)
  step_better i best s l (found k q e b) =
      found (suc k) q (ground arith)
        (later-IsBest p.nice k q (λ _. b.prio) (omega (arith, b.prio)) b)

  none_more :
      ¬ ((p.state ≡ runnable) × (p.nice ≤ℤ limit)) → NoneBelow limit t → NoneBelow limit (p ∷ t)
  none_more w n zero q h e b = let c : p ≡ q = cc in w (rw c e, rw c b)
  none_more w n (suc j) q h e b = n j q h e b

  step_worse :
      (i : ℕ) (best : Option ℕ) {r : Option ℕ}
      → ¬ ((p.state ≡ runnable) × (p.nice ≤ℤ limit))
      → Outcome t (i + 1) best limit r
      → Outcome (p ∷ t) i best limit r
  step_worse i best w (kept e n) = kept e (none_more w n)
  step_worse i best w (found k q e b) = found (suc k) q (ground arith) (
      later-IsBest limit k q (λ s. omega (arith, b.prio, λ (x : p.nice ≤ℤ limit). w (s, x))) b.prio
        b)

better_iff :
    (p : Proc) (limit : ℤ) {b : Bool}
    → (is p.state runnable && leb_ℤ p.nice limit) ≡ b
    → (b ≡ true → (p.state ≡ runnable) × (p.nice ≤ℤ limit))
      × (b ≡ false → ¬ ((p.state ≡ runnable) × (p.nice ≤ℤ limit)))
better_iff p limit h = (λ e. ground arith, λ e f. ground arith)

pick_loop_lem :
    (t : Table) (i : ℕ) (best : Option ℕ) (limit : ℤ)
    → Outcome t i best limit (pick_loop t i best limit)
unfolding pick_loop
pick_loop_lem [] i best limit = kept refl (λ j q h. absurd (cc))
pick_loop_lem (p ∷ t) i best limit = elim (Bool-cases (is p.state runnable && leb_ℤ p.nice limit)) [
  | inl yes_better ↦
      let (s, l) = (better_iff p limit yes_better).0 refl in
      rw yes_better (step_better p t limit i best s l (pick_loop_lem t (i + 1) (some i) p.nice))
  | inr not_better ↦ rw not_better (
      step_worse p t limit i best ((better_iff p limit not_better).1 refl)
        (pick_loop_lem t (i + 1) best limit))
]

-- Every priority number in the table is one that `sys_nice` can set.
abbrev pub InRange : ℤ → Type 0
InRange n = (negsuc 19 ≤ℤ n) × (n ≤ℤ pos 19)

abbrev pub Ranges : Table → Type 0
Ranges t = (j : ℕ) (q : Proc) → get_elem? t j ≡ some q → InRange q.nice

-- What a round of the scheduler makes of the table `t`: the process that runs, and the new table.
pub record Scheduled (t : Table) (chosen : Option ℕ) (t' : Table) : Type 0 where
  pub idle :
      chosen ≡ none → (t' ≡ t) × ((j : ℕ) (q : Proc) → get_elem? t j ≡ some q → q.state ≢ runnable)
  pub runs :
      (i : ℕ)
      → chosen ≡ some i
      → (p : Proc) × IsBest (pos 19) t i p
        × (get_elem? t' i ≡ some (record p { state = running }))
        × ((j : ℕ) → j ≢ i → get_elem? t' j ≡ get_elem? t j)

dispatch_lem :
    (t : Table) (r : Option ℕ)
    → Ranges t
    → Outcome t 0 none (pos 19) r
    → Scheduled t (dispatch t r).0 (dispatch t r).1
dispatch_lem t none ranges (kept e n) = record {
  idle = λ _. (refl, λ j q h s. n j q h s (ranges j q h).1);
  runs = λ i h. absurd (cc);
}
dispatch_lem t (some i) ranges (kept e n) = absurd (cc)
dispatch_lem t none ranges (found k p e b) = absurd (cc)
dispatch_lem t (some i) ranges (found k p e b) = record {
  idle = λ h. absurd (cc);
  runs = λ j h.
      let w : k ≡ j = ground arith in
      let v : i ≡ j = cc in
      (
        p,
        subst (λ x. IsBest (pos 19) t x p) w b,
        ground (arith, get_elem?-modify t i j (set_state running), b.here, w),
        λ x d. ground (arith, get_elem?-modify t i x (set_state running)),
      );
}

-- Where all priority numbers are at most 19, `scheduler` either leaves the table as it is, and then
-- no process can run, or marks as running a process with the smallest priority number of all that
-- can run, the last of those in the table, and changes no other entry.
pub schedule_lem : (t : Table) → Ranges t → Scheduled t (schedule t).0 (schedule t).1
unfolding schedule pick
schedule_lem t ranges =
    dispatch_lem t (pick_loop t 0 none (pos 19)) ranges (pick_loop_lem t 0 none (pos 19))

clamp_nice-InRange : (n : ℤ) → InRange (clamp_nice n)
clamp_nice-InRange n = ground arith

-- `sys_nice` keeps every priority number between -20 and 19, whatever increment it is given.
pub nice-InRange : (cur : ℕ) (inc : ℤ) (t : Table) → Ranges t → Ranges (nice cur inc t)
unfolding nice
nice-InRange cur inc t ranges j q h = elim (Option-cases (get_elem? t j)) [
  | inl e ↦ absurd (ground (arith, get_elem?-modify t cur j f))
  | inr (p, e) ↦ elim (Bool-cases (cur == j)) [
    | inl same ↦
        let w : q ≡ f p = ground (arith, get_elem?-modify t cur j f) in
        rw w (clamp_nice-InRange (p.nice +ℤ inc))
    | inr other ↦ ranges j q (ground (arith, get_elem?-modify t cur j f))
  ]
]
  where
    f : Proc → Proc
    f p = record p { nice = clamp_nice (p.nice +ℤ inc) }
