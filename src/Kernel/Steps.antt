-- ===== src/Kernel/Steps.antt =====
-- The calls that change the process table alone keep pids: `scheduler`, `yield`, `sleep`, `wakeup`,
-- `kill`, `nice`, the clock's round, and what `exit` does under the table's lock.
use cs537pair.Prelude.{
  ℕ, zero, suc, ◌+◌, ◌<◌, ◌≡◌, ◌≢◌, ◌⊎◌, inl, inr, ◌∙◌, refl, ap, sym, subst, [], ◌∷◌, Option, none,
  some, arith, map, modify, get_elem?, get_elem?-modify_inv, Option-cases, Bool-cases, false,
  find_index, length, ◌&&◌, ◌==◌,
}
use cs537pair.Prelude.Int.{ℤ, pos, leb_ℤ}
use cs537pair.Proc.{
  Proc, Table, Chan, unused, runnable, running, zombie, is, at, proc, set_state, schedule, pick,
  pick_loop, yield, sleep_begin, sleep_end, wake_one, wakeup1, tick_one, sleep_proc_notify,
  mark_killed, kill, nice,
}
use cs537pair.Kernel.{adopt, reparent, parent_chan, points_to}
use cs537pair.Kernel.Alloc.{PidsValid}
use cs537pair.Kernel.Calls.{end_table, end_proc}

-- Every entry keeps its pid, and none that is unused comes into use.
abbrev pub SamePids : Table → Table → Type 0
SamePids t t' =
    (j : ℕ) (q : Proc)
    → get_elem? t' j ≡ some q
    → (p : Proc) × (get_elem? t j ≡ some p)
      × (q.pid ≡ p.pid)
      × (is q.state unused ≡ is p.state unused)

abbrev Keeps : Proc → Proc → Type 0
Keeps p q = (q.pid ≡ p.pid) × (is q.state unused ≡ is p.state unused)

SamePids-refl : (t : Table) → SamePids t t
SamePids-refl t j q h = (q, h, refl, refl)

SamePids-trans : (a b c : Table) → SamePids a b → SamePids b c → SamePids a c
SamePids-trans a b c f g j q h =
    let (p, hp, ep, up) = g j q h in let (o, ho, eo, uo) = f j p hp in (o, ho, ep ∙ eo, up ∙ uo)

pub modify-SamePids :
    (t : Table) (i : ℕ) (f : Proc → Proc)
    → ((p : Proc) → get_elem? t i ≡ some p → Keeps p (f p))
    → SamePids t (modify t i f)
modify-SamePids t i f keep j q h =
    let (x, hx, r) = get_elem?-modify_inv t i j f h in
    elim r [
      | inl (e, w) ↦
          let (a, b) = keep x (ap (get_elem? t) e ∙ hx) in
          (x, hx, ap (λ r. r.pid) w ∙ a, ap (λ r. is r.state unused) w ∙ b)
      | inr (e, w) ↦ (x, hx, ap (λ r. r.pid) w, ap (λ r. is r.state unused) w)
    ]

map-SamePids : (t : Table) (f : Proc → Proc) → ((p : Proc) → Keeps p (f p)) → SamePids t (map f t)
map-SamePids [] f keep j q h = absurd (cc)
map-SamePids (x ∷ t) f keep zero q h =
    let w : q ≡ f x = ground (arith, h) in
    (x, refl, ap (λ r. r.pid) w ∙ (keep x).0, ap (λ r. is r.state unused) w ∙ (keep x).1)
map-SamePids (x ∷ t) f keep (suc j) q h = map-SamePids t f keep j q h

-- The change keeps pids unique.
pub SamePids-PidsValid : (n : ℕ) (t t' : Table) → SamePids t t' → PidsValid n t → PidsValid n t'
SamePids-PidsValid n t t' s v = record {
  below = λ i q h. let (p, hp, e, u) = s i q h in subst (λ x. x < n) (sym e) (v.below i p hp);
  unique = λ i j p q h g np nq e.
      let (a, ha, ea, ua) = s i p h in
      let (b, hb, eb, ub) = s j q g in
      v.unique i j a b ha hb (λ z. np (ground (arith, ua, z))) (λ z. nq (ground (arith, ub, z)))
        (sym ea ∙ e ∙ eb);
}

-- The caller is an entry that is in use.
abbrev pub IsCaller : ℕ → Table → Type 0
IsCaller cur t = (p : Proc) → get_elem? t cur ≡ some p → p.state ≢ unused

-- A call that changes the process table alone, by process `cur`, by the scheduler, or by the clock.
pub data TableStep (t : Table) : Table → Type 0 where
  schedules : TableStep t (schedule t).1
  yields : (cur : ℕ) → IsCaller cur t → TableStep t (yield cur t)
  sleeps : (cur : ℕ) (chan : Chan) → IsCaller cur t → TableStep t (sleep_begin cur chan t)
  resumes : (cur : ℕ) → TableStep t (sleep_end cur t)
  wakes : (chan : Chan) → TableStep t (wakeup1 chan t)
  kills : (pid : ℕ) → TableStep t (kill pid t).1
  ticks : TableStep t (sleep_proc_notify t)
  nices : (cur : ℕ) (inc : ℤ) → TableStep t (nice cur inc t)

pub caller_modify :
    (t : Table) (cur : ℕ) (f : Proc → Proc)
    → IsCaller cur t
    → ((p : Proc) → ((f p).pid ≡ p.pid) × (is (f p).state unused ≡ false))
    → SamePids t (modify t cur f)
caller_modify t cur f c same =
    modify-SamePids t cur f (λ p h. let n = c p h in ((same p).0, (same p).1 ∙ ground (arith, n)))

-- What the scheduler picks is an entry that can run.
picked :
    (t : Table) (i j : ℕ) (best : Option ℕ) (limit : ℤ)
    → pick_loop t i best limit ≡ some j
    → (best ≡ some j)
      ⊎ ((k : ℕ) × (j ≡ i + k) × ((p : Proc) × (get_elem? t k ≡ some p) × (p.state ≡ runnable)))
unfolding pick_loop
picked [] i j best limit e = inl e
picked (p ∷ t) i j best limit e = elim (Bool-cases (is p.state runnable && leb_ℤ p.nice limit)) [
  | inl better ↦ elim (picked t (i + 1) j (some i) p.nice (rw better at e)) [
    | inl h ↦ inr (0, ground (arith, h), (p, refl, ground (arith, better)))
    | inr (k, n, r) ↦ inr (suc k, omega (arith, n), r)
  ]
  | inr worse ↦ elim (picked t (i + 1) j best limit (rw worse at e)) [
    | inl h ↦ inl h
    | inr (k, n, r) ↦ inr (suc k, omega (arith, n), r)
  ]
]

schedule-SamePids : (t : Table) → SamePids t (schedule t).1
unfolding schedule pick
schedule-SamePids t = elim (Option-cases (pick t)) [
  | inl idle ↦ rw idle (SamePids-refl t)
  | inr (i, e) ↦ rw e (
      modify-SamePids t i (set_state running) λ p h. elim (picked t 0 i none (pos 19) e) [
        | inl none_best ↦ absurd (cc)
        | inr (k, n, (q, hq, run)) ↦
            let w : p.state ≡ runnable = ground (arith, h, n, hq, run) in (refl, ground (arith, w))
      ])
]

kill-SamePids : (pid : ℕ) (t : Table) → SamePids t (kill pid t).1
unfolding kill
kill-SamePids pid t = elim (Option-cases (find_index (λ (p : Proc). p.pid == pid) t)) [
  | inl e ↦ rw e (SamePids-refl t)
  | inr (i, e) ↦ rw e (modify-SamePids t i mark_killed (λ p h. (refl, ground arith)))
]

pub TableStep-SamePids : (t t' : Table) → TableStep t t' → SamePids t t'
unfolding yield sleep_begin sleep_end wakeup1 sleep_proc_notify nice
TableStep-SamePids t t' schedules = schedule-SamePids t
TableStep-SamePids t t' (yields cur c) = caller_modify t cur _ c (λ p. (refl, refl))
TableStep-SamePids t t' (sleeps cur chan c) = caller_modify t cur _ c (λ p. (refl, refl))
TableStep-SamePids t t' (resumes cur) = modify-SamePids t cur _ (λ p h. (refl, refl))
TableStep-SamePids t t' (wakes chan) = map-SamePids t (wake_one chan) (λ p. ground arith)
TableStep-SamePids t t' (kills pid) = kill-SamePids pid t
TableStep-SamePids t t' ticks = map-SamePids t tick_one (λ p. ground arith)
TableStep-SamePids t t' (nices cur inc) = modify-SamePids t cur _ (λ p h. (refl, refl))

adopt-SamePids : (cur init i : ℕ) (t : Table) → SamePids t (adopt cur init i t)
unfolding wakeup1
adopt-SamePids cur init i t =
    let moved = modify t i (λ (p : Proc). record p { parent = some init }) in
    let a =
      modify-SamePids t i (λ (p : Proc). record p { parent = some init }) (λ p h. (refl, refl)) in
    elim (Bool-cases (points_to (at t i).parent cur)) [
      | inr other ↦ rw other (SamePids-refl t)
      | inl child ↦ elim (Bool-cases (is (at t i).state zombie)) [
        | inr alive ↦ rw (child, alive) a
        | inl dead ↦
            rw (child, dead)
              (SamePids-trans t moved (wakeup1 (proc init) moved) a
                (map-SamePids moved (wake_one (proc init)) (λ p. ground arith)))
      ]
    ]

reparent-SamePids : (n i cur init : ℕ) (t : Table) → SamePids t (reparent n i cur init t)
unfolding reparent
reparent-SamePids zero i cur init t = SamePids-refl t
reparent-SamePids (suc n) i cur init t =
    SamePids-trans t (adopt cur init i t) (reparent n (i + 1) cur init (adopt cur init i t))
      (adopt-SamePids cur init i t) (reparent-SamePids n (i + 1) cur init (adopt cur init i t))

pub end_table-SamePids :
    (cur init : ℕ) (t : Table) → IsCaller cur t → SamePids t (end_table cur init t)
unfolding end_table wakeup1
end_table-SamePids cur init t c =
    let up = parent_chan (at t cur).parent in
    let woken = wakeup1 up t in
    let passed = reparent (length woken) 0 cur init woken in
    let b = map-SamePids t (wake_one up) (λ p. ground arith) in
    let d = SamePids-trans t woken passed b (reparent-SamePids (length woken) 0 cur init woken) in
    SamePids-trans t passed (modify passed cur end_proc) d (
      modify-SamePids passed cur end_proc
        λ p h. let (q, hq, e, u) = d cur p h in let n = c q hq in (refl, ground (arith, u, n)))
