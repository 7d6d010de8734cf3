-- ===== src/Spinlock/Nesting.antt =====
-- Sequences of `pushcli` and `popcli` that match, and a lock that is held around one.
use cs537pair.Prelude.{
  ◌-◌, ◌<◌, ◌≡◌, ◌∙◌, refl, true, false, ◌&&◌, List, [], ◌∷◌, ◌++◌, Option, some, arith, ◌==◌,
  ◌>>=◌, Option-cases, inl, inr,
}
use cs537pair.Spinlock.{Cpu, Spinlock, initlock, pushcli, popcli, holding, acquire, release}

pub data Call : Type 0 where
  push pop : Call

pub run : List Call → Cpu → Option Cpu
run [] c = some c
run (push ∷ calls) c = run calls (pushcli c)
run (pop ∷ calls) c = popcli c >>= run calls

-- Every `pushcli` has its `popcli`.
pub data IsMatched : List Call → Type 0 where
  empty : IsMatched []
  nest : {xs ys : List Call} → IsMatched xs → IsMatched ys → IsMatched (push ∷ (xs ++ (pop ∷ ys)))

-- With calls outstanding interrupts are off.
abbrev pub IsOff : Cpu → Type 0
IsOff c = 0 < c.ncli → c.intr ≡ false

-- The same flag and the same calls outstanding, with the flag to go back to if there are any.
abbrev pub Restored : Cpu → Cpu → Type 0
Restored c c' =
    (c'.id ≡ c.id) × (c'.intr ≡ c.intr) × (c'.ncli ≡ c.ncli) × (0 < c.ncli → c'.intena ≡ c.intena)

run-append : (xs ys : List Call) (c : Cpu) → run (xs ++ ys) c ≡ (run xs c >>= run ys)
unfolding run
run-append [] ys c = refl
run-append (push ∷ xs) ys c = run-append xs ys (pushcli c)
run-append (pop ∷ xs) ys c = elim (Option-cases (popcli c)) [
  | inl e ↦ rw e refl
  | inr (c', e) ↦ rw e (run-append xs ys c')
]

-- `popcli` after anything that restores what `pushcli` left.
popcli-pushcli :
    (c d : Cpu)
    → IsOff c
    → Restored (pushcli c) d
    → (c' : Cpu) × (popcli d ≡ some c') × Restored c c'
unfolding popcli pushcli
popcli-pushcli c d off (i, f, n, k) =
    let a : (d.ncli == 0) ≡ false = ground (arith, n) in
    let m : d.ncli - 1 ≡ c.ncli = omega (arith, n) in
    let t = k (omega arith) in
    (
      record d { ncli = d.ncli - 1; intr = (d.ncli - 1 == 0) && d.intena },
      rw (f, a) refl,
      (i, ground (arith, off, m, t), m, λ q. ground (arith, t, q)),
    )

Restored-IsOff : (c c' : Cpu) → Restored c c' → IsOff c → IsOff c'
Restored-IsOff c c' (i, f, n, k) off p = f ∙ off (omega (arith, n))

Restored-trans : (a b c : Cpu) → Restored a b → Restored b c → Restored a c
Restored-trans a b c (i, f, n, k) (j, g, m, l) =
    (j ∙ i, g ∙ f, m ∙ n, λ q. l (omega (arith, n)) ∙ k q)

Restored-refl : (c : Cpu) → Restored c c
Restored-refl c = (refl, refl, refl, λ q. refl)

pushcli-IsOff : (c : Cpu) → IsOff (pushcli c)
unfolding pushcli
pushcli-IsOff c l = refl

pushcli_off : (c : Cpu) → (pushcli c).intr ≡ false
unfolding pushcli
pushcli_off c = refl

pushcli_id : (c : Cpu) → (pushcli c).id ≡ c.id
unfolding pushcli
pushcli_id c = refl

matched_lem :
    {calls : List Call} (c : Cpu)
    → IsMatched calls
    → IsOff c
    → (c' : Cpu) × (run calls c ≡ some c') × Restored c c'
unfolding run
matched_lem c empty off = (c, refl, Restored-refl c)
matched_lem c (nest {xs} {ys} p q) off =
    let (c1, e1, r1) = matched_lem (pushcli c) p (pushcli-IsOff c) in
    let (c2, e2, r2) = popcli-pushcli c c1 off r1 in
    let (c3, e3, r3) = matched_lem c2 q (Restored-IsOff c c2 r2 off) in
    (c3, run-append xs (pop ∷ ys) (pushcli c) ∙ rw (e1, e2) e3, Restored-trans c c2 c3 r2 r3)

-- A lock that is free, and a CPU with interrupts off while calls of `pushcli` are outstanding: `acquire` takes the
-- lock with interrupts off; matching calls of `pushcli` and `popcli` under it do not panic and leave them off;
-- and `release` gives the lock back and restores the interrupt flag and the outstanding calls.
pub acquire-release :
    (calls : List Call) (c : Cpu)
    → IsMatched calls
    → IsOff c
    → let held : Spinlock = record { locked = true; cpu = some c.id } in
      (c1 : Cpu) × (c2 : Cpu) × (c3 : Cpu) × (acquire initlock c ≡ some (some (held, c1)))
      × (c1.intr ≡ false)
      × (run calls c1 ≡ some c2)
      × (c2.intr ≡ false)
      × (release held c2 ≡ some (initlock, c3))
      × Restored c c3
unfolding acquire release holding
acquire-release calls c p off =
    let po = pushcli-IsOff c in
    let (c1, e1, r1) =
      popcli-pushcli (pushcli c) (pushcli (pushcli c)) po (Restored-refl (pushcli (pushcli c))) in
    let o1 = Restored-IsOff (pushcli c) c1 r1 po in
    let (c2, e2, r2) = matched_lem c1 p o1 in
    let o2 = Restored-IsOff c1 c2 r2 o1 in
    let (c2', e3, r3) = popcli-pushcli c2 (pushcli c2) o2 (Restored-refl (pushcli c2)) in
    let all = Restored-trans (pushcli c) c1 c2' r1 (Restored-trans c1 c2 c2' r2 r3) in
    let (c3, e4, r4) = popcli-pushcli c c2' off all in
    let id : (c.id == c2.id) ≡ true = ground (arith, r1.0, r2.0, pushcli_id c) in
    (
      c1,
      c2,
      c3,
      rw e1 refl,
      r1.1 ∙ pushcli_off c,
      e2,
      r2.1 ∙ r1.1 ∙ pushcli_off c,
      rw e3 (rw id (rw e4 refl)),
      r4,
    )
