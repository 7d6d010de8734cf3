-- ===== src/Kernel/Orphans.antt =====
-- `exit` leaves no child behind, and wakes init for the zombies that it passes on.
use mathlib.Core.Option
use cs537pair.Prelude.{
  ℕ, zero, suc, ◌+◌, ◌≤◌, ◌<◌, ◌≡◌, ◌≢◌, ◌⊎◌, inl, inr, ◌∙◌, refl, ap, sym, subst, Bool, true,
  false, ◌&&◌, [], ◌∷◌, Option, none, some, arith, get_elem?, get_elem?-modify,
  get_elem?-modify_inv, get_elem?-map, if◌then◌else◌, ◌==◌, Bool-cases, modify, leb, ltb, ◌||◌,
}
use cs537pair.Proc.{
  Proc, Table, zero_proc, proc, zombie, runnable, sleeping, is, at, wake_one, wakeup1, same_chan,
}
use cs537pair.Proc.Sleep.{same_chan_iff, same_chan_self}
use cs537pair.Kernel.{points_to, adopt, reparent}

-- An entry of the table, and what it keeps when it is woken or given a new parent.
pub at-get : (t : Table) (i : ℕ) {p : Proc} → get_elem? t i ≡ some p → at t i ≡ p
at-get [] i h = absurd (cc)
at-get (x ∷ t) zero h = cc
at-get (x ∷ t) (suc i) h = at-get t i h

-- What `adopt` does to an entry `j`: its new parent and state.
adopted : ℕ → ℕ → Table → ℕ → ℕ → Proc → Proc
adopted cur init t i j p =
    let hit = points_to (at t i).parent cur in
    let moved = if hit && (i == j) then record p { parent = some init } else p in
    if hit && is (at t i).state zombie then wake_one (proc init) moved else moved

modified :
    (i j init : ℕ) (t t' : Table) {p : Proc}
    → get_elem? t j ≡ some p
    → get_elem? t' j ≡ (
        if i == j
        then Option.map {A = Proc} (λ q. record q { parent = some init }) (get_elem? t j)
        else get_elem? t j)
    → get_elem? t' j ≡ some (if i == j then record p { parent = some init } else p)
modified i j init t t' h m = ground arith

adopt-get :
    (cur init i j : ℕ) (t : Table) {p : Proc}
    → get_elem? t j ≡ some p
    → get_elem? (adopt cur init i t) j ≡ some (adopted cur init t i j p)
unfolding wakeup1 adopted
adopt-get cur init i j t {p} h = elim (Bool-cases (points_to (at t i).parent cur)) [
  | inr other ↦ rw other h
  | inl hit ↦
      let moved = get_elem?-modify t i j (λ q. record q { parent = some init }) in
      let entry = modified i j init t _ h moved in
      elim (Bool-cases (is (at t i).state zombie)) [
        | inr alive ↦ rw (hit, alive) entry
        | inl dead ↦
            rw (hit, dead)
              (get_elem?-map (wake_one (proc init))
                  (modify t i (λ q. record q { parent = some init })) j
                ∙ rw entry refl)
      ]
]

-- What the loop of `exit` makes of an entry; `mine` says whether it has come past the entry.
pub record Passed (cur init : ℕ) (mine : Bool) (p q : Proc) : Type 0 where
  pub parent : q.parent ≡ (if mine && points_to p.parent cur then some init else p.parent)
  pub state :
      (q.state ≡ p.state) ⊎ ((p.state ≡ sleeping) × (p.chan ≡ proc init) × (q.state ≡ runnable))
  -- no other field changes
  pub kept : q ≡ record p { parent = q.parent; state = q.state }

woken-Passed :
    (cur init : ℕ) (mine : Bool) {p q : Proc}
    → Passed cur init mine p q
    → Passed cur init mine p (wake_one (proc init) q)
woken-Passed cur init mine {p} {q} w =
    elim (Bool-cases (is q.state sleeping && same_chan q.chan (proc init))) [
      | inr e ↦ rw e w
      | inl e ↦
          let asleep : q.state ≡ sleeping = ground arith in
          let here : q.chan ≡ proc init = same_chan_iff q.chan (proc init) (ground arith) in
          let before : (p.state ≡ sleeping) × (p.chan ≡ proc init) =
            ground (arith, w.state, ap (λ r. r.chan) w.kept) in
          rw e (record {
            parent = w.parent;
            state = inr (before.0, before.1, refl);
            kept = ap (λ (x : Proc). record x { state = runnable }) w.kept;
          })
    ]

adopted-Passed :
    (cur init i j : ℕ) (t : Table) {p : Proc}
    → get_elem? t j ≡ some p
    → Passed cur init (i == j) p (adopted cur init t i j p)
unfolding adopted
adopted-Passed cur init i j t {p} h =
    elim (Bool-cases (points_to (at t i).parent cur && is (at t i).state zombie)) [
      | inl wakes ↦ rw wakes (woken-Passed cur init (i == j) base)
      | inr quiet ↦ rw quiet base
    ]
  where
    same : (i == j) ≡ true → at t i ≡ p
    same e = let w : i ≡ j = ground arith in rw w (at-get t j h)

    unmoved :
        (a b : Bool)
        → b ≡ false
        → (if a && b then record p { parent = some init } else p) ≡ record p {
          parent = (if a && b then record p { parent = some init } else p).parent;
          state = (if a && b then record p { parent = some init } else p).state;
        }
    unmoved true b e = rw e refl
    unmoved false b e = refl

    base :
        Passed cur init
          (i == j)
          p
          (if points_to (at t i).parent cur && (i == j) then record p { parent = some init } else p)
    base = elim (Bool-cases (i == j)) [
      | inl e ↦
          rw (e, same e)
            (elim (Bool-cases (points_to p.parent cur)) [
              | inl y ↦ rw y (record { parent = rw y refl; state = inl refl; kept = refl })
              | inr n ↦ rw n (record { parent = rw n refl; state = inl refl; kept = refl })
            ])
      | inr e ↦ record {
        parent = ground arith;
        state = ground arith;
        kept = unmoved (points_to (at t i).parent cur) (i == j) e;
      }
    ]

abbrev in_rounds : ℕ → ℕ → ℕ → Bool
in_rounds i n j = leb i j && ltb j (i + n)

Passed-trans :
    (cur init : ℕ) (a b c : Bool) {p q r : Proc}
    → init ≢ cur
    → (a || b) ≡ c
    → Passed cur init a p q
    → Passed cur init b q r
    → Passed cur init c p r
Passed-trans cur init a b c {r = r} ne e v w = record {
  parent = ground (arith, v.parent, w.parent);
  state = ground (arith, v.state, w.state, ap (λ x. x.chan) v.kept);
  kept = w.kept ∙ ap (λ (x : Proc). record x { parent = r.parent; state = r.state }) v.kept;
}

-- The loop changes an entry as `Passed` says, and each entry that it has come past is passed on.
pub reparent-get :
    (n i cur init j : ℕ) (t : Table) {p : Proc}
    → init ≢ cur
    → get_elem? t j ≡ some p
    → (q : Proc) × (get_elem? (reparent n i cur init t) j ≡ some q)
      × Passed cur init (in_rounds i n j) p q
unfolding reparent
reparent-get zero i cur init j t {p} ne h =
    (p, h, record { parent = ground arith; state = inl refl; kept = refl })
reparent-get (suc n) i cur init j t {p} ne h =
    let (q, there, w) =
      reparent-get n (i + 1) cur init j (adopt cur init i t) ne (adopt-get cur init i j t h) in
    (
      q,
      there,
      Passed-trans cur init (i == j) (in_rounds (i + 1) n j) (in_rounds i (suc n) j) ne
          (ground arith) (adopted-Passed cur init i j t h) w,
    )

-- An entry that sleeps until init is told of a zombie.
abbrev pub AwaitsInit : ℕ → Proc → Type 0
AwaitsInit init p = (p.state ≡ sleeping) × (p.chan ≡ proc init)

wake_one-awake : (init : ℕ) (p : Proc) → ¬ AwaitsInit init (wake_one (proc init) p)
wake_one-awake init p a = elim (Bool-cases (is p.state sleeping && same_chan p.chan (proc init))) [
  | inl e ↦ absurd (ground arith)
  | inr e ↦
      let s : p.state ≡ sleeping = ground arith in
      let c : p.chan ≡ proc init = ground arith in
      let w = same_chan_self (proc init) in
      absurd (ground (arith, ap (λ x. same_chan x (proc init)) c))
]

Passed-awake :
    (cur init : ℕ) (a : Bool) {p q : Proc}
    → Passed cur init a p q
    → ¬ AwaitsInit init p
    → ¬ AwaitsInit init q
Passed-awake cur init a w n (s, c) = ground (arith, w.state, ap (λ r. r.chan) w.kept, n)

adopted-awake :
    (cur init i x : ℕ) (t : Table) (p : Proc)
    → points_to (at t i).parent cur ≡ true
    → is (at t i).state zombie ≡ true
    → ¬ AwaitsInit init (adopted cur init t i x p)
unfolding adopted
adopted-awake cur init i x t p hit dead =
    rw (hit, dead) (wake_one-awake init (if i == x then record p { parent = some init } else p))

-- Once the loop has come past a zombie child, nobody sleeps on init's channel.
pub reparent-awake :
    (n i cur init j x : ℕ) (t : Table) {z p q : Proc}
    → init ≢ cur
    → get_elem? t j ≡ some z
    → z.state ≡ zombie
    → z.parent ≡ some cur
    → i ≤ j
    → j < i + n
    → get_elem? t x ≡ some p
    → get_elem? (reparent n i cur init t) x ≡ some q
    → ¬ AwaitsInit init q
unfolding reparent
reparent-awake zero i cur init j x t ne hz sz pz lo hi h g = absurd (omega arith)
reparent-awake (suc n) i cur init j x t {z} {p} {q} ne hz sz pz lo hi h g =
    elim (Bool-cases (i == j)) [
      | inl e ↦
          let a =
            adopted-awake cur init i x t p (rw (same e, pz) (ground arith))
              (rw (same e, sz) refl) in
          let (q', there, w) =
            reparent-get n (i + 1) cur init x (adopt cur init i t) ne
              (adopt-get cur init i x t h) in
          let s : q' ≡ q = ground (arith, there, g) in
          subst (λ r. ¬ AwaitsInit init r) s (Passed-awake cur init _ w a)
      | inr e ↦
          let w = adopted-Passed cur init i j t hz in
          reparent-awake n (i + 1) cur init j x (adopt cur init i t) ne
            (adopt-get cur init i j t hz) (ground (arith, w.state)) (w.parent ∙ rw e pz)
            (ground arith) (omega arith) (adopt-get cur init i x t h) g
    ]
  where
    same : (i == j) ≡ true → at t i ≡ z
    same e = let w : i ≡ j = ground arith in rw w (at-get t j hz)

-- A table without a dead child of `cur`.
abbrev pub NoneDead : ℕ → Table → Type 0
NoneDead cur t =
    (j : ℕ) (z : Proc) → get_elem? t j ≡ some z → z.parent ≡ some cur → z.state ≢ zombie

-- What `adopt` gives an entry's state where entry `i` is no dead child.
adopted-calm :
    (cur init i j : ℕ) (t : Table) (p : Proc)
    → (points_to (at t i).parent cur && is (at t i).state zombie) ≡ false
    → (adopted cur init t i j p).state ≡ p.state
unfolding adopted
adopted-calm cur init i j t p e = rw e (ground arith)

at-cases : (t : Table) (i : ℕ) → (get_elem? t i ≡ some (at t i)) ⊎ (at t i ≡ zero_proc)
at-cases [] i = inr refl
at-cases (x ∷ t) zero = inl refl
at-cases (x ∷ t) (suc i) = at-cases t i

not_dead :
    (cur i : ℕ) (t : Table)
    → NoneDead cur t
    → (points_to (at t i).parent cur && is (at t i).state zombie) ≡ false
not_dead cur i t n = elim (Bool-cases (points_to (at t i).parent cur && is (at t i).state zombie)) [
  | inr e ↦ e
  | inl e ↦ elim (at-cases t i) [
    | inl h ↦ absurd (n i (at t i) h (pointed (at t i).parent (ground arith)) (ground arith))
    | inr z ↦ absurd (ground (arith, z))
  ]
]
  where
    pointed : (o : Option ℕ) → points_to o cur ≡ true → o ≡ some cur
    pointed none e = absurd (cc)
    pointed (some x) e = ground arith

adopt-NoneDead :
    (cur init i : ℕ) (t : Table) → init ≢ cur → NoneDead cur t → NoneDead cur (adopt cur init i t)
adopt-NoneDead cur init i t ne n j z h c s = elim (Bool-cases (points_to (at t i).parent cur)) [
  | inr other ↦ n j z (rw other at h) c s
  | inl hit ↦ elim (Bool-cases (is (at t i).state zombie)) [
    | inl dead ↦ absurd (ground (arith, not_dead cur i t n))
    | inr alive ↦
        let g : get_elem? (modify t i (λ q. record q { parent = some init })) j ≡ some z =
          rw (hit, alive) at h in
        let (x, hx, r) = get_elem?-modify_inv t i j (λ q. record q { parent = some init }) g in
        elim r [
          | inl (e, w) ↦
              let moved : some init ≡ some cur = sym (ap (λ y. y.parent) w) ∙ c in
              absurd (ground (arith, moved))
          | inr (e, w) ↦ n j x hx (sym (ap (λ y. y.parent) w) ∙ c) (sym (ap (λ y. y.state) w) ∙ s)
        ]
  ]
]

-- Where no child is dead, the loop of `exit` wakes nobody.
pub reparent-calm :
    (n i cur init j : ℕ) (t : Table) {p q : Proc}
    → init ≢ cur
    → NoneDead cur t
    → get_elem? t j ≡ some p
    → get_elem? (reparent n i cur init t) j ≡ some q
    → q.state ≡ p.state
unfolding reparent
reparent-calm zero i cur init j t ne d h g = ground (arith, h, g)
reparent-calm (suc n) i cur init j t {p} ne d h g =
    reparent-calm n (i + 1) cur init j (adopt cur init i t) ne (adopt-NoneDead cur init i t ne d)
      (adopt-get cur init i j t h) g
    ∙ adopted-calm cur init i j t p (not_dead cur i t d)
