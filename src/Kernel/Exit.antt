-- ===== src/Kernel/Exit.antt =====
-- What `exit` makes of each entry of the process table.
use mathlib.Core.Option.{some-injective}
use cs537pair.Prelude.{
  zero, suc, inl, inr, [], ◌∷◌, none, replicate, Option-cases, Bool-cases, get_elem?-modify_inv,
  map, ℕ, ◌+◌, ◌≡◌, ◌≢◌, ◌⊎◌, ◌∙◌, refl, ap, subst, sym, true, ◌&&◌, some, arith, get_elem?,
  get_elem?-modify, get_elem?-map, if◌then◌else◌, length, modify, leb, ltb, get_elem?-lt,
}
use cs537pair.Proc.{
  Proc, Table, Chan, proc, zombie, runnable, sleeping, at, wake_one, wakeup1, is, same_chan,
}
use cs537pair.Proc.Sleep.{same_chan_iff, wake_one_asleep}
use cs537pair.Kernel.{points_to, reparent, parent_chan, Kernel, Ops}
use cs537pair.Kernel.Calls.{close_proc, end_proc, end_table, exit_table, exit}
use cs537pair.Kernel.Orphans.{AwaitsInit, NoneDead, reparent-get, reparent-awake, reparent-calm}

-- An entry other than the caller's, before and after an `exit` of `cur`, whose parent sleeps on `up`.
pub record Left (cur init : ℕ) (up : Chan) (p q : Proc) : Type 0 where
  pub parent : q.parent ≡ (if points_to p.parent cur then some init else p.parent)
  pub state :
      (q.state ≡ p.state)
      ⊎ ((p.state ≡ sleeping) × ((p.chan ≡ up) ⊎ (p.chan ≡ proc init)) × (q.state ≡ runnable))
  pub told : p.state ≡ sleeping → p.chan ≡ up → q.state ≡ runnable
  -- no other field changes
  pub kept : q ≡ record p { parent = q.parent; state = q.state }

-- The caller's entry behind `exit`.
abbrev gone : ℕ → ℕ → Proc → Proc
gone cur init p = record p {
  state = zombie;
  parent = if points_to p.parent cur then some init else p.parent;
  ofile = replicate (length p.ofile) none;
  cwd = none;
}

wake_one-kept : (c : Chan) (p : Proc) → wake_one c p ≡ record p { state = (wake_one c p).state }
wake_one-kept c p = elim (Bool-cases (is p.state sleeping && same_chan p.chan c)) [
  | inl e ↦ rw e refl
  | inr e ↦ rw e refl
]

wake_cases :
    (c : Chan) (t : Table) (j : ℕ) {p : Proc}
    → get_elem? t j ≡ some p
    → (r : Proc) × (get_elem? (wakeup1 c t) j ≡ some r)
      × (r ≡ record p { state = r.state })
      × ((r.state ≡ p.state) ⊎ ((p.state ≡ sleeping) × (p.chan ≡ c) × (r.state ≡ runnable)))
      × (p.state ≡ sleeping → p.chan ≡ c → r.state ≡ runnable)
unfolding wakeup1
wake_cases c t j {p} h = (
  wake_one c p,
  get_elem?-map (wake_one c) t j ∙ rw h refl,
  wake_one-kept c p,
  ground (arith, same_chan_iff p.chan c),
  λ s d. ap (λ r. r.state) (wake_one_asleep c p s d),
)

at-closed : (t : Table) (cur : ℕ) → (at (modify t cur close_proc) cur).parent ≡ (at t cur).parent
at-closed [] cur = refl
at-closed (x ∷ t) zero = refl
at-closed (x ∷ t) (suc cur) = at-closed t cur

woken-NoneDead :
    (cur : ℕ) (c : Chan) (t : Table)
    → NoneDead cur t
    → NoneDead cur (wakeup1 c (modify t cur close_proc))
unfolding wakeup1
woken-NoneDead cur c t n j z h own dead =
    elim (Option-cases (get_elem? (modify t cur close_proc) j)) [
      | inl e ↦
          let m = get_elem?-map (wake_one c) (modify t cur close_proc) j in
          absurd (ground (arith, m, e, h))
      | inr (p, e) ↦
          let m : get_elem? (map (wake_one c) (modify t cur close_proc)) j ≡ some (wake_one c p) =
            get_elem?-map (wake_one c) (modify t cur close_proc) j ∙ rw e refl in
          let w : z ≡ wake_one c p = some-injective z (wake_one c p) (sym h ∙ m) in
          let par : z.parent ≡ p.parent =
            ap (λ r. r.parent) w ∙ ap (λ r. r.parent) (wake_one-kept c p) in
          let st : (wake_one c p).state ≡ zombie = sym (ap (λ r. r.state) w) ∙ dead in
          let (x, hx, r) = get_elem?-modify_inv t cur j close_proc e in
          let was : p.state ≡ zombie = ground (arith, st) in
          elim r [
            | inl (q, v) ↦
                n j x hx (sym (ap (λ y. y.parent) v) ∙ sym par ∙ own)
                  (sym (ap (λ y. y.state) v) ∙ was)
            | inr (q, v) ↦
                n j x hx (sym (ap (λ y. y.parent) v) ∙ sym par ∙ own)
                  (sym (ap (λ y. y.state) v) ∙ was)
          ]
    ]

module _ (cur init : ℕ) (t : Table) (ne : init ≢ cur) where
  abbrev up : Chan
  up = parent_chan (at (modify t cur close_proc) cur).parent

  abbrev woken : Table
  woken = wakeup1 up (modify t cur close_proc)

  past :
      (j : ℕ) {r : Proc} → get_elem? woken j ≡ some r → (leb 0 j && ltb j (0 + length woken)) ≡ true
  past j h = ground (arith, get_elem?-lt woken j h)

  exit_table-other :
      (j : ℕ) {p : Proc}
      → j ≢ cur
      → get_elem? t j ≡ some p
      → (q : Proc) × (get_elem? (exit_table cur init t) j ≡ some q) × Left cur init up p q
  unfolding exit_table end_table
  exit_table-other j {p} d h =
      let closed : get_elem? (modify t cur close_proc) j ≡ some p =
        ground (arith, get_elem?-modify t cur j close_proc) in
      let (r, hr, rk, rs, rt) = wake_cases up (modify t cur close_proc) j closed in
      let (q, hq, w) = reparent-get (length woken) 0 cur init j woken ne hr in
      let mine = past j hr in
      (
        q,
        ground (arith, get_elem?-modify (reparent (length woken) 0 cur init woken) cur j end_proc),
        record {
          parent = w.parent ∙ rw (mine, ap (λ x. x.parent) rk) refl;
          state = ground (arith, w.state, rs, ap (λ x. x.chan) rk);
          told = λ s c. ground (arith, w.state, rt s c);
          kept = w.kept ∙ ap (λ (x : Proc). record x { parent = q.parent; state = q.state }) rk;
        },
      )

  exit_table-own :
      {p : Proc}
      → get_elem? t cur ≡ some p
      → (q : Proc) × (get_elem? (exit_table cur init t) cur ≡ some q) × (q ≡ gone cur init p)
  unfolding exit_table end_table
  exit_table-own {p} h =
      let closed : get_elem? (modify t cur close_proc) cur ≡ some (close_proc p) =
        ground (arith, get_elem?-modify t cur cur close_proc) in
      let (r, hr, rk, rs, rt) = wake_cases up (modify t cur close_proc) cur closed in
      let (q, hq, w) = reparent-get (length woken) 0 cur init cur woken ne hr in
      (
        end_proc q,
        ground
            (arith, get_elem?-modify (reparent (length woken) 0 cur init woken) cur cur end_proc),
        ap end_proc w.kept
            ∙ ap (λ (x : Proc). record x { parent = q.parent; state = zombie }) rk
            ∙ ap (λ o. record (close_proc p) { parent = o; state = zombie })
                (w.parent ∙ rw (past cur hr, ap (λ x. x.parent) rk) refl),
      )

  exit_table-awake :
      (j x : ℕ) {z p q : Proc}
      → j ≢ cur
      → get_elem? t j ≡ some z
      → z.state ≡ zombie
      → z.parent ≡ some cur
      → x ≢ cur
      → get_elem? t x ≡ some p
      → get_elem? (exit_table cur init t) x ≡ some q
      → ¬ AwaitsInit init q
  unfolding exit_table end_table
  exit_table-awake j x {z} {p} {q} d hz sz pz dx hp hq =
      let closed : get_elem? (modify t cur close_proc) j ≡ some z =
        ground (arith, get_elem?-modify t cur j close_proc) in
      let closed' : get_elem? (modify t cur close_proc) x ≡ some p =
        ground (arith, get_elem?-modify t cur x close_proc) in
      let (r, hr, rk, rs, rt) = wake_cases up (modify t cur close_proc) j closed in
      let (r', hr', rk', rs', rt') = wake_cases up (modify t cur close_proc) x closed' in
      reparent-awake (length woken) 0 cur init j x woken {q = q} ne hr (ground (arith, rs))
        (ap (λ x. x.parent) rk ∙ pz) (omega arith) (omega (arith, get_elem?-lt woken j hr)) hr'
        (ground (arith, get_elem?-modify (reparent (length woken) 0 cur init woken) cur x end_proc))

  exit_table-calm :
      (x : ℕ) {p q : Proc}
      → NoneDead cur t
      → x ≢ cur
      → get_elem? t x ≡ some p
      → get_elem? (exit_table cur init t) x ≡ some q
      → (q.state ≡ p.state) ⊎ (p.chan ≡ up)
  unfolding exit_table end_table
  exit_table-calm x {p} {q} n d h g =
      let closed : get_elem? (modify t cur close_proc) x ≡ some p =
        ground (arith, get_elem?-modify t cur x close_proc) in
      let (r, hr, rk, rs, rt) = wake_cases up (modify t cur close_proc) x closed in
      let left : get_elem? (reparent (length woken) 0 cur init woken) x ≡ some q =
        ground
          (arith, get_elem?-modify (reparent (length woken) 0 cur init woken) cur x end_proc) in
      let same =
        reparent-calm (length woken) 0 cur init x woken ne (woken-NoneDead cur up t n) hr left in
      ground (arith, same, rs)

-- What `exit` of process `cur` makes of the table.
pub record Exited {S : Type 0} (cur : ℕ) (k k' : Kernel S) : Type 0 where
  pub own :
      (p : Proc)
      → get_elem? k.table cur ≡ some p
      → (q : Proc) × (get_elem? k'.table cur ≡ some q) × (q ≡ gone cur k.initproc p)
  pub others :
      (j : ℕ) (p : Proc)
      → j ≢ cur
      → get_elem? k.table j ≡ some p
      → (q : Proc) × (get_elem? k'.table j ≡ some q)
        × Left cur k.initproc (parent_chan (at k.table cur).parent) p q
  pub init_told :
      (j x : ℕ) (z p q : Proc)
      → j ≢ cur
      → get_elem? k.table j ≡ some z
      → z.state ≡ zombie
      → z.parent ≡ some cur
      → x ≢ cur
      → get_elem? k.table x ≡ some p
      → get_elem? k'.table x ≡ some q
      → ¬ AwaitsInit k.initproc q
  pub init_calm :
      (x : ℕ) (p q : Proc)
      → NoneDead cur k.table
      → x ≢ cur
      → get_elem? k.table x ≡ some p
      → get_elem? k'.table x ≡ some q
      → (q.state ≡ p.state) ⊎ (p.chan ≡ parent_chan (at k.table cur).parent)

-- Where `exit` does not panic, the caller's entry is a zombie without open files and directory, and is
-- else as it was. Every child of the caller has init for its parent. Of the other entries no field but
-- that and the state changes, and the state only from sleeping to runnable: for all that sleep on the
-- channel of the caller's parent, for all that sleep on the channel of init where some child is a
-- zombie, and for no others.
pub exit_lem :
    {S : Type 0} (ops : Ops S) (cur : ℕ) (k k' : Kernel S)
    → exit ops cur k ≡ some k'
    → Exited cur k k'
unfolding exit
exit_lem ops cur k k' e =
    let ne : k.initproc ≢ cur = λ (w : k.initproc ≡ cur). ground arith in
    let same : k'.table ≡ exit_table cur k.initproc k.table = ground arith in
    let c = ap parent_chan (at-closed k.table cur) in
    subst (λ t. Exited cur k (record k' { table = t })) (sym same)
      (record {
        own = λ p h. exit_table-own cur k.initproc k.table ne h;
        others = λ j p d h.
            subst
              (λ u.
                (q : Proc) × (get_elem? (exit_table cur k.initproc k.table) j ≡ some q)
                × Left cur k.initproc u p q)
              c (exit_table-other cur k.initproc k.table ne j d h);
        init_told = λ j x z p q d hz sz pz dx hp hq.
            exit_table-awake cur k.initproc k.table ne j x d hz sz pz dx hp hq;
        init_calm = λ x p q n d h g.
            subst (λ u. (q.state ≡ p.state) ⊎ (p.chan ≡ u)) c
              (exit_table-calm cur k.initproc k.table ne x n d h g);
      })
