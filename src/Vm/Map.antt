-- ===== src/Vm/Map.antt =====
-- What `walkpgdir` makes of the mapping.
use cs537pair.Prelude.{
  ℕ, ◌+◌, ◌%◌, ◌^◌, ◌<◌, ◌≡◌, ◌≢◌, ◌∙◌, refl, ap, sym, subst, Bool, true, false, List, [], ◌∷◌,
  Option, none, some, arith, ◌==◌, if◌then◌else◌, ◌⊎◌, inl, inr, Bool-cases, ==_of_ne, ==_self, All,
  IsFresh, IsDistinct,
}
use cs537pair.Kalloc.{Kmem, kalloc, pgsize, v2p}
use cs537pair.Vm.{Tables, Vm, put, clear, p2v, pdx, ptx, present, pte_addr, walkpgdir}

-- The page that an entry points to, by its kernel address.
abbrev pub target : ℕ → ℕ
target w = p2v (pte_addr w)

-- The entry for a virtual address, 0 where there is no page table for it.
abbrev pub entry : ℕ → Vm → ℕ → ℕ
entry d s va =
    if present (s.tables d (pdx va)) then s.tables (target (s.tables d (pdx va))) (ptx va) else 0

-- A page that the allocator gives out and that an entry can point to.
abbrev pub IsPage : ℕ → Type 0
IsPage f = (f % pgsize ≡ 0) × (f < 2 ^ 32)

-- The page directory `d`, its page tables and the free pages are different pages.
pub record IsApart (d : ℕ) (s : Vm) : Type 0 where
  pub pages : All IsPage s.kmem.freelist
  pub distinct : IsDistinct s.kmem.freelist
  pub dir_used : IsFresh d s.kmem.freelist
  pub tables_used :
      (i : ℕ) → present (s.tables d i) ≡ true → IsFresh (target (s.tables d i)) s.kmem.freelist
  pub beside : (i : ℕ) → present (s.tables d i) ≡ true → target (s.tables d i) ≢ d
  pub apart :
      (i j : ℕ)
      → present (s.tables d i) ≡ true
      → present (s.tables d j) ≡ true
      → target (s.tables d i) ≡ target (s.tables d j)
      → i ≡ j

-- What the new entry of a directory says of the page that it is for.
new_entry : (f : ℕ) → IsPage f → (present (v2p f + 7) ≡ true) × (target (v2p f + 7) ≡ f)
new_entry f p = ground arith

module _ (d va f : ℕ) (fs : List ℕ) (b : Bool) (ts : Tables) (k : Kmem) where
  abbrev before : Vm
  before = record { kmem = record { use_lock = b; freelist = f ∷ fs }; tables = ts }

  abbrev after : Vm
  after = record {
    kmem = record { use_lock = b; freelist = fs };
    tables = put d (pdx va) (v2p f + 7) (clear f ts);
  }

  module _ (v : IsApart d before) (free : present (ts d (pdx va)) ≡ false) where
    dir_new : after.tables d (pdx va) ≡ v2p f + 7
    dir_new = rw (==_self d, ==_self (pdx va)) refl

    dir_old : (i : ℕ) → i ≢ pdx va → after.tables d i ≡ ts d i
    dir_old i n =
        let w : (d == f) ≡ false = ==_of_ne d f (λ e. v.dir_used.0 (sym e)) in
        let u : (i == pdx va) ≡ false = ==_of_ne i (pdx va) n in rw (u, ==_self d, w) refl

    table_new : (j : ℕ) → after.tables f j ≡ 0
    table_new j = let w : (f == d) ≡ false = ==_of_ne f d v.dir_used.0 in rw (w, ==_self f) refl

    table_old : (p j : ℕ) → p ≢ d → p ≢ f → after.tables p j ≡ ts p j
    table_old p j n m =
        let w : (p == d) ≡ false = ==_of_ne p d n in
        let u : (p == f) ≡ false = ==_of_ne p f m in rw (w, u) refl

    dir-cases :
        (i : ℕ)
        → present (after.tables d i) ≡ true
        → (i ≡ pdx va) × (target (after.tables d i) ≡ f)
          ⊎ (i ≢ pdx va) × (present (ts d i) ≡ true) × (target (after.tables d i) ≡ target (ts d i))
    dir-cases i p = elim (Bool-cases (i == pdx va)) [
      | inl e ↦
          let w : i ≡ pdx va = ground arith in
          inl (
            w,
            ap (λ x. target (after.tables d x)) w ∙ ap target dir_new ∙ (new_entry f v.pages.0).1,
          )
      | inr e ↦
          let w : i ≢ pdx va = ground arith in
          inr (w, ap present (sym (dir_old i w)) ∙ p, ap target (dir_old i w))
    ]

    after-IsApart : IsApart d after
    after-IsApart = record {
      pages = v.pages.1;
      distinct = v.distinct.1;
      dir_used = v.dir_used.1;
      tables_used = λ i p. elim (dir-cases i p) [
        | inl (e, t) ↦ subst (λ x. IsFresh x fs) (sym t) v.distinct.0
        | inr (e, q, t) ↦ subst (λ x. IsFresh x fs) (sym t) (v.tables_used i q).1
      ];
      beside = λ i p h. elim (dir-cases i p) [
        | inl (e, t) ↦ v.dir_used.0 (sym t ∙ h)
        | inr (e, q, t) ↦ v.beside i q (sym t ∙ h)
      ];
      apart = λ i j p q h. elim (dir-cases i p) [
        | inl (e, t) ↦ elim (dir-cases j q) [
          | inl (e', t') ↦ e ∙ sym e'
          | inr (e', q', t') ↦ absurd ((v.tables_used j q').0 (sym t ∙ h ∙ t'))
        ]
        | inr (e, p', t) ↦ elim (dir-cases j q) [
          | inl (e', t') ↦ absurd ((v.tables_used i p').0 (sym t' ∙ sym h ∙ t))
          | inr (e', q', t') ↦ v.apart i j p' q' (sym t ∙ h ∙ t')
        ]
      ];
    }

    entry-after : (x : ℕ) → entry d after x ≡ entry d before x
    entry-after x = elim (Bool-cases (pdx x == pdx va)) [
      | inl e ↦
          let w : pdx va ≡ pdx x = ground arith in
          let o : present (ts d (pdx x)) ≡ false = ap (λ y. present (ts d y)) (sym w) ∙ free in
          let n : after.tables d (pdx x) ≡ v2p f + 7 = ap (after.tables d) (sym w) ∙ dir_new in
          let (p, t) = new_entry f v.pages.0 in
          rw (o, n) (rw p (ap (λ y. after.tables y (ptx x)) t ∙ table_new (ptx x)))
      | inr e ↦
          let w : pdx x ≢ pdx va = ground arith in
          ap (λ y. if present y then after.tables (target y) (ptx x) else 0) (dir_old (pdx x) w)
          ∙ elim (Bool-cases (present (ts d (pdx x)))) [
            | inr none_here ↦ rw none_here refl
            | inl is ↦ rw is (
                table_old (target (ts d (pdx x))) (ptx x) (v.beside (pdx x) is)
                  (λ q. (v.tables_used (pdx x) is).0 (sym q)))
          ]
    ]

-- What `walkpgdir` with `alloc` comes to: the null pointer for want of a page, or the entry of a table
-- that the directory has then. No entry changes.
pub data Walked (d va : ℕ) (s : Vm) (r : Option (ℕ × ℕ) × Vm) : Type 0 where
  no_page :
      (s' : Vm)
      → r ≡ (none, s')
      → s.kmem.freelist ≡ []
      → ((x : ℕ) → entry d s' x ≡ entry d s x)
      → IsApart d s'
      → Walked d va s r
  found :
      (s' : Vm)
      → r ≡ (some (target (s'.tables d (pdx va)), ptx va), s')
      → present (s'.tables d (pdx va)) ≡ true
      → ((x : ℕ) → entry d s' x ≡ entry d s x)
      → IsApart d s'
      → Walked d va s r

walk_at :
    (d va : ℕ) (l : List ℕ) (b : Bool) (ts : Tables)
    → let s : Vm = record { kmem = record { use_lock = b; freelist = l }; tables = ts } in
      IsApart d s → present (ts d (pdx va)) ≡ false → Walked d va s (walkpgdir d va true s)
unfolding walkpgdir kalloc
walk_at d va [] b ts v free = rw free (
    no_page (record { kmem = record { use_lock = b; freelist = [] }; tables = ts }) refl refl
      (λ x. refl) v)
walk_at d va (f ∷ fs) b ts v free =
    let k : Kmem = record { use_lock = b; freelist = fs } in
    let dn = dir_new d va f fs b ts k v free in
    let (p, t) = new_entry f v.pages.0 in
    rw free (
      found (after d va f fs b ts k)
        (ap (λ y. (some (y, ptx va), after d va f fs b ts k)) (sym t ∙ ap target (sym dn)))
        (ap present dn ∙ p) (entry-after d va f fs b ts k v free)
        (after-IsApart d va f fs b ts k v free))

pub walkpgdir_lem : (d va : ℕ) (s : Vm) → IsApart d s → Walked d va s (walkpgdir d va true s)
unfolding walkpgdir
walkpgdir_lem d va s v = elim (Bool-cases (present (s.tables d (pdx va)))) [
  | inl is ↦ rw is (found s refl is (λ x. refl) v)
  | inr free ↦ walk_at d va s.kmem.freelist s.kmem.use_lock s.tables v free
]
