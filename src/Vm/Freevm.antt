-- ===== src/Vm/Freevm.antt =====
-- `freevm`: the pages that an address space gives back.
use cs537pair.Prelude.{
  ℕ, zero, suc, ◌+◌, ◌<◌, ◌≤◌, ◌≡◌, ◌≢◌, ◌∙◌, refl, ap, sym, true, false, List, ◌∷◌, some, arith,
  ◌==◌, if◌then◌else◌, Bool-cases, IsFresh, IsDistinct, ==_of_ne, inl, inr, subst,
}
use cs537pair.Kalloc.{kfree, bad_page, kernbase}
use cs537pair.Vm.{Vm, present}
use cs537pair.Vm.Map.{target, entry, IsApart}
use cs537pair.Vm.Freed.{give_back, Owned}
use cs537pair.Vm.Dealloc.{deallocuvm_lem}
use cs537pair.Vm.Space.{free_tables, free_pages}

-- The free list with the pages put on it that the present ones of the `n` words of a directory lead to, from
-- index `i` on.
unfoldable pub give_tables : ℕ → ℕ → (ℕ → ℕ) → List ℕ → List ℕ
give_tables zero i words l = l
give_tables (suc n) i words l =
    give_tables n (i + 1) words (if present (words i) then target (words i) ∷ l else l)

give_tables-same :
    (n i : ℕ) (f g : ℕ → ℕ) (l : List ℕ)
    → ((j : ℕ) → f j ≡ g j)
    → give_tables n i f l ≡ give_tables n i g l
unfolding give_tables
give_tables-same zero i f g l e = refl
give_tables-same (suc n) i f g l e =
    ap (λ w. give_tables n (i + 1) f (if present w then target w ∷ l else l)) (e i)
    ∙ give_tables-same n (i + 1) f g _ e

-- A state with another free list.
abbrev with_free : List ℕ → Vm → Vm
with_free l s = record s { kmem = record (s.kmem) { freelist = l } }

module _ (end d : ℕ) (s : Vm) where
  -- Every page table is one that `kfree` takes.
  abbrev pub HasTables : Type 0
  HasTables =
      (i : ℕ)
      → i < 1024
      → present (s.tables d i) ≡ true
      → bad_page end (target (s.tables d i)) ≡ false

  free_tables_lem :
      (n i : ℕ) (l : List ℕ)
      → i + n ≤ 1024
      → HasTables
      → free_tables end n i d (with_free l s) ≡ some (with_free (give_tables n i (s.tables d) l) s)
  unfolding free_tables give_tables kfree
  free_tables_lem zero i l le good = refl
  free_tables_lem (suc n) i l le good = elim (Bool-cases (present (s.tables d i))) [
    | inr none_here ↦ rw none_here (free_tables_lem n (i + 1) l (omega arith) good)
    | inl is ↦
        let ok = good i (omega arith) is in
        rw (is, ok) (free_tables_lem n (i + 1) (target (s.tables d i) ∷ l) (omega arith) good)
  ]

  give_tables-IsDistinct :
      (n i : ℕ) (l : List ℕ)
      → IsApart d s
      → IsDistinct l
      → IsFresh d l
      → ((j : ℕ) → i ≤ j → present (s.tables d j) ≡ true → IsFresh (target (s.tables d j)) l)
      → IsDistinct (d ∷ give_tables n i (s.tables d) l)
  unfolding give_tables
  give_tables-IsDistinct zero i l v dist dir fresh = (dir, dist)
  give_tables-IsDistinct (suc n) i l v dist dir fresh = elim (Bool-cases (present (s.tables d i))) [
    | inr none_here ↦
        rw none_here
          (give_tables-IsDistinct n (i + 1) l v dist dir (λ j p q. fresh j (omega arith) q))
    | inl is ↦ rw is (
        give_tables-IsDistinct n (i + 1) (target (s.tables d i) ∷ l) v
          (fresh i (omega arith) is, dist) (v.beside i is, dir)
          (λ j p q.
            ((λ e. let w = v.apart i j is q e in omega (arith, w, p)), fresh j (omega arith) q)))
  ]

-- The free list behind `freevm`.
abbrev pub given_back : ℕ → Vm → List ℕ
given_back d s =
    d ∷ give_tables 1024 0 (s.tables d) (give_back 524288 0 (entry d s) s.kmem.freelist)

-- For an address space whose directory, page tables, user pages and the free pages are different pages, the
-- user pages mapped once, and all of them ones that `kfree` takes: `freevm` does not panic; it puts every
-- user page, every page table and the directory on the free list, in this order, and then no page
-- stands there twice.
pub free_pages_lem :
    (end d : ℕ) (s : Vm)
    → d ≢ 0
    → bad_page end d ≡ false
    → IsApart d s
    → Owned end d 0 524288 s
    → HasTables end d s
    → (s' : Vm) × (free_pages end d s ≡ some s')
      × (s'.kmem.freelist ≡ given_back d s)
      × IsDistinct (given_back d s)
unfolding free_pages kfree
free_pages_lem end d s n ok v o good =
    let (s1, e, f) = deallocuvm_lem end d kernbase 0 s (omega arith) (omega arith) v o in
    let good1 : HasTables end d s1 = λ i l p.
      ap (λ w. bad_page end (target w)) (f.dir i) ∙ good i l (ap present (sym (f.dir i)) ∙ p) in
    let l1 = give_tables 1024 0 (s1.tables d) s1.kmem.freelist in
    let same : l1
        ≡ give_tables 1024 0 (s.tables d) (give_back 524288 0 (entry d s) s.kmem.freelist) =
      give_tables-same 1024 0 (s1.tables d) (s.tables d) s1.kmem.freelist f.dir
      ∙ ap (give_tables 1024 0 (s.tables d)) f.list in
    let dist =
      give_tables-IsDistinct end d s1 1024 0 s1.kmem.freelist f.apart f.apart.distinct
        f.apart.dir_used (λ j p q. f.apart.tables_used j q) in
    let nonzero : (d == 0) ≡ false = ==_of_ne d 0 n in
    (
      with_free (d ∷ l1) s1,
      rw (nonzero, e, free_tables_lem end d s1 1024 0 s1.kmem.freelist (omega arith) good1, ok)
          refl,
      ap (λ l. d ∷ l) same,
      subst (λ l. IsDistinct (d ∷ l)) same dist,
    )
