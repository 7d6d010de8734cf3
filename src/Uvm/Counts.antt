-- ===== src/Uvm/Counts.antt =====
-- The descriptors count the processes that use a page directory.
use cs537pair.Prelude.{
  ℕ, zero, suc, ◌≡◌, ◌≢◌, ◌⊎◌, inl, inr, refl, Bool, true, false, List, [], ◌∷◌, Option, none, some,
  arith, ◌==◌, if◌then◌else◌, find_index, modify, Bool-cases, Option-cases, get_or,
}
use cs537pair.Prelude.Int.{ℤ, pos, negsuc, ◌+ℤ◌, ◌==ℤ◌, pos_part}
use cs537pair.Uvm.{Uvmdesc, is_free, describes, zero_desc}

-- The count of the first descriptor of a page directory.
unfoldable pub refs : ℕ → List Uvmdesc → Option ℤ
refs p [] = none
refs p (d ∷ u) = if describes p d then some d.refcount else refs p u

-- A descriptor is free or counts at least one process, and no page directory has two.
abbrev pub IsCount : ℤ → Type 0
IsCount c = (c ≡ negsuc 0) ⊎ ((n : ℕ) × (c ≡ pos (suc n)))

abbrev pub IsValid : List Uvmdesc → Type 0
IsValid [] = Unit
IsValid (d ∷ u) = IsCount d.refcount × (is_free d ≡ false → refs d.pgdir u ≡ none) × IsValid u

-- The change of the first entry that passes.
pub modify_first : (Uvmdesc → Bool) → (Uvmdesc → Uvmdesc) → List Uvmdesc → List Uvmdesc
modify_first p f [] = []
modify_first p f (d ∷ u) = if p d then f d ∷ u else d ∷ modify_first p f u

pub modify-find_index :
    (p : Uvmdesc → Bool) (f : Uvmdesc → Uvmdesc) (u : List Uvmdesc) (i : ℕ)
    → find_index p u ≡ some i
    → modify u i f ≡ modify_first p f u
unfolding modify_first
modify-find_index p f [] i e = absurd (cc)
modify-find_index p f (d ∷ u) zero e = ground arith
modify-find_index p f (d ∷ u) (suc i) e = ground (arith, modify-find_index p f u i)

pub refs_of_locate :
    (p : ℕ) (u : List Uvmdesc) (i : ℕ)
    → find_index (describes p) u ≡ some i
    → refs p u ≡ some (get_or u i zero_desc).refcount
unfolding refs
refs_of_locate p [] i e = absurd (cc)
refs_of_locate p (d ∷ u) zero e = ground arith
refs_of_locate p (d ∷ u) (suc i) e = ground (arith, refs_of_locate p u i)

pub refs-none : (p : ℕ) (u : List Uvmdesc) → find_index (describes p) u ≡ none → refs p u ≡ none
unfolding refs
refs-none p [] e = refl
refs-none p (d ∷ u) e = ground (arith, refs-none p u)

-- How many processes use a page directory that some process uses.
abbrev pub count_of : Option ℤ → ℕ
count_of none = 1
count_of (some c) = pos_part c

abbrev pub users : ℕ → List Uvmdesc → ℕ
users p u = count_of (refs p u)

abbrev pub bump : Uvmdesc → Uvmdesc
bump d = record d { refcount = d.refcount +ℤ pos 1 }

abbrev pub put : ℕ → Uvmdesc → Uvmdesc
put p _ = record { pgdir = p; refcount = pos 2 }

abbrev pub reset : ℤ → Uvmdesc → Uvmdesc
reset c d = record d { refcount = c }

abbrev pub next : Option ℤ → Option ℤ
next none = none
next (some c) = some (c +ℤ pos 1)

abbrev pub replaced : ℤ → Option ℤ → Option ℤ
replaced c none = none
replaced c (some _) = some c

pub refs-bump :
    (p q : ℕ) (u : List Uvmdesc)
    → IsValid u
    → refs q (modify_first (describes p) bump u) ≡ (if q == p then next (refs q u) else refs q u)
unfolding refs modify_first ◌+ℤ◌
refs-bump p q [] v = ground arith
refs-bump p q (d ∷ u) v = ground (arith, refs-bump p q u)

bump-IsCount :
    (p : ℕ) (d : Uvmdesc)
    → describes p d ≡ true
    → IsCount d.refcount
    → IsCount (d.refcount +ℤ pos 1)
unfolding ◌+ℤ◌
bump-IsCount p d h (inl e) = absurd (ground arith)
bump-IsCount p d h (inr (n, e)) = inr (suc n, ground arith)

pub bump-IsValid :
    (p : ℕ) (u : List Uvmdesc) → IsValid u → IsValid (modify_first (describes p) bump u)
unfolding refs modify_first ◌+ℤ◌
bump-IsValid p [] v = tt
bump-IsValid p (d ∷ u) v = elim (Bool-cases (describes p d)) [
  | inl here ↦ rw here (bump-IsCount p d here v.0, (λ _. v.1 (ground arith)), v.2)
  | inr other ↦
      rw other (v.0, (λ f. ground (arith, refs-bump p d.pgdir u v.2, v.1 f)), bump-IsValid p u v.2)
]

pub refs-put :
    (p q : ℕ) (u : List Uvmdesc)
    → refs p u ≡ none
    → find_index is_free u ≢ none
    → refs q (modify_first is_free (put p) u) ≡ (if q == p then some (pos 2) else refs q u)
unfolding refs modify_first
refs-put p q [] n f = absurd (f refl)
refs-put p q (d ∷ u) n f = ground (arith, refs-put p q u)

modify_first-none :
    (p : Uvmdesc → Bool) (f : Uvmdesc → Uvmdesc) (u : List Uvmdesc)
    → find_index p u ≡ none
    → modify_first p f u ≡ u
unfolding modify_first
modify_first-none p f [] e = refl
modify_first-none p f (d ∷ u) e = ground (arith, modify_first-none p f u)

pub put-IsValid :
    (p : ℕ) (u : List Uvmdesc)
    → IsValid u
    → refs p u ≡ none
    → IsValid (modify_first is_free (put p) u)
unfolding refs modify_first
put-IsValid p [] v n = tt
put-IsValid p (d ∷ u) v n = elim (Bool-cases (is_free d)) [
  | inl here ↦ rw here (inr (1, refl), (λ _. ground arith), v.2)
  | inr other ↦ rw other (
    v.0,
    (λ f. elim (Option-cases {A = ℕ} (find_index is_free u)) [
      | inl e ↦ rw (modify_first-none is_free (put p) u e) (v.1 other)
      | inr (i, e) ↦ ground (arith, refs-put p d.pgdir u, v.1 other, n)
    ]),
    put-IsValid p u v.2 (ground arith),
  )
]

pub refs-reset :
    (p q : ℕ) (c : ℤ) (u : List Uvmdesc)
    → IsValid u
    → (c ==ℤ negsuc 0) ≡ false
    → refs q (modify_first (describes p) (reset c) u)
      ≡ (if q == p then replaced c (refs q u) else refs q u)
unfolding refs modify_first
refs-reset p q c [] v n = ground arith
refs-reset p q c (d ∷ u) v n = ground (arith, refs-reset p q c u)

pub refs-free :
    (p q : ℕ) (u : List Uvmdesc)
    → IsValid u
    → refs q (modify_first (describes p) (reset (negsuc 0)) u) ≡ (if q == p then none else refs q u)
unfolding refs modify_first
refs-free p q [] v = ground arith
refs-free p q (d ∷ u) v = elim (Bool-cases (describes p d)) [
  | inl here ↦ rw here (ground (arith, v.1))
  | inr other ↦ rw other (ground (arith, refs-free p q u v.2))
]

pub refs-IsCount :
    (p : ℕ) (u : List Uvmdesc) {c : ℤ} → IsValid u → refs p u ≡ some c → (n : ℕ) × (c ≡ pos (suc n))
unfolding refs
refs-IsCount p [] v e = absurd (cc)
refs-IsCount p (d ∷ u) {c} v e = elim (Bool-cases (describes p d)) [
  | inl here ↦ counted here v.0
  | inr other ↦ refs-IsCount p u v.2 (ground arith)
]
  where
    counted : describes p d ≡ true → IsCount d.refcount → (n : ℕ) × (c ≡ pos (suc n))
    counted h (inl f) = absurd (ground arith)
    counted h (inr (n, f)) = (n, ground arith)

pub reset-IsValid :
    (p n : ℕ) (u : List Uvmdesc)
    → IsValid u
    → IsValid (modify_first (describes p) (reset (pos (suc n))) u)
unfolding refs modify_first
reset-IsValid p n [] v = tt
reset-IsValid p n (d ∷ u) v = elim (Bool-cases (describes p d)) [
  | inl here ↦ rw here (inr (n, refl), (λ _. v.1 (ground arith)), v.2)
  | inr other ↦ rw other (
    v.0,
    (λ f. ground (arith, refs-reset p d.pgdir (pos (suc n)) u v.2, v.1 f)),
    reset-IsValid p n u v.2,
  )
]

pub free-IsValid :
    (p : ℕ) (u : List Uvmdesc)
    → IsValid u
    → IsValid (modify_first (describes p) (reset (negsuc 0)) u)
unfolding refs modify_first
free-IsValid p [] v = tt
free-IsValid p (d ∷ u) v = elim (Bool-cases (describes p d)) [
  | inl here ↦ rw here (inl refl, (λ f. absurd (cc)), v.2)
  | inr other ↦
      rw other (v.0, (λ f. ground (arith, refs-free p d.pgdir u v.2, v.1 f)), free-IsValid p u v.2)
]
