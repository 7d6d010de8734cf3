-- ===== src/Bcache/Lookup.antt =====
-- Which buffer `bget` finds for a block, and what it does to it.
use cs537pair.Prelude.{
  ℕ, zero, suc, ◌≡◌, ◌≢◌, ◌⊎◌, inl, inr, refl, true, false, List, [], ◌∷◌, none, some, arith, ◌<◌,
  find_index, find_index-some, find_index-none, modify, get_elem?, get_elem?-modify, Option-cases,
}
use cs537pair.Bcache.{Buf, caches, hold, reuse, unused, find_last, bget}

-- Where the scan finds nothing no buffer is unused.
find_last-none :
    (l : List Buf)
    → find_last l ≡ none
    → (j : ℕ) (c : Buf) → get_elem? l j ≡ some c
    → unused c ≡ false
unfolding find_last
find_last-none [] e j c h = absurd (cc)
find_last-none (b ∷ l) e zero c h = elim (Option-cases (find_last l)) [
  | inr (k, g) ↦ absurd (ground arith)
  | inl g ↦ ground arith
]
find_last-none (b ∷ l) e (suc j) c h = elim (Option-cases (find_last l)) [
  | inr (k, g) ↦ absurd (ground arith)
  | inl g ↦ find_last-none l g j c h
]

-- What the scan from the tail finds is unused, and nothing behind it is.
find_last-some :
    (l : List Buf) (i : ℕ)
    → find_last l ≡ some i
    → (b : Buf) × (get_elem? l i ≡ some b)
      × (unused b ≡ true)
      × ((j : ℕ) (c : Buf) → i < j → get_elem? l j ≡ some c → unused c ≡ false)
unfolding find_last
find_last-some [] i e = absurd (cc)
find_last-some (b ∷ l) i e = elim (Option-cases (find_last l)) [
  | inr (k, h) ↦
      let w : i ≡ suc k = ground arith in
      let (c, g, u, rest) = find_last-some l k h in
      (c, rw w g, u, λ j x less q. behind k j x (omega arith) rest q)
  | inl h ↦
      let w : i ≡ 0 = ground arith in
      (
        b,
        rw w refl,
        ground arith,
        λ j x less q. behind_first j x (omega arith) (find_last-none l h) q,
      )
]
  where
    behind :
        (k j : ℕ) (x : Buf)
        → suc k < j
        → ((j : ℕ) (c : Buf) → k < j → get_elem? l j ≡ some c → unused c ≡ false)
        → get_elem? (b ∷ l) j ≡ some x
        → unused x ≡ false
    behind k zero x less rest q = absurd (omega arith)
    behind k (suc j) x less rest q = rest j x (omega arith) q

    behind_first :
        (j : ℕ) (x : Buf)
        → 0 < j
        → ((j : ℕ) (c : Buf) → get_elem? l j ≡ some c → unused c ≡ false)
        → get_elem? (b ∷ l) j ≡ some x
        → unused x ≡ false
    behind_first zero x less rest q = absurd (omega arith)
    behind_first (suc j) x less rest q = rest j x q

-- The buffer at place `i` before and after a `bget` for block `n` of device `d`: it held the block, and
-- is only counted once more; or no buffer did, it was the last unused one, and starts anew.
abbrev pub Chosen : ℕ → ℕ → ℕ → List Buf → Buf → Buf → Type 0
Chosen d n i l b b' =
    ((caches d n b ≡ true) × (b' ≡ hold b))
    ⊎ ((unused b ≡ true)
        × (b' ≡ reuse d n b)
        × ((j : ℕ) (c : Buf) → get_elem? l j ≡ some c → caches d n c ≡ false)
        × ((j : ℕ) (c : Buf) → i < j → get_elem? l j ≡ some c → unused c ≡ false))

pub record Got (d n i : ℕ) (l l' : List Buf) : Type 0 where
  pub here :
      (b : Buf) × (b' : Buf) × (get_elem? l i ≡ some b)
      × (get_elem? l' i ≡ some b')
      × (b'.dev ≡ d)
      × (b'.blockno ≡ n)
      × Chosen d n i l b b'
  pub others : (j : ℕ) → j ≢ i → get_elem? l' j ≡ get_elem? l j

modified :
    (l : List Buf) (i : ℕ) (f : Buf → Buf) (b : Buf)
    → get_elem? l i ≡ some b
    → get_elem? (modify l i f) i ≡ some (f b)
modified l i f b h = ground (arith, get_elem?-modify l i i f)

unmodified :
    (l : List Buf) (i j : ℕ) (f : Buf → Buf) → j ≢ i → get_elem? (modify l i f) j ≡ get_elem? l j
unmodified l i j f d = ground (arith, get_elem?-modify l i j f)

-- Where `bget` does not panic, its buffer is one for the block: the first that holds it, which is only
-- counted once more; or, if there is none, the least recently used of those that are neither counted
-- nor dirty, which is then invalid and counted once. No other buffer changes.
pub bget_lem : (d n i : ℕ) (l l' : List Buf) → bget d n l ≡ some (i, l') → Got d n i l l'
unfolding bget
bget_lem d n i l l' e = elim (Option-cases (find_index (caches d n) l)) [
  | inr (j, h) ↦
      let (b, g, c) = find_index-some (caches d n) l j h in
      let v : i ≡ j = ground arith in
      let w : l' ≡ modify l i hold = ground arith in
      let g' : get_elem? l i ≡ some b = rw v g in
      rw w (record {
        here = (b, hold b, g', modified l i hold b g', ground arith, ground arith, inl (c, refl));
        others = λ k t. unmodified l i k hold t;
      })
  | inl h ↦ elim (Option-cases (find_last l)) [
    | inl full ↦ absurd (ground arith)
    | inr (j, f) ↦
        let v : i ≡ j = ground arith in
        let w : l' ≡ modify l i (reuse d n) = ground arith in
        let (b, g, u, tail) = find_last-some l i (rw v f) in
        rw w (record {
          here = (
            b,
            reuse d n b,
            g,
            modified l i (reuse d n) b g,
            refl,
            refl,
            inr (u, refl, (λ k c q. find_index-none (caches d n) l k h q), tail),
          );
          others = λ k t. unmodified l i k (reuse d n) t;
        })
  ]
]
