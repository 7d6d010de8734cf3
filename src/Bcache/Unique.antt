-- ===== src/Bcache/Unique.antt =====
-- A block is in one buffer at most.
use cs537pair.Prelude.{
  ℕ, zero, suc, ◌≡◌, refl, ap, sym, subst, ◌∙◌, not, false, List, [], ◌∷◌, none, some, arith, ◌==◌,
  All, find_index, modify, Bool-cases, Option-cases, inl, inr, >>=-eq-some,
}
use cs537pair.Sleeplock.{holdingsleep}
use cs537pair.Bcache.{Buf, caches, hold, reuse, drop_buf, find_last, bget, pull, brelse}

-- Two buffers for the same block are buffers of device 0, which no block is read from.
abbrev pub Differs : Buf → Buf → Type 0
Differs a b = (a.dev ≡ b.dev) → (a.blockno ≡ b.blockno) → a.dev ≡ 0

abbrev pub IsUnique : List Buf → Type 0
IsUnique [] = Unit
IsUnique (b ∷ l) = All (Differs b) l × IsUnique l

-- The change keeps what block a buffer is for.
abbrev KeepsBlock : (Buf → Buf) → Type 0
KeepsBlock f = (b : Buf) → ((f b).dev ≡ b.dev) × ((f b).blockno ≡ b.blockno)

All-kept :
    (f : Buf → Buf) (b : Buf) (l : List Buf) (i : ℕ)
    → KeepsBlock f
    → All (Differs b) l
    → All (Differs b) (modify l i f)
All-kept f b [] i k a = tt
All-kept f b (x ∷ l) zero k a = (λ d n. ground (arith, k x, a.0), a.1)
All-kept f b (x ∷ l) (suc i) k a = (a.0, All-kept f b l i k a.1)

All-self :
    (f : Buf → Buf) (b : Buf) (l : List Buf)
    → KeepsBlock f
    → All (Differs b) l
    → All (Differs (f b)) l
All-self f b [] k a = tt
All-self f b (x ∷ l) k a = (λ d n. ground (arith, k b, a.0), All-self f b l k a.1)

modify-IsUnique :
    (f : Buf → Buf) (l : List Buf) (i : ℕ) → KeepsBlock f → IsUnique l → IsUnique (modify l i f)
modify-IsUnique f [] i k u = tt
modify-IsUnique f (b ∷ l) zero k u = (All-self f b l k u.0, u.1)
modify-IsUnique f (b ∷ l) (suc i) k u = (All-kept f b l i k u.0, modify-IsUnique f l i k u.1)

module _ (d n : ℕ) where
  All-reused :
      (b : Buf) (l : List Buf) (i : ℕ)
      → caches d n b ≡ false
      → All (Differs b) l
      → All (Differs b) (modify l i (reuse d n))
  All-reused b [] i c a = tt
  All-reused b (x ∷ l) zero c a = (λ e f. absurd (ground arith), a.1)
  All-reused b (x ∷ l) (suc i) c a = (a.0, All-reused b l i c a.1)

  All-absent :
      (b : Buf) (l : List Buf) → find_index (caches d n) l ≡ none → All (Differs (reuse d n b)) l
  All-absent b [] h = tt
  All-absent b (x ∷ l) h = (λ e f. absurd (ground arith), All-absent b l (ground arith))

  reuse-IsUnique :
      (l : List Buf) (i : ℕ)
      → find_index (caches d n) l ≡ none
      → IsUnique l
      → IsUnique (modify l i (reuse d n))
  reuse-IsUnique [] i h u = tt
  reuse-IsUnique (b ∷ l) zero h u = (All-absent b l (ground arith), u.1)
  reuse-IsUnique (b ∷ l) (suc i) h u =
      (All-reused b l i (ground arith) u.0, reuse-IsUnique l i (ground arith) u.1)

-- `bget` keeps it that a block is in one buffer at most.
pub bget-IsUnique :
    (d n i : ℕ) (l l' : List Buf) → bget d n l ≡ some (i, l') → IsUnique l → IsUnique l'
unfolding bget
bget-IsUnique d n i l l' e u = elim (Option-cases (find_index (caches d n) l)) [
  | inr (j, h) ↦
      let w : l' ≡ modify l j hold = ground arith in
      rw w (modify-IsUnique hold l j (λ b. (refl, refl)) u)
  | inl h ↦ elim (Option-cases (find_last l)) [
    | inl full ↦ absurd (ground arith)
    | inr (j, f) ↦
        let w : l' ≡ modify l j (reuse d n) = ground arith in rw w (reuse-IsUnique d n l j h u)
  ]
]

pull-suc :
    (i : ℕ) (x b : Buf) (l r : List Buf)
    → pull (suc i) (x ∷ l) ≡ some (b, r)
    → (r' : List Buf) × (pull i l ≡ some (b, r')) × (r ≡ x ∷ r')
unfolding pull
pull-suc i x b l r e =
    let (q, h, g) = >>=-eq-some (pull i l) (λ (t : Buf × List Buf). some (t.0, x ∷ t.1)) e in
    let w : q.0 ≡ b = ground arith in (q.1, h ∙ ap (λ c. some (c, q.1)) w, ground arith)

All-pull :
    (P : Buf → Type 0) (i : ℕ) (l r : List Buf) (b : Buf)
    → pull i l ≡ some (b, r)
    → All P l
    → P b × All P r
unfolding pull
All-pull P i [] r b e a = absurd (cc)
All-pull P zero (x ∷ l) r b e a =
    let w : x ≡ b = ground arith in
    let v : l ≡ r = ground arith in (subst P w a.0, subst (All P) v a.1)
All-pull P (suc i) (x ∷ l) r b e a =
    let (r', h, w) = pull-suc i x b l r e in
    let (p, q) = All-pull P i l r' b h a.1 in (p, subst (All P) (sym w) (a.0, q))

Differs-sym : (a b : Buf) → Differs a b → Differs b a
Differs-sym a b d e f = ground (arith, d)

pull-IsUnique :
    (i : ℕ) (l r : List Buf) (b : Buf)
    → pull i l ≡ some (b, r)
    → IsUnique l
    → All (Differs b) r × IsUnique r
unfolding pull
pull-IsUnique i [] r b e u = absurd (cc)
pull-IsUnique zero (x ∷ l) r b e u =
    let w : x ≡ b = ground arith in
    let v : l ≡ r = ground arith in
    (subst (λ c. All (Differs c) r) w (subst (All (Differs x)) v u.0), subst IsUnique v u.1)
pull-IsUnique (suc i) (x ∷ l) r b e u =
    let (r', h, w) = pull-suc i x b l r e in
    let (p, q) = All-pull (Differs x) i l r' b h u.0 in
    let (a, v) = pull-IsUnique i l r' b h u.1 in
    (subst (All (Differs b)) (sym w) (Differs-sym x b p, a), subst IsUnique (sym w) (q, v))

-- `brelse` keeps it that a block is in one buffer at most, also where it moves the buffer.
pub brelse-IsUnique :
    (pid i : ℕ) (l l' : List Buf) → brelse pid i l ≡ some l' → IsUnique l → IsUnique l'
unfolding brelse
brelse-IsUnique pid i l l' e u =
    let (r, h, g) = >>=-eq-some (pull i l) _ e in
    let (a, v) = pull-IsUnique i l r.1 r.0 h u in
    elim (Bool-cases (not (holdingsleep pid r.0.lock))) [
      | inl free ↦ absurd (ground arith)
      | inr held ↦ elim (Bool-cases ((drop_buf r.0).refcnt == 0)) [
        | inl last ↦
            let w : l' ≡ drop_buf r.0 ∷ r.1 = ground arith in
            rw w (All-self drop_buf r.0 r.1 (λ b. (refl, refl)) a, v)
        | inr shared ↦
            let w : l' ≡ modify l i drop_buf = ground arith in
            rw w (modify-IsUnique drop_buf l i (λ b. (refl, refl)) u)
      ]
    ]
