-- ===== src/Fs/Icache/Unique.antt =====
-- An inode has one entry in the cache at most.
use cs537pair.Prelude.{
  ℕ, ◌+◌, ◌<◌, ◌≡◌, ◌≢◌, refl, ap, true, false, Option, none, some, arith, ◌==◌, find_index, modify,
  get_elem?, get_elem?-modify, find_index-some, find_index-none, ◌⊎◌, inl, inr, Bool-cases,
  Option-cases, sym, ◌∙◌,
}
use cs537pair.Fs.Icache.{Entry, Icache, is_for, is_empty, recycle, take_ref, iget}

abbrev pub IsUnique : Icache → Type 0
IsUnique c =
    (i j : ℕ) (a b : Entry)
    → get_elem? c i ≡ some a
    → get_elem? c j ≡ some b
    → 0 < a.inode.ref
    → 0 < b.inode.ref
    → a.inode.dev ≡ b.inode.dev
    → a.inode.inum ≡ b.inode.inum
    → i ≡ j

-- What `iget` comes to: with every entry in use for other inodes it panics. Else it returns an
-- entry for the inode: the one that was there, with one more reference, or an unused one, which it gives one
-- reference and marks as not read. No other entry changes.
pub data Gets (dev inum : ℕ) (c : Icache) (r : Option (ℕ × Icache)) : Type 0 where
  full :
      r ≡ none
      → ((j : ℕ) (e : Entry)
          → get_elem? c j ≡ some e
          → (is_for dev inum e ≡ false) × (0 < e.inode.ref))
      → Gets dev inum c r
  got :
      (i : ℕ) (c' : Icache) (e e' : Entry)
      → r ≡ some (i, c')
      → get_elem? c i ≡ some e
      → get_elem? c' i ≡ some e'
      → (e'.inode.dev ≡ dev) × (e'.inode.inum ≡ inum) × (e'.inode.ref ≡ e.inode.ref + 1)
      → (is_for dev inum e ≡ true) × (e'.inode.valid ≡ e.inode.valid)
        ⊎ (e.inode.ref ≡ 0) × (e'.inode.valid ≡ false)
      → ((j : ℕ) → i ≢ j → get_elem? c' j ≡ get_elem? c j)
      → IsUnique c'
      → Gets dev inum c r

-- An array with one entry changed, from what that entry becomes.
module _ (dev inum : ℕ) (c : Icache) (i : ℕ) (f : Entry → Entry) (e : Entry)
    (at : get_elem? c i ≡ some e) where
  here : get_elem? (modify c i f) i ≡ some (f e)
  here = let q = get_elem?-modify c i i f in ground (arith, q, at)

  there : (j : ℕ) → i ≢ j → get_elem? (modify c i f) j ≡ get_elem? c j
  there j d = let q = get_elem?-modify c i j f in ground (arith, q, d)

  origin :
      (j : ℕ) {b : Entry}
      → get_elem? (modify c i f) j ≡ some b
      → (i ≡ j) × (b ≡ f e) ⊎ (i ≢ j) × (get_elem? c j ≡ some b)
  origin j h = elim (Bool-cases (i == j)) [
    | inl y ↦
        let w : i ≡ j = ground arith in
        let q = get_elem?-modify c i j f in
        let at' : get_elem? c j ≡ some e = ap (get_elem? c) (sym w) ∙ at in
        inl (w, ground (arith, q, at', h))
    | inr n ↦ let w : i ≢ j = ground arith in inr (w, sym (there j w) ∙ h)
  ]

  -- Where no other entry in use is for the inode of the changed one, the cache stays unique.
  pub modify-IsUnique :
      IsUnique c
      → ((j : ℕ) (b : Entry)
          → i ≢ j
          → get_elem? c j ≡ some b
          → 0 < b.inode.ref
          → (f e).inode.dev ≡ b.inode.dev
          → (f e).inode.inum ≢ b.inode.inum)
      → IsUnique (modify c i f)
  modify-IsUnique u alone j k a b p q l m d n = elim (origin j p) [
    | inl (x, y) ↦ elim (origin k q) [
      | inl (z, w) ↦ sym x ∙ z
      | inr (z, w) ↦
          absurd (
            alone k b z w m (ap (λ t. t.inode.dev) (sym y) ∙ d)
              (ap (λ t. t.inode.inum) (sym y) ∙ n))
    ]
    | inr (x, y) ↦ elim (origin k q) [
      | inl (z, w) ↦ absurd (
          alone j a x y l (ap (λ t. t.inode.dev) (sym w) ∙ sym d)
            (ap (λ t. t.inode.inum) (sym w) ∙ sym n))
      | inr (z, w) ↦ u j k a b y w l m d n
    ]
  ]

-- In a cache without two entries in use for one inode, `iget` comes to what `Gets` says, and keeps that so.
pub iget_lem : (dev inum : ℕ) (c : Icache) → IsUnique c → Gets dev inum c (iget dev inum c)
unfolding iget
iget_lem dev inum c u = elim (Option-cases (find_index (is_for dev inum) c)) [
  | inr (i, h) ↦
      let (e, at, t) = find_index-some (is_for dev inum) c i h in
      rw h (
        got i (modify c i take_ref) e (take_ref e) refl at (here dev inum c i take_ref e at)
          (ground (arith, t), ground (arith, t), refl) (inl (t, refl))
          (there dev inum c i take_ref e at)
          (modify-IsUnique dev inum c i take_ref e at u
            (λ j b d w m p q. d (u i j e b at w (ground (arith, t)) m p q))))
  | inl miss ↦ elim (Option-cases (find_index is_empty c)) [
    | inl no_room ↦
        rw (miss, no_room)
          (full refl (λ j e w. (
            find_index-none (is_for dev inum) c j miss w,
            ground (arith, find_index-none is_empty c j no_room w),
          )))
    | inr (i, h) ↦
        let (e, at, t) = find_index-some is_empty c i h in
        let f = recycle dev inum in
        rw (miss, h)
          (got i (modify c i f) e (f e) refl at (here dev inum c i f e at)
            (refl, refl, ground (arith, t)) (inr (ground (arith, t), refl))
            (there dev inum c i f e at)
            (modify-IsUnique dev inum c i f e at u
              (λ j b d w m p q. ground (arith, find_index-none (is_for dev inum) c j miss w))))
  ]
]
