-- ===== src/Fs/Truncate/Free.antt =====
-- `bfree` for each block of a list.
use cs537pair.Prelude.{
  ℕ, ◌%◌, ◌<◌, ◌≡◌, ◌≢◌, ◌∙◌, refl, true, false, List, [], ◌∷◌, ◌++◌, Option, some, arith, ◌==◌,
  if◌then◌else◌, ◌>>=◌, inl, inr, Bool-cases, Option-cases, subst, All, IsFresh, IsDistinct,
}
use cs537pair.Fs.Bitmap.{Super, View, put_block, bblock, bfree, bpb, unmark}
use cs537pair.Fs.Bitmap.Bits.{IsMap, unmark-IsMap}
use cs537pair.Fs.Bitmap.Alloc.{used, IsSound, bfree_lem}

-- Not a block of the map.
abbrev pub IsOutside : Super → ℕ → Type 0
IsOutside sb b = (c : ℕ) → c < sb.size → b ≢ bblock sb c

-- A block in use that is not of the map.
abbrev pub IsData : Super → View → ℕ → Type 0
IsData sb v b = (b < sb.size) × (used sb b v ≡ true) × IsOutside sb b

module _ (sb : Super) where
  abbrev pub free_all : List ℕ → View → Option View
  free_all [] v = some v
  free_all (b ∷ bs) v = bfree sb b v >>= free_all bs

  pub free_all-append :
      (xs ys : List ℕ) (v : View) → free_all (xs ++ ys) v ≡ (free_all xs v >>= free_all ys)
  free_all-append [] ys v = refl
  free_all-append (x ∷ xs) ys v = elim (Option-cases (bfree sb x v)) [
    | inl e ↦ rw e refl
    | inr (v1, e) ↦ rw e (free_all-append xs ys v1)
  ]

  -- What freeing the blocks makes of the map and the disk.
  pub record FreesAll (bs : List ℕ) (v v' : View) : Type 0 where
    pub sound : IsSound sb v'
    pub others : (m : ℕ) → m < sb.size → IsFresh m bs → used sb m v' ≡ used sb m v
    pub freed : All (λ b. used sb b v' ≡ false) bs
    pub outside : (x : ℕ) → IsOutside sb x → v' x ≡ v x

  IsData-after :
      (b : ℕ) (bs : List ℕ) (v v1 : View)
      → ((m : ℕ) → m < sb.size → used sb m v1 ≡ (if b == m then false else used sb m v))
      → IsFresh b bs
      → All (IsData sb v) bs
      → All (IsData sb v1) bs
  IsData-after b [] v v1 bits f d = tt
  IsData-after b (x ∷ bs) v v1 bits (n, f) ((l, u, o), d) =
      let w : (b == x) ≡ false = ground arith in
      ((l, bits x l ∙ rw w u, o), IsData-after b bs v v1 bits f d)

  bfree-IsSound :
      (b : ℕ) (v v1 : View)
      → IsSound sb v
      → IsData sb v b
      → bfree sb b v ≡ some v1
      → ((m : ℕ) → m < sb.size → used sb m v1 ≡ (if b == m then false else used sb m v))
      → IsSound sb v1
  unfolding bfree
  bfree-IsSound b v v1 s (l, u, o) e bits = record {
    maps = λ c k.
        let made : some (put_block (bblock sb b) (unmark (v (bblock sb b)) (b % bpb)) v) ≡ some v1 =
          rw u at e in
        let same : put_block (bblock sb b) (unmark (v (bblock sb b)) (b % bpb)) v ≡ v1 = cc in
        subst (λ w. IsMap (w (bblock sb c))) same
          (elim (Bool-cases (bblock sb b == bblock sb c)) [
            | inl here ↦
                rw here (unmark-IsMap (v (bblock sb b)) (s.maps b l) (b % bpb) (omega arith))
            | inr there ↦ rw there (s.maps c k)
          ]);
    own = λ x c lx lc q.
        let w : (b == x) ≡ false = (let n = o c lc in ground arith) in
        bits x lx ∙ rw w (s.own x c lx lc q);
  }

  pub free_all_lem :
      (bs : List ℕ) (v : View)
      → IsSound sb v
      → IsDistinct bs
      → All (IsData sb v) bs
      → (v' : View) × (free_all bs v ≡ some v') × FreesAll bs v v'
  free_all_lem [] v s d i =
      (v, refl, record { sound = s; others = λ m l f. refl; freed = tt; outside = λ x o. refl })
  free_all_lem (b ∷ bs) v s (f, d) ((l, u, o), i) = elim (bfree_lem sb b v s l) [
    | inl (free, e) ↦ absurd (cc)
    | inr (taken, (v1, e, bits, other)) ↦
        let (v', e', r) =
          free_all_lem bs v1 (bfree-IsSound b v v1 s (l, u, o) e bits) d
            (IsData-after b bs v v1 bits f i) in
        let self : (b == b) ≡ true = ground arith in
        (
          v',
          rw e e',
          record {
            sound = r.sound;
            others = λ m k n.
                let w : (b == m) ≡ false = (let q = n.0 in ground arith) in
                r.others m k n.1 ∙ bits m k ∙ rw w refl;
            freed = (r.others b l f ∙ bits b l ∙ rw self refl, r.freed);
            outside = λ x p. r.outside x p ∙ other x (p b l);
          },
        )
  ]
