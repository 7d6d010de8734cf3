-- ===== src/Fs/Bitmap/Alloc.antt =====
-- What `balloc` and `bfree` make of the map.
use cs537pair.Prelude.{
  ℕ, zero, suc, ◌+◌, ◌-◌, ◌*◌, ◌/◌, ◌%◌, ◌<◌, ◌≤◌, ◌≡◌, ◌≢◌, ◌∙◌, refl, ap, subst, Bool, true,
  false, List, Option, none, some, arith, ltb, ◌==◌, if◌then◌else◌, replicate, ◌⊎◌, inl, inr,
  Bool-cases, dec_lt,
}
use cs537pair.Fs.Bitmap.{
  bsize, bpb, Super, View, put_block, test_bit, mark, unmark, bzero, bblock, scan_bits, balloc_loop,
  balloc, bfree,
}
use cs537pair.Fs.Bitmap.Bits.{IsMap, test_bit-mark, test_bit-unmark}

module _ (sb : Super) where
  -- Whether block `b` is in use.
  abbrev pub used : ℕ → View → Bool
  used b v = test_bit (v (bblock sb b)) (b % bpb)

  -- The map is sound: its blocks are blocks of bytes, and it has itself in use.
  pub record IsSound (v : View) : Type 0 where
    pub maps : (b : ℕ) → b < sb.size → IsMap (v (bblock sb b))
    pub own : (b c : ℕ) → b < sb.size → c < sb.size → b ≡ bblock sb c → used b v ≡ true

  -- What a scan of the bits from `bi` on, in the block for `b`, ends with.
  data Scanned (left b bi : ℕ) (bytes : List ℕ) (r : Option ℕ) : Type 0 where
    nothing :
        r ≡ none
        → ((j : ℕ) → bi ≤ j → j < bi + left → b + j < sb.size → test_bit bytes j ≡ true)
        → Scanned left b bi bytes r
    first :
        (i : ℕ)
        → r ≡ some i
        → bi ≤ i
        → i < bi + left
        → b + i < sb.size
        → test_bit bytes i ≡ false
        → ((j : ℕ) → bi ≤ j → j < i → test_bit bytes j ≡ true)
        → Scanned left b bi bytes r

  scan_bits_lem :
      (left b bi : ℕ) (bytes : List ℕ) → Scanned left b bi bytes (scan_bits sb left b bi bytes)
  unfolding scan_bits
  scan_bits_lem zero b bi bytes = nothing refl (λ j l k m. absurd (omega arith))
  scan_bits_lem (suc left) b bi bytes = elim (Bool-cases (ltb (b + bi) sb.size)) [
    | inr past ↦ rw (past, scan_bits) (nothing refl (λ j l k m. absurd (ground arith)))
    | inl inside ↦ elim (Bool-cases (test_bit bytes bi)) [
      | inr free ↦
          rw (inside, free, scan_bits)
            (first bi refl (omega arith) (omega arith) (ground arith) free
              (λ j l k. absurd (omega arith)))
      | inl taken ↦
          rw (inside, taken, scan_bits) (further taken (scan_bits_lem left b (bi + 1) bytes))
    ]
  ]
    where
      here_or : (P : ℕ → Type 0) (j : ℕ) → P bi → (bi + 1 ≤ j → P j) → bi ≤ j → P j
      here_or P j p q l = elim (Bool-cases (bi == j)) [
        | inl e ↦ let w : bi ≡ j = ground arith in subst P w p
        | inr e ↦ q (ground arith)
      ]

      further :
          {r : Option ℕ}
          → test_bit bytes bi ≡ true
          → Scanned left b (bi + 1) bytes r
          → Scanned (suc left) b bi bytes r
      further t (nothing e all) =
          nothing e
            (λ j l k m. here_or (λ x. test_bit bytes x ≡ true) j t (λ n. all j n (omega arith) m) l)
      further t (first i e l k m f all) =
          first i e (omega arith) (omega arith) m f
            (λ j n o. here_or (λ x. test_bit bytes x ≡ true) j t (λ q. all j q o) n)

  -- What `balloc` comes to: with all blocks in use it panics; else it returns the first free block, marks
  -- it and no other, fills it with zeros, and changes no block but that one and its block of the map.
  pub data Allocated (v : View) (r : Option (ℕ × View)) : Type 0 where
    full : r ≡ none → ((m : ℕ) → m < sb.size → used m v ≡ true) → Allocated v r
    got :
        (n : ℕ) (v' : View)
        → r ≡ some (n, v')
        → n < sb.size
        → used n v ≡ false
        → ((m : ℕ) → m < n → used m v ≡ true)
        → ((m : ℕ) → m < sb.size → used m v' ≡ (if n == m then true else used m v))
        → v' n ≡ replicate bsize 0
        → ((x : ℕ) → x ≢ n → x ≢ bblock sb n → v' x ≡ v x)
        → Allocated v r

  module _ (v : View) (s : IsSound v) (n : ℕ) (l : n < sb.size) (free : used n v ≡ false) where
    abbrev marked : View
    marked = bzero n (put_block (bblock sb n) (mark (v (bblock sb n)) (n % bpb)) v)

    own_block : (m : ℕ) → m < sb.size → (n == bblock sb m) ≡ false
    own_block m k = elim (Bool-cases (n == bblock sb m)) [
      | inr d ↦ d
      | inl e ↦ let w : n ≡ bblock sb m = ground arith in absurd (clash (s.own n m l k w ∙ refl))
    ]
      where
        clash : used n v ≢ true
        clash t = cc

    used-marked : (m : ℕ) → m < sb.size → used m marked ≡ (if n == m then true else used m v)
    unfolding bzero
    used-marked m k = elim (Bool-cases (bblock sb n == bblock sb m)) [
      | inl here ↦
          let e : n / bpb ≡ m / bpb = ground arith in
          let w : (n % bpb == m % bpb) ≡ (n == m) = ground arith in
          let same_block : bblock sb n ≡ bblock sb m = ground arith in
          rw (own_block m k, here)
            (test_bit-mark (v (bblock sb n)) (s.maps n l) (n % bpb) (omega arith) (m % bpb)
                (omega arith) free
              ∙ ap (λ t. if t then true else test_bit (v (bblock sb n)) (m % bpb)) w
              ∙ ap (λ x. if n == m then true else test_bit (v x) (m % bpb)) same_block)
      | inr there ↦ let d : (n == m) ≡ false = ground arith in rw (own_block m k, there, d) refl
    ]

    marked_others : (x : ℕ) → x ≢ n → x ≢ bblock sb n → marked x ≡ v x
    unfolding bzero
    marked_others x d e = ground arith

    marked_zero : marked n ≡ replicate bsize 0
    unfolding bzero
    marked_zero = ground arith

  balloc_loop_lem :
      (fuel b : ℕ) (v : View)
      → IsSound v
      → b % bpb ≡ 0
      → sb.size ≤ b + fuel * bpb
      → ((m : ℕ) → m < b → m < sb.size → used m v ≡ true)
      → Allocated v (balloc_loop sb fuel b v)
  unfolding balloc_loop
  balloc_loop_lem zero b v s z l before = full refl (λ m k. before m (omega arith) k)
  balloc_loop_lem (suc fuel) b v s z l before = elim (Bool-cases (ltb b sb.size)) [
    | inr past ↦ rw past (full refl (λ m k. before m (ground arith) k))
    | inl inside ↦ rw inside (
        round (scan_bits_lem bpb b 0 (v (bblock sb b)))
          (λ all. balloc_loop_lem fuel (b + bpb) v s (omega arith) (omega arith) all))
  ]
    where
      of_map : (m : ℕ) → b ≤ m → m < b + bpb → used m v ≡ test_bit (v (bblock sb b)) (m - b)
      of_map m k o =
          let e : bblock sb m ≡ bblock sb b = omega arith in
          let f : m % bpb ≡ m - b = omega arith in
          ap (λ x. test_bit (v x) (m % bpb)) e ∙ ap (test_bit (v (bblock sb b))) f

      upto :
          (end : ℕ)
          → end ≤ bpb
          → ((j : ℕ) → 0 ≤ j → j < end → b + j < sb.size → test_bit (v (bblock sb b)) j ≡ true)
          → (m : ℕ) → m < b + end
          → m < sb.size
          → used m v ≡ true
      upto end c all m k o = elim (dec_lt m b) [
        | yes low ↦ before m low o
        | no high ↦
            of_map m (omega arith) (omega arith)
            ∙ all (m - b) (omega arith) (omega arith) (omega arith)
      ]

      round :
          Scanned bpb b 0 (v (bblock sb b)) (scan_bits sb bpb b 0 (v (bblock sb b)))
          → (((m : ℕ) → m < b + bpb → m < sb.size → used m v ≡ true)
              → Allocated v (balloc_loop sb fuel (b + bpb) v))
          → Allocated v (elim (scan_bits sb bpb b 0 (v (bblock sb b))) [
            | none ↦ balloc_loop sb fuel (b + bpb) v
            | some bi ↦
                some
                  (b + bi, bzero (b + bi) (put_block (bblock sb b) (mark (v (bblock sb b)) bi) v))
          ])
      round (nothing e all) go = rw e (go (upto bpb (omega arith) (λ j c d o. all j c d o)))
      round (first i e c d o f all) go =
          let p : bblock sb (b + i) ≡ bblock sb b = omega arith in
          let q : (b + i) % bpb ≡ i = omega arith in
          let free : used (b + i) v ≡ false = rw (p, q) f in
          rw e (
            got (b + i) (marked v s (b + i) o free) (rw (p, q) refl) o free
              (λ m k. upto i (omega arith) (λ j x y t. all j x y) m k (omega arith))
              (used-marked v s (b + i) o free) (marked_zero v s (b + i) o free)
              (marked_others v s (b + i) o free))

  -- On a sound map `balloc` panics exactly if no block is free. Else it returns the first free block,
  -- marks that one and no other, leaves zeros in it, and changes no other block but that of the map.
  pub balloc_lem : (v : View) → IsSound v → Allocated v (balloc sb v)
  unfolding balloc
  balloc_lem v s =
      balloc_loop_lem (sb.size / bpb + 1) 0 v s (omega arith) (omega arith)
        (λ m k. absurd (omega arith))

  -- On a sound map `bfree` panics exactly for a block that is free already. Else it makes the block free,
  -- no other, and changes no block but that of the map.
  pub bfree_lem :
      (b : ℕ) (v : View)
      → IsSound v
      → b < sb.size
      → ((used b v ≡ false) × (bfree sb b v ≡ none))
        ⊎ ((used b v ≡ true)
            × ((v' : View) × (bfree sb b v ≡ some v')
                × ((m : ℕ) → m < sb.size → used m v' ≡ (if b == m then false else used m v))
                × ((x : ℕ) → x ≢ bblock sb b → v' x ≡ v x)))
  unfolding bfree
  bfree_lem b v s l = elim (Bool-cases (used b v)) [
    | inr free ↦ inl (free, rw free refl)
    | inl taken ↦ inr (
      taken,
      (
        put_block (bblock sb b) (unmark (v (bblock sb b)) (b % bpb)) v,
        rw taken refl,
        (λ m k. used_freed m k taken),
        (λ x d. ground arith),
      ),
    )
  ]
    where
      used_freed :
          (m : ℕ)
          → m < sb.size
          → used b v ≡ true
          → used m (put_block (bblock sb b) (unmark (v (bblock sb b)) (b % bpb)) v)
            ≡ (if b == m then false else used m v)
      used_freed m k taken = elim (Bool-cases (bblock sb b == bblock sb m)) [
        | inl here ↦
            let e : b / bpb ≡ m / bpb = ground arith in
            let w : (b % bpb == m % bpb) ≡ (b == m) = ground arith in
            let same_block : bblock sb b ≡ bblock sb m = ground arith in
            rw here (
              test_bit-unmark (v (bblock sb b)) (s.maps b l) (b % bpb) (omega arith) (m % bpb)
                (omega arith) taken
              ∙ ap (λ t. if t then false else test_bit (v (bblock sb b)) (m % bpb)) w
              ∙ ap (λ x. if b == m then false else test_bit (v x) (m % bpb)) same_block)
        | inr there ↦ let d : (b == m) ≡ false = ground arith in rw (there, d) refl
      ]
