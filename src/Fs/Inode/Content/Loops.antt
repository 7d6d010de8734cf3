-- ===== src/Fs/Inode/Content/Loops.antt =====
-- The loops of `readi` and `writei` against the bytes of the file.
use cs537pair.Prelude.{
  ℕ, zero, suc, ◌+◌, ◌-◌, ◌*◌, ◌/◌, ◌%◌, ◌<◌, ◌≤◌, ◌≡◌, ◌≢◌, ◌∙◌, refl, ap, ap₂, sym, true, false,
  ◌&&◌, List, [], ◌∷◌, ◌++◌, some, arith, ltb, leb, ◌==◌, if◌then◌else◌, get_or, length,
  length-append, take, drop, inl, inr, Bool-cases, ==_of_ne, dec_lt,
}
use cs537pair.Fs.Blocks.{read_at, get_or-read_at, length-read_at}
use cs537pair.Fs.Bitmap.{Super, View, bsize}
use cs537pair.Fs.Inode.{Inode, piece, readi_loop, writei_loop}
use cs537pair.Fs.Inode.Content.{
  addr_of, content, HasBlocks, bmap_lem, patched, addr_of-patched, content-patched,
  patched-HasBlocks,
}

get_or-append :
    (xs ys : List ℕ) (k d : ℕ)
    → get_or (xs ++ ys) k d
      ≡ (if ltb k (length xs) then get_or xs k d else get_or ys (k - length xs) d)
get_or-append [] ys k d = let e : k - 0 ≡ k = omega arith in ground (arith, e)
get_or-append (x ∷ xs) ys zero d = ground arith
get_or-append (x ∷ xs) ys (suc k) d = ground (arith, get_or-append xs ys k d)

get_or-take : (m k d : ℕ) (xs : List ℕ) → k < m → get_or (take m xs) k d ≡ get_or xs k d
get_or-take zero k d xs l = absurd (omega arith)
get_or-take (suc m) k d [] l = refl
get_or-take (suc m) zero d (x ∷ xs) l = refl
get_or-take (suc m) (suc k) d (x ∷ xs) l = get_or-take m k d xs (omega arith)

get_or-drop : (m k d : ℕ) (xs : List ℕ) → get_or (drop m xs) k d ≡ get_or xs (m + k) d
get_or-drop zero k d xs = ap (λ i. get_or xs i d) (omega arith)
get_or-drop (suc m) k d [] = refl
get_or-drop (suc m) k d (x ∷ xs) =
    get_or-drop m k d xs ∙ (let e : suc m + k ≡ suc (m + k) = omega arith in rw e refl)

length-take : (m : ℕ) (xs : List ℕ) → m ≤ length xs → length (take m xs) ≡ m
length-take zero xs l = refl
length-take (suc m) [] l = absurd (omega arith)
length-take (suc m) (x ∷ xs) l = ap suc (length-take m xs (omega arith))

pub length-drop : (m : ℕ) (xs : List ℕ) → length (drop m xs) ≡ length xs - m
length-drop zero xs = omega arith
length-drop (suc m) [] = omega arith
length-drop (suc m) (x ∷ xs) = omega (arith, length-drop m xs)

piece_lem :
    (left off : ℕ)
    → 0 < left
    → (0 < piece left off) × (piece left off ≤ left) × (off % bsize + piece left off ≤ bsize)
piece_lem left off p = ground arith

within :
    (ip : Inode) (v : View) (off k m : ℕ)
    → k < m
    → off % bsize + m ≤ bsize
    → get_or (v (addr_of ip v (off / bsize))) (off % bsize + k) 0 ≡ content ip v (off + k)
within ip v off k m l r =
    let e : off / bsize ≡ (off + k) / bsize = omega arith in
    let f : off % bsize + k ≡ (off + k) % bsize = omega arith in
    ap₂ (λ x y. get_or (v (addr_of ip v x)) y 0) e f

-- Byte `i` after two writes, of the first `m` bytes of `src` and then of its rest.
joined :
    (src : List ℕ) (off m i x y z : ℕ)
    → m ≤ length src
    → y ≡ (
        if leb off i && ltb i (off + length (take m src))
        then get_or (take m src) (i - off) 0
        else x)
    → z ≡ (
        if leb (off + m) i && ltb i (off + m + length (drop m src))
        then get_or (drop m src) (i - (off + m)) 0
        else y)
    → z ≡ (if leb off i && ltb i (off + length src) then get_or src (i - off) 0 else x)
joined src off m i x y z l first rest =
    let lt = length-take m src l in
    let ld = length-drop m src in
    elim (dec_lt i (off + m)) [
      | yes p ↦
          let b : (leb (off + m) i && ltb i (off + m + length (drop m src))) ≡ false =
            ground arith in
          let c : (leb off i && ltb i (off + length (take m src)))
              ≡ (leb off i && ltb i (off + length src)) =
            ground (arith, lt) in
          rest
          ∙ rw b (
              first
              ∙ rw c (elim (dec_lt i off) [
                | yes q ↦ ground arith
                | no q ↦
                    ap (λ w. if leb off i && ltb i (off + length src) then w else x)
                      (get_or-take m (i - off) 0 src (omega arith))
              ]))
      | no p ↦
          let b : (leb (off + m) i && ltb i (off + m + length (drop m src)))
              ≡ (leb off i && ltb i (off + length src)) =
            ground (arith, ld) in
          let c : (leb off i && ltb i (off + length (take m src))) ≡ false = ground (arith, lt) in
          let k : m + (i - (off + m)) ≡ i - off = omega arith in
          rest
          ∙ rw b (
              ap₂ (λ w u. if leb off i && ltb i (off + length src) then w else u)
                (get_or-drop m (i - (off + m)) 0 src ∙ ap (λ j. get_or src j 0) k)
                (first ∙ rw c refl))
    ]

module _ (sb : Super) where
  -- Where the range is allocated the loop of `readi` ends, changes nothing, and reads its bytes.
  pub readi_loop_lem :
      (fuel off left : ℕ) (ip : Inode) (v : View) (n : ℕ)
      → HasBlocks sb ip v n
      → left < fuel
      → off + left ≤ n * bsize
      → (bytes : List ℕ) × (readi_loop sb fuel off left ip v ≡ some (bytes, ip, v))
        × (length bytes ≡ left)
        × ((k : ℕ) → k < left → get_or bytes k 0 ≡ content ip v (off + k))
  unfolding readi_loop
  readi_loop_lem zero off left ip v n h l r = absurd (omega arith)
  readi_loop_lem (suc fuel) off left ip v n h l r = elim (Bool-cases (left == 0)) [
    | inl done ↦ ([], rw done refl, ground arith, λ k q. absurd (ground arith))
    | inr more ↦
        let m = piece left off in
        let (p0, p1, p2) = piece_lem left off (ground arith) in
        let b = off / bsize in
        let bm = bmap_lem sb ip v n b h (omega (arith, p0, p1)) in
        let (rest, e, len, all) =
          readi_loop_lem fuel (off + m) (left - m) ip v n h (omega (arith, p0, p1))
            (omega (arith, p1)) in
        let first = read_at (v (addr_of ip v b)) (off % bsize) m in
        let lf : length first ≡ m = length-read_at m (off % bsize) (v (addr_of ip v b)) in
        (
          first ++ rest,
          rw (more, bm) (rw e refl),
          omega (arith, length-append first rest, lf, len, p1),
          λ k q. get_or-append first rest k 0 ∙ elim (dec_lt k m) [
            | yes here ↦
                let t : ltb k (length first) ≡ true = ground (arith, lf) in
                rw t (
                  get_or-read_at m (off % bsize) k (v (addr_of ip v b)) here
                  ∙ within ip v off k m here p2)
            | no there ↦
                let t : ltb k (length first) ≡ false = ground (arith, lf) in
                let u : k - length first ≡ k - m = omega (arith, lf) in
                rw (t, u) (all (k - m) (omega arith) ∙ ap (content ip v) (omega arith))
          ],
        )
  ]

  -- Bytes `off` up to `off + length src` of the file are now those of `src`, and all others as before.
  abbrev pub Replaced : ℕ → List ℕ → Inode → ℕ → View → View → Type 0
  Replaced off src ip n v v' =
      (i : ℕ)
      → i < n * bsize
      → content ip v' i
        ≡ (if leb off i && ltb i (off + length src) then get_or src (i - off) 0 else content ip v i)

  -- Where the range is allocated the loop of `writei` ends, and changes these bytes of the file, and no
  -- block but those of the file.
  pub writei_loop_lem :
      (fuel off : ℕ) (src : List ℕ) (ip : Inode) (v : View) (n : ℕ)
      → HasBlocks sb ip v n
      → length src < fuel
      → off + length src ≤ n * bsize
      → (v' : View) × (writei_loop sb fuel off src ip v ≡ some (off + length src, ip, v'))
        × HasBlocks sb ip v' n
        × ((c : ℕ) → addr_of ip v' c ≡ addr_of ip v c)
        × Replaced off src ip n v v'
        × ((x : ℕ) → ((c : ℕ) → c < n → x ≢ addr_of ip v c) → v' x ≡ v x)
  unfolding writei_loop
  writei_loop_lem zero off src ip v n h l r = absurd (omega arith)
  writei_loop_lem (suc fuel) off src ip v n h l r = elim (Bool-cases (length src == 0)) [
    | inl done ↦
        let z : length src ≡ 0 = ground arith in
        (v, rw done (ground arith), h, (λ c. refl), (λ i k. ground arith), λ x k. refl)
    | inr more ↦
        let m = piece (length src) off in
        let (p0, p1, p2) = piece_lem (length src) off (ground arith) in
        let b = off / bsize in
        let o = off % bsize in
        let l' : b < n = omega (arith, p0, p1) in
        let lt = length-take m src p1 in
        let ld = length-drop m src in
        let fits : o + length (take m src) ≤ bsize = omega (arith, lt, p2) in
        let bm = bmap_lem sb ip v n b h l' in
        let v1 = patched sb ip v n b o (take m src) h l' fits in
        let (v', e, h', same, new, others) =
          writei_loop_lem fuel (off + m) (drop m src) ip v1 n
            (patched-HasBlocks sb ip v n b o (take m src) h l' fits) (omega (arith, p0, p1, ld))
            (omega (arith, p1, ld)) in
        let same1 = addr_of-patched sb ip v n b o (take m src) h l' fits in
        (
          v',
          rw (more, bm) (e ∙ ap (λ x. some (x, ip, v')) (omega (arith, ld, p1))),
          h',
          (λ c. same c ∙ same1 c),
          (λ i k.
              joined src off m i (content ip v i) (content ip v1 i) (content ip v' i) p1
                (content-patched sb ip v n b o (take m src) h l' fits i k
                  ∙ (let w : b * bsize + o ≡ off = omega arith in
                      ap
                        (λ a.
                          if leb a i && ltb i (a + length (take m src))
                          then get_or (take m src) (i - a) 0
                          else content ip v i)
                        w))
                (new i k)),
          λ x k.
              others x (λ c q e. k c q (e ∙ same1 c))
              ∙ (let d : (addr_of ip v b == x) ≡ false =
                    ==_of_ne (addr_of ip v b) x (λ e. k b l' (sym e)) in
                  rw d refl),
        )
  ]
