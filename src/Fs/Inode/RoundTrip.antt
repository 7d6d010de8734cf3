-- ===== src/Fs/Inode/RoundTrip.antt =====
-- `writei` and `readi` of a file whose blocks are allocated.
use cs537pair.Prelude.{
  ℕ, suc, ◌+◌, ◌-◌, ◌*◌, ◌/◌, ◌%◌, ◌<◌, ◌≤◌, ◌≡◌, ◌≢◌, ◌∙◌, refl, ap, ap₂, sym, true, false, not,
  ◌&&◌, ◌||◌, List, [], ◌∷◌, Option, some, arith, ltb, leb, ◌==◌, if◌then◌else◌, get_or, length,
  inl, inr, Bool-cases, ==_of_ne,
}
use cs537pair.Prelude.Int.{ℤ, pos}
use cs537pair.Fs.Blocks.{load32}
use cs537pair.Fs.Bitmap.{Super, View, bsize}
use cs537pair.Fs.Inode.{Inode, t_dev, u32, ndirect, maxfile, iblock, iupdate, readi, writei}
use cs537pair.Fs.Inode.Content.{addr_of, content, indirect_block, HasBlocks}
use cs537pair.Fs.Inode.Content.Loops.{readi_loop_lem, writei_loop_lem}

pub same_bytes :
    (xs ys : List ℕ)
    → length xs ≡ length ys
    → ((k : ℕ) → k < length ys → get_or xs k 0 ≡ get_or ys k 0)
    → xs ≡ ys
same_bytes [] [] l h = refl
same_bytes [] (y ∷ ys) l h = absurd (omega (arith, l))
same_bytes (x ∷ xs) [] l h = absurd (omega (arith, l))
same_bytes (x ∷ xs) (y ∷ ys) l h =
    ap₂ ◌∷◌ (h 0 (omega arith))
      (same_bytes xs ys (omega (arith, l)) (λ k m. h (suc k) (omega arith)))

module _ (sb : Super) where
  -- A write of the inode's own block leaves the file as it is.
  module _ (ip : Inode) (v : View) (n size : ℕ) (h : HasBlocks sb ip v n) where
    abbrev grown : Inode
    grown = record ip { size = size }

    abbrev after : View
    after = iupdate sb grown v

    after_other : (x : ℕ) → x ≢ iblock sb ip.inum → after x ≡ v x
    unfolding iupdate
    after_other x d =
        let z : (iblock sb ip.inum == x) ≡ false =
          ==_of_ne (iblock sb ip.inum) x (λ e. d (sym e)) in
        rw z refl

    addr_of-after : (c : ℕ) → addr_of grown after c ≡ addr_of ip v c
    addr_of-after c =
        ap
          (λ bytes. if ltb c ndirect then get_or ip.addrs c 0 else load32 bytes (4 * (c - ndirect)))
          (after_other (indirect_block ip) h.own_indirect)

    block_after : (c : ℕ) → c < n → after (addr_of grown after c) ≡ v (addr_of ip v c)
    block_after c k = ap after (addr_of-after c) ∙ after_other (addr_of ip v c) (h.own c k)

    content-after : (i : ℕ) → i < n * bsize → content grown after i ≡ content ip v i
    content-after i k =
        ap (λ bytes. get_or bytes (i % bsize) 0) (block_after (i / bsize) (omega arith))

    after-HasBlocks : HasBlocks sb grown after n
    after-HasBlocks = record {
      limit = h.limit;
      mapped = λ c k e. h.mapped c k (sym (addr_of-after c) ∙ e);
      through = h.through;
      apart = λ c d k m e. h.apart c d k m (sym (addr_of-after c) ∙ e ∙ addr_of-after d);
      beside = λ c k e. h.beside c k (sym (addr_of-after c) ∙ e);
      own = λ c k e. h.own c k (sym (addr_of-after c) ∙ e);
      own_indirect = h.own_indirect;
      sizes = λ c k. ap length (block_after c k) ∙ h.sizes c k;
    }

  module _ {S : Type 0} (dev_read : Inode → ℕ → S → Option (ℤ × List ℕ × S))
      (dev_write : Inode → List ℕ → S → Option (ℤ × S)) where
    -- A range of a file within its size and its allocated blocks: `readi` returns these bytes.
    pub readi_lem :
        (off m : ℕ) (ip : Inode) (v : View) (n : ℕ) (s : S)
        → HasBlocks sb ip v n
        → ip.type ≢ t_dev
        → off + m ≤ ip.size
        → off + m ≤ n * bsize
        → (bytes : List ℕ) × (readi sb dev_read dev_write off m ip v s
            ≡ some (pos m, bytes, ip, v, s))
          × (length bytes ≡ m)
          × ((k : ℕ) → k < m → get_or bytes k 0 ≡ content ip v (off + k))
    unfolding readi
    readi_lem off m ip v n s h t l r =
        let (bytes, e, len, all) = readi_loop_lem sb (suc m) off m ip v n h (omega arith) r in
        let d : (ip.type == t_dev) ≡ false = ==_of_ne ip.type t_dev t in
        let w : u32 (off + m) ≡ off + m = omega (arith, h.limit) in
        let a : ltb ip.size (off + m) ≡ false = ground arith in
        let b : (ltb ip.size off || ltb (off + m) off) ≡ false = ground arith in
        (bytes, rw (d, w, a, b) (rw e refl), len, all)

    pub writei_lem :
        (off : ℕ) (src : List ℕ) (ip : Inode) (v : View) (n : ℕ) (s : S)
        → HasBlocks sb ip v n
        → ip.type ≢ t_dev
        → off ≤ ip.size
        → off + length src ≤ n * bsize
        → (ip' : Inode) × (v' : View) × (writei sb dev_read dev_write off src ip v s
            ≡ some (pos (length src), ip', v', s))
          × HasBlocks sb ip' v' n
          × ((ip'.type ≡ ip.type)
              × (ip'.size ≡ (if ltb ip.size (off + length src) then off + length src else ip.size)))
          × ((i : ℕ)
              → i < n * bsize
              → content ip' v' i ≡ (
                  if leb off i && ltb i (off + length src)
                  then get_or src (i - off) 0
                  else content ip v i))
    unfolding writei
    writei_lem off src ip v n s h t l r =
        let (v1, e, h1, same, new, others) =
          writei_loop_lem sb (suc (length src)) off src ip v n h (omega arith) r in
        let d : (ip.type == t_dev) ≡ false = ==_of_ne ip.type t_dev t in
        let w : u32 (off + length src) ≡ off + length src = omega (arith, h.limit) in
        let b : (ltb ip.size off || ltb (off + length src) off) ≡ false = ground arith in
        let c : ltb (maxfile * bsize) (off + length src) ≡ false = ground (arith, h.limit) in
        elim (Bool-cases (ltb ip.size (off + length src))) [
          | inl more ↦
              let z : (length src == 0) ≡ false = ground (arith, more, l) in
              (
                grown ip v1 n (off + length src) h1,
                after ip v1 n (off + length src) h1,
                rw (d, w, b, c) (rw e (rw (z, more) refl)),
                after-HasBlocks ip v1 n (off + length src) h1,
                (refl, rw more refl),
                λ i k. content-after ip v1 n (off + length src) h1 i k ∙ new i k,
              )
          | inr less ↦
              let z : (not (length src == 0) && ltb ip.size (off + length src)) ≡ false =
                ground (arith, less) in
              (ip, v1, rw (d, w, b, c) (rw e (rw z refl)), h1, (refl, rw less refl), new)
        ]

    -- Bytes written to a file, not a device, from within it or from its end on, where its blocks are
    -- allocated: `writei` returns their number and `readi` of the same range returns them; every other
    -- byte of these blocks, the blocks' invariant, and the type of the inode are kept, and the file
    -- is as long as before or up to the end of the range, whichever is more.
    pub writei-readi :
        (off : ℕ) (src : List ℕ) (ip : Inode) (v : View) (n : ℕ) (s : S)
        → HasBlocks sb ip v n
        → ip.type ≢ t_dev
        → off ≤ ip.size
        → off + length src ≤ n * bsize
        → (ip' : Inode) × (v' : View) × (writei sb dev_read dev_write off src ip v s
            ≡ some (pos (length src), ip', v', s))
          × (readi sb dev_read dev_write off (length src) ip' v' s
              ≡ some (pos (length src), src, ip', v', s))
          × HasBlocks sb ip' v' n
          × ((ip'.type ≡ ip.type)
              × (ip'.size ≡ (if ltb ip.size (off + length src) then off + length src else ip.size)))
          × ((i : ℕ)
              → i < n * bsize
              → (leb off i && ltb i (off + length src)) ≡ false
              → content ip' v' i ≡ content ip v i)
    writei-readi off src ip v n s h t l r =
        let (ip', v', e, h', (kind, size), new) = writei_lem off src ip v n s h t l r in
        let (bytes, f, len, all) =
          readi_lem off (length src) ip' v' n s h' (λ x. t (sym kind ∙ x)) (ground (arith, size))
            r in
        let back : bytes ≡ src = same_bytes bytes src len λ k m.
          all k (ground (arith, len))
          ∙ new (off + k) (omega (arith, len))
          ∙ (let a : (leb off (off + k) && ltb (off + k) (off + length src)) ≡ true =
                ground (arith, len) in
              let b : off + k - off ≡ k = omega arith in rw (a, b) refl) in
        (
          ip',
          v',
          e,
          f ∙ ap (λ x. some (pos (length src), x, ip', v', s)) back,
          h',
          (kind, size),
          λ i k out. new i k ∙ rw out refl,
        )
