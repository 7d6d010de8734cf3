-- ===== src/Fs/Inode/Content.antt =====
-- The bytes of a file, where its blocks are allocated, and one write to them.
pub mod Loops
use cs537pair.Prelude.{
  ℕ, zero, suc, ◌+◌, ◌-◌, ◌*◌, ◌/◌, ◌%◌, ◌<◌, ◌≤◌, ◌≡◌, ◌≢◌, ◌∙◌, refl, ap, ap₂, sym, Bool, true,
  false, ◌&&◌, List, Option, some, arith, ltb, leb, ◌==◌, if◌then◌else◌, get_or, length, inl, inr,
  Bool-cases, ==_of_ne, ==_self,
}
use cs537pair.Fs.Blocks.{write_at, load32, get_or-write_at, length-write_at}
use cs537pair.Fs.Bitmap.{Super, View, put_block, bsize}
use cs537pair.Fs.Inode.{Inode, ndirect, nindirect, maxfile, iblock, direct, indirect, bmap}

abbrev pub indirect_block : Inode → ℕ
indirect_block ip = get_or ip.addrs ndirect 0

-- The address of a block of the file, 0 where none is allocated.
abbrev pub addr_of : Inode → View → ℕ → ℕ
addr_of ip v bn =
    if ltb bn ndirect
    then get_or ip.addrs bn 0
    else load32 (v (indirect_block ip)) (4 * (bn - ndirect))

-- Byte `i` of the file.
abbrev pub content : Inode → View → ℕ → ℕ
content ip v i = get_or (v (addr_of ip v (i / bsize))) (i % bsize) 0

module _ (sb : Super) where
  -- The first `n` blocks of the file are allocated, of full size, and apart from one another, from the
  -- indirect block and from the block that holds the inode.
  pub record HasBlocks (ip : Inode) (v : View) (n : ℕ) : Type 0 where
    pub limit : n ≤ maxfile
    pub mapped : (b : ℕ) → b < n → addr_of ip v b ≢ 0
    pub through : ndirect < n → indirect_block ip ≢ 0
    pub apart : (b c : ℕ) → b < n → c < n → addr_of ip v b ≡ addr_of ip v c → b ≡ c
    pub beside : (b : ℕ) → b < n → addr_of ip v b ≢ indirect_block ip
    pub own : (b : ℕ) → b < n → addr_of ip v b ≢ iblock sb ip.inum
    pub own_indirect : indirect_block ip ≢ iblock sb ip.inum
    pub sizes : (b : ℕ) → b < n → length (v (addr_of ip v b)) ≡ bsize

  -- For a block that is allocated `bmap` changes nothing.
  pub bmap_lem :
      (ip : Inode) (v : View) (n b : ℕ)
      → HasBlocks ip v n
      → b < n
      → bmap sb b ip v ≡ some (addr_of ip v b, ip, v)
  unfolding bmap
  bmap_lem ip v n b h l = elim (Bool-cases (ltb b ndirect)) [
    | inl low ↦
        let z : (get_or ip.addrs b 0 == 0) ≡ false = ground (arith, h.mapped b l) in
        rw (low, z) refl
    | inr high ↦
        let z : (load32 (v (indirect_block ip)) (4 * (b - ndirect)) == 0) ≡ false =
          ground (arith, h.mapped b l) in
        let y : (indirect_block ip == 0) ≡ false = ground (arith, h.through) in
        let w : ltb (b - ndirect) nindirect ≡ true = ground (arith, h.limit) in
        rw (high, w, y) (rw z refl)
  ]

  module _ (ip : Inode) (v : View) (n b o : ℕ) (cs : List ℕ) (h : HasBlocks ip v n) (l : b < n)
      (fits : o + length cs ≤ bsize) where
    -- The view with `cs` from byte `o` of block `b` on.
    abbrev pub patched : View
    patched = put_block (addr_of ip v b) (write_at (v (addr_of ip v b)) o cs) v

    patched_indirect : patched (indirect_block ip) ≡ v (indirect_block ip)
    patched_indirect =
        let d : (addr_of ip v b == indirect_block ip) ≡ false =
          ==_of_ne (addr_of ip v b) (indirect_block ip) (h.beside b l) in
        rw d refl

    pub addr_of-patched : (c : ℕ) → addr_of ip patched c ≡ addr_of ip v c
    addr_of-patched c =
        ap
          (λ bytes. if ltb c ndirect then get_or ip.addrs c 0 else load32 bytes (4 * (c - ndirect)))
          patched_indirect

    patched_other : (c : ℕ) → c < n → b ≢ c → patched (addr_of ip v c) ≡ v (addr_of ip v c)
    patched_other c k d =
        let w : (addr_of ip v b == addr_of ip v c) ≡ false =
          ==_of_ne (addr_of ip v b) (addr_of ip v c) (λ e. d (h.apart b c l k e)) in
        rw w refl

    patched_here : patched (addr_of ip v b) ≡ write_at (v (addr_of ip v b)) o cs
    patched_here = rw (==_self (addr_of ip v b)) refl

    -- The bytes that are written, and no others, change.
    pub content-patched :
        (i : ℕ)
        → i < n * bsize
        → content ip patched i ≡ (
            if leb (b * bsize + o) i && ltb i (b * bsize + o + length cs)
            then get_or cs (i - (b * bsize + o)) 0
            else content ip v i)
    content-patched i k =
        ap (λ x. get_or (patched x) (i % bsize) 0) (addr_of-patched (i / bsize))
        ∙ elim (Bool-cases (b == i / bsize)) [
          | inl here ↦
              let e : b ≡ i / bsize = ground arith in
              let r : i % bsize - o ≡ i - (b * bsize + o) = omega arith in
              let t : (leb o (i % bsize) && ltb (i % bsize) (o + length cs))
                  ≡ (leb (b * bsize + o) i && ltb i (b * bsize + o + length cs)) =
                ground arith in
              ap (λ x. get_or (patched (addr_of ip v x)) (i % bsize) 0) (sym e)
              ∙ ap (λ bytes. get_or bytes (i % bsize) 0) patched_here
              ∙ get_or-write_at cs (v (addr_of ip v b)) o (i % bsize) 0 (omega (arith, h.sizes b l))
              ∙ ap
                  (λ x.
                    if x
                    then get_or cs (i % bsize - o) 0
                    else get_or (v (addr_of ip v b)) (i % bsize) 0)
                  t
              ∙ ap₂
                  (λ x y.
                    if leb (b * bsize + o) i && ltb i (b * bsize + o + length cs)
                    then get_or cs x 0
                    else get_or (v (addr_of ip v y)) (i % bsize) 0)
                  r e
          | inr there ↦
              let d : b ≢ i / bsize = ground arith in
              let out : (leb (b * bsize + o) i && ltb i (b * bsize + o + length cs)) ≡ false =
                ground arith in
              ap (λ bytes. get_or bytes (i % bsize) 0) (patched_other (i / bsize) (omega arith) d)
              ∙ rw out refl
        ]

    size_of : (c : ℕ) → c < n → length (patched (addr_of ip v c)) ≡ bsize
    size_of c k = elim (Bool-cases (b == c)) [
      | inl here ↦
          let e : b ≡ c = ground arith in
          ap (λ x. length (patched (addr_of ip v x))) (sym e)
          ∙ ap length patched_here
          ∙ length-write_at cs (v (addr_of ip v b)) o
          ∙ h.sizes b l
      | inr there ↦ let d : b ≢ c = ground arith in ap length (patched_other c k d) ∙ h.sizes c k
    ]

    pub patched-HasBlocks : HasBlocks ip patched n
    patched-HasBlocks = record {
      limit = h.limit;
      mapped = λ c k e. h.mapped c k (sym (addr_of-patched c) ∙ e);
      through = h.through;
      apart = λ c d k m e. h.apart c d k m (sym (addr_of-patched c) ∙ e ∙ addr_of-patched d);
      beside = λ c k e. h.beside c k (sym (addr_of-patched c) ∙ e);
      own = λ c k e. h.own c k (sym (addr_of-patched c) ∙ e);
      own_indirect = h.own_indirect;
      sizes = λ c k. ap (λ x. length (patched x)) (addr_of-patched c) ∙ size_of c k;
    }
