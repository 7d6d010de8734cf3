-- ===== src/Fs/Inode/OnDisk.antt =====
-- `iupdate` and the read of an inode by `ilock`.
use cs537pair.Prelude.{
  ℕ, zero, suc, ◌+◌, ◌-◌, ◌*◌, ◌/◌, ◌%◌, ◌^◌, ◌<◌, ◌≤◌, ◌≡◌, ◌≢◌, ◌∙◌, refl, ap, ap₂, sym, subst,
  true, false, List, [], ◌∷◌, ◌++◌, none, some, arith, ltb, leb, ◌==◌, ◌&&◌, if◌then◌else◌, get_or,
  length, All, inl, inr, Bool-cases,
}
use cs537pair.Fs.Blocks.{write_at, le16, le32, load16, load32, get_or-write_at}
use cs537pair.Fs.Bitmap.{Super, View, bsize}
use cs537pair.Fs.Inode.{
  Inode, ipb, put_words, get_words, dinode, iblock, iupdate, read_inode, from_bytes,
}

-- The bytes `cs` stand from index `a` on.
abbrev Holds : List ℕ → ℕ → List ℕ → Type 0
Holds b a [] = Unit
Holds b a (c ∷ cs) = (get_or b a 0 ≡ c) × Holds b (a + 1) cs

Holds-of :
    (b : List ℕ) (a : ℕ) (cs : List ℕ)
    → ((i : ℕ) → i < length cs → get_or b (a + i) 0 ≡ get_or cs i 0)
    → Holds b a cs
Holds-of b a [] h = tt
Holds-of b a (c ∷ cs) h = (
  ap (λ k. get_or b k 0) (omega arith) ∙ h 0 (omega arith),
  Holds-of b (a + 1) cs (λ i l. ap (λ k. get_or b k 0) (omega arith) ∙ h (suc i) (omega arith)),
)

write_at-Holds :
    (b : List ℕ) (a : ℕ) (cs : List ℕ) → a + length cs ≤ length b → Holds (write_at b a cs) a cs
write_at-Holds b a cs l = Holds-of (write_at b a cs) a cs λ i k.
    get_or-write_at cs b a (a + i) 0 l
    ∙ (let e : a + i - a ≡ i = omega arith in
        let t : (leb a (a + i) && ltb (a + i) (a + length cs)) ≡ true = ground arith in
        rw (t, e) refl)

Holds-append :
    (b : List ℕ) (a : ℕ) (cs ds : List ℕ)
    → Holds b a (cs ++ ds)
    → Holds b a cs × Holds b (a + length cs) ds
Holds-append b a [] ds h = (tt, subst (λ k. Holds b k ds) (omega arith) h)
Holds-append b a (c ∷ cs) ds h =
    let (p, q) = Holds-append b (a + 1) cs ds h.1 in
    ((h.0, p), subst (λ k. Holds b k ds) (omega arith) q)

load16_lem : (b : List ℕ) (a w : ℕ) → w < 2 ^ 16 → Holds b a (le16 w) → load16 b a ≡ w
load16_lem b a w l h = omega (arith, h.0, h.1.0)

load32_lem : (b : List ℕ) (a w : ℕ) → w < 2 ^ 32 → Holds b a (le32 w) → load32 b a ≡ w
load32_lem b a w l h =
    let e : a + 1 + 1 ≡ a + 2 = omega arith in
    let f : a + 1 + 1 + 1 ≡ a + 3 = omega arith in
    let p = ap (λ k. get_or b k 0) e in
    let q = ap (λ k. get_or b k 0) f in omega (arith, h.0, h.1.0, h.1.1.0, h.1.1.1.0, p, q)

get_words_lem :
    (ws b : List ℕ) (a : ℕ)
    → All (λ w. w < 2 ^ 32) ws
    → Holds b a (put_words ws)
    → get_words (length ws) b a ≡ ws
get_words_lem [] b a l h = refl
get_words_lem (w ∷ ws) b a l h =
    let (p, q) = Holds-append b a (le32 w) (put_words ws) h in
    ap₂ ◌∷◌ (load32_lem b a w l.0 p) (get_words_lem ws b (a + 4) l.1 q)

length-put_words : (ws : List ℕ) → length (put_words ws) ≡ 4 * length ws
length-put_words [] = refl
length-put_words (w ∷ ws) = omega (arith, length-put_words ws)

-- Fields that fit their C types.
pub record Fits (ip : Inode) : Type 0 where
  pub type : ip.type < 2 ^ 16
  pub major : ip.major < 2 ^ 16
  pub minor : ip.minor < 2 ^ 16
  pub nlink : ip.nlink < 2 ^ 16
  pub size : ip.size < 2 ^ 32
  pub addrs : (length ip.addrs ≡ 13) × All (λ w. w < 2 ^ 32) ip.addrs

-- `iq` with what `ip` has on disk.
abbrev pub loaded : Inode → Inode → Inode
loaded ip iq = record iq {
  type = ip.type;
  major = ip.major;
  minor = ip.minor;
  nlink = ip.nlink;
  size = ip.size;
  addrs = ip.addrs;
  valid = true;
}

length-dinode : (ip : Inode) → Fits ip → length (dinode ip) ≡ 64
length-dinode ip f = omega (arith, length-put_words ip.addrs, f.addrs.0)

module _ (ip : Inode) (b : List ℕ) (a : ℕ) (f : Fits ip) (h : Holds b a (dinode ip)) where
  abbrev tail4 : List ℕ
  tail4 = le32 ip.size ++ put_words ip.addrs

  abbrev tail3 : List ℕ
  tail3 = le16 ip.nlink ++ tail4

  abbrev tail2 : List ℕ
  tail2 = le16 ip.minor ++ tail3

  decoded :
      (load16 b a ≡ ip.type)
      × (load16 b (a + 2) ≡ ip.major)
      × (load16 b (a + 4) ≡ ip.minor)
      × (load16 b (a + 6) ≡ ip.nlink)
      × (load32 b (a + 8) ≡ ip.size)
      × (get_words 13 b (a + 12) ≡ ip.addrs)
  decoded =
      let (h0, r0) = Holds-append b a (le16 ip.type) (le16 ip.major ++ tail2) h in
      let (h1, r1) = Holds-append b (a + 2) (le16 ip.major) tail2 r0 in
      let (h2, r2) = Holds-append b (a + 2 + 2) (le16 ip.minor) tail3 r1 in
      let (h3, r3) = Holds-append b (a + 2 + 2 + 2) (le16 ip.nlink) tail4 r2 in
      let (h4, r4) = Holds-append b (a + 2 + 2 + 2 + 2) (le32 ip.size) (put_words ip.addrs) r3 in
      let e4 : a + 2 + 2 ≡ a + 4 = omega arith in
      let e6 : a + 2 + 2 + 2 ≡ a + 6 = omega arith in
      let e8 : a + 2 + 2 + 2 + 2 ≡ a + 8 = omega arith in
      let e12 : a + 2 + 2 + 2 + 2 + 4 ≡ a + 12 = omega arith in
      (
        load16_lem b a ip.type f.type h0,
        load16_lem b (a + 2) ip.major f.major h1,
        ap (load16 b) (sym e4) ∙ load16_lem b (a + 2 + 2) ip.minor f.minor h2,
        ap (load16 b) (sym e6) ∙ load16_lem b (a + 2 + 2 + 2) ip.nlink f.nlink h3,
        ap (load32 b) (sym e8) ∙ load32_lem b (a + 2 + 2 + 2 + 2) ip.size f.size h4,
        ap₂ (λ n k. get_words n b k) (sym f.addrs.0) (sym e12)
            ∙ get_words_lem ip.addrs b (a + 2 + 2 + 2 + 2 + 4) f.addrs.1 r4,
      )

  from_bytes_lem : (iq : Inode) → ip.type ≢ 0 → from_bytes iq b a ≡ some (loaded ip iq)
  from_bytes_lem iq t =
      let (e0, e1, e2, e3, e4, e5) = decoded in
      let z : (ip.type == 0) ≡ false = ground arith in
      rw (e0, z)
        (λ i. some (record iq {
          type = ip.type;
          major = e1 i;
          minor = e2 i;
          nlink = e3 i;
          size = e4 i;
          addrs = e5 i;
          valid = true;
        }))

-- Blocks that agree from index `a` on for 64 bytes give the same inode.
module _ (b c : List ℕ) (a : ℕ)
    (same : (k : ℕ) → k < 64 → get_or b (a + k) 0 ≡ get_or c (a + k) 0) where
  same_at : (k : ℕ) → k < 64 → (x : ℕ) → x ≡ a + k → get_or b x 0 ≡ get_or c x 0
  same_at k l x e = rw e (same k l)

  load16_same : (k : ℕ) → k + 1 < 64 → load16 b (a + k) ≡ load16 c (a + k)
  load16_same k l =
      let p = same_at k (omega arith) (a + k) refl in
      let q = same_at (k + 1) l (a + k + 1) (omega arith) in omega (arith, p, q)

  load32_same : (k : ℕ) → k + 3 < 64 → load32 b (a + k) ≡ load32 c (a + k)
  load32_same k l =
      let p = same_at k (omega arith) (a + k) refl in
      let q = same_at (k + 1) (omega arith) (a + k + 1) (omega arith) in
      let r = same_at (k + 2) (omega arith) (a + k + 2) (omega arith) in
      let s = same_at (k + 3) l (a + k + 3) (omega arith) in omega (arith, p, q, r, s)

  get_words_same : (n k x : ℕ) → x ≡ a + k → k + 4 * n ≤ 64 → get_words n b x ≡ get_words n c x
  get_words_same zero k x e l = refl
  get_words_same (suc n) k x e l =
      ap₂ ◌∷◌ (ap (load32 b) e ∙ load32_same k (omega arith) ∙ ap (load32 c) (sym e))
        (get_words_same n (k + 4) (x + 4) (omega arith) (omega arith))

  from_bytes_same : (iq : Inode) → from_bytes iq b a ≡ from_bytes iq c a
  from_bytes_same iq =
      let z : load16 b a ≡ load16 c a =
        ap (load16 b) (omega arith) ∙ load16_same 0 (omega arith) ∙ ap (load16 c) (omega arith) in
      rw z (
        ap (λ o. if load16 c a == 0 then none else o)
          (λ i. some (record iq {
            type = load16 c a;
            major = load16_same 2 (omega arith) i;
            minor = load16_same 4 (omega arith) i;
            nlink = load16_same 6 (omega arith) i;
            size = load32_same 8 (omega arith) i;
            addrs = get_words_same 13 12 (a + 12) refl (omega arith) i;
            valid = true;
          })))

module _ (sb : Super) where
  -- Inodes of one number: what `iupdate` writes is what `ilock` reads. Of another number: an `iupdate`
  -- changes nothing that `ilock` reads.
  pub iupdate_lem :
      (ip iq : Inode) (v : View)
      → Fits ip
      → ip.type ≢ 0
      → length (v (iblock sb ip.inum)) ≡ bsize
      → (iq.inum ≡ ip.inum → read_inode sb iq (iupdate sb ip v) ≡ some (loaded ip iq))
        × (iq.inum ≢ ip.inum → read_inode sb iq (iupdate sb ip v) ≡ read_inode sb iq v)
  unfolding iupdate read_inode
  iupdate_lem ip iq v f t l = (written, kept)
    where
      at : ℕ
      at = ip.inum % ipb * 64

      now : List ℕ
      now = write_at (v (iblock sb ip.inum)) (ip.inum % ipb * 64) (dinode ip)

      room : ip.inum % ipb * 64 + length (dinode ip) ≤ length (v (iblock sb ip.inum))
      room = omega (arith, length-dinode ip f, l)

      written : iq.inum ≡ ip.inum → read_inode sb iq (iupdate sb ip v) ≡ some (loaded ip iq)
      written e =
          let h : (iblock sb ip.inum == iblock sb iq.inum) ≡ true = ground arith in
          ap₂ (from_bytes iq) (rw h refl) (ap (λ n. n % ipb * 64) e)
          ∙ from_bytes_lem ip now at f
              (write_at-Holds (v (iblock sb ip.inum)) (ip.inum % ipb * 64) (dinode ip) room) iq t

      kept : iq.inum ≢ ip.inum → read_inode sb iq (iupdate sb ip v) ≡ read_inode sb iq v
      kept d = elim (Bool-cases (iblock sb ip.inum == iblock sb iq.inum)) [
        | inr other ↦ rw other refl
        | inl here ↦
            let e : ip.inum / ipb ≡ iq.inum / ipb = ground arith in
            let g : iblock sb ip.inum ≡ iblock sb iq.inum = ground arith in
            rw here (
              from_bytes_same now (v (iblock sb iq.inum)) (iq.inum % ipb * 64)
                (λ k m.
                  get_or-write_at (dinode ip) (v (iblock sb ip.inum)) at (iq.inum % ipb * 64 + k) 0
                    room
                  ∙ (let out : (leb (ip.inum % ipb * 64) (iq.inum % ipb * 64 + k)
                            && ltb (iq.inum % ipb * 64 + k)
                                (ip.inum % ipb * 64 + length (dinode ip)))
                          ≡ false =
                        ground (arith, length-dinode ip f) in
                      rw out (ap (λ x. get_or (v x) (iq.inum % ipb * 64 + k) 0) g)))
                iq)
      ]
