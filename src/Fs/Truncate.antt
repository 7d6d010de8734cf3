-- ===== src/Fs/Truncate.antt =====
-- `itrunc`: which blocks it frees.
pub mod Free
pub mod Loops
mod Tests
use cs537pair.Prelude.{
  ℕ, zero, suc, ◌+◌, ◌*◌, ◌%◌, ◌<◌, ◌≤◌, ◌≡◌, ◌≢◌, ◌∙◌, refl, ap, sym, Bool, true, false, List, [],
  ◌∷◌, ◌++◌, Option, none, some, arith, ◌==◌, if◌then◌else◌, ◌>>=◌, >>=-eq-some, inl, inr, ◌⊎◌,
  Bool-cases, Option-cases, subst, All, IsFresh, IsDistinct, get_or, set, ==_of_ne, ==_self,
}
use cs537pair.Fs.Blocks.{load32, write_at}
use cs537pair.Fs.Bitmap.{Super, View, put_block, bblock, bfree}
use cs537pair.Fs.Bitmap.Alloc.{used, IsSound}
use cs537pair.Fs.Inode.{Inode, ndirect, nindirect, ipb, iblock, iupdate, dinode}
use cs537pair.Fs.Icache.{free_entry, free_direct, free_indirect, free_rest, itrunc}
use cs537pair.Fs.Truncate.Free.{
  IsOutside, IsData, FreesAll, free_all, free_all-append, free_all_lem,
}
use cs537pair.Fs.Truncate.Loops.{blocks_of, direct_of, indirect_of, live, trunc_blocks}

All-prefix : (P : ℕ → Type 0) (xs ys : List ℕ) → All P (xs ++ ys) → All P xs
All-prefix P [] ys a = tt
All-prefix P (x ∷ xs) ys (p, a) = (p, All-prefix P xs ys a)

All-suffix : (P : ℕ → Type 0) (xs ys : List ℕ) → All P (xs ++ ys) → All P ys
All-suffix P [] ys a = a
All-suffix P (x ∷ xs) ys (p, a) = All-suffix P xs ys a

IsDistinct-prefix : (xs ys : List ℕ) → IsDistinct (xs ++ ys) → IsDistinct xs
IsDistinct-prefix [] ys d = tt
IsDistinct-prefix (x ∷ xs) ys (f, d) = (All-prefix _ xs ys f, IsDistinct-prefix xs ys d)

module _ (sb : Super) where
  -- What is left of an inode and the disk.
  pub record Truncated (ip : Inode) (v : View) (ip' : Inode) (v' : View) : Type 0 where
    pub size : ip'.size ≡ 0
    pub addrs : (i : ℕ) → i ≤ ndirect → get_or ip'.addrs i 0 ≡ 0
    pub freed : All (λ b. used sb b v' ≡ false) (blocks_of ip v)
    pub others : (m : ℕ) → m < sb.size → IsFresh m (blocks_of ip v) → used sb m v' ≡ used sb m v
    pub stored :
        v' (iblock sb ip.inum) ≡ write_at (v (iblock sb ip.inum)) (ip.inum % ipb * 64) (dinode ip')
    pub outside : (x : ℕ) → IsOutside sb x → x ≢ iblock sb ip.inum → v' x ≡ v x

  -- Storing an inode that is not in the map leaves the map as it is.
  used-iupdate :
      (ip : Inode) (v : View) (m : ℕ)
      → IsOutside sb (iblock sb ip.inum)
      → m < sb.size
      → used sb m (iupdate sb ip v) ≡ used sb m v
  unfolding iupdate
  used-iupdate ip v m o l =
      let w : (iblock sb ip.inum == bblock sb m) ≡ false =
        ==_of_ne (iblock sb ip.inum) (bblock sb m) (o m l) in
      rw w refl

  still_freed :
      (ip : Inode) (v1 v : View)
      → IsOutside sb (iblock sb ip.inum)
      → (bs : List ℕ) → All (IsData sb v) bs
      → All (λ b. used sb b v1 ≡ false) bs
      → All (λ b. used sb b (iupdate sb ip v1) ≡ false) bs
  still_freed ip v1 v o [] a f = tt
  still_freed ip v1 v o (b ∷ bs) (p, a) (e, f) =
      (used-iupdate ip v1 b o p.0 ∙ e, still_freed ip v1 v o bs a f)

  -- On a sound map, for an inode all of whose blocks are in use, no block twice and none of the map, and which is
  -- not stored in the map: `itrunc` does not panic; the inode has no block and no byte left; its blocks are free,
  -- the indirect block and those it lists with them; no other block changes hands; the inode is stored, and
  -- but for it and the map the disk is as it was.
  pub itrunc_lem :
      (ip : Inode) (v : View)
      → IsSound sb v
      → IsDistinct (blocks_of ip v)
      → All (IsData sb v) (blocks_of ip v)
      → IsOutside sb (iblock sb ip.inum)
      → (ip' : Inode) × (v' : View) × (itrunc sb ip v ≡ some (ip', v')) × Truncated ip v ip' v'
  unfolding iupdate
  itrunc_lem ip v s d a o =
      let ia = get_or ip.addrs ndirect 0 in
      let rest = indirect_of ia (v ia) in
      let (v1, e, f) = free_all_lem sb (blocks_of ip v) v s d a in
      let (v2, e2, f2) =
        free_all_lem sb (direct_of ip) v s (IsDistinct-prefix (direct_of ip) rest d)
          (All-prefix _ (direct_of ip) rest a) in
      let out : ia ≢ 0 → IsOutside sb ia = λ n.
        (let z : (ia == 0) ≡ false = ==_of_ne ia 0 n in
          let b = All-suffix _ (direct_of ip) rest a in
          let lists = live nindirect 0 (λ j. load32 (v ia) (4 * j)) in
          (All-suffix (IsData sb v) lists (ia ∷ []) (rw z at b)).0.2) in
      let (cs, t, zeros) =
        trunc_blocks sb ip v v1
          (λ w q n. let same : w ≡ v2 = cc in ap (λ x. x ia) same ∙ f2.outside ia (out n)) e in
      let ip' : Inode = record ip { addrs = cs; size = 0 } in
      let self : (iblock sb ip.inum == iblock sb ip.inum) ≡ true = ==_self (iblock sb ip.inum) in
      (
        ip',
        iupdate sb ip' v1,
        t,
        record {
          size = refl;
          addrs = zeros;
          freed = still_freed ip' v1 v o (blocks_of ip v) a f.freed;
          others = λ m l q. used-iupdate ip' v1 m o l ∙ f.others m l q;
          stored = rw self (
              ap (λ x. write_at x (ip.inum % ipb * 64) (dinode ip'))
                (f.outside (iblock sb ip.inum) o));
          outside = λ x p n.
              let w : (iblock sb ip.inum == x) ≡ false =
                ==_of_ne (iblock sb ip.inum) x (λ q. n (sym q)) in
              rw w (f.outside x p);
        },
      )
