-- ===== src/Fs/Icache.antt =====
-- p5/xv6-public/fs.c: the cache of inodes, and the release of an inode's blocks.
-- A `struct inode *` is an index into `icache.inode`, and `pid` the process that calls. `icache.lock` makes
-- each change of a count atomic. `none` is a panic, a wait for a sleeping lock that is held, or a
-- count that would go below 0.
pub mod Steps
pub mod Unique
use cs537pair.Prelude.{
  ℕ, zero, suc, ◌+◌, ◌-◌, ◌*◌, ◌/◌, ◌%◌, Bool, true, false, not, ◌&&◌, ◌||◌, List, [], ◌∷◌, Option,
  none, some, ltb, leb, ◌==◌, if◌then◌else◌, get_or, set, find_index, modify, get_elem?, replicate,
  ◌>>=◌,
}
use cs537pair.Sleeplock.{Sleeplock, acquiresleep, releasesleep, holdingsleep}
use cs537pair.Fs.Blocks.{write_at, le16, load16, load32}
use cs537pair.Fs.Bitmap.{Super, View, put_block, bfree}
use cs537pair.Fs.Inode.{Inode, ndirect, nindirect, ipb, iblock, iupdate, read_inode}

-- An entry of `icache.inode` with its lock.
pub record Entry : Type 0 where
  pub inode : Inode
  pub lock : Sleeplock

abbrev pub Icache : Type 0
Icache = List Entry

-- `ip->ref > 0 && ip->dev == dev && ip->inum == inum`
abbrev pub is_for : ℕ → ℕ → Entry → Bool
is_for dev inum e = ltb 0 e.inode.ref && ((e.inode.dev == dev) && (e.inode.inum == inum))

abbrev pub is_empty : Entry → Bool
is_empty e = e.inode.ref == 0

abbrev pub recycle : ℕ → ℕ → Entry → Entry
recycle dev inum e = record e {
  inode = record e.inode { dev = dev; inum = inum; ref = 1; valid = false };
}

abbrev pub take_ref : Entry → Entry
take_ref e = record e { inode = record e.inode { ref = e.inode.ref + 1 } }

abbrev pub put_ref : Entry → Entry
put_ref e = record e { inode = record e.inode { ref = e.inode.ref - 1 } }

abbrev pub iget_new : ℕ → ℕ → Icache → Option (ℕ × Icache)
iget_new dev inum c = find_index is_empty c >>= λ i. some (i, modify c i (recycle dev inum))

abbrev pub iget_or : ℕ → ℕ → Icache → Option ℕ → Option (ℕ × Icache)
iget_or dev inum c none = iget_new dev inum c
iget_or dev inum c (some i) = some (i, modify c i take_ref)

unfoldable pub iget : ℕ → ℕ → Icache → Option (ℕ × Icache)
iget dev inum c = iget_or dev inum c (find_index (is_for dev inum) c)

unfoldable pub idup : ℕ → Icache → Icache
idup i c = modify c i take_ref

unfoldable pub iunlock : ℕ → ℕ → Icache → Option Icache
iunlock pid i c = get_elem? c i >>= λ e.
    if not (holdingsleep pid e.lock) || ltb e.inode.ref 1
    then none
    else some (modify c i (λ x. record x { lock = releasesleep x.lock }))

-- `struct stat`
pub record Stat : Type 0 where
  pub dev : ℕ
  pub ino : ℕ
  pub type : ℕ
  pub nlink : ℕ
  pub size : ℕ

abbrev pub stati : Inode → Stat
stati ip = record { dev = ip.dev; ino = ip.inum; type = ip.type; nlink = ip.nlink; size = ip.size }

module _ (sb : Super) where
  unfoldable pub ilock : ℕ → ℕ → Icache → View → Option Icache
  ilock pid i c v = get_elem? c i >>= λ e.
      if ltb e.inode.ref 1
      then none
      else (acquiresleep pid e.lock >>= λ lk.
          if e.inode.valid
          then some (set c i (record { inode = e.inode; lock = lk }))
          else (read_inode sb e.inode v >>= λ ip.
              some (set c i (record { inode = ip; lock = lk }))))

  -- `bfree` for entry `i` of `addrs`, which becomes 0.
  abbrev pub free_entry : ℕ → Inode → View → Option (Inode × View)
  free_entry i ip v =
      if get_or ip.addrs i 0 == 0
      then some (ip, v)
      else (bfree sb (get_or ip.addrs i 0) v >>= λ v'.
          some (record ip { addrs = set ip.addrs i 0 }, v'))

  -- The first loop of `itrunc`, with `left` entries of `addrs` from entry `i` on.
  unfoldable pub free_direct : ℕ → ℕ → Inode → View → Option (Inode × View)
  free_direct zero i ip v = some (ip, v)
  free_direct (suc left) i ip v = free_entry i ip v >>= λ r. free_direct left (i + 1) r.0 r.1

  -- The second one, with `left` entries of the indirect block `a` from entry `j` on.
  unfoldable pub free_indirect : ℕ → ℕ → List ℕ → View → Option View
  free_indirect zero j a v = some v
  free_indirect (suc left) j a v =
      (if load32 a (4 * j) == 0 then some v else bfree sb (load32 a (4 * j)) v) >>= λ v'.
      free_indirect left (j + 1) a v'

  -- The indirect block, and what it lists.
  abbrev pub free_rest : Inode → View → Option (Inode × View)
  free_rest ip v =
      if get_or ip.addrs ndirect 0 == 0
      then some (ip, v)
      else (free_indirect nindirect 0 (v (get_or ip.addrs ndirect 0)) v >>= free_entry ndirect ip)

  unfoldable pub itrunc : Inode → View → Option (Inode × View)
  itrunc ip v = free_direct ndirect 0 ip v >>= λ r. free_rest r.0 r.1 >>= λ q.
      some (record q.0 { size = 0 }, iupdate sb (record q.0 { size = 0 }) q.1)

  -- The release on disk of an inode without links, in `iput`.
  abbrev pub free_inode : Inode → View → Option (Inode × View)
  free_inode ip v = itrunc ip v >>= λ r.
      some (record r.0 { type = 0; valid = false }, iupdate sb (record r.0 { type = 0 }) r.1)

  unfoldable pub iput : ℕ → ℕ → Icache → View → Option (Icache × View)
  iput pid i c v = get_elem? c i >>= λ e. acquiresleep pid e.lock >>= λ lk.
      (if e.inode.valid && (e.inode.nlink == 0) && (e.inode.ref == 1)
        then free_inode e.inode v
        else some (e.inode, v))
      >>= λ r.
          if r.0.ref == 0
          then none
          else some (set c i (put_ref (record { inode = r.0; lock = releasesleep lk })), r.1)

  abbrev pub iunlockput : ℕ → ℕ → Icache → View → Option (Icache × View)
  iunlockput pid i c v = iunlock pid i c >>= λ c'. iput pid i c' v

  -- The `struct dinode` at index `a` cleared, and given its type.
  abbrev pub format : ℕ → ℕ → List ℕ → List ℕ
  format type a bytes = write_at (write_at bytes a (replicate 64 0)) a (le16 type)

  -- The loop of `ialloc`, with `left` inodes from `inum` on; it returns the number and the blocks.
  unfoldable pub ialloc_loop : ℕ → ℕ → ℕ → View → Option (ℕ × View)
  ialloc_loop type zero inum v = none
  ialloc_loop type (suc left) inum v =
      let bytes = v (iblock sb inum) in
      let rest = ialloc_loop type left (inum + 1) v in
      if load16 bytes (inum % ipb * 64) == 0
      then some (inum, put_block (iblock sb inum) (format type (inum % ipb * 64) bytes) v)
      else rest

  unfoldable pub ialloc : ℕ → ℕ → Icache → View → Option (ℕ × Icache × View)
  ialloc dev type c v =
      ialloc_loop type (sb.ninodes - 1) 1 v >>= λ r. iget dev r.0 c >>= λ q. some (q.0, q.1, r.1)
