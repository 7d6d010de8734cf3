-- ===== src/Fs/Inode.antt =====
-- p5/xv6-public/fs.c: the contents of an inode, and its copy on disk.
-- A view gives the bytes of each block as the buffer cache has them, see Bitmap. The caller holds the
-- lock of the inode. `none` is a panic.
pub mod Content
pub mod OnDisk
pub mod RoundTrip
use cs537pair.Prelude.{
  ℕ, zero, suc, ◌+◌, ◌-◌, ◌*◌, ◌/◌, ◌%◌, ◌^◌, Bool, true, false, not, ◌&&◌, ◌||◌, List, [], ◌∷◌,
  ◌++◌, Option, none, some, ltb, leb, ◌==◌, if◌then◌else◌, get_or, set, length, take, drop, ◌>>=◌,
}
use cs537pair.Prelude.Int.{ℤ, pos, negsuc}
use cs537pair.Fs.Blocks.{write_at, read_at, le16, le32, load16, load32}
use cs537pair.Fs.Bitmap.{Super, View, put_block, bsize, balloc, bfree}

abbrev pub ndirect : ℕ
ndirect = 12

abbrev pub nindirect : ℕ
nindirect = 128

abbrev pub maxfile : ℕ
maxfile = ndirect + nindirect

abbrev pub ipb : ℕ
ipb = 8

abbrev pub t_dir : ℕ
t_dir = 1

abbrev pub t_dev : ℕ
t_dev = 3

abbrev pub u32 : ℕ → ℕ
u32 n = n % 2 ^ 32

-- `struct inode` without its lock. A `short` is its pattern below 2 ^ 16.
pub record Inode : Type 0 where
  pub dev : ℕ
  pub inum : ℕ
  pub ref : ℕ
  pub valid : Bool
  pub type : ℕ
  pub major : ℕ
  pub minor : ℕ
  pub nlink : ℕ
  pub size : ℕ
  pub addrs : List ℕ

-- The words of `addrs`, as bytes and back.
abbrev pub put_words : List ℕ → List ℕ
put_words [] = []
put_words (w ∷ ws) = le32 w ++ put_words ws

abbrev pub get_words : ℕ → List ℕ → ℕ → List ℕ
get_words zero bytes a = []
get_words (suc n) bytes a = load32 bytes a ∷ get_words n bytes (a + 4)

-- `struct dinode`, 64 bytes.
abbrev pub dinode : Inode → List ℕ
dinode ip =
    le16 ip.type
    ++ (le16 ip.major ++ (le16 ip.minor ++ (le16 ip.nlink ++ (le32 ip.size ++ put_words ip.addrs))))

-- The inode with its `struct dinode` from index `a` on.
abbrev pub from_bytes : Inode → List ℕ → ℕ → Option Inode
from_bytes ip b a =
    if load16 b a == 0
    then none
    else some (record ip {
      type = load16 b a;
      major = load16 b (a + 2);
      minor = load16 b (a + 4);
      nlink = load16 b (a + 6);
      size = load32 b (a + 8);
      addrs = get_words 13 b (a + 12);
      valid = true;
    })

-- `min(n - tot, BSIZE - off%BSIZE)`, with `left` bytes to go.
abbrev pub piece : ℕ → ℕ → ℕ
piece left off = if ltb left (bsize - off % bsize) then left else bsize - off % bsize

module _ (sb : Super) where
  -- `IBLOCK`
  abbrev pub iblock : ℕ → ℕ
  iblock i = i / ipb + sb.inodestart

  unfoldable pub iupdate : Inode → View → View
  iupdate ip v =
      put_block (iblock ip.inum) (write_at (v (iblock ip.inum)) (ip.inum % ipb * 64) (dinode ip)) v

  -- What `ilock` reads where the inode is not valid; type 0 is its panic.
  unfoldable pub read_inode : Inode → View → Option Inode
  read_inode ip v = from_bytes ip (v (iblock ip.inum)) (ip.inum % ipb * 64)

  -- The address in entry `i` of `addrs`, which is allocated if need be.
  abbrev pub direct : ℕ → Inode → View → Option (ℕ × Inode × View)
  direct i ip v =
      if get_or ip.addrs i 0 == 0
      then (balloc sb v >>= λ r. some (r.0, record ip { addrs = set ip.addrs i r.0 }, r.1))
      else some (get_or ip.addrs i 0, ip, v)

  -- The address in entry `n` of the indirect block `addr`, which is allocated if need be.
  abbrev pub indirect : ℕ → ℕ → View → Option (ℕ × View)
  indirect addr n v =
      if load32 (v addr) (4 * n) == 0
      then (balloc sb v >>= λ r.
          some (r.0, put_block addr (write_at (r.1 addr) (4 * n) (le32 r.0)) r.1))
      else some (load32 (v addr) (4 * n), v)

  unfoldable pub bmap : ℕ → Inode → View → Option (ℕ × Inode × View)
  bmap bn ip v =
      if ltb bn ndirect
      then direct bn ip v
      else if ltb (bn - ndirect) nindirect
      then (direct ndirect ip v >>= λ d.
          indirect d.0 (bn - ndirect) d.2 >>= λ r. some (r.0, d.1, r.1))
      else none

  -- The loop of `readi`, with fuel for its rounds.
  unfoldable pub readi_loop : ℕ → ℕ → ℕ → Inode → View → Option (List ℕ × Inode × View)
  readi_loop zero off left ip v = none
  readi_loop (suc fuel) off left ip v =
      let m = piece left off in
      let round = bmap (off / bsize) ip v >>= λ r.
      readi_loop fuel (off + m) (left - m) r.1 r.2 >>= λ q.
      some (read_at (r.2 r.0) (off % bsize) m ++ q.0, q.1, q.2) in
      if left == 0 then some ([], ip, v) else round

  -- The loop of `writei`; it returns the offset behind the bytes.
  unfoldable pub writei_loop : ℕ → ℕ → List ℕ → Inode → View → Option (ℕ × Inode × View)
  writei_loop zero off src ip v = none
  writei_loop (suc fuel) off src ip v =
      let m = piece (length src) off in
      let round = bmap (off / bsize) ip v >>= λ r.
      writei_loop fuel (off + m) (drop m src) r.1
        (put_block r.0 (write_at (r.2 r.0) (off % bsize) (take m src)) r.2) in
      if length src == 0 then some (off, ip, v) else round

  module _ {S : Type 0} (dev_read : Inode → ℕ → S → Option (ℤ × List ℕ × S))
      (dev_write : Inode → List ℕ → S → Option (ℤ × S)) where
    -- `readi`: its result, the bytes read, and the state. `S` is the state of the devices; a device
    -- without a driver is for `dev_read` to refuse. A round reads at least one byte.
    unfoldable pub readi : ℕ → ℕ → Inode → View → S → Option (ℤ × List ℕ × Inode × View × S)
    readi off n ip v s =
        let n' = if ltb ip.size (u32 (off + n)) then ip.size - off else n in
        if ip.type == t_dev
        then (dev_read ip n s >>= λ r. some (r.0, r.1, ip, v, r.2))
        else if ltb ip.size off || ltb (u32 (off + n)) off
        then some (negsuc 0, [], ip, v, s)
        else (readi_loop (suc n') off n' ip v >>= λ r. some (pos n', r.0, r.1, r.2, s))

    -- The end of `writei`: a file that has grown is written back.
    abbrev pub grow : ℕ → ℕ → Inode → View → Inode × View
    grow n off ip v =
        if not (n == 0) && ltb ip.size off
        then (record ip { size = off }, iupdate (record ip { size = off }) v)
        else (ip, v)

    unfoldable pub writei : ℕ → List ℕ → Inode → View → S → Option (ℤ × Inode × View × S)
    writei off src ip v s =
        let n = length src in
        if ip.type == t_dev
        then (dev_write ip src s >>= λ r. some (r.0, ip, v, r.1))
        else if ltb ip.size off || ltb (u32 (off + n)) off
        then some (negsuc 0, ip, v, s)
        else if ltb (maxfile * bsize) (u32 (off + n))
        then some (negsuc 0, ip, v, s)
        else (writei_loop (suc n) off src ip v >>= λ r.
            let (ip', v') = grow n r.0 r.1 r.2 in some (pos n, ip', v', s))
