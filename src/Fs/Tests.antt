-- ===== src/Fs/Tests.antt =====
-- The layers of the file system on small inputs.
use cs537pair.Prelude.{
  ℕ, zero, suc, ◌^◌, ◌<◌, ◌≤◌, ◌≡◌, ◌≢◌, ◌∙◌, refl, ap, sym, subst, true, false, ◌&&◌, List, [],
  ◌∷◌, Option, some, arith, ltb, leb, get_or, length, replicate, get_elem?, All,
}
use cs537pair.Prelude.Int.{pos}
use cs537pair.Strings.Compare.{cut, equal}
use cs537pair.Sleeplock.{initsleeplock, acquiresleep, releasesleep}
use cs537pair.Fs.Bitmap.{View, balloc, bblock, test_bit}
use cs537pair.Fs.Bitmap.Bits.{IsMap}
use cs537pair.Fs.Bitmap.Alloc.{used, IsSound, Allocated, balloc_lem}
use cs537pair.Fs.Inode.{Inode, iupdate, read_inode, readi, readi_loop, bmap, writei}
use cs537pair.Fs.Inode.OnDisk.{Fits, loaded, iupdate_lem}
use cs537pair.Fs.Inode.Content.{addr_of, content, HasBlocks}
use cs537pair.Fs.Inode.RoundTrip.{writei-readi}
use cs537pair.Fs.Icache.{Entry, Icache, iget, iput}
use cs537pair.Fs.Icache.Steps.{put, Step-IsUnique}
use cs537pair.Fs.Icache.Unique.{IsUnique, Gets, iget_lem}
use cs537pair.Fs.Dir.{lookup, add_entry, scan}
use cs537pair.Fs.Dir.Entries.{free_slot}
use cs537pair.Fs.Dir.Entries.Link.{IsDir, add_entry-lookup}
use cs537pair.Fs.Samples.{sb, map_bytes-IsMap, disk, file, no_read, no_write, folder}

-- The map.
disk-IsSound : IsSound sb disk
unfolding test_bit
disk-IsSound = record {
  maps = λ b l. subst (λ x. IsMap (disk x)) (at b l) map_bytes-IsMap;
  own = λ b c l k e. let w : b ≡ 2 = e ∙ sym (at c k) in ap (λ x. used sb x disk) w ∙ two;
}
  where
    at : (b : ℕ) → b < 64 → 2 ≡ bblock sb b
    at b l = omega arith

    two : used sb 2 disk ≡ true
    two = refl

balloc_lem_example : Allocated sb disk (balloc sb disk)
balloc_lem_example = balloc_lem sb disk disk-IsSound

-- A file with one block.

file-Fits : Fits file
file-Fits = record {
  type = omega arith;
  major = omega arith;
  minor = omega arith;
  nlink = omega arith;
  size = omega arith;
  addrs = (refl, (omega arith, zeros 12));
}
  where
    zeros : (n : ℕ) → All (λ w. w < 2 ^ 32) (replicate n 0)
    zeros zero = tt
    zeros (suc n) = (omega arith, zeros n)

iupdate_lem_example :
    (file.inum ≡ file.inum → read_inode sb file (iupdate sb file disk) ≡ some (loaded file file))
    × (file.inum ≢ file.inum → read_inode sb file (iupdate sb file disk) ≡ read_inode sb file disk)
iupdate_lem_example = iupdate_lem sb file file disk file-Fits (λ e. omega (arith, e)) refl

-- Inodes whose one block is block 20.
with_block-HasBlocks :
    (ip : Inode)
    → get_or ip.addrs 0 0 ≡ 20
    → get_or ip.addrs 12 0 ≡ 0
    → ip.inum < 64
    → HasBlocks sb ip disk 1
with_block-HasBlocks ip a z l = record {
  limit = omega arith;
  mapped = λ b k e. omega (arith, at b k, e);
  through = λ k e. absurd (omega arith);
  apart = λ b c k m e. omega arith;
  beside = λ b k e. omega (arith, at b k, e, z);
  own = λ b k e. omega (arith, at b k, e, l);
  own_indirect = λ e. omega (arith, e, z);
  sizes = λ b k. ap (λ x. length (disk x)) (at b k);
}
  where
    at : (b : ℕ) → b < 1 → addr_of ip disk b ≡ 20
    at zero k = a
    at (suc b) k = absurd (omega arith)

-- Three bytes at the end of the file.
writei-readi_example :
    (ip : Inode) × (v : View) × (writei sb no_read no_write 100 (7 ∷ 8 ∷ 9 ∷ []) file disk tt
      ≡ some (pos 3, ip, v, tt))
    × (readi sb no_read no_write 100 3 ip v tt ≡ some (pos 3, 7 ∷ 8 ∷ 9 ∷ [], ip, v, tt))
    × HasBlocks sb ip v 1
    × ((ip.type ≡ 2) × (ip.size ≡ 103))
    × ((i : ℕ) → i < 512 → (leb 100 i && ltb i 103) ≡ false → content ip v i ≡ content file disk i)
writei-readi_example =
    writei-readi sb no_read no_write 100 (7 ∷ 8 ∷ 9 ∷ []) file disk 1 tt
      (with_block-HasBlocks file refl refl (omega arith)) (λ e. omega (arith, e)) (omega arith)
      (omega arith)

-- The cache of inodes.
abbrev cache : Icache
cache =
    record { inode = file; lock = initsleeplock }
    ∷ record { inode = record file { ref = 0 }; lock = initsleeplock }
    ∷ []

cache-IsUnique : IsUnique cache
cache-IsUnique i j a b p q l m d n = first i a p l ∙ sym (first j b q m)
  where
    first : (i : ℕ) (a : Entry) → get_elem? cache i ≡ some a → 0 < a.inode.ref → i ≡ 0
    first zero a p l = refl
    first (suc zero) a p l = absurd (ground (arith, p, l))
    first (suc (suc i)) a p l = absurd (cc)

iget_lem_example : Gets 1 5 cache (iget 1 5 cache)
iget_lem_example = iget_lem 1 5 cache cache-IsUnique

-- The last reference to the inode is put back; it has a link, so the disk keeps it.
abbrev emptied : Icache
emptied =
    record { inode = record file { ref = 0 }; lock = initsleeplock }
    ∷ record { inode = record file { ref = 0 }; lock = initsleeplock }
    ∷ []

Step-IsUnique_example : IsUnique emptied
unfolding iput acquiresleep releasesleep
Step-IsUnique_example = Step-IsUnique sb cache emptied (put 4 0 disk disk refl) cache-IsUnique

-- A directory with one entry, which is not in use.

abbrev name_a : List ℕ
name_a = 97 ∷ replicate 13 0

add_entry-lookup_example :
    (off : ℕ) × (dp : Inode) × (v : View) × (add_entry sb no_read no_write
        (replicate 16 0)
        name_a
        5
        folder
        disk
        tt
      ≡ some (dp, v, tt))
    × IsDir sb dp v 1
    × (lookup sb no_read no_write name_a dp v tt ≡ some (some (5, off), dp, v, tt))
    × ((other : List ℕ) (r : Option (ℕ × ℕ))
        → 14 ≤ length other
        → equal (cut 14 other) (cut 14 name_a) ≡ false
        → lookup sb no_read no_write other folder disk tt ≡ some (r, folder, disk, tt)
        → lookup sb no_read no_write other dp v tt ≡ some (r, dp, v, tt))
unfolding lookup scan readi readi_loop bmap free_slot
add_entry-lookup_example =
    add_entry-lookup sb no_read no_write (replicate 16 0) name_a 5 folder disk 1 tt refl
      (omega arith) (λ e. omega (arith, e))
      (record {
        blocks = with_block-HasBlocks folder refl refl (omega arith);
        kind = refl;
        whole = omega arith;
        within = omega arith;
      })
      (omega arith) refl
