-- ===== src/Fs/Names/Tests.antt =====
-- A path through all layers of the file system.
use cs537pair.Prelude.{
  ℕ, ◌≡◌, refl, false, List, [], ◌∷◌, Option, none, some, ◌==◌, if◌then◌else◌, replicate, map,
}
use cs537pair.Strings.{strncmp}
use cs537pair.Sleeplock.{holdingsleep, initsleeplock, acquiresleep, releasesleep}
use cs537pair.Fs.Path.{Found, walk, skipelem, skip_slashes, span_elem, namex}
use cs537pair.Fs.Bitmap.{View}
use cs537pair.Fs.Inode.{dinode, read_inode, readi, readi_loop, bmap}
use cs537pair.Fs.Names.{FileSystem, namei}
use cs537pair.Fs.Blocks.{write_at}
use cs537pair.Fs.Icache.{ilock, iunlock, Entry, iget, iput}
use cs537pair.Fs.Dir.{dirlookup, lookup, scan}
use cs537pair.Fs.Samples.{sb, file, no_read, no_write, folder}

-- A disk with the root directory, which has inode 5 under the name `a`, and an empty cache but for entry 0.
abbrev root_disk : View
root_disk b =
    if b == 10
    then write_at (replicate 512 0) 64 (dinode (record folder { inum = 1 }))
    else if b == 20
    then write_at (replicate 512 0) 0 (5 ∷ 0 ∷ 97 ∷ [])
    else replicate 512 0

abbrev entry_at : ℕ → ℕ → Entry
entry_at inum ref = record {
  inode = record file { inum = inum; ref = ref; valid = false };
  lock = initsleeplock;
}

abbrev booted : FileSystem (Unit {0})
booted = record {
  cache = entry_at 1 1 ∷ entry_at 0 0 ∷ entry_at 0 0 ∷ [];
  view = root_disk;
  devices = tt;
}

-- What a call returns, with the numbers of the inodes in the cache and their counts.
abbrev summary : Option (Found (FileSystem (Unit {0}))) → Option (Option ℕ × List (ℕ × ℕ))
summary none = none
summary (some (i, name, s)) = some (i, map (λ e. (e.inode.inum, e.inode.ref)) s.cache)

namei_test :
    summary (namei sb no_read no_write 4 0 (47 ∷ 97 ∷ []) (replicate 14 0) booted)
    ≡ some (some 1, (1, 1) ∷ (5, 1) ∷ (0, 0) ∷ [])
unfolding namei namex walk skipelem skip_slashes span_elem iget ilock acquiresleep releasesleep
    holdingsleep iunlock iput strncmp dirlookup lookup scan readi readi_loop bmap read_inode
namei_test = refl
