-- ===== src/Fs/Names.antt =====
-- p5/xv6-public/fs.c: `namei` and `nameiparent`, with the cache of inodes and the directories below `namex`.
mod Tests
use cs537pair.Prelude.{ℕ, Bool, true, false, List, Option, none, some, ◌==◌, get_elem?, ◌>>=◌}
use cs537pair.Prelude.Int.{ℤ}
use cs537pair.Fs.Path.{Inodes, Found, namex}
use cs537pair.Fs.Bitmap.{Super, View}
use cs537pair.Fs.Inode.{Inode, t_dir}
use cs537pair.Fs.Icache.{Entry, Icache, iget, idup, ilock, iunlock, iput}
use cs537pair.Fs.Dir.{dirlookup}

abbrev pub rootdev : ℕ
rootdev = 1

abbrev pub rootino : ℕ
rootino = 1

-- The cache of inodes, the blocks, and the state of the devices.
pub record FileSystem (S : Type 0) : Type 0 where
  pub cache : Icache
  pub view : View
  pub devices : S

-- `ip->type == T_DIR`
abbrev pub is_dir_entry : Option Entry → Bool
is_dir_entry none = false
is_dir_entry (some e) = e.inode.type == t_dir

-- The inode in what `dirlookup` finds; `namex` passes no pointer for the offset.
abbrev pub inode_of : Option (ℕ × ℕ) → Option ℕ
inode_of none = none
inode_of (some (i, off)) = some i

module _ (sb : Super) {S : Type 0} (dev_read : Inode → ℕ → S → Option (ℤ × List ℕ × S))
    (dev_write : Inode → List ℕ → S → Option (ℤ × S)) (pid : ℕ) where
  -- The calls of `namex`, by process `pid`.
  abbrev pub inodes : Inodes (FileSystem S)
  inodes = record {
    iget_root = λ s. iget rootdev rootino s.cache >>= λ r. some (r.0, record s { cache = r.1 });
    idup = λ i s. some (record s { cache = idup i s.cache });
    ilock = λ i s. ilock sb pid i s.cache s.view >>= λ c. some (record s { cache = c });
    iunlock = λ i s. iunlock pid i s.cache >>= λ c. some (record s { cache = c });
    iput = λ i s. iput sb pid i s.cache s.view >>= λ r. some (record s { cache = r.0; view = r.1 });
    is_dir = λ i s. is_dir_entry (get_elem? s.cache i);
    dirlookup = λ i name s. dirlookup sb dev_read dev_write i name s.cache s.view s.devices >>= λ r.
        some (inode_of r.0, record { cache = r.1; view = r.2; devices = r.3 });
  }

  -- The buffer for names is on the stack and not initialised.
  unfoldable pub namei : ℕ → List ℕ → List ℕ → FileSystem S → Option (Found (FileSystem S))
  namei cwd path name s = namex inodes false cwd path name s

  unfoldable pub nameiparent : ℕ → List ℕ → List ℕ → FileSystem S → Option (Found (FileSystem S))
  nameiparent cwd path name s = namex inodes true cwd path name s
