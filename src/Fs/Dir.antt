-- ===== src/Fs/Dir.antt =====
-- p5/xv6-public/fs.c, with `struct dirent` of fs.h: directories.
-- A directory entry is its 16 bytes: a `ushort inum`, and a name of DIRSIZ bytes. The caller holds the lock of
-- the directory. `none` is a panic, or an access past the end of a name.
pub mod Entries
use cs537pair.Prelude.{
  ℕ, zero, suc, ◌+◌, ◌-◌, ◌*◌, ◌/◌, ◌%◌, Bool, true, false, not, List, [], ◌∷◌, ◌++◌, Option, none,
  some, ltb, ◌==◌, if◌then◌else◌, set, drop, get_elem?, ◌>>=◌,
}
use cs537pair.Prelude.Int.{ℤ, pos, negsuc, ◌==ℤ◌}
use cs537pair.Strings.{strncmp, strncpy}
use cs537pair.Fs.Path.{dirsiz}
use cs537pair.Fs.Blocks.{le16, load16}
use cs537pair.Fs.Bitmap.{Super, View}
use cs537pair.Fs.Inode.{Inode, t_dir, u32, readi, writei}
use cs537pair.Fs.Icache.{Entry, Icache, iget, iput}

abbrev pub namecmp : List ℕ → List ℕ → Option ℤ
namecmp s t = strncmp s t dirsiz

-- What the loop of `dirlookup` does with the entry `de` at `off`: the number and the offset of a match.
abbrev pub match_entry : List ℕ → ℕ → List ℕ → Option (Option (ℕ × ℕ))
match_entry name off de =
    if load16 de 0 == 0
    then some none
    else (namecmp name (drop 2 de) >>= λ c.
        some (if c ==ℤ pos 0 then some (load16 de 0, off) else none))

module _ (sb : Super) {S : Type 0} (dev_read : Inode → ℕ → S → Option (ℤ × List ℕ × S))
    (dev_write : Inode → List ℕ → S → Option (ℤ × S)) where
  -- `readi(dp, (char*)&de, off, sizeof(de))`, where another result than 16 is a panic.
  abbrev pub read_entry : ℕ → Inode → View → S → Option (List ℕ × Inode × View × S)
  read_entry off dp v s = readi sb dev_read dev_write off 16 dp v s >>= λ r.
      if r.0 ==ℤ pos 16 then some (r.1, r.2, r.3, r.4) else none

  -- The loop of `dirlookup`, with fuel for its rounds.
  unfoldable pub scan :
      ℕ → ℕ → List ℕ → Inode → View → S → Option (Option (ℕ × ℕ) × Inode × View × S)
  scan zero off name dp v s = none
  scan (suc fuel) off name dp v s =
      let round = read_entry off dp v s >>= λ r. match_entry name off r.0 >>= λ m. elim m [
        | some found ↦ some (some found, r.1, r.2, r.3)
        | none ↦ scan fuel (u32 (off + 16)) name r.1 r.2 r.3
      ] in
      if ltb off dp.size then round else some (none, dp, v, s)

  -- `dirlookup` up to the `iget`.
  unfoldable pub lookup : List ℕ → Inode → View → S → Option (Option (ℕ × ℕ) × Inode × View × S)
  lookup name dp v s =
      if not (dp.type == t_dir) then none else scan (dp.size / 16 + 2) 0 name dp v s

  -- The end of `dirlookup`, for a match or none.
  abbrev pub get_found :
      ℕ → Option (ℕ × ℕ) → Icache → View → S → Option (Option (ℕ × ℕ) × Icache × View × S)
  get_found dev none c v s = some (none, c, v, s)
  get_found dev (some (inum, off)) c v s =
      iget dev inum c >>= λ q. some (some (q.0, off), q.1, v, s)

  -- `dirlookup` for the directory in entry `i` of the cache: the entry of what it finds, and the offset.
  unfoldable pub dirlookup :
      ℕ → List ℕ → Icache → View → S → Option (Option (ℕ × ℕ) × Icache × View × S)
  dirlookup i name c v s = get_elem? c i >>= λ e. lookup name e.inode v s >>= λ r.
      get_found e.inode.dev r.0 (set c i (record e { inode = r.1 })) r.2 r.3

  -- The loop of `dirlink`, with fuel for its rounds: the offset it ends with, and the entry read last.
  unfoldable pub find_slot :
      ℕ → ℕ → List ℕ → Inode → View → S → Option (ℕ × List ℕ × Inode × View × S)
  find_slot zero off de dp v s = none
  find_slot (suc fuel) off de dp v s =
      let round = read_entry off dp v s >>= λ r.
      if load16 r.0 0 == 0
      then some (off, r.0, r.1, r.2, r.3)
      else find_slot fuel (u32 (off + 16)) r.0 r.1 r.2 r.3 in
      if ltb off dp.size then round else some (off, de, dp, v, s)

  -- `dirlink` from its loop on. The entry `de` is uninitialised before.
  unfoldable pub add_entry : List ℕ → List ℕ → ℕ → Inode → View → S → Option (Inode × View × S)
  add_entry de name inum dp v s = find_slot (dp.size / 16 + 2) 0 de dp v s >>= λ r.
      strncpy (drop 2 r.1) name dirsiz >>= λ nm.
      writei sb dev_read dev_write r.0 (le16 inum ++ nm) r.2 r.3 r.4 >>= λ w.
      if w.0 ==ℤ pos 16 then some (w.1, w.2, w.3) else none

  -- What `dirlink` does when `dirlookup` has found an entry of the cache, or null.
  abbrev pub link_or_put :
      ℕ
      → ℕ
      → List ℕ
      → List ℕ
      → ℕ
      → Option (ℕ × ℕ)
      → Icache
      → View
      → S
      → Option (ℤ × Icache × View × S)
  link_or_put pid i de name inum (some (ip, off)) c v s =
      iput sb pid ip c v >>= λ q. some (negsuc 0, q.0, q.1, s)
  link_or_put pid i de name inum none c v s = get_elem? c i >>= λ e.
      add_entry de name inum e.inode v s >>= λ r.
      some (pos 0, set c i (record e { inode = r.0 }), r.1, r.2)

  unfoldable pub dirlink :
      ℕ → ℕ → List ℕ → List ℕ → ℕ → Icache → View → S → Option (ℤ × Icache × View × S)
  dirlink pid i de name inum c v s =
      dirlookup i name c v s >>= λ r. link_or_put pid i de name inum r.0 r.1 r.2 r.3
