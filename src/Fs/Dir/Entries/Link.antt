-- ===== src/Fs/Dir/Entries/Link.antt =====
-- What `dirlink` adds to a directory, and what `dirlookup` finds there afterwards.
use cs537pair.Prelude.{
  ℕ, ◌+◌, ◌-◌, ◌*◌, ◌/◌, ◌%◌, ◌^◌, ◌<◌, ◌≤◌, ◌≡◌, ◌≢◌, ◌∙◌, refl, ap, sym, true, false, ◌&&◌, List,
  ◌++◌, Option, none, some, arith, ltb, leb, if◌then◌else◌, get_or, length, drop,
}
use cs537pair.Prelude.Int.{ℤ, pos, ◌==ℤ◌}
use cs537pair.Strings.{strncpy}
use cs537pair.Strings.Compare.{cut, equal, equal_self, strncpy_lem}
use cs537pair.Fs.Path.{dirsiz}
use cs537pair.Fs.Blocks.{le16, load16}
use cs537pair.Fs.Bitmap.{Super, View, bsize}
use cs537pair.Fs.Inode.{Inode, t_dir, writei}
use cs537pair.Fs.Inode.Content.{content, HasBlocks}
use cs537pair.Fs.Inode.Content.Loops.{length-drop}
use cs537pair.Fs.Inode.RoundTrip.{writei_lem}
use cs537pair.Fs.Dir.{lookup, find_slot, add_entry}
use cs537pair.Fs.Dir.Entries.{
  slots, listing, name_of, find_entry, free_slot, lookup_lem, find_slot-listing,
}
use cs537pair.Fs.Dir.Entries.Insert.{
  put_entry, length-put_entry, free_slot-bound, find_entry-put_entry, find_entry-put_other,
  length-slots, slots-put_entry,
}

-- A directory after 16 bytes `e` are written at its free slot.
module _ (dp dp' : Inode) (v v' : View) (n : ℕ) (e : List ℕ) (size : length e ≡ 16)
    (whole : dp.size % 16 ≡ 0) (within : dp.size ≤ n * bsize)
    (room : free_slot 0 (listing dp v) + 16 ≤ n * bsize)
    (grown : dp'.size ≡ (
      if ltb dp.size (free_slot 0 (listing dp v) + length e)
      then free_slot 0 (listing dp v) + length e
      else dp.size))
    (new : (i : ℕ)
      → i < n * bsize
      → content dp' v' i ≡ (
          if leb (free_slot 0 (listing dp v)) i && ltb i (free_slot 0 (listing dp v) + length e)
          then get_or e (i - free_slot 0 (listing dp v)) 0
          else content dp v i)) where
  abbrev slot : ℕ
  slot = free_slot 0 (listing dp v)

  entries_of : (dp'.size ≡ 16 * length (put_entry e (listing dp v))) × (dp'.size ≤ n * bsize)
  entries_of =
      let q = length-put_entry e (listing dp v) 0 in
      let l = length-slots (content dp v) (dp.size / 16) 0 in
      ground (arith, size, grown, q, l, whole)

  listed : listing dp' v' ≡ put_entry e (listing dp v)
  listed =
      let c : dp'.size / 16 ≡ length (put_entry e (listing dp v)) = omega (arith, entries_of) in
      ap (λ m. slots (content dp' v') m 0) c
      ∙ slots-put_entry (content dp' v') (content dp v) e size slot
          (λ k l.
            new (slot + k) (omega arith)
            ∙ (let a : (leb slot (slot + k) && ltb (slot + k) (slot + length e)) ≡ true =
                  ground (arith, size) in
                let b : slot + k - slot ≡ k = omega arith in rw (a, b) refl))
          (dp.size / 16) 0 refl
          (λ i l m out.
            new i (omega arith)
            ∙ (let a : (leb slot i && ltb i (slot + length e)) ≡ false =
                  ground (arith, size, out) in
                rw a refl))

module _ (sb : Super) where
  -- A directory whose entries are all within `n` allocated blocks.
  pub record IsDir (dp : Inode) (v : View) (n : ℕ) : Type 0 where
    pub blocks : HasBlocks sb dp v n
    pub kind : dp.type ≡ t_dir
    pub whole : dp.size % 16 ≡ 0
    pub within : dp.size ≤ n * bsize

module _ (sb : Super) {S : Type 0} (dev_read : Inode → ℕ → S → Option (ℤ × List ℕ × S))
    (dev_write : Inode → List ℕ → S → Option (ℤ × S)) where
  add_entry_run :
      (de de' name nm : List ℕ) (inum slot : ℕ) (dp dp' : Inode) (v v' : View) (s : S)
      → find_slot sb dev_read dev_write (dp.size / 16 + 2) 0 de dp v s ≡ some (slot, de', dp, v, s)
      → strncpy (drop 2 de') name dirsiz ≡ some nm
      → length (le16 inum ++ nm) ≡ 16
      → writei sb dev_read dev_write slot (le16 inum ++ nm) dp v s
        ≡ some (pos (length (le16 inum ++ nm)), dp', v', s)
      → add_entry sb dev_read dev_write de name inum dp v s ≡ some (dp', v', s)
  unfolding add_entry
  add_entry_run de de' name nm inum slot dp dp' v v' s found copied size wrote =
      let t : (pos (length (le16 inum ++ nm)) ==ℤ pos 16) ≡ true = ground (arith, size) in
      rw (found, copied) (rw wrote (rw t refl))

  add_entry_lem :
      (de name : List ℕ) (inum : ℕ) (dp : Inode) (v : View) (n : ℕ) (s : S)
      → length de ≡ 16
      → dirsiz ≤ length name
      → IsDir sb dp v n
      → free_slot 0 (listing dp v) + 16 ≤ n * bsize
      → (e : List ℕ) × (dp' : Inode) × (v' : View) × (add_entry sb dev_read dev_write de name inum
            dp v s
          ≡ some (dp', v', s))
        × IsDir sb dp' v' n
        × (listing dp' v' ≡ put_entry e (listing dp v))
        × (load16 e 0 ≡ inum % 2 ^ 16)
        × (name_of e ≡ cut dirsiz name)
  add_entry_lem de name inum dp v n s k l d room =
      let (de', k', found) =
        find_slot-listing sb dev_read dev_write dp v n s d.blocks d.kind d.within de k d.whole in
      let (nm, copied, len, same) =
        strncpy_lem dirsiz (drop 2 de') name (omega (arith, length-drop 2 de', k')) l in
      let slot = free_slot 0 (listing dp v) in
      let e = le16 inum ++ nm in
      let size : length e ≡ 16 = omega (arith, len, length-drop 2 de', k') in
      let ls = length-slots (content dp v) (dp.size / 16) 0 in
      let b = free_slot-bound 0 (listing dp v) in
      let (dp', v', wrote, h', (kind, grown), new) =
        writei_lem sb dev_read dev_write slot e dp v n s d.blocks (ground (arith, d.kind))
          (omega (arith, b, ls)) (omega (arith, size)) in
      let args = entries_of dp dp' v v' n e size d.whole d.within room grown new in
      (
        e,
        dp',
        v',
        add_entry_run de de' name nm inum slot dp dp' v v' s found copied size wrote,
        record { blocks = h'; kind = kind ∙ d.kind; whole = omega (arith, args); within = args.1 },
        listed dp dp' v v' n e size d.whole d.within room grown new,
        omega arith,
        same,
      )

  -- A name that a directory does not have, put in by `dirlink` for a number that is not 0 as a `ushort`, where
  -- the first unused entry, or else the end, has room in the allocated blocks: nothing panics, `dirlookup` then
  -- finds the number under the name, every other name leads to what it led to before, and
  -- the directory is one still.
  pub add_entry-lookup :
      (de name : List ℕ) (inum : ℕ) (dp : Inode) (v : View) (n : ℕ) (s : S)
      → length de ≡ 16
      → dirsiz ≤ length name
      → inum % 2 ^ 16 ≢ 0
      → IsDir sb dp v n
      → free_slot 0 (listing dp v) + 16 ≤ n * bsize
      → lookup sb dev_read dev_write name dp v s ≡ some (none, dp, v, s)
      → (off : ℕ) × (dp' : Inode) × (v' : View) × (add_entry sb dev_read dev_write de name inum dp v
            s
          ≡ some (dp', v', s))
        × IsDir sb dp' v' n
        × (lookup sb dev_read dev_write name dp' v' s
            ≡ some (some (inum % 2 ^ 16, off), dp', v', s))
        × ((other : List ℕ) (r : Option (ℕ × ℕ))
            → dirsiz ≤ length other
            → equal (cut dirsiz other) (cut dirsiz name) ≡ false
            → lookup sb dev_read dev_write other dp v s ≡ some (r, dp, v, s)
            → lookup sb dev_read dev_write other dp' v' s ≡ some (r, dp', v', s))
  add_entry-lookup de name inum dp v n s k l z d room fresh =
      let (e, dp', v', ran, d', list, num, nm) = add_entry_lem de name inum dp v n s k l d room in
      (
        free_slot 0 (listing dp v),
        dp',
        v',
        ran,
        d',
        found dp' v' name l d'
            ∙ ap (λ x. some (x, dp', v', s))
                (ap (find_entry (cut dirsiz name) 0) list
                  ∙ find_entry-put_entry e (cut dirsiz name) (listing dp v) 0 (λ x. z (sym num ∙ x))
                      (ap (equal (cut dirsiz name)) nm ∙ equal_self (cut dirsiz name))
                      (result dp v name l d none fresh)
                  ∙ ap (λ x. some (x, free_slot 0 (listing dp v))) num),
        λ other r m differ before.
            found dp' v' other m d'
            ∙ ap (λ x. some (x, dp', v', s))
                (ap (find_entry (cut dirsiz other) 0) list
                  ∙ find_entry-put_other e (cut dirsiz other) (listing dp v) 0
                      (ap (equal (cut dirsiz other)) nm ∙ differ)
                  ∙ result dp v other m d r before),
      )
    where
      found :
          (dp : Inode) (v : View) (name : List ℕ)
          → dirsiz ≤ length name
          → IsDir sb dp v n
          → lookup sb dev_read dev_write name dp v s
            ≡ some (find_entry (cut dirsiz name) 0 (listing dp v), dp, v, s)
      found dp v name l d =
          lookup_lem sb dev_read dev_write dp v n s d.blocks d.kind d.within name l d.whole

      what : Option (Option (ℕ × ℕ) × Inode × View × S) → Option (ℕ × ℕ)
      what none = none
      what (some r) = r.0

      result :
          (dp : Inode) (v : View) (name : List ℕ)
          → dirsiz ≤ length name
          → IsDir sb dp v n
          → (r : Option (ℕ × ℕ)) → lookup sb dev_read dev_write name dp v s ≡ some (r, dp, v, s)
          → find_entry (cut dirsiz name) 0 (listing dp v) ≡ r
      result dp v name l d r e = ap what (sym (found dp v name l d) ∙ e)
