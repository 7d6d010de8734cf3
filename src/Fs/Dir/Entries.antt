-- ===== src/Fs/Dir/Entries.antt =====
-- A directory as the list of its entries, and what `dirlookup` and `dirlink` make of that list.
pub mod Insert
pub mod Link
use cs537pair.Prelude.{
  ℕ, zero, suc, ◌+◌, ◌-◌, ◌*◌, ◌/◌, ◌%◌, ◌<◌, ◌≤◌, ◌≡◌, ◌≢◌, ◌∙◌, refl, ap, ap₂, sym, Bool, true,
  false, not, ◌&&◌, List, [], ◌∷◌, ◌++◌, Option, none, some, arith, ltb, leb, ◌==◌, if◌then◌else◌,
  get_or, length, drop, inl, inr, Bool-cases, ==_of_ne, ◌>>=◌,
}
use cs537pair.Prelude.Int.{ℤ, pos, ◌==ℤ◌}
use cs537pair.Strings.Compare.{cut, equal, strncmp_lem}
use cs537pair.Fs.Path.{dirsiz}
use cs537pair.Fs.Blocks.{load16}
use cs537pair.Fs.Bitmap.{Super, View, bsize}
use cs537pair.Fs.Inode.{Inode, t_dir, t_dev, u32}
use cs537pair.Fs.Inode.Content.{content, HasBlocks}
use cs537pair.Fs.Inode.RoundTrip.{same_bytes, readi_lem}
use cs537pair.Fs.Dir.{match_entry, read_entry, scan, lookup, find_slot}

-- `n` bytes of a file from byte `a` on.
abbrev pub span : (ℕ → ℕ) → ℕ → ℕ → List ℕ
span f zero a = []
span f (suc n) a = f a ∷ span f n (a + 1)

pub length-span : (f : ℕ → ℕ) (n a : ℕ) → length (span f n a) ≡ n
length-span f zero a = refl
length-span f (suc n) a = ap suc (length-span f n (a + 1))

pub get_or-span : (f : ℕ → ℕ) (n a k : ℕ) → k < n → get_or (span f n a) k 0 ≡ f (a + k)
get_or-span f zero a k l = absurd (omega arith)
get_or-span f (suc n) a zero l = ap f (omega arith)
get_or-span f (suc n) a (suc k) l = get_or-span f n (a + 1) k (omega arith) ∙ ap f (omega arith)

-- The entries of 16 bytes from byte `a` on, `n` of them.
abbrev pub slots : (ℕ → ℕ) → ℕ → ℕ → List (List ℕ)
slots f zero a = []
slots f (suc n) a = span f 16 a ∷ slots f n (a + 16)

abbrev pub listing : Inode → View → List (List ℕ)
listing dp v = slots (content dp v) (dp.size / 16) 0

abbrev pub name_of : List ℕ → List ℕ
name_of de = cut dirsiz (drop 2 de)

-- The first entry in use with this name: its number, and its offset from `off` on.
unfoldable pub find_entry : List ℕ → ℕ → List (List ℕ) → Option (ℕ × ℕ)
find_entry name off [] = none
find_entry name off (d ∷ ds) =
    let rest = find_entry name (off + 16) ds in
    if not (load16 d 0 == 0) && equal name (name_of d) then some (load16 d 0, off) else rest

-- The offset of the first entry not in use, or of the end.
unfoldable pub free_slot : ℕ → List (List ℕ) → ℕ
free_slot off [] = off
free_slot off (d ∷ ds) = let rest = free_slot (off + 16) ds in if load16 d 0 == 0 then off else rest

-- What `match_entry` says of an entry of a name.
match_entry_lem :
    (name : List ℕ) (off : ℕ) (f : ℕ → ℕ)
    → dirsiz ≤ length name
    → match_entry name off (span f 16 off)
      ≡ some (
          if not (load16 (span f 16 off) 0 == 0)
            && equal (cut dirsiz name) (name_of (span f 16 off))
          then some (load16 (span f 16 off) 0, off)
          else none)
match_entry_lem name off f l =
    let (z, e, g) = strncmp_lem dirsiz name (drop 2 (span f 16 off)) l (omega arith) in
    elim (Bool-cases (load16 (span f 16 off) 0 == 0)) [
      | inl unused ↦ rw unused refl
      | inr in_use ↦ rw (in_use, e, g) refl
    ]

module _ (sb : Super) {S : Type 0} (dev_read : Inode → ℕ → S → Option (ℤ × List ℕ × S))
    (dev_write : Inode → List ℕ → S → Option (ℤ × S)) (dp : Inode) (v : View) (n : ℕ) (s : S)
    (h : HasBlocks sb dp v n) (t : dp.type ≡ t_dir) (fits : dp.size ≤ n * bsize) where
  read_entry_lem :
      (off : ℕ)
      → off + 16 ≤ dp.size
      → read_entry sb dev_read dev_write off dp v s ≡ some (span (content dp v) 16 off, dp, v, s)
  read_entry_lem off l =
      let d : dp.type ≢ t_dev = ground (arith, t) in
      let (bytes, e, len, all) =
        readi_lem sb dev_read dev_write off 16 dp v n s h d l (omega arith) in
      let b : bytes ≡ span (content dp v) 16 off =
        same_bytes bytes (span (content dp v) 16 off)
          (len ∙ sym (length-span (content dp v) 16 off))
          (λ k m.
            all k (omega (arith, length-span (content dp v) 16 off))
            ∙ sym (
                get_or-span (content dp v) 16 off k
                  (omega (arith, length-span (content dp v) 16 off)))) in
      rw e (ap (λ x. some (x, dp, v, s)) b)

  scan_lem :
      (fuel left off : ℕ) (name : List ℕ)
      → dirsiz ≤ length name
      → left < fuel
      → off + 16 * left ≡ dp.size
      → scan sb dev_read dev_write fuel off name dp v s
        ≡ some (find_entry (cut dirsiz name) off (slots (content dp v) left off), dp, v, s)
  unfolding scan find_entry
  scan_lem zero left off name k l e = absurd (omega arith)
  scan_lem (suc fuel) zero off name k l e =
      let w : ltb off dp.size ≡ false = ground arith in rw w refl
  scan_lem (suc fuel) (suc left) off name k l e =
      let w : ltb off dp.size ≡ true = ground arith in
      let q = read_entry_lem off (omega arith) in
      let m = match_entry_lem name off (content dp v) k in
      let u : u32 (off + 16) ≡ off + 16 = omega (arith, h.limit) in
      let rest = scan_lem fuel left (off + 16) name k (omega arith) (omega arith) in
      let de = span (content dp v) 16 off in
      elim (Bool-cases (not (load16 de 0 == 0) && equal (cut dirsiz name) (name_of de))) [
        | inl hit ↦ rw (w, q) (rw m (rw hit refl))
        | inr miss ↦ rw (w, q) (rw m (rw (miss, u) rest))
      ]

  -- In a directory whose blocks are allocated `dirlookup` reads every entry up to the first of the name.
  pub lookup_lem :
      (name : List ℕ)
      → dirsiz ≤ length name
      → dp.size % 16 ≡ 0
      → lookup sb dev_read dev_write name dp v s
        ≡ some (find_entry (cut dirsiz name) 0 (listing dp v), dp, v, s)
  unfolding lookup
  lookup_lem name k z =
      let w : (dp.type == t_dir) ≡ true = ground (arith, t) in
      rw w (scan_lem (dp.size / 16 + 2) (dp.size / 16) 0 name k (omega arith) (omega arith))

  find_slot_lem :
      (fuel left off : ℕ) (de : List ℕ)
      → length de ≡ 16
      → left < fuel
      → off + 16 * left ≡ dp.size
      → (de' : List ℕ) × (length de' ≡ 16)
        × (find_slot sb dev_read dev_write fuel off de dp v s
            ≡ some (free_slot off (slots (content dp v) left off), de', dp, v, s))
  unfolding find_slot free_slot
  find_slot_lem zero left off de k l e = absurd (omega arith)
  find_slot_lem (suc fuel) zero off de k l e =
      let w : ltb off dp.size ≡ false = ground arith in (de, k, rw w refl)
  find_slot_lem (suc fuel) (suc left) off de k l e =
      let w : ltb off dp.size ≡ true = ground arith in
      let q = read_entry_lem off (omega arith) in
      let u : u32 (off + 16) ≡ off + 16 = omega (arith, h.limit) in
      let d = span (content dp v) 16 off in
      let (de', k', rest) =
        find_slot_lem fuel left (off + 16) d (length-span (content dp v) 16 off) (omega arith)
          (omega arith) in
      elim (Bool-cases (load16 d 0 == 0)) [
        | inl free ↦ (d, length-span (content dp v) 16 off, rw (w, q) (rw free refl))
        | inr taken ↦ (
          de',
          k',
          rw (w, q) (rw taken (ap (λ o. find_slot sb dev_read dev_write fuel o d dp v s) u ∙ rest)),
        )
      ]

  pub find_slot-listing :
      (de : List ℕ)
      → length de ≡ 16
      → dp.size % 16 ≡ 0
      → (de' : List ℕ) × (length de' ≡ 16)
        × (find_slot sb dev_read dev_write (dp.size / 16 + 2) 0 de dp v s
            ≡ some (free_slot 0 (listing dp v), de', dp, v, s))
  find_slot-listing de k z =
      find_slot_lem (dp.size / 16 + 2) (dp.size / 16) 0 de k (omega arith) (omega arith)
