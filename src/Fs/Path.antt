-- ===== src/Fs/Path.antt =====
-- p5/xv6-public/fs.c: path names. A path is the list of its bytes before the NUL; a name is a buffer of
-- DIRSIZ bytes.
pub mod Elements
use cs537pair.Prelude.{
  ℕ, zero, suc, ◌+◌, Bool, true, false, ◌&&◌, not, List, [], ◌∷◌, ◌++◌, Option, none, some, leb,
  ◌==◌, if◌then◌else◌, length, take, drop, ◌>>=◌,
}

abbrev pub dirsiz : ℕ
dirsiz = 14

abbrev pub slash : ℕ
slash = 47

-- `while(*path == '/') path++;`
unfoldable pub skip_slashes : List ℕ → List ℕ
skip_slashes [] = []
skip_slashes (c ∷ path) = let rest = skip_slashes path in if c == slash then rest else c ∷ path

-- `while(*path != '/' && *path != 0) path++;`: what it passes over, and what is left.
unfoldable pub span_elem : List ℕ → List ℕ × List ℕ
span_elem [] = ([], [])
span_elem (c ∷ path) =
    let rest = span_elem path in if c == slash then ([], c ∷ path) else (c ∷ rest.0, rest.1)

-- The copy of an element into `name`: cut at DIRSIZ bytes without a NUL, or with a NUL behind it.
abbrev pub store_name : List ℕ → List ℕ → List ℕ
store_name s name =
    if leb dirsiz (length s)
    then take dirsiz s ++ drop dirsiz name
    else s ++ (0 ∷ drop (length s + 1) name)

abbrev pub skip_at : List ℕ → List ℕ → Option (List ℕ × List ℕ)
skip_at [] name = none
skip_at (c ∷ path) name =
    let (s, rest) = span_elem (c ∷ path) in some (skip_slashes rest, store_name s name)

-- The rest of the path, and the name; `none` is the null pointer.
unfoldable pub skipelem : List ℕ → List ℕ → Option (List ℕ × List ℕ)
skipelem path name = skip_at (skip_slashes path) name

-- `*path == '/'`
abbrev pub starts_at_root : List ℕ → Bool
starts_at_root [] = false
starts_at_root (c ∷ path) = c == slash

-- What `namex` calls on inodes, whose cache and disk are `S`. An inode is an index into the cache.
pub record Inodes (S : Type 0) : Type 0 where
  pub iget_root : S → Option (ℕ × S)
  pub idup : ℕ → S → Option S
  pub ilock : ℕ → S → Option S
  pub iunlock : ℕ → S → Option S
  pub iput : ℕ → S → Option S
  pub is_dir : ℕ → S → Bool
  pub dirlookup : ℕ → List ℕ → S → Option (Option ℕ × S)

-- What a call comes to: the inode or null, the name, and the state.
abbrev pub Found : Type 0 → Type 0
Found S = Option ℕ × List ℕ × S

module _ {S : Type 0} (ops : Inodes S) where
  open ops use {iget_root, idup, ilock, iunlock, iput, is_dir, dirlookup}

  abbrev pub iunlockput : ℕ → S → Option S
  iunlockput ip s = iunlock ip s >>= iput ip

  -- The tail of a round, where `dirlookup` has found `next` or null.
  abbrev pub step_to : ℕ → Option ℕ → List ℕ → S → (ℕ → S → Option (Found S)) → Option (Found S)
  step_to ip none name s go = iunlockput ip s >>= λ s'. some (none, name, s')
  step_to ip (some next) name s go = iunlockput ip s >>= go next

  -- A round of the loop for the element in `name`, with `path` left and `go` for the rounds to come.
  abbrev pub walk_elem :
      Bool → ℕ → List ℕ → List ℕ → S → (ℕ → S → Option (Found S)) → Option (Found S)
  walk_elem nameiparent ip path name s go = ilock ip s >>= λ s1.
      if not (is_dir ip s1)
      then (iunlockput ip s1 >>= λ s2. some (none, name, s2))
      else if nameiparent && (length path == 0)
      then (iunlock ip s1 >>= λ s2. some (some ip, name, s2))
      else (dirlookup ip name s1 >>= λ r. step_to ip r.0 name r.1 go)

  -- The loop of `namex`, with fuel for its rounds, and what follows it.
  unfoldable pub walk : ℕ → Bool → ℕ → List ℕ → List ℕ → S → Option (Found S)
  walk zero nameiparent ip path name s = none
  walk (suc fuel) nameiparent ip path name s = elim (skipelem path name) [
    | none ↦
        if nameiparent then (iput ip s >>= λ s'. some (none, name, s')) else some (some ip, name, s)
    | some (rest, elem) ↦
        walk_elem nameiparent ip rest elem s (λ next s'. walk fuel nameiparent next rest elem s')
  ]

  abbrev pub start : ℕ → List ℕ → S → Option (ℕ × S)
  start cwd path s =
      if starts_at_root path then iget_root s else (idup cwd s >>= λ s'. some (cwd, s'))

  -- A round takes at least one byte of the path, so one round for each and one more are enough.
  unfoldable pub namex : Bool → ℕ → List ℕ → List ℕ → S → Option (Found S)
  namex nameiparent cwd path name s =
      start cwd path s >>= λ r. walk (suc (length path)) nameiparent r.0 path name r.1
