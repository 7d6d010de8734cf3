-- ===== src/Wmap.antt =====
-- p4/xv6-public/wmap.c: memory mappings of a process.
-- `int` and `uint` are bit patterns below 2 ^ 32, since the code mixes them and C then compares as
-- `uint`; sums wrap around. `none` is a panic or an access through a bad pointer.
pub mod Overlap
pub mod Search
pub mod Pages
pub mod Unmap
pub mod Wunmap
pub mod Info
pub mod Fork
mod Tests
use cs537pair.Prelude.{
  ℕ, zero, suc, ◌+◌, ◌-◌, ◌*◌, ◌/◌, ◌%◌, ◌^◌, Bool, true, false, ◌&&◌, ◌||◌, not, List, [], ◌∷◌,
  Option, none, some, ltb, leb, ◌==◌, if◌then◌else◌, get_elem?, modify, find_index, ◌>>=◌,
}
use cs537pair.Prelude.Int.{ℤ, pos, negsuc, ◌+ℤ◌, ltb_ℤ}

abbrev pub userboundary : ℕ
userboundary = 0x60000000

abbrev pub kernbase : ℕ
kernbase = 0x80000000

abbrev pub pgsize : ℕ
pgsize = 4096

abbrev pub u32 : ℕ → ℕ
u32 n = n % 2 ^ 32

-- `-n` as a `uint`.
abbrev pub minus : ℕ → ℕ
minus n = 2 ^ 32 - n

abbrev pub pg_round_up : ℕ → ℕ
pg_round_up a = u32 (a + pgsize - 1) / pgsize * pgsize

abbrev pub pg_round_down : ℕ → ℕ
pg_round_down a = a / pgsize * pgsize

-- `flags & bit`, for a bit that is a power of two.
abbrev pub has_flag : ℕ → ℕ → Bool
has_flag bit flags = flags / bit % 2 == 1

abbrev pub map_private : ℕ
map_private = 1

abbrev pub map_shared : ℕ
map_shared = 2

abbrev pub map_anonymous : ℕ
map_anonymous = 4

abbrev pub map_fixed : ℕ
map_fixed = 8

-- `struct map_en`
pub record MapEn : Type 0 where
  pub valid : Bool
  pub addr : ℕ
  pub length : ℕ
  pub lpgs : ℕ
  pub flags : ℕ
  pub fd : ℕ

-- The fields of `struct proc` for mappings.
pub record Maps : Type 0 where
  pub wmaps : List MapEn
  pub total_maps : ℤ

abbrev pub top : MapEn → ℕ
top e = u32 (e.addr + e.length)

-- `a < b` and `a <= b` where C compares as `int`.
abbrev pub flip : ℕ → ℕ
flip n = u32 (n + 2 ^ 31)

abbrev pub sltb : ℕ → ℕ → Bool
sltb a b = ltb (flip a) (flip b)

abbrev pub sleb : ℕ → ℕ → Bool
sleb a b = leb (flip a) (flip b)

-- The test of `check_valid` on one entry. A comparison with `addr` is unsigned, the others are signed.
abbrev pub collides : ℕ → ℕ → MapEn → Bool
collides addr length e =
    let end = u32 (addr + length) in
    e.valid
    && ((leb e.addr addr && ltb addr (top e))
        || ((sleb e.addr end && sltb end (top e))
            || ((leb addr e.addr && sltb e.addr end) || (leb addr (top e) && sltb (top e) end))))

-- 0 if the range is free, or else where the first mapping that collides ends.
unfoldable pub check_valid : ℕ → ℕ → List MapEn → ℕ
check_valid addr length [] = 0
check_valid addr length (e ∷ es) =
    if collides addr length e then pg_round_up (top e) else check_valid addr length es

-- The loop of `wmap` that looks for space, with fuel for its rounds: `none` if that runs out, and
-- the address found, if any.
unfoldable pub search : ℕ → ℕ → ℕ → List MapEn → Option (Option ℕ)
search zero t_va length es = none
search (suc fuel) t_va length es =
    let next = check_valid t_va length es in
    let rest = search fuel next length es in
    if ltb (u32 (t_va + length)) kernbase
    then (if next == 0 then some (some t_va) else rest)
    else some none

-- The address that `wmap` maps at, or the code that it returns.
pub data Place : Type 0 where
  at : ℕ → Place
  code : ℕ → Place

abbrev pub found : Option ℕ → Place
found none = code (minus 7)
found (some va) = at va

-- `wmap` up to the choice of the address; `none` if the search does not end in `fuel` rounds.
unfoldable pub place : ℕ → ℕ → ℕ → ℕ → Maps → Option Place
place fuel addr length flags m =
    if length == 0
    then some (code pgsize)
    else if has_flag map_shared flags && has_flag map_private flags
    then some (code (minus 2))
    else if has_flag map_fixed flags
    then (if ltb addr userboundary || (leb kernbase addr || not (addr % pgsize == 0))
        then some (code (minus 3))
        else if not (check_valid addr length m.wmaps == 0)
        then some (code (minus 1))
        else some (at addr))
    else if ltb_ℤ (pos 15) m.total_maps
    then some (code (minus 1))
    else (search fuel userboundary length m.wmaps >>= λ r. some (found r))

abbrev pub is_free : MapEn → Bool
is_free e = not e.valid

-- The loop of `wmap` that records the mapping in the first free entry. Without one it records nothing.
abbrev pub record_at : MapEn → Maps → Option ℕ → Maps
record_at e m none = m
record_at e m (some i) = record m {
  wmaps = modify m.wmaps i (λ _. e);
  total_maps = m.total_maps +ℤ pos 1;
}

unfoldable pub record_map : MapEn → Maps → Maps
record_map e m = record_at e m (find_index is_free m.wmaps)

module _ {S : Type 0} (filedup : ℕ → S → Option S) where
  -- The file of a mapping that is not anonymous: a code, or the state with one more reference. The
  -- descriptor is not checked against the table, and a null file is passed to `filedup`.
  unfoldable pub dup_file : ℕ → List (Option ℕ) → S → Option (Bool × S)
  dup_file fd ofile s =
      if (fd == 0) || leb (2 ^ 31) fd
      then some (false, s)
      else (get_elem? ofile fd >>= λ f. f >>= λ g. filedup g s >>= λ s'. some (true, s'))

  -- `wmap` behind the choice of the address.
  unfoldable pub map_at : ℕ → ℕ → ℕ → ℕ → List (Option ℕ) → Maps → S → Option (ℕ × Maps × S)
  map_at va length flags fd ofile m s =
      let e : MapEn = record {
        valid = true;
        addr = va;
        length = length;
        lpgs = 0;
        flags = flags;
        fd = fd;
      } in
      if has_flag map_anonymous flags
      then some (va, record_map e m, s)
      else (dup_file fd ofile s >>= λ r.
          if r.0 then some (va, record_map e m, r.1) else some (minus 5, m, r.1))

  abbrev pub map_place : Place → ℕ → ℕ → ℕ → List (Option ℕ) → Maps → S → Option (ℕ × Maps × S)
  map_place (code c) length flags fd ofile m s = some (c, m, s)
  map_place (at va) length flags fd ofile m s = map_at va length flags fd ofile m s

  -- `wmap`: what it returns, the mappings and the files.
  unfoldable pub wmap : ℕ → ℕ → ℕ → ℕ → ℕ → List (Option ℕ) → Maps → S → Option (ℕ × Maps × S)
  wmap fuel addr length flags fd ofile m s =
      place fuel addr length flags m >>= λ p. map_place p length flags fd ofile m s

-- The scan of `wunmap`, which does not look at `valid`, and what it does to the entry.
abbrev pub drop_at : Maps → Option ℕ → Option (MapEn × Maps)
drop_at m none = none
drop_at m (some i) = get_elem? m.wmaps i >>= λ e. some (
  e,
  record m {
    wmaps = modify m.wmaps i (λ x. record x { valid = false });
    total_maps = m.total_maps +ℤ negsuc 0;
  },
)

-- The entry that `wunmap` frees, and the mappings; `none` is its failure with -1.
unfoldable pub drop_map : ℕ → Maps → Option (MapEn × Maps)
drop_map addr m = drop_at m (find_index (λ (e : MapEn). e.addr == pg_round_down addr) m.wmaps)

-- The entry that `pf_handler` serves a fault at `va` for, which need not be valid.
unfoldable pub fault_entry : ℕ → Maps → Option ℕ
fault_entry va m = find_index (λ (e : MapEn). leb va (top e) && leb e.addr va) m.wmaps
