-- ===== src/Bcache.antt =====
-- p5/xv6-public/bio.c: the buffer cache.
-- The list through `next` from the head is a list of buffers, most recently used first; `slot` says
-- which element of `bcache.buf` a buffer is. A buffer is known by its place in the list. `bcache.lock`
-- makes each call atomic; the wait for the buffer's own lock comes behind `bget`, see Sleeplock.
pub mod Unique
pub mod Lookup
mod Tests
use cs537pair.Prelude.{
  ℕ, zero, suc, ◌+◌, ◌-◌, ◌%◌, ◌^◌, Bool, true, false, ◌&&◌, not, List, [], ◌∷◌, Option, none, some,
  ◌==◌, if◌then◌else◌, find_index, modify, get_elem?, ◌>>=◌, replicate,
}
use cs537pair.Sleeplock.{Sleeplock, initsleeplock, holdingsleep, releasesleep}

abbrev pub nbuf : ℕ
nbuf = 30

-- `struct buf`, with `B_VALID` and `B_DIRTY` as two fields.
pub record Buf : Type 0 where
  pub slot : ℕ
  pub valid : Bool
  pub dirty : Bool
  pub dev : ℕ
  pub blockno : ℕ
  pub lock : Sleeplock
  pub refcnt : ℕ
  pub bytes : List ℕ

abbrev pub new_buf : ℕ → Buf
new_buf i = record {
  slot = i;
  valid = false;
  dirty = false;
  dev = 0;
  blockno = 0;
  lock = initsleeplock;
  refcnt = 0;
  bytes = replicate 512 0;
}

-- The loop of `binit`: each buffer goes to the front of the list.
unfoldable pub binit_loop : ℕ → ℕ → List Buf → List Buf
binit_loop zero i l = l
binit_loop (suc n) i l = binit_loop n (i + 1) (new_buf i ∷ l)

abbrev pub binit : List Buf
binit = binit_loop nbuf 0 []

abbrev pub caches : ℕ → ℕ → Buf → Bool
caches dev blockno b = (b.dev == dev) && (b.blockno == blockno)

abbrev pub unused : Buf → Bool
unused b = (b.refcnt == 0) && not b.dirty

-- The scan from the tail of the list, through `prev`.
unfoldable pub find_last : List Buf → Option ℕ
find_last [] = none
find_last (b ∷ l) = elim (find_last l) [
  | some i ↦ some (suc i)
  | none ↦ if unused b then some 0 else none
]

-- `refcnt` is a `uint`.
abbrev pub hold : Buf → Buf
hold b = record b { refcnt = (b.refcnt + 1) % 2 ^ 32 }

abbrev pub reuse : ℕ → ℕ → Buf → Buf
reuse dev blockno b = record b {
  dev = dev;
  blockno = blockno;
  valid = false;
  dirty = false;
  refcnt = 1;
}

abbrev pub recycle : ℕ → ℕ → List Buf → Option ℕ → Option (ℕ × List Buf)
recycle dev blockno l none = none
recycle dev blockno l (some i) = some (i, modify l i (reuse dev blockno))

abbrev pub get_with : ℕ → ℕ → List Buf → Option ℕ → Option (ℕ × List Buf)
get_with dev blockno l (some i) = some (i, modify l i hold)
get_with dev blockno l none = recycle dev blockno l (find_last l)

-- `bget` up to `acquiresleep`: the place of the buffer and the list; `none` is the panic.
unfoldable pub bget : ℕ → ℕ → List Buf → Option (ℕ × List Buf)
bget dev blockno l = get_with dev blockno l (find_index (caches dev blockno) l)

-- The buffer at a place, and the list without it.
unfoldable pub pull : ℕ → List Buf → Option (Buf × List Buf)
pull i [] = none
pull zero (b ∷ l) = some (b, l)
pull (suc i) (b ∷ l) = pull i l >>= λ r. some (r.0, b ∷ r.1)

abbrev pub drop_buf : Buf → Buf
drop_buf b = record b { lock = releasesleep b.lock; refcnt = (b.refcnt + 2 ^ 32 - 1) % 2 ^ 32 }

-- `brelse` of the buffer at place `i` by process `pid`: without other users it goes to the front.
unfoldable pub brelse : ℕ → ℕ → List Buf → Option (List Buf)
brelse pid i l = pull i l >>= λ r.
    (if not (holdingsleep pid r.0.lock)
      then none
      else if (drop_buf r.0).refcnt == 0
      then some (drop_buf r.0 ∷ r.1)
      else some (modify l i drop_buf))
