-- ===== src/Bcache/Tests.antt =====
-- A cache of three buffers: one that is used, one that is not, and one that waits for its commit.
use cs537pair.Prelude.{◌≡◌, refl, List, [], ◌∷◌, some, arith, true}
use cs537pair.Bcache.{Buf, new_buf, reuse, drop_buf, find_last, bget, pull, brelse}
use cs537pair.Sleeplock.{holdingsleep}
use cs537pair.Bcache.Unique.{IsUnique, bget-IsUnique}

abbrev used : Buf
used = record (new_buf 0) {
  dev = 1;
  blockno = 5;
  refcnt = 1;
  lock = record { locked = true; pid = 3 };
}

abbrev old : Buf
old = record (new_buf 1) { dev = 1; blockno = 6; valid = true }

abbrev pinned : Buf
pinned = record (new_buf 2) { dev = 1; blockno = 7; valid = true; dirty = true }

abbrev cache : List Buf
cache = old ∷ used ∷ pinned ∷ []

cache-IsUnique : IsUnique cache
cache-IsUnique = (
  ((λ d n. absurd (omega (arith, n))), ((λ d n. absurd (omega (arith, n))), tt)),
  (((λ d n. absurd (omega (arith, n))), tt), (tt, tt)),
)

gets : bget 1 8 cache ≡ some (0, reuse 1 8 old ∷ used ∷ pinned ∷ [])
unfolding bget find_last
gets = refl

bget-IsUnique_example : IsUnique (reuse 1 8 old ∷ used ∷ pinned ∷ [])
bget-IsUnique_example =
    bget-IsUnique 1 8 0 cache (reuse 1 8 old ∷ used ∷ pinned ∷ []) gets cache-IsUnique

releases : brelse 3 1 cache ≡ some (drop_buf used ∷ old ∷ pinned ∷ [])
unfolding brelse pull holdingsleep
releases = refl
