-- ===== src/File/Tests.antt =====
-- A table with one file that two descriptors share.
use cs537pair.Prelude.{zero, suc, ◌≡◌, refl, [], ◌∷◌, some, arith, true, false}
use cs537pair.File.{File, Ftable, fd_pipe, fd_none, filedup}
use cs537pair.File.Counts.{AreCounted, dupped, Step-AreCounted}

abbrev shared : File
shared = record {
  type = fd_pipe;
  ref = 2;
  readable = true;
  writable = false;
  pipe = 9;
  ip = 0;
  off = 0;
}

abbrev table : Ftable
table = shared ∷ record shared { type = fd_none; ref = 0 } ∷ []

table-AreCounted : AreCounted (record { table = table; held = 0 ∷ 0 ∷ [] })
table-AreCounted zero f h = ground arith
table-AreCounted (suc zero) f h = ground arith
table-AreCounted (suc (suc i)) f h = absurd (cc)

dups :
    filedup 0 table
    ≡ some (record shared { ref = 3 } ∷ record shared { type = fd_none; ref = 0 } ∷ [])
unfolding filedup
dups = refl

Step-AreCounted_example : AreCounted (record {
  table = record shared { ref = 3 } ∷ record shared { type = fd_none; ref = 0 } ∷ [];
  held = 0 ∷ 0 ∷ 0 ∷ [];
})
Step-AreCounted_example = Step-AreCounted (dupped {rs = 0 ∷ 0 ∷ []} 0 dups) table-AreCounted

-- The state counts the bytes.
