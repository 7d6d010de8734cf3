-- ===== src/Sysfile/Tests.antt =====
-- A process with one open file, that another process has open too.
use cs537pair.Prelude.{
  ℕ, zero, suc, ◌<◌, ◌++◌, ◌≡◌, [], ◌∷◌, some, none, arith, true, false, get_elem?,
}
use cs537pair.File.{File, fd_inode, fd_none}
use cs537pair.File.Counts.{AreCounted}
use cs537pair.Sysfile.{Desc}
use cs537pair.Sysfile.Descriptors.{IsConsistent, held}
use cs537pair.Sysfile.Calls.{dup, close, pipe, run, run-IsConsistent}

abbrev log_file : File
log_file = record {
  type = fd_inode;
  ref = 2;
  readable = true;
  writable = true;
  pipe = 0;
  ip = 5;
  off = 0;
}

abbrev no_file : File
no_file = record {
  type = fd_none;
  ref = 0;
  readable = false;
  writable = false;
  pipe = 0;
  ip = 0;
  off = 0;
}

abbrev start : Desc
start = record {
  ofile = some 0 ∷ none ∷ none ∷ none ∷ [];
  table = log_file ∷ no_file ∷ no_file ∷ [];
  kmem = record { use_lock = true; freelist = 0x80400000 ∷ [] };
  after = [];
}

start-IsConsistent : IsConsistent (0 ∷ []) start
start-IsConsistent = record { counted = counted; inside = inside }
  where
    counted : AreCounted (record { table = start.table; held = held start.ofile ++ (0 ∷ []) })
    counted zero f h = ground arith
    counted (suc zero) f h = ground arith
    counted (suc (suc zero)) f h = ground arith
    counted (suc (suc (suc i))) f h = absurd (cc)

    inside : (fd f : ℕ) → get_elem? start.ofile fd ≡ some (some f) → f < 3
    inside zero f h = ground arith
    inside (suc zero) f h = absurd (cc)
    inside (suc (suc zero)) f h = absurd (cc)
    inside (suc (suc (suc zero))) f h = absurd (cc)
    inside (suc (suc (suc (suc i)))) f h = absurd (cc)

-- A pipe, a close of its end, a duplicate, a second pipe for which there is no room, and
-- a pointer that is refused.
run-IsConsistent_example :
    (s : Desc) × (run
        (pipe (some 0x2000) ∷ close 1 ∷ dup 0 ∷ pipe (some 0x2000) ∷ pipe none ∷ [])
        start
      ≡ some s)
    × IsConsistent (0 ∷ []) s
run-IsConsistent_example =
    run-IsConsistent (0 ∷ [])
      (pipe (some 0x2000) ∷ close 1 ∷ dup 0 ∷ pipe (some 0x2000) ∷ pipe none ∷ []) start
      start-IsConsistent
