-- ===== src/Sysfile.antt =====
-- p5/xv6-public/sysfile.c and pipe.c: the file descriptors of a process.
-- A descriptor is an index into the `ofile` of the process; what it holds is an index into the table of open
-- files, see File. An outer `none` is a panic; a result below 0 is the failure -1.
pub mod Descriptors
pub mod Pipes
pub mod Calls
mod Tests
use mathlib.Core.Option
use cs537pair.Prelude.{
  ℕ, zero, suc, ◌+◌, ◌%◌, ◌^◌, ◌++◌, Bool, true, false, ◌||◌, List, [], ◌∷◌, Option, none, some,
  leb, if◌then◌else◌, find_index, get_elem?, set, modify, ◌>>=◌,
}
use cs537pair.Prelude.Int.{ℤ, pos, negsuc}
use cs537pair.Kalloc.{Kmem, kalloc}
use cs537pair.File.{
  File, Ftable, Action, nothing, close_pipe, put_inode, fd_pipe, filealloc, filedup, fileclose,
}

-- What the calls change: the descriptors of the process, the table of open files, and the free pages.
-- The `pipeclose` or `iput` that `fileclose` calls behind the table is not run here: `after` has these
-- calls, in order.
pub record Desc : Type 0 where
  pub ofile : List (Option ℕ)
  pub table : Ftable
  pub kmem : Kmem
  pub after : List Action

abbrev pub note : List Action → Action → List Action
note calls nothing = calls
note calls (close_pipe page writer) = calls ++ (close_pipe page writer ∷ [])
note calls (put_inode ip) = calls ++ (put_inode ip ∷ [])

-- `fileclose` of an entry, with the call behind it noted.
unfoldable pub close_ref : ℕ → Desc → Option Desc
close_ref f s =
    fileclose f s.table >>= λ r. some (record s { table = r.2; after = note s.after r.1 })

abbrev pub failed : ℤ
failed = negsuc 0

abbrev pub is_null : Option ℕ → Bool
is_null none = true
is_null (some f) = false

-- The file of a descriptor, if it is open. A negative argument is a pattern of 2 ^ 31 or more.
unfoldable pub argfd : ℕ → List (Option ℕ) → Option ℕ
argfd fd ofile = if leb 16 fd then none else (get_elem? ofile fd >>= λ f. f)

abbrev pub place_file : ℕ → List (Option ℕ) → Option ℕ → Option ℕ × List (Option ℕ)
place_file f ofile none = (none, ofile)
place_file f ofile (some fd) = (some fd, set ofile fd (some f))

unfoldable pub fdalloc : ℕ → List (Option ℕ) → Option ℕ × List (Option ℕ)
fdalloc f ofile = place_file f ofile (find_index is_null ofile)

abbrev pub dup_to : ℕ → Option ℕ × List (Option ℕ) → Desc → Option (ℤ × Desc)
dup_to f (none, o) s = some (failed, s)
dup_to f (some fd, o) s =
    filedup f s.table >>= λ t. some (pos fd, record s { ofile = o; table = t })

abbrev pub dup_file : Option ℕ → Desc → Option (ℤ × Desc)
dup_file none s = some (failed, s)
dup_file (some f) s = dup_to f (fdalloc f s.ofile) s

unfoldable pub sys_dup : ℕ → Desc → Option (ℤ × Desc)
sys_dup fd s = dup_file (argfd fd s.ofile) s

abbrev pub close_file : ℕ → Option ℕ → Desc → Option (ℤ × Desc)
close_file fd none s = some (failed, s)
close_file fd (some f) s =
    close_ref f (record s { ofile = set s.ofile fd none }) >>= λ s'. some (pos 0, s')

unfoldable pub sys_close : ℕ → Desc → Option (ℤ × Desc)
sys_close fd s = close_file fd (argfd fd s.ofile) s

-- The end of a pipe at `page`.
abbrev pub pipe_end : ℕ → Bool → File → File
pipe_end page writer f = record f {
  type = fd_pipe;
  readable = (if writer then false else true);
  writable = writer;
  pipe = page;
}

-- `pipealloc` with both entries, and the page for the pipe.
abbrev pub set_ends : ℕ → ℕ → Option ℕ → Desc → Option (Option (ℕ × ℕ) × Desc)
set_ends f0 f1 none s = close_ref f0 s >>= λ s1. close_ref f1 s1 >>= λ s2. some (none, s2)
set_ends f0 f1 (some page) s =
    let t = modify (modify s.table f0 (pipe_end page false)) f1 (pipe_end page true) in
    some (some (f0, f1), record s { table = t })

abbrev pub second_end : ℕ → Option ℕ → Desc → Option (Option (ℕ × ℕ) × Desc)
second_end f0 none s = close_ref f0 s >>= λ s'. some (none, s')
second_end f0 (some f1) s =
    let (page, k) = kalloc s.kmem in set_ends f0 f1 page (record s { kmem = k })

abbrev pub first_end : Option ℕ → Desc → Option (Option (ℕ × ℕ) × Desc)
first_end none s = some (none, s)
first_end (some f0) s = let (f1, t) = filealloc s.table in second_end f0 f1 (record s { table = t })

-- `pipealloc`: the entries of the two ends, or its failure.
unfoldable pub pipealloc : Desc → Option (Option (ℕ × ℕ) × Desc)
pipealloc s = let (f0, t) = filealloc s.table in first_end f0 (record s { table = t })

-- The way out of `sys_pipe` without a descriptor for both ends.
abbrev pub drop_ends : ℕ → ℕ → Desc → Option (Option (ℕ × ℕ) × Desc)
drop_ends rf wf s = close_ref rf s >>= λ s1. close_ref wf s1 >>= λ s2. some (none, s2)

abbrev pub second_fd :
    ℕ → ℕ → ℕ → Option ℕ × List (Option ℕ) → Desc → Option (Option (ℕ × ℕ) × Desc)
second_fd rf wf fd0 (none, o) s = drop_ends rf wf (record s { ofile = set s.ofile fd0 none })
second_fd rf wf fd0 (some fd1, o) s = some (some (fd0, fd1), record s { ofile = o })

abbrev pub first_fd : ℕ → ℕ → Option ℕ × List (Option ℕ) → Desc → Option (Option (ℕ × ℕ) × Desc)
first_fd rf wf (none, o) s = drop_ends rf wf s
first_fd rf wf (some fd0, o) s = second_fd rf wf fd0 (fdalloc wf o) (record s { ofile = o })

abbrev pub pipe_fds : Option (ℕ × ℕ) → Desc → Option (Option (ℕ × ℕ) × Desc)
pipe_fds none s = some (none, s)
pipe_fds (some (rf, wf)) s = first_fd rf wf (fdalloc rf s.ofile) s

abbrev pub open_pipe : Desc → Option (Option (ℕ × ℕ) × Desc)
open_pipe s = pipealloc s >>= λ r. pipe_fds r.0 r.1

-- The words that `sys_pipe` stores through its pointer: each an address and a descriptor.
abbrev pub stored : ℕ → ℕ × ℕ → List (ℕ × ℕ)
stored fd (fd0, fd1) = (fd, fd0) ∷ ((fd + 4) % 2 ^ 32, fd1) ∷ []

-- `sys_pipe` with what `argptr` makes of its argument, a pointer or a failure: what it stores, or its
-- failure.
unfoldable pub sys_pipe : Option ℕ → Desc → Option (Option (List (ℕ × ℕ)) × Desc)
sys_pipe none s = some (none, s)
sys_pipe (some fd) s = open_pipe s >>= λ q. some (Option.map (stored fd) q.0, q.1)
