-- ===== src/File.antt =====
-- p5/xv6-public/file.c: the table of open files and its reference counts.
-- A `struct file *` is an index into `ftable.file`. `ftable.lock` makes each call atomic; what
-- `fileclose` calls behind it is returned as an action.
pub mod Counts
mod Tests
use cs537pair.Prelude.{
  ℕ, zero, suc, ◌+◌, ◌-◌, ◌*◌, ◌/◌, Bool, true, false, List, [], ◌∷◌, Option, none, some, ltb, ◌==◌,
  if◌then◌else◌, find_index, modify, get_elem?, ◌>>=◌,
}
use cs537pair.Prelude.Int.{ℤ, pos, negsuc}

pub data FileType : Type 0 where
  fd_none fd_pipe fd_inode : FileType

-- `struct file`
pub record File : Type 0 where
  pub type : FileType
  pub ref : ℕ
  pub readable : Bool
  pub writable : Bool
  pub pipe : ℕ
  pub ip : ℕ
  pub off : ℕ

abbrev pub Ftable : Type 0
Ftable = List File

abbrev pub is_free : File → Bool
is_free f = f.ref == 0

abbrev pub alloc_file : Ftable → Option ℕ → Option ℕ × Ftable
alloc_file t none = (none, t)
alloc_file t (some i) = (some i, modify t i (λ f. record f { ref = 1 }))

unfoldable pub filealloc : Ftable → Option ℕ × Ftable
filealloc t = alloc_file t (find_index is_free t)

-- `none` is the panic.
unfoldable pub filedup : ℕ → Ftable → Option Ftable
filedup i t = get_elem? t i >>= λ f.
    if ltb f.ref 1 then none else some (modify t i (λ g. record g { ref = g.ref + 1 }))

-- What `fileclose` goes on to do for the last reference.
pub data Action : Type 0 where
  nothing : Action
  close_pipe : ℕ → Bool → Action
  put_inode : ℕ → Action

abbrev pub last_close : File → FileType → Action
last_close f fd_none = nothing
last_close f fd_pipe = close_pipe f.pipe f.writable
last_close f fd_inode = put_inode f.ip

abbrev pub free_file : File → File
free_file f = record f { ref = 0; type = fd_none }

-- `fileclose`: whether the entry is free afterwards, the action, and the table.
unfoldable pub fileclose : ℕ → Ftable → Option (Bool × Action × Ftable)
fileclose i t = get_elem? t i >>= λ f.
    if ltb f.ref 1
    then none
    else if ltb 0 (f.ref - 1)
    then some (false, nothing, modify t i (λ g. record g { ref = g.ref - 1 }))
    else some (true, last_close f f.type, modify t i free_file)

-- The most that `filewrite` writes in one transaction.
abbrev pub max_write : ℕ
max_write = (10 - 1 - 1 - 2) / 2 * 512

abbrev pub chunk : ℕ → ℕ
chunk left = if ltb max_write left then max_write else left

module _ {S : Type 0} (writei : ℕ → ℕ → ℕ → S → Option (ℤ × S)) where
  -- The loop of `filewrite` on an inode, with `left` bytes from index `i` on, and fuel for its rounds;
  -- `writei i off n` writes `n` bytes. It returns the bytes written, the offset and the state.
  unfoldable pub write_loop : ℕ → ℕ → ℕ → ℕ → S → Option (ℕ × ℕ × S)
  write_loop zero i left off s = none
  write_loop (suc fuel) i left off s =
      let n1 = chunk left in
      let next : ℤ × S → Option (ℕ × ℕ × S) =
        λ r. after n1 r.0 r.1 (λ s'. write_loop fuel (i + n1) (left - n1) (off + n1) s') in
      if left == 0 then some (i, off, s) else (writei i off n1 s >>= next)
    where
      after : ℕ → ℤ → S → (S → Option (ℕ × ℕ × S)) → Option (ℕ × ℕ × S)
      after n1 (negsuc m) s' k = some (i, off, s')
      after n1 (pos m) s' k = if m == n1 then k s' else none
