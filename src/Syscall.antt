-- ===== src/Syscall.antt =====
-- p5/xv6-public/syscall.c: how the kernel reads the arguments of a system call from user memory.
-- An address and an `int` argument are patterns below 2 ^ 32, and sums wrap around. `mem` gives the
-- bytes of the address space. `none` is the failure with -1.
pub mod Args
mod Tests
use cs537pair.Prelude.{
  ℕ, zero, suc, ◌+◌, ◌-◌, ◌*◌, ◌%◌, ◌^◌, Bool, true, false, ◌||◌, Option, none, some, ltb, leb,
  ◌==◌, if◌then◌else◌, ◌>>=◌,
}

abbrev pub u32 : ℕ → ℕ
u32 n = n % 2 ^ 32

-- The four bytes at an address, the low one first.
abbrev pub load : (ℕ → ℕ) → ℕ → ℕ
load mem a = mem a + 256 * mem (a + 1) + 65536 * mem (a + 2) + 16777216 * mem (a + 3)

module _ (sz : ℕ) (mem : ℕ → ℕ) where
  unfoldable pub fetchint : ℕ → Option ℕ
  fetchint addr = if leb sz addr || ltb sz (u32 (addr + 4)) then none else some (load mem addr)

  -- The loop of `fetchstr`, with `left` bytes from `s` to the end of the process's memory.
  unfoldable pub scan_str : ℕ → ℕ → Option ℕ
  scan_str zero s = none
  scan_str (suc left) s = elim (mem s == 0) [
    | true ↦ some 0
    | false ↦ scan_str left (s + 1) >>= λ n. some (suc n)
  ]

  -- The length of the string.
  unfoldable pub fetchstr : ℕ → Option ℕ
  fetchstr addr = if leb sz addr then none else scan_str (sz - addr) addr

  -- `esp` is the saved stack pointer of the user.
  unfoldable pub argint : ℕ → ℕ → Option ℕ
  argint esp n = fetchint (u32 (esp + 4 + 4 * n))

  -- A size from 2 ^ 31 on is negative.
  unfoldable pub argptr : ℕ → ℕ → ℕ → Option ℕ
  argptr esp n size = argint esp n >>= λ i.
      if leb (2 ^ 31) size || (leb sz i || ltb sz (u32 (i + size))) then none else some i

  -- The address of the string and its length.
  unfoldable pub argstr : ℕ → ℕ → Option (ℕ × ℕ)
  argstr esp n = argint esp n >>= λ addr. fetchstr addr >>= λ len. some (addr, len)
