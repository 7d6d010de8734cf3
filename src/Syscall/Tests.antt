-- ===== src/Syscall/Tests.antt =====
-- A process of 64 bytes whose stack pointer is 16 and whose first argument is 32.
use cs537pair.Prelude.{ℕ, ◌≡◌, ◌≢◌, ◌≤◌, ◌<◌, ◌+◌, ◌^◌, refl, some, arith, ◌==◌, if◌then◌else◌}
use cs537pair.Syscall.{fetchint, scan_str, fetchstr, argint, argptr, argstr}
use cs537pair.Syscall.Args.{argptr_lem, argstr_lem}

abbrev mem : ℕ → ℕ
mem a = if a == 20 then 32 else if a == 32 then 47 else 0

points : argptr 64 mem 16 0 32 ≡ some 32
unfolding argptr argint fetchint
points = refl

argptr_lem_example : (32 < 2 ^ 31) × (32 < 64) × (32 + 32 ≤ 64)
argptr_lem_example = argptr_lem 64 mem 16 0 32 32 (omega arith) points

names : argstr 64 mem 16 0 ≡ some (32, 1)
unfolding argstr argint fetchint fetchstr scan_str
names = refl

argstr_lem_example : (32 + 1 < 64) × (mem (32 + 1) ≡ 0) × ((j : ℕ) → j < 1 → mem (32 + j) ≢ 0)
argstr_lem_example = argstr_lem 64 mem 16 0 32 1 names
