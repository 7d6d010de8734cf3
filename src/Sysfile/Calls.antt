-- ===== src/Sysfile/Calls.antt =====
-- Any sequence of the calls `sys_dup`, `sys_close` and `sys_pipe` of p5/xv6-public/sysfile.c.
use cs537pair.Prelude.{ℕ, ◌≡◌, refl, List, [], ◌∷◌, Option, some, ◌>>=◌}
use cs537pair.Sysfile.{Desc, sys_dup, sys_close, sys_pipe}
use cs537pair.Sysfile.Descriptors.{IsConsistent, sys_dup-Keeps, sys_close-Keeps}
use cs537pair.Sysfile.Pipes.{sys_pipe-Opens}

pub data Call : Type 0 where
  dup : ℕ → Call
  close : ℕ → Call
  pipe : Option ℕ → Call

-- The calls one after the other.
unfoldable pub run : List Call → Desc → Option Desc
run [] s = some s
run (dup fd ∷ cs) s = sys_dup fd s >>= λ r. run cs r.1
run (close fd ∷ cs) s = sys_close fd s >>= λ r. run cs r.1
run (pipe arg ∷ cs) s = sys_pipe arg s >>= λ r. run cs r.1

-- Where each file counts the descriptors of the process and the references of others, and the descriptors hold
-- entries of the table: any calls of `dup`, `close` and `pipe`, in any order and with any arguments, a
-- pointer that `argptr` refuses included, end without a panic of the descriptors, the table of files and the
-- page allocator, and leave it so. The `pipeclose` and `iput` calls behind `fileclose` are noted in
-- `after` and not run: whether they panic is not stated.
pub run-IsConsistent :
    (others : List ℕ) (cs : List Call) (s : Desc)
    → IsConsistent others s
    → (s' : Desc) × (run cs s ≡ some s') × IsConsistent others s'
unfolding run
run-IsConsistent others [] s v = (s, refl, v)
run-IsConsistent others (dup fd ∷ cs) s v =
    let (n, s1, e, v1) = sys_dup-Keeps others fd s v in
    let (s', q, v') = run-IsConsistent others cs s1 v1 in (s', rw (e, q) refl, v')
run-IsConsistent others (close fd ∷ cs) s v =
    let (n, s1, e, v1) = sys_close-Keeps others fd s v in
    let (s', q, v') = run-IsConsistent others cs s1 v1 in (s', rw (e, q) refl, v')
run-IsConsistent others (pipe arg ∷ cs) s v =
    let (n, s1, e, v1) = sys_pipe-Opens others arg s v in
    let (s', q, v') = run-IsConsistent others cs s1 v1 in (s', rw (e, q) refl, v')
