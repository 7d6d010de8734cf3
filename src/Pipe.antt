-- ===== src/Pipe.antt =====
-- p5/xv6-public/pipe.c: a pipe as a ring of PIPESIZE bytes between one reader and one writer.
-- `nread` and `nwrite` are `uint` and wrap around. A call runs under `p->lock` between two sleeps,
-- so each is a number of steps; what the other end does while a call sleeps comes in between.
pub mod Ring
pub mod Transfer
mod Tests
use cs537pair.Prelude.{
  ℕ, zero, suc, ◌+◌, ◌%◌, ◌^◌, Bool, true, false, ◌&&◌, ◌||◌, not, List, [], ◌∷◌, Option, none,
  some, ◌==◌, if◌then◌else◌, get_or, set, replicate,
}
use cs537pair.Prelude.Int.{ℤ, pos, negsuc}

abbrev pub pipesize : ℕ
pipesize = 512

-- `uint` addition.
abbrev pub u32 : ℕ → ℕ
u32 n = n % 2 ^ 32

-- `struct pipe`
pub record Pipe : Type 0 where
  pub buf : List ℕ
  pub nread : ℕ
  pub nwrite : ℕ
  pub readopen : Bool
  pub writeopen : Bool

-- The pipe that `pipealloc` sets up in a new page.
abbrev pub pipealloc : List ℕ → Pipe
pipealloc page = record { buf = page; nread = 0; nwrite = 0; readopen = true; writeopen = true }

abbrev pub is_full : Pipe → Bool
is_full p = p.nwrite == u32 (p.nread + pipesize)

abbrev pub is_empty : Pipe → Bool
is_empty p = p.nread == p.nwrite

-- `p->data[p->nwrite++ % PIPESIZE] = c`
unfoldable pub put : ℕ → Pipe → Pipe
put c p = record p { buf = set p.buf (p.nwrite % pipesize) c; nwrite = u32 (p.nwrite + 1) }

-- `p->data[p->nread++ % PIPESIZE]`
unfoldable pub take_byte : Pipe → ℕ × Pipe
take_byte p = (get_or p.buf (p.nread % pipesize) 0, record p { nread = u32 (p.nread + 1) })

-- What a call does before it returns or sleeps: its result; or the bytes still to write, with the
-- writer asleep on `nwrite`. The `Bool` says whether it has called `wakeup` for the other end by then.
pub data Outcome : Type 0 where
  returned : ℤ → Bool → Pipe → Outcome
  sleeping : List ℕ → Bool → Pipe → Outcome

-- `pipewrite`, from the bytes `addr + i` on, in a call for `n` bytes; after a sleep it goes on with
-- the bytes that are left. A full pipe whose reader is gone, or a caller that is killed, fails.
unfoldable pub pipewrite : Bool → ℕ → List ℕ → Pipe → Outcome
pipewrite killed n [] p = returned (pos n) true p
pipewrite killed n (c ∷ cs) p = elim (is_full p) [
  | true ↦
      if not p.readopen || killed then returned (negsuc 0) false p else sleeping (c ∷ cs) true p
  | false ↦ pipewrite killed n cs (put c p)
]

-- The copy loop of `piperead`: what it has read, and the pipe.
unfoldable pub read_loop : ℕ → Pipe → List ℕ × Pipe
read_loop zero p = ([], p)
read_loop (suc n) p = elim (is_empty p) [
  | true ↦ ([], p)
  | false ↦ let (c, p') = take_byte p in let (cs, q) = read_loop n p' in (c ∷ cs, q)
]

pub data ReadOutcome : Type 0 where
  got : List ℕ → Bool → Pipe → ReadOutcome
  fails : ReadOutcome
  waits : ReadOutcome

-- `piperead`; after a sleep it starts again.
unfoldable pub piperead : Bool → ℕ → Pipe → ReadOutcome
piperead killed n p =
    if is_empty p && p.writeopen
    then (if killed then fails else waits)
    else (let (cs, q) = read_loop n p in got cs true q)

-- `pipeclose`: the pipe, and whether its page is freed. It wakes the other end in either case.
unfoldable pub pipeclose : Bool → Pipe → Pipe × Bool
pipeclose writable p =
    let p' : Pipe =
      if writable then record p { writeopen = false } else record p { readopen = false } in
    (p', not p'.readopen && not p'.writeopen)
