-- ===== src/Pipe/Tests.antt =====
-- A new pipe whose counters are about to wrap around.
use cs537pair.Prelude.{◌≡◌, refl, ◌++◌, ◌-◌, ◌^◌, [], ◌∷◌, true, false, arith, replicate}
use cs537pair.Prelude.Int.{pos}
use cs537pair.Pipe.{Pipe, returned, got, put, take_byte, pipewrite, piperead, read_loop}
use cs537pair.Pipe.Ring.{IsValid, contents}
use cs537pair.Pipe.Transfer.{
  WriteDoes, ReadDoes, idle, wrote, read, pipewrite_lem, piperead_lem, Stream-fifo,
}

abbrev fresh : Pipe
fresh = record {
  buf = replicate 512 0;
  nread = 2 ^ 32 - 1;
  nwrite = 2 ^ 32 - 1;
  readopen = true;
  writeopen = true;
}

fresh-IsValid : IsValid fresh
fresh-IsValid = record {
  room = refl;
  reads = omega arith;
  writes = omega arith;
  bound = omega arith;
}

pipewrite_lem_example : WriteDoes false 2 (8 ∷ 9 ∷ []) fresh (pipewrite false 2 (8 ∷ 9 ∷ []) fresh)
pipewrite_lem_example = pipewrite_lem false 2 (8 ∷ 9 ∷ []) fresh fresh-IsValid

abbrev filled : Pipe
filled = put 9 (put 8 fresh)

abbrev drained : Pipe
drained = (take_byte filled).1

writes : pipewrite false 2 (8 ∷ 9 ∷ []) fresh ≡ returned (pos 2) true filled
unfolding pipewrite put
writes = refl

reads : piperead false 1 filled ≡ got (8 ∷ []) true drained
unfolding piperead read_loop take_byte put
reads = refl

piperead_lem_example : ReadDoes false 1 fresh (piperead false 1 fresh)
piperead_lem_example = piperead_lem false 1 fresh fresh-IsValid

Stream-fifo_example :
    (contents fresh ++ (8 ∷ 9 ∷ []) ≡ (8 ∷ []) ++ contents drained) × IsValid drained
Stream-fifo_example =
    Stream-fifo fresh-IsValid
      (wrote false 2 (8 ∷ 9 ∷ []) writes (read false 1 (8 ∷ []) reads (idle drained)))
