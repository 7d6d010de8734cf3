-- ===== src/Log.antt =====
-- p5/xv6-public/log.c: the write-ahead log of the file system.
-- A block is the list of its words. The buffer cache and the IDE driver are modelled by what the log
-- sees of them: `bread` gives a pinned buffer's content, or else the disk's; `bwrite` writes through
-- and ends the pin. `trace` records the writes that reach the disk, oldest first, so that a crash is a
-- prefix of it. `log.lock` makes each step atomic.
pub mod Writes
pub mod Crash
pub mod Commit
pub mod Space
pub mod Full
mod Tests
use cs537pair.Prelude.{
  ℕ, zero, suc, ◌+◌, ◌-◌, ◌*◌, Bool, true, false, ◌||◌, List, [], ◌∷◌, ◌++◌, Option, none, some,
  ltb, leb, ◌==◌, if◌then◌else◌, get_or, take, drop, length, set, find_index,
}

abbrev pub maxopblocks : ℕ
maxopblocks = 10

abbrev pub logsize : ℕ
logsize = maxopblocks * 3

abbrev pub Block : Type 0
Block = List ℕ

abbrev pub Disk : Type 0
Disk = ℕ → Block

abbrev pub Write : Type 0
Write = ℕ × Block

-- The disk, the buffers that `log_write` has pinned, and the disk writes so far.
pub record Store : Type 0 where
  pub disk : Disk
  pub pinned : ℕ → Option Block
  pub trace : List Write

-- `struct log`; `lh` is the list of the `lh.n` block numbers.
pub record Log : Type 0 where
  pub start : ℕ
  pub size : ℕ
  pub outstanding : ℕ
  pub committing : Bool
  pub lh : List ℕ

abbrev pub put_block : ℕ → Block → Disk → Disk
put_block b v d x = if b == x then v else d x

abbrev pub cached : Option Block → Block → Block
cached none v = v
cached (some w) v = w

abbrev pub bread : ℕ → Store → Block
bread b s = cached (s.pinned b) (s.disk b)

unfoldable pub bwrite : ℕ → Block → Store → Store
bwrite b v s = record {
  disk = put_block b v s.disk;
  pinned = λ x. if b == x then none else s.pinned x;
  trace = s.trace ++ ((b, v) ∷ []);
}

-- The loop of `write_log` over the logged blocks, from index `tail` on.
unfoldable pub write_log : ℕ → ℕ → List ℕ → Store → Store
write_log start tail [] s = s
write_log start tail (b ∷ lh) s =
    write_log start (suc tail) lh (bwrite (start + tail + 1) (bread b s) s)

-- The loop of `install_trans`.
unfoldable pub install_trans : ℕ → ℕ → List ℕ → Store → Store
install_trans start tail [] s = s
install_trans start tail (b ∷ lh) s =
    install_trans start (suc tail) lh (bwrite b (bread (start + tail + 1) s) s)

-- The header block: `n` and the block numbers over what the block held.
abbrev pub encode : List ℕ → Block → Block
encode lh old = length lh ∷ (lh ++ drop (length lh + 1) old)

abbrev pub decode : Block → List ℕ
decode h = take (get_or h 0 0) (drop 1 h)

unfoldable pub write_head : ℕ → List ℕ → Store → Store
write_head start lh s = bwrite start (encode lh (bread start s)) s

unfoldable pub read_head : ℕ → Store → List ℕ
read_head start s = decode (bread start s)

-- `commit`: the store, and the log header in memory, which is empty afterwards.
unfoldable pub commit : ℕ → List ℕ → Store → Store
commit start [] s = s
commit start (b ∷ lh) s =
    let logged = write_head start (b ∷ lh) (write_log start 0 (b ∷ lh) s) in
    write_head start [] (install_trans start 0 (b ∷ lh) logged)

-- `recover_from_log`
unfoldable pub recover_from_log : ℕ → Store → Store
recover_from_log start s = write_head start [] (install_trans start 0 (read_head start s) s)

-- `initlog` with the two numbers of the superblock that it reads; the rest of `log` is zero before.
unfoldable pub initlog : ℕ → ℕ → Store → Log × Store
initlog logstart nlog s = (
  record { start = logstart; size = nlog; outstanding = 0; committing = false; lh = [] },
  recover_from_log logstart s,
)

-- The state of `begin_op` and of a part of `end_op` that runs under the lock.
pub data Begun : Type 0 where
  begun : Log → Begun
  sleeps : Begun

-- One round of the loop of `begin_op`.
unfoldable pub begin_op : Log → Begun
begin_op l =
    if l.committing || ltb logsize (length l.lh + (l.outstanding + 1) * maxopblocks)
    then sleeps
    else begun (record l { outstanding = l.outstanding + 1 })

-- The first part of `end_op`: the log, and whether the caller commits; `none` is the panic. The count
-- of operations is an `int`: below 1 it would go negative, which no caller of `begin_op` causes.
unfoldable pub end_op : Log → Option (Log × Bool)
end_op l =
    let l' : Log = record l { outstanding = l.outstanding - 1 } in
    if l.committing
    then none
    else if l'.outstanding == 0
    then some (record l' { committing = true }, true)
    else some (l', false)

-- The last part of `end_op`, behind `commit`.
unfoldable pub end_commit : Log → Log
end_commit l = record l { committing = false; lh = [] }

-- `log_write`: the header with the block in it, and the buffer pinned; `none` is a panic.
abbrev pub absorb_at : ℕ → List ℕ → Option ℕ → List ℕ
absorb_at b lh none = lh ++ (b ∷ [])
absorb_at b lh (some i) = set lh i b

abbrev pub absorb : ℕ → List ℕ → List ℕ
absorb b lh = absorb_at b lh (find_index (λ c. c == b) lh)

unfoldable pub log_write : ℕ → Block → Log → Store → Option (Log × Store)
log_write b v l s =
    if leb logsize (length l.lh) || leb (l.size - 1) (length l.lh)
    then none
    else if ltb l.outstanding 1
    then none
    else some (
      record l { lh = absorb b l.lh },
      record s { pinned = λ x. if b == x then some v else s.pinned x },
    )
