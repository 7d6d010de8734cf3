-- ===== src/Fs/Bitmap.antt =====
-- p5/xv6-public/fs.c: the free bit map, `balloc` and `bfree`.
-- A view gives the bytes of each block as the buffer cache has them; `log_write` only pins the buffer,
-- see Log. `none` is a panic.
pub mod Bits
pub mod Alloc
use cs537pair.Prelude.{
  ℕ, zero, suc, ◌+◌, ◌-◌, ◌*◌, ◌/◌, ◌%◌, ◌^◌, Bool, true, false, not, List, [], ◌∷◌, Option, none,
  some, ltb, ◌==◌, if◌then◌else◌, get_or, set, replicate,
}

abbrev pub bsize : ℕ
bsize = 512

abbrev pub bpb : ℕ
bpb = 4096

-- `struct superblock`
pub record Super : Type 0 where
  pub size : ℕ
  pub nblocks : ℕ
  pub ninodes : ℕ
  pub nlog : ℕ
  pub logstart : ℕ
  pub inodestart : ℕ
  pub bmapstart : ℕ

abbrev pub View : Type 0
View = ℕ → List ℕ

abbrev pub put_block : ℕ → List ℕ → View → View
put_block b v d x = if b == x then v else d x

-- `(byte & (1 << i)) != 0`
abbrev pub bit_of : ℕ → ℕ → Bool
bit_of byte i = byte / 2 ^ i % 2 == 1

-- `(bp->data[bi/8] & m) != 0`
unfoldable pub test_bit : List ℕ → ℕ → Bool
test_bit bytes bi = bit_of (get_or bytes (bi / 8) 0) (bi % 8)

-- `bp->data[bi/8] |= m` where the bit is 0, so that `|` adds it.
unfoldable pub mark : List ℕ → ℕ → List ℕ
mark bytes bi = set bytes (bi / 8) (get_or bytes (bi / 8) 0 + 2 ^ (bi % 8))

-- `bp->data[bi/8] &= ~m` where the bit is 1, so that `& ~` takes it away.
unfoldable pub unmark : List ℕ → ℕ → List ℕ
unmark bytes bi = set bytes (bi / 8) (get_or bytes (bi / 8) 0 - 2 ^ (bi % 8))

unfoldable pub bzero : ℕ → View → View
bzero bno v = put_block bno (replicate bsize 0) v

module _ (sb : Super) where
  -- `BBLOCK`
  abbrev pub bblock : ℕ → ℕ
  bblock b = b / bpb + sb.bmapstart

  -- The inner loop of `balloc`, with `left` bits from bit `bi` on, in the block for `b` and what follows.
  unfoldable pub scan_bits : ℕ → ℕ → ℕ → List ℕ → Option ℕ
  scan_bits zero b bi bytes = none
  scan_bits (suc left) b bi bytes =
      let rest = scan_bits left b (bi + 1) bytes in
      if not (ltb (b + bi) sb.size) then none else if not (test_bit bytes bi) then some bi else rest

  -- The outer loop, with fuel for its rounds.
  unfoldable pub balloc_loop : ℕ → ℕ → View → Option (ℕ × View)
  balloc_loop zero b v = none
  balloc_loop (suc fuel) b v =
      if not (ltb b sb.size) then none else elim (scan_bits bpb b 0 (v (bblock b))) [
        | none ↦ balloc_loop fuel (b + bpb) v
        | some bi ↦ some (b + bi, bzero (b + bi) (put_block (bblock b) (mark (v (bblock b)) bi) v))
      ]

  -- One round for each block of the map is enough.
  unfoldable pub balloc : View → Option (ℕ × View)
  balloc v = balloc_loop (sb.size / bpb + 1) 0 v

  unfoldable pub bfree : ℕ → View → Option View
  bfree b v =
      if not (test_bit (v (bblock b)) (b % bpb))
      then none
      else some (put_block (bblock b) (unmark (v (bblock b)) (b % bpb)) v)
