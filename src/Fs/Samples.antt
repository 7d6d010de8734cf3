-- ===== src/Fs/Samples.antt =====
-- A small disk: inodes from block 10 on, the map in block 2, and block 20 of a directory or a file.
use cs537pair.Prelude.{
  ℕ, zero, suc, ◌<◌, ◌≡◌, refl, arith, get_or, true, List, ◌∷◌, Option, none, ◌==◌, if◌then◌else◌,
  replicate,
}
use cs537pair.Fs.Bitmap.Bits.{IsMap}
use cs537pair.Prelude.Int.{ℤ}
use cs537pair.Fs.Bitmap.{Super, View}
use cs537pair.Fs.Inode.{Inode, t_dir}

abbrev pub sb : Super
sb = record {
  size = 64;
  nblocks = 40;
  ninodes = 32;
  nlog = 4;
  logstart = 3;
  inodestart = 10;
  bmapstart = 2;
}

abbrev pub map_bytes : List ℕ
map_bytes = 255 ∷ 127 ∷ replicate 510 0

abbrev pub disk : View
disk b = if b == 2 then map_bytes else replicate 512 0

abbrev pub file : Inode
file = record {
  dev = 1;
  inum = 9;
  ref = 1;
  valid = true;
  type = 2;
  major = 0;
  minor = 0;
  nlink = 1;
  size = 100;
  addrs = 20 ∷ replicate 12 0;
}

abbrev pub no_read : Inode → ℕ → Unit {0} → Option (ℤ × List ℕ × Unit {0})
no_read ip n s = none

abbrev pub no_write : Inode → List ℕ → Unit {0} → Option (ℤ × Unit {0})
no_write ip bytes s = none

abbrev pub folder : Inode
folder = record file { type = t_dir; size = 16 }

pub get_or-replicate : (n i : ℕ) → ◌≡◌ {A = ℕ} (get_or (replicate n 0) i 0) 0
get_or-replicate zero i = refl
get_or-replicate (suc n) zero = refl
get_or-replicate (suc n) (suc i) = get_or-replicate n i

pub map_bytes-IsMap : IsMap map_bytes
map_bytes-IsMap = record { size = refl; bounded = below }
  where
    below : (i : ℕ) → get_or map_bytes i 0 < 256
    below zero = omega arith
    below (suc zero) = omega arith
    below (suc (suc i)) = omega (arith, get_or-replicate 510 i)
