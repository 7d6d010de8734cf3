-- ===== src/Fs/Truncate/Tests.antt =====
-- A file with two blocks of its own and one by an indirect block.
use cs537pair.Prelude.{
  ℕ, ◌<◌, ◌≡◌, ◌∙◌, refl, ap, sym, subst, true, [], ◌∷◌, ◌++◌, some, arith, replicate, ◌==◌,
  if◌then◌else◌, All, IsDistinct,
}
use cs537pair.Fs.Bitmap.{View, bblock, test_bit}
use cs537pair.Fs.Bitmap.Bits.{IsMap}
use cs537pair.Fs.Bitmap.Alloc.{used, IsSound}
use cs537pair.Fs.Inode.{Inode, iblock}
use cs537pair.Fs.Icache.{itrunc}
use cs537pair.Fs.Samples.{sb, disk, file, map_bytes-IsMap}
use cs537pair.Fs.Truncate.{Truncated, itrunc_lem}
use cs537pair.Fs.Truncate.Free.{IsData, IsOutside}
use cs537pair.Fs.Truncate.Loops.{blocks_of, live}

abbrev full_disk : View
full_disk b = if b == 12 then 11 ∷ replicate 511 0 else disk b

abbrev full_file : Inode
full_file = record file { inum = 1; addrs = 13 ∷ 0 ∷ 14 ∷ replicate 9 0 ++ (12 ∷ []) }

the_blocks : blocks_of full_file full_disk ≡ 13 ∷ 14 ∷ 11 ∷ 12 ∷ []
unfolding live
the_blocks = refl

full_disk-IsSound : IsSound sb full_disk
unfolding test_bit
full_disk-IsSound = record {
  maps = λ b l. subst (λ x. IsMap (full_disk x)) (at b l) map_bytes-IsMap;
  own = λ b c l k e. let w : b ≡ 2 = e ∙ sym (at c k) in ap (λ x. used sb x full_disk) w ∙ two;
}
  where
    at : (b : ℕ) → b < 64 → 2 ≡ bblock sb b
    at b l = omega arith

    two : used sb 2 full_disk ≡ true
    two = refl

outside : (b : ℕ) → 2 < b → IsOutside sb b
outside b l c k e = omega (arith, l, k, e)

IsData-blocks : All (IsData sb full_disk) (13 ∷ 14 ∷ 11 ∷ 12 ∷ [])
unfolding test_bit
IsData-blocks = (
  (omega arith, refl, outside 13 (omega arith)),
  (
    (omega arith, refl, outside 14 (omega arith)),
    (
      (omega arith, refl, outside 11 (omega arith)),
      ((omega arith, refl, outside 12 (omega arith)), tt),
    ),
  ),
)

IsDistinct-blocks : IsDistinct (13 ∷ 14 ∷ 11 ∷ 12 ∷ [])
IsDistinct-blocks = (
  ((λ e. omega (arith, e)), ((λ e. omega (arith, e)), ((λ e. omega (arith, e)), tt))),
  (
    ((λ e. omega (arith, e)), ((λ e. omega (arith, e)), tt)),
    (((λ e. omega (arith, e)), tt), (tt, tt)),
  ),
)

itrunc_lem_example :
    (ip : Inode) × (v : View) × (itrunc sb full_file full_disk ≡ some (ip, v))
    × Truncated sb full_file full_disk ip v
itrunc_lem_example =
    itrunc_lem sb full_file full_disk full_disk-IsSound
      (subst IsDistinct (sym the_blocks) IsDistinct-blocks)
      (subst (All (IsData sb full_disk)) (sym the_blocks) IsData-blocks)
      (outside (iblock sb 1) (omega arith))
