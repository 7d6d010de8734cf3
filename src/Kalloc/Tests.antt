-- ===== src/Kalloc/Tests.antt =====
-- A free list of one page.
use cs537pair.Prelude.{◌≡◌, refl, [], ◌∷◌, some, arith, true}
use cs537pair.Kalloc.{Kmem, freerange}
use cs537pair.Kalloc.Safety.{IsValid, Allocates, kalloc-kfree}
use cs537pair.Kalloc.Range.{freerange_lem}

abbrev free_page : Kmem
free_page = record { use_lock = true; freelist = 0x80400000 ∷ [] }

free_page-IsValid : IsValid 0x80115000 free_page
free_page-IsValid = record { distinct = (tt, tt); usable = (refl, tt) }

kalloc-kfree_example : Allocates 0x80115000 free_page
kalloc-kfree_example = kalloc-kfree 0x80115000 free_page free_page-IsValid

freerange_lem_example :
    (freerange 0x80115000 0x80400FFF 0x80403000 (record free_page { freelist = 0x80400000 ∷ [] })
      ≡ some (record free_page { freelist = 0x80402000 ∷ 0x80401000 ∷ 0x80400000 ∷ [] }))
    × IsValid 0x80115000 (record free_page { freelist = 0x80402000 ∷ 0x80401000 ∷ 0x80400000 ∷ [] })
freerange_lem_example =
    freerange_lem 0x80115000 0x80400FFF 0x80403000 free_page (omega arith) (omega arith)
      (omega arith) (omega arith) (omega arith, tt) free_page-IsValid
