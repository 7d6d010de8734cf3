-- ===== src/Wmap/Fork.antt =====
-- p4/xv6-public/proc.c: what `fork` does with the mappings.
use cs537pair.Prelude.{List, [], ◌∷◌, if◌then◌else◌}
use cs537pair.Wmap.{MapEn}

-- A round of the loop that copies the mappings of the parent to those of the child; it tests the child's.
abbrev pub copy_map : MapEn → MapEn → MapEn
copy_map c n =
    if n.valid
    then record n { valid = c.valid; addr = c.addr; length = c.length; lpgs = c.lpgs }
    else n

unfoldable pub copy_maps : List MapEn → List MapEn → List MapEn
copy_maps [] ns = ns
copy_maps (c ∷ cs) [] = []
copy_maps (c ∷ cs) (n ∷ ns) = copy_map c n ∷ copy_maps cs ns
