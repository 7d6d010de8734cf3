-- ===== src/Wmap/Search.antt =====
-- The loop of `wmap` that looks for space, with a mapping at the bottom of the region.
use cs537pair.Prelude.{◌<◌, ◌≡◌, true, ◌%◌}
use cs537pair.Wmap.{MapEn, userboundary, pgsize}

-- A mapping of whole pages from the bottom of the region.
pub record IsBottom (e : MapEn) : Type 0 where
  pub valid : e.valid ≡ true
  pub addr : e.addr ≡ userboundary
  pub positive : 0 < e.length
  pub pages : e.length % pgsize ≡ 0
