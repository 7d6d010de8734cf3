-- ===== src/Uvm/Tests.antt =====
-- A page directory that two threads share, on an array of two descriptors.
use cs537pair.Prelude.{find_index, ◌≡◌, ◌≢◌, refl, inl, inr, List, [], ◌∷◌, none, some, Bool}
use cs537pair.Prelude.Int.{pos, negsuc}
use cs537pair.Uvm.{Uvmdesc, is_free, share, drop_ref}
use cs537pair.Uvm.Counts.{refs, IsValid}
use cs537pair.Uvm.Sharing.{Shares, Drops, share_lem, drop_ref_lem}

abbrev free : Uvmdesc
free = record { pgdir = 0; refcount = negsuc 0 }

abbrev shared : List Uvmdesc
shared = record { pgdir = 7; refcount = pos 2 } ∷ free ∷ []

shared-IsValid : IsValid shared
unfolding refs
shared-IsValid = (inr (1, refl), (λ e. refl), (inl refl, (λ e. refl), tt))

share_lem_example : Shares 7 shared (share 7 shared)
share_lem_example = share_lem 7 shared shared-IsValid has_room
  where
    has_room : refs 7 shared ≡ none → find_index is_free shared ≢ none
    has_room e f = absurd (cc)

drop_ref_lem_example :
    (last : Bool) × (u : List Uvmdesc) × (drop_ref 7 shared ≡ some (last, u))
    × Drops 7 shared last u
drop_ref_lem_example = drop_ref_lem 7 shared shared-IsValid
