-- ===== src/Kalloc/Safety.antt =====
-- Every page has one owner: a page that is handed out is not on the free list.
use cs537pair.Prelude.{
  ℕ, Bool, ◌≡◌, refl, List, [], ◌∷◌, none, some, arith, All, IsFresh, IsDistinct, false,
}
use cs537pair.Kalloc.{Kmem, kalloc, kfree, bad_page}

module _ (end : ℕ) where
  -- The free pages are pages that `kfree` accepts, and no page is free twice.
  pub record IsValid (k : Kmem) : Type 0 where
    pub distinct : IsDistinct k.freelist
    pub usable : All (λ v. bad_page end v ≡ false) k.freelist

  -- What a caller of `kalloc` relies on.
  abbrev pub Allocates : Kmem → Type 0
  Allocates k =
      let (page, k') = kalloc k in
      IsValid k'
      × (page ≡ none → (k.freelist ≡ []) × (k' ≡ k))
      × ((r : ℕ)
          → page ≡ some r
          → IsFresh r k'.freelist × (bad_page end r ≡ false) × (kfree end r k' ≡ some k))

  kalloc-kfree_on :
      (b : Bool) (l : List ℕ)
      → IsValid (record { use_lock = b; freelist = l })
      → Allocates (record { use_lock = b; freelist = l })
  unfolding kalloc kfree
  kalloc-kfree_on b [] v = (v, (λ _. (refl, refl)), λ r h. absurd (cc))
  kalloc-kfree_on b (p ∷ l) v = (
    record { distinct = v.distinct.1; usable = v.usable.1 },
    λ h. absurd (cc),
    λ r h. let e : r ≡ p = cc in rw e (v.distinct.0, v.usable.0, rw (v.usable.0, ◌≡◌) refl),
  )

  -- From a valid free list `kalloc` either finds it empty and changes nothing, or hands out a usable
  -- page that the list no longer has; the list stays valid, and `kfree` of that page undoes the call.
  pub kalloc-kfree : (k : Kmem) → IsValid k → Allocates k
  kalloc-kfree k v = kalloc-kfree_on k.use_lock k.freelist v

  -- `kfree` of a page that is not free already keeps the free list valid.
  pub kfree-IsValid :
      (v : ℕ) (k : Kmem) {k' : Kmem}
      → IsFresh v k.freelist
      → kfree end v k ≡ some k'
      → IsValid k
      → IsValid k'
  unfolding kfree
  kfree-IsValid v k f e w = ground arith
