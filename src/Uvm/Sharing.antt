-- ===== src/Uvm/Sharing.antt =====
-- What `clone` and `freevm` make of the counts.
use cs537pair.Prelude.{
  ℕ, zero, suc, ◌≡◌, ◌≢◌, inl, inr, refl, Bool, true, false, List, none, some, arith, find_index,
  Option-cases, get_or,
}
use cs537pair.Prelude.Int.{ℤ, pos, negsuc, ◌+ℤ◌}
use cs537pair.Uvm.{
  Uvmdesc, is_free, describes, locate_uvmrefcount, allocate_uvmrefcount, share, decrement,
  store_count, drop_ref, zero_desc,
}
use cs537pair.Uvm.Counts.{
  IsValid, refs, users, modify_first, modify-find_index, refs_of_locate, refs-none, bump, put,
  reset, refs-bump, bump-IsValid, refs-put, put-IsValid, refs-reset, refs-free, reset-IsValid,
  free-IsValid, refs-IsCount,
}

-- One more process uses page directory `p`, and nothing else changes.
pub record Shares (p : ℕ) (u u' : List Uvmdesc) : Type 0 where
  pub more : users p u' ≡ suc (users p u)
  pub others : (q : ℕ) → q ≢ p → refs q u' ≡ refs q u
  pub valid : IsValid u'

share_located :
    (p i : ℕ) (u : List Uvmdesc)
    → find_index (describes p) u ≡ some i
    → share p u ≡ modify_first (describes p) bump u
unfolding share locate_uvmrefcount
share_located p i u e = rw (e, share) (modify-find_index (describes p) bump u i e)

share_new :
    (p i : ℕ) (u : List Uvmdesc)
    → find_index (describes p) u ≡ none
    → find_index is_free u ≡ some i
    → share p u ≡ modify_first is_free (put p) u
unfolding share locate_uvmrefcount allocate_uvmrefcount
share_new p i u e f =
    rw (e, share) (rw (f, allocate_uvmrefcount) (modify-find_index is_free (put p) u i f))

-- In a valid array with a free descriptor, or one for the page directory, `clone` counts one more
-- user of the page directory, leaves every other count alone, and keeps the array valid.
pub share_lem :
    (p : ℕ) (u : List Uvmdesc)
    → IsValid u
    → (refs p u ≡ none → find_index is_free u ≢ none)
    → Shares p u (share p u)
unfolding ◌+ℤ◌
share_lem p u v room = elim (Option-cases (find_index (describes p) u)) [
  | inr (i, e) ↦
      let (n, c) = refs-IsCount p u v (refs_of_locate p u i e) in
      rw (share_located p i u e) (record {
        more = ground (arith, refs-bump p p u v, refs_of_locate p u i e);
        others = λ q d. ground (arith, refs-bump p q u v);
        valid = bump-IsValid p u v;
      })
  | inl e ↦ elim (Option-cases (find_index is_free u)) [
    | inl full ↦ absurd (room (refs-none p u e) full)
    | inr (i, f) ↦
        let absent = refs-none p u e in
        rw (share_new p i u e f) (record {
          more = ground (arith, refs-put p p u absent, f);
          others = λ q d. ground (arith, refs-put p q u absent, f);
          valid = put-IsValid p u v absent;
        })
  ]
]

-- `freevm` drops a use of page directory `p`; `last` says that it frees the pages.
pub record Drops (p : ℕ) (u : List Uvmdesc) (last : Bool) (u' : List Uvmdesc) : Type 0 where
  pub frees : last ≡ true → (users p u ≡ 1) × (refs p u' ≡ none)
  pub keeps : last ≡ false → users p u ≡ suc (users p u')
  pub others : (q : ℕ) → q ≢ p → refs q u' ≡ refs q u
  pub valid : IsValid u'

decrement_one : decrement (pos 1) ≡ some (true, negsuc 0)
unfolding decrement ◌+ℤ◌
decrement_one = refl

decrement_more : (n : ℕ) → decrement (pos (suc (suc n))) ≡ some (false, pos (suc n))
unfolding decrement ◌+ℤ◌
decrement_more n = ground arith

stored :
    (b : Bool) (c : ℤ) (i : ℕ) (u : List Uvmdesc) (p : ℕ)
    → find_index (describes p) u ≡ some i
    → store_count u i (some (b, c)) ≡ some (b, modify_first (describes p) (reset c) u)
stored b c i u p e = rw (modify-find_index (describes p) (reset c) u i e) refl

drop_located :
    (p i n : ℕ) (u : List Uvmdesc)
    → IsValid u
    → refs p u ≡ some (pos (suc n))
    → (get_or u i zero_desc).refcount ≡ pos (suc n)
    → find_index (describes p) u ≡ some i
    → (last : Bool) × (u' : List Uvmdesc) × (drop_ref p u ≡ some (last, u')) × Drops p u last u'
unfolding drop_ref locate_uvmrefcount ◌+ℤ◌
drop_located p i zero u v r c e = (
  true,
  modify_first (describes p) (reset (negsuc 0)) u,
  rw (e, drop_ref) (rw (c, decrement_one) (stored true (negsuc 0) i u p e)),
  record {
    frees = λ _. (rw r refl, ground (arith, refs-free p p u v));
    keeps = λ h. absurd (cc);
    others = λ q d. ground (arith, refs-free p q u v);
    valid = free-IsValid p u v;
  },
)
drop_located p i (suc n) u v r c e = (
  false,
  modify_first (describes p) (reset (pos (suc n))) u,
  rw (e, drop_ref) (rw (c, decrement_more n) (stored false (pos (suc n)) i u p e)),
  record {
    frees = λ h. absurd (cc);
    keeps = λ _. ground (arith, refs-reset p p (pos (suc n)) u v, r);
    others = λ q d. ground (arith, refs-reset p q (pos (suc n)) u v);
    valid = reset-IsValid p n u v;
  },
)

-- On a valid array `freevm` does not panic at the count. It goes on to free the pages exactly when the
-- caller was the only user, and then no descriptor is left for the page directory; otherwise the
-- count is one less. Every other count stays, and the array stays valid.
pub drop_ref_lem :
    (p : ℕ) (u : List Uvmdesc)
    → IsValid u
    → (last : Bool) × (u' : List Uvmdesc) × (drop_ref p u ≡ some (last, u')) × Drops p u last u'
unfolding drop_ref locate_uvmrefcount
drop_ref_lem p u v = elim (Option-cases (find_index (describes p) u)) [
  | inl e ↦ (
    true,
    u,
    rw (e, drop_ref) refl,
    record {
      frees = λ _. (rw (refs-none p u e) refl, refs-none p u e);
      keeps = λ h. absurd (cc);
      others = λ q d. refl;
      valid = v;
    },
  )
  | inr (i, e) ↦
      let r = refs_of_locate p u i e in
      let (n, c) = refs-IsCount p u v r in drop_located p i n u v (ground arith) c e
]
