-- ===== src/Wmap/Overlap.antt =====
-- What the test of `check_valid` means for ranges that do not reach beyond the user's half.
use cs537pair.Prelude.{
  ℕ, ◌+◌, ◌<◌, ◌≡◌, ◌≢◌, ◌⊎◌, inl, inr, refl, true, false, List, [], ◌∷◌, arith, Bool-cases, All,
}
use cs537pair.Wmap.{MapEn, kernbase, top, collides, check_valid, pg_round_up}

-- A mapping of at least one byte that ends in the user's half of the address space.
abbrev pub InBounds : MapEn → Type 0
InBounds e = (e.valid ≡ true) → (0 < e.length) × (0 < e.addr) × (e.addr + e.length < kernbase)

-- A gap of at least one byte lies between the range and the mapping.
abbrev pub Apart : ℕ → ℕ → MapEn → Type 0
Apart addr length e = (e.valid ≡ true) → (addr + length < e.addr) ⊎ (e.addr + e.length < addr)

collides-false :
    (addr length : ℕ) (e : MapEn)
    → addr + length < kernbase
    → 0 < length
    → InBounds e
    → collides addr length e ≡ false
    → Apart addr length e
collides-false addr length e b l w c v = ground (arith, w v)

collides-true :
    (addr length : ℕ) (e : MapEn)
    → addr + length < kernbase
    → 0 < length
    → InBounds e
    → collides addr length e ≡ true
    → (e.valid ≡ true) × ¬ ((addr + length < e.addr) ⊎ (e.addr + e.length < addr))
collides-true addr length e b l w c =
    let v : e.valid ≡ true = ground arith in (v, λ g. ground (arith, w v, g))

rounded : (e : MapEn) → InBounds e → e.valid ≡ true → pg_round_up (top e) ≢ 0
rounded e w v = λ z. omega (arith, w v)

-- For a range of the user's half, `check_valid` returns 0 exactly when a gap lies between the range and
-- every valid mapping: not only ranges that share a byte are refused, but also those that touch.
pub check_valid_iff :
    (addr length : ℕ) (es : List MapEn)
    → addr + length < kernbase
    → 0 < length
    → All InBounds es
    → (check_valid addr length es ≡ 0 → All (Apart addr length) es)
      × (All (Apart addr length) es → check_valid addr length es ≡ 0)
unfolding check_valid
check_valid_iff addr length [] b l w = ((λ h. tt), (λ h. refl))
check_valid_iff addr length (e ∷ es) b l w =
    let ih = check_valid_iff addr length es b l w.1 in
    elim (Bool-cases (collides addr length e)) [
      | inr free ↦ (
        (λ h. (collides-false addr length e b l w.0 free, ih.0 (rw free at h))),
        (λ h. rw (free, check_valid) (ih.1 h.1)),
      )
      | inl hit ↦
          let (v, near) = collides-true addr length e b l w.0 hit in
          ((λ h. absurd (rounded e w.0 v (rw hit at h))), (λ h. absurd (near (h.0 v))))
    ]
