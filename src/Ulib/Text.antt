-- ===== src/Ulib/Text.antt =====
-- `strcmp` and `gets`.
use cs537pair.Prelude.{
  ℕ, zero, suc, ◌+◌, ◌<◌, ◌≤◌, ◌≡◌, ◌⊎◌, inl, inr, ◌∙◌, refl, sym, true, false, ◌||◌, List, [], ◌∷◌,
  Option, some, arith, ltb, ◌==◌, length, Bool-cases, Option-cases,
}
use cs537pair.Prelude.Int.{ℤ, pos, sub_ℕ}
use cs537pair.Ulib.{strcmp, text, gets_loop, gets}
use cs537pair.Ulib.Numbers.{length-unwind}

-- What the first character says of a string.
text-cons :
    (c : ℕ) (s zs : List ℕ)
    → text (c ∷ s) ≡ some zs
    → (c ≡ 0) × (zs ≡ [])
      ⊎ ((c == 0) ≡ false) × ((ts : List ℕ) × (text s ≡ some ts) × (zs ≡ c ∷ ts))
unfolding text
text-cons c s zs e = elim (Bool-cases (c == 0)) [
  | inl z ↦ let w : some [] ≡ some zs = rw z at e in inl (ground arith, cc)
  | inr nz ↦ elim (Option-cases (text s)) [
    | inl f ↦ absurd (let q = rw (nz, f) at e in cc)
    | inr (ts, f) ↦ let w : some (c ∷ ts) ≡ some zs = rw (nz, f) at e in inr (nz, (ts, f, cc))
  ]
]

-- What `strcmp` says of two strings.
abbrev pub Compares : List ℕ → List ℕ → List ℕ → List ℕ → Type 0
Compares p q xs ys = (r : ℤ) × (strcmp p q ≡ some r) × (r ≡ pos 0 → xs ≡ ys) × (xs ≡ ys → r ≡ pos 0)

sub_ℕ-self : (a b : ℕ) → sub_ℕ a b ≡ pos 0 → a ≡ b
sub_ℕ-self a b h = ground arith

-- For two terminated strings `strcmp` returns, and returns 0 exactly if they are equal.
pub strcmp_iff : (p q xs ys : List ℕ) → text p ≡ some xs → text q ≡ some ys → Compares p q xs ys
unfolding strcmp text
strcmp_iff [] q xs ys e f = absurd (cc)
strcmp_iff (a ∷ p) [] xs ys e f = absurd (cc)
strcmp_iff (a ∷ p) (b ∷ q) xs ys e f = elim (text-cons a p xs e) [
  | inl (z, none_left) ↦ elim (text-cons b q ys f) [
    | inl (z', none_left') ↦
        let za : (a == 0) ≡ true = ground arith in
        (sub_ℕ a b, rw za refl, (λ h. none_left ∙ sym none_left'), λ h. ground arith)
    | inr (nz', (us, f', u)) ↦
        let za : (a == 0) ≡ true = ground arith in
        (
          sub_ℕ a b,
          rw za refl,
          (λ h. absurd (let w = sub_ℕ-self a b h in ground arith)),
          λ h. absurd (let v : [] ≡ b ∷ us = sym none_left ∙ h ∙ u in cc),
        )
  ]
  | inr (nz, (ts, e', t)) ↦ elim (text-cons b q ys f) [
    | inl (z', none_left') ↦
        let differ : (a == b) ≡ false = ground arith in
        (
          sub_ℕ a b,
          rw (nz, differ) refl,
          (λ h. absurd (let w = sub_ℕ-self a b h in ground arith)),
          λ h. absurd (let v : a ∷ ts ≡ [] = sym t ∙ h ∙ none_left' in cc),
        )
    | inr (nz', (us, f', u)) ↦ elim (Bool-cases (a == b)) [
      | inl same ↦
          let w : a ≡ b = ground arith in
          let (r, c, to, from) = strcmp_iff p q ts us e' f' in
          (
            r,
            rw (nz, same) c,
            (λ h. let v = to h in cc),
            (λ h. from (let v : a ∷ ts ≡ b ∷ us = sym t ∙ h ∙ u in cc)),
          )
      | inr differ ↦ (
        sub_ℕ a b,
        rw (nz, differ) refl,
        (λ h. absurd (ground (arith, sub_ℕ-self a b h))),
        (λ h.
            absurd (let v : a ∷ ts ≡ b ∷ us = sym t ∙ h ∙ u in let w : a ≡ b = cc in ground arith)),
      )
    ]
  ]
]

gets_loop_lem :
    {S : Type 0} (read : S → Option ℕ × S) (fuel i max : ℕ) (line : List ℕ) (s : S)
    → length line ≡ i
    → i < max
    → length (gets_loop read fuel i max line s).0 < max
unfolding gets_loop
gets_loop_lem read zero i max line s e l = omega arith
gets_loop_lem read (suc fuel) i max line s e l = elim (Bool-cases (ltb (i + 1) max)) [
  | inr full ↦ rw full (omega arith)
  | inl room ↦ elim (Option-cases (read s).0) [
    | inl eof ↦ rw (room, eof) (omega arith)
    | inr (b, got) ↦ elim (Bool-cases ((b == 10) || (b == 13))) [
      | inl ends ↦ rw (room, got, ends) (ground (arith, e))
      | inr more ↦
          rw (room, got, more)
            (gets_loop_lem read fuel (i + 1) max (b ∷ line) (read s).1 (omega arith) (ground arith))
    ]
  ]
]

-- Whatever is read, `gets` with room for at least one byte fills no more than the room, the NUL included.
pub gets-bounded :
    {S : Type 0} (read : S → Option ℕ × S) (max : ℕ) (s : S)
    → 0 < max
    → length (gets read max s).0 ≤ max
unfolding gets
gets-bounded read max s l =
    let r = gets_loop_lem read max 0 max [] s refl l in
    omega (arith, length-unwind (gets_loop read max 0 max [] s).0 (0 ∷ []), r)
