-- ===== src/Strings/Compare.antt =====
-- `strncmp` and `strncpy` on buffers of `n` bytes that hold a name, which a NUL ends if it is shorter.
use cs537pair.Prelude.{
  ℕ, zero, suc, ◌≤◌, ◌≡◌, ◌∙◌, refl, ap, Bool, true, false, not, ◌&&◌, List, [], ◌∷◌, some, arith,
  ◌==◌, if◌then◌else◌, length, inl, inr, Bool-cases,
}
use cs537pair.Prelude.Int.{ℤ, pos, sub_ℕ, ◌==ℤ◌}
use cs537pair.Strings.{strncmp, strncpy, pad}

-- What stands in the first `n` bytes before the first NUL.
unfoldable pub cut : ℕ → List ℕ → List ℕ
cut zero xs = []
cut (suc n) [] = []
cut (suc n) (x ∷ xs) = if x == 0 then [] else x ∷ cut n xs

unfoldable pub equal : List ℕ → List ℕ → Bool
equal [] [] = true
equal [] (y ∷ ys) = false
equal (x ∷ xs) [] = false
equal (x ∷ xs) (y ∷ ys) = (x == y) && equal xs ys

-- `strncmp` of two buffers of `n` bytes or more is 0 exactly for the same name.
pub strncmp_lem :
    (n : ℕ) (p q : List ℕ)
    → n ≤ length p
    → n ≤ length q
    → (z : ℤ) × (strncmp p q n ≡ some z) × ((z ==ℤ pos 0) ≡ equal (cut n p) (cut n q))
unfolding strncmp cut equal
strncmp_lem zero p q k l = (pos 0, refl, refl)
strncmp_lem (suc n) [] q k l = absurd (omega arith)
strncmp_lem (suc n) (a ∷ p) [] k l = absurd (omega arith)
strncmp_lem (suc n) (a ∷ p) (b ∷ q) k l =
    let (z, e, f) = strncmp_lem n p q (omega arith) (omega arith) in
    elim (Bool-cases (not (a == 0) && (a == b))) [
      | inl same ↦
          let x : (a == 0) ≡ false = ground (arith, same) in
          let y : (b == 0) ≡ false = ground (arith, same) in
          let w : (a == b) ≡ true = ground (arith, same) in (z, rw same e, f ∙ rw (x, y, w) refl)
      | inr differ ↦ (sub_ℕ a b, rw differ refl, ground arith)
    ]

length-pad :
    (n : ℕ) (ds : List ℕ)
    → n ≤ length ds
    → (r : List ℕ) × (pad n ds ≡ some r) × (length r ≡ length ds) × (cut n r ≡ [])
unfolding pad cut
length-pad zero ds l = (ds, refl, refl, refl)
length-pad (suc n) [] l = absurd (omega arith)
length-pad (suc n) (d ∷ ds) l =
    let (r, e, f, g) = length-pad n ds (omega arith) in (0 ∷ r, rw e refl, ap suc f, refl)

-- `strncpy` between two buffers of `n` bytes or more ends within them, and stores the name.
pub strncpy_lem :
    (n : ℕ) (dst src : List ℕ)
    → n ≤ length dst
    → n ≤ length src
    → (r : List ℕ) × (strncpy dst src n ≡ some r) × (length r ≡ length dst) × (cut n r ≡ cut n src)
unfolding strncpy cut
strncpy_lem zero dst src k l = (dst, refl, refl, refl)
strncpy_lem (suc n) [] src k l = absurd (omega arith)
strncpy_lem (suc n) (d ∷ dst) [] k l = absurd (omega arith)
strncpy_lem (suc n) (d ∷ dst) (c ∷ src) k l = elim (Bool-cases (c == 0)) [
  | inl end ↦
      let (r, e, f, g) = length-pad n dst (omega arith) in
      (c ∷ r, rw (end, e) refl, ap suc f, rw end refl)
  | inr more ↦
      let (r, e, f, g) = strncpy_lem n dst src (omega arith) (omega arith) in
      (c ∷ r, rw (more, e) refl, ap suc f, rw more (ap (λ x. c ∷ x) g))
]

pub equal_self : (xs : List ℕ) → equal xs xs ≡ true
unfolding equal
equal_self [] = refl
equal_self (x ∷ xs) = ground (arith, equal_self xs)
