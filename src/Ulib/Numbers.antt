-- ===== src/Ulib/Numbers.antt =====
-- `printint` and `atoi`: what one prints, the other reads.
use cs537pair.Prelude.{
  ℕ, zero, suc, ◌+◌, ◌-◌, ◌*◌, ◌/◌, ◌%◌, ◌^◌, ◌<◌, ◌≤◌, ◌≡◌, ◌⊎◌, inl, inr, ◌∙◌, refl, ap, sym,
  Bool, true, false, ◌&&◌, List, [], ◌∷◌, ◌++◌, some, arith, leb, ◌==◌, length, Bool-cases,
  Option-cases,
}
use cs537pair.Ulib.{digit, digits, unwind, printint, is_digit, atoi_from, atoi}

unwind-append : (ds xs ys : List ℕ) → unwind ds xs ++ ys ≡ unwind ds (xs ++ ys)
unfolding unwind
unwind-append [] xs ys = refl
unwind-append (d ∷ ds) xs ys = unwind-append ds (d ∷ xs) ys

pub length-unwind : (ds xs : List ℕ) → length (unwind ds xs) ≡ length ds + length xs
unfolding unwind
length-unwind [] xs = omega arith
length-unwind (d ∷ ds) xs = length-unwind ds (d ∷ xs) ∙ omega arith

-- A base that makes numbers at least ten times smaller.
abbrev pub IsWide : ℕ → Type 0
IsWide base = (x : ℕ) → x / base ≤ x / 10

digits_lem :
    (base fuel k x : ℕ)
    → IsWide base
    → k < fuel
    → x < 10 ^ suc k
    → (ds : List ℕ) × (digits fuel x base ≡ some ds) × (length ds ≤ suc k)
unfolding digits
digits_lem base zero k x b l h = absurd (omega arith)
digits_lem base (suc fuel) zero x b l h =
    let z : (x / base == 0) ≡ true = (let s = b x in ground arith) in
    (digit (x % base) ∷ [], rw z refl, omega arith)
digits_lem base (suc fuel) (suc k) x b l h = elim (Bool-cases (x / base == 0)) [
  | inl z ↦ (digit (x % base) ∷ [], rw z refl, omega arith)
  | inr nz ↦
      let s = b x in
      let (ds, e, n) = digits_lem base fuel k (x / base) b (omega arith) (omega arith) in
      (digit (x % base) ∷ ds, rw (nz, e) refl, omega arith)
]

atoi_from-digit :
    (a d : ℕ) (rest : List ℕ)
    → d < 10
    → atoi_from a (digit d ∷ rest) ≡ atoi_from ((a * 10 + d) % 2 ^ 32) rest
unfolding atoi_from
atoi_from-digit a d rest l =
    let e : digit d ≡ 48 + d = ground arith in
    let y : is_digit (48 + d) ≡ true = ground arith in
    rw e (rw y (ap (λ n. atoi_from (n % 2 ^ 32) rest) (omega arith)))

-- Reading digits gives the number that they were made of.
atoi-digits :
    (fuel x : ℕ) (ds rest : List ℕ)
    → x < 2 ^ 32
    → digits fuel x 10 ≡ some ds
    → atoi_from 0 (unwind ds rest) ≡ atoi_from x rest
unfolding digits unwind
atoi-digits zero x ds rest l e = absurd (cc)
atoi-digits (suc fuel) x ds rest l e = elim (Bool-cases (x / 10 == 0)) [
  | inl z ↦
      let one : some (digit (x % 10) ∷ []) ≡ some ds = rw z at e in
      let same : digit (x % 10) ∷ [] ≡ ds = cc in
      ap (λ l. atoi_from 0 (unwind l rest)) (sym same)
      ∙ atoi_from-digit 0 (x % 10) rest (omega arith)
      ∙ ap (λ n. atoi_from n rest) (ground (arith, z))
  | inr nz ↦ elim (Option-cases (digits fuel (x / 10) 10)) [
    | inl f ↦ absurd (let q = rw (nz, f) at e in cc)
    | inr (l', f) ↦
        let many : some (digit (x % 10) ∷ l') ≡ some ds = rw (nz, f) at e in
        let same : digit (x % 10) ∷ l' ≡ ds = cc in
        ap (λ y. atoi_from 0 (unwind y rest)) (sym same)
        ∙ atoi-digits fuel (x / 10) l' (digit (x % 10) ∷ rest) (omega arith) f
        ∙ atoi_from-digit (x / 10) (x % 10) rest (omega arith)
        ∙ ap (λ n. atoi_from n rest) (omega arith)
  ]
]

-- For any value below 2 ^ 31, or below 2 ^ 32 where the value has no sign: in base 10 `printint` prints at most ten
-- characters, and `atoi` makes the value of these and whatever follows them, if that starts with a NUL.
pub printint-atoi :
    (n : ℕ) (sgn : Bool) (rest : List ℕ)
    → n < 2 ^ 32
    → (sgn && leb (2 ^ 31) n) ≡ false
    → (out : List ℕ) × (printint n 10 sgn ≡ some out)
      × (length out ≤ 10)
      × (atoi (out ++ (0 ∷ rest)) ≡ some n)
unfolding printint atoi atoi_from
printint-atoi n sgn rest l plain =
    let (ds, e, k) = digits_lem 10 32 9 n (λ x. omega arith) (omega arith) (omega arith) in
    (
      unwind ds [],
      rw (plain, e) refl,
      omega (arith, length-unwind ds [], k),
      ap (atoi_from 0) (unwind-append ds [] (0 ∷ rest)) ∙ atoi-digits 32 n ds (0 ∷ rest) l e,
    )

-- Whatever it prints in base 10 or 16, `printint` prints at most eleven characters, which `buf` has room for.
pub printint-bounded :
    (xx base : ℕ) (sgn : Bool)
    → (base ≡ 10) ⊎ (base ≡ 16)
    → xx < 2 ^ 32
    → (out : List ℕ) × (printint xx base sgn ≡ some out) × (length out ≤ 11)
unfolding printint
printint-bounded xx base sgn b l =
    let wide : IsWide base =
      λ x. (elim b [ inl e ↦ rw e (omega arith) | inr e ↦ rw e (omega arith) ]) in
    elim (Bool-cases (sgn && leb (2 ^ 31) xx)) [
      | inl minus ↦
          let (ds, e, k) =
            digits_lem base 32 9 (2 ^ 32 - xx) wide (omega arith) (ground (arith, minus)) in
          (45 ∷ unwind ds [], rw (minus, e) refl, omega (arith, length-unwind ds [], k))
      | inr plain ↦
          let (ds, e, k) = digits_lem base 32 9 xx wide (omega arith) (omega arith) in
          (unwind ds [], rw (plain, e) refl, omega (arith, length-unwind ds [], k))
    ]
