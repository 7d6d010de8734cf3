-- ===== src/Prelude/Bits.antt =====
-- The bitwise or of the address of a page with flags.
use Prim.Native.Nat.{max, bit_or, digits, bit_or-bitwise}
use cs537pair.Prelude.{ℕ, zero, suc, ◌+◌, ◌*◌, ◌/◌, ◌%◌, ◌<◌, ◌≤◌, ◌≡◌, ◌∙◌, refl, ap, arith}

-- The or of the digits of two numbers, of the first of which it takes at most `n`.
abbrev or_upto : ℕ → ℕ → ℕ → ℕ
or_upto n x y = digits (λ rest. rest) max n x y

or_upto-zero : (n y : ℕ) → or_upto n 0 y ≡ y
or_upto-zero zero y = refl
or_upto-zero (suc n) y = refl

or_upto_step :
    (n x y : ℕ) → or_upto (suc n) x y ≡ or_upto n (x / 2) (y / 2) * 2 + max (x % 2) (y % 2)
or_upto_step n zero y = omega (arith, or_upto-zero n (y / 2))
or_upto_step n (suc x) y = refl

-- A multiple of `m` and a number below it have no digit in common.
abbrev OrAdds : ℕ → Type 0
OrAdds m = (n q c : ℕ) → q * m ≤ n → c < m → or_upto n (q * m) c ≡ q * m + c

without_flags : (n x : ℕ) → x ≤ n → or_upto n x 0 ≡ x
without_flags zero x le = omega arith
without_flags (suc n) x le =
    or_upto_step n x 0 ∙ omega (arith, without_flags n (x / 2) (omega arith))

one-OrAdds : OrAdds 1
one-OrAdds n q c le lt =
    let none_set : c ≡ 0 = omega arith in rw none_set (without_flags n (q * 1) le ∙ omega arith)

double-OrAdds : (m : ℕ) → OrAdds m → OrAdds (m * 2)
double-OrAdds m adds zero q c le lt = omega arith
double-OrAdds m adds (suc n) q c le lt =
    let x = q * m in
    let twice : q * (m * 2) ≡ x * 2 = omega arith in
    let half : x * 2 / 2 ≡ x = omega arith in
    let first : or_upto (suc n) (x * 2) c ≡ or_upto n x (c / 2) * 2 + max (x * 2 % 2) (c % 2) =
      or_upto_step n (x * 2) c ∙ ap (λ y. or_upto n y (c / 2) * 2 + max (x * 2 % 2) (c % 2)) half in
    rw twice (omega (arith, first, adds n q (c / 2) (omega arith) (omega arith)))

page-OrAdds : OrAdds 4096
page-OrAdds =
    let two = double-OrAdds in
    two 2048 (
      two 1024 (
        two 512 (
          two 256 (two 128 (two 64 (two 32 (two 16 (two 8 (two 4 (two 2 (two 1 one-OrAdds)))))))))))

-- The or of the address of a page and a number below the size of a page is their sum.
pub bit_or-page : (a c : ℕ) → a % 4096 ≡ 0 → c < 4096 → bit_or a c ≡ a + c
bit_or-page a c z l =
    let whole : a / 4096 * 4096 ≡ a = omega arith in
    rw (← whole) (
      bit_or-bitwise (a / 4096 * 4096) c
      ∙ page-OrAdds (a / 4096 * 4096) (a / 4096) c (omega arith) l)
