-- ===== src/Strings/Copy.antt =====
-- What `safestrcpy` leaves in the destination.
use cs537pair.Prelude.{
  ℕ, zero, suc, ◌-◌, ◌≤◌, ◌<◌, ◌≡◌, refl, ap, List, [], ◌∷◌, some, arith, length, take, drop,
}
use Prim.Native.Nat.{min}
use cs537pair.Strings.{strlen, terminate, safestrcpy_loop, safestrcpy}

-- `r` is `dst` with a string copied in: the first `j` bytes of `src`, then a NUL.
pub record Holds (dst src r : List ℕ) (j : ℕ) : Type 0 where
  pub size : length r ≡ length dst
  pub ends : strlen r ≡ some j
  pub same : take j r ≡ take j src

min_zero : (k : ℕ) → min k 0 ≡ 0
min_zero k = omega arith

zero_min : (k : ℕ) → min 0 k ≡ 0
zero_min k = omega arith

min-suc : (k m : ℕ) → min (suc k) (suc m) ≡ suc (min k m)
min-suc k m = omega arith

pred_suc : (m : ℕ) → suc m - 1 ≡ m
pred_suc m = omega arith

loop_lem :
    (m : ℕ) (dst src : List ℕ) (k : ℕ)
    → strlen src ≡ some k
    → m < length dst
    → (r : List ℕ) × (safestrcpy_loop (suc m) dst src ≡ some r)
      × Holds dst src r (min k m)
      × (drop (suc m) r ≡ drop (suc m) dst)
unfolding safestrcpy_loop terminate
loop_lem m [] src k h l = absurd (omega arith)
loop_lem zero (d ∷ dst) src k h l =
    (0 ∷ dst, refl, record { size = refl; ends = ground arith; same = rw (min_zero k) refl }, refl)
loop_lem (suc m) (d ∷ dst) [] k h l = absurd (cc)
loop_lem (suc m) (d ∷ []) (c ∷ src) k h l = absurd (omega arith)
loop_lem (suc m) (d ∷ e ∷ dst) (c ∷ src) zero h l = (
  0 ∷ 0 ∷ dst,
  ground arith,
  record { size = refl; ends = ground arith; same = rw (zero_min (suc m)) refl },
  refl,
)
loop_lem (suc m) (d ∷ e ∷ dst) (c ∷ src) (suc k) h l =
    let (r, ran, held, rest) = loop_lem m (e ∷ dst) src k (ground arith) (omega arith) in
    (
      c ∷ r,
      ground arith,
      record {
        size = ground arith;
        ends = ground arith;
        same = rw (min-suc k m) (ap (λ t. c ∷ t) held.same);
      },
      rest,
    )

-- With a terminated source of length `k` and room for `n > 0` bytes, `safestrcpy` stays in bounds,
-- leaves a string that is the first `min k (n - 1)` bytes of the source, and writes nothing from
-- index `n` on.
pub safestrcpy_lem :
    (dst src : List ℕ) (n k : ℕ)
    → strlen src ≡ some k
    → 0 < n
    → n ≤ length dst
    → (r : List ℕ) × (safestrcpy dst src n ≡ some r)
      × Holds dst src r (min k (n - 1))
      × (drop n r ≡ drop n dst)
unfolding safestrcpy
safestrcpy_lem dst src zero k h p l = absurd (omega arith)
safestrcpy_lem dst src (suc m) k h p l =
    let (r, ran, held, rest) = loop_lem m dst src k h l in
    (r, ground arith, rw (pred_suc m) held, rest)
