-- ===== src/Kernel/Name.antt =====
-- The name that `clone` gives a thread fits its buffer.
use cs537pair.Prelude.{
  ℕ, zero, suc, ◌+◌, ◌/◌, ◌%◌, ◌≤◌, ◌<◌, ◌≡◌, ◌∙◌, inl, inr, refl, ==_self, get_elem?-of_lt, ◌&&◌,
  not, List, [], ◌∷◌, some, arith, ltb, ◌==◌, length, length-set, set, get_elem?, get_elem?-set,
  Bool-cases,
}
use Prim.Native.Nat.{min}
use cs537pair.Strings.{strlen}
use cs537pair.Strings.Copy.{safestrcpy_lem}
use cs537pair.Kernel.{suffix, thread_name}

-- A buffer of the size of `struct proc`'s `name` that ends in a NUL somewhere.
pub record IsName (s : List ℕ) : Type 0 where
  pub size : length s ≡ 16
  pub ends : (i : ℕ) × (i < 16) × (get_elem? s i ≡ some 0)

suffix_lem :
    (fuel i n : ℕ) (s : List ℕ)
    → 15 < fuel + i
    → i ≤ 15
    → length s ≡ 16
    → (r : List ℕ) × (suffix fuel i n s ≡ some r) × IsName r
unfolding suffix
suffix_lem zero i n s f l h = absurd (omega arith)
suffix_lem (suc fuel) i n s f l h = elim (Bool-cases (not (n == 0) && ltb i 15)) [
  | inl more ↦
      let (r, ran, w) =
        suffix_lem fuel (i + 1) (n / 10) (set s i (48 + n % 10)) (omega arith) (ground arith)
          (omega (arith, length-set s i (48 + n % 10))) in
      (r, rw more ran, w)
  | inr done ↦ (
    set s i 0,
    rw done refl,
    record { size = omega (arith, length-set s i 0); ends = (i, omega arith, written) },
  )
]
  where
    written : get_elem? (set s i 0) i ≡ some 0
    written =
        let (c, e) = get_elem?-of_lt s i (omega arith) in
        get_elem?-set s i i 0 ∙ rw (==_self i, e) refl

strlen-lt : (s : List ℕ) (i : ℕ) → strlen s ≡ some i → i < length s
strlen-lt [] i e = absurd (cc)
strlen-lt (c ∷ s) zero e = omega arith
strlen-lt (c ∷ s) (suc i) e = omega (arith, strlen-lt s i (ground arith))

-- For a creator whose name is terminated, `clone` names the thread without an access out of bounds,
-- whatever its number of `clone` calls: the loop over the digits ends, and the name is terminated.
pub thread_name_lem :
    (old name : List ℕ) (k n : ℕ)
    → length old ≡ 16
    → strlen name ≡ some k
    → (r : List ℕ) × (thread_name old name n ≡ some r) × IsName r
unfolding thread_name suffix_lem
thread_name_lem old name k n h e =
    let (s, copied, held, rest) = safestrcpy_lem old name 16 k e (omega arith) (omega arith) in
    let (r, ran, w) = suffix_lem 16 (min k 15) n s (omega arith) (omega arith) (held.size ∙ h) in
    (r, rw (copied, held.ends) ran, w)
