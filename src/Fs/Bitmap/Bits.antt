-- ===== src/Fs/Bitmap/Bits.antt =====
-- The bits of a byte, and of a block of the map.
use cs537pair.Prelude.{
  ℕ, zero, suc, ◌+◌, ◌-◌, ◌/◌, ◌%◌, ◌^◌, ◌<◌, ◌≡◌, ◌≢◌, refl, Bool, true, false, not, ◌&&◌, ◌||◌,
  List, arith, ltb, ◌==◌, if◌then◌else◌, get_or, set, length, length-set, get_or-set_self,
  get_or-set_ne, inl, inr, Bool-cases, ltb→lt, ◌∙◌, ap,
}
use cs537pair.Fs.Bitmap.{bsize, bpb, bit_of, test_bit, mark, unmark}

-- The test passes at every number under the bound.
passes : (ℕ → Bool) → ℕ → Bool
passes test zero = true
passes test (suc bound) = if test bound then passes test bound else false

passes-at :
    (test : ℕ → Bool) (bound : ℕ) → passes test bound ≡ true → (i : ℕ) → i < bound → test i ≡ true
unfolding passes
passes-at test zero all i k = absurd (omega arith)
passes-at test (suc bound) all i k = elim (Bool-cases (test bound)) [
  | inr fails ↦ absurd (ground arith)
  | inl top ↦ elim (Bool-cases (i == bound)) [
    | inl e ↦ let w : i ≡ bound = ground arith in ap test w ∙ top
    | inr e ↦ passes-at test bound (ground arith) i (ground arith)
  ]
]

abbrev same : Bool → Bool → Bool
same true b = b
same false b = not b

-- The laws of both changes at a byte `x`, a bit `k` that changes, and a bit `j` that is read.
abbrev bit_laws : ℕ → ℕ → ℕ → Bool
bit_laws x k j =
    if bit_of x k
    then same (bit_of (x - 2 ^ k) j) (not (k == j) && bit_of x j)
    else same (bit_of (x + 2 ^ k) j) (k == j || bit_of x j) && ltb (x + 2 ^ k) 256

byte_table : passes (λ x. passes (λ k. passes (bit_laws x k) 8) 8) 256 ≡ true
unfolding passes
byte_table = refl

bit_laws_hold : (x k j : ℕ) → x < 256 → k < 8 → j < 8 → bit_laws x k j ≡ true
bit_laws_hold x k j a b c =
    let row = passes-at (λ y. passes (λ i. passes (bit_laws y i) 8) 8) 256 byte_table x a in
    let entry = passes-at (λ i. passes (bit_laws x i) 8) 8 row k b in
    passes-at (bit_laws x k) 8 entry j c

same_eq : (a b : Bool) → same a b ≡ true → a ≡ b
same_eq true true h = refl
same_eq true false h = absurd (cc)
same_eq false true h = absurd (cc)
same_eq false false h = refl

and_true : (a b : Bool) → (a && b) ≡ true → (a ≡ true) × (b ≡ true)
and_true true b h = (refl, h)
and_true false b h = absurd (cc)

bit_of-add :
    (x k j : ℕ)
    → x < 256
    → k < 8
    → j < 8
    → bit_of x k ≡ false
    → (bit_of (x + 2 ^ k) j ≡ (k == j || bit_of x j)) × (x + 2 ^ k < 256)
bit_of-add x k j a b c e =
    let h = bit_laws_hold x k j a b c in
    let (p, q) =
      and_true (same (bit_of (x + 2 ^ k) j) (k == j || bit_of x j)) (ltb (x + 2 ^ k) 256)
        (rw e at h) in
    (same_eq (bit_of (x + 2 ^ k) j) (k == j || bit_of x j) p, ltb→lt (x + 2 ^ k) 256 q)

bit_of-sub :
    (x k j : ℕ)
    → x < 256
    → k < 8
    → j < 8
    → bit_of x k ≡ true
    → bit_of (x - 2 ^ k) j ≡ (not (k == j) && bit_of x j)
bit_of-sub x k j a b c e =
    let h = bit_laws_hold x k j a b c in
    same_eq (bit_of (x - 2 ^ k) j) (not (k == j) && bit_of x j) (rw e at h)

same_index : (i j : ℕ) → i / 8 ≡ j / 8 → (i % 8 == j % 8) ≡ (i == j)
same_index i j s = ground arith

or_if : (a b : Bool) → (a || b) ≡ (if a then true else b)
or_if true b = refl
or_if false b = refl

and_if : (a b : Bool) → (not a && b) ≡ (if a then false else b)
and_if true b = refl
and_if false b = refl

-- A block of the map: BSIZE bytes.
pub record IsMap (bytes : List ℕ) : Type 0 where
  pub size : length bytes ≡ bsize
  pub bounded : (i : ℕ) → get_or bytes i 0 < 256

module _ (bytes : List ℕ) (m : IsMap bytes) (i : ℕ) (l : i < bpb) where
  abbrev at : ℕ
  at = get_or bytes (i / 8) 0

  test_bit-set :
      (y j : ℕ) (b : Bool)
      → j < bpb
      → (i / 8 ≡ j / 8 → bit_of y (j % 8) ≡ (if i == j then b else bit_of at (j % 8)))
      → test_bit (set bytes (i / 8) y) j ≡ (if i == j then b else test_bit bytes j)
  unfolding test_bit
  test_bit-set y j b k h = elim (Bool-cases (i / 8 == j / 8)) [
    | inl here ↦
        let e : i / 8 ≡ j / 8 = ground arith in
        rw (← e) (rw (get_or-set_self bytes (i / 8) y 0 (omega (arith, m.size))) (h e))
    | inr there ↦
        let d : i / 8 ≢ j / 8 = ground arith in
        let n : (i == j) ≡ false = ground arith in
        rw (get_or-set_ne bytes (i / 8) (j / 8) y 0 d, n) refl
  ]

  set-IsMap : (y : ℕ) → y < 256 → IsMap (set bytes (i / 8) y)
  set-IsMap y k = record { size = length-set bytes (i / 8) y ∙ m.size; bounded = bounded }
    where
      bounded : (x : ℕ) → get_or (set bytes (i / 8) y) x 0 < 256
      bounded x = elim (Bool-cases (i / 8 == x)) [
        | inl here ↦
            let e : i / 8 ≡ x = ground arith in
            rw (← e) (rw (get_or-set_self bytes (i / 8) y 0 (omega (arith, m.size))) k)
        | inr there ↦
            let d : i / 8 ≢ x = ground arith in
            rw (get_or-set_ne bytes (i / 8) x y 0 d) (m.bounded x)
      ]

  -- A bit that is marked is set, and the others stay.
  pub test_bit-mark :
      (j : ℕ)
      → j < bpb
      → test_bit bytes i ≡ false
      → test_bit (mark bytes i) j ≡ (if i == j then true else test_bit bytes j)
  unfolding mark test_bit
  test_bit-mark j k e = test_bit-set (at + 2 ^ (i % 8)) j true k λ s.
      let w = bit_of-add at (i % 8) (j % 8) (m.bounded (i / 8)) (omega arith) (omega arith) e in
      w.0 ∙ ap (λ t. t || bit_of at (j % 8)) (same_index i j s) ∙ or_if (i == j) (bit_of at (j % 8))

  pub mark-IsMap : test_bit bytes i ≡ false → IsMap (mark bytes i)
  unfolding mark test_bit
  mark-IsMap e =
      set-IsMap (at + 2 ^ (i % 8))
        (bit_of-add at (i % 8) 0 (m.bounded (i / 8)) (omega arith) (omega arith) e).1

  pub test_bit-unmark :
      (j : ℕ)
      → j < bpb
      → test_bit bytes i ≡ true
      → test_bit (unmark bytes i) j ≡ (if i == j then false else test_bit bytes j)
  unfolding unmark test_bit
  test_bit-unmark j k e = test_bit-set (at - 2 ^ (i % 8)) j false k λ s.
      let w = bit_of-sub at (i % 8) (j % 8) (m.bounded (i / 8)) (omega arith) (omega arith) e in
      w
      ∙ ap (λ t. not t && bit_of at (j % 8)) (same_index i j s)
      ∙ and_if (i == j) (bit_of at (j % 8))

  pub unmark-IsMap : IsMap (unmark bytes i)
  unfolding unmark
  unmark-IsMap = set-IsMap (at - 2 ^ (i % 8)) (omega (arith, m.bounded (i / 8)))
