-- ===== src/Fs/Blocks.antt =====
-- Bytes of a block: C's little-endian fields, and copies into a block.
use cs537pair.Prelude.{
  ℕ, zero, suc, ◌+◌, ◌-◌, ◌*◌, ◌/◌, ◌%◌, ◌<◌, ◌≤◌, ◌≡◌, ◌∙◌, refl, sym, ap, ◌&&◌, List, [], ◌∷◌,
  arith, ltb, leb, ◌==◌, if◌then◌else◌, get_or, set, length, length-set, get_or-set_self,
  get_or-set_ne, inl, inr, Bool-cases, dec_lt,
}

-- A copy of bytes to index `a` on.
abbrev pub write_at : List ℕ → ℕ → List ℕ → List ℕ
write_at bytes a [] = bytes
write_at bytes a (c ∷ cs) = write_at (set bytes a c) (a + 1) cs

-- The bytes from index `a` on, `n` of them.
abbrev pub read_at : List ℕ → ℕ → ℕ → List ℕ
read_at bytes a zero = []
read_at bytes a (suc n) = get_or bytes a 0 ∷ read_at bytes (a + 1) n

abbrev pub le16 : ℕ → List ℕ
le16 n = (n % 256) ∷ (n / 256 % 256) ∷ []

abbrev pub le32 : ℕ → List ℕ
le32 n = (n % 256) ∷ (n / 256 % 256) ∷ (n / 65536 % 256) ∷ (n / 16777216 % 256) ∷ []

abbrev pub load16 : List ℕ → ℕ → ℕ
load16 bytes a = get_or bytes a 0 + 256 * get_or bytes (a + 1) 0

abbrev pub load32 : List ℕ → ℕ → ℕ
load32 bytes a =
    get_or bytes a 0
    + 256 * get_or bytes (a + 1) 0
    + 65536 * get_or bytes (a + 2) 0
    + 16777216 * get_or bytes (a + 3) 0

pub get_or-set :
    (xs : List ℕ) (i j v d : ℕ)
    → i < length xs
    → get_or (set xs i v) j d ≡ (if i == j then v else get_or xs j d)
get_or-set xs i j v d l = elim (Bool-cases (i == j)) [
  | inl e ↦
      let w : i ≡ j = ground arith in
      rw e (ap (λ k. get_or (set xs i v) k d) (sym w) ∙ get_or-set_self xs i v d l)
  | inr e ↦ rw e (get_or-set_ne xs i j v d (ground arith))
]

pub length-write_at : (cs bytes : List ℕ) (a : ℕ) → length (write_at bytes a cs) ≡ length bytes
length-write_at [] bytes a = refl
length-write_at (c ∷ cs) bytes a = length-write_at cs (set bytes a c) (a + 1) ∙ length-set bytes a c

pub get_or-write_at :
    (cs bytes : List ℕ) (a i d : ℕ)
    → a + length cs ≤ length bytes
    → get_or (write_at bytes a cs) i d
      ≡ (if leb a i && ltb i (a + length cs) then get_or cs (i - a) d else get_or bytes i d)
get_or-write_at [] bytes a i d l = ground arith
get_or-write_at (c ∷ cs) bytes a i d l =
    get_or-write_at cs (set bytes a c) (a + 1) i d (omega (arith, length-set bytes a c))
    ∙ elim (dec_lt a i) [
      | yes p ↦
          let e : i - a ≡ suc (i - (a + 1)) = omega arith in
          rw e (ground (arith, get_or-set bytes a i c d))
      | no q ↦ let z : i - a ≡ 0 = omega arith in rw z (ground (arith, get_or-set bytes a i c d))
    ]

pub get_or-read_at :
    (n a i : ℕ) (bytes : List ℕ) → i < n → get_or (read_at bytes a n) i 0 ≡ get_or bytes (a + i) 0
get_or-read_at zero a i bytes l = absurd (omega arith)
get_or-read_at (suc n) a zero bytes l = ap (λ k. get_or bytes k 0) (omega arith)
get_or-read_at (suc n) a (suc i) bytes l =
    get_or-read_at n (a + 1) i bytes (omega arith) ∙ ap (λ k. get_or bytes k 0) (omega arith)

pub length-read_at : (n a : ℕ) (bytes : List ℕ) → length (read_at bytes a n) ≡ n
length-read_at zero a bytes = refl
length-read_at (suc n) a bytes = ap suc (length-read_at n (a + 1) bytes)
