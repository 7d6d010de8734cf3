-- ===== src/Strings/Move.antt =====
-- `memmove` copies as if through a temporary, and `memset` fills by words as it does by bytes.
use cs537pair.Prelude.{
  ℕ, zero, suc, ◌+◌, ◌-◌, ◌*◌, ◌/◌, ◌%◌, ◌≤◌, ◌<◌, ◌≡◌, ◌∙◌, ◌⊎◌, inl, inr, refl, arith, dec_lt,
  Bool-cases, true, ℕ_discrete, ltb, ◌&&◌, ◌==◌,
}
use cs537pair.Strings.{Memory, store, copy_down, copy_up, memmove, stosb, stosl, spread, memset}

-- Addresses from `d` on, below `d + n`.
abbrev pub IsWithin : ℕ → ℕ → ℕ → Type 0
IsWithin d n x = (d ≤ x) × (x < d + n)

abbrev pub IsOutside : ℕ → ℕ → ℕ → Type 0
IsOutside d n x = (x < d) ⊎ (d + n ≤ x)

-- The ascending copy is right unless the source starts below a destination that it overlaps.
copy_up-outside : (n d s x : ℕ) (m : Memory) → IsOutside d n x → copy_up n d s m x ≡ m x
unfolding copy_up
copy_up-outside zero d s x m h = refl
copy_up-outside (suc n) d s x m h =
    ground (arith, copy_up-outside n (d + 1) (s + 1) x (store m d (m s)))

copy_up-within :
    (n d s i : ℕ) (m : Memory) → (d ≤ s) ⊎ (s + n ≤ d) → i < n → copy_up n d s m (d + i) ≡ m (s + i)
unfolding copy_up
copy_up-within zero d s i m h l = absurd (omega arith)
copy_up-within (suc n) d s zero m h l =
    copy_up-outside n (d + 1) (s + 1) (d + 0) (store m d (m s)) (inl (omega arith)) ∙ ground arith
copy_up-within (suc n) d s (suc i) m h l =
    let e : d + suc i ≡ d + 1 + i = omega arith in
    let f : s + 1 + i ≡ s + suc i = omega arith in
    rw e (
      copy_up-within n (d + 1) (s + 1) i (store m d (m s)) (omega arith) (omega arith)
      ∙ rw f (ground arith))

-- The descending copy, from the ends of both ranges, is right where the destination is above.
copy_down-outside :
    (n d s x : ℕ) (m : Memory) → IsOutside d n x → copy_down n (d + n) (s + n) m x ≡ m x
unfolding copy_down
copy_down-outside zero d s x m h = refl
copy_down-outside (suc n) d s x m h =
    let e : d + suc n - 1 ≡ d + n = omega arith in
    let f : s + suc n - 1 ≡ s + n = omega arith in
    rw (e, f) (copy_down-outside n d s x (store m (d + n) (m (s + n))) (omega arith) ∙ ground arith)

copy_down-within :
    (n d s i : ℕ) (m : Memory) → s < d → i < n → copy_down n (d + n) (s + n) m (d + i) ≡ m (s + i)
unfolding copy_down
copy_down-within zero d s i m h l = absurd (omega arith)
copy_down-within (suc n) d s i m h l =
    let e : d + suc n - 1 ≡ d + n = omega arith in
    let f : s + suc n - 1 ≡ s + n = omega arith in
    rw (e, f)
      (elim (dec_lt i n) [
        | yes below ↦ copy_down-within n d s i (store m (d + n) (m (s + n))) h below ∙ ground arith
        | no last ↦
            copy_down-outside n d s (d + i) (store m (d + n) (m (s + n))) (inr (omega arith))
            ∙ (let g : i ≡ n = omega arith in rw g (ground arith))
      ])

-- Whether or not the ranges overlap, `memmove` leaves at `dst + i` the byte that was at `src + i`
-- before the call, for every `i` below `n`, and changes no byte outside the destination.
pub memmove_lem :
    (dst src n : ℕ) (m : Memory)
    → ((i : ℕ) → i < n → memmove dst src n m (dst + i) ≡ m (src + i))
      × ((x : ℕ) → IsOutside dst n x → memmove dst src n m x ≡ m x)
unfolding memmove
memmove_lem dst src n m = elim (Bool-cases (ltb src dst && ltb dst (src + n))) [
  | inl down ↦ (
    λ i l. rw down (copy_down-within n dst src i m (ground arith) l),
    λ x h. rw down (copy_down-outside n dst src x m h),
  )
  | inr up ↦ (
    λ i l. rw up (copy_up-within n dst src i m (ground arith) l),
    λ x h. rw up (copy_up-outside n dst src x m h),
  )
]

stosb-outside : (n d c x : ℕ) (m : Memory) → IsOutside d n x → stosb n d c m x ≡ m x
unfolding stosb
stosb-outside zero d c x m h = refl
stosb-outside (suc n) d c x m h =
    stosb-outside n (d + 1) c x (store m d (c % 256)) (omega arith) ∙ ground arith

stosb-within : (n d c x : ℕ) (m : Memory) → IsWithin d n x → stosb n d c m x ≡ c % 256
unfolding stosb
stosb-within zero d c x m h = absurd (omega arith)
stosb-within (suc n) d c x m h = elim (ℕ_discrete x d) [
  | yes here ↦ stosb-outside n (d + 1) c x (store m d (c % 256)) (inl (omega arith)) ∙ ground arith
  | no later ↦ stosb-within n (d + 1) c x (store m d (c % 256)) (omega arith)
]

-- Each byte of the word that `memset` stores is the low byte of its argument.
spread_bytes :
    (c : ℕ)
    → c < 256
    → (spread c % 256 ≡ c)
      × (spread c / 256 % 256 ≡ c)
      × (spread c / 65536 % 256 ≡ c)
      × (spread c / 16777216 % 256 ≡ c)
spread_bytes c h = omega arith

abbrev four : Memory → ℕ → ℕ → Memory
four m d w =
    store (store (store (store m d (w % 256)) (d + 1) (w / 256 % 256)) (d + 2) (w / 65536 % 256))
      (d + 3) (w / 16777216 % 256)

stosl-outside : (n d w x : ℕ) (m : Memory) → IsOutside d (n * 4) x → stosl n d w m x ≡ m x
unfolding stosl
stosl-outside zero d w x m h = refl
stosl-outside (suc n) d w x m h =
    stosl-outside n (d + 4) w x (four m d w) (omega arith) ∙ ground arith

stosl-within :
    (n d c x : ℕ) (m : Memory) → c < 256 → IsWithin d (n * 4) x → stosl n d (spread c) m x ≡ c
unfolding stosl
stosl-within zero d c x m l h = absurd (omega arith)
stosl-within (suc n) d c x m l h = elim (dec_lt x (d + 4)) [
  | yes here ↦
      stosl-outside n (d + 4) (spread c) x (four m d (spread c)) (inl here)
      ∙ ground (arith, spread_bytes c l)
  | no later ↦ stosl-within n (d + 4) c x (four m d (spread c)) l (omega arith)
]

-- On the aligned path by words and on the path by bytes alike, `memset` makes every byte of the
-- range the low byte of `c`, and changes no other.
pub memset_lem :
    (dst c n : ℕ) (m : Memory)
    → ((x : ℕ) → IsWithin dst n x → memset dst c n m x ≡ c % 256)
      × ((x : ℕ) → IsOutside dst n x → memset dst c n m x ≡ m x)
unfolding memset
memset_lem dst c n m = elim (Bool-cases ((dst % 4 == 0) && (n % 4 == 0))) [
  | inl words ↦ (
    λ x h. rw words (stosl-within (n / 4) dst (c % 256) x m (omega arith) (within4 words x h)),
    λ x h. rw words (stosl-outside (n / 4) dst (spread (c % 256)) x m (outside4 words x h)),
  )
  | inr bytes ↦
      (λ x h. rw bytes (stosb-within n dst c x m h), λ x h. rw bytes (stosb-outside n dst c x m h))
]
  where
    whole : ((dst % 4 == 0) && (n % 4 == 0)) ≡ true → n / 4 * 4 ≡ n
    whole e = ground arith

    within4 :
        ((dst % 4 == 0) && (n % 4 == 0)) ≡ true
        → (x : ℕ) → IsWithin dst n x
        → IsWithin dst (n / 4 * 4) x
    within4 e x h = omega (arith, whole e)

    outside4 :
        ((dst % 4 == 0) && (n % 4 == 0)) ≡ true
        → (x : ℕ) → IsOutside dst n x
        → IsOutside dst (n / 4 * 4) x
    outside4 e x h = omega (arith, whole e)
