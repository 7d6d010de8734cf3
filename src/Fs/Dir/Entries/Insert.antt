-- ===== src/Fs/Dir/Entries/Insert.antt =====
-- The list of entries with one more, and the bytes that hold it.
use cs537pair.Prelude.{
  ℕ, zero, suc, ◌+◌, ◌*◌, ◌<◌, ◌≤◌, ◌≡◌, ◌≢◌, ◌∙◌, refl, ap, ap₂, sym, true, false, List, [], ◌∷◌,
  none, some, arith, ltb, ◌==◌, if◌then◌else◌, get_or, length, ◌⊎◌, inl, inr, Bool-cases,
}
use cs537pair.Strings.Compare.{equal}
use cs537pair.Fs.Blocks.{load16}
use cs537pair.Fs.Inode.RoundTrip.{same_bytes}
use cs537pair.Fs.Dir.Entries.{span, length-span, get_or-span, slots, name_of, find_entry, free_slot}

-- The list with `e` in place of the first entry not in use, or behind the last.
unfoldable pub put_entry : List ℕ → List (List ℕ) → List (List ℕ)
put_entry e [] = e ∷ []
put_entry e (d ∷ ds) = let rest = put_entry e ds in if load16 d 0 == 0 then e ∷ ds else d ∷ rest

pub length-put_entry :
    (e : List ℕ) (ds : List (List ℕ)) (off : ℕ)
    → off + 16 * length (put_entry e ds) ≡ (
        if ltb (off + 16 * length ds) (free_slot off ds + 16)
        then free_slot off ds + 16
        else off + 16 * length ds)
unfolding put_entry free_slot
length-put_entry e [] off = ground arith
length-put_entry e (d ∷ ds) off = elim (Bool-cases (load16 d 0 == 0)) [
  | inl free ↦ rw free (ground arith)
  | inr taken ↦ rw taken (ground (arith, length-put_entry e ds (off + 16)))
]

pub free_slot-bound :
    (off : ℕ) (ds : List (List ℕ))
    → (off ≤ free_slot off ds) × (free_slot off ds ≤ off + 16 * length ds)
unfolding free_slot
free_slot-bound off [] = ground arith
free_slot-bound off (d ∷ ds) = ground (arith, free_slot-bound (off + 16) ds)

-- A search by a name in a list with an entry put in: of that name, which no entry had; of another.
pub find_entry-put_entry :
    (e name : List ℕ) (ds : List (List ℕ)) (off : ℕ)
    → load16 e 0 ≢ 0
    → equal name (name_of e) ≡ true
    → find_entry name off ds ≡ none
    → find_entry name off (put_entry e ds) ≡ some (load16 e 0, free_slot off ds)
unfolding put_entry find_entry free_slot
find_entry-put_entry e name [] off z m a =
    let w : (load16 e 0 == 0) ≡ false = ground arith in rw (w, m) refl
find_entry-put_entry e name (d ∷ ds) off z m a = elim (Bool-cases (load16 d 0 == 0)) [
  | inl free ↦ let w : (load16 e 0 == 0) ≡ false = ground arith in rw free (rw (w, m) refl)
  | inr taken ↦ elim (Bool-cases (equal name (name_of d))) [
    | inl hit ↦ absurd (ground (arith, a, taken, hit))
    | inr miss ↦ rw taken (
        rw (taken, miss)
          (find_entry-put_entry e name ds (off + 16) z m (ground (arith, a, taken, miss))))
  ]
]

pub find_entry-put_other :
    (e name : List ℕ) (ds : List (List ℕ)) (off : ℕ)
    → equal name (name_of e) ≡ false
    → find_entry name off (put_entry e ds) ≡ find_entry name off ds
unfolding put_entry find_entry
find_entry-put_other e name [] off m = ground (arith, m)
find_entry-put_other e name (d ∷ ds) off m = elim (Bool-cases (load16 d 0 == 0)) [
  | inl free ↦ rw free (ground (arith, m, free))
  | inr taken ↦ rw taken (ground (arith, taken, find_entry-put_other e name ds (off + 16) m))
]

pub length-slots : (f : ℕ → ℕ) (n a : ℕ) → length (slots f n a) ≡ n
length-slots f zero a = refl
length-slots f (suc n) a = ap suc (length-slots f n (a + 16))

span_same :
    (f g : ℕ → ℕ) (n a : ℕ) → ((i : ℕ) → a ≤ i → i < a + n → f i ≡ g i) → span f n a ≡ span g n a
span_same f g zero a h = refl
span_same f g (suc n) a h =
    ap₂ ◌∷◌ (h a (omega arith) (omega arith))
      (span_same f g n (a + 1) (λ i l m. h i (omega arith) (omega arith)))

slots_same :
    (f g : ℕ → ℕ) (n a : ℕ)
    → ((i : ℕ) → a ≤ i → i < a + 16 * n → f i ≡ g i)
    → slots f n a ≡ slots g n a
slots_same f g zero a h = refl
slots_same f g (suc n) a h =
    ap₂ ◌∷◌ (span_same f g 16 a (λ i l m. h i l (omega arith)))
      (slots_same f g n (a + 16) (λ i l m. h i (omega arith) (omega arith)))

-- Bytes that differ at the free slot alone, where they are those of `e`.
module _ (f g : ℕ → ℕ) (e : List ℕ) (len : length e ≡ 16) (slot : ℕ)
    (here : (k : ℕ) → k < 16 → f (slot + k) ≡ get_or e k 0) where
  span_here : span f 16 slot ≡ e
  span_here =
      same_bytes (span f 16 slot) e (length-span f 16 slot ∙ sym len)
        λ k m. get_or-span f 16 slot k (omega (arith, len)) ∙ here k (omega (arith, len))

  pub slots-put_entry :
      (n off : ℕ)
      → slot ≡ free_slot off (slots g n off)
      → ((i : ℕ) → off ≤ i → i < off + 16 * n → (i < slot) ⊎ (slot + 16 ≤ i) → f i ≡ g i)
      → slots f (length (put_entry e (slots g n off))) off ≡ put_entry e (slots g n off)
  unfolding put_entry free_slot
  slots-put_entry zero off p same = ap (λ x. x ∷ []) (ap (span f 16) (sym p) ∙ span_here)
  slots-put_entry (suc n) off p same = elim (Bool-cases (load16 (span g 16 off) 0 == 0)) [
    | inl free ↦
        let w : slot ≡ off = p ∙ rw free refl in
        rw free (
          ap₂ ◌∷◌ (ap (span f 16) (sym w) ∙ span_here) (
            ap (λ m. slots f m (off + 16)) (length-slots g n (off + 16))
            ∙ slots_same f g n (off + 16)
                (λ i l m. same i (omega arith) (omega arith) (inr (omega (arith, w))))))
    | inr taken ↦
        let w : slot ≡ free_slot (off + 16) (slots g n (off + 16)) = p ∙ rw taken refl in
        let b = free_slot-bound (off + 16) (slots g n (off + 16)) in
        rw taken (
          ap₂ ◌∷◌
            (span_same f g 16 off (λ i l m. same i l (omega arith) (inl (omega (arith, w, b)))))
            (slots-put_entry n (off + 16) w (λ i l m. same i (omega arith) (omega arith))))
  ]
