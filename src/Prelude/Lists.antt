-- ===== src/Prelude/Lists.antt =====
-- C arrays as lists with native indices, and the scans over them that the kernel's tables use.
use Prim.Native.Nat.{ℕ, zero, suc, ◌+◌, ◌<◌}
use mathlib.Core.Path.{◌≡◌, refl, ap, subst}
use mathlib.Core.Logic.{◌≢◌, ◌⊎◌, inl, inr}
use mathlib.Core.Bool.{Bool, true, false}
use mathlib.Core.List.{List, [], ◌∷◌, ◌++◌, map}
use mathlib.Core.Option
use mathlib.Core.Option.{Option, none, some}
use native.Mathlib.Omega.{arith}
use cs537pair.Prelude.Tests.{if◌then◌else◌, ◌==◌}

module _ {ℓ} {A : Type ℓ} where
  abbrev pub length : List A → ℕ
  length [] = 0
  length (x ∷ xs) = suc (length xs)

  abbrev pub get_elem? : List A → ℕ → Option A
  get_elem? [] i = none
  get_elem? (x ∷ xs) zero = some x
  get_elem? (x ∷ xs) (suc i) = get_elem? xs i

  abbrev pub get_or : List A → ℕ → A → A
  get_or [] i d = d
  get_or (x ∷ xs) zero d = x
  get_or (x ∷ xs) (suc i) d = get_or xs i d

  -- A write out of bounds changes nothing.
  abbrev pub set : List A → ℕ → A → List A
  set [] i v = []
  set (x ∷ xs) zero v = v ∷ xs
  set (x ∷ xs) (suc i) v = x ∷ set xs i v

  -- `f` applied in place to the entry at an index.
  abbrev pub modify : List A → ℕ → (A → A) → List A
  modify [] i f = []
  modify (x ∷ xs) zero f = f x ∷ xs
  modify (x ∷ xs) (suc i) f = x ∷ modify xs i f

  abbrev pub take : ℕ → List A → List A
  take zero xs = []
  take (suc n) [] = []
  take (suc n) (x ∷ xs) = x ∷ take n xs

  abbrev pub drop : ℕ → List A → List A
  drop zero xs = xs
  drop (suc n) [] = []
  drop (suc n) (x ∷ xs) = drop n xs

  abbrev pub replicate : ℕ → A → List A
  replicate zero a = []
  replicate (suc n) a = a ∷ replicate n a

  -- The index of the first entry that passes the test.
  abbrev pub find_index : (A → Bool) → List A → Option ℕ
  find_index p [] = none
  find_index p (x ∷ xs) = if p x then some 0 else Option.map suc (find_index p xs)

  -- How many entries pass the test.
  abbrev pub count : (A → Bool) → List A → ℕ
  count p [] = 0
  count p (x ∷ xs) = if p x then suc (count p xs) else count p xs

  -- A property of every entry.
  abbrev pub All {κ} : (A → Type κ) → List A → Type κ
  All P [] = Unit
  All P (x ∷ xs) = P x × All P xs

abbrev pub IsFresh : ℕ → List ℕ → Type 0
IsFresh v = All (λ x. x ≢ v)

-- No number stands twice.
abbrev pub IsDistinct : List ℕ → Type 0
IsDistinct [] = Unit
IsDistinct (x ∷ xs) = IsFresh x xs × IsDistinct xs

module _ {ℓ} {A : Type ℓ} where
  pub length-append : (xs ys : List A) → length (xs ++ ys) ≡ length xs + length ys
  length-append [] ys = omega arith
  length-append (x ∷ xs) ys = omega (arith, length-append xs ys)

  pub length-set : (xs : List A) (i : ℕ) (v : A) → length (set xs i v) ≡ length xs
  length-set [] i v = refl
  length-set (x ∷ xs) zero v = refl
  length-set (x ∷ xs) (suc i) v = ap suc (length-set xs i v)

  pub length-modify : (xs : List A) (i : ℕ) (f : A → A) → length (modify xs i f) ≡ length xs
  length-modify [] i f = refl
  length-modify (x ∷ xs) zero f = refl
  length-modify (x ∷ xs) (suc i) f = ap suc (length-modify xs i f)

  pub length-replicate : (n : ℕ) (a : A) → length (replicate n a) ≡ n
  length-replicate zero a = refl
  length-replicate (suc n) a = ap suc (length-replicate n a)

  -- A write is a change that forgets what was there.
  pub set-modify : (xs : List A) (i : ℕ) (v : A) → set xs i v ≡ modify xs i (λ x. v)
  set-modify [] i v = refl
  set-modify (x ∷ xs) zero v = refl
  set-modify (x ∷ xs) (suc i) v = ap (λ ys. x ∷ ys) (set-modify xs i v)

  pub length-map {κ} : {B : Type κ} (f : A → B) (xs : List A) → length (map f xs) ≡ length xs
  length-map f [] = refl
  length-map f (x ∷ xs) = ap suc (length-map f xs)

  pub get_or-set_self :
      (xs : List A) (i : ℕ) (v d : A) → i < length xs → get_or (set xs i v) i d ≡ v
  get_or-set_self [] i v d h = absurd (omega arith)
  get_or-set_self (x ∷ xs) zero v d h = refl
  get_or-set_self (x ∷ xs) (suc i) v d h = get_or-set_self xs i v d (omega arith)

  pub get_or-set_ne :
      (xs : List A) (i j : ℕ) (v d : A) → i ≢ j → get_or (set xs i v) j d ≡ get_or xs j d
  get_or-set_ne [] i j v d h = refl
  get_or-set_ne (x ∷ xs) zero zero v d h = absurd (h refl)
  get_or-set_ne (x ∷ xs) zero (suc j) v d h = refl
  get_or-set_ne (x ∷ xs) (suc i) zero v d h = refl
  get_or-set_ne (x ∷ xs) (suc i) (suc j) v d h = get_or-set_ne xs i j v d (λ e. h (ap suc e))

  -- What an index holds after a write, in one law without side conditions on `j`.
  pub get_elem?-modify :
      (xs : List A) (i j : ℕ) (f : A → A)
      → get_elem? (modify xs i f) j
        ≡ (if i == j then Option.map f (get_elem? xs j) else get_elem? xs j)
  get_elem?-modify [] i j f = ground arith
  get_elem?-modify (x ∷ xs) zero zero f = refl
  get_elem?-modify (x ∷ xs) zero (suc j) f = ground arith
  get_elem?-modify (x ∷ xs) (suc i) zero f = ground arith
  get_elem?-modify (x ∷ xs) (suc i) (suc j) f = ground (arith, get_elem?-modify xs i j f)

  -- Where an entry of a modified array comes from.
  pub get_elem?-modify_inv :
      (xs : List A) (i j : ℕ) (f : A → A) {y : A}
      → get_elem? (modify xs i f) j ≡ some y
      → (x : A) × (get_elem? xs j ≡ some x) × ((i ≡ j) × (y ≡ f x) ⊎ (i ≢ j) × (y ≡ x))
  get_elem?-modify_inv [] i j f h = absurd (cc)
  get_elem?-modify_inv (x ∷ xs) zero zero f h = (x, refl, inl (refl, cc))
  get_elem?-modify_inv (x ∷ xs) zero (suc j) f {y} h = (y, h, inr ((λ e. omega arith), refl))
  get_elem?-modify_inv (x ∷ xs) (suc i) zero f h = (x, refl, inr ((λ e. omega arith), cc))
  get_elem?-modify_inv (x ∷ xs) (suc i) (suc j) f h =
      let (w, e, r) = get_elem?-modify_inv xs i j f h in (w, e, shifted r)
    where
      shifted :
          {w y : A}
          → (i ≡ j) × (y ≡ f w) ⊎ (i ≢ j) × (y ≡ w)
          → (suc i ≡ suc j) × (y ≡ f w) ⊎ (suc i ≢ suc j) × (y ≡ w)
      shifted (inl (a, b)) = inl (omega arith, b)
      shifted (inr (a, b)) = inr ((λ e. a (omega arith)), b)

  pub get_elem?-set :
      (xs : List A) (i j : ℕ) (v : A)
      → get_elem? (set xs i v) j
        ≡ (if i == j then Option.map (λ _. v) (get_elem? xs j) else get_elem? xs j)
  get_elem?-set [] i j v = ground arith
  get_elem?-set (x ∷ xs) zero zero v = refl
  get_elem?-set (x ∷ xs) zero (suc j) v = ground arith
  get_elem?-set (x ∷ xs) (suc i) zero v = ground arith
  get_elem?-set (x ∷ xs) (suc i) (suc j) v = ground (arith, get_elem?-set xs i j v)

  pub get_elem?-lt : (xs : List A) (i : ℕ) {x : A} → get_elem? xs i ≡ some x → i < length xs
  get_elem?-lt [] i h = absurd (cc)
  get_elem?-lt (x ∷ xs) zero h = omega arith
  get_elem?-lt (x ∷ xs) (suc i) h = omega (arith, get_elem?-lt xs i h)

  pub get_elem?-of_lt : (xs : List A) (i : ℕ) → i < length xs → (x : A) × (get_elem? xs i ≡ some x)
  get_elem?-of_lt [] i h = absurd (omega arith)
  get_elem?-of_lt (x ∷ xs) zero h = (x, refl)
  get_elem?-of_lt (x ∷ xs) (suc i) h = get_elem?-of_lt xs i (omega arith)

  pub get_elem?-map {κ} :
      {B : Type κ} (f : A → B) (xs : List A) (i : ℕ)
      → get_elem? (map f xs) i ≡ Option.map f (get_elem? xs i)
  get_elem?-map f [] i = refl
  get_elem?-map f (x ∷ xs) zero = refl
  get_elem?-map f (x ∷ xs) (suc i) = get_elem?-map f xs i

  -- A scan that succeeds stops at an entry that passes, and passes over none before it.
  pub find_index-some :
      (p : A → Bool) (xs : List A) (i : ℕ)
      → find_index p xs ≡ some i
      → (x : A) × (get_elem? xs i ≡ some x) × (p x ≡ true)
  find_index-some p [] i h = absurd (cc)
  find_index-some p (x ∷ xs) zero h = (x, refl, ground arith)
  find_index-some p (x ∷ xs) (suc i) h = find_index-some p xs i (ground arith)

  pub find_index-first :
      (p : A → Bool) (xs : List A) (i j : ℕ) {y : A}
      → find_index p xs ≡ some i
      → j < i
      → get_elem? xs j ≡ some y
      → p y ≡ false
  find_index-first p [] i j h l g = absurd (cc)
  find_index-first p (x ∷ xs) zero j h l g = absurd (omega arith)
  find_index-first p (x ∷ xs) (suc i) zero h l g = ground arith
  find_index-first p (x ∷ xs) (suc i) (suc j) h l g =
      find_index-first p xs i j (ground arith) (omega arith) g

  pub find_index-none :
      (p : A → Bool) (xs : List A) (j : ℕ) {y : A}
      → find_index p xs ≡ none
      → get_elem? xs j ≡ some y
      → p y ≡ false
  find_index-none p [] j h g = absurd (cc)
  find_index-none p (x ∷ xs) zero h g = ground arith
  find_index-none p (x ∷ xs) (suc j) h g = find_index-none p xs j (ground arith) g

  pub All-get {κ} :
      (P : A → Type κ) (xs : List A) (i : ℕ) {x : A} → All P xs → get_elem? xs i ≡ some x → P x
  All-get P [] i a h = absurd (cc)
  All-get P (x ∷ xs) zero a h = subst P (cc) a.0
  All-get P (x ∷ xs) (suc i) a h = All-get P xs i a.1 h
