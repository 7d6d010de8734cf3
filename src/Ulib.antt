-- ===== src/Ulib.antt =====
-- p5/xv6-public/ulib.c and printf.c: the library of the user programs.
-- A buffer is the list of its bytes from a pointer to the end of the object; `none` is an access past
-- that end. An `int` is its bit pattern below 2 ^ 32. What is printed is the list of the bytes that
-- `putc` writes, in order.
pub mod Text
pub mod Numbers
mod Tests
use cs537pair.Prelude.{
  ℕ, zero, suc, ◌+◌, ◌-◌, ◌*◌, ◌/◌, ◌%◌, ◌^◌, Bool, true, false, ◌&&◌, ◌||◌, not, List, [], ◌∷◌,
  ◌++◌, Option, none, some, ltb, leb, ◌==◌, if◌then◌else◌, ◌>>=◌,
}
use mathlib.Core.Option
use cs537pair.Prelude.Int.{ℤ, pos, sub_ℕ}

-- The buffer that `s` points to afterwards.
unfoldable pub strcpy : List ℕ → List ℕ → Option (List ℕ)
strcpy [] t = none
strcpy (d ∷ s) [] = none
strcpy (d ∷ s) (c ∷ t) =
    let rest = Option.map (λ r. c ∷ r) (strcpy s t) in if c == 0 then some (c ∷ s) else rest

unfoldable pub strcmp : List ℕ → List ℕ → Option ℤ
strcmp [] q = none
strcmp (a ∷ p) [] = none
strcmp (a ∷ p) (b ∷ q) =
    let rest = strcmp p q in if not (a == 0) && (a == b) then rest else some (sub_ℕ a b)

-- The index of the character before the NUL; the inner `none` is the null pointer.
unfoldable pub strchr_from : ℕ → List ℕ → ℕ → Option (Option ℕ)
strchr_from i [] c = none
strchr_from i (x ∷ s) c =
    let rest = strchr_from (i + 1) s c in
    if x == 0 then some none else if x == c then some (some i) else rest

unfoldable pub strchr : List ℕ → ℕ → Option (Option ℕ)
strchr s c = strchr_from 0 s c

abbrev pub is_digit : ℕ → Bool
is_digit c = leb 48 c && leb c 57

-- The loop of `atoi`, with the number so far.
unfoldable pub atoi_from : ℕ → List ℕ → Option ℕ
atoi_from n [] = none
atoi_from n (c ∷ s) =
    let rest = atoi_from ((n * 10 + c - 48) % 2 ^ 32) s in if is_digit c then rest else some n

unfoldable pub atoi : List ℕ → Option ℕ
atoi s = atoi_from 0 s

-- The loop of `gets` on descriptor 0, from index `i` on with the bytes so far, the last first. `read` gives
-- a byte, or none where it returns less than 1. Fuel is for the rounds; `max` of them are enough.
unfoldable pub gets_loop : {S : Type 0} → (S → Option ℕ × S) → ℕ → ℕ → ℕ → List ℕ → S → List ℕ × S
gets_loop {S = S} read zero i max line s = (line, s)
gets_loop {S = S} read (suc fuel) i max line s =
    let (c, s') = read s in
    let next : ℕ → List ℕ × S = λ b.
      let rest = gets_loop read fuel (i + 1) max (b ∷ line) s' in
      if (b == 10) || (b == 13) then (b ∷ line, s') else rest in
    let body : List ℕ × S = elim c [ none ↦ (line, s') | some b ↦ next b ] in
    if ltb (i + 1) max then body else (line, s)

-- The bytes of a list, the last first, in front of others.
unfoldable pub unwind : List ℕ → List ℕ → List ℕ
unwind [] rest = rest
unwind (d ∷ ds) rest = unwind ds (d ∷ rest)

-- The line with its NUL, as it stands in `buf`.
unfoldable pub gets : {S : Type 0} → (S → Option ℕ × S) → ℕ → S → List ℕ × S
gets read max s = let (line, s') = gets_loop read max 0 max [] s in (unwind line (0 ∷ []), s')

-- `digits[d]`
abbrev pub digit : ℕ → ℕ
digit d = if ltb d 10 then 48 + d else 55 + d

-- The first loop of `printint`, with fuel for its rounds: `buf`, from its start.
unfoldable pub digits : ℕ → ℕ → ℕ → Option (List ℕ)
digits zero x base = none
digits (suc fuel) x base =
    let rest = Option.map (λ r. digit (x % base) ∷ r) (digits fuel (x / base) base) in
    if x / base == 0 then some (digit (x % base) ∷ []) else rest

-- The bytes that `printint` prints. A base is at least 2, so 32 rounds are enough.
unfoldable pub printint : ℕ → ℕ → Bool → Option (List ℕ)
printint xx base sgn =
    if sgn && leb (2 ^ 31) xx
    then Option.map (λ b. 45 ∷ unwind b []) (digits 32 (2 ^ 32 - xx) base)
    else Option.map (λ b. unwind b []) (digits 32 xx base)

-- The bytes before the NUL.
unfoldable pub text : List ℕ → Option (List ℕ)
text [] = none
text (c ∷ s) = let rest = Option.map (λ r. c ∷ r) (text s) in if c == 0 then some [] else rest

module _ (string : ℕ → List ℕ) where
  -- "(null)" for the null pointer, and else the string at the address.
  unfoldable pub print_string : ℕ → Option (List ℕ)
  print_string s = if s == 0 then some (40 ∷ 110 ∷ 117 ∷ 108 ∷ 108 ∷ 41 ∷ []) else text (string s)

  -- What a `%` and the character `c` print, and the arguments left; without an argument it reads past them.
  unfoldable pub convert : ℕ → List ℕ → Option (List ℕ × List ℕ)
  convert c [] =
      if (c == 100) || ((c == 120) || ((c == 112) || ((c == 115) || (c == 99))))
      then none
      else if c == 37
      then some (37 ∷ [], [])
      else some (37 ∷ c ∷ [], [])
  convert c (a ∷ ap) =
      if c == 100
      then Option.map (λ o. (o, ap)) (printint a 10 true)
      else if (c == 120) || (c == 112)
      then Option.map (λ o. (o, ap)) (printint a 16 false)
      else if c == 115
      then Option.map (λ o. (o, ap)) (print_string a)
      else if c == 99
      then some ((a % 256) ∷ [], ap)
      else if c == 37
      then some (37 ∷ [], a ∷ ap)
      else some (37 ∷ c ∷ [], a ∷ ap)

  -- What a character prints in `state`, true after a '%', and the next state and the arguments left.
  unfoldable pub piece : Bool → ℕ → List ℕ → Option (List ℕ × Bool × List ℕ)
  piece true c ap = Option.map (λ r. (r.0, false, r.1)) (convert c ap)
  piece false c ap = if c == 37 then some ([], true, ap) else some (c ∷ [], false, ap)

  -- The loop of `printf` over the format.
  unfoldable pub printf_from : Bool → List ℕ → List ℕ → Option (List ℕ)
  printf_from state [] ap = none
  printf_from state (c ∷ fmt) ap =
      let rest = piece state c ap >>= λ r. Option.map (λ o. r.0 ++ o) (printf_from r.1 fmt r.2) in
      if c == 0 then some [] else rest

  unfoldable pub printf : List ℕ → List ℕ → Option (List ℕ)
  printf fmt ap = printf_from false fmt ap
