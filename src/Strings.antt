-- ===== src/Strings.antt =====
-- p5/xv6-public/string.c: the kernel's string and memory functions.
-- A buffer is the list of its bytes from a pointer to the end of the object. `none` is an access
-- past that end. Memory that two pointers may share is a function from addresses to bytes.
pub mod Compare
pub mod Copy
pub mod Move
mod Tests
use cs537pair.Prelude.{
  ℕ, zero, suc, ◌+◌, ◌-◌, ◌*◌, ◌/◌, ◌%◌, ◌<◌, Bool, true, false, ◌&&◌, ◌||◌, not, List, [], ◌∷◌,
  Option, none, some, ltb, leb, ◌==◌, if◌then◌else◌, find_index, ◌>>=◌,
}
use mathlib.Core.Option
use cs537pair.Prelude.Int.{ℤ, pos, sub_ℕ}

-- `strlen`: the index of the first NUL.
abbrev pub strlen : List ℕ → Option ℕ
strlen = find_index (λ c. c == 0)

-- `*s = 0` behind the copy loop of `safestrcpy`.
pub terminate : List ℕ → Option (List ℕ)
terminate [] = none
terminate (d ∷ ds) = some (0 ∷ ds)

-- The loop of `safestrcpy`, from the value that `n` has before `--n`.
pub safestrcpy_loop : ℕ → List ℕ → List ℕ → Option (List ℕ)
safestrcpy_loop zero dst src = terminate dst
safestrcpy_loop (suc zero) dst src = terminate dst
safestrcpy_loop (suc (suc m)) [] src = none
safestrcpy_loop (suc (suc m)) (d ∷ dst) [] = none
safestrcpy_loop (suc (suc m)) (d ∷ dst) (c ∷ src) =
    let rest = safestrcpy_loop (suc m) dst src in
    Option.map (λ r. c ∷ r) (if c == 0 then terminate dst else rest)

-- The buffer `dst` afterwards. `n` is not negative at any call.
pub safestrcpy : List ℕ → List ℕ → ℕ → Option (List ℕ)
safestrcpy dst src n = if n == 0 then some dst else safestrcpy_loop n dst src

-- The second loop of `strncpy`: it pads with NULs.
pub pad : ℕ → List ℕ → Option (List ℕ)
pad zero dst = some dst
pad (suc n) [] = none
pad (suc n) (d ∷ dst) = Option.map (λ r. 0 ∷ r) (pad n dst)

pub strncpy : List ℕ → List ℕ → ℕ → Option (List ℕ)
strncpy dst src zero = some dst
strncpy [] src (suc n) = none
strncpy (d ∷ dst) [] (suc n) = none
strncpy (d ∷ dst) (c ∷ src) (suc n) =
    let rest = strncpy dst src n in Option.map (λ r. c ∷ r) (if c == 0 then pad n dst else rest)

-- The difference of two bytes taken as `uchar`.
abbrev byte_diff : ℕ → ℕ → ℤ
byte_diff a b = sub_ℕ a b

pub memcmp : List ℕ → List ℕ → ℕ → Option ℤ
memcmp s1 s2 zero = some (pos 0)
memcmp [] s2 (suc n) = none
memcmp (a ∷ s1) [] (suc n) = none
memcmp (a ∷ s1) (b ∷ s2) (suc n) =
    let rest = memcmp s1 s2 n in if a == b then rest else some (byte_diff a b)

unfoldable pub strncmp : List ℕ → List ℕ → ℕ → Option ℤ
strncmp p q zero = some (pos 0)
strncmp [] q (suc n) = none
strncmp (a ∷ p) [] (suc n) = none
strncmp (a ∷ p) (b ∷ q) (suc n) =
    let rest = strncmp p q n in if not (a == 0) && (a == b) then rest else some (byte_diff a b)

abbrev pub Memory : Type 0
Memory = ℕ → ℕ

abbrev pub store : Memory → ℕ → ℕ → Memory
store m a v x = if a == x then v else m x

-- `while(n-- > 0) *--d = *--s;` from the ends of both ranges.
pub copy_down : ℕ → ℕ → ℕ → Memory → Memory
copy_down zero d s m = m
copy_down (suc n) d s m = copy_down n (d - 1) (s - 1) (store m (d - 1) (m (s - 1)))

-- `while(n-- > 0) *d++ = *s++;`
pub copy_up : ℕ → ℕ → ℕ → Memory → Memory
copy_up zero d s m = m
copy_up (suc n) d s m = copy_up n (d + 1) (s + 1) (store m d (m s))

pub memmove : ℕ → ℕ → ℕ → Memory → Memory
memmove dst src n m =
    if ltb src dst && ltb dst (src + n)
    then copy_down n (dst + n) (src + n) m
    else copy_up n dst src m

-- `memcpy`, which is there for the compiler.
abbrev pub memcpy : ℕ → ℕ → ℕ → Memory → Memory
memcpy = memmove

-- `stosb`: `n` bytes of value `c` from `d` on.
pub stosb : ℕ → ℕ → ℕ → Memory → Memory
stosb zero d c m = m
stosb (suc n) d c m = stosb n (d + 1) c (store m d (c % 256))

-- `stosl`: `n` words of value `w` from `d` on, the low byte first.
pub stosl : ℕ → ℕ → ℕ → Memory → Memory
stosl zero d w m = m
stosl (suc n) d w m = stosl n (d + 4) w (
    store (store (store (store m d (w % 256)) (d + 1) (w / 256 % 256)) (d + 2) (w / 65536 % 256))
      (d + 3) (w / 16777216 % 256))

-- `(c<<24)|(c<<16)|(c<<8)|c` for a byte: the parts do not overlap, so `|` adds them.
abbrev pub spread : ℕ → ℕ
spread c = c * 16777216 + c * 65536 + c * 256 + c

pub memset : ℕ → ℕ → ℕ → Memory → Memory
memset dst c n m =
    if (dst % 4 == 0) && (n % 4 == 0)
    then stosl (n / 4) dst (spread (c % 256)) m
    else stosb n dst c m
