-- ===== src/Pipe/Ring.antt =====
-- The ring of a pipe holds a queue of at most PIPESIZE bytes, also where the counters wrap around.
use cs537pair.Prelude.{
  ℕ, zero, suc, ◌+◌, ◌-◌, ◌%◌, ◌^◌, ◌≤◌, ◌<◌, ◌≡◌, ◌≢◌, ◌∙◌, refl, ap, ap₂, List, [], ◌∷◌, ◌++◌,
  arith, ◌==◌, get_or, set, length, length-set, get_or-set_self, get_or-set_ne,
}
use cs537pair.Pipe.{Pipe, pipesize, u32, is_full, is_empty, put, take_byte}

-- `p->nwrite - p->nread`
abbrev pub size : Pipe → ℕ
size p = (p.nwrite + 2 ^ 32 - p.nread) % 2 ^ 32

pub record IsValid (p : Pipe) : Type 0 where
  pub room : length p.buf ≡ pipesize
  pub reads : p.nread < 2 ^ 32
  pub writes : p.nwrite < 2 ^ 32
  pub bound : size p ≤ pipesize

-- The `n` bytes from counter `r` on.
abbrev pub window : List ℕ → ℕ → ℕ → List ℕ
window buf r zero = []
window buf r (suc n) = get_or buf (r % pipesize) 0 ∷ window buf (u32 (r + 1)) n

-- The bytes in the pipe, oldest first.
abbrev pub contents : Pipe → List ℕ
contents p = window p.buf p.nread (size p)

pub length-window : (buf : List ℕ) (r n : ℕ) → length (window buf r n) ≡ n
length-window buf r zero = refl
length-window buf r (suc n) = ap suc (length-window buf (u32 (r + 1)) n)

-- A write `m` bytes ahead does not touch a window of at most `m` bytes.
window-set :
    (buf : List ℕ) (r n m w c : ℕ)
    → r < 2 ^ 32
    → n ≤ m
    → m < pipesize
    → w ≡ u32 (r + m)
    → window (set buf (w % pipesize) c) r n ≡ window buf r n
window-set buf r zero m w c b l t e = refl
window-set buf r (suc n) zero w c b l t e = absurd (omega arith)
window-set buf r (suc n) (suc m) w c b l t e =
    ap₂ ◌∷◌ (get_or-set_ne buf (w % pipesize) (r % pipesize) c 0 (λ d. omega arith))
      (window-set buf (u32 (r + 1)) n m w c (omega arith) (omega arith) (omega arith) (omega arith))

window-snoc :
    (buf : List ℕ) (r n : ℕ)
    → r < 2 ^ 32
    → window buf r (suc n) ≡ window buf r n ++ (get_or buf (u32 (r + n) % pipesize) 0 ∷ [])
window-snoc buf r zero b = let e : u32 (r + 0) ≡ r = omega arith in rw e refl
window-snoc buf r (suc n) b =
    let e : u32 (r + suc n) ≡ u32 (u32 (r + 1) + n) = omega arith in
    rw e (ap (λ w. get_or buf (r % pipesize) 0 ∷ w) (window-snoc buf (u32 (r + 1)) n (omega arith)))

-- The tests of the code read the size.
pub is_full_iff : (p : Pipe) → IsValid p → is_full p ≡ (size p == pipesize)
is_full_iff p v = ground arith

pub is_empty_iff : (p : Pipe) → IsValid p → is_empty p ≡ (size p == 0)
is_empty_iff p v = ground arith

-- A byte put into a pipe that is not full comes last, and the pipe stays valid.
pub put_lem :
    (c : ℕ) (p : Pipe)
    → IsValid p
    → size p < pipesize
    → IsValid (put c p) × (contents (put c p) ≡ contents p ++ (c ∷ []))
unfolding put
put_lem c p v l =
    let w = p.nwrite % pipesize in
    let buf : List ℕ = set p.buf w c in
    let more : (u32 (p.nwrite + 1) + 2 ^ 32 - p.nread) % 2 ^ 32 ≡ suc (size p) = omega (arith, v) in
    let here : u32 (p.nread + size p) ≡ p.nwrite = omega (arith, v) in
    (
      record {
        room = length-set p.buf w c ∙ v.room;
        reads = v.reads;
        writes = omega arith;
        bound = omega (arith, more);
      },
      rw more (
          window-snoc buf p.nread (size p) v.reads
          ∙ ap₂ (λ a b. a ++ (b ∷ []))
              (window-set p.buf p.nread (size p) (size p) p.nwrite c v.reads (omega arith) l
                (omega arith))
              (ap (λ x. get_or buf (x % pipesize) 0) here
                ∙ get_or-set_self p.buf w c 0 (omega (arith, v)))),
    )

-- The byte taken from a pipe that is not empty is the first, and the pipe stays valid.
pub take_byte_lem :
    (p : Pipe)
    → IsValid p
    → size p ≢ 0
    → let (c, p') = take_byte p in IsValid p' × (contents p ≡ c ∷ contents p')
unfolding take_byte
take_byte_lem p v l =
    let less : (p.nwrite + 2 ^ 32 - u32 (p.nread + 1)) % 2 ^ 32 ≡ size p - 1 = omega (arith, v) in
    let e : size p ≡ suc ((p.nwrite + 2 ^ 32 - u32 (p.nread + 1)) % 2 ^ 32) = omega (arith, v) in
    (
      record { room = v.room; reads = omega arith; writes = v.writes; bound = omega (arith, v) },
      rw e refl,
    )
