-- ===== src/Pipe/Transfer.antt =====
-- What goes into a pipe comes out of it, in order and once, whatever the reader and the writer do.
use cs537pair.Prelude.{
  ℕ, zero, suc, ◌<◌, ◌≡◌, ◌≢◌, ◌⊎◌, inl, inr, ◌∙◌, sym, subst, refl, ap, Bool, true, false, not,
  ◌||◌, ◌&&◌, List, [], ◌∷◌, ◌++◌, arith, if◌then◌else◌, Bool-cases, length,
}
use mathlib.Core.List.{append_assoc, append-nil, append_cancel_right}
use Prim.Native.Nat.{min}
use cs537pair.Prelude.Int.{pos, negsuc}
use cs537pair.Pipe.{
  Pipe, pipesize, is_full, is_empty, put, take_byte, Outcome, returned, sleeping, pipewrite,
  read_loop, ReadOutcome, got, fails, waits, piperead,
}
use cs537pair.Pipe.Ring.{
  IsValid, size, contents, is_full_iff, is_empty_iff, put_lem, take_byte_lem, length-window,
}

-- What a call of `pipewrite` has done with the bytes `cs` when it returns or sleeps: it has put a part
-- `done` behind the contents, and `rest` is left.
pub record Written (p : Pipe) (cs done rest : List ℕ) (q : Pipe) : Type 0 where
  pub split : cs ≡ done ++ rest
  pub added : contents q ≡ contents p ++ done
  pub valid : IsValid q
  pub kept : q.readopen ≡ p.readopen

-- All bytes are written and the call wakes the reader and returns their number; or the pipe is full, and the call fails
-- because the reader is gone or the caller killed; or it is full and the writer sleeps, with the reader woken before.
abbrev pub WriteDoes : Bool → ℕ → List ℕ → Pipe → Outcome → Type 0
WriteDoes killed n cs p (returned (pos m) woke q) = (m ≡ n) × (woke ≡ true) × Written p cs cs [] q
WriteDoes killed n cs p (returned (negsuc m) woke q) =
    (done : List ℕ) × (rest : List ℕ) × Written p cs done rest q
    × (size q ≡ pipesize)
    × ((p.readopen ≡ false) ⊎ (killed ≡ true))
WriteDoes killed n cs p (sleeping rest woke q) =
    (done : List ℕ) × Written p cs done rest q × (size q ≡ pipesize) × (rest ≢ []) × (woke ≡ true)

Written-cons :
    (c : ℕ) (cs done rest : List ℕ) (p q : Pipe)
    → IsValid p
    → size p < pipesize
    → Written (put c p) cs done rest q
    → Written p (c ∷ cs) (c ∷ done) rest q
unfolding put
Written-cons c cs done rest p q v l w = record {
  split = ap (λ x. c ∷ x) w.split;
  added =
      w.added ∙ ap (λ x. x ++ done) (put_lem c p v l).1 ∙ append_assoc (contents p) (c ∷ []) done;
  valid = w.valid;
  kept = w.kept;
}

later :
    (killed : Bool) (n c : ℕ) (cs : List ℕ) (p : Pipe) (o : Outcome)
    → IsValid p
    → size p < pipesize
    → WriteDoes killed n cs (put c p) o
    → WriteDoes killed n (c ∷ cs) p o
unfolding put
later killed n c cs p (returned (pos m) woke q) v l (e, a, w) =
    (e, a, Written-cons c cs cs [] p q v l w)
later killed n c cs p (returned (negsuc m) woke q) v l (done, rest, w, f, why) =
    (c ∷ done, rest, Written-cons c cs done rest p q v l w, f, why)
later killed n c cs p (sleeping rest woke q) v l (done, w, f, more, a) =
    (c ∷ done, Written-cons c cs done rest p q v l w, f, more, a)

unwritten : (cs : List ℕ) (p : Pipe) → IsValid p → Written p cs [] cs p
unwritten cs p v = record {
  split = refl;
  added = sym (append-nil (contents p));
  valid = v;
  kept = refl;
}

stuck :
    (killed : Bool) (n c : ℕ) (cs : List ℕ) (p : Pipe)
    → IsValid p
    → size p ≡ pipesize
    → WriteDoes killed n
        (c ∷ cs)
        p
        (if not p.readopen || killed then returned (negsuc 0) false p else sleeping (c ∷ cs) true p)
stuck killed n c cs p v f = elim (Bool-cases (not p.readopen || killed)) [
  | inl gone ↦ rw gone ([], c ∷ cs, unwritten (c ∷ cs) p v, f, ground arith)
  | inr live ↦ rw live ([], unwritten (c ∷ cs) p v, f, (λ e. cc), refl)
]

-- On a valid pipe `pipewrite` puts its bytes behind the contents in order, as far as there is room. It
-- returns its count once all are there, and then has woken the reader. Where it fails or sleeps the
-- pipe is full, and a part of the bytes is in it and the rest is not; it fails only if the reader is
-- gone or the caller killed, and sleeps only with bytes left and after a wakeup of the reader.
pub pipewrite_lem :
    (killed : Bool) (n : ℕ) (cs : List ℕ) (p : Pipe)
    → IsValid p
    → WriteDoes killed n cs p (pipewrite killed n cs p)
unfolding pipewrite
pipewrite_lem killed n [] p v = (refl, refl, unwritten [] p v)
pipewrite_lem killed n (c ∷ cs) p v = elim (Bool-cases (is_full p)) [
  | inl full ↦ rw (full, pipewrite) (stuck killed n c cs p v (ground (arith, is_full_iff p v)))
  | inr room ↦
      let l : size p < pipesize = ground (arith, is_full_iff p v, v.bound) in
      rw (room, pipewrite)
        (later killed n c cs p (pipewrite killed n cs (put c p)) v l
          (pipewrite_lem killed n cs (put c p) (put_lem c p v l).0))
]

-- What a reader of up to `n` bytes takes: `cs` from the front of the contents.
pub record Taken (n : ℕ) (p : Pipe) (cs : List ℕ) (q : Pipe) : Type 0 where
  pub front : contents p ≡ cs ++ contents q
  pub count : length cs ≡ min n (size p)
  pub valid : IsValid q

read_loop_lem : (n : ℕ) (p : Pipe) → IsValid p → Taken n p (read_loop n p).0 (read_loop n p).1
unfolding read_loop
read_loop_lem zero p v = record { front = refl; count = omega arith; valid = v }
read_loop_lem (suc n) p v = elim (Bool-cases (is_empty p)) [
  | inl empty ↦
      let e : size p ≡ 0 = ground (arith, is_empty_iff p v) in
      rw (empty, read_loop) (record { front = refl; count = omega (arith, e); valid = v })
  | inr some_left ↦
      let e : size p ≢ 0 = ground (arith, is_empty_iff p v) in
      let (w, front) = take_byte_lem p v e in
      let rest = read_loop_lem n (take_byte p).1 w in
      let less : size p ≡ suc (size (take_byte p).1) =
        sym (length-window p.buf p.nread (size p))
        ∙ ap length front
        ∙ ap suc (length-window (take_byte p).1.buf (take_byte p).1.nread (size (take_byte p).1)) in
      rw (some_left, read_loop)
        (record {
          front = front ∙ ap (λ x. (take_byte p).0 ∷ x) rest.front;
          count = omega (arith, rest.count, less);
          valid = rest.valid;
        })
]

-- What a call of `piperead` for up to `n` bytes comes to.
abbrev pub ReadDoes : Bool → ℕ → Pipe → ReadOutcome → Type 0
ReadDoes killed n p (got cs woke q) =
    (woke ≡ true) × Taken n p cs q × ((size p ≡ 0) → p.writeopen ≡ false)
ReadDoes killed n p fails = (size p ≡ 0) × (p.writeopen ≡ true) × (killed ≡ true)
ReadDoes killed n p waits = (size p ≡ 0) × (p.writeopen ≡ true) × (killed ≡ false)

-- On a valid pipe `piperead` takes bytes from the front, as many as there are up to `n`, and wakes the
-- writer; with an empty pipe it does so only where the writer is gone. With an empty pipe that has a
-- writer it fails if the caller is killed, and otherwise waits.
pub piperead_lem :
    (killed : Bool) (n : ℕ) (p : Pipe) → IsValid p → ReadDoes killed n p (piperead killed n p)
unfolding piperead
piperead_lem killed n p v = elim (Bool-cases (is_empty p && p.writeopen)) [
  | inl wait ↦
      let e : size p ≡ 0 = ground (arith, is_empty_iff p v) in
      rw (wait, piperead) (blocked killed e (ground arith))
  | inr go ↦ rw (go, piperead) (refl, read_loop_lem n p v, λ e. ground (arith, is_empty_iff p v))
]
  where
    blocked :
        (k : Bool) → size p ≡ 0 → p.writeopen ≡ true → ReadDoes k n p (if k then fails else waits)
    blocked true e o = (e, o, refl)
    blocked false e o = (e, o, refl)

-- Calls on a pipe by both ends, in any order, with the bytes that went in and those that came out. A
-- write counts for what it has put when it returns or sleeps; what is left is a later write.
pub data Stream : Pipe → List ℕ → List ℕ → Pipe → Type 0 where
  idle : (p : Pipe) → Stream p [] [] p
  wrote :
      {p q r : Pipe} {ins outs : List ℕ} (killed : Bool) (n : ℕ) (cs : List ℕ)
      → pipewrite killed n cs p ≡ returned (pos n) true q
      → Stream q ins outs r
      → Stream p (cs ++ ins) outs r
  slept :
      {p q r : Pipe} {ins outs : List ℕ} (killed : Bool) (n : ℕ) (done rest : List ℕ)
      → pipewrite killed n (done ++ rest) p ≡ sleeping rest true q
      → Stream q ins outs r
      → Stream p (done ++ ins) outs r
  read :
      {p q r : Pipe} {ins outs : List ℕ} (killed : Bool) (n : ℕ) (cs : List ℕ)
      → piperead killed n p ≡ got cs true q
      → Stream q ins outs r
      → Stream p ins (cs ++ outs) r

-- Over any sequence of calls that do not fail, what was in the pipe and what went in is, in this order,
-- what came out and what is in the pipe now.
pub Stream-fifo :
    {p q : Pipe} {ins outs : List ℕ}
    → IsValid p
    → Stream p ins outs q
    → (contents p ++ ins ≡ outs ++ contents q) × IsValid q
Stream-fifo v (idle p) = (append-nil (contents p), v)
Stream-fifo v (wrote {p} {q} {r} {ins} {outs} killed n cs e s) =
    let (m, a, w) = subst (WriteDoes killed n cs p) e (pipewrite_lem killed n cs p v) in
    let (ih, u) = Stream-fifo w.valid s in
    (sym (append_assoc (contents p) cs ins) ∙ ap (λ x. x ++ ins) (sym w.added) ∙ ih, u)
Stream-fifo v (slept {p} {q} {r} {ins} {outs} killed n done rest e s) =
    let (put, w, f, more, a) =
      subst (WriteDoes killed n (done ++ rest) p) e (pipewrite_lem killed n (done ++ rest) p v) in
    let (ih, u) = Stream-fifo w.valid s in
    let same : done ≡ put = append_cancel_right done put rest w.split in
    (
      sym (append_assoc (contents p) done ins)
          ∙ ap (λ x. (contents p ++ x) ++ ins) same
          ∙ ap (λ x. x ++ ins) (sym w.added)
          ∙ ih,
      u,
    )
Stream-fifo v (read {p} {q} {r} {ins} {outs} killed n cs e s) =
    let (a, w, o) = subst (ReadDoes killed n p) e (piperead_lem killed n p v) in
    let (ih, u) = Stream-fifo w.valid s in
    (
      ap (λ x. x ++ ins) w.front
          ∙ append_assoc cs (contents q) ins
          ∙ ap (λ x. cs ++ x) ih
          ∙ sym (append_assoc cs outs (contents r)),
      u,
    )
