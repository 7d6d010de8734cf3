-- ===== src/Sysfile/Descriptors.antt =====
-- The descriptors of a process against the counts of the file table.
use cs537pair.Prelude.{
  ℕ, zero, suc, ◌+◌, ◌-◌, ◌<◌, ◌≡◌, inl, inr, ◌∙◌, refl, ap, sym, Bool, true, false, List, [], ◌∷◌,
  ◌++◌, Option, none, some, arith, ltb, ◌==◌, find_index, find_index-some, length, length-modify,
  get_elem?, get_elem?-of_lt, set, modify, Bool-cases, Option-cases, get_elem?-set,
}
use cs537pair.Prelude.Int.{ℤ, pos}
use cs537pair.File.{File, Ftable, filedup, fileclose, Action, nothing, last_close, free_file}
use cs537pair.File.Counts.{refs_to, AreCounted, dupped, closed, Step-AreCounted, fileclose_lem}
use cs537pair.Sysfile.{Desc, note, close_ref, failed, is_null, argfd, fdalloc, sys_dup, sys_close}

-- The files that the descriptors hold.
abbrev pub held : List (Option ℕ) → List ℕ
held [] = []
held (none ∷ o) = held o
held (some f ∷ o) = f ∷ held o

pub held-open :
    (o : List (Option ℕ)) (fd f j : ℕ) (rest : List ℕ)
    → get_elem? o fd ≡ some none
    → refs_to j (held (set o fd (some f)) ++ rest) ≡ refs_to j (f ∷ (held o ++ rest))
held-open [] fd f j rest h = absurd (cc)
held-open (none ∷ o) zero f j rest h = refl
held-open (some g ∷ o) zero f j rest h = absurd (cc)
held-open (none ∷ o) (suc fd) f j rest h = held-open o fd f j rest h
held-open (some g ∷ o) (suc fd) f j rest h = ground (arith, held-open o fd f j rest h)

pub held-close :
    (o : List (Option ℕ)) (fd f j : ℕ) (rest : List ℕ)
    → get_elem? o fd ≡ some (some f)
    → refs_to j (held o ++ rest) ≡ refs_to j (f ∷ (held (set o fd none) ++ rest))
held-close [] fd f j rest h = absurd (cc)
held-close (none ∷ o) zero f j rest h = absurd (cc)
held-close (some g ∷ o) zero f j rest h = let w : g ≡ f = ground arith in ground (arith, w)
held-close (none ∷ o) (suc fd) f j rest h = held-close o fd f j rest h
held-close (some g ∷ o) (suc fd) f j rest h = ground (arith, held-close o fd f j rest h)

pub AreCounted-same :
    (t : Ftable) (rs rs' : List ℕ)
    → ((j : ℕ) → refs_to j rs ≡ refs_to j rs')
    → AreCounted (record { table = t; held = rs })
    → AreCounted (record { table = t; held = rs' })
AreCounted-same t rs rs' same c i f h = c i f h ∙ same i

-- Each file counts the descriptors of this process and the references that others have, and what the
-- descriptors hold is in the table.
pub record IsConsistent (others : List ℕ) (s : Desc) : Type 0 where
  pub counted : AreCounted (record { table = s.table; held = held s.ofile ++ others })
  pub inside : (fd f : ℕ) → get_elem? s.ofile fd ≡ some (some f) → f < length s.table

pub argfd_lem :
    (fd f : ℕ) (o : List (Option ℕ)) → argfd fd o ≡ some f → get_elem? o fd ≡ some (some f)
unfolding argfd
argfd_lem fd f o e = elim (Option-cases (get_elem? o fd)) [
  | inl h ↦ absurd (ground (arith, h))
  | inr (none, h) ↦ absurd (ground (arith, h))
  | inr (some g, h) ↦ h ∙ ground (arith, h)
]

-- A descriptor that holds `f` or what another one holds, in a table as long.
pub inside-set :
    (o : List (Option ℕ)) (fd : ℕ) (v : Option ℕ) (n n' : ℕ)
    → n' ≡ n
    → ((k f : ℕ) → get_elem? o k ≡ some (some f) → f < n)
    → ((f : ℕ) → v ≡ some f → f < n)
    → (k f : ℕ) → get_elem? (set o fd v) k ≡ some (some f)
    → f < n'
inside-set o fd v n n' e old new k f h = elim (Bool-cases (fd == k)) [
  | inl here ↦ elim (Option-cases (get_elem? o k)) [
    | inl g ↦ absurd (let w = sym (get_elem?-set o fd k v) ∙ h in ground (arith, w, here, g))
    | inr (x, g) ↦
        let w = sym (get_elem?-set o fd k v) ∙ h in
        let z : v ≡ some f = ground (arith, w, here, g) in omega (arith, new f z, e)
  ]
  | inr there ↦
      let w = sym (get_elem?-set o fd k v) ∙ h in
      let z : get_elem? o k ≡ some (some f) = ground (arith, w, there) in
      omega (arith, old k f z, e)
]

pub is_null_lem : (y : Option ℕ) → is_null y ≡ true → y ≡ none
is_null_lem none e = refl
is_null_lem (some f) e = absurd (cc)

-- The file of an open descriptor, which counts it.
counted_file :
    (others : List ℕ) (s : Desc) (fd f : ℕ)
    → IsConsistent others s
    → get_elem? s.ofile fd ≡ some (some f)
    → (x : File) × (get_elem? s.table f ≡ some x) × (ltb x.ref 1 ≡ false)
counted_file others s fd f v h =
    let (x, g) = get_elem?-of_lt s.table f (v.inside fd f h) in
    let c : x.ref ≡ refs_to f (held s.ofile ++ others) = v.counted f x g in
    let n = held-close s.ofile fd f f others h in (x, g, ground (arith, c, n))

-- A result, and descriptors that are consistent.
abbrev pub Keeps : List ℕ → Option (ℤ × Desc) → Type 0
Keeps others r = (n : ℤ) × (s' : Desc) × (r ≡ some (n, s')) × IsConsistent others s'

pub sys_dup-Keeps :
    (others : List ℕ) (fd : ℕ) (s : Desc) → IsConsistent others s → Keeps others (sys_dup fd s)
unfolding sys_dup fdalloc filedup
sys_dup-Keeps others fd s v = elim (Option-cases (argfd fd s.ofile)) [
  | inl e ↦ (failed, s, rw e refl, v)
  | inr (f, e) ↦ elim (Option-cases (find_index is_null s.ofile)) [
    | inl full ↦ (failed, s, rw (e, full) refl, v)
    | inr (k, free) ↦
        let h = argfd_lem fd f s.ofile e in
        let (x, g, c) = counted_file others s fd f v h in
        let t' = modify s.table f (λ (y : File). record y { ref = y.ref + 1 }) in
        let dup : filedup f s.table ≡ some t' = rw (g, c) refl in
        let s' : Desc = record s { ofile = set s.ofile k (some f); table = t' } in
        let (y, hy, null) = find_index-some is_null s.ofile k free in
        (
          pos k,
          s',
          rw (e, free, g, c) refl,
          record {
            counted =
                AreCounted-same t' (f ∷ (held s.ofile ++ others)) (held s'.ofile ++ others)
                  (λ j. sym (held-open s.ofile k f j others (hy ∙ ap some (is_null_lem y null))))
                  (Step-AreCounted (dupped f dup) v.counted);
            inside =
                inside-set s.ofile k (some f) (length s.table) (length t')
                  (length-modify s.table f _) v.inside (λ z q. v.inside fd z (h ∙ ap some q));
          },
        )
  ]
]

pub length-fileclose :
    (i : ℕ) (t t' : Ftable) (last : Bool) (a : Action)
    → fileclose i t ≡ some (last, a, t')
    → length t' ≡ length t
unfolding fileclose
length-fileclose i t t' last a e = elim (Option-cases (get_elem? t i)) [
  | inl h ↦ absurd (let w = rw h at e in cc)
  | inr (f, h) ↦ elim (Bool-cases (ltb f.ref 1)) [
    | inl low ↦ absurd (let w = rw (h, low) at e in cc)
    | inr ok ↦ elim (Bool-cases (ltb 0 (f.ref - 1))) [
      | inl more ↦
          let w : some (false, nothing, modify t i (λ (g : File). record g { ref = g.ref - 1 }))
              ≡ some (last, a, t') =
            rw (h, ok, more) at e in
          let z : modify t i (λ (g : File). record g { ref = g.ref - 1 }) ≡ t' = cc in
          ap length (sym z) ∙ length-modify t i _
      | inr one ↦
          let w : some (true, last_close f f.type, modify t i free_file) ≡ some (last, a, t') =
            rw (h, ok, one) at e in
          let z : modify t i free_file ≡ t' = cc in ap length (sym z) ∙ length-modify t i _
    ]
  ]
]

pub sys_close-Keeps :
    (others : List ℕ) (fd : ℕ) (s : Desc) → IsConsistent others s → Keeps others (sys_close fd s)
unfolding sys_close close_ref
sys_close-Keeps others fd s v = elim (Option-cases (argfd fd s.ofile)) [
  | inl e ↦ (failed, s, rw e refl, v)
  | inr (f, e) ↦
      let h = argfd_lem fd f s.ofile e in
      let (x, g, _) = counted_file others s fd f v h in
      let rest = held (set s.ofile fd none) ++ others in
      let c : AreCounted (record { table = s.table; held = f ∷ rest }) =
        AreCounted-same s.table (held s.ofile ++ others) (f ∷ rest)
          (λ j. held-close s.ofile fd f j others h) v.counted in
      let (last, a, t', q, _, _) = fileclose_lem s.table [] rest f x g c in
      (
        pos 0,
        record s { ofile = set s.ofile fd none; table = t'; after = note s.after a },
        rw (e, q) refl,
        record {
          counted = Step-AreCounted (closed [] rest f last a refl q) c;
          inside =
              inside-set s.ofile fd none (length s.table) (length t')
                (length-fileclose f s.table t' last a q) v.inside (λ z w. absurd (cc));
        },
      )
]
