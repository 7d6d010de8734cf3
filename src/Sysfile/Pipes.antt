-- ===== src/Sysfile/Pipes.antt =====
-- `pipealloc` and `sys_pipe` against the counts of the file table: what is taken is given back on failure.
use mathlib.Core.Option
use cs537pair.Prelude.{
  ◌>>=◌, ℕ, ◌<◌, ◌≡◌, ◌⊎◌, inl, inr, ◌∙◌, refl, ap, sym, Bool, true, false, List, [], ◌∷◌, ◌++◌,
  Option, none, some, arith, find_index, find_index-some, length, length-modify, get_elem?,
  get_elem?-lt, get_elem?-of_lt, get_elem?-modify_inv, set, modify, Option-cases, get_elem?-set,
}
use cs537pair.Kalloc.{Kmem, kalloc}
use cs537pair.File.{File, Ftable, filealloc, Action, is_free}
use cs537pair.File.Counts.{AreCounted, opened, closed, Step-AreCounted, fileclose_lem}
use cs537pair.Sysfile.{
  Desc, note, close_ref, stored, open_pipe, is_null, fdalloc, pipe_end, pipealloc, sys_pipe,
  drop_ends, second_fd,
}
use cs537pair.Sysfile.Descriptors.{
  held, held-open, held-close, AreCounted-same, inside-set, length-fileclose, is_null_lem,
  IsConsistent,
}

-- The counts of a table, for these references.
abbrev Counts : Ftable → List ℕ → Type 0
Counts t rs = AreCounted (record { table = t; held = rs })

-- A table as long as `t` with these counts.
abbrev Like : Ftable → List ℕ → Ftable → Type 0
Like t rs t' = Counts t' rs × (length t' ≡ length t)

close_one :
    (s : Desc) (front back : List ℕ) (f : ℕ)
    → f < length s.table
    → Counts s.table (front ++ (f ∷ back))
    → (t' : Ftable) × (a : List Action) × (close_ref f s
        ≡ some (record s { table = t'; after = a }))
      × Like s.table (front ++ back) t'
unfolding close_ref
close_one s front back f l c =
    let (x, g) = get_elem?-of_lt s.table f l in
    let (last, a, t', q, _, _) = fileclose_lem s.table front back f x g c in
    (
      t',
      note s.after a,
      rw q refl,
      (
        Step-AreCounted (closed front back f last a refl q) c,
        length-fileclose f s.table t' last a q,
      ),
    )

alloc_one :
    (t : Ftable) (rs : List ℕ)
    → Counts t rs
    → (filealloc t ≡ (none, t))
      ⊎ ((f : ℕ) × (t' : Ftable) × (filealloc t ≡ (some f, t'))
          × Like t (f ∷ rs) t'
          × (f < length t))
unfolding filealloc
alloc_one t rs c = elim (Option-cases (find_index is_free t)) [
  | inl full ↦ inl (rw full refl)
  | inr (f, h) ↦
      let t' = modify t f (λ (x : File). record x { ref = 1 }) in
      let e : filealloc t ≡ (some f, t') = rw h refl in
      let (x, g, _) = find_index-some is_free t f h in
      inr (f, t', e, (Step-AreCounted (opened f e) c, length-modify t f _), get_elem?-lt t f g)
]

set_end-Counts :
    (t : Ftable) (rs : List ℕ) (f page : ℕ) (w : Bool)
    → Counts t rs
    → Counts (modify t f (pipe_end page w)) rs
set_end-Counts t rs f page w c i y h =
    let (x, g, r) = get_elem?-modify_inv t f i (pipe_end page w) h in
    elim r [ inl (e, v) ↦ ap (λ z. z.ref) v ∙ c i x g | inr (e, v) ↦ ap (λ z. z.ref) v ∙ c i x g ]

-- What `pipealloc` comes to: a failure that holds no file, or two files in a table as long.
data Piped (s : Desc) (rs : List ℕ) (r : Option (Option (ℕ × ℕ) × Desc)) : Type 0 where
  gave_up :
      (t' : Ftable) (k : Kmem) (a : List Action)
      → r ≡ some (none, record s { table = t'; kmem = k; after = a })
      → Like s.table rs t'
      → Piped s rs r
  piped :
      (f0 f1 : ℕ) (t' : Ftable) (k : Kmem)
      → r ≡ some (some (f0, f1), record s { table = t'; kmem = k })
      → Like s.table (f1 ∷ f0 ∷ rs) t'
      → f0 < length s.table
      → f1 < length s.table
      → Piped s rs r

pipealloc_lem : (s : Desc) (rs : List ℕ) → Counts s.table rs → Piped s rs (pipealloc s)
unfolding pipealloc
pipealloc_lem s rs c = elim (alloc_one s.table rs c) [
  | inl full ↦ rw full (gave_up s.table s.kmem s.after refl (c, refl))
  | inr (f0, t1, e1, (c1, n1), l0) ↦ elim (alloc_one t1 (f0 ∷ rs) c1) [
    | inl full ↦
        let (t', a, q, (c', n')) = close_one (record s { table = t1 }) [] rs f0 (omega arith) c1 in
        rw (e1, full, q) (gave_up t' s.kmem a refl (c', n' ∙ n1))
    | inr (f1, t2, e2, (c2, n2), l1) ↦
        let k = (kalloc s.kmem).1 in
        elim (Option-cases (kalloc s.kmem).0) [
          | inl no_page ↦
              let s2 : Desc = record s { table = t2; kmem = k } in
              let (t', a, q, (c', n')) = close_one s2 (f1 ∷ []) rs f0 (omega arith) c2 in
              let s3 : Desc = record s2 { table = t'; after = a } in
              let (t'', a', q', (c'', n'')) = close_one s3 [] rs f1 (omega arith) c' in
              rw (e1, e2, no_page, q, q') (gave_up t'' k a' refl (c'', n'' ∙ n' ∙ n2 ∙ n1))
          | inr (page, got) ↦
              let t3 = modify (modify t2 f0 (pipe_end page false)) f1 (pipe_end page true) in
              let c3 =
                set_end-Counts (modify t2 f0 (pipe_end page false)) (f1 ∷ f0 ∷ rs) f1 page true
                  (set_end-Counts t2 (f1 ∷ f0 ∷ rs) f0 page false c2) in
              rw (e1, e2, got)
                (piped f0 f1 t3 k refl
                  (
                    c3,
                    length-modify (modify t2 f0 (pipe_end page false)) f1 _
                        ∙ length-modify t2 f0 _
                        ∙ n2
                        ∙ n1,
                  )
                  l0 (omega arith))
        ]
  ]
]

-- A result of `sys_pipe`, and descriptors that are consistent.
abbrev pub Opens : {A : Type 0} → List ℕ → Option (Option A × Desc) → Type 0
Opens {A} others r = (n : Option A) × (s' : Desc) × (r ≡ some (n, s')) × IsConsistent others s'

drop_ends-Opens :
    (others : List ℕ) (rf wf : ℕ) (s : Desc)
    → Counts s.table (wf ∷ rf ∷ (held s.ofile ++ others))
    → rf < length s.table
    → wf < length s.table
    → ((fd f : ℕ) → get_elem? s.ofile fd ≡ some (some f) → f < length s.table)
    → Opens others (drop_ends rf wf s)
drop_ends-Opens others rf wf s c l l' inside =
    let rs = held s.ofile ++ others in
    let (t1, a, q, (c1, n1)) = close_one s (wf ∷ []) rs rf l c in
    let s1 : Desc = record s { table = t1; after = a } in
    let (t2, a', q', (c2, n2)) = close_one s1 [] rs wf (omega arith) c1 in
    (
      none,
      record s { table = t2; after = a' },
      rw (q, q') refl,
      record { counted = c2; inside = λ k f h. omega (arith, inside k f h) },
    )

second-Opens :
    (others : List ℕ) (rf wf fd0 : ℕ) (s : Desc)
    → get_elem? s.ofile fd0 ≡ some (some rf)
    → Counts s.table (wf ∷ (held s.ofile ++ others))
    → rf < length s.table
    → wf < length s.table
    → ((fd f : ℕ) → get_elem? s.ofile fd ≡ some (some f) → f < length s.table)
    → Opens others (second_fd rf wf fd0 (fdalloc wf s.ofile) s)
unfolding fdalloc
second-Opens others rf wf fd0 s h c l l' inside = elim (Option-cases (find_index is_null s.ofile)) [
  | inl full ↦ rw full (
      drop_ends-Opens others rf wf (record s { ofile = set s.ofile fd0 none })
        (AreCounted-same s.table (wf ∷ (held s.ofile ++ others))
          (wf ∷ rf ∷ (held (set s.ofile fd0 none) ++ others))
          (λ j. let e = held-close s.ofile fd0 rf j others h in ground (arith, e)) c)
        l l'
        (inside-set s.ofile fd0 none (length s.table) (length s.table) refl inside
          (λ z w. absurd (cc))))
  | inr (k, free) ↦
      let (y, hy, null) = find_index-some is_null s.ofile k free in
      let h' = hy ∙ ap some (is_null_lem y null) in
      let s' : Desc = record s { ofile = set s.ofile k (some wf) } in
      (
        some (fd0, k),
        s',
        rw free refl,
        record {
          counted =
              AreCounted-same s.table (wf ∷ (held s.ofile ++ others)) (held s'.ofile ++ others)
                (λ j. sym (held-open s.ofile k wf j others h')) c;
          inside =
              inside-set s.ofile k (some wf) (length s.table) (length s.table) refl inside
                (λ z w. ground (arith, w));
        },
      )
]

made-Opens : (others : List ℕ) (s : Desc) → IsConsistent others s → Opens others (open_pipe s)
unfolding fdalloc
made-Opens others s v =
    let rs = held s.ofile ++ others in
    elim (pipealloc_lem s rs v.counted) [
      | gave_up t' k a e (c, n) ↦ (
        none,
        record s { table = t'; kmem = k; after = a },
        rw e refl,
        record { counted = c; inside = λ fd f h. omega (arith, v.inside fd f h, n) },
      )
      | piped f0 f1 t' k e (c, n) l0 l1 ↦
          let s1 : Desc = record s { table = t'; kmem = k } in
          let inside1 : (fd f : ℕ) → get_elem? s.ofile fd ≡ some (some f) → f < length t' =
            λ fd f h. omega (arith, v.inside fd f h, n) in
          elim (Option-cases (find_index is_null s.ofile)) [
            | inl full ↦
                rw (e, full) (drop_ends-Opens others f0 f1 s1 c (omega arith) (omega arith) inside1)
            | inr (fd, free) ↦
                let (y, hy, null) = find_index-some is_null s.ofile fd free in
                let h' = hy ∙ ap some (is_null_lem y null) in
                let s2 : Desc = record s1 { ofile = set s.ofile fd (some f0) } in
                rw (e, free)
                  (second-Opens others f0 f1 fd s2
                    (get_elem?-set s.ofile fd fd (some f0) ∙ ground (arith, h'))
                    (AreCounted-same t' (f1 ∷ f0 ∷ rs) (f1 ∷ (held s2.ofile ++ others))
                      (λ j. let q = held-open s.ofile fd f0 j others h' in ground (arith, q)) c)
                    (omega arith) (omega arith)
                    (inside-set s.ofile fd (some f0) (length t') (length t') refl inside1
                      (λ z w. ground (arith, w))))
          ]
    ]

-- Where each file counts the descriptors of the process and the references of others, and the descriptors hold
-- entries of the table: `sys_pipe` does not panic, and leaves it so whether it opens a pipe or fails, for a bad
-- pointer or for want of a file, a page or a descriptor.
pub sys_pipe-Opens :
    (others : List ℕ) (arg : Option ℕ) (s : Desc)
    → IsConsistent others s
    → Opens others (sys_pipe arg s)
unfolding sys_pipe
sys_pipe-Opens others none s v = (none, s, refl, v)
sys_pipe-Opens others (some fd) s v =
    let (n, s', e, v') = made-Opens others s v in
    (
      Option.map (stored fd) n,
      s',
      ap (λ r. r >>= λ q. some (Option.map (stored fd) q.0, q.1)) e,
      v',
    )
