-- ===== src/File/Counts.antt =====
-- The counts of the file table against the references that there are.
use cs537pair.Prelude.{
  ℕ, suc, ◌+◌, ◌-◌, ◌≡◌, ◌≢◌, inl, inr, ◌∙◌, sym, refl, ap, Bool, true, false, List, [], ◌∷◌, ◌++◌,
  some, arith, ltb, ◌==◌, if◌then◌else◌, find_index, find_index-some, modify, get_elem?,
  get_elem?-modify_inv, >>=-eq-some, Bool-cases, Option-cases,
}
use cs537pair.File.{
  File, Ftable, Action, nothing, last_close, filealloc, filedup, fileclose, free_file, is_free,
}

-- How many of the references `rs` are to file `i`.
abbrev pub refs_to : ℕ → List ℕ → ℕ
refs_to i [] = 0
refs_to i (r ∷ rs) = if r == i then suc (refs_to i rs) else refs_to i rs

-- The table, and all references to its entries: the descriptors of all processes.
pub record Files : Type 0 where
  pub table : Ftable
  pub held : List ℕ

pub data Step : Files → Files → Type 0 where
  opened :
      {t t' : Ftable} {rs : List ℕ} (i : ℕ)
      → filealloc t ≡ (some i, t')
      → Step (record { table = t; held = rs }) (record { table = t'; held = i ∷ rs })
  dupped :
      {t t' : Ftable} {rs : List ℕ} (i : ℕ)
      → filedup i t ≡ some t'
      → Step (record { table = t; held = rs }) (record { table = t'; held = i ∷ rs })
  closed :
      {t t' : Ftable} {rs : List ℕ} (front back : List ℕ) (i : ℕ) (last : Bool) (a : Action)
      → rs ≡ front ++ (i ∷ back)
      → fileclose i t ≡ some (last, a, t')
      → Step (record { table = t; held = rs }) (record { table = t'; held = front ++ back })

-- Each entry counts the references to it.
abbrev pub AreCounted : Files → Type 0
AreCounted s = (i : ℕ) (f : File) → get_elem? s.table i ≡ some f → f.ref ≡ refs_to i s.held

refs_to-drop :
    (i r : ℕ) (front back : List ℕ)
    → refs_to i (front ++ (r ∷ back)) ≡ refs_to i (r ∷ (front ++ back))
refs_to-drop i r [] back = refl
refs_to-drop i r (x ∷ front) back = ground (arith, refs_to-drop i r front back)

-- A change of entry `i` to a count that is right, where the other counts stay.
recount :
    (i : ℕ) (t : Ftable) (f : File → File) (rs rs' : List ℕ)
    → ((g : File) → get_elem? t i ≡ some g → (f g).ref ≡ refs_to i rs')
    → ((j : ℕ) → j ≢ i → refs_to j rs' ≡ refs_to j rs)
    → AreCounted (record { table = t; held = rs })
    → AreCounted (record { table = modify t i f; held = rs' })
recount i t f rs rs' right same c j x h =
    let (g, e, w) = get_elem?-modify_inv t i j f h in
    elim w [
      | inl (ij, v) ↦
          let d : get_elem? t i ≡ some g = rw ij e in
          ap (λ y. y.ref) v ∙ right g d ∙ ap (λ k. refs_to k rs') ij
      | inr (ij, v) ↦ ap (λ y. y.ref) v ∙ c j g e ∙ sym (same j (λ q. ij (sym q)))
    ]

-- Every step of `filealloc`, `filedup` and `fileclose` keeps each count equal to the number of
-- references that there are.
pub Step-AreCounted : {s t : Files} → Step s t → AreCounted s → AreCounted t
unfolding filealloc filedup fileclose
Step-AreCounted (opened {t} {t'} {rs} i e) c = elim (Option-cases (find_index is_free t)) [
  | inl full ↦ absurd (ground arith)
  | inr (k, h) ↦
      let ki : k ≡ i = ground arith in
      let (g, at, free) = find_index-some is_free t k h in
      let w : t' ≡ modify t i (λ f. record f { ref = 1 }) = ground arith in
      rw w (
        recount i t (λ f. record f { ref = 1 }) rs (i ∷ rs) (λ f q. ground (arith, c k g at, ki))
          (λ j d. ground arith) c)
]
Step-AreCounted (dupped {t} {t'} {rs} i e) c =
    let (g, at, q) = >>=-eq-some (get_elem? t i) _ e in
    let w : t' ≡ modify t i (λ f. record f { ref = f.ref + 1 }) = ground arith in
    rw w (
      recount i t (λ f. record f { ref = f.ref + 1 }) rs (i ∷ rs) (λ f h. ground (arith, c i f h))
        (λ j d. ground arith) c)
Step-AreCounted (closed {t} {t'} {rs} front back i last a r e) c =
    let (g, at, q) = >>=-eq-some (get_elem? t i) _ e in
    let drops : (j : ℕ) → refs_to j rs ≡ refs_to j (i ∷ (front ++ back)) =
      λ j. ap (refs_to j) r ∙ refs_to-drop j i front back in
    elim (Bool-cases (ltb g.ref 1)) [
      | inl bad ↦ absurd (ground arith)
      | inr good ↦ elim (Bool-cases (ltb 0 (g.ref - 1))) [
        | inl more ↦
            let w : t' ≡ modify t i (λ f. record f { ref = f.ref - 1 }) = ground arith in
            rw w (
              recount i t (λ f. record f { ref = f.ref - 1 }) rs (front ++ back)
                (λ f h. ground (arith, c i f h, drops i)) (λ j d. ground (arith, drops j)) c)
        | inr one ↦
            let w : t' ≡ modify t i free_file = ground arith in
            rw w (
              recount i t free_file rs (front ++ back) (λ f h. ground (arith, c i g at, drops i))
                (λ j d. ground (arith, drops j)) c)
      ]
    ]

-- With the counts right, closing a reference to an entry of the table does not panic, and it is the
-- last one exactly when no other reference to the entry is left.
pub fileclose_lem :
    (t : Ftable) (front back : List ℕ) (i : ℕ) (f : File)
    → get_elem? t i ≡ some f
    → AreCounted (record { table = t; held = front ++ (i ∷ back) })
    → (last : Bool) × (a : Action) × (t' : Ftable) × (fileclose i t ≡ some (last, a, t'))
      × (last ≡ true → refs_to i (front ++ back) ≡ 0)
      × (refs_to i (front ++ back) ≡ 0 → last ≡ true)
unfolding fileclose
fileclose_lem t front back i f h c =
    let e : f.ref ≡ suc (refs_to i (front ++ back)) =
      ground (arith, c i f h, refs_to-drop i i front back) in
    elim (Bool-cases (ltb 0 (f.ref - 1))) [
      | inl more ↦ (
        false,
        nothing,
        modify t i (λ g. record g { ref = g.ref - 1 }),
        rw h (ground (arith, e)),
        (λ q. absurd (cc)),
        λ q. ground (arith, e),
      )
      | inr one ↦ (
        true,
        last_close f f.type,
        modify t i free_file,
        rw h (ground (arith, e)),
        (λ q. ground (arith, e)),
        λ q. refl,
      )
    ]
