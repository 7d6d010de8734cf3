-- ===== src/Vm/FreePage.antt =====
-- One present page given back, and what is then left for the pages behind it.
use cs537pair.Prelude.{
  ℕ, suc, ◌+◌, ◌*◌, ◌%◌, ◌^◌, ◌<◌, ◌≤◌, ◌≡◌, ◌≢◌, ◌⊎◌, inl, inr, ◌∙◌, refl, ap, sym, subst, true,
  false, ◌&&◌, ◌∷◌, arith, ltb, leb, ◌==◌, if◌then◌else◌, dec_lt, IsFresh,
}
use cs537pair.Kalloc.{bad_page}
use cs537pair.Vm.{Vm, pdx, present, pte_addr}
use cs537pair.Vm.Map.{target, entry, IsApart}
use cs537pair.Vm.Fill.{filled, dir_same, entry-filled, filled-IsApart}
use cs537pair.Vm.Range.{same_page}
use cs537pair.Vm.Freed.{give_back, give_back-same, IsUserPage, Owned, freed, freed-IsApart, Freed}

-- A present page freed, and then the `n` behind it.
module _ (end d a n : ℕ) (s : Vm) (z : a % 4096 ≡ 0) (small : a + 4096 * suc n ≤ 2 ^ 32)
    (v : IsApart d s) (o : Owned end d a (suc n) s) (is : present (s.tables d (pdx a)) ≡ true)
    (here : present (entry d s a) ≡ true) where
  abbrev pub next : Vm
  next = freed (target (entry d s a)) (filled d a 0 s v is)

  entry-next :
      (x : ℕ)
      → x < 2 ^ 32
      → entry d next x ≡ (if leb a x && ltb x (a + 4096) then 0 else entry d s x)
  entry-next x l =
      entry-filled d a 0 s v is x
      ∙ ap (λ t. if t then 0 else entry d s x) (same_page a x z (omega arith) l)

  pub entry-later : (x : ℕ) → x < 2 ^ 32 → (x < a) ⊎ (a + 4096 ≤ x) → entry d next x ≡ entry d s x
  entry-later x l r =
      let t : (leb a x && ltb x (a + 4096)) ≡ false = elim r [
        | inl p ↦ ground arith
        | inr p ↦ ground arith
      ] in
      entry-next x l ∙ rw t refl

  mine : IsUserPage end d s a
  mine = o.good a z (omega arith) (omega arith) here

  pub next-IsApart : IsApart d next
  next-IsApart =
      freed-IsApart end d (target (entry d s a)) (filled d a 0 s v is) mine.fits (omega arith)
        mine.used mine.not_dir
        (λ i p.
          let e = dir_same d a 0 s v is i in
          λ t. mine.not_table i (ap present (sym e) ∙ p) (ap target (sym e) ∙ t))
        (filled-IsApart d a 0 s v is)

  next-IsUserPage :
      (b : ℕ)
      → b % 4096 ≡ 0
      → a + 4096 ≤ b
      → b < a + 4096 + 4096 * n
      → present (entry d next b) ≡ true
      → IsUserPage end d next b
  next-IsUserPage b y l h p =
      let e = entry-later b (omega arith) (inr l) in
      let q : present (entry d s b) ≡ true = ap present (sym e) ∙ p in
      let u = o.good b y (omega arith) (omega arith) q in
      let apart : target (entry d s a) ≢ target (entry d s b) = λ t.
        let w = o.once a b z (omega arith) (omega arith) here y (omega arith) (omega arith) q t in
        omega (arith, w, l) in
      record {
        placed = ap (λ w. pte_addr w == 0) e ∙ u.placed;
        fits = ap (λ w. bad_page end (target w)) e ∙ u.fits;
        used =
            subst (λ w. IsFresh (target w) (target (entry d s a) ∷ s.kmem.freelist)) (sym e)
              (apart, u.used);
        not_dir = λ t. u.not_dir (ap target (sym e) ∙ t);
        not_table = λ i r t.
            let g = dir_same d a 0 s v is i in
            u.not_table i (ap present (sym g) ∙ r) (ap target (sym g) ∙ t ∙ ap target e);
      }

  pub next-Owned : Owned end d (a + 4096) n next
  next-Owned = record {
    good = next-IsUserPage;
    once = λ b c y l h p y' l' h' p' t.
        let e = entry-later b (omega arith) (inr l) in
        let e' = entry-later c (omega arith) (inr l') in
        o.once b c y (omega arith) (omega arith) (ap present (sym e) ∙ p) y' (omega arith)
          (omega arith) (ap present (sym e') ∙ p') (ap target (sym e) ∙ t ∙ ap target e');
  }

  pub Freed-next : (s' : Vm) → Freed d (a + 4096) n next s' → Freed d a (suc n) s s'
  unfolding give_back
  Freed-next s' f = record {
    list =
        f.list
        ∙ give_back-same n (a + 4096) (entry d next) (entry d s)
            (target (entry d s a) ∷ s.kmem.freelist) (λ x p q. entry-later x (omega arith) (inr p))
        ∙ rw here refl;
    gone = λ x l p q. elim (dec_lt x (a + 4096)) [
      | yes low ↦
          let t : (leb a x && ltb x (a + 4096)) ≡ true = ground arith in
          let w : entry d s' x ≡ 0 = f.kept x l (inl low) ∙ entry-next x l ∙ rw t refl in
          ap present w
      | no high ↦ f.gone x l (omega arith) (omega arith)
    ];
    kept = λ x l r. elim r [
      | inl p ↦ f.kept x l (inl (omega arith)) ∙ entry-later x l (inl p)
      | inr p ↦ f.kept x l (inr (omega arith)) ∙ entry-later x l (inr (omega arith))
    ];
    dir = λ i. f.dir i ∙ dir_same d a 0 s v is i;
    apart = f.apart;
  }
