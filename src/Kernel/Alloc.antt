-- ===== src/Kernel/Alloc.antt =====
-- `allocproc`: which entry it takes, and why pids stay unique.
use cs537pair.Prelude.{
  ◌%◌, ◌^◌, ℕ, ◌+◌, ◌≤◌, ◌<◌, ◌≡◌, ◌≢◌, ◌⊎◌, inl, inr, ◌∙◌, refl, ap, sym, subst, Option, none,
  some, arith, get_elem?, get_elem?-modify, get_elem?-modify_inv, find_index, find_index-some,
  find_index-first, modify,
}
use cs537pair.Kalloc.{Kmem, kalloc}
use cs537pair.Proc.{Proc, Table, unused, embryo}
use cs537pair.Kernel.{Kernel, init_proc, drop_proc, unused?, with_stack, alloc_at, allocproc}

-- Every pid that an entry has is below `n`, and no two entries that are in use share one.
pub record PidsValid (n : ℕ) (t : Table) : Type 0 where
  pub below : (i : ℕ) (p : Proc) → get_elem? t i ≡ some p → p.pid < n
  pub unique :
      (i j : ℕ) (p q : Proc)
      → get_elem? t i ≡ some p
      → get_elem? t j ≡ some q
      → p.state ≢ unused
      → q.state ≢ unused
      → p.pid ≡ q.pid
      → i ≡ j

-- A change of one entry that keeps pids unique: it ends unused, has a new pid, or keeps its own.
abbrev pub KeepsPid : ℕ → ℕ → Proc → Proc → Type 0
KeepsPid n n' p q =
    (q.pid < n') × ((q.state ≡ unused) ⊎ ((n ≤ q.pid) ⊎ ((q.pid ≡ p.pid) × (p.state ≢ unused))))

pub modify-PidsValid :
    (n n' i : ℕ) (t : Table) (f : Proc → Proc)
    → n ≤ n'
    → ((p : Proc) → get_elem? t i ≡ some p → KeepsPid n n' p (f p))
    → PidsValid n t
    → PidsValid n' (modify t i f)
modify-PidsValid n n' i t f le keep v = record {
  below = λ j q h. below_of j q (get_elem?-modify_inv t i j f h);
  unique = λ a b p q ha hb.
      unique_of a b p q (get_elem?-modify_inv t i a f ha) (get_elem?-modify_inv t i b f hb);
}
  where
    Source : ℕ → Proc → Type 0
    Source j y = (x : Proc) × (get_elem? t j ≡ some x) × ((i ≡ j) × (y ≡ f x) ⊎ (i ≢ j) × (y ≡ x))

    below_of : (j : ℕ) (q : Proc) → Source j q → q.pid < n'
    below_of j q (x, h, inl (e, w)) = rw w (keep x (rw e h)).0
    below_of j q (x, h, inr (e, w)) = rw w (omega (arith, v.below j x h))

    clash :
        (a b : ℕ) (x y : Proc)
        → get_elem? t a ≡ some x
        → get_elem? t b ≡ some y
        → KeepsPid n n' x (f x)
        → (f x).state ≢ unused
        → y.state ≢ unused
        → (f x).pid ≡ y.pid
        → a ≡ b
    clash a b x y h g (l, inl z) nx ny s = absurd (nx z)
    clash a b x y h g (l, inr (inl z)) nx ny s = absurd (omega (arith, v.below b y g))
    clash a b x y h g (l, inr (inr (z, used))) nx ny s = v.unique a b x y h g used ny (sym z ∙ s)

    unique_of :
        (a b : ℕ) (p q : Proc)
        → Source a p
        → Source b q
        → p.state ≢ unused
        → q.state ≢ unused
        → p.pid ≡ q.pid
        → a ≡ b
    unique_of a b p q (x, h, inl (e, w)) (y, g, inl (d, u)) np nq s = omega arith
    unique_of a b p q (x, h, inr (e, w)) (y, g, inr (d, u)) np nq s =
        v.unique a b x y h g (λ z. np (rw w z)) (λ z. nq (rw u z))
          (ap (λ r. r.pid) (sym w) ∙ s ∙ ap (λ r. r.pid) u)
    unique_of a b p q (x, h, inl (e, w)) (y, g, inr (d, u)) np nq s =
        clash a b x y h g (keep x (rw e h)) (λ z. np (rw w z)) (λ z. nq (rw u z))
          (ap (λ r. r.pid) (sym w) ∙ s ∙ ap (λ r. r.pid) u)
    unique_of a b p q (x, h, inr (e, w)) (y, g, inl (d, u)) np nq s = sym (
        clash b a y x g h (keep y (rw d g)) (λ z. nq (rw u z)) (λ z. np (rw w z))
          (ap (λ r. r.pid) (sym u) ∙ sym s ∙ ap (λ r. r.pid) w))

-- A new process at entry `i`.
pub record Allocated {S : Type 0} (k : Kernel S) (i : ℕ) (k' : Kernel S) : Type 0 where
  pub free : (p : Proc) × (get_elem? k.table i ≡ some p) × (p.state ≡ unused)
  pub first : (j : ℕ) (q : Proc) → j < i → get_elem? k.table j ≡ some q → q.state ≢ unused
  pub fresh :
      (q : Proc) × (get_elem? k'.table i ≡ some q)
      × (q.state ≡ embryo)
      × (q.pid ≡ k.nextpid)
      × ((kalloc k.kmem).0 ≡ some q.kstack)
  pub others : (j : ℕ) → j ≢ i → get_elem? k'.table j ≡ get_elem? k.table j
  pub spent : k'.nextpid ≡ (k.nextpid + 1) % 2 ^ 32

module _ {S : Type 0} where
  with_stack_pids :
      (i : ℕ) (k : Kernel S) (r : Option ℕ × Kmem)
      → ((p : Proc) → get_elem? k.table i ≡ some p → p.state ≡ embryo)
      → PidsValid k.nextpid k.table
      → PidsValid (with_stack i k r).1.nextpid (with_stack i k r).1.table
  with_stack_pids i k (none, m) used v =
      modify-PidsValid k.nextpid k.nextpid i k.table drop_proc (omega arith)
        (λ p h. (v.below i p h, inl refl)) v
  with_stack_pids i k (some s, m) used v =
      modify-PidsValid k.nextpid k.nextpid i k.table (λ p. record p { kstack = s }) (omega arith)
        (λ p h. (v.below i p h, inr (inr (refl, λ e. ground (arith, used p h))))) v

  alloc_at_pids :
      (k : Kernel S) (r : Option ℕ)
      → k.nextpid + 1 < 2 ^ 31
      → PidsValid k.nextpid k.table
      → PidsValid (alloc_at k r).1.nextpid (alloc_at k r).1.table
  alloc_at_pids k none l v = v
  alloc_at_pids k (some i) l v =
      let k' : Kernel S = record k {
        table = modify k.table i (init_proc k.nextpid);
        nextpid = (k.nextpid + 1) % 2 ^ 32;
      } in
      with_stack_pids i k' (kalloc k.kmem) embryo_at (
        modify-PidsValid k.nextpid ((k.nextpid + 1) % 2 ^ 32) i k.table (init_proc k.nextpid)
          (omega arith) (λ p h. (omega arith, inr (inl (omega arith)))) v)
    where
      embryo_at :
          (p : Proc)
          → get_elem? (modify k.table i (init_proc k.nextpid)) i ≡ some p
          → p.state ≡ embryo
      embryo_at p h = made (get_elem?-modify_inv k.table i i (init_proc k.nextpid) h)
        where
          made :
              (x : Proc) × (get_elem? k.table i ≡ some x)
                × ((i ≡ i) × (p ≡ init_proc k.nextpid x) ⊎ (i ≢ i) × (p ≡ x))
              → p.state ≡ embryo
          made (x, g, inl (e, w)) = ap (λ r. r.state) w
          made (x, g, inr (e, w)) = absurd (e refl)

  -- While `nextpid` does not overflow, `allocproc` keeps pids unique among the entries in use, also where
  -- it gives its entry back.
  pub allocproc-PidsValid :
      (k : Kernel S)
      → k.nextpid + 1 < 2 ^ 31
      → PidsValid k.nextpid k.table
      → PidsValid (allocproc k).1.nextpid (allocproc k).1.table
  unfolding allocproc
  allocproc-PidsValid k l v = alloc_at_pids k (find_index unused? k.table) l v

  with_stack_lem :
      (i j : ℕ) (k : Kernel S) (r : Option ℕ × Kmem) {q : Proc}
      → (with_stack i k r).0 ≡ some j
      → get_elem? k.table i ≡ some q
      → (i ≡ j)
        × ((s : ℕ) × (r.0 ≡ some s)
            × (get_elem? (with_stack i k r).1.table i ≡ some (record q { kstack = s }))
            × ((x : ℕ) → x ≢ i → get_elem? (with_stack i k r).1.table x ≡ get_elem? k.table x)
            × ((with_stack i k r).1.nextpid ≡ k.nextpid))
  with_stack_lem i j k (none, m) e h = absurd (cc)
  with_stack_lem i j k (some s, m) e h = (
    ground arith,
    (
      s,
      refl,
      ground (arith, get_elem?-modify k.table i i (λ p. record p { kstack = s })),
      (λ x d. ground (arith, get_elem?-modify k.table i x (λ p. record p { kstack = s }))),
      refl,
    ),
  )

  alloc_at_lem :
      (k : Kernel S) (r : Option ℕ) (j : ℕ)
      → find_index unused? k.table ≡ r
      → (alloc_at k r).0 ≡ some j
      → Allocated k j (alloc_at k r).1
  alloc_at_lem k none j e h = absurd (cc)
  alloc_at_lem k (some i) j e h =
      let (p, hp, up) = find_index-some unused? k.table i e in
      let k' : Kernel S = record k {
        table = modify k.table i (init_proc k.nextpid);
        nextpid = (k.nextpid + 1) % 2 ^ 32;
      } in
      let hi : get_elem? k'.table i ≡ some (init_proc k.nextpid p) =
        ground (arith, get_elem?-modify k.table i i (init_proc k.nextpid)) in
      let (ij, (s, hs, ht, ho, hn)) = with_stack_lem i j k' (kalloc k.kmem) h hi in
      subst (λ x. Allocated k x (alloc_at k (some i)).1) ij
        (record {
          free = (p, hp, ground arith);
          first = λ a q l g. ground (arith, find_index-first unused? k.table i a e l g);
          fresh = (record (init_proc k.nextpid p) { kstack = s }, ht, refl, refl, hs);
          others =
              λ a d. ho a d ∙ ground (arith, get_elem?-modify k.table i a (init_proc k.nextpid));
          spent = hn;
        })

  -- Where `allocproc` returns an entry, it is the first unused one: it is then an embryo with the next pid
  -- and the page that `kalloc` gives for its stack, no other entry changes, and `nextpid` is one more, wrapped
  -- around at 2 ^ 32.
  pub allocproc_lem :
      (k : Kernel S) (j : ℕ) → (allocproc k).0 ≡ some j → Allocated k j (allocproc k).1
  unfolding allocproc
  allocproc_lem k j h = alloc_at_lem k (find_index unused? k.table) j refl h
