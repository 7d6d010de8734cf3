-- ===== src/Kalloc/Range.antt =====
-- What `freerange` puts on the free list: the whole pages of its range, each once.
use cs537pair.Prelude.{
  ℕ, zero, suc, ◌+◌, ◌-◌, ◌*◌, ◌/◌, ◌≤◌, ◌<◌, ◌≡◌, ap, List, [], ◌∷◌, ◌++◌, some, arith, All,
  IsFresh, false,
}
use cs537pair.Kalloc.{
  Kmem, kfree, freerange_loop, freerange, bad_page, pgsize, kernbase, phystop, pg_round_up,
}
use cs537pair.Kalloc.Safety.{IsValid}

-- The `n` pages from `p` on, the last on top.
abbrev pub pages : ℕ → ℕ → List ℕ
pages zero p = []
pages (suc n) p = (p + n * pgsize) ∷ pages n p

pages-snoc : (n p : ℕ) (l : List ℕ) → pages n (p + pgsize) ++ (p ∷ l) ≡ pages (suc n) p ++ l
pages-snoc zero p l = ap (λ q. q ∷ l) (omega arith)
pages-snoc (suc n) p l =
    let e : p + pgsize + n * pgsize ≡ p + suc n * pgsize = omega arith in
    rw e (ap (λ t. (p + suc n * pgsize) ∷ t) (pages-snoc n p l))

module _ (end : ℕ) where
  page_usable :
      (p n : ℕ)
      → (p / pgsize * pgsize ≡ p)
      → end ≤ p
      → kernbase ≤ p
      → p + pgsize ≤ kernbase + phystop
      → bad_page end p ≡ false
  page_usable p n a e b t = ground arith

  freerange_loop_lem :
      (n fuel p vend : ℕ) (k : Kmem)
      → n < fuel
      → p / pgsize * pgsize ≡ p
      → end ≤ p
      → kernbase ≤ p
      → vend ≤ kernbase + phystop
      → p + n * pgsize ≤ vend
      → vend < p + suc n * pgsize
      → freerange_loop end fuel p vend k ≡ some (record k { freelist = pages n p ++ k.freelist })
  unfolding freerange_loop kfree
  freerange_loop_lem n zero p vend k l a e b t lo hi = absurd (omega arith)
  freerange_loop_lem zero (suc fuel) p vend k l a e b t lo hi = ground arith
  freerange_loop_lem (suc n) (suc fuel) p vend k l a e b t lo hi =
      let u = page_usable p n a e b (omega arith) in
      let k1 : Kmem = record k { freelist = p ∷ k.freelist } in
      let ih =
        freerange_loop_lem n fuel (p + pgsize) vend k1 (omega arith) (omega arith) (omega arith)
          (omega arith) t (omega arith) (omega arith) in
      ground (arith, u, ih, pages-snoc n p k.freelist)

  pages-IsFresh :
      (n p q : ℕ) (l : List ℕ)
      → p + n * pgsize ≤ q
      → All (λ v. v < p) l
      → IsFresh q (pages n p ++ l)
  pages-IsFresh (suc n) p q l h b = (λ e. omega arith, pages-IsFresh n p q l (omega arith) b)
  pages-IsFresh zero p q [] h b = tt
  pages-IsFresh zero p q (x ∷ l) h b = (λ e. omega arith, pages-IsFresh zero p q l h b.1)

  pages-IsValid :
      (n p : ℕ) (k : Kmem)
      → p / pgsize * pgsize ≡ p
      → end ≤ p
      → kernbase ≤ p
      → p + n * pgsize ≤ kernbase + phystop
      → All (λ v. v < p) k.freelist
      → IsValid end k
      → IsValid end (record k { freelist = pages n p ++ k.freelist })
  pages-IsValid zero p k a e b t low v = v
  pages-IsValid (suc n) p k a e b t low v =
      let ih = pages-IsValid n p k a e b (omega arith) low v in
      record {
        distinct = (pages-IsFresh n p (p + n * pgsize) k.freelist (omega arith) low, ih.distinct);
        usable = (
          page_usable (p + n * pgsize) n (omega arith) (omega arith) (omega arith) (omega arith),
          ih.usable,
        );
      }

  All-mono : (a b : ℕ) (l : List ℕ) → a ≤ b → All (λ v. v < a) l → All (λ v. v < b) l
  All-mono a b [] h x = tt
  All-mono a b (y ∷ l) h x = (omega arith, All-mono a b l h x.1)

  -- For a range of kernel addresses behind `end` and below the top of physical memory that reaches a
  -- page boundary, whose pages lie above all free ones, `freerange` ends, does not panic, puts
  -- exactly the whole pages of the range in front of the free list, and leaves it valid.
  pub freerange_lem :
      (vstart vend : ℕ) (k : Kmem)
      → end ≤ vstart
      → kernbase ≤ vstart
      → pg_round_up vstart ≤ vend
      → vend ≤ kernbase + phystop
      → All (λ v. v < vstart) k.freelist
      → IsValid end k
      → let p = pg_round_up vstart in
        let k' : Kmem = record k { freelist = pages ((vend - p) / pgsize) p ++ k.freelist } in
        (freerange end vstart vend k ≡ some k') × IsValid end k'
  unfolding freerange
  freerange_lem vstart vend k e b r t low v = (
    freerange_loop_lem ((vend - pg_round_up vstart) / pgsize) (vend / pgsize + 1)
        (pg_round_up vstart) vend k (omega arith) (omega arith) (omega arith) (omega arith) t
        (omega arith) (omega arith),
    pages-IsValid ((vend - pg_round_up vstart) / pgsize) (pg_round_up vstart) k (omega arith)
        (omega arith) (omega arith) (omega arith)
        (All-mono vstart (pg_round_up vstart) k.freelist (omega arith) low) v,
  )
