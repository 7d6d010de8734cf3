-- ===== src/Vm/Freed.antt =====
-- What it means that a run of pages is given back.
use cs537pair.Prelude.{
  ℕ, zero, suc, ◌+◌, ◌-◌, ◌*◌, ◌%◌, ◌^◌, ◌<◌, ◌≤◌, ◌≡◌, ◌≢◌, ◌⊎◌, inl, inr, ◌∙◌, refl, ap, sym,
  true, false, List, ◌∷◌, arith, ◌==◌, if◌then◌else◌, dec_lt, ap₂, IsFresh,
}
use cs537pair.Kalloc.{bad_page}
use cs537pair.Vm.{Vm, pdx, present, pte_addr}
use cs537pair.Vm.Map.{target, entry, IsApart}

-- The free list with the present ones of the `n` pages from `a` on put on it, in order.
unfoldable pub give_back : ℕ → ℕ → (ℕ → ℕ) → List ℕ → List ℕ
give_back zero a entries l = l
give_back (suc n) a entries l =
    give_back n (a + 4096) entries (if present (entries a) then target (entries a) ∷ l else l)

pub give_back-same :
    (n a : ℕ) (f g : ℕ → ℕ) (l : List ℕ)
    → ((x : ℕ) → a ≤ x → x < a + 4096 * n → f x ≡ g x)
    → give_back n a f l ≡ give_back n a g l
unfolding give_back
give_back-same zero a f g l e = refl
give_back-same (suc n) a f g l e =
    ap (λ w. give_back n (a + 4096) f (if present w then target w ∷ l else l))
      (e a (omega arith) (omega arith))
    ∙ give_back-same n (a + 4096) f g _ (λ x p q. e x (omega arith) (omega arith))

give_back-at :
    (n m a b : ℕ) (f : ℕ → ℕ) (l : List ℕ) → n ≡ m → a ≡ b → give_back n a f l ≡ give_back m b f l
give_back-at n m a b f l e e' = ap₂ (λ m x. give_back m x f l) e e'

-- Pages that are not present give nothing.
give_back-absent :
    (k n a : ℕ) (f : ℕ → ℕ) (l : List ℕ)
    → k ≤ n
    → ((x : ℕ) → a ≤ x → x < a + 4096 * k → present (f x) ≡ false)
    → give_back n a f l ≡ give_back (n - k) (a + 4096 * k) f l
unfolding give_back
give_back-absent zero n a f l le none_here =
    give_back-at n (n - 0) a (a + 4096 * 0) f l (omega arith) (omega arith)
give_back-absent (suc k) zero a f l le none_here = absurd (omega arith)
give_back-absent (suc k) (suc n) a f l le none_here =
    let o = none_here a (omega arith) (omega arith) in
    rw o (
      give_back-absent k n (a + 4096) f l (omega arith)
        (λ x p q. none_here x (omega arith) (omega arith)))
    ∙ give_back-at (n - k) (suc n - suc k) (a + 4096 + 4096 * k) (a + 4096 * suc k) f l
        (omega arith) (omega arith)

-- What the page at `b` must be for `deallocuvm` to free it: a page of the allocator that is in use, and is
-- neither the directory nor one of its page tables.
pub record IsUserPage (end d : ℕ) (s : Vm) (b : ℕ) : Type 0 where
  pub placed : (pte_addr (entry d s b) == 0) ≡ false
  pub fits : bad_page end (target (entry d s b)) ≡ false
  pub used : IsFresh (target (entry d s b)) s.kmem.freelist
  pub not_dir : target (entry d s b) ≢ d
  pub not_table :
      (i : ℕ) → present (s.tables d i) ≡ true → target (s.tables d i) ≢ target (entry d s b)

-- Of the `n` pages from `a` on: those that are present are such pages, each mapped once.
pub record Owned (end d a n : ℕ) (s : Vm) : Type 0 where
  pub good :
      (b : ℕ)
      → b % 4096 ≡ 0
      → a ≤ b
      → b < a + 4096 * n
      → present (entry d s b) ≡ true
      → IsUserPage end d s b
  pub once :
      (b c : ℕ)
      → b % 4096 ≡ 0
      → a ≤ b
      → b < a + 4096 * n
      → present (entry d s b) ≡ true
      → c % 4096 ≡ 0
      → a ≤ c
      → c < a + 4096 * n
      → present (entry d s c) ≡ true
      → target (entry d s b) ≡ target (entry d s c)
      → b ≡ c

pub Owned-rest :
    (end d a n k : ℕ) (s : Vm) → k ≤ n → Owned end d a n s → Owned end d (a + 4096 * k) (n - k) s
Owned-rest end d a n k s le o = record {
  good = λ b z l h. o.good b z (omega arith) (omega arith);
  once = λ b c z l h p z' l' h' p'.
      o.once b c z (omega arith) (omega arith) p z' (omega arith) (omega arith) p';
}

-- A page in use put on the free list.
abbrev pub freed : ℕ → Vm → Vm
freed f s = record s { kmem = record (s.kmem) { freelist = f ∷ s.kmem.freelist } }

pub freed-IsApart :
    (end d f : ℕ) (s : Vm)
    → bad_page end f ≡ false
    → f < 2 ^ 32
    → IsFresh f s.kmem.freelist
    → f ≢ d
    → ((i : ℕ) → present (s.tables d i) ≡ true → target (s.tables d i) ≢ f)
    → IsApart d s
    → IsApart d (freed f s)
freed-IsApart end d f s fits small fresh dir table v = record {
  pages = ((ground (arith, fits), small), v.pages);
  distinct = (fresh, v.distinct);
  dir_used = (dir, v.dir_used);
  tables_used = λ i p. ((λ e. table i p (sym e)), v.tables_used i p);
  beside = v.beside;
  apart = v.apart;
}

-- The `n` pages from `a` on are gone, and are on the free list; no other entry changes.
pub record Freed (d a n : ℕ) (s s' : Vm) : Type 0 where
  pub list : s'.kmem.freelist ≡ give_back n a (entry d s) s.kmem.freelist
  pub gone : (x : ℕ) → x < 2 ^ 32 → a ≤ x → x < a + 4096 * n → present (entry d s' x) ≡ false
  pub kept : (x : ℕ) → x < 2 ^ 32 → (x < a) ⊎ (a + 4096 * n ≤ x) → entry d s' x ≡ entry d s x
  pub dir : (i : ℕ) → s'.tables d i ≡ s.tables d i
  pub apart : IsApart d s'

pub Freed-refl : (d a : ℕ) (s : Vm) → IsApart d s → Freed d a 0 s s
unfolding give_back
Freed-refl d a s v = record {
  list = refl;
  gone = λ x l p q. absurd (omega arith);
  kept = λ x l r. refl;
  dir = λ i. refl;
  apart = v;
}

-- Addresses without a page table have no page.
pub no_entries :
    (d a x : ℕ) (s : Vm)
    → present (s.tables d (pdx a)) ≡ false
    → pdx x ≡ pdx a
    → present (entry d s x) ≡ false
no_entries d a x s e w =
    let u : present (s.tables d (pdx x)) ≡ false = ap (λ y. present (s.tables d y)) w ∙ e in
    rw u refl

module _ (d a n : ℕ) (s s' : Vm) where
  pub Freed-none : (c : ℕ) → Freed d c 0 s s' → Freed d a 0 s s'
  unfolding give_back
  Freed-none c f = record {
    list = f.list;
    gone = λ x l p q. absurd (omega arith);
    kept = λ x l r. elim (dec_lt x c) [
      | yes p ↦ f.kept x l (inl p)
      | no p ↦ f.kept x l (inr (omega arith))
    ];
    dir = f.dir;
    apart = f.apart;
  }

  -- The pages up to the `k`-th are not there.
  pub Freed-skip :
      (k : ℕ)
      → k ≤ n
      → ((x : ℕ) → a ≤ x → x < a + 4096 * k → present (entry d s x) ≡ false)
      → Freed d (a + 4096 * k) (n - k) s s'
      → Freed d a n s s'
  Freed-skip k le none_here f = record {
    list = f.list ∙ sym (give_back-absent k n a (entry d s) s.kmem.freelist le none_here);
    gone = λ x l p q. elim (dec_lt x (a + 4096 * k)) [
      | yes here ↦ ap present (f.kept x l (inl here)) ∙ none_here x p here
      | no there ↦ f.gone x l (omega arith) (omega arith)
    ];
    kept = λ x l r. elim r [
      | inl p ↦ f.kept x l (inl (omega arith))
      | inr p ↦ f.kept x l (inr (omega arith))
    ];
    dir = f.dir;
    apart = f.apart;
  }
