-- ===== src/Fs/Icache/Steps.antt =====
-- The cache over any sequence of its operations.
use cs537pair.Prelude.{
  ℕ, zero, suc, ◌+◌, ◌*◌, ◌%◌, ◌<◌, ◌≡◌, ◌∙◌, refl, sym, subst, not, ◌&&◌, ◌||◌, List, Option, none,
  some, arith, ltb, ◌==◌, if◌then◌else◌, get_or, set, modify, set-modify, get_elem?, Each, Each-if,
  Each-cases, Each-from, Each-some, ◌>>=◌,
}
use cs537pair.Sleeplock.{acquiresleep, holdingsleep}
use cs537pair.Fs.Blocks.{load16}
use cs537pair.Fs.Bitmap.{Super, View, bfree}
use cs537pair.Fs.Inode.{Inode, ndirect, nindirect, ipb, iblock, read_inode, from_bytes}
use cs537pair.Fs.Icache.{
  Entry, Icache, iget, idup, iunlock, ilock, take_ref, free_entry, free_direct, free_indirect,
  free_rest, itrunc, free_inode, iput,
}
use cs537pair.Fs.Icache.Unique.{IsUnique, Gets, full, got, modify-IsUnique, iget_lem}

-- The same inode, as often referred to.
abbrev Keeps : Inode → Inode → Type 0
Keeps ip iq = (iq.dev ≡ ip.dev) × (iq.inum ≡ ip.inum) × (iq.ref ≡ ip.ref)

Keeps-trans : (a b c : Inode) → Keeps a b → Keeps b c → Keeps a c
Keeps-trans a b c (d, n, r) (d', n', r') = (d' ∙ d, n' ∙ n, r' ∙ r)

from_bytes-Keeps : (ip : Inode) (b : List ℕ) (a : ℕ) → Each (Keeps ip) (from_bytes ip b a)
from_bytes-Keeps ip b a = Each-if (Keeps ip) (load16 b a == 0) none _ tt (refl, refl, refl)

abbrev Kept : Inode → Option (Inode × View) → Type 0
Kept ip = Each (λ r. Keeps ip r.0)

Kept-from : (ip iq : Inode) (o : Option (Inode × View)) → Keeps ip iq → Kept iq o → Kept ip o
Kept-from ip iq none k h = tt
Kept-from ip iq (some q) k h = Keeps-trans ip iq q.0 k h

Kept-bind :
    (ip : Inode) (o : Option (Inode × View)) (f : Inode × View → Option (Inode × View))
    → Kept ip o
    → ((r : Inode × View) → Kept r.0 (f r))
    → Kept ip (o >>= f)
Kept-bind ip none f p g = tt
Kept-bind ip (some r) f p g = Kept-from ip r.0 (f r) p (g r)

-- A view first, and then an inode.
Kept-view :
    (ip : Inode) (o : Option View) (f : View → Option (Inode × View))
    → ((v : View) → Kept ip (f v))
    → Kept ip (o >>= f)
Kept-view ip none f g = tt
Kept-view ip (some v) f g = g v

module _ (sb : Super) where
  free_entry-Kept : (i : ℕ) (ip : Inode) (v : View) → Kept ip (free_entry sb i ip v)
  free_entry-Kept i ip v =
      Each-if (λ r. Keeps ip r.0) (get_or ip.addrs i 0 == 0) _ _ (refl, refl, refl)
        (Kept-view ip (bfree sb (get_or ip.addrs i 0) v) _ (λ v'. (refl, refl, refl)))

  free_direct-Kept : (left i : ℕ) (ip : Inode) (v : View) → Kept ip (free_direct sb left i ip v)
  unfolding free_direct
  free_direct-Kept zero i ip v = (refl, refl, refl)
  free_direct-Kept (suc left) i ip v =
      Kept-bind ip (free_entry sb i ip v) _ (free_entry-Kept i ip v)
        (λ r. free_direct-Kept left (i + 1) r.0 r.1)

  free_rest-Kept : (ip : Inode) (v : View) → Kept ip (free_rest sb ip v)
  free_rest-Kept ip v =
      Each-if (λ r. Keeps ip r.0) (get_or ip.addrs ndirect 0 == 0) _ _ (refl, refl, refl)
        (Kept-view ip (free_indirect sb nindirect 0 (v (get_or ip.addrs ndirect 0)) v) _
          (free_entry-Kept ndirect ip))

  free_inode-Kept : (ip : Inode) (v : View) → Kept ip (free_inode sb ip v)
  unfolding itrunc
  free_inode-Kept ip v =
      Kept-bind ip (itrunc sb ip v) _
        (Kept-bind ip (free_direct sb ndirect 0 ip v) _ (free_direct-Kept ndirect 0 ip v) (λ r.
          Kept-bind r.0 (free_rest sb r.0 r.1) _ (free_rest-Kept r.0 r.1)
            (λ q. (refl, refl, refl))))
        (λ r. (refl, refl, refl))

change-IsUnique :
    (c : Icache) (i : ℕ) (f : Entry → Entry) (e : Entry)
    → get_elem? c i ≡ some e
    → 0 < e.inode.ref
    → ((f e).inode.dev ≡ e.inode.dev) × ((f e).inode.inum ≡ e.inode.inum)
    → IsUnique c
    → IsUnique (modify c i f)
change-IsUnique c i f e at p (d, n) u =
    modify-IsUnique 0 0 c i f e at u
      (λ j b q w m x y. q (u i j e b at w p m (sym d ∙ x) (sym n ∙ y)))

set-IsUnique :
    (c : Icache) (i : ℕ) (x e : Entry)
    → get_elem? c i ≡ some e
    → 0 < e.inode.ref
    → (x.inode.dev ≡ e.inode.dev) × (x.inode.inum ≡ e.inode.inum)
    → IsUnique c
    → IsUnique (set c i x)
set-IsUnique c i x e at p k u =
    subst IsUnique (sym (set-modify c i x)) (change-IsUnique c i (λ y. x) e at p k u)

Gets-Each :
    (dev inum : ℕ) (c : Icache) (r : Option (ℕ × Icache))
    → Gets dev inum c r
    → Each (λ q. IsUnique q.1) r
Gets-Each dev inum c r (full e h) = subst (Each (λ q. IsUnique q.1)) (sym e) tt
Gets-Each dev inum c r (got i c' a b e h k l m n u) = subst (Each (λ q. IsUnique q.1)) (sym e) u

iunlock-Each : (pid i : ℕ) (c : Icache) → IsUnique c → Each IsUnique (iunlock pid i c)
unfolding iunlock
iunlock-Each pid i c u = Each-from IsUnique (get_elem? c i) _ λ e at.
    Each-cases IsUnique (not (holdingsleep pid e.lock) || ltb e.inode.ref 1) none _ (λ bad. tt)
      λ ok. change-IsUnique c i _ e at (ground (arith, ok)) (refl, refl) u

module _ (sb : Super) where
  -- One call on the cache by process `pid`; a reference is duplicated by a caller who has one.
  pub data Step (c : Icache) : Icache → Type 0 where
    get : {c' : Icache} (dev inum i : ℕ) → iget dev inum c ≡ some (i, c') → Step c c'
    dup : (i : ℕ) (e : Entry) → get_elem? c i ≡ some e → 0 < e.inode.ref → Step c (idup i c)
    lock : {c' : Icache} (pid i : ℕ) (v : View) → ilock sb pid i c v ≡ some c' → Step c c'
    unlock : {c' : Icache} (pid i : ℕ) → iunlock pid i c ≡ some c' → Step c c'
    put : {c' : Icache} (pid i : ℕ) (v v' : View) → iput sb pid i c v ≡ some (c', v') → Step c c'

  ilock-Each : (pid i : ℕ) (c : Icache) (v : View) → IsUnique c → Each IsUnique (ilock sb pid i c v)
  unfolding ilock read_inode
  ilock-Each pid i c v u = Each-from IsUnique (get_elem? c i) _ λ e at.
      Each-cases IsUnique (ltb e.inode.ref 1) none _ (λ low. tt)
        λ high. Each-from IsUnique (acquiresleep pid e.lock) _ λ lk taken.
          Each-if IsUnique e.inode.valid _ _
            (set-IsUnique c i _ e at (ground (arith, high)) (refl, refl) u)
            (Each-from IsUnique (read_inode sb e.inode v) _ λ ip loaded.
              let k =
                Each-some (Keeps e.inode) (read_inode sb e.inode v) ip
                  (from_bytes-Keeps e.inode (v (iblock sb e.inode.inum)) (e.inode.inum % ipb * 64))
                  loaded in
              set-IsUnique c i _ e at (ground (arith, high)) (k.0, k.1) u)

  iput-Each :
      (pid i : ℕ) (c : Icache) (v : View)
      → IsUnique c
      → Each (λ r. IsUnique r.0) (iput sb pid i c v)
  unfolding iput
  iput-Each pid i c v u =
      Each-from (λ r. IsUnique r.0) (get_elem? c i) _
        λ e at.
          Each-from (λ r. IsUnique r.0) (acquiresleep pid e.lock) _
            λ lk taken.
              let last = e.inode.valid && (e.inode.nlink == 0) && (e.inode.ref == 1) in
              let freed = if last then free_inode sb e.inode v else some (e.inode, v) in
              Each-from (λ r. IsUnique r.0) freed _
                λ r out.
                  let k =
                    Each-some (λ q. Keeps e.inode q.0) freed r
                      (Each-if (λ q. Keeps e.inode q.0) last _ _ (free_inode-Kept sb e.inode v)
                        (refl, refl, refl))
                      out in
                  Each-cases (λ q. IsUnique q.0) (r.0.ref == 0) none _ (λ z. tt)
                    λ nz. set-IsUnique c i _ e at (ground (arith, nz, k.2)) (k.0, k.1) u

  -- Every call on the cache keeps it that no two entries in use are for one inode.
  pub Step-IsUnique : (c c' : Icache) → Step c c' → IsUnique c → IsUnique c'
  unfolding idup
  Step-IsUnique c c' (get dev inum i e) u =
      Each-some (λ r. IsUnique r.1) (iget dev inum c) (i, c')
        (Gets-Each dev inum c (iget dev inum c) (iget_lem dev inum c u)) e
  Step-IsUnique c c' (dup i e at p) u = change-IsUnique c i take_ref e at p (refl, refl) u
  Step-IsUnique c c' (lock pid i v e) u =
      Each-some IsUnique (ilock sb pid i c v) c' (ilock-Each pid i c v u) e
  Step-IsUnique c c' (unlock pid i e) u =
      Each-some IsUnique (iunlock pid i c) c' (iunlock-Each pid i c u) e
  Step-IsUnique c c' (put pid i v v' e) u =
      Each-some (λ r. IsUnique r.0) (iput sb pid i c v) (c', v') (iput-Each pid i c v u) e
