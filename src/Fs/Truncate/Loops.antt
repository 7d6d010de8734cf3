-- ===== src/Fs/Truncate/Loops.antt =====
-- The loops of `itrunc`, as one pass over the blocks that the inode holds.
use cs537pair.Prelude.{
  ℕ, zero, suc, ◌+◌, ◌*◌, ◌<◌, ◌≤◌, ◌≡◌, ◌≢◌, ◌∙◌, refl, ap, sym, true, false, List, [], ◌∷◌, ◌++◌,
  some, arith, ◌==◌, if◌then◌else◌, ◌>>=◌, >>=-eq-some, inl, inr, ◌⊎◌, Bool-cases, Option-cases,
  subst, get_or, set, get_or-set_ne,
}
use cs537pair.Fs.Blocks.{load32}
use cs537pair.Fs.Bitmap.{Super, View, bfree}
use cs537pair.Fs.Inode.{Inode, ndirect, nindirect, iupdate}
use cs537pair.Fs.Icache.{free_direct, free_indirect, free_rest, itrunc}
use cs537pair.Fs.Truncate.Free.{free_all, free_all-append}

-- Those of `n` words from index `i` on that are not 0.
unfoldable pub live : ℕ → ℕ → (ℕ → ℕ) → List ℕ
live zero i f = []
live (suc n) i f = let rest = live n (i + 1) f in if f i == 0 then rest else f i ∷ rest

abbrev pub direct_of : Inode → List ℕ
direct_of ip = live ndirect 0 (λ i. get_or ip.addrs i 0)

abbrev pub indirect_of : ℕ → List ℕ → List ℕ
indirect_of a words =
    if a == 0 then [] else live nindirect 0 (λ j. load32 words (4 * j)) ++ (a ∷ [])

-- The blocks that an inode holds: those that it lists, those that its indirect block lists, and that one.
abbrev pub blocks_of : Inode → View → List ℕ
blocks_of ip v =
    direct_of ip ++ indirect_of (get_or ip.addrs ndirect 0) (v (get_or ip.addrs ndirect 0))

get_or-set_zero : (xs : List ℕ) (i : ℕ) → get_or (set xs i 0) i 0 ≡ 0
get_or-set_zero [] i = refl
get_or-set_zero (x ∷ xs) zero = refl
get_or-set_zero (x ∷ xs) (suc i) = get_or-set_zero xs i

module _ (sb : Super) where
  -- Entries `i` and on, `n` of them, cleared.
  abbrev Cleared : ℕ → ℕ → List ℕ → List ℕ → Type 0
  Cleared n i xs bs =
      ((j : ℕ) → i ≤ j → j < i + n → get_or bs j 0 ≡ 0)
      × ((j : ℕ) → (j < i) ⊎ (i + n ≤ j) → get_or bs j 0 ≡ get_or xs j 0)

  free_direct_lem :
      (n i : ℕ) (f : ℕ → ℕ) (ip : Inode) (v v' : View)
      → ((j : ℕ) → i ≤ j → get_or ip.addrs j 0 ≡ f j)
      → free_all sb (live n i f) v ≡ some v'
      → (bs : List ℕ) × (free_direct sb n i ip v ≡ some (record ip { addrs = bs }, v'))
        × Cleared n i ip.addrs bs
  unfolding free_direct live
  free_direct_lem zero i f ip v v' same e = (
    ip.addrs,
    ap (λ o. o >>= λ w. some (ip, w)) e,
    ((λ j p q. absurd (omega arith)), λ j r. refl),
  )
  free_direct_lem (suc n) i f ip v v' same e = elim (Bool-cases (f i == 0)) [
    | inl z ↦
        let w : (get_or ip.addrs i 0 == 0) ≡ true = ap (λ x. x == 0) (same i (omega arith)) ∙ z in
        let (bs, t, (c, k)) =
          free_direct_lem n (i + 1) f ip v v' (λ j p. same j (omega arith)) (rw z at e) in
        let here : get_or bs i 0 ≡ 0 = k i (inl (omega arith)) ∙ ground (arith, w) in
        (bs, rw w t, (cleared bs c here, λ j r. k j (later j r)))
    | inr nz ↦
        let w : (get_or ip.addrs i 0 == 0) ≡ false = ap (λ x. x == 0) (same i (omega arith)) ∙ nz in
        let (v1, b, rest) =
          >>=-eq-some (bfree sb (f i) v) (free_all sb (live n (i + 1) f)) (rw nz at e) in
        let b' : bfree sb (get_or ip.addrs i 0) v ≡ some v1 =
          ap (λ x. bfree sb x v) (same i (omega arith)) ∙ b in
        let (bs, t, (c, k)) =
          free_direct_lem n (i + 1) f (record ip { addrs = set ip.addrs i 0 }) v1 v'
            (λ j p.
              get_or-set_ne ip.addrs i j 0 0 (λ q. omega (arith, p, q)) ∙ same j (omega arith))
            rest in
        let here : get_or bs i 0 ≡ 0 = k i (inl (omega arith)) ∙ get_or-set_zero ip.addrs i in
        (
          bs,
          rw (w, b') t,
          (cleared bs c here, λ j r. k j (later j r) ∙ get_or-set_ne ip.addrs i j 0 0 (apart j r)),
        )
  ]
    where
      later : (j : ℕ) → (j < i) ⊎ (i + suc n ≤ j) → (j < i + 1) ⊎ (i + 1 + n ≤ j)
      later j (inl p) = inl (omega arith)
      later j (inr p) = inr (omega arith)

      apart : (j : ℕ) → (j < i) ⊎ (i + suc n ≤ j) → i ≢ j
      apart j (inl p) q = omega arith
      apart j (inr p) q = omega arith

      cleared :
          (bs : List ℕ)
          → ((j : ℕ) → i + 1 ≤ j → j < i + 1 + n → get_or bs j 0 ≡ 0)
          → get_or bs i 0 ≡ 0
          → (j : ℕ) → i ≤ j
          → j < i + suc n
          → get_or bs j 0 ≡ 0
      cleared bs c here j p q = elim (Bool-cases (i == j)) [
        | inl s ↦ let w : i ≡ j = ground arith in subst (λ x. get_or bs x 0 ≡ 0) w here
        | inr d ↦ let w : i ≢ j = ground arith in c j (omega arith) (omega arith)
      ]

  free_indirect_lem :
      (n j : ℕ) (a : List ℕ) (v : View)
      → free_indirect sb n j a v ≡ free_all sb (live n j (λ k. load32 a (4 * k))) v
  unfolding free_indirect live
  free_indirect_lem zero j a v = refl
  free_indirect_lem (suc n) j a v = elim (Bool-cases (load32 a (4 * j) == 0)) [
    | inl z ↦ rw z (free_indirect_lem n (j + 1) a v)
    | inr nz ↦ elim (Option-cases (bfree sb (load32 a (4 * j)) v)) [
      | inl e ↦ rw (nz, e) refl
      | inr (v1, e) ↦ rw (nz, e) (free_indirect_lem n (j + 1) a v1)
    ]
  ]

  -- The indirect block and what it lists.
  free_rest_lem :
      (ip : Inode) (words : List ℕ) (v v' : View)
      → (get_or ip.addrs ndirect 0 ≢ 0 → v (get_or ip.addrs ndirect 0) ≡ words)
      → free_all sb (indirect_of (get_or ip.addrs ndirect 0) words) v ≡ some v'
      → (cs : List ℕ) × (free_rest sb ip v ≡ some (record ip { addrs = cs }, v'))
        × (get_or cs ndirect 0 ≡ 0)
        × ((i : ℕ) → i ≢ ndirect → get_or cs i 0 ≡ get_or ip.addrs i 0)
  free_rest_lem ip words v v' held e =
      let a = get_or ip.addrs ndirect 0 in
      elim (Bool-cases (a == 0)) [
        | inl z ↦
            let same : some v ≡ some v' = rw z at e in
            (
              ip.addrs,
              rw z (ap (λ o. o >>= λ w. some (ip, w)) same),
              ground (arith, z),
              λ i n. refl,
            )
        | inr nz ↦
            let lists = live nindirect 0 (λ j. load32 words (4 * j)) in
            let (v1, e1, e2) =
              >>=-eq-some (free_all sb lists v) (free_all sb (a ∷ []))
                (sym (free_all-append sb lists (a ∷ []) v) ∙ (rw nz at e)) in
            let (v2, e3, e4) = >>=-eq-some (bfree sb a v1) (λ w. some w) e2 in
            let first : free_indirect sb nindirect 0 (v a) v ≡ some v1 =
              ap (λ ws. free_indirect sb nindirect 0 ws v) (held (λ q. absurd (ground arith)))
              ∙ free_indirect_lem nindirect 0 words v
              ∙ e1 in
            (
              set ip.addrs ndirect 0,
              rw (nz, first)
                  (rw (nz, e3)
                    (ap (λ o. o >>= λ w. some (record ip { addrs = set ip.addrs ndirect 0 }, w))
                      e4)),
              get_or-set_zero ip.addrs ndirect,
              λ i n. get_or-set_ne ip.addrs ndirect i 0 0 (λ q. n (sym q)),
            )
      ]

  -- `itrunc` where the indirect block does not change as the others are freed.
  pub trunc_blocks :
      (ip : Inode) (v v' : View)
      → ((v1 : View)
          → free_all sb (direct_of ip) v ≡ some v1
          → get_or ip.addrs ndirect 0 ≢ 0
          → v1 (get_or ip.addrs ndirect 0) ≡ v (get_or ip.addrs ndirect 0))
      → free_all sb (blocks_of ip v) v ≡ some v'
      → (cs : List ℕ) × (itrunc sb ip v
          ≡ some (
            record ip { addrs = cs; size = 0 },
            iupdate sb (record ip { addrs = cs; size = 0 }) v',
          ))
        × ((i : ℕ) → i ≤ ndirect → get_or cs i 0 ≡ 0)
  unfolding itrunc
  trunc_blocks ip v v' still e =
      let a = get_or ip.addrs ndirect 0 in
      let rest = indirect_of a (v a) in
      let (v1, e1, e2) =
        >>=-eq-some (free_all sb (direct_of ip) v) (free_all sb rest)
          (sym (free_all-append sb (direct_of ip) rest v) ∙ e) in
      let (bs, t, (c, k)) =
        free_direct_lem ndirect 0 (λ i. get_or ip.addrs i 0) ip v v1 (λ j p. refl) e1 in
      let last : get_or bs ndirect 0 ≡ a = k ndirect (inr (omega arith)) in
      let (cs, u, zero_last, other) =
        free_rest_lem (record ip { addrs = bs }) (v a) v1 v'
          (λ n. ap v1 last ∙ still v1 e1 (λ q. n (last ∙ q)))
          (ap (λ x. free_all sb (indirect_of x (v a)) v1) last ∙ e2) in
      (
        cs,
        rw (t, u) refl,
        λ i l. elim (Bool-cases (i == ndirect)) [
          | inl here ↦ let w : i ≡ ndirect = ground arith in ap (λ x. get_or cs x 0) w ∙ zero_last
          | inr there ↦
              let w : i ≢ ndirect = ground arith in other i w ∙ c i (omega arith) (omega arith)
        ],
      )
