-- ===== src/Log/Commit.antt =====
-- A commit is atomic: whatever part of its writes reaches the disk, recovery leaves all of the
-- transaction or nothing of it.
use cs537pair.Prelude.{
  ℕ, zero, suc, ◌+◌, ◌-◌, ◌≤◌, ◌<◌, ◌≡◌, inl, ◌∙◌, refl, ap, List, [], ◌∷◌, ◌++◌, arith,
  if◌then◌else◌, length, All, take, dec_lt,
}
use cs537pair.Log.{
  Block, Disk, Write, Store, bread, bwrite, write_log, install_trans, encode, decode, write_head,
  commit,
}
use cs537pair.Log.Writes.{
  replay, replay-append, Runs, Runs-bwrite, Runs-trans, IsHome, log_writes, home_writes,
  Logged-bwrite, write_log_lem, install_trans_lem,
}
use cs537pair.Log.Crash.{
  crash, recovered, mem, decode-encode, commit_writes, Committing, early, midway, whole, take_long,
  take_short, length-log_writes, length-home_writes, headed,
}

same_reads : (lh : List ℕ) (s : Store) → All (λ b. bread b s ≡ bread b s) lh
same_reads [] s = tt
same_reads (b ∷ lh) s = (refl, same_reads lh s)

module _ (start size b : ℕ) (rest : List ℕ) (s : Store) where
  abbrev lh : List ℕ
  lh = b ∷ rest

  abbrev f : ℕ → Block
  f x = bread x s

  -- The stores behind the parts of the commit.
  abbrev logged : Store
  logged = write_log start 0 lh s

  abbrev full : Block
  full = encode lh (bread start logged)

  abbrev installed : Store
  installed = install_trans start 0 lh (bwrite start full logged)

  abbrev empty : Block
  empty = encode [] (bread start installed)

  commit-Runs :
      All (IsHome start size) lh
      → length lh < size
      → Runs s (commit_writes start size f lh full empty) (commit start lh s)
  unfolding commit write_head
  commit-Runs h l =
      let (r, w) = write_log_lem start f size 0 lh s h (same_reads lh s) (omega arith) in
      let w' =
        Logged-bwrite start f start size 0 full lh logged (inl (omega arith)) (omega arith) w in
      let q = install_trans_lem start f size 0 lh (bwrite start full logged) h w' (omega arith) in
      Runs-trans (log_writes start f 0 lh) _ r (
        Runs-trans ((start, full) ∷ []) _ (Runs-bwrite start full logged)
          (Runs-trans (home_writes start f lh) _ q (Runs-bwrite start empty installed)))

module _ (start size : ℕ) (f : ℕ → Block) (lh : List ℕ) (full empty : Block) (d : Disk)
    (c : Committing start size f lh full empty d) where
  -- The disk behind the header and `m` more writes.
  behind_header :
      (m : ℕ)
      → crash
          (length (log_writes start f 0 lh) + suc m)
          (commit_writes start size f lh full empty)
          d
        ≡ replay
            (take m (home_writes start f lh ++ ((start, empty) ∷ [])))
            (headed start size f lh full empty d c)
  behind_header m =
      ap (λ w. replay w d)
        (take_long (suc m) (log_writes start f 0 lh)
          ((start, full) ∷ (home_writes start f lh ++ ((start, empty) ∷ []))))
      ∙ replay-append (log_writes start f 0 lh)
          ((start, full) ∷ take m (home_writes start f lh ++ ((start, empty) ∷ []))) d

  some_home :
      (m x : ℕ)
      → m ≤ length lh
      → IsHome start size x
      → recovered start
          (replay
            (take m (home_writes start f lh ++ ((start, empty) ∷ [])))
            (headed start size f lh full empty d c))
          x
        ≡ (if mem x lh then f x else d x)
  some_home m x l h =
      ap (λ w. recovered start (replay w (headed start size f lh full empty d c)) x)
        (take_short m (home_writes start f lh) ((start, empty) ∷ [])
          (omega (arith, length-home_writes start size f lh)))
      ∙ midway start size f lh full empty d c m x h

  all_home :
      (j x : ℕ)
      → IsHome start size x
      → recovered start
          (replay
            (take
              (length (home_writes start f lh) + suc j)
              (home_writes start f lh ++ ((start, empty) ∷ [])))
            (headed start size f lh full empty d c))
          x
        ≡ (if mem x lh then f x else d x)
  all_home j x h =
      ap (λ w. recovered start (replay w (headed start size f lh full empty d c)) x)
        (take_long (suc j) (home_writes start f lh) ((start, empty) ∷ [])
          ∙ ap (λ w. home_writes start f lh ++ ((start, empty) ∷ w)) (take_none j))
      ∙ ap (λ e. recovered start e x)
          (replay-append (home_writes start f lh) ((start, empty) ∷ [])
            (headed start size f lh full empty d c))
      ∙ whole start size f lh full empty d c x h
    where
      take_none : (i : ℕ) → take {A = Write} i [] ≡ []
      take_none zero = refl
      take_none (suc i) = refl

  late :
      (k x : ℕ)
      → length lh < k
      → IsHome start size x
      → recovered start (crash k (commit_writes start size f lh full empty) d) x
        ≡ (if mem x lh then f x else d x)
  late k x l h =
      let n = length (log_writes start f 0 lh) in
      let m = k - n - 1 in
      let e : k ≡ n + suc m = omega (arith, length-log_writes start size f 0 lh) in
      ap (λ y. recovered start (crash y (commit_writes start size f lh full empty) d) x) e
      ∙ ap (λ w. recovered start w x) (behind_header m)
      ∙ elim (dec_lt (length lh) m) [
        | yes past ↦
            let n' = length (home_writes start f lh) in
            let g : m ≡ n' + suc (m - n' - 1) = omega (arith, length-home_writes start size f lh) in
            ap
              (λ y.
                recovered start
                  (replay (take y (home_writes start f lh ++ ((start, empty) ∷ [])))
                    (headed start size f lh full empty d c))
                  x)
              g
            ∙ all_home (m - n' - 1) x h
        | no within ↦ some_home m x (omega arith) h
      ]

-- Take a commit of a transaction whose blocks lie outside the log and fit into it, on a disk whose log
-- is empty, and a crash after `k` of its disk writes. While only log blocks are written, recovery
-- leaves every block outside the log as it was before the transaction. From the header write on,
-- recovery leaves the blocks of the transaction with the contents that they had in the buffer cache,
-- and all others as they were.
pub commit-recovered :
    (start size b : ℕ) (rest : List ℕ) (s : Store)
    → All (IsHome start size) (b ∷ rest)
    → length (b ∷ rest) < size
    → decode (s.disk start) ≡ []
    → s.trace ≡ []
    → (k x : ℕ) → IsHome start size x
    → let after = recovered start (crash k (commit start (b ∷ rest) s).trace s.disk) x in
      (k ≤ length (b ∷ rest) → after ≡ s.disk x)
      × (length (b ∷ rest) < k → after ≡ (if mem x (b ∷ rest) then bread x s else s.disk x))
commit-recovered start size b rest s h l e t k x home = (
  (λ few.
      ap (λ w. recovered start (crash k w s.disk) x) ws
      ∙ early start size (f start size b rest s) (b ∷ rest) _ _ s.disk c k x few home),
  (λ many.
      ap (λ w. recovered start (crash k w s.disk) x) ws
      ∙ late start size (f start size b rest s) (b ∷ rest) _ _ s.disk c k x many home),
)
  where
    ws :
        (commit start (b ∷ rest) s).trace
        ≡ commit_writes start size
            (f start size b rest s)
            (b ∷ rest)
            (full start size b rest s)
            (empty start size b rest s)
    ws =
        (commit-Runs start size b rest s h l).trace
        ∙ ap
            (λ r.
              r
              ++ commit_writes start size (f start size b rest s) (b ∷ rest)
                  (full start size b rest s) (empty start size b rest s))
            t

    c :
        Committing start size
          (f start size b rest s)
          (b ∷ rest)
          (full start size b rest s)
          (empty start size b rest s)
          s.disk
    c = record {
      home = h;
      fits = l;
      clear = e;
      header = decode-encode (b ∷ rest) (bread start (logged start size b rest s));
      erased = decode-encode [] (bread start (installed start size b rest s));
    }
