-- ===== src/Log/Crash.antt =====
-- A crash at any point of a commit, and recovery from the disk that it leaves.
use cs537pair.Prelude.{
  ℕ, zero, suc, ◌+◌, ◌≤◌, ◌<◌, ◌≡◌, ◌≢◌, ◌⊎◌, inl, inr, ◌∙◌, refl, ap, Bool, true, false, ◌||◌,
  List, [], ◌∷◌, ◌++◌, none, arith, ◌==◌, if◌then◌else◌, Bool-cases, ==_iff, ==_self, length, All,
  take, drop,
}
use cs537pair.Log.{
  Block, Disk, Write, Store, put_block, bread, bwrite, install_trans, encode, decode, write_head,
  read_head, recover_from_log,
}
use cs537pair.Log.Writes.{
  replay, replay-Avoids, Avoids, IsHome, log_writes, home_writes, Logged, install_trans_lem,
}

-- The machine after a reboot: nothing is in the buffer cache.
abbrev pub boot : Disk → Store
boot d = record { disk = d; pinned = λ _. none; trace = [] }

-- The disk after a crash behind `k` writes of a run from a disk `d`, and after recovery from it.
abbrev pub crash : ℕ → List Write → Disk → Disk
crash k ws d = replay (take k ws) d

abbrev pub recovered : ℕ → Disk → Disk
recovered start d = (recover_from_log start (boot d)).disk

abbrev pub mem : ℕ → List ℕ → Bool
mem x [] = false
mem x (b ∷ lh) = b == x || mem x lh

take-length : (lh : List ℕ) (r : List ℕ) → take (length lh) (lh ++ r) ≡ lh
take-length [] r = refl
take-length (b ∷ lh) r = ap (λ t. b ∷ t) (take-length lh r)

-- Whatever else the block holds, the header that is read is the one that was written.
pub decode-encode : (lh old : List ℕ) → decode (encode lh old) ≡ lh
decode-encode lh old = take-length lh (drop (length lh + 1) old)

Avoids-take : (k x : ℕ) (ws : List Write) → Avoids x ws → Avoids x (take k ws)
Avoids-take zero x ws a = tt
Avoids-take (suc k) x [] a = tt
Avoids-take (suc k) x (w ∷ ws) a = (a.0, Avoids-take k x ws a.1)

pub take_short : (k : ℕ) (ws vs : List Write) → k ≤ length ws → take k (ws ++ vs) ≡ take k ws
take_short zero ws vs l = refl
take_short (suc k) [] vs l = absurd (omega arith)
take_short (suc k) (w ∷ ws) vs l = ap (λ t. w ∷ t) (take_short k ws vs (omega arith))

pub take_long : (m : ℕ) (ws vs : List Write) → take (length ws + m) (ws ++ vs) ≡ ws ++ take m vs
take_long m [] vs = let e : 0 + m ≡ m = omega arith in rw e refl
take_long m (w ∷ ws) vs =
    let e : suc (length ws) + m ≡ suc (length ws + m) = omega arith in
    rw e (ap (λ t. w ∷ t) (take_long m ws vs))

bwrite_other : (b x : ℕ) (v : Block) (s : Store) → x ≢ b → (bwrite b v s).disk x ≡ s.disk x
unfolding bwrite
bwrite_other b x v s n = ground arith

module _ (start size : ℕ) (f : ℕ → Block) where
  pub length-log_writes : (tail : ℕ) (lh : List ℕ) → length (log_writes start f tail lh) ≡ length lh
  length-log_writes tail [] = refl
  length-log_writes tail (b ∷ lh) = ap suc (length-log_writes (suc tail) lh)

  pub length-home_writes : (lh : List ℕ) → length (home_writes start f lh) ≡ length lh
  length-home_writes [] = refl
  length-home_writes (b ∷ lh) = ap suc (length-home_writes lh)

  log_writes-Avoids :
      (tail x : ℕ) (lh : List ℕ)
      → (x ≤ start + tail) ⊎ (start + size ≤ x)
      → tail + length lh < size
      → Avoids x (log_writes start f tail lh)
  log_writes-Avoids tail x [] h l = tt
  log_writes-Avoids tail x (b ∷ lh) h l =
      ((λ e. omega arith), log_writes-Avoids (suc tail) x lh (omega arith) (omega arith))

  home_writes-Avoids : (x : ℕ) (lh : List ℕ) → mem x lh ≡ false → Avoids x (home_writes start f lh)
  home_writes-Avoids x [] h = tt
  home_writes-Avoids x (b ∷ lh) h = ((λ e. ground arith), home_writes-Avoids x lh (ground arith))

  mem-home :
      (x : ℕ) (lh : List ℕ)
      → All (IsHome start size) lh
      → start ≤ x
      → x < start + size
      → mem x lh ≡ false
  mem-home x [] h lo hi = refl
  mem-home x (b ∷ lh) h lo hi = ground (arith, h.0, mem-home x lh h.1 lo hi)

  -- What the home copies make of a block.
  replay-home :
      (lh : List ℕ) (d : Disk) (x : ℕ)
      → replay (home_writes start f lh) d x ≡ (if mem x lh then f x else d x)
  replay-home [] d x = refl
  replay-home (b ∷ lh) d x = replay-home lh (put_block b (f b) d) x ∙ joined (Bool-cases (b == x))
    where
      joined :
          ((b == x) ≡ true) ⊎ ((b == x) ≡ false)
          → (if mem x lh then f x else put_block b (f b) d x)
            ≡ (if (b == x) || mem x lh then f x else d x)
      joined (inl e) = let w : f b ≡ f x = ap f ((==_iff b x).0 e) in ground arith
      joined (inr e) = ground arith

  Logged-replay :
      (tail : ℕ) (lh : List ℕ) (ws : List Write) (d : Disk)
      → ((x : ℕ) → start < x → x < start + size → Avoids x ws)
      → tail + length lh < size
      → Logged start f tail lh (boot d)
      → Logged start f tail lh (boot (replay ws d))
  Logged-replay tail [] ws d a l w = tt
  Logged-replay tail (b ∷ lh) ws d a l w = (
    replay-Avoids ws d (start + tail + 1) (a (start + tail + 1) (omega arith) (omega arith)) ∙ w.0,
    Logged-replay (suc tail) lh ws d a (omega arith) w.1,
  )

  log_writes-Logged :
      (tail : ℕ) (lh : List ℕ) (d : Disk)
      → tail + length lh < size
      → Logged start f tail lh (boot (replay (log_writes start f tail lh) d))
  log_writes-Logged tail [] d l = tt
  log_writes-Logged tail (b ∷ lh) d l = (
    replay-Avoids (log_writes start f (suc tail) lh) (put_block (start + tail + 1) (f b) d)
          (start + tail + 1)
          (log_writes-Avoids (suc tail) (start + tail + 1) lh (omega arith) (omega arith))
        ∙ ground arith,
    log_writes-Logged (suc tail) lh (put_block (start + tail + 1) (f b) d) (omega arith),
  )

  -- Recovery installs what the header on the disk names, and touches no other home block.
  recovered_lem :
      (lh : List ℕ) (d : Disk) (x : ℕ)
      → decode (d start) ≡ lh
      → All (IsHome start size) lh
      → Logged start f 0 lh (boot d)
      → length lh < size
      → x ≢ start
      → recovered start d x ≡ (if mem x lh then f x else d x)
  unfolding recover_from_log read_head write_head
  recovered_lem lh d x e h w l n =
      let r = install_trans_lem start f size 0 lh (boot d) h w (omega arith) in
      let s : Store = install_trans start 0 lh (boot d) in
      ap
        (λ l'.
          (bwrite start (encode [] (bread start (install_trans start 0 l' (boot d))))
              (install_trans start 0 l' (boot d))).disk
            x)
        e
      ∙ bwrite_other start x (encode [] (bread start s)) s n
      ∙ ap (λ g. g x) r.disk
      ∙ replay-home lh d x

  -- The writes of a commit of `lh`, with the header blocks that it writes.
  abbrev pub commit_writes : List ℕ → Block → Block → List Write
  commit_writes lh full empty =
      log_writes start f 0 lh ++ ((start, full) ∷ (home_writes start f lh ++ ((start, empty) ∷ [])))

  module _ (lh : List ℕ) (full empty : Block) (d : Disk) where
    -- A commit of `lh` on a disk whose log is empty.
    pub record Committing : Type 0 where
      pub home : All (IsHome start size) lh
      pub fits : length lh < size
      pub clear : decode (d start) ≡ []
      pub header : decode full ≡ lh
      pub erased : decode empty ≡ []

    module _ (c : Committing) where
      open c use {home, fits, clear, header, erased}

      abbrev pub ws : List Write
      ws = log_writes start f 0 lh

      pub early :
          (k x : ℕ)
          → k ≤ length lh
          → IsHome start size x
          → recovered start (crash k (commit_writes lh full empty) d) x ≡ d x
      early k x l h =
          let cut : List Write = take k ws in
          let same : take k (commit_writes lh full empty) ≡ cut =
            take_short k ws _ (omega (arith, length-log_writes 0 lh)) in
          let at_start = replay-Avoids cut d start (
            Avoids-take k start ws
              (log_writes-Avoids 0 start lh (omega arith) (omega (arith, fits)))) in
          let at_x =
            replay-Avoids cut d x
              (Avoids-take k x ws (log_writes-Avoids 0 x lh (omega arith) (omega (arith, fits)))) in
          ap (λ y. recovered start (replay y d) x) same
          ∙ recovered_lem [] (replay cut d) x (ap decode at_start ∙ clear) tt tt
              (omega (arith, fits)) (λ e. omega (arith, fits))
          ∙ at_x

      -- The disk behind the log writes and the header.
      abbrev pub headed : Disk
      headed = put_block start full (replay ws d)

      headed-Logged : Logged start f 0 lh (boot headed)
      headed-Logged =
          Logged-replay 0 lh ((start, full) ∷ []) (replay (log_writes start f 0 lh) d)
            (λ x lo hi. ((λ e. omega arith), tt)) (omega (arith, fits))
            (log_writes-Logged 0 lh d (omega (arith, fits)))

      headed_home : (x : ℕ) → IsHome start size x → headed x ≡ d x
      headed_home x h =
          replay-Avoids ((start, full) ∷ []) (replay (log_writes start f 0 lh) d) x
            ((λ e. omega (arith, fits)), tt)
          ∙ replay-Avoids (log_writes start f 0 lh) d x
              (log_writes-Avoids 0 x lh (omega arith) (omega (arith, fits)))

      headed_start : headed start ≡ full
      headed_start = rw (==_self start) refl

      home_spares :
          (m x : ℕ) → start ≤ x → x < start + size → Avoids x (take m (home_writes start f lh))
      home_spares m x lo hi =
          Avoids-take m x (home_writes start f lh)
            (home_writes-Avoids x lh (mem-home x lh home lo hi))

      -- The disk behind the header and the first `m` home copies.
      pub midway :
          (m x : ℕ)
          → IsHome start size x
          → recovered start (replay (take m (home_writes start f lh)) headed) x
            ≡ (if mem x lh then f x else d x)
      midway m x h =
          let cut : List Write = take m (home_writes start f lh) in
          let at_start =
            replay-Avoids cut headed start
              (home_spares m start (omega arith) (omega (arith, fits))) in
          recovered_lem lh (replay cut headed) x (ap decode (at_start ∙ headed_start) ∙ header) home
            (Logged-replay 0 lh cut headed (λ y lo hi. home_spares m y (omega arith) hi)
              (omega (arith, fits)) headed-Logged)
            fits (λ e. omega (arith, fits))
          ∙ other (Bool-cases (mem x lh))
        where
          other :
              (mem x lh ≡ true) ⊎ (mem x lh ≡ false)
              → (if mem x lh then f x else replay (take m (home_writes start f lh)) headed x)
                ≡ (if mem x lh then f x else d x)
          other (inl e) = rw e refl
          other (inr e) = rw e (
              replay-Avoids (take m (home_writes start f lh)) headed x
                (Avoids-take m x (home_writes start f lh) (home_writes-Avoids x lh e))
              ∙ headed_home x h)

      -- The disk behind the whole commit.
      pub whole :
          (x : ℕ)
          → IsHome start size x
          → recovered start (put_block start empty (replay (home_writes start f lh) headed)) x
            ≡ (if mem x lh then f x else d x)
      whole x h =
          recovered_lem [] (put_block start empty (replay (home_writes start f lh) headed)) x
            (rw (==_self start) erased) tt tt (omega (arith, fits)) (λ e. omega (arith, fits))
          ∙ replay-Avoids ((start, empty) ∷ []) (replay (home_writes start f lh) headed) x
              ((λ e. omega (arith, fits)), tt)
          ∙ replay-home lh headed x
          ∙ rw (headed_home x h) refl
