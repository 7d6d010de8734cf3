-- ===== src/Log/Writes.antt =====
-- The disk writes of each part of a commit, in order.
use cs537pair.Prelude.{
  ℕ, suc, ◌+◌, ◌≤◌, ◌<◌, ◌≡◌, ◌≢◌, ◌⊎◌, ◌∙◌, sym, subst, refl, ap, List, [], ◌∷◌, ◌++◌, arith, ◌==◌,
  if◌then◌else◌, length, All,
}
use mathlib.Core.List.{append_assoc, append-nil}
use cs537pair.Log.{Block, Disk, Write, Store, put_block, bread, bwrite, write_log, install_trans}

-- The disk after a list of writes.
abbrev pub replay : List Write → Disk → Disk
replay [] d = d
replay ((b, v) ∷ ws) d = replay ws (put_block b v d)

pub replay-append : (ws vs : List Write) (d : Disk) → replay (ws ++ vs) d ≡ replay vs (replay ws d)
replay-append [] vs d = refl
replay-append ((b, v) ∷ ws) vs d = replay-append ws vs (put_block b v d)

-- Writes that go elsewhere leave a block as it is.
abbrev pub Avoids : ℕ → List Write → Type 0
Avoids x = All (λ w. w.0 ≢ x)

pub replay-Avoids : (ws : List Write) (d : Disk) (x : ℕ) → Avoids x ws → replay ws d x ≡ d x
replay-Avoids [] d x a = refl
replay-Avoids ((b, v) ∷ ws) d x a = replay-Avoids ws (put_block b v d) x a.1 ∙ ground (arith, a.0)

-- A run of the code from `s` to `t` that makes the disk writes `ws`.
pub record Runs (s : Store) (ws : List Write) (t : Store) : Type 0 where
  pub trace : t.trace ≡ s.trace ++ ws
  pub disk : t.disk ≡ replay ws s.disk

pub Runs-bwrite : (b : ℕ) (v : Block) (s : Store) → Runs s ((b, v) ∷ []) (bwrite b v s)
unfolding bwrite
Runs-bwrite b v s = record { trace = refl; disk = refl }

pub Runs-trans :
    {s t u : Store} (ws vs : List Write) → Runs s ws t → Runs t vs u → Runs s (ws ++ vs) u
Runs-trans {s} {t} {u} ws vs r q = record {
  trace = q.trace ∙ ap (λ x. x ++ vs) r.trace ∙ append_assoc s.trace ws vs;
  disk = q.disk ∙ ap (replay vs) r.disk ∙ sym (replay-append ws vs s.disk);
}

-- Block numbers outside the log.
abbrev pub IsHome : ℕ → ℕ → ℕ → Type 0
IsHome start size x = (x < start) ⊎ (start + size ≤ x)

module _ (start : ℕ) (f : ℕ → Block) where
  -- The copies of the logged blocks in the log, and at home.
  abbrev pub log_writes : ℕ → List ℕ → List Write
  log_writes tail [] = []
  log_writes tail (b ∷ lh) = (start + tail + 1, f b) ∷ log_writes (suc tail) lh

  abbrev pub home_writes : List ℕ → List Write
  home_writes [] = []
  home_writes (b ∷ lh) = (b, f b) ∷ home_writes lh

  -- The log blocks of a header hold the new contents.
  abbrev pub Logged : ℕ → List ℕ → Store → Type 0
  Logged tail [] s = Unit
  Logged tail (b ∷ lh) s = (bread (start + tail + 1) s ≡ f b) × Logged (suc tail) lh s

  bread-bwrite :
      (b x : ℕ) (v : Block) (s : Store) → bread x (bwrite b v s) ≡ (if b == x then v else bread x s)
  unfolding bwrite
  bread-bwrite b x v s = ground arith

  pub Logged-bwrite :
      (b size tail : ℕ) (v : Block) (lh : List ℕ) (s : Store)
      → (b ≤ start) ⊎ (start + size ≤ b)
      → tail + length lh < size
      → Logged tail lh s
      → Logged tail lh (bwrite b v s)
  Logged-bwrite b size tail v [] s h l w = tt
  Logged-bwrite b size tail v (c ∷ lh) s h l w = (
    bread-bwrite b (start + tail + 1) v s ∙ ground arith,
    Logged-bwrite b size (suc tail) v lh s h (omega arith) w.1,
  )

  -- A block written at an index below `tail` of the log stays.
  write_log-kept :
      (size tail x : ℕ) (lh : List ℕ) (s : Store)
      → (x ≤ start + tail) ⊎ (start + size ≤ x)
      → tail + length lh < size
      → bread x (write_log start tail lh s) ≡ bread x s
  unfolding write_log
  write_log-kept size tail x [] s h l = refl
  write_log-kept size tail x (b ∷ lh) s h l =
      write_log-kept size (suc tail) x lh (bwrite (start + tail + 1) (bread b s) s) (omega arith)
        (omega arith)
      ∙ bread-bwrite (start + tail + 1) x (bread b s) s
      ∙ ground arith

  -- Where the buffers of the logged blocks hold `f`, `write_log` copies it into the log.
  pub write_log_lem :
      (size tail : ℕ) (lh : List ℕ) (s : Store)
      → All (IsHome start size) lh
      → All (λ b. bread b s ≡ f b) lh
      → tail + length lh < size
      → Runs s (log_writes tail lh) (write_log start tail lh s)
        × Logged tail lh (write_log start tail lh s)
  unfolding write_log
  write_log_lem size tail [] s h e l =
      (record { trace = sym (append-nil s.trace); disk = refl }, tt)
  write_log_lem size tail (b ∷ lh) s h e l =
      let s' = bwrite (start + tail + 1) (bread b s) s in
      let (r, w) = write_log_lem size (suc tail) lh s' h.1 (still lh h.1 e.1) (omega arith) in
      (
        Runs-trans ((start + tail + 1, f b) ∷ []) (log_writes (suc tail) lh)
            (subst (λ v. Runs s ((start + tail + 1, v) ∷ []) s') e.0
              (Runs-bwrite (start + tail + 1) (bread b s) s))
            r,
        (
          write_log-kept size (suc tail) (start + tail + 1) lh s' (omega arith) (omega arith)
              ∙ bread-bwrite (start + tail + 1) (start + tail + 1) (bread b s) s
              ∙ ground (arith, e.0),
          w,
        ),
      )
    where
      still :
          (bs : List ℕ)
          → All (IsHome start size) bs
          → All (λ c. bread c s ≡ f c) bs
          → All (λ c. bread c (bwrite (start + tail + 1) (bread b s) s) ≡ f c) bs
      still [] h' e' = tt
      still (c ∷ bs) h' e' = (
        bread-bwrite (start + tail + 1) c (bread b s) s ∙ ground (arith, e'.0, h'.0),
        still bs h'.1 e'.1,
      )

  -- Where the log holds `f`, `install_trans` copies it home.
  pub install_trans_lem :
      (size tail : ℕ) (lh : List ℕ) (s : Store)
      → All (IsHome start size) lh
      → Logged tail lh s
      → tail + length lh < size
      → Runs s (home_writes lh) (install_trans start tail lh s)
  unfolding install_trans
  install_trans_lem size tail [] s h w l = record { trace = sym (append-nil s.trace); disk = refl }
  install_trans_lem size tail (b ∷ lh) s h w l =
      let v = bread (start + tail + 1) s in
      let s' = bwrite b v s in
      Runs-trans ((b, f b) ∷ []) (home_writes lh)
        (subst (λ y. Runs s ((b, y) ∷ []) s') w.0 (Runs-bwrite b v s))
        (install_trans_lem size (suc tail) lh s' h.1
          (Logged-bwrite b size (suc tail) v lh s (omega (arith, h.0)) (omega arith) w.1)
          (omega arith))
