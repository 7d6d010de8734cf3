-- ===== src/Syscall/Args.antt =====
-- What the checks of system call arguments guarantee.
use cs537pair.Prelude.{
  ℕ, zero, suc, ◌+◌, ◌-◌, ◌≤◌, ◌<◌, ◌≡◌, ◌≢◌, ◌∙◌, ap, sym, some, arith, ◌==◌, ◌>>=◌, >>=-eq-some,
  Bool-cases, inl, inr, ◌^◌,
}
use cs537pair.Syscall.{scan_str, fetchstr, argint, argptr, argstr}

module _ (sz : ℕ) (mem : ℕ → ℕ) where
  -- For a process of at most 2 GB, a pointer that `argptr` accepts for a block of `size` bytes points
  -- to a block of at most 2 GB that lies in the process's memory.
  pub argptr_lem :
      (esp n size p : ℕ)
      → sz ≤ 2 ^ 31
      → argptr sz mem esp n size ≡ some p
      → (size < 2 ^ 31) × (p < sz) × (p + size ≤ sz)
  unfolding argptr
  argptr_lem esp n size p b e =
      let (i, h, g) = >>=-eq-some (argint sz mem esp n) _ e in
      let w : i ≡ p = ground arith in
      let (l, (r, q)) : (size < 2 ^ 31) × ((i < sz) × (i + size ≤ sz)) =
        (ground arith, (ground arith, ground arith)) in
      (l, omega arith, omega arith)

  scan_str_lem :
      (left s k : ℕ)
      → scan_str sz mem left s ≡ some k
      → (k < left) × (mem (s + k) ≡ 0) × ((j : ℕ) → j < k → mem (s + j) ≢ 0)
  unfolding scan_str
  scan_str_lem zero s k e = absurd (cc)
  scan_str_lem (suc left) s k e = elim (Bool-cases (mem s == 0)) [
    | inl end ↦
        let w : k ≡ 0 = ground arith in (omega arith, ground arith, λ j l. absurd (omega arith))
    | inr more ↦
        let ran : (scan_str sz mem left (s + 1) >>= λ n. some (suc n)) ≡ some k = ground arith in
        let (m, h, g) = >>=-eq-some (scan_str sz mem left (s + 1)) (λ (n : ℕ). some (suc n)) ran in
        let (l, z, before) = scan_str_lem left (s + 1) m h in
        let w : k ≡ suc m = ground arith in
        let at_end : s + 1 + m ≡ s + k = omega arith in
        (
          omega arith,
          ap mem (sym at_end) ∙ z,
          λ j less. early j m (ground arith) before (omega arith),
        )
  ]
    where
      early :
          (j m : ℕ)
          → mem s ≢ 0
          → ((i : ℕ) → i < m → mem (s + 1 + i) ≢ 0)
          → j < suc m
          → mem (s + j) ≢ 0
      early zero m first rest less =
          let w : s + 0 ≡ s = omega arith in λ z. first (ap mem (sym w) ∙ z)
      early (suc j) m first rest less =
          let w : s + 1 + j ≡ s + suc j = omega arith in λ z. rest j (omega arith) (ap mem w ∙ z)

  -- A string that `argstr` accepts lies in the process's memory with its NUL, and has no NUL before.
  pub argstr_lem :
      (esp n addr k : ℕ)
      → argstr sz mem esp n ≡ some (addr, k)
      → (addr + k < sz) × (mem (addr + k) ≡ 0) × ((j : ℕ) → j < k → mem (addr + j) ≢ 0)
  unfolding argstr fetchstr
  argstr_lem esp n addr k e =
      let (a, h, g) = >>=-eq-some (argint sz mem esp n) _ e in
      let (m, f, q) = >>=-eq-some (fetchstr sz mem a) (λ (len : ℕ). some (a, len)) g in
      let w : a ≡ addr = ground arith in
      let v : m ≡ k = ground arith in
      let ran : scan_str sz mem (sz - a) a ≡ some m = ground arith in
      let (l, z, before) = scan_str_lem (sz - a) a m ran in rw (← w, ← v) (omega arith, z, before)
