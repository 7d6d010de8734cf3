-- ===== src/Proc/Sleep.antt =====
-- Sleeping and waking: `sleep`, `wakeup`, `sleep_proc_notify` and `kill` on the process table.
use cs537pair.Prelude.{
  ℕ, zero, suc, ◌+◌, ◌<◌, ◌≡◌, ◌≢◌, ◌⊎◌, inl, inr, refl, true, ◌&&◌, Option, none, some, arith,
  get_elem?, get_elem?-modify, get_elem?-map, ◌==◌, Bool-cases, find_index, find_index-some,
  find_index-none, find_index-first, ==_self, ap, ◌∙◌,
}
use cs537pair.Prelude.Int.{ℤ, pos, negsuc, ◌+ℤ◌}
use cs537pair.Proc.{
  Proc, Table, Chan, null, ticks, same_chan, runnable, sleeping, is, wake_one, wakeup1, sleep_begin,
  sleep_end, tick_one, sleep_proc_notify, kill, kill_found, mark_killed,
}

pub same_chan_self : (c : Chan) → same_chan c c ≡ true
same_chan_self null = refl
same_chan_self (Chan.proc i) = ground arith
same_chan_self ticks = refl
same_chan_self (Chan.object a) = ground arith

pub same_chan_iff : (c d : Chan) → same_chan c d ≡ true → c ≡ d
same_chan_iff null null h = refl
same_chan_iff (Chan.proc i) (Chan.proc j) h = ground arith
same_chan_iff ticks ticks h = refl
same_chan_iff (Chan.object a) (Chan.object b) h = ground arith
same_chan_iff _ _ h = absurd (cc)

pub wake_one_asleep :
    (c : Chan) (p : Proc)
    → p.state ≡ sleeping
    → p.chan ≡ c
    → wake_one c p ≡ record p { state = runnable }
wake_one_asleep c p s e = rw (s, e, same_chan_self c) refl

wake_one_other : (c : Chan) (p : Proc) → ¬ ((p.state ≡ sleeping) × (p.chan ≡ c)) → wake_one c p ≡ p
wake_one_other c p n = elim (Bool-cases (is p.state sleeping && same_chan p.chan c)) [
  | inl both ↦ absurd (n (ground arith, same_chan_iff p.chan c (ground arith)))
  | inr h ↦ rw h refl
]

-- `wakeup` on a channel makes runnable every process that sleeps on it, and changes no other; so
-- afterwards no process sleeps on the channel, and a process that went to sleep on it by `sleep` is
-- not forgotten.
pub wakeup1_lem :
    (c : Chan) (t : Table) (j : ℕ) (p : Proc)
    → get_elem? t j ≡ some p
    → ((p.state ≡ sleeping) × (p.chan ≡ c)
        → get_elem? (wakeup1 c t) j ≡ some (record p { state = runnable }))
      × (¬ ((p.state ≡ sleeping) × (p.chan ≡ c)) → get_elem? (wakeup1 c t) j ≡ some p)
unfolding wakeup1
wakeup1_lem c t j p h = (
  λ s. get_elem?-map (wake_one c) t j ∙ rw h (ap some (wake_one_asleep c p s.0 s.1)),
  λ n. get_elem?-map (wake_one c) t j ∙ rw h (ap some (wake_one_other c p n)),
)

-- `sleep` on a channel, a `wakeup` of it by another process, and the rest of `sleep`: the caller can
-- run again and has every field as before, but its channel, which is null.
pub sleep-wakeup :
    (cur : ℕ) (c : Chan) (t : Table) (p : Proc)
    → get_elem? t cur ≡ some p
    → get_elem? (sleep_end cur (wakeup1 c (sleep_begin cur c t))) cur
      ≡ some (record p { chan = null; state = runnable })
unfolding sleep_end sleep_begin
sleep-wakeup cur c t p h =
    let asleep : Proc = record p { chan = c; state = sleeping } in
    let put : get_elem? (sleep_begin cur c t) cur ≡ some asleep =
      get_elem?-modify t cur cur _ ∙ rw (==_self cur, h) refl in
    let woken = (wakeup1_lem c (sleep_begin cur c t) cur asleep put).0 (refl, refl) in
    get_elem?-modify (wakeup1 c (sleep_begin cur c t)) cur cur _ ∙ rw (==_self cur, woken) refl

-- `n` timer interrupts.
abbrev pub ticks_pass : ℕ → Table → Table
ticks_pass zero t = t
ticks_pass (suc n) t = ticks_pass n (sleep_proc_notify t)

tick-get :
    (t : Table) (j : ℕ) (p : Proc)
    → get_elem? t j ≡ some p
    → get_elem? (sleep_proc_notify t) j ≡ some (tick_one p)
unfolding sleep_proc_notify
tick-get t j p h = get_elem?-map tick_one t j ∙ rw h refl

tick_one_due :
    (p : Proc)
    → p.state ≡ sleeping
    → p.chan ≡ ticks
    → p.sleepticks ≡ pos 0
    → tick_one p ≡ record p { state = runnable }
tick_one_due p s c e = rw (s, c, e) refl

tick_one_wait :
    (p : Proc) (n : ℕ)
    → p.state ≡ sleeping
    → p.chan ≡ ticks
    → p.sleepticks ≡ pos (suc n)
    → tick_one p ≡ record p { sleepticks = pos n }
unfolding ◌+ℤ◌
tick_one_wait p n s c e = ground arith

abbrev IsAsleep : Proc → Type 0
IsAsleep p = (p.state ≡ sleeping) × (p.chan ≡ ticks)

ticks_wait :
    (k n : ℕ) (t : Table) (j : ℕ) (p : Proc)
    → get_elem? t j ≡ some p
    → IsAsleep p
    → p.sleepticks ≡ pos (k + n)
    → get_elem? (ticks_pass k t) j ≡ some (record p { sleepticks = pos n })
ticks_wait zero n t j p h s e =
    let w : p.sleepticks ≡ pos n = ground arith in h ∙ ap some (λ i. record p { sleepticks = w i })
ticks_wait (suc k) n t j p h s e =
    let w : p.sleepticks ≡ pos (suc (k + n)) = ground arith in
    ticks_wait k n (sleep_proc_notify t) j (record p { sleepticks = pos (k + n) })
      (tick-get t j p h ∙ ap some (tick_one_wait p (k + n) s.0 s.1 w)) s refl

ticks_due :
    (n : ℕ) (t : Table) (j : ℕ) (p : Proc)
    → get_elem? t j ≡ some p
    → IsAsleep p
    → p.sleepticks ≡ pos n
    → get_elem? (ticks_pass (suc n) t) j ≡ some (record p { sleepticks = pos 0; state = runnable })
ticks_due zero t j p h s e =
    tick-get t j p h
    ∙ ap some (tick_one_due p s.0 s.1 e)
    ∙ ap some (λ i. record p { sleepticks = e i; state = runnable })
ticks_due (suc n) t j p h s e =
    ticks_due n (sleep_proc_notify t) j (record p { sleepticks = pos n })
      (tick-get t j p h ∙ ap some (tick_one_wait p n s.0 s.1 e)) s refl

-- A process that sleeps on the clock with `k + n` ticks left is still asleep after `k` interrupts,
-- with `n` left, and interrupt `k + n + 1` makes it runnable: a sleep of `m` ticks takes `m + 1`
-- interrupts.
pub ticks_pass_lem :
    (k n : ℕ) (t : Table) (j : ℕ) (p : Proc)
    → get_elem? t j ≡ some p
    → p.state ≡ sleeping
    → p.chan ≡ ticks
    → p.sleepticks ≡ pos (k + n)
    → (get_elem? (ticks_pass k t) j ≡ some (record p { sleepticks = pos n }))
      × (get_elem? (ticks_pass (suc (k + n)) t) j
          ≡ some (record p { sleepticks = pos 0; state = runnable }))
ticks_pass_lem k n t j p h s c e =
    (ticks_wait k n t j p h (s, c) e, ticks_due (k + n) t j p h (s, c) e)

-- What `kill` does: it fails where no entry has the pid, and changes nothing; otherwise it marks the
-- first entry that has the pid as killed, takes it out of its sleep, and changes no other.
pub record Killed (pid : ℕ) (t : Table) (result : ℤ) (t' : Table) : Type 0 where
  pub fails :
      result ≡ negsuc 0 → (t' ≡ t) × ((j : ℕ) (q : Proc) → get_elem? t j ≡ some q → q.pid ≢ pid)
  pub succeeds :
      result ≡ pos 0
      → (i : ℕ) × (p : Proc) × (get_elem? t i ≡ some p)
        × (p.pid ≡ pid)
        × ((j : ℕ) (q : Proc) → j < i → get_elem? t j ≡ some q → q.pid ≢ pid)
        × ((q : Proc) × (get_elem? t' i ≡ some q)
            × (q.killed ≡ true)
            × (q.state ≢ sleeping)
            × (p.state ≢ sleeping → q.state ≡ p.state))
        × ((j : ℕ) → j ≢ i → get_elem? t' j ≡ get_elem? t j)
  pub total : (result ≡ negsuc 0) ⊎ (result ≡ pos 0)

kill_found_lem :
    (pid : ℕ) (t : Table) (r : Option ℕ)
    → find_index (λ (p : Proc). p.pid == pid) t ≡ r
    → Killed pid t (kill_found t r).0 (kill_found t r).1
kill_found_lem pid t none e = record {
  fails =
      λ _. (refl, λ j q h. ground (arith, find_index-none (λ (p : Proc). p.pid == pid) t j e h));
  succeeds = λ h. absurd (cc);
  total = inl refl;
}
kill_found_lem pid t (some i) e =
    let (p, here, has) = find_index-some (λ (p : Proc). p.pid == pid) t i e in
    record {
      fails = λ h. absurd (cc);
      succeeds = λ _. (
        i,
        p,
        here,
        ground arith,
        λ j q l h. ground (arith, find_index-first (λ (p : Proc). p.pid == pid) t i j e l h),
        (
          mark_killed p,
          ground (arith, get_elem?-modify t i i mark_killed),
          refl,
          ground arith,
          ground arith,
        ),
        λ j d. ground (arith, get_elem?-modify t i j mark_killed),
      );
      total = inr refl;
    }

-- `kill` fails with -1 exactly where no entry of the table has the pid, and otherwise succeeds with
-- 0: the first entry that has it is marked killed and does not sleep, and no other entry changes.
pub kill_lem : (pid : ℕ) (t : Table) → Killed pid t (kill pid t).0 (kill pid t).1
unfolding kill
kill_lem pid t = kill_found_lem pid t (find_index (λ (p : Proc). p.pid == pid) t) refl
