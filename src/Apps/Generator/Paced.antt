-- ===== src/Apps/Generator/Paced.antt =====
-- The threads that write reports to a uinput device end in time, and no faster than their rate.
use mathlib.Core.List.{append_assoc}
use asyncinput.Prelude.{
  ltb, ◌<◌, ◌⊎◌, false, if_true, if_false, ℕ, zero, suc, ◌+◌, ◌*◌, ◌/◌, ◌%◌, ◌≤◌, ◌≡◌, refl, sym,
  ap, ◌∙◌, inl, inr, true, List, ◌∷◌, ◌++◌, Option, some, arith, Bool-cases,
}
use asyncinput.Prelude.Int.{ℤ, pos, ◌+ℤ◌, ◌*ℤ◌, ◌≤ℤ◌, ltb_ℤ}
use asyncinput.Apps.Generator.Reports.{
  readings, sleeps, key_report-silent, Line, sent, reports, toggle-parity, scan_lines, key_lines,
  key_report-lines,
}
use asyncinput.Apps.Generator.{
  GenEnv, GenArgs, GenTrace, GenCall, Locals, clock_read, slept, ns, second_ns, toggle, period_ns,
  int_limit, advance, sleep_until, scan_report, key_report, gen_loop, generate, callback_generator,
  demo_generator,
}

-- The monotonic clock never goes back, and a sleep to an absolute time lasts until then.
pub record IsClock (e : GenEnv) : Type 0 where
  pub forward : (t : GenTrace) (c : GenCall) → ns (e.monotonic t) ≤ ns (e.monotonic (c ∷ t))
  pub woken : (t : GenTrace) (s n : ℕ) → s * second_ns + n ≤ ns (e.monotonic (slept s n ∷ t))

-- No report was due at the end or after it.
abbrev pub InTime : ℕ → ℕ → ℤ → ℕ → Type 0
InTime next period end zero = Unit
InTime next period end (suc j) = ltb_ℤ (pos (next + j * period)) end ≡ true

-- Why the loop ended at `s` after `k` rounds from `t`: it read `stop` as set, with one reading of the clock in
-- each round, or not, with one more that was at the end or after it.
abbrev pub EndedBy : GenEnv → ℤ → ℕ → GenTrace → GenTrace → Type 0
EndedBy e end k t s =
    ((e.stop s ≡ true) × (readings s ≡ k + readings t))
    ⊎ ((u : GenTrace) × (s ≡ clock_read ∷ u)
        × (e.stop u ≡ false)
        × (ltb_ℤ (pos (ns (e.monotonic u))) end ≡ false)
        × (readings u ≡ k + readings t))

-- It has slept once in each round too.
abbrev pub Ended : GenEnv → ℤ → ℕ → GenTrace → GenTrace → Type 0
Ended e end k t s = (sleeps s ≡ k + sleeps t) × EndedBy e end k t s

EndedBy-suc :
    (e : GenEnv) (end : ℤ) (k : ℕ) (t t' s : GenTrace)
    → readings t' ≡ 1 + readings t
    → EndedBy e end k t' s
    → EndedBy e end (suc k) t s
EndedBy-suc e end k t t' s more (inl (stopped, r)) = inl (stopped, omega (arith, r, more))
EndedBy-suc e end k t t' s more (inr (u, here, going, late, r)) =
    inr (u, here, going, late, omega (arith, r, more))

due_suc : (next period j : ℕ) → next + suc j * period ≡ next + period + j * period
due_suc next period j = ground arith

InTime-suc :
    (next period : ℕ) (end : ℤ) (k : ℕ)
    → ltb_ℤ (pos next) end ≡ true
    → InTime (next + period) period end k
    → InTime next period end (suc k)
InTime-suc next period end zero now r = ap (λ (n : ℕ). ltb_ℤ (pos n) end) (omega arith) ∙ now
InTime-suc next period end (suc j) now r =
    ap (λ (n : ℕ). ltb_ℤ (pos n) end) (due_suc next period j) ∙ r

woken-next :
    (e : GenEnv)
    → IsClock e
    → (next : ℕ) (t : GenTrace) → next ≤ ns (e.monotonic (sleep_until next t))
woken-next e clock next t =
    let w = clock.woken t (next / second_ns) (next % second_ns) in omega arith

-- A loop whose body writes one report in each round.
module _ (e : GenEnv) (clock : IsClock e) (report : Locals → GenTrace → GenTrace)
    (one : ℕ → List Line)
    (right : (l : Locals) (t : GenTrace)
      → l.key_state ≡ l.scan % 2
      → sent (report l t) ≡ one l.scan ++ sent t)
    (silent : (l : Locals) (t : GenTrace)
      → (readings (report l t) ≡ readings t) × (sleeps (report l t) ≡ sleeps t))
    (period : ℕ) (end : ℤ) where
  -- what the loop leaves
  abbrev Ran : ℕ → Locals → GenTrace → Type 0
  Ran fuel l t =
      (s : GenTrace) × (k : ℕ) × (gen_loop e report period end fuel l t ≡ some s)
      × (sent s ≡ reports one k l.scan ++ sent t)
      × InTime l.next_ns period end k
      × Ended e end k t s

  -- the trace and the variables at the end of a round
  abbrev later : Locals → GenTrace → GenTrace
  later l t = sleep_until (l.next_ns + period) (report l (clock_read ∷ t))

  gen_loop-stopped :
      (fuel : ℕ) (l : Locals) (t : GenTrace)
      → e.stop t ≡ true
      → gen_loop e report period end (suc fuel) l t ≡ some t
  unfolding gen_loop
  gen_loop-stopped fuel l t h = if_true _ _ _ h

  gen_loop-over :
      (fuel : ℕ) (l : Locals) (t : GenTrace)
      → e.stop t ≡ false
      → ltb_ℤ (pos (ns (e.monotonic t))) end ≡ false
      → gen_loop e report period end (suc fuel) l t ≡ some (clock_read ∷ t)
  unfolding gen_loop
  gen_loop-over fuel l t h late = if_false _ _ _ h ∙ if_false _ _ _ late

  gen_loop-next :
      (fuel : ℕ) (l : Locals) (t : GenTrace)
      → e.stop t ≡ false
      → ltb_ℤ (pos (ns (e.monotonic t))) end ≡ true
      → l.scan + 1 < int_limit
      → gen_loop e report period end (suc fuel) l t
        ≡ gen_loop e report period end fuel (advance period l) (later l t)
  unfolding gen_loop
  gen_loop-next fuel l t h early small =
      if_false _ _ _ h
      ∙ if_true _ _ _ early
      ∙ if_true (ltb (l.scan + 1) int_limit) _ _ (ground (arith, small))

  -- one more round before a run
  next-Ran :
      (fuel : ℕ) (l : Locals) (t : GenTrace)
      → l.key_state ≡ l.scan % 2
      → l.next_ns ≤ ns (e.monotonic t)
      → e.stop t ≡ false
      → ltb_ℤ (pos (ns (e.monotonic t))) end ≡ true
      → l.scan + 1 < int_limit
      → Ran fuel (advance period l) (later l t)
      → Ran (suc fuel) l t
  next-Ran fuel l t key due h early small (s, k, done, out, time, (slept_once, by)) = (
    s,
    suc k,
    gen_loop-next fuel l t h early small ∙ done,
    out
        ∙ ap (λ (ls : List Line). reports one k (l.scan + 1) ++ ls) (right l (clock_read ∷ t) key)
        ∙ sym (append_assoc (reports one k (l.scan + 1)) (one l.scan) (sent t)),
    InTime-suc l.next_ns period end k (ground arith) time,
    (
      omega (arith, slept_once, (silent l (clock_read ∷ t)).1),
      EndedBy-suc e end k t (later l t) s (omega (arith, (silent l (clock_read ∷ t)).0)) by,
    ),
  )

  -- what the first test decides
  test-Ran :
      (fuel : ℕ) (l : Locals) (t : GenTrace)
      → l.key_state ≡ l.scan % 2
      → (ltb_ℤ (pos (ns (e.monotonic t))) end ≡ true → Ran fuel (advance period l) (later l t))
      → l.next_ns ≤ ns (e.monotonic t)
      → (ltb_ℤ (pos (ns (e.monotonic t))) end ≡ true → l.scan + 1 < int_limit)
      → Ran (suc fuel) l t
  test-Ran fuel l t key more due small = elim (Bool-cases (e.stop t)) [
    | inl stopped ↦ (
      t,
      0,
      gen_loop-stopped fuel l t stopped,
      refl,
      tt,
      (omega arith, inl (stopped, omega arith)),
    )
    | inr going ↦ elim (Bool-cases (ltb_ℤ (pos (ns (e.monotonic t))) end)) [
      | inl early ↦ next-Ran fuel l t key due going early (small early) (more early)
      | inr late ↦ (
        clock_read ∷ t,
        0,
        gen_loop-over fuel l t going late,
        refl,
        tt,
        (omega arith, inr (t, refl, going, late, omega arith)),
      )
    ]
  ]

  gen_loop-Ran :
      (fuel : ℕ) (l : Locals) (t : GenTrace)
      → l.key_state ≡ l.scan % 2
      → l.next_ns ≤ ns (e.monotonic t)
      → end ≤ℤ pos (l.next_ns + fuel * period)
      → l.scan + fuel < int_limit
      → Ran (suc fuel) l t
  gen_loop-Ran zero l t key due room small =
      test-Ran zero l t key (λ early. absurd (ground (arith, room, early, due))) due
        (λ early. absurd (ground (arith, room, early, due)))
  gen_loop-Ran (suc n) l t key due room small =
      test-Ran (suc n) l t key
        (λ early.
          gen_loop-Ran n (advance period l) (later l t) (ap toggle key ∙ toggle-parity l.scan)
            (woken-next e clock (l.next_ns + period) (report l (clock_read ∷ t)))
            (ground (arith, room, due_suc l.next_ns period n)) (omega (arith, small)))
        due (λ early. omega (arith, small))

-- What a thread leaves that is started at the trace `t`, for `seconds` seconds.
abbrev pub Generated :
    (GenEnv → GenArgs → ℕ → GenTrace → Option GenTrace)
    → (ℕ → List Line)
    → GenEnv
    → GenArgs
    → ℕ
    → ℕ
    → GenTrace
    → Type 0
Generated generator one e ga seconds fuel t =
    let start = ns (e.monotonic t) in
    let end = ns (e.monotonic (clock_read ∷ t)) + seconds * second_ns in
    (s : GenTrace) × (k : ℕ) × (generator e ga (suc fuel) t ≡ some s)
    × (sent s ≡ reports one k 0 ++ sent t)
    × InTime start (period_ns ga.hz) (pos end) k
    × Ended e (pos end) k (clock_read ∷ clock_read ∷ t) s

end-pos : (a s : ℕ) (z : ℤ) → z ≡ pos s → pos a +ℤ z *ℤ pos second_ns ≡ pos (a + s * second_ns)
unfolding ◌+ℤ◌ ◌*ℤ◌
end-pos a s z h = rw h (ground arith)

module _ (e : GenEnv) (ga : GenArgs) (seconds fuel : ℕ) (t : GenTrace) (clock : IsClock e)
    (period : ga.seconds ≡ pos seconds)
    (room : ns (e.monotonic (clock_read ∷ t)) + seconds * second_ns
      ≤ ns (e.monotonic t) + fuel * period_ns ga.hz)
    (small : fuel < int_limit) where
  generate-paced :
      (report : Locals → GenTrace → GenTrace) (one : ℕ → List Line)
      → ((l : Locals) (u : GenTrace)
          → l.key_state ≡ l.scan % 2
          → sent (report l u) ≡ one l.scan ++ sent u)
      → ((l : Locals) (u : GenTrace)
          → (readings (report l u) ≡ readings u) × (sleeps (report l u) ≡ sleeps u))
      → Generated (λ e ga. generate e report ga) one e ga seconds fuel t
  unfolding generate
  generate-paced report one right silent =
      let end = ns (e.monotonic (clock_read ∷ t)) + seconds * second_ns in
      let l : Locals = record { scan = 0; key_state = 0; next_ns = ns (e.monotonic t) } in
      let start : ns (e.monotonic t) ≤ ns (e.monotonic (clock_read ∷ clock_read ∷ t)) =
        omega (arith, clock.forward t clock_read, clock.forward (clock_read ∷ t) clock_read) in
      let (s, k, done, out, time, by) =
        gen_loop-Ran e clock report one right silent (period_ns ga.hz) (pos end) fuel l
          (clock_read ∷ clock_read ∷ t) refl start (omega (arith, room)) (omega (arith, small)) in
      (
        s,
        k,
        ap
              (λ (z : ℤ).
                gen_loop e report (period_ns ga.hz) z (suc fuel) l (clock_read ∷ clock_read ∷ t))
              (end-pos (ns (e.monotonic (clock_read ∷ t))) seconds ga.seconds period)
            ∙ done,
        out,
        time,
        by,
      )

  -- The thread of examples/sdl3_demo.c, on a clock that never goes back and sleeps that last: started for a
  -- number of seconds that is not negative and that fewer than 2^31 periods of its rate cover, it returns, once
  -- the fuel covers those periods. It has written whole reports in order and nothing else: the scan codes
  -- 0, 1, 2, …, each with the key in turn up and down when the key is on, and SYN; and no report was due at the
  -- end or later, the first being due at the start and each next one a period after it. It slept once after
  -- each report. It stopped because it read `stop` as set, having read the clock in its loop once for each
  -- report, or because a reading gave the end or later, having read it once for each report before.
  pub demo_generator-paced : Generated demo_generator (key_lines e ga) e ga seconds fuel t
  demo_generator-paced =
      generate-paced (key_report e ga) (key_lines e ga) (key_report-lines e ga)
        (key_report-silent e ga)

  -- The same of the thread of examples/callback_demo.c and examples/benchmark_asyncinput.c, whose reports have
  -- no key.
  callback_generator-paced : Generated callback_generator (scan_lines e ga) e ga seconds fuel t
  callback_generator-paced =
      generate-paced (scan_report e ga) (scan_lines e ga) (λ l u h. refl) (λ l u. (refl, refl))
