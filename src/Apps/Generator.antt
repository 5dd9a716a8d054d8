-- ===== src/Apps/Generator.antt =====
-- The event generators of examples/callback_demo.c, examples/benchmark_asyncinput.c and
-- examples/sdl3_demo.c: a thread that writes reports to a uinput device at a given rate. The clocks, the
-- sleep and the flag `stop`, which the main thread sets, are parameters.
pub mod Reports
pub mod Paced
mod Tests
use asyncinput.Prelude.{
  ℕ, zero, suc, ◌+◌, ◌-◌, ◌*◌, ◌/◌, ◌%◌, ◌^◌, ltb, Bool, true, false, not, List, [], ◌∷◌, Option,
  none, some, if◌then◌else◌, ◌==◌,
}
use asyncinput.Prelude.Int.{ℤ, pos, ◌+ℤ◌, ◌*ℤ◌, not_positive, pos_part, ltb_ℤ}
use asyncinput.Posix.Worker.{InputEvent}

-- What the thread asks of the system; its trace holds the newest first.
pub data GenCall : Type 0 where
  clock_read time_read : GenCall
  written : ℤ → InputEvent → GenCall
  slept : ℕ → ℕ → GenCall

abbrev pub GenTrace : Type 0
GenTrace = List GenCall

-- The numbers of linux/input-event-codes.h.
pub record UinputCodes : Type 0 where
  pub ev_syn : ℕ
  pub ev_key : ℕ
  pub ev_msc : ℕ
  pub syn_report : ℕ
  pub msc_scan : ℕ
  pub key_a : ℕ

-- CLOCK_MONOTONIC in seconds and nanoseconds, the time of day in seconds and microseconds, and the flag as
-- the loop reads it.
pub record GenEnv : Type 0 where
  pub monotonic : GenTrace → ℕ × ℕ
  pub timeofday : GenTrace → ℤ × ℤ
  pub stop : GenTrace → Bool
  pub codes : UinputCodes

abbrev pub second_ns : ℕ
second_ns = 1000000000

abbrev pub ns : ℕ × ℕ → ℕ
ns (sec, nsec) = sec * second_ns + nsec

abbrev pub clock_ns : GenEnv → GenTrace → ℕ × GenTrace
clock_ns e t = (ns (e.monotonic t), clock_read ∷ t)

-- The result of `write` is ignored.
abbrev pub emit_ev : GenEnv → ℤ → ℕ → ℕ → ℤ → GenTrace → GenTrace
emit_ev e fd type code value t =
    let (sec, usec) = e.timeofday t in
    written fd (record { tv_sec = sec; tv_usec = usec; type = type; code = code; value = value })
    ∷ time_read
    ∷ t

-- `gen_args_t` without `stop`. Only examples/sdl3_demo.c has `emit_key`.
pub record GenArgs : Type 0 where
  pub fd : ℤ
  pub hz : ℤ
  pub seconds : ℤ
  pub emit_key : Bool

-- The variables of the loop. `scan` is an `int`: the loop keeps it below `int_limit`. Only
-- examples/sdl3_demo.c has `key_state`.
pub record Locals : Type 0 where
  pub scan : ℕ
  pub key_state : ℕ
  pub next_ns : ℕ

-- `key_state ^= 1`
abbrev pub toggle : ℕ → ℕ
toggle n = if n % 2 == 0 then n + 1 else n - 1

-- `1000000000LL / (ga->hz > 0 ? ga->hz : 10000)`
abbrev pub period_ns : ℤ → ℕ
period_ns hz = second_ns / (if not_positive hz then 10000 else pos_part hz)

-- the writes of a round, without and with the key
abbrev pub scan_report : GenEnv → GenArgs → Locals → GenTrace → GenTrace
scan_report e ga l t =
    emit_ev e ga.fd e.codes.ev_syn e.codes.syn_report (pos 0)
      (emit_ev e ga.fd e.codes.ev_msc e.codes.msc_scan (pos l.scan) t)

abbrev pub key_report : GenEnv → GenArgs → Locals → GenTrace → GenTrace
key_report e ga l t =
    let t1 = emit_ev e ga.fd e.codes.ev_msc e.codes.msc_scan (pos l.scan) t in
    let t2 =
      if ga.emit_key
      then emit_ev e ga.fd e.codes.ev_key e.codes.key_a (pos l.key_state) t1
      else t1 in
    emit_ev e ga.fd e.codes.ev_syn e.codes.syn_report (pos 0) t2

-- What a round leaves in the variables, and the sleep to the next one.
abbrev pub advance : ℕ → Locals → Locals
advance period l = record {
  scan = l.scan + 1;
  key_state = toggle l.key_state;
  next_ns = l.next_ns + period;
}

abbrev pub sleep_until : ℕ → GenTrace → GenTrace
sleep_until next t = slept (next / second_ns) (next % second_ns) ∷ t

-- the first number that an `int` does not hold
abbrev pub int_limit : ℕ
int_limit = 2 ^ 31

-- `while (!ga->stop && now_ns() < end_ns)`, with fuel. `none` is that the fuel ran out, or that `scan++`
-- overflows, which is undefined.
unfoldable pub gen_loop :
    GenEnv → (Locals → GenTrace → GenTrace) → ℕ → ℤ → ℕ → Locals → GenTrace → Option GenTrace
gen_loop e report period end zero l t = none
gen_loop e report period end (suc fuel) l t =
    let (now, t') = clock_ns e t in
    let l' = advance period l in
    let rest = gen_loop e report period end fuel l' (sleep_until l'.next_ns (report l t')) in
    let kept = if ltb l'.scan int_limit then rest else none in
    if e.stop t then some t else if ltb_ℤ (pos now) end then kept else some t'

unfoldable pub generate :
    GenEnv → (Locals → GenTrace → GenTrace) → GenArgs → ℕ → GenTrace → Option GenTrace
unfolding gen_loop
generate e report ga fuel t =
    let (start, t1) = clock_ns e t in
    let (now, t2) = clock_ns e t1 in
    gen_loop e report (period_ns ga.hz) (pos now +ℤ ga.seconds *ℤ pos second_ns) fuel
      (record { scan = 0; key_state = 0; next_ns = start }) t2

-- `generator_thread` of the three programs
abbrev pub callback_generator : GenEnv → GenArgs → ℕ → GenTrace → Option GenTrace
callback_generator e ga = generate e (scan_report e ga) ga

abbrev pub benchmark_generator : GenEnv → GenArgs → ℕ → GenTrace → Option GenTrace
benchmark_generator e ga = generate e (scan_report e ga) ga

abbrev pub demo_generator : GenEnv → GenArgs → ℕ → GenTrace → Option GenTrace
demo_generator e ga = generate e (key_report e ga) ga
