-- ===== src/Apps/Generator/Tests.antt =====
-- The theorems on the generator threads at a concrete input.
use asyncinput.Prelude.{
  ℕ, ◌+◌, ◌*◌, ◌/◌, ◌%◌, ◌≤◌, refl, [], ◌∷◌, true, false, arith, if◌then◌else◌, leb,
}
use asyncinput.Prelude.Int.{pos}
use asyncinput.Apps.Generator.{
  GenEnv, GenArgs, GenCall, GenTrace, clock_read, time_read, written, slept, second_ns,
  demo_generator,
}
use asyncinput.Apps.Generator.Reports.{key_lines}
use asyncinput.Apps.Generator.Paced.{IsClock, Generated, demo_generator-paced}

abbrev later_of : ℕ → ℕ → ℕ
later_of a b = if leb a b then b else a

-- Every call takes a microsecond, and a sleep lasts until its time.
abbrev clock : GenTrace → ℕ
clock [] = 0
clock (slept s n ∷ t) = later_of (s * second_ns + n) (clock t + 1000)
clock (_ ∷ t) = clock t + 1000

abbrev machine : GenEnv
machine = record {
  monotonic = λ t. (clock t / second_ns, clock t % second_ns);
  timeofday = λ t. (pos 0, pos 0);
  stop = λ t. false;
  codes = record { ev_syn = 0; ev_key = 1; ev_msc = 4; syn_report = 0; msc_scan = 4; key_a = 30 };
}

-- one report in a second, for two seconds
abbrev slowly : GenArgs
slowly = record { fd = pos 3; hz = pos 1; seconds = pos 2; emit_key = true }

clock-forward : (t : GenTrace) (c : GenCall) → clock t ≤ clock (c ∷ t)
clock-forward t (slept s n) = ground arith
clock-forward t clock_read = ground arith
clock-forward t time_read = ground arith
clock-forward t (written fd ev) = ground arith

clock-woken : (t : GenTrace) (s n : ℕ) → s * second_ns + n ≤ clock (slept s n ∷ t)
clock-woken t s n = ground arith

machine-IsClock : IsClock machine
machine-IsClock = record {
  forward = λ t c. let h = clock-forward t c in omega arith;
  woken = λ t s n. let h = clock-woken t s n in omega arith;
}

demo_generator-paced_example :
    Generated demo_generator (key_lines machine slowly) machine slowly 2 3 []
demo_generator-paced_example =
    demo_generator-paced machine slowly 2 3 [] machine-IsClock refl (omega arith) (omega arith)
