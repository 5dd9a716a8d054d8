-- ===== src/Apps/Average.antt =====
-- What the averages printed by the programs of examples say.
use native.Mathlib.Nat.{le-div_iff_mul-le, div-le_of_le-mul, mul-le-mul_left, div-lt_iff_lt-mul}
use asyncinput.Prelude.{
  ℕ, ◌+◌, ◌*◌, ◌%◌, ◌^◌, ◌<◌, ◌≤◌, ◌≡◌, refl, sym, subst, if_true, true, not, ◌&&◌, List, [], ◌∷◌,
  some, if◌then◌else◌, arith, ltb, by_if,
}
use asyncinput.Prelude.Int.{ℤ, eqb_ℤ, is_neg, pos_part}
use asyncinput.Event.{Codes, NiEvent, ni_is_key_event}
use asyncinput.Apps.Latency.{
  Stats, no_stats, latency, measure, callback_cb, add_latency, read_batch, on_event, average,
}

-- The sum lies between the count times the least latency and the count times the greatest.
pub record IsBetween (s : Stats) : Type 0 where
  pub low : s.g_count * s.g_min_lat ≤ s.g_sum_lat
  pub high : s.g_sum_lat ≤ s.g_count * s.g_max_lat

measure-IsBetween :
    (lat : ℕ) (s : Stats)
    → IsBetween s
    → IsBetween (measure lat (record s { g_count = s.g_count + 1 }))
unfolding measure
measure-IsBetween lat s b =
    let least : ℕ = if ltb lat s.g_min_lat then lat else s.g_min_lat in
    let most : ℕ = if ltb s.g_max_lat lat then lat else s.g_max_lat in
    let below : least ≤ s.g_min_lat = ground arith in
    let above : s.g_max_lat ≤ most = ground arith in
    let below_new : least ≤ lat = ground arith in
    let above_new : lat ≤ most = ground arith in
    record {
      low = omega (arith, b.low, mul-le-mul_left s.g_count below, below_new);
      high = omega (arith, b.high, mul-le-mul_left s.g_count above, above_new);
    }

add_latency-IsBetween :
    (recv : ℤ) (ev : NiEvent) (s : Stats) → IsBetween s → IsBetween (add_latency recv ev s)
unfolding add_latency
add_latency-IsBetween recv ev s b =
    by_if IsBetween (is_neg (latency recv ev)) _ _ (λ _. b)
      (λ _. measure-IsBetween (pos_part (latency recv ev)) s b)

on_event-IsBetween :
    (c : Codes) (ev_msc recv : ℤ) (ev : NiEvent) (s : Stats)
    → IsBetween s
    → IsBetween (on_event c ev_msc recv ev s)
unfolding on_event
on_event-IsBetween c ev_msc recv ev s b =
    by_if IsBetween (not (ni_is_key_event c (some ev)) && not (eqb_ℤ ev.type ev_msc)) _ _ (λ _. b)
      (λ _. add_latency-IsBetween recv ev s b)

average_between :
    (s : Stats)
    → IsBetween s
    → 0 < s.g_count
    → s.g_sum_lat < 2 ^ 64
    → (s.g_min_lat ≤ average s) × (average s ≤ s.g_max_lat)
average_between s b some_event small =
    let whole : s.g_sum_lat % 2 ^ 64 ≡ s.g_sum_lat = omega arith in
    (
      (le-div_iff_mul-le some_event).1 (omega (arith, b.low, whole)),
      div-le_of_le-mul s.g_count (omega (arith, b.high, whole)),
    )

-- the callback for events, each with the time at which it runs
abbrev pub on_events : Codes → ℤ → List (ℤ × NiEvent) → Stats → Stats
on_events c ev_msc [] s = s
on_events c ev_msc ((recv, ev) ∷ evs) s = on_events c ev_msc evs (on_event c ev_msc recv ev s)

on_events-IsBetween :
    (c : Codes) (ev_msc : ℤ) (evs : List (ℤ × NiEvent)) (s : Stats)
    → IsBetween s
    → IsBetween (on_events c ev_msc evs s)
on_events-IsBetween c ev_msc [] s b = b
on_events-IsBetween c ev_msc ((recv, ev) ∷ evs) s b =
    on_events-IsBetween c ev_msc evs (on_event c ev_msc recv ev s)
      (on_event-IsBetween c ev_msc recv ev s b)

read_batch-IsBetween :
    (recv : ℤ) (evs : List NiEvent) (s : Stats) → IsBetween s → IsBetween (read_batch recv evs s)
unfolding read_batch
read_batch-IsBetween recv [] s b = b
read_batch-IsBetween recv (ev ∷ evs) s b =
    read_batch-IsBetween recv evs (add_latency recv ev s) (add_latency-IsBetween recv ev s b)

no_stats-IsBetween : IsBetween no_stats
no_stats-IsBetween = record { low = omega arith; high = omega arith }

-- In benchmark_asyncinput.c, after any events at any times, if one was counted and the sum fits into 64
-- bits, the average printed lies between the least and the greatest latency printed.
pub on_events-average :
    (c : Codes) (ev_msc : ℤ) (evs : List (ℤ × NiEvent))
    → 0 < (on_events c ev_msc evs no_stats).g_count
    → (on_events c ev_msc evs no_stats).g_sum_lat < 2 ^ 64
    → let s = on_events c ev_msc evs no_stats in
      (s.g_min_lat ≤ average s) × (average s ≤ s.g_max_lat)
on_events-average c ev_msc evs some_event small =
    average_between (on_events c ev_msc evs no_stats)
      (on_events-IsBetween c ev_msc evs no_stats no_stats-IsBetween) some_event small

-- In callback_demo.c a negative latency is counted, but not added: where an event comes with one, from a state
-- in which the average printed is the least latency, which is not 0, the average printed falls below the
-- least latency printed.
callback_cb-average :
    (recv : ℤ) (ev : NiEvent) (s : Stats)
    → is_neg (latency recv ev) ≡ true
    → 0 < s.g_min_lat
    → s.g_sum_lat < 2 ^ 64
    → s.g_sum_lat ≡ s.g_count * s.g_min_lat
    → let t = callback_cb recv ev s in
      (t.g_count ≡ s.g_count + 1) × (t.g_min_lat ≡ s.g_min_lat) × (average t < t.g_min_lat)
unfolding callback_cb
callback_cb-average recv ev s h p small same =
    let counted : Stats = record s { g_count = s.g_count + 1 } in
    let whole : s.g_sum_lat % 2 ^ 64 ≡ s.g_sum_lat = omega arith in
    subst
      (λ (t : Stats).
        (t.g_count ≡ s.g_count + 1) × (t.g_min_lat ≡ s.g_min_lat) × (average t < t.g_min_lat))
      (sym (if_true (is_neg (latency recv ev)) counted _ h))
      (refl, refl, (div-lt_iff_lt-mul (omega arith)).1 (omega (arith, whole, same, p)))
