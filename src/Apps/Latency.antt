-- ===== src/Apps/Latency.antt =====
-- The latencies that examples/callback_demo.c, examples/benchmark_asyncinput.c and examples/read_keys.c
-- gather and print.
use asyncinput.Prelude.{
  ℕ, ◌+◌, ◌-◌, ◌/◌, ◌%◌, ◌^◌, not, ◌&&◌, List, [], ◌∷◌, some, if◌then◌else◌, ltb,
}
use asyncinput.Prelude.Int.{ℤ, ◌+ℤ◌, neg, eqb_ℤ, is_neg, pos_part}
use asyncinput.Event.{Codes, NiEvent, ni_is_key_event}

-- The sum has 128 bits and is taken not to overflow.
pub record Stats : Type 0 where
  pub g_count : ℕ
  pub g_sum_lat : ℕ
  pub g_min_lat : ℕ
  pub g_max_lat : ℕ

-- 0x7fffffffffffffffLL, also LLONG_MAX
abbrev pub llong_max : ℕ
llong_max = 2 ^ 63 - 1

abbrev pub no_stats : Stats
no_stats = record { g_count = 0; g_sum_lat = 0; g_min_lat = llong_max; g_max_lat = 0 }

-- `long long lat = recv - ev->timestamp_ns`
abbrev pub latency : ℤ → NiEvent → ℤ
latency recv ev = recv +ℤ neg ev.timestamp_ns

-- the sum and the two bounds
unfoldable pub measure : ℕ → Stats → Stats
measure lat s = record s {
  g_sum_lat = s.g_sum_lat + lat;
  g_min_lat = if ltb lat s.g_min_lat then lat else s.g_min_lat;
  g_max_lat = if ltb s.g_max_lat lat then lat else s.g_max_lat;
}

-- `cb` of callback_demo.c: every event counts.
unfoldable pub callback_cb : ℤ → NiEvent → Stats → Stats
unfolding measure
callback_cb recv ev s =
    let lat = latency recv ev in
    let s' = record s { g_count = s.g_count + 1 } in
    if is_neg lat then s' else measure (pos_part lat) s'

-- the body of the inner loop of read_keys.c: a negative latency is left out.
unfoldable pub add_latency : ℤ → NiEvent → Stats → Stats
unfolding measure
add_latency recv ev s =
    let lat = latency recv ev in
    if is_neg lat then s else measure (pos_part lat) (record s { g_count = s.g_count + 1 })

-- `for (int i = 0; i < n; i++)` over the events polled at once
unfoldable pub read_batch : ℤ → List NiEvent → Stats → Stats
unfolding add_latency
read_batch recv [] s = s
read_batch recv (ev ∷ evs) s = read_batch recv evs (add_latency recv ev s)

-- `on_event` of benchmark_asyncinput.c; `ev_msc` is NI_EV_MSC.
unfoldable pub on_event : Codes → ℤ → ℤ → NiEvent → Stats → Stats
unfolding add_latency
on_event c ev_msc recv ev s =
    if not (ni_is_key_event c (some ev)) && not (eqb_ℤ ev.type ev_msc)
    then s
    else add_latency recv ev s

-- `sum_ull / count`, the average that is printed if the count is not 0
abbrev pub average : Stats → ℕ
average s = (s.g_sum_lat % 2 ^ 64) / s.g_count
