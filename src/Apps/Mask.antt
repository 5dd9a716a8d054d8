-- ===== src/Apps/Mask.antt =====
-- The masks of keys and buttons in examples/sdl3_asyncinput.c, examples/mouse_demo.c and
-- examples/hotplug_mouse_wait.c: a load, and a compare-and-exchange in a loop, by any number of threads.
use asyncinput.Prelude.{ℕ, Bool, not, ◌&&◌, List, [], ◌∷◌, if◌then◌else◌, ◌==◌}
use asyncinput.Apps.Bits.{or_bit, clear_bit}

-- a call of `set_bit`: the bit, and whether it is set or cleared
pub record Update : Type 0 where
  pub bit : ℕ
  pub down : Bool

-- `newm`
unfoldable pub new_mask : Update → ℕ → ℕ
new_mask u m = if u.down then or_bit m u.bit else clear_bit m u.bit

-- Where a thread is: outside `set_bit`, or in its loop with the local `m`.
pub data Local : Type 0 where
  outside : Local
  trying : Update → ℕ → Local

-- The atomic, the threads, and the calls that are done, the last one first.
pub record Masked : Type 0 where
  pub mask : ℕ
  pub local : ℕ → Local
  pub done : List Update

abbrev pub put_local : ℕ → Local → Masked → Masked
put_local i l s = record s { local = λ j. if i == j then l else s.local j }

-- `uint32_t m = atomic_load(mask)`, by a thread that enters
unfoldable pub enter : ℕ → Update → Local → Masked → Masked
enter i u outside s = put_local i (trying u s.mask) s
enter i u (trying v m) s = s

-- `atomic_compare_exchange_weak(mask, &m, newm)`, which may fail although the values agree. A failure
-- leaves what it found in `m`.
unfoldable pub exchange : Bool → ℕ → Local → Masked → Masked
exchange spurious i outside s = s
exchange spurious i (trying u m) s =
    if s.mask == m && not spurious
    then record (put_local i outside s) { mask = new_mask u m; done = u ∷ s.done }
    else put_local i (trying u s.mask) s

-- a move of a thread
pub data Move : Type 0 where
  load : ℕ → Update → Move
  compare : Bool → ℕ → Move

unfoldable pub move : Move → Masked → Masked
unfolding enter exchange
move (load i u) s = enter i u (s.local i) s
move (compare spurious i) s = exchange spurious i (s.local i) s

unfoldable pub moves : List Move → Masked → Masked
unfolding move
moves [] s = s
moves (m ∷ ms) s = moves ms (move m s)

-- no thread in the loop
abbrev pub at_rest : ℕ → Masked
at_rest m = record { mask = m; local = λ i. outside; done = [] }
