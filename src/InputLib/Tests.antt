-- ===== src/InputLib/Tests.antt =====
-- The theorems on examples/input_lib.c at concrete inputs.
use asyncinput.Prelude.{
  ℕ, suc, ◌+◌, ◌≡◌, ◌≢◌, refl, sym, ap, ◌∙◌, [], ◌∷◌, ◌++◌, List, Option, none, some, arith, length,
  true, false, ◌≤◌,
}
use asyncinput.Prelude.Int.{ℤ, pos}
use asyncinput.Prelude.Tally.{tally}
use asyncinput.Ring.{ring_init}
use asyncinput.InputLib.Reading.{all_registered}
use asyncinput.Ring.Bounds.{ring_init-IsValid}
use asyncinput.Posix.Worker.{InputEvent, ReadResult, event, error}
use asyncinput.InputLib.{
  lib_made, buffer_made, epoll_made, LibTrace, LibEnv, InputLib, blank_timed, buffer_size,
  input_lib_create, input_lib_set_worker_callback, input_lib_add_device, input_lib_start_reading,
  node_made, node_freed,
}
use asyncinput.InputLib.Threads.{receive_all, input_lib_destroy, Batch, reader_thread}
use asyncinput.InputLib.Owned.{block, gained, lost, IsAllocator, IsBalanced}
use asyncinput.InputLib.Joined.{IsJoined}
use asyncinput.InputLib.Delivery.{receive_all-delivers, queued, heard, leading, told}
use asyncinput.InputLib.Session.{
  StartsOnce, Session, making, adding, starting, setting, Session-reader_thread,
  Session-input_lib_destroy,
}

-- a block above all that were handed out or given back before
abbrev fresh_block : LibTrace → ℕ
fresh_block [] = 1
fresh_block (node_made (some p) ∷ t) = suc p + fresh_block t
fresh_block (node_freed p ∷ t) = suc p + fresh_block t
fresh_block (_ ∷ t) = fresh_block t

abbrev kernel : LibEnv
kernel = record {
  calloc_lib = λ t. true;
  calloc_buffer = λ t. true;
  epoll_create = λ t. pos 3;
  open_path = λ t path. pos (10 + length t);
  calloc_node = λ t. some (fresh_block t);
  strdup = λ t path. none;
  create_thread = λ t. some 1;
  clock = λ t. (length t, 500);
}

unmade :
    (t : LibTrace) (p : ℕ)
    → fresh_block t ≤ p
    → (tally (gained (block p)) t ≡ 0) × (tally (lost (block p)) t ≡ 0)
unmade [] p h = (refl, refl)
unmade (c ∷ t) p h = (ground (arith, h, unmade t p), ground (arith, h, unmade t p))

fresh : (t : LibTrace) → fresh_block t ≢ 0
fresh [] h = absurd (cc h)
fresh (c ∷ t) h = ground (arith, h, fresh t)

block_of : ℕ → Option ℕ → ℕ
block_of d none = d
block_of d (some p) = p

kernel-IsAllocator : IsAllocator kernel
unfolding block_of
kernel-IsAllocator = record {
  not_null = λ t p h zero_p. fresh t (ap (block_of 0) h ∙ zero_p);
  unused = λ t p h. let (g, l) = unmade t p (omega (arith, ap (block_of 0) h)) in g ∙ sym l;
}

abbrev empty_lib : InputLib
empty_lib = record {
  devices = 0;
  buffer = ring_init buffer_size blank_timed;
  worker_callback = none;
  worker_userdata = 0;
  worker_thread = none;
  reader_thread = none;
  stop_flag = false;
  epoll_fd = pos 3;
  nodes = λ p. none;
  trace = epoll_made (pos 3) ∷ buffer_made true ∷ lib_made true ∷ [];
}

created : (input_lib_create kernel []).0 ≡ some empty_lib
unfolding input_lib_create
created = refl

-- "/a" and "/b" added, the thread started, a callback set
abbrev two_devices : InputLib
two_devices = input_lib_set_worker_callback (some 7) 8 (
    input_lib_start_reading kernel
      (input_lib_add_device kernel (47 ∷ 98 ∷ [])
        (input_lib_add_device kernel (47 ∷ 97 ∷ []) empty_lib).1).1)

unfoldable two_devices-Session : Session kernel two_devices
two_devices-Session = setting (some 7) 8 _ (
    starting _
      (adding (47 ∷ 98 ∷ []) _ (adding (47 ∷ 97 ∷ []) _ (making [] empty_lib (λ r. refl) created))))

abbrev press : InputEvent
press = record { tv_sec = pos 5; tv_usec = pos 6; type = 1; code = 30; value = pos 1 }

abbrev waiting : ℤ → List ReadResult
waiting fd = event press ∷ event press ∷ error ∷ event press ∷ []

abbrev batches : List Batch
batches =
    record { of_fd = waiting; devs = 3 ∷ 1 ∷ 3 ∷ [] }
    ∷ record { of_fd = λ fd. []; devs = 1 ∷ [] }
    ∷ []

Session-reader_thread_example :
    (s : InputLib) × (reader_thread kernel batches two_devices ≡ some s) × Session kernel s
unfolding input_lib_add_device input_lib_start_reading input_lib_set_worker_callback all_registered
Session-reader_thread_example =
    Session-reader_thread kernel batches two_devices two_devices-Session refl

two_devices_once : StartsOnce kernel two_devices two_devices-Session
unfolding input_lib_add_device two_devices-Session
two_devices_once = (refl, λ h. refl)

Session-input_lib_destroy_example :
    (rounds : ℕ) × (t : LibTrace) × (input_lib_destroy rounds two_devices ≡ some t)
    × IsBalanced t
    × IsJoined t
Session-input_lib_destroy_example =
    Session-input_lib_destroy kernel two_devices two_devices-Session kernel-IsAllocator
      two_devices_once

receive_all-delivers_example :
    (queued (receive_all kernel (waiting (pos 13)) two_devices)
      ≡ queued two_devices ++ leading (waiting (pos 13)))
    × (heard (receive_all kernel (waiting (pos 13)) two_devices).trace
        ≡ heard two_devices.trace ++ told two_devices.worker_callback (leading (waiting (pos 13))))
unfolding input_lib_add_device input_lib_start_reading input_lib_set_worker_callback ring_init
receive_all-delivers_example =
    receive_all-delivers kernel (waiting (pos 13)) two_devices
      (ring_init-IsValid buffer_size blank_timed (omega arith)) (omega arith)
