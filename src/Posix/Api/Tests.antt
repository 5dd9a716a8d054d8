-- ===== src/Posix/Api/Tests.antt =====
-- The theorems on the exported functions of src/libasyncinput_posix.c at concrete inputs.
use asyncinput.Prelude.{◌≡◌, refl, true, false, none, some, arith}
use asyncinput.Prelude.Int.{pos, minus_one}
use asyncinput.Posix.{inotify}
use asyncinput.Posix.Sample.{
  outside, plain, outside-IsFresh, idle, booted, booted_lem, idle-IsClosed, idle-off,
  booted-IsSound,
}
use asyncinput.Posix.Paths.{deduced_id, event_path, codes, deduced_id-event_path}
use asyncinput.Posix.Devices.Scan.{IsSound}
use asyncinput.Posix.Devices.Epoll.{IsCoherent, target}
use asyncinput.Posix.Api.{ni_init, ni_shutdown, ni_set_device_filter}
use asyncinput.Posix.Api.Init.{ni_init-forgets}
use asyncinput.Posix.Api.Lifecycle.{ni_init-IsSound, ni_set_device_filter-IsSound}
use asyncinput.Posix.Api.Guards.{ni_init-without_xkb}

ni_init-IsSound_example : IsSound booted × IsCoherent booted
ni_init-IsSound_example =
    ni_init-IsSound outside (pos 0) idle booted outside-IsFresh idle-IsClosed idle-off booted_lem

ni_set_device_filter-IsSound_example :
    ((ni_set_device_filter outside (some 5) 0 booted).0 ≡ pos 0)
    × IsSound (ni_set_device_filter outside (some 5) 0 booted).1
ni_set_device_filter-IsSound_example =
    ni_set_device_filter-IsSound outside (some 5) 0 booted booted-IsSound

ni_init-forgets_example :
    (booted.initialized ≡ true)
    × (booted.filter ≡ none)
    × (booted.cb ≡ none)
    × (booted.key_cb ≡ none)
    × (booted.mice_enabled ≡ false)
    × (booted.mice_thread ≡ none)
    × (booted.xkb_enabled ≡ false)
    × (booted.xkb_layout ≡ codes "us")
ni_init-forgets_example = ni_init-forgets outside (pos 0) idle booted idle-off booted_lem

ni_init-without_xkb_example :
    ((ni_init plain (pos 0) idle).0 ≡ minus_one)
    × ((ni_init plain (pos 0) idle).1.initialized ≡ false)
ni_init-without_xkb_example = ni_init-without_xkb plain (pos 0) idle refl idle-off

deduced_id-event_path_example : deduced_id (event_path 104) ≡ pos 104
deduced_id-event_path_example = deduced_id-event_path 104 (omega arith)

-- After `ni_shutdown` the number of the inotify descriptor is registered no more, so `open` may return it.
inotify_given_back :
    (target booted.trace (pos 1001) ≡ some inotify)
    × (target (ni_shutdown booted).1.trace (pos 1001) ≡ none)
unfolding ni_init asyncinput.Posix.zeroed asyncinput.Posix.Api.start
    asyncinput.Posix.Api.start_threads asyncinput.Posix.Api.default_names
    asyncinput.Posix.Api.scanned asyncinput.Posix.Api.start_inotify asyncinput.Posix.Api.fresh
    asyncinput.Posix.Paths.deduced_id asyncinput.Posix.Paths.event_path
    asyncinput.Posix.Devices.scan_devices ni_shutdown asyncinput.Posix.Api.shut_down
inotify_given_back = (refl, refl)
