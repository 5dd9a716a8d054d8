-- ===== src/Posix/Devices/Tests.antt =====
-- The theorems on the device table of src/libasyncinput_posix.c at concrete inputs.
use asyncinput.Prelude.{
  ap, sym, ◌∙◌, get_or, zero, ℕ, suc, ◌+◌, ◌<◌, ◌≡◌, ◌≢◌, refl, [], true, false, some, arith,
}
use asyncinput.Prelude.Int.{pos_part, is_neg, pos, minus_one}
use asyncinput.Posix.{Env, G, blank_device, zeroed, context, keymap, state, RuleNames, slot}
use asyncinput.Posix.Sample.{outside, booted, booted-IsSound}
use asyncinput.Posix.Paths.{deduced_id, event_path, codes}
use asyncinput.Posix.Devices.{
  node_path, scan_devices, remove_device_by_id, add_device_fd, node_created, has_device_id, live,
  open_device_filtered,
}
use asyncinput.Posix.Devices.Hotplug.{
  remove-add-misroutes, node_created-duplicates, filter_by_id_refuses,
}
use asyncinput.Posix.Devices.Ids.{has_id}
use asyncinput.Prelude.Tally.{tally}
use asyncinput.Posix.Devices.Epoll.{target, fd_at}
use asyncinput.Posix.Api.{
  ni_init, ni_shutdown, ni_set_device_filter, ni_enable_mice, ni_poll, ni_poll_key_events,
  ni_register_callback, ni_register_key_callback,
}

booted_facts :
    (booted.ndevi ≡ 2)
    × (has_device_id (pos 3) booted ≡ true)
    × ((get_or booted.devices 1 blank_device).id ≡ pos 4)
    × (fd_at booted 0 ≡ pos 1005)
    × (fd_at booted 1 ≡ pos 2011)
    × (target booted.trace (pos 2011) ≡ some (slot 1))
    × (is_neg (open_device_filtered outside (node_path (codes "event3")) minus_one booted).0
        ≡ false)
unfolding ni_init zeroed asyncinput.Posix.Api.start asyncinput.Posix.Api.start_threads
    asyncinput.Posix.Api.default_names asyncinput.Posix.Api.scanned scan_devices
    asyncinput.Posix.Api.start_inotify asyncinput.Posix.Api.fresh deduced_id event_path
    has_device_id open_device_filtered
booted_facts = (refl, refl, refl, refl, refl, refl, refl)

-- The device 3 goes and the device 5 comes: input of the device 4 is then read from the device 5.
booted_apart : (j : ℕ) → j < 1 → fd_at booted j ≢ fd_at booted 1
booted_apart zero h e =
    absurd (omega (arith, ap pos_part (sym booted_facts.3 ∙ e ∙ booted_facts.4)))
booted_apart (suc j) h e = absurd (omega arith)

remove-add-misroutes_example :
    let s = add_device_fd (pos 90) (pos 5) [] (remove_device_by_id (pos 3) booted) in
    (target s.trace (fd_at booted 1) ≡ some (slot 1))
    × (fd_at s 1 ≡ pos 90)
    × ((i : ℕ) × (i < 1) × (fd_at s i ≡ fd_at booted 1))
remove-add-misroutes_example =
    remove-add-misroutes booted 1 (pos 3) (pos 90) (pos 5) [] booted-IsSound.0.table booted_facts.0
      booted_facts.1 (λ e. absurd (omega (arith, ap pos_part (sym booted_facts.2 ∙ e))))
      booted_apart (λ e. absurd (omega (arith, ap pos_part (e ∙ booted_facts.4))))
      (ap (target booted.trace) booted_facts.4 ∙ booted_facts.5)

-- inotify reports event3 although the scan has it.
node_created-duplicates_example :
    let s = node_created outside (codes "event3") booted in
    (tally (has_id (pos 3)) (live s) ≡ tally (has_id (pos 3)) (live booted) + 1)
    × (has_device_id (pos 3) (remove_device_by_id (pos 3) s) ≡ true)
unfolding deduced_id
node_created-duplicates_example =
    node_created-duplicates outside (codes "event3") booted booted-IsSound.0.table
      (omega (arith, booted_facts.0)) booted_facts.6 booted_facts.1

filter_by_id_refuses_example :
    let out =
      open_device_filtered outside (event_path 4) minus_one (record booted { filter = some 5 }) in
    (out.0 ≡ minus_one) × (out.1 ≡ minus_one)
filter_by_id_refuses_example =
    filter_by_id_refuses outside (event_path 4) minus_one (pos 4) 5
      (record booted { filter = some 5 }) refl (λ t user info. refl)
      (λ h. absurd (omega (arith, ap pos_part h)))
