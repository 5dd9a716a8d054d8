-- ===== src/Apps/Sample.antt =====
-- A concrete system for the examples on the programs: calls that succeed.
use asyncinput.Prelude.{true, some}
use asyncinput.Prelude.Int.{pos}
use asyncinput.Apps.Uinput.{AppEnv}

abbrev pub desktop : AppEnv
desktop = record {
  codes = record { ev_syn = 0; ev_key = 1; ev_msc = 4; syn_report = 0; msc_scan = 4; key_a = 30 };
  bus_usb = 3;
  open_uinput = λ t. pos 90;
  pthread_create = λ t. some 5;
  sdl_init = λ t. true;
  create_window = λ t. true;
  calloc = λ t. some 64;
}
