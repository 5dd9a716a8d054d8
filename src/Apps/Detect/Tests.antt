-- ===== src/Apps/Detect/Tests.antt =====
-- The theorem on the device filter of examples/hotplug_mouse_wait.c at a concrete input.
use asyncinput.Prelude.{ℕ, zero, suc, ◌≡◌, refl, List, [], ◌∷◌, some, true, replicate}
use asyncinput.Prelude.Int.{pos}
use asyncinput.Event.{NiDeviceInfo}
use asyncinput.Posix.Paths.{codes}
use asyncinput.Apps.Bits.{bit_at}
use asyncinput.Apps.Detect.{DetectEnv, is_mouse_like, node_opened}
use asyncinput.Apps.Detect.Answer.{IsFilled, is_mouse_like-answers, IsNodeFree, one, says_mouse}

-- A mouse: EV_REL with X and Y, and the left button, 0x110, which is bit 16 of the fifth word.
abbrev answer : ℕ → List ℕ
answer zero = 4 ∷ replicate 7 0
answer (suc (suc zero)) = 3 ∷ replicate 7 0
answer _ = 0 ∷ 0 ∷ 0 ∷ 0 ∷ 65536 ∷ replicate 59 0

abbrev plugged : DetectEnv
plugged = record {
  open_node = λ t path. pos 7;
  bits = λ t fd ev. answer ev;
  ev_key = 1;
  ev_rel = 2;
  rel_x = 0;
  rel_y = 1;
  btn_left = 0x110;
  btn_right = 0x111;
  btn_middle = 0x112;
  btn_side = 0x113;
  btn_extra = 0x114;
}

abbrev mouse : NiDeviceInfo
mouse = record {
  id = pos 3;
  path = codes "/dev/input/event3";
  bustype = 3;
  vendor = 1;
  product = 2;
  version = 1;
  name = codes "mouse";
}

plugged-IsFilled : IsFilled plugged
plugged-IsFilled = record { types = λ t fd. refl; relatives = λ t fd. refl; keys = λ t fd. refl }

is_mouse_like-answers_example :
    ((is_mouse_like plugged (some mouse) []).0
      ≡ some (one (says_mouse plugged (pos 7) (node_opened (pos 7) ∷ []))))
    × IsNodeFree (is_mouse_like plugged (some mouse) []).1
is_mouse_like-answers_example = is_mouse_like-answers plugged mouse [] plugged-IsFilled (λ x. refl)

-- The kernel says yes.
plugged_mouse : says_mouse plugged (pos 7) (node_opened (pos 7) ∷ []) ≡ true
unfolding bit_at
plugged_mouse = refl
