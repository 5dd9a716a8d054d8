-- ===== src/Apps/Mouse.antt =====
-- examples/mouse_demo.c and examples/hotplug_mouse_wait.c: sums of the movements and a mask of the
-- buttons. Each atomic operation is a step of its own in Apps/Mask; here a callback runs whole.
use asyncinput.Prelude.{
  ℕ, ◌+◌, ◌%◌, ◌^◌, ◌&&◌, ◌||◌, List, [], ◌∷◌, Option, none, some, if◌then◌else◌,
}
use asyncinput.Prelude.Int.{ℤ, eqb_ℤ, nonzero}
use asyncinput.Event.{Codes, NiEvent, ni_is_rel_event, ni_is_key_event, ni_is_mouse_button_code}
use asyncinput.Posix.Keys.{to_uint32}
use asyncinput.Apps.Mask.{new_mask}

-- The atomics. An `int` is its residue modulo 2^32, for an atomic addition wraps round.
pub record Motion : Type 0 where
  pub g_dx : ℕ
  pub g_dy : ℕ
  pub g_wheel : ℕ
  pub g_btnmask : ℕ

abbrev pub at_start : Motion
at_start = record { g_dx = 0; g_dy = 0; g_wheel = 0; g_btnmask = 0 }

-- `atomic_fetch_add`
abbrev pub fetch_add : ℕ → ℤ → ℕ
fetch_add g v = (g + to_uint32 v) % 2 ^ 32

-- the mask after the loop, if the code has a bit
abbrev pub press : Option ℕ → ℤ → ℕ → ℕ
press none value m = m
press (some b) value m = new_mask (record { bit = b; down = nonzero value }) m

pub data Axis : Type 0 where
  along_x along_y along_wheel : Axis

abbrev pub counter : Axis → Motion → ℕ
counter along_x s = s.g_dx
counter along_y s = s.g_dy
counter along_wheel s = s.g_wheel

-- `atomic_exchange(&g_dx, 0)` and the like
unfoldable pub exchange_zero : Axis → Motion → Motion
exchange_zero along_x s = record s { g_dx = 0 }
exchange_zero along_y s = record s { g_dy = 0 }
exchange_zero along_wheel s = record s { g_wheel = 0 }

-- what `printf` shows
pub data Shown : Type 0 where
  moved_by : Axis → ℕ → Shown
  buttons : ℕ → Shown

-- `rel_hwheel` is NI_REL_HWHEEL.
module _ (c : Codes) (rel_hwheel : ℤ) where
  -- The place of the bit that `bit_for_code` gives; it gives 0 for `none`.
  unfoldable pub bit_for_code : ℤ → Option ℕ
  bit_for_code code =
      if eqb_ℤ code c.btn_left
      then some 0
      else if eqb_ℤ code c.btn_right
      then some 1
      else if eqb_ℤ code c.btn_middle
      then some 2
      else if eqb_ℤ code c.btn_side
      then some 3
      else if eqb_ℤ code c.btn_extra
      then some 4
      else none

  -- `on_input` of mouse_demo.c
  unfoldable pub mouse_on_input : NiEvent → Motion → Motion
  unfolding bit_for_code
  mouse_on_input ev s =
      if ni_is_rel_event c (some ev)
      then (if eqb_ℤ ev.code c.rel_x
          then record s { g_dx = fetch_add s.g_dx ev.value }
          else if eqb_ℤ ev.code c.rel_y
          then record s { g_dy = fetch_add s.g_dy ev.value }
          else if eqb_ℤ ev.code c.rel_wheel || eqb_ℤ ev.code rel_hwheel
          then record s { g_wheel = fetch_add s.g_wheel ev.value }
          else s)
      else if ni_is_key_event c (some ev) && ni_is_mouse_button_code c ev.code
      then record s { g_btnmask = press (bit_for_code ev.code) ev.value s.g_btnmask }
      else s

  -- `on_ev` of hotplug_mouse_wait.c; `g_buttons` is `g_btnmask` here, and there is no wheel.
  unfoldable pub hotplug_on_ev : NiEvent → Motion → Motion
  unfolding bit_for_code
  hotplug_on_ev ev s =
      if eqb_ℤ ev.type c.ev_rel
      then (let s' =
            if eqb_ℤ ev.code c.rel_x then record s { g_dx = fetch_add s.g_dx ev.value } else s in
          if eqb_ℤ ev.code c.rel_y then record s' { g_dy = fetch_add s'.g_dy ev.value } else s')
      else if eqb_ℤ ev.type c.ev_key && ni_is_mouse_button_code c ev.code
      then record s { g_btnmask = press (bit_for_code ev.code) ev.value s.g_btnmask }
      else s

  -- the callbacks for a list of events
  unfoldable pub mouse_on_all : List NiEvent → Motion → Motion
  mouse_on_all [] s = s
  mouse_on_all (ev ∷ evs) s = mouse_on_all evs (mouse_on_input ev s)

  -- What runs: the callback, or one atomic operation of the round of `main` that prints.
  pub data Turn : Type 0 where
    input : NiEvent → Turn
    take : Axis → Turn
    look : Turn

  unfoldable pub turns : List Turn → Motion → List Shown × Motion
  unfolding mouse_on_input exchange_zero
  turns [] s = ([], s)
  turns (input ev ∷ ts) s = turns ts (mouse_on_input ev s)
  turns (take a ∷ ts) s =
      let (printed, end) = turns ts (exchange_zero a s) in (moved_by a (counter a s) ∷ printed, end)
  turns (look ∷ ts) s = let (printed, end) = turns ts s in (buttons s.g_btnmask ∷ printed, end)
