-- ===== src/Event/Keys.antt =====
-- The key codes that include/asyncinput.h gives itself where neither the kernel's header nor SDL has them:
-- the "minimal portable fallback", which the Windows backend uses.
use Prim.Native.String.{String}
use asyncinput.Prelude.{
  ℕ, ◌<◌, ◌≡◌, refl, sym, Bool, true, false, not, ◌||◌, List, [], ◌∷◌, arith, length, get_or, ◌==◌,
  all_below, all_below_sound,
}
use asyncinput.Prelude.Int.{pos}
use asyncinput.Event.{portable_codes, ni_is_mouse_button_code}

-- a macro: its name behind NI_KEY_, and its value
pub record KeyCode : Type 0 where
  pub name : String
  pub value : ℕ

abbrev pub no_key : KeyCode
no_key = record { name = ""; value = 0 }

abbrev pub fallback_keys : List KeyCode
fallback_keys =
    record { name = "A"; value = 0x1E }
    ∷ record { name = "B"; value = 0x30 }
    ∷ record { name = "C"; value = 0x2E }
    ∷ record { name = "D"; value = 0x20 }
    ∷ record { name = "E"; value = 0x12 }
    ∷ record { name = "F"; value = 0x21 }
    ∷ record { name = "G"; value = 0x22 }
    ∷ record { name = "H"; value = 0x23 }
    ∷ record { name = "I"; value = 0x17 }
    ∷ record { name = "J"; value = 0x24 }
    ∷ record { name = "K"; value = 0x25 }
    ∷ record { name = "L"; value = 0x26 }
    ∷ record { name = "M"; value = 0x32 }
    ∷ record { name = "N"; value = 0x31 }
    ∷ record { name = "O"; value = 0x18 }
    ∷ record { name = "P"; value = 0x19 }
    ∷ record { name = "Q"; value = 0x10 }
    ∷ record { name = "R"; value = 0x13 }
    ∷ record { name = "S"; value = 0x1F }
    ∷ record { name = "T"; value = 0x14 }
    ∷ record { name = "U"; value = 0x16 }
    ∷ record { name = "V"; value = 0x2F }
    ∷ record { name = "W"; value = 0x11 }
    ∷ record { name = "X"; value = 0x2D }
    ∷ record { name = "Y"; value = 0x15 }
    ∷ record { name = "Z"; value = 0x2C }
    ∷ record { name = "1"; value = 0x02 }
    ∷ record { name = "2"; value = 0x03 }
    ∷ record { name = "3"; value = 0x04 }
    ∷ record { name = "4"; value = 0x05 }
    ∷ record { name = "5"; value = 0x06 }
    ∷ record { name = "6"; value = 0x07 }
    ∷ record { name = "7"; value = 0x08 }
    ∷ record { name = "8"; value = 0x09 }
    ∷ record { name = "9"; value = 0x0A }
    ∷ record { name = "0"; value = 0x0B }
    ∷ record { name = "ESC"; value = 0x01 }
    ∷ record { name = "TAB"; value = 0x0F }
    ∷ record { name = "BACKSPACE"; value = 0x0E }
    ∷ record { name = "ENTER"; value = 0x1C }
    ∷ record { name = "SPACE"; value = 0x39 }
    ∷ record { name = "LEFTCTRL"; value = 0x1D }
    ∷ record { name = "RIGHTCTRL"; value = 0x11D }
    ∷ record { name = "LEFTALT"; value = 0x38 }
    ∷ record { name = "RIGHTALT"; value = 0x138 }
    ∷ record { name = "LEFTSHIFT"; value = 0x2A }
    ∷ record { name = "RIGHTSHIFT"; value = 0x36 }
    ∷ record { name = "F1"; value = 0x3B }
    ∷ record { name = "F2"; value = 0x3C }
    ∷ record { name = "F3"; value = 0x3D }
    ∷ record { name = "F4"; value = 0x3E }
    ∷ record { name = "F5"; value = 0x3F }
    ∷ record { name = "F6"; value = 0x40 }
    ∷ record { name = "F7"; value = 0x41 }
    ∷ record { name = "F8"; value = 0x42 }
    ∷ record { name = "F9"; value = 0x43 }
    ∷ record { name = "F10"; value = 0x44 }
    ∷ record { name = "F11"; value = 0x57 }
    ∷ record { name = "F12"; value = 0x58 }
    ∷ record { name = "UP"; value = 0xC8 }
    ∷ record { name = "DOWN"; value = 0xD0 }
    ∷ record { name = "LEFT"; value = 0xCB }
    ∷ record { name = "RIGHT"; value = 0xCD }
    ∷ record { name = "DELETE"; value = 0xD3 }
    ∷ record { name = "INSERT"; value = 0xD2 }
    ∷ record { name = "HOME"; value = 0xC7 }
    ∷ record { name = "END"; value = 0xCF }
    ∷ record { name = "PAGEUP"; value = 0xC9 }
    ∷ record { name = "PAGEDOWN"; value = 0xD1 }
    ∷ record { name = "MINUS"; value = 0x0C }
    ∷ record { name = "EQUAL"; value = 0x0D }
    ∷ record { name = "LEFTBRACE"; value = 0x1A }
    ∷ record { name = "RIGHTBRACE"; value = 0x1B }
    ∷ record { name = "BACKSLASH"; value = 0x2B }
    ∷ record { name = "SEMICOLON"; value = 0x27 }
    ∷ record { name = "APOSTROPHE"; value = 0x28 }
    ∷ record { name = "GRAVE"; value = 0x29 }
    ∷ record { name = "COMMA"; value = 0x33 }
    ∷ record { name = "DOT"; value = 0x34 }
    ∷ record { name = "SLASH"; value = 0x35 }
    ∷ record { name = "NUMLOCK"; value = 0x45 }
    ∷ record { name = "SCROLLLOCK"; value = 0x46 }
    ∷ record { name = "PRINT"; value = 0x137 }
    ∷ record { name = "PAUSE"; value = 0x146 }
    ∷ record { name = "MENU"; value = 0x15D }
    ∷ record { name = "KP0"; value = 0x52 }
    ∷ record { name = "KP1"; value = 0x4F }
    ∷ record { name = "KP2"; value = 0x50 }
    ∷ record { name = "KP3"; value = 0x51 }
    ∷ record { name = "KP4"; value = 0x4B }
    ∷ record { name = "KP5"; value = 0x4C }
    ∷ record { name = "KP6"; value = 0x4D }
    ∷ record { name = "KP7"; value = 0x47 }
    ∷ record { name = "KP8"; value = 0x48 }
    ∷ record { name = "KP9"; value = 0x49 }
    ∷ record { name = "KPENTER"; value = 0x11C }
    ∷ record { name = "KPPLUS"; value = 0x4E }
    ∷ record { name = "KPMINUS"; value = 0x4A }
    ∷ record { name = "KPASTERISK"; value = 0x37 }
    ∷ record { name = "KPSLASH"; value = 0x135 }
    ∷ record { name = "KPDOT"; value = 0x53 }
    ∷ record { name = "KPEQUAL"; value = 0x136 }
    ∷ []

-- the value of the macro number `i`
abbrev pub value_at : ℕ → ℕ
value_at i = (get_or fallback_keys i no_key).value

apart_eq : (a b i j : ℕ) → (not (a == b) || (i == j)) ≡ true → a ≡ b → i ≡ j
apart_eq a b i j h same = ground arith

not-true : (b : Bool) → not b ≡ true → b ≡ false
not-true true h = sym h
not-true false h = refl

abbrev apart : ℕ → ℕ → Bool
apart i j = not (value_at i == value_at j) || (i == j)

pairs_apart : all_below 102 (λ i. all_below 102 (λ j. apart i j)) ≡ true
unfolding all_below
pairs_apart = refl

no_buttons :
    all_below 102 (λ i. not (ni_is_mouse_button_code portable_codes (pos (value_at i)))) ≡ true
unfolding all_below ni_is_mouse_button_code
no_buttons = refl

-- Two keys of the fallback table that have the same value are the same entry, and no value of the table
-- is that of a mouse button.
fallback_keys-distinct :
    (i j : ℕ)
    → i < length fallback_keys
    → j < length fallback_keys
    → value_at i ≡ value_at j
    → (i ≡ j) × (ni_is_mouse_button_code portable_codes (pos (value_at i)) ≡ false)
fallback_keys-distinct i j p q same = (
  apart_eq (value_at i) (value_at j) i j
      (all_below_sound 102 _ j (all_below_sound 102 _ i pairs_apart p) q) same,
  not-true _ (all_below_sound 102 _ i no_buttons p),
)
