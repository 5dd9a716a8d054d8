-- ===== src/Event/Scancodes.antt =====
-- The key codes that include/asyncinput.h takes from SDL when it is built for the SDL backend, beside those of
-- its portable fallback.
use Prim.Native.String.{String}
use asyncinput.Prelude.{
  ℕ, ◌<◌, ◌≡◌, ap₂, refl, ltb, List, [], ◌∷◌, Bool, true, false, ◌&&◌, ◌==◌, arith, length, get_or,
  all_below, all_below_sound,
}
use asyncinput.Posix.Paths.{codes}
use asyncinput.Event.Keys.{no_key, fallback_keys}

-- a macro: its name behind NI_KEY_, and the scancode behind SDL_SCANCODE_
pub record KeyAlias : Type 0 where
  pub name : String
  pub scancode : String

abbrev pub sdl_keys : List KeyAlias
sdl_keys =
    record { name = "A"; scancode = "A" }
    ∷ record { name = "B"; scancode = "B" }
    ∷ record { name = "C"; scancode = "C" }
    ∷ record { name = "D"; scancode = "D" }
    ∷ record { name = "E"; scancode = "E" }
    ∷ record { name = "F"; scancode = "F" }
    ∷ record { name = "G"; scancode = "G" }
    ∷ record { name = "H"; scancode = "H" }
    ∷ record { name = "I"; scancode = "I" }
    ∷ record { name = "J"; scancode = "J" }
    ∷ record { name = "K"; scancode = "K" }
    ∷ record { name = "L"; scancode = "L" }
    ∷ record { name = "M"; scancode = "M" }
    ∷ record { name = "N"; scancode = "N" }
    ∷ record { name = "O"; scancode = "O" }
    ∷ record { name = "P"; scancode = "P" }
    ∷ record { name = "Q"; scancode = "Q" }
    ∷ record { name = "R"; scancode = "R" }
    ∷ record { name = "S"; scancode = "S" }
    ∷ record { name = "T"; scancode = "T" }
    ∷ record { name = "U"; scancode = "U" }
    ∷ record { name = "V"; scancode = "V" }
    ∷ record { name = "W"; scancode = "W" }
    ∷ record { name = "X"; scancode = "X" }
    ∷ record { name = "Y"; scancode = "Y" }
    ∷ record { name = "Z"; scancode = "Z" }
    ∷ record { name = "1"; scancode = "1" }
    ∷ record { name = "2"; scancode = "2" }
    ∷ record { name = "3"; scancode = "3" }
    ∷ record { name = "4"; scancode = "4" }
    ∷ record { name = "5"; scancode = "5" }
    ∷ record { name = "6"; scancode = "6" }
    ∷ record { name = "7"; scancode = "7" }
    ∷ record { name = "8"; scancode = "8" }
    ∷ record { name = "9"; scancode = "9" }
    ∷ record { name = "0"; scancode = "0" }
    ∷ record { name = "F1"; scancode = "F1" }
    ∷ record { name = "F2"; scancode = "F2" }
    ∷ record { name = "F3"; scancode = "F3" }
    ∷ record { name = "F4"; scancode = "F4" }
    ∷ record { name = "F5"; scancode = "F5" }
    ∷ record { name = "F6"; scancode = "F6" }
    ∷ record { name = "F7"; scancode = "F7" }
    ∷ record { name = "F8"; scancode = "F8" }
    ∷ record { name = "F9"; scancode = "F9" }
    ∷ record { name = "F10"; scancode = "F10" }
    ∷ record { name = "F11"; scancode = "F11" }
    ∷ record { name = "F12"; scancode = "F12" }
    ∷ record { name = "F13"; scancode = "F13" }
    ∷ record { name = "F14"; scancode = "F14" }
    ∷ record { name = "F15"; scancode = "F15" }
    ∷ record { name = "F16"; scancode = "F16" }
    ∷ record { name = "F17"; scancode = "F17" }
    ∷ record { name = "F18"; scancode = "F18" }
    ∷ record { name = "F19"; scancode = "F19" }
    ∷ record { name = "F20"; scancode = "F20" }
    ∷ record { name = "F21"; scancode = "F21" }
    ∷ record { name = "F22"; scancode = "F22" }
    ∷ record { name = "F23"; scancode = "F23" }
    ∷ record { name = "F24"; scancode = "F24" }
    ∷ record { name = "LEFTCTRL"; scancode = "LCTRL" }
    ∷ record { name = "RIGHTCTRL"; scancode = "RCTRL" }
    ∷ record { name = "LEFTSHIFT"; scancode = "LSHIFT" }
    ∷ record { name = "RIGHTSHIFT"; scancode = "RSHIFT" }
    ∷ record { name = "LEFTALT"; scancode = "LALT" }
    ∷ record { name = "RIGHTALT"; scancode = "RALT" }
    ∷ record { name = "LEFTMETA"; scancode = "LGUI" }
    ∷ record { name = "RIGHTMETA"; scancode = "RGUI" }
    ∷ record { name = "UP"; scancode = "UP" }
    ∷ record { name = "DOWN"; scancode = "DOWN" }
    ∷ record { name = "LEFT"; scancode = "LEFT" }
    ∷ record { name = "RIGHT"; scancode = "RIGHT" }
    ∷ record { name = "HOME"; scancode = "HOME" }
    ∷ record { name = "END"; scancode = "END" }
    ∷ record { name = "PAGEUP"; scancode = "PAGEUP" }
    ∷ record { name = "PAGEDOWN"; scancode = "PAGEDOWN" }
    ∷ record { name = "INSERT"; scancode = "INSERT" }
    ∷ record { name = "DELETE"; scancode = "DELETE" }
    ∷ record { name = "ESC"; scancode = "ESCAPE" }
    ∷ record { name = "TAB"; scancode = "TAB" }
    ∷ record { name = "BACKSPACE"; scancode = "BACKSPACE" }
    ∷ record { name = "ENTER"; scancode = "RETURN" }
    ∷ record { name = "SPACE"; scancode = "SPACE" }
    ∷ record { name = "CAPSLOCK"; scancode = "CAPSLOCK" }
    ∷ record { name = "NUMLOCK"; scancode = "NUMLOCKCLEAR" }
    ∷ record { name = "SCROLLLOCK"; scancode = "SCROLLLOCK" }
    ∷ record { name = "PRINT"; scancode = "PRINTSCREEN" }
    ∷ record { name = "PAUSE"; scancode = "PAUSE" }
    ∷ record { name = "MENU"; scancode = "APPLICATION" }
    ∷ record { name = "MINUS"; scancode = "MINUS" }
    ∷ record { name = "EQUAL"; scancode = "EQUALS" }
    ∷ record { name = "LEFTBRACE"; scancode = "LEFTBRACKET" }
    ∷ record { name = "RIGHTBRACE"; scancode = "RIGHTBRACKET" }
    ∷ record { name = "BACKSLASH"; scancode = "BACKSLASH" }
    ∷ record { name = "SEMICOLON"; scancode = "SEMICOLON" }
    ∷ record { name = "APOSTROPHE"; scancode = "APOSTROPHE" }
    ∷ record { name = "GRAVE"; scancode = "GRAVE" }
    ∷ record { name = "COMMA"; scancode = "COMMA" }
    ∷ record { name = "DOT"; scancode = "PERIOD" }
    ∷ record { name = "SLASH"; scancode = "SLASH" }
    ∷ record { name = "KP0"; scancode = "KP_0" }
    ∷ record { name = "KP1"; scancode = "KP_1" }
    ∷ record { name = "KP2"; scancode = "KP_2" }
    ∷ record { name = "KP3"; scancode = "KP_3" }
    ∷ record { name = "KP4"; scancode = "KP_4" }
    ∷ record { name = "KP5"; scancode = "KP_5" }
    ∷ record { name = "KP6"; scancode = "KP_6" }
    ∷ record { name = "KP7"; scancode = "KP_7" }
    ∷ record { name = "KP8"; scancode = "KP_8" }
    ∷ record { name = "KP9"; scancode = "KP_9" }
    ∷ record { name = "KPENTER"; scancode = "KP_ENTER" }
    ∷ record { name = "KPPLUS"; scancode = "KP_PLUS" }
    ∷ record { name = "KPMINUS"; scancode = "KP_MINUS" }
    ∷ record { name = "KPASTERISK"; scancode = "KP_MULTIPLY" }
    ∷ record { name = "KPSLASH"; scancode = "KP_DIVIDE" }
    ∷ record { name = "KPDOT"; scancode = "KP_DECIMAL" }
    ∷ record { name = "KPEQUAL"; scancode = "KP_EQUALS" }
    ∷ []

abbrev pub no_alias : KeyAlias
no_alias = record { name = ""; scancode = "" }

-- the place in the table of SDL's keys of key number `i` of the fallback
abbrev places : List ℕ
places =
    0 ∷ 1 ∷ 2 ∷ 3 ∷ 4 ∷ 5 ∷ 6 ∷ 7 ∷ 8 ∷ 9 ∷ 10 ∷ 11 ∷ 12 ∷ 13 ∷ 14 ∷ 15 ∷ 16 ∷ 17 ∷ 18 ∷ 19 ∷ 20
    ∷ 21 ∷ 22 ∷ 23 ∷ 24 ∷ 25 ∷ 26 ∷ 27 ∷ 28 ∷ 29 ∷ 30 ∷ 31 ∷ 32 ∷ 33 ∷ 34 ∷ 35 ∷ 78 ∷ 79 ∷ 80 ∷ 81
    ∷ 82 ∷ 60 ∷ 61 ∷ 64 ∷ 65 ∷ 62 ∷ 63 ∷ 36 ∷ 37 ∷ 38 ∷ 39 ∷ 40 ∷ 41 ∷ 42 ∷ 43 ∷ 44 ∷ 45 ∷ 46 ∷ 47
    ∷ 68 ∷ 69 ∷ 70 ∷ 71 ∷ 77 ∷ 76 ∷ 72 ∷ 73 ∷ 74 ∷ 75 ∷ 89 ∷ 90 ∷ 91 ∷ 92 ∷ 93 ∷ 94 ∷ 95 ∷ 96 ∷ 97
    ∷ 98 ∷ 99 ∷ 84 ∷ 85 ∷ 86 ∷ 87 ∷ 88 ∷ 100 ∷ 101 ∷ 102 ∷ 103 ∷ 104 ∷ 105 ∷ 106 ∷ 107 ∷ 108 ∷ 109
    ∷ 110 ∷ 111 ∷ 112 ∷ 113 ∷ 114 ∷ 115 ∷ 116 ∷ []

abbrev same_codes : List ℕ → List ℕ → Bool
same_codes [] [] = true
same_codes [] (b ∷ bs) = false
same_codes (a ∷ xs) [] = false
same_codes (a ∷ xs) (b ∷ bs) = a == b && same_codes xs bs

same_codes-eq : (xs ys : List ℕ) → same_codes xs ys ≡ true → xs ≡ ys
same_codes-eq [] [] h = refl
same_codes-eq [] (b ∷ bs) h = absurd (cc h)
same_codes-eq (a ∷ xs) [] h = absurd (cc h)
same_codes-eq (a ∷ xs) (b ∷ bs) h =
    ap₂ (λ (n : ℕ) (ns : List ℕ). n ∷ ns) (ground (arith, h))
      (same_codes-eq xs bs (ground (arith, h)))

split : (a b : Bool) → (a && b) ≡ true → (a ≡ true) × (b ≡ true)
split a b h = ground arith

abbrev place : ℕ → ℕ
place i = get_or places i 0

abbrev alias_name : ℕ → List ℕ
alias_name j = codes (get_or sdl_keys j no_alias).name

abbrev key_name : ℕ → List ℕ
key_name i = codes (get_or fallback_keys i no_key).name

found :
    all_below 102 (λ i. ltb (place i) 117 && same_codes (alias_name (place i)) (key_name i)) ≡ true
unfolding all_below
found = refl

-- Every key code that the portable fallback names has a name of SDL's in the SDL backend, so that a program
-- that uses it builds with both.
sdl_keys-cover :
    (i : ℕ)
    → i < length fallback_keys
    → (j : ℕ) × (j < length sdl_keys) × (alias_name j ≡ key_name i)
sdl_keys-cover i lt =
    let both_hold = all_below_sound 102 _ i found lt in
    let (low, same) =
      split (ltb (place i) 117) (same_codes (alias_name (place i)) (key_name i)) both_hold in
    (place i, ground (arith, low), same_codes-eq (alias_name (place i)) (key_name i) same)
