-- ===== src/Posix/Paths.antt =====
-- The device paths of src/libasyncinput_posix.c: `snprintf` of "/dev/input/event%d", and the device
-- id that `open_device_filtered` reads off a path by `strrchr(path, 't')` and `atoi`.
use Prim.Native.Char.{code}
use Prim.Native.String.{String}
use asyncinput.Prelude.{
  all_below, all_below_sound, ℕ, zero, suc, ◌+◌, ◌-◌, ◌*◌, ◌/◌, ◌%◌, ◌≡◌, refl, ◌<◌, Bool, true,
  false, ◌&&◌, ◌||◌, List, [], ◌∷◌, ◌++◌, Option, none, some, leb, ◌==◌, if◌then◌else◌,
}
use asyncinput.Prelude.Int.{ℤ, pos, neg, eqb_ℤ, eqb_ℤ→eq, is_neg, minus_one}

-- the bytes of an ASCII text
abbrev pub codes : String → List ℕ
codes String.[] = []
codes (String.◌∷◌ c s) = code c ∷ codes s

-- "%d" of a number that is not negative, with as many digits at most as the fuel says
decimal_digits : ℕ → ℕ → List ℕ → List ℕ
decimal_digits zero n rest = rest
decimal_digits (suc f) n rest =
    let more = decimal_digits f (n / 10) ((b'0' + n % 10) ∷ rest) in
    if n / 10 == 0 then (b'0' + n % 10) ∷ rest else more

-- ten digits hold every int
unfoldable pub decimal : ℕ → List ℕ
unfolding decimal_digits
decimal n = decimal_digits 10 n []

abbrev pub event_prefix : List ℕ
event_prefix = codes "/dev/input/event"

-- snprintf(path, sizeof(path), "/dev/input/event%d", i)
unfoldable pub event_path : ℕ → List ℕ
unfolding decimal
event_path i = event_prefix ++ decimal i

-- `strrchr(s, c)`: from the last `c` on, without it
unfoldable pub after_last : ℕ → List ℕ → Option (List ℕ)
after_last c [] = none
after_last c (x ∷ xs) = elim (after_last c xs) [
  | some s ↦ some s
  | none ↦ if x == c then some xs else none
]

is_digit : ℕ → Bool
is_digit c = leb b'0' c && leb c b'9'

-- The value of the digits at the front. No int overflows below ten digits.
digits_value : ℕ → List ℕ → ℕ
unfolding is_digit
digits_value acc [] = acc
digits_value acc (c ∷ cs) = elim (is_digit c) [
  | true ↦ digits_value (acc * 10 + (c - b'0')) cs
  | false ↦ acc
]

signed_value : List ℕ → ℤ
unfolding digits_value
signed_value [] = pos 0
signed_value (c ∷ cs) =
    if c == b'-'
    then neg (pos (digits_value 0 cs))
    else if c == b'+'
    then pos (digits_value 0 cs)
    else pos (digits_value 0 (c ∷ cs))

-- the bytes for which `isspace` holds
is_space : ℕ → Bool
is_space c = c == 32 || (leb 9 c && leb c 13)

unfoldable pub atoi : List ℕ → ℤ
unfolding signed_value is_space
atoi [] = pos 0
atoi (c ∷ cs) = elim (is_space c) [ true ↦ atoi cs | false ↦ signed_value (c ∷ cs) ]

-- `if (n >= 0) devid = n;`
abbrev known_id : ℤ → ℤ
known_id n = if is_neg n then minus_one else n

-- "deduce device id from path /dev/input/eventN"
unfoldable pub deduced_id : List ℕ → ℤ
unfolding after_last atoi
deduced_id path = elim (after_last b't' path) [ some s ↦ known_id (atoi s) | none ↦ minus_one ]

event_ids : all_below 128 (λ i. eqb_ℤ (deduced_id (event_path i)) (pos i)) ≡ true
unfolding all_below deduced_id event_path
event_ids = refl

-- The id that is read off the path of event device `i` is `i`, for every `i` that a scan tries,
-- those below 128.
pub deduced_id-event_path : (i : ℕ) → i < 128 → deduced_id (event_path i) ≡ pos i
deduced_id-event_path i h =
    eqb_ℤ→eq (deduced_id (event_path i)) (pos i) (all_below_sound 128 _ i event_ids h)
