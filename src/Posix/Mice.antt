-- ===== src/Posix/Mice.antt =====
-- `mice_worker` of src/libasyncinput_posix.c: the reader of PS/2 packets from /dev/input/mice.
pub mod Packets
mod Tests
use asyncinput.Prelude.{
  ℕ, ◌+◌, ◌-◌, ◌/◌, ◌%◌, ◌^◌, Bool, true, false, not, ◌||◌, List, [], ◌∷◌, ◌++◌, ltb, leb, ◌==◌,
  if◌then◌else◌, get_or, set,
}
use asyncinput.Prelude.Int.{ℤ, pos, negsuc, neg, is_neg, minus_one, nonzero, of_Bool}
use asyncinput.Event.{Codes, NiEvent, blank_event, ni_ev_mouse, ni_mouse_move, ni_mouse_button}
use asyncinput.Posix.{Env, G, log, emit_or_queue, now_ns, other_opened, other_closed}

-- The locals `pkt` and `have`.
pub record Reader : Type 0 where
  pub pkt : List ℕ
  pub have : ℕ

abbrev pub fresh_reader : Reader
fresh_reader = record { pkt = 0 ∷ 0 ∷ 0 ∷ 0 ∷ []; have = 0 }

-- (signed char)b
abbrev pub signed_char : ℕ → ℤ
signed_char b = if ltb b 128 then pos b else negsuc (255 - b)

-- b & (1 << i)
abbrev pub bit : ℕ → ℕ → Bool
bit b i = (b / 2 ^ i) % 2 == 1

-- `ev` of the loop body: the mice device has the id -2
abbrev pub mice_event : ℤ → ℤ → ℤ → ℤ → NiEvent
mice_event ts type code value = record blank_event {
  device_id = negsuc 1;
  timestamp_ns = ts;
  type = type;
  code = code;
  value = value;
}

-- `mev`, the unified event of a button
abbrev pub button_event : ℤ → ℤ → ℤ → NiEvent
button_event ts extra value = record (mice_event ts ni_ev_mouse ni_mouse_button value) {
  extra = extra;
}

-- `mev`, the unified event of a movement
abbrev pub move_event : ℤ → ℤ → ℤ → NiEvent
move_event ts dx dy = record (mice_event ts ni_ev_mouse ni_mouse_move (pos 0)) { x = dx; y = dy }

-- `if (cond) emit(ev);`
abbrev pub when : Bool → NiEvent → List NiEvent
when b ev = if b then ev ∷ [] else []

-- What the loop body emits for a packet, in its order.
unfoldable pub packet_events : Codes → ℤ → List ℕ → ℕ → List NiEvent
packet_events c ts pkt have =
    let btn = get_or pkt 0 0 in
    let dx = signed_char (get_or pkt 1 0) in
    let dy = signed_char (get_or pkt 2 0) in
    mice_event ts c.ev_key c.btn_left (of_Bool (bit btn 0))
      ∷ mice_event ts c.ev_key c.btn_right (of_Bool (bit btn 1))
      ∷ mice_event ts c.ev_key c.btn_middle (of_Bool (bit btn 2))
      ∷ when (bit btn 0) (button_event ts (pos 1) (pos 1))
    ++ (when (not (bit btn 0)) (button_event ts (pos 1) (pos 0))
        ++ (when (bit btn 1) (button_event ts (pos 2) (pos 1))
            ++ (when (not (bit btn 1)) (button_event ts (pos 2) (pos 0))
                ++ (when (bit btn 2) (button_event ts (pos 3) (pos 1))
                    ++ (when (not (bit btn 2)) (button_event ts (pos 3) (pos 0))
                        ++ (mice_event ts c.ev_rel c.rel_x dx
                              ∷ mice_event ts c.ev_rel c.rel_y (neg dy)
                              ∷ when (nonzero dx || nonzero dy) (move_event ts dx (neg dy))
                            ++ when (leb 4 have) (
                                mice_event ts c.ev_rel c.rel_wheel
                                  (signed_char (get_or pkt 3 0)))))))))

unfoldable pub emit_all : List NiEvent → G → G
unfolding emit_or_queue
emit_all [] g = g
emit_all (ev ∷ evs) g = emit_all evs (emit_or_queue ev g)

-- the body of the loop over the bytes of one read
unfoldable pub mice_byte : Env → ℕ → Reader → G → Reader × G
unfolding packet_events emit_all now_ns
mice_byte e b m g =
    let pkt = set m.pkt m.have b in
    let have = m.have + 1 in
    let (ts, g') = now_ns e g in
    if leb 3 have
    then (record { pkt = pkt; have = 0 }, emit_all (packet_events e.codes ts pkt have) g')
    else (record { pkt = pkt; have = have }, g)

unfoldable pub mice_bytes : Env → List ℕ → Reader → G → Reader × G
unfolding mice_byte
mice_bytes e [] m g = (m, g)
mice_bytes e (b ∷ bs) m g = let (m', g') = mice_byte e b m g in mice_bytes e bs m' g'

-- What `read` gives: bytes, nothing with EAGAIN or EWOULDBLOCK in errno, nothing with another errno.
pub data ReadBytes : Type 0 where
  bytes : List ℕ → ReadBytes
  again failed : ReadBytes

pub data Running : Type 0 where
  running stopped : Running

-- `if (g.mice_fd >= 0) { close(g.mice_fd); g.mice_fd = -1; }`
unfoldable pub mice_exit : G → G
mice_exit g =
    if is_neg g.mice_fd then g else log (other_closed g.mice_fd) (record g { mice_fd = minus_one })

-- Before the loop the thread opens the device, if no descriptor is there.
unfoldable pub mice_start : Env → G → Running × G
mice_start e g =
    let fd = e.mice_open g.trace in
    let g' = log (other_opened fd) (record g { mice_fd = fd }) in
    if is_neg g.mice_fd then (if is_neg fd then (stopped, g') else (running, g')) else (running, g)

-- One round of the loop, or the way out of it. Between two rounds other threads may run.
unfoldable pub mice_round : Env → ReadBytes → Reader → G → Running × Reader × G
unfolding mice_bytes mice_exit
mice_round e (bytes bs) m g =
    if g.stop || not g.mice_enabled
    then (stopped, m, mice_exit g)
    else (let (m', g') = mice_bytes e bs m g in (running, m', g'))
mice_round e again m g =
    if g.stop || not g.mice_enabled then (stopped, m, mice_exit g) else (running, m, g)
mice_round e failed m g = (stopped, m, mice_exit g)
