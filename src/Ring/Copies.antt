-- ===== src/Ring/Copies.antt =====
-- The ring at its two types of events, as the backends write it out: `struct keyringbuf` and the
-- keyring_ functions of src/libasyncinput_posix.c, and both rings of src/libasyncinput_win.c, whose
-- functions have the prefix win_ here.
use asyncinput.Prelude.{ℕ, List}
use asyncinput.Event.{NiEvent, NiKeyEvent, blank_event, blank_key_event}
use asyncinput.Ring.{RingBuf, ring_size, ring_init, ring_push, ring_pop_many}

-- `struct keyringbuf`
abbrev pub KeyRingBuf : Type 0
KeyRingBuf = RingBuf NiKeyEvent

abbrev pub keyring_init : KeyRingBuf
keyring_init = ring_init ring_size blank_key_event

abbrev pub keyring_push : KeyRingBuf → NiKeyEvent → KeyRingBuf
keyring_push = ring_push ring_size blank_key_event

abbrev pub keyring_pop_many : KeyRingBuf → List NiKeyEvent → ℕ → ℕ × KeyRingBuf × List NiKeyEvent
keyring_pop_many = ring_pop_many ring_size blank_key_event

-- `struct ringbuf` of the Windows backend
abbrev pub WinRingBuf : Type 0
WinRingBuf = RingBuf NiEvent

abbrev pub WinKeyRingBuf : Type 0
WinKeyRingBuf = RingBuf NiKeyEvent

abbrev pub win_ring_init : WinRingBuf
win_ring_init = ring_init ring_size blank_event

abbrev pub win_ring_push : WinRingBuf → NiEvent → WinRingBuf
win_ring_push = ring_push ring_size blank_event

abbrev pub win_ring_pop_many : WinRingBuf → List NiEvent → ℕ → ℕ × WinRingBuf × List NiEvent
win_ring_pop_many = ring_pop_many ring_size blank_event

abbrev pub win_keyring_init : WinKeyRingBuf
win_keyring_init = ring_init ring_size blank_key_event

-- Nothing calls it.
abbrev pub win_keyring_push : WinKeyRingBuf → NiKeyEvent → WinKeyRingBuf
win_keyring_push = ring_push ring_size blank_key_event

abbrev pub win_keyring_pop_many :
    WinKeyRingBuf → List NiKeyEvent → ℕ → ℕ × WinKeyRingBuf × List NiKeyEvent
win_keyring_pop_many = ring_pop_many ring_size blank_key_event
