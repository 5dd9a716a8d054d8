-- ===== src/Apps/Generator/Reports.antt =====
-- What the threads that write reports to a uinput device send.
use asyncinput.Prelude.{
  ℕ, zero, suc, ◌+◌, ◌%◌, ◌≡◌, refl, inl, inr, List, [], ◌∷◌, ◌++◌, if◌then◌else◌, arith,
  Bool-cases,
}
use asyncinput.Prelude.Int.{ℤ, pos}
use asyncinput.Apps.Generator.{
  GenEnv, GenArgs, GenTrace, Locals, clock_read, slept, written, toggle, key_report,
}

-- The type, code and value of what was written, and the descriptor.
abbrev pub Line : Type 0
Line = ℤ × ℕ × ℕ × ℤ

abbrev pub sent : GenTrace → List Line
sent [] = []
sent (written fd ev ∷ t) = (fd, ev.type, ev.code, ev.value) ∷ sent t
sent (_ ∷ t) = sent t

-- how often the monotonic clock was read, and how often the thread slept
abbrev pub readings : GenTrace → ℕ
readings [] = 0
readings (clock_read ∷ t) = 1 + readings t
readings (_ ∷ t) = readings t

abbrev pub sleeps : GenTrace → ℕ
sleeps [] = 0
sleeps (slept s n ∷ t) = 1 + sleeps t
sleeps (_ ∷ t) = sleeps t

-- the reports number `from` to `from + k - 1`, the newest first
abbrev pub reports : (ℕ → List Line) → ℕ → ℕ → List Line
reports one zero from = []
reports one (suc k) from = reports one k (from + 1) ++ one from

pub toggle-parity : (n : ℕ) → toggle (n % 2) ≡ (n + 1) % 2
toggle-parity n = ground arith

-- the lines of report number `i`
abbrev pub scan_lines : GenEnv → GenArgs → ℕ → List Line
scan_lines e ga i =
    (ga.fd, e.codes.ev_syn, e.codes.syn_report, pos 0)
    ∷ (ga.fd, e.codes.ev_msc, e.codes.msc_scan, pos i)
    ∷ []

abbrev pub key_lines : GenEnv → GenArgs → ℕ → List Line
key_lines e ga i =
    (ga.fd, e.codes.ev_syn, e.codes.syn_report, pos 0)
    ∷ (if ga.emit_key
        then (ga.fd, e.codes.ev_key, e.codes.key_a, pos (i % 2))
          ∷ (ga.fd, e.codes.ev_msc, e.codes.msc_scan, pos i)
          ∷ []
        else (ga.fd, e.codes.ev_msc, e.codes.msc_scan, pos i) ∷ [])

-- the report with the key or without it
pub key_report-lines :
    (e : GenEnv) (ga : GenArgs) (l : Locals) (u : GenTrace)
    → l.key_state ≡ l.scan % 2
    → sent (key_report e ga l u) ≡ key_lines e ga l.scan ++ sent u
key_report-lines e ga l u h = elim (Bool-cases ga.emit_key) [
  | inl on ↦ rw (on, h) refl
  | inr off ↦ rw off refl
]

-- A report neither reads the monotonic clock nor sleeps.
pub key_report-silent :
    (e : GenEnv) (ga : GenArgs) (l : Locals) (u : GenTrace)
    → (readings (key_report e ga l u) ≡ readings u) × (sleeps (key_report e ga l u) ≡ sleeps u)
key_report-silent e ga l u = elim (Bool-cases ga.emit_key) [
  | inl on ↦ rw on (refl, refl)
  | inr off ↦ rw off (refl, refl)
]
