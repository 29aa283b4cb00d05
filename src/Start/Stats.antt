-- ===== src/Start/Stats.antt =====
-- monitor_pcap_stats of cpp/packet_capture.cpp. What pcap_stats gives in each round is an argument:
-- the received and the dropped frames, each a 32-bit number that wraps, or an error.
use pacsni.Prelude.{
  ℕ, ◌+◌, ◌-◌, ◌^◌, ◌<◌, ◌≡◌, refl, inl, inr, ◌||◌, Bool-cases, Option, none, some, List, [], ◌∷◌,
  ltb, if◌then◌else◌, arith,
}
use pacsni.Memory.{u32}

-- The static variables.
pub record Totals : Type 0 where
  pub last_recv : ℕ
  pub last_drop : ℕ

-- What is printed.
pub record StatsLine : Type 0 where
  pub captured : ℕ
  pub dropped : ℕ

unfoldable pub print_line : ℕ → ℕ → List StatsLine → List StatsLine
print_line recv drop rest =
    if ltb 0 recv || ltb 0 drop then record { captured = recv; dropped = drop } ∷ rest else rest

-- The loop, for these answers of pcap_stats: the lines that are printed, and the variables.
unfoldable pub monitor_pcap_stats : List (Option Totals) → Totals → List StatsLine × Totals
monitor_pcap_stats [] s = ([], s)
monitor_pcap_stats (none ∷ more) s = monitor_pcap_stats more s
monitor_pcap_stats (some ps ∷ more) s =
    let rest = monitor_pcap_stats more ps in
    (
      print_line (u32 (ps.last_recv + 2 ^ 32 - s.last_recv))
          (u32 (ps.last_drop + 2 ^ 32 - s.last_drop)) rest.0,
      rest.1,
    )

-- The sums over the lines.
abbrev pub all_captured : List StatsLine → ℕ
all_captured [] = 0
all_captured (l ∷ ls) = l.captured + all_captured ls

abbrev pub all_dropped : List StatsLine → ℕ
all_dropped [] = 0
all_dropped (l ∷ ls) = l.dropped + all_dropped ls

abbrev pub AllCounters : List (Option Totals) → Type 0
AllCounters [] = Unit {0}
AllCounters (none ∷ more) = AllCounters more
AllCounters (some ps ∷ more) = (ps.last_recv < 2 ^ 32) × (ps.last_drop < 2 ^ 32) × AllCounters more

print_line-captured :
    (recv drop : ℕ) (rest : List StatsLine)
    → all_captured (print_line recv drop rest) ≡ recv + all_captured rest
unfolding print_line
print_line-captured recv drop rest = elim (Bool-cases (ltb 0 recv || ltb 0 drop)) [
  | inl shown ↦ rw shown refl
  | inr hidden ↦ rw hidden (ground arith)
]

print_line-dropped :
    (recv drop : ℕ) (rest : List StatsLine)
    → all_dropped (print_line recv drop rest) ≡ drop + all_dropped rest
unfolding print_line
print_line-dropped recv drop rest = elim (Bool-cases (ltb 0 recv || ltb 0 drop)) [
  | inl shown ↦ rw shown refl
  | inr hidden ↦ rw hidden (ground arith)
]

-- A count goes on from where it was.
add_up :
    (a b c s : ℕ)
    → a < 2 ^ 32
    → b < 2 ^ 32
    → u32 (b + s) ≡ c
    → u32 (a + (u32 (b + 2 ^ 32 - a) + s)) ≡ c
add_up a b c s ha hb h = omega arith

-- Where all counters are numbers of 32 bits, the lines add up, modulo 2 ^ 32: the counters of
-- before and all that is printed give the last counters, however often they wrap and pcap_stats
-- fails.
pub monitor_pcap_stats-sums :
    (answers : List (Option Totals)) (s : Totals)
    → s.last_recv < 2 ^ 32
    → s.last_drop < 2 ^ 32
    → AllCounters answers
    → (u32 (s.last_recv + all_captured (monitor_pcap_stats answers s).0)
        ≡ (monitor_pcap_stats answers s).1.last_recv)
      × (u32 (s.last_drop + all_dropped (monitor_pcap_stats answers s).0)
          ≡ (monitor_pcap_stats answers s).1.last_drop)
unfolding monitor_pcap_stats
monitor_pcap_stats-sums [] s r d v = (omega arith, omega arith)
monitor_pcap_stats-sums (none ∷ more) s r d v = monitor_pcap_stats-sums more s r d v
monitor_pcap_stats-sums (some ps ∷ more) s r d (vr, vd, v) =
    let (recv, drop) = monitor_pcap_stats-sums more ps vr vd v in
    let rest = monitor_pcap_stats more ps in
    (
      rw
          (print_line-captured (u32 (ps.last_recv + 2 ^ 32 - s.last_recv))
            (u32 (ps.last_drop + 2 ^ 32 - s.last_drop)) rest.0)
          (add_up s.last_recv ps.last_recv rest.1.last_recv (all_captured rest.0) r vr recv),
      rw
          (print_line-dropped (u32 (ps.last_recv + 2 ^ 32 - s.last_recv))
            (u32 (ps.last_drop + 2 ^ 32 - s.last_drop)) rest.0)
          (add_up s.last_drop ps.last_drop rest.1.last_drop (all_dropped rest.0) d vd drop),
    )
