-- ===== src/Dissect/Stats.antt =====
-- calculate_byte_stats of cpp/protocol_dissectors.cpp: the most frequent byte and its share.
pub mod Mode
use pacsni.Prelude.{
  ℕ, zero, suc, ◌+◌, ◌*◌, ◌/◌, Bool, true, false, List, replicate, ltb, ◌==◌, if◌then◌else◌, get_or,
  set, ℤ, pos_part, ltb_int, Exec, ret, fault, ◌>>=◌,
}
use pacsni.Memory.{Bytes, u8, u32, rd, wr}
use pacsni.Packet.{PacketInfo}

-- The variables `counts`, `max_f` and `i.top_byte`.
pub record StatsState : Type 0 where
  pub counts : List ℕ
  pub max_f : ℕ
  pub top : ℕ

-- One round of the loop, for the byte `b`. An access outside of `counts` is a fault.
unfoldable pub count_byte : ℕ → StatsState → Exec StatsState
count_byte b s = do
  n ← rd s.counts b
  counts ← wr s.counts b (u32 (n + 1))
  ret (
      if ltb s.max_f (u32 (n + 1))
      then record { counts = counts; max_f = u32 (n + 1); top = b }
      else record { counts = counts; max_f = s.max_f; top = s.top })

-- The loop from `j` on, with `n` rounds left.
unfoldable pub stats_loop : ℕ → Bytes → ℕ → StatsState → Exec StatsState
stats_loop zero d j s = ret s
stats_loop (suc n) d j s = do b ← rd d j; s' ← count_byte b s; stats_loop n d (j + 1) s'

unfoldable pub calculate_byte_stats : Bytes → ℤ → PacketInfo → Exec PacketInfo
calculate_byte_stats d l i = if ltb_int l 1 then ret i else do
  s ← stats_loop (pos_part l) d 0 (record { counts = replicate 256 0; max_f = 0; top = i.top_byte })
  ret (record i { top_byte = s.top; top_byte_freq = u8 (u32 (s.max_f * 100) / pos_part l) })
