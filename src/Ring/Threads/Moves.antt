-- ===== src/Ring/Threads/Moves.antt =====
-- The five kinds of step that write to shared memory: what they leave of the other threads' facts
-- and of the places.
pub mod Taken
pub mod Stored
pub mod Push
pub mod Release
use pacsni.Prelude.{ℕ, ◌+◌, ◌^◌, ◌≤◌, ◌<◌, ◌≡◌, ◌≢◌, refl, sym, ap, ◌∙◌, List, arith}
use pacsni.Ring.Valid.{cap_bounds}
use pacsni.Ring.{Node}
use pacsni.Ring.Threads.{Shared, place, Pc}
use pacsni.Ring.Threads.Window.{place-add, place_injective}
use pacsni.Ring.Threads.Invariant.{node, IsQueue, IsPushed, IsPopped}
