-- ===== src/Tests.antt =====
-- The theorems at concrete inputs.
mod Data
mod Honest
mod LayersTests
mod DissectTests
mod RingTests
mod ThreadsTests
mod SendTests
mod CaptureTests
mod ReadTests
mod StartTests
