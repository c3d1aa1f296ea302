-- ===== src/Tests.antt =====
-- The theorems at concrete inputs, and runs of the program's parts.
mod Fixtures
mod Store
mod Flows
mod Downloads
mod Terminal
mod Interleaved
mod Whole
mod Saved
mod Lifetimes
mod Sale
mod Endings
mod Given
