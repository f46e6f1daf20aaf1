-- ===== src/Futex/Listed.antt =====
-- What the wait list of patches/v8/modified-files/src/execution/futex-emulation.cc stands for: for each
-- location the nodes that wait there, in their order.
pub mod Changes
pub mod Add
pub mod Cases
pub mod Remove
pub mod Kept
