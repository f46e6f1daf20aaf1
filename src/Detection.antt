-- ===== src/Detection.antt =====
-- What the detector of
-- patches/chromium/new-files/third_party/blink/renderer/core/tsan/web_tsan.cc reports and what it does
-- not, across the calls that synchronise threads. A conflict between a cell and an access is what
-- `RecordAccess` reports (Shadow/Races, Shadow/Loop).
pub mod Ordered
pub mod Unordered
pub mod Missed
pub mod Readers
