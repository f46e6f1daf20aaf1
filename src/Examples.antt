-- ===== src/Examples.antt =====
-- The theorems at concrete inputs, and tests of the definitions.
mod Detection
mod Accesses
mod Shadows
mod Lifecycle
mod Values
mod Page
mod Calls
mod Workers
mod Futex
mod ExternalRefs
mod BackingStore
mod StackSwitching
