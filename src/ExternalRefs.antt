-- ===== src/ExternalRefs.antt =====
-- The functions that compiled WebAssembly calls for what has no instruction, of
-- patches/v8/modified-files/src/wasm/wasm-external-refs.cc. Those on the memories of an instance are in
-- Bulk.
pub mod Bytes
pub mod Integers
pub mod Floats
pub mod Simd
pub mod Arrays
pub mod CentralStack
pub mod StackSwitching
