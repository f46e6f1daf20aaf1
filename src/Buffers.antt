-- ===== src/Buffers.antt =====
-- The shadow buffers by backing store: `RemoveShadow`, `ClearShadow` and `GetOrCreateShadow` of
-- patches/chromium/new-files/third_party/blink/renderer/core/tsan/web_tsan.cc.
pub mod Epochs
pub mod Results
use webtsan.Prelude.{ℕ, not, none, some, if◌then◌else◌, insert, erase}
use webtsan.Detector.{WebTSan}
use webtsan.Shadow.{ShadowBuffer, shadow_buffer, clear_range}

pub remove_shadow : WebTSan → ℕ → WebTSan
remove_shadow t backing_store = if not t.enabled then t else elim (t.shadow_buffers backing_store) [
  | none ↦ t
  | some _ ↦ record t { shadow_buffers = erase t.shadow_buffers backing_store }
]

pub clear_shadow : WebTSan → ℕ → ℕ → ℕ → WebTSan
clear_shadow t backing_store offset size =
    if not t.enabled then t else elim (t.shadow_buffers backing_store) [
      | none ↦ t
      | some b ↦ record t {
        shadow_buffers = insert t.shadow_buffers backing_store (clear_range b offset size);
      }
    ]

-- The state with the shadow there, and the shadow.
pub get_or_create_shadow : WebTSan → ℕ → ℕ → WebTSan × ShadowBuffer
get_or_create_shadow t backing_store byte_length = elim (t.shadow_buffers backing_store) [
  | some b ↦ (t, b)
  | none ↦
      let b = shadow_buffer backing_store byte_length in
      (record t { shadow_buffers = insert t.shadow_buffers backing_store b }, b)
]
