-- ===== src/Examples/Shadows.antt =====
-- Instances of the theorems on shadow buffers.
use webtsan.Prelude.{◌+◌, true, false, none, some, arith, min, if◌then◌else◌, ◌==◌}
use webtsan.Shadow.{ShadowBuffer, record_access, clear_range}
use webtsan.Shadow.Loop.{Recorded, record_access-Recorded}
use webtsan.Shadow.Clear.{Cleared, clear_range-Cleared}
use webtsan.TestData.{worker_clock}

-- Byte 70 was written by thread 0 at epoch 3.
abbrev written : ShadowBuffer
written = record {
  backing_store = 4096;
  byte_length = 128;
  stripes = 2;
  pages = λ p.
      if p == 0
      then some (record {
        cells = λ k.
            if k == 140
            then record { tid = 0; epoch = 3; is_write = true; valid = true }
            else record { tid = 0; epoch = 0; is_write = false; valid = false };
      })
      else none;
}

record_access-Recorded_example :
    let result = record_access written 68 4 1 true worker_clock in
    Recorded 1 true worker_clock written 68 (min (68 + 4) written.byte_length) result.0 result.1
record_access-Recorded_example =
    record_access-Recorded 1 true worker_clock written 68 4 (omega arith) (omega arith)

clear_range-Cleared_example :
    Cleared written (clear_range written 68 4) 68 (min (68 + 4) written.byte_length)
clear_range-Cleared_example = clear_range-Cleared written 68 4 (omega arith) (omega arith)
