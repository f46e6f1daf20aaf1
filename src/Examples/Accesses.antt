-- ===== src/Examples/Accesses.antt =====
-- Instances of the theorems on memory accesses, on a buffer of 128 bytes with no access.
use webtsan.Prelude.{refl, true, none, some, arith, ◌==◌, if◌then◌else◌, Returns}
use webtsan.Shadow.{ShadowBuffer}
use webtsan.Caller.{Caller, caller, with_tsan}
use webtsan.MemoryAccess.{memory_access}
use webtsan.MemoryAccess.Told.{IsSilent}
use webtsan.MemoryAccess.Reports.{IsChecked, memory_access-IsChecked, memory_access-IsSilent}
use webtsan.TestData.{two_threads}

abbrev blank : ShadowBuffer
blank = record { backing_store = 4096; byte_length = 128; stripes = 2; pages = λ _. none }

abbrev page_caller : Caller
page_caller =
    with_tsan caller
      (record two_threads { shadow_buffers = λ s. if s == 4096 then some blank else none })

memory_access-IsChecked_example :
    Returns
      (IsChecked page_caller blank 4096 64 8 1 true)
      (memory_access page_caller 4096 128 64 8 1 true)
memory_access-IsChecked_example =
    memory_access-IsChecked 4096 64 8 1 true (omega arith) (omega arith) page_caller 128 blank refl
      refl (omega arith)

memory_access-IsSilent_example :
    Returns (IsSilent page_caller) (memory_access page_caller 4096 0 64 8 1 true)
memory_access-IsSilent_example =
    memory_access-IsSilent 4096 64 8 1 true (omega arith) (omega arith) page_caller 0 blank refl
      refl (omega arith) (λ j lo hi c lt f. cc (f.occupied))
