-- ===== src/Examples/Values.antt =====
-- Instances of the theorems on clocks and on the text of a report.
use webtsan.Prelude.{◌≡◌, true, false}
use webtsan.Shadow.{RaceReport}
use webtsan.Report.{to_string, message, to_string_whole}

abbrev report : RaceReport
report = record {
  sab_offset = 0x46;
  sab_backing_store = 0x1000;
  sab_byte_length = 128;
  tid1 = 0;
  is_write1 = true;
  epoch1 = 3;
  tid2 = 1;
  is_write2 = false;
  epoch2 = 4;
}

to_string_whole_example : to_string report ≡ message report
to_string_whole_example = to_string_whole report
