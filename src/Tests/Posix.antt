-- ===== src/Tests/Posix.antt =====
-- The counters of a file.
use darshan.Prelude.{◌≡◌, List, arith, true, false, Option, none, some, [], ◌∷◌}
use darshan.Common.Tracked.{CommonVals, note_common_val}
use darshan.Common.Tracked.Counted.{IsCounted, note_common_val-IsCounted}
use darshan.Posix.State.{FileRef, Access, no_vals}
use darshan.Posix.Record.{
  record_access, record_open, record_seek, record_close, new_file_record, no_counter,
}
use darshan.Posix.Sums.{Event, access, forgot}
use darshan.Posix.History.{no_vals-IsCounted}

note_common_val-IsCounted_example :
    (c : CommonVals) × (note_common_val true 4096 no_vals ≡ some c) × IsCounted (4096 ∷ []) c
note_common_val-IsCounted_example =
    note_common_val-IsCounted 4096 [] no_vals no_vals-IsCounted (omega arith)

-- A file that is opened, read from its start, written at an offset, sought in and closed.
abbrev file_open : FileRef
file_open = record_open 420 true no_counter 1 2 (new_file_record 77 8 4096)

abbrev no_access : Access
no_access = record { is_read = true; rec_id = 0; offset = 0; size = 0; tm1 = 0; tm2 = 0 }

abbrev out_of : FileRef → Option (FileRef × Access) → FileRef × Access
out_of r none = (r, no_access)
out_of r (some out) = out

abbrev after_read : FileRef × Access
after_read = out_of file_open (record_access true true none 100 true 3 4 file_open)

abbrev after_write : FileRef × Access
after_write = out_of file_open (record_access true false (some 5000) 50 false 5 9 after_read.0)

abbrev file_closed : FileRef
file_closed = record_close 12 13 (record_seek 10 10 11 after_write.0)

abbrev events : List Event
events = forgot ∷ access after_write.1 ∷ access after_read.1 ∷ forgot ∷ []
