-- ===== src/Tests/Clipboard.antt =====
-- The objects of src/clipboard/stream.rs, transfer.rs, source.rs and format_enum.rs at concrete
-- inputs.
use clip_ferry.Common.{
  ℕ, ◌+◌, ◌<◌, ◌&&◌, Bool, ◌≡◌, refl, false, List, [], ◌∷◌, ◌++◌, length, arith, take, drop, some,
}
use clip_ferry.Common.Result.{ok, err}
use clip_ferry.Clipboard.Source.{memory_read_at, memory_read_at-Serves, Serves, error_cancelled}
use clip_ferry.Clipboard.Stream.{read_impl, seek_impl, negsuc, seek_end}
use clip_ferry.Clipboard.Stream.Reads.{
  read_impl_content, read_impl_twice, seek_impl-SeekEnds, SeekEnds,
}
use clip_ferry.Clipboard.Transfer.{
  TransferControl, generated_read_at, cancelled, paused, Wakeup, GeneratedSource, generated_bytes,
  wait_for_chunk, transition, resume_state,
}
use clip_ferry.Clipboard.Transfer.Laws.{
  running_source, running_source-Serves, ChunkDue, CancelSeen, wait_for_chunk_ok, start, resumed_by,
  cancelled_stops_reads,
}
use clip_ferry.Clipboard.Formats.{next, skip, next_twice}

abbrev six : List ℕ
six = 97 ∷ 98 ∷ 99 ∷ 100 ∷ 101 ∷ 102 ∷ []

read_impl_content_example :
    read_impl (memory_read_at six) false 3 2
    ≡ (2 + length (take 3 (drop 2 six)), ok (take 3 (drop 2 six)))
read_impl_content_example =
    read_impl_content six (memory_read_at six) (memory_read_at-Serves six) 3 2 (omega arith)
      (omega arith)

abbrev slow : GeneratedSource
slow = record { length = 10; max_chunk = 3; delay = 0 }

running_source-Serves_example : Serves (generated_bytes 0 10) (running_source slow)
running_source-Serves_example = running_source-Serves slow (omega arith) refl

read_impl_twice_example :
    (a b : List ℕ) × (p q : ℕ) × (read_impl (memory_read_at six) false 3 1 ≡ (p, ok a))
    × (read_impl (memory_read_at six) false 9 p ≡ (q, ok b))
    × (read_impl (memory_read_at six) false (3 + 9) 1 ≡ (q, ok (a ++ b)))
read_impl_twice_example =
    read_impl_twice six (memory_read_at six) (memory_read_at-Serves six) 3 9 1 (omega arith)
      (omega arith)

seek_impl-SeekEnds_example : SeekEnds 6 (negsuc 1) seek_end 3 (seek_impl 6 (negsuc 1) seek_end 3)
seek_impl-SeekEnds_example = seek_impl-SeekEnds 6 (negsuc 1) seek_end 3 (omega arith) (omega arith)

abbrev woken : List Wakeup
woken = record { state = cancelled; timed_out = false } ∷ []

wait_for_chunk_ok_example :
    ((wait_for_chunk 5 paused woken ≡ some (ok tt)) → ChunkDue 5 paused woken)
    × ((wait_for_chunk 5 paused woken ≡ some (err error_cancelled)) → CancelSeen paused woken)
wait_for_chunk_ok_example = wait_for_chunk_ok 5 paused woken

abbrev stopped : TransferControl
stopped = record { state = cancelled; bytes_served = 4; chunk_calls = 2 }

abbrev stopped_later : TransferControl
stopped_later = (transition resume_state stopped).0

cancelled_stops_reads_example :
    (stopped_later.state ≡ cancelled)
    × ((g : GeneratedSource) (wakeups : List Wakeup) (others : TransferControl → TransferControl)
          (offset buffer : ℕ)
        → offset < g.length
        → 0 < buffer
        → generated_read_at g wakeups others offset buffer stopped_later
          ≡ (others stopped_later, some (err error_cancelled)))
cancelled_stops_reads_example = cancelled_stops_reads stopped stopped_later refl (resumed_by start)

next_twice_example :
    (p q : ℕ) × (items more : List ℕ) × (all all' : Bool) × (next six 2 false false 0
      ≡ (p, ok (items, all)))
    × (next six 3 false false p ≡ (q, ok (more, all')))
    × (next six (2 + 3) false false 0 ≡ (q, ok (items ++ more, all && all')))
    × (skip six 2 0 ≡ (p, all))
next_twice_example = next_twice six 2 3 0 (omega arith)
