-- ===== src/Tests/Bytes.antt =====
-- Tests of utils/Buffer.
use live_broadcast_server.Common.{◌≡◌, List, [], ◌∷◌, ◌++◌, arith, replicate}
use live_broadcast_server.Fifo
use live_broadcast_server.Fifo.{Fifo, Call, append, skip, read_all, adjust, Reply}
use live_broadcast_server.Buffer.{Buffer, readable, append_data}
use live_broadcast_server.Buffer.Inv.{IsValid}
use live_broadcast_server.Buffer.Refine.{readable-append_data}
use live_broadcast_server.Buffer.Run.{run, run_refines}
use live_broadcast_server.Common.{add_size}
use live_broadcast_server.Buffer.{init, readable_length, get_sum_read, get_sum_write}
use live_broadcast_server.Buffer.Sums.{after, after-sums}

-- Room for two bytes behind the two that are held, the first of which is read.
abbrev small_buffer : Buffer
small_buffer = record {
  bytes = replicate 8 0 ++ (5 ∷ 6 ∷ 0 ∷ 0 ∷ []);
  read_idx = 9;
  write_idx = 10;
  sum_read = 1;
  sum_write = 2;
}

small_buffer-IsValid : IsValid small_buffer
small_buffer-IsValid = record {
  after_begin = omega arith;
  ordered = omega arith;
  in_storage = omega arith;
  storage_lt = omega arith;
}

abbrev calls : List Call
calls = append (1 ∷ 2 ∷ 3 ∷ []) ∷ skip 2 ∷ adjust ∷ read_all ∷ []

run_refines_example : run small_buffer calls ≡ Fifo.run (6 ∷ []) calls
run_refines_example = run_refines calls small_buffer-IsValid (omega arith)

readable-append_data_example :
    readable (append_data small_buffer (1 ∷ 2 ∷ 3 ∷ [])) ≡ 6 ∷ 1 ∷ 2 ∷ 3 ∷ []
readable-append_data_example =
    readable-append_data (1 ∷ 2 ∷ 3 ∷ []) small_buffer-IsValid (omega arith)

after-sums_example :
    get_sum_write (after (init 16) calls)
    ≡ add_size (get_sum_read (after (init 16) calls)) (readable_length (after (init 16) calls))
after-sums_example = after-sums 16 calls (omega arith) (omega arith)
