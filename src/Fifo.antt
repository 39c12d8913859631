-- ===== src/Fifo.antt =====
-- The promise of utils/Buffer.h: a queue of bytes. Codecs, packets and connections are modelled over
-- it, under the names of the buffer's members; `Buffer.Refine` shows that the buffer keeps it.
use live_broadcast_server.Common.{ℕ, List, [], ◌++◌, length, drop, ◌∷◌, []}

abbrev pub Fifo : Type 0
Fifo = List ℕ

abbrev pub readable_length : Fifo → ℕ
readable_length q = length q

-- `ReadBegin()`, with the `ReadableLength()` bytes that may be read there.
abbrev pub read_begin : Fifo → List ℕ
read_begin q = q

abbrev pub add_read_index : Fifo → ℕ → Fifo
add_read_index q n = drop n q

abbrev pub append_data : Fifo → List ℕ → Fifo
append_data q xs = q ++ xs

abbrev pub drop_all_data : Fifo → Fifo
drop_all_data q = []

abbrev pub read_all_as_string : Fifo → List ℕ × Fifo
read_all_as_string q = (q, [])

-- A client's calls, and what each returns to it: the bytes read and the readable length after.
pub data Call : Type 0 where
  append : List ℕ → Call
  skip : ℕ → Call
  drop_all read_all adjust : Call

pub record Reply : Type 0 where
  pub bytes : List ℕ
  pub left : ℕ

abbrev pub step : Fifo → Call → List ℕ × Fifo
step q (append xs) = ([], append_data q xs)
step q (skip n) = ([], add_read_index q n)
step q drop_all = ([], drop_all_data q)
step q read_all = read_all_as_string q
step q adjust = ([], q)

abbrev reply : List ℕ × Fifo → Reply
reply r = record { bytes = r.0; left = readable_length r.1 }

abbrev pub run : Fifo → List Call → List Reply
run q [] = []
run q (c ∷ cs) = reply (step q c) ∷ run (step q c).1 cs
