-- ===== src/Buffer/Sums.antt =====
-- utils/Buffer.cpp: what `GetSumRead` and `GetSumWrite` count.
use live_broadcast_server.Common.{
  ℕ, ◌+◌, ◌^◌, ◌<◌, ◌≡◌, refl, inl, inr, List, [], ◌∷◌, arith, ltb, Bool-cases, length,
  length-replicate, add_size,
}
use live_broadcast_server.Fifo.{Call, append, skip, drop_all, read_all, adjust}
use live_broadcast_server.Buffer.{
  Buffer, idx_begin, init, readable_length, writable_length, add_write_index, add_read_index,
  adjust_buffer, make_room, put_bytes, append_data, drop_all_data, read_all_as_string, re_size,
  get_sum_read, get_sum_write,
}
use live_broadcast_server.Buffer.Inv.{
  IsValid, max_size, readable_length_lem, adjust_buffer-IsValid, make_room-Room, init-IsValid,
}
use live_broadcast_server.Buffer.Run.{step, step-Agrees, growth, total_growth}

-- All that was written has been read or can be; the totals are size_t.
IsCounted : Buffer → Type 0
IsCounted b = b.sum_write ≡ add_size b.sum_read (readable_length b)

init-IsCounted : (n : ℕ) → IsCounted (init n)
unfolding IsCounted init readable_length
init-IsCounted n = omega arith

add_read_index-IsCounted :
    {b : Buffer} (n : ℕ) → IsValid b → IsCounted b → IsCounted (add_read_index b n)
unfolding IsCounted add_read_index readable_length
add_read_index-IsCounted {b} n v c = ground arith

adjust_buffer-IsCounted : {b : Buffer} → IsValid b → IsCounted b → IsCounted (adjust_buffer b)
unfolding IsCounted adjust_buffer readable_length
adjust_buffer-IsCounted {b} v c = omega (arith, c)

-- `make_room` changes the storage only.
make_room-sums :
    (b : Buffer) (n : ℕ)
    → ((make_room b n).sum_read ≡ b.sum_read) × ((make_room b n).sum_write ≡ b.sum_write)
unfolding make_room re_size
make_room-sums b n = elim (Bool-cases (ltb (writable_length b) n)) [
  | inl y ↦ rw y (refl, refl)
  | inr y ↦ rw y (refl, refl)
]

append_data-IsCounted :
    {b : Buffer} (xs : List ℕ)
    → IsValid b
    → length b.bytes + length xs + idx_begin < max_size
    → IsCounted b
    → IsCounted (append_data b xs)
unfolding IsCounted append_data put_bytes add_write_index readable_length
append_data-IsCounted {b} xs v h c =
    let a = adjust_buffer-IsValid v in
    let r = make_room-Room (length xs) a.0 (omega arith) in
    let s = make_room-sums (adjust_buffer b) (length xs) in
    let d : (adjust_buffer b).sum_write
        ≡ add_size (adjust_buffer b).sum_read (readable_length (adjust_buffer b)) =
      adjust_buffer-IsCounted v c in
    let e = readable_length_lem a.0 in
    omega (
      arith, d, e, r.same_read, r.same_write, s.0, s.1, a.0.ordered, a.0.storage_lt, a.0.in_storage,
      r.valid.storage_lt, r.valid.in_storage, r.fits,
    )

step-IsCounted :
    {b : Buffer} (c : Call)
    → IsValid b
    → length b.bytes + growth c + idx_begin < max_size
    → IsCounted b
    → IsCounted (step b c).1
unfolding step drop_all_data read_all_as_string
step-IsCounted (append xs) v h c = append_data-IsCounted xs v (omega arith) c
step-IsCounted (skip n) v h c = add_read_index-IsCounted n v c
step-IsCounted {b} drop_all v h c = add_read_index-IsCounted (readable_length b) v c
step-IsCounted {b} read_all v h c = add_read_index-IsCounted (readable_length b) v c
step-IsCounted adjust v h c = adjust_buffer-IsCounted v c

-- The buffer after a sequence of calls.
pub after : Buffer → List Call → Buffer
unfolding step
after b [] = b
after b (c ∷ cs) = after (step b c).1 cs

after-IsCounted :
    (cs : List Call) {b : Buffer}
    → IsValid b
    → length b.bytes + total_growth cs + idx_begin < max_size
    → IsCounted b
    → IsCounted (after b cs)
unfolding after
after-IsCounted [] v h c = c
after-IsCounted (x ∷ cs) {b} v h c =
    let a = step-Agrees x v (omega arith) in
    after-IsCounted cs a.valid (omega (arith, a.grown)) (step-IsCounted x v (omega arith) c)

length-init : (n : ℕ) → n < 2 ^ 62 → length (init n).bytes ≡ n + idx_begin
unfolding init
length-init n h = omega (arith, length-replicate (add_size n idx_begin) (let z : ℕ = 0 in z))

-- After any calls on a new buffer, in all of less than 2 ^ 62 bytes, the total written is the total
-- read and what can still be read, as a size_t.
pub after-sums :
    (n : ℕ) (cs : List Call)
    → n < 2 ^ 62
    → n + total_growth cs < 2 ^ 62
    → get_sum_write (after (init n) cs)
      ≡ add_size (get_sum_read (after (init n) cs)) (readable_length (after (init n) cs))
unfolding IsCounted get_sum_read get_sum_write
after-sums n cs h g =
    after-IsCounted cs (init-IsValid n h) (omega (arith, length-init n h)) (init-IsCounted n)
