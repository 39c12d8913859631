-- ===== src/Buffer/Run.antt =====
-- utils/Buffer.cpp: no sequence of calls tells a buffer from the queue of its bytes.
use live_broadcast_server.Common.{
  ℕ, ◌+◌, ◌≤◌, ◌<◌, ◌≡◌, refl, sym, ap, ap₂, ◌∙◌, List, [], ◌∷◌, length, arith, length-overwrite,
  drop_all as drop_past,
}
use live_broadcast_server.Fifo
use live_broadcast_server.Fifo.{Fifo, Call, append, skip, drop_all, read_all, adjust, Reply}
use live_broadcast_server.Buffer.{
  Buffer, idx_begin, readable_length, add_write_index, add_read_index, readable, adjust_buffer,
  make_room, put_bytes, append_data, drop_all_data, read_all_as_string,
}
use live_broadcast_server.Buffer.Inv.{
  IsValid, max_size, length-readable, adjust_buffer-IsValid, add_read_index-IsValid,
  append_data-IsValid, make_room-Room,
}
use live_broadcast_server.Buffer.Refine.{
  readable-add_read_index, readable-adjust_buffer, readable-append_data,
}

unfoldable pub step : Buffer → Call → List ℕ × Buffer
step b (append xs) = ([], append_data b xs)
step b (skip n) = ([], add_read_index b n)
step b drop_all = ([], drop_all_data b)
step b read_all = read_all_as_string b
step b adjust = ([], adjust_buffer b)

pub run : Buffer → List Call → List Reply
unfolding step
run b [] = []
run b (c ∷ cs) =
    record { bytes = (step b c).0; left = readable_length (step b c).1 } ∷ run (step b c).1 cs

-- How much a call may lengthen the storage.
abbrev pub growth : Call → ℕ
growth (append xs) = length xs + idx_begin
growth _ = 0

abbrev pub total_growth : List Call → ℕ
total_growth [] = 0
total_growth (c ∷ cs) = growth c + total_growth cs

length-append_data :
    {b : Buffer} (xs : List ℕ)
    → IsValid b
    → length b.bytes + length xs + idx_begin < max_size
    → length (append_data b xs).bytes ≤ length b.bytes + length xs + idx_begin
unfolding append_data put_bytes add_write_index
length-append_data {b} xs v h =
    let a = adjust_buffer-IsValid v in
    let r = make_room-Room (length xs) a.0 (omega arith) in
    let c = make_room (adjust_buffer b) (length xs) in
    omega (arith, length-overwrite c.bytes c.write_idx xs r.fits)

same_bytes-add_read_index : (b : Buffer) (n : ℕ) → (add_read_index b n).bytes ≡ b.bytes
unfolding add_read_index
same_bytes-add_read_index b n = refl

-- One call, seen from outside and within.
pub record Agrees (b : Buffer) (c : Call) : Type 0 where
  pub valid : IsValid (step b c).1
  pub grown : length (step b c).1.bytes ≤ length b.bytes + growth c
  answer : (step b c).0 ≡ (Fifo.step (readable b) c).0
  content : readable (step b c).1 ≡ (Fifo.step (readable b) c).1

skip_all : {b : Buffer} → IsValid b → readable (add_read_index b (readable_length b)) ≡ []
skip_all {b} v =
    readable-add_read_index (readable_length b) v
    ∙ drop_past (readable_length b) (readable b) (omega (arith, length-readable v))

pub step-Agrees :
    {b : Buffer} (c : Call)
    → IsValid b
    → length b.bytes + growth c + idx_begin < max_size
    → Agrees b c
unfolding step drop_all_data read_all_as_string
step-Agrees (append xs) v h = record {
  valid = append_data-IsValid xs v (omega arith);
  grown = omega (arith, length-append_data xs v (omega arith));
  answer = refl;
  content = readable-append_data xs v (omega arith);
}
step-Agrees {b} (skip n) v h = record {
  valid = add_read_index-IsValid n v;
  grown = omega (arith, ap length (same_bytes-add_read_index b n));
  answer = refl;
  content = readable-add_read_index n v;
}
step-Agrees {b} drop_all v h = record {
  valid = add_read_index-IsValid (readable_length b) v;
  grown = omega (arith, ap length (same_bytes-add_read_index b (readable_length b)));
  answer = refl;
  content = skip_all v;
}
step-Agrees {b} read_all v h = record {
  valid = add_read_index-IsValid (readable_length b) v;
  grown = omega (arith, ap length (same_bytes-add_read_index b (readable_length b)));
  answer = refl;
  content = skip_all v;
}
step-Agrees adjust v h =
    let a = adjust_buffer-IsValid v in
    record {
      valid = a.0;
      grown = omega (arith, a.1);
      answer = refl;
      content = readable-adjust_buffer v;
    }

-- A valid buffer gives, over any sequence of calls that the vector has room to grow for, the very
-- replies (bytes read and readable length) of the queue of its readable bytes.
pub run_refines :
    (cs : List Call) {b : Buffer}
    → IsValid b
    → length b.bytes + total_growth cs + idx_begin < max_size
    → run b cs ≡ Fifo.run (readable b) cs
unfolding run
run_refines [] v h = refl
run_refines (c ∷ cs) {b} v h =
    let a = step-Agrees c v (omega arith) in
    ap₂ (λ x y. x ∷ y)
      (λ i. record {
        bytes = a.answer i;
        left = (sym (length-readable a.valid) ∙ ap length a.content) i;
      })
      (run_refines cs a.valid (omega arith) ∙ ap (λ q. Fifo.run q cs) a.content)
