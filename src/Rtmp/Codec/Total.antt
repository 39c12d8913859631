-- ===== src/Rtmp/Codec/Total.antt =====
-- utils/codec/RtmpCodec.cpp, `DecodeData`: the loop ends, never fails on bytes, and returns the
-- number of bytes that it took.
use live_broadcast_server.Common.{
  ℕ, zero, suc, ◌+◌, ◌≤◌, ◌<◌, ◌≡◌, inl, inr, refl, ap, ◌∙◌, Bool, false, Option, some, length,
  drop, arith, length-drop, drop-drop, AllBytes, ltb, Bool-cases, zero_or_suc, size_mod, sub_size,
}
use live_broadcast_server.Fifo.{Fifo}
use live_broadcast_server.Rtmp.Codec.{
  RtmpCodec, DataStatus, parse_first_header, parse_data_pack, Decoded, decode_pack, parse_first,
  rtmp_start_parse_length,
}
use live_broadcast_server.Rtmp.Codec.Data.{
  switch_status, data_round, data_loop, with_total, decode_data,
}
use live_broadcast_server.Rtmp.Codec.Pack.{IsValid}
use live_broadcast_server.Rtmp.Codec.Loops.{
  AllBytes-drop, Ran, Ends, decode_pack-Ran, first_loop-Ends,
}

-- ParseFirstHeader on a valid codec ends: its loop takes a byte at least in every round that is not
-- the last.
pub parse_first-Ends :
    (c : RtmpCodec) (q : Fifo) → IsValid c → AllBytes q → Ends q 0 (parse_first c q)
unfolding parse_first
parse_first-Ends c q v b = elim (Bool-cases (ltb (length q) rtmp_start_parse_length)) [
  | inl e ↦ rw e (record {
    decoded = record { result = some 0; pack_finish = false; buffer = q; codec = c };
    returns = refl;
    ran = record {
      taken = 0;
      valid = v;
      result = ap some (let z : 0 ≡ 0 + 0 = omega arith in z);
      available = omega arith;
      left = refl;
    };
  })
  | inr e ↦ rw e (first_loop-Ends (suc (length q)) c q 0 v b (omega arith))
]

switch_status-Ran : (q : Fifo) (sum : ℕ) (d : Decoded) → Ran q sum d → Ran q sum (switch_status d)
switch_status-Ran q sum d r = record {
  taken = r.taken;
  valid = elim (Bool-cases d.pack_finish) [
    | inl e ↦ rw e (record { within_chunk = r.valid.within_chunk; at_header = r.valid.at_header })
    | inr e ↦ rw e r.valid
  ];
  result = r.result;
  available = r.available;
  left = r.left;
}

data_round-Ends :
    (s : DataStatus) (c : RtmpCodec) (q : Fifo) (finish : Bool)
    → IsValid c
    → AllBytes q
    → Ends q 0 (data_round s c q finish)
unfolding data_round
data_round-Ends parse_first_header c q finish v b =
    let e = parse_first-Ends c q v b in
    record {
      decoded = switch_status e.decoded;
      returns = rw (e.returns, data_round);
      ran = switch_status-Ran q 0 e.decoded e.ran;
    }
data_round-Ends parse_data_pack c q finish v b = record {
  decoded = decode_pack c q finish;
  returns = refl;
  ran = decode_pack-Ran c q finish v b;
}

-- The loop has ended: the last round took nothing, those before it the first `taken` bytes.
pub record Stops (q : Fifo) (o : Option Decoded) : Type 0 where
  pub decoded : Decoded
  pub returns : o ≡ some decoded
  pub valid : IsValid decoded.codec
  pub last : decoded.result ≡ some 0
  pub taken : ℕ
  pub available : taken ≤ length q
  pub left : decoded.buffer ≡ drop taken q

loop_stop :
    (fuel : ℕ) (c : RtmpCodec) (q : Fifo) (finish : Bool) (d : Decoded)
    → data_round c.decode_data_status c q finish ≡ some d
    → d.result ≡ some 0
    → data_loop (suc fuel) c q finish ≡ some d
unfolding data_loop
loop_stop fuel c q finish d e r = ground arith

loop_next :
    (fuel : ℕ) (c : RtmpCodec) (q : Fifo) (finish : Bool) (d : Decoded) (n : ℕ)
    → data_round c.decode_data_status c q finish ≡ some d
    → d.result ≡ some (suc n)
    → data_loop (suc fuel) c q finish ≡ data_loop fuel d.codec d.buffer d.pack_finish
unfolding data_loop
loop_next fuel c q finish d n e r = ground arith

data_loop-Stops :
    (fuel : ℕ) (c : RtmpCodec) (q : Fifo) (finish : Bool)
    → IsValid c
    → AllBytes q
    → length q < fuel
    → Stops q (data_loop fuel c q finish)
data_loop-Stops zero c q finish v b h = absurd (omega arith)
data_loop-Stops (suc fuel) c q finish v b h =
    let e = data_round-Ends c.decode_data_status c q finish v b in
    let d = e.decoded in
    let r = e.ran in
    elim (zero_or_suc r.taken) [
      | inl z ↦
          (let no_byte = r.result ∙ ap some (let y : 0 + r.taken ≡ 0 = omega arith in y) in
            record {
              decoded = d;
              returns = loop_stop fuel c q finish d e.returns no_byte;
              valid = r.valid;
              last = no_byte;
              taken = r.taken;
              available = r.available;
              left = r.left;
            })
      | inr (n, z) ↦
          (let some_bytes = r.result ∙ ap some (let y : 0 + r.taken ≡ suc n = omega arith in y) in
            let rest = drop r.taken q in
            let t =
              data_loop-Stops fuel d.codec rest d.pack_finish r.valid (AllBytes-drop r.taken q b)
                (omega (arith, r.available, length-drop r.taken q)) in
            record {
              decoded = t.decoded;
              returns =
                  loop_next fuel c q finish d n e.returns some_bytes
                  ∙ ap (λ l. data_loop fuel d.codec l d.pack_finish) r.left
                  ∙ t.returns;
              valid = t.valid;
              last = t.last;
              taken = r.taken + t.taken;
              available = omega (arith, r.available, t.available, length-drop r.taken q);
              left = t.left ∙ drop-drop r.taken t.taken q;
            })
    ]

with_total-result :
    (n k : ℕ) (d : Decoded)
    → d.result ≡ some 0
    → sub_size n (length d.buffer) ≡ k
    → (with_total n d).result ≡ some k
with_total-result n k d r e = ground arith

-- Whatever bytes have arrived, fewer than 2 ^ 64, DecodeData on a valid codec ends without an error,
-- returns how many bytes it took from the front of the buffer, leaves the others in it, and keeps
-- the codec's invariant.
pub decode_data-total :
    (c : RtmpCodec) (q : Fifo)
    → IsValid c
    → AllBytes q
    → length q < size_mod
    → (d : Decoded) × (decode_data c q ≡ some d)
      × IsValid d.codec
      × ((n : ℕ) × (d.result ≡ some n) × (n ≤ length q) × (d.buffer ≡ drop n q))
unfolding decode_data
decode_data-total c q v b small =
    let s = data_loop-Stops (suc (length q)) c q false v b (omega arith) in
    let d = s.decoded in
    let e : sub_size (length q) (length d.buffer) ≡ s.taken =
      omega (arith, ap length s.left, length-drop s.taken q, s.available) in
    (
      with_total (length q) d,
      rw (s.returns, decode_data),
      s.valid,
      (s.taken, with_total-result (length q) s.taken d s.last e, s.available, s.left),
    )
