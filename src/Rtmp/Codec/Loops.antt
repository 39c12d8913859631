-- ===== src/Rtmp/Codec/Loops.antt =====
-- utils/codec/RtmpCodec.cpp, `ParseFirstHeader` and `DecodeData`: both loops end, and what they
-- return is what they took.
use live_broadcast_server.Common.{
  ℕ, zero, suc, ◌+◌, ◌≤◌, ◌<◌, ◌≡◌, inl, inr, refl, ap, ◌∙◌, Bool, true, false, Option, some, List,
  [], ◌∷◌, length, drop, arith, length-drop, drop-drop, AllBytes, if◌then◌else◌, Bool-cases,
  Option-cases, zero_or_suc,
}
use live_broadcast_server.Fifo.{Fifo}
use live_broadcast_server.Rtmp.Pack.{PackType, audio, video, script}
use live_broadcast_server.Rtmp.Codec.{
  RtmpCodec, Decoded, decode_pack, store_first, has_first, first_loop,
}
use live_broadcast_server.Rtmp.Codec.Pack.{IsValid, decode_pack-Consumes, decode_pack-ne-none}
use live_broadcast_server.Rtmp.Codec.Valid.{decode_pack-IsValid}

pub AllBytes-drop : (n : ℕ) (xs : List ℕ) → AllBytes xs → AllBytes (drop n xs)
AllBytes-drop zero xs b = b
AllBytes-drop (suc n) [] b = b
AllBytes-drop (suc n) (x ∷ xs) b = AllBytes-drop n xs b.1

store_first-IsValid : (c : RtmpCodec) (t : PackType) → IsValid c → IsValid (store_first c t)
unfolding store_first
store_first-IsValid c audio v = record { within_chunk = v.within_chunk; at_header = v.at_header }
store_first-IsValid c video v = record { within_chunk = v.within_chunk; at_header = v.at_header }
store_first-IsValid c script v = record { within_chunk = v.within_chunk; at_header = v.at_header }
store_first-IsValid c _ v = v

-- A part of the code has run on the buffer `q`: it succeeded, kept the invariant, and took the first
-- `taken` bytes, the number that it returns beside the `sum` it started from.
pub record Ran (q : Fifo) (sum : ℕ) (d : Decoded) : Type 0 where
  pub taken : ℕ
  pub valid : IsValid d.codec
  pub result : d.result ≡ some (sum + taken)
  pub available : taken ≤ length q
  pub left : d.buffer ≡ drop taken q

pub decode_pack-Ran :
    (c : RtmpCodec) (q : Fifo) (finish : Bool)
    → IsValid c
    → AllBytes q
    → Ran q 0 (decode_pack c q finish)
decode_pack-Ran c q finish v b = elim (Option-cases (decode_pack c q finish).result) [
  | inl e ↦ absurd (decode_pack-ne-none c q finish b e)
  | inr (n, e) ↦
      (let t = decode_pack-Consumes c q finish v.within_chunk n e in
        record {
          taken = n;
          valid = decode_pack-IsValid c q finish v;
          result = e ∙ ap some (let z : n ≡ 0 + n = omega arith in z);
          available = t.0;
          left = t.1;
        })
]

-- A loop has ended, with a result as above.
pub record Ends (q : Fifo) (sum : ℕ) (o : Option Decoded) : Type 0 where
  pub decoded : Decoded
  pub returns : o ≡ some decoded
  pub ran : Ran q sum decoded

abbrev stored : Decoded → RtmpCodec
stored d = if d.pack_finish then store_first d.codec d.codec.last_rtmp_pack.pack_type else d.codec

stored-IsValid : (d : Decoded) → IsValid d.codec → IsValid (stored d)
stored-IsValid d v = elim (Bool-cases d.pack_finish) [
  | inl e ↦ rw e (store_first-IsValid d.codec d.codec.last_rtmp_pack.pack_type v)
  | inr e ↦ rw e v
]

-- What a round leaves to the next one, put together with what it took itself.
later-Ran :
    (q : Fifo) (sum k : ℕ) (d : Decoded) → k ≤ length q → Ran (drop k q) (sum + k) d → Ran q sum d
later-Ran q sum k d h r = record {
  taken = k + r.taken;
  valid = r.valid;
  result = r.result ∙ ap some (let e : sum + k + r.taken ≡ sum + (k + r.taken) = omega arith in e);
  available = omega (arith, r.available, length-drop k q);
  left = r.left ∙ drop-drop k r.taken q;
}

-- The three ways in which a round of `ParseFirstHeader` ends.
first_loop_done :
    (fuel : ℕ) (c : RtmpCodec) (q : Fifo) (sum : ℕ)
    → has_first c ≡ true
    → first_loop (suc fuel) c q sum
      ≡ some (record { result = some sum; pack_finish = true; buffer = q; codec = c })
unfolding first_loop
first_loop_done fuel c q sum e = ground arith

first_loop_stop :
    (fuel : ℕ) (c : RtmpCodec) (q : Fifo) (sum : ℕ)
    → has_first c ≡ false
    → (decode_pack c q false).result ≡ some 0
    → let d = decode_pack c q false in
      first_loop (suc fuel) c q sum
      ≡ some (record {
        result = some sum;
        pack_finish = has_first (stored d);
        buffer = d.buffer;
        codec = stored d;
      })
unfolding first_loop
first_loop_stop fuel c q sum e r = ground arith

first_loop_next :
    (fuel : ℕ) (c : RtmpCodec) (q : Fifo) (sum n : ℕ)
    → has_first c ≡ false
    → (decode_pack c q false).result ≡ some (suc n)
    → let d = decode_pack c q false in
      first_loop (suc fuel) c q sum ≡ first_loop fuel (stored d) d.buffer (sum + suc n)
unfolding first_loop
first_loop_next fuel c q sum n e r = ground arith

module _ (fuel : ℕ) (c : RtmpCodec) (q : Fifo) (sum : ℕ) (e : has_first c ≡ false) where
  abbrev d : Decoded
  d = decode_pack c q false

  round_stop-Ends :
      IsValid d.codec
      → d.result ≡ some 0
      → d.buffer ≡ q
      → Ends q sum (first_loop (suc fuel) c q sum)
  round_stop-Ends v r l = record {
    decoded = record {
      result = some sum;
      pack_finish = has_first (stored d);
      buffer = d.buffer;
      codec = stored d;
    };
    returns = first_loop_stop fuel c q sum e r;
    ran = record {
      taken = 0;
      valid = stored-IsValid d v;
      result = ap some (let z : sum ≡ sum + 0 = omega arith in z);
      available = omega arith;
      left = l;
    };
  }

  round_next-Ends :
      (n : ℕ)
      → d.result ≡ some (suc n)
      → suc n ≤ length q
      → d.buffer ≡ drop (suc n) q
      → Ends
          (drop (suc n) q)
          (sum + suc n)
          (first_loop fuel (stored d) (drop (suc n) q) (sum + suc n))
      → Ends q sum (first_loop (suc fuel) c q sum)
  round_next-Ends n r a l t = record {
    decoded = t.decoded;
    returns =
        first_loop_next fuel c q sum n e r
        ∙ ap (λ l. first_loop fuel (stored d) l (sum + suc n)) l
        ∙ t.returns;
    ran = later-Ran q sum (suc n) t.decoded a t.ran;
  }

pub first_loop-Ends :
    (fuel : ℕ) (c : RtmpCodec) (q : Fifo) (sum : ℕ)
    → IsValid c
    → AllBytes q
    → length q < fuel
    → Ends q sum (first_loop fuel c q sum)
first_loop-Ends zero c q sum v b h = absurd (omega arith)
first_loop-Ends (suc fuel) c q sum v b h = elim (Bool-cases (has_first c)) [
  | inl e ↦ record {
    decoded = record { result = some sum; pack_finish = true; buffer = q; codec = c };
    returns = first_loop_done fuel c q sum e;
    ran = record {
      taken = 0;
      valid = v;
      result = ap some (let z : sum ≡ sum + 0 = omega arith in z);
      available = omega arith;
      left = refl;
    };
  }
  | inr e ↦
      (let r = decode_pack-Ran c q false v b in
        elim (zero_or_suc r.taken) [
          | inl z ↦
              round_stop-Ends fuel c q sum e r.valid
                (r.result ∙ ap some (let y : 0 + r.taken ≡ 0 = omega arith in y))
                (r.left ∙ ap (λ k. drop k q) z)
          | inr (n, z) ↦
              round_next-Ends fuel c q sum e n
                (r.result ∙ ap some (let y : 0 + r.taken ≡ suc n = omega arith in y))
                (omega (arith, r.available)) (r.left ∙ ap (λ k. drop k q) z)
                (first_loop-Ends fuel (stored (decode_pack c q false)) (drop (suc n) q)
                  (sum + suc n) (stored-IsValid (decode_pack c q false) r.valid)
                  (AllBytes-drop (suc n) q b) (omega (arith, r.available, length-drop (suc n) q)))
        ])
]
