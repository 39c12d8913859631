-- ===== src/Rtmp/Manager/Data.antt =====
-- utils/codec/RtmpManager.cpp, `ParseData`: it always returns.
use live_broadcast_server.Common.{ℕ, ◌≤◌, ◌<◌, ◌≡◌, ap, some, length, drop, size_mod, AllBytes}
use live_broadcast_server.Fifo.{Fifo}
use live_broadcast_server.Rtmp.Codec.Pack.{IsValid}
use live_broadcast_server.Rtmp.Codec.Total.{decode_data-total}
use live_broadcast_server.Rtmp.Manager.{RtmpManager, Handed, parse_data, hand_on, hand_all}

-- Whatever bytes have arrived, fewer than 2 ^ 64, ParseData on a valid codec returns without an
-- error: it takes a first part of the buffer, and leaves a codec that keeps its invariant.
pub parse_data-total :
    (m : RtmpManager) (q : Fifo)
    → IsValid m.rtmp_codec
    → AllBytes q
    → length q < size_mod
    → (h : Handed) × (parse_data m q ≡ some h)
      × IsValid h.manager.rtmp_codec
      × ((n : ℕ) × (h.result ≡ some n) × (n ≤ length q) × (h.buffer ≡ drop n q))
unfolding parse_data
parse_data-total m q v b l =
    let (d, e, w, taken) = decode_data-total m.rtmp_codec q v b l in
    (hand_on m d, ap (hand_all m) e, w, taken)
