-- ===== src/Buffer/Refine.antt =====
-- utils/Buffer.cpp: a valid buffer behaves as the queue of its readable bytes, over any sequence
-- of calls. `Fifo` is that queue; the codecs are modelled over it.
use live_broadcast_server.Common.{
  ℕ, ◌+◌, ◌-◌, ◌*◌, ◌/◌, ◌%◌, ◌^◌, ◌≤◌, ◌<◌, ◌≡◌, refl, sym, ap, ap₂, ◌∙◌, inl, inr, List, [], ◌∷◌,
  ◌++◌, append-nil, append_assoc, arith, ltb, ltb→lt, ltb→le, Bool-cases, length, take, drop,
  replicate, overwrite, length-append, length-take, length-drop, take_all, drop_all, take-append,
  take-append_le, drop-append_le, drop-drop, drop-take, take-overwrite, add_size, sub_size, be32,
}
use live_broadcast_server.Fifo
use live_broadcast_server.Buffer.{
  Buffer, idx_begin, readable_length, writable_length, add_write_index, add_read_index, readable,
  adjust_buffer, resize, re_size, make_room, put_bytes, append_data, SockRead, failed, received,
  store_read, read_from_sockfd, append_u32, append_buffer, read_from_sockfd_and_drop, idx_begin,
  readable_length,
}
use live_broadcast_server.Buffer.Inv.{
  IsValid, Bounded, max_size, readable_length_lem, writable_length_lem, length-readable,
  adjust_buffer-IsValid, make_room-Room,
}

drop-window :
    (xs : List ℕ) (r w n : ℕ)
    → take (w - (r + n)) (drop (r + n) xs) ≡ drop n (take (w - r) (drop r xs))
drop-window xs r w n = sym (
    drop-take n (w - r) (drop r xs)
    ∙ ap (λ l. take (w - r - n) l) (drop-drop r n xs)
    ∙ ap (λ k. take k (drop (r + n) xs)) (let e : w - r - n ≡ w - (r + n) = omega arith in e))

-- `AddReadIndex` drops the bytes read, and no more than there are.
pub readable-add_read_index :
    {b : Buffer} (n : ℕ)
    → IsValid b
    → readable (add_read_index b n) ≡ Fifo.add_read_index (readable b) n
unfolding add_read_index
readable-add_read_index {b} n v = elim (Bool-cases (ltb (readable_length b) n)) [
  | inl past ↦ rw past (
      let p = ltb→lt _ _ past in
      let l = length-readable v in
      let m = readable_length_lem v in
      let e : add_size b.read_idx (readable_length b) ≡ b.write_idx = omega arith in
      ap (λ k. take (b.write_idx - k) (drop k b.bytes)) e
      ∙ ap (λ k. take k (drop b.write_idx b.bytes))
          (let z : b.write_idx - b.write_idx ≡ 0 = omega arith in z)
      ∙ sym (drop_all n (readable b) (omega arith)))
  | inr within ↦ rw within (
      let p = ltb→le _ _ within in
      let m = readable_length_lem v in
      let e : add_size b.read_idx n ≡ b.read_idx + n = omega arith in
      ap (λ k. take (b.write_idx - k) (drop k b.bytes)) e
      ∙ drop-window b.bytes b.read_idx b.write_idx n)
]

pub readable-adjust_buffer : {b : Buffer} → IsValid b → readable (adjust_buffer b) ≡ readable b
unfolding adjust_buffer
readable-adjust_buffer {b} v =
    let l = length-readable v in
    let m = readable_length_lem v in
    let e : add_size idx_begin (readable_length b) - idx_begin ≡ length (readable b) =
      omega arith in
    ap (λ k. take k (drop idx_begin (overwrite b.bytes idx_begin (readable b)))) e
    ∙ take-overwrite b.bytes idx_begin (readable b) (omega arith)

-- Zeros behind the storage do not show in a window that lies in it.
window-resize :
    (xs : List ℕ) (r w n : ℕ)
    → r ≤ w
    → w ≤ length xs
    → length xs ≤ n
    → take (w - r) (drop r (resize xs n)) ≡ take (w - r) (drop r xs)
window-resize xs r w n rw' wl ln =
    ap (λ l. take (w - r) (drop r (l ++ zeros))) (take_all n xs ln)
    ∙ ap (take (w - r)) (drop-append_le r xs zeros (omega arith))
    ∙ take-append_le (w - r) (drop r xs) zeros (omega (arith, length-drop r xs))
  where
    zeros : List ℕ
    zeros = replicate (n - length xs) 0

readable-make_room :
    {b : Buffer} (n : ℕ)
    → IsValid b
    → length b.bytes + n + idx_begin < max_size
    → readable (make_room b n) ≡ readable b
unfolding make_room re_size
readable-make_room {b} n v h = elim (Bool-cases (ltb (writable_length b) n)) [
  | inl small ↦ rw small (
      let s = ltb→lt _ _ small in
      let w = writable_length_lem v in
      let size = add_size (add_size (length b.bytes) (sub_size n (writable_length b))) idx_begin in
      window-resize b.bytes b.read_idx b.write_idx size v.ordered v.in_storage (omega arith))
  | inr big ↦ rw big
]

readable-put :
    {c : Buffer} (xs : List ℕ)
    → IsValid c
    → c.write_idx + length xs ≤ length c.bytes
    → readable (add_write_index (put_bytes c xs) (length xs)) ≡ readable c ++ xs
unfolding put_bytes add_write_index
readable-put {c} xs v h =
    ap (take k) (
      drop-append_le c.read_idx (take c.write_idx c.bytes) (xs ++ rest)
        (omega (arith, length-take c.write_idx c.bytes)))
    ∙ ap (λ l. take k (l ++ (xs ++ rest))) (drop-take c.read_idx c.write_idx c.bytes)
    ∙ ap (take k) (sym (append_assoc (readable c) xs rest))
    ∙ take-append k (readable c ++ xs) rest
        (omega (arith, length-append (readable c) xs, length-readable v, readable_length_lem v))
  where
    k : ℕ
    k = add_size c.write_idx (length xs) - c.read_idx

    rest : List ℕ
    rest = drop (c.write_idx + length xs) c.bytes

-- `AppendData` puts the bytes at the end of the queue, wherever the indices stood and however much
-- the vector had to grow.
pub readable-append_data :
    {b : Buffer} (xs : List ℕ)
    → IsValid b
    → length b.bytes + length xs + idx_begin < max_size
    → readable (append_data b xs) ≡ Fifo.append_data (readable b) xs
unfolding append_data
readable-append_data {b} xs v h =
    let a = adjust_buffer-IsValid v in
    let r = make_room-Room (length xs) a.0 (omega arith) in
    readable-put xs r.valid r.fits
    ∙ ap (λ l. l ++ xs)
        (readable-make_room (length xs) a.0 (omega arith) ∙ readable-adjust_buffer v)

-- The bytes that a read delivers.
abbrev pub delivered : SockRead → List ℕ
delivered failed = []
delivered (received xs) = xs

readable-store_read :
    {b : Buffer} (r : SockRead)
    → IsValid b
    → ((xs : List ℕ) → r ≡ received xs → length xs ≤ writable_length b)
    → readable (store_read b r) ≡ readable b ++ delivered r
unfolding store_read
readable-store_read {b} failed v h = sym (append-nil (readable b))
readable-store_read {b} (received []) v h = sym (append-nil (readable b))
readable-store_read (received (x ∷ xs)) v h =
    readable-put (x ∷ xs) v (omega (arith, h (x ∷ xs) refl, writable_length_lem v))

-- ReadFromSockfd puts what the socket delivers, which is no more than the room offered, at the end
-- of the queue.
pub readable-read_from_sockfd :
    {b : Buffer} (read : ℕ → SockRead)
    → Bounded read
    → IsValid b
    → let (r, c) = read_from_sockfd b read in
      readable c ≡ Fifo.append_data (readable b) (delivered r)
unfolding read_from_sockfd
readable-read_from_sockfd {b} read h v =
    readable-store_read _ (adjust_buffer-IsValid v).0 (λ xs e. h _ xs e)
    ∙ ap (λ l. l ++ delivered (read (writable_length (adjust_buffer b)))) (readable-adjust_buffer v)

-- `htonl` on a little-endian machine.
abbrev pub htonl : ℕ → ℕ
htonl n = n / 2 ^ 24 % 256 + n / 2 ^ 16 % 256 * 256 + n / 2 ^ 8 % 256 * 65536 + n % 256 * 16777216

word_memory :
    (n : ℕ)
    → (htonl n % 256)
        ∷ (htonl n / 256 % 256)
        ∷ (htonl n / 65536 % 256)
        ∷ (htonl n / 16777216 % 256)
        ∷ []
      ≡ be32 n
word_memory n =
    ap₂ (λ x l. x ∷ l) (let e : htonl n % 256 ≡ n / 2 ^ 24 % 256 = omega arith in e)
      (ap₂ (λ x l. x ∷ l) (let e : htonl n / 256 % 256 ≡ n / 2 ^ 16 % 256 = omega arith in e)
        (ap₂ (λ x l. x ∷ l) (let e : htonl n / 65536 % 256 ≡ n / 2 ^ 8 % 256 = omega arith in e)
          (ap (λ x. x ∷ []) (let e : htonl n / 16777216 % 256 ≡ n % 256 = omega arith in e))))

-- AppendData(htonl(n)) puts the four bytes of n at the end of the queue, most significant first.
pub readable-append_u32 :
    {b : Buffer} (n : ℕ)
    → IsValid b
    → length b.bytes + 4 + idx_begin < max_size
    → readable (append_u32 b (htonl n)) ≡ Fifo.append_data (readable b) (be32 n)
unfolding append_u32
readable-append_u32 {b} n v h =
    readable-append_data
      ((htonl n % 256)
        ∷ (htonl n / 256 % 256)
        ∷ (htonl n / 65536 % 256)
        ∷ (htonl n / 16777216 % 256)
        ∷ [])
      v h
    ∙ ap (λ l. readable b ++ l) (word_memory n)

-- Appending a valid buffer appends the bytes of its queue.
readable-append_buffer :
    {b c : Buffer}
    → IsValid b
    → IsValid c
    → length b.bytes + readable_length c + idx_begin < max_size
    → readable (append_buffer b c) ≡ Fifo.append_data (readable b) (readable c)
unfolding append_buffer
readable-append_buffer {b} {c} v w h =
    readable-append_data (readable c) v (omega (arith, length-readable w))

-- Reading to drop leaves the queue as it was.
readable-read_from_sockfd_and_drop :
    {b : Buffer} (read : ℕ → SockRead)
    → IsValid b
    → readable (read_from_sockfd_and_drop b read).1 ≡ readable b
unfolding read_from_sockfd_and_drop
readable-read_from_sockfd_and_drop read v = readable-adjust_buffer v
