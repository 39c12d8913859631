-- ===== src/Buffer/Inv.antt =====
-- utils/Buffer.cpp: the representation invariant of a buffer, kept by every operation.
use live_broadcast_server.Common.{
  Option, none, some, subst, ℕ, ◌+◌, ◌-◌, ◌^◌, ◌≤◌, ◌<◌, ◌≡◌, refl, List, [], ◌∷◌, length, ltb,
  arith, length-overwrite, length-append, length-take, length-drop, length-replicate, take, drop,
  replicate, Bool-cases, inl, inr, ltb→lt, ltb→le, sub_size, add_size,
}
use live_broadcast_server.Buffer.{
  Buffer, idx_begin, init, readable_length, writable_length, add_write_index, add_read_index,
  readable, adjust_buffer, reset, resize, re_size, make_room, put_bytes, append_data, SockRead,
  failed, received, store_read, read_from_sockfd, swap_buffer,
}

-- `PTRDIFF_MAX`, the largest size of a `vector<char>`.
abbrev pub max_size : ℕ
max_size = 2 ^ 63

pub record IsValid (b : Buffer) : Type 0 where
  pub after_begin : idx_begin ≤ b.read_idx
  pub ordered : b.read_idx ≤ b.write_idx
  pub in_storage : b.write_idx ≤ length b.bytes
  pub storage_lt : length b.bytes < max_size

pub init-IsValid : (n : ℕ) → n < 2 ^ 62 → IsValid (init n)
unfolding init
init-IsValid n h = omega (arith, length-replicate (add_size n idx_begin) (let z : ℕ = 0 in z))

pub readable_length_lem : {b : Buffer} → IsValid b → readable_length b ≡ b.write_idx - b.read_idx
unfolding readable_length
readable_length_lem v = omega arith

pub writable_length_lem :
    {b : Buffer} → IsValid b → writable_length b ≡ length b.bytes - b.write_idx
unfolding writable_length
writable_length_lem v = omega arith

pub length-readable : {b : Buffer} → IsValid b → length (readable b) ≡ readable_length b
unfolding readable_length
length-readable {b} v = omega (
  arith,
  length-take (b.write_idx - b.read_idx) (drop b.read_idx b.bytes),
  length-drop b.read_idx b.bytes,
)

pub add_read_index-IsValid : {b : Buffer} (n : ℕ) → IsValid b → IsValid (add_read_index b n)
unfolding add_read_index readable_length
add_read_index-IsValid n v = ground arith

-- `AdjustBuffer` keeps the storage as long as it was.
pub adjust_buffer-IsValid :
    {b : Buffer}
    → IsValid b
    → IsValid (adjust_buffer b) × (length (adjust_buffer b).bytes ≡ length b.bytes)
unfolding adjust_buffer
adjust_buffer-IsValid {b} v =
    let n = length-readable v in
    let m = readable_length_lem v in
    let l = length-overwrite b.bytes idx_begin (readable b) (omega arith) in
    (
      record {
        after_begin = omega arith;
        ordered = omega arith;
        in_storage = omega arith;
        storage_lt = omega arith;
      },
      l,
    )

reset-IsValid : {b : Buffer} → IsValid b → IsValid (reset b)
unfolding reset
reset-IsValid v = omega arith

length-resize : (xs : List ℕ) (n : ℕ) → length (resize xs n) ≡ n
length-resize xs n = omega (
  arith,
  length-append (take n xs) (replicate (n - length xs) 0),
  length-take n xs,
  length-replicate (n - length xs) (let z : ℕ = 0 in z),
)

-- After `make_room` the write of `n` bytes fits; nothing else has changed.
pub record Room (b : Buffer) (n : ℕ) (c : Buffer) : Type 0 where
  pub valid : IsValid c
  pub fits : c.write_idx + n ≤ length c.bytes
  pub same_read : c.read_idx ≡ b.read_idx
  pub same_write : c.write_idx ≡ b.write_idx
  pub bounded : length c.bytes ≤ length b.bytes + n + idx_begin

pub make_room-Room :
    {b : Buffer} (n : ℕ)
    → IsValid b
    → length b.bytes + n + idx_begin < max_size
    → Room b n (make_room b n)
unfolding make_room re_size
make_room-Room {b} n v h = elim (Bool-cases (ltb (writable_length b) n)) [
  | inl small ↦ rw small (
      let s = ltb→lt _ _ small in
      let w = writable_length_lem v in
      let size = add_size (add_size (length b.bytes) (sub_size n (writable_length b))) idx_begin in
      let l = length-resize b.bytes size in
      record {
        valid = omega arith;
        fits = omega arith;
        same_read = refl;
        same_write = refl;
        bounded = omega arith;
      })
  | inr big ↦ rw big (
      let s = ltb→le _ _ big in
      let w = writable_length_lem v in
      record {
        valid = v;
        fits = omega arith;
        same_read = refl;
        same_write = refl;
        bounded = omega arith;
      })
]

put-IsValid :
    {c : Buffer} (xs : List ℕ)
    → IsValid c
    → c.write_idx + length xs ≤ length c.bytes
    → IsValid (add_write_index (put_bytes c xs) (length xs))
unfolding put_bytes add_write_index
put-IsValid {c} xs v h = omega (arith, length-overwrite c.bytes c.write_idx xs h)

-- AppendData keeps the invariant while the vector can still grow.
pub append_data-IsValid :
    {b : Buffer} (xs : List ℕ)
    → IsValid b
    → length b.bytes + length xs + idx_begin < max_size
    → IsValid (append_data b xs)
unfolding append_data
append_data-IsValid {b} xs v h =
    let a = adjust_buffer-IsValid v in
    let r = make_room-Room (length xs) a.0 (omega arith) in put-IsValid xs r.valid r.fits

-- The read returns at most as many bytes as there is room for.
abbrev pub Bounded : (ℕ → SockRead) → Type 0
Bounded read = (n : ℕ) (xs : List ℕ) → read n ≡ received xs → length xs ≤ n

store_read-IsValid :
    {b : Buffer} (r : SockRead)
    → IsValid b
    → ((xs : List ℕ) → r ≡ received xs → length xs ≤ writable_length b)
    → IsValid (store_read b r)
unfolding store_read
store_read-IsValid failed v h = v
store_read-IsValid (received []) v h = v
store_read-IsValid (received (x ∷ xs)) v h =
    put-IsValid (x ∷ xs) v (omega (arith, h (x ∷ xs) refl, writable_length_lem v))

read_from_sockfd-IsValid :
    {b : Buffer} (read : ℕ → SockRead)
    → Bounded read
    → IsValid b
    → IsValid (read_from_sockfd b read).1
unfolding read_from_sockfd
read_from_sockfd-IsValid {b} read h v =
    store_read-IsValid _ (adjust_buffer-IsValid v).0 (λ xs e. h _ xs e)

-- The two buffers of a swap keep the invariant.
swap_buffer-IsValid :
    {b : Buffer} (o : Option Buffer)
    → IsValid b
    → ((c : Buffer) → o ≡ some c → IsValid c)
    → IsValid (swap_buffer b o).0 × ((c : Buffer) → (swap_buffer b o).1 ≡ some c → IsValid c)
unfolding swap_buffer
swap_buffer-IsValid none v w = (v, w)
swap_buffer-IsValid {b} (some c) v w = (w c refl, λ d e. subst IsValid (let p : b ≡ d = cc in p) v)
