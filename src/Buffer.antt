-- ===== src/Buffer.antt =====
-- utils/Buffer.h and utils/Buffer.cpp: the byte buffer that every connection and packet holds.
-- A `vector<char>` with a read and a write index and two running totals. A write through
-- `WriteBegin()` is `overwrite`; indices are `size_t` and keep their wrap-around.
pub mod Inv
pub mod Refine
pub mod Run
pub mod Sums
use live_broadcast_server.Common.{
  ℕ, ◌+◌, ◌-◌, ◌<◌, Option, none, some, List, [], ◌∷◌, ◌++◌, ltb, if◌then◌else◌, length, take, drop,
  replicate, overwrite, add_size, sub_size, ◌%◌, ◌/◌,
}

abbrev default_buffer_size : ℕ
default_buffer_size = 4096

abbrev pub idx_begin : ℕ
idx_begin = 8

pub record Buffer : Type 0 where
  pub bytes : List ℕ
  pub read_idx : ℕ
  pub write_idx : ℕ
  pub sum_read : ℕ
  pub sum_write : ℕ

-- `Buffer(size_t buffer_size)`: the vector is zeroed.
pub init : ℕ → Buffer
init buffer_size = record {
  bytes = replicate (add_size buffer_size idx_begin) 0;
  read_idx = idx_begin;
  write_idx = idx_begin;
  sum_read = 0;
  sum_write = 0;
}

pub readable_length : Buffer → ℕ
readable_length b = sub_size b.write_idx b.read_idx

pub writable_length : Buffer → ℕ
writable_length b = sub_size (length b.bytes) b.write_idx

pub add_write_index : Buffer → ℕ → Buffer
add_write_index b index = record b {
  sum_write = add_size b.sum_write index;
  write_idx = add_size b.write_idx index;
}

-- After `sum_read_ += ReadableLength()` the readable length is still the old one.
pub add_read_index : Buffer → ℕ → Buffer
unfolding readable_length
add_read_index b index =
    let moved = (if ltb (readable_length b) index then readable_length b else index) in
    record b { sum_read = add_size b.sum_read moved; read_idx = add_size b.read_idx moved }

-- The bytes from `ReadBegin()` to `WriteBegin()`.
abbrev pub readable : Buffer → List ℕ
readable b = take (b.write_idx - b.read_idx) (drop b.read_idx b.bytes)

pub adjust_buffer : Buffer → Buffer
unfolding readable_length
adjust_buffer b = record b {
  bytes = overwrite b.bytes idx_begin (readable b);
  read_idx = idx_begin;
  write_idx = add_size idx_begin (readable_length b);
}

pub reset : Buffer → Buffer
reset b = record b { read_idx = idx_begin; write_idx = idx_begin; sum_read = 0; sum_write = 0 }

-- `vector::resize`: cut, or filled up with zeros.
abbrev pub resize : List ℕ → ℕ → List ℕ
resize xs n = take n xs ++ replicate (n - length xs) 0

pub re_size : Buffer → ℕ → Buffer
re_size b new_size = record b { bytes = resize b.bytes (add_size new_size idx_begin) }

-- `if (length > WritableLength()) ReSize(buffer_.size() + remain)`
pub make_room : Buffer → ℕ → Buffer
unfolding writable_length re_size
make_room b n =
    if ltb (writable_length b) n
    then re_size b (add_size (length b.bytes) (sub_size n (writable_length b)))
    else b

-- The `memcpy` to `WriteBegin()`.
pub put_bytes : Buffer → List ℕ → Buffer
put_bytes b xs = record b { bytes = overwrite b.bytes b.write_idx xs }

pub append_data : Buffer → List ℕ → Buffer
unfolding adjust_buffer make_room put_bytes add_write_index
append_data b xs =
    add_write_index (put_bytes (make_room (adjust_buffer b) (length xs)) xs) (length xs)

-- `AppendData(const Buffer&)`
pub append_buffer : Buffer → Buffer → Buffer
append_buffer b c = append_data b (readable c)

-- `AppendData(const Buffer*)` of a pointer that is not null, and `AppendData(const std::string&)`.
pub append_buffer_pointer : Buffer → Buffer → Buffer
append_buffer_pointer b c = append_buffer b c

pub append_string : Buffer → List ℕ → Buffer
append_string b str = append_data b str

-- `AppendData(size_t)`: the eight bytes of the word in memory.
pub append_size : Buffer → ℕ → Buffer
append_size b n = append_data b (
    (n % 256)
    ∷ (n / 256 % 256)
    ∷ (n / 65536 % 256)
    ∷ (n / 16777216 % 256)
    ∷ (n / 4294967296 % 256)
    ∷ (n / 1099511627776 % 256)
    ∷ (n / 281474976710656 % 256)
    ∷ (n / 72057594037927936 % 256)
    ∷ [])

-- `GetSumRead()` and `GetSumWrite()`
pub get_sum_read : Buffer → ℕ
get_sum_read b = b.sum_read

pub get_sum_write : Buffer → ℕ
get_sum_write b = b.sum_write

-- `AppendData(uint32_t)`: the four bytes of the word in memory, low byte first.
pub append_u32 : Buffer → ℕ → Buffer
append_u32 b n =
    append_data b ((n % 256) ∷ (n / 256 % 256) ∷ (n / 65536 % 256) ∷ (n / 16777216 % 256) ∷ [])

-- `DropAllData()` and `ReadAllAsString()`
pub drop_all_data : Buffer → Buffer
drop_all_data b = add_read_index b (readable_length b)

pub read_all_as_string : Buffer → List ℕ × Buffer
read_all_as_string b = (readable b, add_read_index b (readable_length b))

-- What `read(2)` does: an error, or the bytes that it stored (none at the end of the stream).
pub data SockRead : Type 0 where
  failed : SockRead
  received : List ℕ → SockRead

-- `if (result <= 0) return result; AddWriteIndex(result);`
store_read : Buffer → SockRead → Buffer
unfolding put_bytes add_write_index
store_read b failed = b
store_read b (received []) = b
store_read b (received (x ∷ xs)) = add_write_index (put_bytes b (x ∷ xs)) (length (x ∷ xs))

-- The socket is a function from the room offered to what the read returns.
pub read_from_sockfd : Buffer → (ℕ → SockRead) → SockRead × Buffer
unfolding adjust_buffer writable_length store_read
read_from_sockfd b read =
    let a = adjust_buffer b in
    let result = read (writable_length a) in (result, store_read a result)

-- `ReadFromSockfdAndDrop`: what is read lies past the write index and is forgotten.
pub read_from_sockfd_and_drop : Buffer → (ℕ → SockRead) → SockRead × Buffer
unfolding adjust_buffer writable_length
read_from_sockfd_and_drop b read = let a = adjust_buffer b in (read (writable_length a), a)

-- `SwapBuffer`, with every member; `none` is a null pointer.
pub swap_buffer : Buffer → Option Buffer → Buffer × Option Buffer
swap_buffer b none = (b, none)
swap_buffer b (some c) = (c, some b)
