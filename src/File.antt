-- ===== src/File.antt =====
-- utils/File.h and File.cpp. The disk is an argument: what can be read behind `fopen` in a mode, and
-- the size that `stat` tells. A `FILE*` is what is still to be read and what has been written.
pub mod ReadAll
use live_broadcast_server.Common.{
  ℕ, zero, suc, ◌+◌, ◌-◌, ◌*◌, ◌/◌, ap, Bool, true, false, not, Option, none, some, List, [], ◌∷◌,
  ◌++◌, ltb, ◌==◌, if◌then◌else◌, length, take, drop, size_mod,
}
use live_broadcast_server.Buffer
use live_broadcast_server.Buffer.{Buffer}

pub record Disk : Type 0 where
  -- `fopen(path, mode)`; `none` is a null pointer
  pub open_path : List ℕ → List ℕ → Option (List ℕ)
  -- `st_size`; 0 where `stat` fails, since the structure was zeroed
  pub size_of : List ℕ → ℕ

pub record Stream : Type 0 where
  pub unread : List ℕ
  pub written : List ℕ

pub record File : Type 0 where
  pub path : List ℕ
  pub file : Option Stream
  pub st_size : ℕ

pub data OpenMode : Type 0 where
  o_rdonly o_wronly o_append o_rdwr : OpenMode

abbrev pub open_mode_to_string : OpenMode → List ℕ
open_mode_to_string o_rdonly = b'r' ∷ b'b' ∷ []
open_mode_to_string o_wronly = b'w' ∷ b'b' ∷ []
open_mode_to_string o_append = b'a' ∷ b'b' ∷ []
open_mode_to_string o_rdwr = b'r' ∷ b'b' ∷ b'+' ∷ []

abbrev pub stream_of : Option (List ℕ) → Option Stream
stream_of none = none
stream_of (some content) = some (record { unread = content; written = [] })

abbrev pub fopen : Disk → List ℕ → OpenMode → Option Stream
fopen disk path mode = stream_of (disk.open_path path (open_mode_to_string mode))

-- `File()`, and `File(file, openmode)`
abbrev pub new_file : File
new_file = record { path = []; file = none; st_size = 0 }

pub file_at : Disk → List ℕ → OpenMode → File
file_at disk path mode = record { path = path; file = fopen disk path mode; st_size = 0 }

abbrev pub is_opened_in : Option Stream → Bool
is_opened_in none = false
is_opened_in (some s) = true

abbrev pub is_opened : File → Bool
is_opened f = is_opened_in f.file

-- `Open`, which leaves `path_` as it is.
pub open_file : Disk → List ℕ → OpenMode → File → Bool × File
open_file disk path mode f =
    if is_opened f
    then (false, f)
    else (is_opened_in (fopen disk path mode), record f { file = fopen disk path mode })

pub close : File → File
close f = record f { file = none }

-- `Read(char*, size_t)`: the bytes that were read; `none` is -1.
pub read_in : Option Stream → ℕ → File → Option (List ℕ) × File
read_in none n f = (none, f)
read_in (some s) n f =
    (some (take n s.unread), record f { file = some (record s { unread = drop n s.unread }) })

pub read : ℕ → File → Option (List ℕ) × File
unfolding read_in
read n f = read_in f.file n f

-- `result` as the `size_t` that `AddWriteIndex` takes.
abbrev pub as_size : Option (List ℕ) → ℕ
as_size none = size_mod - 1
as_size (some xs) = length xs

abbrev pub put_read : Buffer → Option (List ℕ) → Buffer
put_read b none = b
put_read b (some xs) = Buffer.put_bytes b xs

-- `Read(Buffer*)`, of a pointer that is not null.
pub read_buffer : Buffer → File → Option (List ℕ) × Buffer × File
unfolding read
read_buffer b f =
    let a = Buffer.adjust_buffer b in
    let r = read (Buffer.writable_length a) f in
    (r.0, Buffer.add_write_index (put_read a r.0) (as_size r.0), r.1)

-- `Write(const char*, size_t)`; `accepts` is how many bytes `fwrite` takes at most.
pub write_in : Option Stream → ℕ → List ℕ → File → Option ℕ × File
write_in none accepts xs f = (none, f)
write_in (some s) accepts xs f = (
  some (length (take accepts xs)),
  record f { file = some (record s { written = s.written ++ take accepts xs }) },
)

pub write : ℕ → List ℕ → File → Option ℕ × File
unfolding write_in
write accepts xs f = write_in f.file accepts xs f

-- `Write(const Buffer*)`, of a pointer that is not null: the buffer keeps its data.
pub write_buffer : ℕ → Buffer → File → Option ℕ × File
unfolding write
write_buffer accepts b f = write accepts (Buffer.readable b) f

pub get_file_size : Disk → File → ℕ × File
get_file_size disk f =
    let size = (if f.st_size == 0 then disk.size_of f.path else f.st_size) in
    (size, record f { st_size = size })

abbrev pub bytes_of : Option (List ℕ) → List ℕ
bytes_of none = []
bytes_of (some xs) = xs

-- The branches on `read_length`.
pub after_read : Option (List ℕ) → List ℕ → Option (Bool × List ℕ) → Option (Bool × List ℕ)
after_read none content rest = some (false, content)
after_read (some []) content rest = some (true, content)
after_read (some (x ∷ xs)) content rest = rest

-- The `while` of `ReadFileAsString`: `none` when `fuel` is too small, otherwise what is returned, and
-- the content.
pub read_rounds : ℕ → ℕ → ℕ → File → List ℕ → Option (Bool × List ℕ)
unfolding read after_read
read_rounds zero size got f content = if ltb got size then none else some (true, content)
read_rounds (suc fuel) size got f content =
    let r = read 1024 f in
    let rest = read_rounds fuel size (got + length (bytes_of r.0)) r.1 (content ++ bytes_of r.0) in
    if ltb got size then after_read r.0 content rest else some (true, content)

-- Enough for a round for every byte.
pub read_file_as_string : Disk → List ℕ → List ℕ → Option (Bool × List ℕ)
unfolding read_rounds file_at get_file_size
read_file_as_string disk path content =
    let f = file_at disk path o_rdonly in
    let size = get_file_size disk f in
    if is_opened f then read_rounds size.0 size.0 0 size.1 content else some (false, content)
