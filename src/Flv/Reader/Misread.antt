-- ===== src/Flv/Reader/Misread.antt =====
-- utils/codec/FlvManager.cpp: `ParseFile` on a file of the FLV format, where the size of each tag stands
-- behind it.
use live_broadcast_server.Common.{ℕ, ◌+◌, List, ◌++◌, length, take, drop, be32}
use live_broadcast_server.Flv.{FlvTag, flv_tag_header_length}

-- The size of a tag, which stands behind it in a file.
abbrev pub size_of : FlvTag → ℕ
size_of t = length t.body + flv_tag_header_length

-- A tag and its size.
abbrev pub in_file : FlvTag → List ℕ
in_file t = t.header ++ (t.body ++ be32 (size_of t))

-- What is taken for the tag behind one of `n` bytes: the size and seven bytes of the next tag's header,
-- which announce `n` bytes of data.
pub misread : ℕ → List ℕ → FlvTag
misread n rest = record { header = be32 n ++ take 7 rest; body = take n (drop 7 rest) }
