-- ===== src/Flv/Reader.antt =====
-- utils/codec/FlvManager.cpp, `ParseFile`: the tags of a file that is open, through the buffer. The
-- buffer is a queue that holds `buffer_size` bytes, since nothing makes it larger.
pub mod Rounds
pub mod Tags
pub mod Endless
pub mod Misread
use live_broadcast_server.Common.{
  ℕ, zero, suc, ◌+◌, ◌-◌, ◌/◌, ap, Bool, true, not, Option, none, some, List, [], ◌∷◌, ◌++◌, ltb,
  if◌then◌else◌, length, take, drop, sub_size,
}
use live_broadcast_server.Fifo
use live_broadcast_server.Fifo.{Fifo}
use live_broadcast_server.File.{Stream}
use live_broadcast_server.Flv.{FlvHeader, FlvTag, new_tag, flv_tag_header_length}
use live_broadcast_server.Flv.Manager.{
  ParseStatus, tag_header, tag_data, TagParse, parse_header, parse_tag_header, parse_tag_data,
  parse_whole_tag, parse_video_audio, TagsParse,
}

abbrev pub buffer_size : ℕ
buffer_size = 30000

pub record FlvReader : Type 0 where
  pub stream : Stream
  pub buffer : Fifo
  pub parse_status : ParseStatus
  pub current_tag : FlvTag
  pub last_tag : Option FlvTag
  pub flv_tags : List FlvTag
  pub parsed_length : ℕ

abbrev pub new_reader : List ℕ → FlvReader
new_reader content = record {
  stream = record { unread = content; written = [] };
  buffer = [];
  parse_status = tag_header;
  current_tag = new_tag;
  last_tag = none;
  flv_tags = [];
  parsed_length = 0;
}

-- `ReadDataFromFile`: as much as the buffer has room for.
pub read_data_from_file : FlvReader → FlvReader
read_data_from_file r =
    let room = buffer_size - Fifo.readable_length r.buffer in
    record r {
      stream = record r.stream { unread = drop room r.stream.unread };
      buffer = Fifo.append_data r.buffer (take room r.stream.unread);
    }

-- What a function that reads a tag leaves behind, where the tag is the current one.
abbrev pub keep : TagParse → FlvReader → FlvReader
keep p r = record r { buffer = p.buffer; parse_status = p.status; current_tag = p.tag }

-- The comparison with the last tag is commented out.
pub check_tag : Option FlvTag → Bool
check_tag none = true
check_tag (some t) = true

-- A round goes on, or leaves the loop.
pub data Next : Type 0 where
  again stops : FlvReader → Next

-- The end of the round: the tag is kept, and `parsed` counts with its header.
abbrev pub push_tag : ℕ → FlvReader → FlvReader
push_tag parsed r = record r {
  last_tag = some r.current_tag;
  flv_tags = r.flv_tags ++ (r.current_tag ∷ []);
  current_tag = new_tag;
  parsed_length = r.parsed_length + parsed;
}

-- Behind `ParseTagData`; an error, -1, does not leave the round.
pub after_data : Option ℕ → FlvReader → Next
unfolding read_data_from_file
after_data none r = stops (push_tag (flv_tag_header_length - 1) r)
after_data (some zero) r = again (read_data_from_file r)
after_data (some (suc n)) r = again (push_tag (suc n + flv_tag_header_length) r)

pub data_round : FlvReader → Next
unfolding after_data
data_round r =
    let d = parse_tag_data r.buffer r.parse_status r.current_tag in after_data d.parsed (keep d r)

-- Behind `ParseTagHeader`.
pub after_header : Option ℕ → FlvReader → Next
unfolding read_data_from_file data_round check_tag
after_header none r = stops r
after_header (some zero) r = again (read_data_from_file r)
after_header (some (suc n)) r = if check_tag r.last_tag then data_round r else stops r

pub header_round : FlvReader → Next
unfolding after_header
header_round r =
    let h = parse_tag_header r.buffer r.parse_status r.current_tag in
    after_header h.parsed (keep h r)

pub round_in : ParseStatus → FlvReader → Next
unfolding header_round data_round
round_in tag_header r = header_round r
round_in tag_data r = data_round r

pub next : (FlvReader → Option FlvReader) → Next → Option FlvReader
next f (again r) = f r
next f (stops r) = some r

-- The `while`; `none` when `fuel` is too small.
pub parse_rounds : ℕ → ℕ → FlvReader → Option FlvReader
unfolding round_in next
parse_rounds zero limit r = if ltb r.parsed_length limit then none else some r
parse_rounds (suc fuel) limit r =
    let rest = next (parse_rounds fuel limit) (round_in r.parse_status r) in
    if ltb r.parsed_length limit then rest else some r

-- `file_.GetFileSize() > parse_length ? parse_length : file_.GetFileSize() - 4`
abbrev pub limit_of : ℕ → ℕ → ℕ
limit_of file_size parse_length =
    if ltb parse_length file_size then parse_length else sub_size file_size 4

-- The manager, with the header of the file and the tags that are kept apart.
pub record FlvFile : Type 0 where
  pub reader : FlvReader
  pub flv_header : FlvHeader
  pub script_tag : FlvTag
  pub first_tag : FlvTag
  pub second_tag : FlvTag

-- `none` is the return of -1 from here on.
pub after_video_audio : Option ℕ → TagsParse → FlvFile → Option FlvFile
after_video_audio none p f = none
after_video_audio (some n) p f = some (record f {
  reader = record f.reader {
    buffer = p.buffer;
    parse_status = p.status;
    current_tag = new_tag;
    parsed_length = f.reader.parsed_length + n;
  };
  first_tag = p.first;
  second_tag = p.second;
})

pub after_script : Option ℕ → TagParse → FlvFile → Option FlvFile
unfolding after_video_audio
after_script none p f = none
after_script (some n) p f =
    let v = parse_video_audio p.buffer p.status f.first_tag f.second_tag in
    after_video_audio v.sum_parsed v (record f {
      reader = record f.reader { parsed_length = f.reader.parsed_length + n };
      script_tag = p.tag;
    })

abbrev pub header_of : FlvHeader → Option FlvHeader → FlvHeader
header_of h none = h
header_of h (some k) = k

-- `ParseFile` in front of the loop: one reading, the header, and three tags.
pub parse_heads : FlvFile → Option FlvFile
unfolding read_data_from_file after_script
parse_heads f =
    let r = read_data_from_file f.reader in
    let header = parse_header r.buffer f.flv_header in
    let p = parse_whole_tag header.1 r.parse_status f.script_tag in
    after_script p.parsed p (record f {
      reader = record r { parsed_length = r.parsed_length + header.0 };
      flv_header = header_of f.flv_header header.2;
    })

pub data FileParse : Type 0 where
  failed unfinished : FileParse
  parsed : FlvFile → FileParse

pub after_rounds : Option FlvReader → FlvFile → FileParse
after_rounds none f = unfinished
after_rounds (some r) f = parsed (record f { reader = r })

pub after_heads : ℕ → ℕ → Option FlvFile → FileParse
unfolding parse_rounds after_rounds
after_heads fuel limit none = failed
after_heads fuel limit (some f) = after_rounds (parse_rounds fuel limit f.reader) f

-- `file_size` is what `GetFileSize` returns.
pub parse_file : ℕ → ℕ → ℕ → FlvFile → FileParse
unfolding parse_heads after_heads
parse_file fuel file_size parse_length f =
    after_heads fuel (limit_of file_size parse_length) (parse_heads f)
