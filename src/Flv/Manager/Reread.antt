-- ===== src/Flv/Manager/Reread.antt =====
-- utils/codec/FlvManager.cpp against utils/codec/FlvCodec.cpp: a tag that was written reads back.
use live_broadcast_server.Common.{
  ℕ, ◌+◌, ◌<◌, ◌≡◌, refl, sym, some, List, [], ◌++◌, append-nil, arith, le→ltb, le→leb, lt→leb, ap,
  length, length-append, take-append, drop-append, u32_mod, sub_size,
}
use live_broadcast_server.Flv.{
  FlvTag, new_tag, get_data_size, get_body_data_length, append_data, decode_tag_header,
  decode_tag_handler,
}
use live_broadcast_server.Flv.Manager.{
  ParseStatus, tag_header, tag_data, parse_tag_header, parse_tag_data, parse_whole_tag,
}

-- A tag whose header is whole and whose body is as long as it says, and not empty.
pub record IsTag (t : FlvTag) : Type 0 where
  pub header_length : length t.header ≡ 11
  pub body_length : length t.body ≡ get_data_size t
  pub body_bound : length t.body < u32_mod
  pub not_empty : 0 < length t.body

pub parse_tag_header-append :
    (header rest : List ℕ) (status : ParseStatus)
    → length header ≡ 11
    → parse_tag_header (header ++ rest) status new_tag ≡ record {
      parsed = some 11;
      tag = record { header = header; body = [] };
      status = tag_data;
      buffer = rest;
    }
unfolding parse_tag_header decode_tag_header decode_tag_handler
parse_tag_header-append header rest status e = rw (
  le→ltb (length (header ++ rest)) 11 (omega (arith, length-append header rest)),
  take-append 11 header rest (sym e),
  e,
  append-nil header,
  drop-append 11 header rest (sym e),
)

parse_tag_header-tag :
    (t : FlvTag) (rest : List ℕ) (status : ParseStatus)
    → length t.header ≡ 11
    → parse_tag_header (t.header ++ (t.body ++ rest)) status new_tag ≡ record {
      parsed = some 11;
      tag = record { header = t.header; body = [] };
      status = tag_data;
      buffer = t.body ++ rest;
    }
parse_tag_header-tag t rest status e = parse_tag_header-append t.header (t.body ++ rest) status e

-- What is missing of a body of which `got` is there.
remain_size-part :
    (t : FlvTag) (got b : List ℕ)
    → IsTag t
    → t.body ≡ got ++ b
    → sub_size
        (get_data_size (record { header = t.header; body = got }))
        (get_body_data_length (record { header = t.header; body = got }))
      ≡ length b
unfolding get_data_size get_body_data_length
remain_size-part t got b v e =
    let l = ap length e in omega (arith, v.body_length, v.body_bound, l, length-append got b)

-- The rest of a body is there, and more.
pub parse_tag_data-rest :
    (t : FlvTag) (got b ys : List ℕ)
    → IsTag t
    → t.body ≡ got ++ b
    → parse_tag_data (b ++ ys) tag_data (record { header = t.header; body = got })
      ≡ record { parsed = some (length t.body); tag = t; status = tag_header; buffer = ys }
unfolding parse_tag_data append_data
parse_tag_data-rest t got b ys v e = rw (
  remain_size-part t got b v e,
  le→leb (length b) (length (b ++ ys)) (omega (arith, length-append b ys)),
  take-append (length b) b ys refl,
  drop-append (length b) b ys refl,
  sym v.body_length,
  sym e,
)

-- The buffer is a part of what is missing.
pub parse_tag_data-part :
    (t : FlvTag) (got b buffer : List ℕ)
    → IsTag t
    → t.body ≡ got ++ b
    → length buffer < length b
    → parse_tag_data buffer tag_data (record { header = t.header; body = got }) ≡ record {
      parsed = some 0;
      tag = record { header = t.header; body = got ++ buffer };
      status = tag_data;
      buffer = [];
    }
unfolding parse_tag_data append_data
parse_tag_data-part t got b buffer v e h =
    rw (remain_size-part t got b v e, lt→leb (length b) (length buffer) h) refl

parse_tag_data-tag :
    (t : FlvTag) (rest : List ℕ)
    → IsTag t
    → parse_tag_data (t.body ++ rest) tag_data (record { header = t.header; body = [] })
      ≡ record { parsed = some (length t.body); tag = t; status = tag_header; buffer = rest }
parse_tag_data-tag t rest v = parse_tag_data-rest t [] t.body rest v refl

-- What follows a tag in the buffer does not matter: a tag that was written, header and body, is read
-- back as it was, its whole length is reported, and the buffer is left at what follows it. The tag's
-- header is whole, and its body is not empty and as long as the header says.
pub parse_whole_tag-tag :
    (t : FlvTag) (rest : List ℕ) (status : ParseStatus)
    → IsTag t
    → parse_whole_tag (t.header ++ (t.body ++ rest)) status new_tag
      ≡ record { parsed = some (11 + length t.body); tag = t; status = tag_header; buffer = rest }
unfolding parse_whole_tag
parse_whole_tag-tag t rest status v =
    rw (parse_tag_header-tag t rest status v.header_length, parse_tag_data-tag t rest v)
      (ground (arith, v.not_empty))
