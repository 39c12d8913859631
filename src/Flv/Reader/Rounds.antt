-- ===== src/Flv/Reader/Rounds.antt =====
-- utils/codec/FlvManager.cpp: however the tags lie across the buffer's fillings, all are read.
use live_broadcast_server.Common.{
  ℕ, zero, suc, ◌+◌, ◌-◌, ◌≤◌, ◌<◌, ◌≡◌, refl, ap, ◌∙◌, true, Option, none, some, List, [], ◌∷◌,
  ◌++◌, append_assoc, arith, if◌then◌else◌, lt→ltb, length, take, drop, length-drop,
  take-append-drop,
}
use live_broadcast_server.Fifo.{Fifo}
use live_broadcast_server.Flv.{FlvTag, new_tag, flv_tag_header_length}
use live_broadcast_server.Flv.Manager.{
  ParseStatus, tag_header, tag_data, TagParse, parse_tag_header, parse_tag_data,
}
use live_broadcast_server.Flv.Manager.Reread.{
  IsTag, parse_tag_header-append, parse_tag_data-rest, parse_tag_data-part,
}
use live_broadcast_server.Flv.Reader.{
  FlvReader, buffer_size, read_data_from_file, keep, check_tag, again, stops, push_tag, after_data,
  data_round, after_header, header_round, parse_rounds,
}

-- Tags one behind another, without the sizes that a file of the FLV format has between them.
unfoldable pub all_bytes : List FlvTag → List ℕ
all_bytes [] = []
all_bytes (t ∷ ts) = t.header ++ (t.body ++ all_bytes ts)

unfoldable pub sum_sizes : List FlvTag → ℕ
sum_sizes [] = 0
sum_sizes (t ∷ ts) = length t.body + flv_tag_header_length + sum_sizes ts

pub data AllTags : List FlvTag → Type 0 where
  no_tags : AllTags []
  one_tag : {t : FlvTag} {ts : List FlvTag} → IsTag t → AllTags ts → AllTags (t ∷ ts)

-- The loop ends with the tags read behind those read before.
pub record Ends (limit : ℕ) (before : List FlvTag) (ts : List FlvTag) (o : Option FlvReader)
    : Type 0 where
  pub last : FlvReader
  pub is_last : o ≡ some last
  pub has_tags : last.flv_tags ≡ before ++ ts
  pub at_limit : last.parsed_length ≡ limit

-- What is still to be read, in the buffer or behind it.
abbrev pub ahead : FlvReader → List ℕ
ahead r = r.buffer ++ r.stream.unread

-- Where a reader stands: in front of the tags, or inside the first.
pub data Stands (tail : List ℕ) (r : FlvReader) : List FlvTag → Type 0 where
  between :
      {ts : List FlvTag}
      → r.parse_status ≡ tag_header
      → r.current_tag ≡ new_tag
      → ahead r ≡ all_bytes ts ++ tail
      → Stands tail r ts
  within :
      {t : FlvTag} {ts : List FlvTag} (got b : List ℕ)
      → r.parse_status ≡ tag_data
      → r.current_tag ≡ record { header = t.header; body = got }
      → t.body ≡ got ++ b
      → 0 < length b
      → ahead r ≡ b ++ (all_bytes ts ++ tail)
      → Stands tail r (t ∷ ts)

pub ahead-read : (r : FlvReader) → ahead (read_data_from_file r) ≡ ahead r
unfolding read_data_from_file
ahead-read r =
    let room = buffer_size - length r.buffer in
    append_assoc r.buffer (take room r.stream.unread) (drop room r.stream.unread)
    ∙ ap (λ l. r.buffer ++ l) (take-append-drop room r.stream.unread)

pub read-unread :
    (r : FlvReader)
    → length r.buffer < buffer_size
    → 0 < length r.stream.unread
    → length (read_data_from_file r).stream.unread < length r.stream.unread
unfolding read_data_from_file
read-unread r h p = omega (arith, length-drop (buffer_size - length r.buffer) r.stream.unread)

-- All that a number of rounds comes to.
unfoldable pub Reads : ℕ → Type 0
Reads fuel =
    (r : FlvReader) (ts : List FlvTag) (limit : ℕ) (tail : List ℕ)
    → AllTags ts
    → Stands tail r ts
    → r.parsed_length + sum_sizes ts ≡ limit
    → length r.stream.unread + length ts ≤ fuel
    → Ends limit r.flv_tags ts (parse_rounds fuel limit r)

check_tag-true : (o : Option FlvTag) → check_tag o ≡ true
unfolding check_tag
check_tag-true none = refl
check_tag-true (some t) = refl

-- A parser's arguments replaced by equal ones.
parse_data_with :
    (r : FlvReader) (bu : Fifo) (st : ParseStatus) (cu : FlvTag)
    → r.buffer ≡ bu
    → r.parse_status ≡ st
    → r.current_tag ≡ cu
    → parse_tag_data r.buffer r.parse_status r.current_tag ≡ parse_tag_data bu st cu
parse_data_with r bu st cu x y z =
    ap (λ l. parse_tag_data l r.parse_status r.current_tag) x
    ∙ ap (λ s. parse_tag_data bu s r.current_tag) y
    ∙ ap (parse_tag_data bu st) z

parse_header_with :
    (r : FlvReader) (bu : Fifo) (cu : FlvTag)
    → r.buffer ≡ bu
    → r.current_tag ≡ cu
    → parse_tag_header r.buffer r.parse_status r.current_tag ≡ parse_tag_header bu r.parse_status cu
parse_header_with r bu cu x z =
    ap (λ l. parse_tag_header l r.parse_status r.current_tag) x
    ∙ ap (parse_tag_header bu r.parse_status) z

after_data-positive :
    (n : ℕ) (r : FlvReader)
    → 0 < n
    → after_data (some n) r ≡ again (push_tag (n + flv_tag_header_length) r)
unfolding after_data
after_data-positive zero r h = absurd (omega arith)
after_data-positive (suc n) r h = refl

pub data_round_whole :
    (r : FlvReader) (t : FlvTag) (got b ys : List ℕ)
    → IsTag t
    → r.parse_status ≡ tag_data
    → r.current_tag ≡ record { header = t.header; body = got }
    → t.body ≡ got ++ b
    → r.buffer ≡ b ++ ys
    → data_round r
      ≡ again (
          push_tag
            (length t.body + flv_tag_header_length)
            (record r { buffer = ys; parse_status = tag_header; current_tag = t }))
unfolding data_round
data_round_whole r t got b ys v st cu e bu =
    ap (λ (d : TagParse). after_data d.parsed (keep d r))
      (parse_data_with r (b ++ ys) tag_data _ bu st cu ∙ parse_tag_data-rest t got b ys v e)
    ∙ after_data-positive (length t.body) _ v.not_empty

pub data_round_part :
    (r : FlvReader) (t : FlvTag) (got b : List ℕ)
    → IsTag t
    → r.parse_status ≡ tag_data
    → r.current_tag ≡ record { header = t.header; body = got }
    → t.body ≡ got ++ b
    → length r.buffer < length b
    → data_round r
      ≡ again (
          read_data_from_file (record r {
            buffer = [];
            parse_status = tag_data;
            current_tag = record { header = t.header; body = got ++ r.buffer };
          }))
unfolding data_round after_data
data_round_part r t got b v st cu e h =
    ap (λ (d : TagParse). after_data d.parsed (keep d r))
      (parse_data_with r r.buffer tag_data _ refl st cu
        ∙ parse_tag_data-part t got b r.buffer v e h)

pub header_round_whole :
    (r : FlvReader) (t : FlvTag) (ys : List ℕ)
    → length t.header ≡ 11
    → r.current_tag ≡ new_tag
    → r.buffer ≡ t.header ++ ys
    → header_round r
      ≡ data_round (record r {
        buffer = ys;
        parse_status = tag_data;
        current_tag = record { header = t.header; body = [] };
      })
unfolding header_round after_header
header_round_whole r t ys l cu bu =
    ap (λ (h : TagParse). after_header h.parsed (keep h r))
      (parse_header_with r (t.header ++ ys) new_tag bu cu
        ∙ parse_tag_header-append t.header ys r.parse_status l)
    ∙ ap
        (λ b.
          if b
          then data_round (record r {
            buffer = ys;
            parse_status = tag_data;
            current_tag = record { header = t.header; body = [] };
          })
          else stops (record r {
            buffer = ys;
            parse_status = tag_data;
            current_tag = record { header = t.header; body = [] };
          }))
        (check_tag-true r.last_tag)

parse_tag_header-short :
    (bu : Fifo) (st : ParseStatus) (cu : FlvTag)
    → length bu < flv_tag_header_length
    → parse_tag_header bu st cu ≡ record { parsed = some 0; tag = cu; status = st; buffer = bu }
unfolding parse_tag_header
parse_tag_header-short bu st cu h = rw (lt→ltb (length bu) 11 h) refl

pub header_round_short :
    (r : FlvReader)
    → length r.buffer < flv_tag_header_length
    → header_round r ≡ again (read_data_from_file r)
unfolding header_round after_header
header_round_short r h =
    ap (λ (p : TagParse). after_header p.parsed (keep p r))
      (parse_tag_header-short r.buffer r.parse_status r.current_tag h)
