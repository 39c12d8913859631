-- ===== src/Flv/Reader/Endless.antt =====
-- utils/codec/FlvManager.cpp: the loop of `ParseFile` does not notice the end of the file.
use live_broadcast_server.Common.{
  ℕ, zero, suc, ◌-◌, ◌<◌, ◌≡◌, refl, ap, ◌∙◌, none, List, [], arith, lt→ltb, length, take, drop,
  length-append, drop-nil,
}
use live_broadcast_server.Flv.{flv_tag_header_length}
use live_broadcast_server.Flv.Manager.{tag_header}
use live_broadcast_server.Flv.Reader.{
  FlvReader, buffer_size, read_data_from_file, next, parse_rounds,
}
use live_broadcast_server.Flv.Reader.Rounds.{header_round_short}
use live_broadcast_server.Flv.Reader.Tags.{rounds_more, round_in-header}

-- In front of a tag, with less than its header in the buffer and nothing left in the file.
pub record IsExhausted (limit : ℕ) (r : FlvReader) : Type 0 where
  pub at_header : r.parse_status ≡ tag_header
  pub is_short : length r.buffer < flv_tag_header_length
  pub at_end : r.stream.unread ≡ []
  pub below_limit : r.parsed_length < limit

take-nil : (n : ℕ) → take n (let e : List ℕ = [] in e) ≡ []
take-nil zero = refl
take-nil (suc n) = refl

read-IsExhausted :
    (limit : ℕ) (r : FlvReader) → IsExhausted limit r → IsExhausted limit (read_data_from_file r)
unfolding read_data_from_file
read-IsExhausted limit r v =
    let room = buffer_size - length r.buffer in
    record {
      at_header = v.at_header;
      is_short =
          let l = length-append r.buffer (take room r.stream.unread) in
          let e = ap (λ u. length (take room u)) v.at_end in
          let z = ap length (take-nil room) in omega (arith, v.is_short, l, e, z);
      at_end = ap (drop room) v.at_end ∙ drop-nil room;
      below_limit = v.below_limit;
    }

out_of_fuel : (limit : ℕ) (r : FlvReader) → r.parsed_length < limit → parse_rounds 0 limit r ≡ none
unfolding parse_rounds
out_of_fuel limit r h = rw (lt→ltb r.parsed_length limit h) refl

-- In front of a tag whose header is not all there, at the end of the file and below the limit, the
-- loop of ParseFile never ends, whatever number of rounds it is given.
pub parse_rounds-endless :
    (fuel limit : ℕ) (r : FlvReader) → IsExhausted limit r → parse_rounds fuel limit r ≡ none
unfolding next
parse_rounds-endless zero limit r v = out_of_fuel limit r v.below_limit
parse_rounds-endless (suc fuel) limit r v =
    rounds_more fuel limit r v.below_limit
    ∙ ap (next (parse_rounds fuel limit))
        (round_in-header r v.at_header ∙ header_round_short r v.is_short)
    ∙ parse_rounds-endless fuel limit (read_data_from_file r) (read-IsExhausted limit r v)
