-- ===== src/Flv/Reader/Tags.antt =====
-- utils/codec/FlvManager.cpp: the loop of `ParseFile` reads all the tags in front of its limit.
use live_broadcast_server.Common.{
  ℕ, zero, suc, ◌+◌, ◌≤◌, ◌<◌, ◌≡◌, refl, sym, ap, subst, ◌∙◌, some, List, [], ◌∷◌, ◌++◌,
  append-nil, append_assoc, arith, if◌then◌else◌, lt→ltb, le→ltb, length, length-append, cut_short,
  cut_long,
}
use native.Mathlib.Decide.{dec_le, dec_lt}
use live_broadcast_server.Flv.{FlvTag, new_tag, flv_tag_header_length}
use live_broadcast_server.Flv.Manager.{tag_header, tag_data}
use live_broadcast_server.Flv.Manager.Reread.{IsTag}
use live_broadcast_server.Flv.Reader.{
  FlvReader, read_data_from_file, Next, again, push_tag, data_round, header_round, round_in, next,
  parse_rounds,
}
use live_broadcast_server.Flv.Reader.Rounds.{
  all_bytes, sum_sizes, AllTags, one_tag, Ends, ahead, between, within, ahead-read, read-unread,
  Reads, data_round_whole, data_round_part, header_round_whole, header_round_short,
}

-- What is reached after a round is reached.
after_round :
    (fuel limit : ℕ) (r s : FlvReader) (ts us : List FlvTag) (n : Next)
    → n ≡ again s
    → s.flv_tags ++ us ≡ r.flv_tags ++ ts
    → Ends limit s.flv_tags us (parse_rounds fuel limit s)
    → Ends limit r.flv_tags ts (next (parse_rounds fuel limit) n)
unfolding next
after_round fuel limit r s ts us n e t o = record {
  last = o.last;
  is_last = ap (next (parse_rounds fuel limit)) e ∙ o.is_last;
  has_tags = o.has_tags ∙ t;
  at_limit = o.at_limit;
}

module _ (fuel limit : ℕ) (reads : Reads fuel) (tail : List ℕ) (r : FlvReader) (t : FlvTag)
    (ts : List FlvTag) (v : IsTag t) (vs : AllTags ts)
    (size : r.parsed_length + sum_sizes (t ∷ ts) ≡ limit) where
  data_step :
      (got b : List ℕ)
      → r.parse_status ≡ tag_data
      → r.current_tag ≡ record { header = t.header; body = got }
      → t.body ≡ got ++ b
      → 0 < length b
      → ahead r ≡ b ++ (all_bytes ts ++ tail)
      → length r.stream.unread + length ts ≤ fuel
      → Ends limit r.flv_tags (t ∷ ts) (next (parse_rounds fuel limit) (data_round r))
  unfolding read_data_from_file Reads sum_sizes
  data_step got b st cu e p a h =
      let rest = all_bytes ts ++ tail in
      elim (dec_le (length b) (length r.buffer)) [
        | yes l ↦
            let c = cut_short b rest r.buffer r.stream.unread (sym a) l in
            let s =
              push_tag (length t.body + flv_tag_header_length)
                (record r { buffer = c.0; parse_status = tag_header; current_tag = t }) in
            after_round fuel limit r s (t ∷ ts) ts (data_round r)
              (data_round_whole r t got b c.0 v st cu e c.1) (append_assoc r.flv_tags (t ∷ []) ts)
              (reads s ts limit tail vs (between refl refl (sym c.2)) (omega (arith, size)) h)
        | no g ↦
            let c = cut_long b rest r.buffer r.stream.unread (sym a) (omega arith) in
            let q = record r {
              buffer = [];
              parse_status = tag_data;
              current_tag = record { header = t.header; body = got ++ r.buffer };
            } in
            let s = read_data_from_file q in
            let lb : length b ≡ length r.buffer + length c.0 =
              ap length c.1 ∙ length-append r.buffer c.0 in
            let lu : length c.0 + length rest ≡ length r.stream.unread =
              sym (length-append c.0 rest) ∙ ap length c.2 in
            let less = read-unread q (omega arith) (omega (arith, lb, lu)) in
            after_round fuel limit r s (t ∷ ts) (t ∷ ts) (data_round r)
              (data_round_part r t got b v st cu e (omega arith)) refl
              (reads s (t ∷ ts) limit tail (one_tag v vs)
                (within (got ++ r.buffer) c.0 refl refl
                  (e ∙ ap (λ l. got ++ l) c.1 ∙ sym (append_assoc got r.buffer c.0))
                  (omega (arith, lb)) (ahead-read q ∙ sym c.2))
                size (omega (arith, less)))
      ]

module _ (fuel limit : ℕ) (reads : Reads fuel) (tail : List ℕ) (r : FlvReader) (t : FlvTag)
    (ts : List FlvTag) (v : IsTag t) (vs : AllTags ts)
    (size : r.parsed_length + sum_sizes (t ∷ ts) ≡ limit) where
  header_step :
      r.parse_status ≡ tag_header
      → r.current_tag ≡ new_tag
      → ahead r ≡ t.header ++ (t.body ++ (all_bytes ts ++ tail))
      → length r.stream.unread + length ts ≤ fuel
      → Ends limit r.flv_tags (t ∷ ts) (next (parse_rounds fuel limit) (header_round r))
  unfolding read_data_from_file Reads all_bytes
  header_step st cu a h =
      let rest = t.body ++ (all_bytes ts ++ tail) in
      let regroup : (t.header ++ (t.body ++ all_bytes ts)) ++ tail ≡ t.header ++ rest =
        append_assoc t.header (t.body ++ all_bytes ts) tail
        ∙ ap (λ l. t.header ++ l) (append_assoc t.body (all_bytes ts) tail) in
      elim (dec_lt (length r.buffer) flv_tag_header_length) [
        | yes l ↦
            let whole =
              sym (length-append r.buffer r.stream.unread)
              ∙ ap length a
              ∙ length-append t.header rest in
            let less = read-unread r (omega arith) (omega (arith, whole, v.header_length)) in
            after_round fuel limit r (read_data_from_file r) (t ∷ ts) (t ∷ ts) (header_round r)
              (header_round_short r l) refl
              (reads (read_data_from_file r) (t ∷ ts) limit tail (one_tag v vs)
                (between st cu (ahead-read r ∙ a ∙ sym regroup)) size (omega (arith, less)))
        | no g ↦
            let c =
              cut_short t.header rest r.buffer r.stream.unread (sym a)
                (omega (arith, v.header_length)) in
            let s = record r {
              buffer = c.0;
              parse_status = tag_data;
              current_tag = record { header = t.header; body = [] };
            } in
            subst (λ n. Ends limit r.flv_tags (t ∷ ts) (next (parse_rounds fuel limit) n))
              (sym (header_round_whole r t c.0 v.header_length cu c.1))
              (data_step fuel limit reads tail s t ts v vs size [] t.body refl refl refl v.not_empty
                (sym c.2) h)
      ]

rounds_done :
    (fuel limit : ℕ) (r : FlvReader) → limit ≤ r.parsed_length → parse_rounds fuel limit r ≡ some r
unfolding parse_rounds
rounds_done zero limit r h = rw (le→ltb r.parsed_length limit h) refl
rounds_done (suc fuel) limit r h = rw (le→ltb r.parsed_length limit h) refl

pub rounds_more :
    (fuel limit : ℕ) (r : FlvReader)
    → r.parsed_length < limit
    → parse_rounds (suc fuel) limit r ≡ next (parse_rounds fuel limit) (round_in r.parse_status r)
unfolding parse_rounds
rounds_more fuel limit r h =
    ap (λ b. if b then next (parse_rounds fuel limit) (round_in r.parse_status r) else some r)
      (lt→ltb r.parsed_length limit h)

pub round_in-header :
    (r : FlvReader) → r.parse_status ≡ tag_header → round_in r.parse_status r ≡ header_round r
unfolding round_in
round_in-header r e = ap (λ s. round_in s r) e

round_in-data :
    (r : FlvReader) → r.parse_status ≡ tag_data → round_in r.parse_status r ≡ data_round r
unfolding round_in
round_in-data r e = ap (λ s. round_in s r) e

nothing_left :
    (fuel limit : ℕ) (r : FlvReader)
    → r.parsed_length + sum_sizes [] ≡ limit
    → Ends limit r.flv_tags [] (parse_rounds fuel limit r)
unfolding sum_sizes
nothing_left fuel limit r e = record {
  last = r;
  is_last = rounds_done fuel limit r (omega arith);
  has_tags = sym (append-nil r.flv_tags);
  at_limit = let p : r.parsed_length ≡ limit = omega (arith, e) in p;
}

below_limit :
    (limit n : ℕ) (t : FlvTag) (ts : List FlvTag) → n + sum_sizes (t ∷ ts) ≡ limit → n < limit
unfolding sum_sizes
below_limit limit n t ts e = omega (arith, e)

parse_rounds-Reads : (fuel : ℕ) → Reads fuel
unfolding Reads all_bytes
parse_rounds-Reads fuel r [] limit tail vs st size h = nothing_left fuel limit r size
parse_rounds-Reads zero r (t ∷ ts) limit tail vs st size h = absurd (omega arith)
parse_rounds-Reads (suc fuel) r (t ∷ ts) limit tail (one_tag v vs) (between st cu a) size h =
    subst (Ends limit r.flv_tags (t ∷ ts))
      (sym (
        rounds_more fuel limit r (below_limit limit r.parsed_length t ts size)
        ∙ ap (next (parse_rounds fuel limit)) (round_in-header r st)))
      (header_step fuel limit (parse_rounds-Reads fuel) tail r t ts v vs size st cu
        (a
          ∙ append_assoc t.header (t.body ++ all_bytes ts) tail
          ∙ ap (λ l. t.header ++ l) (append_assoc t.body (all_bytes ts) tail))
        (omega arith))
parse_rounds-Reads (suc fuel) r (t ∷ ts) limit tail (one_tag v vs) (within got b st cu e p a) size
      h =
    subst (Ends limit r.flv_tags (t ∷ ts))
      (sym (
        rounds_more fuel limit r (below_limit limit r.parsed_length t ts size)
        ∙ ap (next (parse_rounds fuel limit)) (round_in-data r st)))
      (data_step fuel limit (parse_rounds-Reads fuel) tail r t ts v vs size got b st cu e p a
        (omega arith))

-- The loop of ParseFile, in front of tags that have a body and stand one behind another, without
-- their sizes between them, partly in its buffer and partly still in the file, however they lie,
-- ends at the limit behind them with exactly these tags added in order. As many rounds as there are
-- bytes in the file and tags are enough.
pub parse_rounds-tags :
    (fuel : ℕ) (r : FlvReader) (ts : List FlvTag) (tail : List ℕ)
    → AllTags ts
    → r.parse_status ≡ tag_header
    → r.current_tag ≡ new_tag
    → ahead r ≡ all_bytes ts ++ tail
    → length r.stream.unread + length ts ≤ fuel
    → Ends
        (r.parsed_length + sum_sizes ts)
        r.flv_tags
        ts
        (parse_rounds fuel (r.parsed_length + sum_sizes ts) r)
unfolding Reads
parse_rounds-tags fuel r ts tail vs st cu a h =
    parse_rounds-Reads fuel r ts (r.parsed_length + sum_sizes ts) tail vs (between st cu a) refl h
