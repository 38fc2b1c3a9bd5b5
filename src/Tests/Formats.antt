-- ===== src/Tests/Formats.antt =====
-- Runs of the bridge and of the format of durable state.
use harmotty.Prelude.{
  ℕ, ◌≡◌, ◌≤◌, ◌++◌, inl, inr, refl, false, some, List, [], ◌∷◌, arith, Text, codes, length,
  index_of, index_from, substring, trim_start, is_space, All, max, ◌/◌, ◌+◌,
}
use harmotty.Prelude.Decimal.{to_text, digits_value}
use harmotty.Prelude.ParseInt.{parse_int, signed, unsigned, digit_prefix}
use harmotty.Bridge.Protocol.{
  BridgeMessage, serialize, parse, accept, is_direction, is_channel, is_supported_message,
  refuses_payload, is_positive_integer_payload, cut_fields, find_fields,
}
use harmotty.Bridge.Messages.{
  Command, write, snapshot_request, message, native_control, parse_resize_payload,
}
use harmotty.Bridge.Accepted.{
  parse-message, parse_sound, parse_resize_payload_bounds, parse_resize_payload-to_text,
}
use harmotty.Durable.Utf8.{
  Bytes, decoded, encode_text, decode_text, refused, invalid_code_point, decode_loop, decode_point,
  finish_point, lead, continue_point, check_point,
}
use harmotty.Durable.Utf8Points.{IsScalar}
use harmotty.Durable.Utf8Texts.{text_of, bytes_of, encode_text-text_of, decode_text-encode_text}
use harmotty.Durable.Chunks.{
  split, combine, durable_asset_chunk_bytes, combine-split, split_sizes, length-split,
}

-- A write whose text has the separator in it.
abbrev piped : Command
piped = write (codes "ls | wc")

parse-message_example : parse (serialize (message piped)) ≡ some (message piped)
parse-message_example = parse-message piped tt

request_sent : serialize (message (snapshot_request 12)) ≡ codes "H2|N2W|CONTROL|snapshotRequest|12"
unfolding serialize message native_control to_text
request_sent = refl

abbrev resize : Text
resize = codes "H2|W2N|CONTROL|resize|100,30"

abbrev resize_message : BridgeMessage
resize_message = record {
  direction = codes "W2N";
  channel = codes "CONTROL";
  kind = codes "resize";
  payload = codes "100,30";
}

resize_read : parse resize ≡ some resize_message
unfolding parse find_fields cut_fields accept is_direction is_channel is_supported_message
    refuses_payload index_of index_from substring
resize_read = refl

zero_request_refused : is_positive_integer_payload (codes "0") ≡ false
unfolding is_positive_integer_payload parse_int signed unsigned digit_prefix digits_value trim_start
    is_space
zero_request_refused = refl

parse_sound_example : serialize resize_message ≡ resize
parse_sound_example = parse_sound resize resize_message resize_read

parse_resize_payload_bounds_example :
    (1 ≤ (parse_resize_payload (codes "0,x")).0) × (1 ≤ (parse_resize_payload (codes "0,x")).1)
parse_resize_payload_bounds_example = parse_resize_payload_bounds (codes "0,x")

parse_resize_payload-to_text_example :
    parse_resize_payload (to_text 100 ++ b',' ∷ to_text 30) ≡ (100, 30)
parse_resize_payload-to_text_example =
    parse_resize_payload-to_text 100 30 (omega arith) (omega arith)

-- A letter, the Euro sign and an emoji.
abbrev points : List ℕ
points = 97 ∷ 0x20AC ∷ 0x1F600 ∷ []

points-IsScalar : All IsScalar points
points-IsScalar = (inl (omega arith), (inl (omega arith), (inr (omega arith, omega arith), tt)))

encode_text-text_of_example : encode_text (text_of points) ≡ bytes_of points
encode_text-text_of_example = encode_text-text_of points points-IsScalar

decode_text-encode_text_example :
    decode_text (encode_text (text_of points)) ≡ decoded (text_of points)
decode_text-encode_text_example = decode_text-encode_text points points-IsScalar

-- Two bytes for what one byte encodes.
overlong_refused : decode_text (0xC0 ∷ 0xAF ∷ []) ≡ refused invalid_code_point
unfolding decode_text decode_loop decode_point finish_point lead continue_point check_point
overlong_refused = refl

combine-split_example : combine (split (1 ∷ 2 ∷ 3 ∷ [])) ≡ 1 ∷ 2 ∷ 3 ∷ []
combine-split_example = combine-split (1 ∷ 2 ∷ 3 ∷ [])

split_sizes_example :
    All (λ chunk. length chunk ≤ durable_asset_chunk_bytes) (split (1 ∷ 2 ∷ 3 ∷ []))
split_sizes_example = split_sizes (1 ∷ 2 ∷ 3 ∷ [])

abbrev three : Bytes
three = 1 ∷ 2 ∷ 3 ∷ []

length-split_example : length (split three) ≡ max 1 ((length three + 767) / 768)
length-split_example = length-split three
