-- ===== src/Protocol/PrepEncoder.antt =====
-- proxy/protocol/prep_encoder.go: the first pass, which measures the encoding. The state is
-- `length`; the buffers measured here fit memory, so the int does not wrap.
use kafka_gcp_proxy.Base.{
  ℕ, ◌+◌, ◌*◌, ℤ, pos, minus_one, succ_ℤ, half64, unsigned, ltb_ℤ, beq_ℤ, Option, none, some, List,
  [], ◌∷◌, packet_encoding, ok, err, ◌>>=◌, ltb, if◌then◌else◌, length,
}
use kafka_gcp_proxy.Protocol.Varint.{put_uvarint}
use kafka_gcp_proxy.Protocol.PacketEncoder.{Put, PacketEncoder}

abbrev max_int16 : ℕ
max_int16 = 32767

abbrev max_int32 : ℕ
max_int32 = 2147483647

abbrev grow : ℕ → Put ℕ
grow k n = ok (n + k)

unfoldable pub put_varint : ℤ → Put ℕ
put_varint z n = ok (n + length (put_uvarint (unsigned half64 z)))

unfoldable pub put_array_length : ℤ → Put ℕ
put_array_length z n =
    if ltb_ℤ (pos max_int32) z then err (packet_encoding "array too long") else grow 4 n

unfoldable pub put_raw_bytes : List ℕ → Put ℕ
put_raw_bytes bs n =
    if ltb max_int32 (length bs)
    then err (packet_encoding "byteslice too long")
    else grow (length bs) n

unfoldable pub put_bytes : Option (List ℕ) → Put ℕ
unfolding put_raw_bytes
put_bytes none n = grow 4 n
put_bytes (some bs) n = put_raw_bytes bs (n + 4)

unfoldable pub put_varint_bytes : Option (List ℕ) → Put ℕ
unfolding put_varint put_raw_bytes
put_varint_bytes none n = put_varint minus_one n
put_varint_bytes (some bs) n = do n' ← put_varint (pos (length bs)) n; put_raw_bytes bs n'

unfoldable pub put_compact_bytes : List ℕ → Put ℕ
unfolding put_varint
put_compact_bytes bs n = do
  n' ← put_varint (pos (length bs + 1)) n
  if ltb max_int16 (length bs)
      then err (packet_encoding "compact bytes too long")
      else grow (length bs) n'

unfoldable pub put_string : List ℕ → Put ℕ
put_string bs n =
    if ltb max_int16 (length bs)
    then err (packet_encoding "string too long")
    else grow (length bs) (n + 2)

unfoldable pub put_nullable_string : Option (List ℕ) → Put ℕ
unfolding put_string
put_nullable_string none n = grow 2 n
put_nullable_string (some bs) n = put_string bs n

unfoldable pub put_compact_string : List ℕ → Put ℕ
unfolding put_varint
put_compact_string bs n = do
  n' ← put_varint (pos (length bs + 1)) n
  if ltb max_int16 (length bs) then err (packet_encoding "string too long") else grow (length bs) n'

unfoldable pub put_compact_nullable_string : Option (List ℕ) → Put ℕ
unfolding put_compact_string
put_compact_nullable_string none n = grow 1 n
put_compact_nullable_string (some bs) n = put_compact_string bs n

-- for _, val := range in
unfoldable pub put_strings : List (List ℕ) → Put ℕ
unfolding put_string
put_strings [] n = ok n
put_strings (x ∷ xs) n = do n' ← put_string x n; put_strings xs n'

unfoldable pub put_string_array : List (List ℕ) → Put ℕ
unfolding put_array_length put_strings
put_string_array xs n = do n' ← put_array_length (pos (length xs)) n; put_strings xs n'

unfoldable pub put_int_array : ℕ → Option (List ℤ) → Put ℕ
unfolding put_array_length
put_int_array width none n = put_array_length minus_one n
put_int_array width (some xs) n = do
  n' ← put_array_length (pos (length xs)) n
  grow (width * length xs) n'

unfoldable pub put_compact_array_length : ℤ → Put ℕ
unfolding put_varint
put_compact_array_length z n =
    if ltb_ℤ (pos max_int16) z
    then err (packet_encoding "comact array too long")
    else if beq_ℤ z minus_one
    then err (packet_encoding "comact array is null")
    else if ltb_ℤ z minus_one
    then err (packet_encoding "comact array invalid length")
    else put_varint (succ_ℤ z) n

unfoldable pub put_compact_nullable_array_length : ℤ → Put ℕ
unfolding put_varint
put_compact_nullable_array_length z n =
    if ltb_ℤ (pos max_int16) z
    then err (packet_encoding "comact array too long")
    else if ltb_ℤ z minus_one
    then err (packet_encoding "comact array invalid length")
    else put_varint (succ_ℤ z) n

-- prepEncoder as a packetEncoder
instance abbrev pub prep_encoder : PacketEncoder ℕ
prep_encoder = record {
  put_int8 = λ z. grow 1;
  put_int16 = λ z. grow 2;
  put_int32 = λ z. grow 4;
  put_int64 = λ z. grow 8;
  put_varint = put_varint;
  put_array_length = put_array_length;
  put_compact_array_length = put_compact_array_length;
  put_compact_nullable_array_length = put_compact_nullable_array_length;
  put_bool = λ b. grow 1;
  put_bytes = put_bytes;
  put_varint_bytes = put_varint_bytes;
  put_uuid = λ bs. grow 16;
  put_compact_bytes = put_compact_bytes;
  put_string = put_string;
  put_nullable_string = put_nullable_string;
  put_compact_string = put_compact_string;
  put_compact_nullable_string = put_compact_nullable_string;
  put_string_array = put_string_array;
  put_int32_array = put_int_array 4;
  put_int64_array = put_int_array 8;
}
