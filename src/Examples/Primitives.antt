-- ===== src/Examples/Primitives.antt =====
-- proxy/protocol/real_encoder.go and real_decoder.go, on single values.
use kafka_gcp_proxy.Base.{ℕ, ◌≡◌, refl, arith, pos, some, List, [], ◌∷◌, ok}
use kafka_gcp_proxy.Protocol.Decoder.{
  get_varint, get_varint_bytes, get_nullable_string, get_compact_nullable_string,
}
use kafka_gcp_proxy.Protocol.PrepEncoder.{prep_encoder}
use kafka_gcp_proxy.Protocol.RealEncoder.{real_encoder}
use kafka_gcp_proxy.Protocol.Encoding.{encode, decode}
use kafka_gcp_proxy.Protocol.Encoding.Primitives.{
  get_varint-put_varint, get_varint_bytes-put_varint_bytes, get_nullable_string-put_nullable_string,
  get_compact_nullable_string-put_compact_nullable_string,
}

abbrev varint_bytes : List ℕ
varint_bytes = 172 ∷ 2 ∷ []

varint_written :
    encode (prep_encoder.put_varint (pos 300)) (real_encoder.put_varint (pos 300)) ≡ ok varint_bytes
unfolding kafka_gcp_proxy.Protocol.Encoding.encode kafka_gcp_proxy.Protocol.Encoding.two_passes
    kafka_gcp_proxy.Protocol.PrepEncoder.put_array_length
    kafka_gcp_proxy.Protocol.PrepEncoder.put_bytes
    kafka_gcp_proxy.Protocol.PrepEncoder.put_compact_array_length
    kafka_gcp_proxy.Protocol.PrepEncoder.put_compact_bytes
    kafka_gcp_proxy.Protocol.PrepEncoder.put_compact_nullable_array_length
    kafka_gcp_proxy.Protocol.PrepEncoder.put_compact_nullable_string
    kafka_gcp_proxy.Protocol.PrepEncoder.put_compact_string
    kafka_gcp_proxy.Protocol.PrepEncoder.put_int_array
    kafka_gcp_proxy.Protocol.PrepEncoder.put_nullable_string
    kafka_gcp_proxy.Protocol.PrepEncoder.put_raw_bytes
    kafka_gcp_proxy.Protocol.PrepEncoder.put_string
    kafka_gcp_proxy.Protocol.PrepEncoder.put_string_array
    kafka_gcp_proxy.Protocol.PrepEncoder.put_strings kafka_gcp_proxy.Protocol.PrepEncoder.put_varint
    kafka_gcp_proxy.Protocol.PrepEncoder.put_varint_bytes kafka_gcp_proxy.Protocol.RealEncoder.copy
    kafka_gcp_proxy.Protocol.RealEncoder.write kafka_gcp_proxy.Protocol.RealEncoder.put_array_length
    kafka_gcp_proxy.Protocol.RealEncoder.put_bool kafka_gcp_proxy.Protocol.RealEncoder.put_bytes
    kafka_gcp_proxy.Protocol.RealEncoder.put_compact_array_length
    kafka_gcp_proxy.Protocol.RealEncoder.put_compact_bytes
    kafka_gcp_proxy.Protocol.RealEncoder.put_compact_nullable_string
    kafka_gcp_proxy.Protocol.RealEncoder.put_compact_string
    kafka_gcp_proxy.Protocol.RealEncoder.put_each kafka_gcp_proxy.Protocol.RealEncoder.put_int16
    kafka_gcp_proxy.Protocol.RealEncoder.put_int32 kafka_gcp_proxy.Protocol.RealEncoder.put_int64
    kafka_gcp_proxy.Protocol.RealEncoder.put_int8 kafka_gcp_proxy.Protocol.RealEncoder.put_int_array
    kafka_gcp_proxy.Protocol.RealEncoder.put_nullable_string
    kafka_gcp_proxy.Protocol.RealEncoder.put_string
    kafka_gcp_proxy.Protocol.RealEncoder.put_string_array
    kafka_gcp_proxy.Protocol.RealEncoder.put_varint
    kafka_gcp_proxy.Protocol.RealEncoder.put_varint_bytes kafka_gcp_proxy.Protocol.Varint.uvarint
    kafka_gcp_proxy.Protocol.Varint.uvarint_loop kafka_gcp_proxy.Protocol.Varint.put_uvarint
    kafka_gcp_proxy.Protocol.Varint.put_uvarint_loop
varint_written = refl

get_varint-put_varint_example : decode varint_bytes get_varint ≡ ok (pos 300)
get_varint-put_varint_example =
    get_varint-put_varint (pos 300) varint_bytes (omega arith) varint_written

abbrev varint_bytes_bytes : List ℕ
varint_bytes_bytes = 2 ∷ 97 ∷ 98 ∷ []

varint_bytes_written :
    encode
      (prep_encoder.put_varint_bytes (some (97 ∷ 98 ∷ [])))
      (real_encoder.put_varint_bytes (some (97 ∷ 98 ∷ [])))
    ≡ ok varint_bytes_bytes
unfolding kafka_gcp_proxy.Protocol.Encoding.encode kafka_gcp_proxy.Protocol.Encoding.two_passes
    kafka_gcp_proxy.Protocol.PrepEncoder.put_array_length
    kafka_gcp_proxy.Protocol.PrepEncoder.put_bytes
    kafka_gcp_proxy.Protocol.PrepEncoder.put_compact_array_length
    kafka_gcp_proxy.Protocol.PrepEncoder.put_compact_bytes
    kafka_gcp_proxy.Protocol.PrepEncoder.put_compact_nullable_array_length
    kafka_gcp_proxy.Protocol.PrepEncoder.put_compact_nullable_string
    kafka_gcp_proxy.Protocol.PrepEncoder.put_compact_string
    kafka_gcp_proxy.Protocol.PrepEncoder.put_int_array
    kafka_gcp_proxy.Protocol.PrepEncoder.put_nullable_string
    kafka_gcp_proxy.Protocol.PrepEncoder.put_raw_bytes
    kafka_gcp_proxy.Protocol.PrepEncoder.put_string
    kafka_gcp_proxy.Protocol.PrepEncoder.put_string_array
    kafka_gcp_proxy.Protocol.PrepEncoder.put_strings kafka_gcp_proxy.Protocol.PrepEncoder.put_varint
    kafka_gcp_proxy.Protocol.PrepEncoder.put_varint_bytes kafka_gcp_proxy.Protocol.RealEncoder.copy
    kafka_gcp_proxy.Protocol.RealEncoder.write kafka_gcp_proxy.Protocol.RealEncoder.put_array_length
    kafka_gcp_proxy.Protocol.RealEncoder.put_bool kafka_gcp_proxy.Protocol.RealEncoder.put_bytes
    kafka_gcp_proxy.Protocol.RealEncoder.put_compact_array_length
    kafka_gcp_proxy.Protocol.RealEncoder.put_compact_bytes
    kafka_gcp_proxy.Protocol.RealEncoder.put_compact_nullable_string
    kafka_gcp_proxy.Protocol.RealEncoder.put_compact_string
    kafka_gcp_proxy.Protocol.RealEncoder.put_each kafka_gcp_proxy.Protocol.RealEncoder.put_int16
    kafka_gcp_proxy.Protocol.RealEncoder.put_int32 kafka_gcp_proxy.Protocol.RealEncoder.put_int64
    kafka_gcp_proxy.Protocol.RealEncoder.put_int8 kafka_gcp_proxy.Protocol.RealEncoder.put_int_array
    kafka_gcp_proxy.Protocol.RealEncoder.put_nullable_string
    kafka_gcp_proxy.Protocol.RealEncoder.put_string
    kafka_gcp_proxy.Protocol.RealEncoder.put_string_array
    kafka_gcp_proxy.Protocol.RealEncoder.put_varint
    kafka_gcp_proxy.Protocol.RealEncoder.put_varint_bytes kafka_gcp_proxy.Protocol.Varint.uvarint
    kafka_gcp_proxy.Protocol.Varint.uvarint_loop kafka_gcp_proxy.Protocol.Varint.put_uvarint
    kafka_gcp_proxy.Protocol.Varint.put_uvarint_loop
varint_bytes_written = refl

get_varint_bytes-put_varint_bytes_example :
    decode varint_bytes_bytes get_varint_bytes ≡ ok (some (97 ∷ 98 ∷ []))
get_varint_bytes-put_varint_bytes_example =
    get_varint_bytes-put_varint_bytes (some (97 ∷ 98 ∷ [])) varint_bytes_bytes (omega arith)
      varint_bytes_written

abbrev nullable_string_bytes : List ℕ
nullable_string_bytes = 0 ∷ 2 ∷ 97 ∷ 98 ∷ []

nullable_string_written :
    encode
      (prep_encoder.put_nullable_string (some (97 ∷ 98 ∷ [])))
      (real_encoder.put_nullable_string (some (97 ∷ 98 ∷ [])))
    ≡ ok nullable_string_bytes
unfolding kafka_gcp_proxy.Protocol.Encoding.encode kafka_gcp_proxy.Protocol.Encoding.two_passes
    kafka_gcp_proxy.Protocol.PrepEncoder.put_array_length
    kafka_gcp_proxy.Protocol.PrepEncoder.put_bytes
    kafka_gcp_proxy.Protocol.PrepEncoder.put_compact_array_length
    kafka_gcp_proxy.Protocol.PrepEncoder.put_compact_bytes
    kafka_gcp_proxy.Protocol.PrepEncoder.put_compact_nullable_array_length
    kafka_gcp_proxy.Protocol.PrepEncoder.put_compact_nullable_string
    kafka_gcp_proxy.Protocol.PrepEncoder.put_compact_string
    kafka_gcp_proxy.Protocol.PrepEncoder.put_int_array
    kafka_gcp_proxy.Protocol.PrepEncoder.put_nullable_string
    kafka_gcp_proxy.Protocol.PrepEncoder.put_raw_bytes
    kafka_gcp_proxy.Protocol.PrepEncoder.put_string
    kafka_gcp_proxy.Protocol.PrepEncoder.put_string_array
    kafka_gcp_proxy.Protocol.PrepEncoder.put_strings kafka_gcp_proxy.Protocol.PrepEncoder.put_varint
    kafka_gcp_proxy.Protocol.PrepEncoder.put_varint_bytes kafka_gcp_proxy.Protocol.RealEncoder.copy
    kafka_gcp_proxy.Protocol.RealEncoder.write kafka_gcp_proxy.Protocol.RealEncoder.put_array_length
    kafka_gcp_proxy.Protocol.RealEncoder.put_bool kafka_gcp_proxy.Protocol.RealEncoder.put_bytes
    kafka_gcp_proxy.Protocol.RealEncoder.put_compact_array_length
    kafka_gcp_proxy.Protocol.RealEncoder.put_compact_bytes
    kafka_gcp_proxy.Protocol.RealEncoder.put_compact_nullable_string
    kafka_gcp_proxy.Protocol.RealEncoder.put_compact_string
    kafka_gcp_proxy.Protocol.RealEncoder.put_each kafka_gcp_proxy.Protocol.RealEncoder.put_int16
    kafka_gcp_proxy.Protocol.RealEncoder.put_int32 kafka_gcp_proxy.Protocol.RealEncoder.put_int64
    kafka_gcp_proxy.Protocol.RealEncoder.put_int8 kafka_gcp_proxy.Protocol.RealEncoder.put_int_array
    kafka_gcp_proxy.Protocol.RealEncoder.put_nullable_string
    kafka_gcp_proxy.Protocol.RealEncoder.put_string
    kafka_gcp_proxy.Protocol.RealEncoder.put_string_array
    kafka_gcp_proxy.Protocol.RealEncoder.put_varint
    kafka_gcp_proxy.Protocol.RealEncoder.put_varint_bytes kafka_gcp_proxy.Protocol.Varint.uvarint
    kafka_gcp_proxy.Protocol.Varint.uvarint_loop kafka_gcp_proxy.Protocol.Varint.put_uvarint
    kafka_gcp_proxy.Protocol.Varint.put_uvarint_loop
nullable_string_written = refl

get_nullable_string-put_nullable_string_example :
    decode nullable_string_bytes get_nullable_string ≡ ok (some (97 ∷ 98 ∷ []))
get_nullable_string-put_nullable_string_example =
    get_nullable_string-put_nullable_string (some (97 ∷ 98 ∷ [])) nullable_string_bytes
      (omega arith) nullable_string_written

abbrev compact_nullable_string_bytes : List ℕ
compact_nullable_string_bytes = 3 ∷ 97 ∷ 98 ∷ []

compact_nullable_string_written :
    encode
      (prep_encoder.put_compact_nullable_string (some (97 ∷ 98 ∷ [])))
      (real_encoder.put_compact_nullable_string (some (97 ∷ 98 ∷ [])))
    ≡ ok compact_nullable_string_bytes
unfolding kafka_gcp_proxy.Protocol.Encoding.encode kafka_gcp_proxy.Protocol.Encoding.two_passes
    kafka_gcp_proxy.Protocol.PrepEncoder.put_array_length
    kafka_gcp_proxy.Protocol.PrepEncoder.put_bytes
    kafka_gcp_proxy.Protocol.PrepEncoder.put_compact_array_length
    kafka_gcp_proxy.Protocol.PrepEncoder.put_compact_bytes
    kafka_gcp_proxy.Protocol.PrepEncoder.put_compact_nullable_array_length
    kafka_gcp_proxy.Protocol.PrepEncoder.put_compact_nullable_string
    kafka_gcp_proxy.Protocol.PrepEncoder.put_compact_string
    kafka_gcp_proxy.Protocol.PrepEncoder.put_int_array
    kafka_gcp_proxy.Protocol.PrepEncoder.put_nullable_string
    kafka_gcp_proxy.Protocol.PrepEncoder.put_raw_bytes
    kafka_gcp_proxy.Protocol.PrepEncoder.put_string
    kafka_gcp_proxy.Protocol.PrepEncoder.put_string_array
    kafka_gcp_proxy.Protocol.PrepEncoder.put_strings kafka_gcp_proxy.Protocol.PrepEncoder.put_varint
    kafka_gcp_proxy.Protocol.PrepEncoder.put_varint_bytes kafka_gcp_proxy.Protocol.RealEncoder.copy
    kafka_gcp_proxy.Protocol.RealEncoder.write kafka_gcp_proxy.Protocol.RealEncoder.put_array_length
    kafka_gcp_proxy.Protocol.RealEncoder.put_bool kafka_gcp_proxy.Protocol.RealEncoder.put_bytes
    kafka_gcp_proxy.Protocol.RealEncoder.put_compact_array_length
    kafka_gcp_proxy.Protocol.RealEncoder.put_compact_bytes
    kafka_gcp_proxy.Protocol.RealEncoder.put_compact_nullable_string
    kafka_gcp_proxy.Protocol.RealEncoder.put_compact_string
    kafka_gcp_proxy.Protocol.RealEncoder.put_each kafka_gcp_proxy.Protocol.RealEncoder.put_int16
    kafka_gcp_proxy.Protocol.RealEncoder.put_int32 kafka_gcp_proxy.Protocol.RealEncoder.put_int64
    kafka_gcp_proxy.Protocol.RealEncoder.put_int8 kafka_gcp_proxy.Protocol.RealEncoder.put_int_array
    kafka_gcp_proxy.Protocol.RealEncoder.put_nullable_string
    kafka_gcp_proxy.Protocol.RealEncoder.put_string
    kafka_gcp_proxy.Protocol.RealEncoder.put_string_array
    kafka_gcp_proxy.Protocol.RealEncoder.put_varint
    kafka_gcp_proxy.Protocol.RealEncoder.put_varint_bytes kafka_gcp_proxy.Protocol.Varint.uvarint
    kafka_gcp_proxy.Protocol.Varint.uvarint_loop kafka_gcp_proxy.Protocol.Varint.put_uvarint
    kafka_gcp_proxy.Protocol.Varint.put_uvarint_loop
compact_nullable_string_written = refl

get_compact_nullable_string-put_compact_nullable_string_example :
    decode compact_nullable_string_bytes get_compact_nullable_string ≡ ok (some (97 ∷ 98 ∷ []))
get_compact_nullable_string-put_compact_nullable_string_example =
    get_compact_nullable_string-put_compact_nullable_string (some (97 ∷ 98 ∷ []))
      compact_nullable_string_bytes (omega arith) compact_nullable_string_written
