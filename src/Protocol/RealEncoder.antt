-- ===== src/Protocol/RealEncoder.antt =====
-- proxy/protocol/real_encoder.go: the second pass, which writes into the buffer of the measured
-- size. encoding/binary panics where the bytes do not fit; `copy` takes what fits, and `off` moves
-- on by the whole length.
use kafka_gcp_proxy.Base.{
  ℕ, ◌+◌, ◌-◌, ◌/◌, ◌%◌, ℤ, pos, minus_one, succ_ℤ, half8, half16, half32, half64, unsigned, Bool,
  Option, none, some, List, [], ◌∷◌, ◌++◌, panicked, ok, err, ◌>>=◌, ltb, if◌then◌else◌, length,
  take, drop,
}
use kafka_gcp_proxy.Protocol.Varint.{put_uvarint}
use kafka_gcp_proxy.Protocol.PacketEncoder.{Put, PacketEncoder}

pub record RealEncoder : Type 0 where
  pub raw : List ℕ
  pub off : ℕ

abbrev pub be16 : ℕ → List ℕ
be16 n = (n / 256 % 256) ∷ (n % 256) ∷ []

abbrev pub be32 : ℕ → List ℕ
be32 n = (n / 16777216 % 256) ∷ (n / 65536 % 256) ∷ (n / 256 % 256) ∷ (n % 256) ∷ []

abbrev pub be64 : ℕ → List ℕ
be64 n = be32 (n / 4294967296) ++ be32 (n % 4294967296)

-- A write of all the bytes at `off`, or a panic: raw[off], PutUint16(raw[off:], …) and so on.
unfoldable pub write : List ℕ → Put RealEncoder
write bs re =
    if ltb (length re.raw) (re.off + length bs)
    then err panicked
    else ok (record {
      raw = take re.off re.raw ++ (bs ++ drop (re.off + length bs) re.raw);
      off = re.off + length bs;
    })

-- copy(re.raw[re.off:], in); re.off += len(in)
unfoldable pub copy : List ℕ → Put RealEncoder
copy bs re =
    if ltb (length re.raw) re.off
    then err panicked
    else ok (record {
      raw =
          take re.off re.raw
          ++ (take (length re.raw - re.off) bs ++ drop (re.off + length bs) re.raw);
      off = re.off + length bs;
    })

unfoldable pub put_int8 : ℤ → Put RealEncoder
unfolding write
put_int8 z = write (unsigned half8 z ∷ [])

unfoldable pub put_int16 : ℤ → Put RealEncoder
unfolding write
put_int16 z = write (be16 (unsigned half16 z))

unfoldable pub put_int32 : ℤ → Put RealEncoder
unfolding write
put_int32 z = write (be32 (unsigned half32 z))

unfoldable pub put_int64 : ℤ → Put RealEncoder
unfolding write
put_int64 z = write (be64 (unsigned half64 z))

unfoldable pub put_varint : ℤ → Put RealEncoder
unfolding write
put_varint z = write (put_uvarint (unsigned half64 z))

-- int32(in), which keeps the low 32 bits
unfoldable pub put_array_length : ℤ → Put RealEncoder
unfolding put_int32
put_array_length z = put_int32 z

unfoldable pub put_bool : Bool → Put RealEncoder
unfolding put_int8
put_bool b = put_int8 (if b then pos 1 else pos 0)

unfoldable pub put_bytes : Option (List ℕ) → Put RealEncoder
unfolding put_int32 copy
put_bytes none re = put_int32 minus_one re
put_bytes (some bs) re = do re' ← put_int32 (pos (length bs)) re; copy bs re'

unfoldable pub put_compact_bytes : List ℕ → Put RealEncoder
unfolding put_varint copy
put_compact_bytes bs re = do re' ← put_varint (pos (length bs + 1)) re; copy bs re'

unfoldable pub put_varint_bytes : Option (List ℕ) → Put RealEncoder
unfolding put_varint copy
put_varint_bytes none re = put_varint minus_one re
put_varint_bytes (some bs) re = do re' ← put_varint (pos (length bs)) re; copy bs re'

unfoldable pub put_string : List ℕ → Put RealEncoder
unfolding put_int16 copy
put_string bs re = do re' ← put_int16 (pos (length bs)) re; copy bs re'

unfoldable pub put_nullable_string : Option (List ℕ) → Put RealEncoder
unfolding put_int16 put_string
put_nullable_string none re = put_int16 minus_one re
put_nullable_string (some bs) re = put_string bs re

-- for _, val := range in
unfoldable pub put_each {ℓ} : {A : Type ℓ} → (A → Put RealEncoder) → List A → Put RealEncoder
put_each put [] re = ok re
put_each put (x ∷ xs) re = do re' ← put x re; put_each put xs re'

unfoldable pub put_string_array : List (List ℕ) → Put RealEncoder
unfolding put_array_length put_each put_string
put_string_array xs re = do re' ← put_array_length (pos (length xs)) re; put_each put_string xs re'

unfoldable pub put_int_array : (ℤ → Put RealEncoder) → Option (List ℤ) → Put RealEncoder
unfolding put_array_length put_each
put_int_array put none re = put_array_length minus_one re
put_int_array put (some xs) re = do re' ← put_array_length (pos (length xs)) re; put_each put xs re'

unfoldable pub put_compact_string : List ℕ → Put RealEncoder
unfolding put_varint copy
put_compact_string bs re = do re' ← put_varint (pos (length bs + 1)) re; copy bs re'

unfoldable pub put_compact_nullable_string : Option (List ℕ) → Put RealEncoder
unfolding put_varint put_compact_string
put_compact_nullable_string none re = put_varint (pos 0) re
put_compact_nullable_string (some bs) re = put_compact_string bs re

unfoldable pub put_compact_array_length : ℤ → Put RealEncoder
unfolding put_varint
put_compact_array_length z = put_varint (succ_ℤ z)

-- realEncoder as a packetEncoder
instance abbrev pub real_encoder : PacketEncoder RealEncoder
real_encoder = record {
  put_int8 = put_int8;
  put_int16 = put_int16;
  put_int32 = put_int32;
  put_int64 = put_int64;
  put_varint = put_varint;
  put_array_length = put_array_length;
  put_compact_array_length = put_compact_array_length;
  put_compact_nullable_array_length = put_compact_array_length;
  put_bool = put_bool;
  put_bytes = put_bytes;
  put_varint_bytes = put_varint_bytes;
  put_uuid = copy;
  put_compact_bytes = put_compact_bytes;
  put_string = put_string;
  put_nullable_string = put_nullable_string;
  put_compact_string = put_compact_string;
  put_compact_nullable_string = put_compact_nullable_string;
  put_string_array = put_string_array;
  put_int32_array = put_int_array put_int32;
  put_int64_array = put_int_array put_int64;
}
