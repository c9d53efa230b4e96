-- ===== src/Protocol/Wire.antt =====
-- The Kafka wire format of the primitive types, as the protocol guide gives it: big-endian two's
-- complement integers, and lengths before texts, byte slices and arrays. It is the specification
-- against which the decoder (real_decoder.go) and the two encoders are proved.
pub mod Writes
pub mod Reads
use kafka_gcp_proxy.Base.{
  ℕ, suc, ◌+◌, ℤ, pos, minus_one, half8, half16, half32, half64, unsigned, succ_ℤ, Bool, true,
  false, Option, none, some, List, [], ◌∷◌, ◌++◌, length,
}
use kafka_gcp_proxy.Protocol.Varint.{put_uvarint}
use kafka_gcp_proxy.Protocol.RealEncoder.{be16, be32, be64}

abbrev pub wire_int8 : ℤ → List ℕ
wire_int8 z = unsigned half8 z ∷ []

abbrev pub wire_int16 : ℤ → List ℕ
wire_int16 z = be16 (unsigned half16 z)

abbrev pub wire_int32 : ℤ → List ℕ
wire_int32 z = be32 (unsigned half32 z)

abbrev pub wire_int64 : ℤ → List ℕ
wire_int64 z = be64 (unsigned half64 z)

abbrev pub wire_varint : ℤ → List ℕ
wire_varint z = put_uvarint (unsigned half64 z)

abbrev pub wire_bool : Bool → List ℕ
wire_bool true = 1 ∷ []
wire_bool false = 0 ∷ []

-- A null text or byte slice has the length -1, or 0 in the compact formats.
abbrev pub wire_string : List ℕ → List ℕ
wire_string s = wire_int16 (pos (length s)) ++ s

abbrev pub wire_nullable_string : Option (List ℕ) → List ℕ
wire_nullable_string none = wire_int16 minus_one
wire_nullable_string (some s) = wire_string s

abbrev pub wire_compact_string : List ℕ → List ℕ
wire_compact_string s = wire_varint (pos (length s + 1)) ++ s

abbrev pub wire_compact_nullable_string : Option (List ℕ) → List ℕ
wire_compact_nullable_string none = wire_varint (pos 0)
wire_compact_nullable_string (some s) = wire_compact_string s

abbrev pub wire_bytes : Option (List ℕ) → List ℕ
wire_bytes none = wire_int32 minus_one
wire_bytes (some s) = wire_int32 (pos (length s)) ++ s

abbrev pub wire_varint_bytes : Option (List ℕ) → List ℕ
wire_varint_bytes none = wire_varint minus_one
wire_varint_bytes (some s) = wire_varint (pos (length s)) ++ s

abbrev pub wire_each {ℓ} : {A : Type ℓ} → (A → List ℕ) → List A → List ℕ
wire_each wire [] = []
wire_each wire (x ∷ xs) = wire x ++ wire_each wire xs

abbrev pub wire_string_array : List (List ℕ) → List ℕ
wire_string_array xs = wire_int32 (pos (length xs)) ++ wire_each wire_string xs

abbrev pub wire_int_array : (ℤ → List ℕ) → Option (List ℤ) → List ℕ
wire_int_array wire none = wire_int32 minus_one
wire_int_array wire (some xs) = wire_int32 (pos (length xs)) ++ wire_each wire xs

abbrev pub wire_compact_length : ℤ → List ℕ
wire_compact_length z = wire_varint (succ_ℤ z)
