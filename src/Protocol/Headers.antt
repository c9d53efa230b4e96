-- ===== src/Protocol/Headers.antt =====
-- proxy/protocol: response_header.go, response_header_v1.go and tagged_fields.go, the headers that are
-- read in front of a response.
pub mod Encode
pub mod RoundTrip
use kafka_gcp_proxy.Base.{
  ℕ, ℤ, pos, leb_ℤ, List, Error, failure, packet_decoding, Result, ok, err, ltb_ℤ, if◌then◌else◌,
}
use kafka_gcp_proxy.Protocol.Decoder.{Decoder, pure, ◌>>=◌, get_int32}
use kafka_gcp_proxy.Protocol.KeyVersion.{RequestKeyVersion, check_length, response_header_version}
use kafka_gcp_proxy.Protocol.Schema.{RawTaggedField}
use kafka_gcp_proxy.Protocol.Schema.Decode.{decode_tagged_fields}

pub record ResponseHeader : Type 0 where
  pub length : ℤ
  pub correlation_id : ℤ

abbrev pub response_header : ℤ → ℤ → ResponseHeader
response_header n c = record { length = n; correlation_id = c }

unfoldable pub decode_response_header : Decoder ResponseHeader
decode_response_header = do
  n ← get_int32
  n ← check_length n
  c ← get_int32
  pure (response_header n c)

pub record ResponseHeaderV1 : Type 0 where
  pub length : ℤ
  pub correlation_id : ℤ
  pub raw_tagged_fields : List RawTaggedField

abbrev pub response_header_v1 : ℤ → ℤ → List RawTaggedField → ResponseHeaderV1
response_header_v1 n c fs = record { length = n; correlation_id = c; raw_tagged_fields = fs }

unfoldable pub decode_response_header_v1 : Decoder ResponseHeaderV1
decode_response_header_v1 = do
  n ← get_int32
  n ← check_length n
  c ← get_int32
  fs ← decode_tagged_fields
  pure (response_header_v1 n c fs)

pub record TaggedFields : Type 0 where
  pub values : List RawTaggedField

abbrev pub tagged_fields : List RawTaggedField → TaggedFields
tagged_fields fs = record { values = fs }

unfoldable pub decode_tagged : Decoder TaggedFields
decode_tagged = do fs ← decode_tagged_fields; pure (tagged_fields fs)

pub record ResponseHeaderTaggedFields : Type 0 where
  pub version : ℤ

-- NewResponseHeaderTaggedFields
unfoldable pub new_response_header_tagged_fields :
    RequestKeyVersion → Result ResponseHeaderTaggedFields
new_response_header_tagged_fields r =
    if ltb_ℤ (response_header_version r) (pos 0)
    then err (packet_decoding "ResponseHeaderVersion: unknown ApiKey")
    else ok (record { version = response_header_version r })
