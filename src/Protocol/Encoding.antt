-- ===== src/Protocol/Encoding.antt =====
-- proxy/protocol/encoder_decoder.go: Encode and Decode.
pub mod Writes
pub mod RoundTrip
pub mod Primitives
use kafka_gcp_proxy.Base.{
  ℕ, ◌*◌, List, [], ◌∷◌, Option, none, some, Error, packet_encoding, packet_decoding, Result, ok,
  err, ◌>>=◌, ltb, if◌then◌else◌, replicate,
}
use kafka_gcp_proxy.Protocol.Decoder.{Decoder}
use kafka_gcp_proxy.Protocol.PacketEncoder.{Put}
use kafka_gcp_proxy.Protocol.RealEncoder.{RealEncoder}

-- 100 MiB, as MaxResponseSize
abbrev pub max_request_size : ℕ
max_request_size = 104857600

-- The two passes over e.encode, with the error for a size out of bounds.
unfoldable pub two_passes : Error → Put ℕ → Put RealEncoder → Result (List ℕ)
two_passes too_large prep real = do
  n ← prep 0
  if ltb max_request_size n
      then err too_large
      else (do re ← real (record { raw = replicate n 0; off = 0 }); ok re.raw)

unfoldable pub encode : Put ℕ → Put RealEncoder → Result (List ℕ)
unfolding two_passes
encode = two_passes (packet_encoding "invalid request size")

abbrev pub all_read {ℓ} : {A : Type ℓ} → Error → A × List ℕ → Result A
all_read e (a, []) = ok a
all_read e (a, b ∷ bs) = err e

-- `in` is what the decoder returns. A nil buffer, for which Decode leaves `in` alone, is not passed.
unfoldable pub decode {ℓ} : {A : Type ℓ} → List ℕ → Decoder A → Result A
decode buf d = do r ← d buf; all_read (packet_decoding "invalid length") r
