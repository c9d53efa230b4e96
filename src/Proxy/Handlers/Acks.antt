-- ===== src/Proxy/Handlers/Acks.antt =====
-- proxy/protocol/request_produce_reader.go, and mustReply of proxy/processor_default.go on it.
use kafka_gcp_proxy.Base.{
  ℕ, ◌+◌, ◌*◌, ℤ, pos, negsuc, half16, signed, beq_ℤ, leb_ℤ, Bool, true, ◌&&◌, not, List, [], ◌∷◌,
  ◌==◌, if◌then◌else◌,
}
use kafka_gcp_proxy.Protocol.Decoder.{invalid_string_length}
use kafka_gcp_proxy.Protocol.KeyVersion.{RequestKeyVersion}
use kafka_gcp_proxy.Proxy.Wires.{Io, ◌>>=◌, ◌>>◌, pure, fail, read_full, copy_n_discard, tee}

-- binary.BigEndian, of two bytes
abbrev int16_of : List ℕ → ℤ
int16_of (a ∷ b ∷ bs) = signed half16 (a * 256 + b)
int16_of _ = pos 0

-- binary.Read(reader, binary.BigEndian, &x) for an int16
abbrev pub read_int16 : Io ℤ
read_int16 = do bytes ← read_full 2; pure (int16_of bytes)

abbrev pub discard_string : ℤ → Io (Unit {0})
discard_string (negsuc n) = if n == 0 then pure tt else fail true invalid_string_length
discard_string (pos n) = if n == 0 then pure tt else copy_n_discard n

unfoldable pub read_and_discard_nullable_string : Io (Unit {0})
read_and_discard_nullable_string = do length ← read_int16; discard_string length

unfoldable pub read_and_discard_header_v1_part : Io (Unit {0})
unfolding read_and_discard_nullable_string
read_and_discard_header_v1_part = do correlation_id ← read_full 4; read_and_discard_nullable_string

unfoldable pub read_and_discard_produce_acks : Io ℤ
read_and_discard_produce_acks = read_int16

unfoldable pub read_and_discard_produce_txn_acks : Io ℤ
unfolding read_and_discard_nullable_string
read_and_discard_produce_txn_acks = read_and_discard_nullable_string >> read_int16

-- The acks of a Produce request of this version, with what stands before them.
unfoldable pub read_acks : ℤ → Io ℤ
unfolding read_and_discard_header_v1_part read_and_discard_produce_acks
    read_and_discard_produce_txn_acks
read_acks version =
    if leb_ℤ (pos 0) version && leb_ℤ version (pos 2)
    then read_and_discard_header_v1_part >> read_and_discard_produce_acks
    else read_and_discard_header_v1_part >> read_and_discard_produce_txn_acks

-- return true, nil, nil
abbrev pub always : Io (Bool × List ℕ)
always = pure (true, [])

unfoldable pub must_reply : Bool → RequestKeyVersion → Io (Bool × List ℕ)
unfolding read_acks
must_reply producer_acks0_disabled r =
    if not (beq_ℤ r.api_key (pos 0))
    then always
    else if producer_acks0_disabled
    then always
    else (do
      (acks, read_bytes) ← tee (read_acks r.api_version)
      pure (not (beq_ℤ acks (pos 0)), read_bytes))
