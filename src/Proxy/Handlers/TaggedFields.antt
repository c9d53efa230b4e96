-- ===== src/Proxy/Handlers/TaggedFields.antt =====
-- ByteReader and MaybeRead of proxy/protocol/response_header.go.
use kafka_gcp_proxy.Base.{
  ℕ, zero, suc, ◌+◌, ◌*◌, ◌%◌, ℤ, pos, half64, leb_ℤ, true, ◌&&◌, String, List, [], ◌∷◌, Error, eof,
  unexpected_eof, failure, ltb, ◌==◌, if◌then◌else◌,
}
use kafka_gcp_proxy.Protocol.Varint.{u64_mod}
use kafka_gcp_proxy.Proxy.Wires.{
  Io, ◌>>=◌, ◌>>◌, pure, fail, done, failed, looping, read, copy_n_discard, tee,
}

abbrev pub one_byte : List ℕ → Io ℕ
one_byte (b ∷ []) = pure b
one_byte _ = fail true (failure "should read one byte")

unfoldable pub read_byte : Io ℕ
read_byte = do bytes ← read 1; one_byte bytes

-- io.EOF behind the first byte is io.ErrUnexpectedEOF.
abbrev pub inside : Error → Error
inside eof = unexpected_eof
inside e = e

abbrev pub map_error {ℓ} : {A : Type ℓ} → (Error → Error) → Io A → Io A
map_error f m w = elim (m w) [
  | done a v ↦ done a v
  | failed r e v ↦ failed r (f e) v
  | looping ↦ looping
]

-- binary.ReadUvarint: `left` is MaxVarintLen64 - i and `unit` is 1 << s.
unfoldable pub read_uvarint_loop : ℕ → ℕ → ℕ → Io ℕ
unfolding read_byte
read_uvarint_loop zero x unit = fail true (failure "binary: varint overflows a 64-bit integer")
read_uvarint_loop (suc left) x unit = do
  b ← if left == 9 then read_byte else map_error inside read_byte
  let more = read_uvarint_loop left ((x + b % 128 * unit) % u64_mod) (unit * 128)
  if ltb b 128
      then if left == 0 && ltb 1 b
        then fail true (failure "binary: varint overflows a 64-bit integer")
        else pure ((x + b * unit) % u64_mod)
      else more

unfoldable pub read_uvarint : Io ℕ
unfolding read_uvarint_loop
read_uvarint = read_uvarint_loop 10 0 1

-- errors.Wrap
abbrev pub wrap {ℓ} : {A : Type ℓ} → String → Io A → Io A
wrap message = map_error (λ e. failure message)

-- int64(size) of the uint64: a negative one makes io.CopyN read nothing and report nothing.
abbrev pub discard_data : ℕ → Io (Unit {0})
discard_data size =
    if size == 0 then pure tt else if ltb size half64 then copy_n_discard size else pure tt

unfoldable pub read_tagged_fields : ℕ → Io (Unit {0})
unfolding read_uvarint
read_tagged_fields zero = pure tt
read_tagged_fields (suc count) = do
  tag ← wrap "error while reading tagged field tag" read_uvarint
  size ← wrap "error while reading tagged field size" read_uvarint
  wrap "error while reading tagged field data" (discard_data size)
  read_tagged_fields count

-- int(numTaggedFields) of the uint64
abbrev pub loop_bound : ℕ → ℕ
loop_bound n = if ltb n half64 then n else 0

unfoldable pub maybe_read : ℤ → Io (List ℕ)
unfolding read_tagged_fields read_uvarint
maybe_read version =
    if leb_ℤ (pos 1) version
    then (do
      (fields, read_bytes) ← tee (do
        count ← wrap "error while reading tagged field numTaggedFields" read_uvarint
        read_tagged_fields (loop_bound count))
      pure read_bytes)
    else pure []
