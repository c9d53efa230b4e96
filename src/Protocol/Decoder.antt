-- ===== src/Protocol/Decoder.antt =====
-- proxy/protocol/real_decoder.go. The state of a realDecoder is the part of `raw` from `off` on:
-- `remaining()` is its length, and `rd.off = len(rd.raw)` empties it. Every caller returns at the
-- first error, so the state behind an error is left out. `int` has 64 bits.
mod Monad
pub mod Ranges
pub use Monad.{Decoder, ◌>>=◌, ◌>>◌, pure, fail, >>=-eq-ok, >>=-ok}
use kafka_gcp_proxy.Base.{
  ℕ, zero, suc, ◌+◌, ◌*◌, ◌%◌, ℤ, pos, negsuc, minus_one, half8, half16, half32, half64, signed,
  pred64, beq_ℤ, ltb_ℤ, Bool, true, false, Option, none, some, List, [], ◌∷◌, Error,
  insufficient_data, packet_decoding, ok, err, ltb, ◌==◌, if◌then◌else◌, length, take, drop,
}
use kafka_gcp_proxy.Protocol.Varint.{Uvarint, value, short, overflow, uvarint}

abbrev pub invalid_array_length : Error
invalid_array_length = packet_decoding "invalid array length"

abbrev pub invalid_string_length : Error
invalid_string_length = packet_decoding "invalid string length"

abbrev pub varint_overflow : Error
varint_overflow = packet_decoding "varint overflow"

abbrev pub invalid_bool : Error
invalid_bool = packet_decoding "invalid bool"

abbrev pub invalid_byte_slice_length : Error
invalid_byte_slice_length = packet_decoding "invalid byte slice length"

abbrev pub invalid_compact_length : Error
invalid_compact_length = packet_decoding "invalid compact length"

abbrev pub invalid_compact_nullable_length : Error
invalid_compact_nullable_length = packet_decoding "invalid compact nullable length"

-- int8(raw[off])
unfoldable pub get_int8 : Decoder ℤ
get_int8 (b ∷ bs) = ok (signed half8 (b % 256), bs)
get_int8 _ = err insufficient_data

-- binary.BigEndian.Uint16, in 16 bits
unfoldable pub get_int16 : Decoder ℤ
get_int16 (a ∷ b ∷ bs) = ok (signed half16 ((a * 256 + b) % 65536), bs)
get_int16 _ = err insufficient_data

abbrev be32 : ℕ → ℕ → ℕ → ℕ → ℕ
be32 a b c d = (a * 16777216 + b * 65536 + c * 256 + d) % 4294967296

unfoldable pub get_int32 : Decoder ℤ
get_int32 (a ∷ b ∷ c ∷ d ∷ bs) = ok (signed half32 (be32 a b c d), bs)
get_int32 _ = err insufficient_data

unfoldable pub get_int64 : Decoder ℤ
get_int64 (a ∷ b ∷ c ∷ d ∷ e ∷ f ∷ g ∷ h ∷ bs) =
    ok (signed half64 (be32 a b c d * 4294967296 + be32 e f g h), bs)
get_int64 _ = err insufficient_data

abbrev pub of_uvarint : Uvarint → Decoder ℤ
of_uvarint (value x rest) bs = ok (signed half64 x, rest)
of_uvarint short bs = err insufficient_data
of_uvarint overflow bs = err varint_overflow

unfoldable pub get_varint : Decoder ℤ
get_varint bs = of_uvarint (uvarint bs) bs

-- The tests on a length `n` that has been read, against the bytes that remain.
abbrev pub exceeds : ℤ → List ℕ → Bool
exceeds n bs = ltb_ℤ (pos (length bs)) n

abbrev pub check_array_length : ℤ → Decoder ℤ
check_array_length n bs =
    if exceeds n bs
    then err insufficient_data
    else if ltb_ℤ (pos 131070) n
    then err invalid_array_length
    else ok (n, bs)

unfoldable pub get_array_length : Decoder ℤ
get_array_length = do n ← get_int32; check_array_length n

abbrev pub to_bool : ℤ → Decoder Bool
to_bool b =
    if beq_ℤ b (pos 0) then pure false else if beq_ℤ b (pos 1) then pure true else fail invalid_bool

unfoldable pub get_bool : Decoder Bool
get_bool = do b ← get_int8; to_bool b

-- raw[off : off+n], past the test that n bytes remain
abbrev pub slice : ℕ → Decoder (List ℕ)
slice n bs = ok (take n bs, drop n bs)

unfoldable pub get_raw_bytes : ℤ → Decoder (List ℕ)
get_raw_bytes (negsuc n) bs = err invalid_byte_slice_length
get_raw_bytes (pos n) bs = if ltb (length bs) n then err insufficient_data else slice n bs

-- A nil slice is `none`.
abbrev pub some_raw_bytes : ℤ → Decoder (Option (List ℕ))
some_raw_bytes n =
    if beq_ℤ n minus_one then pure none else (do bytes ← get_raw_bytes n; pure (some bytes))

unfoldable pub get_bytes : Decoder (Option (List ℕ))
get_bytes = do n ← get_int32; some_raw_bytes n

unfoldable pub get_varint_bytes : Decoder (Option (List ℕ))
get_varint_bytes = do n ← get_varint; some_raw_bytes n

-- uuid.FromBytes keeps sixteen bytes as they are.
unfoldable pub get_uuid : Decoder (List ℕ)
get_uuid = get_raw_bytes (pos 16)

-- int(length - 1), which is not negative here
abbrev pub check_compact_length : ℤ → Decoder ℕ
check_compact_length (negsuc n) bs = err invalid_compact_length
check_compact_length (pos n) bs = if ltb (length bs) n then err insufficient_data else ok (n, bs)

unfoldable pub get_compact_length : Decoder ℕ
get_compact_length = do n ← get_varint; check_compact_length (pred64 n)

abbrev pub check_compact_nullable_length : ℤ → Decoder ℤ
check_compact_nullable_length n bs =
    if ltb_ℤ n minus_one
    then err invalid_compact_nullable_length
    else if exceeds n bs
    then err insufficient_data
    else ok (n, bs)

unfoldable pub get_compact_nullable_length : Decoder ℤ
get_compact_nullable_length = do n ← get_varint; check_compact_nullable_length (pred64 n)

unfoldable pub get_compact_bytes : Decoder (List ℕ)
get_compact_bytes = do n ← get_compact_length; slice n

abbrev pub check_string_length : ℤ → Decoder ℤ
check_string_length n bs =
    if ltb_ℤ n minus_one
    then err invalid_string_length
    else if exceeds n bs
    then err insufficient_data
    else ok (n, bs)

unfoldable pub get_string_length : Decoder ℤ
get_string_length = do n ← get_int16; check_string_length n

-- What follows a length that is -1 or has passed the tests.
abbrev pub nullable_slice : ℤ → Decoder (Option (List ℕ))
nullable_slice (negsuc n) = pure none
nullable_slice (pos n) = do bytes ← slice n; pure (some bytes)

abbrev pub slice_or_empty : ℤ → Decoder (List ℕ)
slice_or_empty (negsuc n) = pure []
slice_or_empty (pos n) = slice n

-- A null string reads as the empty one.
unfoldable pub get_string : Decoder (List ℕ)
get_string = do n ← get_string_length; slice_or_empty n

unfoldable pub get_nullable_string : Decoder (Option (List ℕ))
get_nullable_string = do n ← get_string_length; nullable_slice n

unfoldable pub get_compact_string : Decoder (List ℕ)
get_compact_string = do n ← get_compact_length; slice n

unfoldable pub get_compact_nullable_string : Decoder (Option (List ℕ))
get_compact_nullable_string = do n ← get_compact_nullable_length; nullable_slice n

-- for i := range ret
unfoldable pub get_each {ℓ} : {A : Type ℓ} → Decoder A → ℕ → Decoder (List A)
get_each get zero = pure []
get_each get (suc n) = do x ← get; xs ← get_each get n; pure (x ∷ xs)

abbrev pub check_elements : ℕ → ℕ → Decoder (List ℤ) → Decoder (Option (List ℤ))
check_elements width n get bs =
    if ltb (length bs) (width * n) then err insufficient_data else (do xs ← get; pure (some xs)) bs

abbrev pub some_elements : ℕ → (ℕ → Decoder (List ℤ)) → ℤ → Decoder (Option (List ℤ))
some_elements width get (pos zero) = pure (some [])
some_elements width get (pos (suc n)) = check_elements width (suc n) (get (suc n))
some_elements width get (negsuc zero) = pure none
some_elements width get (negsuc (suc n)) = fail invalid_array_length

unfoldable pub get_int32_array : Decoder (Option (List ℤ))
get_int32_array = do n ← get_array_length; some_elements 4 (get_each get_int32) n

unfoldable pub get_int64_array : Decoder (Option (List ℤ))
get_int64_array = do n ← get_array_length; some_elements 8 (get_each get_int64) n

abbrev pub some_strings : ℤ → Decoder (Option (List (List ℕ)))
some_strings (pos n) = do xs ← get_each get_string n; pure (some xs)
some_strings (negsuc zero) = pure none
some_strings (negsuc (suc n)) = fail invalid_array_length

unfoldable pub get_string_array : Decoder (Option (List (List ℕ)))
get_string_array = do n ← get_array_length; some_strings n
