-- ===== src/Protocol/Wire/Writes.antt =====
-- Each method of prepEncoder measures, and of realEncoder writes, the wire format.
use kafka_gcp_proxy.Base.{
  ℕ, ◌+◌, ◌*◌, ◌≡◌, refl, ap, sym, ◌∙◌, ℤ, pos, minus_one, beq_ℤ, ltb_ℤ, succ_ℤ, true, false,
  Option, none, some, List, [], ◌∷◌, ◌++◌, arith, packet_encoding, ok, length, length-append,
  ok-injective, append-nil, append_assoc, ◌≤◌, ◌-◌,
}
use kafka_gcp_proxy.Protocol.Varint.{put_uvarint}
use kafka_gcp_proxy.Protocol.PacketEncoder.{Put}
use kafka_gcp_proxy.Protocol.PrepEncoder
use kafka_gcp_proxy.Protocol.PrepEncoder.{prep_encoder}
use kafka_gcp_proxy.Protocol.RealEncoder
use kafka_gcp_proxy.Protocol.RealEncoder.{RealEncoder, real_encoder, write, copy, put_each}
use kafka_gcp_proxy.Protocol.Encoding.Writes.{
  Writes, state, state_eq, Writes-ok, Writes-then, Writes-if, Writes-write, Writes-copy,
}
use kafka_gcp_proxy.Protocol.Wire.{
  wire_int8, wire_int16, wire_int32, wire_int64, wire_varint, wire_bool, wire_string,
  wire_nullable_string, wire_compact_string, wire_compact_nullable_string, wire_bytes,
  wire_varint_bytes, wire_each, wire_string_array, wire_int_array, wire_compact_length,
}

-- What both encoders do at a method of the interface.
abbrev pub WritesAt {ℓ} : {A : Type ℓ} → (A → List ℕ) → (A → Put ℕ) → (A → Put RealEncoder) → Type ℓ
WritesAt {A} wire prep real = (a : A) → Writes (wire a) (prep a) (real a)

pub Writes-int8 : WritesAt wire_int8 prep_encoder.put_int8 real_encoder.put_int8
unfolding RealEncoder.put_int8
Writes-int8 z = Writes-write (wire_int8 z) 1 refl

pub Writes-int16 : WritesAt wire_int16 prep_encoder.put_int16 real_encoder.put_int16
unfolding RealEncoder.put_int16
Writes-int16 z = Writes-write (wire_int16 z) 2 refl

pub Writes-int32 : WritesAt wire_int32 prep_encoder.put_int32 real_encoder.put_int32
unfolding RealEncoder.put_int32
Writes-int32 z = Writes-write (wire_int32 z) 4 refl

pub Writes-int64 : WritesAt wire_int64 prep_encoder.put_int64 real_encoder.put_int64
unfolding RealEncoder.put_int64
Writes-int64 z = Writes-write (wire_int64 z) 8 refl

pub Writes-varint : WritesAt wire_varint prep_encoder.put_varint real_encoder.put_varint
unfolding RealEncoder.put_varint PrepEncoder.put_varint
Writes-varint z = Writes-write (wire_varint z) _ refl

pub Writes-bool : WritesAt wire_bool prep_encoder.put_bool real_encoder.put_bool
unfolding RealEncoder.put_bool
Writes-bool true = Writes-write (1 ∷ []) 1 refl
Writes-bool false = Writes-write (0 ∷ []) 1 refl

pub Writes-array_length :
    WritesAt wire_int32 prep_encoder.put_array_length real_encoder.put_array_length
unfolding RealEncoder.put_array_length PrepEncoder.put_array_length
Writes-array_length z = Writes-if _ _ (Writes-int32 z)

pub Writes-compact_array_length :
    WritesAt wire_compact_length prep_encoder.put_compact_array_length
      real_encoder.put_compact_array_length
unfolding RealEncoder.put_compact_array_length PrepEncoder.put_compact_array_length
Writes-compact_array_length z =
    Writes-if (ltb_ℤ (pos 32767) z) (packet_encoding "comact array too long") (
      Writes-if (beq_ℤ z minus_one) (packet_encoding "comact array is null") (
        Writes-if (ltb_ℤ z minus_one) (packet_encoding "comact array invalid length")
          (Writes-varint (succ_ℤ z))))

pub Writes-compact_nullable_array_length :
    WritesAt wire_compact_length prep_encoder.put_compact_nullable_array_length
      real_encoder.put_compact_nullable_array_length
unfolding RealEncoder.put_compact_array_length PrepEncoder.put_compact_nullable_array_length
Writes-compact_nullable_array_length z =
    Writes-if (ltb_ℤ (pos 32767) z) (packet_encoding "comact array too long") (
      Writes-if (ltb_ℤ z minus_one) (packet_encoding "comact array invalid length")
        (Writes-varint (succ_ℤ z)))

pub Writes-uuid :
    (bs : List ℕ) → length bs ≡ 16 → Writes bs (prep_encoder.put_uuid bs) (real_encoder.put_uuid bs)
Writes-uuid bs size = Writes-copy bs 16 size

copied : (bs : List ℕ) → Writes bs (λ n. ok (n + length bs)) (copy bs)
copied bs = Writes-copy bs _ refl

raw_bytes : (bs : List ℕ) → Writes bs (PrepEncoder.put_raw_bytes bs) (copy bs)
unfolding PrepEncoder.put_raw_bytes
raw_bytes bs = Writes-if _ _ (copied bs)

pub Writes-string : WritesAt wire_string prep_encoder.put_string real_encoder.put_string
unfolding RealEncoder.put_string PrepEncoder.put_string
Writes-string s = Writes-if _ _ (Writes-then (Writes-int16 (pos (length s))) (copied s))

pub Writes-nullable_string :
    WritesAt wire_nullable_string prep_encoder.put_nullable_string real_encoder.put_nullable_string
unfolding RealEncoder.put_nullable_string PrepEncoder.put_nullable_string
Writes-nullable_string none = Writes-int16 minus_one
Writes-nullable_string (some s) = Writes-string s

pub Writes-compact_string :
    WritesAt wire_compact_string prep_encoder.put_compact_string real_encoder.put_compact_string
unfolding RealEncoder.put_compact_string PrepEncoder.put_compact_string
Writes-compact_string s =
    Writes-if _ _ (Writes-then (Writes-varint (pos (length s + 1))) (copied s))

pub Writes-compact_nullable_string :
    WritesAt wire_compact_nullable_string prep_encoder.put_compact_nullable_string
      real_encoder.put_compact_nullable_string
unfolding RealEncoder.put_compact_nullable_string PrepEncoder.put_compact_nullable_string
    put_uvarint
Writes-compact_nullable_string none = Writes-write (wire_varint (pos 0)) 1 refl
Writes-compact_nullable_string (some s) = Writes-compact_string s

pub Writes-bytes : WritesAt wire_bytes prep_encoder.put_bytes real_encoder.put_bytes
unfolding RealEncoder.put_bytes PrepEncoder.put_bytes
Writes-bytes none = Writes-int32 minus_one
Writes-bytes (some s) = Writes-then (Writes-int32 (pos (length s))) (raw_bytes s)

pub Writes-varint_bytes :
    WritesAt wire_varint_bytes prep_encoder.put_varint_bytes real_encoder.put_varint_bytes
unfolding RealEncoder.put_varint_bytes PrepEncoder.put_varint_bytes
Writes-varint_bytes none = Writes-varint minus_one
Writes-varint_bytes (some s) = Writes-then (Writes-varint (pos (length s))) (raw_bytes s)

pub Writes-compact_bytes :
    WritesAt wire_compact_string prep_encoder.put_compact_bytes real_encoder.put_compact_bytes
unfolding RealEncoder.put_compact_bytes PrepEncoder.put_compact_bytes
Writes-compact_bytes s = Writes-if _ _ (Writes-then (Writes-varint (pos (length s + 1))) (copied s))

strings :
    (xs : List (List ℕ))
    → Writes
        (wire_each wire_string xs)
        (PrepEncoder.put_strings xs)
        (put_each real_encoder.put_string xs)
unfolding PrepEncoder.put_strings put_each
strings [] = Writes-ok
strings (x ∷ xs) = Writes-then (Writes-string x) (strings xs)

pub Writes-string_array :
    WritesAt wire_string_array prep_encoder.put_string_array real_encoder.put_string_array
unfolding RealEncoder.put_string_array PrepEncoder.put_string_array
Writes-string_array xs = Writes-then (Writes-array_length (pos (length xs))) (strings xs)

-- prepEncoder adds the elements' sizes at once, realEncoder writes them one by one.
module _ {wire : ℤ → List ℕ} {width : ℕ} {put : ℤ → Put RealEncoder}
    (each : WritesAt wire (λ _ n. ok (n + width)) put)
    (size : (z : ℤ) → length (wire z) ≡ width) where
  each_measured : (xs : List ℤ) → length (wire_each wire xs) ≡ width * length xs
  each_measured [] = omega arith
  each_measured (x ∷ xs) =
      omega (arith, length-append (wire x) (wire_each wire xs), size x, each_measured xs)

  each_written :
      (xs : List ℤ) (w : List ℕ) (room : ℕ)
      → length (wire_each wire xs) ≤ room
      → put_each put xs (state w room)
        ≡ ok (state (w ++ wire_each wire xs) (room - length (wire_each wire xs)))
  unfolding put_each
  each_written [] w room h = state_eq (sym (append-nil w)) (omega arith)
  each_written (x ∷ xs) w room h =
      let total = length-append (wire x) (wire_each wire xs) in
      rw ((each x).written 0 width (ap ok (omega arith)) w room (omega (arith, total))) (
        each_written xs (w ++ wire x) (room - length (wire x)) (omega (arith, total))
        ∙ state_eq (append_assoc w (wire x) (wire_each wire xs)) (omega (arith, total)))

  elements :
      (xs : List ℤ) → Writes (wire_each wire xs) (λ n. ok (n + width * length xs)) (put_each put xs)
  elements xs = record {
    measured = λ n n' e. omega (arith, ok-injective e, each_measured xs);
    written = λ n n' e. each_written xs;
  }

  int_array :
      (xs : Option (List ℤ))
      → Writes
          (wire_int_array wire xs)
          (PrepEncoder.put_int_array width xs)
          (RealEncoder.put_int_array put xs)
  unfolding RealEncoder.put_int_array PrepEncoder.put_int_array
  int_array none = Writes-array_length minus_one
  int_array (some xs) = Writes-then (Writes-array_length (pos (length xs))) (elements xs)

pub Writes-int32_array :
    WritesAt (wire_int_array wire_int32) prep_encoder.put_int32_array real_encoder.put_int32_array
Writes-int32_array = int_array Writes-int32 (λ z. refl)

pub Writes-int64_array :
    WritesAt (wire_int_array wire_int64) prep_encoder.put_int64_array real_encoder.put_int64_array
Writes-int64_array = int_array Writes-int64 (λ z. refl)
