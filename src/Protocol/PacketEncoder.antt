-- ===== src/Protocol/PacketEncoder.antt =====
-- proxy/protocol/packet_encoder.go: the interface that prepEncoder and realEncoder implement.
-- `S` is the encoder's state, and a method returns the state that it leaves. The methods that
-- have no error result in the source can still panic, so all of them return a Result.
use kafka_gcp_proxy.Base.{ℕ, ℤ, Bool, Option, List, Result}

abbrev pub Put : Type 0 → Type 0
Put S = S → Result S

pub record PacketEncoder (S : Type 0) : Type 0 where
  pub put_int8 : ℤ → Put S
  pub put_int16 : ℤ → Put S
  pub put_int32 : ℤ → Put S
  pub put_int64 : ℤ → Put S
  pub put_varint : ℤ → Put S
  pub put_array_length : ℤ → Put S
  pub put_compact_array_length : ℤ → Put S
  pub put_compact_nullable_array_length : ℤ → Put S
  pub put_bool : Bool → Put S
  pub put_bytes : Option (List ℕ) → Put S
  pub put_varint_bytes : Option (List ℕ) → Put S
  pub put_uuid : List ℕ → Put S
  pub put_compact_bytes : List ℕ → Put S
  pub put_string : List ℕ → Put S
  pub put_nullable_string : Option (List ℕ) → Put S
  pub put_compact_string : List ℕ → Put S
  pub put_compact_nullable_string : Option (List ℕ) → Put S
  pub put_string_array : List (List ℕ) → Put S
  pub put_int32_array : Option (List ℤ) → Put S
  pub put_int64_array : Option (List ℤ) → Put S
