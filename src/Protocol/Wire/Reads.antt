-- ===== src/Protocol/Wire/Reads.antt =====
-- Each method of realDecoder reads the wire format back, whatever follows it.
use kafka_gcp_proxy.Base.{
  ℕ, suc, ◌+◌, ◌*◌, ◌/◌, ◌%◌, ◌<◌, ◌≤◌, ◌≡◌, refl, ap, sym, ◌∙◌, ℤ, pos, minus_one, half8, half16,
  half32, half64, signed, unsigned, InRange, signed-unsigned, unsigned-lt, pred64, Bool, true,
  false, Option, none, some, List, [], ◌∷◌, ◌++◌, append_assoc, arith, Result, ok, ltb, ge→ltb,
  length, length-append, take-length, drop-length, All,
}
use kafka_gcp_proxy.Protocol.Varint.{u64_mod, uvarint-put_uvarint}
use kafka_gcp_proxy.Protocol.Decoder.{
  Decoder, pure, ◌>>=◌, >>=-ok, get_int8, get_int16, get_int32, get_int64, get_varint, get_bool,
  get_raw_bytes, get_bytes, get_varint_bytes, get_uuid, get_compact_length,
  get_compact_nullable_length, get_compact_bytes, get_string_length, get_string,
  get_nullable_string, get_compact_string, get_compact_nullable_string, get_each, get_array_length,
  slice, some_raw_bytes, slice_or_empty, nullable_slice, check_string_length, check_array_length,
  check_compact_length, check_compact_nullable_length,
}
use kafka_gcp_proxy.Protocol.Decoder.Ranges.{Shorter}
use kafka_gcp_proxy.Protocol.Wire.{
  wire_int8, wire_int16, wire_int32, wire_int64, wire_varint, wire_bool, wire_string,
  wire_nullable_string, wire_compact_string, wire_compact_nullable_string, wire_bytes,
  wire_varint_bytes, wire_each,
}

-- `get` reads `a` off its encoding and leaves the rest.
abbrev pub Reads {ℓ} : {A : Type ℓ} → Decoder A → List ℕ → A → Type ℓ
Reads get wire a = (rest : List ℕ) → get (wire ++ rest) ≡ ok (a, rest)

be16_value : (n : ℕ) → n < 65536 → (n / 256 % 256 * 256 + n % 256) % 65536 ≡ n
be16_value n h = omega arith

be32_value :
    (n : ℕ)
    → n < 4294967296
    → (n / 16777216 % 256 * 16777216 + n / 65536 % 256 * 65536 + n / 256 % 256 * 256 + n % 256)
        % 4294967296
      ≡ n
be32_value n h = omega arith

ok_pair {ℓ} :
    {A : Type ℓ} {a b : A} (rest : List ℕ)
    → a ≡ b
    → ◌≡◌ {A = Result (A × List ℕ)} (ok (a, rest)) (ok (b, rest))
ok_pair rest e = λ i. ok (e i, rest)

pub Reads-int8 : (z : ℤ) → InRange half8 z → Reads get_int8 (wire_int8 z) z
unfolding get_int8
Reads-int8 z h rest =
    let low : unsigned half8 z % 256 ≡ unsigned half8 z = omega (arith, unsigned-lt half8 z h) in
    ok_pair rest (rw low (signed-unsigned half8 z h))

pub Reads-int16 : (z : ℤ) → InRange half16 z → Reads get_int16 (wire_int16 z) z
unfolding get_int16
Reads-int16 z h rest =
    ok_pair rest
      (ap (signed half16) (be16_value _ (unsigned-lt half16 z h)) ∙ signed-unsigned half16 z h)

pub Reads-int32 : (z : ℤ) → InRange half32 z → Reads get_int32 (wire_int32 z) z
unfolding get_int32
Reads-int32 z h rest =
    ok_pair rest
      (ap (signed half32) (be32_value _ (unsigned-lt half32 z h)) ∙ signed-unsigned half32 z h)

pub Reads-int64 : (z : ℤ) → InRange half64 z → Reads get_int64 (wire_int64 z) z
unfolding get_int64
Reads-int64 z h rest =
    let u : ℕ = unsigned half64 z in
    let small = unsigned-lt half64 z h in
    let high = be32_value (u / 4294967296) (omega arith) in
    let low = be32_value (u % 4294967296) (omega arith) in
    ok_pair rest (ap (signed half64) (omega (arith, high, low)) ∙ signed-unsigned half64 z h)

pub Reads-varint : (z : ℤ) → InRange half64 z → Reads get_varint (wire_varint z) z
unfolding get_varint
Reads-varint z h rest =
    rw (uvarint-put_uvarint (unsigned half64 z) rest (unsigned-lt half64 z h))
      (ok_pair rest (signed-unsigned half64 z h))

pub Reads-bool : (b : Bool) → Reads get_bool (wire_bool b) b
unfolding get_bool get_int8
Reads-bool true rest = refl
Reads-bool false rest = refl

slice-append : (s rest : List ℕ) → slice (length s) (s ++ rest) ≡ ok (s, rest)
slice-append s rest = rw (take-length s rest, drop-length s rest)

fits : (s rest : List ℕ) → ltb (length (s ++ rest)) (length s) ≡ false
fits s rest = ge→ltb _ _ (omega (arith, length-append s rest))

string_length :
    (s rest : List ℕ)
    → length s < half16
    → get_string_length (wire_string s ++ rest) ≡ ok (pos (length s), s ++ rest)
unfolding get_string_length
string_length s rest h =
    >>=-ok get_int16 check_string_length (Reads-int16 (pos (length s)) h (s ++ rest))
    ∙ rw (fits s rest)

null_length :
    (rest : List ℕ) → get_string_length (wire_int16 minus_one ++ rest) ≡ ok (minus_one, rest)
unfolding get_string_length
null_length rest = >>=-ok get_int16 check_string_length (Reads-int16 minus_one (omega arith) rest)

pub Reads-string : (s : List ℕ) → length s < half16 → Reads get_string (wire_string s) s
unfolding get_string
Reads-string s h rest =
    >>=-ok get_string_length slice_or_empty (string_length s rest h) ∙ slice-append s rest

some_slice : (s rest : List ℕ) → nullable_slice (pos (length s)) (s ++ rest) ≡ ok (some s, rest)
some_slice s rest = rw (take-length s rest, drop-length s rest)

pub Reads-nullable_string :
    (o : Option (List ℕ)) → Shorter half16 o → Reads get_nullable_string (wire_nullable_string o) o
unfolding get_nullable_string
Reads-nullable_string none h rest = >>=-ok get_string_length nullable_slice (null_length rest)
Reads-nullable_string (some s) h rest =
    >>=-ok get_string_length nullable_slice (string_length s rest h) ∙ some_slice s rest

-- A varint in front of `s`.
varint_before :
    (n : ℕ) (s rest : List ℕ)
    → n < half64
    → get_varint ((wire_varint (pos n) ++ s) ++ rest) ≡ ok (pos n, s ++ rest)
varint_before n s rest h =
    rw (append_assoc (wire_varint (pos n)) s rest) (Reads-varint (pos n) h (s ++ rest))

-- A length of the compact formats is sent increased by one, and wraps like Go's int64.
pred64-signed :
    (n : ℕ) → n < half64 → pred64 (signed half64 (unsigned half64 (pos (n + 1)))) ≡ pos n
pred64-signed n h =
    let e : n + 1 ≡ suc n = omega arith in
    let wraps : suc n % (half64 + half64) ≡ suc n = omega arith in rw (e, wraps) (ground arith)

compact_varint :
    (n : ℕ) (tail : List ℕ)
    → n < half64
    → get_varint (wire_varint (pos (n + 1)) ++ tail)
      ≡ ok (signed half64 (unsigned half64 (pos (n + 1))), tail)
unfolding get_varint
compact_varint n tail h =
    let fits64 : unsigned half64 (pos (n + 1)) < u64_mod = omega arith in
    rw (uvarint-put_uvarint (unsigned half64 (pos (n + 1))) tail fits64)

-- A count of the compact formats, of no more elements than bytes follow.
pub compact_count :
    (n : ℕ) (tail : List ℕ)
    → n < half64
    → n ≤ length tail
    → get_compact_length (wire_varint (pos (n + 1)) ++ tail) ≡ ok (n, tail)
unfolding get_compact_length
compact_count n tail h l =
    >>=-ok get_varint (λ n. check_compact_length (pred64 n)) (compact_varint n tail h)
    ∙ rw (pred64-signed n h, ge→ltb _ _ l)

pub compact_nullable_count :
    (n : ℕ) (tail : List ℕ)
    → n < half64
    → n ≤ length tail
    → get_compact_nullable_length (wire_varint (pos (n + 1)) ++ tail) ≡ ok (pos n, tail)
unfolding get_compact_nullable_length
compact_nullable_count n tail h l =
    >>=-ok get_varint (λ n. check_compact_nullable_length (pred64 n)) (compact_varint n tail h)
    ∙ rw (pred64-signed n h, ge→ltb _ _ l)

no_longer : (s rest : List ℕ) → length s ≤ length (s ++ rest)
no_longer s rest = omega (arith, length-append s rest)

compact_length :
    (s rest : List ℕ)
    → length s < half64
    → get_compact_length (wire_compact_string s ++ rest) ≡ ok (length s, s ++ rest)
compact_length s rest h =
    rw (append_assoc (wire_varint (pos (length s + 1))) s rest)
      (compact_count (length s) (s ++ rest) h (no_longer s rest))

pub Reads-compact_string :
    (s : List ℕ) → length s < half64 → Reads get_compact_string (wire_compact_string s) s
unfolding get_compact_string
Reads-compact_string s h rest =
    >>=-ok get_compact_length slice (compact_length s rest h) ∙ slice-append s rest

pub Reads-compact_bytes :
    (s : List ℕ) → length s < half64 → Reads get_compact_bytes (wire_compact_string s) s
unfolding get_compact_bytes
Reads-compact_bytes s h rest =
    >>=-ok get_compact_length slice (compact_length s rest h) ∙ slice-append s rest

compact_nullable_length :
    (s rest : List ℕ)
    → length s < half64
    → get_compact_nullable_length (wire_compact_string s ++ rest) ≡ ok (pos (length s), s ++ rest)
compact_nullable_length s rest h =
    rw (append_assoc (wire_varint (pos (length s + 1))) s rest)
      (compact_nullable_count (length s) (s ++ rest) h (no_longer s rest))

pub compact_null :
    (rest : List ℕ)
    → get_compact_nullable_length (wire_varint (pos 0) ++ rest) ≡ ok (minus_one, rest)
unfolding get_compact_nullable_length
compact_null rest =
    >>=-ok get_varint (λ n. check_compact_nullable_length (pred64 n))
      (Reads-varint (pos 0) (omega arith) rest)

pub Reads-compact_nullable_string :
    (o : Option (List ℕ))
    → Shorter half64 o
    → Reads get_compact_nullable_string (wire_compact_nullable_string o) o
unfolding get_compact_nullable_string
Reads-compact_nullable_string none h rest =
    >>=-ok get_compact_nullable_length nullable_slice (compact_null rest)
Reads-compact_nullable_string (some s) h rest =
    >>=-ok get_compact_nullable_length nullable_slice (compact_nullable_length s rest h)
    ∙ some_slice s rest

raw_bytes : (s rest : List ℕ) → get_raw_bytes (pos (length s)) (s ++ rest) ≡ ok (s, rest)
unfolding get_raw_bytes
raw_bytes s rest = rw (fits s rest) (slice-append s rest)

some_raw : (s rest : List ℕ) → some_raw_bytes (pos (length s)) (s ++ rest) ≡ ok (some s, rest)
some_raw s rest = >>=-ok (get_raw_bytes (pos (length s))) (λ b. pure (some b)) (raw_bytes s rest)

pub Reads-bytes : (o : Option (List ℕ)) → Shorter half32 o → Reads get_bytes (wire_bytes o) o
unfolding get_bytes
Reads-bytes none h rest = >>=-ok get_int32 some_raw_bytes (Reads-int32 minus_one (omega arith) rest)
Reads-bytes (some s) h rest =
    >>=-ok get_int32 some_raw_bytes (Reads-int32 (pos (length s)) h (s ++ rest)) ∙ some_raw s rest

pub Reads-varint_bytes :
    (o : Option (List ℕ)) → Shorter half64 o → Reads get_varint_bytes (wire_varint_bytes o) o
unfolding get_varint_bytes
Reads-varint_bytes none h rest =
    >>=-ok get_varint some_raw_bytes (Reads-varint minus_one (omega arith) rest)
Reads-varint_bytes (some s) h rest =
    >>=-ok get_varint some_raw_bytes (varint_before (length s) s rest h) ∙ some_raw s rest

pub Reads-uuid : (s : List ℕ) → length s ≡ 16 → Reads get_uuid s s
unfolding get_uuid
Reads-uuid s h rest = ap (λ (n : ℕ). get_raw_bytes (pos n) (s ++ rest)) (sym h) ∙ raw_bytes s rest

pub array_length :
    (n : ℕ) (tail : List ℕ)
    → n ≤ 131070
    → n ≤ length tail
    → get_array_length (wire_int32 (pos n) ++ tail) ≡ ok (pos n, tail)
unfolding get_array_length
array_length n tail h l =
    >>=-ok get_int32 check_array_length (Reads-int32 (pos n) (omega arith) tail)
    ∙ rw (ge→ltb (length tail) n l, ge→ltb 131070 n h)

pub Reads-each {ℓ} :
    {A : Type ℓ} (get : Decoder A) (wire : A → List ℕ) (xs : List A)
    → All (λ x. Reads get (wire x) x) xs
    → Reads (get_each get (length xs)) (wire_each wire xs) xs
unfolding get_each
Reads-each get wire [] h rest = refl
Reads-each get wire (x ∷ xs) (hx, hs) rest = rw (append_assoc (wire x) (wire_each wire xs) rest) (
    >>=-ok get (λ y. get_each get (length xs) >>= λ ys. pure (y ∷ ys))
      (hx (wire_each wire xs ++ rest))
    ∙ >>=-ok (get_each get (length xs)) (λ ys. pure (x ∷ ys)) (Reads-each get wire xs hs rest))
