-- ===== src/Proxy/Handlers/HeaderLengths.antt =====
-- The lengths that the headers of request_key_version.go and response_header.go (proxy/protocol) accept,
-- and what the int32 subtractions of proxy/processor_default.go make of them.
use kafka_gcp_proxy.Base.{
  ℕ, ◌+◌, ◌-◌, ◌<◌, ◌≡◌, ◌⊎◌, inl, inr, refl, ap, sym, subst, ◌∙◌, ℤ, pos, negsuc, half32, InRange,
  signed-unsigned, List, [], ◌∷◌, Result, ok, err, arith, Bool-cases, leb, ltb, ◌>>=◌,
  packet_decoding,
}
use kafka_gcp_proxy.Protocol.Decoder.{Decoder, get_int16, get_int32, >>=-eq-ok}
use kafka_gcp_proxy.Protocol.Decoder.Ranges.{Gives, Gives-int32, read_value}
use kafka_gcp_proxy.Protocol.Encoding.{decode, all_read}
use kafka_gcp_proxy.Protocol.KeyVersion.{RequestKeyVersion, decode_key_version, check_length}
use kafka_gcp_proxy.Protocol.Headers.{ResponseHeader, decode_response_header}
use kafka_gcp_proxy.Proxy.Handlers.Request.{minus32}

pub minus32-pos : (x n m : ℕ) → x < half32 → minus32 (pos x) n ≡ pos m → (x ≡ n + m) ⊎ (half32 < n)
minus32-pos x n m small h = elim (Bool-cases (leb n x)) [
  | inl le ↦ inl (
      let exact = signed-unsigned half32 (pos (x - n)) (omega arith) in
      let difference : x - n ≡ m = ap number (sym exact ∙ rw le at h) in ground arith)
  | inr gt ↦ elim (Bool-cases (ltb half32 n)) [
    | inl large ↦ inr (ground arith)
    | inr few ↦
        let exact = signed-unsigned half32 (negsuc (n - x - 1)) (ground arith) in
        let clash : negsuc (n - x - 1) ≡ pos m = sym exact ∙ rw gt at h in cc
  ]
]
  where
    number : ℤ → ℕ
    number (pos k) = k
    number (negsuc k) = 0

-- A length that is accepted.
abbrev pub IsLength : ℤ → Type 0
IsLength (pos n) = (4 < n) × (n < half32)
IsLength (negsuc n) = ⊥

check_length-IsLength :
    (n m : ℤ) (bs rest : List ℕ) → InRange half32 n → check_length n bs ≡ ok (m, rest) → IsLength m
check_length-IsLength (negsuc n) m bs rest within h = cc
check_length-IsLength (pos n) m bs rest within h = elim (Bool-cases (leb n 4)) [
  | inl small ↦ let clash = rw small at h in cc
  | inr large ↦ subst IsLength (read_value (rw large at h)) (ground arith, within)
]

decode-read {ℓ} :
    {A : Type ℓ} (bs : List ℕ) (d : Decoder A) (P : A → Type 0) {a : A}
    → Gives d P
    → decode bs d ≡ ok a
    → P a
unfolding decode
decode-read {A} bs d P {a} gives h = go (d bs) refl h
  where
    go :
        (x : Result (A × List ℕ))
        → d bs ≡ x
        → (x >>= λ r. all_read (packet_decoding "invalid length") r) ≡ ok a
        → P a
    go (ok (b, [])) e k = gives bs [] a (e ∙ cc)
    go (ok (b, y ∷ ys)) e k = cc
    go (err x) e k = cc

pub key_version-IsLength :
    (bs : List ℕ) (r : RequestKeyVersion) → decode bs decode_key_version ≡ ok r → IsLength r.length
unfolding decode_key_version
key_version-IsLength bs r h =
    decode-read bs decode_key_version (λ (x : RequestKeyVersion). IsLength x.length) go h
  where
    go : Gives decode_key_version (λ (x : RequestKeyVersion). IsLength x.length)
    go xs rest x e =
        let (n, m1, e1, k1) = >>=-eq-ok get_int32 _ xs e in
        let (n', m2, e2, k2) = >>=-eq-ok (check_length n) _ m1 k1 in
        let (k, m3, e3, k3) = >>=-eq-ok get_int16 _ m2 k2 in
        let (v, m4, e4, k4) = >>=-eq-ok get_int16 _ m3 k3 in
        let checked : IsLength n' = check_length-IsLength n n' m1 m2 (Gives-int32 xs m1 n e1) e2 in
        subst (λ (y : RequestKeyVersion). IsLength y.length) (read_value k4) checked

pub response_header-IsLength :
    (bs : List ℕ) (r : ResponseHeader) → decode bs decode_response_header ≡ ok r → IsLength r.length
unfolding decode_response_header
response_header-IsLength bs r h =
    decode-read bs decode_response_header (λ (x : ResponseHeader). IsLength x.length) go h
  where
    go : Gives decode_response_header (λ (x : ResponseHeader). IsLength x.length)
    go xs rest x e =
        let (n, m1, e1, k1) = >>=-eq-ok get_int32 _ xs e in
        let (n', m2, e2, k2) = >>=-eq-ok (check_length n) _ m1 k1 in
        let (c, m3, e3, k3) = >>=-eq-ok get_int32 _ m2 k2 in
        let checked : IsLength n' = check_length-IsLength n n' m1 m2 (Gives-int32 xs m1 n e1) e2 in
        subst (λ (y : ResponseHeader). IsLength y.length) (read_value k3) checked

-- A whole message: the length and the four bytes that hold it, unless there are more than 2 GiB of it.
pub minus32-whole :
    (length : ℤ) (n m : ℕ)
    → IsLength length
    → minus32 length n ≡ pos m
    → (length ≡ pos (n + m)) ⊎ (half32 < n)
minus32-whole (pos x) n m (low, high) h = elim (minus32-pos x n m high h) [
  | inl e ↦ inl (ap pos e)
  | inr e ↦ inr e
]
minus32-whole (negsuc x) n m l h = elim l [ ]
