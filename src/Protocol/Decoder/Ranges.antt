-- ===== src/Protocol/Decoder/Ranges.antt =====
-- What the methods of realDecoder can return, on any input.
use kafka_gcp_proxy.Base.{
  Bool-cases, inl, inr, true, ℕ, zero, suc, ◌≤◌, ◌<◌, ◌≡◌, refl, ap, subst, ℤ, pos, negsuc, half16,
  half32, half64, signed-InRange, InRange, pred64, Option, none, some, List, [], ◌∷◌, arith, Result,
  ok, ltb, beq_ℤ, minus_one, length, length-take, take, All,
}
use kafka_gcp_proxy.Protocol.Varint.{Uvarint, value, short, overflow, uvarint, uvarint-InRange}
use kafka_gcp_proxy.Protocol.Decoder.Monad.{Decoder, pure, ◌>>=◌, >>=-eq-ok}
use kafka_gcp_proxy.Protocol.Decoder.{
  get_int16, get_int32, get_varint, of_uvarint, get_string_length, check_string_length, get_string,
  slice_or_empty, nullable_slice, get_nullable_string, get_compact_length, check_compact_length,
  get_compact_nullable_length, check_compact_nullable_length, get_compact_string,
  get_compact_nullable_string, slice, get_raw_bytes, get_uuid, some_raw_bytes, get_varint_bytes,
  get_array_length, check_array_length, get_each,
}

-- The text, if there is one, is shorter than the bound.
abbrev pub Shorter : ℕ → Option (List ℕ) → Type 0
Shorter bound none = Unit {0}
Shorter bound (some s) = length s < bound

-- A decoder returns only values with the property.
abbrev pub Gives {ℓ κ} : {A : Type ℓ} → Decoder A → (A → Type κ) → Type (ℓ ⊔ κ)
Gives {A = A} d P = (bs rest : List ℕ) (a : A) → d bs ≡ ok (a, rest) → P a

pub read_value {ℓ} :
    {A : Type ℓ} {a b : A} {r s : List ℕ}
    → ◌≡◌ {A = Result (A × List ℕ)} (ok (a, r)) (ok (b, s))
    → a ≡ b
read_value h = cc

pub Gives-int16 : Gives get_int16 (InRange half16)
unfolding get_int16
Gives-int16 [] rest z h = cc
Gives-int16 (a ∷ []) rest z h = cc
Gives-int16 (a ∷ b ∷ bs) rest z h =
    subst (InRange half16) (read_value h) (signed-InRange half16 _ (omega arith))

pub Gives-int32 : Gives get_int32 (InRange half32)
unfolding get_int32
Gives-int32 [] rest z h = cc
Gives-int32 (a ∷ []) rest z h = cc
Gives-int32 (a ∷ b ∷ []) rest z h = cc
Gives-int32 (a ∷ b ∷ c ∷ []) rest z h = cc
Gives-int32 (a ∷ b ∷ c ∷ d ∷ bs) rest z h =
    subst (InRange half32) (read_value h) (signed-InRange half32 _ (omega arith))

pub Gives-varint : Gives get_varint (InRange half64)
unfolding get_varint
Gives-varint bs rest z h = go (uvarint bs) refl h
  where
    go : (u : Uvarint) → uvarint bs ≡ u → of_uvarint u bs ≡ ok (z, rest) → InRange half64 z
    go (value x mid) e k =
        subst (InRange half64) (read_value k)
          (signed-InRange half64 x (uvarint-InRange bs x mid e).0)
    go short e k = cc
    go overflow e k = cc

-- A length that has been tested: below the bound, and of bytes that are there.
abbrev Tested : ℕ → ℤ × List ℕ → Type 0
Tested bound (pos n, mid) = (n < bound) × (n ≤ length mid)
Tested bound (negsuc n, mid) = Unit {0}

string-Tested :
    (z n : ℤ) (bs mid : List ℕ)
    → InRange half16 z
    → check_string_length z bs ≡ ok (n, mid)
    → Tested half16 (n, mid)
string-Tested (pos k) (pos n) bs mid r h = ground arith
string-Tested (negsuc k) (pos n) bs mid r h = ground arith
string-Tested (pos k) (negsuc n) bs mid r h = tt
string-Tested (negsuc k) (negsuc n) bs mid r h = tt

length-Tested :
    (bs mid : List ℕ) (n : ℤ) → get_string_length bs ≡ ok (n, mid) → Tested half16 (n, mid)
unfolding get_string_length
length-Tested bs mid n h =
    let (z, m, e, k) = >>=-eq-ok get_int16 check_string_length bs h in
    string-Tested z n m mid (Gives-int16 bs m z e) k

taken :
    (bound n : ℕ) (mid rest s : List ℕ)
    → n < bound
    → n ≤ length mid
    → slice n mid ≡ ok (s, rest)
    → length s < bound
taken bound n mid rest s h l e = omega (arith, length-take n mid l, ap length (read_value e))

pub Gives-string : Gives get_string (λ s. length s < half16)
unfolding get_string
Gives-string bs rest s h =
    let (n, mid, e, k) = >>=-eq-ok get_string_length slice_or_empty bs h in
    go n mid (length-Tested bs mid n e) k
  where
    go :
        (n : ℤ) (mid : List ℕ)
        → Tested half16 (n, mid)
        → slice_or_empty n mid ≡ ok (s, rest)
        → length s < half16
    go (pos n) mid t k = taken half16 n mid rest s t.0 t.1 k
    go (negsuc n) mid t k = omega (arith, ap length (read_value k))

some_value : {a b : List ℕ} → some a ≡ some b → a ≡ b
some_value h = cc

nullable_taken :
    (bound : ℕ) (n : ℤ) (mid rest : List ℕ) (o : Option (List ℕ))
    → Tested bound (n, mid)
    → nullable_slice n mid ≡ ok (o, rest)
    → Shorter bound o
nullable_taken bound (pos n) mid rest none t h = tt
nullable_taken bound (negsuc n) mid rest none t h = tt
nullable_taken bound (pos n) mid rest (some s) t h =
    let e : take n mid ≡ s = some_value (read_value h) in
    omega (arith, length-take n mid t.1, ap length e)
nullable_taken bound (negsuc n) mid rest (some s) t h = cc

pub Gives-nullable_string : Gives get_nullable_string (Shorter half16)
unfolding get_nullable_string
Gives-nullable_string bs rest o h =
    let (n, mid, e, k) = >>=-eq-ok get_string_length nullable_slice bs h in
    nullable_taken half16 n mid rest o (length-Tested bs mid n e) k

pred64-InRange : (z : ℤ) → InRange half64 z → InRange half64 (pred64 z)
pred64-InRange (pos zero) h = omega arith
pred64-InRange (pos (suc n)) h = omega arith
pred64-InRange (negsuc n) h = ground arith

compact_tested :
    (z : ℤ) (n : ℕ) (bs mid : List ℕ)
    → InRange half64 z
    → check_compact_length z bs ≡ ok (n, mid)
    → (n < half64) × (n ≤ length mid)
compact_tested (pos k) n bs mid r h = ground arith
compact_tested (negsuc k) n bs mid r h = cc

pub compact_length-Tested :
    (bs mid : List ℕ) (n : ℕ)
    → get_compact_length bs ≡ ok (n, mid)
    → (n < half64) × (n ≤ length mid)
unfolding get_compact_length
compact_length-Tested bs mid n h =
    let (z, m, e, k) = >>=-eq-ok get_varint (λ z. check_compact_length (pred64 z)) bs h in
    compact_tested (pred64 z) n m mid (pred64-InRange z (Gives-varint bs m z e)) k

compact_nullable-Tested :
    (z n : ℤ) (bs mid : List ℕ)
    → InRange half64 z
    → check_compact_nullable_length z bs ≡ ok (n, mid)
    → Tested half64 (n, mid)
compact_nullable-Tested (pos k) (pos n) bs mid r h = ground arith
compact_nullable-Tested (negsuc k) (pos n) bs mid r h = ground arith
compact_nullable-Tested (pos k) (negsuc n) bs mid r h = tt
compact_nullable-Tested (negsuc k) (negsuc n) bs mid r h = tt

pub compact_nullable_length-Tested :
    (bs mid : List ℕ) (n : ℤ)
    → get_compact_nullable_length bs ≡ ok (n, mid)
    → Tested half64 (n, mid)
unfolding get_compact_nullable_length
compact_nullable_length-Tested bs mid n h =
    let (z, m, e, k) = >>=-eq-ok get_varint (λ z. check_compact_nullable_length (pred64 z)) bs h in
    compact_nullable-Tested (pred64 z) n m mid (pred64-InRange z (Gives-varint bs m z e)) k

pub Gives-compact_string : Gives get_compact_string (λ s. length s < half64)
unfolding get_compact_string
Gives-compact_string bs rest s h =
    let (n, mid, e, k) = >>=-eq-ok get_compact_length slice bs h in
    let (small, fits) = compact_length-Tested bs mid n e in taken half64 n mid rest s small fits k

pub Gives-compact_nullable_string : Gives get_compact_nullable_string (Shorter half64)
unfolding get_compact_nullable_string
Gives-compact_nullable_string bs rest o h =
    let (n, mid, e, k) = >>=-eq-ok get_compact_nullable_length nullable_slice bs h in
    nullable_taken half64 n mid rest o (compact_nullable_length-Tested bs mid n e) k

raw_taken : (n : ℕ) (mid rest s : List ℕ) → get_raw_bytes (pos n) mid ≡ ok (s, rest) → length s ≡ n
unfolding get_raw_bytes
raw_taken n mid rest s h = elim (Bool-cases (ltb (length mid) n)) [
  | inl e ↦ absurd (no_more e)
  | inr e ↦ omega (arith, length-take n mid (ground arith), ap length (read_value (rw e at h)))
]
  where
    no_more : ltb (length mid) n ≡ true → ⊥
    no_more e = ground arith

pub Gives-uuid : Gives get_uuid (λ s. length s ≡ 16)
unfolding get_uuid
Gives-uuid bs rest s h = raw_taken 16 bs rest s h

raw_given :
    (z : ℤ) (mid rest : List ℕ) (s : List ℕ)
    → InRange half64 z
    → get_raw_bytes z mid ≡ ok (s, rest)
    → length s < half64
raw_given (pos n) mid rest s r h = omega (arith, raw_taken n mid rest s h)
raw_given (negsuc n) mid rest s r h = unfold get_raw_bytes in cc

some_raw_given :
    (z : ℤ) (mid rest : List ℕ) (o : Option (List ℕ))
    → InRange half64 z
    → some_raw_bytes z mid ≡ ok (o, rest)
    → Shorter half64 o
some_raw_given z mid rest none r h = tt
some_raw_given z mid rest (some s) r h = elim (Bool-cases (beq_ℤ z minus_one)) [
  | inl e ↦ absurd (null e)
  | inr e ↦
      let (s', m, p, q) = >>=-eq-ok (get_raw_bytes z) (λ b. pure (some b)) mid (rw e at h) in
      subst (λ t. length t < half64) (some_value (read_value q)) (raw_given z mid m s' r p)
]
  where
    null : beq_ℤ z minus_one ≡ true → ⊥
    null e = cc (rw e at h)

pub Gives-varint_bytes : Gives get_varint_bytes (Shorter half64)
unfolding get_varint_bytes
Gives-varint_bytes bs rest o h =
    let (z, mid, e, k) = >>=-eq-ok get_varint some_raw_bytes bs h in
    some_raw_given z mid rest o (Gives-varint bs mid z e) k

array_tested :
    (z : ℤ) (n : ℕ) (bs mid : List ℕ) → check_array_length z bs ≡ ok (pos n, mid) → n ≤ 131070
array_tested (pos k) n bs mid h = ground arith
array_tested (negsuc k) n bs mid h = ground arith

pub Gives-array_length :
    (bs mid : List ℕ) (n : ℕ) → get_array_length bs ≡ ok (pos n, mid) → n ≤ 131070
unfolding get_array_length
Gives-array_length bs mid n h =
    let (z, m, e, k) = >>=-eq-ok get_int32 check_array_length bs h in array_tested z n m mid k

pub Gives-each {ℓ κ} :
    {A : Type ℓ} {P : A → Type κ} (d : Decoder A) (n : ℕ)
    → Gives d P
    → Gives (get_each d n) (λ xs. All P xs × (length xs ≡ n))
unfolding get_each
Gives-each {P = P} d zero g bs rest xs h =
    subst (λ ys. All P ys × (length ys ≡ 0)) (read_value h) (tt, refl)
Gives-each {P = P} d (suc n) g bs rest xs h =
    let (x, m, e, k) = >>=-eq-ok d (λ x. get_each d n >>= λ xs. pure (x ∷ xs)) bs h in
    let (ys, m', e', k') = >>=-eq-ok (get_each d n) (λ xs. pure (x ∷ xs)) m k in
    let (ps, size) = Gives-each {P = P} d n g m m' ys e' in
    subst (λ zs. All P zs × (length zs ≡ suc n)) (read_value k') ((g bs m x e, ps), ap suc size)
