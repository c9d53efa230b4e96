-- ===== src/Protocol/Varint.antt =====
-- The unsigned varints of encoding/binary (Uvarint and PutUvarint), which real_decoder.go,
-- real_encoder.go and prep_encoder.go call. Bytes are numbers below 256, a uint64 wraps at 2 ^ 64.
use kafka_gcp_proxy.Base.{
  ℕ, zero, suc, ◌+◌, ◌*◌, ◌/◌, ◌%◌, ◌^◌, ◌<◌, ◌≤◌, ◌≡◌, ap, List, [], ◌∷◌, ◌++◌, arith, ltb, ◌==◌,
  ◌&&◌, ◌∙◌, false, lt→ltb, ge→ltb, if◌then◌else◌, length, Bool-cases, inl, inr,
}
use native.Mathlib.Nat.{div-add-mod, mod-eq_of_lt, pow-suc}

-- The pair (value, n) of Uvarint: n > 0 with the bytes behind the value, n = 0, and n < 0.
pub data Uvarint : Type 0 where
  value : ℕ → List ℕ → Uvarint
  short : Uvarint
  overflow : Uvarint

abbrev pub u64_mod : ℕ
u64_mod = 18446744073709551616

-- `left` is MaxVarintLen64 - i and `unit` is 1 << s. The bits of `x` stand below s, so `|` adds.
unfoldable pub uvarint_loop : ℕ → ℕ → ℕ → List ℕ → Uvarint
uvarint_loop left x unit [] = short
uvarint_loop zero x unit (b ∷ bs) = overflow
uvarint_loop (suc left) x unit (b ∷ bs) =
    let more = uvarint_loop left ((x + b % 128 * unit) % u64_mod) (unit * 128) bs in
    if ltb b 128
    then (if left == 0 && ltb 1 b then overflow else value ((x + b * unit) % u64_mod) bs)
    else more

unfoldable pub uvarint : List ℕ → Uvarint
unfolding uvarint_loop
uvarint bs = uvarint_loop 10 0 1 bs

-- byte(x) | 0x80 is x % 128 + 128.
unfoldable pub put_uvarint_loop : ℕ → ℕ → List ℕ
put_uvarint_loop zero x = (x % 256) ∷ []
put_uvarint_loop (suc rounds) x =
    let more = (x % 128 + 128) ∷ put_uvarint_loop rounds (x / 128) in
    if ltb x 128 then x ∷ [] else more

-- A uint64 is below 128 after nine rounds.
unfoldable pub put_uvarint : ℕ → List ℕ
unfolding put_uvarint_loop
put_uvarint x = put_uvarint_loop 9 x

split_group : (v unit : ℕ) → v * unit ≡ v % 128 * unit + v / 128 * (unit * 128)
split_group v unit = omega (arith, ap (λ (t : ℕ). t * unit) (div-add-mod v 128))

final_byte :
    (left b x unit : ℕ) (rest : List ℕ)
    → b < 128
    → (left == 0 && ltb 1 b) ≡ false
    → x + b * unit < u64_mod
    → uvarint_loop (suc left) x unit (b ∷ rest) ≡ value (x + b * unit) rest
unfolding uvarint_loop
final_byte left b x unit rest hb hl fits =
    let wraps : (x + b * unit) % u64_mod ≡ x + b * unit = mod-eq_of_lt fits in
    rw (lt→ltb b 128 hb, hl, wraps)

inner_byte :
    (left g x unit : ℕ) (rest : List ℕ)
    → g < 128
    → x + g * unit < u64_mod
    → uvarint_loop (suc left) x unit ((g + 128) ∷ rest)
      ≡ uvarint_loop left (x + g * unit) (unit * 128) rest
unfolding uvarint_loop
inner_byte left g x unit rest hg fits =
    let low : (g + 128) % 128 ≡ g = omega arith in
    let wraps : (x + g * unit) % u64_mod ≡ x + g * unit = mod-eq_of_lt fits in
    rw (ge→ltb (g + 128) 128 (omega arith), low, wraps)

uvarint_loop-put :
    (k v x unit : ℕ) (rest : List ℕ)
    → unit * 128 ^ k ≡ 9223372036854775808
    → x + v * unit < u64_mod
    → uvarint_loop (suc k) x unit (put_uvarint_loop k v ++ rest) ≡ value (x + v * unit) rest
unfolding put_uvarint_loop
uvarint_loop-put zero v x unit rest hu fits =
    let at_top : unit ≡ 9223372036854775808 = omega arith in
    let small : v < 2 = omega (arith, ap (λ (t : ℕ). v * t) at_top) in
    let same : v % 256 ≡ v = omega arith in
    rw same (final_byte 0 v x unit rest (omega arith) (ground arith) fits)
uvarint_loop-put (suc k) v x unit rest hu fits = elim (Bool-cases (ltb v 128)) [
  | inl e ↦ rw e (final_byte (suc k) v x unit rest (ground arith) (ground arith) fits)
  | inr e ↦ rw e (
      inner_byte (suc k) (v % 128) x unit (put_uvarint_loop k (v / 128) ++ rest) (omega arith)
        (omega (arith, split_group v unit))
      ∙ uvarint_loop-put k (v / 128) (x + v % 128 * unit) (unit * 128) rest
          (omega (arith, hu, ap (λ (t : ℕ). unit * t) (pow-suc 128 k)))
          (omega (arith, split_group v unit))
      ∙ ap (λ (t : ℕ). value t rest) (omega (arith, split_group v unit)))
]

-- Uvarint reads back the uint64 that PutUvarint wrote and leaves what follows it.
pub uvarint-put_uvarint :
    (v : ℕ) (rest : List ℕ) → v < u64_mod → uvarint (put_uvarint v ++ rest) ≡ value v rest
unfolding uvarint put_uvarint
uvarint-put_uvarint v rest h =
    uvarint_loop-put 9 v 0 1 rest (omega arith) (omega arith)
    ∙ ap (λ (t : ℕ). value t rest) (omega arith)

put_uvarint_loop_size :
    (k v : ℕ) → (1 ≤ length (put_uvarint_loop k v)) × (length (put_uvarint_loop k v) ≤ suc k)
unfolding put_uvarint_loop
put_uvarint_loop_size zero v = omega arith
put_uvarint_loop_size (suc k) v = ground (arith, put_uvarint_loop_size k (v / 128))

-- PutUvarint writes 1 to MaxVarintLen64 bytes.
pub put_uvarint_size : (v : ℕ) → (1 ≤ length (put_uvarint v)) × (length (put_uvarint v) ≤ 10)
unfolding put_uvarint
put_uvarint_size v = put_uvarint_loop_size 9 v

uvarint_loop-InRange :
    (left x unit : ℕ) (bs : List ℕ) (v : ℕ) (rest : List ℕ)
    → uvarint_loop left x unit bs ≡ value v rest
    → (v < u64_mod) × (length rest < length bs)
unfolding uvarint_loop
uvarint_loop-InRange left x unit [] v rest e = ground arith
uvarint_loop-InRange zero x unit (b ∷ bs) v rest e = ground arith
uvarint_loop-InRange (suc left) x unit (b ∷ bs) v rest e =
    ground
      (arith, uvarint_loop-InRange left ((x + b % 128 * unit) % u64_mod) (unit * 128) bs v rest)

pub uvarint-InRange :
    (bs : List ℕ) (v : ℕ) (rest : List ℕ)
    → uvarint bs ≡ value v rest
    → (v < u64_mod) × (length rest < length bs)
unfolding uvarint
uvarint-InRange bs v rest e = uvarint_loop-InRange 10 0 1 bs v rest e
