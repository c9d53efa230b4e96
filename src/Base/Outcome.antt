-- ===== src/Base/Outcome.antt =====
-- Go's (value, error) pairs. `panicked` is a run-time panic, which no caller handles as an error.
use mathlib.Core.Path.{◌≡◌, refl}
use mathlib.Core.Logic.{◌⊎◌, inl, inr}
use Prim.Native.String.{String}

pub data Error : Type 0 where
  insufficient_data : Error
  -- io.EOF, io.ErrUnexpectedEOF, os.ErrDeadlineExceeded
  eof unexpected_eof deadline_exceeded : Error
  packet_decoding : String → Error
  packet_encoding : String → Error
  schema_decoding : String → Error
  schema_encoding : String → Error
  -- errors.New and fmt.Errorf, by the constant part of their text
  failure : String → Error
  panicked : Error

-- A pair whose error is nil, or one whose value is not looked at.
pub data Result {κ} (T : Type κ) : Type κ where
  ok : T → Result T
  err : Error → Result T

pub Result-cases {κ} :
    {T : Type κ} (r : Result T) → ((x : T) × (r ≡ ok x)) ⊎ ((e : Error) × (r ≡ err e))
Result-cases (ok x) = inl (x, refl)
Result-cases (err e) = inr (e, refl)

pub ok-injective {κ} : {T : Type κ} {x y : T} → ok x ≡ ok y → x ≡ y
ok-injective same = cc

-- `if err != nil { return …, err }` between two calls
infixl 5 ◌>>=◌
abbrev pub ◌>>=◌ {κ μ} : {T : Type κ} {U : Type μ} → Result T → (T → Result U) → Result U
err failed >>= next = err failed
ok x >>= next = next x

-- A chain that has succeeded has done so at its first call, and then at the rest.
pub >>=-eq-ok {κ μ} :
    {T : Type κ} {U : Type μ} (first : Result T) (next : T → Result U) {u : U}
    → (first >>= next) ≡ ok u
    → (x : T) × (first ≡ ok x) × (next x ≡ ok u)
>>=-eq-ok (err failed) next whole = cc
>>=-eq-ok (ok x) next whole = (x, refl, whole)
