-- ===== src/Protocol/Decoder/Monad.antt =====
-- A decoder reads a value off the bytes that remain, or fails.
use kafka_gcp_proxy.Base.{ℕ, ◌≡◌, refl, List, Error, Result, ok, err}

abbrev pub Decoder {ℓ} : Type ℓ → Type ℓ
Decoder A = List ℕ → Result (A × List ℕ)

infixl 5 ◌>>=◌ ◌>>◌
abbrev pub ◌>>=◌ {ℓ κ} : {A : Type ℓ} {B : Type κ} → Decoder A → (A → Decoder B) → Decoder B
◌>>=◌ d f bs = elim (d bs) [ ok (a, rest) ↦ f a rest | err e ↦ err e ]

abbrev pub ◌>>◌ {ℓ κ} : {A : Type ℓ} {B : Type κ} → Decoder A → Decoder B → Decoder B
d >> k = d >>= λ _. k

abbrev pub pure {ℓ} : {A : Type ℓ} → A → Decoder A
pure a bs = ok (a, bs)

abbrev pub fail {ℓ} : {A : Type ℓ} → Error → Decoder A
fail e bs = err e

-- Inversion of a successful bind.
pub >>=-eq-ok {ℓ κ} :
    {A : Type ℓ} {B : Type κ} (d : Decoder A) (f : A → Decoder B) (bs : List ℕ) {b : B}
    {rest : List ℕ}
    → (d >>= f) bs ≡ ok (b, rest)
    → (a : A) × (mid : List ℕ) × (d bs ≡ ok (a, mid)) × (f a mid ≡ ok (b, rest))
>>=-eq-ok {A} {B} d f bs {b} {rest} h = go (d bs) refl h
  where
    go :
        (r : Result (A × List ℕ))
        → d bs ≡ r
        → (elim r as (λ _. Result (B × List ℕ)) [ ok (a, mid) ↦ f a mid | err e ↦ err e ])
          ≡ ok (b, rest)
        → (a : A) × (mid : List ℕ) × (d bs ≡ ok (a, mid)) × (f a mid ≡ ok (b, rest))
    go (ok (a, mid)) e k = (a, mid, e, k)
    go (err x) e k = cc

-- What a bind does once its first part has read `a`.
pub >>=-ok {ℓ κ} :
    {A : Type ℓ} {B : Type κ} (d : Decoder A) (f : A → Decoder B) {bs mid : List ℕ} {a : A}
    → d bs ≡ ok (a, mid)
    → (d >>= f) bs ≡ f a mid
>>=-ok d f e = rw (e, ◌>>=◌)
