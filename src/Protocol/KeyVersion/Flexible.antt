-- ===== src/Protocol/KeyVersion/Flexible.antt =====
-- The response header's version as a function of the request's version.
use kafka_gcp_proxy.Base.{
  ℕ, ◌≡◌, ◌⊎◌, inl, inr, refl, arith, ℤ, pos, negsuc, leb_ℤ, Bool, true, false, if◌then◌else◌,
}
use kafka_gcp_proxy.Protocol.KeyVersion.{
  key_version, since, header_version_0_24, header_version_25_49, header_version_50_87,
  response_header_version,
}

-- Two header versions: each is 0 or 1, and the second one is at least the first one.
pub record Grows (a b : ℤ) : Type 0 where
  pub first : (a ≡ pos 0) ⊎ (a ≡ pos 1)
  pub second : (b ≡ pos 0) ⊎ (b ≡ pos 1)
  pub ordered : leb_ℤ a b ≡ true

Grows-zero : Grows (pos 0) (pos 0)
Grows-zero = record { first = inl refl; second = inl refl; ordered = refl }

Grows-one : Grows (pos 1) (pos 1)
Grows-one = record { first = inr refl; second = inr refl; ordered = refl }

Grows-if :
    (c : Bool) {a b x y : ℤ}
    → Grows a b
    → Grows x y
    → Grows (if c then a else x) (if c then b else y)
Grows-if true p q = p
Grows-if false p q = q

module _ (v w : ℤ) (h : leb_ℤ v w ≡ true) where
  Grows-since : (n : ℕ) → Grows (since n v) (since n w)
  Grows-since n = record { first = ground arith; second = ground arith; ordered = ground arith }

  Grows-50 : (k : ℕ) → Grows (header_version_50_87 k v) (header_version_50_87 k w)
  unfolding header_version_50_87
  Grows-50 k = search (Grows-if, Grows-zero, Grows-one) depth 90 fits 20000

  Grows-25 : (k : ℕ) → Grows (header_version_25_49 k v) (header_version_25_49 k w)
  unfolding header_version_25_49
  Grows-25 k = search (Grows-if, Grows-zero, Grows-one, Grows-since, Grows-50) depth 60

  Grows-0 : (k : ℕ) → Grows (header_version_0_24 k v) (header_version_0_24 k w)
  unfolding header_version_0_24
  Grows-0 k = search (Grows-if, Grows-zero, Grows-since, Grows-25) depth 60

-- For one API key, ResponseHeaderVersion is 0 or 1, never negative, and it does not fall from a request
-- version to a later one, whatever the requests' lengths are.
pub response_header_version_lem :
    (n m k v w : ℤ)
    → leb_ℤ v w ≡ true
    → Grows
        (response_header_version (key_version n k v))
        (response_header_version (key_version m k w))
unfolding response_header_version
response_header_version_lem n m (pos k) v w h = Grows-0 v w h k
response_header_version_lem n m (negsuc k) v w h = Grows-one
