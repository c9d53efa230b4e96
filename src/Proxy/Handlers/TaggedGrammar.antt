-- ===== src/Proxy/Handlers/TaggedGrammar.antt =====
-- The tagged fields of a response's header, which MaybeRead of proxy/protocol/response_header.go goes
-- through, as a format of bytes: a varint with the number of fields, and for each a varint with its tag,
-- a varint with its size and that many bytes.
use kafka_gcp_proxy.Base.{
  ℕ, zero, suc, ◌≡◌, ◌⊎◌, ℤ, pos, half64, leb_ℤ, true, false, List, [], ◌++◌, ltb, length,
}
use kafka_gcp_proxy.Protocol.Varint.{value, uvarint}

-- The bytes are a varint with this value.
abbrev pub IsVarint : ℕ → List ℕ → Type 0
IsVarint n bs = (rest : List ℕ) → uvarint (bs ++ rest) ≡ value n rest

-- The data of a field. A size that is no int64 stands for none.
abbrev pub IsData : ℕ → List ℕ → Type 0
IsData size bs =
    ((ltb size half64 ≡ true) × (length bs ≡ size)) ⊎ ((ltb size half64 ≡ false) × (bs ≡ []))

abbrev pub IsField : List ℕ → Type 0
IsField bs =
    (tag : ℕ) × (size : ℕ) × (ts : List ℕ) × (ss : List ℕ) × (ds : List ℕ) × IsVarint tag ts
    × IsVarint size ss
    × IsData size ds
    × (bs ≡ ts ++ (ss ++ ds))

abbrev pub AreFields : ℕ → List ℕ → Type 0
AreFields zero bs = bs ≡ []
AreFields (suc n) bs = (fs : List ℕ) × (gs : List ℕ) × IsField fs × AreFields n gs × (bs ≡ fs ++ gs)

-- The fields behind their number. A number that is no int64 stands for none.
abbrev pub AreCounted : ℕ → List ℕ → Type 0
AreCounted count bs =
    ((ltb count half64 ≡ true) × AreFields count bs) ⊎ ((ltb count half64 ≡ false) × (bs ≡ []))

-- The tagged fields of a header of this version: a header of version 0 has none.
abbrev pub IsTagged : ℤ → List ℕ → Type 0
IsTagged version bs =
    ((leb_ℤ (pos 1) version ≡ false) × (bs ≡ []))
    ⊎ ((leb_ℤ (pos 1) version ≡ true)
        × ((count : ℕ) × (cs : List ℕ) × (fs : List ℕ) × IsVarint count cs
            × AreCounted count fs
            × (bs ≡ cs ++ fs)))
