-- ===== src/Protocol/KeyVersion.antt =====
-- proxy/protocol/request_key_version.go.
pub mod Flexible
use kafka_gcp_proxy.Base.{
  ℕ, ℤ, pos, negsuc, leb_ℤ, Bool, true, false, packet_decoding, Error, ◌==◌, if◌then◌else◌,
}
use kafka_gcp_proxy.Protocol.Decoder.{Decoder, pure, fail, ◌>>=◌, get_int16, get_int32}

pub record RequestKeyVersion : Type 0 where
  pub length : ℤ
  pub api_key : ℤ
  pub api_version : ℤ

abbrev pub key_version : ℤ → ℤ → ℤ → RequestKeyVersion
key_version n k v = record { length = n; api_key = k; api_version = v }

abbrev too_small : Error
too_small = packet_decoding "message too small"

-- The test on a message's length, in every header.
abbrev pub check_length : ℤ → Decoder ℤ
check_length n = if leb_ℤ n (pos 4) then fail too_small else pure n

unfoldable pub decode_key_version : Decoder RequestKeyVersion
decode_key_version = do
  n ← get_int32
  n ← check_length n
  k ← get_int16
  v ← get_int16
  pure (key_version n k v)

-- if r.ApiVersion >= n { return 1 } else { return 0 }
abbrev pub since : ℕ → ℤ → ℤ
since n v = if leb_ℤ (pos n) v then pos 1 else pos 0

-- The cases 50 to 87 of ResponseHeaderVersion, and its default.
unfoldable pub header_version_50_87 : ℕ → ℤ → ℤ
header_version_50_87 k v =
    if k == 50
    then pos 1
    else if k == 51
    then pos 1
    else if k == 52
    then pos 1
    else if k == 53
    then pos 0
    else if k == 54
    then pos 0
    else if k == 55
    then pos 1
    else if k == 56
    then pos 1
    else if k == 57
    then pos 1
    else if k == 58
    then pos 1
    else if k == 59
    then pos 1
    else if k == 60
    then pos 1
    else if k == 61
    then pos 1
    else if k == 62
    then pos 1
    else if k == 63
    then pos 1
    else if k == 64
    then pos 1
    else if k == 65
    then pos 1
    else if k == 66
    then pos 1
    else if k == 67
    then pos 1
    else if k == 68
    then pos 1
    else if k == 69
    then pos 1
    else if k == 70
    then pos 1
    else if k == 71
    then pos 1
    else if k == 72
    then pos 1
    else if k == 73
    then pos 1
    else if k == 74
    then pos 1
    else if k == 75
    then pos 1
    else if k == 76
    then pos 1
    else if k == 77
    then pos 1
    else if k == 78
    then pos 1
    else if k == 79
    then pos 1
    else if k == 80
    then pos 1
    else if k == 81
    then pos 1
    else if k == 82
    then pos 1
    else if k == 83
    then pos 1
    else if k == 84
    then pos 1
    else if k == 85
    then pos 1
    else if k == 86
    then pos 1
    else if k == 87
    then pos 1
    else pos 1

-- The cases 25 to 49.
unfoldable pub header_version_25_49 : ℕ → ℤ → ℤ
unfolding header_version_50_87
header_version_25_49 k v =
    if k == 25
    then since 3 v
    else if k == 26
    then since 3 v
    else if k == 27
    then since 1 v
    else if k == 28
    then since 3 v
    else if k == 29
    then since 2 v
    else if k == 30
    then since 2 v
    else if k == 31
    then since 2 v
    else if k == 32
    then since 4 v
    else if k == 33
    then since 2 v
    else if k == 34
    then since 2 v
    else if k == 35
    then since 2 v
    else if k == 36
    then since 2 v
    else if k == 37
    then since 2 v
    else if k == 38
    then since 2 v
    else if k == 39
    then since 2 v
    else if k == 40
    then since 2 v
    else if k == 41
    then since 2 v
    else if k == 42
    then since 2 v
    else if k == 43
    then since 2 v
    else if k == 44
    then since 1 v
    else if k == 45
    then pos 1
    else if k == 46
    then pos 1
    else if k == 47
    then pos 0
    else if k == 48
    then since 1 v
    else if k == 49
    then since 1 v
    else header_version_50_87 k v

-- The cases 0 to 24.
unfoldable pub header_version_0_24 : ℕ → ℤ → ℤ
unfolding header_version_25_49
header_version_0_24 k v =
    if k == 0
    then since 9 v
    else if k == 1
    then since 12 v
    else if k == 2
    then since 6 v
    else if k == 3
    then since 9 v
    else if k == 4
    then since 4 v
    else if k == 5
    then since 2 v
    else if k == 6
    then since 6 v
    else if k == 7
    then since 3 v
    else if k == 8
    then since 8 v
    else if k == 9
    then since 6 v
    else if k == 10
    then since 3 v
    else if k == 11
    then since 6 v
    else if k == 12
    then since 4 v
    else if k == 13
    then since 4 v
    else if k == 14
    then since 4 v
    else if k == 15
    then since 5 v
    else if k == 16
    then since 3 v
    else if k == 17
    then pos 0
    else if k == 18
    then pos 0
    else if k == 19
    then since 5 v
    else if k == 20
    then since 4 v
    else if k == 21
    then since 2 v
    else if k == 22
    then since 2 v
    else if k == 23
    then since 4 v
    else if k == 24
    then since 3 v
    else header_version_25_49 k v

-- ResponseHeaderVersion; a negative key is in no case.
unfoldable pub response_header_version : RequestKeyVersion → ℤ
response_header_version r = elim r.api_key [
  | pos k ↦ header_version_0_24 k r.api_version
  | negsuc k ↦ pos 1
]
