-- ===== src/Proxy/Wires.antt =====
-- One direction of a proxied connection, as the loops of proxy/processor.go see it: what arrives on the
-- side they read (`src`), what they have written to the other (`dst`), and the state that they share.
-- A wait shows by what ends it: bytes, an elapsed read deadline (`late`), or the end of the stream.
-- The package functions of io and encoding/binary are those that their documentation describes.
pub mod Moved
pub mod Transfers
pub mod Flows
pub mod Kept
use kafka_gcp_proxy.Base.{
  ℕ, zero, suc, ◌+◌, ◌-◌, ◌*◌, Bool, true, false, Option, none, some, List, [], ◌∷◌, ◌++◌, Error,
  eof, unexpected_eof, deadline_exceeded, failure, Result, ok, err, ltb, leb, ◌==◌, if◌then◌else◌,
  length, take, drop,
}
use kafka_gcp_proxy.Proxy.Channel.{Channels}
use kafka_gcp_proxy.Proxy.AuthState.{ConnectionAuthState}

-- A byte, the last of what one call of Read returns or not, or a read deadline that elapses.
pub data Arrival : Type 0 where
  byte : ℕ → Bool → Arrival
  late : Arrival

pub record Wires : Type 0 where
  pub arrivals : List Arrival
  -- the error behind the last arrival
  pub ending : Error
  -- what has been read
  pub taken : List ℕ
  pub read_deadline : ℕ
  pub written : List ℕ
  -- how many bytes the other side takes, and the error behind them
  pub room : ℕ
  pub broken : Error
  pub write_deadline : ℕ
  pub closed : Bool
  pub channels : Channels
  pub auth_state : ConnectionAuthState

-- The end of a call: a value, (readErr, err), or a loop whose steps change nothing.
pub data Exit {ℓ} (A : Type ℓ) : Type ℓ where
  done : A → Wires → Exit A
  failed : Bool → Error → Wires → Exit A
  looping : Exit A

abbrev pub Io {ℓ} : Type ℓ → Type ℓ
Io A = Wires → Exit A

infixl 5 ◌>>=◌ ◌>>◌
abbrev pub ◌>>=◌ {ℓ κ} : {A : Type ℓ} {B : Type κ} → Io A → (A → Io B) → Io B
◌>>=◌ m f w = elim (m w) [ done a v ↦ f a v | failed r e v ↦ failed r e v | looping ↦ looping ]

abbrev pub ◌>>◌ {ℓ κ} : {A : Type ℓ} {B : Type κ} → Io A → Io B → Io B
m >> k = m >>= λ _. k

abbrev pub pure {ℓ} : {A : Type ℓ} → A → Io A
pure a w = done a w

abbrev pub skip : Io (Unit {0})
skip = pure tt

-- return readErr, err
abbrev pub fail {ℓ} : {A : Type ℓ} → Bool → Error → Io A
fail read_err e w = failed read_err e w

abbrev pub lift {ℓ} : {A : Type ℓ} → Bool → Result A → Io A
lift read_err (ok a) = pure a
lift read_err (err e) = fail read_err e

-- if test { return true, e }
unfoldable pub reject_if : Bool → Error → Io (Unit {0})
reject_if test e = if test then fail true e else skip

abbrev use_of_closed : Error
use_of_closed = failure "use of closed network connection"

unfoldable pub set_read_deadline : Bool → ℕ → Io (Unit {0})
set_read_deadline read_err t w =
    if w.closed then failed read_err use_of_closed w else done tt (record w { read_deadline = t })

unfoldable pub set_write_deadline : Bool → ℕ → Io (Unit {0})
set_write_deadline read_err t w =
    if w.closed then failed read_err use_of_closed w else done tt (record w { write_deadline = t })

-- What one call of Read for `k` bytes finds, and what comes behind.
unfoldable pub one_read : ℕ → List Arrival → List ℕ × List Arrival
one_read (suc k) (byte b last ∷ xs) =
    let (bs, rest) = one_read k xs in if last then (b ∷ [], xs) else (b ∷ bs, rest)
one_read _ xs = ([], xs)

-- What the calls of Read find that go on to `k` bytes.
unfoldable pub many_reads : ℕ → List Arrival → List ℕ × List Arrival
many_reads (suc k) (byte b last ∷ xs) = let (bs, rest) = many_reads k xs in (b ∷ bs, rest)
many_reads _ xs = ([], xs)

-- The error of a read that finds no more bytes. An elapsed deadline is gone with it.
abbrev pub read_error {ℓ} : {A : Type ℓ} → Error → Io A
read_error at_end w = elim w.arrivals [
  | [] ↦ failed true at_end w
  | a ∷ xs ↦ failed true deadline_exceeded (record w { arrivals = xs })
]

abbrev pub advance : List ℕ × List Arrival → Wires → Wires
advance (bs, rest) w = record w { arrivals = rest; taken = w.taken ++ bs }

-- src.Read(buf[:k]), where a buffer without room is full at once
unfoldable pub read : ℕ → Io (List ℕ)
unfolding one_read
read zero w = done [] w
read (suc k) w =
    let found = one_read (suc k) w.arrivals in
    if length (found.0) == 0 then read_error w.ending w else done (found.0) (advance found w)

-- io.EOF in the middle is io.ErrUnexpectedEOF.
abbrev pub full_error : ℕ → Error → Error
full_error zero e = e
full_error (suc k) eof = unexpected_eof
full_error (suc k) e = e

-- io.ReadFull(src, buf) for a buffer of n bytes
unfoldable pub read_full : ℕ → Io (List ℕ)
unfolding many_reads
read_full n w =
    let found = many_reads n w.arrivals in
    let read_bytes = length (found.0) in
    if read_bytes == n
    then done (found.0) (advance found w)
    else read_error (full_error read_bytes w.ending) (advance found w)

-- io.CopyN(io.Discard, src, n)
unfoldable pub copy_n_discard : ℕ → Io (Unit {0})
unfolding many_reads
copy_n_discard n w =
    let found = many_reads n w.arrivals in
    if length (found.0) == n
    then done tt (advance found w)
    else read_error w.ending (advance found w)

-- dst.Write(bs)
unfoldable pub write : List ℕ → Io (Unit {0})
write bs w =
    if leb (length bs) w.room
    then done tt (record w { written = w.written ++ bs; room = w.room - length bs })
    else failed false w.broken (record w { written = w.written ++ take w.room bs; room = 0 })

-- What is read through an io.TeeReader.
unfoldable pub tee {ℓ} : {A : Type ℓ} → Io A → Io (A × List ℕ)
tee m w = elim (m w) [
  | done a v ↦ done (a, drop (length w.taken) v.taken) v
  | failed r e v ↦ failed r e v
  | looping ↦ looping
]

-- A call on the channels.
unfoldable pub on_channels {ℓ} : {A : Type ℓ} → Bool → (Channels → Result (A × Channels)) → Io A
on_channels read_err f w = elim (f w.channels) [
  | ok (a, c) ↦ done a (record w { channels = c })
  | err e ↦ failed read_err e w
]
