-- ===== src/Protocol/Encoding/Writes.antt =====
-- The contract of the two encoders: what the first pass measures is what the second one writes.
use kafka_gcp_proxy.Base.{
  ℕ, ◌+◌, ◌-◌, ◌≤◌, ◌≡◌, refl, ap, sym, ◌∙◌, List, [], ◌++◌, append-nil, append_assoc, arith, Error,
  Result, ok, err, ok-injective, Bool, true, false, if◌then◌else◌, ◌>>=◌, >>=-eq-ok, ltb, ge→ltb,
  length, take, drop, replicate, length-append, length-replicate, take-length, drop-append,
  drop-replicate, take-all,
}
use kafka_gcp_proxy.Protocol.PacketEncoder.{Put}
use kafka_gcp_proxy.Protocol.Encoding.{max_request_size, two_passes}
use kafka_gcp_proxy.Protocol.RealEncoder.{RealEncoder, write, copy}

abbrev pub zeros : ℕ → List ℕ
zeros n = let z : ℕ = 0 in replicate n z

length-zeros : (n : ℕ) → length (zeros n) ≡ n
length-zeros n = let z : ℕ = 0 in length-replicate n z

drop-zeros : (k n : ℕ) → drop k (zeros n) ≡ zeros (n - k)
drop-zeros k n = let z : ℕ = 0 in drop-replicate k n z

-- `w` is written, and `room` bytes of the buffer are left.
abbrev pub state : List ℕ → ℕ → RealEncoder
state w room = record { raw = w ++ zeros room; off = length w }

-- Where the first pass succeeds, both passes go on by `bytes`.
pub record Writes (bytes : List ℕ) (prep : Put ℕ) (real : Put RealEncoder) : Type 0 where
  pub measured : (n n' : ℕ) → prep n ≡ ok n' → n' ≡ n + length bytes
  pub written :
      (n n' : ℕ)
      → prep n ≡ ok n'
      → (w : List ℕ) (room : ℕ) → length bytes ≤ room
      → real (state w room) ≡ ok (state (w ++ bytes) (room - length bytes))

pub state_eq :
    {w w' : List ℕ} {room room' : ℕ}
    → w ≡ w'
    → room ≡ room'
    → ok (state w room) ≡ ok (state w' room')
state_eq p q = λ i. ok (state (p i) (q i))

length-state : (w : List ℕ) (room : ℕ) → length (w ++ zeros room) ≡ length w + room
length-state w room = omega (arith, length-append w (zeros room), length-zeros room)

state_path :
    (w bytes mid : List ℕ) (room : ℕ)
    → mid ≡ bytes
    → ◌≡◌ {A = RealEncoder}
        (record {
          raw =
              take (length w) (w ++ zeros room)
              ++ (mid ++ drop (length w + length bytes) (w ++ zeros room));
          off = length w + length bytes;
        })
        (state (w ++ bytes) (room - length bytes))
state_path w bytes mid room e = rw (
  e,
  take-length w (zeros room),
  drop-append w (zeros room) (length bytes),
  drop-zeros (length bytes) room,
  append_assoc,
  length-append w bytes,
)

fits :
    (bytes w : List ℕ) (room : ℕ)
    → length bytes ≤ room
    → ltb (length (w ++ zeros room)) (length w + length bytes) ≡ false
fits bytes w room h = ge→ltb _ _ (rw (length-state w room) (omega arith))

pub write-state :
    (bytes w : List ℕ) (room : ℕ)
    → length bytes ≤ room
    → write bytes (state w room) ≡ ok (state (w ++ bytes) (room - length bytes))
unfolding write
write-state bytes w room h = rw (fits bytes w room h) (ap ok (state_path w bytes bytes room refl))

pub copy-state :
    (bytes w : List ℕ) (room : ℕ)
    → length bytes ≤ room
    → copy bytes (state w room) ≡ ok (state (w ++ bytes) (room - length bytes))
unfolding copy
copy-state bytes w room h =
    let inside : ltb (length (w ++ zeros room)) (length w) ≡ false =
      ge→ltb _ _ (rw (length-state w room) (omega arith)) in
    let whole : take (length (w ++ zeros room) - length w) bytes ≡ bytes =
      take-all _ bytes (rw (length-state w room) (omega arith)) in
    rw inside (ap ok (state_path w bytes _ room whole))

module _ {b₁ b₂ : List ℕ} {p₁ p₂ : Put ℕ} {r₁ r₂ : Put RealEncoder} where
  then_measured :
      Writes b₁ p₁ r₁
      → Writes b₂ p₂ r₂
      → (n n' : ℕ) → (p₁ n >>= p₂) ≡ ok n'
      → n' ≡ n + length (b₁ ++ b₂)
  then_measured f g n n' e =
      let (m, e₁, e₂) = >>=-eq-ok (p₁ n) p₂ e in
      omega (arith, f.measured n m e₁, g.measured m n' e₂, length-append b₁ b₂)

  then_written :
      Writes b₁ p₁ r₁
      → Writes b₂ p₂ r₂
      → (n n' : ℕ) → (p₁ n >>= p₂) ≡ ok n'
      → (w : List ℕ) (room : ℕ) → length (b₁ ++ b₂) ≤ room
      → (r₁ (state w room) >>= r₂) ≡ ok (state (w ++ (b₁ ++ b₂)) (room - length (b₁ ++ b₂)))
  then_written f g n n' e w room h =
      let (m, e₁, e₂) = >>=-eq-ok (p₁ n) p₂ e in
      let size = length-append b₁ b₂ in
      let left : room - length b₁ - length b₂ ≡ room - length (b₁ ++ b₂) = omega (arith, size) in
      rw (f.written n m e₁ w room (omega (arith, size))) (
        g.written m n' e₂ (w ++ b₁) (room - length b₁) (omega (arith, size))
        ∙ state_eq (append_assoc w b₁ b₂) left)

  -- Writing one after the other.
  pub Writes-then :
      Writes b₁ p₁ r₁ → Writes b₂ p₂ r₂ → Writes (b₁ ++ b₂) (λ n. p₁ n >>= p₂) (λ s. r₁ s >>= r₂)
  Writes-then f g = record { measured = then_measured f g; written = then_written f g }

pub Writes-ok : Writes [] ok ok
Writes-ok = record {
  measured = λ n n' e. omega (arith, ok-injective e);
  written = λ n n' e w room h. state_eq (sym (append-nil w)) (omega arith);
}

-- A first pass that fails promises nothing of the second.
pub Writes-err :
    (bytes : List ℕ) (e : Error) (real : Put RealEncoder) → Writes bytes (λ n. err e) real
Writes-err bytes e real = record { measured = λ n n' h. cc; written = λ n n' h w room l. cc }

-- A first pass that refuses more than another.
pub Writes-if :
    {bytes : List ℕ} {prep : Put ℕ} {real : Put RealEncoder} (b : Bool) (e : Error)
    → Writes bytes prep real
    → Writes bytes (λ n. if b then err e else prep n) real
Writes-if {bytes} {real} true e f = Writes-err bytes e real
Writes-if false e f = f

pub Writes-write :
    (bytes : List ℕ) (k : ℕ) → length bytes ≡ k → Writes bytes (λ n. ok (n + k)) (write bytes)
Writes-write bytes k size = record {
  measured = λ n n' e. omega (arith, ok-injective e);
  written = λ n n' e w room h. write-state bytes w room h;
}

pub Writes-copy :
    (bytes : List ℕ) (k : ℕ) → length bytes ≡ k → Writes bytes (λ n. ok (n + k)) (copy bytes)
Writes-copy bytes k size = record {
  measured = λ n n' e. omega (arith, ok-injective e);
  written = λ n n' e w room h. copy-state bytes w room h;
}

-- The buffer that two_passes makes is filled exactly, so the second pass neither panics nor fails.
pub two_passes-Writes :
    (e : Error) {bytes : List ℕ} {prep : Put ℕ} {real : Put RealEncoder}
    → Writes bytes prep real
    → two_passes e prep real ≡ (prep 0 >>= λ n. if ltb max_request_size n then err e else ok bytes)
unfolding two_passes
two_passes-Writes e {bytes} {prep} {real} f = go (prep 0) refl
  where
    filled : (n : ℕ) → prep 0 ≡ ok n → real (state [] n) ≡ ok (state bytes 0)
    filled n h =
        let size : n ≡ length bytes = omega (arith, f.measured 0 n h) in
        f.written 0 n h [] n (omega arith) ∙ state_eq {room' = 0} refl (omega arith)

    go :
        (r : Result ℕ)
        → prep 0 ≡ r
        → (r >>= λ n.
            if ltb max_request_size n then err e else (real (state [] n) >>= λ re. ok re.raw))
          ≡ (r >>= λ n. if ltb max_request_size n then err e else ok bytes)
    go (ok n) h = rw (filled n h, append-nil)
    go (err x) h = refl
