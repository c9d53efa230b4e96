-- ===== src/Proxy/Handlers/Forwarded.antt =====
-- What the requests loop forwards (proxy/processor_default.go, proxy/processor_sasl_auth_v0.go).
use kafka_gcp_proxy.Base.{
  ℕ, zero, suc, ◌+◌, ◌≤◌, ◌≡◌, ◌⊎◌, inl, inr, refl, ap, subst, ◌∙◌, ℤ, pos, negsuc, half32, beq_ℤ,
  leb_ℤ, Bool, true, false, ◌&&◌, ◌||◌, not, some, List, [], ◌++◌, length, length-append,
  deadline_exceeded, Result, ok, arith, if◌then◌else◌, ◌==◌,
}
use kafka_gcp_proxy.Protocol.Encoding.{decode}
use kafka_gcp_proxy.Protocol.KeyVersion.{RequestKeyVersion, decode_key_version}
use kafka_gcp_proxy.Proxy.Channel.{Channels, send_request_key_version}
use kafka_gcp_proxy.Proxy.Pairing.{is_sasl_handshake_v0}
use kafka_gcp_proxy.Proxy.Wires.{
  Wires, Exit, done, failed, looping, Io, ◌>>=◌, pure, fail, lift, skip, reject_if, read_full,
  write, set_read_deadline, set_write_deadline, tee, copy_n_discard,
}
use kafka_gcp_proxy.Proxy.Wires.Moved.{Moved, Still}
use kafka_gcp_proxy.Proxy.Wires.Transfers.{>>=-done, write-done, lift-done, done-value, done-wires}
use kafka_gcp_proxy.Proxy.Wires.Flows.{
  Reads, Stays, reads-Closed, Stays-Flows, bind-Flows, if-Flows, if-Stays, pure-Stays, bind-Stays,
  fail-Flows, lift-Stays, read_full-Reads, copy_n_discard-Reads, on_channels-Stays,
  set_read_deadline-Stays, set_write_deadline-Stays, tee-Reads, reject_if-Stays, both, then-Still,
}
use kafka_gcp_proxy.Proxy.CopyN.{my_copy_n}
use kafka_gcp_proxy.Proxy.CopyN.Copied.{my_copy_n-Moved}
use kafka_gcp_proxy.Proxy.Handlers.Acks.{
  read_int16, discard_string, read_and_discard_nullable_string, read_and_discard_header_v1_part,
  read_and_discard_produce_acks, read_and_discard_produce_txn_acks, read_acks, always, must_reply,
}
use kafka_gcp_proxy.Proxy.Handlers.HeaderLengths.{minus32-whole, IsLength, key_version-IsLength}
use kafka_gcp_proxy.Proxy.Handlers.Request.{
  RequestsLoopContext, change_channels, minus32, forward_request, copy_request, or_timeout,
  some_or_timeout, check_api_key,
}

read_int16-Reads : Reads read_int16
read_int16-Reads =
    bind-Flows reads-Closed (read_full 2) _ (read_full-Reads 2)
      (λ bs. Stays-Flows reads-Closed (pure _) (pure-Stays _))

discard_string-Reads : (n : ℤ) → Reads (discard_string n)
discard_string-Reads (pos n) =
    if-Flows (n == 0) (pure tt) (copy_n_discard n)
      (Stays-Flows reads-Closed (pure tt) (pure-Stays tt)) (copy_n_discard-Reads n)
discard_string-Reads (negsuc n) =
    if-Flows (n == 0) (pure tt) (fail true _) (Stays-Flows reads-Closed (pure tt) (pure-Stays tt))
      (fail-Flows true _)

nullable_string-Reads : Reads read_and_discard_nullable_string
unfolding read_and_discard_nullable_string
nullable_string-Reads = bind-Flows reads-Closed read_int16 _ read_int16-Reads discard_string-Reads

header_v1-Reads : Reads read_and_discard_header_v1_part
unfolding read_and_discard_header_v1_part
header_v1-Reads =
    bind-Flows reads-Closed (read_full 4) _ (read_full-Reads 4) (λ id. nullable_string-Reads)

read_acks-Reads : (version : ℤ) → Reads (read_acks version)
unfolding read_acks read_and_discard_produce_acks read_and_discard_produce_txn_acks
read_acks-Reads version =
    if-Flows (leb_ℤ (pos 0) version && leb_ℤ version (pos 2)) _ _
      (bind-Flows reads-Closed read_and_discard_header_v1_part _ header_v1-Reads
        (λ t. read_int16-Reads))
      (bind-Flows reads-Closed read_and_discard_header_v1_part _ header_v1-Reads (λ t.
        bind-Flows reads-Closed read_and_discard_nullable_string _ nullable_string-Reads
          (λ t. read_int16-Reads)))

-- What mustReply returns beside its answer is what it has read.
must_reply-read :
    (disabled : Bool) (r : RequestKeyVersion) (w v : Wires) {reply : Bool} {bs : List ℕ}
    → must_reply disabled r w ≡ done (reply, bs) v
    → Moved w v bs []
unfolding must_reply
must_reply-read disabled r w v {reply} {bs} h = go (not (beq_ℤ r.api_key (pos 0))) disabled h
  where
    nothing_read : always w ≡ done (reply, bs) v → Moved w v bs []
    nothing_read k =
        subst (λ x. Moved w v x []) (ap (λ (p : Bool × List ℕ). p.1) (done-value k))
          (pure-Stays (true, []) w (reply, bs) v k)

    acked : Io (Bool × List ℕ)
    acked = tee (read_acks r.api_version) >>= λ (acks, read_bytes).
        pure (not (beq_ℤ acks (pos 0)), read_bytes)

    go :
        (other off : Bool)
        → (if other then always else if off then always else acked) w ≡ done (reply, bs) v
        → Moved w v bs []
    go true off k = nothing_read k
    go false true k = nothing_read k
    go false false k =
        let ((acks, teed), u, e, i) = >>=-done (tee (read_acks r.api_version)) _ w k in
        let moved : Moved w u teed [] =
          tee-Reads (read_acks r.api_version) w u (read_acks-Reads r.api_version) e in
        let same : teed ≡ bs = ap (λ (p : Bool × List ℕ). p.1) (done-value i) in
        subst (λ x. Moved w v x []) same (subst (λ x. Moved w x teed []) (done-wires i) moved)

pub change_channels-Stays :
    (r : Bool) (f : Channels → Result Channels) → Stays (change_channels r f)
change_channels-Stays r f = on_channels-Stays r _

forward_request-Moved :
    (ctx : RequestsLoopContext) (now : ℕ) (header : List ℕ) (r : RequestKeyVersion) (reply : Bool)
    (read_bytes : List ℕ) (w v : Wires)
    → 1 ≤ ctx.buf
    → forward_request ctx now header r reply read_bytes w ≡ done tt v
    → (body : List ℕ) × Moved w v body (header ++ (read_bytes ++ body))
      × (minus32 r.length (4 + length read_bytes) ≡ pos (length body))
unfolding forward_request
forward_request-Moved ctx now header r reply read_bytes w v room h =
    let opened =
      if reply then change_channels true (send_request_key_version ctx.bound r) else skip in
    let (t1, w1, e1, h1) = >>=-done opened _ w h in
    let (t2, w2, e2, h2) = >>=-done (set_write_deadline false (now + ctx.timeout)) _ w1 h1 in
    let (t3, w3, e3, h3) = >>=-done (set_read_deadline true (now + ctx.timeout)) _ w2 h2 in
    let (t4, w4, e4, h4) = >>=-done (write header) _ w3 h3 in
    let (t5, w5, e5, h5) = >>=-done (write read_bytes) _ w4 h4 in
    let (t6, w6, e6, h6) =
      >>=-done (my_copy_n ctx.buf (minus32 r.length (4 + length read_bytes))) _ w5 h5 in
    let (body, copied, size) = copy_moved ctx.buf w5 w6 room e6 in
    let last : Still w6 v =
      if-Stays (is_sasl_handshake_v0 r || reply) _ _ (change_channels-Stays false _)
        (change_channels-Stays false _) w6 tt v h6 in
    let before : Still w w3 =
      both (if-Stays reply _ skip (change_channels-Stays true _) (pure-Stays tt) w t1 w1 e1) (
        both (set_write_deadline-Stays false _ w1 t2 w2 e2)
          (set_read_deadline-Stays true _ w2 t3 w3 e3)) in
    (
      body,
      then-Still
          (both before (both (write-done header w3 e4) (both (write-done read_bytes w4 e5) copied)))
          last,
      size,
    )
  where
    copy_moved :
        (buf : ℕ) (x y : Wires)
        → 1 ≤ buf
        → my_copy_n buf (minus32 r.length (4 + length read_bytes)) x ≡ done tt y
        → (bs : List ℕ) × Moved x y bs bs
          × (minus32 r.length (4 + length read_bytes) ≡ pos (length bs))
    copy_moved zero x y le e = let absurd : ⊥ = omega arith in elim absurd [ ]
    copy_moved (suc buf) x y le e = my_copy_n-Moved buf _ x y e

check_api_key-Stays : (forbidden : List ℤ) (k : ℤ) → Stays (check_api_key forbidden k)
unfolding check_api_key
check_api_key-Stays forbidden k =
    bind-Stays (reject_if _ _) _ (reject_if-Stays _ _) (λ t. reject_if-Stays _ _)

-- The length in a header is that of what follows, unless there are more than 2 GiB of it.
abbrev pub IsWhole : ℤ → List ℕ → Type 0
IsWhole size body = (size ≡ pos (4 + length body)) ⊎ (half32 ≤ 4 + length body)

pub minus32-IsWhole :
    (size : ℤ) (first body : List ℕ)
    → IsLength size
    → minus32 size (4 + length first) ≡ pos (length body)
    → IsWhole size (first ++ body)
minus32-IsWhole size first body accepted h =
    elim (minus32-whole size (4 + length first) (length body) accepted h) [
      | inl e ↦ inl (let together = length-append first body in e ∙ ap pos (omega arith))
      | inr e ↦ inr (let together = length-append first body in omega arith)
    ]

pub copy_request-Moved :
    (ctx : RequestsLoopContext) (now : ℕ) (header : List ℕ) (w v : Wires)
    → 1 ≤ ctx.buf
    → copy_request ctx now header w ≡ done tt v
    → (body : List ℕ) × (r : RequestKeyVersion) × (decode header decode_key_version ≡ ok r)
      × Moved w v body (header ++ body)
      × IsWhole r.length body
unfolding copy_request
copy_request-Moved ctx now header w v room h =
    let (r, w1, e1, h1) = >>=-done (lift true (decode header decode_key_version)) _ w h in
    let (t2, w2, e2, h2) = >>=-done (check_api_key ctx.forbidden_api_keys r.api_key) _ w1 h1 in
    let ((reply, read_bytes), w3, e3, h3) =
      >>=-done (must_reply ctx.producer_acks0_disabled r) _ w2 h2 in
    let (body, moved, size) =
      forward_request-Moved ctx now header r reply read_bytes w3 v room h3 in
    let decoded : decode header decode_key_version ≡ ok r =
      (lift-done true (decode header decode_key_version) w e1).0 in
    let checked : Still w w2 =
      both (lift-Stays true _ w r w1 e1)
        (check_api_key-Stays ctx.forbidden_api_keys r.api_key w1 t2 w2 e2) in
    let read_ahead : Moved w2 w3 read_bytes [] =
      must_reply-read ctx.producer_acks0_disabled r w2 w3 e3 in
    (
      read_bytes ++ body,
      r,
      decoded,
      both checked (both read_ahead moved),
      minus32-IsWhole r.length read_bytes body (key_version-IsLength header r decoded) size,
    )

-- What the other branch reads is gone.
pub or_timeout-some :
    (m : Io (List ℕ)) (w v : Wires) {bs : List ℕ}
    → or_timeout m w ≡ done (some bs) v
    → m w ≡ done bs v
unfolding or_timeout
or_timeout-some m w v {bs} h = go (m w) refl h
  where
    go : (x : Exit (List ℕ)) → m w ≡ x → some_or_timeout x ≡ done (some bs) v → m w ≡ done bs v
    go (done a u) e k = e ∙ cc
    go (failed r deadline_exceeded u) e k = cc
    go (failed r _ u) e k = cc
    go looping e k = cc
