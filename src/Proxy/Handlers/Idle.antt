-- ===== src/Proxy/Handlers/Idle.antt =====
-- handleRequest of proxy/processor_default.go as a whole, with the branch of an elapsed read deadline.
use kafka_gcp_proxy.Base.{
  ℕ, zero, suc, ◌≤◌, ◌<◌, ◌≡◌, ◌⊎◌, inl, inr, refl, ◌∙◌, true, false, Option, none, some, List, [],
  ◌∷◌, ◌++◌, length, ok, arith, ◌==◌, if◌then◌else◌,
}
use kafka_gcp_proxy.Protocol.Encoding.{decode}
use kafka_gcp_proxy.Protocol.KeyVersion.{RequestKeyVersion, decode_key_version}
use kafka_gcp_proxy.Proxy.AuthState.{needs_reauth, next_read_deadline}
use kafka_gcp_proxy.Proxy.Channel.{default_request_handler, put_next_request_handler}
use kafka_gcp_proxy.Proxy.Wires.{
  Arrival, byte, late, Wires, done, Io, skip, read_full, many_reads, set_read_deadline,
  set_write_deadline, on_channels,
}
use kafka_gcp_proxy.Proxy.Wires.Moved.{Moved, Still}
use kafka_gcp_proxy.Proxy.Wires.Transfers.{>>=-done, >>=-ok, read_full-done}
use kafka_gcp_proxy.Proxy.Wires.Flows.{set_read_deadline-Stays, set_write_deadline-Stays, both}
use kafka_gcp_proxy.Proxy.CopyN.Delivered.{Delivers}
use kafka_gcp_proxy.Proxy.Handlers.Request.{
  RequestsLoopContext, copy_request, handle_request, or_timeout, idle, run_reauth,
}
use kafka_gcp_proxy.Proxy.Handlers.Forwarded.{IsWhole, copy_request-Moved, or_timeout-some}

-- From w to v, the whole request of a header was read and the same was written.
abbrev pub Forwarded : Wires → Wires → Type 0
Forwarded w v =
    (header : List ℕ) × (body : List ℕ) × (r : RequestKeyVersion) × (length header ≡ 8)
    × (decode header decode_key_version ≡ ok r)
    × IsWhole r.length body
    × Moved w v (header ++ body) (header ++ body)

-- From w to v, the read of a header ran into its deadline, and the branch for it ran.
abbrev pub TimedOut : RequestsLoopContext → ℕ → ℕ → Wires → Wires → Type 0
TimedOut ctx now later w v =
    (u : Wires) × (m : Wires) × Still w u
    × (or_timeout (read_full 8) u ≡ done none m)
    × (idle ctx now later m ≡ done tt v)

-- When the default request handler returns without an error, it has read one whole request, as long as
-- the length in its header says (or more than 2 GiB), and written exactly the bytes that it has read,
-- those that mustReply read ahead included; or its read of the header has run into the read deadline.
pub handle_request-Forwarded :
    (ctx : RequestsLoopContext) (now later : ℕ) (w v : Wires)
    → 1 ≤ ctx.buf
    → handle_request ctx now later w ≡ done tt v
    → Forwarded w v ⊎ TimedOut ctx now later w v
unfolding handle_request
handle_request-Forwarded ctx now later w v room h =
    let (t1, w1, e1, h1) =
      >>=-done (set_read_deadline true (next_read_deadline w.auth_state)) _ w h in
    let (t2, w2, e2, h2) = >>=-done (set_write_deadline true 0) _ w1 h1 in
    let (header, w3, e3, h3) = >>=-done (or_timeout (read_full 8)) _ w2 h2 in
    let before : Still w w2 =
      both (set_read_deadline-Stays true _ w t1 w1 e1)
        (set_write_deadline-Stays true 0 w1 t2 w2 e2) in
    go header w2 w3 before e3 h3
  where
    go :
        (header : Option (List ℕ)) (u m : Wires)
        → Still w u
        → or_timeout (read_full 8) u ≡ done header m
        → (elim header as (λ _. Io (Unit {0})) [
          | none ↦ idle ctx now later
          | some bytes ↦ copy_request ctx now bytes
        ])
            m
          ≡ done tt v
        → Forwarded w v ⊎ TimedOut ctx now later w v
    go none u m s e k = inr (u, m, s, e, k)
    go (some bytes) u m s e k =
        let (got, eight) = read_full-done 8 u (or_timeout-some (read_full 8) u m e) in
        let (body, r, decoded, moved, whole) = copy_request-Moved ctx now bytes m v room k in
        inl (bytes, body, r, eight, decoded, whole, both s (both got moved))

many_reads-cut :
    (k : ℕ) (xs : List Arrival) (bs : List ℕ) (rest : List Arrival)
    → length bs < k
    → Delivers xs bs (late ∷ rest)
    → many_reads k xs ≡ (bs, late ∷ rest)
unfolding many_reads
many_reads-cut zero xs bs rest le d = let absurd : ⊥ = omega arith in elim absurd [ ]
many_reads-cut (suc k) xs [] rest le d = rw d refl
many_reads-cut (suc k) (byte a last ∷ xs) (b ∷ bs) rest le (e, d) =
    rw (many_reads-cut k xs bs rest (omega arith) d, e) refl
many_reads-cut (suc k) [] (b ∷ bs) rest le d = elim d [ ]
many_reads-cut (suc k) (late ∷ xs) (b ∷ bs) rest le d = elim d [ ]

open_set_read_deadline :
    (t : ℕ) (w : Wires)
    → w.closed ≡ false
    → set_read_deadline true t w ≡ done tt (record w { read_deadline = t })
unfolding set_read_deadline
open_set_read_deadline t w opened = rw opened refl

open_set_write_deadline :
    (t : ℕ) (w : Wires)
    → w.closed ≡ false
    → set_write_deadline true t w ≡ done tt (record w { write_deadline = t })
unfolding set_write_deadline
open_set_write_deadline t w opened = rw opened refl

header_times_out :
    (w : Wires) (bs : List ℕ) (rest : List Arrival)
    → length bs < 8
    → Delivers w.arrivals bs (late ∷ rest)
    → or_timeout (read_full 8) w ≡ done none (record w { arrivals = rest; taken = w.taken ++ bs })
unfolding or_timeout read_full
header_times_out w bs rest short d =
    let cut : many_reads 8 w.arrivals ≡ (bs, late ∷ rest) =
      many_reads-cut 8 w.arrivals bs rest short d in
    let missing : (length bs == 8) ≡ false = ground arith in rw (cut, missing) refl

idle-calm :
    (ctx : RequestsLoopContext) (now later : ℕ) (w : Wires)
    → needs_reauth w.auth_state now ≡ false
    → w.channels.next_request_handlers ≡ []
    → idle ctx now later w
      ≡ done tt (record w {
        channels = record (w.channels) { next_request_handlers = default_request_handler ∷ [] };
      })
unfolding idle on_channels put_next_request_handler
idle-calm ctx now later w calm empty =
    let nothing : (if needs_reauth w.auth_state now then run_reauth ctx later else skip) w
        ≡ skip w =
      rw calm refl in
    >>=-ok (if needs_reauth w.auth_state now then run_reauth ctx later else skip) _ nothing
    ∙ rw empty refl

-- Where less than a header arrives before the read deadline and no re-authentication is due, the
-- default request handler returns without an error and lets the next handler start behind these bytes,
-- which it has written nowhere.
pub handle_request-loses :
    (ctx : RequestsLoopContext) (now later : ℕ) (w : Wires) (bs : List ℕ) (rest : List Arrival)
    → length bs < 8
    → Delivers w.arrivals bs (late ∷ rest)
    → w.closed ≡ false
    → needs_reauth w.auth_state now ≡ false
    → w.channels.next_request_handlers ≡ []
    → handle_request ctx now later w
      ≡ done tt (record w {
        arrivals = rest;
        taken = w.taken ++ bs;
        read_deadline = next_read_deadline w.auth_state;
        write_deadline = 0;
        channels = record (w.channels) { next_request_handlers = default_request_handler ∷ [] };
      })
unfolding handle_request
handle_request-loses ctx now later w bs rest short d opened calm empty =
    let u : Wires = record w {
      read_deadline = next_read_deadline w.auth_state;
      write_deadline = 0;
    } in
    >>=-ok (set_read_deadline true (next_read_deadline w.auth_state)) _
      (open_set_read_deadline (next_read_deadline w.auth_state) w opened)
    ∙ >>=-ok (set_write_deadline true 0) _ (
        open_set_write_deadline 0 (record w { read_deadline = next_read_deadline w.auth_state })
          opened)
    ∙ >>=-ok (or_timeout (read_full 8)) _ (header_times_out u bs rest short d)
    ∙ idle-calm ctx now later (record u { arrivals = rest; taken = w.taken ++ bs }) calm empty
