-- ===== src/Proxy/Processor/Piped.antt =====
-- The requests loop of proxy/processor.go as a pipe.
use kafka_gcp_proxy.Base.{
  ℕ, zero, suc, ◌+◌, ◌≤◌, ◌≡◌, ◌≢◌, ◌⊎◌, inl, inr, refl, subst, ℤ, pos, negsuc, Bool, true, false,
  Option, none, some, List, [], ◌∷◌, ◌++◌, Error, eof, deadline_exceeded, failure, Result, ok, err,
  arith, ◌==◌, ==_refl, length, if◌then◌else◌,
}
use kafka_gcp_proxy.Proxy.AuthState.{in_flight_expired}
use kafka_gcp_proxy.Proxy.Channel.{
  Channels, RequestHandler, default_request_handler, sasl_auth_v0_request_handler,
  get_next_request_handler,
}
use kafka_gcp_proxy.Proxy.Wires.{
  Arrival, Wires, Exit, done, failed, Io, ◌>>◌, fail, skip, reject_if, read_full, many_reads,
  advance, full_error, write, set_read_deadline, set_write_deadline,
}
use kafka_gcp_proxy.Proxy.Wires.Moved.{
  Moved, Still, same-Still, Punctual, bytes_of, many_reads-ends,
}
use kafka_gcp_proxy.Proxy.Wires.Transfers.{>>=-done, done-wires, read_full-done, write-done}
use kafka_gcp_proxy.Proxy.Wires.Flows.{
  Stays, if-Stays, fail-Stays, pure-Stays, reject_if-Stays, set_read_deadline-Stays,
  set_write_deadline-Stays, both, then-Still,
}
use kafka_gcp_proxy.Proxy.CopyN.Copied.{my_copy_n-Moved}
use kafka_gcp_proxy.Proxy.Handlers.Request.{
  RequestsLoopContext, or_timeout, some_or_timeout, handle_request, copy_sasl_auth_request,
  handle_sasl_auth_v0_request,
}
use kafka_gcp_proxy.Proxy.Handlers.Forwarded.{change_channels-Stays}
use kafka_gcp_proxy.Proxy.Handlers.Idle.{handle_request-Forwarded}
use kafka_gcp_proxy.Proxy.Processor.{
  ProcessorConfig, or_default, requests_loop_context, Times, run_request_handler, next_or_none,
  check_in_flight, requests_loop, run_requests_loop,
}

-- Some bytes were read, and just these were written.
abbrev Piped : Wires → Wires → Type 0
Piped w v = (bs : List ℕ) × Moved w v bs bs

Piped-trans : (w v u : Wires) → Piped w v → Piped v u → Piped w u
Piped-trans w v u (is, m) (os, n) = (is ++ os, both m n)

-- A read that misses its deadline is late.
read_full-in_time :
    (n : ℕ) (w m : Wires) → Punctual w → or_timeout (read_full n) w ≡ done none m → ⊥
unfolding or_timeout read_full
read_full-in_time n w m (punctual, no_deadline) h =
    go (length ((many_reads n w.arrivals).0) == n) ((many_reads n w.arrivals).1) enough h
  where
    enough :
        ((length ((many_reads n w.arrivals).0) == n) ≡ true) ⊎ ((many_reads n w.arrivals).1 ≡ [])
    enough = elim (many_reads-ends n w.arrivals punctual) [
      | inl e ↦ inl (==_refl (length ((many_reads n w.arrivals).0)) e)
      | inr e ↦ inr e
    ]

    error : Error
    error = full_error (length ((many_reads n w.arrivals).0)) w.ending

    other : (k : ℕ) (e : Error) → e ≢ deadline_exceeded → full_error k e ≢ deadline_exceeded
    other zero e p q = p q
    other (suc k) eof p q = cc
    other (suc k) e p q = p q

    at_end :
        (e : Error)
        → e ≢ deadline_exceeded
        → (x : Wires) → some_or_timeout {A = List ℕ} (failed true e x) ≡ done none m
        → ⊥
    at_end deadline_exceeded p x k = p refl
    at_end _ p x k = cc

    go :
        (b : Bool) (rest : List Arrival)
        → (b ≡ true) ⊎ (rest ≡ [])
        → some_or_timeout (
            if b
            then done ((many_reads n w.arrivals).0) (advance ((many_reads n w.arrivals).0, rest) w)
            else (elim rest as (λ _. Exit (List ℕ)) [
              | [] ↦ failed true error (advance ((many_reads n w.arrivals).0, rest) w)
              | y ∷ ys ↦
                  failed true deadline_exceeded
                    (record (advance ((many_reads n w.arrivals).0, rest) w) { arrivals = ys })
            ]))
          ≡ done none m
        → ⊥
    go true rest p k = cc
    go false [] p k =
        at_end error (other (length ((many_reads n w.arrivals).0)) w.ending no_deadline) _ k
    go false (y ∷ ys) (inl e) k = cc
    go false (y ∷ ys) (inr e) k = cc

handle_request-Piped :
    (ctx : RequestsLoopContext) (now later : ℕ) (w v : Wires)
    → 1 ≤ ctx.buf
    → Punctual w
    → handle_request ctx now later w ≡ done tt v
    → Piped w v
handle_request-Piped ctx now later w v room punctual h =
    elim (handle_request-Forwarded ctx now later w v room h) [
      | inl (header, body, r, eight, decoded, whole, moved) ↦ (header ++ body, moved)
      | inr (u, m, still, timed_out, ran) ↦
          elim (read_full-in_time 8 u m (still.on_time punctual) timed_out) [ ]
    ]

copy_sasl_auth_request-Piped :
    (timeout buf now : ℕ) (w v : Wires)
    → copy_sasl_auth_request timeout (suc buf) now w ≡ done tt v
    → Piped w v
unfolding copy_sasl_auth_request
copy_sasl_auth_request-Piped timeout buf now w v h =
    let (t1, w1, e1, h1) = >>=-done (set_write_deadline false (now + timeout)) _ w h in
    let (t2, w2, e2, h2) = >>=-done (set_read_deadline true (now + timeout)) _ w1 h1 in
    let (size_bytes, w3, e3, h3) = >>=-done (read_full 4) _ w2 h2 in
    let (t4, w4, e4, h4) = >>=-done (reject_if _ _) _ w3 h3 in
    let (t5, w5, e5, h5) = >>=-done (write size_bytes) _ w4 h4 in
    let (body, copied, size) = my_copy_n-Moved buf _ w5 v h5 in
    let (got, four) = read_full-done 4 w2 e3 in
    let before : Still w w2 =
      both (set_write_deadline-Stays false _ w t1 w1 e1)
        (set_read_deadline-Stays true _ w1 t2 w2 e2) in
    (
      size_bytes ++ body,
      both before (
          both (then-Still got (reject_if-Stays _ _ w3 t4 w4 e4))
            (both (write-done size_bytes w4 e5) copied)),
    )

handle_sasl-Piped :
    (ctx : RequestsLoopContext) (now : ℕ) (w v : Wires)
    → 1 ≤ ctx.buf
    → handle_sasl_auth_v0_request ctx now w ≡ done tt v
    → Piped w v
unfolding handle_sasl_auth_v0_request
handle_sasl-Piped ctx now w v room h =
    let (t, u, e, k) = >>=-done (copy_sasl_auth_request ctx.timeout ctx.buf now) _ w h in
    let (bs, moved) = go ctx.buf room u e in
    (bs, then-Still moved (change_channels-Stays false _ u tt v k))
  where
    go :
        (buf : ℕ)
        → 1 ≤ buf
        → (u : Wires) → copy_sasl_auth_request ctx.timeout buf now w ≡ done tt u
        → Piped w u
    go zero le u e = let absurd : ⊥ = omega arith in elim absurd [ ]
    go (suc buf) le u e = copy_sasl_auth_request-Piped ctx.timeout buf now w u e

check_in_flight-Stays : (now : ℕ) → Stays (check_in_flight now)
unfolding check_in_flight
check_in_flight-Stays now w tt v h =
    if-Stays (in_flight_expired w.auth_state now) (fail false expired) skip
      (fail-Stays false expired) (pure-Stays tt) w tt v h
  where
    expired : Error
    expired = failure "re-auth response did not arrive within cushion window"

next_or_none-Stays : Stays next_or_none
unfolding next_or_none
next_or_none-Stays w a v h = go (get_next_request_handler w.channels) h
  where
    go :
        (x : Result (RequestHandler × Channels))
        → (elim x as (λ _. Exit (Option RequestHandler)) [
          | ok (q, c) ↦ done (some q) (record w { channels = c })
          | err e ↦ done none w
        ])
          ≡ done a v
        → Still w v
    go (ok (q, c)) k =
        subst (λ u. Still w u) (done-wires k)
          (same-Still w (record w { channels = c }) refl refl refl refl)
    go (err e) k = subst (λ u. Still w u) (done-wires k) (same-Still w w refl refl refl refl)

handler-Piped :
    (ctx : RequestsLoopContext) (now later : ℕ) (q : RequestHandler) (x y : Wires)
    → 1 ≤ ctx.buf
    → Punctual x
    → run_request_handler q ctx now later x ≡ done tt y
    → Piped x y
unfolding run_request_handler
handler-Piped ctx now later default_request_handler x y room p e =
    handle_request-Piped ctx now later x y room p e
handler-Piped ctx now later sasl_auth_v0_request_handler x y room p e =
    handle_sasl-Piped ctx now x y room e

requests_loop-pipes :
    (ctx : RequestsLoopContext) (rounds : List Times) (w v : Wires)
    → 1 ≤ ctx.buf
    → Punctual w
    → requests_loop ctx rounds w ≡ done tt v
    → Piped w v
unfolding requests_loop
requests_loop-pipes ctx [] w v room punctual h = ([], pure-Stays tt w tt v h)
requests_loop-pipes ctx ((start, now, later) ∷ rounds) w v room punctual h =
    let (t1, w1, e1, h1) = >>=-done (check_in_flight start) _ w h in
    let (next, w2, e2, h2) = >>=-done next_or_none _ w1 h1 in
    let before : Still w w2 =
      both (check_in_flight-Stays start w t1 w1 e1) (next_or_none-Stays w1 next w2 e2) in
    let (bs, moved) =
      go next w2 (before.on_time punctual) (λ y p i. requests_loop-pipes ctx rounds y v room p i)
        h2 in
    (bs, both before moved)
  where
    go :
        (next : Option RequestHandler) (x : Wires)
        → Punctual x
        → ((y : Wires) → Punctual y → requests_loop ctx rounds y ≡ done tt v → Piped y v)
        → (elim next as (λ _. Io (Unit {0})) [
          | none ↦ skip
          | some q ↦ run_request_handler q ctx now later >> requests_loop ctx rounds
        ])
            x
          ≡ done tt v
        → Piped x v
    go none x p rest k = ([], pure-Stays tt x tt v k)
    go (some q) x p rest k =
        let (t, y, e, i) = >>=-done (run_request_handler q ctx now later) _ x k in
        let (bs, moved) = handler-Piped ctx now later q x y room p e in
        Piped-trans x y v (bs, moved) (rest y (moved.on_time p) i)

or_default-positive : (n : ℕ) (z : ℤ) → 1 ≤ n → 1 ≤ or_default n z
or_default-positive n (pos m) le = ground arith
or_default-positive n (negsuc m) le = le

-- However a processor is configured, in any number of rounds of its requests loop, as long as no read
-- deadline elapses, what the broker gets is exactly what the client has sent, in order, up to where
-- the loop has come: no byte is added, dropped or changed.
pub run_requests_loop-pipe :
    (cfg : ProcessorConfig) (rounds : List Times) (w v : Wires)
    → Punctual w
    → run_requests_loop cfg rounds w ≡ done tt v
    → (bs : List ℕ) × (bytes_of w.arrivals ≡ bs ++ bytes_of v.arrivals)
      × (v.written ≡ w.written ++ bs)
unfolding run_requests_loop requests_loop_context
run_requests_loop-pipe cfg rounds w v punctual h =
    let (t, u, e, k) = >>=-done (set_read_deadline false 0) _ w h in
    let still : Still w u = set_read_deadline-Stays false 0 w t u e in
    let (bs, moved) =
      requests_loop-pipes (requests_loop_context cfg) rounds u v
        (or_default-positive 4096 cfg.request_buffer_size (omega arith)) (still.on_time punctual)
        k in
    let whole : Moved w v bs bs = both still moved in (bs, whole.came, whole.written)
