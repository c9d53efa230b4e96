-- ===== src/Proxy/AuthState/Deadlines.antt =====
-- When the deadlines of ConnectionAuthState in proxy/processor.go wake the requests loop.
use kafka_gcp_proxy.Base.{
  ℕ, ◌+◌, ◌*◌, ◌≤◌, ◌<◌, ◌≡◌, ◌⊎◌, inl, inr, refl, ℤ, pos, negsuc, half64, signed-unsigned, Bool,
  true, false, ◌&&◌, ◌||◌, not, ltb, ◌==◌, if◌then◌else◌, arith, Bool-cases, List, ltb_ℤ, [], ◌∷◌,
}
use kafka_gcp_proxy.Proxy.AuthState.{
  ConnectionAuthState, second, add_time, milliseconds, scale_session_lifetime, schedule,
  new_connection_auth_state, complete_reauth, needs_reauth, next_read_deadline, mark_in_flight,
  in_flight_expired,
}

-- What the loops do to the state, each at a time.
pub data Event : Type 0 where
  marked : ℕ → Event
  completed : ℕ → ℤ → Event

abbrev pub after : (ℤ → ℤ) → ConnectionAuthState → List Event → ConnectionAuthState
after product s [] = s
after product s (marked now ∷ es) = after product (mark_in_flight now s) es
after product s (completed now ms ∷ es) = after product (complete_reauth product now ms s) es

-- A re-authentication has a time, and one in flight has a deadline.
abbrev IsBounded : ConnectionAuthState → Type 0
IsBounded s = (1 ≤ s.reauth_at) × (s.in_flight ≡ true → 1 ≤ s.in_flight_deadline)

-- What a positive lifetime is scaled to lies ahead, whatever the product by 0.8 is.
add_time-scale_session_lifetime :
    (product : ℤ → ℤ) (now : ℕ) (d : ℤ) → 1 ≤ add_time now (scale_session_lifetime product d)
unfolding scale_session_lifetime
add_time-scale_session_lifetime product now d = go (product d)
  where
    go : (x : ℤ) → 1 ≤ add_time now (if ltb_ℤ x (pos second) then pos second else x)
    go (negsuc n) = omega arith
    go (pos n) = elim (Bool-cases (ltb n second)) [
      | inl short ↦ rw short (omega arith)
      | inr fits ↦ rw fits (ground arith)
    ]

schedule-IsBounded :
    (product : ℤ → ℤ) (now : ℕ) (ms : ℤ) (s : ConnectionAuthState)
    → IsBounded s
    → IsBounded (schedule product now ms s)
unfolding schedule
schedule-IsBounded product now (negsuc n) s h = h
schedule-IsBounded product now (pos n) s h = go (n == 0)
  where
    go :
        (b : Bool)
        → IsBounded (
            if b then s else record s {
              session_lifetime = milliseconds n;
              reauth_at = add_time now (scale_session_lifetime product (milliseconds n));
            })
    go true = h
    go false = (add_time-scale_session_lifetime product now (milliseconds n), h.1)

new_connection_auth_state-IsBounded :
    (product : ℤ → ℤ) (start ms : ℕ)
    → 1 ≤ ms
    → IsBounded (new_connection_auth_state product start (pos ms))
unfolding new_connection_auth_state schedule
new_connection_auth_state-IsBounded product start ms lasting =
    let positive : (ms == 0) ≡ false = ground arith in
    rw positive
      (add_time-scale_session_lifetime product start (milliseconds ms), λ (e : false ≡ true). cc)

after-IsBounded :
    (product : ℤ → ℤ) (s : ConnectionAuthState) (es : List Event)
    → IsBounded s
    → IsBounded (after product s es)
unfolding mark_in_flight complete_reauth
after-IsBounded product s [] h = h
after-IsBounded product s (marked now ∷ es) h =
    after-IsBounded product (mark_in_flight now s) es (h.0, λ e. omega arith)
after-IsBounded product s (completed now ms ∷ es) h =
    after-IsBounded product (complete_reauth product now ms s) es (
      schedule-IsBounded product now ms (record s { in_flight = false; in_flight_deadline = 0 })
        (h.0, λ e. cc))

-- Where the broker has announced a positive session lifetime at the start: whatever re-authentications
-- the loops have marked and completed since, with whatever lifetimes and at whatever times, the next
-- read deadline is set, and once it has passed the requests loop has something to do: a
-- re-authentication is due, or the one in flight has expired.
pub next_read_deadline-due :
    (product : ℤ → ℤ) (start ms : ℕ) (es : List Event) (now : ℕ)
    → 1 ≤ ms
    → next_read_deadline (after product (new_connection_auth_state product start (pos ms)) es) < now
    → (1 ≤ next_read_deadline (after product (new_connection_auth_state product start (pos ms)) es))
      × ((needs_reauth (after product (new_connection_auth_state product start (pos ms)) es) now
            ≡ true)
          ⊎ (in_flight_expired
                (after product (new_connection_auth_state product start (pos ms)) es)
                now
              ≡ true))
unfolding next_read_deadline needs_reauth in_flight_expired
next_read_deadline-due product start ms es now lasting passed =
    let s : ConnectionAuthState =
      after product (new_connection_auth_state product start (pos ms)) es in
    let (timed, limited) : IsBounded s =
      after-IsBounded product (new_connection_auth_state product start (pos ms)) es
        (new_connection_auth_state-IsBounded product start ms lasting) in
    go s.reauth_at s.in_flight_deadline s.in_flight timed limited passed
  where
    go :
        (at deadline : ℕ) (flying : Bool)
        → 1 ≤ at
        → (flying ≡ true → 1 ≤ deadline)
        → (if flying then deadline else at) < now
        → (1 ≤ (if flying then deadline else at))
          × (((if (at == 0) || flying then false else not (ltb now at)) ≡ true)
              ⊎ ((flying && (not (deadline == 0) && ltb deadline now)) ≡ true))
    go at deadline true h l k = let set : 1 ≤ deadline = l refl in (set, inr (ground arith))
    go at deadline false h l k = (h, inl (ground arith))

-- A re-authentication is never due and in flight at once, at whatever times the two tests are made.
pub needs_reauth-in_flight_expired :
    (s : ConnectionAuthState) (now later : ℕ)
    → needs_reauth s now ≡ true
    → in_flight_expired s later ≡ false
unfolding needs_reauth in_flight_expired
needs_reauth-in_flight_expired s now later due = go s.reauth_at s.in_flight due
  where
    go :
        (at : ℕ) (flying : Bool)
        → (if (at == 0) || flying then false else not (ltb now at)) ≡ true
        → (flying && (not (s.in_flight_deadline == 0) && ltb s.in_flight_deadline later)) ≡ false
    go at true h = ground arith
    go at false h = refl

module _ (product : ℤ → ℤ) (bound : (n : ℕ) → (m : ℕ) × (product (pos n) ≡ pos m) × (m ≤ n)) where
  scaled-within :
      (n : ℕ)
      → second ≤ n
      → (m : ℕ) × (scale_session_lifetime product (pos n) ≡ pos m) × (second ≤ m) × (m ≤ n)
  unfolding scale_session_lifetime
  scaled-within n long =
      let (m, e, le) = bound n in
      rw e (elim (Bool-cases (ltb m second)) [
        | inl short ↦ rw short (second, refl, omega arith, long)
        | inr fits ↦ rw fits (m, refl, ground arith, le)
      ])

  -- Where the product by 0.8 is a duration and no longer than the given one, a session that lasts a
  -- second at least, and whose nanoseconds fit an int64, is renewed from a time on that lies at least
  -- a second behind the answer that announces it and not behind the session's end.
  pub complete_reauth-within :
      (now ms : ℕ) (s : ConnectionAuthState)
      → 1000 ≤ ms
      → ms * 1000000 < half64
      → (now + second ≤ (complete_reauth product now (pos ms) s).reauth_at)
        × ((complete_reauth product now (pos ms) s).reauth_at ≤ now + ms * 1000000)
        × (next_read_deadline (complete_reauth product now (pos ms) s)
            ≡ (complete_reauth product now (pos ms) s).reauth_at)
  unfolding complete_reauth schedule next_read_deadline
  complete_reauth-within now ms s long fits =
      let exact : milliseconds ms ≡ pos (ms * 1000000) =
        signed-unsigned half64 (pos (ms * 1000000)) fits in
      let positive : (ms == 0) ≡ false = ground arith in
      let (m, e, low, high) = scaled-within (ms * 1000000) (omega arith) in
      rw (positive, exact, e) (omega arith, omega arith, refl)

-- An answer without a lifetime leaves the time at which a re-authentication is due where it was: one
-- that was due at `now` is due again at any later time.
pub complete_reauth-stays_due :
    (product : ℤ → ℤ) (s : ConnectionAuthState) (now answered later : ℕ)
    → needs_reauth s now ≡ true
    → now ≤ later
    → needs_reauth (complete_reauth product answered (pos 0) (mark_in_flight now s)) later ≡ true
unfolding needs_reauth complete_reauth mark_in_flight schedule
complete_reauth-stays_due product s now answered later due le = go s.reauth_at s.in_flight due
  where
    go :
        (at : ℕ) (flying : Bool)
        → (if (at == 0) || flying then false else not (ltb now at)) ≡ true
        → (if (at == 0) || false then false else not (ltb later at)) ≡ true
    go at true h = ground arith
    go at false h = ground arith
