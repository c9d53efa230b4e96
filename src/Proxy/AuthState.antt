-- ===== src/Proxy/AuthState.antt =====
-- ConnectionAuthState of proxy/processor.go. A time is a number of nanoseconds, with 0 for the zero
-- time, a duration an int64. The product of scaleSessionLifetime, in float64, is a parameter.
pub mod Deadlines
use kafka_gcp_proxy.Base.{
  ℕ, ◌+◌, ◌-◌, ◌*◌, ℤ, pos, negsuc, half64, signed, unsigned, ltb_ℤ, Bool, true, false, ◌&&◌, ◌||◌,
  not, ltb, ◌==◌, if◌then◌else◌,
}

pub record ConnectionAuthState : Type 0 where
  pub reauth_at : ℕ
  pub in_flight : Bool
  pub in_flight_deadline : ℕ
  pub in_flight_started_at : ℕ
  pub session_lifetime : ℤ

abbrev pub second : ℕ
second = 1000000000

abbrev pub reauth_inflight_cushion : ℕ
reauth_inflight_cushion = 30 * second

-- t.Add(d)
abbrev pub add_time : ℕ → ℤ → ℕ
add_time t (pos n) = t + n
add_time t (negsuc n) = t - (n + 1)

-- time.Duration(ms) * time.Millisecond, for a positive ms, in 64 bits
abbrev pub milliseconds : ℕ → ℤ
milliseconds ms = signed half64 (unsigned half64 (pos (ms * 1000000)))

module _ (product : ℤ → ℤ) where
  unfoldable pub scale_session_lifetime : ℤ → ℤ
  scale_session_lifetime d = if ltb_ℤ (product d) (pos second) then pos second else product d

  -- What a positive lifetime sets, in newConnectionAuthState and in CompleteReauth.
  unfoldable pub schedule : ℕ → ℤ → ConnectionAuthState → ConnectionAuthState
  unfolding scale_session_lifetime
  schedule now (negsuc n) s = s
  schedule now (pos n) s = if n == 0 then s else record s {
    session_lifetime = milliseconds n;
    reauth_at = add_time now (scale_session_lifetime (milliseconds n));
  }

  unfoldable pub new_connection_auth_state : ℕ → ℤ → ConnectionAuthState
  unfolding schedule
  new_connection_auth_state now session_lifetime_ms = schedule now session_lifetime_ms (record {
    reauth_at = 0;
    in_flight = false;
    in_flight_deadline = 0;
    in_flight_started_at = 0;
    session_lifetime = pos 0;
  })

  unfoldable pub complete_reauth : ℕ → ℤ → ConnectionAuthState → ConnectionAuthState
  unfolding schedule
  complete_reauth now session_lifetime_ms s =
      schedule now session_lifetime_ms (record s { in_flight = false; in_flight_deadline = 0 })

unfoldable pub needs_reauth : ConnectionAuthState → ℕ → Bool
needs_reauth s now = if (s.reauth_at == 0) || s.in_flight then false else not (ltb now s.reauth_at)

unfoldable pub next_read_deadline : ConnectionAuthState → ℕ
next_read_deadline s = if s.in_flight then s.in_flight_deadline else s.reauth_at

unfoldable pub mark_in_flight : ℕ → ConnectionAuthState → ConnectionAuthState
mark_in_flight now s = record s {
  in_flight = true;
  in_flight_deadline = now + reauth_inflight_cushion;
  in_flight_started_at = now;
}

unfoldable pub in_flight_expired : ConnectionAuthState → ℕ → Bool
in_flight_expired s now =
    s.in_flight && (not (s.in_flight_deadline == 0) && ltb s.in_flight_deadline now)
