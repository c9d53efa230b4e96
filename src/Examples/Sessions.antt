-- ===== src/Examples/Sessions.antt =====
-- The theorems on ConnectionAuthState of proxy/processor.go at a session of ten seconds.
use kafka_gcp_proxy.Base.{◌+◌, ◌*◌, ◌≤◌, ◌≡◌, ◌⊎◌, refl, ℤ, pos, true, false, [], ◌∷◌, arith}
use kafka_gcp_proxy.Proxy.AuthState.{
  ConnectionAuthState, second, new_connection_auth_state, complete_reauth, needs_reauth,
  next_read_deadline, mark_in_flight, in_flight_expired,
}
use kafka_gcp_proxy.Proxy.AuthState.Deadlines.{
  marked, after, next_read_deadline-due, complete_reauth-within, complete_reauth-stays_due,
}

-- a product by one
abbrev same : ℤ → ℤ
same d = d

abbrev due_at_five : ConnectionAuthState
due_at_five = record {
  reauth_at = 5;
  in_flight = false;
  in_flight_deadline = 0;
  in_flight_started_at = 0;
  session_lifetime = pos 0;
}

next_read_deadline-due_example :
    (1
      ≤ next_read_deadline
          (after same (new_connection_auth_state same 0 (pos 10000)) (marked 5 ∷ [])))
    × ((needs_reauth
            (after same (new_connection_auth_state same 0 (pos 10000)) (marked 5 ∷ []))
            (40 * second)
          ≡ true)
        ⊎ (in_flight_expired
              (after same (new_connection_auth_state same 0 (pos 10000)) (marked 5 ∷ []))
              (40 * second)
            ≡ true))
unfolding new_connection_auth_state next_read_deadline mark_in_flight
next_read_deadline-due_example =
    next_read_deadline-due same 0 10000 (marked 5 ∷ []) (40 * second) (omega arith) (omega arith)

complete_reauth-within_example :
    (0 + second ≤ (complete_reauth same 0 (pos 10000) due_at_five).reauth_at)
    × ((complete_reauth same 0 (pos 10000) due_at_five).reauth_at ≤ 0 + 10000 * 1000000)
    × (next_read_deadline (complete_reauth same 0 (pos 10000) due_at_five)
        ≡ (complete_reauth same 0 (pos 10000) due_at_five).reauth_at)
complete_reauth-within_example =
    complete_reauth-within same (λ n. (n, refl, omega arith)) 0 10000 due_at_five (omega arith)
      (omega arith)

complete_reauth-stays_due_example :
    needs_reauth (complete_reauth same 7 (pos 0) (mark_in_flight 6 due_at_five)) 8 ≡ true
unfolding needs_reauth
complete_reauth-stays_due_example =
    complete_reauth-stays_due same due_at_five 6 7 8 refl (omega arith)
