-- ===== src/Proxy/Handlers/Relayed.antt =====
-- What the responses loop relays (proxy/processor_default.go, proxy/processor_sasl_auth_v0.go).
use kafka_gcp_proxy.Base.{
  ℕ, zero, suc, ◌+◌, ◌≤◌, ◌≡◌, ap, sym, subst, ℤ, pos, negsuc, true, some, List, [], ◌++◌,
  append-nil, length, ok, arith,
}
use kafka_gcp_proxy.Protocol.Headers.{ResponseHeader, response_header}
use kafka_gcp_proxy.Protocol.Responses.Modify.{ResponseModifier, apply}
use kafka_gcp_proxy.Proxy.Wires.{Wires, done, lift, reject_if, write}
use kafka_gcp_proxy.Proxy.Wires.Moved.{Moved}
use kafka_gcp_proxy.Proxy.Wires.Transfers.{>>=-done, read_full-done, write-done, lift-done}
use kafka_gcp_proxy.Proxy.Wires.Flows.{lift-Stays, reject_if-Stays, both, then-Still}
use kafka_gcp_proxy.Proxy.CopyN.Copied.{my_copy_n-Moved}
use kafka_gcp_proxy.Proxy.Handlers.Request.{minus32}
use kafka_gcp_proxy.Proxy.Handlers.Response.{
  read_body, int32_of, encode_header, write_modified, write_unmodified,
}
use kafka_gcp_proxy.Proxy.Handlers.HeaderLengths.{IsLength}
use kafka_gcp_proxy.Proxy.Handlers.Forwarded.{IsWhole, minus32-IsWhole}

pub write_unmodified-Moved :
    (buf : ℕ) (header_bytes : List ℕ) (header : ResponseHeader) (tagged : List ℕ) (w v : Wires)
    → 1 ≤ buf
    → IsLength header.length
    → write_unmodified buf header_bytes header tagged w ≡ done tt v
    → (body : List ℕ) × Moved w v body (header_bytes ++ (tagged ++ body))
      × IsWhole header.length (tagged ++ body)
unfolding write_unmodified
write_unmodified-Moved zero header_bytes header tagged w v room accepted h =
    let absurd : ⊥ = omega arith in elim absurd [ ]
write_unmodified-Moved (suc buf) header_bytes header tagged w v room accepted h =
    let (t1, w1, e1, h1) = >>=-done (write header_bytes) _ w h in
    let (t2, w2, e2, h2) = >>=-done (write tagged) _ w1 h1 in
    let (body, copied, size) =
      my_copy_n-Moved buf (minus32 header.length (4 + length tagged)) w2 v h2 in
    (
      body,
      both (write-done header_bytes w e1) (both (write-done tagged w1 e2) copied),
      minus32-IsWhole header.length tagged body accepted size,
    )

-- A response rewritten by this modifier: what was read behind the header, and what was written.
pub record Rewritten (header : ResponseHeader) (m : ResponseModifier) (w v : Wires)
    (tagged : List ℕ) : Type 0 where
  pub resp : List ℕ
  pub new_response : List ℕ
  pub new_header : List ℕ
  pub applied : apply m (some resp) ≡ ok new_response
  pub encoded :
      encode_header (
        response_header
          (int32_of (length new_response + (4 + length tagged)))
          header.correlation_id)
      ≡ ok new_header
  pub moved : Moved w v resp (new_header ++ (tagged ++ new_response))
  pub whole : IsWhole header.length (tagged ++ resp)

pub read_body-done :
    (n : ℤ) (w v : Wires) (bs : List ℕ)
    → read_body n w ≡ done bs v
    → Moved w v bs [] × (n ≡ pos (length bs))
read_body-done (pos n) w v bs h =
    let (moved, len) = read_full-done n w h in (moved, ap pos (sym len))
read_body-done (negsuc n) w v bs h = cc

pub write_modified-Moved :
    (header : ResponseHeader) (tagged : List ℕ) (m : ResponseModifier) (w v : Wires)
    → IsLength header.length
    → write_modified header tagged m w ≡ done tt v
    → Rewritten header m w v tagged
unfolding write_modified
write_modified-Moved header tagged m w v accepted h =
    let (t1, w1, e1, h1) = >>=-done (reject_if _ _) _ w h in
    let (resp, w2, e2, h2) =
      >>=-done (read_body (minus32 header.length (4 + length tagged))) _ w1 h1 in
    let (new_response, w3, e3, h3) = >>=-done (lift true (apply m (some resp))) _ w2 h2 in
    let fresh = encode_header (
      response_header (int32_of (length new_response + (4 + length tagged)))
        header.correlation_id) in
    let (new_header, w4, e4, h4) = >>=-done (lift true fresh) _ w3 h3 in
    let (t5, w5, e5, h5) = >>=-done (write new_header) _ w4 h4 in
    let (t6, w6, e6, h6) = >>=-done (write tagged) _ w5 h5 in
    let (got, size) = read_body-done _ w1 w2 resp e2 in
    record {
      resp = resp;
      new_response = new_response;
      new_header = new_header;
      applied = (lift-done true (apply m (some resp)) w2 e3).0;
      encoded = (lift-done true fresh w3 e4).0;
      moved =
          then_Moved
            (both (reject_if-Stays _ _ w t1 w1 e1) (
              then-Still (then-Still got (lift-Stays true _ w2 new_response w3 e3))
                (lift-Stays true fresh w3 new_header w4 e4)))
            (both (write-done new_header w4 e5)
              (both (write-done tagged w5 e6) (write-done new_response w6 h6)));
      whole = minus32-IsWhole header.length tagged resp accepted size;
    }
  where
    then_Moved :
        {x y z : Wires} {is os : List ℕ} → Moved x y is [] → Moved y z [] os → Moved x z is os
    then_Moved {x} {y} {z} {is} {os} p q = subst (λ i. Moved x z i os) (append-nil is) (both p q)
