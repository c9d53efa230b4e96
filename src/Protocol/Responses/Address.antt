-- ===== src/Protocol/Responses/Address.antt =====
-- What rewriting one address does: the struct of a broker or of a coordinator afterwards.
use kafka_gcp_proxy.Base.{
  ℕ, ◌<◌, ◌≡◌, ◌≢◌, ◌⊎◌, inl, inr, refl, ap, sym, ◌∙◌, ℤ, half16, half32, InRange, beq_ℤ, beq_ℤ→eq,
  beq_bytes, beq_bytes→eq, true, false, Bool-cases, fun_ext, List, String, Error, Result, ok, err,
  ◌>>=◌, >>=-eq-ok, ok-injective, length, if◌then◌else◌,
}
use kafka_gcp_proxy.Protocol.Schema.{Schema, Value, Values, string, int32, struct, nil, get}
use kafka_gcp_proxy.Protocol.Schema.Access.{
  set_field, get-set_field, get-set_field_ne, set_field-get, ne_names,
}
use kafka_gcp_proxy.Protocol.Schema.Update.{
  replace-string, replace-int32, set_field-HasType, Retypes-string, Retypes-int32,
}
use kafka_gcp_proxy.Protocol.Schema.Typing.{HasType}
use kafka_gcp_proxy.Protocol.Responses.Names.{host_key_name, port_key_name, node_key_name}
use kafka_gcp_proxy.Protocol.Responses.Modify.{
  NetAddressMapping, string_or, int32_or, replace_string, replace_int32, replace_address,
  no_address, modify_address,
}

-- The struct with both fields set.
abbrev pub with_address : Schema → Values → List ℕ → ℤ → Values
with_address t vs host port =
    set_field t (set_field t vs host_key_name (string host)) port_key_name (int32 port)

host-ne-port : host_key_name ≢ port_key_name
host-ne-port = ne_names _ _ refl

module _ (t : Schema) (vs : Values) where
  host_replaced :
      (old new : List ℕ)
      → get t vs host_key_name ≡ string old
      → replace_string t vs host_key_name old new ≡ ok (set_field t vs host_key_name (string new))
  host_replaced old new h = elim (Bool-cases (beq_bytes old new)) [
    | inl e ↦ rw e (
        ap ok (
          sym (set_field-get t vs host_key_name)
          ∙ ap (set_field t vs host_key_name) (h ∙ ap string (beq_bytes→eq old new e))))
    | inr e ↦ rw e (replace-string t vs host_key_name old new h)
  ]

  port_replaced :
      (old new : ℤ)
      → get t vs port_key_name ≡ int32 old
      → replace_int32 t vs port_key_name old new ≡ ok (set_field t vs port_key_name (int32 new))
  port_replaced old new h = elim (Bool-cases (beq_ℤ old new)) [
    | inl e ↦ rw e (
        ap ok (
          sym (set_field-get t vs port_key_name)
          ∙ ap (set_field t vs port_key_name) (h ∙ ap int32 (beq_ℤ→eq old new e))))
    | inr e ↦ rw e (replace-int32 t vs port_key_name old new h)
  ]

pub address_replaced :
    (t : Schema) (vs : Values) (host h : List ℕ) (port p : ℤ)
    → get t vs host_key_name ≡ string host
    → get t vs port_key_name ≡ int32 port
    → replace_address t vs host port (h, p) ≡ ok (with_address t vs h p)
address_replaced t vs host h port p eh ep =
    ap (λ (r : Result Values). r >>= λ ws. replace_int32 t ws port_key_name port p)
      (host_replaced t vs host h eh)
    ∙ port_replaced t (set_field t vs host_key_name (string h)) port p
        (get-set_field_ne t vs host_key_name port_key_name (string h) host-ne-port ∙ ep)

-- The struct's own address, and what becomes of it.
pub record HasAddress (t : Schema) (vs : Values) : Type 0 where
  pub host : List ℕ
  pub port : ℤ
  pub node_id : ℤ
  pub at_host : get t vs host_key_name ≡ string host
  pub at_port : get t vs port_key_name ≡ int32 port
  pub at_node_id : get t vs node_key_name ≡ int32 node_id

abbrev pub mapped : NetAddressMapping → (t : Schema) (vs : Values) → HasAddress t vs → Result Values
mapped fn t vs a =
    if no_address a.host a.port
    then ok vs
    else (fn a.host a.port a.node_id >>= λ (h, p). ok (with_address t vs h p))

module _ (no_host no_port no_node : Error) (fn : NetAddressMapping) (t : Schema) (vs : Values) where
  -- A struct with an address keeps it if it is empty, gets the one that the mapping gives, or fails
  -- with the mapping's error.
  pub modify_address_lem :
      (a : HasAddress t vs) → modify_address no_host no_port no_node fn t vs ≡ mapped fn t vs a
  unfolding modify_address
  modify_address_lem a =
      rw (a.at_host, a.at_port, a.at_node_id)
        (ap
          (λ (r : Result (List ℕ × ℤ) → Result Values).
            if no_address a.host a.port then ok vs else r (fn a.host a.port a.node_id))
          (fun_ext step))
    where
      step :
          (r : Result (List ℕ × ℤ))
          → (r >>= replace_address t vs a.host a.port)
            ≡ (r >>= λ (h, p). ok (with_address t vs h p))
      step (ok (h, p)) = address_replaced t vs a.host h a.port p a.at_host a.at_port
      step (err e) = refl

  is_string : (e : Error) (v : Value) {s : List ℕ} → string_or e v ≡ ok s → v ≡ string s
  is_string e (string s') h = cc
  is_string e _ h = cc

  is_int32 : (e : Error) (v : Value) {z : ℤ} → int32_or e v ≡ ok z → v ≡ int32 z
  is_int32 e (int32 z') h = cc
  is_int32 e _ h = cc

-- The mapping gives texts of an int16 length and int32 ports.
abbrev pub MapsWithin : NetAddressMapping → Type 0
MapsWithin fn =
    (host h : List ℕ) (port node_id p : ℤ)
    → fn host port node_id ≡ ok (h, p)
    → (length h < half16) × InRange half32 p

-- The address is empty (no host, and no positive port) and the struct is left alone, or it is not and
-- the struct has the address that the mapping gives for its own, and every other field as before.
pub record AddressMapped (fn : NetAddressMapping) (t : Schema) (vs vs' : Values) : Type 0 where
  pub address : HasAddress t vs
  pub outcome :
      ((no_address address.host address.port ≡ true) × (vs' ≡ vs))
      ⊎ ((no_address address.host address.port ≡ false)
          × (h : List ℕ) × (p : ℤ) × (fn address.host address.port address.node_id ≡ ok (h, p))
          × (get t vs' host_key_name ≡ string h)
          × (get t vs' port_key_name ≡ int32 p)
          × ((name : String)
              → host_key_name ≢ name
              → port_key_name ≢ name
              → get t vs' name ≡ get t vs name))

module _ (no_host no_port no_node : Error) (fn : NetAddressMapping) (t : Schema) (vs vs' : Values)
    (modified : modify_address no_host no_port no_node fn t vs ≡ ok vs') where
  has_address : HasAddress t vs
  unfolding modify_address
  has_address =
      let (host, eh, k) = >>=-eq-ok (string_or no_host (get t vs host_key_name)) _ modified in
      let (port, ep, l) = >>=-eq-ok (int32_or no_port (get t vs port_key_name)) _ k in
      let (node, en, m) = >>=-eq-ok (int32_or no_node (get t vs node_key_name)) _ l in
      record {
        host = host;
        port = port;
        node_id = node;
        at_host = is_string no_host no_port no_node fn t vs no_host (get t vs host_key_name) eh;
        at_port = is_int32 no_host no_port no_node fn t vs no_port (get t vs port_key_name) ep;
        at_node_id = is_int32 no_host no_port no_node fn t vs no_node (get t vs node_key_name) en;
      }

  outcome_of :
      ((no_address has_address.host has_address.port ≡ true) × (vs' ≡ vs))
      ⊎ ((no_address has_address.host has_address.port ≡ false)
          × (h : List ℕ) × (p : ℤ) × (fn has_address.host has_address.port has_address.node_id
              ≡ ok (h, p))
          × (vs' ≡ with_address t vs h p))
  outcome_of =
      let a = has_address in
      let whole : mapped fn t vs a ≡ ok vs' =
        sym (modify_address_lem no_host no_port no_node fn t vs a) ∙ modified in
      elim (Bool-cases (no_address a.host a.port)) [
        | inl e ↦ inl (e, sym (ok-injective (rw e at whole)))
        | inr e ↦
            let ((h, p), ef, k) =
              >>=-eq-ok (fn a.host a.port a.node_id) (λ (h, p). ok (with_address t vs h p))
                (rw e at whole) in
            inr (e, h, p, ef, sym (ok-injective k))
      ]

  -- A successful rewrite leaves a struct with an empty address (no host, and no positive port) as it is;
  -- in any other it puts the address that the mapping gives for its own and changes nothing else.
  pub modify_address-AddressMapped : AddressMapped fn t vs vs'
  modify_address-AddressMapped = record {
    address = has_address;
    outcome = elim outcome_of [
      | inl kept ↦ inl kept
      | inr (present, h, p, ef, e) ↦ inr (
        present,
        h,
        p,
        ef,
        rw e (host_set h p),
        rw e (port_set h p),
        λ name nh np. rw e (others h p name nh np),
      )
    ];
  }
    where
      has_host : get t vs host_key_name ≢ nil
      has_host n = let e = has_address.at_host in cc

      has_port : (h : List ℕ) → get t (set_field t vs host_key_name (string h)) port_key_name ≢ nil
      has_port h n =
          let e = get-set_field_ne t vs host_key_name port_key_name (string h) host-ne-port in
          let e' = has_address.at_port in cc

      host_set : (h : List ℕ) (p : ℤ) → get t (with_address t vs h p) host_key_name ≡ string h
      host_set h p =
          get-set_field_ne t (set_field t vs host_key_name (string h)) port_key_name host_key_name
            (int32 p) (λ e. host-ne-port (sym e))
          ∙ get-set_field t vs host_key_name (string h) has_host

      port_set : (h : List ℕ) (p : ℤ) → get t (with_address t vs h p) port_key_name ≡ int32 p
      port_set h p =
          get-set_field t (set_field t vs host_key_name (string h)) port_key_name (int32 p)
            (has_port h)

      others :
          (h : List ℕ) (p : ℤ) (name : String)
          → host_key_name ≢ name
          → port_key_name ≢ name
          → get t (with_address t vs h p) name ≡ get t vs name
      others h p name nh np =
          get-set_field_ne t (set_field t vs host_key_name (string h)) port_key_name name (int32 p)
            np
          ∙ get-set_field_ne t vs host_key_name name (string h) nh

  pub modify_address-HasType : MapsWithin fn → HasType t (struct t vs) → HasType t (struct t vs')
  modify_address-HasType within typed = elim outcome_of [
    | inl (e, kept) ↦ rw kept typed
    | inr (present, h, p, ef, e) ↦
        let (fits_host, fits_port) =
          within has_address.host h has_address.port has_address.node_id p ef in
        let vs₁ : Values = set_field t vs host_key_name (string h) in
        let typed₁ : HasType t (struct t vs₁) =
          set_field-HasType t vs host_key_name (string h) typed
            (rw has_address.at_host (Retypes-string has_address.host h fits_host)) in
        let port₁ : get t vs₁ port_key_name ≡ int32 has_address.port =
          get-set_field_ne t vs host_key_name port_key_name (string h) host-ne-port
          ∙ has_address.at_port in
        rw e (
          set_field-HasType t vs₁ port_key_name (int32 p) typed₁
            (rw port₁ (Retypes-int32 has_address.port p fits_port)))
  ]
