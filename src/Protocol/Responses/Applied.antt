-- ===== src/Protocol/Responses/Applied.antt =====
-- proxy/protocol/responses.go: what a response is after GetResponseModifier and Apply.
use kafka_gcp_proxy.Base.{
  ℕ, ◌≡◌, refl, sym, subst, ℤ, pos, negsuc, true, Option, none, some, List, ok, ◌>>=◌, >>=-eq-ok,
  ok-injective, get_elem?,
}
use kafka_gcp_proxy.Protocol.Schema.{Schema, Values}
use kafka_gcp_proxy.Protocol.Schema.Decode.{decode_struct}
use kafka_gcp_proxy.Protocol.Schema.Encode.{encode_struct}
use kafka_gcp_proxy.Protocol.Schema.Typing.{well_formed}
use kafka_gcp_proxy.Protocol.Schema.Whole.{decode_struct-HasType, decode_struct-encode_struct}
use kafka_gcp_proxy.Protocol.Responses.MetadataSchemas.{metadata_response_schema_versions}
use kafka_gcp_proxy.Protocol.Responses.CoordinatorSchemas.{
  find_coordinator_response_schema_versions,
}
use kafka_gcp_proxy.Protocol.Responses.Versions.{
  all_schemas, all_schemas-get_elem?, metadata_response_schema_versions-well_formed,
  find_coordinator_response_schema_versions-well_formed,
}
use kafka_gcp_proxy.Protocol.Responses.Modify.{
  NetAddressMapping, ModifyResponse, ResponseModifier, modify_or_fail, apply, schema_or_fail,
  get_response_schema, new_response_modifier, get_response_modifier, some_modifier,
  modify_metadata_response, modify_find_coordinator_response,
}
use kafka_gcp_proxy.Protocol.Responses.Address.{MapsWithin}
use kafka_gcp_proxy.Protocol.Responses.Each.{Change, KeepsType, Makes}
use kafka_gcp_proxy.Protocol.Responses.Rewrite.{
  MetadataMapped, FindCoordinatorMapped, modify_metadata_response-MetadataMapped,
  modify_metadata_response-KeepsType, modify_find_coordinator_response-FindCoordinatorMapped,
  modify_find_coordinator_response-KeepsType,
}

abbrev pub modifier_of : Schema → ModifyResponse → NetAddressMapping → ResponseModifier
modifier_of t modify fn = record {
  schema = t;
  modify_response = modify;
  net_address_mapping = some fn;
}

-- The bytes before and after are those of two structs of one schema, related by R.
pub record Rewritten (t : Schema) (R : Change) (resp out : List ℕ) : Type 0 where
  pub before : Values
  pub after : Values
  pub decoded : decode_struct (some resp) t ≡ ok (some (t, before))
  pub decoded_after : decode_struct (some out) t ≡ ok (some (t, after))
  pub related : R t before after

module _ (t : Schema) (modify : ModifyResponse) (fn : NetAddressMapping) (w : well_formed t ≡ true)
    (keeps : Makes (modify fn) KeepsType) where
  apply-Rewritten :
      (R : Change)
      → Makes (modify fn) R
      → (resp out : List ℕ) → apply (modifier_of t modify fn) (some resp) ≡ ok out
      → Rewritten t R resp out
  unfolding apply
  apply-Rewritten R makes resp out h =
      let (decoded, ed, k) = >>=-eq-ok (decode_struct (some resp) t) _ h in go decoded ed k
    where
      go :
          (decoded : Option (Schema × Values))
          → decode_struct (some resp) t ≡ ok decoded
          → (modify_or_fail (modifier_of t modify fn) decoded (some fn) >>= λ modified.
              encode_struct modified t)
            ≡ ok out
          → Rewritten t R resp out
      go none ed k = cc
      go (some (own, vs)) ed k =
          let (same, typed) = decode_struct-HasType t own resp vs w ed in
          let ((own', vs₁), em, l) =
            >>=-eq-ok (modify fn own vs >>= λ vs'. ok (own, vs')) (λ m. encode_struct m t) k in
          let (vs', ef, e) = >>=-eq-ok (modify fn own vs) (λ vs'. ok (own, vs')) em in
          let ef' : modify fn t vs ≡ ok vs' = subst (λ s. modify fn s vs ≡ ok vs') same ef in
          let written : encode_struct (t, vs') t ≡ ok out =
            subst (λ s. encode_struct (s, vs') t ≡ ok out) same
              (subst (λ s. encode_struct s t ≡ ok out) (sym (ok-injective e)) l) in
          record {
            before = vs;
            after = vs';
            decoded = subst (λ s. decode_struct (some resp) t ≡ ok (some (s, vs))) same ed;
            decoded_after =
                decode_struct-encode_struct t vs' out (keeps t vs vs' ef' typed) written;
            related = makes t vs vs' ef';
          }

pub supported :
    (modify : ModifyResponse) (fn : NetAddressMapping) (ts : List Schema) (v : ℤ)
    {m : ResponseModifier}
    → (some_modifier (new_response_modifier v (some fn) ts modify)) ≡ ok (some m)
    → (i : ℕ) × (t : Schema) × (v ≡ pos i)
      × (get_elem? ts i ≡ some t)
      × (m ≡ modifier_of t modify fn)
unfolding new_response_modifier get_response_schema
supported modify fn ts (negsuc n) h = cc
supported modify fn ts (pos i) {m} h = go (get_elem? ts i) refl h
  where
    go :
        (o : Option Schema)
        → get_elem? ts i ≡ o
        → (some_modifier (
            schema_or_fail o >>= λ t.
            ok (record { schema = t; modify_response = modify; net_address_mapping = some fn })))
          ≡ ok (some m)
        → (i' : ℕ) × (t : Schema) × (pos i ≡ pos i')
          × (get_elem? ts i' ≡ some t)
          × (m ≡ modifier_of t modify fn)
    go none e k = cc
    go (some t) e k = (i, t, refl, e, some-injective (ok-injective (sym k)))
      where
        some-injective : {a b : ResponseModifier} → some a ≡ some b → a ≡ b
        some-injective q = cc

module _ (modify : ModifyResponse) (fn : NetAddressMapping) (ts : List Schema)
    (all_well : all_schemas well_formed ts ≡ true) (keeps : Makes (modify fn) KeepsType)
    (R : Change) (makes : Makes (modify fn) R) where
  modifier-Rewritten :
      (v : ℤ) (m : ResponseModifier) (resp out : List ℕ)
      → some_modifier (new_response_modifier v (some fn) ts modify) ≡ ok (some m)
      → apply m (some resp) ≡ ok out
      → Rewritten m.schema R resp out
  modifier-Rewritten v m resp out h e =
      let (i, t, ev, et, em) = supported modify fn ts v h in
      subst (λ (r : ResponseModifier). Rewritten r.schema R resp out) (sym em)
        (apply-Rewritten t modify fn (all_schemas-get_elem? well_formed ts i t all_well et) keeps R
          makes resp out (subst (λ r. apply r (some resp) ≡ ok out) em e))

module _ (fn : NetAddressMapping) (within : MapsWithin fn) (v : ℤ) (m : ResponseModifier)
    (resp out : List ℕ) where
  -- Where the mapping gives texts of an int16 length and int32 ports: if there is a modifier for a
  -- metadata response of this version and it returns bytes, then these decode, with the schema of
  -- the version, to the struct that the response decodes to, with every broker's address mapped
  -- (one without a host and without a positive port left as it was) and nothing else changed.
  pub metadata_response-Rewritten :
      get_response_modifier (pos 3) v (some fn) ≡ ok (some m)
      → apply m (some resp) ≡ ok out
      → Rewritten m.schema (MetadataMapped fn) resp out
  unfolding get_response_modifier
  metadata_response-Rewritten h =
      modifier-Rewritten modify_metadata_response fn metadata_response_schema_versions
        metadata_response_schema_versions-well_formed (modify_metadata_response-KeepsType fn within)
        (MetadataMapped fn) (modify_metadata_response-MetadataMapped fn) v m resp out h

  -- Where the mapping gives texts of an int16 length and int32 ports: if there is a modifier for a
  -- find coordinator response of this version and it returns bytes, then these decode, with the
  -- schema of the version, to the struct that the response decodes to, with the address of the
  -- coordinator, or of every coordinator in the list, mapped (one without a host and without a
  -- positive port left as it was) and nothing else changed.
  pub find_coordinator_response-Rewritten :
      get_response_modifier (pos 10) v (some fn) ≡ ok (some m)
      → apply m (some resp) ≡ ok out
      → Rewritten m.schema (FindCoordinatorMapped fn) resp out
  unfolding get_response_modifier
  find_coordinator_response-Rewritten h =
      modifier-Rewritten modify_find_coordinator_response fn
        find_coordinator_response_schema_versions
        find_coordinator_response_schema_versions-well_formed
        (modify_find_coordinator_response-KeepsType fn within) (FindCoordinatorMapped fn)
        (modify_find_coordinator_response-FindCoordinatorMapped fn) v m resp out h
