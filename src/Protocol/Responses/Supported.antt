-- ===== src/Protocol/Responses/Supported.antt =====
-- proxy/protocol/responses.go: which responses GetResponseModifier has a modifier for, and that Apply
-- gets these past the rewriting unless the mapping refuses one of their addresses.
use kafka_gcp_proxy.Base.{
  ℕ, zero, suc, ◌<◌, ◌≤◌, arith, ◌≡◌, ◌≢◌, ◌⊎◌, inl, inr, refl, sym, subst, ℤ, pos, negsuc, beq_ℤ,
  Bool, true, false, Bool-cases, Option, none, some, List, [], ◌∷◌, length, Error, Result, ok, err,
  failure, get_elem?, beq_ℤ→eq, beq_ℤ_refl, beq_ℤ, leb,
}
use kafka_gcp_proxy.Protocol.Schema.{Schema, Values}
use kafka_gcp_proxy.Protocol.Schema.Decode.{decode_struct}
use kafka_gcp_proxy.Protocol.Schema.Encode.{encode_struct}
use kafka_gcp_proxy.Protocol.Schema.Typing.{well_formed}
use kafka_gcp_proxy.Protocol.Schema.Whole.{decode_struct-HasType}
use kafka_gcp_proxy.Protocol.Responses.MetadataSchemas.{metadata_response_schema_versions}
use kafka_gcp_proxy.Protocol.Responses.CoordinatorSchemas.{
  find_coordinator_response_schema_versions,
}
use kafka_gcp_proxy.Protocol.Responses.Versions.{
  all_schemas, all_schemas-get_elem?, metadata_response_schema_versions-well_formed,
  find_coordinator_response_schema_versions-well_formed,
  metadata_response_schema_versions-addressed, find_coordinator_response_schema_versions-addressed,
}
use kafka_gcp_proxy.Protocol.Responses.Modify.{
  NetAddressMapping, ModifyResponse, ResponseModifier, apply, get_response_schema,
  new_response_modifier, get_response_modifier, some_modifier, modify_metadata_response,
  modify_find_coordinator_response,
}
use kafka_gcp_proxy.Protocol.Responses.Refusals.{Settles, MetadataRefused, FindCoordinatorRefused}
use kafka_gcp_proxy.Protocol.Responses.Total.{
  metadata_addressed, find_coordinator_addressed, modify_metadata_response-Settles,
  modify_find_coordinator_response-Settles,
}
use kafka_gcp_proxy.Protocol.Responses.Applied.{modifier_of, supported}

-- Apply gets past decoding, which gave `vs`, and past rewriting, to the encoding of what that gave.
abbrev pub Encodes : NetAddressMapping → ResponseModifier → Values → List ℕ → Type 0
Encodes fn m vs resp =
    (vs' : Values) × (m.modify_response fn m.schema vs ≡ ok vs')
    × (apply m (some resp) ≡ encode_struct (m.schema, vs') m.schema)

-- Apply gets that far, or returns the mapping's error for an address to blame.
abbrev pub EncodesOr :
    (Error → Type 0) → NetAddressMapping → ResponseModifier → Values → List ℕ → Type 0
EncodesOr blame fn m vs resp =
    Encodes fn m vs resp ⊎ ((e : Error) × blame e × (apply m (some resp) ≡ err e))

module _ (modify : ModifyResponse) (refused : NetAddressMapping → Schema → Values → Error → Type 0)
    (fn : NetAddressMapping) (test : Schema → Bool)
    (settles : (t : Schema) → test t ≡ true → Settles (modify fn) (refused fn) t) where
  apply-Encodes :
      (t own : Schema) (resp : List ℕ) (vs : Values)
      → well_formed t ≡ true
      → test t ≡ true
      → decode_struct (some resp) t ≡ ok (some (own, vs))
      → EncodesOr (refused fn t vs) fn (modifier_of t modify fn) vs resp
  unfolding apply
  apply-Encodes t own resp vs w h e =
      let (same, typed) = decode_struct-HasType t own resp vs w e in
      let e' : decode_struct (some resp) t ≡ ok (some (t, vs)) =
        subst (λ s. decode_struct (some resp) t ≡ ok (some (s, vs))) same e in
      elim (settles t h vs typed) [
        | inl (vs', em) ↦ inl (vs', em, rw (e', em) refl)
        | inr (x, blame, em) ↦ inr (x, blame, rw (e', em) refl)
      ]

  modifier-Encodes :
      (ts : List Schema)
      → all_schemas well_formed ts ≡ true
      → all_schemas test ts ≡ true
      → (v : ℤ) (m : ResponseModifier) (own : Schema) (resp : List ℕ) (vs : Values)
      → some_modifier (new_response_modifier v (some fn) ts modify) ≡ ok (some m)
      → decode_struct (some resp) m.schema ≡ ok (some (own, vs))
      → EncodesOr (refused fn m.schema vs) fn m vs resp
  modifier-Encodes ts all_well all_pass v m own resp vs h e =
      let (i, t, ev, et, em) = supported modify fn ts v h in
      subst (λ (r : ResponseModifier). EncodesOr (refused fn r.schema vs) fn r vs resp) (sym em)
        (apply-Encodes t own resp vs (all_schemas-get_elem? well_formed ts i t all_well et)
          (all_schemas-get_elem? test ts i t all_pass et)
          (subst
            (λ (r : ResponseModifier). decode_struct (some resp) r.schema ≡ ok (some (own, vs))) em
            e))

module _ (fn : NetAddressMapping) (v : ℤ) (m : ResponseModifier) (own : Schema) (resp : List ℕ)
    (vs : Values) where
  -- The rewriting of a metadata response of a supported version that decodes never fails on its own:
  -- Apply returns what EncodeSchema does for the struct that modifyMetadataResponse gives, or it
  -- returns the error with which the mapping refuses the address of one of the response's brokers,
  -- and that one has a host or a positive port.
  pub metadata_response-Encodes :
      get_response_modifier (pos 3) v (some fn) ≡ ok (some m)
      → decode_struct (some resp) m.schema ≡ ok (some (own, vs))
      → EncodesOr (MetadataRefused fn m.schema vs) fn m vs resp
  unfolding get_response_modifier
  metadata_response-Encodes h =
      modifier-Encodes modify_metadata_response MetadataRefused fn metadata_addressed
        (modify_metadata_response-Settles fn) metadata_response_schema_versions
        metadata_response_schema_versions-well_formed metadata_response_schema_versions-addressed v
        m own resp vs h

  -- The rewriting of a find coordinator response of a supported version that decodes never fails on
  -- its own: Apply returns what EncodeSchema does for the struct that modifyFindCoordinatorResponse
  -- gives, or it returns the error with which the mapping refuses the address of the response's
  -- coordinator, or of one in its list of coordinators, and that one has a host or a positive port.
  pub find_coordinator_response-Encodes :
      get_response_modifier (pos 10) v (some fn) ≡ ok (some m)
      → decode_struct (some resp) m.schema ≡ ok (some (own, vs))
      → EncodesOr (FindCoordinatorRefused fn m.schema vs) fn m vs resp
  unfolding get_response_modifier
  find_coordinator_response-Encodes h =
      modifier-Encodes modify_find_coordinator_response FindCoordinatorRefused fn
        find_coordinator_addressed (modify_find_coordinator_response-Settles fn)
        find_coordinator_response_schema_versions
        find_coordinator_response_schema_versions-well_formed
        find_coordinator_response_schema_versions-addressed v m own resp vs h

get_elem?-within :
    {A : Type 0} (xs : List A) (i : ℕ) → i < length xs → (x : A) × (get_elem? xs i ≡ some x)
get_elem?-within [] i h = let never : ⊥ = omega (arith, h) in absurd never
get_elem?-within (x ∷ xs) zero h = (x, refl)
get_elem?-within (x ∷ xs) (suc i) h = get_elem?-within xs i (omega arith)

get_elem?-past : {A : Type 0} (xs : List A) (i : ℕ) → length xs ≤ i → get_elem? xs i ≡ none
get_elem?-past [] i h = refl
get_elem?-past (x ∷ xs) zero h = let never : ⊥ = omega (arith, h) in absurd never
get_elem?-past (x ∷ xs) (suc i) h = get_elem?-past xs i (omega arith)

abbrev unsupported : Error
unsupported = failure "Unsupported response schema version"

-- What GetResponseModifier returns for a key whose responses are rewritten up to a last version.
abbrev pub ByVersion : ℤ → ℕ → Option NetAddressMapping → Result (Option ResponseModifier) → Type 0
ByVersion v last fn r =
    ((i : ℕ) × (m : ResponseModifier) × (v ≡ pos i)
      × (i ≤ last)
      × (r ≡ ok (some m))
      × (m.net_address_mapping ≡ fn))
    ⊎ (((i : ℕ) → i ≤ last → v ≢ pos i) × (r ≡ err unsupported))

by_version :
    (ts : List Schema) (last : ℕ) (modify : ModifyResponse) (v : ℤ) (fn : Option NetAddressMapping)
    → length ts ≡ suc last
    → ByVersion v last fn (some_modifier (new_response_modifier v fn ts modify))
unfolding new_response_modifier get_response_schema
by_version ts last modify (negsuc n) fn h = inr (λ i le e. cc, refl)
by_version ts last modify (pos i) fn h = elim (Bool-cases (leb i last)) [
  | inl e ↦
      let (t, et) = get_elem?-within ts i (ground arith) in
      inl (
        i,
        record { schema = t; modify_response = modify; net_address_mapping = fn },
        refl,
        ground arith,
        rw et refl,
        refl,
      )
  | inr e ↦ inr (
    λ j le same. let eq : i ≡ j = pos-injective same in ground arith,
    rw (get_elem?-past ts i (ground arith)) refl,
  )
]
  where
    pos-injective : {a b : ℕ} → pos a ≡ pos b → a ≡ b
    pos-injective e = cc

-- GetResponseModifier has a modifier, with the mapping that it is given, for the versions 0 to 13 of
-- metadata (key 3) and 0 to 6 of find coordinator (key 10); it refuses every other version of these
-- keys, negative ones included, and has no modifier for any other key, whatever the version.
pub get_response_modifier_lem :
    (key v : ℤ) (fn : Option NetAddressMapping)
    → ((key ≡ pos 3) × ByVersion v 13 fn (get_response_modifier key v fn))
      ⊎ (((key ≡ pos 10) × ByVersion v 6 fn (get_response_modifier key v fn))
          ⊎ ((key ≢ pos 3) × (key ≢ pos 10) × (get_response_modifier key v fn ≡ ok none)))
unfolding get_response_modifier metadata_response_schema_versions
    find_coordinator_response_schema_versions
get_response_modifier_lem key v fn = elim (Bool-cases (beq_ℤ key (pos 3))) [
  | inl e ↦ inl (
    beq_ℤ→eq key (pos 3) e,
    rw e (by_version metadata_response_schema_versions 13 modify_metadata_response v fn refl),
  )
  | inr e ↦ elim (Bool-cases (beq_ℤ key (pos 10))) [
    | inl e' ↦ inr (
        inl (
          beq_ℤ→eq key (pos 10) e',
          rw (e, e')
              (by_version find_coordinator_response_schema_versions 6
                modify_find_coordinator_response v fn refl),
        ))
    | inr e' ↦ inr (inr (differs (pos 3) e, differs (pos 10) e', rw (e, e') refl))
  ]
]
  where
    differs : (z : ℤ) → beq_ℤ key z ≡ false → key ≢ z
    differs z h e = let same : beq_ℤ key z ≡ true = rw e (beq_ℤ_refl z) in cc
