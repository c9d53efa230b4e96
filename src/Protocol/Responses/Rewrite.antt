-- ===== src/Protocol/Responses/Rewrite.antt =====
-- What modifyMetadataResponse and modifyFindCoordinatorResponse do to a response: the addresses in
-- it are mapped, and it stays a value of its schema.
use kafka_gcp_proxy.Base.{
  ◌≡◌, ◌≢◌, ◌⊎◌, inl, inr, refl, sym, subst, ◌∙◌, String, Error, Result, ok, failure, ◌>>=◌,
  >>=-eq-ok, ok-injective,
}
use kafka_gcp_proxy.Protocol.Schema.{Schema, Value, Values, list, struct, get, nil}
use kafka_gcp_proxy.Protocol.Schema.Access.{set_field, get-set_field, get-set_field_ne}
use kafka_gcp_proxy.Protocol.Schema.Update.{
  set_field-HasType, Retypes, Retypes-list, Retypes-struct, own_schema,
}
use kafka_gcp_proxy.Protocol.Responses.Names.{
  brokers_key_name, coordinator_key_name, coordinators_key_name,
}
use kafka_gcp_proxy.Protocol.Responses.Modify.{
  NetAddressMapping, list_or, struct_or, modify_each, modify_address, modify_broker,
  modify_metadata_response, modify_coordinator, modify_coordinators,
  modify_find_coordinator_response,
}
use kafka_gcp_proxy.Protocol.Responses.Address.{
  AddressMapped, MapsWithin, modify_address-AddressMapped, modify_address-HasType,
}
use kafka_gcp_proxy.Protocol.Responses.Each.{
  Change, Each, ListChange, lists, StructChange, structs, FieldChange, KeepsType, Makes,
  is_struct_value, modify_each-Each, count-Each, EachHasType-Each,
}

is_list_value : {vs : Values} (e : Error) (v : Value) → list_or e v ≡ ok vs → v ≡ list vs
is_list_value e (list vs') h = cc
is_list_value e _ h = cc

module _ (t : Schema) (vs : Values) (name : String) {v : Value} (w : Value)
    (found : get t vs name ≡ v) (not_nil : v ≢ nil) where
  field_changed :
      (R : Value → Value → Type 0) → R v w → FieldChange name R t vs (set_field t vs name w)
  field_changed R r = (
    subst (λ x. R x (get t (set_field t vs name w) name)) (sym found)
        (subst (R v) (sym (get-set_field t vs name w (λ n. not_nil (sym found ∙ n)))) r),
    λ other h. get-set_field_ne t vs name other w h,
  )

  field_typed : Retypes v w → KeepsType t vs (set_field t vs name w)
  field_typed r typed = set_field-HasType t vs name w typed (subst (λ x. Retypes x w) (sym found) r)

list_changed :
    {R : Change} (t : Schema) (vs ws ws' : Values) (name : String)
    → get t vs name ≡ list ws
    → Each R ws ws'
    → FieldChange name (ListChange R) t vs (set_field t vs name (list ws'))
list_changed {R} t vs ws ws' name found each =
    field_changed t vs name (list ws') found (λ e. cc) (ListChange R) (lists each)

list_typed :
    (t : Schema) (vs ws ws' : Values) (name : String)
    → get t vs name ≡ list ws
    → Each KeepsType ws ws'
    → KeepsType t vs (set_field t vs name (list ws'))
list_typed t vs ws ws' name found each =
    field_typed t vs name (list ws') found (λ e. cc)
      (Retypes-list ws ws' (EachHasType-Each each) (count-Each each))

-- The field holds a list, and afterwards the list that modify_each makes of it.
module _ (modify : Schema → Values → Result Values) (e : Error) (name : String) (t : Schema)
    (vs vs' : Values)
    (modified : (list_or e (get t vs name) >>= λ ws.
        modify_each modify ws >>= λ ws'. ok (set_field t vs name (list ws')))
      ≡ ok vs') where
  every_change : (R : Change) → Makes modify R → FieldChange name (ListChange R) t vs vs'
  every_change R makes =
      let (ws, el, k) = >>=-eq-ok (list_or e (get t vs name)) _ modified in
      let (ws', em, l) = >>=-eq-ok (modify_each modify ws) _ k in
      subst (FieldChange name (ListChange R) t vs) (ok-injective l) (
        list_changed t vs ws ws' name (is_list_value e (get t vs name) el)
          (modify_each-Each R modify makes ws ws' em))

  every_type : Makes modify KeepsType → KeepsType t vs vs'
  every_type makes =
      let (ws, el, k) = >>=-eq-ok (list_or e (get t vs name)) _ modified in
      let (ws', em, l) = >>=-eq-ok (modify_each modify ws) _ k in
      subst (KeepsType t vs) (ok-injective l) (
        list_typed t vs ws ws' name (is_list_value e (get t vs name) el)
          (modify_each-Each KeepsType modify makes ws ws' em))

-- In a metadata response the brokers have mapped addresses.
abbrev pub MetadataMapped : NetAddressMapping → Change
MetadataMapped fn = FieldChange brokers_key_name (ListChange (AddressMapped fn))

-- In an old find coordinator response the coordinator has a mapped address.
abbrev pub CoordinatorMapped : NetAddressMapping → Change
CoordinatorMapped fn = FieldChange coordinator_key_name (StructChange (AddressMapped fn))

-- In a new one, every one of the coordinators.
abbrev pub FindCoordinatorMapped : NetAddressMapping → Change
FindCoordinatorMapped fn t vs vs' =
    ((get t vs coordinators_key_name ≡ nil) × CoordinatorMapped fn t vs vs')
    ⊎ FieldChange coordinators_key_name (ListChange (CoordinatorMapped fn)) t vs vs'

module _ (fn : NetAddressMapping) where
  broker_mapped : Makes (modify_broker fn) (AddressMapped fn)
  unfolding modify_broker
  broker_mapped t vs vs' h = modify_address-AddressMapped _ _ _ fn t vs vs' h

  broker_typed : MapsWithin fn → Makes (modify_broker fn) KeepsType
  unfolding modify_broker
  broker_typed within t vs vs' h = modify_address-HasType _ _ _ fn t vs vs' h within

  -- A successful modifyMetadataResponse maps the address of every broker, one without a host and
  -- without a positive port left as it was, keeps their number and order, and changes no other field
  -- of the response.
  pub modify_metadata_response-MetadataMapped :
      (t : Schema) (vs vs' : Values)
      → modify_metadata_response fn t vs ≡ ok vs'
      → MetadataMapped fn t vs vs'
  unfolding modify_metadata_response
  modify_metadata_response-MetadataMapped t vs vs' h =
      every_change (modify_broker fn) (failure "brokers list not found") brokers_key_name t vs vs' h
        (AddressMapped fn) broker_mapped

  pub modify_metadata_response-KeepsType :
      MapsWithin fn → Makes (modify_metadata_response fn) KeepsType
  unfolding modify_metadata_response
  modify_metadata_response-KeepsType within t vs vs' h =
      every_type (modify_broker fn) (failure "brokers list not found") brokers_key_name t vs vs' h
        (broker_typed within)

  coordinator_parts :
      (t : Schema) (vs vs' : Values)
      → modify_coordinator fn t vs ≡ ok vs'
      → (ct : Schema) × (cvs : Values) × (cvs' : Values) × (no_host : Error) × (no_port : Error)
        × (no_node : Error) × (get t vs coordinator_key_name ≡ struct ct cvs)
        × (modify_address no_host no_port no_node fn ct cvs ≡ ok cvs')
        × (set_field t vs coordinator_key_name (struct ct cvs') ≡ vs')
  unfolding modify_coordinator
  coordinator_parts t vs vs' h =
      let e : Error = failure "coordinator not found" in
      let ((ct, cvs), es, k) = >>=-eq-ok (struct_or e (get t vs coordinator_key_name)) _ h in
      let (cvs', em, l) = >>=-eq-ok (modify_address _ _ _ fn ct cvs) _ k in
      (
        ct,
        cvs,
        cvs',
        _,
        _,
        _,
        is_struct_value e (get t vs coordinator_key_name) es,
        em,
        ok-injective l,
      )

  coordinator_mapped : Makes (modify_coordinator fn) (CoordinatorMapped fn)
  coordinator_mapped t vs vs' h =
      let (ct, cvs, cvs', a, b, c, found, em, e) = coordinator_parts t vs vs' h in
      subst (CoordinatorMapped fn t vs) e (
        field_changed t vs coordinator_key_name (struct ct cvs') found (λ n. cc)
          (StructChange (AddressMapped fn))
          (structs (modify_address-AddressMapped a b c fn ct cvs cvs' em)))

  coordinator_typed : MapsWithin fn → Makes (modify_coordinator fn) KeepsType
  coordinator_typed within t vs vs' h =
      let (ct, cvs, cvs', a, b, c, found, em, e) = coordinator_parts t vs vs' h in
      subst (KeepsType t vs) e (
        field_typed t vs coordinator_key_name (struct ct cvs') found (λ n. cc)
          (Retypes-struct ct cvs cvs' (λ s typed.
            let same : s ≡ ct = own_schema typed in
            rw same (modify_address-HasType a b c fn ct cvs cvs' em within (rw same at typed)))))

  -- A successful modifyFindCoordinatorResponse maps the address of the coordinator in a response
  -- without the list of coordinators, and otherwise that of every coordinator in the list, one
  -- without a host and without a positive port left as it was; it keeps their number and order, and
  -- changes no other field of the response.
  pub modify_find_coordinator_response-FindCoordinatorMapped :
      (t : Schema) (vs vs' : Values)
      → modify_find_coordinator_response fn t vs ≡ ok vs'
      → FindCoordinatorMapped fn t vs vs'
  unfolding modify_find_coordinator_response
  modify_find_coordinator_response-FindCoordinatorMapped t vs vs' h =
      go (get t vs coordinators_key_name) refl h
    where
      go :
          (v : Value)
          → get t vs coordinators_key_name ≡ v
          → modify_coordinators fn t vs v ≡ ok vs'
          → FindCoordinatorMapped fn t vs vs'
      go nil e k = inl (e, coordinator_mapped t vs vs' k)
      go _ e k = inr (
          every_change (modify_coordinator fn) (failure "coordinators list not found")
            coordinators_key_name t vs vs' (rw e k) (CoordinatorMapped fn) coordinator_mapped)

  pub modify_find_coordinator_response-KeepsType :
      MapsWithin fn → Makes (modify_find_coordinator_response fn) KeepsType
  unfolding modify_find_coordinator_response
  modify_find_coordinator_response-KeepsType within t vs vs' h =
      go (get t vs coordinators_key_name) refl h
    where
      go :
          (v : Value)
          → get t vs coordinators_key_name ≡ v
          → modify_coordinators fn t vs v ≡ ok vs'
          → KeepsType t vs vs'
      go nil e k = coordinator_typed within t vs vs' k
      go _ e k =
          every_type (modify_coordinator fn) (failure "coordinators list not found")
            coordinators_key_name t vs vs' (rw e k) (coordinator_typed within)
