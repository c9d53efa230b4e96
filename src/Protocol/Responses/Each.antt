-- ===== src/Protocol/Responses/Each.antt =====
-- What rewriting every element of a list of structs, or one field of a struct, does.
use kafka_gcp_proxy.Base.{
  ◌≡◌, ◌≢◌, refl, ap, sym, subst, suc, String, Error, Result, ok, >>=-eq-ok, ok-injective, panicked,
}
use kafka_gcp_proxy.Protocol.Schema.{
  Schema, Value, Values, list, struct, no_value, item, get, count,
}
use kafka_gcp_proxy.Protocol.Schema.Typing.{HasType, EachHasType, each_item}
use kafka_gcp_proxy.Protocol.Schema.Update.{own_schema}
use kafka_gcp_proxy.Protocol.Responses.Modify.{struct_or, modify_each}

-- A relation between a struct's values before and after.
abbrev pub Change : Type 1
Change = Schema → Values → Values → Type 0

-- The same structs in the same order, each changed as R says.
pub data Each (R : Change) : Values → Values → Type 0 where
  each_done : Each R no_value no_value
  each_next :
      {t : Schema} {vs vs' ws ws' : Values}
      → R t vs vs'
      → Each R ws ws'
      → Each R (item (struct t vs) ws) (item (struct t vs') ws')

pub data ListChange (R : Change) : Value → Value → Type 0 where
  lists : {vs vs' : Values} → Each R vs vs' → ListChange R (list vs) (list vs')

pub data StructChange (R : Change) : Value → Value → Type 0 where
  structs :
      {t : Schema} {vs vs' : Values} → R t vs vs' → StructChange R (struct t vs) (struct t vs')

-- The named field is changed as R says, and no other.
abbrev pub FieldChange : String → (Value → Value → Type 0) → Change
FieldChange name R t vs vs' =
    R (get t vs name) (get t vs' name)
    × ((other : String) → name ≢ other → get t vs' other ≡ get t vs other)

abbrev pub KeepsType : Change
KeepsType t vs vs' = HasType t (struct t vs) → HasType t (struct t vs')

-- Whatever modify returns is related to what it was given.
abbrev pub Makes : (Schema → Values → Result Values) → Change → Type 0
Makes modify R = (t : Schema) (vs vs' : Values) → modify t vs ≡ ok vs' → R t vs vs'

pub is_struct_value :
    {t : Schema} {vs : Values} (e : Error) (v : Value)
    → struct_or e v ≡ ok (t, vs)
    → v ≡ struct t vs
is_struct_value e (struct t' vs') h = cc
is_struct_value e _ h = cc

pub modify_each-Each :
    (R : Change) (modify : Schema → Values → Result Values)
    → Makes modify R
    → (vs vs' : Values) → modify_each modify vs ≡ ok vs'
    → Each R vs vs'
unfolding modify_each
modify_each-Each R modify makes no_value vs' h = subst (Each R no_value) (ok-injective h) each_done
modify_each-Each R modify makes (item v vs) vs' h =
    let ((t, ws), e, k) = >>=-eq-ok (struct_or panicked v) _ h in
    let (ws', e', k') = >>=-eq-ok (modify t ws) _ k in
    let (vs₁, e₁, k₁) = >>=-eq-ok (modify_each modify vs) _ k' in
    subst (Each R (item v vs)) (ok-injective k₁) (
      subst (λ u. Each R (item u vs) (item (struct t ws') vs₁)) (sym (is_struct_value panicked v e))
        (each_next (makes t ws ws' e') (modify_each-Each R modify makes vs vs₁ e₁)))

pub count-Each : {R : Change} {vs vs' : Values} → Each R vs vs' → count vs' ≡ count vs
count-Each each_done = refl
count-Each (each_next r rs) = ap suc (count-Each rs)

pub EachHasType-Each :
    {vs vs' : Values} → Each KeepsType vs vs' → (t : Schema) → EachHasType t vs → EachHasType t vs'
EachHasType-Each each_done t p = p
EachHasType-Each (each_next {t = own} {vs' = ws} keeps rs) t (each_item p ps) =
    let same : t ≡ own = own_schema p in
    each_item (rw same (keeps (rw same at p))) (EachHasType-Each rs t ps)
