-- ===== src/Protocol/Schema/Access.antt =====
-- Struct.Get after Struct.Replace, and the types of the values afterwards.
use kafka_gcp_proxy.Base.{
  ℕ, zero, suc, ◌≡◌, ◌≢◌, refl, ap, sym, ◌∙◌, true, false, Option, none, some, String, arith,
  Bool-cases, inl, inr,
}
use text.Mathlib.Text.{◌==◌ as str_eq}
use text.Mathlib.TextEquality.{eq_iff}
use kafka_gcp_proxy.Protocol.Schema.{
  Schema, Fields, no_field, field, field_name, Value, Values, nil, no_value, item, value_at,
  set_value, at_index, index_of, next_index, get_fields, get,
}

-- The struct's values with the named field, if there is one, set.
unfoldable pub set_field : Schema → Values → String → Value → Values
set_field t vs name w = elim (index_of name (get_fields t)) [
  | none ↦ vs
  | some i ↦ set_value vs i w
]

value_at-set_value :
    (vs : Values) (i : ℕ) (w : Value) → value_at vs i ≢ nil → value_at (set_value vs i w) i ≡ w
value_at-set_value no_value i w h = absurd (h refl)
value_at-set_value (item v vs) zero w h = refl
value_at-set_value (item v vs) (suc i) w h = value_at-set_value vs i w h

value_at-set_value_ne :
    (vs : Values) (i j : ℕ) (w : Value) → i ≢ j → value_at (set_value vs i w) j ≡ value_at vs j
value_at-set_value_ne no_value i j w h = refl
value_at-set_value_ne (item v vs) zero zero w h = absurd (h refl)
value_at-set_value_ne (item v vs) zero (suc j) w h = refl
value_at-set_value_ne (item v vs) (suc i) zero w h = refl
value_at-set_value_ne (item v vs) (suc i) (suc j) w h =
    value_at-set_value_ne vs i j w (λ e. h (ap suc e))

next_index-some :
    (o : Option ℕ) (i : ℕ) → next_index o ≡ some i → (j : ℕ) × (o ≡ some j) × (i ≡ suc j)
next_index-some none i h = cc
next_index-some (some j) i h = (j, refl, cc)

-- Two names with one index are one.
index_of-injective :
    (a b : String) (fs : Fields) (i : ℕ) → index_of a fs ≡ some i → index_of b fs ≡ some i → a ≡ b
unfolding index_of
index_of-injective a b no_field i p q = cc
index_of-injective a b (field f fs) i p q = elim (Bool-cases (str_eq (field_name f) a)) [
  | inl ea ↦ elim (Bool-cases (str_eq (field_name f) b)) [
    | inl eb ↦ sym ((eq_iff (field_name f) a).0 ea) ∙ (eq_iff (field_name f) b).0 eb
    | inr eb ↦
        let (j, e, k) = next_index-some (index_of b fs) i (rw eb at q) in
        let first : some 0 ≡ some i = rw ea at p in cc
  ]
  | inr ea ↦ elim (Bool-cases (str_eq (field_name f) b)) [
    | inl eb ↦
        let (j, e, k) = next_index-some (index_of a fs) i (rw ea at p) in
        let first : some 0 ≡ some i = rw eb at q in cc
    | inr eb ↦
        let (j, e, k) = next_index-some (index_of a fs) i (rw ea at p) in
        let (j', e', k') = next_index-some (index_of b fs) i (rw eb at q) in
        index_of-injective a b fs j e (e' ∙ ap some (omega arith))
  ]
]

-- What Get returns behind a name that is there.
found :
    (t : Schema) (vs : Values) (name : String)
    → get t vs name ≢ nil
    → (i : ℕ) × (index_of name (get_fields t) ≡ some i) × (value_at vs i ≢ nil)
unfolding get
found t vs name h = go (index_of name (get_fields t)) refl
  where
    go :
        (o : Option ℕ)
        → index_of name (get_fields t) ≡ o
        → (i : ℕ) × (index_of name (get_fields t) ≡ some i) × (value_at vs i ≢ nil)
    go none e = absurd (h (rw (e, get)))
    go (some i) e = (i, e, λ n. h (rw (e, get) n))

pub get-set_field :
    (t : Schema) (vs : Values) (name : String) (w : Value)
    → get t vs name ≢ nil
    → get t (set_field t vs name w) name ≡ w
unfolding get set_field
get-set_field t vs name w h =
    let (i, e, n) = found t vs name h in rw (e, set_field) (value_at-set_value vs i w n)

pub get-set_field_ne :
    (t : Schema) (vs : Values) (name other : String) (w : Value)
    → name ≢ other
    → get t (set_field t vs name w) other ≡ get t vs other
unfolding get set_field
get-set_field_ne t vs name other w h =
    go (index_of name (get_fields t)) (index_of other (get_fields t)) refl refl
  where
    go :
        (o p : Option ℕ)
        → index_of name (get_fields t) ≡ o
        → index_of other (get_fields t) ≡ p
        → at_index (elim o as (λ _. Values) [ none ↦ vs | some i ↦ set_value vs i w ]) p
          ≡ at_index vs p
    go none p e k = refl
    go (some i) none e k = refl
    go (some i) (some j) e k = value_at-set_value_ne vs i j w (λ (same : i ≡ j).
        h (index_of-injective name other (get_fields t) i e (k ∙ ap some (sym same))))

set_value-value_at : (vs : Values) (i : ℕ) → set_value vs i (value_at vs i) ≡ vs
set_value-value_at no_value i = refl
set_value-value_at (item v vs) zero = refl
set_value-value_at (item v vs) (suc i) = ap (item v) (set_value-value_at vs i)

pub set_field-get :
    (t : Schema) (vs : Values) (name : String) → set_field t vs name (get t vs name) ≡ vs
unfolding set_field get
set_field-get t vs name = go (index_of name (get_fields t))
  where
    go :
        (o : Option ℕ)
        → elim o as (λ _. Values) [ none ↦ vs | some i ↦ set_value vs i (at_index vs o) ] ≡ vs
    go none = refl
    go (some i) = set_value-value_at vs i

-- Distinct names, by their comparison.
pub ne_names : (a b : String) → str_eq a b ≡ false → a ≢ b
ne_names a b h e = let same : str_eq a b ≡ true = (eq_iff a b).1 e in cc
