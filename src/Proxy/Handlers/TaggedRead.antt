-- ===== src/Proxy/Handlers/TaggedRead.antt =====
-- What MaybeRead of proxy/protocol/response_header.go reads.
use kafka_gcp_proxy.Base.{
  ℕ, zero, suc, ◌+◌, ◌*◌, ◌%◌, ◌≡◌, inl, inr, refl, ap, sym, subst, ◌∙◌, ℤ, pos, half64, leb_ℤ,
  Bool, true, false, ◌&&◌, List, [], ◌∷◌, ◌++◌, Error, ◌==◌, ltb, if◌then◌else◌, Bool-cases, arith,
}
use kafka_gcp_proxy.Protocol.Varint.{value, u64_mod, uvarint_loop, uvarint}
use kafka_gcp_proxy.Proxy.Wires.{
  Wires, Exit, done, failed, looping, Io, ◌>>=◌, pure, fail, read, tee,
}
use kafka_gcp_proxy.Proxy.Wires.Moved.{Moved}
use kafka_gcp_proxy.Proxy.Wires.Transfers.{
  >>=-done, read-done, copy_n_discard-done, done-value, done-wires, tee-done, tee-Moved,
}
use kafka_gcp_proxy.Proxy.Wires.Flows.{pure-Stays, both}
use kafka_gcp_proxy.Proxy.Handlers.TaggedFields.{
  one_byte, read_byte, inside, map_error, read_uvarint_loop, read_uvarint, wrap, discard_data,
  read_tagged_fields, loop_bound, maybe_read,
}
use kafka_gcp_proxy.Proxy.Handlers.TaggedGrammar.{IsVarint, IsData, AreFields, AreCounted, IsTagged}

-- The call writes nothing, and what it returns stands in this relation to what it has read.
abbrev Parses {ℓ} : {A : Type ℓ} → Io A → (A → List ℕ → Type 0) → Type ℓ
Parses {A} m P =
    (w : Wires) (a : A) (v : Wires) → m w ≡ done a v → (ins : List ℕ) × P a ins × Moved w v ins []

map_error-Parses {ℓ} :
    {A : Type ℓ} (P : A → List ℕ → Type 0) (f : Error → Error) (m : Io A)
    → Parses m P
    → Parses (map_error f m) P
map_error-Parses {A} P f m p w a v h = go (m w) refl h
  where
    go :
        (x : Exit A)
        → m w ≡ x
        → (elim x as (λ _. Exit A) [
          | done b u ↦ done b u
          | failed r e u ↦ failed r (f e) u
          | looping ↦ looping
        ])
          ≡ done a v
        → (ins : List ℕ) × P a ins × Moved w v ins []
    go (done b u) e k = p w a v (e ∙ k)
    go (failed r x u) e k = cc
    go looping e k = cc

pure-Parses {ℓ} : {A : Type ℓ} (P : A → List ℕ → Type 0) (x : A) → P x [] → Parses (pure x) P
pure-Parses P x p w a v h = ([], subst (λ y. P y []) (done-value h) p, pure-Stays x w a v h)

IsByte : ℕ → List ℕ → Type 0
IsByte b bs = bs ≡ b ∷ []

read_byte-Parses : Parses read_byte IsByte
unfolding read_byte IsByte
read_byte-Parses w b v h =
    let (bs, u, e, k) = >>=-done (read 1) _ w h in
    let (only, same) = go bs u k in
    (bs, only, subst (λ x. Moved w x bs []) same ((read-done 0 w e).0))
  where
    go : (bs : List ℕ) (u : Wires) → one_byte bs u ≡ done b v → (bs ≡ b ∷ []) × (u ≡ v)
    go [] u k = cc
    go (c ∷ []) u k = (ap (λ x. x ∷ []) (done-value k), done-wires k)
    go (c ∷ d ∷ bs) u k = cc

-- A varint of which `left` bytes at most are still to come.
IsLoop : ℕ → ℕ → ℕ → ℕ → List ℕ → Type 0
IsLoop left x unit n bs = (rest : List ℕ) → uvarint_loop left x unit (bs ++ rest) ≡ value n rest

-- What follows a byte of a varint.
behind_byte-Parses :
    (left x unit b : ℕ) (more : Io ℕ) (e : Error)
    → Parses more (IsLoop left ((x + b % 128 * unit) % u64_mod) (unit * 128))
    → Parses
        (if ltb b 128
          then (if left == 0 && ltb 1 b then fail true e else pure ((x + b * unit) % u64_mod))
          else more)
        (λ n ins. IsLoop (suc left) x unit n (b ∷ ins))
unfolding IsLoop uvarint_loop
behind_byte-Parses left x unit b more e p w n v h = elim (Bool-cases (ltb b 128)) [
  | inr long ↦
      let (ins, parsed, moved) = p w n v (rw long at h) in
      (ins, (λ rest. rw long (parsed rest)), moved)
  | inl last ↦ elim (Bool-cases (left == 0 && ltb 1 b)) [
    | inl over ↦ let clash = rw (last, over) at h in cc
    | inr fits ↦
        let given : pure ((x + b * unit) % u64_mod) w ≡ done n v = rw (last, fits) at h in
        (
          [],
          (λ rest. rw (last, fits) (ap (λ z. value z rest) (done-value given))),
          pure-Stays ((x + b * unit) % u64_mod) w n v given,
        )
  ]
]

read_uvarint_loop-Parses :
    (left x unit : ℕ) → Parses (read_uvarint_loop left x unit) (IsLoop left x unit)
unfolding read_uvarint_loop IsByte
read_uvarint_loop-Parses zero x unit w n v h = cc
read_uvarint_loop-Parses (suc left) x unit w n v h =
    let (b, u, eb, k) =
      >>=-done (if left == 9 then read_byte else map_error inside read_byte) _ w h in
    let (bs, one, first) = byte (left == 9) w b u eb in
    let (ins, parsed, moved) =
      behind_byte-Parses left x unit b _ _ (read_uvarint_loop-Parses left _ _) u n v k in
    (b ∷ ins, parsed, both (subst (λ x. Moved w u x []) one first) moved)
  where
    byte : (c : Bool) → Parses (if c then read_byte else map_error inside read_byte) IsByte
    byte true = read_byte-Parses
    byte false = map_error-Parses IsByte inside read_byte read_byte-Parses

read_uvarint-Parses : Parses read_uvarint IsVarint
unfolding read_uvarint uvarint IsLoop
read_uvarint-Parses = read_uvarint_loop-Parses 10 0 1

IsVarint-Parses : (f : Error → Error) → Parses (map_error f read_uvarint) IsVarint
IsVarint-Parses f = map_error-Parses IsVarint f read_uvarint read_uvarint-Parses

discard_data-Parses : (size : ℕ) → Parses (discard_data size) (λ t. IsData size)
discard_data-Parses size w t v h = elim (Bool-cases (size == 0)) [
  | inl none ↦
      let empty : size ≡ 0 = ground arith in
      pure-Parses (λ t. IsData size) tt (inl (ground arith, sym empty)) w t v (rw none at h)
  | inr some ↦ elim (Bool-cases (ltb size half64)) [
    | inr long ↦ pure-Parses (λ t. IsData size) tt (inr (long, refl)) w t v (rw (some, long) at h)
    | inl fits ↦
        let (bs, moved, len) = copy_n_discard-done size w (rw (some, fits) at h) in
        (bs, inl (fits, len), moved)
  ]
]

read_tagged_fields-Parses : (count : ℕ) → Parses (read_tagged_fields count) (λ t. AreFields count)
unfolding read_tagged_fields
read_tagged_fields-Parses zero w t v h = pure-Parses (λ t. AreFields 0) tt refl w t v h
read_tagged_fields-Parses (suc count) w t v h =
    let (tag, w1, e1, h1) = >>=-done (map_error _ read_uvarint) _ w h in
    let (size, w2, e2, h2) = >>=-done (map_error _ read_uvarint) _ w1 h1 in
    let (t3, w3, e3, h3) = >>=-done (map_error _ (discard_data size)) _ w2 h2 in
    let (ts, is_tag, m1) = IsVarint-Parses _ w tag w1 e1 in
    let (ss, is_size, m2) = IsVarint-Parses _ w1 size w2 e2 in
    let (ds, is_data, m3) =
      map_error-Parses (λ t. IsData size) _ (discard_data size) (discard_data-Parses size) w2 t3 w3
        e3 in
    let (gs, fields, m4) = read_tagged_fields-Parses count w3 t v h3 in
    (
      (ts ++ (ss ++ ds)) ++ gs,
      (ts ++ (ss ++ ds), gs, (tag, size, ts, ss, ds, is_tag, is_size, is_data, refl), fields, refl),
      both (both m1 (both m2 m3)) m4,
    )

loop_bound-Parses :
    (count : ℕ) → Parses (read_tagged_fields (loop_bound count)) (λ t. AreCounted count)
loop_bound-Parses count w t v h = elim (Bool-cases (ltb count half64)) [
  | inl fits ↦
      let (bs, fields, moved) = read_tagged_fields-Parses count w t v (rw fits at h) in
      (bs, inl (fits, fields), moved)
  | inr long ↦
      let (bs, fields, moved) = read_tagged_fields-Parses 0 w t v (rw long at h) in
      (bs, inr (long, fields), moved)
]

-- The number of the fields and the fields.
IsCounted : List ℕ → Type 0
IsCounted bs =
    (count : ℕ) × (cs : List ℕ) × (fs : List ℕ) × IsVarint count cs
    × AreCounted count fs
    × (bs ≡ cs ++ fs)

counted : Io (Unit {0})
counted = wrap "error while reading tagged field numTaggedFields" read_uvarint >>= λ count.
    read_tagged_fields (loop_bound count)

counted-Parses : Parses counted (λ t. IsCounted)
unfolding counted IsCounted
counted-Parses w t v h =
    let (count, u, e, k) = >>=-done (map_error _ read_uvarint) _ w h in
    let (cs, is_count, m1) = IsVarint-Parses _ w count u e in
    let (fs, fields, m2) = loop_bound-Parses count u t v k in
    (cs ++ fs, (count, cs, fs, is_count, fields, refl), both m1 m2)

-- What MaybeRead returns is what it has read, and that is the tagged fields of a header of the version.
pub maybe_read-read :
    (version : ℤ) (w v : Wires) (tagged : List ℕ)
    → maybe_read version w ≡ done tagged v
    → Moved w v tagged [] × IsTagged version tagged
unfolding maybe_read counted IsCounted
maybe_read-read version w v tagged h = elim (Bool-cases (leb_ℤ (pos 1) version)) [
  | inr old ↦
      let returned : pure [] w ≡ done tagged v = rw old at h in
      (
        subst (λ x. Moved w v x []) (done-value returned) (pure-Stays [] w tagged v returned),
        inl (old, sym (done-value returned)),
      )
  | inl flexible ↦
      let ((t, teed), u, e, k) = >>=-done (tee counted) _ w (rw flexible at h) in
      let (ran, copied) = tee-done counted w e in
      let (ins, fields, moved) = counted-Parses w t u ran in
      let same : ins ≡ tagged = sym (tee-Moved counted w e ins moved) ∙ done-value k in
      (
        subst (λ x. Moved w v x []) same (subst (λ x. Moved w x ins []) (done-wires k) moved),
        subst (IsTagged version) same (inr (flexible, fields)),
      )
]
