-- ===== src/Proxy/Wires/Transfers.antt =====
-- What a call has read and written by the time it returns without an error.
use kafka_gcp_proxy.Base.{
  ℕ, zero, suc, ◌-◌, ◌≡◌, refl, ap, sym, subst, ◌∙◌, Bool, true, false, List, [], ◌∷◌, ◌++◌,
  append-nil, Error, deadline_exceeded, Result, ok, err, leb, ◌==◌, ◌≤◌, take, failure,
  if◌then◌else◌, length, drop, drop-length, arith,
}
use kafka_gcp_proxy.Proxy.Channel.{Channels}
use kafka_gcp_proxy.Proxy.Wires.{
  Arrival, byte, late, Wires, Exit, done, failed, looping, Io, ◌>>=◌, lift, read_error, advance,
  full_error, one_read, many_reads, read, read_full, copy_n_discard, write, tee, on_channels,
  set_read_deadline, set_write_deadline,
}
use kafka_gcp_proxy.Proxy.Wires.Moved.{
  bytes_of, OnTime, Moved, Still, same-Still, many_reads-came, many_reads-OnTime, one_read-came,
  one_read-OnTime,
}

pub done-value {ℓ} : {A : Type ℓ} {a b : A} {w v : Wires} → done a w ≡ done b v → a ≡ b
done-value h = cc

pub done-wires {ℓ} : {A : Type ℓ} {a b : A} {w v : Wires} → done a w ≡ done b v → w ≡ v
done-wires h = cc

-- done, for a call without a value
abbrev returned : Wires → Exit (Unit {0})
returned w = done tt w

-- What a chain does once its first call has returned.
pub >>=-ok {ℓ κ} :
    {A : Type ℓ} {B : Type κ} (m : Io A) (f : A → Io B) {w v : Wires} {a : A}
    → m w ≡ done a v
    → (m >>= f) w ≡ f a v
>>=-ok {A} {B} m f e =
    ap
      (λ x. elim x as (λ _. Exit B) [
        | done b u ↦ f b u
        | failed r c u ↦ failed r c u
        | looping ↦ looping
      ])
      e

-- A chain that returns has returned at its first call, and then at the rest.
pub >>=-done {ℓ κ} :
    {A : Type ℓ} {B : Type κ} (m : Io A) (f : A → Io B) (w : Wires) {b : B} {u : Wires}
    → (m >>= f) w ≡ done b u
    → (a : A) × (v : Wires) × (m w ≡ done a v) × (f a v ≡ done b u)
>>=-done {A} {B} m f w {b} {u} h = go (m w) refl h
  where
    go :
        (x : Exit A)
        → m w ≡ x
        → (elim x as (λ _. Exit B) [
          | done a v ↦ f a v
          | failed r e v ↦ failed r e v
          | looping ↦ looping
        ])
          ≡ done b u
        → (a : A) × (v : Wires) × (m w ≡ done a v) × (f a v ≡ done b u)
    go (done a v) e k = (a, v, e, k)
    go (failed r x v) e k = cc
    go looping e k = cc

pub read_error-done {ℓ} :
    {A : Type ℓ} (e : Error) (w : Wires) {a : A} {v : Wires} → read_error {A = A} e w ≡ done a v → ⊥
read_error-done {A} e w {a} {v} h = go w.arrivals h
  where
    go :
        (ys : List Arrival)
        → (elim ys as (λ _. Exit A) [
          | [] ↦ failed true e w
          | x ∷ xs ↦ failed true deadline_exceeded (record w { arrivals = xs })
        ])
          ≡ done a v
        → ⊥
    go [] k = cc
    go (x ∷ xs) k = cc

-- A read that has found enough.
found-done {ℓ} :
    {A : Type ℓ} (enough : Bool) (found : List ℕ × List Arrival) (e : Error) (w u : Wires) {a b : A}
    {v : Wires}
    → bytes_of w.arrivals ≡ found.0 ++ bytes_of (found.1)
    → (OnTime w.arrivals → OnTime (found.1))
    → (if enough then done a (advance found w) else read_error e u) ≡ done b v
    → (enough ≡ true) × (a ≡ b) × Moved w v (found.0) []
found-done true found e w u came on_time h = (
  refl,
  done-value h,
  subst (λ x. Moved w x (found.0) []) (done-wires h)
      (record {
        came = came;
        on_time = λ p. (on_time (p.0), p.1);
        taken = refl;
        written = sym (append-nil w.written);
      }),
)
found-done false found e w u came on_time h = elim (read_error-done e u h) [ ]

==-true : (a b : ℕ) → (a == b) ≡ true → a ≡ b
==-true a b h = ground arith

pub read_full-done :
    (n : ℕ) (w : Wires) {bs : List ℕ} {v : Wires}
    → read_full n w ≡ done bs v
    → Moved w v bs [] × (length bs ≡ n)
unfolding read_full
read_full-done n w {bs} {v} h =
    let found : List ℕ × List Arrival = many_reads n w.arrivals in
    let (enough, same, moved) =
      found-done (length (found.0) == n) found (full_error (length (found.0)) w.ending) w
        (advance found w) (many_reads-came n w.arrivals) (many_reads-OnTime n w.arrivals) h in
    (
      subst (λ x. Moved w v x []) same moved,
      ap length (sym same) ∙ ==-true (length (found.0)) n enough,
    )

pub copy_n_discard-done :
    (n : ℕ) (w : Wires) {v : Wires}
    → copy_n_discard n w ≡ done tt v
    → (bs : List ℕ) × Moved w v bs [] × (length bs ≡ n)
unfolding copy_n_discard
copy_n_discard-done n w {v} h =
    let found : List ℕ × List Arrival = many_reads n w.arrivals in
    let (enough, same, moved) =
      found-done (length (found.0) == n) found w.ending w (advance found w)
        (many_reads-came n w.arrivals) (many_reads-OnTime n w.arrivals) h in
    (found.0, moved, ==-true (length (found.0)) n enough)

one_read-le : (k : ℕ) (xs : List Arrival) → length ((one_read k xs).0) ≤ k
unfolding one_read
one_read-le zero xs = omega arith
one_read-le (suc k) [] = omega arith
one_read-le (suc k) (late ∷ xs) = omega arith
one_read-le (suc k) (byte b true ∷ xs) = omega arith
one_read-le (suc k) (byte b false ∷ xs) = let shorter = one_read-le k xs in omega arith

pub read-done :
    (k : ℕ) (w : Wires) {bs : List ℕ} {v : Wires}
    → read (suc k) w ≡ done bs v
    → Moved w v bs [] × (1 ≤ length bs) × (length bs ≤ suc k)
unfolding read
read-done k w {bs} {v} h =
    let found : List ℕ × List Arrival = one_read (suc k) w.arrivals in
    go (length (found.0) == 0) refl h
  where
    go :
        (none_found : Bool)
        → (length ((one_read (suc k) w.arrivals).0) == 0) ≡ none_found
        → (if none_found
            then read_error w.ending w
            else done ((one_read (suc k) w.arrivals).0) (advance (one_read (suc k) w.arrivals) w))
          ≡ done bs v
        → Moved w v bs [] × (1 ≤ length bs) × (length bs ≤ suc k)
    go true e i = elim (read_error-done w.ending w i) [ ]
    go false e i =
        let same : (one_read (suc k) w.arrivals).0 ≡ bs = done-value i in
        let le = one_read-le (suc k) w.arrivals in
        let positive : 1 ≤ length ((one_read (suc k) w.arrivals).0) = ground arith in
        (
          subst (λ x. Moved w v x []) same
              (subst (λ u. Moved w u ((one_read (suc k) w.arrivals).0) []) (done-wires i)
                (record {
                  came = one_read-came (suc k) w.arrivals;
                  on_time = λ p. (one_read-OnTime (suc k) w.arrivals (p.0), p.1);
                  taken = refl;
                  written = sym (append-nil w.written);
                })),
          subst (λ (x : List ℕ). 1 ≤ length x) same positive,
          subst (λ (x : List ℕ). length x ≤ suc k) same le,
        )

pub write-done : (bs : List ℕ) (w : Wires) {v : Wires} → write bs w ≡ done tt v → Moved w v [] bs
unfolding write
write-done bs w {v} h = go (leb (length bs) w.room) h
  where
    go :
        (fits : Bool)
        → (if fits
            then done tt (record w { written = w.written ++ bs; room = w.room - length bs })
            else failed false w.broken
                (record w { written = w.written ++ take w.room bs; room = 0 }))
          ≡ returned v
        → Moved w v [] bs
    go true k =
        subst (λ u. Moved w u [] bs) (done-wires k)
          (record {
            came = refl;
            on_time = λ p. p;
            taken = sym (append-nil w.taken);
            written = refl;
          })
    go false k = cc

pub tee-done {ℓ} :
    {A : Type ℓ} (m : Io A) (w : Wires) {a : A} {bs : List ℕ} {v : Wires}
    → tee m w ≡ done (a, bs) v
    → (m w ≡ done a v) × (bs ≡ drop (length w.taken) v.taken)
unfolding tee
tee-done {A} m w {a} {bs} {v} h = go (m w) refl h
  where
    go :
        (x : Exit A)
        → m w ≡ x
        → (elim x as (λ _. Exit (A × List ℕ)) [
          | done b u ↦ done (b, drop (length w.taken) u.taken) u
          | failed r e u ↦ failed r e u
          | looping ↦ looping
        ])
          ≡ done (a, bs) v
        → (m w ≡ done a v) × (bs ≡ drop (length w.taken) v.taken)
    go (done b u) e k = (
      e ∙ cc,
      ap (λ (p : A × List ℕ). p.1) (sym (done-value k))
          ∙ ap (λ (x : Wires). drop (length w.taken) x.taken) (done-wires k),
    )
    go (failed r x u) e k = cc
    go looping e k = cc

-- What a tee hands on is what was read through it.
pub tee-Moved {ℓ} :
    {A : Type ℓ} (m : Io A) (w : Wires) {a : A} {bs : List ℕ} {v : Wires}
    → tee m w ≡ done (a, bs) v
    → (is : List ℕ) → Moved w v is []
    → bs ≡ is
tee-Moved m w h is moved =
    (tee-done m w h).1 ∙ ap (λ xs. drop (length w.taken) xs) moved.taken ∙ drop-length w.taken is

pub on_channels-done {ℓ} :
    {A : Type ℓ} (r : Bool) (f : Channels → Result (A × Channels)) (w : Wires) {a : A} {v : Wires}
    → on_channels r f w ≡ done a v
    → Still w v
unfolding on_channels
on_channels-done {A} r f w {a} {v} h = go (f w.channels) h
  where
    go :
        (x : Result (A × Channels))
        → (elim x as (λ _. Exit A) [
          | ok (b, c) ↦ done b (record w { channels = c })
          | err e ↦ failed r e w
        ])
          ≡ done a v
        → Still w v
    go (ok (b, c)) k =
        subst (λ u. Still w u) (done-wires k)
          (same-Still w (record w { channels = c }) refl refl refl refl)
    go (err e) k = cc

pub set_read_deadline-done :
    (r : Bool) (t : ℕ) (w : Wires) {v : Wires} → set_read_deadline r t w ≡ done tt v → Still w v
unfolding set_read_deadline
set_read_deadline-done r t w {v} h = go w.closed h
  where
    go :
        (b : Bool)
        → (if b
            then failed r (failure "use of closed network connection") w
            else done tt (record w { read_deadline = t }))
          ≡ returned v
        → Still w v
    go true k = cc
    go false k =
        subst (λ u. Still w u) (done-wires k)
          (same-Still w (record w { read_deadline = t }) refl refl refl refl)

pub set_write_deadline-done :
    (r : Bool) (t : ℕ) (w : Wires) {v : Wires} → set_write_deadline r t w ≡ done tt v → Still w v
unfolding set_write_deadline
set_write_deadline-done r t w {v} h = go w.closed h
  where
    go :
        (b : Bool)
        → (if b
            then failed r (failure "use of closed network connection") w
            else done tt (record w { write_deadline = t }))
          ≡ returned v
        → Still w v
    go true k = cc
    go false k =
        subst (λ u. Still w u) (done-wires k)
          (same-Still w (record w { write_deadline = t }) refl refl refl refl)

pub lift-done {ℓ} :
    {A : Type ℓ} (r : Bool) (x : Result A) (w : Wires) {a : A} {v : Wires}
    → lift r x w ≡ done a v
    → (x ≡ ok a) × (w ≡ v)
lift-done r (ok b) w h = (ap ok (done-value h), done-wires h)
lift-done r (err e) w h = cc
