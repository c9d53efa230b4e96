-- ===== src/Proxy/CopyN/Copied.antt =====
-- What myCopyN of proxy/common.go copies, and that it returns.
use kafka_gcp_proxy.Base.{
  ℕ, zero, suc, ◌-◌, ◌≤◌, ◌≡◌, ◌≢◌, refl, ap, sym, subst, ◌∙◌, ℤ, pos, negsuc, Bool, true, false,
  List, [], ◌∷◌, ◌++◌, append-nil, length, length-append, ltb, leb, if◌then◌else◌, arith,
  Bool-cases, inl, inr, ◌==◌, deadline_exceeded,
}
use kafka_gcp_proxy.Proxy.Wires.{
  Arrival, Wires, Exit, done, failed, looping, Io, ◌>>=◌, read, write, one_read, advance,
}
use kafka_gcp_proxy.Proxy.Wires.Moved.{Moved, Moved-trans, Still, same-Still}
use kafka_gcp_proxy.Proxy.Wires.Transfers.{>>=-done, read-done, write-done, done-wires}
use kafka_gcp_proxy.Proxy.CopyN.{read_size, my_copy_n_loop, my_copy_n}

pub read_size-within :
    (buf left : ℕ) → (k : ℕ) × (read_size (suc buf) (suc left) ≡ suc k) × (k ≤ left)
read_size-within buf left = elim (Bool-cases (ltb (suc buf) (suc left))) [
  | inl small ↦ (buf, rw small refl, ground arith)
  | inr large ↦ (left, rw large refl, omega arith)
]

my_copy_n_loop-done :
    (fuel buf left : ℕ) (w v : Wires)
    → my_copy_n_loop fuel (suc buf) left w ≡ done tt v
    → (bs : List ℕ) × Moved w v bs bs × (length bs ≡ left)
unfolding my_copy_n_loop
my_copy_n_loop-done fuel buf zero w v h =
    ([], subst (λ u. Still w u) (done-wires h) (same-Still w w refl refl refl refl), refl)
my_copy_n_loop-done zero buf (suc left) w v h = cc
my_copy_n_loop-done (suc fuel) buf (suc left) w v h =
    let (k, size, within) = read_size-within buf left in
    let (bytes, w1, did_read, h1) = >>=-done (read (read_size (suc buf) (suc left))) _ w h in
    let (nothing, w2, did_write, h2) = >>=-done (write bytes) _ w1 h1 in
    let (got, some_read, at_most) = read-done k w (ap (λ n. read n w) (sym size) ∙ did_read) in
    let (bs, rest, len) = my_copy_n_loop-done fuel buf (suc left - length bytes) w2 v h2 in
    let put : Moved w1 w2 [] bytes = write-done bytes w1 did_write in
    (
      bytes ++ bs,
      subst (λ x. Moved w v (x ++ bs) (bytes ++ bs)) (append-nil bytes)
          (Moved-trans w w2 v (bytes ++ []) bytes bs bs
            (Moved-trans w w1 w2 bytes [] [] bytes got put) rest),
      length-append bytes bs ∙ omega arith,
    )

-- When myCopyN returns without an error, it has read exactly `size` bytes and written just these, in
-- order, for any buffer with room, however the bytes arrive.
pub my_copy_n-Moved :
    (buf : ℕ) (size : ℤ) (w v : Wires)
    → my_copy_n (suc buf) size w ≡ done tt v
    → (bs : List ℕ) × Moved w v bs bs × (size ≡ pos (length bs))
unfolding my_copy_n
my_copy_n-Moved buf (pos n) w v h =
    let (bs, moved, len) = my_copy_n_loop-done n buf n w v h in (bs, moved, ap pos (sym len))
my_copy_n-Moved buf (negsuc n) w v h = cc

bind-looping {ℓ κ} :
    {A : Type ℓ} {B : Type κ} (m : Io A) (f : A → Io B) (w : Wires)
    → m w ≢ looping
    → ((a : A) (v : Wires) → m w ≡ done a v → f a v ≢ looping)
    → (m >>= f) w ≢ looping
bind-looping {A} {B} m f w first rest h = go (m w) refl h
  where
    go :
        (x : Exit A)
        → m w ≡ x
        → (elim x as (λ _. Exit B) [
          | done a v ↦ f a v
          | failed r e v ↦ failed r e v
          | looping ↦ looping
        ])
          ≡ looping
        → ⊥
    go (done a v) e k = rest a v e k
    go (failed r x v) e k = cc
    go looping e k = first e

read-returns : (k : ℕ) (w : Wires) → read k w ≢ looping
unfolding read
read-returns zero w h = cc
read-returns (suc k) w h = go (length ((one_read (suc k) w.arrivals).0) == 0) w.arrivals h
  where
    go :
        (b : Bool) (xs : List Arrival)
        → (if b
            then (elim xs as (λ _. Exit (List ℕ)) [
              | [] ↦ failed true w.ending w
              | y ∷ ys ↦ failed true deadline_exceeded (record w { arrivals = ys })
            ])
            else done ((one_read (suc k) w.arrivals).0) (advance (one_read (suc k) w.arrivals) w))
          ≡ looping
        → ⊥
    go true [] i = cc
    go true (x ∷ xs) i = cc
    go false xs i = cc

write-returns : (bs : List ℕ) (w : Wires) → write bs w ≢ looping
unfolding write
write-returns bs w h = elim (Bool-cases (leb (length bs) w.room)) [ inl fits ↦ cc | inr full ↦ cc ]

my_copy_n_loop-returns :
    (fuel buf left : ℕ) (w : Wires) → left ≤ fuel → my_copy_n_loop fuel (suc buf) left w ≢ looping
unfolding my_copy_n_loop
my_copy_n_loop-returns fuel buf zero w le h = cc
my_copy_n_loop-returns zero buf (suc left) w le h = omega arith
my_copy_n_loop-returns (suc fuel) buf (suc left) w le h =
    let (k, size, within) = read_size-within buf left in
    bind-looping (read (read_size (suc buf) (suc left))) _ w (read-returns _ w)
      (λ bytes v e.
        let (got, positive, most) = read-done k w (ap (λ n. read n w) (sym size) ∙ e) in
        bind-looping (write bytes) _ v (write-returns bytes v) (λ nothing u e'.
          my_copy_n_loop-returns fuel buf (suc left - length bytes) u (omega arith)))
      h

-- myCopyN returns, with an error or without, whatever arrives and whatever the other side takes, for
-- any size, as long as its buffer has room.
pub my_copy_n-returns : (buf : ℕ) (size : ℤ) (w : Wires) → 1 ≤ buf → my_copy_n buf size w ≢ looping
unfolding my_copy_n
my_copy_n-returns (suc buf) (pos n) w le h = my_copy_n_loop-returns n buf n w (omega arith) h
my_copy_n-returns buf (negsuc n) w le h = cc
my_copy_n-returns zero (pos n) w le h = omega arith
