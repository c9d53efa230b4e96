-- ===== src/Proxy/Wires/Flows.antt =====
-- Calls that only read, that only write, or that write what they read, and chains of such calls.
use kafka_gcp_proxy.Base.{
  ℕ, ◌≡◌, refl, sym, subst, Bool, true, false, List, [], ◌++◌, append-nil, Error, Result,
  if◌then◌else◌,
}
use kafka_gcp_proxy.Proxy.Channel.{Channels}
use kafka_gcp_proxy.Proxy.Wires.{
  Wires, done, Io, ◌>>=◌, pure, fail, lift, skip, reject_if, read_full, copy_n_discard, write, tee,
  on_channels, set_read_deadline, set_write_deadline,
}
use kafka_gcp_proxy.Proxy.Wires.Moved.{Moved, Moved-trans, Still, same-Still}
use kafka_gcp_proxy.Proxy.Wires.Transfers.{
  done-wires, >>=-done, read_full-done, copy_n_discard-done, write-done, tee-done, tee-Moved,
  on_channels-done, set_read_deadline-done, set_write_deadline-done, lift-done,
}

-- What is read and written by a call that returns stand in this relation.
abbrev pub Flows {ℓ} : {A : Type ℓ} → (List ℕ → List ℕ → Type 0) → Io A → Type ℓ
Flows {A} R m =
    (w : Wires) (a : A) (v : Wires)
    → m w ≡ done a v
    → (ins : List ℕ) × (outs : List ℕ) × R ins outs × Moved w v ins outs

abbrev pub Reads {ℓ} : {A : Type ℓ} → Io A → Type ℓ
Reads m = Flows (λ ins outs. outs ≡ []) m

abbrev pub Writes {ℓ} : {A : Type ℓ} → Io A → Type ℓ
Writes m = Flows (λ ins outs. ins ≡ []) m

abbrev pub Stays {ℓ} : {A : Type ℓ} → Io A → Type ℓ
Stays {A} m = (w : Wires) (a : A) (v : Wires) → m w ≡ done a v → Still w v

pub record Closed (R : List ℕ → List ℕ → Type 0) : Type 0 where
  pub unit : R [] []
  pub plus : (is os is' os' : List ℕ) → R is os → R is' os' → R (is ++ is') (os ++ os')

pub reads-Closed : Closed (λ ins outs. outs ≡ [])
reads-Closed = record { unit = refl; plus = λ is os is' os' p q. rw (p, q) refl }

pub writes-Closed : Closed (λ ins outs. ins ≡ [])
writes-Closed = record { unit = refl; plus = λ is os is' os' p q. rw (p, q) refl }

module _ {R : List ℕ → List ℕ → Type 0} (closed : Closed R) where
  pub Stays-Flows {ℓ} : {A : Type ℓ} (m : Io A) → Stays m → Flows R m
  Stays-Flows m s w a v h = ([], [], closed.unit, s w a v h)

  pub bind-Flows {ℓ κ} :
      {A : Type ℓ} {B : Type κ} (m : Io A) (f : A → Io B)
      → Flows R m
      → ((a : A) → Flows R (f a))
      → Flows R (m >>= f)
  bind-Flows m f p q w b u h =
      let (a, v, e, k) = >>=-done m f w h in
      let (is, os, r, moved) = p w a v e in
      let (is', os', r', moved') = q a v b u k in
      (
        is ++ is',
        os ++ os',
        closed.plus is os is' os' r r',
        Moved-trans w v u is os is' os' moved moved',
      )

pub bind-Stays {ℓ κ} :
    {A : Type ℓ} {B : Type κ} (m : Io A) (f : A → Io B)
    → Stays m
    → ((a : A) → Stays (f a))
    → Stays (m >>= f)
bind-Stays m f p q w b u h =
    let (a, v, e, k) = >>=-done m f w h in Moved-trans w v u [] [] [] [] (p w a v e) (q a v b u k)

pub if-Flows {ℓ} :
    {A : Type ℓ} {R : List ℕ → List ℕ → Type 0} (b : Bool) (m k : Io A)
    → Flows R m
    → Flows R k
    → Flows R (if b then m else k)
if-Flows true m k p q = p
if-Flows false m k p q = q

pub if-Stays {ℓ} :
    {A : Type ℓ} (b : Bool) (m k : Io A) → Stays m → Stays k → Stays (if b then m else k)
if-Stays true m k p q = p
if-Stays false m k p q = q

pub pure-Stays {ℓ} : {A : Type ℓ} (a : A) → Stays (pure a)
pure-Stays a w b v h = subst (λ u. Still w u) (done-wires h) (same-Still w w refl refl refl refl)

pub fail-Flows {ℓ} :
    {A : Type ℓ} {R : List ℕ → List ℕ → Type 0} (r : Bool) (e : Error) → Flows R (fail {A = A} r e)
fail-Flows r e w a v h = cc

pub fail-Stays {ℓ} : {A : Type ℓ} (r : Bool) (e : Error) → Stays (fail {A = A} r e)
fail-Stays r e w a v h = cc

pub reject_if-Stays : (b : Bool) (e : Error) → Stays (reject_if b e)
unfolding reject_if
reject_if-Stays b e = if-Stays b (fail true e) skip (fail-Stays true e) (pure-Stays tt)

pub lift-Stays {ℓ} : {A : Type ℓ} (r : Bool) (x : Result A) → Stays (lift r x)
lift-Stays r x w a v h =
    subst (λ u. Still w u) ((lift-done r x w h).1) (same-Still w w refl refl refl refl)

pub read_full-Reads : (n : ℕ) → Reads (read_full n)
read_full-Reads n w bs v h = (bs, [], refl, (read_full-done n w h).0)

pub copy_n_discard-Reads : (n : ℕ) → Reads (copy_n_discard n)
copy_n_discard-Reads n w tt v h =
    let (bs, moved, len) = copy_n_discard-done n w h in (bs, [], refl, moved)

pub write-Writes : (bs : List ℕ) → Writes (write bs)
write-Writes bs w tt v h = ([], bs, refl, write-done bs w h)

pub on_channels-Stays {ℓ} :
    {A : Type ℓ} (r : Bool) (f : Channels → Result (A × Channels)) → Stays (on_channels r f)
on_channels-Stays r f w a v h = on_channels-done r f w h

pub set_read_deadline-Stays : (r : Bool) (t : ℕ) → Stays (set_read_deadline r t)
set_read_deadline-Stays r t w tt v h = set_read_deadline-done r t w h

pub set_write_deadline-Stays : (r : Bool) (t : ℕ) → Stays (set_write_deadline r t)
set_write_deadline-Stays r t w tt v h = set_write_deadline-done r t w h

-- What is handed on by a tee of a call that reads is what it has read.
pub tee-Reads {ℓ} :
    {A : Type ℓ} (m : Io A) (w v : Wires) {a : A} {bs : List ℕ}
    → Reads m
    → tee m w ≡ done (a, bs) v
    → Moved w v bs []
tee-Reads m w v {a} {bs} p h =
    let (is, os, none_out, moved) = p w a v ((tee-done m w h).0) in
    let only : Moved w v is [] = subst (λ x. Moved w v is x) none_out moved in
    subst (λ x. Moved w v x []) (sym (tee-Moved m w h is only)) only

-- Two calls after one another.
pub both :
    {w v u : Wires} {is os is' os' : List ℕ}
    → Moved w v is os
    → Moved v u is' os'
    → Moved w u (is ++ is') (os ++ os')
both {w} {v} {u} {is} {os} {is'} {os'} m n = Moved-trans w v u is os is' os' m n

pub then-Still : {w v u : Wires} {is os : List ℕ} → Moved w v is os → Still v u → Moved w u is os
then-Still {w} {v} {u} {is} {os} m n =
    subst (λ x. Moved w u x os) (append-nil is)
      (subst (λ x. Moved w u (is ++ []) x) (append-nil os) (both m n))
