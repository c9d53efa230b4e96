-- ===== src/Proxy/Wires/Kept.antt =====
-- The calls on the wires that leave the channels of the processor alone.
use kafka_gcp_proxy.Base.{
  ℕ, zero, suc, ◌≡◌, ap, ◌∙◌, Bool, true, false, Bool-cases, inl, inr, List, Error, Result, length,
  ◌==◌, if◌then◌else◌, leb,
}
use kafka_gcp_proxy.Proxy.Wires.{
  Wires, done, Io, ◌>>=◌, pure, fail, skip, lift, reject_if, set_read_deadline, set_write_deadline,
  one_read, many_reads, advance, full_error, read, read_full, copy_n_discard, write, tee,
}
use kafka_gcp_proxy.Proxy.Wires.Transfers.{
  >>=-done, done-wires, lift-done, tee-done, read_error-done,
}

abbrev pub Keeps {ℓ} : {A : Type ℓ} → Io A → Type ℓ
Keeps {A} m = (w : Wires) (a : A) (v : Wires) → m w ≡ done a v → w.channels ≡ v.channels

pub bind-Keeps {ℓ κ} :
    {A : Type ℓ} {B : Type κ} (m : Io A) (f : A → Io B)
    → Keeps m
    → ((a : A) → Keeps (f a))
    → Keeps (m >>= f)
bind-Keeps m f p q w b u h = let (a, v, e, k) = >>=-done m f w h in p w a v e ∙ q a v b u k

pub if-Keeps {ℓ} :
    {A : Type ℓ} (b : Bool) (m k : Io A) → Keeps m → Keeps k → Keeps (if b then m else k)
if-Keeps true m k p q = p
if-Keeps false m k p q = q

pub pure-Keeps {ℓ} : {A : Type ℓ} (a : A) → Keeps (pure a)
pure-Keeps a w b v h = ap (λ (u : Wires). u.channels) (done-wires h)

pub fail-Keeps {ℓ} : {A : Type ℓ} (r : Bool) (e : Error) → Keeps (fail {A = A} r e)
fail-Keeps r e w a v h = cc

pub lift-Keeps {ℓ} : {A : Type ℓ} (r : Bool) (x : Result A) → Keeps (lift r x)
lift-Keeps r x w a v h = ap (λ (u : Wires). u.channels) ((lift-done r x w h).1)

pub reject_if-Keeps : (b : Bool) (e : Error) → Keeps (reject_if b e)
unfolding reject_if
reject_if-Keeps b e = if-Keeps b (fail true e) skip (fail-Keeps true e) (pure-Keeps tt)

pub set_read_deadline-Keeps : (r : Bool) (t : ℕ) → Keeps (set_read_deadline r t)
unfolding set_read_deadline
set_read_deadline-Keeps r t w a v h = elim (Bool-cases w.closed) [
  | inl e ↦ let clash = rw e at h in cc
  | inr e ↦ ap (λ (u : Wires). u.channels) (done-wires (rw e at h))
]

pub set_write_deadline-Keeps : (r : Bool) (t : ℕ) → Keeps (set_write_deadline r t)
unfolding set_write_deadline
set_write_deadline-Keeps r t w a v h = elim (Bool-cases w.closed) [
  | inl e ↦ let clash = rw e at h in cc
  | inr e ↦ ap (λ (u : Wires). u.channels) (done-wires (rw e at h))
]

pub read_full-Keeps : (n : ℕ) → Keeps (read_full n)
unfolding read_full
read_full-Keeps n w bs v h = elim (Bool-cases (length ((many_reads n w.arrivals).0) == n)) [
  | inl e ↦ ap (λ (u : Wires). u.channels) (done-wires (rw e at h))
  | inr e ↦
      elim (read_error-done (full_error (length ((many_reads n w.arrivals).0)) w.ending)
        (advance (many_reads n w.arrivals) w) (rw e at h)) [ ]
]

pub copy_n_discard-Keeps : (n : ℕ) → Keeps (copy_n_discard n)
unfolding copy_n_discard
copy_n_discard-Keeps n w a v h = elim (Bool-cases (length ((many_reads n w.arrivals).0) == n)) [
  | inl e ↦ ap (λ (u : Wires). u.channels) (done-wires (rw e at h))
  | inr e ↦ elim (read_error-done w.ending (advance (many_reads n w.arrivals) w) (rw e at h)) [ ]
]

pub read-Keeps : (n : ℕ) → Keeps (read n)
unfolding read
read-Keeps zero w bs v h = ap (λ (u : Wires). u.channels) (done-wires h)
read-Keeps (suc k) w bs v h = elim (Bool-cases (length ((one_read (suc k) w.arrivals).0) == 0)) [
  | inl e ↦ elim (read_error-done w.ending w (rw e at h)) [ ]
  | inr e ↦ ap (λ (u : Wires). u.channels) (done-wires (rw e at h))
]

pub write-Keeps : (bs : List ℕ) → Keeps (write bs)
unfolding write
write-Keeps bs w a v h = elim (Bool-cases (leb (length bs) w.room)) [
  | inl e ↦ ap (λ (u : Wires). u.channels) (done-wires (rw e at h))
  | inr e ↦ let clash = rw e at h in cc
]

pub tee-Keeps {ℓ} : {A : Type ℓ} (m : Io A) → Keeps m → Keeps (tee m)
tee-Keeps m p w (a, bs) v h = p w a v ((tee-done m w h).0)
