-- ===== src/Proxy/Wires/Moved.antt =====
-- What arrives, and what a call moves from there to the other side.
use kafka_gcp_proxy.Base.{
  ℕ, zero, suc, ◌≡◌, ◌≢◌, ◌⊎◌, inl, inr, refl, ap, sym, subst, ◌∙◌, true, false, List, [], ◌∷◌,
  ◌++◌, append_assoc, append-nil, deadline_exceeded, length,
}
use kafka_gcp_proxy.Proxy.Wires.{Arrival, byte, late, Wires, one_read, many_reads}

-- All the bytes that arrive, and that no read deadline elapses among them.
abbrev pub bytes_of : List Arrival → List ℕ
bytes_of [] = []
bytes_of (byte b last ∷ xs) = b ∷ bytes_of xs
bytes_of (late ∷ xs) = bytes_of xs

abbrev pub OnTime : List Arrival → Type 0
OnTime [] = Unit {0}
OnTime (byte b last ∷ xs) = OnTime xs
OnTime (late ∷ xs) = ⊥

-- No read deadline elapses, in the end neither.
abbrev pub Punctual : Wires → Type 0
Punctual w = OnTime w.arrivals × (w.ending ≢ deadline_exceeded)

-- From w to v, `ins` were read, the first bytes that arrive, and `outs` were written.
pub record Moved (w v : Wires) (ins outs : List ℕ) : Type 0 where
  pub came : bytes_of w.arrivals ≡ ins ++ bytes_of v.arrivals
  pub on_time : Punctual w → Punctual v
  pub taken : v.taken ≡ w.taken ++ ins
  pub written : v.written ≡ w.written ++ outs

pub Moved-trans :
    (w v u : Wires) (is os is' os' : List ℕ)
    → Moved w v is os
    → Moved v u is' os'
    → Moved w u (is ++ is') (os ++ os')
Moved-trans w v u is os is' os' m n = record {
  came = m.came ∙ ap (λ xs. is ++ xs) n.came ∙ sym (append_assoc is is' (bytes_of u.arrivals));
  on_time = λ p. n.on_time (m.on_time p);
  taken = n.taken ∙ ap (λ xs. xs ++ is') m.taken ∙ append_assoc w.taken is is';
  written = n.written ∙ ap (λ xs. xs ++ os') m.written ∙ append_assoc w.written os os';
}

abbrev pub Still : Wires → Wires → Type 0
Still w v = Moved w v [] []

pub same-Still :
    (w v : Wires)
    → w.arrivals ≡ v.arrivals
    → w.ending ≡ v.ending
    → v.taken ≡ w.taken
    → v.written ≡ w.written
    → Still w v
same-Still w v a n t o = record {
  came = ap bytes_of a;
  on_time = λ p. (subst OnTime a (p.0), λ e. p.1 (n ∙ e));
  taken = t ∙ sym (append-nil w.taken);
  written = o ∙ sym (append-nil w.written);
}

pub many_reads-came :
    (k : ℕ) (xs : List Arrival)
    → bytes_of xs ≡ (many_reads k xs).0 ++ bytes_of ((many_reads k xs).1)
unfolding many_reads
many_reads-came zero xs = refl
many_reads-came (suc k) [] = refl
many_reads-came (suc k) (late ∷ xs) = refl
many_reads-came (suc k) (byte b last ∷ xs) = ap (λ bs. b ∷ bs) (many_reads-came k xs)

pub many_reads-OnTime : (k : ℕ) (xs : List Arrival) → OnTime xs → OnTime ((many_reads k xs).1)
unfolding many_reads
many_reads-OnTime zero xs p = p
many_reads-OnTime (suc k) [] p = p
many_reads-OnTime (suc k) (late ∷ xs) p = p
many_reads-OnTime (suc k) (byte b last ∷ xs) p = many_reads-OnTime k xs p

-- Where none is late, fewer bytes are found only at the end.
pub many_reads-ends :
    (k : ℕ) (xs : List Arrival)
    → OnTime xs
    → (length ((many_reads k xs).0) ≡ k) ⊎ ((many_reads k xs).1 ≡ [])
unfolding many_reads
many_reads-ends zero xs p = inl refl
many_reads-ends (suc k) [] p = inr refl
many_reads-ends (suc k) (late ∷ xs) p = elim p [ ]
many_reads-ends (suc k) (byte b last ∷ xs) p = elim (many_reads-ends k xs p) [
  | inl e ↦ inl (ap suc e)
  | inr e ↦ inr e
]

pub one_read-came :
    (k : ℕ) (xs : List Arrival) → bytes_of xs ≡ (one_read k xs).0 ++ bytes_of ((one_read k xs).1)
unfolding one_read
one_read-came zero xs = refl
one_read-came (suc k) [] = refl
one_read-came (suc k) (late ∷ xs) = refl
one_read-came (suc k) (byte b true ∷ xs) = refl
one_read-came (suc k) (byte b false ∷ xs) = ap (λ bs. b ∷ bs) (one_read-came k xs)

pub one_read-OnTime : (k : ℕ) (xs : List Arrival) → OnTime xs → OnTime ((one_read k xs).1)
unfolding one_read
one_read-OnTime zero xs p = p
one_read-OnTime (suc k) [] p = p
one_read-OnTime (suc k) (late ∷ xs) p = p
one_read-OnTime (suc k) (byte b true ∷ xs) p = p
one_read-OnTime (suc k) (byte b false ∷ xs) p = one_read-OnTime k xs p
