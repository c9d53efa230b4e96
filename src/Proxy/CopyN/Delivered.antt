-- ===== src/Proxy/CopyN/Delivered.antt =====
-- myCopyN of proxy/common.go, io.ReadFull and io.CopyN where all the bytes asked for arrive.
use kafka_gcp_proxy.Base.{
  ℕ, ◌-◌, ◌≤◌, ◌≡◌, refl, true, List, [], ◌∷◌, ◌++◌, length, leb, arith, ◌==◌, ==_refl,
}
use kafka_gcp_proxy.Proxy.Wires.{
  Arrival, byte, late, Wires, done, write, many_reads, read_full, copy_n_discard,
}

-- The arrivals start with these bytes, in reads of any lengths, and `rest` comes behind them.
abbrev pub Delivers : List Arrival → List ℕ → List Arrival → Type 0
Delivers xs [] rest = xs ≡ rest
Delivers (byte a last ∷ xs) (b ∷ bs) rest = (a ≡ b) × Delivers xs bs rest
Delivers _ (b ∷ bs) rest = ⊥

abbrev pub received : List ℕ → List Arrival → Wires → Wires
received bs rest w = record w { arrivals = rest; taken = w.taken ++ bs }

abbrev pub sent : List ℕ → Wires → Wires
sent bs w = record w { written = w.written ++ bs; room = w.room - length bs }

many_reads-delivered :
    (xs : List Arrival) (bs : List ℕ) (rest : List Arrival)
    → Delivers xs bs rest
    → many_reads (length bs) xs ≡ (bs, rest)
unfolding many_reads
many_reads-delivered xs [] rest d = rw d refl
many_reads-delivered (byte a last ∷ xs) (b ∷ bs) rest (e, d) =
    rw (many_reads-delivered xs bs rest d, e) refl
many_reads-delivered [] (b ∷ bs) rest d = elim d [ ]
many_reads-delivered (late ∷ xs) (b ∷ bs) rest d = elim d [ ]

module _ (w : Wires) (bs : List ℕ) (rest : List Arrival) (d : Delivers w.arrivals bs rest) where
  pub read_full-delivered : read_full (length bs) w ≡ done bs (received bs rest w)
  unfolding read_full
  read_full-delivered =
      let found : many_reads (length bs) w.arrivals ≡ (bs, rest) =
        many_reads-delivered w.arrivals bs rest d in
      let enough : (length bs == length bs) ≡ true = ==_refl (length bs) refl in
      rw (found, enough) refl

  pub copy_n_discard-delivered : copy_n_discard (length bs) w ≡ done tt (received bs rest w)
  unfolding copy_n_discard
  copy_n_discard-delivered =
      let found : many_reads (length bs) w.arrivals ≡ (bs, rest) =
        many_reads-delivered w.arrivals bs rest d in
      let enough : (length bs == length bs) ≡ true = ==_refl (length bs) refl in
      rw (found, enough) refl

pub write-room : (bs : List ℕ) (w : Wires) → length bs ≤ w.room → write bs w ≡ done tt (sent bs w)
unfolding write
write-room bs w le = let fits : leb (length bs) w.room ≡ true = ground arith in rw fits refl

-- The bytes copied.
abbrev pub copied : List ℕ → List Arrival → Wires → Wires
copied bs rest w = sent bs (received bs rest w)
