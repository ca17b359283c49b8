-- ===== src/Gorilla/Step.antt =====
-- One sample through the writer and the reader.
use Prim.Native.Nat.{bit_xor}
use tyrdbs.Prelude.{
  ℕ, ◌+◌, ◌%◌, ◌^◌, ◌<◌, ◌≡◌, ◌≢◌, refl, sym, ap, ◌∙◌, inl, inr, true, false, some, List, ◌++◌,
  append_assoc, arith, ◌==◌, ==_iff, Bool-cases,
}
use tyrdbs.Prelude.Bits.{bit_xor_comm, bit_xor_cancel, bit_xor-lt}
use tyrdbs.Prelude.Words.{add64, sub64}
use tyrdbs.BitStream.{BitWriter, BitReader}
use tyrdbs.BitStream.Write.{IsAligned}
use tyrdbs.BitStream.Read.{IsReady, remaining}
use tyrdbs.Gorilla.{
  GorillaWriter, GorillaReader, write_encoded, write_timestamp, write_nibbles, write_xor,
  write_value, write_sample, read_encoded, load_next_timestamp, load_next_value, load_xor, next,
  value_of,
}
use tyrdbs.Gorilla.Codec.{Appends, Appends-trans}
use tyrdbs.Gorilla.Delta.{IsEncodable, Encodes, encoded-Encodes}
use tyrdbs.Gorilla.Value.{SameWindow, Carries, xor-Carries}

-- The writer after at least one sample.
pub record IsStarted (g : GorillaWriter) : Type 0 where
  pub started : 0 < g.samples
  pub count_in : g.samples < 2 ^ 32
  pub first_delta : g.samples ≡ 1 → g.last_delta ≡ 0
  pub time_in : g.last_timestamp < 2 ^ 64
  pub delta_in : g.last_delta < 2 ^ 64
  pub value_in : g.last_value < 2 ^ 64
  pub aligned : IsAligned g.writer

-- The reader has read as many samples as the writer wrote, and remembers the same.
pub record Agrees (g : GorillaWriter) (h : GorillaReader) : Type 0 where
  pub count : h.ndx ≡ g.samples
  pub time : h.timestamp ≡ g.last_timestamp
  pub delta : h.delta ≡ g.last_delta
  pub value : h.value ≡ g.last_value
  pub window : SameWindow g.last_clz g.last_ctz h.value_size h.ctz
  pub ready : IsReady h.reader

-- What the next call gives, before the bits of the sample.
pub record Gets (t v : ℕ) (g' : GorillaWriter) (rest : List ℕ) (h : GorillaReader) : Type 0 where
  pub after : GorillaReader
  pub returned : next h ≡ some (true, after)
  pub sample : value_of after ≡ (t, v)
  pub agrees : Agrees g' after
  pub left : remaining after.reader ≡ rest
  pub total : after.samples ≡ h.samples

-- The bits of one sample, and what the reader makes of them.
pub record Sends (t v : ℕ) (g g' : GorillaWriter) : Type 0 where
  pub enc : List ℕ
  pub appends : Appends g.writer g'.writer enc
  pub gets :
      (h : GorillaReader) (rest : List ℕ)
      → Agrees g h
      → h.ndx ≢ h.samples
      → remaining h.reader ≡ enc ++ rest
      → Gets t v g' rest h

-- The state between the timestamp and the value, after the first sample.
abbrev timed : ℕ → GorillaWriter → GorillaWriter
timed t g = record g {
  writer = write_encoded (sub64 (sub64 t g.last_timestamp) g.last_delta) g.writer;
  delta = sub64 t g.last_timestamp;
  last_delta = sub64 t g.last_timestamp;
  last_timestamp = t;
}

write_timestamp-timed : (t : ℕ) (g : GorillaWriter) → IsStarted g → write_timestamp t g ≡ timed t g
unfolding write_timestamp
write_timestamp-timed t g s =
    let z : (g.samples == 0) ≡ false = ground (arith, s.started) in
    elim (Bool-cases (g.samples == 1)) [
      | inl e ↦
          let one : g.last_delta ≡ 0 = s.first_delta ((==_iff g.samples 1).0 e) in
          let same : sub64 t g.last_timestamp ≡ sub64 (sub64 t g.last_timestamp) g.last_delta =
            omega (arith, one) in
          rw (z, e)
            (ap
              (λ d. record g {
                writer = write_encoded d g.writer;
                delta = sub64 t g.last_timestamp;
                last_delta = sub64 t g.last_timestamp;
                last_timestamp = t;
              })
              same)
      | inr e ↦ rw (z, e)
    ]

write_xor-rest :
    (x : ℕ) (g : GorillaWriter)
    → ((write_xor x g).samples ≡ g.samples)
      × ((write_xor x g).last_timestamp ≡ g.last_timestamp)
      × ((write_xor x g).last_delta ≡ g.last_delta)
unfolding write_xor write_nibbles
write_xor-rest x g = (ground arith, ground arith, ground arith)

write_sample-timed :
    (t v : ℕ) (g : GorillaWriter)
    → IsStarted g
    → write_sample t v g ≡ record (write_xor (bit_xor v g.last_value) (timed t g)) {
      last_value = v;
      samples = (g.samples + 1) % 2 ^ 32;
    }
unfolding write_sample write_value
write_sample-timed t v g s =
    let z : (g.samples == 0) ≡ false = ground (arith, s.started) in
    rw (write_timestamp-timed t g s, z, (write_xor-rest (bit_xor v g.last_value) (timed t g)).0)

-- The reader's side, once the two parts of the sample are known.
pub next-some :
    (h g1 g2 : GorillaReader)
    → h.ndx ≢ h.samples
    → load_next_timestamp h ≡ some g1
    → load_next_value g1 ≡ some g2
    → next h ≡ some (true, record g2 { ndx = (g2.ndx + 1) % 2 ^ 32 })
unfolding next
next-some h g1 g2 ne e1 e2 =
    let t : (h.ndx == h.samples) ≡ false = ground arith in ground (arith, t)

load_next_timestamp-some :
    (h : GorillaReader) (d : ℕ) (r : BitReader)
    → 0 < h.ndx
    → read_encoded h.reader ≡ some (d, r)
    → load_next_timestamp h
      ≡ some (record h {
        delta = add64 h.delta d;
        timestamp = add64 h.timestamp (add64 h.delta d);
        reader = r;
      })
unfolding load_next_timestamp
load_next_timestamp-some h d r p e =
    let z : (h.ndx == 0) ≡ false = ground arith in ground (arith, z, e)

load_next_value-xor : (h : GorillaReader) → 0 < h.ndx → load_next_value h ≡ load_xor h
unfolding load_next_value
load_next_value-xor h p = let z : (h.ndx == 0) ≡ false = ground arith in rw z

xor_back : (v l : ℕ) → bit_xor l (bit_xor v l) ≡ v
xor_back v l = bit_xor_comm l (bit_xor v l) ∙ bit_xor_cancel v l

module _ (t v : ℕ) (g : GorillaWriter) (s : IsStarted g) (ht : t < 2 ^ 64) (hv : v < 2 ^ 64) where
  xored : ℕ
  xored = bit_xor v g.last_value

  xored-lt : xored < 2 ^ 64
  unfolding xored
  xored-lt = bit_xor-lt 64 v g.last_value hv s.value_in

  -- The reader's two steps, from the bits of the delta of deltas and of the word.
  Gets-next :
      (d : Encodes
        (sub64 (sub64 t g.last_timestamp) g.last_delta)
        (sub64 (sub64 t g.last_timestamp) g.last_delta))
      → (c : Carries xored (timed t g) (write_xor xored (timed t g)))
      → (h : GorillaReader) (rest : List ℕ) → Agrees g h
      → h.ndx ≢ h.samples
      → remaining h.reader ≡ d.enc ++ c.enc ++ rest
      → Gets t v (write_sample t v g) rest h
  unfolding xored value_of
  Gets-next d c h rest a ne l =
      let d2 : ℕ = sub64 (sub64 t g.last_timestamp) g.last_delta in
      let dt : ℕ = sub64 t g.last_timestamp in
      let pos : 0 < h.ndx = omega (arith, a.count, s.started) in
      let (r1, got1, a1, l1) =
        d.takes h.reader (c.enc ++ rest) a.ready (l ∙ append_assoc d.enc c.enc rest) in
      let delta_eq : add64 h.delta d2 ≡ dt =
        ap (λ x. add64 x d2) a.delta ∙ omega (arith, s.delta_in) in
      let time_eq : add64 h.timestamp (add64 h.delta d2) ≡ t =
        ap (λ x. add64 h.timestamp x) delta_eq
        ∙ ap (λ x. add64 x dt) a.time
        ∙ omega (arith, s.time_in) in
      let h1 : GorillaReader = record h { delta = dt; timestamp = t; reader = r1 } in
      let first : load_next_timestamp h ≡ some h1 =
        load_next_timestamp-some h d2 r1 pos got1
        ∙ (λ i. some (record h { delta = delta_eq i; timestamp = time_eq i; reader = r1 })) in
      let o = c.loads h1 rest a.window a1 l1 in
      let value_eq : bit_xor h.value (bit_xor v g.last_value) ≡ v =
        ap (λ x. bit_xor x (bit_xor v g.last_value)) a.value ∙ xor_back v g.last_value in
      let h2 : GorillaReader = record h1 {
        value = v;
        value_size = o.size;
        ctz = o.place;
        reader = o.reader;
      } in
      let second : load_next_value h1 ≡ some h2 =
        load_next_value-xor h1 pos
        ∙ o.returned
        ∙ ap
            (λ x.
              some (record h1 { value = x; value_size = o.size; ctz = o.place; reader = o.reader }))
            value_eq in
      let rest_eq = write_xor-rest (bit_xor v g.last_value) (timed t g) in
      record {
        after = record h2 { ndx = (h2.ndx + 1) % 2 ^ 32 };
        returned = next-some h h1 h2 ne first second;
        sample = refl;
        agrees = rw (write_sample-timed t v g s) (record {
          count = ap (λ x. (x + 1) % 2 ^ 32) a.count;
          time = sym rest_eq.1;
          delta = sym rest_eq.2;
          value = refl;
          window = o.same;
          ready = o.ready;
        });
        left = o.left;
        total = refl;
      }

  -- A sample whose delta of deltas is encodable is sent as some bits, after which both sides
  -- agree again.
  pub sample-Sends :
      IsEncodable (sub64 (sub64 t g.last_timestamp) g.last_delta) → Sends t v g (write_sample t v g)
  unfolding xored
  sample-Sends fits =
      let d2 : ℕ = sub64 (sub64 t g.last_timestamp) g.last_delta in
      let d = encoded-Encodes d2 (omega arith) fits in
      let c = xor-Carries (bit_xor v g.last_value) (timed t g) xored-lt in
      let p = d.appends g.writer s.aligned in
      let w1 : BitWriter = write_encoded d2 g.writer in
      record {
        enc = d.enc ++ c.enc;
        appends =
            rw (write_sample-timed t v g s)
              (Appends-trans g.writer w1 _ d.enc c.enc p (c.appends p.0));
        gets = Gets-next d c;
      }

  pub sample-IsStarted :
      g.samples + 1 < 2 ^ 32
      → IsAligned (write_sample t v g).writer
      → IsStarted (write_sample t v g)
  sample-IsStarted room al =
      let rest_eq = write_xor-rest (bit_xor v g.last_value) (timed t g) in
      rw (write_sample-timed t v g s) (record {
        started = omega (arith, room);
        count_in = omega (arith, room);
        first_delta = λ e. absurd (omega (arith, e, room, s.started));
        time_in = omega (arith, rest_eq.1, ht);
        delta_in = omega (arith, rest_eq.2);
        value_in = hv;
        aligned = (rw (write_sample-timed t v g s) at al);
      })

pub samples-write_sample :
    (t v : ℕ) (g : GorillaWriter)
    → IsStarted g
    → ((write_sample t v g).samples ≡ (g.samples + 1) % 2 ^ 32)
      × ((write_sample t v g).last_timestamp ≡ t)
      × ((write_sample t v g).last_delta ≡ sub64 t g.last_timestamp)
samples-write_sample t v g s =
    let rest_eq = write_xor-rest (bit_xor v g.last_value) (timed t g) in
    rw (write_sample-timed t v g s) (refl, rest_eq.1, rest_eq.2)
