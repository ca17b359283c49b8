-- ===== src/Gorilla/Codec.antt =====
-- What it means that a piece of writer code and a piece of reader code fit together: the writer
-- appends some bits, and the reader, before those bits, takes exactly them and returns a value.
use tyrdbs.Prelude.{
  ℕ, ◌+◌, ◌*◌, ◌^◌, ◌≤◌, ◌<◌, ◌≡◌, ap, ◌∙◌, Option, some, List, ◌++◌, append_assoc, ◌>>=◌,
}
use tyrdbs.BitStream.{BitWriter, BitReader, write, read, read_bit}
use tyrdbs.BitStream.Digits.{to_bits, to_bits_join}
use tyrdbs.BitStream.Write.{IsAligned, content, write-content}
use tyrdbs.BitStream.Read.{IsReady, remaining, read-remaining, read_bit-remaining}

-- `w'` is `w` after `bits` were written.
abbrev pub Appends : BitWriter → BitWriter → List ℕ → Type 0
Appends w w' bits = IsAligned w' × (content w' ≡ content w ++ bits)

-- Before `bits`, `m` takes exactly them and returns `x`.
abbrev pub Takes {ℓ} : {A : Type ℓ} → (BitReader → Option (A × BitReader)) → List ℕ → A → Type ℓ
Takes m bits x =
    (r : BitReader) (rest : List ℕ)
    → IsReady r
    → remaining r ≡ bits ++ rest
    → (r' : BitReader) × (m r ≡ some (x, r')) × IsReady r' × (remaining r' ≡ rest)

pub Appends-write :
    (value bits : ℕ) (w : BitWriter)
    → IsAligned w
    → value < 2 ^ 64
    → bits ≤ 64
    → Appends w (write value bits w) (to_bits bits value)
Appends-write value bits w a hv hb = write-content value bits w a hv hb

pub Takes-read : (bits v : ℕ) → bits ≤ 64 → v < 2 ^ bits → Takes (read bits) (to_bits bits v) v
Takes-read bits v hb hv r rest a e = read-remaining bits v rest r a hb hv e

pub Takes-read_bit : (v : ℕ) → v < 2 → Takes read_bit (to_bits 1 v) v
Takes-read_bit v hv r rest a e = read_bit-remaining v rest r a hv e

pub Appends-trans :
    (w w1 w2 : BitWriter) (xs ys : List ℕ)
    → Appends w w1 xs
    → Appends w1 w2 ys
    → Appends w w2 (xs ++ ys)
Appends-trans w w1 w2 xs ys p q =
    (q.0, q.1 ∙ ap (λ t. t ++ ys) p.1 ∙ append_assoc (content w) xs ys)

-- One bit, then the rest.
pub Takes-bit :
    {A : Type 0} (b : ℕ) (k : ℕ → BitReader → Option (A × BitReader)) (bits : List ℕ) (x : A)
    → b < 2
    → Takes (k b) bits x
    → Takes (λ r. read_bit r >>= λ p. k p.0 p.1) (to_bits 1 b ++ bits) x
Takes-bit b k bits x hb t r rest a e =
    let (r1, got, a1, e1) =
      Takes-read_bit b hb r (bits ++ rest) a (e ∙ append_assoc (to_bits 1 b) bits rest) in
    let (r2, got2, a2, e2) = t r1 rest a1 e1 in (r2, rw got got2, a2, e2)

-- A leading bit of a number is its first bit.
pub to_bits_lead :
    (b d x : ℕ) → x < 2 ^ b → to_bits (1 + b) (d * 2 ^ b + x) ≡ to_bits 1 d ++ to_bits b x
to_bits_lead b d x h = to_bits_join 1 b d x h
