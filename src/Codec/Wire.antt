-- ===== src/Codec/Wire.antt =====
-- The round trip of offchain/workpackage.py, encoder by encoder: a reader that stands where an
-- encoding begins reads the value back and stops right behind it.
use jamswap.Prelude.{
  ℕ, ◌+◌, ◌≡◌, refl, sym, ap, ◌∙◌, ◌<◌, inl, inr, false, List, [], ◌∷◌, ◌++◌, arith, length, ltb,
  ◌==◌, ◌^◌, Bool-cases, length-append,
}
use mathlib.Core.List.{append_assoc, append-nil}
use jamswap.Codec.{
  Bytes, Result, ok, err, ◌+++◌, le_bytes, le_value, enc_nat, var, u, hash32, join_all, Reader,
  Parser, ◌>>=◌, pure, take_bytes, read_u, read_nat, read_blob, repeat, read_seq,
}
use jamswap.Codec.Natural.{
  dec_nat-enc_nat, le_value-le_bytes, length-le_bytes, drop-append, take-append,
}

-- The reader of a buffer at the place behind `pre`.
abbrev pub reader : Bytes → Bytes → Reader
reader pre rest = record { buf = pre ++ rest; i = length pre }

-- `m` reads `a` from `bs`, wherever it stands, and stops behind it.
pub record Reads {ℓ} {A : Type ℓ} (m : Parser A) (bs : Bytes) (a : A) : Type ℓ where
  pub run : (pre rest : Bytes) → m (reader pre (bs ++ rest)) ≡ ok (a, reader (pre ++ bs) rest)

-- `m` reads `a` from all that the encoder `r` writes.
pub record Wire {ℓ} {A : Type ℓ} (r : Result Bytes) (m : Parser A) (a : A) : Type ℓ where
  pub reads : (bs : Bytes) → r ≡ ok bs → Reads m bs a

pub Reads-pure {ℓ} : {A : Type ℓ} (a : A) → Reads (pure a) [] a
Reads-pure a = record { run = λ pre rest. rw append-nil }

pub Reads-bind {ℓ κ} :
    {A : Type ℓ} {B : Type κ} (m : Parser A) (f : A → Parser B) {bs cs : Bytes} {a : A} {b : B}
    → Reads m bs a
    → Reads (f a) cs b
    → Reads (m >>= f) (bs ++ cs) b
Reads-bind m f {bs} {cs} {b} p q = record {
  run = λ pre rest.
      rw (append_assoc bs cs rest, p.run pre (cs ++ rest))
        (q.run (pre ++ bs) rest
          ∙ ap (λ (z : Bytes). ok (b, reader z rest)) (append_assoc pre bs cs));
}

-- The two parts of an encoding that went through.
+++_inv :
    (r s : Result Bytes) (cs : Bytes)
    → r +++ s ≡ ok cs
    → (a : Bytes) × (b : Bytes) × (r ≡ ok a) × (s ≡ ok b) × (a ++ b ≡ cs)
+++_inv (ok a) (ok b) cs h = (a, b, refl, refl, ground arith)
+++_inv (ok a) (err e) cs h = absurd (cc)
+++_inv (err e) s cs h = absurd (cc)

-- An encoding and what follows it, against a parser and its continuation.
pub Wire-bind {ℓ κ} :
    {A : Type ℓ} {B : Type κ} {r s : Result Bytes} {m : Parser A} (f : A → Parser B) {a : A} {b : B}
    → Wire r m a
    → Wire s (f a) b
    → Wire (r +++ s) (m >>= f) b
Wire-bind {r} {s} {m} f p q = record {
  reads = λ cs h.
      let (x, y, ex, ey, e) = +++_inv r s cs h in
      rw (← e) (Reads-bind m f (p.reads x ex) (q.reads y ey));
}

-- The last part of an encoding, after which the parser returns a value made of what it read.
pub Wire-last {ℓ κ} :
    {A : Type ℓ} {B : Type κ} {r : Result Bytes} {m : Parser A} (f : A → B) {a : A}
    → Wire r m a
    → Wire r (m >>= λ x. pure (f x)) (f a)
Wire-last {r} {m} f {a} p = record {
  reads =
      λ bs h. rw append-nil at (Reads-bind m (λ x. pure (f x)) (p.reads bs h) (Reads-pure (f a)));
}

in_buffer :
    (pre bs rest : Bytes) → ltb (length (pre ++ (bs ++ rest))) (length pre + length bs) ≡ false
in_buffer pre bs rest = ground (arith, length-append pre (bs ++ rest), length-append bs rest)

advance :
    (pre bs rest : Bytes)
    → record { buf = pre ++ (bs ++ rest); i = length pre + length bs } ≡ reader (pre ++ bs) rest
advance pre bs rest =
    let p = sym (append_assoc pre bs rest) in
    let q = sym (length-append pre bs) in λ k. record { buf = p k; i = q k }

pub Reads-take : (bs : Bytes) → Reads (take_bytes (length bs)) bs bs
unfolding take_bytes
Reads-take bs = record {
  run = λ pre rest.
      rw (in_buffer pre bs rest, drop-append pre (bs ++ rest), take-append bs rest)
        (ap (λ (q : Reader). ok (bs, q)) (advance pre bs rest));
}

Reads-take_n : (n : ℕ) (bs : Bytes) → length bs ≡ n → Reads (take_bytes n) bs bs
Reads-take_n n bs e = rw (← e) (Reads-take bs)

u_inv : (n x : ℕ) (bs : Bytes) → u x n ≡ ok bs → (bs ≡ le_bytes n x) × (x < 256 ^ n)
unfolding u
u_inv n x bs h = elim (Bool-cases (ltb x (256 ^ n))) [
  | inl fits ↦ (ground arith, ground arith)
  | inr big ↦ absurd (ground arith)
]

hash32_inv : (x bs : Bytes) → hash32 x ≡ ok bs → (x ≡ bs) × (length bs ≡ 32)
unfolding hash32
hash32_inv x bs h = elim (Bool-cases (length x == 32)) [
  | inl fits ↦ (ground arith, ground arith)
  | inr other ↦ absurd (ground arith)
]

-- Fixed-width integers.
pub Wire-u : (n x : ℕ) → Wire (u x n) (read_u n) x
unfolding read_u
Wire-u n x = record {
  reads = λ bs h.
      let (same, fits) = u_inv n x bs h in
      let got = Reads-take_n n (le_bytes n x) (length-le_bytes n x) in
      let all =
        Reads-bind (take_bytes n) (λ b. pure (le_value b)) got
          (Reads-pure (le_value (le_bytes n x))) in
      rw same (rw (append-nil, le_value-le_bytes n x fits) at all);
}

-- Hashes.
pub Wire-hash : (h : Bytes) → Wire (hash32 h) (take_bytes 32) h
Wire-hash x = record {
  reads = λ bs h. let (same, n) = hash32_inv x bs h in rw same (Reads-take_n 32 bs n);
}

-- General naturals.
pub Wire-nat : (x : ℕ) → Wire (enc_nat x) read_nat x
unfolding read_nat
Wire-nat x = record {
  reads = λ bs h. record {
    run = λ pre rest.
        rw (dec_nat-enc_nat pre rest bs x h) (ap (λ (q : Reader). ok (x, q)) (advance pre bs rest));
  };
}

Wire-blob : (blob : Bytes) → Wire (ok blob) (take_bytes (length blob)) blob
Wire-blob blob = record { reads = λ bs h. let e : blob ≡ bs = cc in rw (← e) (Reads-take blob) }

-- A length and that many octets.
pub Wire-var : (blob : Bytes) → Wire (var blob) read_blob blob
unfolding var read_blob
Wire-var blob = Wire-bind take_bytes (Wire-nat (length blob)) (Wire-blob blob)

-- A value that no octet stands for.
pub Wire-pure {ℓ} : {A : Type ℓ} (a : A) → Wire (ok []) (pure a) a
Wire-pure a = record { reads = λ bs h. let e : [] ≡ bs = cc in rw (← e) (Reads-pure a) }

Wire-repeat {ℓ} :
    {A : Type ℓ} (enc : A → Result Bytes) (item : Parser A)
    → ((x : A) → Wire (enc x) item x)
    → (xs : List A) → Wire (join_all enc xs) (repeat item (length xs)) xs
unfolding join_all repeat
Wire-repeat enc item w [] = Wire-pure []
Wire-repeat enc item w (x ∷ xs) =
    Wire-bind (λ y. repeat item (length xs) >>= λ ys. pure (y ∷ ys)) (w x)
      (Wire-last (◌∷◌ x) (Wire-repeat enc item w xs))

-- A count and that many items.
pub Wire-seq {ℓ} :
    {A : Type ℓ} (enc : A → Result Bytes) (item : Parser A)
    → ((x : A) → Wire (enc x) item x)
    → (xs : List A) → Wire (enc_nat (length xs) +++ join_all enc xs) (read_seq item) xs
unfolding read_seq
Wire-seq enc item w xs = Wire-bind (repeat item) (Wire-nat (length xs)) (Wire-repeat enc item w xs)
