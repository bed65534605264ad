-- ===== src/Bch/Parse/Total.antt =====
-- parseOpReturn on any script, well formed or not.
use freedom_names.Common.{
  ℕ, zero, suc, ◌+◌, ◌*◌, ◌^◌, ◌<◌, ◌≤◌, ◌≡◌, refl, inl, inr, true, false, ◌==◌, Option, none, some,
  List, [], ◌∷◌, arith, length, length-take, length-drop, drop, get_or, ltb, leb, ltb→le, ◌%◌,
  Bool-cases, ◌∙◌, All,
}
use freedom_names.Bch.Encode.{IsByte, op_return}
use freedom_names.Bch.Reader.{
  Outcome, ok, err, panic, ByteReader, Reading, ◌>>=◌, return, read_byte, read_bytes,
}
use freedom_names.Bch.Parse.{
  read_push_len, push_bytes, read_push, keep_push, cons_push, scan_pushes, parse_op_return,
}

get_or-IsByte : (bs : List ℕ) (i : ℕ) → All IsByte bs → get_or bs i 0 < 256
get_or-IsByte [] i h = omega arith
get_or-IsByte (b ∷ bs) zero (h, hs) = h
get_or-IsByte (b ∷ bs) (suc i) (h, hs) = get_or-IsByte bs i hs

-- A reader inside a byte slice that fits the address space with room for one push.
record Inside (r : ByteReader) : Type 0 where
  within : r.pos ≤ length r.buf
  room : length r.buf < 2 ^ 62
  bytes : All IsByte r.buf

-- An outcome of a read that does not panic: it keeps the buffer and moves forward by `k` at least.
abbrev Moves {ℓ} : {A : Type ℓ} → ℕ → (A → Type 0) → ByteReader → Outcome (A × ByteReader) → Type 0
Moves k P r (ok (a, r')) = P a × (r'.buf ≡ r.buf) × (r.pos + k ≤ r'.pos) × (r'.pos ≤ length r.buf)
Moves k P r (err e) = Unit
Moves k P r panic = ⊥

read_byte-Moves : (r : ByteReader) → Inside r → Moves 1 IsByte r (read_byte r)
unfolding read_byte
read_byte-Moves r s = elim (Bool-cases (leb (length r.buf) r.pos)) [
  | inl e ↦ rw e tt
  | inr e ↦ rw e (get_or-IsByte r.buf r.pos s.bytes, refl, omega arith, ground arith)
]

read_bytes-Moves :
    (n : ℕ) (r : ByteReader)
    → Inside r
    → n < 65536
    → Moves n (λ xs. length xs ≡ n) r (read_bytes n r)
unfolding read_bytes
read_bytes-Moves n r s h =
    let sum : (r.pos + n) % 2 ^ 64 ≡ r.pos + n = omega (arith, s.within, s.room) in
    let small : leb (2 ^ 63) n ≡ false = ground arith in
    let inside : leb (2 ^ 63) (r.pos + n) ≡ false = ground (arith, s.within, s.room) in
    elim (Bool-cases (ltb (length r.buf) (r.pos + n))) [
      | inl e ↦ rw (sum, small, inside, e) tt
      | inr e ↦
          let fits : r.pos + n ≤ length r.buf = ltb→le (length r.buf) (r.pos + n) e in
          rw (sum, small, inside, e)
            (
              omega (arith, length-take n (drop r.pos r.buf), length-drop r.pos r.buf, s.within),
              refl,
              omega arith,
              fits,
            )
    ]

Inside-after : (r r' : ByteReader) → Inside r → r'.buf ≡ r.buf → r'.pos ≤ length r.buf → Inside r'
Inside-after r r' s e h = record { within = rw e h; room = rw e s.room; bytes = rw e s.bytes }

-- A later step keeps what the first one moved.
Moves-weaken {ℓ} :
    {A : Type ℓ} (k : ℕ) (P : A → Type 0) (r r' : ByteReader) (o : Outcome (A × ByteReader))
    → r'.buf ≡ r.buf
    → r.pos + k ≤ r'.pos
    → Moves 0 P r' o
    → Moves k P r o
Moves-weaken k P r r' (ok (a, r'')) e h (p, same, on, inside) =
    (p, same ∙ e, omega arith, rw (← e) inside)
Moves-weaken k P r r' (err x) e h m = tt
Moves-weaken k P r r' panic e h m = m

Moves-bind {ℓ κ} :
    {A : Type ℓ} {B : Type κ} (k : ℕ) (P : A → Type 0) (Q : B → Type 0) (r : ByteReader)
    (o : Outcome (A × ByteReader)) (f : A → Reading B)
    → Inside r
    → Moves k P r o
    → ((a : A) (r' : ByteReader) → P a → Inside r' → Moves 0 Q r' (f a r'))
    → Moves k Q r (((λ (x : ByteReader). o) >>= f) r)
Moves-bind k P Q r (ok (a, r')) f s (p, e, on, inside) next =
    Moves-weaken k Q r r' (f a r') e on (next a r' p (Inside-after r r' s e inside))
Moves-bind k P Q r (err x) f s h next = tt
Moves-bind k P Q r panic f s h next = h

abbrev Small : Option ℕ → Type 0
Small none = Unit
Small (some n) = n < 65536

Moves-return {ℓ} :
    {A : Type ℓ} (P : A → Type 0) (a : A) (r : ByteReader)
    → P a
    → Inside r
    → Moves 0 P r (ok (a, r))
Moves-return P a r p s = (p, refl, omega arith, s.within)

Moves-forget {ℓ} :
    {A : Type ℓ} (k : ℕ) (P : A → Type 0) (r : ByteReader) (o : Outcome (A × ByteReader))
    → Moves k P r o
    → Moves 0 P r o
Moves-forget k P r (ok (a, r')) (p, e, on, inside) = (p, e, omega arith, inside)
Moves-forget k P r (err x) m = tt
Moves-forget k P r panic m = m

next-IsByte : (r : ByteReader) → Inside r → Moves 0 IsByte r (read_byte r)
next-IsByte r s = Moves-forget 1 IsByte r (read_byte r) (read_byte-Moves r s)

-- One more byte, and a short push length made of it.
byte_more :
    (f : ℕ → ℕ)
    → ((b : ℕ) → IsByte b → f b < 65536)
    → (r : ByteReader) → Inside r
    → Moves 0 Small r ((read_byte >>= λ b. return (some (f b))) r)
byte_more f small r s =
    Moves-bind 0 IsByte Small r (read_byte r) _ s (next-IsByte r s)
      λ b r' h s'. Moves-return Small (some (f b)) r' (small b h) s'

read_push_len-Moves : (r : ByteReader) → Inside r → Moves 1 Small r (read_push_len r)
unfolding read_push_len
read_push_len-Moves r s =
    Moves-bind 1 IsByte Small r (read_byte r) _ s (read_byte-Moves r s) λ op r' b s'.
      elim (Bool-cases (ltb op 0x4c)) [
        | inl e ↦ rw e (Moves-return Small (some op) r' (omega arith) s')
        | inr e ↦ elim (Bool-cases (op == 0x4c)) [
          | inl f ↦ rw (e, f) (byte_more (λ b'. b') (λ b' h. omega arith) r' s')
          | inr f ↦ elim (Bool-cases (op == 0x4d)) [
            | inl g ↦
                rw (e, f, g)
                  (Moves-bind 0 IsByte Small r' (read_byte r') _ s' (next-IsByte r' s')
                    λ lo r'' h s''. byte_more (λ hi. lo + hi * 256) (λ hi h'. omega arith) r'' s'')
            | inr g ↦ rw (e, f, g) (Moves-return Small none r' tt s')
          ]
        ]
      ]

abbrev SmallPush : Option (List ℕ) → Type 0
SmallPush none = Unit
SmallPush (some d) = length d < 65536

push_bytes-Moves :
    (n : Option ℕ) (r : ByteReader) → Small n → Inside r → Moves 0 SmallPush r (push_bytes n r)
unfolding push_bytes
push_bytes-Moves none r h s = Moves-return SmallPush none r tt s
push_bytes-Moves (some k) r h s = Moves-forget k SmallPush r _ (
    Moves-bind k (λ xs. length xs ≡ k) SmallPush r (read_bytes k r) _ s (read_bytes-Moves k r s h)
      λ d r' e s'. Moves-return SmallPush (some d) r' (rw e h) s')

read_push-Moves : (r : ByteReader) → Inside r → Moves 1 SmallPush r (read_push r)
unfolding read_push
read_push-Moves r s =
    Moves-bind 1 Small SmallPush r (read_push_len r) _ s (read_push_len-Moves r s)
      λ n r' h s'. push_bytes-Moves n r' h s'

abbrev Scanned : Outcome (List (List ℕ)) → Type 0
Scanned (ok ds) = All (λ d. length d < 65536) ds
Scanned (err e) = ⊥
Scanned panic = ⊥

cons_push-Scanned :
    (d : List ℕ) (o : Outcome (List (List ℕ)))
    → length d < 65536
    → Scanned o
    → Scanned (cons_push d o)
cons_push-Scanned d (ok ds) h s = (h, s)
cons_push-Scanned d (err e) h s = s
cons_push-Scanned d panic h s = s

-- The bytes that are left are no more than the rounds.
abbrev Fuels : ℕ → ByteReader → Type 0
Fuels fuel r = length r.buf ≤ r.pos + fuel

-- One round of the loop, by the outcome of the push that it reads: it takes a byte at least.
round-Scanned :
    (fuel : ℕ) (r : ByteReader) (o : Outcome (Option (List ℕ) × ByteReader))
    → Inside r
    → Fuels (suc fuel) r
    → Moves 1 SmallPush r o
    → ((r' : ByteReader) → Inside r' → Fuels fuel r' → Scanned (scan_pushes fuel r'))
    → Scanned (keep_push (scan_pushes fuel) o)
unfolding keep_push
round-Scanned fuel r (ok (some d, r')) s enough (h, e, on, inside) next =
    let left : Fuels fuel r' = rw e (omega (arith, enough, on)) in
    cons_push-Scanned d (scan_pushes fuel r') h (next r' (Inside-after r r' s e inside) left)
round-Scanned fuel r (ok (none, r')) s enough m next = tt
round-Scanned fuel r (err e) s enough m next = tt
round-Scanned fuel r panic s enough m next = m

-- With a round for each byte that is left the loop comes to its end.
scan_pushes-Scanned :
    (fuel : ℕ) (r : ByteReader) → Inside r → Fuels fuel r → Scanned (scan_pushes fuel r)
unfolding scan_pushes
scan_pushes-Scanned zero r s enough =
    let over : leb (length r.buf) r.pos ≡ true = ground (arith, enough) in rw (over, scan_pushes) tt
scan_pushes-Scanned (suc fuel) r s enough = elim (Bool-cases (leb (length r.buf) r.pos)) [
  | inl e ↦ rw (e, scan_pushes) tt
  | inr e ↦
      rw (e, scan_pushes)
        (round-Scanned fuel r (read_push r) s enough (read_push-Moves r s)
          (λ r' s' enough'. scan_pushes-Scanned fuel r' s' enough'))
]

Scanned-ok :
    (o : Outcome (List (List ℕ)))
    → Scanned o
    → (ds : List (List ℕ)) × (o ≡ ok ds) × All (λ d. length d < 65536) ds
Scanned-ok (ok ds) s = (ds, refl, s)
Scanned-ok (err e) s = absurd s
Scanned-ok panic s = absurd s

-- On every script of bytes shorter than 2 ^ 62, the loop of the parser ends within its fuel, by its
-- condition or by a push that cannot be read, and parsing answers a list of pushes, each shorter
-- than 65536 bytes, and neither fails nor panics.
pub parse_op_return_total :
    (script : List ℕ)
    → All IsByte script
    → length script < 2 ^ 62
    → (ds : List (List ℕ)) × (parse_op_return script ≡ ok ds) × All (λ d. length d < 65536) ds
unfolding parse_op_return
parse_op_return_total [] bytes small = ([], refl, tt)
parse_op_return_total (b ∷ bs) bytes small = elim (Bool-cases (b == op_return)) [
  | inl e ↦
      let some_bytes : (suc (length bs) == 0) ≡ false = ground arith in
      rw (e, some_bytes)
        (Scanned-ok (scan_pushes (suc (length bs)) (record { buf = b ∷ bs; pos = 1 })) (
          scan_pushes-Scanned (suc (length bs)) (record { buf = b ∷ bs; pos = 1 })
            (record { within = omega arith; room = small; bytes = bytes }) (omega arith)))
  | inr e ↦
      let some_bytes : (suc (length bs) == 0) ≡ false = ground arith in
      rw (e, some_bytes) ([], refl, tt)
]
