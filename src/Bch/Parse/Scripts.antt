-- ===== src/Bch/Parse/Scripts.antt =====
-- Scripts: what is built is what is read.
use freedom_names.Common.{
  ℕ, zero, suc, ◌+◌, ◌*◌, ◌/◌, ◌%◌, ◌^◌, ◌<◌, ◌≤◌, ◌≡◌, refl, sym, ◌∙◌, subst, inl, inr, ◌↔◌, true,
  false, some, List, [], ◌∷◌, ◌++◌, append-nil, append_assoc, arith, length, length-append, drop,
  drop-append, get_or, ltb, leb, Bool-cases, ltb→lt, leb→le, take-append-drop, length-drop,
  length-take, take-append, drop-add, get_or-drop, All,
}
use freedom_names.Bch.Encode.{append_push, push_header, op_return, op_return_script, p2pkh_script}
use freedom_names.Bch.Reader.{ok, ByteReader, read_byte, read_bytes}
use freedom_names.Bch.Reader.Reads.{
  Reads, At, At-room, advance, At-advance, Reads-bind, Reads-map, Reads-return, read_byte-Reads,
  read_bytes-Reads,
}
use freedom_names.Bch.Parse.{
  p2pkh_hash, read_push_len, push_bytes, read_push, scan_pushes, parse_op_return,
}
use mathlib.Core.List.{foldl}

two_left : (xs : List ℕ) → length xs ≡ 2 → xs ≡ get_or xs 0 0 ∷ get_or xs 1 0 ∷ []
two_left [] e = absurd (omega arith)
two_left (a ∷ []) e = absurd (omega arith)
two_left (a ∷ b ∷ []) e = refl
two_left (a ∷ b ∷ c ∷ xs) e = absurd (omega arith)

p2pkh_hash-p2pkh_script : (h : List ℕ) → length h ≡ 20 → p2pkh_hash (p2pkh_script h) ≡ some h
unfolding p2pkh_hash p2pkh_script
p2pkh_hash-p2pkh_script h e =
    let tail : List ℕ = 0x88 ∷ 0xac ∷ [] in
    ground (
      arith,
      take-append 20 h tail e,
      length-append h tail,
      get_or-drop 20 (h ++ tail) 0,
      get_or-drop 21 (h ++ tail) 0,
      drop-add 20 1 (h ++ tail),
      drop-append 20 h tail e,
    )

p2pkh_hash_sound :
    (script h : List ℕ) → p2pkh_hash script ≡ some h → (length h ≡ 20) × (script ≡ p2pkh_script h)
unfolding p2pkh_hash p2pkh_script
p2pkh_hash_sound [] h e = cc
p2pkh_hash_sound (a ∷ []) h e = cc
p2pkh_hash_sound (a ∷ b ∷ []) h e = ground arith
p2pkh_hash_sound (a ∷ b ∷ c ∷ rest) h e = ground (
  arith,
  take-append-drop 20 rest,
  length-take 20 rest,
  length-drop 20 rest,
  get_or-drop 20 rest 0,
  get_or-drop 21 rest 0,
  drop-add 20 1 rest,
  two_left (drop 20 rest),
)

-- A script is recognized with a hash exactly when the hash has 20 bytes and the script is the P2PKH
-- script of it.
pub p2pkh_hash_iff :
    (script h : List ℕ)
    → (p2pkh_hash script ≡ some h) ↔ ((length h ≡ 20) × (script ≡ p2pkh_script h))
p2pkh_hash_iff script h = (p2pkh_hash_sound script h, λ (e, s). rw s (p2pkh_hash-p2pkh_script h e))

read_push_len-Reads : (n : ℕ) → n < 65536 → Reads read_push_len (push_header n) (some n)
unfolding read_push_len push_header
read_push_len-Reads n h = elim (Bool-cases (ltb n 0x4c)) [
  | inl e ↦
      let small : n < 0x4c = ltb→lt n 0x4c e in
      let low : n % 256 ≡ n = omega arith in
      rw (e, low)
        (Reads-bind read_byte _ (n ∷ []) [] n (some n) (read_byte-Reads n)
          (rw e (Reads-return (some n))))
  | inr e ↦ elim (Bool-cases (leb n 0xff)) [
    | inl f ↦
        let le255 : n ≤ 0xff = leb→le n 0xff f in
        let low : n % 256 ≡ n = omega arith in
        rw (e, f, low)
          (Reads-bind read_byte _ (0x4c ∷ []) (n ∷ []) 0x4c (some n) (read_byte-Reads 0x4c)
            (Reads-map read_byte some (n ∷ []) n (read_byte-Reads n)))
    | inr f ↦
        let sum : n % 256 + n / 256 % 256 * 256 ≡ n = omega arith in
        rw (e, f)
          (subst (λ (k : ℕ). Reads read_push_len (0x4d ∷ (n % 256) ∷ (n / 256 % 256) ∷ []) (some k))
            sum
            (Reads-bind read_byte _ (0x4d ∷ []) ((n % 256) ∷ (n / 256 % 256) ∷ []) 0x4d _
              (read_byte-Reads 0x4d)
              (Reads-bind read_byte _ ((n % 256) ∷ []) ((n / 256 % 256) ∷ []) (n % 256) _
                (read_byte-Reads (n % 256))
                (Reads-map read_byte (λ hi. some (n % 256 + hi * 256)) ((n / 256 % 256) ∷ [])
                  (n / 256 % 256) (read_byte-Reads (n / 256 % 256))))))
  ]
]

encode_pushes : List (List ℕ) → List ℕ
encode_pushes [] = []
encode_pushes (p ∷ ps) = (push_header (length p) ++ p) ++ encode_pushes ps

foldl-append_push :
    (ps : List (List ℕ)) (s : List ℕ) → foldl append_push s ps ≡ s ++ encode_pushes ps
unfolding append_push encode_pushes
foldl-append_push [] s = sym (append-nil s)
foldl-append_push (p ∷ ps) s = foldl-append_push ps (append_push s p) ∙ simp append_assoc

read_push-Reads :
    (p : List ℕ) → length p < 65536 → Reads read_push (push_header (length p) ++ p) (some p)
unfolding read_push push_bytes
read_push-Reads p h =
    Reads-bind read_push_len _ (push_header (length p)) p (some (length p)) (some p)
      (read_push_len-Reads (length p) h)
      (Reads-map (read_bytes (length p)) some p p (read_bytes-Reads (length p) p refl))

push_header_nonempty : (n : ℕ) → 0 < length (push_header n)
unfolding push_header
push_header_nonempty n = ground arith

scan_pushes_lem :
    (ps : List (List ℕ)) (fuel : ℕ) (r : ByteReader)
    → All (λ p. length p < 65536) ps
    → At r (encode_pushes ps)
    → length (encode_pushes ps) ≤ fuel
    → scan_pushes fuel r ≡ ok ps
unfolding scan_pushes encode_pushes
scan_pushes_lem [] zero r small at enough =
    let over : leb (length r.buf) r.pos ≡ true = ground (arith, At-room r [] at) in
    rw (over, scan_pushes)
scan_pushes_lem [] (suc fuel) r small at enough =
    let over : leb (length r.buf) r.pos ≡ true = ground (arith, At-room r [] at) in
    rw (over, scan_pushes)
scan_pushes_lem (p ∷ ps) zero r small at enough = absurd (
    omega (
      arith,
      length-append (push_header (length p) ++ p) (encode_pushes ps),
      length-append (push_header (length p)) p,
      push_header_nonempty (length p),
    ))
scan_pushes_lem (p ∷ ps) (suc fuel) r (small, smalls) at enough =
    let shorter : length (encode_pushes ps) < length (encode_pushes (p ∷ ps)) = omega (
      arith,
      length-append (push_header (length p) ++ p) (encode_pushes ps),
      length-append (push_header (length p)) p,
      push_header_nonempty (length p),
    ) in
    let more : leb (length r.buf) r.pos ≡ false =
      ground (arith, At-room r (encode_pushes (p ∷ ps)) at) in
    rw (
      more,
      scan_pushes,
      read_push-Reads p small r (encode_pushes ps) at,
      scan_pushes_lem ps fuel (advance r (length (push_header (length p) ++ p))) smalls
          (At-advance r (push_header (length p) ++ p) (encode_pushes ps) at) (omega arith),
    )

op_return_script-pushes : (ps : List (List ℕ)) → op_return_script ps ≡ op_return ∷ encode_pushes ps
unfolding op_return_script
op_return_script-pushes ps = foldl-append_push ps (op_return ∷ [])

-- A script built of pushes, each shorter than 65536 bytes and the whole shorter than 2 ^ 63, parses
-- back to exactly those pushes.
pub parse_op_return-op_return_script :
    (ps : List (List ℕ))
    → All (λ p. length p < 65536) ps
    → length (op_return_script ps) < 2 ^ 63
    → parse_op_return (op_return_script ps) ≡ ok ps
unfolding parse_op_return
parse_op_return-op_return_script ps small fits =
    let e : op_return_script ps ≡ op_return ∷ encode_pushes ps = op_return_script-pushes ps in
    let r : ByteReader = record { buf = op_return ∷ encode_pushes ps; pos = 1 } in
    rw
      (
        e,
        scan_pushes_lem ps (suc (length (encode_pushes ps))) r small
            (record { within = omega arith; small = rw e at fits; left = refl }) (omega arith),
      )
      (ground arith)
