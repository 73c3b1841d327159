-- ===== src/NetString/Refusal.antt =====
-- Bytes that `decode` of helper/NetString.js refuses stay refused whatever bytes follow, though
-- perhaps with another error.
use webtransport_gos.Prelude.{
  ℕ, ◌+◌, ◌-◌, ◌≤◌, ◌<◌, ◌≡◌, ◌≢◌, refl, ap, Bool, true, false, ◌&&◌, Option, none, some, [], ◌∷◌,
  ◌++◌, arith, length, get_elem?, length-append, inl, inr, ltb, leb, ◌==◌, Bool-cases, length-drop,
  ◌⊎◌,
}
use webtransport_gos.Js.Exn.{
  Error, find_leading_zeros, must_start_with_a_number, more_than_9_digits, miss_the_colon,
  miss_the_space, miss_the_comma,
}
use webtransport_gos.Js.Bytes.{Bytes}
use webtransport_gos.NetString.{colon, comma, space, is_digit, is_byte}
use webtransport_gos.NetString.Digits.{digits, value, after_digits}
use webtransport_gos.NetString.Grammar.{
  Parsed, bad, parse_payload, parse_space, parse_command, parse_body, parse,
}
use webtransport_gos.NetString.Prefix.{
  digits-prefix, length-digits_le, get_elem?-append, drop-append_le,
}

abbrev pub Refused : Parsed → Type 0
Refused p = (x : Error) × (p ≡ bad x)

length-digits-append : (q b : Bytes) → length (digits q) ≤ length (digits (q ++ b))
unfolding digits
length-digits-append [] b = omega arith
length-digits-append (x ∷ q) b = ground (arith, length-digits-append q b)

List-cases : (q : Bytes) → (q ≡ []) ⊎ ((x : ℕ) × (r : Bytes) × (q ≡ x ∷ r))
List-cases [] = inl refl
List-cases (x ∷ q) = inr (x, q, refl)

parse_payload-Refused :
    (cmd : Option ℕ) (len i : ℕ) (q b : Bytes)
    → len < length q
    → Refused (parse_payload cmd len i q)
    → Refused (parse_payload cmd len i (q ++ b))
unfolding parse_payload
parse_payload-Refused cmd len i q b inside (x, h) =
    elim (Bool-cases (is_byte comma (get_elem? q len))) [
      | inl found ↦ cc (rw found at h)
      | inr other ↦ (miss_the_comma, rw (get_elem?-append q b len inside, other))
    ]

-- A command of more digits than the body has room for is refused, whatever stands behind it.
parse_space_short :
    (cmd len d i : ℕ) (q : Bytes) → len < d + 1 → Refused (parse_space cmd len d i q)
unfolding parse_space
parse_space_short cmd len d i [] h = (miss_the_space, refl)
parse_space_short cmd len d i (b ∷ q) h = elim (Bool-cases (b == space)) [
  | inl found ↦
      let no_room : leb (d + 1) len ≡ false = ground arith in (miss_the_comma, rw (found, no_room))
  | inr other ↦ (miss_the_space, rw other)
]

parse_space-Refused :
    (cmd len d i y : ℕ) (q b : Bytes)
    → len < d + length (y ∷ q)
    → Refused (parse_space cmd len d i (y ∷ q))
    → Refused (parse_space cmd len d i (y ∷ (q ++ b)))
unfolding parse_space
parse_space-Refused cmd len d i y q b inside h = elim (Bool-cases (y == space)) [
  | inr other ↦ (miss_the_space, rw other)
  | inl found ↦ elim (Bool-cases (leb (d + 1) len)) [
    | inr no_room ↦ (miss_the_comma, rw (found, no_room))
    | inl room ↦
        rw (found, room)
          (parse_payload-Refused (some cmd) (len - (d + 1)) (i + (d + 1)) q b (ground arith)
            (rw (found, room) at h))
  ]
]

parse_command-Refused :
    (e : Bool) (len i : ℕ) (q b : Bytes)
    → len < length q
    → Refused (parse_command e len i q)
    → Refused (parse_command e len i (q ++ b))
unfolding parse_command
parse_command-Refused false len i q b inside h = parse_payload-Refused none len i q b inside h
parse_command-Refused true len i q b inside h = elim (List-cases (after_digits q)) [
  | inl all ↦
      let whole : length (digits q) ≡ length q =
        omega (arith, length-digits_le q, length-drop (length (digits q)) q, ap length all) in
      parse_space_short (value 0 (digits (q ++ b))) len (length (digits (q ++ b))) i
        (after_digits (q ++ b)) (omega (arith, whole, length-digits-append q b))
  | inr (y, t, e) ↦
      let same : digits (q ++ b) ≡ digits q = digits-prefix q b (λ n. cc (e, n)) in
      rw (same, drop-append_le (length (digits q)) q b (length-digits_le q), e)
        (parse_space-Refused (value 0 (digits q)) len (length (digits q)) i y t b
          (omega
            (arith, inside, length-drop (length (digits q)) q, ap length e, length-digits_le q))
          (rw e at h))
]

parse_body-Refused :
    (e : Bool) (len i : ℕ) (q b : Bytes)
    → Refused (parse_body e len i q)
    → (q ≢ []) × Refused (parse_body e len i (q ++ b))
unfolding parse_body
parse_body-Refused e len i [] b (x, h) = cc
parse_body-Refused e len i (y ∷ q) b h = (
  λ n. cc,
  elim (Bool-cases (y == colon)) [
    | inr other ↦ (miss_the_colon, rw other)
    | inl found ↦ elim (Bool-cases (leb (len + 1) (length q))) [
      | inr part ↦ cc ((rw (found, part) at h).1)
      | inl whole ↦
          let whole' : leb (len + 1) (length (q ++ b)) ≡ true = ground (arith, length-append q b) in
          rw (found, whole')
            (parse_command-Refused e len (i + 1) q b (ground arith) (rw (found, whole) at h))
    ]
  ],
)

pub parse-Refused : (e : Bool) (q b : Bytes) → Refused (parse e q) → Refused (parse e (q ++ b))
unfolding parse
parse-Refused e q b h = elim (Bool-cases (leb 3 (length q))) [
  | inr few ↦ cc ((rw few at h).1)
  | inl three ↦
      let three' : leb 3 (length (q ++ b)) ≡ true = ground (arith, length-append q b) in
      rw (three', get_elem?-append q b 0 (ground arith), get_elem?-append q b 1 (ground arith))
        (elim (Bool-cases (is_byte 0x30 (get_elem? q 0) && is_digit (get_elem? q 1))) [
          | inl zeros ↦ (find_leading_zeros, rw zeros)
          | inr fine ↦ elim (Bool-cases (is_digit (get_elem? q 0))) [
            | inr other ↦ (must_start_with_a_number, rw (fine, other))
            | inl digit ↦ elim (Bool-cases (ltb 10 (length (digits (q ++ b))))) [
              | inl many ↦ (more_than_9_digits, rw (fine, digit, many))
              | inr fits ↦
                  let fits' : ltb 10 (length (digits q)) ≡ false =
                    ground (arith, length-digits-append q b) in
                  let (nonempty, refused) =
                    parse_body-Refused e (value 0 (digits q)) (length (digits q)) (after_digits q) b
                      (rw (three, fine, digit, fits') at h) in
                  rw
                    (
                      fine,
                      digit,
                      digits-prefix q b nonempty,
                      fits',
                      drop-append_le (length (digits q)) q b (length-digits_le q),
                    )
                    refused
            ]
          ]
        ])
]
