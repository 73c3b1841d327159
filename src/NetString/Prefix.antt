-- ===== src/NetString/Prefix.antt =====
-- A frame found at the front of some bytes is found there whatever bytes follow: `decode` of
-- helper/NetString.js may be given a stream in pieces.
use webtransport_gos.Prelude.{
  ℕ, zero, suc, ◌+◌, ◌-◌, ◌≤◌, ◌<◌, ◌≡◌, ◌≢◌, refl, ap, ◌∙◌, Bool, true, false, ◌&&◌, Option, none,
  some, [], ◌∷◌, ◌++◌, arith, length, take, drop, get_elem?, length-append, inl, inr, ltb, leb,
  Bool-cases, length-drop,
}
use webtransport_gos.Js.Bytes.{Bytes}
use webtransport_gos.NetString.{comma, is_digit, is_byte}
use webtransport_gos.NetString.Digits.{
  digits, value, after_digits, digits_cons, digits_stop, digits-nil,
}
use webtransport_gos.NetString.Grammar.{
  Parsed, got, parse_payload, parse_space, parse_command, parse_body, parse,
}

pub get_elem?-append : (q b : Bytes) (i : ℕ) → i < length q → get_elem? (q ++ b) i ≡ get_elem? q i
get_elem?-append [] b i h = absurd (omega arith)
get_elem?-append (x ∷ q) b zero h = refl
get_elem?-append (x ∷ q) b (suc i) h = get_elem?-append q b i (omega arith)

take-append_le : (n : ℕ) (q b : Bytes) → n ≤ length q → take n (q ++ b) ≡ take n q
take-append_le zero q b h = refl
take-append_le (suc n) [] b h = absurd (omega arith)
take-append_le (suc n) (x ∷ q) b h = ap (λ zs. x ∷ zs) (take-append_le n q b (omega arith))

pub drop-append_le : (n : ℕ) (q b : Bytes) → n ≤ length q → drop n (q ++ b) ≡ drop n q ++ b
drop-append_le zero q b h = refl
drop-append_le (suc n) [] b h = absurd (omega arith)
drop-append_le (suc n) (x ∷ q) b h = drop-append_le n q b (omega arith)

-- A run of digits that ends before the bytes do.
pub digits-prefix : (q b : Bytes) → after_digits q ≢ [] → digits (q ++ b) ≡ digits q
digits-prefix [] b h = absurd (h (rw digits-nil))
digits-prefix (x ∷ q) b h = elim (Bool-cases (is_digit (some x))) [
  | inl d ↦
      rw (digits_cons x q d, digits_cons x (q ++ b) d)
        (ap (λ zs. x ∷ zs) (digits-prefix q b (rw (digits_cons x q d) at h)))
  | inr d ↦ rw (digits_stop x q d, digits_stop x (q ++ b) d)
]

pub length-digits_le : (q : Bytes) → length (digits q) ≤ length q
unfolding digits
length-digits_le [] = omega arith
length-digits_le (x ∷ q) = ground (arith, length-digits_le q)

after_digits-prefix :
    (q b : Bytes) → after_digits q ≢ [] → after_digits (q ++ b) ≡ after_digits q ++ b
after_digits-prefix q b h =
    ap (λ ds. drop (length ds) (q ++ b)) (digits-prefix q b h)
    ∙ drop-append_le (length (digits q)) q b (length-digits_le q)

-- What a frame of `n` bytes, found with `i` bytes in front of `q`, says of `q` and of `q ++ b`.
abbrev Found : ℕ → Bytes → ℕ → Parsed → Parsed → Type 0
Found i q n longer p = (i < n) × (n ≤ i + length q) × (longer ≡ p)

is_byte_lt : (c i : ℕ) (q : Bytes) → is_byte c (get_elem? q i) ≡ true → i < length q
is_byte_lt c i [] h = cc
is_byte_lt c zero (x ∷ q) h = omega arith
is_byte_lt c (suc i) (x ∷ q) h = omega (arith, is_byte_lt c i q h)

parse_payload-Found :
    (cmd c : Option ℕ) (len i n : ℕ) (q b p : Bytes)
    → parse_payload cmd len i q ≡ got p c n
    → Found i q n (parse_payload cmd len i (q ++ b)) (got p c n)
unfolding parse_payload
parse_payload-Found cmd c len i n q b p e = elim (Bool-cases (is_byte comma (get_elem? q len))) [
  | inr other ↦ cc (rw other at e)
  | inl found ↦
      let inside = is_byte_lt comma len q found in
      let e' = rw found at e in
      (
        ground (arith, e'),
        ground (arith, e', inside),
        rw (get_elem?-append q b len inside, found, take-append_le len q b (omega (arith, inside)))
            e',
      )
]

parse_space-Found :
    (c : Option ℕ) (cmd len d i n : ℕ) (q b p : Bytes)
    → parse_space cmd len d i q ≡ got p c n
    → (q ≢ []) × Found (i + d) q n (parse_space cmd len d i (q ++ b)) (got p c n)
unfolding parse_space
parse_space-Found c cmd len d i n [] b p e = cc
parse_space-Found c cmd len d i n (x ∷ q) b p e =
    ground (arith, parse_payload-Found (some cmd) c (len - (d + 1)) (i + (d + 1)) n q b p)

parse_command-Found :
    (e : Bool) (c : Option ℕ) (len i n : ℕ) (q b p : Bytes)
    → parse_command e len i q ≡ got p c n
    → Found i q n (parse_command e len i (q ++ b)) (got p c n)
unfolding parse_command
parse_command-Found false c len i n q b p e = parse_payload-Found none c len i n q b p e
parse_command-Found true c len i n q b p e =
    let (nonempty, (later, inside, same)) =
      parse_space-Found c (value 0 (digits q)) len (length (digits q)) i n (after_digits q) b p e in
    (
      omega (arith, later),
      omega (arith, inside, length-drop (length (digits q)) q, length-digits_le q),
      rw (digits-prefix q b nonempty, drop-append_le (length (digits q)) q b (length-digits_le q))
          same,
    )

parse_body-Found :
    (e : Bool) (c : Option ℕ) (len i n : ℕ) (q b p : Bytes)
    → parse_body e len i q ≡ got p c n
    → (q ≢ []) × Found i q n (parse_body e len i (q ++ b)) (got p c n)
unfolding parse_body
parse_body-Found e c len i n [] b p h = cc
parse_body-Found e c len i n (x ∷ q) b p h =
    ground (arith, parse_command-Found e c len (i + 1) n q b p, length-append q b)

-- A frame found in `q` is found in `q ++ b`, and is at least one byte and at most all of `q`.
pub parse-prefix :
    (e : Bool) (c : Option ℕ) (n : ℕ) (q b p : Bytes)
    → parse e q ≡ got p c n
    → (0 < n) × (n ≤ length q) × (parse e (q ++ b) ≡ got p c n)
unfolding parse
parse-prefix e c n q b p h = elim (Bool-cases (leb 3 (length q))) [
  | inr few ↦ cc (rw few at h)
  | inl three ↦ elim (Bool-cases (is_byte 0x30 (get_elem? q 0) && is_digit (get_elem? q 1))) [
    | inl zeros ↦ cc (rw (three, zeros) at h)
    | inr fine ↦ elim (Bool-cases (is_digit (get_elem? q 0))) [
      | inr other ↦ cc (rw (three, fine, other) at h)
      | inl digit ↦ elim (Bool-cases (ltb 10 (length (digits q)))) [
        | inl many ↦ cc (rw (three, fine, digit, many) at h)
        | inr fits ↦
            let (nonempty, (later, inside, same)) =
              parse_body-Found e c (value 0 (digits q)) (length (digits q)) n (after_digits q) b p
                (rw (three, fine, digit, fits) at h) in
            let three' : leb 3 (length (q ++ b)) ≡ true = ground (arith, length-append q b) in
            (
              omega (arith, later),
              omega (arith, inside, length-drop (length (digits q)) q, length-digits_le q),
              rw
                  (
                    three',
                    get_elem?-append q b 0 (ground arith),
                    get_elem?-append q b 1 (ground arith),
                    fine,
                    digit,
                    digits-prefix q b nonempty,
                    fits,
                    drop-append_le (length (digits q)) q b (length-digits_le q),
                  )
                  same,
            )
      ]
    ]
  ]
]
