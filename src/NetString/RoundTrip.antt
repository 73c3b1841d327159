-- ===== src/NetString/RoundTrip.antt =====
-- The grammar of `decode` reads back every frame that `encode` of helper/NetString.js writes.
use webtransport_gos.Prelude.{
  ℕ, ◌+◌, ◌-◌, ◌^◌, ◌≤◌, ◌<◌, ◌≡◌, refl, ap, ◌∙◌, Bool, true, false, ◌&&◌, Option, none, some, [],
  ◌∷◌, ◌++◌, arith, length, take, drop, get_elem?, length-append, append_assoc, inl, inr, ltb, leb,
}
use webtransport_gos.Js.Bytes.{Bytes}
use webtransport_gos.NetString.{colon, comma, space, is_digit, is_byte}
use webtransport_gos.NetString.Digits.{digits}
use webtransport_gos.NetString.Decimal.{
  decimal, decimal-AllDigits, decimal-head, value-decimal, length-decimal_le, digits-append,
}
use webtransport_gos.NetString.Grammar.{
  got, parse_payload, parse_space, parse_command, parse_body, parse,
}
use webtransport_gos.NetString.Encode.{body, netstring}

pub drop-length : (xs ys : Bytes) → drop (length xs) (xs ++ ys) ≡ ys
drop-length [] ys = refl
drop-length (x ∷ xs) ys = drop-length xs ys

pub take-length : (xs ys : Bytes) → take (length xs) (xs ++ ys) ≡ xs
take-length [] ys = refl
take-length (x ∷ xs) ys = ap (λ zs. x ∷ zs) (take-length xs ys)

get_elem?-length : (xs ys : Bytes) (y : ℕ) → get_elem? (xs ++ y ∷ ys) (length xs) ≡ some y
get_elem?-length [] ys y = refl
get_elem?-length (x ∷ xs) ys y = get_elem?-length xs ys y

-- The payload is found where the length says, with the comma behind it.
parse_payload-comma :
    (cmd : Option ℕ) (payload rest : Bytes) (i : ℕ)
    → parse_payload cmd (length payload) i (payload ++ comma ∷ rest)
      ≡ got payload cmd (i + length payload + 1)
unfolding parse_payload
parse_payload-comma cmd payload rest i =
    rw (get_elem?-length payload rest comma, take-length payload (comma ∷ rest))

digits-decimal :
    (n x : ℕ) (q : Bytes) → is_digit (some x) ≡ false → digits (decimal n ++ x ∷ q) ≡ decimal n
digits-decimal n x q h = digits-append (decimal n) x q (decimal-AllDigits n) h

abbrev pub has_command : Option ℕ → Bool
has_command none = false
has_command (some _) = true

parse_space-body :
    (cmd d len i : ℕ) (payload rest : Bytes)
    → len ≡ d + 1 + length payload
    → parse_space cmd len d i (space ∷ (payload ++ comma ∷ rest))
      ≡ got payload (some cmd) (i + len + 1)
unfolding parse_space
parse_space-body cmd d len i payload rest e =
    let room : leb (d + 1) len ≡ true = ground arith in
    let left : len - (d + 1) ≡ length payload = omega arith in
    rw (room, left)
      (parse_payload-comma (some cmd) payload rest (i + (d + 1))
        ∙ ap (got payload (some cmd)) (omega arith))

parse_command-body :
    (cmd : Option ℕ) (payload rest : Bytes) (i : ℕ)
    → parse_command
        (has_command cmd)
        (length (body cmd payload))
        i
        (body cmd payload ++ comma ∷ rest)
      ≡ got payload cmd (i + length (body cmd payload) + 1)
unfolding parse_command body
parse_command-body none payload rest i = parse_payload-comma none payload rest i
parse_command-body (some c) payload rest i =
    let q = payload ++ comma ∷ rest in
    rw
      (
        append_assoc (decimal c) (space ∷ payload) (comma ∷ rest),
        digits-decimal c space q refl,
        drop-length (decimal c) (space ∷ q),
        value-decimal,
      )
      (parse_space-body c (length (decimal c)) (length (decimal c ++ space ∷ payload)) i payload
        rest (omega (arith, length-append (decimal c) (space ∷ payload))))

-- The checks at the front of a frame pass, and the loop reads its length.
decimal-front :
    (n : ℕ) (t : Bytes)
    → let q = decimal n ++ colon ∷ t in
      ((is_byte 0x30 (get_elem? q 0) && is_digit (get_elem? q 1)) ≡ false)
      × (is_digit (get_elem? q 0) ≡ true)
      × (1 ≤ length (decimal n))
decimal-front n t = elim (decimal-head n) [
  | inl e ↦ rw e (refl, refl, omega arith)
  | inr (d, xs, e, h) ↦
      let digit = (rw e at (decimal-AllDigits n)).0 in rw e (ground arith, digit, omega arith)
]

parse-decimal :
    (n : ℕ) (t : Bytes) (e : Bool)
    → n < 10 ^ 10
    → 1 ≤ length t
    → parse e (decimal n ++ colon ∷ t) ≡ parse_body e n (length (decimal n)) (colon ∷ t)
unfolding parse
parse-decimal n t e small some_left =
    let (no_zero, digit, nonempty) = decimal-front n t in
    let three : leb 3 (length (decimal n ++ colon ∷ t)) ≡ true =
      ground (arith, length-append (decimal n) (colon ∷ t)) in
    let few : ltb 10 (length (decimal n)) ≡ false = ground (arith, length-decimal_le 9 n small) in
    rw (
      three,
      no_zero,
      digit,
      digits-decimal n colon t refl,
      few,
      drop-length (decimal n) (colon ∷ t),
      value-decimal,
    )

-- A frame as `encode` writes it is found whole at the front of the bytes, whatever follows, if its
-- length is written with at most ten digits.
pub parse-netstring :
    (cmd : Option ℕ) (payload rest : Bytes)
    → length (body cmd payload) < 10 ^ 10
    → parse (has_command cmd) (netstring cmd payload ++ rest)
      ≡ got payload cmd (length (netstring cmd payload))
unfolding netstring parse_body
parse-netstring cmd payload rest small =
    let b = body cmd payload in
    let n = length b in
    let t = b ++ comma ∷ rest in
    let enough : leb (n + 1) (length t) ≡ true = ground (arith, length-append b (comma ∷ rest)) in
    rw
      (
        shape,
        parse-decimal n t (has_command cmd) small (omega (arith, length-append b (comma ∷ rest))),
        enough,
      )
      (parse_command-body cmd payload rest (length (decimal n) + 1) ∙ ap (got payload cmd) size)
  where
    shape :
        (decimal (length (body cmd payload)) ++ colon ∷ (body cmd payload ++ comma ∷ [])) ++ rest
        ≡ decimal (length (body cmd payload)) ++ colon ∷ (body cmd payload ++ comma ∷ rest)
    shape = simp append_assoc

    size :
        length (decimal (length (body cmd payload))) + 1 + length (body cmd payload) + 1
        ≡ length (decimal (length (body cmd payload)) ++ colon ∷ (body cmd payload ++ comma ∷ []))
    size = omega (
      arith,
      length-append (decimal (length (body cmd payload)))
          (colon ∷ (body cmd payload ++ comma ∷ [])),
      length-append (body cmd payload) (comma ∷ []),
    )
