-- ===== src/NetString/Encode.antt =====
-- `NetString.encode` of example/bjy-common/lib/helper/NetString.js, and the text that it writes.
use webtransport_gos.Prelude.{
  ℕ, zero, suc, ◌+◌, ◌≤◌, ◌≡◌, refl, ap, sym, ◌∙◌, Option, none, some, [], ◌∷◌, ◌++◌, arith, length,
  set, take, drop, length-append, set-append, append_assoc,
}
use webtransport_gos.Prelude.Int.{ℤ, pos, negsuc}
use webtransport_gos.Js.Exn.{Result, ok, ◌>>=◌}
use webtransport_gos.Js.Bytes.{Bytes, zeros, set_bytes, set_bytes_fits, overlay, length-zeros}
use webtransport_gos.NetString.{colon, comma, space}
use webtransport_gos.NetString.Decimal.{decimal}

-- The text in front of the payload, `leadingString`: a command that is undefined or negative is left
-- out. (Its characters are ASCII, so their codes are its bytes.)
unfoldable pub leading_string : Bytes → Option ℤ → Bytes
leading_string payload (some (pos cmd)) =
    decimal (length payload + length (decimal cmd ++ space ∷ []))
    ++ colon ∷ (decimal cmd ++ space ∷ [])
leading_string payload _ = decimal (length payload) ++ colon ∷ []

-- `for (i = 0; …; i++) buffer[i] = leadingString.charCodeAt(i)`, from `i` on.
unfoldable pub put_codes : Bytes → ℕ → Bytes → Bytes
put_codes buffer i [] = buffer
put_codes buffer i (c ∷ cs) = put_codes (set buffer i c) (i + 1) cs

-- A number `cmd` is a whole one; the sources pass no other.
unfoldable pub encode : Bytes → Option ℤ → Result Bytes
unfolding leading_string put_codes
encode payload cmd =
    let leading = leading_string payload cmd in
    let i = length leading in
    let buffer = put_codes (zeros (i + length payload + 1)) 0 leading in
    do filled ← set_bytes buffer payload i; ok (set filled (i + length payload) comma)

-- What stands between the colon and the comma of a frame, and the frame.
unfoldable pub body : Option ℕ → Bytes → Bytes
body none payload = payload
body (some cmd) payload = decimal cmd ++ space ∷ payload

unfoldable pub netstring : Option ℕ → Bytes → Bytes
netstring cmd payload =
    decimal (length (body cmd payload)) ++ colon ∷ (body cmd payload ++ comma ∷ [])

-- The command that `encode` writes.
abbrev pub command_of : Option ℤ → Option ℕ
command_of (some (pos cmd)) = some cmd
command_of _ = none

put_codes_lem :
    (xs cs : Bytes) (m n i : ℕ)
    → m ≡ length cs + n
    → i ≡ length xs
    → put_codes (xs ++ zeros m) i cs ≡ xs ++ (cs ++ zeros n)
unfolding put_codes
put_codes_lem xs [] m n i em e = ap (λ k. xs ++ zeros k) (omega arith)
put_codes_lem xs (c ∷ cs) zero n i em e = absurd (omega arith)
put_codes_lem xs (c ∷ cs) (suc m) n i em e =
    let written : set (xs ++ 0 ∷ zeros m) i c ≡ (xs ++ c ∷ []) ++ zeros m =
      rw e (set-append xs (zeros m) 0 c ∙ sym (append_assoc xs (c ∷ []) (zeros m))) in
    let next =
      put_codes_lem (xs ++ c ∷ []) cs m n (i + 1) (omega arith)
        (omega (arith, length-append xs (c ∷ []))) in
    ap (λ buffer. put_codes buffer (i + 1) cs) written
    ∙ next
    ∙ append_assoc xs (c ∷ []) (cs ++ zeros n)

take-append : (xs ys : Bytes) → take (length xs) (xs ++ ys) ≡ xs
take-append [] ys = refl
take-append (x ∷ xs) ys = ap (λ zs. x ∷ zs) (take-append xs ys)

drop-append : (xs ys : Bytes) (n : ℕ) → drop (length xs + n) (xs ++ ys) ≡ drop n ys
drop-append [] ys n = ap (λ k. drop k ys) {y = n} (omega arith)
drop-append (x ∷ xs) ys n =
    ap (λ k. drop k (x ∷ (xs ++ ys))) {y = suc (length xs + n)} (omega arith) ∙ drop-append xs ys n

drop-zeros : (n m : ℕ) → drop n (zeros (n + m)) ≡ zeros m
drop-zeros zero m = ap zeros (omega arith)
drop-zeros (suc n) m =
    ap (λ k. drop (suc n) (zeros k)) {y = suc (n + m)} (omega arith) ∙ drop-zeros n m

-- The payload and the comma go into the zeros left behind the leading text.
fill_lem :
    (leading payload : Bytes)
    → (do
      filled ← set_bytes (leading ++ zeros (length payload + 1)) payload (length leading)
      ok (set filled (length leading + length payload) comma))
      ≡ ok (leading ++ (payload ++ comma ∷ []))
unfolding overlay
fill_lem leading payload =
    rw (set_bytes_fits buffer payload (length leading) fits, overlaid, last_index)
      (ap ok
        (set-append (leading ++ payload) [] 0 comma ∙ append_assoc leading payload (comma ∷ [])))
  where
    buffer : Bytes
    buffer = leading ++ zeros (length payload + 1)

    fits : length leading + length payload ≤ length buffer
    fits = omega (
      arith,
      length-append leading (zeros (length payload + 1)),
      length-zeros (length payload + 1),
    )

    overlaid : overlay buffer payload (length leading) ≡ (leading ++ payload) ++ 0 ∷ []
    overlaid =
        ap (λ xs. xs ++ (payload ++ drop (length leading + length payload) buffer))
          (take-append leading (zeros (length payload + 1)))
        ∙ ap (λ xs. leading ++ (payload ++ xs))
            (drop-append leading (zeros (length payload + 1)) (length payload)
              ∙ drop-zeros (length payload) 1)
        ∙ sym (append_assoc leading payload (0 ∷ []))

    last_index : length leading + length payload ≡ length (leading ++ payload)
    last_index = sym (length-append leading payload)

leading_netstring :
    (payload : Bytes) (cmd : Option ℤ)
    → leading_string payload cmd ++ (payload ++ comma ∷ []) ≡ netstring (command_of cmd) payload
unfolding leading_string netstring body
leading_netstring payload none = append_assoc (decimal (length payload)) (colon ∷ []) _
leading_netstring payload (some (negsuc k)) = append_assoc (decimal (length payload)) (colon ∷ []) _
leading_netstring payload (some (pos n)) = rw same_length (simp append_assoc)
  where
    same_length :
        length payload + length (decimal n ++ space ∷ []) ≡ length (decimal n ++ space ∷ payload)
    same_length =
        omega (
          arith,
          length-append (decimal n) (space ∷ []),
          length-append (decimal n) (space ∷ payload),
        )

-- `encode` does not throw, and writes the netstring of the payload and the command.
pub encode-netstring :
    (payload : Bytes) (cmd : Option ℤ)
    → encode payload cmd ≡ ok (netstring (command_of cmd) payload)
unfolding encode
encode-netstring payload cmd =
    let leading = leading_string payload cmd in
    rw
      (put_codes_lem [] leading (length leading + length payload + 1) (length payload + 1) 0
        (omega arith) refl)
      (fill_lem leading payload ∙ ap ok (leading_netstring payload cmd))
