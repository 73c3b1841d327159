-- ===== src/NetString/Payload.antt =====
-- What `decode` of helper/NetString.js does behind the length of a frame: the command and the payload,
-- against the grammar.
use mathlib.Core.Path.{subst}
use native.Mathlib.Decide.{dec_lt}
use webtransport_gos.Prelude.{
  ◌⊎◌, ℕ, zero, suc, ◌+◌, ◌-◌, ◌≤◌, ◌<◌, ◌≡◌, refl, ap, sym, ◌∙◌, true, false, some, none, [], ◌∷◌,
  arith, length, take, get_elem?, Bool-cases, inl, inr, leb, ◌==◌, Bool, Option, leb→le,
  if◌then◌else◌,
}
use webtransport_gos.Prelude.Int.{pos, negsuc, ◌-ℤ◌, int_laws, ℤ}
use webtransport_gos.Js.Exn.{Error, Result, ok, err, ◌>>=◌, miss_the_space, miss_the_comma}
use webtransport_gos.Js.Bytes.{Bytes, byte_at, byte_at-drop}
use webtransport_gos.Ring.{
  Ring, read_byte, skip, back, get_byte_by_index, get_length, read_by_range, get_current_pointer,
}
use webtransport_gos.Ring.Bounds.{IsValid}
use webtransport_gos.Ring.Contents.{contents}
use webtransport_gos.Ring.Consume.{
  Consumed, Consumed-IsValid, Consumed-skip, contents-Consumed, back-Consumed, get_byte_behind,
}
use webtransport_gos.Ring.Range.{read_lem, read_by_range-Consumed, read_by_range_total}
use webtransport_gos.NetString.{
  Step, wait, deliver, is_byte, colon, comma, space, read_command, read_payload, read_body,
}
use webtransport_gos.NetString.Digits.{digits, value, after_digits, byte_at-digits}
use webtransport_gos.NetString.Grammar.{
  Parsed, more, bad, got, parse_payload, parse_space, parse_command, parse_body,
}
use webtransport_gos.NetString.Loops.{
  Reading, Reading-IsValid, Reading-len, Reading-get_length, Reading-byte, Reading-head,
  Reading-next, command_loop_lem,
}

-- A round that began at `r₀` does what the grammar found in the buffer's contents: it leaves the
-- buffer as it was, throws the same error, or delivers the same payload and command and takes the
-- frame's bytes off. What it calls serialized is what `readByRange` copies out between the positions
-- before and after: these bytes, unless they fill the whole buffer.
abbrev pub Agrees : Ring → Parsed → Result Step → Type 0
Agrees r₀ more s = (r : Ring) × (s ≡ ok (wait r)) × Consumed r₀ r 0
Agrees r₀ (bad e) s = s ≡ err e
Agrees r₀ (got p c n) s =
    (r : Ring) × (xs : Bytes) × (s
      ≡ ok (deliver (record { payload = some p; serialized = xs; cmd = c }) r))
    × Consumed r₀ r n
    × (read_by_range r r₀.valid r.valid ≡ ok xs)
    × ((xs ≡ take n (contents r₀)) ⊎ (n ≡ r₀.size))

if->>= {ℓ κ} :
    {A : Type ℓ} {B : Type κ} (b : Bool) (a : A) (e : Error) (f : A → Result B)
    → ((if b then ok a else err e) >>= f) ≡ (if b then f a else err e)
if->>= true a e f = refl
if->>= false a e f = refl

is_byte_lt : (c i : ℕ) (q : Bytes) → is_byte c (get_elem? q i) ≡ true → i < length q
is_byte_lt c i [] h = cc
is_byte_lt c zero (x ∷ q) h = omega arith
is_byte_lt c (suc i) (x ∷ q) h = omega (arith, is_byte_lt c i q h)

module _ (r₀ : Ring) (v : IsValid r₀) where
  -- The payload is read, the comma skipped, and the whole frame copied out.
  payload_read :
      (r : Ring) (i : ℕ) (q : Bytes) (cmd : Option ℕ) (len : ℕ)
      → Reading r₀ r i q
      → len < length q
      → is_byte comma (get_byte_by_index r (pos len)) ≡ true
      → Agrees r₀ (got (take len q) cmd (i + len + 1)) (read_payload r₀.valid cmd (pos len) r)
  unfolding read_payload get_current_pointer
  payload_read r i q cmd len at enough found =
      let w = Reading-IsValid r₀ r i q v at in
      let l = Reading-len r₀ r i q v at in
      let r' = skip (skip r len) 1 in
      let c = Consumed-skip r₀ r i v at.consumed len (omega arith) in
      let c' =
        Consumed-skip r₀ (skip r len) (i + len) v c 1 (omega (arith, c.fewer, at.consumed.fewer)) in
      let w' = Consumed-IsValid r₀ r' (i + len + 1) v c' in
      let (xs, copied) =
        read_by_range_total r' r₀.valid r'.valid w' (omega (arith, v.valid_in, c'.same_size))
          w'.valid_in in
      (
        r',
        xs,
        rw (found, read_lem r len w (omega arith) (omega arith), copied, at.holds),
        c',
        copied,
        elim (dec_lt (i + len + 1) r₀.size) [
          | yes small ↦ inl (
              some_injective
                (sym copied ∙ read_by_range-Consumed r₀ r' (i + len + 1) v c' (omega arith) small))
          | no large ↦ inr (omega (arith, c'.fewer, v.len_in))
        ],
      )
    where
      some_injective : {xs ys : Bytes} → ok xs ≡ ok ys → xs ≡ ys
      some_injective e = cc

  read_payload_lem :
      (r : Ring) (i : ℕ) (q : Bytes) (cmd : Option ℕ) (len : ℕ)
      → Reading r₀ r i q
      → Agrees r₀ (parse_payload cmd len i q) (read_payload r₀.valid cmd (pos len) r)
  unfolding parse_payload
  read_payload_lem r i q cmd len at =
      let e = Reading-byte r₀ r i q v at len in
      elim (Bool-cases (is_byte comma (get_elem? q len))) [
        | inl y ↦ rw y (payload_read r i q cmd len at (is_byte_lt comma len q y) (rw e y))
        | inr n ↦ rw n (unfold read_payload in rw (e, n))
      ]

  -- A payload length below 0 makes `decode` look at the command it has read, which holds no comma.
  read_payload_negative :
      (r r' : Ring) (k j : ℕ) (q : Bytes) (cmd : Option ℕ)
      → Reading r₀ r k q
      → Consumed r₀ r' (k + (length (digits q) + 1))
      → byte_at q (length (digits q)) ≡ space
      → j ≤ length (digits q)
      → read_payload r₀.valid cmd (negsuc j) r' ≡ err miss_the_comma
  unfolding read_payload
  read_payload_negative r r' k j q cmd at c sp le =
      elim (get_byte_behind r₀ r' (k + (length (digits q) + 1)) j v c (omega arith)) [
        | inl e ↦ rw e
        | inr e ↦ rw e (ground (arith, before_command))
      ]
    where
      where_it_is :
          byte_at (contents r₀) (k + (length (digits q) + 1) - suc j)
          ≡ byte_at q (length (digits q) - j)
      where_it_is =
          ap (byte_at (contents r₀)) {y = k + (length (digits q) - j)} (omega arith)
          ∙ sym (byte_at-drop k (contents r₀) (length (digits q) - j))
          ∙ ap (λ xs. byte_at xs (length (digits q) - j))
              (sym (contents-Consumed r₀ r k v at.consumed) ∙ at.holds)

      before_command :
          is_byte comma (some (byte_at (contents r₀) (k + (length (digits q) + 1) - suc j))) ≡ false
      before_command = rw where_it_is (ground (arith, sp, byte_at-digits q (length (digits q) - j)))

  -- The command, the space behind it and the payload.
  after_command : Option ℕ × ℤ × Ring → Result Step
  after_command t = read_payload r₀.valid t.0 t.1 t.2

  read_space_lem :
      (r r' : Ring) (k : ℕ) (q t : Bytes) (cmd len : ℕ)
      → Reading r₀ r k q
      → Reading r₀ r' (k + length (digits q)) t
      → t ≡ after_digits q
      → let (b, r'') = read_byte r' in
        Agrees r₀ (parse_space cmd len (length (digits q)) k t) (
          if is_byte space b
          then read_payload r₀.valid (some cmd) (pos len -ℤ pos (length (digits q)) -ℤ pos 1) r''
          else err miss_the_space)
  unfolding parse_space
  read_space_lem r r' k q [] cmd len at at' e =
      rw (Reading-head r₀ r' (k + length (digits q)) [] v at')
  read_space_lem r r' k q (b ∷ t) cmd len at at' e =
      let d = length (digits q) in
      let next = Reading-next r₀ r' (k + d) b t v at' in
      let next' =
        subst (λ n. Reading r₀ (read_byte r').1 n t) {y = k + (d + 1)} (omega arith) next in
      rw (Reading-head r₀ r' (k + d) (b ∷ t) v at') (elim (Bool-cases (b == space)) [
        | inr other ↦ rw other
        | inl sp ↦ rw sp (elim (Bool-cases (leb (d + 1) len)) [
          | inl room ↦
              let e' : pos len -ℤ pos d -ℤ pos 1 ≡ pos (len - (d + 1)) =
                omega (int_laws, leb→le _ _ room) in
              rw (room, e')
                (read_payload_lem (read_byte r').1 (k + (d + 1)) t (some cmd) (len - (d + 1)) next')
          | inr short ↦
              let over : len ≤ d = ground arith in
              let e' : pos len -ℤ pos d -ℤ pos 1 ≡ negsuc (d - len) = omega (int_laws, over) in
              rw (short, e')
                (read_payload_negative r (read_byte r').1 k (d - len) q (some cmd) at next'.consumed
                  (here sp) (omega arith))
        ])
      ])
    where
      here : (b == space) ≡ true → byte_at q (length (digits q)) ≡ space
      here sp = ground (arith, byte_at-drop (length (digits q)) q 0, e)

  read_command_lem :
      (r : Ring) (k : ℕ) (q : Bytes) (e : Bool) (len : ℕ)
      → Reading r₀ r k q
      → Agrees r₀ (parse_command e len k q) (read_command e len r >>= after_command)
  unfolding read_command parse_command after_command
  read_command_lem r k q false len at = read_payload_lem r k q none len at
  read_command_lem r k q true len at =
      let (r', run, at') =
        command_loop_lem (get_length r) q r₀ r k 0 (pos len) v at
          (omega (arith, Reading-get_length r₀ r k q v at)) in
      rw (run, if->>=)
        (read_space_lem r r' k q (after_digits q) (value 0 (digits q)) len at at' refl)

  -- From the colon on.
  pub read_body_lem :
      (r : Ring) (i : ℕ) (q : Bytes) (e : Bool) (len : ℕ)
      → Reading r₀ r i q
      → Agrees r₀ (parse_body e len i q) (read_body e r₀.valid len i r)
  unfolding read_body parse_body after_command
  read_body_lem r i [] e len at =
      let nothing : get_length r ≡ 0 = Reading-get_length r₀ r i [] v at in
      (back r i, rw nothing, back-Consumed r₀ r i v at.consumed)
  read_body_lem r i (b ∷ q) e len at =
      let something : (get_length r == 0) ≡ false =
        ground (arith, Reading-get_length r₀ r i (b ∷ q) v at) in
      let next = Reading-next r₀ r i b q v at in
      let left : get_length (read_byte r).1 ≡ length q =
        Reading-get_length r₀ (read_byte r).1 (i + 1) q v next in
      rw (something, Reading-head r₀ r i (b ∷ q) v at, left)
        (elim (Bool-cases (b == colon)) [
          | inr other ↦ rw other (ground arith)
          | inl found ↦ rw found (elim (Bool-cases (leb (len + 1) (length q))) [
            | inl whole ↦ rw whole (read_command_lem (read_byte r).1 (i + 1) q e len next)
            | inr part ↦
                rw part
                  (back (read_byte r).1 (i + 1), refl, back-Consumed r₀ _ (i + 1) v next.consumed)
          ])
        ])
