-- ===== src/Session/Commands.antt =====
-- The commands that `getTextCommand` of helper/WebTransportWS.js gives to messages, the streams that
-- `send` uses, and `restrain` of function/restrain.js.
use webtransport_gos.Prelude.{
  ℕ, zero, suc, ◌+◌, ◌-◌, ◌≤◌, ◌<◌, ◌≡◌, refl, ap, sym, ◌∙◌, true, false, some, List, [], ◌∷◌,
  arith, ltb, leb, ◌==◌, ◌&&◌, if◌then◌else◌, length,
}
use webtransport_gos.Prelude.Int.{ℤ, pos, negsuc, pos_part, ◌≤ℤ◌}
use webtransport_gos.Js.Bytes.{Bytes}
use webtransport_gos.NetString.Encode.{encode-netstring, netstring, command_of}
use webtransport_gos.Session.{
  Options, Session, Effect, write, is_stream, get_text_command, set_current_write_streams, restrain,
  slice_end, write_each, send,
}

-- The object after `n` calls of `getTextCommand`.
unfoldable pub after_commands : Options → ℕ → Session → Session
after_commands o zero s = s
after_commands o (suc n) s = after_commands o n (get_text_command o s).0

-- The command that the next call gives.
abbrev pub command_at : Options → ℕ → Session → ℤ
command_at o n s = (get_text_command o (after_commands o n s)).1

abbrev pub IsRange : Options → Session → Type 0
IsRange o s =
    (o.text_command_start ≤ s.text_command_pointer) × (s.text_command_pointer ≤ o.text_command_end)

-- `n` places after `p`, going from the end back to the start.
abbrev pub place : Options → ℕ → ℕ → ℕ
place o p n =
    if ltb o.text_command_end (p + n)
    then p + n - (o.text_command_end + 1 - o.text_command_start)
    else p + n

pointer_next :
    (o : Options) (s : Session)
    → o.enable_command ≡ true
    → (get_text_command o s).0.text_command_pointer ≡ (
        if ltb o.text_command_end (s.text_command_pointer + 1)
        then o.text_command_start
        else s.text_command_pointer + 1)
unfolding get_text_command
pointer_next o s h = rw h refl

pointer_after :
    (o : Options) (n : ℕ) (s : Session)
    → o.enable_command ≡ true
    → IsRange o s
    → n ≤ o.text_command_end + 1 - o.text_command_start
    → (after_commands o n s).text_command_pointer ≡ place o s.text_command_pointer n
unfolding after_commands
pointer_after o zero s h r k = ground arith
pointer_after o (suc n) s h r k =
    let next = pointer_next o s h in
    let inside : IsRange o (get_text_command o s).0 =
      (ground (arith, next), ground (arith, next)) in
    let rest = pointer_after o n (get_text_command o s).0 h inside (omega arith) in
    ground (arith, next, rest)

pub command_is_pointer :
    (o : Options) (s : Session)
    → o.enable_command ≡ true
    → (get_text_command o s).1 ≡ pos s.text_command_pointer
unfolding get_text_command
command_is_pointer o s h = rw h refl

-- When commands are enabled and the pointer is in their range: up to as many calls as there are
-- commands, the n-th command is n places after the pointer, going from the last command back to the
-- first, and the pointer stays in range.
command_at_lem :
    (o : Options) (n : ℕ) (s : Session)
    → o.enable_command ≡ true
    → IsRange o s
    → n ≤ o.text_command_end + 1 - o.text_command_start
    → (command_at o n s ≡ pos (place o s.text_command_pointer n)) × IsRange o (after_commands o n s)
command_at_lem o n s h r k =
    let e = pointer_after o n s h r k in
    (
      command_is_pointer o (after_commands o n s) h ∙ ap pos e,
      (ground (arith, e), ground (arith, e)),
    )

place_inj :
    (o : Options) (p i j : ℕ)
    → o.text_command_start ≤ p
    → p ≤ o.text_command_end
    → i < o.text_command_end + 1 - o.text_command_start
    → j < o.text_command_end + 1 - o.text_command_start
    → place o p i ≡ place o p j
    → i ≡ j
place_inj o p i j a b hi hj e = ground arith

-- When commands are enabled and the pointer is in their range: among as many calls in a row as
-- there are commands, no two give the same command.
pub commands_differ :
    (o : Options) (i j : ℕ) (s : Session)
    → o.enable_command ≡ true
    → IsRange o s
    → i < o.text_command_end + 1 - o.text_command_start
    → j < o.text_command_end + 1 - o.text_command_start
    → command_at o i s ≡ command_at o j s
    → i ≡ j
commands_differ o i j s h r p q e =
    let a = (command_at_lem o i s h r (omega arith)).0 in
    let b = (command_at_lem o j s h r (omega arith)).0 in
    place_inj o s.text_command_pointer i j r.0 r.1 p q (ap pos_part (sym a ∙ (e ∙ b)))

-- If there is a writer, the number of streams to write to is kept between one and the number of
-- writers, whatever is set.
pub current_write_streams_bounds :
    (value : ℤ) (s : Session)
    → 0 < s.writers
    → (pos 1 ≤ℤ (set_current_write_streams value s).current_write_streams)
      × ((set_current_write_streams value s).current_write_streams ≤ℤ pos s.writers)
unfolding set_current_write_streams restrain
current_write_streams_bounds value s h = (ground arith, ground arith)

-- The streams that a message goes to.
abbrev pub targets : Options → Session → ℕ
targets o s = if o.auto_stream then slice_end s.writers s.current_write_streams else s.writers

-- With a text encoder, and in a mode other than `stream`, a message is encoded with the next
-- command and written once to each target stream.
pub send_lem :
    (o : Options) (message : Bytes) (s : Session)
    → is_stream o.mode ≡ false
    → s.has_encoder ≡ true
    → send o message s ≡ (
      (get_text_command o s).0,
      write_each 0 (targets o s) (netstring (command_of (some (get_text_command o s).1)) message),
    )
unfolding send
send_lem o message s h k = ground (arith, encode-netstring message (some (get_text_command o s).1))

-- What a stream is sent.
abbrev pub written_to : ℕ → List Effect → List Bytes
written_to i [] = []
written_to i (write j b ∷ es) = if i == j then b ∷ written_to i es else written_to i es
written_to i (e ∷ es) = written_to i es

pub written_to-write_each :
    (i from n : ℕ) (b : Bytes)
    → written_to i (write_each from n b) ≡ (if leb from i && ltb i (from + n) then b ∷ [] else [])
written_to-write_each i from zero b = ground arith
written_to-write_each i from (suc n) b = ground (arith, written_to-write_each i (from + 1) n b)

set_in_range :
    (value : ℤ) (s : Session)
    → pos 1 ≤ℤ value
    → value ≤ℤ pos s.writers
    → set_current_write_streams value s ≡ record s { current_write_streams = value }
unfolding set_current_write_streams restrain
set_in_range value s p q = ground arith

-- With a text encoder, in a mode other than `stream` and with `auto_stream` on: after a number of
-- streams between one and all was set, a message goes once to each of that many streams, from the
-- first on, and to no other.
pub send_auto_stream :
    (o : Options) (message : Bytes) (value : ℤ) (s : Session) (i : ℕ)
    → is_stream o.mode ≡ false
    → s.has_encoder ≡ true
    → o.auto_stream ≡ true
    → pos 1 ≤ℤ value
    → value ≤ℤ pos s.writers
    → length (written_to i (send o message (set_current_write_streams value s)).1)
      ≡ (if ltb i (pos_part value) then 1 else 0)
send_auto_stream o message (negsuc k) s i h e auto p q = absurd (omega arith)
send_auto_stream o message (pos k) s i h e auto p q =
    let s' = record s { current_write_streams = pos k } in
    let sent = send_lem o message s' h e in
    let frame = netstring (command_of (some (get_text_command o s').1)) message in
    let on_i = written_to-write_each i 0 (targets o s') frame in
    let n : targets o s' ≡ k = ground arith in
    rw (set_in_range (pos k) s p q, sent, n) (ground (arith, on_i, n))
