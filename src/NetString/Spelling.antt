-- ===== src/NetString/Spelling.antt =====
-- What a byte string spells: one thing only, the same in pieces as in whole.
use mathlib.Core.Path.{subst, subst₂}
use webtransport_gos.Prelude.{
  ℕ, ◌<◌, ◌^◌, ◌≡◌, refl, Bool, Option, some, List, [], ◌∷◌, ◌++◌, length, drop, map,
}
use webtransport_gos.Js.Bytes.{Bytes}
use webtransport_gos.NetString.Grammar.{Parsed, more, bad, got, parse}
use webtransport_gos.NetString.Encode.{body, netstring}
use webtransport_gos.NetString.RoundTrip.{has_command, parse-netstring, drop-length}
use webtransport_gos.NetString.Prefix.{parse-prefix, drop-append_le}
use webtransport_gos.NetString.Refusal.{parse-Refused}
use webtransport_gos.NetString.Stream.{Message, Ending, left, Spells, stop, fail, next}

pub Spells-unique :
    {e : Bool} {q : Bytes} {ms ns : List Message} {x y : Ending}
    → Spells e q ms x
    → Spells e q ns y
    → (ms ≡ ns) × (x ≡ y)
Spells-unique (stop h) (stop k) = (refl, refl)
Spells-unique (stop h) (fail k) = cc
Spells-unique (stop h) (next k t) = cc
Spells-unique (fail h) (stop k) = cc
Spells-unique (fail h) (fail k) = (refl, cc)
Spells-unique (fail h) (next k t) = cc
Spells-unique (next h s) (stop k) = cc
Spells-unique (next h s) (fail k) = cc
Spells-unique {e} {q} (next {n = n} {ms = ms} h s) (next {n = n'} {ms = ms'} {end = y} k t) =
    let same : n' ≡ n = cc (h, k) in
    let (rest, end) = Spells-unique s (subst (λ m. Spells e (drop m q) ms' y) same t) in
    (cc (h, k, rest), end)

Spells_end :
    {e : Bool} {q : Bytes} {ms : List Message} {end : Ending} (t : Bytes)
    → Spells e q ms end
    → end ≡ left t
    → parse e t ≡ more
Spells_end t (stop h) ee = cc (h, ee)
Spells_end t (fail h) ee = cc
Spells_end t (next h s) ee = Spells_end t s ee

-- What is left spells no whole frame.
pub Spells-left :
    {e : Bool} {q t : Bytes} {ms : List Message} → Spells e q ms (left t) → parse e t ≡ more
Spells-left {t = t} s = Spells_end t s refl

-- What stands in front of the end of a text that spells messages and leaves `t`.
abbrev pub Split : Bool → Bytes → Bytes → List Message → Bytes → Type 0
Split e a b ms t =
    (front : List Message) × (behind : List Message) × (held : Bytes) × Spells e a front (left held)
    × Spells e (held ++ b) behind (left t)
    × (ms ≡ front ++ behind)

Split-parsed :
    {e : Bool} {q : Bytes} {ms : List Message} {end : Ending} (a b t : Bytes) (p : Parsed)
    → q ≡ a ++ b
    → end ≡ left t
    → parse e a ≡ p
    → Spells e q ms end
    → Split e a b ms t
Split-parsed {e} {ms = ms} a b t more eq ee h s =
    ([], ms, a, stop h, subst₂ (λ x y. Spells e x ms y) eq ee s, refl)
Split-parsed {e} a b t (bad x) eq ee h (stop k) =
    let (y, again) = parse-Refused e a b (x, h) in cc (eq, k, again)
Split-parsed a b t (bad x) eq ee h (fail k) = cc
Split-parsed {e} a b t (bad x) eq ee h (next k s) =
    let (y, again) = parse-Refused e a b (x, h) in cc (eq, k, again)
Split-parsed {e} a b t (got p c n) eq ee h (stop k) =
    let (_, _, again) = parse-prefix e c n a b p h in cc (eq, k, again)
Split-parsed a b t (got p c n) eq ee h (fail k) = cc
Split-parsed {e} {q} a b t (got p c n) eq ee h (next {p = p'} {c = c'} {n = n'} {ms = ms} k s) =
    let (_, inside, again) = parse-prefix e c n a b p h in
    let same : n' ≡ n = cc (eq, k, again) in
    let rest : drop n' q ≡ drop n a ++ b = rw (same, eq) (drop-append_le n a b inside) in
    let (front, behind, held, s₁, s₂, whole) =
      Split-parsed (drop n a) b t (parse e (drop n a)) rest ee refl s in
    ((some p, c) ∷ front, behind, held, next h s₁, s₂, cc (eq, k, again, whole))

pub Spells-Split :
    {e : Bool} (a b t : Bytes) (ms : List Message)
    → Spells e (a ++ b) ms (left t)
    → Split e a b ms t
Spells-Split {e} a b t ms s = Split-parsed a b t (parse e a) refl refl refl s

-- Every encoded message is spelt, and nothing is left.
abbrev pub Sent : Type 0
Sent = Bytes × Option ℕ

abbrev pub text : List Sent → Bytes
text [] = []
text ((p, c) ∷ ms) = netstring c p ++ text ms

abbrev pub sent : Sent → Message
sent m = (some m.0, m.1)

-- Each message has a command exactly if the option enableCommand is on, and its length has at most
-- ten digits.
abbrev pub Sendable : Bool → List Sent → Type 0
Sendable e [] = Unit
Sendable e ((p, c) ∷ ms) = (has_command c ≡ e) × (length (body c p) < 10 ^ 10) × Sendable e ms

pub text-Spells :
    (e : Bool) (ms : List Sent) → Sendable e ms → Spells e (text ms) (map sent ms) (left [])
unfolding parse
text-Spells e [] _ = stop refl
text-Spells e ((p, c) ∷ ms) (h, small, rest) =
    next {n = length (netstring c p)} (rw (← h) (parse-netstring c p (text ms) small))
      (rw (drop-length (netstring c p) (text ms)) (text-Spells e ms rest))
