-- ===== src/Util/String/Ends.antt =====
-- `startsWith` and `endsWith` of util/string.js find what they are named for.
use webtransport_gos.Prelude.{
  ℕ, zero, suc, ◌+◌, ◌-◌, ◌≤◌, ◌<◌, ◌≡◌, ◌↔◌, refl, ap, sym, ◌∙◌, true, false, [], ◌∷◌, ◌++◌, arith,
  length, take, drop, length-append, length-drop, take-append-drop, Bool-cases, inl, inr,
}
use native.Mathlib.Decide.{dec_lt}
use webtransport_gos.Util.{Text, same_text}
use webtransport_gos.Util.String.{
  leads, find_from, find_back, index_of, last_index_of, is_at, starts_with, ends_with,
}

pub same_text_iff : (xs ys : Text) → (same_text xs ys ≡ true) ↔ (xs ≡ ys)
unfolding same_text
same_text_iff [] [] = ground arith
same_text_iff [] (y ∷ ys) = (λ e. cc, λ e. cc)
same_text_iff (x ∷ xs) [] = (λ e. cc, λ e. cc)
same_text_iff (x ∷ xs) (y ∷ ys) = ground (arith, same_text_iff xs ys)

pub leads-append : (part str : Text) → leads part (part ++ str) ≡ true
unfolding leads
leads-append [] str = refl
leads-append (c ∷ part) str = ground (arith, leads-append part str)

pub leads_split : (part str : Text) → leads part str ≡ true → str ≡ part ++ drop (length part) str
unfolding leads
leads_split [] str h = refl
leads_split (c ∷ part) [] h = cc
leads_split (c ∷ part) (d ∷ str) h = ground (arith, leads_split part str)

later_place : (n : ℕ) (str part : Text) (i : ℕ) → is_at 0 (find_from n str part (suc i)) ≡ false
later_place zero str part i = refl
later_place (suc n) str part i =
    let next : suc i + 1 ≡ suc (i + 1) = omega arith in
    elim (Bool-cases (leads part (drop (suc i) str))) [
      | inl e ↦ rw e (ground arith)
      | inr e ↦ rw (e, next) (later_place n str part (i + 1))
    ]

-- `startsWith` looks whether `part` stands at the front.
pub starts_with-leads : (str part : Text) → starts_with str part ≡ leads part str
unfolding starts_with index_of
starts_with-leads str part =
    let rounds : length str + 1 ≡ suc (length str) = omega arith in
    elim (Bool-cases (leads part str)) [
      | inl e ↦ rw (rounds, e) (ground arith)
      | inr e ↦ rw (rounds, e) (later_place (length str) str part 0)
    ]

leads-length : (part str : Text) → leads part str ≡ true → length part ≤ length str
unfolding leads
leads-length [] str h = omega arith
leads-length (c ∷ part) [] h = cc
leads-length (c ∷ part) (d ∷ str) h = ground (arith, leads-length part str)

leads_whole : (part str : Text) → leads part str ≡ true → length str ≤ length part → str ≡ part
unfolding leads
leads_whole [] [] h k = refl
leads_whole [] (d ∷ str) h k = absurd (omega arith)
leads_whole (c ∷ part) [] h k = cc
leads_whole (c ∷ part) (d ∷ str) h k = ground (arith, leads_whole part str)

leads_self : (part : Text) → leads part part ≡ true
unfolding leads
leads_self [] = refl
leads_self (c ∷ part) = ground (arith, leads_self part)

-- Where `part` cannot be found below a place, that place is not returned.
earlier_place : (i n : ℕ) (str part : Text) → i < n → is_at n (find_back i str part) ≡ false
earlier_place zero n str part h = ground arith
earlier_place (suc i) n str part h =
    let ih = earlier_place i n str part (omega arith) in ground (arith, ih)

-- No place behind the last one that leaves room is found, so the search comes to that one.
last_place :
    (i : ℕ) (str part : Text)
    → length part ≤ length str
    → length str - length part ≤ i
    → i ≤ length str
    → is_at (length str - length part) (find_back i str part)
      ≡ leads part (drop (length str - length part) str)
last_place zero str part h k l =
    let here : length str - length part ≡ 0 = omega arith in rw here (ground arith)
last_place (suc i) str part h k l = elim (dec_lt (length str - length part) (suc i)) [
  | yes behind ↦
      let ih = last_place i str part h (omega arith) (omega arith) in
      let short = length-drop (suc i) str in
      let none_here : leads part (drop (suc i) str) ≡ false =
        ground (arith, leads-length part (drop (suc i) str), short) in
      rw none_here ih
  | no p ↦
      let here : length str - length part ≡ suc i = omega arith in
      let before = earlier_place i (suc i) str part (omega arith) in
      rw here (ground (arith, before))
]

drop-append-length : (xs ys : Text) → drop (length xs) (xs ++ ys) ≡ ys
drop-append-length [] ys = refl
drop-append-length (x ∷ xs) ys = drop-append-length xs ys

-- `endsWith` is true exactly for the texts that have `part` behind something.
pub ends_with_iff :
    (str part : Text) → (ends_with str part ≡ true) ↔ ((front : Text) × (str ≡ front ++ part))
unfolding ends_with last_index_of
ends_with_iff str part = (
  λ e.
      let fits : length part ≤ length str = ground (arith, e) in
      let at = last_place (length str) str part fits (omega arith) (omega arith) in
      let n = length str - length part in
      let found : leads part (drop n str) ≡ true = ground (arith, e, at) in
      let whole = leads_whole part (drop n str) found (omega (arith, length-drop n str)) in
      (take n str, sym (take-append-drop n str) ∙ ap (λ t. take n str ++ t) whole),
  λ (front, e).
      let size = length-append front part in
      let room : length part ≤ length str = omega (arith, size, ap length e) in
      let n : length str - length part ≡ length front = omega (arith, size, ap length e) in
      let at = last_place (length str) str part room (omega arith) (omega arith) in
      let tail : drop (length str - length part) str ≡ part =
        rw n (rw e (drop-append-length front part)) in
      ground (arith, at, room, tail, leads_self part),
)
