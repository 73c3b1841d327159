-- ===== src/Util/Base64/Fuel.antt =====
-- The rounds that the loops of util/base64.js are given are enough.
use webtransport_gos.Prelude.{
  ℕ, zero, suc, ◌-◌, ◌%◌, ◌≤◌, ◌≡◌, refl, [], ◌∷◌, ◌++◌, arith, ltb, ◌&&◌, if◌then◌else◌, length,
  length-append, length-drop, drop,
}
use webtransport_gos.Util.{Text}
use webtransport_gos.Util.Base64.{pad_loop, utf8_loop}

pad_loop_rounds :
    (fuel : ℕ) (text : Text)
    → (4 - length text % 4) % 4 ≤ fuel
    → length (pad_loop fuel text) % 4 ≡ 0
unfolding pad_loop
pad_loop_rounds zero text h = omega arith
pad_loop_rounds (suc fuel) text h =
    let longer = length-append text (61 ∷ []) in
    let later = pad_loop_rounds fuel (text ++ 61 ∷ []) in ground (arith, longer, later)

-- Three rounds pad any text.
pub pad_loop_enough : (text : Text) → length (pad_loop 3 text) % 4 ≡ 0
pad_loop_enough text = pad_loop_rounds 3 text (omega arith)

-- With as many rounds as there are characters or more, `utf8Decode` gives the same.
pub utf8_loop_enough :
    (m n : ℕ) (text : Text)
    → length text ≤ m
    → length text ≤ n
    → utf8_loop m text ≡ utf8_loop n text
unfolding utf8_loop
utf8_loop_enough zero zero text h k = refl
utf8_loop_enough zero (suc n) [] h k = refl
utf8_loop_enough zero (suc n) (c ∷ text) h k = absurd (omega arith)
utf8_loop_enough (suc m) zero [] h k = refl
utf8_loop_enough (suc m) zero (c ∷ text) h k = absurd (omega arith)
utf8_loop_enough (suc m) (suc n) [] h k = refl
utf8_loop_enough (suc m) (suc n) (c ∷ text) h k =
    let taken = if ltb c 128 then 0 else if ltb 191 c && ltb c 224 then 1 else 2 in
    let short = length-drop taken text in
    let ih = utf8_loop_enough m n (drop taken text) (omega (arith, short)) (omega (arith, short)) in
    rw ih refl
