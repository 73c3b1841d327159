-- ===== src/Avrage.antt =====
-- example/bjy-common/lib/helper/Avrage.js: the average of the last `count` values.
use webtransport_gos.Prelude.{
  ℕ, zero, suc, ◌+◌, ◌-◌, ◌≤◌, ◌≡◌, refl, ap, sym, ◌∙◌, append-nil, append_assoc, Bool, List, [],
  ◌∷◌, ◌++◌, arith, ltb, ◌==◌, if◌then◌else◌, length, drop, length-append, length-drop,
}
use webtransport_gos.Prelude.Int.{ℤ, pos, ◌+ℤ◌}

pub record Avrage : Type 0 where
  pub count : ℕ
  pub queue : List ℤ

-- `new Avrage(count)`
abbrev pub new_avrage : ℕ → Avrage
new_avrage count = record { count = count; queue = [] }

-- `queue.shift()`
abbrev shift : List ℤ → List ℤ
shift [] = []
shift (v ∷ vs) = vs

unfoldable pub push : Avrage → ℤ → Avrage
push a value =
    let queue = a.queue ++ value ∷ [] in
    if ltb a.count (length queue)
    then record a { queue = shift queue }
    else record a { queue = queue }

unfoldable pub clear : Avrage → Avrage
clear a = record a { queue = [] }

unfoldable pub is_full : Avrage → Bool
is_full a = length a.queue == a.count

-- The loop of `getValue`, with `sum`.
abbrev pub sum_loop : ℤ → List ℤ → ℤ
sum_loop sum [] = sum
sum_loop sum (v ∷ vs) = sum_loop (sum +ℤ v) vs

-- `getValue()`: the sum and what it is divided by, as the quotient of doubles is not modelled.
unfoldable pub get_value : Avrage → ℤ × ℕ
get_value a = if length a.queue == 0 then (pos 0, 1) else (sum_loop (pos 0) a.queue, length a.queue)

unfoldable pub push_all : Avrage → List ℤ → Avrage
push_all a [] = a
push_all a (v ∷ vs) = push_all (push a v) vs

shift-drop : (xs : List ℤ) → shift xs ≡ drop 1 xs
shift-drop [] = refl
shift-drop (x ∷ xs) = refl

drop-append : (n : ℕ) (xs ys : List ℤ) → n ≤ length xs → drop n xs ++ ys ≡ drop n (xs ++ ys)
drop-append zero xs ys h = refl
drop-append (suc n) [] ys h = absurd (omega arith)
drop-append (suc n) (x ∷ xs) ys h = drop-append n xs ys (omega arith)

drop_nil : (n : ℕ) → drop {A = ℤ} n [] ≡ []
drop_nil zero = refl
drop_nil (suc n) = refl

drop-drop : (m n : ℕ) (xs : List ℤ) → drop m (drop n xs) ≡ drop (n + m) xs
drop-drop m zero xs = ap (λ k. drop k xs) (omega arith)
drop-drop m (suc n) [] = drop_nil m ∙ sym (drop_nil (suc n + m))
drop-drop m (suc n) (x ∷ xs) =
    drop-drop m n xs ∙ ap (λ k. drop k (x ∷ xs)) {x = suc (n + m)} {y = suc n + m} (omega arith)

-- The last `n` values of a list.
abbrev pub last_of : ℕ → List ℤ → List ℤ
last_of n xs = drop (length xs - n) xs

push-last_of :
    (a : Avrage) (xs : List ℤ) (v : ℤ)
    → a.queue ≡ last_of a.count xs
    → (push a v).queue ≡ last_of a.count (xs ++ v ∷ [])
unfolding push
push-last_of a xs v h =
    let grown = drop-append (length xs - a.count) xs (v ∷ []) (omega arith) in
    let n1 = length-drop (length xs - a.count) xs in
    let n2 = length-append xs (v ∷ []) in
    let n3 = length-append (drop (length xs - a.count) xs) (v ∷ []) in
    let again = drop-drop 1 (length xs - a.count) (xs ++ v ∷ []) in
    let shifted = shift-drop (drop (length xs - a.count) xs ++ v ∷ []) in
    rw h (ground (arith, grown, n1, n2, n3, again, shifted))

push-count : (a : Avrage) (v : ℤ) → (push a v).count ≡ a.count
unfolding push
push-count a v = ground arith

push_all-last_of :
    (a : Avrage) (xs vs : List ℤ)
    → a.queue ≡ last_of a.count xs
    → (push_all a vs).queue ≡ last_of a.count (xs ++ vs)
unfolding push_all
push_all-last_of a xs [] h = rw (append-nil xs) h
push_all-last_of a xs (v ∷ vs) h =
    let held = push-last_of a xs v h in
    let kept = push-count a v in
    let rest =
      push_all-last_of (push a v) (xs ++ v ∷ []) vs
        (held ∙ ap (λ n. last_of n (xs ++ v ∷ [])) (sym kept)) in
    rest ∙ cc (kept, append_assoc xs (v ∷ []) vs)

-- After any values were pushed to a new average, it holds the last `count` of them, in order.
pub push_all_lem :
    (count : ℕ) (vs : List ℤ) → (push_all (new_avrage count) vs).queue ≡ last_of count vs
push_all_lem count vs = push_all-last_of (new_avrage count) [] vs (sym (drop_nil (0 - count)))
