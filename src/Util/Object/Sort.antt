-- ===== src/Util/Object/Sort.antt =====
-- `sort` of util/object.js. `Array.prototype.sort` is stable, as the standard asks, and so are the
-- insertions here: a key goes in front of those of the same length that stood behind it.
use webtransport_gos.Prelude.{
  ℕ, ◌≡◌, ◌∙◌, refl, ◌==◌, filter, Bool, true, false, Option, none, some, List, [], ◌∷◌, leb,
  if◌then◌else◌, length, arith,
}
use webtransport_gos.Util.{Text}
use webtransport_gos.Util.Value.{Value}
use webtransport_gos.Util.Object.{keys}

-- `sortKeyByAsc(a, b) <= 0` and `sortKeyByDesc(a, b) <= 0`.
abbrev pub sort_key_by_asc : Text → Text → Bool
sort_key_by_asc a b = leb (length a) (length b)

abbrev pub sort_key_by_desc : Text → Text → Bool
sort_key_by_desc a b = leb (length b) (length a)

unfoldable pub place_key : (Text → Text → Bool) → Text → List Text → List Text
place_key before key [] = key ∷ []
place_key before key (x ∷ xs) =
    let later = place_key before key xs in if before key x then key ∷ x ∷ xs else x ∷ later

unfoldable pub sort_keys : (Text → Text → Bool) → List Text → List Text
unfolding place_key
sort_keys before [] = []
sort_keys before (x ∷ xs) = place_key before x (sort_keys before xs)

-- `sort(object, desc)`; of null `keys` throws.
unfoldable pub sort : Value → Bool → Option (List Text)
unfolding sort_keys
sort value desc = elim (keys value) [
  | none ↦ none
  | some ks ↦ some (sort_keys (if desc then sort_key_by_desc else sort_key_by_asc) ks)
]

abbrev pub is_sorted : (Text → Text → Bool) → List Text → Bool
is_sorted before [] = true
is_sorted before (x ∷ []) = true
is_sorted before (x ∷ y ∷ xs) =
    let rest = is_sorted before (y ∷ xs) in if before x y then rest else false

-- The keys of a length.
abbrev pub of_length : ℕ → List Text → List Text
of_length n ks = filter (λ k. length k == n) ks

module _ (before : Text → Text → Bool)
    (either : (a b : Text) → before a b ≡ false → before b a ≡ true)
    (same : (a b : Text) → length a ≡ length b → before a b ≡ true) where
  place_key-is_sorted :
      (key : Text) (xs : List Text)
      → is_sorted before xs ≡ true
      → is_sorted before (place_key before key xs) ≡ true
  unfolding place_key
  place_key-is_sorted key [] h = refl
  place_key-is_sorted key (x ∷ []) h = ground (arith, either key x)
  place_key-is_sorted key (x ∷ y ∷ xs) h =
      ground (arith, h, either key x, either key y, place_key-is_sorted key (y ∷ xs))

  place_key-of_length :
      (n : ℕ) (key : Text) (xs : List Text)
      → of_length n (place_key before key xs) ≡ of_length n (key ∷ xs)
  unfolding place_key
  place_key-of_length n key [] = refl
  place_key-of_length n key (x ∷ xs) = ground (arith, same key x, place_key-of_length n key xs)

  sort_keys_lem :
      (ks : List Text)
      → (is_sorted before (sort_keys before ks) ≡ true)
        × ((n : ℕ) → of_length n (sort_keys before ks) ≡ of_length n ks)
  unfolding sort_keys
  sort_keys_lem [] = (refl, λ n. refl)
  sort_keys_lem (k ∷ ks) =
      let (sorted, kept) = sort_keys_lem ks in
      (
        place_key-is_sorted k (sort_keys before ks) sorted,
        λ n. place_key-of_length n k (sort_keys before ks) ∙ ground (arith, kept n),
      )

-- `sort` of a value other than null gives its keys by length, rising or falling, with those of one
-- length in the order that they had.
pub sort_lem :
    (value : Value) (desc : Bool) (ks : List Text)
    → keys value ≡ some ks
    → (sorted : List Text) × (sort value desc ≡ some sorted)
      × (is_sorted (if desc then sort_key_by_desc else sort_key_by_asc) sorted ≡ true)
      × ((n : ℕ) → of_length n sorted ≡ of_length n ks)
unfolding sort
sort_lem value false ks e =
    let (sorted, kept) =
      sort_keys_lem sort_key_by_asc (λ a b h. ground (arith, h)) (λ a b h. ground (arith, h)) ks in
    (sort_keys sort_key_by_asc ks, rw (sort, e) refl, sorted, kept)
sort_lem value true ks e =
    let (sorted, kept) =
      sort_keys_lem sort_key_by_desc (λ a b h. ground (arith, h)) (λ a b h. ground (arith, h)) ks in
    (sort_keys sort_key_by_desc ks, rw (sort, e) refl, sorted, kept)
