-- ===== src/Util/Keypath/Match.antt =====
-- `match` and `join` of util/keypath.js on the parts of a path.
use webtransport_gos.Prelude.{
  ℕ, ◌≡◌, ◌↔◌, refl, ap, sym, ◌∙◌, true, List, [], ◌∷◌, ◌++◌, arith, ◌==◌, ==_iff, length, drop,
  append_assoc, append-nil, Bool-cases, inl, inr, ◌⊎◌,
}
use webtransport_gos.Prelude.Int.{pos, leb_ℤ}
use webtransport_gos.Util.{Text, same_text}
use webtransport_gos.Util.String.{starts_with, leads}
use webtransport_gos.Util.String.Ends.{same_text_iff, leads-append, leads_split, starts_with-leads}
use webtransport_gos.Util.Keypath.{parts, split, match_prefix, raw_dot}

-- The path that parts make.
intercalate : Text → List Text → Text
intercalate first [] = first
intercalate first (next ∷ others) = first ++ raw_dot ∷ intercalate next others

parts-append :
    (p r : Text)
    → parts (p ++ raw_dot ∷ r) ≡ ((parts p).0, (parts p).1 ++ (parts r).0 ∷ (parts r).1)
unfolding parts
parts-append [] r = refl
parts-append (c ∷ p) r = ground (arith, parts-append p r)

intercalate-cons :
    (c : ℕ) (first : Text) (others : List Text)
    → intercalate (c ∷ first) others ≡ c ∷ intercalate first others
unfolding intercalate
intercalate-cons c first [] = refl
intercalate-cons c first (next ∷ others) = refl

intercalate-dot :
    (first : Text) (others : List Text)
    → intercalate [] (first ∷ others) ≡ raw_dot ∷ intercalate first others
unfolding intercalate
intercalate-dot first others = refl

intercalate-parts : (t : Text) → intercalate (parts t).0 (parts t).1 ≡ t
unfolding parts
intercalate-parts [] = unfold intercalate in refl
intercalate-parts (c ∷ t) = elim (Bool-cases (c == raw_dot)) [
  | inl e ↦
      let dot : c ≡ raw_dot = (==_iff c raw_dot).0 e in
      rw e (intercalate-dot (parts t).0 (parts t).1 ∙ cc (dot, intercalate-parts t))
  | inr e ↦
      rw e (intercalate-cons c (parts t).0 (parts t).1 ∙ ap (λ s. c ∷ s) (intercalate-parts t))
]

intercalate-append :
    (first next : Text) (before others : List Text)
    → intercalate first (before ++ next ∷ others)
      ≡ intercalate first before ++ raw_dot ∷ intercalate next others
unfolding intercalate
intercalate-append first next [] others = refl
intercalate-append first next (b ∷ before) others =
    rw (intercalate-append b next before others) (
      sym (append_assoc first (raw_dot ∷ intercalate b before) (raw_dot ∷ intercalate next others)))

-- A path whose parts go on behind those of the prefix.
prefix_cases :
    (keypath prefix : Text) (rest : List Text)
    → split keypath ≡ split prefix ++ rest
    → (keypath ≡ prefix) ⊎ ((tail : Text) × (keypath ≡ prefix ++ raw_dot ∷ tail))
prefix_cases keypath prefix [] e =
    let same : split keypath ≡ split prefix = e ∙ append-nil (split prefix) in
    inl (sym (intercalate-parts keypath) ∙ joined same ∙ intercalate-parts prefix)
  where
    joined :
        split keypath ≡ split prefix
        → intercalate (parts keypath).0 (parts keypath).1
          ≡ intercalate (parts prefix).0 (parts prefix).1
    joined same = cc
prefix_cases keypath prefix (next ∷ others) e = inr (
  intercalate next others,
  sym (intercalate-parts keypath)
      ∙ longer e
      ∙ intercalate-append (parts prefix).0 next (parts prefix).1 others
      ∙ ap (λ t. t ++ raw_dot ∷ intercalate next others) (intercalate-parts prefix),
)
  where
    longer :
        split keypath ≡ split prefix ++ next ∷ others
        → intercalate (parts keypath).0 (parts keypath).1
          ≡ intercalate (parts prefix).0 ((parts prefix).1 ++ next ∷ others)
    longer e = cc

leads_dotted :
    (prefix tail : Text) → starts_with (prefix ++ raw_dot ∷ tail) (prefix ++ raw_dot ∷ []) ≡ true
leads_dotted prefix tail =
    starts_with-leads (prefix ++ raw_dot ∷ tail) (prefix ++ raw_dot ∷ [])
    ∙ rw (← append_assoc prefix (raw_dot ∷ []) tail) (leads-append (prefix ++ raw_dot ∷ []) tail)

-- `match` succeeds exactly when the parts of the prefix are the first parts of the path.
pub match_prefix_iff :
    (keypath prefix : Text)
    → (leb_ℤ (pos 0) (match_prefix keypath prefix) ≡ true)
      ↔ ((rest : List Text) × (split keypath ≡ split prefix ++ rest))
unfolding match_prefix
match_prefix_iff keypath prefix = (
  λ e. elim (Bool-cases (same_text keypath prefix)) [
    | inl same ↦
        ([], ap split ((same_text_iff keypath prefix).0 same) ∙ sym (append-nil (split prefix)))
    | inr differ ↦
        let found : leads (prefix ++ raw_dot ∷ []) keypath ≡ true =
          ground (arith, e, differ, starts_with-leads keypath (prefix ++ raw_dot ∷ [])) in
        let tail = drop (length (prefix ++ raw_dot ∷ [])) keypath in
        let cut : keypath ≡ prefix ++ raw_dot ∷ tail =
          leads_split (prefix ++ raw_dot ∷ []) keypath found
          ∙ append_assoc prefix (raw_dot ∷ []) tail in
        (split tail, ap split cut ∙ cc (parts-append prefix tail))
  ],
  λ (rest, e). elim (prefix_cases keypath prefix rest e) [
    | inl same ↦ ground (arith, (same_text_iff keypath prefix).1 same)
    | inr (tail, cut) ↦
        let found : starts_with keypath (prefix ++ raw_dot ∷ []) ≡ true =
          ap (λ t. starts_with t (prefix ++ raw_dot ∷ [])) cut ∙ leads_dotted prefix tail in
        ground (arith, found)
  ],
)
