-- ===== src/Session/Order.antt =====
-- Several streams that each carry the same messages in order, as `send` of helper/WebTransportWS.js
-- writes them, and what the owner is given.
use native.Mathlib.Decide.{dec_lt}
use webtransport_gos.Prelude.{
  ℕ, zero, suc, ◌+◌, ◌≤◌, ◌<◌, ◌≡◌, refl, ap, sym, ◌∙◌, true, false, some, List, [], ◌∷◌, ◌++◌,
  arith, ◌==◌, if◌then◌else◌, map, take, get_elem?, Bool-cases, inl, inr, append_assoc, append-nil,
}
use webtransport_gos.Js.Exn.{ok}
use webtransport_gos.Js.Bytes.{Bytes}
use webtransport_gos.NetString.{Frame}
use webtransport_gos.Session.{Options, Session, has_key}
use webtransport_gos.Session.Receive.{message_of}
use webtransport_gos.Session.Dedup.{
  Arrival, handle_all, handle_all_lem, first_copies, frames, all_messages, all_since, Within, key,
}

module _ (float_of : Bytes → ℕ) (o : Options) where
  abbrev keys : List Frame → List ℕ
  keys [] = []
  keys (f ∷ fs) = key float_of o f ∷ keys fs

  -- No two of the messages have the same command.
  abbrev pub Distinct : List Frame → Type 0
  Distinct fs =
      (i j : ℕ) (f g : Frame)
      → get_elem? fs i ≡ some f
      → get_elem? fs j ≡ some g
      → key float_of o f ≡ key float_of o g
      → i ≡ j

  -- One message more of stream `i`.
  abbrev pub advance : ℕ → (ℕ → ℕ) → ℕ → ℕ
  advance i at j = if i == j then at j + 1 else at j

  -- Frames that come over streams of which each carries `fs` in order: stream `i` is at `at i` before
  -- them, and at `end i` after them.
  pub data Arrives (fs : List Frame) : (ℕ → ℕ) → List Frame → (ℕ → ℕ) → Type 0 where
    silent : {at : ℕ → ℕ} → Arrives fs at [] at
    arrive :
        {at end : ℕ → ℕ} {f : Frame} {rest : List Frame} (i : ℕ)
        → get_elem? fs (at i) ≡ some f
        → Arrives fs (advance i at) rest end
        → Arrives fs at (f ∷ rest) end

  known :
      (fs : List Frame) (p m : ℕ) (f : Frame)
      → get_elem? fs p ≡ some f
      → p < m
      → has_key (keys (take m fs)) (key float_of o f) ≡ true
  known [] p m f e h = cc
  known (g ∷ fs) p zero f e h = absurd (omega arith)
  known (g ∷ fs) zero (suc m) f e h = ground arith
  known (g ∷ fs) (suc p) (suc m) f e h =
      let rest = known fs p m f e (omega arith) in ground (arith, rest)

  place_of :
      (fs : List Frame) (m k : ℕ)
      → has_key (keys (take m fs)) k ≡ true
      → (j : ℕ) × (g : Frame) × (j < m) × (get_elem? fs j ≡ some g) × (key float_of o g ≡ k)
  place_of fs zero k h = cc
  place_of [] (suc m) k h = cc
  place_of (f ∷ fs) (suc m) k h = elim (Bool-cases (key float_of o f == k)) [
    | inl e ↦ (0, f, omega arith, refl, ground arith)
    | inr e ↦
        let (j, g, below, found, same) = place_of fs m k (ground arith) in
        (suc j, g, omega arith, found, same)
  ]

  take_next :
      (fs : List Frame) (m : ℕ) (f : Frame)
      → get_elem? fs m ≡ some f
      → take (m + 1) fs ≡ take m fs ++ f ∷ []
  take_next [] m f e = cc
  take_next (g ∷ fs) zero f e = cc
  take_next (g ∷ fs) (suc m) f e =
      let more : suc m + 1 ≡ suc (m + 1) = omega arith in
      rw more (ap (λ gs. g ∷ gs) (take_next fs m f e))

  keys-append :
      (fs : List Frame) (f : Frame) → keys (fs ++ f ∷ []) ≡ keys fs ++ key float_of o f ∷ []
  keys-append [] f = refl
  keys-append (g ∷ fs) f = ap (λ ks. key float_of o g ∷ ks) (keys-append fs f)

  unseen :
      (fs : List Frame) (m : ℕ) (f : Frame)
      → Distinct fs
      → get_elem? fs m ≡ some f
      → has_key (keys (take m fs)) (key float_of o f) ≡ false
  unseen fs m f d e = elim (Bool-cases (has_key (keys (take m fs)) (key float_of o f))) [
    | inl old ↦
        let (j, g, below, found, same) = place_of fs m (key float_of o f) old in
        let equal : j ≡ m = d j m g f found e same in absurd (omega arith)
    | inr new ↦ new
  ]

  -- The first copies continue what was given, up to the message that the furthest stream has reached,
  -- with none left out.
  pub first_copies-take :
      (fs : List Frame) (at end : ℕ → ℕ) (m : ℕ) (arrived : List Frame)
      → Distinct fs
      → Arrives fs at arrived end
      → ((i : ℕ) → at i ≤ m)
      → (n : ℕ) × (take m fs ++ first_copies float_of o (keys (take m fs)) arrived ≡ take n fs)
        × ((i : ℕ) → end i ≤ n)
  first_copies-take fs at end m [] d silent h = (m, append-nil (take m fs), h)
  first_copies-take fs at end m (f ∷ rest) d (arrive i e s) h = elim (dec_lt (at i) m) [
    | yes p ↦
        let old = known fs (at i) m f e p in
        let (n, r, far) =
          first_copies-take fs (advance i at) end m rest d s (λ j. ground (arith, h j)) in
        (n, rw old r, far)
    | no p ↦
        let here : at i ≡ m = omega (arith, h i) in
        let found : get_elem? fs m ≡ some f = ap (get_elem? fs) (sym here) ∙ e in
        let longer = take_next fs m f found in
        let (n, r, far) =
          first_copies-take fs (advance i at) end (m + 1) rest d s (λ j. ground (arith, h j)) in
        let more = rw (longer, keys-append (take m fs) f) at r in
        (n, rw (unseen fs m f d found) (sym (append_assoc (take m fs) (f ∷ []) _) ∙ more), far)
  ]

  -- Messages with different commands, sent in order over each of several streams: however the streams
  -- interleave and wherever each of them ends, a new receiver gives its owner the first so many of
  -- them, each once and in order, as far as the furthest stream has come, while every reading of the
  -- clock is within the timeout of one time.
  pub handle_all-in_order :
      (fs : List Frame) (end : ℕ → ℕ) (arrivals : List Arrival) (t : ℕ) (s : Session)
      → 1 < o.stream_count
      → s.command_map ≡ []
      → s.command_queue ≡ []
      → Distinct fs
      → all_messages float_of o (frames float_of o arrivals) ≡ true
      → Arrives fs (λ i. 0) (frames float_of o arrivals) end
      → Within float_of o t arrivals
      → (n : ℕ) × (s' : Session) × (handle_all float_of o arrivals s
          ≡ ok (s', map (message_of o s) (take n fs)))
        × ((i : ℕ) → end i ≤ n)
  handle_all-in_order fs end arrivals t s several fresh none_queued d all arrives within =
      let (n, r, far) =
        first_copies-take fs (λ i. 0) end 0 (frames float_of o arrivals) d arrives
          (λ i. omega arith) in
      let (s', run) =
        handle_all_lem float_of o arrivals t s several all (ap (all_since t) none_queued) within in
      (n, s', run ∙ cc (fresh, r), far)
