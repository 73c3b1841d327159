-- ===== src/Transport/Fifo.antt =====
-- What helper/Transport.js sends over a whole run, and what it queues and drops.
use mathlib.Core.List.{Sublist, append-nil, append_assoc}
use mathlib.Core.List.Sublist
use mathlib.Core.Path.{subst}
use webtransport_gos.Prelude.{
  true, false, ◌==◌, Bool-cases, length, length-append, ◌+◌, ℕ, inl, inr, ◌≡◌, refl, ap, sym, ◌∙◌,
  some, List, [], ◌∷◌, ◌++◌, arith,
}
use webtransport_gos.Transport.{
  Transport, Outcome, Options, Effect, new_transport, send, closed_later,
}
use webtransport_gos.Transport.Queue.{IsSound, new_transport-IsSound}
use webtransport_gos.Transport.Sent.{
  sent, sent-append, Kept, Kept-same, complete-sent, send-Kept, send-queue, connect-sent,
  next_start-sent, message-sent, socket_closed-sent, connect_now-sent, close-sent, reconnect-sent,
}
use webtransport_gos.Transport.Traces.{
  Action, to_connect, to_start, to_complete, to_receive, to_lose, to_send, to_close, to_close_late,
  to_reconnect, to_connect_late, perform, run, drops, all_drops, data_of, all_data, perform-IsSound,
  run_first,
}

module _ {D : Type 0} (o : Options) where
  -- What is left of what was given, and what waits at the end of it.
  abbrev Follows : ℕ → List D → List D → List D → Type 0
  Follows lost front queue given =
      Kept o lost (front ++ queue) given × ((before : List D) × (given ≡ before ++ queue))

  -- An action without data leaves what was queued sent or queued.
  moved :
      (t t' : Transport D) (out : List (Effect D))
      → sent out ++ t'.queue ≡ t.queue
      → Follows 0 (sent out) t'.queue (t.queue ++ [])
  moved t t' out e =
      let all = e ∙ sym (append-nil t.queue) in (Kept-same o _ _ all, (sent out, sym all))

  returned :
      (t t' : Transport D) (out : List (Effect D)) (r : Outcome D)
      → some r ≡ some (t', out)
      → sent r.1 ++ r.0.queue ≡ t.queue
      → Follows 0 (sent out) t'.queue (t.queue ++ [])
  returned t t' out r e h =
      let same : r ≡ (t', out) = cc e in
      moved t t' out (ap (λ x. sent x.1 ++ x.0.queue) (sym same) ∙ h)

  perform-Follows :
      (a : Action D) (t t' : Transport D) (out : List (Effect D))
      → IsSound o t
      → perform o a t ≡ some (t', out)
      → Follows (drops o a t) (sent out) t'.queue (t.queue ++ data_of o a)
  perform-Follows (to_connect server ps) t t' out v e =
      returned t t' out _ e (connect-sent server ps t)
  perform-Follows (to_start c) t t' out v e = returned t t' out _ e (next_start-sent c t)
  perform-Follows (to_complete c s server result) t t' out v e =
      returned t t' out _ e (complete-sent o c s server result t)
  perform-Follows (to_receive d) t t' out v e = returned t t' out _ e (message-sent d t)
  perform-Follows (to_lose c s server) t t' out v e =
      returned t t' out _ e (socket_closed-sent o c s server t)
  perform-Follows (to_send d) t t' out v e =
      let same : send o d t ≡ (t', out) = cc e in
      subst (λ r. Follows (drops o (to_send d) t) (sent r.1) r.0.queue (t.queue ++ d ∷ [])) same
        (send-Kept o d t v, send-queue o d t v)
  perform-Follows (to_close fuel) t t' out v e = moved t t' out (close-sent fuel o t t' out e)
  perform-Follows (to_close_late s) t t' out v e =
      returned t t' out _ e (unfold closed_later in refl)
  perform-Follows (to_reconnect fuel) t t' out v e =
      moved t t' out (reconnect-sent fuel o t t' out e)
  perform-Follows to_connect_late t t' out v e = moved t t' out (connect_now-sent t t' out e)

  Kept-trans :
      (lost lost' : ℕ) (front back given more kept : List D)
      → Kept o lost (front ++ back) given
      → Kept o lost' kept (back ++ more)
      → Kept o (lost + lost') (front ++ kept) (given ++ more)
  Kept-trans lost lost' front back given more kept (e, s, n) (e', s', n') =
      let regroup = append_assoc front back more in
      (
        λ h. ap (λ xs. front ++ xs) (e' h) ∙ sym regroup ∙ ap (λ xs. xs ++ more) (e h),
        Sublist.trans (Sublist.append (Sublist.refl front) s')
            (rw regroup at (Sublist.append s (Sublist.refl more))),
        omega (
          arith,
          n,
          n',
          length-append front back,
          length-append front kept,
          length-append back more,
          length-append given more,
        ),
      )

  Follows-trans :
      (lost lost' : ℕ) (front front' back queue given more : List D)
      → Follows lost front back given
      → Follows lost' front' queue (back ++ more)
      → Follows (lost + lost') (front ++ front') queue (given ++ more)
  Follows-trans lost lost' front front' back queue given more (k, (before, e)) (k', (before', e')) =
      (
        rw (append_assoc front front' queue)
            (Kept-trans lost lost' front back given more (front' ++ queue) k k'),
        (
          before ++ before',
          ap (λ xs. xs ++ more) e
              ∙ append_assoc before back more
              ∙ ap (λ xs. before ++ xs) e'
              ∙ sym (append_assoc before before' queue),
        ),
      )

  run-Follows :
      (actions : List (Action D)) (t t' : Transport D) (out : List (Effect D))
      → IsSound o t
      → run o actions t ≡ some (t', out)
      → Follows (all_drops o actions t) (sent out) t'.queue (t.queue ++ all_data o actions)
  run-Follows [] t t' out v e = returned t t' out (t, []) (unfold run in e) refl
  run-Follows (a ∷ actions) t t' out v e =
      let (t₁, out₁, out₂, first, later, both) = run_first o a actions t t' out e in
      let now = perform-Follows a t t₁ out₁ v first in
      let rest = run-Follows actions t₁ t' out₂ (perform-IsSound o a t t₁ out₁ v first) later in
      let joined =
        Follows-trans (drops o a t) (all_drops o actions t₁) (sent out₁) (sent out₂) t₁.queue
          t'.queue (t.queue ++ data_of o a) (all_data o actions) now rest in
      rw
        (
          both,
          first,
          sent-append out₁ out₂,
          ← append_assoc t.queue (data_of o a) (all_data o actions),
        )
        joined

  -- All that was given, if the queue has no bound, and else a part of it in order.
  abbrev AllOrPart : List D → List D → Type 0
  AllOrPart kept given = elim (o.queue_max == 0) [
    | true ↦ kept ≡ given
    | false ↦ Sublist kept given
  ]

  Kept-AllOrPart : (lost : ℕ) (kept given : List D) → Kept o lost kept given → AllOrPart kept given
  Kept-AllOrPart lost kept given (e, s, n) = elim (Bool-cases (o.queue_max == 0)) [
    | inl free ↦ rw (AllOrPart, free) (e (ground (arith, free)))
    | inr bounded ↦ rw (AllOrPart, bounded) s
  ]

  -- After any run of calls and callbacks, in any order and with late and repeated callbacks, from a new
  -- transport, if every call in it comes back: what went to sockets, followed by what is queued, is all
  -- that the owner sent, in order and each once, if the queue has no bound, and otherwise a part of it in
  -- order. As many messages are missing as came while the transport was not open and its queue was full,
  -- and what is queued is the newest of what was sent, with nothing left out.
  pub run_in_order :
      (actions : List (Action D)) (t' : Transport D) (out : List (Effect D))
      → run o actions new_transport ≡ some (t', out)
      → let given = all_data o actions in
        let kept = sent out ++ t'.queue in
        AllOrPart kept given
        × (length kept + all_drops o actions new_transport ≡ length given)
        × ((before : List D) × (given ≡ before ++ t'.queue))
  unfolding new_transport
  run_in_order actions t' out e =
      let (kept, newest) = run-Follows actions new_transport t' out (new_transport-IsSound o) e in
      (Kept-AllOrPart (all_drops o actions new_transport) _ _ kept, kept.2, newest)
