-- ===== src/Clients/Protocol/Relays.antt =====
-- Which notifications a client gets.
use devicectrl_server.Prelude.{
  ◌≡◌, refl, ◌∙◌, ap, sym, String, List, [], ◌∷◌, ◌++◌, Result, ok, err, Error, context,
}
use devicectrl_server.Deps.{Deps, Bytes}
use devicectrl_server.Common.{UpdateNotification}
use devicectrl_server.App.{
  Env, AppState, device_state_update, device_update_dispatch, scene_activate, perform, pure, ◌>>=◌,
}
use devicectrl_server.Clients.Connection.{go_on}
use devicectrl_server.Clients.Messages.{
  Transport, ServerBoundSocketMessage, ClientBoundSocketMessage, SocketCodec,
}
use devicectrl_server.Clients.Protocol.{
  Turn, received, pinged, ignored, closed, hooked, broken, handle_line, take_turn, serve,
}
use devicectrl_server.Clients.Protocol.Answers.{
  AllSent, told, answers, reply, report, told-send, told-received,
}
use devicectrl_server.Tasks.Join.{Scheduler}

module _ ⦃d : Deps⦄ where
  -- the notifications among messages, the latest first
  abbrev pub notified : List ClientBoundSocketMessage → List UpdateNotification
  notified [] = []
  notified (ClientBoundSocketMessage.update_notification n ∷ messages) = n ∷ notified messages
  notified (_ ∷ messages) = notified messages

  -- the state updates that a connection hears of, onto those before them
  abbrev pub updates : List Turn → List UpdateNotification → List UpdateNotification
  updates [] before = before
  updates (hooked (device_state_update n) ∷ turns) before = updates turns (n ∷ before)
  updates (_ ∷ turns) before = updates turns before

  -- Neither the stream nor the hooks' channel fails or ends.
  abbrev pub GoesOn : List Turn → Type 0
  GoesOn [] = Unit
  GoesOn (closed ∷ turns) = ⊥
  GoesOn (broken x ∷ turns) = ⊥
  GoesOn (_ ∷ turns) = GoesOn turns

  notified-append :
      (xs ys : List ClientBoundSocketMessage) → notified (xs ++ ys) ≡ notified xs ++ notified ys
  notified-append [] ys = refl
  notified-append (ClientBoundSocketMessage.update_notification n ∷ xs) ys =
      ap (◌∷◌ n) (notified-append xs ys)
  notified-append (ClientBoundSocketMessage.request_received ∷ xs) ys = notified-append xs ys
  notified-append (ClientBoundSocketMessage.unimplemented ∷ xs) ys = notified-append xs ys
  notified-append (ClientBoundSocketMessage.catalog _ ∷ xs) ys = notified-append xs ys
  notified-append (ClientBoundSocketMessage.other _ ∷ xs) ys = notified-append xs ys

module _ ⦃d : Deps⦄ ⦃k : SocketCodec⦄ where
  -- The report of an error is no notification.
  abbrev pub FailuresStandOut : Type 0
  FailuresStandOut = (x : Error) → notified (k.failure_of x ∷ []) ≡ []

  report_silent :
      (m : String) (r : Result (Unit {0})) → FailuresStandOut → notified (report m r) ≡ []
  report_silent m (ok _) apart = refl
  report_silent m (err x) apart = apart (context m x)

  answers_silent :
      (message' : ServerBoundSocketMessage) (r : Result (Unit {0})) (s : AppState)
      → notified (answers message' r s) ≡ []
  answers_silent (ServerBoundSocketMessage.update_request request) r s = refl
  answers_silent (ServerBoundSocketMessage.state_query id) r s = refl
  answers_silent (ServerBoundSocketMessage.activate_scene id) (ok _) s = refl
  answers_silent (ServerBoundSocketMessage.activate_scene id) (err x) s = refl
  answers_silent ServerBoundSocketMessage.query_catalog r s = refl
  answers_silent (ServerBoundSocketMessage.other _) r s = refl

  reply_silent :
      (q : Result ServerBoundSocketMessage) (r : Result (Unit {0})) (s : AppState)
      → notified (reply q r s) ≡ []
  reply_silent (ok message') r s = answers_silent message' r s
  reply_silent (err x) r s = refl

module _ ⦃d : Deps⦄ ⦃e : Env⦄ ⦃c : Scheduler⦄ ⦃k : SocketCodec⦄ (transport : Transport)
    (m : String) where
  line_notified :
      (line : Bytes) (s : AppState)
      → AllSent
      → FailuresStandOut
      → notified (told (take_turn transport m (received line) s).1.trace) ≡ notified (told s.trace)
  line_notified line s sent apart =
      let r = (handle_line transport line s).0 in
      ap notified (told-received transport m line s sent).1
      ∙ notified-append (report m r) (reply (k.decode line) r s ++ told s.trace)
      ∙ rw
          (
            report_silent m r apart,
            notified-append (reply (k.decode line) r s) (told s.trace),
            reply_silent (k.decode line) r s,
          )
          refl

  -- a turn that does not end the loop, and the notifications after it
  turn_notified :
      (turn : Turn) (s : AppState)
      → AllSent
      → FailuresStandOut
      → GoesOn (turn ∷ [])
      → ((take_turn transport m turn s).0 ≡ ok go_on)
        × (notified (told (take_turn transport m turn s).1.trace)
            ≡ updates (turn ∷ []) (notified (told s.trace)))
  unfolding take_turn perform pure ◌>>=◌
  turn_notified (received line) s sent apart h =
      ((told-received transport m line s sent).0, line_notified line s sent apart)
  turn_notified pinged s sent apart h = rw (sent.pongs s.clock) (refl, refl)
  turn_notified ignored s sent apart h = (refl, refl)
  turn_notified closed s sent apart h = absurd h
  turn_notified (hooked (device_state_update n)) s sent apart h =
      let (done, sends) =
        told-send transport (ClientBoundSocketMessage.update_notification n) s sent in
      rw done (refl, ap notified sends)
  turn_notified (hooked (device_update_dispatch r)) s sent apart h = (refl, refl)
  turn_notified (hooked (scene_activate id)) s sent apart h = (refl, refl)
  turn_notified (broken x) s sent apart h = absurd h

  -- turns by which every one of the rest is brought before the client in the same way
  updates-cons :
      (turn : Turn) (turns : List Turn) (before : List UpdateNotification)
      → updates (turn ∷ turns) before ≡ updates turns (updates (turn ∷ []) before)
  updates-cons (received line) turns before = refl
  updates-cons pinged turns before = refl
  updates-cons ignored turns before = refl
  updates-cons closed turns before = refl
  updates-cons (hooked (device_state_update n)) turns before = refl
  updates-cons (hooked (device_update_dispatch r)) turns before = refl
  updates-cons (hooked (scene_activate id)) turns before = refl
  updates-cons (broken x) turns before = refl

  GoesOn-split :
      (turn : Turn) (turns : List Turn) → GoesOn (turn ∷ turns) → GoesOn (turn ∷ []) × GoesOn turns
  GoesOn-split (received line) turns h = (tt, h)
  GoesOn-split pinged turns h = (tt, h)
  GoesOn-split ignored turns h = (tt, h)
  GoesOn-split closed turns h = absurd h
  GoesOn-split (hooked hook) turns h = (tt, h)
  GoesOn-split (broken x) turns h = absurd h

  -- A connection on which nothing fails stays open, and its client is told each state update that
  -- the server hears of, in their order, whatever lines it sends in between.
  pub serve-relays :
      (turns : List Turn) (s : AppState)
      → AllSent
      → FailuresStandOut
      → GoesOn turns
      → ((serve transport m turns s).0 ≡ ok go_on)
        × (notified (told (serve transport m turns s).1.trace)
            ≡ updates turns (notified (told s.trace)))
  unfolding serve pure ◌>>=◌
  serve-relays [] s sent apart h = (refl, refl)
  serve-relays (turn ∷ turns) s sent apart h =
      let (first, others) = GoesOn-split turn turns h in
      let (open_, here) = turn_notified turn s sent apart first in
      let next = serve-relays turns (take_turn transport m turn s).1 sent apart others in
      rw open_ (
        next.0,
        next.1 ∙ ap (updates turns) here ∙ sym (updates-cons turn turns (notified (told s.trace))),
      )
