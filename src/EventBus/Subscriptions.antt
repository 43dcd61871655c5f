-- ===== src/EventBus/Subscriptions.antt =====
-- What a history of subscriptions of src/pipelinex/events/bus.py leaves for each type of event.
use pipelinex.Prelude.{ℕ, ◌≡◌, refl, false, List, [], ◌∷◌, ◌++◌, arith}
use pipelinex.Prelude.Tests.{if◌then◌else◌}
use pipelinex.Prelude.Dict.{lookup-insert}
use pipelinex.Prelude.Equality.{◌=?◌, nat_eq}
use pipelinex.EventBus.{Bus, handlers_of, member, remove_first, subscribe, unsubscribe}

pub data Action : Type 0 where
  subscribes unsubscribes : ℕ → ℕ → Action

abbrev pub act : Bus → Action → Bus
act b (Action.subscribes event_type handler) = subscribe b event_type handler
act b (Action.unsubscribes event_type handler) = unsubscribe b event_type handler

abbrev pub run : Bus → List Action → Bus
run b [] = b
run b (a ∷ actions) = run (act b a) actions

-- One list, for one type of event: the actions for other types do nothing.
abbrev pub list_after : ℕ → List ℕ → Action → List ℕ
list_after t hs (Action.subscribes event_type handler) =
    if t =? event_type then hs ++ handler ∷ [] else hs
list_after t hs (Action.unsubscribes event_type handler) =
    if t =? event_type then remove_first handler hs else hs

abbrev pub list_after_all : ℕ → List ℕ → List Action → List ℕ
list_after_all t hs [] = hs
list_after_all t hs (a ∷ actions) = list_after_all t (list_after t hs a) actions

remove_first_absent : (h : ℕ) (hs : List ℕ) → member h hs ≡ false → remove_first h hs ≡ hs
remove_first_absent h [] no_h = refl
remove_first_absent h (k ∷ ks) no_h = ground (arith, remove_first_absent h ks)

handlers_of-act :
    (t : ℕ) (b : Bus) (a : Action) → handlers_of (act b a) t ≡ list_after t (handlers_of b t) a
unfolding subscribe unsubscribe
handlers_of-act t b (Action.subscribes event_type handler) =
    let written =
      lookup-insert event_type t (handlers_of b event_type ++ handler ∷ []) b.handlers in
    ground (arith, written, nat_eq.beq_iff t event_type)
handlers_of-act t b (Action.unsubscribes event_type handler) =
    let written =
      lookup-insert event_type t (remove_first handler (handlers_of b event_type)) b.handlers in
    let absent = remove_first_absent handler (handlers_of b event_type) in
    ground (arith, written, absent, nat_eq.beq_iff t event_type)

pub handlers_of-run :
    (t : ℕ) (b : Bus) (actions : List Action)
    → handlers_of (run b actions) t ≡ list_after_all t (handlers_of b t) actions
handlers_of-run t b [] = refl
handlers_of-run t b (a ∷ actions) =
    rw (run, list_after_all, handlers_of-run t (act b a) actions, handlers_of-act t b a) refl
