-- ===== src/AgentClient/Subscriptions.antt =====
-- skeys-core/agent/watcher.go: those who watch the agent. Every subscriber that there has been is kept, with
-- whether it still stands in the map of the subscribers; its goroutine deletes it and then closes its channel,
-- in two steps. A channel has room for one update.
use skeys.Prelude.{
  ℕ, zero, suc, Bool, true, false, not, ◌&&◌, ◌||◌, Option, none, some, List, [], ◌∷◌, ◌++◌, ◌≡◌,
  if◌then◌else◌,
}

pub record Subscriber (U : Type 0) : Type 0 where
  pub ch : Option U
  pub cancelled : Bool
  pub listed : Bool
  pub closed : Bool

module _ {U : Type 0} where
  abbrev pub new_subscriber : Subscriber U
  new_subscriber = record { ch = none; cancelled = false; listed = true; closed = false }

  abbrev pub subscribe : List (Subscriber U) → List (Subscriber U)
  subscribe subs = subs ++ new_subscriber ∷ []

  unfoldable pub at : ℕ → (Subscriber U → Subscriber U) → List (Subscriber U) → List (Subscriber U)
  at i f [] = []
  at zero f (s ∷ subs) = f s ∷ subs
  at (suc i) f (s ∷ subs) = s ∷ at i f subs

  abbrev pub cancel : Subscriber U → Subscriber U
  cancel s = record s { cancelled = true }

  -- The goroutine waits for the end of the context.
  abbrev pub delete_subscriber : Subscriber U → Subscriber U
  delete_subscriber s = record s { listed = s.listed && not s.cancelled }

  abbrev pub close_channel : Subscriber U → Subscriber U
  close_channel s = record s { closed = s.closed || (s.cancelled && not s.listed) }

  abbrev pub receive : Subscriber U → Subscriber U
  receive s = record s { ch = none }

  abbrev pub offer : U → Option U → Option U
  offer u none = some u
  offer u (some v) = some v

  -- A subscriber that is cancelled and has room is served or skipped, as Go chooses.
  abbrev pub serve : U → Bool → Subscriber U → Subscriber U
  serve u skips s = if s.cancelled && skips then s else record s { ch = offer u s.ch }

  -- `none` is the panic of a send on a closed channel.
  abbrev pub send : U → Bool → Subscriber U → Option (Subscriber U)
  send u skips s =
      if not s.listed then some s else if s.closed then none else some (serve u skips s)

  abbrev pub cons_sent :
      Option (Subscriber U) → Option (List (Subscriber U)) → Option (List (Subscriber U))
  cons_sent none rest = none
  cons_sent (some s) none = none
  cons_sent (some s) (some subs) = some (s ∷ subs)

  unfoldable pub notify : U → (ℕ → Bool) → List (Subscriber U) → Option (List (Subscriber U))
  notify u skips [] = some []
  notify u skips (s ∷ subs) = cons_sent (send u (skips 0) s) (notify u (λ i. skips (suc i)) subs)

  unfoldable pub count : List (Subscriber U) → ℕ
  count [] = 0
  count (s ∷ subs) = let rest = count subs in if s.listed then suc rest else rest

  pub data Step : List (Subscriber U) → List (Subscriber U) → Type 0 where
    subscribed : {subs : List (Subscriber U)} → Step subs (subscribe subs)
    cancelled_at : {subs : List (Subscriber U)} → (i : ℕ) → Step subs (at i cancel subs)
    deleted_at : {subs : List (Subscriber U)} → (i : ℕ) → Step subs (at i delete_subscriber subs)
    closed_at : {subs : List (Subscriber U)} → (i : ℕ) → Step subs (at i close_channel subs)
    received_at : {subs : List (Subscriber U)} → (i : ℕ) → Step subs (at i receive subs)
    notified :
        {subs after : List (Subscriber U)}
        → (u : U) → (skips : ℕ → Bool) → notify u skips subs ≡ some after
        → Step subs after

  pub data Reach : List (Subscriber U) → Type 0 where
    at_first : Reach []
    next : {subs after : List (Subscriber U)} → Reach subs → Step subs after → Reach after
