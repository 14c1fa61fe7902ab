-- ===== src/AgentClient/Notifying.antt =====
-- skeys-core/agent/watcher.go: no update is sent on a closed channel.
use skeys.Prelude.{
  ℕ, zero, suc, ◌≡◌, refl, sym, ap, subst, ◌∙◌, Bool, false, not, ◌&&◌, ◌||◌, Option, none, some,
  List, [], ◌∷◌, All, All-append, if◌then◌else◌, arith,
}
use skeys.AgentClient.Subscriptions.{
  Subscriber, new_subscriber, at, cancel, delete_subscriber, close_channel, receive, serve, send,
  notify, Step, Reach, subscribed, cancelled_at, deleted_at, closed_at, received_at, notified,
  at_first, next,
}

module _ {U : Type 0} where
  -- A closed channel does not stand in the map, and only a cancelled one is closed.
  abbrev IsOpen : Subscriber U → Type 0
  IsOpen s = (s.closed && (s.listed || not s.cancelled)) ≡ false

  -- what the subscribers have after an update
  unfoldable pub served : U → (ℕ → Bool) → List (Subscriber U) → List (Subscriber U)
  served u skips [] = []
  served u skips (s ∷ subs) =
      (if s.listed then serve u (skips 0) s else s) ∷ served u (λ i. skips (suc i)) subs

  at-IsOpen :
      (i : ℕ) (f : Subscriber U → Subscriber U) (subs : List (Subscriber U))
      → ((s : Subscriber U) → IsOpen s → IsOpen (f s))
      → All IsOpen subs
      → All IsOpen (at i f subs)
  unfolding at
  at-IsOpen i f [] h a = a
  at-IsOpen zero f (s ∷ subs) h (a, b) = (h s a, b)
  at-IsOpen (suc i) f (s ∷ subs) h (a, b) = (a, at-IsOpen i f subs h b)

  cancel-IsOpen : (s : Subscriber U) → IsOpen s → IsOpen (cancel s)
  cancel-IsOpen s h = ground (arith, h)

  delete-IsOpen : (s : Subscriber U) → IsOpen s → IsOpen (delete_subscriber s)
  delete-IsOpen s h = ground (arith, h)

  close-IsOpen : (s : Subscriber U) → IsOpen s → IsOpen (close_channel s)
  close-IsOpen s h = ground (arith, h)

  serve-IsOpen :
      (u : U) (b : Bool) (s : Subscriber U)
      → IsOpen s
      → IsOpen (if s.listed then serve u b s else s)
  serve-IsOpen u b s h = ground (arith, h)

  served-IsOpen :
      (u : U) (skips : ℕ → Bool) (subs : List (Subscriber U))
      → All IsOpen subs
      → All IsOpen (served u skips subs)
  unfolding served
  served-IsOpen u skips [] a = a
  served-IsOpen u skips (s ∷ subs) (a, b) =
      (serve-IsOpen u (skips 0) s a, served-IsOpen u (λ i. skips (suc i)) subs b)

  send-served :
      (u : U) (b : Bool) (s : Subscriber U)
      → IsOpen s
      → send u b s ≡ some (if s.listed then serve u b s else s)
  send-served u b s h = ground (arith, h)

  notify-served :
      (u : U) (skips : ℕ → Bool) (subs : List (Subscriber U))
      → All IsOpen subs
      → notify u skips subs ≡ some (served u skips subs)
  unfolding notify served
  notify-served u skips [] a = refl
  notify-served u skips (s ∷ subs) (a, b) =
      rw (send-served u (skips 0) s a, notify-served u (λ i. skips (suc i)) subs b) refl

  abbrev sent_or : Option (List (Subscriber U)) → List (Subscriber U) → List (Subscriber U)
  sent_or none subs = subs
  sent_or (some after) subs = after

  Step-IsOpen :
      (subs after : List (Subscriber U)) → All IsOpen subs → Step subs after → All IsOpen after
  Step-IsOpen subs after a subscribed = All-append IsOpen subs (new_subscriber ∷ []) a (refl, tt)
  Step-IsOpen subs after a (cancelled_at i) = at-IsOpen i cancel subs cancel-IsOpen a
  Step-IsOpen subs after a (deleted_at i) = at-IsOpen i delete_subscriber subs delete-IsOpen a
  Step-IsOpen subs after a (closed_at i) = at-IsOpen i close_channel subs close-IsOpen a
  Step-IsOpen subs after a (received_at i) = at-IsOpen i receive subs (λ s h. h) a
  Step-IsOpen subs after a (notified u skips e) =
      subst (All IsOpen) (ap (λ o. sent_or o []) (sym (notify-served u skips subs a) ∙ e))
        (served-IsOpen u skips subs a)

  Reach-IsOpen : (subs : List (Subscriber U)) → Reach subs → All IsOpen subs
  Reach-IsOpen subs at_first = tt
  Reach-IsOpen after (next {subs = subs} r step) = Step-IsOpen subs after (Reach-IsOpen subs r) step

-- From no subscribers, after any steps of those who subscribe, cancel and receive, of the goroutines that
-- delete a cancelled subscriber and then close its channel, and of updates, an update is never sent on a
-- closed channel: it serves each subscriber in the map that has room, except that one which is cancelled may
-- be skipped, and changes no other.
pub notify_never_panics :
    {U : Type 0}
    → (subs : List (Subscriber U)) → Reach subs
    → (u : U) (skips : ℕ → Bool) → notify u skips subs ≡ some (served u skips subs)
notify_never_panics subs r u skips = notify-served u skips subs (Reach-IsOpen subs r)
