-- ===== src/Broadcast/Replay.antt =====
-- The replay of the last value, which `Subscribe` makes after it has given up the mutex.
use skeys.Prelude.{
  ℕ, ◌≡◌, ◌∙◌, sym, ap, refl, true, some, List, [], ◌∷◌, nat_eq, nat_beq_iff, arith,
}
use mathlib.Core.Path.{subst}
use skeys.Map
use skeys.Broadcast.{
  Broadcaster, offer, subscribe, finish_subscribe, close, close_all, close_channel,
}

module _ {T : Type 0} where
  -- the first half of a subscription with replay; its channel is `b.next`
  abbrev pub subscribed : Broadcaster T → Broadcaster T
  subscribed b = (subscribe true b).1

  -- A subscription with replay that nothing interrupts finds the last broadcast in its channel.
  replay_delivers :
      (v : T) (b : Broadcaster T)
      → b.last_value ≡ some v
      → ((subscribe true b).0 ≡ b.next)
        × (((finish_subscribe b.next (subscribed b)).channels b.next).buffer ≡ some v)
  unfolding finish_subscribe subscribe Map.get Map.delete
  replay_delivers v b h = (refl, ground (arith, nat_beq_iff b.next b.next))

  closed-close_channel :
      (ch n : ℕ) (b : Broadcaster T)
      → (b.channels n).is_closed ≡ true
      → ((close_channel ch b).channels n).is_closed ≡ true
  unfolding close_channel
  closed-close_channel ch n b h = ground (arith, nat_beq_iff n ch)

  closed_self : (ch : ℕ) (b : Broadcaster T) → ((close_channel ch b).channels ch).is_closed ≡ true
  unfolding close_channel
  closed_self ch b = ground (arith, nat_beq_iff ch ch)

  closed-close_all :
      (chs : List ℕ) (n : ℕ) (b : Broadcaster T)
      → (b.channels n).is_closed ≡ true
      → ((close_all chs b).channels n).is_closed ≡ true
  unfolding close_all
  closed-close_all [] n b h = h
  closed-close_all (ch ∷ chs) n b h =
      closed-close_all chs n (close_channel ch b) (closed-close_channel ch n b h)

  replays-close_channel : (ch : ℕ) (b : Broadcaster T) → (close_channel ch b).replays ≡ b.replays
  unfolding close_channel
  replays-close_channel ch b = ground arith

  replays-close_all : (chs : List ℕ) (b : Broadcaster T) → (close_all chs b).replays ≡ b.replays
  unfolding close_all
  replays-close_all [] b = refl
  replays-close_all (ch ∷ chs) b =
      replays-close_all chs (close_channel ch b) ∙ replays-close_channel ch b

  panicked-offer :
      (ch : ℕ) (v : T) (b : Broadcaster T)
      → (b.channels ch).is_closed ≡ true
      → (offer ch v b).panicked ≡ true
  unfolding offer
  panicked-offer ch v b h = ground arith

  finish_panics :
      (ch : ℕ) (v : T) (b : Broadcaster T)
      → Map.get ch b.replays ≡ some v
      → (b.channels ch).is_closed ≡ true
      → (finish_subscribe ch b).panicked ≡ true
  unfolding finish_subscribe
  finish_panics ch v b pending closed =
      rw pending (panicked-offer ch v (record b { replays = Map.delete ch b.replays }) closed)

  first_closed :
      (ch : ℕ) (rest chs : List ℕ) (b : Broadcaster T)
      → chs ≡ ch ∷ rest
      → ((close_all chs b).channels ch).is_closed ≡ true
  unfolding close_all
  first_closed ch rest chs b e =
      subst (λ l. ((close_all l b).channels ch).is_closed ≡ true) (sym e)
        (closed-close_all rest ch (close_channel ch b) (closed_self ch b))

  subscribers-subscribed : (b : Broadcaster T) → (subscribed b).subscribers ≡ b.next ∷ b.subscribers
  unfolding subscribe
  subscribers-subscribed b = ground arith

  replays-subscribed :
      (v : T) (b : Broadcaster T)
      → b.last_value ≡ some v
      → Map.get b.next (subscribed b).replays ≡ some v
  unfolding subscribe Map.get
  replays-subscribed v b h = ground (arith, nat_beq_iff b.next b.next)

  -- If the hub is closed between the two halves of such a subscription, the second half panics: it
  -- sends on a channel that is closed.
  pub close_before_replay_panics :
      (v : T) (b : Broadcaster T)
      → b.last_value ≡ some v
      → (finish_subscribe b.next (close (subscribed b))).panicked ≡ true
  unfolding close
  close_before_replay_panics v b h =
      let b' = subscribed b in
      finish_panics b.next v (close b')
        (ap (Map.get b.next) (replays-close_all b'.subscribers b') ∙ replays-subscribed v b h)
        (first_closed b.next b.subscribers b'.subscribers b' (subscribers-subscribed b))
