-- ===== src/Broadcast.antt =====
-- skeys-core/broadcast/broadcaster.go: one producer, many subscribers, each with a channel that holds
-- one value. `Subscribe` gives up the mutex before it replays, so it is two steps here, and other
-- calls may come between them; every other method is one step under the mutex. Channels are named by
-- numbers, and stay known after they leave `subscribers`.
pub mod Invariant
pub mod Subscribers
pub mod Delivery
pub mod Replay
mod Tests
use skeys.Prelude.{
  ℕ, suc, Bool, true, false, Option, none, some, List, [], ◌∷◌, ◌==◌, nat_eq, length, if◌then◌else◌,
}
use skeys.Map
use skeys.Map.{Map}

-- a channel of capacity one
pub record Channel (T : Type 0) : Type 0 where
  pub buffer : Option T
  pub is_closed : Bool

pub record Broadcaster (T : Type 0) : Type 0 where
  -- the keys of the map `subscribers`
  pub subscribers : List ℕ
  pub last_value : Option T
  -- every channel that was made, by its number
  pub channels : ℕ → Channel T
  pub next : ℕ
  -- the replays of calls of `Subscribe` that have given up the mutex
  pub replays : Map ℕ T
  -- a send on a closed channel, or a second close, has ended the program
  pub panicked : Bool

abbrev pub is_member : ℕ → List ℕ → Bool
is_member ch [] = false
is_member ch (c ∷ cs) = if c == ch then true else is_member ch cs

unfoldable pub without : ℕ → List ℕ → List ℕ
without ch [] = []
without ch (c ∷ cs) = let rest = without ch cs in if c == ch then rest else c ∷ rest

module _ {T : Type 0} where
  abbrev pub set_channel : Broadcaster T → ℕ → Channel T → Broadcaster T
  set_channel b ch c = record b { channels = λ n. if n == ch then c else b.channels n }

  pub new_broadcaster : Broadcaster T
  new_broadcaster = record {
    subscribers = [];
    last_value = none;
    channels = λ n. record { buffer = none; is_closed = false };
    next = 0;
    replays = [];
    panicked = false;
  }

  -- `select { case ch <- value: default: }`
  abbrev offer_open : Broadcaster T → ℕ → Option T → T → Broadcaster T
  offer_open b ch none value = set_channel b ch (record { buffer = some value; is_closed = false })
  offer_open b ch (some old) value = b

  unfoldable pub offer : ℕ → T → Broadcaster T → Broadcaster T
  offer ch value b =
      if (b.channels ch).is_closed
      then record b { panicked = true }
      else offer_open b ch (b.channels ch).buffer value

  unfoldable pub close_channel : ℕ → Broadcaster T → Broadcaster T
  close_channel ch b =
      if (b.channels ch).is_closed
      then record b { panicked = true }
      else set_channel b ch (record { buffer = (b.channels ch).buffer; is_closed = true })

  abbrev schedule_replay : Bool → Option T → ℕ → Broadcaster T → Broadcaster T
  schedule_replay true (some v) ch b = record b { replays = (ch, v) ∷ b.replays }
  schedule_replay true none ch b = b
  schedule_replay false last ch b = b

  -- the part of `Subscribe` up to the unlock; it returns the channel
  pub subscribe : Bool → Broadcaster T → ℕ × Broadcaster T
  subscribe replay b =
      let ch = b.next in
      (
        ch,
        schedule_replay replay b.last_value ch (record b {
          subscribers = ch ∷ b.subscribers;
          channels =
              λ n. if n == ch then record { buffer = none; is_closed = false } else b.channels n;
          next = suc b.next;
        }),
      )

  abbrev replay_if_pending : Option T → ℕ → Broadcaster T → Broadcaster T
  replay_if_pending none ch b = b
  replay_if_pending (some v) ch b = offer ch v (record b { replays = Map.delete ch b.replays })

  -- the rest of the call of `Subscribe` that made this channel
  pub finish_subscribe : ℕ → Broadcaster T → Broadcaster T
  unfolding offer
  finish_subscribe ch b = replay_if_pending (Map.get ch b.replays) ch b

  pub unsubscribe : ℕ → Broadcaster T → Broadcaster T
  unfolding close_channel without
  unsubscribe ch b =
      if is_member ch b.subscribers
      then close_channel ch (record b { subscribers = without ch b.subscribers })
      else b

  unfoldable pub offer_all : List ℕ → T → Broadcaster T → Broadcaster T
  unfolding offer
  offer_all [] value b = b
  offer_all (ch ∷ chs) value b = offer_all chs value (offer ch value b)

  pub broadcast : T → Broadcaster T → Broadcaster T
  broadcast value b = offer_all b.subscribers value (record b { last_value = some value })

  subscriber_count : Broadcaster T → ℕ
  subscriber_count b = length b.subscribers

  unfoldable pub close_all : List ℕ → Broadcaster T → Broadcaster T
  unfolding close_channel
  close_all [] b = b
  close_all (ch ∷ chs) b = close_all chs (close_channel ch b)

  pub close : Broadcaster T → Broadcaster T
  close b = record (close_all b.subscribers b) { subscribers = [] }

  -- A subscriber takes the value that waits in its channel.
  pub receive : ℕ → Broadcaster T → Option T × Broadcaster T
  receive ch b = let c = b.channels ch in (c.buffer, set_channel b ch (record c { buffer = none }))
