-- ===== src/Broadcast/Tests.antt =====
-- Runs of a hub of numbers, and the theorems at concrete inputs.
use skeys.Prelude.{◌≡◌, refl, true, false, none, some, [], ◌∷◌, if◌then◌else◌}
use skeys.Broadcast.{
  Broadcaster, is_member, new_broadcaster, subscribe, finish_subscribe, unsubscribe, broadcast,
  offer_all, close, receive,
}
use skeys.Broadcast.Replay.{subscribed, close_before_replay_panics}
use skeys.Broadcast.Invariant.{
  IsSound, Reach, here, next, to_subscribe, to_finish, to_unsubscribe, to_broadcast, to_receive,
  Reach-IsSound,
}
use skeys.Prelude.{ℕ}

abbrev fresh : Broadcaster ℕ
fresh = new_broadcaster

-- two subscribers, of which the second has a value waiting
abbrev two : Broadcaster ℕ
two = record {
  subscribers = 1 ∷ 0 ∷ [];
  last_value = some 7;
  channels =
      λ n. record { buffer = (if is_member n (1 ∷ []) then some 7 else none); is_closed = false };
  next = 2;
  replays = [];
  panicked = false;
}

close_before_replay_panics_example :
    (finish_subscribe two.next (close (subscribed two))).panicked ≡ true
close_before_replay_panics_example = close_before_replay_panics 7 two refl

-- a late subscriber gets the replay, another one leaves
abbrev s1 : Broadcaster ℕ
s1 = (subscribe false fresh).1

abbrev s3 : Broadcaster ℕ
s3 = (subscribe true (broadcast 7 s1)).1

second_member : is_member 1 s3.subscribers ≡ true
unfolding subscribe broadcast new_broadcaster offer_all
second_member = refl

history : Reach fresh (unsubscribe 0 (receive 1 (finish_subscribe 1 s3)).1)
history =
    next
      (next
        (next (next (next (next here (to_subscribe false)) (to_broadcast 7)) (to_subscribe true))
          (to_finish 1 second_member))
        (to_receive 1))
      (to_unsubscribe 0)

Reach-IsSound_example : IsSound (unsubscribe 0 (receive 1 (finish_subscribe 1 s3)).1)
Reach-IsSound_example = Reach-IsSound history
