-- ===== src/Broadcast/Invariant.antt =====
-- The invariant of the hub, and the interleavings that keep it.
use skeys.Prelude.{
  ℕ, suc, ◌<◌, ◌≡◌, ◌∙◌, refl, Bool, true, false, Option, none, some, List, [], ◌∷◌, ◌==◌, nat_eq,
  nat_beq_iff, inl, inr, Bool-cases, arith, if◌then◌else◌,
}
use skeys.Map
use skeys.Broadcast.{
  Channel, Broadcaster, is_member, without, new_broadcaster, offer, offer_all, subscribe,
  finish_subscribe, unsubscribe, broadcast, close, close_all, close_channel, receive,
  replay_if_pending, schedule_replay,
}
use skeys.Broadcast.Subscribers.{
  NoDup, Below, not_member-of_Below, Below-suc, is_member-without, NoDup-without, All-without,
}
use skeys.Broadcast.Delivery.{AreOpen, offer-AreOpen, offer-IsOpen, open_of_member}

module _ {T : Type 0} where
  -- Every subscriber has an open channel of its own, numbered below the next one, and nothing has
  -- panicked.
  pub record IsSound (b : Broadcaster T) : Type 0 where
    pub opened : AreOpen b.subscribers b
    pub distinct : NoDup b.subscribers
    known : Below b.next b.subscribers
    calm : b.panicked ≡ false

  -- One call, or one half of a subscription. A replay comes while its channel is still subscribed.
  pub data Step (b : Broadcaster T) : Broadcaster T → Type 0 where
    to_subscribe : (replay : Bool) → Step b (subscribe replay b).1
    to_finish : (ch : ℕ) → is_member ch b.subscribers ≡ true → Step b (finish_subscribe ch b)
    to_unsubscribe : (ch : ℕ) → Step b (unsubscribe ch b)
    to_broadcast : (v : T) → Step b (broadcast v b)
    to_close : Step b (close b)
    to_receive : (ch : ℕ) → Step b (receive ch b).1

  pub data Reach (b : Broadcaster T) : Broadcaster T → Type 0 where
    here : Reach b b
    next : {c d : Broadcaster T} → Reach b c → Step c d → Reach b d

  -- what a state with the same subscribers must show to be sound
  same-IsSound :
      (b b' : Broadcaster T)
      → b'.subscribers ≡ b.subscribers
      → b'.next ≡ b.next
      → AreOpen b.subscribers b'
      → b'.panicked ≡ false
      → IsSound b
      → IsSound b'
  same-IsSound b b' subs nexts open_ calm h = record {
    opened = rw subs open_;
    distinct = rw subs h.distinct;
    known = rw (subs, nexts) h.known;
    calm = calm;
  }

  fields-offer :
      (ch : ℕ) (v : T) (b : Broadcaster T)
      → (b.channels ch).is_closed ≡ false
      → ((offer ch v b).subscribers ≡ b.subscribers)
        × ((offer ch v b).next ≡ b.next)
        × ((offer ch v b).panicked ≡ b.panicked)
  unfolding offer
  fields-offer ch v b h = ground arith

  fields-offer_all :
      (chs : List ℕ) (v : T) (b : Broadcaster T)
      → AreOpen chs b
      → ((offer_all chs v b).subscribers ≡ b.subscribers)
        × ((offer_all chs v b).next ≡ b.next)
        × ((offer_all chs v b).panicked ≡ b.panicked)
        × ((n : ℕ) → ((offer_all chs v b).channels n).is_closed ≡ (b.channels n).is_closed)
  unfolding offer_all
  fields-offer_all [] v b h = (refl, refl, refl, λ n. refl)
  fields-offer_all (ch ∷ chs) v b h =
      let (s, n, p, o) = fields-offer_all chs v (offer ch v b) (offer-AreOpen chs ch v b h.0 h.1) in
      let (s', n', p') = fields-offer ch v b h.0 in
      (s ∙ s', n ∙ n', p ∙ p', λ k. o k ∙ offer-IsOpen ch k v b h.0)

  AreOpen-of_same :
      (chs : List ℕ) (b b' : Broadcaster T)
      → ((n : ℕ) → (b'.channels n).is_closed ≡ (b.channels n).is_closed)
      → AreOpen chs b
      → AreOpen chs b'
  AreOpen-of_same [] b b' e h = tt
  AreOpen-of_same (c ∷ cs) b b' e h = (e c ∙ h.0, AreOpen-of_same cs b b' e h.1)

  broadcast-IsSound : (v : T) (b : Broadcaster T) → IsSound b → IsSound (broadcast v b)
  unfolding broadcast
  broadcast-IsSound v b h =
      let b' = record b { last_value = some v } in
      let (s, n, p, o) = fields-offer_all b.subscribers v b' h.opened in
      same-IsSound b (offer_all b.subscribers v b') s n
        (AreOpen-of_same b.subscribers b (offer_all b.subscribers v b') o h.opened) (p ∙ h.calm) h

  finish-IsSound :
      (ch : ℕ) (o : Option T) (b : Broadcaster T)
      → is_member ch b.subscribers ≡ true
      → IsSound b
      → IsSound (replay_if_pending o ch b)
  finish-IsSound ch none b m h = h
  finish-IsSound ch (some v) b m h =
      let b' = record b { replays = Map.delete ch b.replays } in
      let open_ = open_of_member b.subscribers ch b h.opened m in
      let (s, n, p) = fields-offer ch v b' open_ in
      same-IsSound b (offer ch v b') s n (offer-AreOpen b.subscribers ch v b' open_ h.opened)
        (p ∙ h.calm) h

  schedule-IsSound :
      (replay : Bool) (last : Option T) (ch : ℕ) (b : Broadcaster T)
      → IsSound b
      → IsSound (schedule_replay replay last ch b)
  schedule-IsSound true (some v) ch b h = record {
    opened = h.opened;
    distinct = h.distinct;
    known = h.known;
    calm = h.calm;
  }
  schedule-IsSound true none ch b h = h
  schedule-IsSound false last ch b h = h

  AreOpen-set :
      (chs : List ℕ) (n : ℕ) (c : Channel T) (b b' : Broadcaster T)
      → ((k : ℕ) → b'.channels k ≡ (if k == n then c else b.channels k))
      → is_member n chs ≡ false
      → AreOpen chs b
      → AreOpen chs b'
  AreOpen-set [] n c b b' e m h = tt
  AreOpen-set (k ∷ ks) n c b b' e m h =
      (ground (arith, e k, nat_beq_iff k n, h.0), AreOpen-set ks n c b b' e (ground arith) h.1)

  subscribe-IsSound :
      (replay : Bool) (b : Broadcaster T) → IsSound b → IsSound (subscribe replay b).1
  unfolding subscribe
  subscribe-IsSound replay b h =
      let fresh : Channel T = record { buffer = none; is_closed = false } in
      let b' = record b {
        subscribers = b.next ∷ b.subscribers;
        channels = λ n. if n == b.next then fresh else b.channels n;
        next = suc b.next;
      } in
      schedule-IsSound replay b.last_value b.next b' (record {
        opened = (
          ground (arith, nat_beq_iff b.next b.next),
          AreOpen-set b.subscribers b.next fresh b b' (λ k. refl)
              (not_member-of_Below b.next b.subscribers h.known) h.opened,
        );
        distinct = (not_member-of_Below b.next b.subscribers h.known, h.distinct);
        known = (omega arith, Below-suc b.next b.subscribers h.known);
        calm = h.calm;
      })

  fields-close_channel :
      (ch : ℕ) (b : Broadcaster T)
      → (b.channels ch).is_closed ≡ false
      → ((close_channel ch b).subscribers ≡ b.subscribers)
        × ((close_channel ch b).next ≡ b.next)
        × ((close_channel ch b).panicked ≡ b.panicked)
        × ((n : ℕ)
            → (close_channel ch b).channels n ≡ (
                if n == ch
                then record { buffer = (b.channels ch).buffer; is_closed = true }
                else b.channels n))
  unfolding close_channel
  fields-close_channel ch b h = (ground arith, ground arith, ground arith, λ n. ground arith)

  unsubscribe-IsSound : (ch : ℕ) (b : Broadcaster T) → IsSound b → IsSound (unsubscribe ch b)
  unfolding unsubscribe
  unsubscribe-IsSound ch b h = elim (Bool-cases (is_member ch b.subscribers)) [
    | inl m ↦
        let b' = record b { subscribers = without ch b.subscribers } in
        let (s, n, p, e) =
          fields-close_channel ch b' (open_of_member b.subscribers ch b h.opened m) in
        rw m (
          same-IsSound (record b' { panicked = false }) (close_channel ch b') s n
            (AreOpen-set (without ch b.subscribers) ch _ b' (close_channel ch b') e
              (is_member-without ch b.subscribers)
              (All-without (λ k. (b.channels k).is_closed ≡ false) ch b.subscribers h.opened))
            (p ∙ h.calm)
            (record {
              opened =
                  All-without (λ k. (b.channels k).is_closed ≡ false) ch b.subscribers h.opened;
              distinct = NoDup-without ch b.subscribers h.distinct;
              known = All-without (λ k. k < b.next) ch b.subscribers h.known;
              calm = refl;
            }))
    | inr absent ↦ rw absent h
  ]

  fields-close_all :
      (chs : List ℕ) (b : Broadcaster T)
      → AreOpen chs b
      → NoDup chs
      → (close_all chs b).panicked ≡ b.panicked
  unfolding close_all
  fields-close_all [] b h d = refl
  fields-close_all (ch ∷ chs) b h d =
      let (s, n, p, e) = fields-close_channel ch b h.0 in
      fields-close_all chs (close_channel ch b)
        (AreOpen-set chs ch _ b (close_channel ch b) e d.0 h.1) d.1
      ∙ p

  close-IsSound : (b : Broadcaster T) → IsSound b → IsSound (close b)
  unfolding close
  close-IsSound b h = record {
    opened = tt;
    distinct = tt;
    known = tt;
    calm = fields-close_all b.subscribers b h.opened h.distinct ∙ h.calm;
  }

  receive-IsSound : (ch : ℕ) (b : Broadcaster T) → IsSound b → IsSound (receive ch b).1
  unfolding receive
  receive-IsSound ch b h =
      let b' = (receive ch b).1 in
      same-IsSound b b' refl refl
        (AreOpen-of_same b.subscribers b b' (λ n. ground (arith, nat_beq_iff n ch)) h.opened) h.calm
        h

  Step-IsSound : {b c : Broadcaster T} → Step b c → IsSound b → IsSound c
  Step-IsSound {b} (to_subscribe replay) h = subscribe-IsSound replay b h
  Step-IsSound {b} (to_finish ch m) h = unfold finish_subscribe in finish-IsSound ch _ b m h
  Step-IsSound {b} (to_unsubscribe ch) h = unsubscribe-IsSound ch b h
  Step-IsSound {b} (to_broadcast v) h = broadcast-IsSound v b h
  Step-IsSound {b} to_close h = close-IsSound b h
  Step-IsSound {b} (to_receive ch) h = receive-IsSound ch b h

  -- However the calls are interleaved, as long as no replay comes after its channel has left the
  -- subscribers, a new hub never panics and its subscribers have open channels of their own.
  pub Reach-IsSound : {b : Broadcaster T} → Reach new_broadcaster b → IsSound b
  unfolding new_broadcaster
  Reach-IsSound here = record { opened = tt; distinct = tt; known = tt; calm = refl }
  Reach-IsSound (next r st) = Step-IsSound st (Reach-IsSound r)
