-- ===== src/Broadcast/Delivery.antt =====
-- Who receives a broadcast.
use skeys.Prelude.{
  ℕ, ◌≡◌, ◌∙◌, refl, true, false, none, some, List, [], ◌∷◌, ◌==◌, nat_eq, nat_beq_iff, All, arith,
  if◌then◌else◌,
}
use skeys.Broadcast.{Channel, Broadcaster, is_member, offer, offer_all, broadcast}

-- A value that is offered to an open channel waits in it if nothing else does, and is dropped if not.
abbrev pub filled : {T : Type 0} → Channel T → T → Channel T
filled c v = elim c.buffer [ none ↦ record c { buffer = some v } | some w ↦ c ]

module _ {T : Type 0} where
  abbrev pub AreOpen : List ℕ → Broadcaster T → Type 0
  AreOpen chs b = All (λ ch. (b.channels ch).is_closed ≡ false) chs

  channels-offer :
      (ch n : ℕ) (v : T) (b : Broadcaster T)
      → (b.channels ch).is_closed ≡ false
      → (offer ch v b).channels n ≡ (if n == ch then filled (b.channels ch) v else b.channels n)
  unfolding offer
  channels-offer ch n v b h = ground (arith, nat_beq_iff n ch)

  pub offer-IsOpen :
      (ch n : ℕ) (v : T) (b : Broadcaster T)
      → (b.channels ch).is_closed ≡ false
      → ((offer ch v b).channels n).is_closed ≡ (b.channels n).is_closed
  offer-IsOpen ch n v b h = ground (arith, channels-offer ch n v b h, nat_beq_iff n ch)

  pub offer-AreOpen :
      (chs : List ℕ) (ch : ℕ) (v : T) (b : Broadcaster T)
      → (b.channels ch).is_closed ≡ false
      → AreOpen chs b
      → AreOpen chs (offer ch v b)
  offer-AreOpen [] ch v b h hs = tt
  offer-AreOpen (c ∷ cs) ch v b h hs =
      (ground (arith, offer-IsOpen ch c v b h), offer-AreOpen cs ch v b h hs.1)

  channels-offer_all :
      (chs : List ℕ) (n : ℕ) (v : T) (b : Broadcaster T)
      → AreOpen chs b
      → (offer_all chs v b).channels n
        ≡ (if is_member n chs then filled (b.channels n) v else b.channels n)
  unfolding offer_all
  channels-offer_all [] n v b h = refl
  channels-offer_all (ch ∷ chs) n v b h = ground (
    arith,
    channels-offer_all chs n v (offer ch v b) (offer-AreOpen chs ch v b h.0 h.1),
    channels-offer ch n v b h.0,
    nat_beq_iff n ch,
    nat_beq_iff ch n,
  )

  pub open_of_member :
      (chs : List ℕ) (n : ℕ) (b : Broadcaster T)
      → AreOpen chs b
      → is_member n chs ≡ true
      → (b.channels n).is_closed ≡ false
  open_of_member [] n b h m = ground arith
  open_of_member (c ∷ cs) n b h m = ground (arith, open_of_member cs n b h.1, nat_beq_iff c n, h.0)

  last_value-offer : (ch : ℕ) (v : T) (b : Broadcaster T) → (offer ch v b).last_value ≡ b.last_value
  unfolding offer
  last_value-offer ch v b = ground arith

  last_value-offer_all :
      (chs : List ℕ) (v : T) (b : Broadcaster T) → (offer_all chs v b).last_value ≡ b.last_value
  unfolding offer_all
  last_value-offer_all [] v b = refl
  last_value-offer_all (ch ∷ chs) v b =
      last_value-offer_all chs v (offer ch v b) ∙ last_value-offer ch v b

  -- Where the channels of the subscribers are open, a broadcast is kept for later subscribers, every
  -- subscriber whose channel is empty finds the value in it, one that has a value waiting keeps that
  -- one and misses this, and no other channel changes.
  broadcast_delivers :
      (v : T) (b : Broadcaster T) (n : ℕ)
      → AreOpen b.subscribers b
      → ((broadcast v b).last_value ≡ some v)
        × ((broadcast v b).channels n
            ≡ (if is_member n b.subscribers then filled (b.channels n) v else b.channels n))
  unfolding broadcast
  broadcast_delivers v b n h = (
    last_value-offer_all b.subscribers v (record b { last_value = some v }),
    channels-offer_all b.subscribers n v (record b { last_value = some v }) h,
  )
