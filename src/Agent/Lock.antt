-- ===== src/Agent/Lock.antt =====
-- `Lock` and `Unlock`.
use skeys.Prelude.{◌+◌, ◌≡◌, ◌≢◌, false, ok, err, [], arith}
use skeys.Text.{Text, text_eq}
use skeys.Agent.{ManagedAgent, bad_passphrase, lock, unlock}

module _ {S : Type 0} where
  -- An unlocked agent that is locked and then unlocked by the same passphrase is back in its state,
  -- with no passphrase kept, and has two more notifications to send.
  unlock-lock :
      (p : Text) (m : ManagedAgent S)
      → m.is_locked ≡ false
      → unlock p (lock p m).1
        ≡ (ok tt, record m { is_locked = false; lock_pass = []; pending = m.pending + 2 })
  unfolding lock unlock
  unlock-lock p m free = ground (arith, text_eq.beq_iff p p)

  -- Any other passphrase is refused and leaves the locked agent as it was.
  unlock-lock_ne :
      (p q : Text) (m : ManagedAgent S)
      → m.is_locked ≡ false
      → q ≢ p
      → unlock q (lock p m).1 ≡ (err bad_passphrase, (lock p m).1)
  unfolding lock unlock
  unlock-lock_ne p q m free other = ground (arith, text_eq.beq_iff q p)
