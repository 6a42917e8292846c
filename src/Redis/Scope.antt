-- ===== src/Redis/Scope.antt =====
-- The scope of a lock: what its body establishes holds after it too.
use erizo_controller.Base.{Bool, true, false, String, refl, if◌then◌else◌}
use erizo_controller.External.{Platform}
use erizo_controller.Process.State.{World, Exec, pure}
use erizo_controller.Process.Frame.{SameQueues, SameQueues-refl}
use erizo_controller.Process.Ends.{
  Ends, ends, Leaves, returned, Leaves-bind, Leaves-if, Ends-Leaves, quiet_first,
}
use erizo_controller.Redis.Acl.{acl_del}
use erizo_controller.Redis.Locker.{Locker, new_locker, lock, unlock, with_lock}
use erizo_controller.Redis.Quiet.{lock-IsQuiet}

module _ (P : Platform) where
  -- `unlock` never throws.
  pub unlock-Ends : (l : Locker) (w : World P) → Ends (λ _ w'. SameQueues w w') (unlock P l w)
  unfolding unlock acl_del
  unlock-Ends l w = go l.locked w.redis_ready
    where
      go :
          (held ready : Bool)
          → Ends
              (λ _ w'. SameQueues (record w { redis_ready = ready }) w')
              (unlock P (record l { locked = held }) (record w { redis_ready = ready }))
      go true true = ends _ _ (record {
        config = refl;
        id = refl;
        reply_to = refl;
        redis_ready = refl;
        sent = refl;
        events = refl;
        tasks = refl;
      })
      go true false = ends _ _ (SameQueues-refl _)
      go false true = ends _ _ (SameQueues-refl _)
      go false false = ends _ _ (SameQueues-refl _)

  module _ {A : Type 0} {Q : A → World P → Type 0} {T : World P → Type 0} (key : String)
      (failed : A) (body : Exec P A) (w : World P)
      (inside : (w' : World P) → SameQueues w w' → Leaves Q T (body w'))
      (refused : (w' : World P) → SameQueues w w' → Q failed w')
      (thrown : (w' : World P) → SameQueues w w' → T w')
      (stable : (a : A) (u v : World P) → Q a u → SameQueues u v → Q a v) where
    -- A property of results and queues that the body establishes, and that the failure to lock
    -- meets.
    pub with_lock-Leaves : Leaves Q T (with_lock P key failed body w)
    unfolding with_lock
    with_lock-Leaves =
        quiet_first (lock P key new_locker) _ w (lock-IsQuiet P key new_locker) thrown
          λ (got, l) w' q.
            Leaves-bind (if got then body else pure failed) _ w'
              (Leaves-if got body (pure failed) w' (λ _. inside w' q)
                (λ _. returned _ _ (refused w' q)))
              λ a u h.
                Leaves-bind (unlock P l) _ u (Ends-Leaves _ (unlock-Ends l u))
                  λ _ v s. returned _ _ (stable a u v h s)
