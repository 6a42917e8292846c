-- ===== src/Amqp/Ask.antt =====
-- rabbitmq/amqp_rpc.cpp: the `rpc` of `AMQPRPC` without a callback, which waits for the number `ret` of
-- an answer.
use erizo_controller.Base.{
  ℕ, zero, suc, ◌+◌, ◌≤◌, ◌<◌, ℤ, pos, true, not, String, ◌≡◌, ◌⊎◌, refl, sym, inl, inr, arith,
  if◌then◌else◌,
}
use erizo_controller.Base.Int.{is_zero}
use erizo_controller.External.{Platform}
use erizo_controller.External.Json.{JsonCpp, int_value}
use erizo_controller.Model.Outcome.{Outcome, done, thrown, or_throw}
use erizo_controller.Model.Fields.{has, has_members, is_null}
use erizo_controller.Process.State.{World, Exec, pure, lift, ◌>>=◌}
use erizo_controller.Process.Ends.{Leaves, returned, threw, Leaves-if, Leaves-mono}
use erizo_controller.Controller.Message.{rpc}

-- The callback: `ret`, which is 1 where there is no number.
unfoldable pub read_ret : (J : JsonCpp) → J.Value → Outcome ℤ
read_ret J root =
    if is_null J root
    then done (pos 1)
    else if not (has_members J root)
    then thrown
    else if not (has J root "ret" int_value)
    then done (pos 1)
    else or_throw (J.as_int (J.member root "ret"))

module _ (P : Platform) where
  -- `do { … } while (ret && try_time);`, with one question more than `tries`.
  unfoldable pub ask_ret : ℕ → String → P.json.Value → Exec P ℤ
  unfolding read_ret
  ask_ret zero queuename body = do root ← rpc P queuename body; lift (read_ret P.json root)
  ask_ret (suc tries) queuename body = do
    root ← rpc P queuename body
    ret ← lift (read_ret P.json root)
    let rest = ask_ret tries queuename body in if is_zero ret then pure ret else rest

  unfoldable pub rpc_for_ret : String → P.json.Value → Exec P ℤ
  unfolding ask_ret
  rpc_for_ret queuename body = ask_ret 2 queuename body

  -- What at most `n` questions come to: the number of the last answer, which is 0 where a question is
  -- left over.
  pub data Answered (n : ℕ) (w : World P) : ℤ → World P → Type 0 where
    answered :
        (ret : ℤ) (w' : World P) (i : ℕ)
        → i < n
        → read_ret P.json (P.rpc_answer (w.asked + i)) ≡ done ret
        → (is_zero ret ≡ true) ⊎ (suc i ≡ n)
        → w'.asked ≡ w.asked + suc i
        → Answered n w ret w'

  later :
      (n : ℕ) (w u : World P) (r : ℤ) (v : World P)
      → u.asked ≡ w.asked + 1
      → Answered n u r v
      → Answered (suc n) w r v
  later n w u _ _ h (answered ret v i l e z a) =
      answered ret v (suc i) (omega arith) (rw (sym (moved i)) e)
        (elim z [ inl t ↦ inl t | inr t ↦ inr (omega (arith, t)) ]) (omega (arith, h, a))
    where
      moved : (i : ℕ) → u.asked + i ≡ w.asked + suc i
      moved i = omega (arith, h)

  first :
      (n : ℕ) (w u : World P) (ret : ℤ)
      → 0 < n
      → read_ret P.json (P.rpc_answer w.asked) ≡ done ret
      → (is_zero ret ≡ true) ⊎ (1 ≡ n)
      → u.asked ≡ w.asked + 1
      → Answered n w ret u
  first n w u ret l e z a = answered ret u 0 l (rw here e) z a
    where
      here : w.asked + 0 ≡ w.asked
      here = omega arith

  Leaves-last :
      {Q : ℤ → World P → Type 0} {T : World P → Type 0} (o : Outcome ℤ) (w : World P)
      → T w
      → ((ret : ℤ) → o ≡ done ret → Q ret w)
      → Leaves Q T (lift o w)
  Leaves-last thrown w t k = threw w t
  Leaves-last (done ret) w t k = returned ret w (k ret refl)

  Leaves-read :
      {B : Type 0} {Q : B → World P → Type 0} {T : World P → Type 0} (o : Outcome ℤ)
      (f : ℤ → Exec P B) (w : World P)
      → T w
      → ((ret : ℤ) → o ≡ done ret → Leaves Q T (f ret w))
      → Leaves Q T ((lift o >>= f) w)
  Leaves-read thrown f w t k = threw w t
  Leaves-read (done ret) f w t k = k ret refl

  ask_ret-Answered :
      (n : ℕ) (queuename : String) (body : P.json.Value) (w : World P)
      → Leaves (Answered (suc n) w) (λ w'. w'.asked ≤ w.asked + suc n) (ask_ret n queuename body w)
  unfolding ask_ret rpc
  ask_ret-Answered zero queuename body w =
      Leaves-last (read_ret P.json (P.rpc_answer w.asked)) _ (omega arith)
        λ ret e. first 1 w _ ret (omega arith) e (inr refl) refl
  ask_ret-Answered (suc n) queuename body w =
      Leaves-read (read_ret P.json (P.rpc_answer w.asked)) _ _ (omega arith) λ ret e.
        Leaves-if (is_zero ret) _ _ _
          (λ z. returned _ _ (first (suc (suc n)) w _ ret (omega arith) e (inl z) refl))
          λ _.
            Leaves-mono _ (ask_ret-Answered n queuename body _)
              (λ r v a. later (suc n) w _ r v refl a) λ v b. omega (arith, b)

  -- `rpc` ends after at most three questions, with the number of the last answer, which is 0 where it
  -- stops before; or a conversion throws.
  pub rpc_for_ret_lem :
      (queuename : String) (body : P.json.Value) (w : World P)
      → Leaves (Answered 3 w) (λ w'. w'.asked ≤ w.asked + 3) (rpc_for_ret queuename body w)
  unfolding rpc_for_ret
  rpc_for_ret_lem queuename body w = ask_ret-Answered 2 queuename body w
