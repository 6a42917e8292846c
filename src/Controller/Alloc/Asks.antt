-- ===== src/Controller/Alloc/Asks.antt =====
-- How often `allocErizo` asks, and which answer it takes.
use erizo_controller.Base.{
  ℕ, zero, suc, ◌+◌, Bool, ◌<◌, ◌≤◌, true, false, none, some, Option, ◌≡◌, refl, arith,
}
use erizo_controller.External.{Platform}
use erizo_controller.Model.Outcome.{Outcome, done, thrown}
use erizo_controller.Model.Client.{Client}
use erizo_controller.Process.State.{World, lift}
use erizo_controller.Process.Ends.{Leaves, returned, threw, Leaves-bind, Leaves-mono}
use erizo_controller.Controller.Answer.{read_erizo}
use erizo_controller.Controller.Message.{rpc}
use erizo_controller.Controller.Alloc.{ask_erizo, ask_loop, alloc_erizo}

module _ (P : Platform) where
  -- What at most `n` questions come to: the client with the agent's process, from the answer to the
  -- last question that was asked, or the client as it was after all of them.
  pub data Asked (n : ℕ) (c : Client) (w : World P) : Bool × Client → World P → Type 0 where
    found :
        (c' : Client) (w' : World P) (i : ℕ)
        → i < n
        → read_erizo P.json c (P.rpc_answer (w.asked + i)) ≡ done (some c')
        → w'.asked ≡ w.asked + suc i
        → Asked n c w (false, c') w'
    gave_up : (w' : World P) → w'.asked ≡ w.asked + n → Asked n c w (true, c) w'

  Leaves-lift :
      {A : Type 0} {Q : A → World P → Type 0} {T : World P → Type 0} (o : Outcome A) (w : World P)
      → ((a : A) → o ≡ done a → Q a w)
      → T w
      → Leaves Q T (lift o w)
  Leaves-lift (done a) w k t = returned _ _ (k a refl)
  Leaves-lift thrown w k t = threw _ t

  ask_erizo_lem :
      (c : Client) (w : World P)
      → Leaves
          (λ o w'. (read_erizo P.json c (P.rpc_answer w.asked) ≡ done o) × (w'.asked ≡ w.asked + 1))
          (λ w'. w'.asked ≡ w.asked + 1)
          (ask_erizo P c w)
  unfolding ask_erizo rpc
  ask_erizo_lem c w =
      Leaves-lift (read_erizo P.json c (P.rpc_answer w.asked)) _ (λ o e. (e, refl)) refl

  answer_at :
      (c : Client) (m n : ℕ) (o : Option Client)
      → m ≡ n
      → read_erizo P.json c (P.rpc_answer n) ≡ done o
      → read_erizo P.json c (P.rpc_answer m) ≡ done o
  answer_at c m n o e h = rw e h

  later :
      (n : ℕ) (c : Client) (w u : World P) (r : Bool × Client) (v : World P)
      → u.asked ≡ w.asked + 1
      → Asked n c u r v
      → Asked (suc n) c w r v
  later n c w u _ _ h (found c' v i l e a) =
      found c' v (suc i) (omega arith)
        (answer_at c (w.asked + suc i) (u.asked + i) (some c') (omega (arith, h)) e)
        (omega (arith, h, a))
  later n c w u _ _ h (gave_up v a) = gave_up v (omega (arith, h, a))

  ask_loop_lem :
      (n : ℕ) (c : Client) (w : World P)
      → Leaves (Asked (suc n) c w) (λ w'. w'.asked ≤ w.asked + suc n) (ask_loop P n c w)
  unfolding ask_loop
  ask_loop_lem zero c w =
      Leaves-bind (ask_erizo P c) _ w
        (Leaves-mono _ (ask_erizo_lem c w) (λ _ _ h. h) λ w' h. omega (arith, h))
        (elim [
          | some c' ↦ λ u h. returned _ _ (
              found c' u 0 (omega arith)
                (answer_at c (w.asked + 0) w.asked (some c') (omega arith) h.0) h.1)
          | none ↦ λ u h. returned _ _ (gave_up u h.1)
        ])
  ask_loop_lem (suc n) c w =
      Leaves-bind (ask_erizo P c) _ w
        (Leaves-mono _ (ask_erizo_lem c w) (λ _ _ h. h) λ w' h. omega (arith, h))
        (elim [
          | some c' ↦ λ u h. returned _ _ (
              found c' u 0 (omega arith)
                (answer_at c (w.asked + 0) w.asked (some c') (omega arith) h.0) h.1)
          | none ↦ λ u h.
              Leaves-mono _ (ask_loop_lem n c u) (λ r v a. later (suc n) c w u r v h.1 a)
                λ v b. omega (arith, h.1, b)
        ])

  -- `allocErizo` asks at most three times. It succeeds with the process that the answer to its last
  -- question names, or fails after three questions with the client as it was; or a conversion throws.
  pub alloc_erizo_lem :
      (c : Client) (w : World P)
      → Leaves (Asked 3 c w) (λ w'. w'.asked ≤ w.asked + 3) (alloc_erizo P c w)
  unfolding alloc_erizo
  alloc_erizo_lem c w = ask_loop_lem 2 c w
