-- ===== src/Controller/Alloc/Choice.antt =====
-- The agent that `allocAgent` chooses: one that is alive, with the fewest processes.
use erizo_controller.Base.{
  ℕ, ℤ, pos, negsuc, true, false, List, [], ◌∷◌, ◌≡◌, refl, ◌⊎◌, arith, Option, none, some,
  Bool-cases, inl, inr, keep_if,
}
use erizo_controller.Base.Int.{ltb_int}
use erizo_controller.Base.Members.{
  Among, among_head, among_next, Among-cons, Among-keep_if, keep_if-Among,
}
use erizo_controller.Model.ErizoAgent.{ErizoAgent}
use erizo_controller.Controller.Alloc.{is_alive, insert_agent, sort_agents, choose_agent}

ltb_int_trans : (a b c : ℤ) → ltb_int b a ≡ false → ltb_int c b ≡ false → ltb_int c a ≡ false
ltb_int_trans (pos a) (pos b) (pos c) h k = ground arith
ltb_int_trans (pos a) (pos b) (negsuc c) h k = cc
ltb_int_trans (pos a) (negsuc b) c h k = cc
ltb_int_trans (negsuc a) (pos b) (pos c) h k = refl
ltb_int_trans (negsuc a) (pos b) (negsuc c) h k = cc
ltb_int_trans (negsuc a) (negsuc b) (pos c) h k = refl
ltb_int_trans (negsuc a) (negsuc b) (negsuc c) h k = ground arith

ltb_int_asym : (a b : ℤ) → ltb_int a b ≡ true → ltb_int b a ≡ false
ltb_int_asym (pos a) (pos b) h = ground arith
ltb_int_asym (pos a) (negsuc b) h = cc
ltb_int_asym (negsuc a) (pos b) h = refl
ltb_int_asym (negsuc a) (negsuc b) h = ground arith

ltb_int_irrefl : (a : ℤ) → ltb_int a a ≡ false
ltb_int_irrefl (pos a) = ground arith
ltb_int_irrefl (negsuc a) = ground arith

-- No agent of the list has fewer processes than `a`.
abbrev IsFewest : ErizoAgent → List ErizoAgent → Type 0
IsFewest a agents =
    (b : ErizoAgent) → Among b agents → ltb_int b.erizo_process_num a.erizo_process_num ≡ false

abbrev IsSorted : List ErizoAgent → Type 0
IsSorted [] = Unit
IsSorted (a ∷ agents) = IsFewest a agents × IsSorted agents

Among-insert :
    (a b : ErizoAgent) (agents : List ErizoAgent)
    → Among b (insert_agent a agents)
    → (b ≡ a) ⊎ Among b agents
unfolding insert_agent
Among-insert a b [] m = elim (Among-cons m) [ inl e ↦ inl e | inr m' ↦ inr m' ]
Among-insert a b (c ∷ agents) m =
    elim (Bool-cases (ltb_int c.erizo_process_num a.erizo_process_num)) [
      | inl t ↦ elim (Among-cons (rw t at m)) [
        | inl e ↦ inr (among_head c agents e)
        | inr m' ↦ elim (Among-insert a b agents m') [
          | inl e ↦ inl e
          | inr k ↦ inr (among_next c agents k)
        ]
      ]
      | inr f ↦ Among-cons (rw f at m)
    ]

insert-Among :
    (a b : ErizoAgent) (agents : List ErizoAgent)
    → (b ≡ a) ⊎ Among b agents
    → Among b (insert_agent a agents)
unfolding insert_agent
insert-Among a b [] (inl e) = among_head a [] e
insert-Among a b [] (inr m) = among_next a [] m
insert-Among a b (c ∷ agents) h =
    elim (Bool-cases (ltb_int c.erizo_process_num a.erizo_process_num)) [
      | inl t ↦ rw t (elim h [
        | inl e ↦ among_next c _ (insert-Among a b agents (inl e))
        | inr m ↦ elim (Among-cons m) [
          | inl e ↦ among_head c _ e
          | inr k ↦ among_next c _ (insert-Among a b agents (inr k))
        ]
      ])
      | inr f ↦ rw f (elim h [ inl e ↦ among_head a _ e | inr m ↦ among_next a _ m ])
    ]

insert-IsSorted :
    (a : ErizoAgent) (agents : List ErizoAgent) → IsSorted agents → IsSorted (insert_agent a agents)
unfolding insert_agent
insert-IsSorted a [] s = (λ b m. elim m [ ], tt)
insert-IsSorted a (c ∷ agents) (least, s) =
    elim (Bool-cases (ltb_int c.erizo_process_num a.erizo_process_num)) [
      | inl t ↦ rw t (
        λ b m. elim (Among-insert a b agents m) [
          | inl e ↦ rw e (ltb_int_asym c.erizo_process_num a.erizo_process_num t)
          | inr k ↦ least b k
        ],
        insert-IsSorted a agents s,
      )
      | inr f ↦ rw f (
        λ b m. elim (Among-cons m) [
          | inl e ↦ rw e f
          | inr k ↦
              ltb_int_trans a.erizo_process_num c.erizo_process_num b.erizo_process_num f
                (least b k)
        ],
        (least, s),
      )
    ]

sort-IsSorted : (agents : List ErizoAgent) → IsSorted (sort_agents agents)
unfolding sort_agents
sort-IsSorted [] = tt
sort-IsSorted (a ∷ agents) = insert-IsSorted a (sort_agents agents) (sort-IsSorted agents)

Among-sort :
    (b : ErizoAgent) (agents : List ErizoAgent) → Among b (sort_agents agents) → Among b agents
unfolding sort_agents
Among-sort b [] m = m
Among-sort b (a ∷ agents) m = elim (Among-insert a b (sort_agents agents) m) [
  | inl e ↦ among_head a agents e
  | inr k ↦ among_next a agents (Among-sort b agents k)
]

sort-Among :
    (b : ErizoAgent) (agents : List ErizoAgent) → Among b agents → Among b (sort_agents agents)
unfolding sort_agents
sort-Among b _ (among_head a agents e) = insert-Among a b (sort_agents agents) (inl e)
sort-Among b _ (among_next a agents m) =
    insert-Among a b (sort_agents agents) (inr (sort-Among b agents m))

not-Among : {b : ErizoAgent} → ¬ Among b []
not-Among m = elim m [ ]

-- What a choice among agents has to be: none if no agent is alive, and otherwise an agent of the
-- list that is alive, where no live agent of the list has fewer processes.
abbrev pub IsChoice : ℕ → ℕ → List ErizoAgent → Option ErizoAgent → Type 0
IsChoice now timeout agents none =
    (b : ErizoAgent) → Among b agents → is_alive now timeout b ≡ false
IsChoice now timeout agents (some a) =
    Among a agents
    × (is_alive now timeout a ≡ true)
    × ((b : ErizoAgent)
        → Among b agents
        → is_alive now timeout b ≡ true
        → ltb_int b.erizo_process_num a.erizo_process_num ≡ false)

-- An agent is chosen whenever one is alive, and it is a live one with the fewest processes.
pub choose_agent-IsChoice :
    (now timeout : ℕ) (agents : List ErizoAgent)
    → IsChoice now timeout agents (choose_agent now timeout agents)
unfolding choose_agent
choose_agent-IsChoice now timeout agents = go (sort_agents alive) refl
  where
    alive : List ErizoAgent
    alive = keep_if (is_alive now timeout) agents

    go :
        (sorted : List ErizoAgent)
        → sort_agents alive ≡ sorted
        → IsChoice now timeout agents (choose_agent now timeout agents)
    go [] e =
        rw (e, choose_agent)
          λ b m. elim (Bool-cases (is_alive now timeout b)) [
            | inl t ↦ absurd (not-Among (rw e at (sort-Among b alive (keep_if-Among _ agents m t))))
            | inr f ↦ f
          ]
    go (a ∷ rest) e =
        let (m, t) = Among-keep_if _ agents (Among-sort a alive (rw e (among_head a rest refl))) in
        rw (e, choose_agent)
          (
            m,
            t,
            λ b k u. elim (Among-cons (rw e at (sort-Among b alive (keep_if-Among _ agents k u)))) [
              | inl q ↦ rw q (ltb_int_irrefl a.erizo_process_num)
              | inr q ↦ (rw e at (sort-IsSorted alive)).0 b q
            ],
          )
