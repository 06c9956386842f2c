-- ===== src/Agent/Schedule.antt =====
-- The cycle of the default tools.
use roboz.Prelude.{
  ℕ, zero, suc, ◌≡◌, ◌⊎◌, inl, inr, Memᴰ, mem_of_left, mem_of_right, mem_of_append, Bool-cases,
  ◌==◌, ◌&&◌, refl, sym, ap, ◌∙◌, Bool, true, some, List, [], ◌∷◌, length, Result, ok, ◌>>=◌, arith,
}
use roboz.Agent.{
  Output, value, Tool, Agent, Refusal, cycle, links_of, chained_from, take_first,
  pop_ephemeral_default_tool, next_of, chained_tools, get_next_tool,
}

module _ {O : Type 0} where
  -- So many default tools, one after the other.
  abbrev pub pops : ℕ → Agent O → Result (Refusal O) (List (Tool O) × Agent O)
  pops zero agent = ok ([], agent)
  pops (suc n) agent = pop_ephemeral_default_tool agent >>= λ first.
      pops n first.1 >>= λ rest. ok (first.0 ∷ rest.0, rest.1)

  pop-first :
      (t : Tool O) (tools : List (Tool O)) (agent : Agent O)
      → agent.ephemeral_default_tools ≡ t ∷ tools
      → pop_ephemeral_default_tool agent ≡ ok (t, record agent { ephemeral_default_tools = tools })
  unfolding pop_ephemeral_default_tool take_first
  pop-first t tools agent h = rw (h, pop_ephemeral_default_tool) refl

  pop-empty :
      (t : Tool O) (tools : List (Tool O)) (agent : Agent O)
      → agent.ephemeral_default_tools ≡ []
      → cycle agent ≡ t ∷ tools
      → pop_ephemeral_default_tool agent ≡ ok (t, record agent { ephemeral_default_tools = tools })
  unfolding pop_ephemeral_default_tool take_first
  pop-empty t tools agent h k = rw (h, k, pop_ephemeral_default_tool) refl

  pops-rest :
      (tools : List (Tool O)) (agent : Agent O)
      → agent.ephemeral_default_tools ≡ tools
      → pops (length tools) agent ≡ ok (tools, record agent { ephemeral_default_tools = [] })
  pops-rest [] agent h = ap (λ tools. ok ([], record agent { ephemeral_default_tools = tools })) h
  pops-rest (t ∷ tools) agent h =
      rw (pop-first t tools agent h)
        (rw (pops-rest tools (record agent { ephemeral_default_tools = tools }) refl) refl)

  pops-from :
      (tools : List (Tool O)) (agent : Agent O)
      → agent.ephemeral_default_tools ≡ []
      → cycle agent ≡ tools
      → pops (length tools) agent ≡ ok (tools, agent)
  pops-from [] agent h k = refl
  pops-from (t ∷ tools) agent h k = rw (pop-empty t tools agent h k) (
      rw (pops-rest tools (record agent { ephemeral_default_tools = tools }) refl)
        (ap (λ left. ok (t ∷ tools, record agent { ephemeral_default_tools = left })) (sym h)))

  -- A cycle that begins with no tool left schedules the default tools in the order of the
  -- configuration, then the tool that asks the model, and ends as it began.
  pub pops-cycle :
      (agent : Agent O)
      → agent.ephemeral_default_tools ≡ []
      → pops (length (cycle agent)) agent ≡ ok (cycle agent, agent)
  pops-cycle agent h = pops-from (cycle agent) agent h refl

-- A passive tool that is chained to the tool of this id, and wants the output.
abbrev pub Follows : {O : Type 0} → ℕ → Output O → Agent O → Tool O → Type 0
Follows id output agent u =
    Memᴰ u agent.passive_tools × Memᴰ id u.chained_to × (u.chain_condition output ≡ true)

mem_of_first :
    {A : Type 0} {x : A} (y : A) (rest : List A) → Memᴰ x (y ∷ rest) → (x ≡ y) ⊎ Memᴰ x rest
mem_of_first y rest (Memᴰ.head same) = inl same
mem_of_first y rest (Memᴰ.tail m) = inr m

module _ {O : Type 0} (id : ℕ) (output : Output O) where
  links_of-mem :
      (passive : Tool O) (parents : List ℕ) {u : Tool O}
      → Memᴰ u (links_of id output passive parents)
      → (u ≡ passive) × Memᴰ id parents × (passive.chain_condition output ≡ true)
  unfolding links_of
  links_of-mem passive [] m = elim m [ ]
  links_of-mem passive (parent ∷ parents) m =
      elim (Bool-cases (parent == id && passive.chain_condition output)) [
        | inl linked ↦
            elim (mem_of_first passive (links_of id output passive parents) (rw linked at m)) [
              | inl same ↦ (same, Memᴰ.head (ground arith), ground arith)
              | inr deep ↦
                  let (same, mem, holds) = links_of-mem passive parents deep in
                  (same, Memᴰ.tail mem, holds)
            ]
        | inr other ↦
            let (same, mem, holds) = links_of-mem passive parents (rw other at m) in
            (same, Memᴰ.tail mem, holds)
      ]

  mem-links_of :
      (passive : Tool O) (parents : List ℕ)
      → Memᴰ id parents
      → passive.chain_condition output ≡ true
      → Memᴰ passive (links_of id output passive parents)
  unfolding links_of
  mem-links_of passive [] m h = elim m [ ]
  mem-links_of passive (parent ∷ parents) (Memᴰ.head same) h =
      let linked : (parent == id && passive.chain_condition output) ≡ true = ground arith in
      rw linked (Memᴰ.head refl)
  mem-links_of passive (parent ∷ parents) (Memᴰ.tail m) h =
      elim (Bool-cases (parent == id && passive.chain_condition output)) [
        | inl linked ↦ rw linked (Memᴰ.tail (mem-links_of passive parents m h))
        | inr other ↦ rw other (mem-links_of passive parents m h)
      ]

  chained_from-mem :
      (tools : List (Tool O)) {u : Tool O}
      → Memᴰ u (chained_from id output tools)
      → Memᴰ u tools × Memᴰ id u.chained_to × (u.chain_condition output ≡ true)
  unfolding chained_from
  chained_from-mem [] m = elim m [ ]
  chained_from-mem (passive ∷ tools) m =
      elim (mem_of_append (links_of id output passive passive.chained_to)
        (chained_from id output tools) m) [
          | inl here ↦
              let (same, mem, holds) = links_of-mem passive passive.chained_to here in
              (Memᴰ.head same, rw same mem, rw same holds)
          | inr there ↦
              let (place, mem, holds) = chained_from-mem tools there in
              (Memᴰ.tail place, mem, holds)
        ]

  mem-chained_from :
      (tools : List (Tool O)) {u : Tool O}
      → Memᴰ u tools
      → Memᴰ id u.chained_to
      → u.chain_condition output ≡ true
      → Memᴰ u (chained_from id output tools)
  unfolding chained_from
  mem-chained_from [] m k h = elim m [ ]
  mem-chained_from (passive ∷ tools) {u} (Memᴰ.head same) k h =
      mem_of_left (links_of id output passive passive.chained_to) (chained_from id output tools)
        (rw same (mem-links_of passive passive.chained_to (rw same at k) (rw same at h)))
  mem-chained_from (passive ∷ tools) (Memᴰ.tail m) k h =
      mem_of_right (links_of id output passive passive.chained_to) (chained_from id output tools)
        (mem-chained_from tools m k h)

no_mem : {A : Type 0} {x : A} → Memᴰ x [] → ⊥
no_mem m = elim m [ ]

single_mem : {A : Type 0} {x y : A} → Memᴰ x (y ∷ []) → x ≡ y
single_mem (Memᴰ.head same) = same
single_mem (Memᴰ.tail m) = elim m [ ]

module _ {O : Type 0} (link : Tool O → Tool O → Bool) (previous : Tool O) (agent : Agent O) where
  -- The next tool behind a tool that gave back no call: the one passive tool that follows it; or a
  -- default tool, and then none follows.
  abbrev pub NextIs : Output O → Tool O × Agent O → Type 0
  NextIs output next =
      (Follows previous.id output agent next.0
        × ((v : Tool O) → Follows previous.id output agent v → v ≡ next.0)
        × (next.1 ≡ agent))
      ⊎ (((v : Tool O) → Follows previous.id output agent v → ⊥)
          × (pop_ephemeral_default_tool agent ≡ ok next))

  next_of-NextIs :
      (output : Output O) (tools : List (Tool O)) (next : Tool O × Agent O)
      → chained_from previous.id output agent.passive_tools ≡ tools
      → next_of tools agent ≡ ok next
      → NextIs output next
  unfolding next_of
  next_of-NextIs output [] (u, after) h next = inr (
    λ v follows. no_mem (
        rw h at
          (mem-chained_from previous.id output agent.passive_tools follows.0 follows.1 follows.2)),
    next,
  )
  next_of-NextIs output (t ∷ []) (u, after) h next =
      let here : t ≡ u = cc in
      let kept : after ≡ agent = cc in
      let place : Memᴰ t (chained_from previous.id output agent.passive_tools) =
        rw h (Memᴰ.head refl) in
      inl (
        rw (← here) (chained_from-mem previous.id output agent.passive_tools place),
        λ v follows.
            single_mem (
              rw h at (
                mem-chained_from previous.id output agent.passive_tools follows.0 follows.1
                  follows.2))
            ∙ here,
        kept,
      )
  next_of-NextIs output (t ∷ v ∷ tools) next h k = cc

  -- A next tool behind a value is the one passive tool that is chained to the last tool and wants
  -- the value, or else the next default tool, and then no passive tool follows.
  pub get_next_tool-NextIs :
      (o : O) {next : Tool O × Agent O}
      → get_next_tool link (some previous) (value o) agent ≡ ok next
      → NextIs (value o) next
  unfolding get_next_tool chained_tools
  get_next_tool-NextIs o {next} h =
      next_of-NextIs (value o) (chained_from previous.id (value o) agent.passive_tools) next refl h
