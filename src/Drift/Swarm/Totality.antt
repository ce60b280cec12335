-- ===== src/Drift/Swarm/Totality.antt =====
-- Every agent of a hop has its place in the transition matrix (evaluator/drift/swarm_drift.py).
use post_rag_drift_evaluator.Prelude.{
  ℕ, suc, String, ◌≡◌, refl, true, ◌||◌, inl, inr, Bool-cases, List, [], ◌∷◌, ◌++◌, str_eq, eq_refl,
  eq_iff, if◌then◌else◌, All, All-map_pred, All-append, ap, ◌∙◌, arith,
}
use post_rag_drift_evaluator.Float.{Float}
use post_rag_drift_evaluator.Result.{ok, ◌>>=◌}
use post_rag_drift_evaluator.Telemetry.{ExecutionMetadata}
use post_rag_drift_evaluator.Drift.Swarm.{
  SwarmMeta, payload, SwarmValues, payload_hops, reflection_iterations, all_reflections,
  SwarmDriftCalculator, SwarmDrift, is_seen, add_agents, index_of, steps_of, agent_hops,
  collect_agents, count_steps, count_all, transition_matrix, compute_swarm_drift, zeros,
}

abbrev IsListed : List String → String → Type 0
IsListed agents a = is_seen a agents ≡ true

abbrev AreListed : List String → List String → Type 0
AreListed agents hops = All (IsListed agents) hops

is_seen-append :
    (a : String) (xs ys : List String) → is_seen a (xs ++ ys) ≡ (is_seen a xs || is_seen a ys)
is_seen-append a [] ys = refl
is_seen-append a (x ∷ xs) ys = ground (arith, is_seen-append a xs ys)

abbrev added : List String → String → List String
added agents hop = if is_seen hop agents then agents else agents ++ (hop ∷ [])

-- After `if hop not in seen: append`, the hop is there, and what was there stays.
is_seen-added :
    (a hop : String) (agents : List String)
    → (str_eq hop a || is_seen a agents) ≡ true
    → is_seen a (added agents hop) ≡ true
is_seen-added a hop agents h = elim (Bool-cases (is_seen hop agents)) [
  | inl e ↦ rw e (ground (arith, h, e, eq_iff hop a))
  | inr e ↦ rw e (ground (arith, h, is_seen-append a agents (hop ∷ [])))
]

add_agents-keeps :
    (a : String) (hops agents : List String)
    → is_seen a agents ≡ true
    → is_seen a (add_agents agents hops) ≡ true
unfolding add_agents
add_agents-keeps a [] agents h = h
add_agents-keeps a (hop ∷ hops) agents h =
    add_agents-keeps a hops (added agents hop) (is_seen-added a hop agents (ground (arith, h)))

add_agents-lists : (hops agents : List String) → AreListed (add_agents agents hops) hops
unfolding add_agents
add_agents-lists [] agents = tt
add_agents-lists (hop ∷ hops) agents = (
  add_agents-keeps hop hops (added agents hop)
      (is_seen-added hop hop agents (ground (arith, eq_refl hop))),
  add_agents-lists hops (added agents hop),
)

index_of-ok :
    (a : String) (agents : List String)
    → is_seen a agents ≡ true
    → (i : ℕ) × (index_of a agents ≡ ok i)
unfolding index_of
index_of-ok a [] h = absurd (ground arith)
index_of-ok a (b ∷ bs) h = elim (Bool-cases (str_eq b a)) [
  | inl e ↦ rw e (0, refl)
  | inr e ↦ let (i, p) = index_of-ok a bs (ground (arith, h, e)) in rw (e, p) (suc i, refl)
]

-- Both ends of a step are hops.
steps_of-AreListed :
    (agents hops : List String)
    → AreListed agents hops
    → All (λ s. IsListed agents s.0 × IsListed agents s.1) (steps_of hops)
unfolding steps_of
steps_of-AreListed agents [] h = tt
steps_of-AreListed agents (a ∷ []) h = tt
steps_of-AreListed agents (a ∷ b ∷ hops) (p, h) = ((p, h.0), steps_of-AreListed agents (b ∷ hops) h)

module _ {F : Type 0} ⦃fl : Float F⦄ where
  -- A payload of which Python reads the hops and the number of reflections.
  abbrev pub IsReadable : SwarmValues F → SwarmMeta F → Type 0
  IsReadable c p =
      ((hops : List String) × (agent_hops c p ≡ ok hops))
      × ((n : F) × (reflection_iterations c p ≡ ok n))

  -- One that is no dictionary is.
  pub payload-IsReadable : (c : SwarmValues F) (p : ExecutionMetadata F) → IsReadable c (payload p)
  unfolding agent_hops reflection_iterations
  payload-IsReadable c p = ((payload_hops p, refl), (p.reflection_iterations, refl))

  -- The hops of every payload.
  abbrev HaveListed : SwarmValues F → List String → List (SwarmMeta F) → Type 0
  HaveListed c agents ps =
      All (λ p. (hops : List String) × (agent_hops c p ≡ ok hops) × AreListed agents hops) ps

  -- The agents that are collected behind others.
  abbrev Collected : SwarmValues F → List String → List (SwarmMeta F) → List String → Type 0
  Collected c before ps after =
      (collect_agents c before ps ≡ ok after)
      × ((a : String) → is_seen a before ≡ true → is_seen a after ≡ true)
      × HaveListed c after ps

  collect_agents-lists :
      (c : SwarmValues F) (ps : List (SwarmMeta F)) (agents : List String)
      → All (IsReadable c) ps
      → (after : List String) × Collected c agents ps after
  unfolding collect_agents
  collect_agents-lists c [] agents h = (agents, (refl, (λ a k. k), tt))
  collect_agents-lists c (p ∷ ps) agents (((hops, e), _), h) =
      let (after, (e', keeps, listed)) = collect_agents-lists c ps (add_agents agents hops) h in
      (
        after,
        (
          ap (λ r. do hops ← r; collect_agents c (add_agents agents hops) ps) e ∙ e',
          (λ a k. keeps a (add_agents-keeps a hops agents k)),
          (
            (
              hops,
              e,
              All-map_pred (IsListed (add_agents agents hops)) (IsListed after) keeps hops
                  (add_agents-lists hops agents),
            ),
            listed,
          ),
        ),
      )

  count_steps-ok :
      (agents : List String) (steps : List (String × String)) (m : List (List F))
      → All (λ s. IsListed agents s.0 × IsListed agents s.1) steps
      → (m' : List (List F)) × (count_steps agents steps m ≡ ok m')
  unfolding count_steps
  count_steps-ok agents [] m h = (m, refl)
  count_steps-ok agents ((s, t) ∷ steps) m ((p, q), h) =
      let (i, e) = index_of-ok s agents p in
      let (j, e') = index_of-ok t agents q in rw (e, e') (count_steps-ok agents steps _ h)

  count_all-ok :
      (c : SwarmValues F) (agents : List String) (ps : List (SwarmMeta F)) (m : List (List F))
      → HaveListed c agents ps
      → (m' : List (List F)) × (count_all c agents ps m ≡ ok m')
  unfolding count_all
  count_all-ok c agents [] m h = (m, refl)
  count_all-ok c agents (p ∷ ps) m ((hops, e, a), h) =
      let (m1, e1) = count_steps-ok agents (steps_of hops) m (steps_of-AreListed agents hops a) in
      rw (e, e1) (count_all-ok c agents ps m1 h)

  all_reflections-ok :
      (c : SwarmValues F) (ps : List (SwarmMeta F))
      → All (IsReadable c) ps
      → (ns : List F) × (all_reflections c ps ≡ ok ns)
  unfolding all_reflections
  all_reflections-ok c [] h = ([], refl)
  all_reflections-ok c (p ∷ ps) ((_, (n, e)), h) =
      let (ns, e') = all_reflections-ok c ps h in rw (e, e') (n ∷ ns, refl)

  All-split {κ} :
      (P : SwarmMeta F → Type κ) (xs ys : List (SwarmMeta F))
      → All P (xs ++ ys)
      → All P xs × All P ys
  All-split P [] ys h = (tt, h)
  All-split P (x ∷ xs) ys (p, h) = let (a, b) = All-split P xs ys h in ((p, a), b)

  -- The comparison of two windows returns if the hops and the reflections of every payload can be
  -- read, as they can of every payload that is no dictionary: every agent of a hop has its place in
  -- the matrix.
  pub compute_swarm_drift-returns :
      (log : F → F) (c : SwarmValues F) (calculator : SwarmDriftCalculator F)
      (baseline current : List (SwarmMeta F))
      → All (IsReadable c) baseline
      → All (IsReadable c) current
      → (r : SwarmDrift F) × (compute_swarm_drift log c calculator baseline current ≡ ok r)
  unfolding compute_swarm_drift transition_matrix
  compute_swarm_drift-returns log c calculator baseline current hb hc =
      let (agents, (e, keeps, listed)) =
        collect_agents-lists c (baseline ++ current) []
          (All-append (IsReadable c) baseline current hb hc) in
      let (lb, lc) = All-split _ baseline current listed in
      let (m, e1) = count_all-ok c agents baseline (zeros agents agents) lb in
      let (m', e2) = count_all-ok c agents current (zeros agents agents) lc in
      let (ns, e3) = all_reflections-ok c baseline hb in
      let (ns', e4) = all_reflections-ok c current hc in rw (e, e1, e2, e3, e4) (_, refl)
