-- ===== src/Drift/Swarm.antt =====
-- evaluator/drift/swarm_drift.py: the routing and the reflection of the agents in two windows. The
-- natural logarithm is a parameter, and so is what Python makes of the values in a payload that is a
-- dictionary; a matrix is a list of rows, and a row that an index does not find raises, as a
-- missing key of `index` does.
pub mod Totality
use post_rag_drift_evaluator.Prelude.{
  ℕ, zero, suc, String, Bool, true, false, not, ◌||◌, Option, none, some, List, [], ◌∷◌, ◌++◌, map,
  keep, length, str_eq, if◌then◌else◌,
}
use post_rag_drift_evaluator.Float.{Float, fmax}
use post_rag_drift_evaluator.Result.{Result, ok, err, key_error, ◌>>=◌}
use post_rag_drift_evaluator.Latent.Adaptive.{sum, mean}
use post_rag_drift_evaluator.Telemetry.{ExecutionMetadata}
use post_rag_drift_evaluator.Dict.{Dict, get}
use post_rag_drift_evaluator.Value.{Value}
use post_rag_drift_evaluator.Ingestion.RunSchema.{truthy}

pub record SwarmDriftCalculator (F : Type 0) : Type 0 where
  pub entropy_threshold : F
  pub reflection_threshold : F

pub record SwarmDrift (F : Type 0) : Type 0 where
  pub transition_entropy_delta : F
  pub avg_reflection_iterations_delta : F
  pub is_swarm_drifted : Bool

abbrev pub is_seen : String → List String → Bool
is_seen a [] = false
is_seen a (b ∷ bs) = str_eq b a || is_seen a bs

-- `if hop not in seen: agents.append(hop)`
unfoldable pub add_agents : List String → List String → List String
add_agents agents [] = agents
add_agents agents (hop ∷ hops) =
    add_agents (if is_seen hop agents then agents else agents ++ (hop ∷ [])) hops

-- `index[agent]`
unfoldable pub index_of : String → List String → Result ℕ
index_of a [] = err key_error
index_of a (b ∷ bs) =
    let rest = index_of a bs in if str_eq b a then ok 0 else (do i ← rest; ok (suc i))

-- `zip(hops, hops[1:])`
unfoldable pub steps_of : List String → List (String × String)
steps_of [] = []
steps_of (a ∷ []) = []
steps_of (a ∷ b ∷ hops) = (a, b) ∷ steps_of (b ∷ hops)

-- The item of an index within the list, changed.
abbrev pub change_at {ℓ} : {A : Type ℓ} → ℕ → (A → A) → List A → List A
change_at i f [] = []
change_at zero f (x ∷ xs) = f x ∷ xs
change_at (suc i) f (x ∷ xs) = x ∷ change_at i f xs

pub data SwarmMeta (F : Type 0) : Type 0 where
  payload : ExecutionMetadata F → SwarmMeta F
  -- a `dict[str, Any]`
  fields : Dict (Value F) → SwarmMeta F

-- The hops that a value iterates over, and `int(value)`, for values that are true.
pub record SwarmValues (F : Type 0) : Type 0 where
  pub iterate : Value F → Result (List String)
  pub to_int : Value F → Result F

abbrev pub payload_hops : {F : Type 0} → ExecutionMetadata F → List String
payload_hops p = elim p.agent_hops [ none ↦ [] | some hops ↦ hops ]

module _ {F : Type 0} ⦃fl : Float F⦄ where
  open fl use {decimal, add, sub, mul, div, abs, lt}

  -- `value or []`
  abbrev hops_of : SwarmValues F → Option (Value F) → Result (List String)
  hops_of c none = ok []
  hops_of c (some v) = if truthy v then c.iterate v else ok []

  unfoldable pub agent_hops : SwarmValues F → SwarmMeta F → Result (List String)
  unfolding get
  agent_hops c (payload p) = ok (payload_hops p)
  agent_hops c (fields d) = hops_of c (get "agent_hops" d)

  -- `int(value or 0)`
  abbrev count_of : SwarmValues F → Option (Value F) → Result F
  count_of c none = ok (decimal 0 0)
  count_of c (some v) = if truthy v then c.to_int v else ok (decimal 0 0)

  unfoldable pub reflection_iterations : SwarmValues F → SwarmMeta F → Result F
  unfolding get
  reflection_iterations c (payload p) = ok p.reflection_iterations
  reflection_iterations c (fields d) = count_of c (get "reflection_iterations" d)

  unfoldable pub collect_agents :
      SwarmValues F → List String → List (SwarmMeta F) → Result (List String)
  unfolding add_agents agent_hops
  collect_agents c agents [] = ok agents
  collect_agents c agents (p ∷ ps) = do
    hops ← agent_hops c p
    collect_agents c (add_agents agents hops) ps

  -- `np.zeros`
  unfoldable pub zeros : List String → List String → List (List F)
  zeros agents [] = []
  zeros agents (r ∷ rows) = map (λ a. decimal 0 0) agents ∷ zeros agents rows

  unfoldable pub count_steps :
      List String → List (String × String) → List (List F) → Result (List (List F))
  unfolding index_of
  count_steps agents [] matrix = ok matrix
  count_steps agents ((source, target) ∷ steps) matrix = do
    i ← index_of source agents
    j ← index_of target agents
    count_steps agents steps (change_at i (change_at j (λ x. add x (decimal 1 0))) matrix)

  unfoldable pub count_all :
      SwarmValues F → List String → List (SwarmMeta F) → List (List F) → Result (List (List F))
  unfolding count_steps steps_of agent_hops
  count_all c agents [] matrix = ok matrix
  count_all c agents (p ∷ ps) matrix = do
    hops ← agent_hops c p
    counted ← count_steps agents (steps_of hops) matrix
    count_all c agents ps counted

  unfoldable pub transition_matrix :
      SwarmValues F → List (SwarmMeta F) → List String → Result (List (List F))
  unfolding count_all zeros
  transition_matrix c payloads agents = count_all c agents payloads (zeros agents agents)

  -- The probabilities above 0, row by row.
  unfoldable pub probabilities : List (List F) → List F
  unfolding sum
  probabilities [] = []
  probabilities (row ∷ rows) =
      let total = fmax (sum row) (decimal 1 12) in
      keep (λ x. lt (decimal 0 0) x) (map (λ x. div x total) row) ++ probabilities rows

  -- -sum(p * log p)
  unfoldable pub matrix_entropy : (F → F) → List (List F) → F
  unfolding probabilities sum
  matrix_entropy log matrix = elim (probabilities matrix) [
    | [] ↦ decimal 0 0
    | p ∷ ps ↦ sub (decimal 0 0) (sum (map (λ x. mul x (log x)) (p ∷ ps)))
  ]

  unfoldable pub all_reflections : SwarmValues F → List (SwarmMeta F) → Result (List F)
  unfolding reflection_iterations
  all_reflections c [] = ok []
  all_reflections c (p ∷ ps) = do
    n ← reflection_iterations c p
    ns ← all_reflections c ps
    ok (n ∷ ns)

  unfoldable pub average_reflections : List F → F
  unfolding mean
  average_reflections [] = decimal 0 0
  average_reflections (n ∷ ns) = mean (n ∷ ns)

  unfoldable pub compute_swarm_drift :
      (F → F)
      → SwarmValues F
      → SwarmDriftCalculator F
      → List (SwarmMeta F)
      → List (SwarmMeta F)
      → Result (SwarmDrift F)
  unfolding collect_agents transition_matrix matrix_entropy average_reflections all_reflections
  compute_swarm_drift log c calculator baseline current = do
    agents ← collect_agents c [] (baseline ++ current)
    baseline_matrix ← transition_matrix c baseline agents
    current_matrix ← transition_matrix c current agents
    let entropy_delta = sub (matrix_entropy log current_matrix) (matrix_entropy log baseline_matrix)
    baseline_reflections ← all_reflections c baseline
    current_reflections ← all_reflections c current
    let reflection_delta =
        sub (average_reflections current_reflections) (average_reflections baseline_reflections)
    ok (record {
      transition_entropy_delta = entropy_delta;
      avg_reflection_iterations_delta = reflection_delta;
      is_swarm_drifted =
          lt calculator.entropy_threshold (abs entropy_delta)
          || lt calculator.reflection_threshold (abs reflection_delta);
    })
