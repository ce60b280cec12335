-- ===== src/Stored/Optimizations.antt =====
-- evaluator/optimization/models.py: `OptimizationAction`, `OptimizationRecommendation` and
-- `OptimizationPlan` as dictionaries. `__post_init__` draws an identifier where there is none, so that
-- an object has one; the n-th call of `uuid4` is an argument, and the readers count the calls. A
-- priority is kept as the number that stands in the dictionary.
use post_rag_drift_evaluator.Prelude.{
  ℕ, ◌+◌, some, String, Option, none, List, [], ◌∷◌, map, ◌≡◌, refl,
}
use post_rag_drift_evaluator.Dict.{Dict, get}
use post_rag_drift_evaluator.Value.{
  Items, nil, cons, Value, num, text, items, dict_of, entries, fields_of,
}
use post_rag_drift_evaluator.Models.Actions.{OptimizationAction}
use post_rag_drift_evaluator.Stored.Readers.{
  Loaded, loaded, untyped, ◌>>=◌, as_text, as_num, as_dict, as_optional, load, load_or, items_of,
  entries-fields_of,
}

pub record StoredAction (F : Type 0) : Type 0 where
  pub action_id : String
  pub action : OptimizationAction F

-- `OptimizationRecommendation` with the identifiers.
pub record StoredRecommendation (F : Type 0) : Type 0 where
  pub recommendation_id : String
  pub action : StoredAction F
  pub expected_improvement : F
  pub confidence : F
  pub priority : F
  pub metadata : Dict (Value F)

-- `OptimizationPlan` with the identifiers.
pub record StoredPlan (F : Type 0) : Type 0 where
  pub plan_id : String
  pub drift_event_id : String
  pub recommendations : List (StoredRecommendation F)
  pub summary : String
  pub metadata : Dict (Value F)

-- `if self.id is None: self.id = str(uuid.uuid4())`, with the number of calls of `uuid4` so far.
abbrev identified : (ℕ → String) → Option String → ℕ → String × ℕ
identified uuid4 none n = (uuid4 n, n + 1)
identified uuid4 (some id) n = (id, n)

module _ {F : Type 0} where
  unfoldable pub dict_of_action : StoredAction F → Dict (Value F)
  dict_of_action s =
      ("action_id", text s.action_id)
      ∷ ("action_type", text s.action.action_type)
      ∷ ("target_run_id", text s.action.target_run_id)
      ∷ ("change_id", text s.action.change_id)
      ∷ ("description", text s.action.description)
      ∷ ("metadata", dict_of s.action.metadata)
      ∷ []

  unfoldable pub action_of_dict : (ℕ → String) → ℕ → Dict (Value F) → Loaded (StoredAction F × ℕ)
  unfolding get
  action_of_dict uuid4 n d = do
    given ← load_or (as_optional as_text) none "action_id" d
    action_type ← load_or as_text "" "action_type" d
    target_run_id ← load_or as_text "" "target_run_id" d
    change_id ← load_or as_text "" "change_id" d
    description ← load_or as_text "" "description" d
    metadata ← load_or as_dict [] "metadata" d
    let (id, m) = identified uuid4 given n
    loaded (
      record {
        action_id = id;
        action = record {
          action_type = action_type;
          target_run_id = target_run_id;
          change_id = change_id;
          description = description;
          metadata = metadata;
        };
      },
      m,
    )

  abbrev action_of_value : (ℕ → String) → ℕ → Value F → Loaded (StoredAction F × ℕ)
  action_of_value uuid4 n v = do d ← as_dict v; action_of_dict uuid4 n d

  unfoldable pub dict_of_recommendation : StoredRecommendation F → Dict (Value F)
  unfolding dict_of_action
  dict_of_recommendation r =
      ("recommendation_id", text r.recommendation_id)
      ∷ ("action", dict_of (dict_of_action r.action))
      ∷ ("expected_improvement", num r.expected_improvement)
      ∷ ("confidence", num r.confidence)
      ∷ ("priority", num r.priority)
      ∷ ("metadata", dict_of r.metadata)
      ∷ []

  -- The action is read, and its identifier drawn, before those of the recommendation.
  unfoldable pub recommendation_of_dict :
      (ℕ → String) → ℕ → Dict (Value F) → Loaded (StoredRecommendation F × ℕ)
  unfolding get action_of_dict
  recommendation_of_dict uuid4 n d = do
    given ← load_or (as_optional as_text) none "recommendation_id" d
    read ← load (action_of_value uuid4 n) "action" d
    improvement ← load as_num "expected_improvement" d
    confidence ← load as_num "confidence" d
    priority ← load as_num "priority" d
    metadata ← load_or as_dict [] "metadata" d
    let (id, m) = identified uuid4 given read.1
    loaded (
      record {
        recommendation_id = id;
        action = read.0;
        expected_improvement = improvement;
        confidence = confidence;
        priority = priority;
        metadata = metadata;
      },
      m,
    )

  abbrev recommendation_value : StoredRecommendation F → Value F
  recommendation_value r = dict_of (dict_of_recommendation r)

  abbrev recommendation_of_value : (ℕ → String) → ℕ → Value F → Loaded (StoredRecommendation F × ℕ)
  recommendation_of_value uuid4 n v = do d ← as_dict v; recommendation_of_dict uuid4 n d

  recommendation_round_trip :
      (uuid4 : ℕ → String) (n : ℕ) (r : StoredRecommendation F)
      → recommendation_of_value uuid4 n (recommendation_value r) ≡ loaded (r, n)
  unfolding recommendation_of_dict action_of_dict dict_of_recommendation dict_of_action entries
      fields_of
  recommendation_round_trip uuid4 n r =
      rw (entries-fields_of r.action.action.metadata, entries-fields_of r.metadata) refl

  unfoldable pub recommendations_of :
      (ℕ → String) → ℕ → Items F → Loaded (List (StoredRecommendation F) × ℕ)
  unfolding recommendation_of_dict
  recommendations_of uuid4 n nil = loaded ([], n)
  recommendations_of uuid4 n (cons v rest) = do
    first ← recommendation_of_value uuid4 n v
    others ← recommendations_of uuid4 first.1 rest
    loaded (first.0 ∷ others.0, others.1)

  abbrev recommendations_of_value :
      (ℕ → String) → ℕ → Value F → Loaded (List (StoredRecommendation F) × ℕ)
  unfolding recommendations_of
  recommendations_of_value uuid4 n (items vs) = recommendations_of uuid4 n vs
  recommendations_of_value uuid4 n _ = untyped

  recommendations_round_trip :
      (uuid4 : ℕ → String) (n : ℕ) (rs : List (StoredRecommendation F))
      → recommendations_of uuid4 n (items_of (map recommendation_value rs)) ≡ loaded (rs, n)
  unfolding recommendations_of items_of
  recommendations_round_trip uuid4 n [] = refl
  recommendations_round_trip uuid4 n (r ∷ rs) =
      rw (recommendation_round_trip uuid4 n r, recommendations_round_trip uuid4 n rs) refl

  unfoldable pub dict_of_plan : StoredPlan F → Dict (Value F)
  unfolding dict_of_recommendation items_of
  dict_of_plan p =
      ("plan_id", text p.plan_id)
      ∷ ("drift_event_id", text p.drift_event_id)
      ∷ ("recommendations", items (items_of (map recommendation_value p.recommendations)))
      ∷ ("summary", text p.summary)
      ∷ ("metadata", dict_of p.metadata)
      ∷ []

  unfoldable pub plan_of_dict : (ℕ → String) → ℕ → Dict (Value F) → Loaded (StoredPlan F × ℕ)
  unfolding get recommendations_of
  plan_of_dict uuid4 n d = do
    given ← load_or (as_optional as_text) none "plan_id" d
    drift_event_id ← load as_text "drift_event_id" d
    read ← load_or (recommendations_of_value uuid4 n) ([], n) "recommendations" d
    summary ← load_or as_text "" "summary" d
    metadata ← load_or as_dict [] "metadata" d
    let (id, m) = identified uuid4 given read.1
    loaded (
      record {
        plan_id = id;
        drift_event_id = drift_event_id;
        recommendations = read.0;
        summary = summary;
        metadata = metadata;
      },
      m,
    )

  -- Reading what `to_dict` of a plan wrote gives the plan back, with its recommendations in their
  -- order, their actions and every identifier, and draws no new identifier.
  pub plan_of_dict-dict_of_plan :
      (uuid4 : ℕ → String) (n : ℕ) (p : StoredPlan F)
      → plan_of_dict uuid4 n (dict_of_plan p) ≡ loaded (p, n)
  unfolding plan_of_dict dict_of_plan
  plan_of_dict-dict_of_plan uuid4 n p =
      rw (recommendations_round_trip uuid4 n p.recommendations, entries-fields_of p.metadata) refl
