-- ===== src/Causal/Fusion/Priors.antt =====
-- What a fusion does to the priors of a graph.
use post_rag_drift_evaluator.Prelude.{
  String, ◌≡◌, refl, ap, ◌∙◌, true, false, Option, none, some, List, [], ◌∷◌, map, All, arith, inl,
  inr, Bool-cases, str_eq, eq_iff,
}
use post_rag_drift_evaluator.Float.{Float, IsNum, IsOrdered, fmin, fmax}
use post_rag_drift_evaluator.Float.Order.{unit_bounds, round_bounds}
use post_rag_drift_evaluator.Dict.{Dict, get}
use post_rag_drift_evaluator.Latent.Models.{LatentDriftResult}
use post_rag_drift_evaluator.Causal.Fusion.{
  CausalNode, CausalGraph, CausalLatentFusionEngine, compute_failure_prob, default_graph,
  start_graph, resolve_track_score, raise_prior, raise_type, raise_tracks,
  fuse_drift_into_causal_graph, raise_result, fuse_dual_track,
}

module _ {F : Type 0} ⦃fl : Float F⦄ where
  open fl use {decimal, le, round}

  -- A prior is a probability.
  abbrev pub IsProbable : CausalNode F → Type 0
  IsProbable n =
      (le (decimal 0 0) n.prior_failure_prob ≡ true)
      × (le n.prior_failure_prob (decimal 1 0) ≡ true)

  -- The node after the score of its type, if there is one.
  unfoldable pub raise_by : F → Dict F → CausalNode F → CausalNode F
  unfolding get compute_failure_prob raise_prior
  raise_by s scores n = elim (get n.node_type scores) [
    | none ↦ n
    | some score ↦ raise_prior n.node_type (compute_failure_prob score s) n
  ]

  -- No track is listed twice, as in a dictionary.
  abbrev pub Distinct : Dict F → Type 0
  Distinct [] = Unit
  Distinct ((k, v) ∷ d) = (get k d ≡ none) × Distinct d

  raise_prior-other :
      (type : String) (p : F) (n : CausalNode F)
      → str_eq n.node_type type ≡ false
      → raise_prior type p n ≡ n
  unfolding raise_prior
  raise_prior-other type p n h = rw h refl

  raise_prior-type :
      (type : String) (p : F) (n : CausalNode F) → (raise_prior type p n).node_type ≡ n.node_type
  unfolding raise_prior
  raise_prior-type type p n = ground arith

  raise_by-missing :
      (s : F) (scores : Dict F) (n : CausalNode F)
      → get n.node_type scores ≡ none
      → raise_by s scores n ≡ n
  unfolding raise_by
  raise_by-missing s scores n h = rw (h, raise_by) refl

  raise_by-skip :
      (s : F) (track : String) (score : F) (scores : Dict F) (n : CausalNode F)
      → str_eq track n.node_type ≡ false
      → raise_by s scores n ≡ raise_by s ((track, score) ∷ scores) n
  unfolding raise_by get
  raise_by-skip s track score scores n e = rw (e, raise_by, get) refl

  raise_by-cons :
      (s : F) (track : String) (score : F) (scores : Dict F) (n : CausalNode F)
      → get track scores ≡ none
      → raise_by s scores (raise_prior track (compute_failure_prob score s) n)
        ≡ raise_by s ((track, score) ∷ scores) n
  unfolding raise_by
  raise_by-cons s track score scores n h = elim (Bool-cases (str_eq track n.node_type)) [
    | inl e ↦
        let same : track ≡ n.node_type = ground (arith, eq_iff track n.node_type) in
        let missing : get (raise_prior track (compute_failure_prob score s) n).node_type scores
            ≡ none =
          rw (raise_prior-type, ← same) h in
        raise_by-missing s scores (raise_prior track (compute_failure_prob score s) n) missing
        ∙ rw (e, raise_by, get) (ap (λ t. raise_prior t (compute_failure_prob score s) n) same)
    | inr e ↦
        let other : str_eq n.node_type track ≡ false =
          ground (arith, eq_iff track n.node_type, eq_iff n.node_type track) in
        ap (raise_by s scores) (raise_prior-other track (compute_failure_prob score s) n other)
        ∙ raise_by-skip s track score scores n e
  ]

  module _ (laws : IsOrdered F) where
    raise_prior-IsProbable :
        (type : String) (score s : F) (n : CausalNode F)
        → IsProbable n
        → IsProbable (raise_prior type (compute_failure_prob score s) n)
    unfolding raise_prior compute_failure_prob
    raise_prior-IsProbable type score s n h =
        let b = unit_bounds laws (fl.mul score s) in
        let r =
          round_bounds laws 6 0 1 (fmin (decimal 1 0) (fmax (decimal 0 0) (fl.mul score s))) b.0
            b.1 in
        ground (arith, r)

    raise_type-IsProbable :
        (s score : F) (type : String) (nodes : List (CausalNode F))
        → All IsProbable nodes
        → All IsProbable (raise_type s type score nodes)
    unfolding raise_type
    raise_type-IsProbable s score type [] h = tt
    raise_type-IsProbable s score type (n ∷ nodes) (h, hs) =
        (raise_prior-IsProbable type score s n h, raise_type-IsProbable s score type nodes hs)

    raise_tracks-IsProbable :
        (s : F) (scores : Dict F) (nodes : List (CausalNode F))
        → All IsProbable nodes
        → All IsProbable (raise_tracks s scores nodes)
    unfolding raise_tracks
    raise_tracks-IsProbable s [] nodes h = h
    raise_tracks-IsProbable s ((track, score) ∷ scores) nodes h =
        raise_tracks-IsProbable s scores (raise_type s track score nodes)
          (raise_type-IsProbable s score track nodes h)

    raise_result-IsProbable :
        (s : F) (type : String) (r : Option (LatentDriftResult F)) (nodes : List (CausalNode F))
        → All IsProbable nodes
        → All IsProbable (raise_result s type r nodes)
    unfolding raise_result
    raise_result-IsProbable s type none nodes h = h
    raise_result-IsProbable s type (some r) nodes h =
        raise_type-IsProbable s r.drift_score type nodes h

    start_graph-IsProbable :
        (engine : CausalLatentFusionEngine F) (g : Option (CausalGraph F))
        → ((g' : CausalGraph F) → g ≡ some g' → All IsProbable g'.nodes)
        → All IsProbable (start_graph engine g).nodes
    unfolding start_graph default_graph
    start_graph-IsProbable engine (some g) h = h g refl
    start_graph-IsProbable engine none h =
        let zero_one = laws.decimal_mono 0 1 0 (omega arith) in
        let nums = laws.num_of_le (decimal 0 0) (decimal 1 0) zero_one in
        elim (Bool-cases engine.default_nodes) [
          | inl e ↦
              let p : IsNum (decimal 0 0) × (le (decimal 0 0) (decimal 1 0) ≡ true) =
                (nums.0, zero_one) in
              rw (e, start_graph) (p, (p, (p, (p, tt))))
          | inr e ↦ rw (e, start_graph) tt
        ]

    -- A fusion, of one result or of the two tracks, makes every prior a probability between 0 and 1
    -- if those of the given graph are, whatever the scores and the sensitivity are, NaN included;
    -- without a given graph it always does.
    pub fuse-IsProbable :
        (engine : CausalLatentFusionEngine F) (g : Option (CausalGraph F))
        (result : LatentDriftResult F) (retrieval generation : Option (LatentDriftResult F))
        → ((g' : CausalGraph F) → g ≡ some g' → All IsProbable g'.nodes)
        → All IsProbable (fuse_drift_into_causal_graph engine result g).nodes
          × All IsProbable (fuse_dual_track engine retrieval generation g).nodes
    unfolding fuse_drift_into_causal_graph fuse_dual_track
    fuse-IsProbable engine g result retrieval generation h =
        let start = start_graph-IsProbable engine g h in
        (
          raise_tracks-IsProbable engine.sensitivity (resolve_track_score result) _ start,
          raise_result-IsProbable engine.sensitivity "generation" generation _
              (raise_result-IsProbable engine.sensitivity "retrieval" retrieval _ start),
        )

  raise_tracks-nil : (s : F) (nodes : List (CausalNode F)) → nodes ≡ map (raise_by s []) nodes
  unfolding raise_by
  raise_tracks-nil s [] = refl
  raise_tracks-nil s (n ∷ nodes) = ap (λ ns. n ∷ ns) (raise_tracks-nil s nodes)

  raise_type-cons :
      (s : F) (track : String) (score : F) (scores : Dict F) (nodes : List (CausalNode F))
      → get track scores ≡ none
      → map (raise_by s scores) (raise_type s track score nodes)
        ≡ map (raise_by s ((track, score) ∷ scores)) nodes
  unfolding raise_type
  raise_type-cons s track score scores [] h = refl
  raise_type-cons s track score scores (n ∷ nodes) h = rw (raise_by-cons s track score scores n h) (
      ap (λ ns. raise_by s ((track, score) ∷ scores) n ∷ ns)
        (raise_type-cons s track score scores nodes h))

  -- The loop over the tracks of a result, each of which passes over all nodes, is one pass over the
  -- nodes that gives each the score of its own type, if the tracks are distinct: no track
  -- interferes with another.
  pub raise_tracks-eq-raise_by :
      (s : F) (scores : Dict F) (nodes : List (CausalNode F))
      → Distinct scores
      → raise_tracks s scores nodes ≡ map (raise_by s scores) nodes
  unfolding raise_tracks
  raise_tracks-eq-raise_by s [] nodes h = raise_tracks-nil s nodes
  raise_tracks-eq-raise_by s ((track, score) ∷ scores) nodes (h, hs) =
      raise_tracks-eq-raise_by s scores (raise_type s track score nodes) hs
      ∙ raise_type-cons s track score scores nodes h
