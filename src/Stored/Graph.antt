-- ===== src/Stored/Graph.antt =====
-- evaluator/causal/fusion.py: `CausalGraph.to_dict` and `from_dict`.
use post_rag_drift_evaluator.Prelude.{String, [], ◌∷◌, map, ◌≡◌, refl}
use post_rag_drift_evaluator.Float.{Float}
use post_rag_drift_evaluator.Dict.{Dict, get}
use post_rag_drift_evaluator.Value.{Value, num, text, items, nil, cons, dict_of, entries, fields_of}
use post_rag_drift_evaluator.Causal.Fusion.{CausalNode, CausalGraph}
use post_rag_drift_evaluator.Stored.Readers.{
  Loaded, loaded, untyped, ◌>>=◌, as_text, as_num, as_dict, as_list, load, load_or, items_of,
  load_all, entries-fields_of, load_all-map,
}

module _ {F : Type 0} where
  abbrev node_value : CausalNode F → Value F
  node_value n = dict_of (
      ("node_id", text n.node_id)
      ∷ ("node_type", text n.node_type)
      ∷ ("prior_failure_prob", num n.prior_failure_prob)
      ∷ ("description", text n.description)
      ∷ ("metadata", dict_of n.metadata)
      ∷ [])

  -- A tuple of two texts, or the list that JSON makes of it.
  abbrev edge_value : String × String → Value F
  edge_value (a, b) = items (cons (text a) (cons (text b) nil))

  abbrev edge_of_value : Value F → Loaded (String × String)
  edge_of_value (items (cons (text a) (cons (text b) nil))) = loaded (a, b)
  edge_of_value _ = untyped

  unfoldable pub dict_of_graph : CausalGraph F → Dict (Value F)
  unfolding items_of
  dict_of_graph g =
      ("nodes", items (items_of (map node_value g.nodes)))
      ∷ ("edges", items (items_of (map edge_value g.edges)))
      ∷ ("metadata", dict_of g.metadata)
      ∷ []

module _ {F : Type 0} ⦃fl : Float F⦄ where
  node_of_dict : Dict (Value F) → Loaded (CausalNode F)
  unfolding get
  node_of_dict d = do
    node_id ← load as_text "node_id" d
    node_type ← load as_text "node_type" d
    prior ← load_or as_num (fl.decimal 0 0) "prior_failure_prob" d
    description ← load_or as_text "" "description" d
    metadata ← load_or as_dict [] "metadata" d
    loaded (record {
      node_id = node_id;
      node_type = node_type;
      prior_failure_prob = prior;
      description = description;
      metadata = metadata;
    })

  abbrev node_of_value : Value F → Loaded (CausalNode F)
  node_of_value v = do d ← as_dict v; node_of_dict d

  unfoldable pub graph_of_dict : Dict (Value F) → Loaded (CausalGraph F)
  unfolding get load_all node_of_dict
  graph_of_dict d = do
    nodes ← load_or (as_list node_of_value) [] "nodes" d
    edges ← load_or (as_list edge_of_value) [] "edges" d
    metadata ← load_or as_dict [] "metadata" d
    loaded (record { nodes = nodes; edges = edges; metadata = metadata })

  node_round_trip : (n : CausalNode F) → node_of_value (node_value n) ≡ loaded n
  unfolding node_of_dict entries fields_of
  node_round_trip n = rw (entries-fields_of n.metadata) refl

  -- Reading what `to_dict` of a graph wrote gives the graph back, its nodes and edges in order.
  pub graph_of_dict-dict_of_graph : (g : CausalGraph F) → graph_of_dict (dict_of_graph g) ≡ loaded g
  unfolding graph_of_dict dict_of_graph
  graph_of_dict-dict_of_graph g =
      rw
        (
          load_all-map node_of_value node_value node_round_trip g.nodes,
          load_all-map edge_of_value edge_value (λ e. refl) g.edges,
          entries-fields_of g.metadata,
        )
        refl
