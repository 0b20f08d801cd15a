-- ===== src/Livekit/Nodes/Pick.antt =====
-- The choice of a node.
use kergit_server.Base.{
  ◌≤◌, ◌≡◌, subst, dec_eq, true, Option, none, some, List, [], ◌∷◌, String, string_key, arith,
  Option-cases, inl, inr,
}
use kergit_server.Base.Map.{Map, find, elem}
use kergit_server.Livekit.Nodes.{LivekitNode, LivekitNodeRegistry, better, pick_from, pick_node}

-- No worse than a candidate.
abbrev pub AtMost : Option LivekitNode → LivekitNode → Type 0
AtMost none n = ⊥
AtMost (some best) n = best.load_score ≤ n.load_score

AtMost-better :
    (best : Option LivekitNode) (n x : LivekitNode) → AtMost best x → AtMost (better best n) x
AtMost-better none n x h = absurd h
AtMost-better (some b) n x h = ground (arith, h)

AtMost-new : (best : Option LivekitNode) (n : LivekitNode) → AtMost (better best n) n
AtMost-new none n = omega arith
AtMost-new (some b) n = ground arith

AtMost-pick :
    (ids : List String) (nodes : Map String LivekitNode) (best : Option LivekitNode)
    (x : LivekitNode)
    → AtMost best x
    → AtMost (pick_from ids nodes best) x
unfolding pick_from
AtMost-pick [] nodes best x h = h
AtMost-pick (id ∷ ids) nodes best x h = elim (Option-cases (find id nodes)) [
  | inl e ↦ rw (pick_from, e) (AtMost-pick ids nodes best x h)
  | inr (n, e) ↦
      rw (pick_from, e) (AtMost-pick ids nodes (better best n) x (AtMost-better best n x h))
]

elem_rest :
    (i id : String) (ids : List String) → ¬ (i ≡ id) → elem id (i ∷ ids) ≡ true → elem id ids ≡ true
unfolding elem
elem_rest i id ids other h = ground (arith, other, h)

pick_from-least :
    (ids : List String) (nodes : Map String LivekitNode) (best : Option LivekitNode) (id : String)
    (x : LivekitNode)
    → elem id ids ≡ true
    → find id nodes ≡ some x
    → AtMost (pick_from ids nodes best) x
unfolding pick_from elem
pick_from-least [] nodes best id x h e = absurd (ground (arith, h))
pick_from-least (i ∷ ids) nodes best id x h e = elim (Option-cases (find i nodes)) [
  | inl f ↦
      rw (pick_from, f)
        (pick_from-least ids nodes best id x (elem_rest i id ids (λ p. ground (arith, f, e, p)) h)
          e)
  | inr (n, f) ↦
      rw (pick_from, f)
        (elim (dec_eq i id) [
          | yes same ↦
              AtMost-pick ids nodes (better best n) x
                (subst (AtMost (better best n)) (ground (arith, same, f, e)) (AtMost-new best n))
          | no other ↦ pick_from-least ids nodes (better best n) id x (elem_rest i id ids other h) e
        ])
]

-- `pick_node` returns a node whenever one is registered, and no registered node has a lower load.
pub pick_node-least :
    (m : LivekitNodeRegistry) (id : String) (x : LivekitNode)
    → elem id m.node_order_ ≡ true
    → find id m.nodes_ ≡ some x
    → AtMost (pick_node m) x
unfolding pick_node
pick_node-least m id x h e = pick_from-least m.node_order_ m.nodes_ none id x h e
