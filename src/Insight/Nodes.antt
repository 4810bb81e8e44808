-- ===== src/Insight/Nodes.antt =====
-- internal/insight/insight.go (`walkPath`): the nodes of a plan, and the relations they name.
use lynceus.Prelude.{
  ◌≡◌, refl, ◌⊎◌, inl, inr, String, Bool, true, false, if◌then◌else◌, List, [], ◌∷◌, All,
  append-All, flat_map, string_eq, ◌==◌,
}
use lynceus.Prelude.Int.{ℤ, ltz}
use lynceus.PlanExtract.{
  Text, PlanFields, PlanNode, plan_node, PlanNodes, no_plans, and_plan, QueryPlan, fields_of,
}
use lynceus.Insight.{Insight, walk_path, walk_children, path_from, children_of, plans_of, found_if}
use lynceus.Insight.Joins.{inner_side, first_relation}

-- A node of a tree, and of the trees of a list.
mutual
  pub data IsNode : PlanNode → PlanNode → Type 0 where
    root : {n : PlanNode} → IsNode n n
    child :
        {f : PlanFields} {ns : PlanNodes} {n : PlanNode} → IsBelow ns n → IsNode (plan_node f ns) n

  pub data IsBelow : PlanNodes → PlanNode → Type 0 where
    first : {m n : PlanNode} {ns : PlanNodes} → IsNode m n → IsBelow (and_plan m ns) n
    later : {m n : PlanNode} {ns : PlanNodes} → IsBelow ns n → IsBelow (and_plan m ns) n

-- No relation, or one that a node of the tree names.
abbrev pub IsNamed : PlanNode → String → Type 0
IsNamed top r = (r ≡ "") ⊎ ((n : PlanNode) × IsNode top n × ((fields_of n).relation_name ≡ r))

abbrev pub IsFrom : {F : Type 0} → QueryPlan → Insight F → Type 0
IsFrom qp i = (i.fingerprint ≡ qp.fingerprint) × IsNamed qp.root i.relation

mutual
  pub IsNode-trans : {a b c : PlanNode} → IsNode a b → IsNode b c → IsNode a c
  IsNode-trans root k = k
  IsNode-trans (child h) k = child (IsBelow-trans h k)

  IsBelow-trans : {ns : PlanNodes} {b c : PlanNode} → IsBelow ns b → IsNode b c → IsBelow ns c
  IsBelow-trans (first h) k = first (IsNode-trans h k)
  IsBelow-trans (later h) k = later (IsBelow-trans h k)

abbrev pub IsVisit : PlanNode → PlanNode × Text → Type 0
IsVisit top v = IsNode top v.0

pub All-map :
    {A : Type 0} (P Q : A → Type 0) (xs : List A) → ((x : A) → P x → Q x) → All P xs → All Q xs
All-map P Q [] f h = tt
All-map P Q (x ∷ xs) f h = (f x h.0, All-map P Q xs f h.1)

pub flat_map-All :
    {A B : Type 0} (P : B → Type 0) (g : A → List B) (xs : List A)
    → All (λ x. All P (g x)) xs
    → All P (flat_map g xs)
flat_map-All P g [] h = tt
flat_map-All P g (x ∷ xs) h = append-All P (g x) (flat_map g xs) h.0 (flat_map-All P g xs h.1)

mutual
  pub walk_path-IsNode : (n : PlanNode) (prefix : Text) → All (IsVisit n) (walk_path n prefix)
  walk_path-IsNode (plan_node f ns) prefix = (
    root,
    All-map (λ v. IsBelow ns v.0) (IsVisit (plan_node f ns)) (walk_children ns (path_from prefix f))
        (λ v h. child h) (walk_children-IsBelow ns (path_from prefix f)),
  )

  walk_children-IsBelow :
      (ns : PlanNodes) (path : Text) → All (λ v. IsBelow ns v.0) (walk_children ns path)
  walk_children-IsBelow no_plans path = tt
  walk_children-IsBelow (and_plan n ns) path =
      append-All (λ v. IsBelow (and_plan n ns) v.0) (walk_path n path) (walk_children ns path)
        (All-map (IsVisit n) (λ v. IsBelow (and_plan n ns) v.0) (walk_path n path) (λ v h. first h)
          (walk_path-IsNode n path))
        (All-map (λ v. IsBelow ns v.0) (λ v. IsBelow (and_plan n ns) v.0) (walk_children ns path)
          (λ v h. later h) (walk_children-IsBelow ns path))

pub found_if-All : {A : Type 0} (P : A → Type 0) (b : Bool) (x : A) → P x → All P (found_if b x)
unfolding found_if
found_if-All P true x h = (h, tt)
found_if-All P false x h = tt

plans_of-IsBelow : (ns : PlanNodes) → All (IsBelow ns) (plans_of ns)
plans_of-IsBelow no_plans = tt
plans_of-IsBelow (and_plan n ns) = (
  first root,
  All-map (IsBelow ns) (IsBelow (and_plan n ns)) (plans_of ns) (λ v h. later h)
      (plans_of-IsBelow ns),
)

pub children_of-IsNode : (n : PlanNode) → All (IsNode n) (children_of n)
children_of-IsNode (plan_node f ns) =
    All-map (IsBelow ns) (IsNode (plan_node f ns)) (plans_of ns) (λ v h. child h)
      (plans_of-IsBelow ns)

pub first_relation-IsNamed :
    (top : PlanNode) (vs : List (PlanNode × Text))
    → All (IsVisit top) vs
    → IsNamed top (first_relation vs)
first_relation-IsNamed top [] h = inl refl
first_relation-IsNamed top (v ∷ vs) h =
    go ((fields_of v.0).relation_name == "") (first_relation-IsNamed top vs h.1)
  where
    go :
        (b : Bool)
        → IsNamed top (first_relation vs)
        → IsNamed top (if b then first_relation vs else (fields_of v.0).relation_name)
    go true k = k
    go false k = inr (v.0, h.0, refl)

pub inner_side-IsNamed :
    (top : PlanNode) (ns : List PlanNode) (loops : ℤ) (r : String)
    → All (IsNode top) ns
    → IsNamed top r
    → IsNamed top (inner_side ns loops r).1
inner_side-IsNamed top [] loops r h k = k
inner_side-IsNamed top (c ∷ cs) loops r h k =
    go (ltz loops (fields_of c).actual_loops)
      (inner_side-IsNamed top cs (fields_of c).actual_loops (fields_of c).relation_name h.1
        (inr (c, h.0, refl)))
      (inner_side-IsNamed top cs loops r h.1 k)
  where
    go :
        (b : Bool)
        → IsNamed top (inner_side cs (fields_of c).actual_loops (fields_of c).relation_name).1
        → IsNamed top (inner_side cs loops r).1
        → IsNamed top
            (if b
              then inner_side cs (fields_of c).actual_loops (fields_of c).relation_name
              else inner_side cs loops r).1
    go true p q = p
    go false p q = q
