-- ===== src/Validation/Structure.antt =====
-- The depth and the number of nodes that `validate_input_structure` of _validation.py admits.
use azure_functions_langgrap.Base.{
  ℕ, suc, ◌+◌, ◌≤◌, Bool, true, false, ◌&&◌, ◌||◌, Option, none, is_none, max, leb, ltb, ◌≡◌, refl,
  arith, Bool-cases, inl, inr,
}
use azure_functions_langgrap.Base.Json.{
  Value, Items, Fields, scalar, arr, obj, nil, cons, end, field,
}
use azure_functions_langgrap.Validation.{
  ValidationError, count_depth_and_nodes, count_items, count_fields, validate_input_structure,
  guarded, counted,
}

-- The specification: the height of a value, and how many values stand inside it.
unfoldable mutual
  pub height : Value → ℕ
  height (scalar s) = 1
  height (arr xs) = suc (height_items xs)
  height (obj fs) = suc (height_fields fs)

  pub height_items : Items → ℕ
  height_items nil = 0
  height_items (cons x xs) = max (height x) (height_items xs)

  pub height_fields : Fields → ℕ
  height_fields end = 0
  height_fields (field k x fs) = max (height x) (height_fields fs)

unfoldable mutual
  pub nodes_in : Value → ℕ
  nodes_in (scalar s) = 0
  nodes_in (arr xs) = nodes_in_items xs
  nodes_in (obj fs) = nodes_in_fields fs

  pub nodes_in_items : Items → ℕ
  nodes_in_items nil = 0
  nodes_in_items (cons x xs) = suc (nodes_in x + nodes_in_items xs)

  pub nodes_in_fields : Fields → ℕ
  nodes_in_fields end = 0
  nodes_in_fields (field k x fs) = suc (nodes_in x + nodes_in_fields fs)

module _ (max_depth max_nodes : ℕ) where
  -- The call ends without an error exactly within both limits, and then has counted every node.
  abbrev Counts : ℕ → ℕ → ℕ → ℕ → ℕ × Option ValidationError → Type 0
  Counts depth height nodes more r =
      (is_none r.1 ≡ (leb (depth + height) (max_depth + 1) && leb (nodes + more) max_nodes))
      × (is_none r.1 ≡ true → r.0 ≡ nodes + more)

  guarded-Counts :
      (depth height nodes more : ℕ) (r : ℕ × Option ValidationError)
      → nodes ≤ max_nodes
      → (depth ≤ max_depth → Counts (depth + 1) height nodes more r)
      → Counts depth (suc height) nodes more (guarded max_depth max_nodes depth nodes r)
  unfolding guarded
  guarded-Counts depth height nodes more r few h = elim (Bool-cases (ltb max_depth depth)) [
    | inl deep ↦ (ground (arith, deep), ground (arith, deep))
    | inr shallow ↦
        let within : Counts (depth + 1) height nodes more r = h (ground (arith, shallow)) in
        (ground (arith, shallow, within.0), ground (arith, shallow, within.1))
  ]

  counted-Counts :
      (depth hx hs nodes mx ms : ℕ) (child more : ℕ → ℕ × Option ValidationError)
      → depth ≤ max_depth + 1
      → (nodes + 1 ≤ max_nodes → Counts depth hx (nodes + 1) mx (child (nodes + 1)))
      → ((n : ℕ) → n ≤ max_nodes → Counts depth hs n ms (more n))
      → Counts depth
          (max hx hs)
          nodes
          (suc (mx + ms))
          (counted max_depth max_nodes nodes child more)
  unfolding counted
  counted-Counts depth hx hs nodes mx ms child more d first rest =
      elim (Bool-cases (ltb max_nodes (nodes + 1))) [
        | inl many ↦ (ground (arith, many), ground (arith, many))
        | inr few ↦
            let one : Counts depth hx (nodes + 1) mx (child (nodes + 1)) =
              first (ground (arith, few)) in
            elim (Bool-cases (is_none (child (nodes + 1)).1)) [
              | inl fine ↦
                  let others : Counts depth hs (child (nodes + 1)).0 ms
                      (more (child (nodes + 1)).0) =
                    rest (child (nodes + 1)).0 (ground (arith, one.0, one.1, fine)) in
                  (
                    ground (arith, few, fine, one.0, one.1, others.0),
                    ground (arith, few, fine, one.0, one.1, others.1),
                  )
              | inr failed ↦
                  (ground (arith, few, failed, one.0), ground (arith, few, failed, one.0))
            ]
      ]

  -- `depth ≤ max_depth + 1` is what the test before each loop leaves.
  mutual
    unfolding count_depth_and_nodes height nodes_in

    value-Counts :
        (v : Value) (depth nodes : ℕ)
        → nodes ≤ max_nodes
        → Counts depth
            (height v)
            nodes
            (nodes_in v)
            (count_depth_and_nodes max_depth max_nodes v depth nodes)
    value-Counts (scalar s) depth nodes few =
        guarded-Counts depth 0 nodes 0 (nodes, none) few
          (λ d. (ground (arith, few, d), ground arith))
    value-Counts (arr xs) depth nodes few =
        guarded-Counts depth (height_items xs) nodes (nodes_in_items xs) _ few
          (λ d. items-Counts xs (depth + 1) nodes (omega arith) few)
    value-Counts (obj fs) depth nodes few =
        guarded-Counts depth (height_fields fs) nodes (nodes_in_fields fs) _ few
          (λ d. fields-Counts fs (depth + 1) nodes (omega arith) few)

    items-Counts :
        (xs : Items) (depth nodes : ℕ)
        → depth ≤ max_depth + 1
        → nodes ≤ max_nodes
        → Counts depth
            (height_items xs)
            nodes
            (nodes_in_items xs)
            (count_items max_depth max_nodes xs depth nodes)
    items-Counts nil depth nodes d few = (ground (arith, few, d), ground arith)
    items-Counts (cons x xs) depth nodes d few =
        counted-Counts depth (height x) (height_items xs) nodes (nodes_in x) (nodes_in_items xs)
          (λ n. count_depth_and_nodes max_depth max_nodes x depth n)
          (λ n. count_items max_depth max_nodes xs depth n) d
          (λ f. value-Counts x depth (nodes + 1) f) (λ n f. items-Counts xs depth n d f)

    fields-Counts :
        (fs : Fields) (depth nodes : ℕ)
        → depth ≤ max_depth + 1
        → nodes ≤ max_nodes
        → Counts depth
            (height_fields fs)
            nodes
            (nodes_in_fields fs)
            (count_fields max_depth max_nodes fs depth nodes)
    fields-Counts end depth nodes d few = (ground (arith, few, d), ground arith)
    fields-Counts (field k x fs) depth nodes d few =
        counted-Counts depth (height x) (height_fields fs) nodes (nodes_in x) (nodes_in_fields fs)
          (λ n. count_depth_and_nodes max_depth max_nodes x depth n)
          (λ n. count_fields max_depth max_nodes fs depth n) d
          (λ f. value-Counts x depth (nodes + 1) f) (λ n f. fields-Counts fs depth n d f)

  abbrev pub is_scalar : Value → Bool
  is_scalar (scalar s) = true
  is_scalar _ = false

  -- `validate_input_structure` accepts exactly the scalars, and the containers whose height is at
  -- most `max_depth` and that hold at most `max_nodes` values at every level together.
  pub validate_input_structure_lem :
      (v : Value)
      → is_none (validate_input_structure max_depth max_nodes v)
        ≡ (is_scalar v || (leb (height v) max_depth && leb (nodes_in v) max_nodes))
  unfolding validate_input_structure
  validate_input_structure_lem (scalar s) = refl
  validate_input_structure_lem (arr xs) =
      ground (arith, (value-Counts (arr xs) 1 0 (omega arith)).0)
  validate_input_structure_lem (obj fs) =
      ground (arith, (value-Counts (obj fs) 1 0 (omega arith)).0)
