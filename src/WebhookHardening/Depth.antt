-- ===== src/WebhookHardening/Depth.antt =====
-- Which bodies the cap on the depth lets through.
use fragchain_core.Prelude.{
  ℕ, zero, suc, true, false, ◌+◌, ◌≤◌, max, ◌≡◌, ◌↔◌, ◌<◌, Bool-cases, inl, inr, arith,
}
use fragchain_core.WebhookHardening.{
  Json, primitive, list, dict, Items, nil, cons, Fields, end, field, walk, walk_items, walk_fields,
  check_json_depth,
}

-- The levels of a value, a primitive being one of its own.
mutual
  pub height : Json → ℕ
  height primitive = 1
  height (list items) = height_items items + 1
  height (dict fields) = height_fields fields + 1

  pub height_items : Items → ℕ
  height_items nil = 0
  height_items (cons child rest) = max (height child) (height_items rest)

  pub height_fields : Fields → ℕ
  height_fields end = 0
  height_fields (field name child rest) = max (height child) (height_fields rest)

mutual
  unfolding walk height

  walk-le : (m : ℕ) (v : Json) (d : ℕ) → (walk m v (d + 1) ≡ true) ↔ (d + height v ≤ m)
  walk-le m primitive d = ground arith
  walk-le m (list items) d = ground (arith, walk_items-le m items (d + 1))
  walk-le m (dict fields) d = ground (arith, walk_fields-le m fields (d + 1))

  walk_items-le :
      (m : ℕ) (v : Items) (d : ℕ)
      → d ≤ m
      → (walk_items m v (d + 1) ≡ true) ↔ (d + height_items v ≤ m)
  walk_items-le m nil d h = ground arith
  walk_items-le m (cons v rest) d h = ground (arith, walk-le m v d, walk_items-le m rest d h)

  walk_fields-le :
      (m : ℕ) (v : Fields) (d : ℕ)
      → d ≤ m
      → (walk_fields m v (d + 1) ≡ true) ↔ (d + height_fields v ≤ m)
  walk_fields-le m end d h = ground arith
  walk_fields-le m (field name v rest) d h =
      ground (arith, walk-le m v d, walk_fields-le m rest d h)

-- A body is let through exactly when its levels, a primitive being one of its own, are at most the
-- cap.
pub check_json_depth-height : (v : Json) (m : ℕ) → (check_json_depth v m ≡ true) ↔ (height v ≤ m)
unfolding check_json_depth
check_json_depth-height v m =
    let e = walk-le m v 0 in (λ h. omega (arith, e.0 h), λ h. e.1 (omega arith))

-- The longest chain of containers.
mutual
  pub container_depth : Json → ℕ
  container_depth primitive = 0
  container_depth (list items) = depth_items items + 1
  container_depth (dict fields) = depth_fields fields + 1

  pub depth_items : Items → ℕ
  depth_items nil = 0
  depth_items (cons child rest) = max (container_depth child) (depth_items rest)

  pub depth_fields : Fields → ℕ
  depth_fields end = 0
  depth_fields (field name child rest) = max (container_depth child) (depth_fields rest)

mutual
  unfolding height container_depth

  height-bounds : (v : Json) → (container_depth v ≤ height v) × (height v ≤ container_depth v + 1)
  height-bounds primitive = omega arith
  height-bounds (list items) = ground (arith, height_items-bounds items)
  height-bounds (dict fields) = ground (arith, height_fields-bounds fields)

  height_items-bounds :
      (v : Items) → (depth_items v ≤ height_items v) × (height_items v ≤ depth_items v + 1)
  height_items-bounds nil = omega arith
  height_items-bounds (cons v rest) = ground (arith, height-bounds v, height_items-bounds rest)

  height_fields-bounds :
      (v : Fields) → (depth_fields v ≤ height_fields v) × (height_fields v ≤ depth_fields v + 1)
  height_fields-bounds end = omega arith
  height_fields-bounds (field name v rest) =
      ground (arith, height-bounds v, height_fields-bounds rest)

-- Against the longest chain of containers the cap is at most one too strict and never too loose: a
-- chain that is shorter than the cap is let through, and one that is longer than it is refused.
check_json_depth-container_depth :
    (v : Json) (m : ℕ)
    → ((container_depth v < m) → check_json_depth v m ≡ true)
      × ((m < container_depth v) → check_json_depth v m ≡ false)
check_json_depth-container_depth v m =
    let b = height-bounds v in
    let e = check_json_depth-height v m in
    (
      λ h. e.1 (omega arith),
      λ h. elim (Bool-cases (check_json_depth v m)) [
        | inl p ↦ absurd (omega (arith, e.0 p))
        | inr p ↦ p
      ],
    )

-- Lists around a primitive.
pub nested : ℕ → Json
nested zero = primitive
nested (suc n) = list (cons (nested n) nil)

nested-height : (n : ℕ) → (height (nested n) ≡ n + 1) × (container_depth (nested n) ≡ n)
unfolding nested height container_depth
nested-height zero = omega arith
nested-height (suc n) = ground (arith, nested-height n)

-- A chain of containers of exactly the cap's length is refused when a primitive stands in the last.
pub check_json_depth-nested :
    (n : ℕ) → (container_depth (nested n) ≡ n) × (check_json_depth (nested n) n ≡ false)
check_json_depth-nested n =
    let h = nested-height n in
    (
      h.1,
      elim (Bool-cases (check_json_depth (nested n) n)) [
        | inl p ↦ absurd (omega (arith, (check_json_depth-height (nested n) n).0 p, h.0))
        | inr p ↦ p
      ],
    )
