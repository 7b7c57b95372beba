-- ===== src/Service/Tree/Depth.antt =====
-- internal/service/tree_service.go, applyMaxDepth and truncateChildren.
use env_vault.Base.{
  ℕ, zero, suc, ◌-◌, ◌≤◌, ◌≡◌, refl, ap, false, List, [], ◌∷◌, map, All, arith, leb,
}
use env_vault.Service.Tree.{TreeNode, Children, node, nil, cons}
use env_vault.Service.Tree.Answer.{truncate, truncate_all, apply_max_depth}

-- A node has at most so many levels.
unfoldable mutual
  pub IsWithin : ℕ → TreeNode → Type 0
  IsWithin zero n = ⊥
  IsWithin (suc k) (node info children) = AreWithin k children

  pub AreWithin : ℕ → Children → Type 0
  AreWithin k nil = Unit
  AreWithin k (cons m ms) = IsWithin k m × AreWithin k ms

mutual
  unfolding truncate IsWithin

  truncate-IsWithin : (n : ℕ) (t : TreeNode) → IsWithin (suc n) (truncate n t)
  truncate-IsWithin zero (node info children) = tt
  truncate-IsWithin (suc n) (node info children) = truncate_all-AreWithin n children

  truncate_all-AreWithin : (n : ℕ) (ms : Children) → AreWithin (suc n) (truncate_all n ms)
  truncate_all-AreWithin n nil = tt
  truncate_all-AreWithin n (cons m ms) = (truncate-IsWithin n m, truncate_all-AreWithin n ms)

mutual
  unfolding truncate IsWithin

  truncate_of_IsWithin : (n : ℕ) (t : TreeNode) → IsWithin (suc n) t → truncate n t ≡ t
  truncate_of_IsWithin zero (node info nil) h = refl
  truncate_of_IsWithin zero (node info (cons m ms)) h = absurd h.0
  truncate_of_IsWithin (suc n) (node info children) h =
      ap (node info) (truncate_all_of_AreWithin n children h)

  truncate_all_of_AreWithin :
      (n : ℕ) (ms : Children) → AreWithin (suc n) ms → truncate_all n ms ≡ ms
  truncate_all_of_AreWithin n nil h = refl
  truncate_all_of_AreWithin n (cons m ms) (h, hs) =
      rw (truncate_of_IsWithin n m h, truncate_all_of_AreWithin n ms hs) refl

map-IsWithin : (n : ℕ) (ts : List TreeNode) → All (IsWithin (suc n)) (map (truncate n) ts)
map-IsWithin n [] = tt
map-IsWithin n (t ∷ ts) = (truncate-IsWithin n t, map-IsWithin n ts)

map_of_IsWithin :
    (n : ℕ) (ts : List TreeNode) → All (IsWithin (suc n)) ts → map (truncate n) ts ≡ ts
map_of_IsWithin n [] h = refl
map_of_IsWithin n (t ∷ ts) (h, hs) = rw (truncate_of_IsWithin n t h, map_of_IsWithin n ts hs) refl

-- Cutting a tree at a depth of 1 to 3 leaves no root with more levels than that, and cutting it
-- once more changes nothing.
max_depth_cuts :
    (max_depth : ℕ) (roots : List TreeNode)
    → 1 ≤ max_depth
    → max_depth ≤ 3
    → All (IsWithin max_depth) (apply_max_depth max_depth roots)
      × (apply_max_depth max_depth (apply_max_depth max_depth roots)
          ≡ apply_max_depth max_depth roots)
unfolding apply_max_depth
max_depth_cuts zero roots low high = absurd (omega (arith, low))
max_depth_cuts (suc n) roots low high =
    let shallow : leb 4 (suc n) ≡ false = ground arith in
    let levels : suc n - 1 ≡ n = omega arith in
    rw (shallow, levels)
      (map-IsWithin n roots, map_of_IsWithin n (map (truncate n) roots) (map-IsWithin n roots))
