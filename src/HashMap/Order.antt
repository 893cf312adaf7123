-- ===== src/HashMap/Order.antt =====
-- The nodes of a map in the order of a walk, and the invariant that a map keeps.
use libcutils.Base.{
  ℕ, zero, suc, ◌+◌, ◌^◌, ◌≤◌, ◌<◌, ◌≡◌, List, [], ◌∷◌, ◌++◌, Option, none, some, arith, length,
  set, get_elem?, leb, if◌then◌else◌, length-append, Option-cases, inl, inr,
}
use libcutils.HashMap.Chain.{Hlist}
use libcutils.HashMap.{Pos, HashMap, find_head}

-- A position, unless it is that of no node.
abbrev pub here : Pos → Option Pos
here p = elim p.node [ none ↦ none | some n ↦ some p ]

-- Where the walk starts after a node was added to the head of one chain.
abbrev pub moved : ℕ → ℕ → Option Pos → Option Pos
moved n b none = some (record { node = some n; bucket_pos = b })
moved n b (some p) =
    if leb b p.bucket_pos then some (record { node = some n; bucket_pos = b }) else some p

module _ (api : Hlist) where
  open api use {Head, nodes, add_head}

  -- Chain after chain, each from its head.
  unfoldable pub walk : List Head → List ℕ
  walk [] = []
  walk (h ∷ hs) = nodes h ++ walk hs

  -- The table has `bucket_size` heads, the first position is that of the first node of the walk,
  -- the count is the number of nodes, and the end has no node.
  pub record IsValid (map : HashMap api) : Type 0 where
    pub buckets : length map.hlist ≡ map.bucket_size
    pub positive : 0 < map.bucket_size
    pub small : map.bucket_size < 2 ^ 31
    pub first : here map.begin ≡ find_head api map.hlist 0
    pub counted : map.node_count ≡ length (walk map.hlist)
    pub end_none : map.end.node ≡ none

  find_head-le : (hs : List Head) (i : ℕ) (p : Pos) → find_head api hs i ≡ some p → i ≤ p.bucket_pos
  unfolding find_head
  find_head-le [] i p e = ground arith
  find_head-le (h ∷ hs) i p e = ground (arith, find_head-le hs (i + 1) p)

  pub find_head-set :
      (hs : List Head) (i j k n : ℕ) (h : Head)
      → get_elem? hs j ≡ some h
      → k ≡ i + j
      → find_head api (set hs j (add_head n h)) i ≡ moved n k (find_head api hs i)
  unfolding find_head
  find_head-set [] i j k n h e f = ground arith
  find_head-set (g ∷ hs) i zero k n h e f =
      let q = api.nodes-add_head n h in
      elim (Option-cases (find_head api hs (i + 1))) [
        | inl z ↦ ground (arith, q, z)
        | inr (p, z) ↦ ground (arith, q, z, find_head-le hs (i + 1) p z)
      ]
  find_head-set (g ∷ hs) i (suc j) k n h e f = ground (arith, find_head-set hs (i + 1) j k n h e)

  pub length-walk-set :
      (hs : List Head) (j n : ℕ) (h : Head)
      → get_elem? hs j ≡ some h
      → length (walk (set hs j (add_head n h))) ≡ length (walk hs) + 1
  unfolding walk
  length-walk-set [] j n h e = ground arith
  length-walk-set (g ∷ hs) zero n h e =
      let z : g ≡ h = ground arith in
      rw (z, api.nodes-add_head n h)
        (omega (arith, length-append (nodes h) (walk hs), length-append (n ∷ nodes h) (walk hs)))
  length-walk-set (g ∷ hs) (suc j) n h e = omega (
    arith,
    length-walk-set hs j n h e,
    length-append (nodes g) (walk hs),
    length-append (nodes g) (walk (set hs j (add_head n h))),
  )
