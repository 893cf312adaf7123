-- ===== src/LinkList/Delete.antt =====
-- `llist_delete`, `llist_detach` and `llist_detach_back`: the node taken out, and the nodes left.
use libcutils.Base.{
  ℕ, ◌^◌, ◌<◌, ◌≡◌, refl, sym, ap, subst, ◌∙◌, List, [], ◌∷◌, true, false, some, arith, length,
  ◌==◌, if◌then◌else◌,
}
use libcutils.Base.Words.{sub32}
use libcutils.Base.Nodes.{
  has, remove, first_or, last_or, drop_last, behind, eq_self, remove-IsDistinct, length-remove,
  has-last_or, remove-last_or, has-remove,
}
use libcutils.LinkList.Circle.{KernelRing}
use libcutils.LinkList.{PosRef, local, Llist, deref, delete, detach, pop_front, detach_back}
use libcutils.LinkList.Order.{IsList}

-- The first position after a member is taken out.
first_or-remove :
    (h p x : ℕ) (xs : List ℕ)
    → has h (x ∷ xs) ≡ false
    → (if p == x then first_or h xs else x) ≡ first_or h (remove p (x ∷ xs))
first_or-remove h p x xs d = ground arith

-- The node behind the first one, on the whole circle.
behind-first : (h x : ℕ) (xs : List ℕ) → (h == x) ≡ false → behind h x (h ∷ x ∷ xs) ≡ first_or h xs
behind-first h x xs e = ground (arith, eq_self x)

begin-head :
    (h x : ℕ) (xs : List ℕ) → has h (x ∷ xs) ≡ false → ((x == h) ≡ false) × ((h == x) ≡ false)
begin-head h x xs d = ground arith

first_or-drop_last :
    (h x b c : ℕ) (xs : List ℕ)
    → b ≡ x
    → c ≡ length (x ∷ xs)
    → length (x ∷ xs) < 2 ^ 32
    → (if sub32 c 1 == 0 then h else b) ≡ first_or h (drop_last (x ∷ xs))
first_or-drop_last h x b c [] e k s = ground arith
first_or-drop_last h x b c (y ∷ ys) e k s = ground arith

module _ {api : KernelRing} where
  pub next-first :
      (llist : Llist api) (x : ℕ) (xs : List ℕ)
      → IsList api llist (x ∷ xs)
      → api.next x llist.links ≡ first_or llist.head xs
  next-first llist x xs k =
      let (_, ne) = begin-head llist.head x xs k.apart.0 in
      let there : has x (llist.head ∷ x ∷ xs) ≡ true = ground (arith, eq_self x) in
      api.next-circle llist.head x (x ∷ xs) llist.links k.walk there
      ∙ behind-first llist.head x xs ne

  -- What is left when a member is unlinked and the first position is right.
  removed-IsList :
      (llist : Llist api) (p b x : ℕ) (xs : List ℕ)
      → IsList api llist (x ∷ xs)
      → has p (x ∷ xs) ≡ true
      → b ≡ first_or llist.head (remove p (x ∷ xs))
      → IsList api
          (record llist {
            links = api.del p llist.links;
            list_count = sub32 llist.list_count 1;
            begin = b;
          })
          (remove p (x ∷ xs))
  removed-IsList llist p b x xs k here e = record {
    walk = api.circle-del llist.head p (x ∷ xs) llist.links k.walk here;
    first = e;
    apart = (has-remove llist.head p (x ∷ xs) k.apart.0, remove-IsDistinct p (x ∷ xs) k.apart.1);
    counted = omega (arith, k.counted, k.short, length-remove p (x ∷ xs) here);
    short = omega (arith, k.short, length-remove p (x ∷ xs) here);
  }

  -- From a list in order that holds the node at a position of the caller's, `llist_delete` takes exactly that
  -- node out, which it frees: the others keep their order, and the first position and the count are
  -- right.
  pub delete-IsList :
      (llist : Llist api) (p x : ℕ) (xs : List ℕ)
      → IsList api llist (x ∷ xs)
      → has p (x ∷ xs) ≡ true
      → (llist' : Llist api) × (delete llist (local p) ≡ (some p, llist'))
        × IsList api llist' (remove p (x ∷ xs))
        × (llist'.head ≡ llist.head)
  unfolding delete
  delete-IsList llist p x xs k here =
      let h = llist.head in
      let b : ℕ = if p == llist.begin then api.next p llist.links else llist.begin in
      (
        record llist {
          links = api.del p llist.links;
          list_count = sub32 llist.list_count 1;
          begin = b;
        },
        ground (arith, k.first, begin-head h x xs k.apart.0),
        removed-IsList llist p b x xs k here
            (ground (arith, k.first, next-first llist x xs k) ∙ first_or-remove h p x xs k.apart.0),
        refl,
      )

  -- A position of the caller's or the list's own: `llist_detach` reads it before it changes anything.
  pub detach_list :
      (llist : Llist api) (pos : PosRef) (x : ℕ) (xs : List ℕ)
      → IsList api llist (x ∷ xs)
      → has (deref llist pos) (x ∷ xs) ≡ true
      → (llist' : Llist api) × (detach llist pos ≡ (some (deref llist pos), llist'))
        × IsList api llist' (remove (deref llist pos) (x ∷ xs))
        × (llist'.cells ≡ llist.cells)
  unfolding detach
  detach_list llist pos x xs k here =
      let h = llist.head in
      let p = deref llist pos in
      let links' = api.del p llist.links in
      let b : ℕ = if p == llist.begin then api.next h links' else llist.begin in
      let walk' = api.circle-del h p (x ∷ xs) llist.links k.walk here in
      let head' : api.next h links' ≡ first_or h (remove p (x ∷ xs)) =
        api.next-circle h h (remove p (x ∷ xs)) links' walk' (rw (eq_self h) refl)
        ∙ rw (eq_self h) refl in
      (
        record llist { links = links'; list_count = sub32 llist.list_count 1; begin = b },
        ground (arith, k.first, begin-head h x xs k.apart.0),
        removed-IsList llist p b x xs k here
            (ground (arith, k.first, head', first_or-remove h p x xs k.apart.0)),
        refl,
      )

  -- The last node leaves; on one node the first position goes back to the head.
  pub detach_back_lem :
      (llist : Llist api) (x : ℕ) (xs : List ℕ)
      → IsList api llist (x ∷ xs)
      → (llist' : Llist api) × (detach_back llist ≡ (some (last_or llist.head (x ∷ xs)), llist'))
        × IsList api llist' (drop_last (x ∷ xs))
  unfolding detach_back
  detach_back_lem llist x xs k =
      let h = llist.head in
      let p = last_or h (x ∷ xs) in
      let count = sub32 llist.list_count 1 in
      let b : ℕ = if count == 0 then h else llist.begin in
      let left = remove-last_or h x xs k.apart.1 in
      (
        record llist { links = api.del p llist.links; list_count = count; begin = b },
        ground (
          arith,
          k.first,
          begin-head h x xs k.apart.0,
          api.prev-circle h (x ∷ xs) llist.links k.walk,
        ),
        subst
            (IsList api
              (record llist { links = api.del p llist.links; list_count = count; begin = b }))
            left
            (removed-IsList llist p b x xs k (has-last_or h x xs) (
              first_or-drop_last h x llist.begin llist.list_count xs k.first k.counted k.short
              ∙ ap (first_or h) (sym left))),
      )

  -- On a list of two nodes or more, `llist_pop_front` hands the list's own `begin` to `llist_delete`, which moves it before it unlinks
  -- what it points at: the second node is unlinked, and the first is freed while it stays linked.
  pub pop_front_faults :
      (llist : Llist api) (x y : ℕ) (ys : List ℕ)
      → IsList api llist (x ∷ y ∷ ys)
      → (llist' : Llist api) × (pop_front llist ≡ (some x, llist'))
        × (api.circle llist'.head llist'.links ≡ llist.head ∷ x ∷ ys)
        × (llist'.begin ≡ y)
  unfolding pop_front delete
  pop_front_faults llist x y ys k =
      let h = llist.head in
      (
        record llist {
          links = api.del y llist.links;
          list_count = sub32 llist.list_count 1;
          begin = y;
        },
        ground (arith, k.first, next-first llist x (y ∷ ys) k, begin-head h x (y ∷ ys) k.apart.0),
        api.circle-del h y (x ∷ y ∷ ys) llist.links k.walk (ground (arith, eq_self y))
            ∙ ground (arith, k.apart, eq_self y),
        refl,
      )
