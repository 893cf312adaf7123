-- ===== src/LinkList/Walk.antt =====
-- The loops of `llist_for_each` and `llist_destroy`: they come round to the head.
use libcutils.Base.{
  ℕ, suc, ◌≡◌, refl, sym, ap, ◌∙◌, List, [], ◌∷◌, ◌++◌, true, false, Option, some, arith, length,
  ◌==◌, append_assoc, map, subst,
}
use libcutils.Base.Nodes.{has, remove, first_or, behind, eq_self, IsDistinct}
use libcutils.LinkList.Circle.{KernelRing}
use libcutils.LinkList.{
  local, Llist, delete, pos_next, destroy_loop, destroy, for_each_loop, for_each,
}
use libcutils.LinkList.Order.{IsList}
use libcutils.LinkList.Delete.{delete-IsList, next-first}

has-append_right : (p : ℕ) (l rest : List ℕ) → has p (l ++ p ∷ rest) ≡ true
has-append_right p [] rest = rw (eq_self p) refl
has-append_right p (x ∷ l) rest = ground (arith, has-append_right p l rest)

-- Of distinct nodes, none stands before its own place.
has-before : (p : ℕ) (l rest : List ℕ) → IsDistinct (l ++ p ∷ rest) → has p l ≡ false
has-before p [] rest d = refl
has-before p (x ∷ l) rest d = ground (arith, has-before p l rest, has-append_right p l rest)

behind-append :
    (h p : ℕ) (l rest : List ℕ) → has p l ≡ false → behind h p (l ++ p ∷ rest) ≡ first_or h rest
behind-append h p [] rest d = rw (eq_self p) refl
behind-append h p (x ∷ l) rest d = ground (arith, behind-append h p l rest)

apart : (h x : ℕ) (l xs : List ℕ) → has h (l ++ x ∷ xs) ≡ false → (x == h) ≡ false
apart h x [] xs d = ground arith
apart h x (y ∷ l) xs d = ground (arith, apart h x l xs)

-- The calls of a callback, in order.
pub visit {κ} : {S : Type κ} → (S → ℕ → List ℕ → S) → (ℕ → List ℕ) → S → List ℕ → S
visit func cells s [] = s
visit func cells s (x ∷ xs) = visit func cells (func s x (cells x)) xs

module _ {api : KernelRing} where
  for_each_loop-visit {κ} :
      {S : Type κ} (llist : Llist api) (func : S → ℕ → List ℕ → S) (l xs : List ℕ) (s : S)
      (pos next : ℕ)
      → api.circle llist.head llist.links ≡ (llist.head ∷ l) ++ xs
      → IsDistinct ((llist.head ∷ l) ++ xs)
      → pos ≡ first_or llist.head xs
      → next ≡ api.next pos llist.links
      → for_each_loop (suc (length xs)) llist func s pos next ≡ some (visit func llist.cells s xs)
  unfolding for_each_loop visit pos_next
  for_each_loop-visit llist func l [] s pos next w d e n =
      let t : (pos == llist.head) ≡ true = ground (arith, e) in rw (t, for_each_loop) refl
  for_each_loop-visit llist func l (x ∷ xs) s pos next w d e n =
      let h = llist.head in
      let t : (pos == h) ≡ false = rw e (apart h x l xs d.0) in
      let there : has x ((h ∷ l) ++ x ∷ xs) ≡ true = has-append_right x (h ∷ l) xs in
      let step : next ≡ first_or h xs =
        n
        ∙ ap (λ (q : ℕ). api.next q llist.links) e
        ∙ api.next-circle h x (l ++ x ∷ xs) llist.links w there
        ∙ behind-append h x (h ∷ l) xs (has-before x (h ∷ l) xs d) in
      let again = append_assoc (h ∷ l) (x ∷ []) xs in
      rw (t, for_each_loop)
        (subst
          (λ (q : ℕ).
            for_each_loop (suc (length xs)) llist func (func s q (llist.cells q)) next
              (api.next next llist.links)
            ≡ some (visit func llist.cells (func s x (llist.cells x)) xs))
          (sym e)
          (for_each_loop-visit llist func (l ++ x ∷ []) xs (func s x (llist.cells x)) next
            (api.next next llist.links) (w ∙ sym again) (subst IsDistinct (sym again) d) step refl))

  -- With one round more than there are nodes, `llist_for_each` calls the callback once for each node,
  -- in their order, with its bytes, and returns.
  pub for_each_lem {κ} :
      {S : Type κ} (llist : Llist api) (func : S → ℕ → List ℕ → S) (s : S) (xs : List ℕ)
      → IsList api llist xs
      → for_each (suc (length xs)) llist func s ≡ some (visit func llist.cells s xs)
  unfolding for_each pos_next
  for_each_lem llist func s xs k =
      for_each_loop-visit llist func [] xs s llist.begin (api.next llist.begin llist.links) k.walk
        k.apart k.first refl

  destroy_loop-step :
      (fuel : ℕ) (llist llist' left : Llist api) (pos next : ℕ) (out : Option ℕ)
      (freed : List (Option ℕ))
      → (pos == llist.head) ≡ false
      → delete llist (local pos) ≡ (out, llist')
      → destroy_loop fuel llist' next (api.next next llist'.links) ≡ some (freed, left)
      → destroy_loop (suc fuel) llist pos next ≡ some (out ∷ freed, left)
  unfolding destroy_loop pos_next
  destroy_loop-step fuel llist llist' left pos next out freed t gone run =
      rw (t, destroy_loop, gone) (rw run refl)

  destroy_loop-end :
      (llist : Llist api) (pos next : ℕ)
      → (pos == llist.head) ≡ true
      → destroy_loop 1 llist pos next ≡ some ([], llist)
  unfolding destroy_loop
  destroy_loop-end llist pos next t = rw (t, destroy_loop) refl

  destroy_loop-some :
      (llist : Llist api) (xs : List ℕ) (pos next : ℕ)
      → IsList api llist xs
      → pos ≡ first_or llist.head xs
      → next ≡ api.next pos llist.links
      → (left : Llist api) × (destroy_loop (suc (length xs)) llist pos next
          ≡ some (map some xs, left))
        × ((left.head == left.begin) ≡ true)
  destroy_loop-some llist [] pos next k e n =
      let t : (pos == llist.head) ≡ true = ground (arith, e) in
      (llist, destroy_loop-end llist pos next t, ground (arith, k.first))
  destroy_loop-some llist (x ∷ xs) pos next k e n =
      let (llist', gone, k', same) = delete-IsList llist x x xs k (rw (eq_self x) refl) in
      let rest : remove x (x ∷ xs) ≡ xs = rw (eq_self x) refl in
      let t : (pos == llist.head) ≡ false = rw e (apart llist.head x [] xs k.apart.0) in
      let step : next ≡ first_or llist'.head xs =
        n
        ∙ ap (λ (q : ℕ). api.next q llist.links) e
        ∙ next-first llist x xs k
        ∙ ap (λ (q : ℕ). first_or q xs) (sym same) in
      let (left, run, emptied) =
        destroy_loop-some llist' xs next (api.next next llist'.links)
          (subst (IsList api llist') rest k') step refl in
      let gone' : delete llist (local pos) ≡ (some x, llist') = rw e gone in
      (
        left,
        destroy_loop-step (suc (length xs)) llist llist' left pos next (some x) (map some xs) t
            gone' run,
        emptied,
      )

  -- With one round more than there are nodes, `llist_destroy` returns: it frees every node once, in
  -- their order, finds the list empty and frees the head.
  pub destroy_lem :
      (llist : Llist api) (xs : List ℕ)
      → IsList api llist xs
      → destroy (suc (length xs)) llist ≡ some (map some xs, true)
  unfolding destroy pos_next
  destroy_lem llist xs k =
      let (left, run, emptied) =
        destroy_loop-some llist xs llist.begin (api.next llist.begin llist.links) k k.first refl in
      rw (run, emptied) refl
