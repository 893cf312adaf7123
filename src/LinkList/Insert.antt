-- ===== src/LinkList/Insert.antt =====
-- `llist_insert` and `llist_push_back`: the new node, and the nodes in order.
use libcutils.Base.{
  ℕ, ◌+◌, ◌^◌, ◌≤◌, ◌<◌, ◌≡◌, refl, ap, subst, ◌∙◌, List, [], ◌∷◌, ◌++◌, true, false, some, arith,
  length, length-append, ◌==◌, if◌then◌else◌,
}
use libcutils.Base.Memory.{slice, load-some}
use libcutils.Base.Words.{add32}
use libcutils.Base.Nodes.{
  has, put_behind, first_or, behind, eq_self, IsDistinct, put_behind-IsDistinct, length-put_behind,
  append-IsDistinct,
}
use libcutils.LinkList.Circle.{KernelRing}
use libcutils.LinkList.{PosRef, Llist, deref, update, insert, push_back}
use libcutils.LinkList.Order.{IsList}

-- The nodes with a new one behind a position, the head's position included.
abbrev pub placed : ℕ → ℕ → ℕ → List ℕ → List ℕ
placed head n p xs = if head == p then n ∷ xs else put_behind n p xs

put_behind-placed : (h n p : ℕ) (xs : List ℕ) → put_behind n p (h ∷ xs) ≡ h ∷ placed h n p xs
put_behind-placed h n p xs = ground arith

first_or-placed :
    (h n p : ℕ) (xs : List ℕ)
    → has p (h ∷ xs) ≡ true
    → (if p == h then n else first_or h xs) ≡ first_or h (placed h n p xs)
first_or-placed h n p [] here = ground arith
first_or-placed h n p (x ∷ xs) here = ground arith

placed-IsDistinct :
    (h n p : ℕ) (xs : List ℕ)
    → has n (h ∷ xs) ≡ false
    → IsDistinct (h ∷ xs)
    → IsDistinct (h ∷ placed h n p xs)
placed-IsDistinct h n p xs fresh d =
    subst IsDistinct (put_behind-placed h n p xs) (put_behind-IsDistinct n p (h ∷ xs) fresh d)

length-placed :
    (h n p : ℕ) (xs : List ℕ) → has p (h ∷ xs) ≡ true → length (placed h n p xs) ≡ length xs + 1
length-placed h n p xs here =
    omega (arith, ap length (put_behind-placed h n p xs), length-put_behind n p (h ∷ xs) here)

module _ {api : KernelRing} where
  -- On a list in order that holds the position, with the block as long as an element and memory granted
  -- at an address of its own, and a count that fits 32 bits, `llist_insert` succeeds: the new node stands behind the position, the head's included, and holds the bytes; the
  -- other nodes keep theirs and their order, and the first position and the count are right.
  pub insert-IsList :
      (llist : Llist api) (pos : PosRef) (block : List ℕ) (n : ℕ) (xs : List ℕ)
      → IsList api llist xs
      → has (deref llist pos) (llist.head ∷ xs) ≡ true
      → has n (llist.head ∷ xs) ≡ false
      → llist.data_size ≤ length block
      → length xs + 1 < 2 ^ 32
      → (llist' : Llist api) × (insert llist pos block (some n) ≡ some llist')
        × IsList api llist' (placed llist.head n (deref llist pos) xs)
        × (llist'.cells ≡ update llist.cells n (slice block 0 llist.data_size))
  unfolding insert
  insert-IsList llist pos block n xs k here fresh long few =
      let p = deref llist pos in
      let bytes = slice block 0 llist.data_size in
      (
        record llist {
          links = api.add n p llist.links;
          cells = update llist.cells n bytes;
          begin = if p == llist.head then n else llist.begin;
          list_count = add32 llist.list_count 1;
        },
        rw (load-some block 0 llist.data_size (omega (arith, long))) refl,
        record {
          walk =
              api.circle-add llist.head n p llist.links (rw k.walk here)
              ∙ ap (put_behind n p) k.walk
              ∙ put_behind-placed llist.head n p xs;
          first =
              ap (λ (b : ℕ). if p == llist.head then n else b) k.first
              ∙ first_or-placed llist.head n p xs here;
          apart = placed-IsDistinct llist.head n p xs fresh k.apart;
          counted = omega (arith, k.counted, length-placed llist.head n p xs here);
          short = omega (arith, length-placed llist.head n p xs here);
        },
        refl,
      )

first_or-append :
    (h n b : ℕ) (xs : List ℕ)
    → b ≡ first_or h xs
    → has h xs ≡ false
    → (if h == b then first_or h (xs ++ n ∷ []) else b) ≡ first_or h (xs ++ n ∷ [])
first_or-append h n b [] e d = ground arith
first_or-append h n b (x ∷ xs) e d = ground arith

next-head : (h : ℕ) (xs : List ℕ) → behind h h (h ∷ xs) ≡ first_or h xs
next-head h xs = rw (eq_self h) refl

module _ {api : KernelRing} where
  pub push_back_list :
      (llist : Llist api) (block : List ℕ) (n : ℕ) (xs : List ℕ)
      → IsList api llist xs
      → has n (llist.head ∷ xs) ≡ false
      → llist.data_size ≤ length block
      → length xs + 1 < 2 ^ 32
      → (llist' : Llist api) × (push_back llist block (some n) ≡ some llist')
        × IsList api llist' (xs ++ n ∷ [])
        × (llist'.cells ≡ update llist.cells n (slice block 0 llist.data_size))
  unfolding push_back
  push_back_list llist block n xs k fresh long few =
      let h = llist.head in
      let bytes = slice block 0 llist.data_size in
      let links' = api.add_tail n h llist.links in
      let walk' = api.circle-add_tail h n xs llist.links k.walk in
      let head' : api.next h links' ≡ first_or h (xs ++ n ∷ []) =
        api.next-circle h h (xs ++ n ∷ []) links' walk' (rw (eq_self h) refl)
        ∙ next-head h (xs ++ n ∷ []) in
      (
        record llist {
          links = links';
          cells = update llist.cells n bytes;
          begin = if h == llist.begin then api.next h links' else llist.begin;
          list_count = add32 llist.list_count 1;
        },
        rw (load-some block 0 llist.data_size (omega (arith, long))) refl,
        record {
          walk = walk';
          first =
              ap (λ (q : ℕ). if h == llist.begin then q else llist.begin) head'
              ∙ first_or-append h n llist.begin xs k.first k.apart.0;
          apart = append-IsDistinct n (h ∷ xs) fresh k.apart;
          counted = omega (arith, k.counted, length-append xs (n ∷ []));
          short = omega (arith, length-append xs (n ∷ []));
        },
        refl,
      )
