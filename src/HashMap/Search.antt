-- ===== src/HashMap/Search.antt =====
-- `hash_map_search` after `hash_map_insert_wb`, with the default hash and comparison.
use libcutils.Base.{
  ℕ, zero, suc, ◌+◌, ◌-◌, ◌%◌, ◌^◌, ◌≤◌, ◌<◌, ◌≡◌, refl, sym, ap, ◌∙◌, List, [], ◌∷◌, ◌++◌, Bool,
  true, some, arith, length, ◌==◌, ltb, if◌then◌else◌, take, replicate, length-take,
  length-replicate, take_all, length-append, get_elem?, get_elem?-set_self, take-append, subst,
}
use libcutils.Base.Memory.{slice, slice-whole, take-slice}
use libcutils.HashMap.Chain.{Hlist}
use libcutils.HashMap.Keys.{
  ret, Bytes, Pair, make_pair, default_hash_func, sum_bytes, default_key_cmp_func, same_bytes,
}
use libcutils.HashMap.Layout.{IsPair, stored, make_pair_lem, default_hash_func-pad}
use libcutils.HashMap.{Pos, HashMap, find_node, insert_wb, search}
use libcutils.HashMap.Order.{IsValid}
use libcutils.HashMap.Insert.{inserted, insert_data_wb-some, get_elem?-some, inserted-IsValid}

same_bytes_refl : (xs : Bytes) → same_bytes xs xs ≡ true
unfolding same_bytes
same_bytes_refl [] = refl
same_bytes_refl (x ∷ xs) = ground (arith, same_bytes_refl xs)

take-length-take : (n : ℕ) (xs : Bytes) → take (length (take n xs)) xs ≡ take n xs
take-length-take zero xs = refl
take-length-take (suc n) [] = refl
take-length-take (suc n) (x ∷ xs) = ap (λ t. x ∷ t) (take-length-take n xs)

-- How many bytes of a key the search looks at.
abbrev pub size_of : ℕ → Bytes → ℕ
size_of key_size key = if ltb (length key) key_size then length key else key_size

-- The default functions see of a key and of what is stored of it the same bytes.
module _ (key_size : ℕ) (key block : Bytes)
    (laid : slice block 0 key_size
      ≡ stored key_size key ++ replicate (key_size - length (stored key_size key)) 0)
    (long : key_size ≤ length block) where
  abbrev size : ℕ
  size = size_of key_size key

  size-eq : size ≡ length (stored key_size key)
  size-eq = ground (arith, length-take key_size key)

  taken : take size key ≡ stored key_size key
  taken = ap (λ (n : ℕ). take n key) size-eq ∙ take-length-take key_size key

  short : length (stored key_size key) ≤ key_size
  short = omega (arith, length-take key_size key)

  pub hash-agrees :
      (bucket_size : ℕ)
      → default_hash_func block key_size bucket_size ≡ default_hash_func key size bucket_size
  unfolding default_hash_func slice
  hash-agrees bucket_size =
      let q = stored key_size key in
      let z : List ℕ = replicate (key_size - length q) 0 in
      let full : length (q ++ z) ≤ key_size =
        omega (arith, short, length-append q z, length-replicate {A = ℕ} (key_size - length q) 0) in
      ap (λ t. sum_bytes 0 t % bucket_size) (laid ∙ sym (take_all key_size (q ++ z) full))
      ∙ default_hash_func-pad q (key_size - length q) key_size bucket_size (omega (arith, short))
      ∙ ap (λ t. sum_bytes 0 t % bucket_size) (take_all (length q) q (omega arith) ∙ sym taken)

  pub cmp-accepts : default_key_cmp_func block key size ≡ true
  unfolding default_key_cmp_func slice
  cmp-accepts =
      let q = stored key_size key in
      let z : List ℕ = replicate (key_size - length q) 0 in
      let e : take size block ≡ q =
        ap (λ (n : ℕ). take n block) size-eq
        ∙ sym (take-slice block 0 key_size (length q) short (omega (arith, long)))
        ∙ ap (take (length q)) laid
        ∙ take-append q z in
      rw (e, taken) (same_bytes_refl q)

-- The default hash stays below the number of chains.
pub default_hash_func-lt : (key : Bytes) (n m : ℕ) → 0 < m → default_hash_func key n m < m
unfolding default_hash_func
default_hash_func-lt key n m h = omega arith

-- A search finds the node at the head of the key's chain if the comparison accepts it.
search-found :
    {api : Hlist} (m : HashMap api) (key : Bytes) (hash : Bytes → ℕ → ℕ → ℕ)
    (cmp : Bytes → Bytes → ℕ → Bool) (b n : ℕ) (head : api.Head) (rest : List ℕ)
    → m.hash_func ≡ some hash
    → m.key_cmp_func ≡ some cmp
    → hash key (size_of m.key_size key) m.bucket_size ≡ b
    → b ≤ m.bucket_size
    → get_elem? m.hlist b ≡ some head
    → api.nodes head ≡ n ∷ rest
    → cmp (m.cells n) key (size_of m.key_size key) ≡ true
    → search m key ≡ some (ret 1, some (record { node = some n; bucket_pos = b }))
unfolding search find_node
search-found m key hash cmp b n head rest f c h le g e t = ground arith

-- A search with the default hash and comparison for a key that was just inserted finds the new node
-- at the position that the insertion wrote back, whether the key fills its field, is cut to it or is
-- padded.
pub insert-search :
    {api : Hlist} (map : HashMap api) (key value : Bytes) (mnode : ℕ)
    → IsValid api map
    → map.hash_func ≡ some default_hash_func
    → map.key_cmp_func ≡ some default_key_cmp_func
    → IsPair map.pair
    → map.pair.key_len ≡ map.key_size
    → map.pair.data_len ≡ map.data_size
    → map.pair.value_len ≤ length value
    → map.node_count + 1 < 2 ^ 32
    → (pos : Pos) × (map' : HashMap api) × (insert_wb map key value (some mnode)
        ≡ some (ret map.node_count, some pos, map'))
      × (pos.node ≡ some mnode)
      × (search map' key ≡ some (ret 1, some pos))
      × IsValid api map'
unfolding insert_wb
insert-search {api} map key value mnode k f c ip kl dl enough few = (
  pos,
  map',
  rw made (
      insert_data_wb-some map₁ block mnode b default_hash_func head f hashed
        (omega (arith, size, dl)) (omega (arith, lt)) e),
  refl,
  search-found map' key default_hash_func default_key_cmp_func b mnode (api.add_head mnode head)
      (api.nodes head) f c (sym (hash-agrees map.key_size key block laid' long map.bucket_size))
      (omega (arith, lt))
      (get_elem?-set_self map.hlist b (api.add_head mnode head) (omega (arith, lt, k.buckets)))
      (api.nodes-add_head mnode head) accepted,
  inserted-IsValid map₁ block mnode b head valid₁ e few,
)
  where
    laid_out :
        (p' : Pair) × (make_pair map.pair key value ≡ some p')
        × (slice p'.bytes 0 map.pair.key_len
            ≡ stored map.pair.key_len key
              ++ replicate (map.pair.key_len - length (stored map.pair.key_len key)) 0)
        × (slice p'.bytes map.pair.key_len map.pair.value_len ≡ slice value 0 map.pair.value_len)
        × (length p'.bytes ≡ map.pair.data_len)
        × IsPair p'
    laid_out = make_pair_lem map.pair key value ip enough

    block : Bytes
    block = laid_out.0.bytes

    made : make_pair map.pair key value ≡ some laid_out.0
    made = laid_out.1

    size : length block ≡ map.pair.data_len
    size = laid_out.4

    laid' :
        slice block 0 map.key_size
        ≡ stored map.key_size key ++ replicate (map.key_size - length (stored map.key_size key)) 0
    laid' =
        subst (λ (n : ℕ). slice block 0 n ≡ stored n key ++ replicate (n - length (stored n key)) 0)
          kl laid_out.2

    long : map.key_size ≤ length block
    long = omega (arith, size, kl, ip.whole)

    map₁ : HashMap api
    map₁ = record map { pair = laid_out.0 }

    valid₁ : IsValid api map₁
    valid₁ = record {
      buckets = k.buckets;
      positive = k.positive;
      small = k.small;
      first = k.first;
      counted = k.counted;
      end_none = k.end_none;
    }

    b : ℕ
    b = default_hash_func block map.key_size map.bucket_size

    whole : slice block 0 map.data_size ≡ block
    whole = ap (λ (n : ℕ). slice block 0 n) (omega (arith, size, dl)) ∙ slice-whole block

    hashed : default_hash_func (slice block 0 map.data_size) map.key_size map.bucket_size ≡ b
    hashed = ap (λ t. default_hash_func t map.key_size map.bucket_size) whole

    lt : b < map.bucket_size
    lt = default_hash_func-lt block map.key_size map.bucket_size k.positive

    found : (head : api.Head) × (get_elem? map.hlist b ≡ some head)
    found = get_elem?-some map.hlist b (omega (arith, lt, k.buckets))

    head : api.Head
    head = found.0

    e : get_elem? map.hlist b ≡ some head
    e = found.1

    map' : HashMap api
    map' = inserted map₁ block mnode b head

    pos : Pos
    pos = record { node = some mnode; bucket_pos = b }

    same : (mnode == mnode) ≡ true
    same = ground arith

    accepted : default_key_cmp_func (map'.cells mnode) key (size_of map.key_size key) ≡ true
    accepted = rw (same, whole) (cmp-accepts map.key_size key block laid' long)

-- A search for a key shorter than its field also accepts a node whose stored key only begins with
-- it: the node at the head of the chain that the short key hashes to is reported as found.
pub search_prefix :
    {api : Hlist} (m : HashMap api) (key rest : Bytes) (n : ℕ) (head : api.Head) (more : List ℕ)
    → m.hash_func ≡ some default_hash_func
    → m.key_cmp_func ≡ some default_key_cmp_func
    → length key < m.key_size
    → 0 < m.bucket_size
    → get_elem? m.hlist (default_hash_func key (length key) m.bucket_size) ≡ some head
    → api.nodes head ≡ n ∷ more
    → m.cells n ≡ key ++ rest
    → search m key
      ≡ some (
        ret 1,
        some (record {
          node = some n;
          bucket_pos = default_hash_func key (length key) m.bucket_size;
        }),
      )
unfolding default_key_cmp_func
search_prefix m key rest n head more f c short pos g e cell =
    search-found m key default_hash_func default_key_cmp_func
      (default_hash_func key (length key) m.bucket_size) n head more f c
      (ap (λ (s : ℕ). default_hash_func key s m.bucket_size) size)
      (omega (arith, default_hash_func-lt key (length key) m.bucket_size pos)) g e
      (rw (cell, size, take-append key rest, take_all (length key) key (omega arith))
        (same_bytes_refl key))
  where
    size : size_of m.key_size key ≡ length key
    size = ground arith
