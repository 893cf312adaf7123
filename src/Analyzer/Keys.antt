-- ===== src/Analyzer/Keys.antt =====
-- The table of `pa_create_hash_table` finds each field by its name.
use mathlib.Core.Option.{some-injective}
use libcutils.Base.{
  none_or_some, ℕ, zero, suc, ◌+◌, ◌%◌, ◌^◌, ◌<◌, ◌≤◌, ◌≡◌, ◌≢◌, refl, sym, ap, ◌∙◌, subst, List,
  [], ◌∷◌, true, false, none, some, ltb, lt→ltb, le→leb, get_elem?, arith, length, take, drop,
  length-take,
}
use libcutils.Base.Memory.{slice, load}
use libcutils.Base.Words.{be_bytes, length-be_bytes, be_value-be_bytes}
use libcutils.HashMap.Chain.{Hlist}
use libcutils.HashMap.Keys.{
  Status, ret, or_default, Pair, create_pair, default_key_cmp_func, default_hash_func,
}
use libcutils.HashMap
use libcutils.HashMap.{HashMap, Pos, find_node}
use libcutils.HashMap.Insert.{inserted}
use libcutils.Analyzer.Format.{Bytes, InfoList}
use libcutils.Analyzer.{Analyzer, buffer_to_addr, insert_fields, create_hash_table, find_key}
use libcutils.Analyzer.KeyBlocks.{padded, IsBlock, IsKeyPair, make_pair-IsBlock, refused}
use libcutils.Analyzer.KeyChains.{IsReady, IsFound, insert_one, found_new, found_kept, search_lem}

-- No name but the key begins with it.
unfoldable pub Refuses : Bytes → List InfoList → Type 0
Refuses key [] = Unit
Refuses key (info ∷ infos) =
    (default_key_cmp_func (padded info.name) key (length key) ≡ false) × Refuses key infos

module _ {api : Hlist} (mnode : ℕ → ℕ) (differ : (x y : ℕ) → mnode x ≡ mnode y → x ≡ y) where
  insert_step :
      (m : HashMap api) (pair : Pair) (info : InfoList) (infos : List InfoList) (i : ℕ)
      → IsReady m
      → IsKeyPair pair
      → (block : Bytes) × (pair' : Pair) × (head : api.Head) × IsKeyPair pair'
        × IsBlock block info.name i
        × (get_elem? m.hlist (default_hash_func block 15 m.bucket_size) ≡ some head)
        × IsReady (inserted m block (mnode i) (default_hash_func block 15 m.bucket_size) head)
        × (insert_fields m pair (info ∷ infos) i mnode
            ≡ insert_fields
                (inserted m block (mnode i) (default_hash_func block 15 m.bucket_size) head)
                pair'
                infos
                (i + 1)
                mnode)
  unfolding insert_fields
  insert_step m pair info infos i k p =
      let (pair', made, (laid, address, size), p') = make_pair-IsBlock pair info.name i p in
      let (head, e, run, k') = insert_one m pair'.bytes (mnode i) k size in
      (pair'.bytes, pair', head, p', (laid, address, size), e, k', rw (made, run) refl)

  insert_fields-kept :
      (m : HashMap api) (pair : Pair) (infos : List InfoList) (i j n : ℕ) (key : Bytes)
      → IsReady m
      → IsKeyPair pair
      → length key < 15
      → Refuses key infos
      → ((x : ℕ) → i ≤ x → n ≢ mnode x)
      → IsFound m key n j
      → (m' : HashMap api) × (insert_fields m pair infos i mnode ≡ some m')
        × IsReady m'
        × IsFound m' key n j
  unfolding Refuses insert_fields
  insert_fields-kept m pair [] i j n key k p short refuses ne found = (m, refl, k, found)
  insert_fields-kept m pair (info ∷ infos) i j n key k p short (refuse, refuses) ne found =
      let (block, pair', head, p', b, e, k', step) = insert_step m pair info infos i k p in
      let kept =
        found_kept m block key (mnode i) n j head k b.2
          (refused block info.name key i b short refuse) (ne i (omega arith)) e found in
      let (m', run, ready, found') =
        insert_fields-kept
          (inserted m block (mnode i) (default_hash_func block 15 m.bucket_size) head) pair' infos
          (i + 1) j n key k' p' short refuses (λ x h. ne x (omega (arith, h))) kept in
      (m', step ∙ run, ready, found')

  insert_fields-found :
      (m : HashMap api) (pair : Pair) (infos : List InfoList) (i j : ℕ) (info : InfoList)
      → IsReady m
      → IsKeyPair pair
      → get_elem? infos j ≡ some info
      → length info.name < 15
      → Refuses info.name (drop (suc j) infos)
      → (m' : HashMap api) × (insert_fields m pair infos i mnode ≡ some m')
        × IsReady m'
        × IsFound m' info.name (mnode (i + j)) (i + j)
  insert_fields-found m pair [] i j info k p here short refuses = absurd (none_or_some info here)
  insert_fields-found m pair (first ∷ infos) i zero info k p here short refuses =
      let same : first ≡ info = some-injective first info here in
      let (block, pair', head, p', b, e, k', step) = insert_step m pair first infos i k p in
      let b' = default_hash_func block 15 m.bucket_size in
      let found = found_new m block first.name (mnode i) i head k b e in
      let found' =
        subst (λ (x : InfoList). IsFound (inserted m block (mnode i) b' head) x.name (mnode i) i)
          same found in
      let (m', run, ready, kept) =
        insert_fields-kept (inserted m block (mnode i) b' head) pair' infos (i + 1) i (mnode i)
          info.name k' p' short refuses
          (λ x h same_node. absurd (omega (arith, h, differ i x same_node))) found' in
      let index : i + 0 ≡ i = omega arith in
      (m', step ∙ run, ready, subst (λ (x : ℕ). IsFound m' info.name (mnode x) x) (sym index) kept)
  insert_fields-found m pair (first ∷ infos) i (suc j) info k p here short refuses =
      let (block, pair', head, p', b, e, k', step) = insert_step m pair first infos i k p in
      let (m', run, ready, found) =
        insert_fields-found
          (inserted m block (mnode i) (default_hash_func block 15 m.bucket_size) head) pair' infos
          (i + 1) j info k' p' here short refuses in
      let index : i + 1 + j ≡ i + suc j = omega arith in
      (m', step ∙ run, ready, subst (λ (x : ℕ). IsFound m' info.name (mnode x) x) index found)

ready-init :
    {api : Hlist} (fresh : HashMap api)
    → fresh.hash_func ≡ none
    → fresh.key_cmp_func ≡ none
    → (status : Status) × (m : HashMap api) × (HashMap.init fresh 15 8 10 true ≡ (status, m))
      × IsReady m
unfolding HashMap.init
ready-init {api} fresh hash cmp = (
  ret 0,
  (HashMap.init fresh 15 8 10 true).1,
  refl,
  record {
    buckets = refl;
    positive = omega arith;
    hash = ap (λ f. some (or_default default_hash_func f)) hash;
    cmp = ap (λ f. some (or_default default_key_cmp_func f)) cmp;
    key_size = refl;
    data_size = refl;
  },
)

key_pair : IsKeyPair (create_pair 15 8)
unfolding create_pair
key_pair = (record { whole = refl; storage = refl }, refl, refl, refl)

buffer_to_addr_lem :
    (cells : Bytes) (i : ℕ)
    → slice cells 15 8 ≡ be_bytes 8 i
    → i < 2 ^ 64
    → buffer_to_addr (drop 15 cells) ≡ some i
unfolding buffer_to_addr slice load
buffer_to_addr_lem cells i address small =
    let size : length (take 8 (drop 15 cells)) ≡ 8 = ap length address ∙ length-be_bytes 8 i in
    let room : 8 ≤ length (drop 15 cells) = omega (arith, size, length-take 8 (drop 15 cells)) in
    rw (le→leb 8 (length (drop 15 cells)) room, address)
      (ap (λ x. some x) (be_value-be_bytes 8 i (omega (arith, small))))

module _ {api : Hlist} where
  find_key_lem :
      (pa : Analyzer api) (key : Bytes) (n i : ℕ)
      → IsReady pa.hmap
      → IsFound pa.hmap key n i
      → length key < 15
      → i < 2 ^ 64
      → find_key pa key ≡ some i
  unfolding find_key HashMap.get_pointer
  find_key_lem pa key n i k found short small =
      let inside : ltb (length key) pa.hmap.key_size ≡ true =
        lt→ltb (length key) pa.hmap.key_size (omega (arith, short, k.key_size)) in
      rw (inside, search_lem pa.hmap key n i k found)
        (ap (λ s. buffer_to_addr (drop (s % 2 ^ 8) (pa.hmap.cells n))) k.key_size
          ∙ buffer_to_addr_lem (pa.hmap.cells n) i found.address small)

  -- With a node of its own for each field, and a new map without a hash or a comparison of its own, the
  -- table of a list of fields finds the one at a place below 2 ^ 64 by its name, if the name has less than 15
  -- bytes and no later name begins with it in the table; the list of fields stays.
  pub find_key-create_hash_table :
      (pa : Analyzer api) (infos : List InfoList) (fresh : HashMap api) (mnode : ℕ → ℕ) (i : ℕ)
      (info : InfoList)
      → ((x y : ℕ) → mnode x ≡ mnode y → x ≡ y)
      → fresh.hash_func ≡ none
      → fresh.key_cmp_func ≡ none
      → pa.pa_list ≡ some infos
      → get_elem? infos i ≡ some info
      → length info.name < 15
      → Refuses info.name (drop (suc i) infos)
      → i < 2 ^ 64
      → (pa' : Analyzer api) × (create_hash_table pa fresh mnode ≡ some (true, pa'))
        × (pa'.pa_list ≡ some infos)
        × (find_key pa' info.name ≡ some i)
  unfolding create_hash_table HashMap.init create_pair insert_fields-found ready-init key_pair
  find_key-create_hash_table pa infos fresh mnode i info differ hash cmp e here short refuses
        small =
      let (status, m, made, k) = ready-init fresh hash cmp in
      let (m', run, k', found) =
        insert_fields-found mnode differ m (create_pair 15 8) infos 0 i info k key_pair here short
          refuses in
      let pa' = record pa { pa_list = some infos; hmap = m' } in
      let index : 0 + i ≡ i = omega arith in
      (
        pa',
        ap (λ l. create_hash_table (record pa { pa_list = l }) fresh mnode) e ∙ rw run refl,
        refl,
        find_key_lem pa' info.name (mnode (0 + i)) (0 + i) k' found short (omega (arith, small))
            ∙ ap (λ x. some x) index,
      )
