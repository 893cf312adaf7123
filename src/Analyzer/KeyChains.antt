-- ===== src/Analyzer/KeyChains.antt =====
-- A chain of the table before and after an insertion.
use mathlib.Core.Option.{some-injective}
use libcutils.Base.{
  ℕ, ◌<◌, ◌≤◌, ◌≡◌, ◌≢◌, inl, inr, refl, sym, ap, ap₂, ◌∙◌, Bool, true, false, Option, none, some,
  ltb, leb, le→leb, ◌==◌, if◌then◌else◌, get_elem?, arith, length, length-set, get_elem?-set_self,
  Bool-cases,
}
use libcutils.Base.Monad.{◌>>=◌, ◌>>◌}
use libcutils.Base.Memory.{slice, slice-whole}
use libcutils.Base.Nodes.{ne_of_eq, eq_self, eq-false}
use libcutils.Base.Words.{be_bytes}
use libcutils.HashMap.Chain.{Hlist}
use libcutils.HashMap.Keys.{Status, failed, ret, assert, default_key_cmp_func, default_hash_func}
use libcutils.HashMap.Search.{size_of, hash-agrees, cmp-accepts, default_hash_func-lt}
use libcutils.HashMap
use libcutils.HashMap.{HashMap, Pos, find_node}
use libcutils.HashMap.Insert.{inserted, insert_data_wb-some, get_elem?-some}
use libcutils.Analyzer.Format.{Bytes}
use libcutils.Analyzer.Chunks.{get_elem?-set_other}
use libcutils.Analyzer.KeyBlocks.{IsBlock, find_node_first, find_node_next, find_node_kept, test}

module _ {api : Hlist} where
  open api use {Head, nodes, add_head, nodes-add_head}

  -- A table with chains, the default functions, and room for keys of 15 bytes and for addresses.
  pub record IsReady (m : HashMap api) : Type 0 where
    pub buckets : length m.hlist ≡ m.bucket_size
    pub positive : 0 < m.bucket_size
    pub hash : m.hash_func ≡ some default_hash_func
    pub cmp : m.key_cmp_func ≡ some default_key_cmp_func
    pub key_size : m.key_size ≡ 15
    pub data_size : m.data_size ≡ 23

  -- The chain of a key.
  abbrev bucket : HashMap api → Bytes → ℕ
  bucket m key = default_hash_func key (size_of 15 key) m.bucket_size

  -- The search for a key comes to a node that holds a place in the list.
  pub record IsFound (m : HashMap api) (key : Bytes) (n i : ℕ) : Type 0 where
    pub head : Head
    pub chain : get_elem? m.hlist (bucket m key) ≡ some head
    pub first : find_node (test m.cells key) (nodes head) ≡ some n
    pub address : slice (m.cells n) 15 8 ≡ be_bytes 8 i

  block_whole :
      (m : HashMap api) (block : Bytes)
      → IsReady m
      → length block ≡ 23
      → slice block 0 m.data_size ≡ block
  block_whole m block k size = ap (slice block 0) (k.data_size ∙ sym size) ∙ slice-whole block

  pub insert_one :
      (m : HashMap api) (block : Bytes) (mnode : ℕ)
      → IsReady m
      → length block ≡ 23
      → let b = default_hash_func block 15 m.bucket_size in
        (head : Head) × (get_elem? m.hlist b ≡ some head)
        × (HashMap.insert_data m block (some mnode)
            ≡ some (ret m.node_count, inserted m block mnode b head))
        × IsReady (inserted m block mnode b head)
  unfolding HashMap.insert_data
  insert_one m block mnode k size =
      let b = default_hash_func block 15 m.bucket_size in
      let lt : b < m.bucket_size = default_hash_func-lt block 15 m.bucket_size k.positive in
      let (head, e) = get_elem?-some m.hlist b (omega (arith, lt, k.buckets)) in
      let hashed : default_hash_func (slice block 0 m.data_size) m.key_size m.bucket_size ≡ b =
        ap₂ (λ t n. default_hash_func t n m.bucket_size) (block_whole m block k size) k.key_size in
      (
        head,
        e,
        rw
            (insert_data_wb-some m block mnode b default_hash_func head k.hash hashed
              (omega (arith, size, k.data_size)) (omega (arith, lt)) e)
            refl,
        record {
          buckets = length-set m.hlist b (add_head mnode head) ∙ k.buckets;
          positive = k.positive;
          hash = k.hash;
          cmp = k.cmp;
          key_size = k.key_size;
          data_size = k.data_size;
        },
      )

  cells_here :
      (m : HashMap api) (block : Bytes) (mnode b : ℕ) (head : Head)
      → IsReady m
      → length block ≡ 23
      → (inserted m block mnode b head).cells mnode ≡ block
  cells_here m block mnode b head k size = rw (eq_self mnode) (block_whole m block k size)

  cells_other :
      (m : HashMap api) (block : Bytes) (mnode b n : ℕ) (head : Head)
      → n ≢ mnode
      → (inserted m block mnode b head).cells n ≡ m.cells n
  cells_other m block mnode b n head ne = rw (eq-false n mnode ne) refl

  -- The name that was put in is found.
  pub found_new :
      (m : HashMap api) (block key : Bytes) (mnode i : ℕ) (head : Head)
      → IsReady m
      → IsBlock block key i
      → get_elem? m.hlist (default_hash_func block 15 m.bucket_size) ≡ some head
      → IsFound (inserted m block mnode (default_hash_func block 15 m.bucket_size) head) key mnode i
  found_new m block key mnode i head k (laid, address, size) e =
      let b = default_hash_func block 15 m.bucket_size in
      let m' = inserted m block mnode b head in
      let long : 15 ≤ length block = omega (arith, size) in
      let lt : b < m.bucket_size = default_hash_func-lt block 15 m.bucket_size k.positive in
      let own = cells_here m block mnode b head k size in
      record {
        head = add_head mnode head;
        chain =
            ap (get_elem? m'.hlist) (sym (hash-agrees 15 key block laid long m.bucket_size))
            ∙ get_elem?-set_self m.hlist b (add_head mnode head) (omega (arith, lt, k.buckets));
        first =
            ap (find_node (test m'.cells key)) (nodes-add_head mnode head)
            ∙ find_node_first (test m'.cells key) mnode (nodes head) (
                ap (λ c. default_key_cmp_func c key (size_of 15 key)) own
                ∙ cmp-accepts 15 key block laid long);
        address = ap (λ c. slice c 15 8) own ∙ address;
      }

  -- A name that was found is found behind an insertion that its search refuses.
  pub found_kept :
      (m : HashMap api) (block key : Bytes) (mnode n i : ℕ) (head : Head)
      → IsReady m
      → length block ≡ 23
      → default_key_cmp_func block key (size_of 15 key) ≡ false
      → n ≢ mnode
      → get_elem? m.hlist (default_hash_func block 15 m.bucket_size) ≡ some head
      → IsFound m key n i
      → IsFound (inserted m block mnode (default_hash_func block 15 m.bucket_size) head) key n i
  found_kept m block key mnode n i head k size refuses ne e found =
      let b = default_hash_func block 15 m.bucket_size in
      let m' = inserted m block mnode b head in
      let lt : b < m.bucket_size = default_hash_func-lt block 15 m.bucket_size k.positive in
      let own = cells_here m block mnode b head k size in
      let mine : test m'.cells key mnode ≡ false =
        ap (λ c. default_key_cmp_func c key (size_of 15 key)) own ∙ refuses in
      let other = λ (x : ℕ) (differ : x ≢ mnode). cells_other m block mnode b x head differ in
      let refuses_too : (x : ℕ) → test m.cells key x ≡ false → test m'.cells key x ≡ false = λ x h.
        elim (Bool-cases (x == mnode)) [
          | inl at_mnode ↦ let same : x ≡ mnode = ground arith in ap (test m'.cells key) same ∙ mine
          | inr differ ↦
              ap (λ c. default_key_cmp_func c key (size_of 15 key))
                (other x (ne_of_eq x mnode differ))
              ∙ h
        ] in
      let kept =
        find_node_kept (test m.cells key) (test m'.cells key) (nodes found.head) n found.first
          refuses_too (ap (λ c. default_key_cmp_func c key (size_of 15 key)) (other n ne)) in
      let address = ap (λ c. slice c 15 8) (other n ne) ∙ found.address in
      elim (Bool-cases (bucket m key == b)) [
        | inl here ↦
            let same : bucket m key ≡ b = ground arith in
            let chain : found.head ≡ head =
              some-injective found.head head (sym found.chain ∙ ap (get_elem? m.hlist) same ∙ e) in
            record {
              head = add_head mnode head;
              chain =
                  ap (get_elem? m'.hlist) same
                  ∙ get_elem?-set_self m.hlist b (add_head mnode head)
                      (omega (arith, lt, k.buckets));
              first =
                  ap (find_node (test m'.cells key)) (nodes-add_head mnode head)
                  ∙ find_node_next (test m'.cells key) mnode (nodes head) mine
                  ∙ ap (λ h. find_node (test m'.cells key) (nodes h)) (sym chain)
                  ∙ kept;
              address = address;
            }
        | inr elsewhere ↦ record {
          head = found.head;
          chain =
              get_elem?-set_other m.hlist (bucket m key) b (add_head mnode head)
                (ne_of_eq (bucket m key) b elsewhere)
              ∙ found.chain;
          first = kept;
          address = address;
        }
      ]

  search_at :
      (m : HashMap api) (key : Bytes) (hash : Bytes → ℕ → ℕ → ℕ) (cmp : Bytes → Bytes → ℕ → Bool)
      (size n : ℕ) (head : Head)
      → (if ltb (length key) m.key_size then length key else m.key_size) ≡ size
      → m.hash_func ≡ some hash
      → m.key_cmp_func ≡ some cmp
      → hash key size m.bucket_size ≤ m.bucket_size
      → get_elem? m.hlist (hash key size m.bucket_size) ≡ some head
      → find_node (λ x. cmp (m.cells x) key size) (nodes head) ≡ some n
      → HashMap.search m key
        ≡ some (ret 1, some (record { node = some n; bucket_pos = hash key size m.bucket_size }))
  unfolding HashMap.search
  search_at m key hash cmp size n head e f c inside chain first =
      let found : leb (hash key size m.bucket_size) m.bucket_size ≡ true =
        le→leb (hash key size m.bucket_size) m.bucket_size inside in
      let result = λ (s : ℕ). (do
        h ← m.hash_func
        let bucket_pos = h key s m.bucket_size
        assert (leb bucket_pos m.bucket_size)
        elim m.key_cmp_func [
          | none ↦ some (failed, none)
          | some cmp ↦ do
            head ← get_elem? m.hlist bucket_pos
            elim (find_node (λ n. cmp (m.cells n) key s) (nodes head)) [
              | none ↦ some (failed, none)
              | some n ↦ some (ret 1, some (record { node = some n; bucket_pos = bucket_pos }))
            ]
        ]) in
      let answer : Option ℕ → Option (Status × Option Pos) = λ o. elim o [
        | none ↦ some (failed, none)
        | some n ↦
            some (ret 1, some (record { node = some n; bucket_pos = hash key size m.bucket_size }))
      ] in
      ap result e ∙ rw (f, found, c, chain) (ap answer first)

  pub search_lem :
      (m : HashMap api) (key : Bytes) (n i : ℕ)
      → IsReady m
      → IsFound m key n i
      → HashMap.search m key
        ≡ some (ret 1, some (record { node = some n; bucket_pos = bucket m key }))
  search_lem m key n i k found =
      let lt = default_hash_func-lt key (size_of 15 key) m.bucket_size k.positive in
      search_at m key default_hash_func default_key_cmp_func (size_of 15 key) n found.head
        (ap (λ s. if ltb (length key) s then length key else s) k.key_size) k.hash k.cmp
        (omega (arith, lt)) found.chain found.first
