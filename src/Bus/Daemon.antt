-- ===== src/Bus/Daemon.antt =====
-- src/libbus/busd.c with busd.h: the daemon of the message bus, which keeps the objects of its clients
-- and passes requests on. What is written to a descriptor is a result, beside the descriptor. The vector of
-- an object's methods and the list of a method's arguments stand as the lists of their elements. `fresh` is a
-- new blob after `blob_init`. A null pointer used and a variable read that was never written are faults.
use libcutils.Base.{
  ℕ, zero, suc, ◌+◌, ◌-◌, ◌%◌, ◌^◌, List, [], ◌∷◌, Bool, true, false, Option, none, some, ltb, ◌==◌,
  if◌then◌else◌, get_elem?, length, drop,
}
use libcutils.Base.Monad.{◌>>=◌}
use libcutils.Base.Words.{be_bytes}
use libcutils.Blob
use libcutils.Blob.{Blob, Bytes}
use libcutils.HashMap
use libcutils.HashMap.{HashMap}
use libcutils.HashMap.Chain.{Hlist}
use libcutils.Bus.{message, find_address}
use libcutils.Bus.Attrs.{get_name, get_string, attr_of}

-- `struct busd_object_method`
pub record BusdMethod : Type 0 where
  pub name : Bytes
  pub args : List Bytes

-- `busd_object_t`
pub record BusdObject : Type 0 where
  pub name : Bytes
  pub methods : List BusdMethod
  pub fd : ℕ

module _ (api : Hlist) where
  -- `busd_t`, without the server; the objects by their addresses.
  pub record Busd : Type 0 where
    pub obj_hmap : HashMap api
    pub objects : ℕ → Option BusdObject

-- The loop over the arguments of a method, on fuel.
unfoldable pub arg_names : ℕ → Bytes → ℕ → ℕ → Option (List Bytes)
unfolding get_name
arg_names zero block pos end = none
arg_names (suc fuel) block pos end = elim (ltb pos end) [
  | false ↦ some []
  | true ↦ do
    name ← get_name block pos
    pos' ← Blob.next block pos
    names ← arg_names fuel block pos' end
    some (name ∷ names)
]

unfoldable pub get_object_method : Bytes → ℕ → Option BusdMethod
unfolding arg_names get_name
get_object_method block attr = do
  name ← get_name block attr
  head ← Blob.get_data block attr
  len ← Blob.get_data_len block attr
  args ← arg_names (length block + 1) block head (head + len)
  some (record { name = name; args = args })

-- The loop over the methods of an object, on fuel.
unfoldable pub object_methods : ℕ → Bytes → ℕ → ℕ → Option (List BusdMethod)
unfolding get_object_method
object_methods zero block pos end = none
object_methods (suc fuel) block pos end = elim (ltb pos end) [
  | false ↦ some []
  | true ↦ do
    method ← get_object_method block pos
    pos' ← Blob.next block pos
    methods ← object_methods fuel block pos' end
    some (method ∷ methods)
]

unfoldable pub create_bus_object : Bytes → Bytes → ℕ → ℕ → Option BusdObject
unfolding object_methods
create_bus_object name block attr fd = do
  head ← Blob.get_data block attr
  len ← Blob.get_data_len block attr
  methods ← object_methods (length block + 1) block head (head + len)
  some (record { name = name; methods = methods; fd = fd % 2 ^ 8 })

-- A message for a descriptor.
abbrev pub Sent : Type 0
Sent = ℕ × Bytes

unfoldable pub reply_add_object : Blob → ℕ → Bytes → ℕ → Option Sent
reply_add_object fresh state obj_name fd = do
  (_, b₁) ←
      Blob.add_table_start fresh
        (97 ∷ 100 ∷ 100 ∷ 95 ∷ 111 ∷ 98 ∷ 106 ∷ 95 ∷ 114 ∷ 101 ∷ 112 ∷ 108 ∷ 121 ∷ [])
  (_, b₂) ← Blob.add_u32 b₁ (115 ∷ 116 ∷ 97 ∷ 116 ∷ 101 ∷ []) state
  (_, b₃) ←
      Blob.add_string b₂ (111 ∷ 98 ∷ 106 ∷ 101 ∷ 99 ∷ 116 ∷ 95 ∷ 110 ∷ 97 ∷ 109 ∷ 101 ∷ []) obj_name
  b₄ ← Blob.add_table_end b₃
  sent ← message 1024 11 b₄.head
  some (fd, sent)

-- A table for each method.
unfoldable pub add_methods : Blob → List BusdMethod → Option Blob
add_methods blob [] = some blob
add_methods blob (m ∷ methods) = do
  (_, started) ← Blob.add_table_start blob m.name
  ended ← Blob.add_table_end started
  add_methods ended methods

unfoldable pub reply_lookup_object : Blob → BusdObject → ℕ → Option Sent
unfolding add_methods
reply_lookup_object fresh obj fd = do
  (_, b₁) ←
      Blob.add_table_start fresh
        (108 ∷ 111 ∷ 111 ∷ 107 ∷ 117 ∷ 112 ∷ 95 ∷ 114 ∷ 101 ∷ 112 ∷ 108 ∷ 121 ∷ [])
  (_, b₂) ←
      Blob.add_string b₁ (111 ∷ 98 ∷ 106 ∷ 101 ∷ 99 ∷ 116 ∷ 95 ∷ 110 ∷ 97 ∷ 109 ∷ 101 ∷ []) obj.name
  (_, b₃) ← Blob.add_u32 b₂ (105 ∷ 100 ∷ []) 1
  (_, b₄) ← Blob.add_table_start b₃ (109 ∷ 101 ∷ 116 ∷ 104 ∷ 111 ∷ 100 ∷ 115 ∷ [])
  b₅ ← add_methods b₄ obj.methods
  b₆ ← Blob.add_table_end b₅
  b₇ ← Blob.add_table_end b₆
  sent ← message 1024 5 b₇.head
  some (fd, sent)

-- The arguments are an attribute in the message that was received.
unfoldable pub forward_invoke : Blob → ℕ → ℕ → Bytes → Bytes → ℕ → Bytes → Option Sent
forward_invoke fresh src_fd dest_fd obj_name method argc args = do
  (_, b₁) ←
      Blob.add_table_start fresh
        (102 ∷ 111 ∷ 114 ∷ 119 ∷ 111 ∷ 114 ∷ 100 ∷ 95 ∷ 105 ∷ 110 ∷ 118 ∷ 111 ∷ 107 ∷ 101 ∷ [])
  (_, b₂) ← Blob.add_u32 b₁ (115 ∷ 111 ∷ 117 ∷ 114 ∷ 99 ∷ 101 ∷ 95 ∷ 102 ∷ 100 ∷ []) src_fd
  (_, b₃) ←
      Blob.add_u32 b₂
        (100 ∷ 101 ∷ 115 ∷ 116 ∷ 105 ∷ 110 ∷ 97 ∷ 116 ∷ 105 ∷ 111 ∷ 110 ∷ 95 ∷ 102 ∷ 100 ∷ [])
        dest_fd
  (_, b₄) ←
      Blob.add_string b₃ (111 ∷ 98 ∷ 106 ∷ 101 ∷ 99 ∷ 116 ∷ 95 ∷ 110 ∷ 97 ∷ 109 ∷ 101 ∷ []) obj_name
  (_, b₅) ←
      Blob.add_string b₄
        (105 ∷ 110 ∷ 118 ∷ 111 ∷ 107 ∷ 101 ∷ 95 ∷ 109 ∷ 101 ∷ 116 ∷ 104 ∷ 111 ∷ 100 ∷ []) method
  (_, b₆) ← Blob.add_u8 b₅ (105 ∷ 110 ∷ 118 ∷ 111 ∷ 107 ∷ 101 ∷ 95 ∷ 97 ∷ 114 ∷ 103 ∷ 99 ∷ []) argc
  b₇ ← Blob.catenate b₆ args
  b₈ ← Blob.add_table_end b₇
  sent ← message 1024 8 b₈.head
  some (dest_fd, sent)

unfoldable pub reply_invoke : Blob → Bytes → Bytes → ℕ → Bytes → ℕ → ℕ → Option Sent
reply_invoke fresh obj_name method state opaque opaque_len source_fd = do
  (_, b₁) ←
      Blob.add_table_start fresh
        (105 ∷ 110 ∷ 118 ∷ 111 ∷ 107 ∷ 101 ∷ 95 ∷ 114 ∷ 101 ∷ 112 ∷ 108 ∷ 121 ∷ [])
  (_, b₂) ← Blob.add_u32 b₁ (115 ∷ 116 ∷ 97 ∷ 116 ∷ 101 ∷ []) state
  (_, b₃) ← Blob.add_buffer b₂ (111 ∷ 112 ∷ 97 ∷ 113 ∷ 117 ∷ 101 ∷ []) opaque opaque_len
  (_, b₄) ←
      Blob.add_string b₃ (111 ∷ 98 ∷ 106 ∷ 101 ∷ 99 ∷ 116 ∷ 95 ∷ 110 ∷ 97 ∷ 109 ∷ 101 ∷ []) obj_name
  (_, b₅) ←
      Blob.add_string b₄
        (105 ∷ 110 ∷ 118 ∷ 111 ∷ 107 ∷ 101 ∷ 95 ∷ 109 ∷ 101 ∷ 116 ∷ 104 ∷ 111 ∷ 100 ∷ []) method
  b₆ ← Blob.add_table_end b₅
  sent ← message 1024 7 b₆.head
  some (source_fd, sent)

module _ {api : Hlist} where
  -- `obj` is the address that the allocator gives to the object, `mnode` what it gives for the node.
  unfoldable pub handle_add_object :
      Busd api
      → Blob
      → Bytes
      → List (Option ℕ)
      → ℕ
      → Option ℕ
      → Option ℕ
      → Option (List Sent × Busd api)
  unfolding create_bus_object reply_add_object attr_of get_string
  handle_add_object busd fresh block tb fd obj mnode = do
    at ← attr_of tb 1
    obj_name ← get_string block at
    (state, busd') ← elim (attr_of tb 2) [
      | none ↦ some (2 ^ 32 - 1, busd)
      | some methods ↦ elim obj [
        | none ↦ some (2 ^ 32 - 1, busd)
        | some addr ↦ do
          object ← create_bus_object obj_name block methods fd
          (_, hmap) ← HashMap.insert busd.obj_hmap obj_name (be_bytes 8 addr) mnode
          some (
            1,
            record busd {
              obj_hmap = hmap;
              objects = λ a. if a == addr then some object else busd.objects a;
            },
          )
      ]
    ]
    sent ← reply_add_object fresh state obj_name fd
    some (sent ∷ [], busd')

  -- The object that a search for a name comes to; `none` inside is a name that is not there.
  unfoldable pub find_object : Busd api → Bytes → Option (Option BusdObject)
  unfolding find_address
  find_object busd key = do
    found ← find_address busd.obj_hmap key
    elim found [ none ↦ some none | some addr ↦ do object ← busd.objects addr; some (some object) ]

  unfoldable pub handle_lookup_object :
      Busd api → Blob → Bytes → List (Option ℕ) → ℕ → Option (List Sent)
  unfolding find_object reply_lookup_object attr_of get_string
  handle_lookup_object busd fresh block tb fd = elim (attr_of tb 1) [
    | none ↦ some []
    | some at ↦ do
      key ← get_string block at
      found ← find_object busd key
      elim found [
        | none ↦ some []
        | some obj ↦ do sent ← reply_lookup_object fresh obj fd; some (sent ∷ [])
      ]
  ]

  -- The object is looked at whether it was found or not.
  unfoldable pub handle_invoke_method :
      Busd api → Blob → Bytes → List (Option ℕ) → ℕ → Option (List Sent)
  unfolding find_object forward_invoke attr_of get_string
  handle_invoke_method busd fresh block tb fd = do
    key_at ← attr_of tb 3
    obj_name ← get_string block key_at
    found ← find_object busd obj_name
    obj ← found
    method_at ← attr_of tb 4
    method ← get_string block method_at
    argc ← elim (attr_of tb 5) [ none ↦ some 0 | some at ↦ Blob.get_uint 1 block at ]
    args ← attr_of tb 6
    sent ← forward_invoke fresh fd obj.fd obj_name method argc (drop args block)
    some (sent ∷ [])

-- What a request left out is a variable that was never written, but for the opaque bytes.
unfoldable pub handle_forward_invoke_reply : Blob → Bytes → List (Option ℕ) → Option (List Sent)
unfolding reply_invoke attr_of get_string
handle_forward_invoke_reply fresh block tb = do
  state_at ← attr_of tb 7
  state ← Blob.get_uint 4 block state_at
  method_at ← attr_of tb 4
  method ← get_string block method_at
  name_at ← attr_of tb 1
  obj_name ← get_string block name_at
  fd_at ← attr_of tb 9
  src_fd ← Blob.get_uint 4 block fd_at
  (opaque, opaque_len) ← elim (attr_of tb 8) [
    | none ↦ some ([], 0)
    | some at ↦ do
      data_at ← Blob.get_data block at
      len ← Blob.get_data_len block at
      some (drop data_at block, len)
  ]
  sent ← reply_invoke fresh obj_name method state opaque opaque_len src_fd
  some (sent ∷ [])

-- `busd_policy`
abbrev pub busd_policy : List Bytes
busd_policy =
    (105 ∷ 100 ∷ [])
    ∷ (111 ∷ 98 ∷ 106 ∷ 101 ∷ 99 ∷ 116 ∷ 95 ∷ 110 ∷ 97 ∷ 109 ∷ 101 ∷ [])
    ∷ (109 ∷ 101 ∷ 116 ∷ 104 ∷ 111 ∷ 100 ∷ 115 ∷ [])
    ∷ (105 ∷ 110 ∷ 118 ∷ 111 ∷ 107 ∷ 101 ∷ 95 ∷ 107 ∷ 101 ∷ 121 ∷ [])
    ∷ (105 ∷ 110 ∷ 118 ∷ 111 ∷ 107 ∷ 101 ∷ 95 ∷ 109 ∷ 101 ∷ 116 ∷ 104 ∷ 111 ∷ 100 ∷ [])
    ∷ (105 ∷ 110 ∷ 118 ∷ 111 ∷ 107 ∷ 101 ∷ 95 ∷ 97 ∷ 114 ∷ 103 ∷ 99 ∷ [])
    ∷ (105 ∷ 110 ∷ 118 ∷ 111 ∷ 107 ∷ 101 ∷ 95 ∷ 97 ∷ 114 ∷ 103 ∷ 115 ∷ [])
    ∷ (115 ∷ 116 ∷ 97 ∷ 116 ∷ 101 ∷ [])
    ∷ (111 ∷ 112 ∷ 97 ∷ 113 ∷ 117 ∷ 101 ∷ [])
    ∷ (115 ∷ 111 ∷ 117 ∷ 114 ∷ 99 ∷ 101 ∷ 95 ∷ 102 ∷ 100 ∷ [])
    ∷ []

module _ {api : Hlist} where
  -- `busd_process_receiving_data_callback`: a type above the last is refused, and one without a handler
  -- is a call of a null pointer. The loop over the attributes is on fuel. `stale` is what the array of
  -- attributes holds on the stack, which nothing clears.
  unfoldable pub process_receiving_data_callback :
      Busd api
      → Blob
      → List (Option ℕ)
      → Bytes
      → ℕ
      → Option ℕ
      → Option ℕ
      → Option (Bool × List Sent × Busd api)
  unfolding handle_add_object handle_lookup_object handle_invoke_method handle_forward_invoke_reply
  process_receiving_data_callback busd fresh stale buffer fd obj mnode = do
    type ← get_elem? buffer 1
    if ltb 16 type then some (false, [], busd) else (do
      len ← Blob.get_data_len buffer 10
      at ← Blob.get_data buffer 10
      tb ← Blob.parse_loop (length buffer + 1) buffer busd_policy stale at (at + len)
      if type == 10
          then (do
            (sent, busd') ← handle_add_object busd fresh buffer tb fd obj mnode
            some (true, sent, busd'))
          else if type == 4
          then (do sent ← handle_lookup_object busd fresh buffer tb fd; some (true, sent, busd))
          else if type == 6
          then (do sent ← handle_invoke_method busd fresh buffer tb fd; some (true, sent, busd))
          else if type == 9
          then (do sent ← handle_forward_invoke_reply fresh buffer tb; some (true, sent, busd))
          else none)
