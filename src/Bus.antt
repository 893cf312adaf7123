-- ===== src/Bus.antt =====
-- src/libbus/bus.c with bus.h: requests of a client of the message bus, and its answers to the daemon. A
-- message is a header of ten bytes and an attribute; what is handed to `bus_send` is the result. A string is
-- the bytes before its NUL. Objects are addresses. A result of `none` is a fault: an access outside a block,
-- or a variable read that was never written.
pub mod Attrs
pub mod Daemon
pub mod Objects
pub mod Blobs
pub mod Resend
mod Tests
use Prim.Native.Nat.{◌/◌}
use libcutils.Base.{
  ℕ, zero, suc, ◌+◌, ◌-◌, ◌*◌, ◌%◌, ◌^◌, List, [], ◌∷◌, ◌++◌, Bool, true, false, ◌&&◌, Option, none,
  some, ltb, leb, ◌==◌, if◌then◌else◌, get_elem?, length, replicate, map,
}
use libcutils.Base.Monad.{◌>>=◌}
use libcutils.Base.Memory.{load}
use libcutils.Base.Words.{be_bytes, be_value}
use libcutils.Blob
use libcutils.Blob.{Blob, Bytes}
use libcutils.HashMap
use libcutils.HashMap.{HashMap}
use libcutils.HashMap.Chain.{Hlist}
use libcutils.HashMap.Keys.{Status}
use libcutils.Bus.Attrs.{get_string, attr_of}

-- `bus_reqhdr_t`, cleared but for its type.
abbrev pub header : ℕ → Bytes
header type = 0 ∷ type ∷ replicate 8 0

-- `enum bus_communication_type`
abbrev pub req_lookup : ℕ
req_lookup = 4

abbrev pub req_invoke : ℕ
req_invoke = 6

abbrev pub reply_forward_invoke_type : ℕ
reply_forward_invoke_type = 9

abbrev pub req_add_object : ℕ
req_add_object = 10

-- The header and the attribute at the head of a blob, copied into a buffer.
unfoldable pub message : ℕ → ℕ → Bytes → Option Bytes
message room type head = do
  len ← Blob.get_len head 0
  cells ← load head 0 len
  if leb (10 + len) room then some (header type ++ cells) else none

-- `struct blob_policy_s`
pub record Policy : Type 0 where
  pub name : Bytes
  pub type : ℕ

-- `struct bus_method`; its handler has an address.
pub record Method : Type 0 where
  pub name : Bytes
  pub handler : ℕ
  pub policy : List Policy

-- `bus_object_t`, without the fields that are not used.
pub record BusObject : Type 0 where
  pub name : Bytes
  pub methods : List Method

-- `bus_method_args_t`
pub record MethodArg : Type 0 where
  pub type : ℕ
  pub name : Bytes
  pub value : Bytes

module _ (api : Hlist) where
  -- `bus_t`, without the connection.
  pub record Bus : Type 0 where
    pub blob : Blob
    pub obj_hmap : HashMap api

-- The table of objects in `bus_init`: its values are as large as a `bus_object_t`.
unfoldable pub init_obj_hmap : {api : Hlist} → HashMap api → HashMap api
init_obj_hmap fresh = (HashMap.init fresh 10 40 20 true).1

unfoldable pub push_args_to_blob : Blob → List Policy → Option Blob
push_args_to_blob blob [] = some blob
push_args_to_blob blob (p ∷ policy) = do
  (_, blob') ← Blob.add_u32 blob p.name p.type
  push_args_to_blob blob' policy

unfoldable pub push_methods_to_blob : Blob → List Method → Option Blob
unfolding push_args_to_blob
push_methods_to_blob blob [] = some blob
push_methods_to_blob blob (m ∷ methods) = do
  (_, started) ← Blob.add_table_start blob m.name
  filled ← push_args_to_blob started m.policy
  ended ← Blob.add_table_end filled
  push_methods_to_blob ended methods

-- `bus_add_object`, up to the call of `__bus_add_obj`.
unfoldable pub send_object : Blob → BusObject → Option (Bytes × Blob)
unfolding push_methods_to_blob message
send_object blob obj = do
  (_, b₁) ← Blob.add_table_start blob (111 ∷ 98 ∷ 106 ∷ 101 ∷ 99 ∷ 116 ∷ [])
  (_, b₂) ←
      Blob.add_string b₁ (111 ∷ 98 ∷ 106 ∷ 101 ∷ 99 ∷ 116 ∷ 95 ∷ 110 ∷ 97 ∷ 109 ∷ 101 ∷ []) obj.name
  (_, b₃) ← Blob.add_u32 b₂ (105 ∷ 100 ∷ []) 1
  (_, b₄) ← Blob.add_table_start b₃ (109 ∷ 101 ∷ 116 ∷ 104 ∷ 111 ∷ 100 ∷ 115 ∷ [])
  b₅ ← push_methods_to_blob b₄ obj.methods
  b₆ ← Blob.add_table_end b₅
  b₇ ← Blob.add_table_end b₆
  sent ← message 1024 req_add_object b₇.head
  some (sent, b₇)

module _ {api : Hlist} where
  -- `__bus_add_obj`: the address is in a buffer of eight bytes.
  unfoldable pub add_obj : Bus api → Bytes → ℕ → Option ℕ → Option (Bus api)
  add_obj bus name obj mnode = do
    (status, hmap) ← HashMap.insert bus.obj_hmap name (be_bytes 8 obj) mnode
    some (record bus { obj_hmap = hmap })

  unfoldable pub add_object : Bus api → BusObject → ℕ → Option ℕ → Option (Bytes × Bus api)
  unfolding send_object add_obj
  add_object bus obj addr mnode = do
    (sent, blob) ← send_object bus.blob obj
    bus' ← add_obj (record bus { blob = blob }) obj.name addr mnode
    some (sent, bus')

  -- `bus_lookup`: the blob is not reset, and what is sent starts at its head.
  unfoldable pub lookup : Bus api → Bytes → Option (Bytes × Bus api)
  unfolding message
  lookup bus key = do
    (_, b₁) ← Blob.add_table_start bus.blob (108 ∷ 111 ∷ 111 ∷ 107 ∷ 117 ∷ 112 ∷ [])
    (_, b₂) ←
        Blob.add_string b₁ (111 ∷ 98 ∷ 106 ∷ 101 ∷ 99 ∷ 116 ∷ 95 ∷ 110 ∷ 97 ∷ 109 ∷ 101 ∷ []) key
    b₃ ← Blob.add_table_end b₂
    sent ← message 1024 req_lookup b₃.head
    some (sent, record bus { blob = b₃ })

module _ (atoi : Bytes → ℕ) where
  -- An argument that is neither a string nor an integer is left out.
  unfoldable pub blob_add_args : Blob → List MethodArg → Option Blob
  blob_add_args blob [] = some blob
  blob_add_args blob (arg ∷ args) = do
    blob' ←
        (if arg.type == 3
          then (do (_, b) ← Blob.add_string blob arg.name arg.value; some b)
          else if arg.type == 6
          then (do (_, b) ← Blob.add_u32 blob arg.name (atoi arg.value); some b)
          else some blob)
    blob_add_args blob' args

  module _ {api : Hlist} where
    unfoldable pub invoke : Bus api → Bytes → Bytes → ℕ → List MethodArg → Option (Bytes × Bus api)
    unfolding blob_add_args message
    invoke bus key method argc args = do
      (_, b₁) ← Blob.add_table_start bus.blob (105 ∷ 110 ∷ 118 ∷ 111 ∷ 107 ∷ 101 ∷ [])
      (_, b₂) ←
          Blob.add_string b₁ (105 ∷ 110 ∷ 118 ∷ 111 ∷ 107 ∷ 101 ∷ 95 ∷ 107 ∷ 101 ∷ 121 ∷ []) key
      (_, b₃) ←
          Blob.add_string b₂
            (105 ∷ 110 ∷ 118 ∷ 111 ∷ 107 ∷ 101 ∷ 95 ∷ 109 ∷ 101 ∷ 116 ∷ 104 ∷ 111 ∷ 100 ∷ []) method
      (_, b₄) ←
          Blob.add_u8 b₃ (105 ∷ 110 ∷ 118 ∷ 111 ∷ 107 ∷ 101 ∷ 95 ∷ 97 ∷ 114 ∷ 103 ∷ 99 ∷ []) argc
      (_, b₅) ←
          Blob.add_table_start b₄
            (105 ∷ 110 ∷ 118 ∷ 111 ∷ 107 ∷ 101 ∷ 95 ∷ 97 ∷ 114 ∷ 103 ∷ 115 ∷ [])
      b₆ ← blob_add_args b₅ args
      b₇ ← Blob.add_table_end b₆
      b₈ ← Blob.add_table_end b₇
      sent ← message 1024 req_invoke b₈.head
      some (sent, record bus { blob = b₈ })

-- `strncmp` of two names: whether no byte differs up to a number of bytes or the end of both.
unfoldable pub same_start : ℕ → Bytes → Bytes → Bool
same_start zero a b = true
same_start (suc n) [] [] = true
same_start (suc n) [] (y ∷ ys) = false
same_start (suc n) (x ∷ xs) [] = false
same_start (suc n) (x ∷ xs) (y ∷ ys) = x == y && same_start n xs ys

-- The first method whose name begins alike: the size in the comparison is that of a pointer.
unfoldable pub get_method : List Method → Bytes → Option Method
unfolding same_start
get_method [] method = none
get_method (m ∷ methods) method =
    if same_start 8 m.name method then some m else get_method methods method

-- `bus_reply_forward_invoke`; `fresh` is the new blob after `blob_init`. What does not fit is not sent.
unfoldable pub reply_forward_invoke :
    Blob → Bytes → Bytes → ℕ → Bytes → ℕ → ℕ → Option (Option Bytes)
reply_forward_invoke fresh obj_name method_name ret buf buf_len src_fd = do
  (_, b₁) ← Blob.add_table_start fresh (
      114 ∷ 101 ∷ 112 ∷ 108 ∷ 121 ∷ 95 ∷ 102 ∷ 111 ∷ 114 ∷ 119 ∷ 97 ∷ 114 ∷ 100 ∷ 95 ∷ 105 ∷ 110
      ∷ 118 ∷ 111 ∷ 107 ∷ 101 ∷ [])
  (_, b₂) ←
      Blob.add_string b₁ (111 ∷ 98 ∷ 106 ∷ 101 ∷ 99 ∷ 116 ∷ 95 ∷ 110 ∷ 97 ∷ 109 ∷ 101 ∷ []) obj_name
  (_, b₃) ←
      Blob.add_string b₂
        (105 ∷ 110 ∷ 118 ∷ 111 ∷ 107 ∷ 101 ∷ 95 ∷ 109 ∷ 101 ∷ 116 ∷ 104 ∷ 111 ∷ 100 ∷ [])
        method_name
  (_, b₄) ← Blob.add_u32 b₃ (115 ∷ 116 ∷ 97 ∷ 116 ∷ 101 ∷ []) ret
  (_, b₅) ← Blob.add_buffer b₄ (111 ∷ 112 ∷ 97 ∷ 113 ∷ 117 ∷ 101 ∷ []) buf buf_len
  (_, b₆) ← Blob.add_u32 b₅ (115 ∷ 111 ∷ 117 ∷ 114 ∷ 99 ∷ 101 ∷ 95 ∷ 102 ∷ 100 ∷ []) src_fd
  b₇ ← Blob.add_table_end b₆
  len ← Blob.get_len b₇.head 0
  if ltb 2048 (10 + len)
      then some none
      else (do cells ← load b₇.head 0 len; some (some (header reply_forward_invoke_type ++ cells)))

-- The address that a search for a name comes to; `none` inside is a name that is not there.
unfoldable pub find_address : {api : Hlist} → HashMap api → Bytes → Option (Option ℕ)
find_address hmap key = do
  (status, pos) ← HashMap.search hmap key
  elim status [
    | Status.failed ↦ some none
    | Status.ret n ↦ do
      p ← pos
      value ← HashMap.get_pointer hmap p
      cells ← load value 0 8
      some (some (be_value cells))
  ]

-- The objects by their addresses, and the handlers of methods by theirs: what they return, put into the
-- buffer, and say its length is.
module _ {api : Hlist} (objects : ℕ → Option BusObject)
    (call : ℕ → ℕ → Bytes → List (Option ℕ) → Option (ℕ × Bytes × ℕ)) where
  -- What the request left out is -1, 0, or a null pointer; the name of the object is then unwritten. The
  -- arguments are read into an array that nothing clears, `stale`.
  unfoldable pub handle_forward_invoke :
      Bus api → Blob → List (Option ℕ) → Bytes → List (Option ℕ) → Option (Option Bytes)
  unfolding reply_forward_invoke find_address get_method attr_of get_string
  handle_forward_invoke bus fresh stale block tb = do
    src_fd ← elim (attr_of tb 5) [ none ↦ some (2 ^ 32 - 1) | some at ↦ Blob.get_uint 4 block at ]
    argc ← elim (attr_of tb 8) [ none ↦ some 0 | some at ↦ Blob.get_uint 1 block at ]
    elim (attr_of tb 7) [
      | none ↦ some none
      | some method_at ↦ do
        method_name ← get_string block method_at
        name_at ← attr_of tb 1
        obj_name ← get_string block name_at
        found ← find_address bus.obj_hmap obj_name
        elim found [
          | none ↦ some none
          | some addr ↦ do
            obj ← objects addr
            method ← get_method obj.methods method_name
            args ← attr_of tb 9
            start ← Blob.get_data block args
            len ← Blob.get_data_len block args
            args_tb ←
                Blob.parse_loop (length block + 1) block (map (λ p. p.name) method.policy) stale
                  start (start + len)
            (ret, buf, buf_len) ← call method.handler argc block args_tb
            reply_forward_invoke fresh obj_name method_name ret buf buf_len src_fd
        ]
    ]
