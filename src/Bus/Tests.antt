-- ===== src/Bus/Tests.antt =====
-- A client whose blob holds an attribute, and the theorems at it.
use libcutils.Base.{
  true, Bool, Option, ℕ, ◌≡◌, refl, List, [], ◌∷◌, ◌++◌, none, some, arith, replicate,
}
use libcutils.Base.Memory.{slice, load}
use libcutils.Base.Words.{be_value, le_value}
use libcutils.ArrayStack.{ArrayStack}
use libcutils.ArrayStack.Refine.{IsValid}
use libcutils.Blob
use libcutils.Blob.{Blob, Bytes}
use libcutils.HashMap.{HashMap}
use libcutils.HashMap.Chain.{Hlist, remove}
use libcutils.HashMap.Keys.{create_pair}
use libcutils.Bus.{
  Bus, header, req_lookup, lookup, add_object, init_obj_hmap, same_start, get_method,
}
use libcutils.Base.Monad.{◌>>=◌}
use libcutils.HashMap
use libcutils.Bus.Daemon.{Busd, Sent, process_receiving_data_callback}
use libcutils.Bus.Objects.{add_object_faults}
use libcutils.Bus.Resend.{lookup_resends}

abbrev lists : Hlist
lists = record {
  Head = List ℕ;
  nodes = λ h. h;
  empty = [];
  add_head = λ n h. n ∷ h;
  del = remove;
  nodes-empty = refl;
  nodes-add_head = λ n h. refl;
  nodes-del = λ n h. refl;
}

abbrev fresh : HashMap lists
fresh = record {
  bucket_size = 0;
  data_size = 0;
  key_size = 0;
  hash_func = none;
  key_cmp_func = none;
  hlist = [];
  cells = λ n. [];
  begin = record { node = none; bucket_pos = 0 };
  end = record { node = none; bucket_pos = 0 };
  node_count = 0;
  pair = create_pair 0 0;
}

-- An attribute of nine bytes, and room behind it.
abbrev bytes : Bytes
bytes = 2 ∷ 0 ∷ 9 ∷ 0 ∷ 4 ∷ 97 ∷ 98 ∷ 99 ∷ 0 ∷ replicate 60 0

abbrev stack : ArrayStack
stack = record { top = replicate 100 0; step = 8; cur = 0; size = 100 }

abbrev client : Bus lists
client = record {
  blob = record { head = bytes; tail = 9; len = 69; tbl_stack = stack };
  obj_hmap = init_obj_hmap fresh;
}

stack-IsValid : IsValid stack
stack-IsValid = record { storage = omega arith; used = omega arith; stepping = omega arith }

-- Names that begin with the same eight bytes are taken for one.
get_method_alike :
    get_method
      (record {
        name = 103 ∷ 101 ∷ 116 ∷ 95 ∷ 110 ∷ 97 ∷ 109 ∷ 101 ∷ 49 ∷ [];
        handler = 1;
        policy = [];
      }
        ∷ [])
      (103 ∷ 101 ∷ 116 ∷ 95 ∷ 110 ∷ 97 ∷ 109 ∷ 101 ∷ 50 ∷ [])
    ≡ some (record {
      name = 103 ∷ 101 ∷ 116 ∷ 95 ∷ 110 ∷ 97 ∷ 109 ∷ 101 ∷ 49 ∷ [];
      handler = 1;
      policy = [];
    })
unfolding get_method same_start
get_method_alike = refl

lookup_resends_example :
    (bus' : Bus lists) × (lookup client (120 ∷ 121 ∷ [])
      ≡ some (header req_lookup ++ slice bytes 0 9, bus'))
    × (Blob.get_len bus'.blob.head 0 ≡ some 9)
    × (slice bus'.blob.head 0 9 ≡ slice bytes 0 9)
unfolding Blob.get_len load slice be_value le_value
lookup_resends_example =
    lookup_resends client (120 ∷ 121 ∷ []) 9 refl (omega arith) (omega arith) (omega arith)
      stack-IsValid refl (omega arith) (omega arith) (omega arith)

add_object_faults_example :
    add_object client (record { name = 97 ∷ []; methods = [] }) 4096 (some 1) ≡ none
add_object_faults_example =
    add_object_faults client fresh (record { name = 97 ∷ []; methods = [] }) 4096 (some 1) refl

-- The map of a daemon that has no objects yet.
abbrev daemon : Busd lists
daemon = record { obj_hmap = (HashMap.init fresh 10 32 20 true).1; objects = λ a. none }

abbrev empty_blob : Blob
empty_blob = record { head = replicate 512 0; tail = 0; len = 512; tbl_stack = stack }

-- What the daemon answers to a request to look up a name.
abbrev answers : Option (Bool × List Sent)
answers = do
  (sent, bus') ← lookup (record client { blob = empty_blob }) (120 ∷ 121 ∷ [])
  (taken, replies, busd) ←
      process_receiving_data_callback daemon empty_blob (replicate 10 none) sent 5 none none
  some (taken, replies)

-- No object has the name, so there is no answer.
lookup_unknown : answers ≡ some (true, [])
unfolding lookup process_receiving_data_callback libcutils.Bus.message Blob.add_table_start
    libcutils.ArrayStack.push libcutils.ArrayStack.pop libcutils.Base.Memory.store
    libcutils.Base.Memory.overwrite load slice libcutils.Base.Words.le_bytes
    libcutils.Base.Words.be_bytes le_value be_value Blob.add Blob.put_value Blob.add_string
    Blob.add_table_end Blob.get_len Blob.get_data_len Blob.get_data Blob.get_name_len
    Blob.has_prefix Blob.match_policies Blob.next Blob.parse_loop libcutils.Bus.Attrs.attr_of
    libcutils.Bus.Attrs.get_string libcutils.Bus.Attrs.until_nul libcutils.Bus.Daemon.find_object
    libcutils.Bus.Daemon.handle_lookup_object libcutils.Bus.find_address HashMap.init HashMap.search
    HashMap.find_node libcutils.HashMap.Keys.default_hash_func libcutils.HashMap.Keys.sum_bytes
    libcutils.HashMap.Keys.default_key_cmp_func
lookup_unknown = refl
