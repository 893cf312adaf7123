-- ===== src/Bus/Objects.antt =====
-- The objects that a client registers.
use libcutils.Base.{
  ℕ, ◌<◌, ◌≡◌, refl, ap, Option, none, leb, if◌then◌else◌, arith, length, take, replicate,
  Option-cases, inl, inr,
}
use libcutils.Base.Memory.{store, load-none}
use libcutils.Base.Words.{be_bytes, length-be_bytes}
use libcutils.HashMap
use libcutils.HashMap.{HashMap}
use libcutils.HashMap.Chain.{Hlist}
use libcutils.HashMap.Keys.{Bytes, Pair, make_pair, create_pair}
use libcutils.Bus.{Bus, BusObject, init_obj_hmap, send_object, add_obj, add_object}

-- A value that is shorter than its field is read beyond its end.
make_pair-none :
    (p : Pair) (key value : Bytes) → length value < p.value_len → make_pair p key value ≡ none
unfolding make_pair
make_pair-none p key value short =
    let prefix = if leb p.key_len (length key) then take p.key_len key else key in
    elim (Option-cases (store p.bytes 0 (replicate p.data_len 0))) [
      | inl out ↦ rw out refl
      | inr (cleared, e) ↦ elim (Option-cases (store cleared 0 prefix)) [
        | inl out ↦ rw (e, out) refl
        | inr (keyed, e') ↦ rw (e, e', load-none value 0 p.value_len (omega (arith, short))) refl
      ]
    ]

add_obj-none :
    {api : Hlist} (bus : Bus api) (name : Bytes) (obj : ℕ) (mnode : Option ℕ)
    → 8 < bus.obj_hmap.pair.value_len
    → add_obj bus name obj mnode ≡ none
unfolding add_obj HashMap.insert
add_obj-none bus name obj mnode long =
    rw
      (make_pair-none bus.obj_hmap.pair name (be_bytes 8 obj)
        (omega (arith, long, length-be_bytes 8 obj)))
      refl

-- Whatever the object, registering it with a client whose table of objects is as `bus_init` leaves it is
-- an access outside a block: the value of the table is longer than the buffer with the address.
pub add_object_faults :
    {api : Hlist} (bus : Bus api) (fresh : HashMap api) (obj : BusObject) (addr : ℕ)
    (mnode : Option ℕ)
    → bus.obj_hmap ≡ init_obj_hmap fresh
    → add_object bus obj addr mnode ≡ none
unfolding add_object init_obj_hmap HashMap.init create_pair
add_object_faults bus fresh obj addr mnode e =
    let long : bus.obj_hmap.pair.value_len ≡ 40 = ap (λ m. m.pair.value_len) e in
    elim (Option-cases (send_object bus.blob obj)) [
      | inl out ↦ rw out refl
      | inr ((sent, blob), run) ↦
          rw
            (
              run,
              add_obj-none (record bus { blob = blob }) obj.name addr mnode (omega (arith, long)),
            )
            refl
    ]
