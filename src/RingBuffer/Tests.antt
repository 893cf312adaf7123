-- ===== src/RingBuffer/Tests.antt =====
-- The ring of eight bytes: runs, and the theorems at concrete rings.
use libcutils.Base.{ℕ, ◌≡◌, refl, List, [], ◌∷◌, ◌++◌, none, some, arith}
use libcutils.Base.Memory.{slice, overwrite, load, store}
use libcutils.Base.Words.{le_value}
use libcutils.RingBuffer.{RingBuffer, rw_flag_read, rw_flag_write, set, init, write, read}
use libcutils.RingBuffer.Contents.{contents, IsValid, IsMessage}
use libcutils.RingBuffer.Space.{space}
use libcutils.RingBuffer.Accept.{write_accepts}
use libcutils.RingBuffer.Read.{read_takes}
use libcutils.RingBuffer.Faults.{fill_drain_faults}

abbrev block : List ℕ
block = 3 ∷ 0 ∷ 0 ∷ 0 ∷ 9 ∷ 9 ∷ 9 ∷ 9 ∷ []

abbrev five : List ℕ
five = 5 ∷ 0 ∷ 0 ∷ 0 ∷ 7 ∷ []

abbrev eight : List ℕ
eight = 8 ∷ 0 ∷ 0 ∷ 0 ∷ 1 ∷ 2 ∷ 3 ∷ 4 ∷ []

-- Emptied at index 4: a message of five bytes goes round the end.
abbrev ring : RingBuffer
ring = record {
  buffer_addr = block;
  buffer_len = 8;
  write_index = 4;
  read_index = 4;
  rw_flag = rw_flag_read;
}

-- The same ring with the message in it.
abbrev loaded : RingBuffer
loaded = record ring {
  buffer_addr = 7 ∷ 0 ∷ 0 ∷ 0 ∷ 5 ∷ 0 ∷ 0 ∷ 0 ∷ [];
  write_index = 1;
  rw_flag = rw_flag_write;
}

fresh : RingBuffer
fresh =
    (set (set ring "buffer_addr" (record { block = block; word = 0 })).1 "buffer_len"
      (record { block = []; word = 8 })).1

set_lem : fresh ≡ ring
unfolding fresh set
set_lem = refl

write-ring : write ring five ≡ some (5, loaded)
unfolding write load store slice overwrite le_value
write-ring = refl

read-loaded : read loaded ≡ some (5, five, record loaded { read_index = 1; rw_flag = rw_flag_read })
unfolding read load slice le_value
read-loaded = refl

ring-IsValid : IsValid ring
ring-IsValid = omega arith

loaded-IsValid : IsValid loaded
loaded-IsValid = omega arith

five-IsMessage : IsMessage five
unfolding slice le_value
five-IsMessage = omega arith

eight-IsMessage : IsMessage eight
unfolding slice le_value
eight-IsMessage = omega arith

contents-loaded : contents loaded ≡ five ++ []
unfolding contents slice
contents-loaded = refl

write_accepts_example :
    (rbuf' : RingBuffer) × (write ring five ≡ some (5, rbuf'))
    × (contents rbuf' ≡ contents ring ++ five)
    × IsValid rbuf'
write_accepts_example =
    write_accepts ring five ring-IsValid five-IsMessage (unfold space in (omega arith))

read_takes_example :
    (rbuf' : RingBuffer) × (read loaded ≡ some (5, five, rbuf'))
    × (contents rbuf' ≡ [])
    × IsValid rbuf'
read_takes_example =
    read_takes loaded five [] loaded-IsValid five-IsMessage contents-loaded (omega arith)

fill_drain_faults_example :
    (sent : RingBuffer) × (drained : RingBuffer) × (write (init ring) eight ≡ some (8, sent))
    × (read sent ≡ some (8, eight, drained))
    × (contents drained ≡ [])
    × (read drained ≡ none)
fill_drain_faults_example = fill_drain_faults ring eight refl (omega arith) eight-IsMessage refl
