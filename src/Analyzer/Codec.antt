-- ===== src/Analyzer/Codec.antt =====
-- How src/libproto_analyzer/protocol_analyzer.c writes the value of a field into a message and reads
-- it back: `pa_set_protocol_byte_data`, `pa_set_protocol_bit_data` and their counterparts. A message is
-- its bytes; an access outside it is `none`.
use Prim.Native.Nat.{◌/◌, bit_and, bit_or}
use libcutils.Base.{
  ℕ, zero, suc, ◌+◌, ◌-◌, ◌*◌, ◌%◌, ◌^◌, List, Option, none, some, ltb, ◌==◌, if◌then◌else◌,
  get_elem?, set, length,
}
use libcutils.Base.Monad.{◌>>=◌}
use libcutils.Base.Memory.{load, store}

abbrev pub Bytes : Type 0
Bytes = List ℕ

unfoldable pub pa_pow : ℕ → ℕ → ℕ
pa_pow x zero = 1
pa_pow x (suc y) = pa_pow x y * x % 2 ^ 32

-- The mask is for at most eight bits.
unfoldable pub get_bit_data : ℕ → ℕ → ℕ → ℕ
unfolding pa_pow
get_bit_data value bit_pos len = bit_and (value / 2 ^ bit_pos) (pa_pow 2 len - 1) % 2 ^ 8

unfoldable pub set_bit_data : ℕ → ℕ → ℕ → ℕ → ℕ
unfolding pa_pow
set_bit_data buf value bit_pos len =
    bit_or buf (bit_and value (pa_pow 2 len - 1) * 2 ^ bit_pos) % 2 ^ 8

-- A byte of the message is written.
unfoldable pub put : Bytes → ℕ → ℕ → Option Bytes
put dp at b = if ltb at (length dp) then some (set dp at b) else none

-- The loop of `pa_set_protocol_byte_data`, with the bytes still to go; the highest comes first.
unfoldable pub set_bytes : ℕ → ℕ → ℕ → Bytes → Option Bytes
unfolding put
set_bytes zero value at dp = some dp
set_bytes (suc n) value at dp = do
  dp' ← put dp at (value / 2 ^ (8 * n) % 2 ^ 8)
  set_bytes n value (at + 1) dp'

unfoldable pub set_protocol_byte_data : ℕ → ℕ → ℕ → Bytes → Option Bytes
unfolding set_bytes
set_protocol_byte_data value byte_pos len dp = set_bytes len value byte_pos dp

-- `pa_set_protocol_buf`: a position inside a byte is refused.
unfoldable pub set_protocol_buf : Bytes → ℕ → ℕ → ℕ → Bytes → Option Bytes
set_protocol_buf value len byte_pos bit_pos dp =
    if bit_pos == 0 then load value 0 len >>= (λ cells. store dp byte_pos cells) else some dp

-- How many bits the byte at hand takes.
unfoldable pub take_len : ℕ → ℕ → ℕ
take_len t_len pos = if ltb (pos % 8 + 1) t_len then pos % 8 + 1 else t_len

-- The loop of `pa_set_protocol_bit_data`, on fuel, with the bits still to go, the position in the byte
-- and the index of the byte. The position is a `char` that is not negative.
unfoldable pub set_bits : ℕ → ℕ → ℕ → ℕ → ℕ → Bytes → Option Bytes
unfolding take_len set_bit_data get_bit_data
set_bits zero value t_len pos at dp = none
set_bits (suc fuel) value zero pos at dp = some dp
set_bits (suc fuel) value (suc k) pos at dp = do
  let t_len = suc k
  let n = take_len t_len pos
  b ← get_elem? dp at
  set_bits fuel value (t_len - n) (if ltb pos n then 7 else pos - n) (at + 1)
      (set dp at (set_bit_data b (get_bit_data value (t_len - n) n) (pos % 8 + 1 - n) n))

-- A length of 2 ^ 15 or more is negative as a `short`. A position of 128 or more, which is negative as a
-- `char`, is left out.
unfoldable pub set_protocol_bit_data : ℕ → ℕ → ℕ → ℕ → Bytes → Option Bytes
unfolding set_bits
set_protocol_bit_data value byte_pos bit_pos len dp =
    if ltb bit_pos 128
    then set_bits (len + 1) value (if ltb len (2 ^ 15) then len else 0) bit_pos byte_pos dp
    else none

-- The loop of `pa_get_protocol_byte_data`.
unfoldable pub get_bytes : ℕ → ℕ → ℕ → Bytes → Option ℕ
get_bytes zero value at dp = some value
get_bytes (suc n) value at dp = do
  b ← get_elem? dp at
  get_bytes n (bit_or value (b * 2 ^ (8 * n) % 2 ^ 32)) (at + 1) dp

unfoldable pub get_protocol_byte_data : ℕ → ℕ → Bytes → Option ℕ
unfolding get_bytes
get_protocol_byte_data byte_pos len dp = get_bytes len 0 byte_pos dp

-- The loop of `pa_get_protocol_bit_data`. The position is a `uint8_t`, which goes round below 0, where
-- the code's test for a negative one never holds.
unfoldable pub get_bits : ℕ → ℕ → ℕ → ℕ → ℕ → Bytes → Option ℕ
unfolding take_len get_bit_data
get_bits zero value total_len pos at dp = none
get_bits (suc fuel) value zero pos at dp = some value
get_bits (suc fuel) value (suc k) pos at dp = do
  let total_len = suc k
  let n = take_len total_len pos
  b ← get_elem? dp at
  get_bits fuel (bit_or value (get_bit_data b (pos % 8 + 1 - n) n * 2 ^ (total_len - n) % 2 ^ 32))
      (total_len - n) ((pos + 2 ^ 8 - n) % 2 ^ 8) (at + 1) dp

-- The index is a `char`: from 128 on it is before the message.
unfoldable pub get_protocol_bit_data : ℕ → ℕ → ℕ → Bytes → Option ℕ
unfolding get_bits
get_protocol_bit_data byte_pos bit_pos len dp =
    let total_len = if ltb len (2 ^ 15) then len else 0 in
    if ltb byte_pos 128
    then get_bits (len + 1) 0 total_len bit_pos byte_pos dp
    else if total_len == 0
    then some 0
    else none
