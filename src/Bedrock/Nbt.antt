-- ===== src/Bedrock/Nbt.antt =====
-- `NBTReader` and `parse_nbt`: values in the little-endian NBT format. A reader's `data` and `offset`
-- are arguments, and the offset after a read comes with its value. A float is kept as its bits.
-- Python's limit on nested calls is not modelled.
pub mod Ends
use code_recipes.Common.{
  ℕ, zero, suc, ◌+◌, ◌-◌, ◌*◌, ◌^◌, Bool, true, false, not, ◌||◌, ltb, leb, ◌==◌, if◌then◌else◌,
  List, [], ◌∷◌, length, take, drop,
}
use code_recipes.Common.Int.{ℤ, pos, negsuc, pos_part, ltb_ℤ}
use code_recipes.Common.Eq.{Str, str_beq}
use code_recipes.Common.Result.{Result, ok, err, ◌>>=◌, ◌>>◌, guard}
use code_recipes.KvStore.Codec.Word.{le_value}
use code_recipes.Bedrock.Replace.{decode_replace}

pub data Error : Type 0 where
  struct_error value_error index_error attribute_error type_error out_of_fuel : Error

abbrev pub Run {ℓ} : Type ℓ → Type ℓ
Run A = Result Error A

abbrev pub Bytes : Type 0
Bytes = List ℕ

-- A value, a Python list of values, and a dict of values in the order of its keys.
mutual
  pub data Nbt : Type 0 where
    nothing : Nbt
    number : ℤ → Nbt
    float32 float64 : ℕ → Nbt
    byte_array : Bytes → Nbt
    text : Str → Nbt
    items : Items → Nbt
    compound : Fields → Nbt

  pub data Items : Type 0 where
    end : Items
    item : Nbt → Items → Items

  pub data Fields : Type 0 where
    none_left : Fields
    field : Str → Nbt → Fields → Fields

-- What a read gives: a value, and the offset after it.
abbrev pub Read : Type 0 → Type 0
Read A = Bytes → ℕ → Run (A × ℕ)

-- `_adv(n)`
unfoldable pub adv : ℕ → Read ℕ
adv n data_ o = if ltb (length data_) (o + n) then err struct_error else ok (o, o + n)

abbrev pub slice : Bytes → ℕ → ℕ → Bytes
slice data_ o n = take n (drop o data_)

-- `struct.unpack_from` of an unsigned number of `n` bytes
unfoldable pub unsigned : ℕ → Read ℕ
unfolding adv
unsigned n data_ o = do at ← adv n data_ o; ok (le_value (slice data_ at.0 n), at.1)

-- A number of `bits` bits in two's complement.
abbrev pub to_signed : ℕ → ℕ → ℤ
to_signed bits v = if ltb v (2 ^ (bits - 1)) then pos v else negsuc (2 ^ bits - v - 1)

unfoldable pub signed : ℕ → Read ℤ
unfolding unsigned
signed n data_ o = do v ← unsigned n data_ o; ok (to_signed (8 * n) v.0, v.1)

abbrev pub u8 : Read ℕ
u8 = unsigned 1

abbrev pub u16 : Read ℕ
u16 = unsigned 2

abbrev pub i8 : Read ℤ
i8 = signed 1

abbrev pub i16 : Read ℤ
i16 = signed 2

abbrev pub i32 : Read ℤ
i32 = signed 4

abbrev pub i64 : Read ℤ
i64 = signed 8

abbrev pub f32 : Read ℕ
f32 = unsigned 4

abbrev pub f64 : Read ℕ
f64 = unsigned 8

-- The bytes past the end are missing from the text, and counted all the same.
unfoldable pub string : Read Str
unfolding unsigned
string data_ o = do n ← u16 data_ o; ok (decode_replace (slice data_ n.1 n.0), n.1 + n.0)

-- The tags, by their numbers.
pub data Tag : Type 0 where
  tag_end tag_byte tag_short tag_int tag_long tag_float tag_double tag_byte_array tag_string : Tag
  tag_list tag_compound tag_int_array tag_long_array unknown : Tag

unfoldable pub tag_of : ℕ → Tag
tag_of n =
    if n == 0
    then tag_end
    else if n == 1
    then tag_byte
    else if n == 2
    then tag_short
    else if n == 3
    then tag_int
    else if n == 4
    then tag_long
    else if n == 5
    then tag_float
    else if n == 6
    then tag_double
    else if n == 7
    then tag_byte_array
    else if n == 8
    then tag_string
    else if n == 9
    then tag_list
    else if n == 10
    then tag_compound
    else if n == 11
    then tag_int_array
    else if n == 12
    then tag_long_array
    else unknown

-- `c < 0 or c > limit`
abbrev pub out_of_range : ℕ → ℤ → Bool
out_of_range limit c = ltb_ℤ c (pos 0) || ltb_ℤ (pos limit) c

abbrev pub mapped : {A : Type 0} → (A → Nbt) → Read A → Read Nbt
mapped f read data_ o = read data_ o >>= λ v. ok (f v.0, v.1)

-- `[read() for _ in range(c)]`
unfoldable pub read_items : Read Nbt → ℕ → Read Items
read_items read zero data_ o = ok (end, o)
read_items read (suc c) data_ o = do
  v ← read data_ o
  rest ← read_items read c data_ v.1
  ok (item v.0 rest.0, rest.1)

abbrev pub set_field : Str → Nbt → Fields → Fields
set_field k v none_left = field k v none_left
set_field k v (field j w d) = if str_beq j k then field j v d else field j w (set_field k v d)

-- The loop that reads a compound into the dict `d`, with the bytes left as fuel.
unfoldable pub read_fields : (ℕ → Read Nbt) → ℕ → Fields → Read Fields
unfolding string
read_fields read zero d data_ o = err out_of_fuel
read_fields read (suc fuel) d data_ o = u8 data_ o >>= λ t.
    let go_on : Run (Fields × ℕ) = string data_ t.1 >>= λ name.
    read t.0 data_ name.1 >>= λ v. read_fields read fuel (set_field name.0 v.0 d) data_ v.1 in
    if t.0 == 0 then ok (d, t.1) else go_on

-- The branches of `read_payload`; `read` is the call of it for what lies inside.
unfoldable pub read_kind : (ℕ → Read Nbt) → Tag → Read Nbt
unfolding string read_items read_fields signed unsigned
read_kind read tag_end data_ o = ok (nothing, o)
read_kind read tag_byte data_ o = mapped number i8 data_ o
read_kind read tag_short data_ o = mapped number i16 data_ o
read_kind read tag_int data_ o = mapped number i32 data_ o
read_kind read tag_long data_ o = mapped number i64 data_ o
read_kind read tag_float data_ o = mapped float32 f32 data_ o
read_kind read tag_double data_ o = mapped float64 f64 data_ o
read_kind read tag_byte_array data_ o = do
  n ← i32 data_ o
  guard (not (out_of_range (length data_) n.0)) value_error
  ok (byte_array (slice data_ n.1 (pos_part n.0)), n.1 + pos_part n.0)
read_kind read tag_string data_ o = mapped text string data_ o
read_kind read tag_list data_ o = do
  et ← u8 data_ o
  c ← i32 data_ et.1
  guard (not (out_of_range 65536 c.0)) value_error
  mapped items (read_items (read et.0) (pos_part c.0)) data_ c.1
read_kind read tag_compound data_ o =
    mapped compound (read_fields read (length data_ + 1) none_left) data_ o
read_kind read tag_int_array data_ o = do
  n ← i32 data_ o
  guard (not (out_of_range 65536 n.0)) value_error
  mapped items (read_items (mapped number i32) (pos_part n.0)) data_ n.1
read_kind read tag_long_array data_ o = do
  n ← i32 data_ o
  guard (not (out_of_range 65536 n.0)) value_error
  mapped items (read_items (mapped number i64) (pos_part n.0)) data_ n.1
read_kind read unknown data_ o = err value_error

-- `read_payload(tag)`, with fuel for how deep values lie in one another
unfoldable pub read_payload : ℕ → ℕ → Read Nbt
unfolding read_kind tag_of
read_payload zero tag data_ o = err out_of_fuel
read_payload (suc depth) tag data_ o = read_kind (read_payload depth) (tag_of tag) data_ o

unfoldable pub parse_root : Read Nbt
unfolding read_payload string
parse_root data_ o = do
  tag ← u8 data_ o
  name ← string data_ tag.1
  read_payload (length data_ + 1) tag.0 data_ name.1

-- `parse_nbt(data, offset)`
unfoldable pub parse_nbt : Bytes → ℕ → Nbt × ℕ
unfolding parse_root
parse_nbt data_ o = elim (parse_root data_ o) [ ok r ↦ r | err e ↦ (nothing, o) ]
