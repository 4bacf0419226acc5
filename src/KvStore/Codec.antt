-- ===== src/KvStore/Codec.antt =====
-- `KvCodec` of python/persist_kv_store.py: counts and lengths are eight bytes, least significant
-- first (the format "Q" on a little-endian machine), and texts are UTF-8. A byte string is a list
-- of numbers. A `BytesIO` that is written is the list of the bytes written so far, and one that is
-- read is the list of the bytes from its position on.
pub mod Utf8
pub mod Word
pub mod RoundTrip
use code_recipes.Common.{ℕ, zero, suc, Bool, List, [], ◌∷◌, ◌++◌, ◌==◌, length, take, drop}
use code_recipes.Common.Eq.{Str}
use code_recipes.Common.Result.{Result, ok, err, ◌>>=◌, ◌>>◌, guard, or_raise}

pub data Error : Type 0 where
  struct_error unicode_encode_error unicode_decode_error runtime_error index_error : Error

abbrev pub Bytes : Type 0
Bytes = List ℕ

abbrev pub Run {ℓ} : Type ℓ → Type ℓ
Run A = Result Error A

-- `out.write(bs)`: the number of bytes written, and the stream
write : Bytes → Bytes → ℕ × Bytes
write bs out = (length bs, out ++ bs)

-- `input.read(n)`: what is read, which may be shorter, and the rest
read : ℕ → Bytes → Bytes × Bytes
read n input = (take n input, drop n input)

write_bytes : Bytes → Bytes → Run Bytes
unfolding write
write_bytes bs out = do
  let (written, out') = write bs out
  guard (written == length bs) runtime_error
  ok out'

-- `write_str`: one `struct.pack` makes the length and the bytes.
write_str : Str → Bytes → Run Bytes
unfolding write_bytes
write_str s out = do
  b ← or_raise (Utf8.encode s) unicode_encode_error
  n ← or_raise (Word.pack (length b)) struct_error
  write_bytes (n ++ b) out

write_kvs : List (Str × Str) → Bytes → Run Bytes
unfolding write_str
write_kvs [] out = ok out
write_kvs ((k, v) ∷ kvs) out = do
  out' ← write_str k out
  out'' ← write_str v out'
  write_kvs kvs out''

unfoldable pub encode_kvs : List (Str × Str) → Bytes → Run Bytes
unfolding write_bytes write_kvs
encode_kvs kvs out = do
  n ← or_raise (Word.pack (length kvs)) struct_error
  out' ← write_bytes n out
  write_kvs kvs out'

read_next_len : Bytes → Run (ℕ × Bytes)
unfolding read
read_next_len input = do
  let (bs, rest) = read 8 input
  n ← or_raise (Word.unpack bs) struct_error
  ok (n, rest)

read_next_str : Bytes → Run (Str × Bytes)
unfolding read read_next_len
read_next_str input = do
  (l, input') ← read_next_len input
  let (bs, rest) = read l input'
  s ← or_raise (Utf8.decode bs) unicode_decode_error
  ok (s, rest)

-- The loop of `decode_kvs`, with the rounds left.
read_kvs : ℕ → Bytes → Run (List (Str × Str) × Bytes)
unfolding read_next_str
read_kvs zero input = ok ([], input)
read_kvs (suc n) input = do
  (k, input') ← read_next_str input
  (v, input'') ← read_next_str input'
  (kvs, rest) ← read_kvs n input''
  ok ((k, v) ∷ kvs, rest)

unfoldable pub decode_kvs : Bytes → Run (List (Str × Str))
unfolding read_next_len read_kvs
decode_kvs input = do
  (num_kvs, input') ← read_next_len input
  (kvs, rest) ← read_kvs num_kvs input'
  ok kvs
