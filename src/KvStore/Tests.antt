-- ===== src/KvStore/Tests.antt =====
-- Runs of the store on the inputs of python/persist_kv_store.py's main, and the theorems at
-- concrete inputs.
use code_recipes.Common.{◌≡◌, refl, none, some, List, [], ◌∷◌, arith, if◌then◌else◌}
use code_recipes.Common.Int.{ℤ, pos, negsuc, leb_ℤ}
use code_recipes.Common.Eq.{Str, str_eq}
use code_recipes.Common.Dict.{lookup, insert}
use code_recipes.Common.Bisect.{bisect_right}
use code_recipes.Common.Result.{ok, err}
use code_recipes.KvStore.Codec.{Bytes, encode_kvs, decode_kvs, struct_error}
use code_recipes.KvStore.Codec.Utf8
use code_recipes.KvStore.Codec.Word
use code_recipes.KvStore.Codec.RoundTrip.{encode_kvs_total}
use code_recipes.KvStore.Store.{KvStore, IsValid, empty, append_to, set, get, persist, load}
use code_recipes.KvStore.Store.History.{Write, set_all, last_write, get-set_all}
use code_recipes.KvStore.Store.Saved.{latest, load-persist_total}

abbrev a_key : Str
a_key = b'a' ∷ []

abbrev writes : List Write
writes =
    record { k = a_key; v = 0x6211 ∷ []; ts = pos 0 }
    ∷ record { k = b'b' ∷ []; v = b'b' ∷ []; ts = pos 0 }
    ∷ record { k = a_key; v = b'a' ∷ b'1' ∷ []; ts = pos 1 }
    ∷ []

abbrev pairs : List (Str × Str)
pairs = (b'a' ∷ [], b'c' ∷ []) ∷ ([], 0x6211 ∷ 0x1f600 ∷ []) ∷ []

get_early : get a_key (pos 0) (set_all writes empty) ≡ ok (some (0x6211 ∷ []))
unfolding get set_all set append_to lookup insert bisect_right
get_early = refl

get_too_early : get a_key (negsuc 0) (set_all writes empty) ≡ ok none
unfolding get set_all set append_to lookup insert bisect_right
get_too_early = refl

decode_truncated : decode_kvs (1 ∷ 0 ∷ []) ≡ err struct_error
unfolding decode_kvs Word.unpack
decode_truncated = refl

encode_kvs_total_example : (bs : Bytes) × (encode_kvs pairs [] ≡ ok bs) × (decode_kvs bs ≡ ok pairs)
unfolding Utf8.encode_char
encode_kvs_total_example = encode_kvs_total pairs (ground arith) (omega arith)

get-set_all_example :
    get a_key (pos 5) (set_all writes empty) ≡ ok (last_write a_key (pos 5) writes)
get-set_all_example = get-set_all writes a_key (pos 5) (omega arith)

abbrev stored : KvStore
stored = record {
  d =
      (a_key, record { ts = pos 0; v = a_key } ∷ record { ts = pos 1; v = b'a' ∷ b'1' ∷ [] } ∷ [])
      ∷ (b'b' ∷ [], record { ts = pos 0; v = b'b' ∷ [] } ∷ [])
      ∷ [];
}

stored-IsValid : IsValid stored
unfolding lookup
stored-IsValid = record { distinct = (refl, (refl, tt)); filled = ground arith }

load-persist_total_example :
    (bs : Bytes) × (s' : KvStore) × (persist stored [] ≡ ok bs)
    × (load bs empty ≡ ok s')
    × IsValid s'
    × ((k : Str) (ts : ℤ) → get k ts s' ≡ ok (if leb_ℤ (pos 0) ts then latest k stored else none))
unfolding Utf8.encode_char
load-persist_total_example =
    load-persist_total stored empty stored-IsValid (ground arith) (omega arith)
