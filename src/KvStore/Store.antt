-- ===== src/KvStore/Store.antt =====
-- `TimedValue` and `KvStore` of python/persist_kv_store.py. Python's ints are ℤ, the `defaultdict`
-- of lists is an association list in insertion order.
pub mod History
pub mod Saved
use code_recipes.Common.{
  ℕ, ◌-◌, ◌≡◌, ◌≢◌, Bool, Option, none, some, List, [], ◌∷◌, ◌++◌, ltb, if◌then◌else◌, get_elem?,
  last?,
}
use code_recipes.Common.Int.{ℤ, pos, ltb_ℤ}
use code_recipes.Common.Eq.{Str, str_eq}
use code_recipes.Common.Dict.{Dict, lookup, insert, NoDup}
use code_recipes.Common.Bisect.{bisect_right}
use code_recipes.Common.Result.{Result, ok, err, ◌>>=◌, or_raise}
use code_recipes.KvStore.Codec.{Bytes, Run, index_error, encode_kvs, decode_kvs}

pub record TimedValue : Type 0 where
  pub ts : ℤ
  pub v : Str

-- `TimedValue.__lt__`
abbrev pub before : TimedValue → TimedValue → Bool
before l r = ltb_ℤ l.ts r.ts

pub record KvStore : Type 0 where
  pub d : Dict Str (List TimedValue)

abbrev pub empty : KvStore
empty = record { d = [] }

-- `d[k]`, where a missing key stands for an empty list
abbrev pub or_empty : Option (List TimedValue) → List TimedValue
or_empty none = []
or_empty (some l) = l

-- `d[k].append(tv)`
unfoldable pub append_to :
    Str → TimedValue → Dict Str (List TimedValue) → Dict Str (List TimedValue)
append_to k tv d = insert k (or_empty (lookup k d) ++ tv ∷ []) d

unfoldable pub set : Str → Str → ℤ → KvStore → KvStore
set k v ts s = record { d = append_to k (record { ts = ts; v = v }) s.d }

unfoldable pub get : Str → ℤ → KvStore → Run (Option Str)
get k ts s = elim (lookup k s.d) [
  | none ↦ ok none
  | some l ↦
      let pos = bisect_right (before (record { ts = ts; v = [] })) l in
      if ltb 0 pos
      then (do tv ← or_raise (get_elem? l (pos - 1)) index_error; ok (some tv.v))
      else ok none
]

-- The loop of `persist`.
unfoldable pub latest_kvs : Dict Str (List TimedValue) → Run (List (Str × Str))
latest_kvs [] = ok []
latest_kvs ((k, l) ∷ d) = do
  tv ← or_raise (last? l) index_error
  kvs ← latest_kvs d
  ok ((k, tv.v) ∷ kvs)

unfoldable pub persist : KvStore → Bytes → Run Bytes
persist s out = do kvs ← latest_kvs s.d; encode_kvs kvs out

-- The loop of `load`.
unfoldable pub load_kvs : List (Str × Str) → Dict Str (List TimedValue) → Dict Str (List TimedValue)
load_kvs [] d = d
load_kvs ((k, v) ∷ kvs) d = load_kvs kvs (append_to k (record { ts = pos 0; v = v }) d)

-- An exception leaves the store as it was: the dict is cleared after the decoding.
unfoldable pub load : Bytes → KvStore → Run KvStore
load input s = do kvs ← decode_kvs input; ok (record { d = load_kvs kvs [] })

abbrev pub AllFilled : Dict Str (List TimedValue) → Type 0
AllFilled [] = Unit
AllFilled ((k, l) ∷ d) = (l ≢ []) × AllFilled d

-- No key stands twice, and no list is empty.
pub record IsValid (s : KvStore) : Type 0 where
  pub distinct : NoDup s.d
  pub filled : AllFilled s.d
