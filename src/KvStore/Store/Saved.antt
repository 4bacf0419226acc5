-- ===== src/KvStore/Store/Saved.antt =====
-- The invariant of the store, and what is left of it after `persist` and `load`.
use code_recipes.Common.{
  ◌≡◌, ◌≢◌, refl, ◌∙◌, ap, Option, none, some, List, [], ◌∷◌, ◌++◌, arith, if◌then◌else◌, map,
  last?, length, ◌*◌, ◌<◌, ◌^◌, subst,
}
use code_recipes.Common.Int.{ℤ, pos, leb_ℤ}
use code_recipes.Common.Eq.{Str, str_eq, str_beq_iff}
use code_recipes.Common.Dict.{Dict, lookup, insert, NoDup, insert-NoDup}
use mathlib.Core.Option
use code_recipes.Common.Result.{ok, or_raise, >>=-eq-ok, or_raise-eq-ok}
use code_recipes.KvStore.Codec.{index_error, Bytes, encode_kvs}
use code_recipes.KvStore.Codec.RoundTrip.{
  IsText, AreStorable, encode_kvs_total, decode_kvs-encode_kvs,
}
use code_recipes.KvStore.Store.History.{Write, set_all, AllFrom, InOrder, last_write, get-set_all}
use code_recipes.KvStore.Store.{
  TimedValue, KvStore, empty, append_to, set, get, latest_kvs, persist, load_kvs, load, AllFilled,
  IsValid,
}

append-ne-nil {ℓ} : {A : Type ℓ} (xs : List A) (x : A) → xs ++ x ∷ [] ≢ []
append-ne-nil [] x = ground arith
append-ne-nil (y ∷ xs) x = ground arith

insert-AllFilled :
    (k : Str) (l : List TimedValue) (d : Dict Str (List TimedValue))
    → l ≢ []
    → AllFilled d
    → AllFilled (insert k l d)
unfolding insert
insert-AllFilled k l [] h f = (h, tt)
insert-AllFilled k l ((j, m) ∷ d) h f = ground (arith, insert-AllFilled k l d h f.1)

-- `set` keeps a store valid: no key stands twice, and no key has an empty list of values.
set-IsValid : (k v : Str) (ts : ℤ) (s : KvStore) → IsValid s → IsValid (set k v ts s)
unfolding set append_to
set-IsValid k v ts s h = record {
  distinct = insert-NoDup k _ s.d h.distinct;
  filled = insert-AllFilled k _ s.d (append-ne-nil _ _) h.filled;
}

last?-some : (l : List TimedValue) → l ≢ [] → (x : TimedValue) × (last? l ≡ some x)
last?-some [] h = absurd (h refl)
last?-some (x ∷ []) h = (x, refl)
last?-some (x ∷ y ∷ l) h = last?-some (y ∷ l) (ground arith)

-- The value of a key that `persist` writes.
abbrev pub latest_of : Option (List TimedValue) → Option Str
latest_of none = none
latest_of (some l) = Option.map (λ x. x.v) (last? l)

abbrev pub latest : Str → KvStore → Option Str
latest k s = latest_of (lookup k s.d)

latest_kvs-inv :
    (k : Str) (l : List TimedValue) (d : Dict Str (List TimedValue)) {kvs : List (Str × Str)}
    → latest_kvs ((k, l) ∷ d) ≡ ok kvs
    → (x : TimedValue) × (rest : List (Str × Str)) × (last? l ≡ some x)
      × (latest_kvs d ≡ ok rest)
      × (kvs ≡ (k, x.v) ∷ rest)
unfolding latest_kvs
latest_kvs-inv k l d h =
    let (x, e, h') = >>=-eq-ok (or_raise (last? l) index_error) _ h in
    let (rest, more, h'') = >>=-eq-ok (latest_kvs d) _ h' in
    (x, rest, or_raise-eq-ok (last? l) index_error e, more, cc)

-- The pairs that `persist` writes hold the latest value of every key.
latest_kvs-lookup :
    (d : Dict Str (List TimedValue)) (k : Str) {kvs : List (Str × Str)}
    → latest_kvs d ≡ ok kvs
    → lookup k kvs ≡ latest_of (lookup k d)
unfolding latest_kvs lookup
latest_kvs-lookup [] k h = ground arith
latest_kvs-lookup ((j, l) ∷ d) k h =
    let (x, rest, e, more, shape) = latest_kvs-inv j l d h in
    ground (arith, latest_kvs-lookup d k more)

latest_kvs-NoDup :
    (d : Dict Str (List TimedValue)) {kvs : List (Str × Str)}
    → latest_kvs d ≡ ok kvs
    → NoDup d
    → NoDup kvs
unfolding latest_kvs
latest_kvs-NoDup [] {kvs} h n = let e : [] ≡ kvs = cc in subst NoDup e tt
latest_kvs-NoDup ((j, l) ∷ d) h n =
    let (x, rest, e, more, shape) = latest_kvs-inv j l d h in
    ground (arith, latest_kvs-NoDup d more n.1, latest_kvs-lookup d j more)

abbrev as_write : Str × Str → Write
as_write (k, v) = record { k = k; v = v; ts = pos 0 }

load_kvs-set_all :
    (kvs : List (Str × Str)) (s : KvStore) → load_kvs kvs s.d ≡ (set_all (map as_write kvs) s).d
unfolding load_kvs set_all set
load_kvs-set_all [] s = refl
load_kvs-set_all ((k, v) ∷ kvs) s = load_kvs-set_all kvs (set k v (pos 0) s)

as_write-InOrder :
    (kvs : List (Str × Str)) → AllFrom (pos 0) (map as_write kvs) × InOrder (map as_write kvs)
as_write-InOrder [] = (tt, tt)
as_write-InOrder ((k, v) ∷ kvs) = ground (arith, as_write-InOrder kvs)

last_write-as_write :
    (kvs : List (Str × Str)) (k : Str) (ts : ℤ)
    → NoDup kvs
    → last_write k ts (map as_write kvs) ≡ (if leb_ℤ (pos 0) ts then lookup k kvs else none)
unfolding lookup
last_write-as_write [] k ts n = ground arith
last_write-as_write ((j, v) ∷ kvs) k ts n =
    ground (arith, last_write-as_write kvs k ts n.1, str_beq_iff j k)

set_all-IsValid : (ws : List Write) (s : KvStore) → IsValid s → IsValid (set_all ws s)
unfolding set_all
set_all-IsValid [] s h = h
set_all-IsValid (w ∷ ws) s h = set_all-IsValid ws _ (set-IsValid w.k w.v w.ts s h)

load-persist :
    (s t : KvStore) (bs : Bytes)
    → IsValid s
    → persist s [] ≡ ok bs
    → (s' : KvStore) × (load bs t ≡ ok s')
      × IsValid s'
      × ((k : Str) (ts : ℤ) → get k ts s' ≡ ok (if leb_ℤ (pos 0) ts then latest k s else none))
unfolding persist load
load-persist s t bs h e =
    let (kvs, saved, encoded) = >>=-eq-ok (latest_kvs s.d) _ e in
    (
      set_all (map as_write kvs) empty,
      rw (decode_kvs-encode_kvs kvs bs encoded, load_kvs-set_all kvs empty),
      set_all-IsValid _ empty (record { distinct = tt; filled = tt }),
      λ k ts.
          get-set_all (map as_write kvs) k ts (as_write-InOrder kvs).1
          ∙ ap ok (
              last_write-as_write kvs k ts (latest_kvs-NoDup s.d saved h.distinct)
              ∙ rw (latest_kvs-lookup s.d k saved)),
    )

-- Every text of the store can be encoded.
abbrev pub AllTexts : List TimedValue → Type 0
AllTexts [] = Unit
AllTexts (x ∷ l) = IsText x.v × (4 * length x.v < 2 ^ 64) × AllTexts l

abbrev pub AreTexts : Dict Str (List TimedValue) → Type 0
AreTexts [] = Unit
AreTexts ((k, l) ∷ d) = IsText k × (4 * length k < 2 ^ 64) × AllTexts l × AreTexts d

last?-IsText :
    (l : List TimedValue) (x : TimedValue)
    → AllTexts l
    → last? l ≡ some x
    → IsText x.v × (4 * length x.v < 2 ^ 64)
last?-IsText [] x h e = cc
last?-IsText (y ∷ []) x h e =
    subst (λ z. IsText z.v × (4 * length z.v < 2 ^ 64)) (some_path e) (h.0, h.1)
  where
    some_path : some y ≡ some x → y ≡ x
    some_path e = cc
last?-IsText (y ∷ z ∷ l) x h e = last?-IsText (z ∷ l) x h.2 e

latest_kvs_total :
    (d : Dict Str (List TimedValue))
    → AllFilled d
    → AreTexts d
    → (kvs : List (Str × Str)) × (latest_kvs d ≡ ok kvs) × AreStorable kvs × (length kvs ≡ length d)
unfolding latest_kvs
latest_kvs_total [] f h = ([], refl, tt, refl)
latest_kvs_total ((k, l) ∷ d) f (kt, ks, lt, h) =
    let (x, e) = last?-some l f.0 in
    let (kvs, more, storable, len) = latest_kvs_total d f.1 h in
    let (vt, vs) = last?-IsText l x lt e in
    ((k, x.v) ∷ kvs, rw (e, more), (kt, ks, vt, vs, storable), omega (arith, len))

persist_lem :
    (s : KvStore) (kvs : List (Str × Str)) (bs : Bytes)
    → latest_kvs s.d ≡ ok kvs
    → encode_kvs kvs [] ≡ ok bs
    → persist s [] ≡ ok bs
unfolding persist
persist_lem s kvs bs saved encoded = rw saved encoded

-- A valid store of fewer than 2^64 keys, its texts without surrogates and of fewer than 2^62
-- characters each, is persisted to an empty stream without an exception, and what is written is
-- loaded without one, whatever the loading store held. The loaded store is
-- valid; from time 0 on it answers for each key with the latest value that was stored, and before
-- time 0 with none.
pub load-persist_total :
    (s t : KvStore)
    → IsValid s
    → AreTexts s.d
    → length s.d < 2 ^ 64
    → (bs : Bytes) × (s' : KvStore) × (persist s [] ≡ ok bs)
      × (load bs t ≡ ok s')
      × IsValid s'
      × ((k : Str) (ts : ℤ) → get k ts s' ≡ ok (if leb_ℤ (pos 0) ts then latest k s else none))
load-persist_total s t h texts small =
    let (kvs, saved, storable, len) = latest_kvs_total s.d h.filled texts in
    let (bs, encoded, decoded) = encode_kvs_total kvs storable (rw len small) in
    let written = persist_lem s kvs bs saved encoded in
    let (s', loaded, valid, answers) = load-persist s t bs h written in
    (bs, s', written, loaded, valid, answers)
