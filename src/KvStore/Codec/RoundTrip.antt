-- ===== src/KvStore/Codec/RoundTrip.antt =====
-- What `encode_kvs` writes, `decode_kvs` reads back.
use code_recipes.Common.{
  ◌≢◌, none, length-append, ◌*◌, ◌^◌, ◌<◌, ◌≤◌, ℕ, zero, suc, ◌≡◌, refl, ap, List, [], ◌∷◌, ◌++◌,
  append_assoc, append-nil, arith, length, take, drop, some,
}
use code_recipes.Common.Eq.{Str}
use code_recipes.Common.Result.{ok, >>=-eq-ok}
use code_recipes.KvStore.Codec.{
  Bytes, write_str, write_kvs, encode_kvs, read_next_len, read_next_str, read_kvs, decode_kvs,
}
use code_recipes.KvStore.Codec.Utf8
use code_recipes.KvStore.Codec.Word

take-append_exact {ℓ} :
    {A : Type ℓ} (xs ys : List A) (n : ℕ) → length xs ≡ n → take n (xs ++ ys) ≡ xs
take-append_exact [] ys zero h = refl
take-append_exact [] ys (suc n) h = absurd (omega arith)
take-append_exact (x ∷ xs) ys zero h = absurd (omega arith)
take-append_exact (x ∷ xs) ys (suc n) h = ap (◌∷◌ x) (take-append_exact xs ys n (omega arith))

drop-append_exact {ℓ} :
    {A : Type ℓ} (xs ys : List A) (n : ℕ) → length xs ≡ n → drop n (xs ++ ys) ≡ ys
drop-append_exact [] ys zero h = refl
drop-append_exact [] ys (suc n) h = absurd (omega arith)
drop-append_exact (x ∷ xs) ys zero h = absurd (omega arith)
drop-append_exact (x ∷ xs) ys (suc n) h = drop-append_exact xs ys n (omega arith)

-- `bs` is a text as the codec stores it: written as it stands, and read back from the front.
abbrev Stores : Str → Bytes → Type 0
Stores s bs =
    ((out : Bytes) → write_str s out ≡ ok (out ++ bs))
    × ((rest : Bytes) → read_next_str (bs ++ rest) ≡ ok (s, rest))

read_next_len-pack :
    (n : ℕ) {bs : Bytes} (rest : Bytes)
    → Word.pack n ≡ some bs
    → read_next_len (bs ++ rest) ≡ ok (n, rest)
unfolding read_next_len
read_next_len-pack n {bs} rest h =
    let eight = Word.length-pack n h in
    rw (take-append_exact bs rest 8 eight, drop-append_exact bs rest 8 eight, Word.unpack-pack n h)

write_str-inv :
    (s : Str) (out : Bytes) {out' : Bytes}
    → write_str s out ≡ ok out'
    → (b : Bytes) × (n : Bytes) × (Utf8.encode s ≡ some b)
      × (Word.pack (length b) ≡ some n)
      × (out' ≡ out ++ (n ++ b))
unfolding write_str
write_str-inv s out h = ground arith

Stores-intro :
    (s : Str) (b n : Bytes)
    → Utf8.encode s ≡ some b
    → Word.pack (length b) ≡ some n
    → Stores s (n ++ b)
unfolding write_str read_next_str
Stores-intro s b n text size = (
  λ out. ground (arith, text, size),
  λ rest. rw (
    append_assoc n b rest,
    read_next_len-pack (length b) (b ++ rest) size,
    take-append_exact b rest (length b) refl,
    drop-append_exact b rest (length b) refl,
    Utf8.decode-encode s text,
  ),
)

write_str-Stores :
    (s : Str) (out : Bytes) {out' : Bytes}
    → write_str s out ≡ ok out'
    → (bs : Bytes) × Stores s bs × (out' ≡ out ++ bs)
write_str-Stores s out h =
    let (b, n, text, size, whole) = write_str-inv s out h in
    (n ++ b, Stores-intro s b n text size, whole)

-- `bs` is a list of pairs as the codec stores it.
abbrev StoresAll : List (Str × Str) → Bytes → Type 0
StoresAll kvs bs = (rest : Bytes) → read_kvs (length kvs) (bs ++ rest) ≡ ok (kvs, rest)

write_kvs-StoresAll :
    (kvs : List (Str × Str)) (out : Bytes) {out' : Bytes}
    → write_kvs kvs out ≡ ok out'
    → (bs : Bytes) × StoresAll kvs bs × (out' ≡ out ++ bs)
unfolding write_kvs read_kvs
write_kvs-StoresAll [] out h = ([], λ rest. refl, rw append-nil cc)
write_kvs-StoresAll ((k, v) ∷ kvs) out h =
    let (out₁, key, h₁) = >>=-eq-ok (write_str k out) _ h in
    let (out₂, value, h₂) = >>=-eq-ok (write_str v out₁) _ h₁ in
    let (kb, ks, ke) = write_str-Stores k out key in
    let (vb, vs, ve) = write_str-Stores v out₁ value in
    let (b, bs, be) = write_kvs-StoresAll kvs out₂ h₂ in
    (
      kb ++ (vb ++ b),
      λ rest. simp (append_assoc, ks.1, vs.1, bs),
      rw (be, ve, ke) (simp append_assoc),
    )

encode_kvs-inv :
    (kvs : List (Str × Str)) {bs : Bytes}
    → encode_kvs kvs [] ≡ ok bs
    → (n : Bytes) × (Word.pack (length kvs) ≡ some n) × (write_kvs kvs n ≡ ok bs)
unfolding encode_kvs
encode_kvs-inv kvs h = ground arith

encode_kvs_lem :
    (kvs : List (Str × Str)) (n bs : Bytes)
    → Word.pack (length kvs) ≡ some n
    → write_kvs kvs n ≡ ok bs
    → encode_kvs kvs [] ≡ ok bs
unfolding encode_kvs
encode_kvs_lem kvs n bs size e = ground (arith, size, e)

-- Whatever `encode_kvs` writes to an empty stream, `decode_kvs` reads back: the same pairs in the
-- same order.
pub decode_kvs-encode_kvs :
    (kvs : List (Str × Str)) (bs : Bytes) → encode_kvs kvs [] ≡ ok bs → decode_kvs bs ≡ ok kvs
unfolding encode_kvs decode_kvs
decode_kvs-encode_kvs kvs bs h =
    let (n, size, whole) = encode_kvs-inv kvs h in
    let (b, stored, e) = write_kvs-StoresAll kvs n whole in
    rw (e, read_next_len-pack (length kvs) b size, ← append-nil b, stored [])

-- Every pair is made of texts without surrogates, short enough for their lengths to fit.
abbrev pub IsText : Str → Type 0
IsText [] = Unit
IsText (c ∷ s) = (Utf8.encode_char c ≢ none) × IsText s

abbrev pub AreStorable : List (Str × Str) → Type 0
AreStorable [] = Unit
AreStorable ((k, v) ∷ kvs) =
    IsText k × (4 * length k < 2 ^ 64) × IsText v × (4 * length v < 2 ^ 64) × AreStorable kvs

encode-total :
    (s : Str) → IsText s → (b : Bytes) × (Utf8.encode s ≡ some b) × (length b ≤ 4 * length s)
unfolding Utf8.encode
encode-total [] t = ([], refl, omega arith)
encode-total (c ∷ s) t =
    let (cb, ce, cl) = Utf8.encode_char-total c t.0 in
    let (sb, se, sl) = encode-total s t.1 in
    (cb ++ sb, rw (ce, se), omega (arith, length-append cb sb, cl, sl))

write_str_total :
    (s : Str) (out : Bytes)
    → IsText s
    → 4 * length s < 2 ^ 64
    → (out' : Bytes) × (write_str s out ≡ ok out')
unfolding write_str
write_str_total s out t small =
    let (b, e, l) = encode-total s t in
    let (n, size) = Word.pack_total (length b) (omega (arith, l)) in
    (out ++ (n ++ b), ground (arith, e, size))

write_kvs_total :
    (kvs : List (Str × Str)) (out : Bytes)
    → AreStorable kvs
    → (out' : Bytes) × (write_kvs kvs out ≡ ok out')
unfolding write_kvs
write_kvs_total [] out h = (out, refl)
write_kvs_total ((k, v) ∷ kvs) out (kt, ks, vt, vs, h) =
    let (out', ke) = write_str_total k out kt ks in
    let (out'', ve) = write_str_total v out' vt vs in
    let (end, e) = write_kvs_total kvs out'' h in (end, rw (ke, ve) e)

-- Fewer than 2^64 pairs of texts without surrogates, each of fewer than 2^62 characters, are
-- encoded without an exception, and decoded to the same pairs.
pub encode_kvs_total :
    (kvs : List (Str × Str))
    → AreStorable kvs
    → length kvs < 2 ^ 64
    → (bs : Bytes) × (encode_kvs kvs [] ≡ ok bs) × (decode_kvs bs ≡ ok kvs)
unfolding encode_kvs
encode_kvs_total kvs h small =
    let (n, size) = Word.pack_total (length kvs) small in
    let (bs, e) = write_kvs_total kvs n h in
    let encoded = encode_kvs_lem kvs n bs size e in
    (bs, encoded, decode_kvs-encode_kvs kvs bs encoded)
