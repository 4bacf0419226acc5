-- ===== src/Bedrock/Nbt/Ends.antt =====
-- Every read of a value ends: what lies inside a list or a dict begins after it.
use code_recipes.Common.{
  ℕ, zero, suc, ◌+◌, ◌≤◌, ◌<◌, ◌≡◌, ◌≢◌, arith, ltb, ◌==◌, if◌then◌else◌, true, false, Bool,
  Bool-cases, inl, inr, length, not, subst, sym,
}
use code_recipes.Common.Int.{ℤ, pos_part}
use code_recipes.Common.Result.{ok, err, ◌>>=◌, ◌>>◌, guard}
use code_recipes.Bedrock.Nbt.{
  Nbt, Fields, Run, Bytes, Read, Tag, adv, unsigned, signed, string, read_items, read_fields,
  read_kind, read_payload, parse_root, out_of_fuel, struct_error, value_error, mapped, set_field,
  out_of_range, number, float32, float64, text, items, compound, none_left, tag_of, tag_end,
  tag_byte, tag_short, tag_int, tag_long, tag_float, tag_double, tag_byte_array, tag_string,
  tag_list, tag_compound, tag_int_array, tag_long_array, unknown, slice,
}
use code_recipes.KvStore.Codec.Word.{le_value}

-- A read that began at offset `o` did not run out of fuel, and did not move the offset back.
abbrev pub Ends : {A : Type 0} → ℕ → Run (A × ℕ) → Type 0
Ends o (ok v) = o ≤ v.1
Ends o (err e) = e ≢ out_of_fuel

struct_error_lem : struct_error ≢ out_of_fuel
struct_error_lem = λ e. ground arith

Ends-weaken : {A : Type 0} {o p : ℕ} (r : Run (A × ℕ)) → o ≤ p → Ends p r → Ends o r
Ends-weaken (ok v) h e = omega arith
Ends-weaken (err x) h e = e

Ends-bind :
    {A B : Type 0} {o : ℕ} (r : Run (A × ℕ)) (k : A × ℕ → Run (B × ℕ))
    → Ends o r
    → ((v : A × ℕ) → o ≤ v.1 → Ends v.1 (k v))
    → Ends o (r >>= k)
Ends-bind {o = o} (ok v) k e f = Ends-weaken (k v) e (f v e)
Ends-bind (err x) k e f = e

unsigned_fits :
    (n : ℕ) (data_ : Bytes) (o : ℕ)
    → o + n ≤ length data_
    → unsigned n data_ o ≡ ok (le_value (slice data_ o n), o + n)
unfolding unsigned adv
unsigned_fits n data_ o h = let b : ltb (length data_) (o + n) ≡ false = ground arith in rw b

unsigned_short :
    (n : ℕ) (data_ : Bytes) (o : ℕ) → length data_ < o + n → unsigned n data_ o ≡ err struct_error
unfolding unsigned adv
unsigned_short n data_ o h = let b : ltb (length data_) (o + n) ≡ true = ground arith in rw b

unsigned_elim :
    (n : ℕ) (data_ : Bytes) (o : ℕ) (P : Run (ℕ × ℕ) → Type 0)
    → P (err struct_error)
    → ((v : ℕ) → o + n ≤ length data_ → P (ok (v, o + n)))
    → P (unsigned n data_ o)
unsigned_elim n data_ o P short f = elim (Bool-cases (ltb (length data_) (o + n))) [
  | inl e ↦ subst P (sym (unsigned_short n data_ o (ground arith))) short
  | inr e ↦
      let fits : o + n ≤ length data_ = ground arith in
      subst P (sym (unsigned_fits n data_ o fits)) (f (le_value (slice data_ o n)) fits)
]

unsigned_bind :
    {B : Type 0} (n : ℕ) (data_ : Bytes) (o : ℕ) (k : ℕ × ℕ → Run (B × ℕ))
    → ((v : ℕ) → o + n ≤ length data_ → Ends (o + n) (k (v, o + n)))
    → Ends o (unsigned n data_ o >>= k)
unsigned_bind n data_ o k f =
    unsigned_elim n data_ o (λ r. Ends o (r >>= k)) struct_error_lem
      (λ v fits. Ends-weaken (k (v, o + n)) (omega arith) (f v fits))

unsigned-Ends : (n : ℕ) (data_ : Bytes) (o : ℕ) → Ends (o + n) (unsigned n data_ o)
unsigned-Ends n data_ o =
    unsigned_elim n data_ o (Ends (o + n)) struct_error_lem (λ v fits. omega arith)

signed-Ends : (n : ℕ) (data_ : Bytes) (o : ℕ) → Ends (o + n) (signed n data_ o)
unfolding signed
signed-Ends n data_ o =
    Ends-bind (unsigned n data_ o) _ (unsigned-Ends n data_ o) (λ v h. omega arith)

mapped-Ends :
    {A : Type 0} (f : A → Nbt) (read : Read A) (data_ : Bytes) (o : ℕ) (p : ℕ)
    → Ends p (read data_ o)
    → Ends p (mapped f read data_ o)
mapped-Ends f read data_ o p e = Ends-bind (read data_ o) _ e (λ v h. omega arith)

string-Ends : (data_ : Bytes) (o : ℕ) → Ends (o + 2) (string data_ o)
unfolding string
string-Ends data_ o =
    Ends-bind (unsigned 2 data_ o) _ (unsigned-Ends 2 data_ o) (λ v h. omega arith)

either_way :
    {A : Type 0} (o : ℕ) (b : Bool) (r s : Run (A × ℕ))
    → Ends o r
    → Ends o s
    → Ends o (if b then r else s)
either_way o true r s e f = e
either_way o false r s e f = f

guard_bind :
    {B : Type 0} (b : Bool) (o : ℕ) (k : Run (B × ℕ)) → Ends o k → Ends o (guard b value_error >> k)
guard_bind true o k e = e
guard_bind false o k e = λ h. ground arith

-- A reader that ends from offset `o` on.
abbrev EndsFrom : {A : Type 0} → Read A → Bytes → ℕ → Type 0
EndsFrom read data_ o = (p : ℕ) → o ≤ p → Ends p (read data_ p)

read_items-Ends :
    (read : Read Nbt) (c : ℕ) (data_ : Bytes) (o : ℕ)
    → EndsFrom read data_ o
    → Ends o (read_items read c data_ o)
unfolding read_items
read_items-Ends read zero data_ o r = omega arith
read_items-Ends read (suc c) data_ o r = Ends-bind (read data_ o) _ (r o (omega arith)) (λ v h.
    Ends-bind (read_items read c data_ v.1) _
      (read_items-Ends read c data_ v.1 (λ p le. r p (omega arith))) (λ w g. omega arith))

mapped-signed : (n : ℕ) (data_ : Bytes) (o : ℕ) → Ends o (mapped number (signed n) data_ o)
mapped-signed n data_ o =
    mapped-Ends number (signed n) data_ o o (Ends-weaken _ (omega arith) (signed-Ends n data_ o))

-- A count and as many values.
counted :
    (limit o : ℕ) (count : Run (ℤ × ℕ)) (data_ : Bytes) (read : Read Nbt)
    → EndsFrom read data_ o
    → Ends o count
    → Ends o (do
      n ← count
      guard (not (out_of_range limit n.0)) value_error
      mapped items (read_items read (pos_part n.0)) data_ n.1)
counted limit o count data_ read r e = Ends-bind count _ e (λ n h.
    guard_bind (not (out_of_range limit n.0)) n.1 _ (
      mapped-Ends items (read_items read (pos_part n.0)) data_ n.1 n.1
        (read_items-Ends read (pos_part n.0) data_ n.1 (λ p le. r p (omega arith)))))

-- The rounds of the loop over a compound are fewer than the bytes left.
read_fields-Ends :
    (read : ℕ → Read Nbt) (fuel : ℕ) (d : Fields) (data_ : Bytes) (o : ℕ)
    → ((t : ℕ) → o < length data_ → EndsFrom (read t) data_ (o + 1))
    → 1 ≤ fuel
    → length data_ < o + fuel
    → Ends o (read_fields read fuel d data_ o)
unfolding read_fields
read_fields-Ends read zero d data_ o r one enough = ground arith
read_fields-Ends read (suc fuel) d data_ o r one enough = unsigned_bind 1 data_ o _ (λ t fits.
    either_way (o + 1) (t == 0) _ _ (omega arith) (
      Ends-weaken _ (omega arith) (
        Ends-bind (string data_ (o + 1)) _ (string-Ends data_ (o + 1)) (λ name h.
          Ends-bind (read t data_ name.1) _ (r t (omega arith) name.1 (omega arith)) (λ v g.
            read_fields-Ends read fuel (set_field name.0 v.0 d) data_ v.1
              (λ u w p le. r u (omega arith) p (omega arith)) (omega arith) (omega arith))))))

read_kind-Ends :
    (read : ℕ → Read Nbt) (t : Tag) (data_ : Bytes) (o : ℕ)
    → ((t : ℕ) → o < length data_ → EndsFrom (read t) data_ (o + 1))
    → Ends o (read_kind read t data_ o)
unfolding read_kind
read_kind-Ends read tag_end data_ o r = omega arith
read_kind-Ends read tag_byte data_ o r = mapped-signed 1 data_ o
read_kind-Ends read tag_short data_ o r = mapped-signed 2 data_ o
read_kind-Ends read tag_int data_ o r = mapped-signed 4 data_ o
read_kind-Ends read tag_long data_ o r = mapped-signed 8 data_ o
read_kind-Ends read tag_float data_ o r =
    mapped-Ends float32 (unsigned 4) data_ o o
      (Ends-weaken _ (omega arith) (unsigned-Ends 4 data_ o))
read_kind-Ends read tag_double data_ o r =
    mapped-Ends float64 (unsigned 8) data_ o o
      (Ends-weaken _ (omega arith) (unsigned-Ends 8 data_ o))
read_kind-Ends read tag_byte_array data_ o r = Ends-weaken _ (omega arith) (
    Ends-bind (signed 4 data_ o) _ (signed-Ends 4 data_ o)
      (λ n h. guard_bind (not (out_of_range (length data_) n.0)) n.1 _ (omega arith)))
read_kind-Ends read tag_string data_ o r =
    mapped-Ends text string data_ o o (Ends-weaken _ (omega arith) (string-Ends data_ o))
read_kind-Ends read tag_list data_ o r = unsigned_bind 1 data_ o _ (λ t fits.
    counted 65536 (o + 1) (signed 4 data_ (o + 1)) data_ (read t)
      (λ p le. r t (omega arith) p (omega arith))
      (Ends-weaken _ (omega arith) (signed-Ends 4 data_ (o + 1))))
read_kind-Ends read tag_compound data_ o r =
    mapped-Ends compound (read_fields read (length data_ + 1) none_left) data_ o o
      (read_fields-Ends read (length data_ + 1) none_left data_ o r (omega arith) (omega arith))
read_kind-Ends read tag_int_array data_ o r =
    counted 65536 o (signed 4 data_ o) data_ (mapped number (signed 4))
      (λ p le. mapped-signed 4 data_ p) (Ends-weaken _ (omega arith) (signed-Ends 4 data_ o))
read_kind-Ends read tag_long_array data_ o r =
    counted 65536 o (signed 4 data_ o) data_ (mapped number (signed 8))
      (λ p le. mapped-signed 8 data_ p) (Ends-weaken _ (omega arith) (signed-Ends 4 data_ o))
read_kind-Ends read unknown data_ o r = λ h. ground arith

read_payload-Ends :
    (depth tag : ℕ) (data_ : Bytes) (o : ℕ)
    → 1 ≤ depth
    → length data_ < o + depth
    → Ends o (read_payload depth tag data_ o)
unfolding read_payload
read_payload-Ends zero tag data_ o one enough = ground arith
read_payload-Ends (suc depth) tag data_ o one enough =
    read_kind-Ends (read_payload depth) (tag_of tag) data_ o
      (λ t fits p le. read_payload-Ends depth t data_ p (omega arith) (omega arith))

parse_root-Ends : (data_ : Bytes) (o : ℕ) → Ends o (parse_root data_ o)
unfolding parse_root
parse_root-Ends data_ o = unsigned_bind 1 data_ o _ (λ t fits. Ends-weaken _ (omega arith) (
    Ends-bind (string data_ (o + 1)) _ (string-Ends data_ (o + 1))
      (λ name h. read_payload-Ends (length data_ + 1) t data_ name.1 (omega arith) (omega arith))))

Ends-not_out : {A : Type 0} (o : ℕ) (r : Run (A × ℕ)) → Ends o r → r ≢ err out_of_fuel
Ends-not_out o (ok v) e h = ground arith
Ends-not_out o (err x) e h = e (ground arith)

-- Reading a root value from any bytes at any offset ends: the depth that `parse_root` allows and the
-- rounds it allows for each compound never run out.
pub parse_root-ends : (data_ : Bytes) (o : ℕ) → parse_root data_ o ≢ err out_of_fuel
parse_root-ends data_ o = Ends-not_out o (parse_root data_ o) (parse_root-Ends data_ o)
