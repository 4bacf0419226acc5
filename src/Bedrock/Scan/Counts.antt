-- ===== src/Bedrock/Scan/Counts.antt =====
-- What a scan adds to the log and the counts, and the lemmas on them.
use code_recipes.Common.{
  ℕ, ◌+◌, ◌≡◌, refl, arith, Bool, List, [], ◌∷◌, ◌++◌, append-nil, append_assoc, sym, ap, ◌∙◌,
  subst,
}
use code_recipes.Common.Eq.{str_eq, str_beq}
use code_recipes.Common.Result.{ok}
use code_recipes.Bedrock.Nbt.{Nbt, Run}
use code_recipes.Bedrock.Scan.{Line, block_line, entity_line, Scan}
use code_recipes.Bedrock.Scan.Lines.{blocks_in, entities_in}
use code_recipes.Bedrock.Scan.Tally.{bump_all, bump_all-append}

-- What a part of the loop adds to a scan.
pub record Adds (same : Nbt → Nbt → Bool) (lines : List Line) (subs acts kvs : ℕ) (s t : Scan)
    : Type 0 where
  pub log_is : t.log ≡ s.log ++ lines
  pub blocks_is : t.block_counts ≡ bump_all same (blocks_in lines) s.block_counts
  pub entities_is : t.entity_counts ≡ bump_all str_beq (entities_in lines) s.entity_counts
  pub subs_is : t.subchunks_scanned ≡ s.subchunks_scanned + subs
  pub acts_is : t.entities_scanned ≡ s.entities_scanned + acts
  pub kvs_is : t.kv_count ≡ s.kv_count + kvs

blocks_in-append : (ls ms : List Line) → blocks_in (ls ++ ms) ≡ blocks_in ls ++ blocks_in ms
blocks_in-append [] ms = refl
blocks_in-append (block_line b ∷ ls) ms = ap (λ l. b.name ∷ l) (blocks_in-append ls ms)
blocks_in-append (entity_line e ∷ ls) ms = blocks_in-append ls ms

entities_in-append : (ls ms : List Line) → entities_in (ls ++ ms) ≡ entities_in ls ++ entities_in ms
entities_in-append [] ms = refl
entities_in-append (entity_line e ∷ ls) ms = ap (λ l. e.eid ∷ l) (entities_in-append ls ms)
entities_in-append (block_line b ∷ ls) ms = entities_in-append ls ms

bump_all-then :
    {K : Type 0} (same : K → K → Bool) (xs ys : List K) (d : List (K × ℕ)) {zs : List K}
    {e f : List (K × ℕ)}
    → zs ≡ xs ++ ys
    → e ≡ bump_all same xs d
    → f ≡ bump_all same ys e
    → f ≡ bump_all same zs d
bump_all-then same xs ys d z p q =
    q
    ∙ ap (bump_all same ys) p
    ∙ sym (bump_all-append same xs ys d)
    ∙ ap (λ l. bump_all same l d) (sym z)

pub Adds-nothing : {same : Nbt → Nbt → Bool} (s : Scan) → Adds same [] 0 0 0 s s
Adds-nothing s = record {
  log_is = sym (append-nil s.log);
  blocks_is = refl;
  entities_is = refl;
  subs_is = omega arith;
  acts_is = omega arith;
  kvs_is = omega arith;
}

pub Adds-then :
    {same : Nbt → Nbt → Bool} {ls ms : List Line} {a b c a' b' c' : ℕ} {s t u : Scan}
    → Adds same ls a b c s t
    → Adds same ms a' b' c' t u
    → Adds same (ls ++ ms) (a + a') (b + b') (c + c') s u
Adds-then {same = same} {ls = ls} {ms = ms} {s = s} p q = record {
  log_is = q.log_is ∙ ap (λ l. l ++ ms) p.log_is ∙ append_assoc s.log ls ms;
  blocks_is =
      bump_all-then same (blocks_in ls) (blocks_in ms) s.block_counts (blocks_in-append ls ms)
        p.blocks_is q.blocks_is;
  entities_is =
      bump_all-then str_beq (entities_in ls) (entities_in ms) s.entity_counts
        (entities_in-append ls ms) p.entities_is q.entities_is;
  subs_is = omega (arith, p.subs_is, q.subs_is);
  acts_is = omega (arith, p.acts_is, q.acts_is);
  kvs_is = omega (arith, p.kvs_is, q.kvs_is);
}

abbrev pub ok_scan : Scan → Run Scan
ok_scan s = ok s

pub ok_inj : {s t : Scan} → ok_scan s ≡ ok_scan t → s ≡ t
ok_inj h = cc

pub subst2 :
    {same : Nbt → Nbt → Bool} {ls ms : List Line} {a b c : ℕ} (s t : Scan) {u : Scan}
    → ls ≡ ms
    → u ≡ t
    → Adds same ls a b c s u
    → Adds same ms a b c s t
subst2 {same = same} {ls = ls} {a = a} {b = b} {c = c} s t {u = u} e f h =
    subst (λ l. Adds same l a b c s t) e (subst (Adds same ls a b c s) f h)

pub recount :
    {same : Nbt → Nbt → Bool} {ls : List Line} {a b c a' b' c' : ℕ} {s t : Scan}
    → a ≡ a'
    → b ≡ b'
    → c ≡ c'
    → Adds same ls a b c s t
    → Adds same ls a' b' c' s t
recount ea eb ec p = record {
  log_is = p.log_is;
  blocks_is = p.blocks_is;
  entities_is = p.entities_is;
  subs_is = omega (arith, p.subs_is);
  acts_is = omega (arith, p.acts_is);
  kvs_is = omega (arith, p.kvs_is);
}

pub one_subchunk :
    {same : Nbt → Nbt → Bool} (s : Scan)
    → Adds same [] 1 0 0 s (record s { subchunks_scanned = s.subchunks_scanned + 1 })
one_subchunk s = record {
  log_is = sym (append-nil s.log);
  blocks_is = refl;
  entities_is = refl;
  subs_is = refl;
  acts_is = omega arith;
  kvs_is = omega arith;
}

pub one_actor :
    {same : Nbt → Nbt → Bool} (s : Scan)
    → Adds same [] 0 1 0 s (record s { entities_scanned = s.entities_scanned + 1 })
one_actor s = record {
  log_is = sym (append-nil s.log);
  blocks_is = refl;
  entities_is = refl;
  subs_is = omega arith;
  acts_is = refl;
  kvs_is = omega arith;
}

pub one_key :
    {same : Nbt → Nbt → Bool} (s : Scan)
    → Adds same [] 0 0 1 s (record s { kv_count = s.kv_count + 1 })
one_key s = record {
  log_is = sym (append-nil s.log);
  blocks_is = refl;
  entities_is = refl;
  subs_is = omega arith;
  acts_is = omega arith;
  kvs_is = refl;
}
