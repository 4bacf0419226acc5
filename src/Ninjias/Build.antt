-- ===== src/Ninjias/Build.antt =====
-- The circle that `ninjas_bruteforce` builds.
use code_recipes.Common.{
  ℕ, zero, suc, ◌+◌, ◌-◌, ◌≤◌, ◌<◌, ◌≡◌, refl, sym, ap, subst, ◌∙◌, false, ◌==◌, arith, none, some,
  Bool-cases, inl, inr,
}
use code_recipes.Ninjias.Circle.{range_from}
use code_recipes.Ninjias.Links.{Links, new_node, insert, fill, close, circle_of}
use code_recipes.Ninjias.Ring.{Arc}

-- What one `insert` after the tail makes of the nodes.
record Grown (tail : ℕ) (s grown : Links) : Type 0 where
  new_next : grown.next (suc tail) ≡ none
  link : grown.next tail ≡ some (suc tail)
  back : grown.prev (suc tail) ≡ some tail
  old_next : (a : ℕ) → a < tail → grown.next a ≡ s.next a
  old_prev : (b : ℕ) → b ≤ tail → grown.prev b ≡ s.prev b
  new_t : grown.t (suc tail) ≡ some (suc tail)
  old_t : (i : ℕ) → i ≤ tail → grown.t i ≡ s.t i

insert-Grown :
    (tail : ℕ) (s : Links)
    → s.next tail ≡ none
    → Grown tail s (insert tail (suc tail) (new_node (suc tail) (suc tail) s)).1
insert-Grown tail s e =
    let apart : (suc tail == tail) ≡ false = ground arith in
    let none_after : (new_node (suc tail) (suc tail) s).next tail ≡ none = rw apart e in
    rw none_after (record {
      new_next = ground arith;
      link = ground arith;
      back = ground arith;
      old_next = λ a l. ground arith;
      old_prev = λ b l. ground arith;
      new_t = ground arith;
      old_t = λ i l. ground arith;
    })

-- The nodes once the rest is filled in and the circle closed.
record Closed (tail count : ℕ) (s closed : Links) : Type 0 where
  path : Arc closed tail (range_from (suc tail) count) 0
  old_next : (a : ℕ) → a < tail → closed.next a ≡ s.next a
  old_prev : (b : ℕ) → 1 ≤ b → b ≤ tail → closed.prev b ≡ s.prev b
  new_t : (i : ℕ) → tail < i → i ≤ tail + count → closed.t i ≡ some i
  old_t : (i : ℕ) → i ≤ tail → closed.t i ≡ s.t i

fill-Closed :
    (tail count last : ℕ) (s : Links)
    → last ≡ tail + count
    → s.next tail ≡ none
    → Closed tail count s (close last (fill tail count s))
fill-Closed tail zero last s e n =
    let same : last ≡ tail = omega arith in
    record {
      path = (ground arith, ground arith);
      old_next = λ a l. ground arith;
      old_prev = λ b p l. ground arith;
      new_t = λ i p l. absurd (omega arith);
      old_t = λ i l. refl;
    }
fill-Closed tail (suc count) last s e n =
    let g = insert-Grown tail s n in
    let s1 = (insert tail (suc tail) (new_node (suc tail) (suc tail) s)).1 in
    let c = fill-Closed (suc tail) count last s1 (omega arith) g.new_next in
    record {
      path = (
        (
          c.old_next tail (omega arith) ∙ g.link,
          c.old_prev (suc tail) (omega arith) (omega arith) ∙ g.back,
        ),
        c.path,
      );
      old_next = λ a l. c.old_next a (omega arith) ∙ g.old_next a l;
      old_prev = λ b p l. c.old_prev b p (omega arith) ∙ g.old_prev b l;
      new_t = λ i p l. elim (Bool-cases (i == suc tail)) [
        | inl same ↦
            let at : i ≡ suc tail = ground arith in
            ap ((close last (fill (suc tail) count s1)).t) at
            ∙ (c.old_t (suc tail) (omega arith) ∙ (g.new_t ∙ ap some (sym at)))
        | inr other ↦ c.new_t i (ground arith) (omega arith)
      ];
      old_t = λ i l. c.old_t i (omega arith) ∙ g.old_t i l;
    }

abbrev first : Links
first = new_node 0 0 (record { prev = λ a. none; next = λ a. none; t = λ a. none })

circle_of-Closed : (n : ℕ) → Closed 0 n first (circle_of (suc n))
circle_of-Closed n =
    let less : n ≡ suc n - 1 = omega arith in
    subst (λ k. Closed 0 n first (close k (fill 0 k first))) less
      (fill-Closed 0 n n first (omega arith) refl)

-- For one node or more: a ring, each node with its number.
pub circle_of-Arc : (n : ℕ) → Arc (circle_of (suc n)) 0 (range_from 1 n) 0
circle_of-Arc n = (circle_of-Closed n).path

pub circle_of-t : (n i : ℕ) → i ≤ n → (circle_of (suc n)).t i ≡ some i
circle_of-t n zero l = (circle_of-Closed n).old_t 0 (omega arith)
circle_of-t n (suc i) l = (circle_of-Closed n).new_t (suc i) (omega arith) (omega arith)
