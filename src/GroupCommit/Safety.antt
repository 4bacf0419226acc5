-- ===== src/GroupCommit/Safety.antt =====
-- A call of `commit` that returns has had its data committed.
use code_recipes.Common.{
  ℕ, suc, ◌≡◌, ◌⊎◌, refl, sym, subst, ◌∙◌, true, false, Bool-cases, inl, inr, ◌==◌, ==_iff, List,
  [], ◌∷◌, ◌++◌, length,
}
use code_recipes.GroupCommit.Steps.{
  Stage, idle, following, leading, merging, holding, signalling, finished, put, State, started,
  merge_loop, role, Step, enqueue, take, acquire, commit_group, signal, return, wake, Reaches,
  at_start, after,
}

abbrev pub In : ℕ → List ℕ → Type 0
In t [] = ⊥
In t (u ∷ us) = (u ≡ t) ⊎ In t us

-- In a group of the log.
abbrev pub Committed : {T : Type 0} → List (List ℕ × T) → ℕ → Type 0
Committed [] t = ⊥
Committed (g ∷ log) t = In t g.0 ⊎ Committed log t

abbrev AllCommitted : {T : Type 0} → List (List ℕ × T) → List ℕ → Type 0
AllCommitted log [] = Unit
AllCommitted log (d ∷ ds) = Committed log d × AllCommitted log ds

abbrev pub Leads : ℕ → List ℕ → Type 0
Leads t [] = ⊥
Leads t (u ∷ us) = u ≡ t

-- What a thread's stage says of the queue and of the log.
abbrev Fits : {T : Type 0} → List ℕ → List (List ℕ × T) → ℕ → Stage → Type 0
Fits queue log t idle = Unit
Fits queue log t following = Unit
Fits queue log t leading = Leads t queue
Fits queue log t (merging q) = Leads t q
Fits queue log t (holding q) = Leads t q
Fits queue log t (signalling n ds) = Committed log t × AllCommitted log ds
Fits queue log t (finished n) = Committed log t

module _ {T : Type 0} (merge_func : T → T → T) (data_of : ℕ → T) where
  record Inv (s : State merge_func data_of) : Type 0 where
    stages_fit : (t : ℕ) → Fits s.queue s.log t (s.stage t)
    events_fit : (t : ℕ) → s.event t ≡ true → Committed s.log t

  AllCommitted-self :
      (g : List ℕ) (v : T) (log : List (List ℕ × T)) (ds : List ℕ)
      → ((d : ℕ) → In d ds → In d g)
      → AllCommitted ((g, v) ∷ log) ds
  AllCommitted-self g v log [] h = tt
  AllCommitted-self g v log (d ∷ ds) h =
      (inl (h d (inl refl)), AllCommitted-self g v log ds (λ e i. h e (inr i)))

  AllCommitted-more :
      (g : List ℕ × T) (log : List (List ℕ × T)) (ds : List ℕ)
      → AllCommitted log ds
      → AllCommitted (g ∷ log) ds
  AllCommitted-more g log [] a = tt
  AllCommitted-more g log (d ∷ ds) a = (inr a.0, AllCommitted-more g log ds a.1)

  Fits-more :
      (queue : List ℕ) (g : List ℕ × T) (log : List (List ℕ × T)) (t : ℕ) (st : Stage)
      → Fits queue log t st
      → Fits queue (g ∷ log) t st
  Fits-more queue g log t idle f = tt
  Fits-more queue g log t following f = tt
  Fits-more queue g log t leading f = f
  Fits-more queue g log t (merging q) f = f
  Fits-more queue g log t (holding q) f = f
  Fits-more queue g log t (signalling n ds) f = (inr f.0, AllCommitted-more g log ds f.1)
  Fits-more queue g log t (finished n) f = inr f

  -- Changing the stage of one thread.
  put-Fits :
      (queue : List ℕ) (log : List (List ℕ × T)) (stage : ℕ → Stage) (t : ℕ) (st : Stage)
      → Fits queue log t st
      → ((u : ℕ) → (u == t) ≡ false → Fits queue log u (stage u))
      → (u : ℕ) → Fits queue log u (put t st stage u)
  put-Fits queue log stage t st f others u = elim (Bool-cases (u == t)) [
    | inl e ↦ rw e (subst (λ v. Fits queue log v st) (sym ((==_iff u t).0 e)) f)
    | inr e ↦ rw e (others u e)
  ]

  Leads-append : (u t : ℕ) (queue : List ℕ) → Leads u queue → Leads u (queue ++ t ∷ [])
  Leads-append u t [] l = absurd l
  Leads-append u t (v ∷ vs) l = l

  Fits-append :
      (queue : List ℕ) (log : List (List ℕ × T)) (t u : ℕ) (st : Stage)
      → Fits queue log u st
      → Fits (queue ++ t ∷ []) log u st
  Fits-append queue log t u idle f = tt
  Fits-append queue log t u following f = tt
  Fits-append queue log t u leading f = Leads-append u t queue f
  Fits-append queue log t u (merging q) f = f
  Fits-append queue log t u (holding q) f = f
  Fits-append queue log t u (signalling n ds) f = f
  Fits-append queue log t u (finished n) f = f

  role-Fits :
      (queue : List ℕ) (log : List (List ℕ × T)) (t : ℕ)
      → Fits (queue ++ t ∷ []) log t (role merge_func data_of queue)
  role-Fits [] log t = refl
  role-Fits (v ∷ vs) log t = tt

  Leads-one : (t u : ℕ) (queue : List ℕ) → Leads t queue → Leads u queue → u ≡ t
  Leads-one t u [] l m = absurd l
  Leads-one t u (v ∷ vs) l m = sym m ∙ l

  -- The leader is the only one, so another thread fits the empty queue.
  Fits-taken :
      (queue : List ℕ) (log : List (List ℕ × T)) (t u : ℕ) (st : Stage)
      → Leads t queue
      → (u == t) ≡ false
      → Fits queue log u st
      → Fits [] log u st
  Fits-taken queue log t u idle l n f = tt
  Fits-taken queue log t u following l n f = tt
  Fits-taken queue log t u leading l n f =
      let same : u ≡ t = Leads-one t u queue l f in
      let yes : (u == t) ≡ true = (==_iff u t).1 same in (let no = sym n ∙ yes in cc)
  Fits-taken queue log t u (merging q) l n f = f
  Fits-taken queue log t u (holding q) l n f = f
  Fits-taken queue log t u (signalling m ds) l n f = f
  Fits-taken queue log t u (finished m) l n f = f

  Inv-started : (n : ℕ) → Inv (started merge_func data_of n)
  Inv-started n = record { stages_fit = λ t. tt; events_fit = λ t e. cc }

  -- What is known of a thread at a known stage.
  at_stage :
      (s : State merge_func data_of)
      → Inv s
      → (t : ℕ) {st : Stage} → s.stage t ≡ st
      → Fits s.queue s.log t st
  at_stage s i t e = subst (Fits s.queue s.log t) e (i.stages_fit t)

  signalled :
      (s : State merge_func data_of) (d v : ℕ)
      → Committed s.log d
      → (s.event v ≡ true → Committed s.log v)
      → put d true s.event v ≡ true
      → Committed s.log v
  signalled s d v c old h = elim (Bool-cases (v == d)) [
    | inl e ↦ subst (Committed s.log) (sym ((==_iff v d).0 e)) c
    | inr e ↦ old (rw e at h)
  ]

  Inv-Step : (s u : State merge_func data_of) → Inv s → Step merge_func data_of s u → Inv u
  Inv-Step _ u i (enqueue t s e) = record {
    stages_fit =
        put-Fits (s.queue ++ t ∷ []) s.log s.stage t (role merge_func data_of s.queue)
          (role-Fits s.queue s.log t)
          (λ v n. Fits-append s.queue s.log t v (s.stage v) (i.stages_fit v));
    events_fit = i.events_fit;
  }
  Inv-Step _ u i (take t s e) = record {
    stages_fit =
        put-Fits [] s.log s.stage t (merging s.queue) (at_stage s i t e)
          (λ v n. Fits-taken s.queue s.log t v (s.stage v) (at_stage s i t e) n (i.stages_fit v));
    events_fit = i.events_fit;
  }
  Inv-Step _ u i (acquire t permits q s e p) = record {
    stages_fit =
        put-Fits s.queue s.log s.stage t (holding q) (at_stage s i t e) (λ v n. i.stages_fit v);
    events_fit = i.events_fit;
  }
  Inv-Step _ u i (commit_group t first others s e) =
      let g : List ℕ × T = (first ∷ others, merge_loop merge_func data_of (data_of first) others) in
      record {
        stages_fit =
            put-Fits s.queue (g ∷ s.log) s.stage t (signalling (suc (length others)) others)
              (inl (inl (at_stage s i t e)), AllCommitted-self g.0 g.1 s.log others (λ d h. inr h))
              (λ v n. Fits-more s.queue g s.log v (s.stage v) (i.stages_fit v));
        events_fit = λ v h. inr (i.events_fit v h);
      }
  Inv-Step _ u i (signal t commits d ds s e) =
      let known = at_stage s i t e in
      record {
        stages_fit =
            put-Fits s.queue s.log s.stage t (signalling commits ds) (known.0, known.1.1)
              (λ v n. i.stages_fit v);
        events_fit = λ v h. signalled s d v known.1.0 (i.events_fit v) h;
      }
  Inv-Step _ u i (return t commits s e) = record {
    stages_fit =
        put-Fits s.queue s.log s.stage t (finished commits) (at_stage s i t e).0
          (λ v n. i.stages_fit v);
    events_fit = i.events_fit;
  }
  Inv-Step _ u i (wake t s e h) = record {
    stages_fit =
        put-Fits s.queue s.log s.stage t (finished 0) (i.events_fit t h) (λ v n. i.stages_fit v);
    events_fit = i.events_fit;
  }

  Inv-Reaches : (n : ℕ) (s : State merge_func data_of) → Reaches merge_func data_of n s → Inv s
  Inv-Reaches n s at_start = Inv-started n
  Inv-Reaches n s (after {s = r} before step) = Inv-Step r s (Inv-Reaches n r before) step

  -- In every state that the threads reach, a thread whose call has returned is in a group that was given
  -- to `commit_func`, as the leader or as a follower.
  pub finished-Committed :
      (n : ℕ) (s : State merge_func data_of) (t commits : ℕ)
      → Reaches merge_func data_of n s
      → s.stage t ≡ finished commits
      → Committed s.log t
  finished-Committed n s t commits r e = at_stage s (Inv-Reaches n s r) t e

  -- At most one thread is the leader of the queue, and its event is the first there.
  leading-first :
      (n : ℕ) (s : State merge_func data_of) (t u : ℕ)
      → Reaches merge_func data_of n s
      → s.stage t ≡ leading
      → s.stage u ≡ leading
      → (u ≡ t) × Leads t s.queue
  leading-first n s t u r e f =
      let i = Inv-Reaches n s r in
      (Leads-one t u s.queue (at_stage s i t e) (at_stage s i u f), at_stage s i t e)
