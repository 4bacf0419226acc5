-- ===== src/GroupCommit/Steps.antt =====
-- The steps of the threads in `GroupCommit.commit`. A section under `queue_lock` is one step; a thread
-- is a number and calls `commit` once, with its own data; the functions given to the class are
-- parameters. The log has the calls of `commit_func`, the last one first.
use code_recipes.Common.{
  ℕ, suc, ◌≡◌, Bool, true, false, ◌==◌, if◌then◌else◌, List, [], ◌∷◌, ◌++◌, length,
}

-- Where a thread is in `commit`: before it, waiting for its event, asleep as the leader, with a group
-- it took, with the semaphore, setting the events of a group that was committed, or back with a value.
pub data Stage : Type 0 where
  idle following leading : Stage
  merging holding : List ℕ → Stage
  signalling : ℕ → List ℕ → Stage
  finished : ℕ → Stage

abbrev pub put : {A : Type 0} → ℕ → A → (ℕ → A) → ℕ → A
put t a f u = if u == t then a else f u

module _ {T : Type 0} (merge_func : T → T → T) (data_of : ℕ → T) where
  pub record State : Type 0 where
    pub queue : List ℕ
    pub stage : ℕ → Stage
    pub event : ℕ → Bool
    pub permits : ℕ
    pub log : List (List ℕ × T)

  abbrev pub started : ℕ → State
  started max_concurrent_commits = record {
    queue = [];
    stage = λ t. idle;
    event = λ t. false;
    permits = max_concurrent_commits;
    log = [];
  }

  -- `for d in q[1:]: merged = self.merge_func(merged, d.get_data())`
  abbrev pub merge_loop : T → List ℕ → T
  merge_loop merged [] = merged
  merge_loop merged (d ∷ ds) = merge_loop (merge_func merged (data_of d)) ds

  abbrev pub role : List ℕ → Stage
  role [] = leading
  role (u ∷ us) = following

  pub data Step : State → State → Type 0 where
    enqueue :
        (t : ℕ) (s : State)
        → s.stage t ≡ idle
        → Step s (record s { queue = s.queue ++ t ∷ []; stage = put t (role s.queue) s.stage })
    take :
        (t : ℕ) (s : State)
        → s.stage t ≡ leading
        → Step s (record s { queue = []; stage = put t (merging s.queue) s.stage })
    acquire :
        (t permits : ℕ) (q : List ℕ) (s : State)
        → s.stage t ≡ merging q
        → s.permits ≡ suc permits
        → Step s (record s { permits = permits; stage = put t (holding q) s.stage })
    commit_group :
        (t first : ℕ) (others : List ℕ) (s : State)
        → s.stage t ≡ holding (first ∷ others)
        → Step s (record s {
          permits = suc s.permits;
          log = (first ∷ others, merge_loop (data_of first) others) ∷ s.log;
          stage = put t (signalling (suc (length others)) others) s.stage;
        })
    signal :
        (t commits d : ℕ) (ds : List ℕ) (s : State)
        → s.stage t ≡ signalling commits (d ∷ ds)
        → Step s
            (record s { event = put d true s.event; stage = put t (signalling commits ds) s.stage })
    return :
        (t commits : ℕ) (s : State)
        → s.stage t ≡ signalling commits []
        → Step s (record s { stage = put t (finished commits) s.stage })
    wake :
        (t : ℕ) (s : State)
        → s.stage t ≡ following
        → s.event t ≡ true
        → Step s (record s { stage = put t (finished 0) s.stage })

  pub data Reaches (n : ℕ) : State → Type 0 where
    at_start : Reaches n (started n)
    after : {s t : State} → Reaches n s → Step s t → Reaches n t
