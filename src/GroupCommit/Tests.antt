-- ===== src/GroupCommit/Tests.antt =====
-- Two threads that commit as one group, with addition as the merge.
use code_recipes.Common.{ℕ, ◌+◌, refl, true, [], ◌∷◌}
use code_recipes.GroupCommit.Steps.{
  idle, following, leading, merging, holding, signalling, finished, put, State, started, enqueue,
  take, acquire, commit_group, signal, wake, Reaches, at_start, after,
}
use code_recipes.GroupCommit.Safety.{Committed, finished-Committed}

abbrev add : ℕ → ℕ → ℕ
add a b = a + b

abbrev own : ℕ → ℕ
own t = t

abbrev Threads : Type 0
Threads = State add own

abbrev queued : Threads
queued = record (started add own 1) {
  queue = 4 ∷ 5 ∷ [];
  stage = put 5 following (put 4 leading (λ t. idle));
}

queued-Reaches : Reaches add own 1 queued
queued-Reaches = after (after at_start (enqueue 4 (started add own 1) refl)) (
    enqueue 5 (record (started add own 1) { queue = 4 ∷ []; stage = put 4 leading (λ t. idle) })
      refl)

abbrev taken : Threads
taken = record queued { queue = []; stage = put 4 (merging (4 ∷ 5 ∷ [])) queued.stage }

abbrev held : Threads
held = record taken { permits = 0; stage = put 4 (holding (4 ∷ 5 ∷ [])) taken.stage }

abbrev done : Threads
done = record held {
  permits = 1;
  log = (4 ∷ 5 ∷ [], 9) ∷ [];
  stage = put 4 (signalling 2 (5 ∷ [])) held.stage;
}

abbrev signalled : Threads
signalled = record done {
  event = put 5 true done.event;
  stage = put 4 (signalling 2 []) done.stage;
}

abbrev woken : Threads
woken = record signalled { stage = put 5 (finished 0) signalled.stage }

woken-Reaches : Reaches add own 1 woken
woken-Reaches =
    after
      (after
        (after
          (after (after queued-Reaches (take 4 queued refl))
            (acquire 4 0 (4 ∷ 5 ∷ []) taken refl refl))
          (commit_group 4 4 (5 ∷ []) held refl))
        (signal 4 2 5 [] done refl))
      (wake 5 signalled refl refl)

finished-Committed_example : Committed woken.log 5
finished-Committed_example = finished-Committed add own 1 woken 5 0 woken-Reaches refl
