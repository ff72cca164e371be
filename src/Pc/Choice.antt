-- ===== src/Pc/Choice.antt =====
-- Which task runs next.
use os_final_program.Base.{
  ℕ, ◌≤◌, ◌<◌, ◌≡◌, ◌≢◌, true, false, Option, none, some, List, [], ◌∷◌, ◌++◌, contains,
}
use os_final_program.Pc.Queues.{Task, Procs, s_ready}
use os_final_program.Pc.Scheduler.{task_behind, Next, list_head}

-- No task of the list is ready.
abbrev pub NoneReady : (ℕ → Task) → List ℕ → Type 0
NoneReady f ts = (t : ℕ) → contains ts t ≡ true → (f t).state ≢ s_ready

-- The first ready task of a list, or none if no task is ready.
Finds : (ℕ → Task) → List ℕ → Option ℕ → Type 0
Finds f ts none = NoneReady f ts
Finds f ts (some t) = (contains ts t ≡ true) × ((f t).state ≡ s_ready)

-- A ready task of the first background level that has one, or none if no background task is ready.
pub data BestReady (s : Procs) : Option ℕ → Type 0 where
  on_level :
      (i t : ℕ)
      → 1 ≤ i
      → i ≤ 3
      → contains (s.back i) t ≡ true
      → (s.task t).state ≡ s_ready
      → ((j : ℕ) → 1 ≤ j → j < i → NoneReady s.task (s.back j))
      → BestReady s (some t)
  no_level : ((j : ℕ) → 1 ≤ j → j ≤ 3 → NoneReady s.task (s.back j)) → BestReady s none

-- Where a task stands on a list, and what its node leads to.
data Behind (c : ℕ) (ts : List ℕ) : Next → Type 0 where
  followed :
      (before after : List ℕ) (t : ℕ)
      → ts ≡ before ++ (c ∷ t ∷ after)
      → contains before c ≡ false
      → Behind c ts (task_behind t)
  at_end :
      (before : List ℕ)
      → ts ≡ before ++ (c ∷ [])
      → contains before c ≡ false
      → Behind c ts list_head
  nowhere : contains ts c ≡ false → Behind c ts (task_behind c)

-- What may run after the current task of the foreground: the task behind it on the queue; behind the last
-- one, a ready task of the first background level that has one, or, with no ready task in the
-- background, the task at the head of the queue; and the current task itself if it is not on the
-- queue.
pub data RunsAfter (s : Procs) : Option ℕ → Type 0 where
  runs_behind :
      (before after : List ℕ) (t : ℕ)
      → s.sched ≡ before ++ (s.current ∷ t ∷ after)
      → contains before s.current ≡ false
      → RunsAfter s (some t)
  runs_best :
      (before : List ℕ) (t : ℕ)
      → s.sched ≡ before ++ (s.current ∷ [])
      → contains before s.current ≡ false
      → BestReady s (some t)
      → RunsAfter s (some t)
  runs_head :
      (before rest : List ℕ) (h : ℕ)
      → s.sched ≡ before ++ (s.current ∷ [])
      → contains before s.current ≡ false
      → BestReady s none
      → s.sched ≡ h ∷ rest
      → RunsAfter s (some h)
  runs_again : contains s.sched s.current ≡ false → RunsAfter s (some s.current)
