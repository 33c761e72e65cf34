-- ===== src/Workers.antt =====
-- The goroutines of the two `GetVersions`, in cloudprofilesync/ossync/source/oci/os_source.go and
-- glance/os_source.go: one for each tag or region, behind a weighted semaphore, with a channel to
-- the loop that receives. Scheduling is a relation: any goroutine may make the next step.
pub mod Account
pub mod Outcome
pub mod Progress
use cloud_profile_sync.Common.{
  ℕ, zero, suc, ◌+◌, ◌<◌, ◌≡◌, Bool, true, false, List, [], ◌∷◌, ◌++◌, length,
}

-- The sum of the weights of a list's elements.
abbrev pub weigh {ℓ} : {A : Type ℓ} → (A → ℕ) → List A → ℕ
weigh f [] = 0
weigh f (x ∷ xs) = f x + weigh f xs

module _ (Job Answer : Type 0) where
  -- What a goroutine sends, with the job that it is for, which the program does not send.
  pub record Message : Type 0 where
    pub job : Job
    pub answer : Answer
    -- whether the sender holds the semaphore until it has sent
    pub holds : Bool

  pub record Pool : Type 0 where
    -- wait in `Acquire`
    pub waiting : List Job
    -- hold the semaphore and call
    pub running : List Job
    -- wait for the channel
    pub sending : List Message
    -- the channel's content, the oldest first
    pub buffer : List Message
    -- what the loop has received, in its order
    pub received : List Message

module _ {Job Answer : Type 0} where
  -- After the loop that starts the goroutines.
  abbrev pub started : List Job → Pool Job Answer
  started jobs = record { waiting = jobs; running = []; sending = []; buffer = []; received = [] }

  abbrev pub holders : List (Message Job Answer) → ℕ
  holders = weigh (λ m. elim m.holds [ true ↦ 1 | false ↦ 0 ])

  -- How much of the semaphore is taken.
  abbrev pub held : Pool Job Answer → ℕ
  held s = length s.running + holders s.sending

-- `parallel` is the semaphore's weight and `capacity` the channel's; `work` is what a job's calls
-- come to, and `IsRefusal` holds of what is sent when `Acquire` gives up.
pub record Setting (Job Answer : Type 0) : Type 1 where
  pub parallel : ℕ
  pub capacity : ℕ
  pub work : Job → Answer
  pub IsRefusal : Answer → Type 0

module _ {Job Answer : Type 0} (c : Setting Job Answer) where
  -- A step of a goroutine.
  pub data Work (s : Pool Job Answer) : Pool Job Answer → Type 0 where
    acquire :
        (before after : List Job) (job : Job) {t : Pool Job Answer}
        → s.waiting ≡ before ++ job ∷ after
        → held s < c.parallel
        → t ≡ record s { waiting = before ++ after; running = job ∷ s.running }
        → Work s t
    give_up :
        (before after : List Job) (job : Job) (answer : Answer) {t : Pool Job Answer}
        → s.waiting ≡ before ++ job ∷ after
        → c.IsRefusal answer
        → t ≡ record s {
          waiting = before ++ after;
          sending = record { job = job; answer = answer; holds = false } ∷ s.sending;
        }
        → Work s t
    finish :
        (before after : List Job) (job : Job) {t : Pool Job Answer}
        → s.running ≡ before ++ job ∷ after
        → t ≡ record s {
          running = before ++ after;
          sending = record { job = job; answer = c.work job; holds = true } ∷ s.sending;
        }
        → Work s t
    send :
        (before after : List (Message Job Answer)) (m : Message Job Answer) {t : Pool Job Answer}
        → s.sending ≡ before ++ m ∷ after
        → length s.buffer < c.capacity
        → t ≡ record s { sending = before ++ after; buffer = s.buffer ++ m ∷ [] }
        → Work s t

  -- A step of the loop that receives: from the buffer, or from a sender if that is empty.
  pub data Take (s : Pool Job Answer) : Pool Job Answer → Type 0 where
    receive :
        (m : Message Job Answer) (rest : List (Message Job Answer)) {t : Pool Job Answer}
        → s.buffer ≡ m ∷ rest
        → t ≡ record s { buffer = rest; received = s.received ++ m ∷ [] }
        → Take s t
    hand_over :
        (before after : List (Message Job Answer)) (m : Message Job Answer) {t : Pool Job Answer}
        → s.buffer ≡ []
        → s.sending ≡ before ++ m ∷ after
        → t ≡ record s { sending = before ++ after; received = s.received ++ m ∷ [] }
        → Take s t

  pub data Step (s t : Pool Job Answer) : Type 0 where
    work : Work s t → Step s t
    take : Take s t → Step s t

  -- `Run n s t`: `n` steps lead from `s` to `t`.
  pub data Run : ℕ → Pool Job Answer → Pool Job Answer → Type 0 where
    here : {s : Pool Job Answer} → Run zero s s
    next : {n : ℕ} {s t u : Pool Job Answer} → Run n s t → Step t u → Run (suc n) s u
