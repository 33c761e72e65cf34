-- ===== src/Workers/Progress.antt =====
-- Every schedule ends, and only when no goroutine is left.
use cloud_profile_sync.Common.{
  ℕ, ◌+◌, ◌*◌, ◌≤◌, ◌<◌, ◌≡◌, refl, ap, ◌⊎◌, inl, inr, List, [], ◌∷◌, length, length-append, arith,
}
use cloud_profile_sync.Workers.{
  Pool, weigh, started, held, Setting, Work, Step, Run, acquire, give_up, finish, send, receive,
  hand_over, work, take, here, next,
}
use cloud_profile_sync.Workers.Account.{length-middle, Run-total, taken}
use cloud_profile_sync.Workers.Outcome.{IsDone}

abbrev one {ℓ} : {A : Type ℓ} → A → ℕ
one _ = 1

weigh-one {ℓ} : {A : Type ℓ} (xs : List A) → weigh one xs ≡ length xs
weigh-one [] = refl
weigh-one (x ∷ xs) = omega (arith, weigh-one xs)

List-cases {ℓ} :
    {A : Type ℓ} (xs : List A) → (xs ≡ []) ⊎ ((x : A) × (rest : List A) × (xs ≡ x ∷ rest))
List-cases [] = inl refl
List-cases (x ∷ xs) = inr (x, xs, refl)

module _ {Job Answer : Type 0} where
  -- How many steps there can be at most.
  abbrev pub steps_left : Pool Job Answer → ℕ
  steps_left s =
      4 * length s.waiting + 3 * length s.running + 2 * length s.sending + length s.buffer

module _ {Job Answer : Type 0} (c : Setting Job Answer) where
  Step-steps_left : {s t : Pool Job Answer} → Step c s t → steps_left t < steps_left s
  Step-steps_left (work (acquire before after job e h p)) =
      rw p (omega (arith, ap length e, length-middle before after job))
  Step-steps_left (work (give_up before after job answer e h p)) =
      rw p (omega (arith, ap length e, length-middle before after job))
  Step-steps_left (work (finish before after job e p)) =
      rw p (omega (arith, ap length e, length-middle before after job))
  Step-steps_left {s} (work (send before after m e h p)) =
      rw p
        (omega (arith, ap length e, length-middle before after m, length-append s.buffer (m ∷ [])))
  Step-steps_left (take (receive m rest e p)) = rw p (omega (arith, ap length e))
  Step-steps_left (take (hand_over before after m _ e p)) =
      rw p (omega (arith, ap length e, length-middle before after m))

  -- A schedule has at most four steps for each job.
  Run-bounded : {n : ℕ} {s t : Pool Job Answer} → Run c n s t → n + steps_left t ≤ steps_left s
  Run-bounded here = omega arith
  Run-bounded (next r st) = omega (arith, Run-bounded r, Step-steps_left st)

  -- Unless all is done, a step is possible.
  Step_or_IsDone :
      0 < c.parallel → (s : Pool Job Answer) → ((t : Pool Job Answer) × Step c s t) ⊎ IsDone c s
  Step_or_IsDone h s = elim (List-cases s.buffer) [
    | inr (m, rest, e) ↦ inl (_, take (receive m rest e refl))
    | inl b ↦ elim (List-cases s.sending) [
      | inr (m, rest, e) ↦ inl (_, take (hand_over [] rest m b e refl))
      | inl d ↦ elim (List-cases s.running) [
        | inr (j, rest, e) ↦ inl (_, work (finish [] rest j e refl))
        | inl r ↦ elim (List-cases s.waiting) [
          | inr (j, rest, e) ↦
              let free : held s < c.parallel =
                omega (arith, h, ap length r, ap (weigh (taken c)) d) in
              inl (_, work (acquire [] rest j e free refl))
          | inl w ↦ inr (w, r, d, b)
        ]
      ]
    ]
  ]

  -- If the semaphore's weight is positive, then a schedule has at most four steps for each job, and
  -- it cannot get stuck: a step is possible until no goroutine is left and the channel is empty.
  pub schedules_end :
      0 < c.parallel
      → {n : ℕ} (jobs : List Job) (s : Pool Job Answer) → Run c n (started jobs) s
      → (n ≤ 4 * length jobs) × (((t : Pool Job Answer) × Step c s t) ⊎ IsDone c s)
  schedules_end h jobs s r = (omega (arith, Run-bounded r), Step_or_IsDone h s)

  -- With a channel that has room for all jobs, no goroutine waits for the loop that receives: as
  -- long as one is left, a goroutine can make a step, also if the loop has stopped.
  pub senders_never_wait :
      0 < c.parallel
      → {n : ℕ} (jobs : List Job) (s : Pool Job Answer) → length jobs ≤ c.capacity
      → Run c n (started jobs) s
      → ((t : Pool Job Answer) × Work c s t)
        ⊎ ((s.waiting ≡ []) × (s.running ≡ []) × (s.sending ≡ []))
  senders_never_wait h jobs s room r = elim (List-cases s.sending) [
    | inr (m, rest, e) ↦
        let free : length s.buffer < c.capacity = omega (
          arith,
          room,
          Run-total c one r,
          ap length e,
          weigh-one s.sending,
          weigh-one s.buffer,
          weigh-one jobs,
        ) in
        inl (_, send [] rest m e free refl)
    | inl d ↦ elim (List-cases s.running) [
      | inr (j, rest, e) ↦ inl (_, finish [] rest j e refl)
      | inl q ↦ elim (List-cases s.waiting) [
        | inr (j, rest, e) ↦
            let free : held s < c.parallel =
              omega (arith, h, ap length q, ap (weigh (taken c)) d) in
            inl (_, acquire [] rest j e free refl)
        | inl w ↦ inr (w, q, d)
      ]
    ]
  ]
