-- ===== src/Workers/Outcome.antt =====
-- What the loop has received when no goroutine is left.
use mathlib.Core.Path.{ap₂}
use mathlib.Core.List.{Permᴰ}
use cloud_profile_sync.Common.{
  ℕ, ◌+◌, ◌≡◌, refl, sym, ap, subst, ◌⊎◌, inl, inr, Eq, List, [], ◌∷◌, ◌++◌, map, All, arith,
}
use cloud_profile_sync.Workers.{
  Message, Pool, weigh, started, Setting, Step, Run, acquire, give_up, finish, send, receive,
  hand_over, work, take, here, next,
}
use cloud_profile_sync.Workers.Account.{Run-total, Permᴰ_of_weigh}

module _ {ℓ κ} {A : Type ℓ} (P : A → Type κ) where
  All-middle :
      (before after : List A) (x : A) → All P (before ++ x ∷ after) → P x × All P (before ++ after)
  All-middle [] after x h = h
  All-middle (y ∷ before) after x (p, h) = let (q, k) = All-middle before after x h in (q, (p, k))

  All-snoc : (xs : List A) (x : A) → All P xs → P x → All P (xs ++ x ∷ [])
  All-snoc [] x h p = (p, tt)
  All-snoc (y ∷ xs) x (q, h) p = (q, All-snoc xs x h p)

module _ {Job Answer : Type 0} (c : Setting Job Answer) where
  -- A message brings what its job's calls come to, or a refusal.
  abbrev pub IsSound : Message Job Answer → Type 0
  IsSound m = (m.answer ≡ c.work m.job) ⊎ c.IsRefusal m.answer

  abbrev pub AllSound : Pool Job Answer → Type 0
  AllSound s = All IsSound s.sending × All IsSound s.buffer × All IsSound s.received

  Step-AllSound : {s t : Pool Job Answer} → Step c s t → AllSound s → AllSound t
  Step-AllSound (work (acquire before after job e h p)) k = rw p k
  Step-AllSound (work (give_up before after job answer e h p)) (a, b, d) = rw p ((inr h, a), b, d)
  Step-AllSound (work (finish before after job e p)) (a, b, d) = rw p ((inl refl, a), b, d)
  Step-AllSound {s} (work (send before after m e h p)) (a, b, d) =
      let (q, rest) = All-middle IsSound before after m (subst (All IsSound) e a) in
      rw p (rest, All-snoc IsSound s.buffer m b q, d)
  Step-AllSound {s} (take (receive m rest e p)) (a, b, d) =
      let (q, b') = subst (All IsSound) e b in rw p (a, b', All-snoc IsSound s.received m d q)
  Step-AllSound {s} (take (hand_over before after m _ e p)) (a, b, d) =
      let (q, rest) = All-middle IsSound before after m (subst (All IsSound) e a) in
      rw p (rest, b, All-snoc IsSound s.received m d q)

  Run-AllSound : {n : ℕ} {s t : Pool Job Answer} → Run c n s t → AllSound s → AllSound t
  Run-AllSound here k = k
  Run-AllSound (next r st) k = Step-AllSound st (Run-AllSound r k)

  -- No goroutine is left, and the channel is empty.
  abbrev pub IsDone : Pool Job Answer → Type 0
  IsDone s = (s.waiting ≡ []) × (s.running ≡ []) × (s.sending ≡ []) × (s.buffer ≡ [])

  abbrev pub jobs_of : List (Message Job Answer) → List Job
  jobs_of = map (λ m. m.job)

  abbrev pub answers_of : List (Message Job Answer) → List Answer
  answers_of = map (λ m. m.answer)

  weigh-jobs_of :
      (f : Job → ℕ) (ms : List (Message Job Answer))
      → weigh f (jobs_of ms) ≡ weigh (λ m. f m.job) ms
  weigh-jobs_of f [] = refl
  weigh-jobs_of f (m ∷ ms) = ap (λ k. f m.job + k) (weigh-jobs_of f ms)

  abbrev IsAnswer : Message Job Answer → Type 0
  IsAnswer m = ¬ c.IsRefusal m.answer

  answers-map_work :
      (ms : List (Message Job Answer))
      → All IsSound ms
      → All IsAnswer ms
      → answers_of ms ≡ map c.work (jobs_of ms)
  answers-map_work [] _ _ = refl
  answers-map_work (m ∷ ms) (inl e, k) (_, n) = ap₂ ◌∷◌ e (answers-map_work ms k n)
  answers-map_work (m ∷ ms) (inr r, k) (n, _) = absurd (n r)

  map-Permᴰ : (xs ys : List Job) → Permᴰ xs ys → Permᴰ (map c.work xs) (map c.work ys)
  map-Permᴰ _ _ Permᴰ.nil = Permᴰ.nil
  map-Permᴰ _ _ (Permᴰ.cons {l₁ = l} {l₂ = m} e p) = Permᴰ.cons (ap c.work e) (map-Permᴰ l m p)
  map-Permᴰ _ _ (Permᴰ.swap e d) = Permᴰ.swap (ap c.work e) (ap c.work d)
  map-Permᴰ xs ys (Permᴰ.trans {l₂ = zs} p q) = Permᴰ.trans (map-Permᴰ xs zs p) (map-Permᴰ zs ys q)

  module _ ⦃e : Eq Job⦄ where
    -- When all is done, the loop has received one message for each job.
    pub received-Permᴰ :
        {n : ℕ} (jobs : List Job) (s : Pool Job Answer)
        → Run c n (started jobs) s
        → IsDone s
        → Permᴰ jobs (jobs_of s.received)
    received-Permᴰ jobs s r (w, x, y, z) = Permᴰ_of_weigh jobs (jobs_of s.received) λ f.
        let g = λ (m : Message Job Answer). f m.job in
        omega (
          arith,
          Run-total c f r,
          ap (weigh f) w,
          ap (weigh f) x,
          ap (weigh g) y,
          ap (weigh g) z,
          weigh-jobs_of f s.received,
        )

    -- When all is done, the loop has received one message for each job; a message brings what its
    -- job's calls come to, or a refusal. Without a refusal what it has received is therefore what
    -- the jobs' calls come to, in some order.
    pub received_answers :
        {n : ℕ} (jobs : List Job) (s : Pool Job Answer)
        → Run c n (started jobs) s
        → IsDone s
        → Permᴰ jobs (jobs_of s.received)
          × All IsSound s.received
          × (All IsAnswer s.received → Permᴰ (map c.work jobs) (answers_of s.received))
    received_answers jobs s r d =
        let p = received-Permᴰ jobs s r d in
        let sound = (Run-AllSound r (tt, tt, tt)).2 in
        (
          p,
          sound,
          λ no_refusal.
              subst (Permᴰ (map c.work jobs)) (sym (answers-map_work s.received sound no_refusal))
                (map-Permᴰ jobs (jobs_of s.received) p),
        )
