-- ===== src/Workers/Account.antt =====
-- Where the jobs are, and how much of the semaphore is taken, whatever the schedule is.
use cloud_profile_sync.Common.{
  ℕ, suc, ◌+◌, ◌≤◌, ◌<◌, ◌≡◌, refl, sym, ap, ◌∙◌, Eq, ◌==◌, if◌then◌else◌, true, false, List, [],
  ◌∷◌, ◌++◌, length, arith,
}
use mathlib.Core.List.{Permᴰ}
use mathlib.Core.List.Permᴰ
use cloud_profile_sync.Workers.{
  Message, Pool, weigh, started, held, Setting, Work, Take, Step, Run, acquire, give_up, finish,
  send, receive, hand_over, work, take, here, next,
}

weigh-middle {ℓ} :
    {A : Type ℓ} (f : A → ℕ) (before after : List A) (x : A)
    → weigh f (before ++ x ∷ after) ≡ f x + weigh f (before ++ after)
weigh-middle f [] after x = refl
weigh-middle f (y ∷ before) after x = omega (arith, weigh-middle f before after x)

weigh-snoc {ℓ} :
    {A : Type ℓ} (f : A → ℕ) (xs : List A) (x : A) → weigh f (xs ++ x ∷ []) ≡ weigh f xs + f x
weigh-snoc f [] x = omega arith
weigh-snoc f (y ∷ xs) x = omega (arith, weigh-snoc f xs x)

pub length-middle {ℓ} :
    {A : Type ℓ} (before after : List A) (x : A)
    → length (before ++ x ∷ after) ≡ suc (length (before ++ after))
length-middle [] after x = refl
length-middle (y ∷ before) after x = ap suc (length-middle before after x)

module _ {Job Answer : Type 0} where
  -- The weight of all jobs, wherever they are.
  abbrev pub total : (Job → ℕ) → Pool Job Answer → ℕ
  total f s =
      weigh f s.waiting
      + weigh f s.running
      + weigh (λ (m : Message Job Answer). f m.job) s.sending
      + weigh (λ (m : Message Job Answer). f m.job) s.buffer
      + weigh (λ (m : Message Job Answer). f m.job) s.received

module _ {Job Answer : Type 0} (c : Setting Job Answer) where
  Work-total : (f : Job → ℕ) {s t : Pool Job Answer} → Work c s t → total f t ≡ total f s
  Work-total f {s} (acquire before after job e h p) =
      rw p (omega (arith, ap (weigh f) e, weigh-middle f before after job))
  Work-total f {s} (give_up before after job answer e h p) =
      rw p (omega (arith, ap (weigh f) e, weigh-middle f before after job))
  Work-total f {s} (finish before after job e p) =
      rw p (omega (arith, ap (weigh f) e, weigh-middle f before after job))
  Work-total f {s} (send before after m e h p) =
      let g = λ (n : Message Job Answer). f n.job in
      rw p (omega (arith, ap (weigh g) e, weigh-middle g before after m, weigh-snoc g s.buffer m))

  Take-total : (f : Job → ℕ) {s t : Pool Job Answer} → Take c s t → total f t ≡ total f s
  Take-total f {s} (receive m rest e p) =
      let g = λ (n : Message Job Answer). f n.job in
      rw p (omega (arith, ap (weigh g) e, weigh-snoc g s.received m))
  Take-total f {s} (hand_over before after m _ e p) =
      let g = λ (n : Message Job Answer). f n.job in
      rw p (omega (arith, ap (weigh g) e, weigh-middle g before after m, weigh-snoc g s.received m))

  Step-total : (f : Job → ℕ) {s t : Pool Job Answer} → Step c s t → total f t ≡ total f s
  Step-total f (work w) = Work-total f w
  Step-total f (take w) = Take-total f w

  -- No job is lost and none comes twice: the weight of all jobs stays the same.
  pub Run-total :
      (f : Job → ℕ) {n : ℕ} {s t : Pool Job Answer} → Run c n s t → total f t ≡ total f s
  Run-total f here = refl
  Run-total f (next r st) = Step-total f st ∙ Run-total f r

  abbrev pub taken : Message Job Answer → ℕ
  taken m = elim m.holds [ true ↦ 1 | false ↦ 0 ]

  Step-held : {s t : Pool Job Answer} → Step c s t → held s ≤ c.parallel → held t ≤ c.parallel
  Step-held {s} (work (acquire before after job e h p)) b = rw p (omega (arith, h))
  Step-held {s} (work (give_up before after job answer e h p)) b = rw p (omega (arith, b))
  Step-held {s} (work (finish before after job e p)) b =
      rw p (omega (arith, b, ap length e, length-middle before after job))
  Step-held {s} (work (send before after m e h p)) b =
      rw p (omega (arith, b, ap (weigh taken) e, weigh-middle taken before after m))
  Step-held {s} (take (receive m rest e p)) b = rw p b
  Step-held {s} (take (hand_over before after m _ e p)) b =
      rw p (omega (arith, b, ap (weigh taken) e, weigh-middle taken before after m))

  Run-held :
      {n : ℕ} {s t : Pool Job Answer} → Run c n s t → held s ≤ c.parallel → held t ≤ c.parallel
  Run-held here b = b
  Run-held (next r st) b = Step-held st (Run-held r b)

  -- Whatever the schedule, at most as many goroutines call at a time as the semaphore's weight.
  pub calls_bounded :
      {n : ℕ} (jobs : List Job) (t : Pool Job Answer)
      → Run c n (started jobs) t
      → length t.running ≤ c.parallel
  calls_bounded jobs t r = omega (arith, Run-held r (omega arith))

-- Lists that weigh the same for all weights have the same elements, as often.
module _ {ℓ} {A : Type ℓ} ⦃e : Eq A⦄ where
  abbrev one_of : A → A → ℕ
  one_of x y = if x == y then 1 else 0

  split_at :
      (x : A) (ys : List A)
      → 0 < weigh (one_of x) ys
      → (before : List A) × (after : List A) × (ys ≡ before ++ x ∷ after)
  split_at x [] h = absurd (omega arith)
  split_at x (y ∷ ys) h = elim (e.dec x y) [
    | yes p ↦ ([], ys, ap (λ z. z ∷ ys) (sym p))
    | no n ↦
        let (before, after, q) = split_at x ys (ground (arith, h)) in
        (y ∷ before, after, ap (◌∷◌ y) q)
  ]

  pub Permᴰ_of_weigh : (xs ys : List A) → ((f : A → ℕ) → weigh f xs ≡ weigh f ys) → Permᴰ xs ys
  Permᴰ_of_weigh [] [] h = Permᴰ.nil
  Permᴰ_of_weigh [] (y ∷ ys) h = absurd (omega (arith, h (λ _. 1)))
  Permᴰ_of_weigh (x ∷ xs) ys h =
      let found : 0 < weigh (one_of x) ys = ground (arith, h (one_of x)) in
      let (before, after, q) = split_at x ys found in
      let rest : (f : A → ℕ) → weigh f xs ≡ weigh f (before ++ after) =
        λ f. omega (arith, h f, ap (weigh f) q, weigh-middle f before after x) in
      rw q (
        Permᴰ.trans (Permᴰ.cons refl (Permᴰ_of_weigh xs (before ++ after) rest))
          (Permᴰ.symm (Permᴰ.middle x before after)))
