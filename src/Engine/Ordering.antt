-- ===== src/Engine/Ordering.antt =====
-- The order in which one pass of the sync engine attempts the jobs.
use makera_cnc_controller.Base.{
  ◌≡◌, refl, ◌⊎◌, inl, inr, Bool, true, false, not, ◌&&◌, ◌||◌, none, some, List, [], ◌∷◌, arith,
  Bool-cases, All,
}
use makera_cnc_controller.Base.Text.{Text, text_eq}
use makera_cnc_controller.Store.{Job}
use makera_cnc_controller.Store.Commit.{World}
use makera_cnc_controller.Engine.{Engine, should_attempt, Fault, Reply, Attempt, blocked, ran}
use makera_cnc_controller.Engine.Drain.{
  first_reply, later_replies, Fate, held, waiting, unreached, attempted, job_touches_deferred_path,
  defer_job_paths, none_reached, drain_loop,
}

abbrev pub IsAttempted : Fate → Type 0
IsAttempted held = ⊥
IsAttempted waiting = ⊥
IsAttempted unreached = ⊥
IsAttempted (attempted a) = Unit {0}

-- The job was skipped for its backoff, or its attempt failed.
abbrev pub put_off : Fate → Bool
put_off held = false
put_off waiting = true
put_off unreached = false
put_off (attempted blocked) = false
put_off (attempted (ran none)) = false
put_off (attempted (ran (some f))) = true

-- The job names the path, as its source or as its destination; the empty destination is none.
abbrev pub names_path : Text → Job → Bool
names_path p k = text_eq k.path p || (not (text_eq k.dest_path []) && text_eq k.dest_path p)

-- Two jobs name a path in common.
abbrev pub share_path : Job → Job → Bool
share_path j k = names_path j.path k || (not (text_eq j.dest_path []) && names_path j.dest_path k)

-- Behind each job that was put off no job that shares a path with it was attempted.
abbrev pub KeepsBehind : List (Job × Fate) → Type 0
KeepsBehind [] = Unit {0}
KeepsBehind ((j, fate) ∷ rest) =
    (put_off fate ≡ true
      → All (λ (p : Job × Fate). share_path j p.0 ≡ true → ¬ IsAttempted p.1) rest)
    × KeepsBehind rest

-- No job that touches the paths was attempted.
abbrev pub Spares : List Text → List (Job × Fate) → Type 0
Spares deferred fates =
    All (λ (p : Job × Fate). job_touches_deferred_path p.0 deferred ≡ true → ¬ IsAttempted p.1)
      fates

touches-append :
    (k j : Job) (ds : List Text)
    → job_touches_deferred_path k ds ≡ true
    → job_touches_deferred_path k (defer_job_paths j ds) ≡ true
unfolding job_touches_deferred_path defer_job_paths
touches-append k j ds h = ground arith

pub touches-share :
    (k j : Job) (ds : List Text)
    → share_path j k ≡ true
    → job_touches_deferred_path k (defer_job_paths j ds) ≡ true
unfolding job_touches_deferred_path defer_job_paths
touches-share k j ds h = ground arith

pub Spares-none : (ds : List Text) (js : List Job) → Spares ds (none_reached js)
Spares-none ds [] = tt
Spares-none ds (j ∷ js) = ((λ h. λ a. a), Spares-none ds js)

KeepsBehind-none : (js : List Job) → KeepsBehind (none_reached js)
KeepsBehind-none [] = tt
KeepsBehind-none (j ∷ js) = ((λ h. cc), KeepsBehind-none js)

pub Attempt-cases :
    (a : Attempt) → (a ≡ blocked) ⊎ ((a ≡ ran none) ⊎ ((f : Fault) × (a ≡ ran (some f))))
Attempt-cases blocked = inl refl
Attempt-cases (ran none) = inr (inl refl)
Attempt-cases (ran (some f)) = inr (inr (f, refl))

pub Spares-defer :
    (j : Job) (ds : List Text) (fates : List (Job × Fate))
    → Spares (defer_job_paths j ds) fates
    → Spares ds fates
Spares-defer j ds [] s = tt
Spares-defer j ds ((k, fate) ∷ fates) s =
    ((λ t. s.0 (touches-append k j ds t)), Spares-defer j ds fates s.1)

Spares-share :
    (j : Job) (ds : List Text) (fates : List (Job × Fate))
    → Spares (defer_job_paths j ds) fates
    → All (λ (p : Job × Fate). share_path j p.0 ≡ true → ¬ IsAttempted p.1) fates
Spares-share j ds [] s = tt
Spares-share j ds ((k, fate) ∷ fates) s =
    ((λ t. s.0 (touches-share k j ds t)), Spares-share j ds fates s.1)

module _ (run : World → Job → Reply → World × Attempt) (e : Engine) where
  pub drain-Spares :
      (w : World) (ds : List Text) (js : List Job) (rs : List Reply)
      → Spares ds (drain_loop run e w ds js rs).1
  unfolding drain_loop
  drain-Spares w ds [] rs = tt
  drain-Spares w ds (j ∷ js) rs = elim (Bool-cases (job_touches_deferred_path j ds)) [
    | inl t ↦ rw t ((λ h a. a), drain-Spares w ds js rs)
    | inr t ↦ elim (Bool-cases (should_attempt e w.clock j)) [
      | inl s ↦ elim (Attempt-cases (run w j (first_reply rs)).1) [
        | inl a ↦ rw (t, s, a) ((λ h. cc), Spares-none ds js)
        | inr (inl a) ↦
            rw (t, s, a)
              ((λ h. cc), drain-Spares (run w j (first_reply rs)).0 ds js (later_replies rs))
        | inr (inr (f, a)) ↦
            rw (t, s, a)
              (
                (λ h. cc),
                Spares-defer j ds _ (
                    drain-Spares (run w j (first_reply rs)).0 (defer_job_paths j ds) js
                      (later_replies rs)),
              )
      ]
      | inr s ↦
          rw (t, s) ((λ h a. a), Spares-defer j ds _ (drain-Spares w (defer_job_paths j ds) js rs))
    ]
  ]

  -- In one pass over any queue, from any store and with any replies, a job that is skipped for its
  -- backoff or whose attempt fails holds back every later job that names one of its paths.
  pub drain-KeepsBehind :
      (w : World) (ds : List Text) (js : List Job) (rs : List Reply)
      → KeepsBehind (drain_loop run e w ds js rs).1
  unfolding drain_loop
  drain-KeepsBehind w ds [] rs = tt
  drain-KeepsBehind w ds (j ∷ js) rs = elim (Bool-cases (job_touches_deferred_path j ds)) [
    | inl t ↦ rw t ((λ h. cc), drain-KeepsBehind w ds js rs)
    | inr t ↦ elim (Bool-cases (should_attempt e w.clock j)) [
      | inl s ↦ elim (Attempt-cases (run w j (first_reply rs)).1) [
        | inl a ↦ rw (t, s, a) ((λ h. cc), KeepsBehind-none js)
        | inr (inl a) ↦
            rw (t, s, a)
              ((λ h. cc), drain-KeepsBehind (run w j (first_reply rs)).0 ds js (later_replies rs))
        | inr (inr (f, a)) ↦
            let w' = (run w j (first_reply rs)).0 in
            let ds' = defer_job_paths j ds in
            rw (t, s, a)
              (
                (λ h. Spares-share j ds _ (drain-Spares w' ds' js (later_replies rs))),
                drain-KeepsBehind w' ds' js (later_replies rs),
              )
      ]
      | inr s ↦
          let ds' = defer_job_paths j ds in
          rw (t, s)
            ((λ h. Spares-share j ds _ (drain-Spares w ds' js rs)), drain-KeepsBehind w ds' js rs)
    ]
  ]
