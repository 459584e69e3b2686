-- ===== src/Engine/Strict.antt =====
-- The order of the jobs of one path: strict without renames, and broken behind a held rename.
use makera_cnc_controller.Base.{
  ◌≡◌, inl, inr, Bool, true, false, none, List, [], ◌∷◌, arith, Bool-cases, All,
}
use makera_cnc_controller.Base.Text.{Text, text_eq, text_eq_iff, text_eq_sym}
use makera_cnc_controller.Store.{Job}
use makera_cnc_controller.Store.Commit.{World}
use makera_cnc_controller.Engine.{Engine, should_attempt, Reply, Attempt, ran}
use makera_cnc_controller.Engine.Drain.{
  Fate, held, waiting, attempted, is_deferred, job_touches_deferred_path, defer_job_paths,
  none_reached, first_reply, later_replies, drain_loop,
}
use makera_cnc_controller.Engine.Ordering.{
  IsAttempted, Spares, Attempt-cases, drain-Spares, share_path,
}

-- The job has no destination.
abbrev pub IsPlain : Job → Type 0
IsPlain j = text_eq j.dest_path [] ≡ true

abbrev pub has_succeeded : Fate → Bool
has_succeeded (attempted (ran none)) = true
has_succeeded _ = false

abbrev SamePathSpared : Job → List (Job × Fate) → Type 0
SamePathSpared j fates =
    All (λ (p : Job × Fate). text_eq j.path p.0.path ≡ true → ¬ IsAttempted p.1) fates

-- Every job behind one of its path that did not succeed was left alone.
abbrev pub IsStrict : List (Job × Fate) → Type 0
IsStrict [] = Unit {0}
IsStrict ((j, fate) ∷ rest) =
    (has_succeeded fate ≡ false
      → All (λ (p : Job × Fate). text_eq j.path p.0.path ≡ true → ¬ IsAttempted p.1) rest)
    × IsStrict rest

same-touches :
    (j k : Job) (ds : List Text)
    → IsPlain j
    → job_touches_deferred_path j ds ≡ true
    → text_eq j.path k.path ≡ true
    → job_touches_deferred_path k ds ≡ true
unfolding job_touches_deferred_path
same-touches j k ds plain t e =
    let p : j.path ≡ k.path = (text_eq_iff j.path k.path).0 e in
    let q : is_deferred k.path ds ≡ true = rw (← p) (ground arith) in ground arith

deferred-touches :
    (j k : Job) (ds : List Text)
    → text_eq j.path k.path ≡ true
    → job_touches_deferred_path k (defer_job_paths j ds) ≡ true
unfolding job_touches_deferred_path defer_job_paths
deferred-touches j k ds e = ground (arith, text_eq_sym j.path k.path)

Spares-touched :
    (j : Job) (ds : List Text) (fates : List (Job × Fate))
    → IsPlain j
    → job_touches_deferred_path j ds ≡ true
    → Spares ds fates
    → SamePathSpared j fates
Spares-touched j ds [] plain t s = tt
Spares-touched j ds ((k, fate) ∷ fates) plain t s =
    ((λ e. s.0 (same-touches j k ds plain t e)), Spares-touched j ds fates plain t s.1)

Spares-deferred :
    (j : Job) (ds : List Text) (fates : List (Job × Fate))
    → Spares (defer_job_paths j ds) fates
    → SamePathSpared j fates
Spares-deferred j ds [] s = tt
Spares-deferred j ds ((k, fate) ∷ fates) s =
    ((λ e. s.0 (deferred-touches j k ds e)), Spares-deferred j ds fates s.1)

none-spared : (j : Job) (js : List Job) → SamePathSpared j (none_reached js)
none-spared j [] = tt
none-spared j (k ∷ js) = ((λ e a. a), none-spared j js)

IsStrict-none : (js : List Job) → IsStrict (none_reached js)
IsStrict-none [] = tt
IsStrict-none (j ∷ js) = ((λ h. none-spared j js), IsStrict-none js)

module _ (run : World → Job → Reply → World × Attempt) (e : Engine) where
  -- In a queue without renames one pass attempts a job only if every earlier job of its path in the
  -- queue was attempted in this pass and succeeded.
  pub drain-IsStrict :
      (w : World) (ds : List Text) (js : List Job) (rs : List Reply)
      → All IsPlain js
      → IsStrict (drain_loop run e w ds js rs).1
  unfolding drain_loop
  drain-IsStrict w ds [] rs plain = tt
  drain-IsStrict w ds (j ∷ js) rs plain = elim (Bool-cases (job_touches_deferred_path j ds)) [
    | inl t ↦ rw t (
      (λ h. Spares-touched j ds _ plain.0 t (drain-Spares run e w ds js rs)),
      drain-IsStrict w ds js rs plain.1,
    )
    | inr t ↦ elim (Bool-cases (should_attempt e w.clock j)) [
      | inl s ↦ elim (Attempt-cases (run w j (first_reply rs)).1) [
        | inl a ↦ rw (t, s, a) ((λ h. none-spared j js), IsStrict-none js)
        | inr (inl a) ↦
            rw (t, s, a)
              (
                (λ h. cc),
                drain-IsStrict (run w j (first_reply rs)).0 ds js (later_replies rs) plain.1,
              )
        | inr (inr (f, a)) ↦
            let w' = (run w j (first_reply rs)).0 in
            let ds' = defer_job_paths j ds in
            rw (t, s, a)
              (
                (λ h. Spares-deferred j ds _ (drain-Spares run e w' ds' js (later_replies rs))),
                drain-IsStrict w' ds' js (later_replies rs) plain.1,
              )
      ]
      | inr s ↦
          let ds' = defer_job_paths j ds in
          rw (t, s)
            (
              (λ h. Spares-deferred j ds _ (drain-Spares run e w ds' js rs)),
              drain-IsStrict w ds' js rs plain.1,
            )
    ]
  ]

  -- A rename that is held behind a job that waits on its source does not defer its destination: a later
  -- job on the destination that is due shares that path with the rename, and is attempted in the same
  -- pass, ahead of it.
  pub drain_overtakes_rename :
      (w : World) (first rename later : Job) (rs : List Reply)
      → should_attempt e w.clock first ≡ false
      → text_eq first.dest_path [] ≡ true
      → text_eq rename.path first.path ≡ true
      → text_eq rename.dest_path [] ≡ false
      → text_eq later.path rename.dest_path ≡ true
      → text_eq later.path first.path ≡ false
      → text_eq later.dest_path [] ≡ true
      → should_attempt e w.clock later ≡ true
      → (share_path rename later ≡ true)
        × ((drain_loop run e w [] (first ∷ rename ∷ later ∷ []) rs).1
            ≡ (first, waiting)
              ∷ (rename, held)
              ∷ (later, attempted (run w later (first_reply rs)).1)
              ∷ [])
  unfolding drain_loop job_touches_deferred_path defer_job_paths
  drain_overtakes_rename w first rename later rs h1 h2 h3 h4 h5 h6 h7 h8 = (
    ground arith,
    elim (Attempt-cases (run w later (first_reply rs)).1) [
      | inl a ↦ rw (h1, h2, h3, h6, h7, h8, a)
      | inr (inl a) ↦ rw (h1, h2, h3, h6, h7, h8, a)
      | inr (inr (f, a)) ↦ rw (h1, h2, h3, h6, h7, h8, a)
    ],
  )
