-- ===== src/Auth/NextStep.antt =====
-- Which step comes next, and that the choice ends: handlers/auth/NextAuthenticationStep.go.
use holvit_backend.Prelude.{
  ℕ, zero, suc, String, ◌≡◌, ◌≢◌, refl, List, [], ◌∷◌, ◌≤◌, ◌<◌, Bool, true, false, Option, none,
  some, if◌then◌else◌, arith,
}
use holvit_backend.Go.{Outcome, done, panicked, Go, ◌>>=◌, pure, continue}
use holvit_backend.Tokens.Service.{LoginInfo}
use holvit_backend.Auth.Env.{Env}
use holvit_backend.Auth.Steps.{
  Step, verify_email, reset_password, totp_onboarding, verify_totp, verify_device, submit, name,
  following, needs_to_run, get_next_step,
}

-- How many steps may still be tried before the last one, which always runs.
abbrev pub rank : Step → ℕ
rank submit = 0
rank verify_device = 1
rank verify_totp = 2
rank totp_onboarding = 2
rank reset_password = 3
rank verify_email = 4

-- The steps from one on, in the order of the flow.
abbrev pub route : Step → List Step
route verify_email = verify_email ∷ reset_password ∷ totp_onboarding ∷ verify_device ∷ submit ∷ []
route reset_password = reset_password ∷ totp_onboarding ∷ verify_device ∷ submit ∷ []
route totp_onboarding = totp_onboarding ∷ verify_device ∷ submit ∷ []
route verify_totp = verify_totp ∷ verify_device ∷ submit ∷ []
route verify_device = verify_device ∷ submit ∷ []
route submit = submit ∷ []

-- What is tried after a step that need not run.
abbrev pub next : Step → Step
next verify_email = reset_password
next reset_password = totp_onboarding
next totp_onboarding = verify_device
next verify_totp = verify_device
next verify_device = submit
next submit = submit

following-name : (st : Step) → following (name st) ≡ next st
unfolding following
following-name verify_email = refl
following-name reset_password = refl
following-name totp_onboarding = refl
following-name verify_totp = refl
following-name verify_device = refl
following-name submit = refl

rank-le : (st : Step) → rank st ≤ 4
rank-le submit = omega arith
rank-le verify_device = omega arith
rank-le verify_totp = omega arith
rank-le totp_onboarding = omega arith
rank-le reset_password = omega arith
rank-le verify_email = omega arith

following-ne-verify_totp : (current : String) → following current ≢ verify_totp
unfolding following
following-ne-verify_totp current h = ground arith

module _ {W : Type 0} (env : Env W) where
  -- The first step of a list that needs to run.
  abbrev pub first_needed : List Step → LoginInfo → Go W (Option Step)
  first_needed [] info = pure none
  first_needed (st ∷ steps) info = do
    needed ← needs_to_run env st info
    let rest = first_needed steps info
    if needed then pure (some st) else rest

  -- One try: the step runs, or the search goes on; the search answers alike if it goes on alike.
  try_cong :
      (st : Step) (o : Outcome Bool) (w : W) (m k : Go W (Option Step))
      → m ≡ k
      → continue (λ needed. if needed then pure (some st) else m) o w
        ≡ continue (λ needed. if needed then pure (some st) else k) o w
  try_cong st o w m k e = rw e

  submit_runs :
      (fuel : ℕ) (info : LoginInfo) (m k : Go W (Option Step))
      → (needs_to_run env submit info >>= λ needed. if needed then pure (some submit) else m)
        ≡ (needs_to_run env submit info >>= λ needed. if needed then pure (some submit) else k)
  unfolding needs_to_run
  submit_runs fuel info m k = refl

  get_next_step_from :
      (fuel : ℕ) (st : Step) (current : String) (info : LoginInfo)
      → following current ≡ st
      → rank st < fuel
      → get_next_step env fuel current info ≡ first_needed (route st) info
  unfolding get_next_step
  get_next_step_from zero st current info e h = elim h [ ]
  get_next_step_from (suc fuel) submit current info e h = rw e (submit_runs fuel info _ _)
  get_next_step_from (suc fuel) verify_email current info e h =
      rw (
        e,
        get_next_step_from fuel reset_password _ info (following-name verify_email) (omega arith),
      )
  get_next_step_from (suc fuel) reset_password current info e h = rw (
    e,
    get_next_step_from fuel totp_onboarding _ info (following-name reset_password) (omega arith),
  )
  get_next_step_from (suc fuel) totp_onboarding current info e h = rw (
    e,
    get_next_step_from fuel verify_device _ info (following-name totp_onboarding) (omega arith),
  )
  get_next_step_from (suc fuel) verify_totp current info e h =
      rw
        (e, get_next_step_from fuel verify_device _ info (following-name verify_totp) (omega arith))
  get_next_step_from (suc fuel) verify_device current info e h =
      rw (e, get_next_step_from fuel submit _ info (following-name verify_device) (omega arith))

  pub get_next_step-eq-first_needed :
      (fuel : ℕ) (current : String) (info : LoginInfo)
      → 4 < fuel
      → get_next_step env fuel current info ≡ first_needed (route (following current)) info
  get_next_step-eq-first_needed fuel current info h =
      get_next_step_from fuel (following current) current info refl
        (omega (arith, rank-le (following current)))

  try-ne-none :
      (st : Step) (o : Outcome Bool) (w : W) (k : Go W (Option Step))
      → (k w).0 ≢ done none
      → (continue (λ needed. if needed then pure (some st) else k) o w).0 ≢ done none
  try-ne-none st (done true) w k h e = cc
  try-ne-none st (done false) w k h e = h e
  try-ne-none st (panicked x) w k h e = cc

  -- A step that a search returned is a step that it tried.
  try-chosen :
      (st t : Step) (o : Outcome Bool) (w : W) (k : Go W (Option Step))
      → t ≢ st
      → ((k w).0 ≢ done (some st))
      → (continue (λ needed. if needed then pure (some t) else k) o w).0 ≢ done (some st)
  try-chosen st t (done true) w k ne h e = ne (ground arith)
  try-chosen st t (done false) w k ne h e = h e
  try-chosen st t (panicked x) w k ne h e = cc

  abbrev EndsInSubmit : List Step → Type 0
  EndsInSubmit [] = ⊥
  EndsInSubmit (st ∷ []) = st ≡ submit
  EndsInSubmit (st ∷ t ∷ steps) = EndsInSubmit (t ∷ steps)

  submit-ne-none : (info : LoginInfo) (w : W) → (first_needed (submit ∷ []) info w).0 ≢ done none
  unfolding needs_to_run
  submit-ne-none info w e = cc

  first_needed-ne-none :
      (steps : List Step) (info : LoginInfo) (w : W)
      → EndsInSubmit steps
      → (first_needed steps info w).0 ≢ done none
  first_needed-ne-none [] info w h = absurd h
  first_needed-ne-none (st ∷ []) info w h = rw h (submit-ne-none info w)
  first_needed-ne-none (st ∷ t ∷ steps) info w h =
      try-ne-none st _ _ (first_needed (t ∷ steps) info) (first_needed-ne-none (t ∷ steps) info _ h)

  abbrev Lacks : Step → List Step → Type 0
  Lacks st [] = Unit
  Lacks st (t ∷ steps) = (t ≢ st) × Lacks st steps

  first_needed-Lacks :
      (st : Step) (steps : List Step) (info : LoginInfo) (w : W)
      → Lacks st steps
      → (first_needed steps info w).0 ≢ done (some st)
  first_needed-Lacks st [] info w h = λ e. cc
  first_needed-Lacks st (t ∷ steps) info w h =
      try-chosen st t _ _ (first_needed steps info) h.0 (first_needed-Lacks st steps info _ h.1)

  route-EndsInSubmit : (st : Step) → EndsInSubmit (route st)
  route-EndsInSubmit verify_email = refl
  route-EndsInSubmit reset_password = refl
  route-EndsInSubmit totp_onboarding = refl
  route-EndsInSubmit verify_totp = refl
  route-EndsInSubmit verify_device = refl
  route-EndsInSubmit submit = refl

  route-Lacks : (st : Step) → st ≢ verify_totp → Lacks verify_totp (route st)
  route-Lacks verify_email h = ground arith
  route-Lacks reset_password h = ground arith
  route-Lacks totp_onboarding h = ground arith
  route-Lacks verify_totp h = absurd (h refl)
  route-Lacks verify_device h = ground arith
  route-Lacks submit h = ground arith

  -- With fuel for five tries the choice does not run out: it returns a step, or a service that it
  -- asks panics.
  pub get_next_step-ne-none :
      (fuel : ℕ) (current : String) (info : LoginInfo) (w : W)
      → 4 < fuel
      → (get_next_step env fuel current info w).0 ≢ done none
  get_next_step-ne-none fuel current info w h =
      rw (get_next_step-eq-first_needed fuel current info h)
        (first_needed-ne-none _ info w (route-EndsInSubmit (following current)))

  -- No step is followed by the verification of a second factor, whatever the user has configured.
  pub get_next_step-ne-verify_totp :
      (fuel : ℕ) (current : String) (info : LoginInfo) (w : W)
      → 4 < fuel
      → (get_next_step env fuel current info w).0 ≢ done (some verify_totp)
  get_next_step-ne-verify_totp fuel current info w h =
      rw (get_next_step-eq-first_needed fuel current info h) (
        first_needed-Lacks verify_totp _ info w
          (route-Lacks (following current) (following-ne-verify_totp current)))
