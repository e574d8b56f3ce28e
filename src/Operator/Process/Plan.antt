-- ===== src/Operator/Process/Plan.antt =====
-- The process makes the steps of a plan, one after another, until one is refused.
use v2ray_operator.Prelude.{◌≡◌, refl, sym, ap, ◌∙◌, ◌⊎◌, inl, inr, List, [], ◌∷◌, ◌++◌}
use v2ray_operator.Cluster.Effect.{Error, Reply, ok, err}
use v2ray_operator.Operator.Process.{
  Step, add_builtin_kinds, add_kinds, Ending, exited, panicked, Progress, going, ended, Setup,
  go_on, ◌>>◌, step_or, must, or_exit,
}
use mathlib.Core.List.{append_assoc, append-nil}

-- How the process ends if the step is refused.
abbrev pub refusal : Step → Ending
refusal add_builtin_kinds = panicked
refusal (add_kinds version kinds) = panicked
refusal _ = exited 1

Reply-cases : (r : Reply (Unit {0})) → (r ≡ ok tt) ⊎ ((e : Error) × (r ≡ err e))
Reply-cases (ok _) = inl refl
Reply-cases (err e) = inr (e, refl)

module _ (answer : List Step → Step → Reply (Unit {0})) where
  -- The steps made so far are those before, and an initial part of the plan up to a step that was
  -- refused.
  pub record Refused (before plan : List Step) (e : Ending) (made : List Step) : Type 0 where
    pub accepted : List Step
    pub step : Step
    pub rest : List Step
    pub error : Error
    pub planned : plan ≡ accepted ++ step ∷ rest
    pub made_up_to : made ≡ (before ++ accepted) ++ step ∷ []
    pub refused : answer (before ++ accepted) step ≡ err error
    pub ends : e ≡ refusal step

  pub data Follows (before plan : List Step) : Progress × List Step → Type 0 where
    all : {made : List Step} → made ≡ before ++ plan → Follows before plan (going, made)
    stops :
        {e : Ending} {made : List Step}
        → Refused before plan e made
        → Follows before plan (ended e, made)

  abbrev pub Keeps : List Step → Setup → Type 0
  Keeps plan m = (before : List Step) → Follows before plan (m before)

  Keeps-step_or :
      (bad : Ending) (s : Step) → refusal s ≡ bad → Keeps (s ∷ []) (step_or answer bad s)
  unfolding step_or
  Keeps-step_or bad s ends before = elim (Reply-cases (answer before s)) [
    | inl yes_ ↦ rw (yes_, step_or) (all refl)
    | inr (e, no_) ↦
        rw (no_, step_or)
          (stops (record {
            accepted = [];
            step = s;
            rest = [];
            error = e;
            planned = refl;
            made_up_to = ap (λ (b : List Step). b ++ s ∷ []) (sym (append-nil before));
            refused = rw append-nil no_;
            ends = sym ends;
          }))
  ]

  -- After the steps `ps`, what follows `qs` follows the whole.
  after_steps :
      (before ps qs : List Step) {out : Progress × List Step}
      → Follows (before ++ ps) qs out
      → Follows before (ps ++ qs) out
  after_steps before ps qs (all e) = all (e ∙ append_assoc before ps qs)
  after_steps before ps qs (stops r) = stops (record {
    accepted = ps ++ r.accepted;
    step = r.step;
    rest = r.rest;
    error = r.error;
    planned =
        ap (λ (t : List Step). ps ++ t) r.planned
        ∙ sym (append_assoc ps r.accepted (r.step ∷ r.rest));
    made_up_to =
        r.made_up_to ∙ ap (λ (t : List Step). t ++ r.step ∷ []) (append_assoc before ps r.accepted);
    refused = rw (append_assoc before ps r.accepted) at r.refused;
    ends = r.ends;
  })

  followed_by :
      (before ps qs : List Step) (out : Progress × List Step) (n : Setup)
      → Follows before ps out
      → Keeps qs n
      → Follows before (ps ++ qs) (go_on out n)
  followed_by before ps qs out n (all {made} e) keeps =
      rw e (after_steps before ps qs (keeps (before ++ ps)))
  followed_by before ps qs out n (stops r) keeps = stops (record {
    accepted = r.accepted;
    step = r.step;
    rest = r.rest ++ qs;
    error = r.error;
    planned = rw r.planned (append_assoc r.accepted (r.step ∷ r.rest) qs);
    made_up_to = r.made_up_to;
    refused = r.refused;
    ends = r.ends;
  })

  pub Keeps->> :
      (ps qs : List Step) (m n : Setup) → Keeps ps m → Keeps qs n → Keeps (ps ++ qs) (m >> n)
  Keeps->> ps qs m n first second before =
      followed_by before ps qs (m before) n (first before) second

  pub Keeps-or_exit : (s : Step) → refusal s ≡ exited 1 → Keeps (s ∷ []) (or_exit answer s)
  unfolding or_exit
  Keeps-or_exit s e = Keeps-step_or (exited 1) s e

  pub Keeps-must : (s : Step) → refusal s ≡ panicked → Keeps (s ∷ []) (must answer s)
  unfolding must
  Keeps-must s e = Keeps-step_or panicked s e
