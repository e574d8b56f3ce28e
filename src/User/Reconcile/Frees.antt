-- ===== src/User/Reconcile/Frees.antt =====
-- A deleted user is let go where everything is answered.
use v2ray_operator.Prelude.{String, true, false, some, List, ◌∷◌, ◌≡◌, refl, ap, ◌∙◌}
use v2ray_operator.Api.Meta.{ObjectKey}
use v2ray_operator.Api.User.{V2rayUser, V2rayUserSpec}
use v2ray_operator.Cluster.Effect.{
  M, pure, Outcome, done, failed, panicked, ok, continue, ◌>>=◌, ◌>>◌,
}
use v2ray_operator.Cluster.Requests.{Account, Call, History}
use v2ray_operator.Cluster.Env.{Env}
use v2ray_operator.Cluster.Client
use v2ray_operator.User.Server.{account_of}
use v2ray_operator.User.Add.Succeeds.{Answers, IsDone}
use v2ray_operator.User.Finalize.{do_finalizer_operations_for_v2ray_user}
use v2ray_operator.User.Finalize.Succeeds.{AnswersServices, finalizer-IsDone}
use v2ray_operator.User.Reconcile.{
  ReconcileResult, empty_result, finalizer, with_condition, finalizing, release, finalize,
}

-- The object can be read; an update of its status gives it back with the same specification and its
-- finalizer; and a finalizer that is there can be removed, as controllerutil documents it.
pub record AnswersUser (E : Env) (key : ObjectKey) : Type 0 where
  pub reads : (h : History) → (u : V2rayUser) × (E.get_user h key ≡ ok u)
  pub statuses :
      (h : History) (u : V2rayUser)
      → (u' : V2rayUser) × (E.update_user_status h u ≡ ok u')
        × (u'.spec ≡ u.spec)
        × (E.contains_finalizer u'.metadata.finalizers finalizer ≡ true)
  pub removes :
      (fs : List String)
      → E.contains_finalizer fs finalizer ≡ true
      → let removed = E.remove_finalizer fs finalizer in
        (removed.1 ≡ true) × (E.contains_finalizer removed.0 finalizer ≡ false)

module _ (E : Env) where
  -- The run returned the empty result, and its last call wrote the object without the finalizer.
  abbrev pub Frees : Outcome ReconcileResult × History → Type 0
  Frees (done r, Call.update_user u ∷ h) =
      (r ≡ empty_result) × (E.contains_finalizer u.metadata.finalizers finalizer ≡ false)
  Frees _ = ⊥

  module _ (key : ObjectKey) (answers : Answers E) (services : AnswersServices E)
      (users : AnswersUser E key) where
    after_read :
        (f : V2rayUser → M ReconcileResult) (h : History)
        → ((u : V2rayUser) (h : History) → Frees (f u h))
        → Frees ((Client.get_user E key >>= f) h)
    unfolding ◌>>=◌
    after_read f h rest = let (u, read) = users.reads h in rw read (rest u _)

    after_update :
        (f : V2rayUser → M ReconcileResult) (v : V2rayUser) (h : History)
        → ((u : V2rayUser) (h : History)
            → u.spec ≡ v.spec
            → E.contains_finalizer u.metadata.finalizers finalizer ≡ true
            → Frees (f u h))
        → Frees ((Client.update_user_status E v >>= f) h)
    unfolding ◌>>=◌
    after_update f v h rest =
        let (u, written, same, there) = users.statuses h v in rw written (rest u _ same there)

    after_removal :
        (v : V2rayUser) (h : History)
        → E.contains_finalizer v.metadata.finalizers finalizer ≡ false
        → Frees ((Client.update_user E v >> pure empty_result) h)
    unfolding ◌>>=◌
    after_removal v h gone = rw (answers.updates h v).1 (refl, gone)

    release-Frees : (h : History) → Frees (release E key h)
    unfolding release
    release-Frees h = after_read _ h (λ u h. after_update _ _ h (λ u h same there.
        let (removed, gone) = users.removes u.metadata.finalizers there in
        rw removed (after_removal _ h gone)))

    freed :
        (r : Outcome (Unit {0}) × History)
        → IsDone r.0
        → Frees (continue r.0 (λ _. release E key) r.1)
    freed (done u, h) first = release-Frees h
    freed (failed e, h) first = absurd first
    freed (panicked m, h) first = absurd first

    after_operations :
        (u : V2rayUser) (h : History) {account : Account}
        → account_of u.spec.inbound_tag u.spec.user ≡ some account
        → Frees ((do_finalizer_operations_for_v2ray_user E u >> release E key) h)
    unfolding ◌>>=◌
    after_operations u h known =
        freed (do_finalizer_operations_for_v2ray_user E u h)
          (finalizer-IsDone E answers services u h known)

finalizing-spec : (E : Env) (cr : V2rayUser) → (finalizing E cr).spec ≡ cr.spec
unfolding finalizing with_condition
finalizing-spec E cr = refl

-- Where every request is answered, services have a port named grpc, the object can be read, keeps its
-- specification and its finalizer until the finalizer is removed, and the inbound tag is known: the
-- finalization of a deleted object returns the empty result, and its last call writes the object
-- without the finalizer.
pub finalize-Frees :
    (E : Env) (key : ObjectKey)
    → Answers E
    → AnswersServices E
    → AnswersUser E key
    → (cr : V2rayUser) (h : History) {account : Account}
    → account_of cr.spec.inbound_tag cr.spec.user ≡ some account
    → Frees E (finalize E key cr h)
unfolding finalize
finalize-Frees E key answers services users cr h {account} known =
    after_update E key answers services users _ (finalizing E cr) h (λ u h same there.
      after_operations E key answers services users u h (
        ap (λ (s : V2rayUserSpec). account_of s.inbound_tag s.user) (same ∙ finalizing-spec E cr)
        ∙ known))
