-- ===== src/User/Add/Fine.antt =====
-- What is known when a registration ends without an error: the loop ended, and the update of the
-- object was answered.
use v2ray_operator.Prelude.{String, List, ◌∷◌, ◌≡◌, refl, none}
use v2ray_operator.Api.Core.{Service}
use v2ray_operator.Api.User.{V2rayUser}
use v2ray_operator.Cluster.Effect.{Error, Reply, ok, err, Outcome, done, failed, panicked}
use v2ray_operator.Cluster.Requests.{InboundOperation, Call, History}
use v2ray_operator.Cluster.Env.{Env}
use v2ray_operator.Cluster.Trace.{attempt-request}
use v2ray_operator.User.Rollback.{Served, rollback, deferred}
use v2ray_operator.User.Add.{NodeMap, Added, stored, with_nodes, store_nodes, finish}

-- `P` holds of the user and the calls of a run without an error.
abbrev pub IfFine : (V2rayUser → History → Type 0) → Outcome Added × History → Type 0
IfFine P (done added, h) = added.error ≡ none → P added.user h
IfFine P (failed e, h) = Unit
IfFine P (panicked m, h) = Unit

module _ (E : Env) (cr : V2rayUser) (P : V2rayUser → History → Type 0) where
  -- What the update has to give for `P`.
  abbrev pub Stores : Served NodeMap → Type 0
  Stores (done nodes, served, h) =
      (user : V2rayUser)
      → E.update_user h (with_nodes E cr nodes) ≡ ok user
      → P user (Call.update_user (with_nodes E cr nodes) ∷ h)
  Stores (failed e, served, h) = Unit
  Stores (panicked m, served, h) = Unit

  module _ (left : V2rayUser) (tag : String) (op : InboundOperation) where
    undone :
        (e : Error) (r : Outcome (Unit {0}) × History)
        → let ended : Outcome V2rayUser × History = elim r.0 [
          | done _ ↦ (failed e, r.1)
          | failed e' ↦ (failed e', r.1)
          | panicked p ↦ (panicked p, r.1)
        ] in
          IfFine P (finish E left ended)
    unfolding finish
    undone e (done a, h) = λ fine. cc
    undone e (failed e', h) = λ fine. cc
    undone e (panicked m, h) = tt

    repanicked :
        (m : String) (r : Outcome (Unit {0}) × History)
        → let ended : Outcome V2rayUser × History = elim r.0 [
          | done _ ↦ (panicked m, r.1)
          | failed e' ↦ (failed e', r.1)
          | panicked p ↦ (panicked p, r.1)
        ] in
          IfFine P (finish E left ended)
    unfolding finish
    repanicked m (done a, h) = tt
    repanicked m (failed e', h) = λ fine. cc
    repanicked m (panicked p, h) = tt

    answered :
        (nodes : NodeMap) (served : List Service) (h : History) (a : Reply V2rayUser)
        → E.update_user h (with_nodes E cr nodes) ≡ a
        → Stores (done nodes, served, h)
        → IfFine P (
            finish E left (
              deferred E tag op
                (stored E served (done a, Call.update_user (with_nodes E cr nodes) ∷ h))))
    unfolding finish stored deferred
    answered nodes served h (ok user) answer stores = λ fine. stores user answer
    answered nodes served h (err e) answer stores = undone _ (rollback E tag op served _)

    pub finish-IfFine :
        (r : Served NodeMap)
        → Stores r
        → IfFine P (finish E left (deferred E tag op (store_nodes E cr r)))
    unfolding store_nodes deferred
    finish-IfFine (done nodes, served, h) stores =
        rw attempt-request (answered nodes served h _ refl stores)
    finish-IfFine (failed e, served, h) stores = undone e (rollback E tag op served h)
    finish-IfFine (panicked m, served, h) stores = repanicked m (rollback E tag op served h)
