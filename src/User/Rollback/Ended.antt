-- ===== src/User/Rollback/Ended.antt =====
-- What the deferred function makes of the loop: on an error, exactly the finished items are undone.
use v2ray_operator.Prelude.{String, List, [], ◌++◌, map, ◌≡◌, refl, ◌∙◌}
use mathlib.Core.List.{append-nil}
use v2ray_operator.Api.Core.{Service}
use v2ray_operator.Cluster.Effect.{Outcome, done, failed, panicked}
use v2ray_operator.Cluster.Requests.{InboundOperation, Call, History}
use v2ray_operator.Cluster.Env.{Env}
use v2ray_operator.Cluster.Trace.{alters, UnlessPanic}
use v2ray_operator.User.Rollback.{Served, rollback, deferred}
use v2ray_operator.User.Rollback.Exact.{AllPorts, calls_onto, alters-rollback}
use v2ray_operator.User.Rollback.Loop.{AtMostNext, Interrupted, LoopSpec}

module _ (E : Env) (tag : String) (op undo : InboundOperation) {X : Type 0}
    (target : X → Service) where
  -- The items of `finished` got their call and then, in the same order, the undoing one. The next
  -- item got its call at most; the rest got none.
  pub record RolledBack (xs : List X) (before after : List Call) : Type 0 where
    pub finished : List X
    pub rest : List X
    pub tried : List Call
    pub split : xs ≡ finished ++ rest
    pub next : AtMostNext E tag op target rest tried
    pub calls :
        after
        ≡ calls_onto E tag undo
            (map target finished)
            (tried ++ calls_onto E tag op (map target finished) before)

  abbrev pub EndedSpec : {S : Type 0} → List X → History → Outcome S × History → Type 0
  EndedSpec xs h (done s, h') = alters h' ≡ calls_onto E tag op (map target xs) (alters h)
  EndedSpec xs h (failed e, h') = RolledBack xs (alters h) (alters h')
  EndedSpec xs h (panicked p, h') = Unit

  -- A loop that ran to its end, as an interrupted one.
  pub Interrupted-at_end :
      (xs : List X) (served : List Service) (before after : List Call)
      → served ≡ map target xs
      → AllPorts E (map target xs)
      → after ≡ calls_onto E tag op (map target xs) before
      → Interrupted E tag op target xs [] served before after
  Interrupted-at_end xs served before after noted ports calls = record {
    finished = xs;
    rest = [];
    tried = [];
    split = rw append-nil;
    noted = noted;
    ports = ports;
    next = refl;
    calls = calls;
  }

  rolled_back :
      (xs : List X) (served : List Service) (h h' h'' : History)
      → (i : Interrupted E tag op target xs [] served (alters h) (alters h'))
      → alters h'' ≡ calls_onto E tag undo served (alters h')
      → RolledBack xs (alters h) (alters h'')
  rolled_back xs served h h' h'' i undone = record {
    finished = i.finished;
    rest = i.rest;
    tried = i.tried;
    split = i.split;
    next = i.next;
    calls = undone ∙ rw (i.noted, i.calls);
  }

  pub deferred-EndedSpec :
      {S : Type 0} (xs : List X) (h : History) (r : Served S)
      → LoopSpec E tag op target xs [] h r
      → EndedSpec xs h (deferred E tag undo r)
  unfolding deferred
  deferred-EndedSpec xs h (done s, served, h') (_, _, calls) = calls
  deferred-EndedSpec {S} xs h (failed e, served, h') i =
      undone (rollback E tag undo served h')
        (alters-rollback E tag undo served h' (rw i.noted i.ports))
    where
      undone :
          (r : Outcome (Unit {0}) × History)
          → UnlessPanic (alters r.1 ≡ calls_onto E tag undo served (alters h')) r.0
          → EndedSpec {S = S} xs h (elim r.0 [
            | done _ ↦ (failed e, r.1)
            | failed e' ↦ (failed e', r.1)
            | panicked p ↦ (panicked p, r.1)
          ])
      undone (done a, h'') did = rolled_back xs served h h' h'' i did
      undone (failed e', h'') did = rolled_back xs served h h' h'' i did
      undone (panicked m, h'') did = tt
  deferred-EndedSpec {S} xs h (panicked p, served, h') i =
      undone (rollback E tag undo served h')
        (alters-rollback E tag undo served h' (rw i.noted i.ports))
    where
      undone :
          (r : Outcome (Unit {0}) × History)
          → UnlessPanic (alters r.1 ≡ calls_onto E tag undo served (alters h')) r.0
          → EndedSpec {S = S} xs h (elim r.0 [
            | done _ ↦ (panicked p, r.1)
            | failed e' ↦ (failed e', r.1)
            | panicked p' ↦ (panicked p', r.1)
          ])
      undone (done a, h'') did = tt
      undone (failed e', h'') did = rolled_back xs served h h' h'' i did
      undone (panicked m, h'') did = tt
