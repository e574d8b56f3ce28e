-- ===== src/User/Rollback/Loop.antt =====
-- What the loop leaves when each of its rounds makes at most one alteration, at a known service.
use v2ray_operator.Prelude.{String, List, [], ◌∷◌, ◌++◌, map, ◌≡◌, refl, ◌∙◌, ap, ◌⊎◌, inl, inr}
use mathlib.Core.List.{append-nil, append_assoc}
use v2ray_operator.Api.Core.{Service}
use v2ray_operator.Cluster.Effect.{Outcome, done, failed, panicked}
use v2ray_operator.Cluster.Requests.{InboundOperation, Call, History}
use v2ray_operator.Cluster.Env.{Env}
use v2ray_operator.Cluster.Trace.{alters}
use v2ray_operator.User.Rollback.{Served, serve_each}
use v2ray_operator.User.Rollback.Exact.{HasPort, AllPorts, call_at, calls_onto}

module _ (E : Env) (tag : String) (op : InboundOperation) {X : Type 0} (target : X → Service) where
  -- The next item, at which the loop ended, got no call or one.
  abbrev pub AtMostNext : List X → List Call → Type 0
  AtMostNext [] tried = tried ≡ []
  AtMostNext (x ∷ xs) tried = (tried ≡ []) ⊎ (tried ≡ call_at E tag op (target x) ∷ [])

  -- A round notes the item's service and makes one call there, or ends with one call or none.
  abbrev pub RoundSpec : {S : Type 0} → X → History → Outcome (Service × S) × History → Type 0
  RoundSpec x h (done p, h') =
      (p.0 ≡ target x) × HasPort E p.0 × (alters h' ≡ call_at E tag op p.0 ∷ alters h)
  RoundSpec x h (failed e, h') =
      (alters h' ≡ alters h) ⊎ (alters h' ≡ call_at E tag op (target x) ∷ alters h)
  RoundSpec x h (panicked p, h') =
      (alters h' ≡ alters h) ⊎ (alters h' ≡ call_at E tag op (target x) ∷ alters h)

  -- The loop ended at the first item of `rest`, or behind the last one.
  pub record Interrupted (xs : List X) (start served : List Service) (before after : List Call)
      : Type 0 where
    pub finished : List X
    pub rest : List X
    pub tried : List Call
    pub split : xs ≡ finished ++ rest
    pub noted : served ≡ start ++ map target finished
    pub ports : AllPorts E (map target finished)
    pub next : AtMostNext rest tried
    pub calls : after ≡ tried ++ calls_onto E tag op (map target finished) before

  abbrev pub LoopSpec : {S : Type 0} → List X → List Service → History → Served S → Type 0
  LoopSpec xs start h (done s, served, h') =
      (served ≡ start ++ map target xs)
      × AllPorts E (map target xs)
      × (alters h' ≡ calls_onto E tag op (map target xs) (alters h))
  LoopSpec xs start h (failed e, served, h') = Interrupted xs start served (alters h) (alters h')
  LoopSpec xs start h (panicked p, served, h') = Interrupted xs start served (alters h) (alters h')

  Interrupted-here :
      (x : X) (xs : List X) (start : List Service) (h h' : History)
      → (alters h' ≡ alters h) ⊎ (alters h' ≡ call_at E tag op (target x) ∷ alters h)
      → Interrupted (x ∷ xs) start start (alters h) (alters h')
  Interrupted-here x xs start h h' (inl quiet) = record {
    finished = [];
    rest = x ∷ xs;
    tried = [];
    split = refl;
    noted = rw append-nil;
    ports = tt;
    next = inl refl;
    calls = quiet;
  }
  Interrupted-here x xs start h h' (inr called) = record {
    finished = [];
    rest = x ∷ xs;
    tried = call_at E tag op (target x) ∷ [];
    split = refl;
    noted = rw append-nil;
    ports = tt;
    next = inr refl;
    calls = called;
  }

  Interrupted-later :
      (x : X) (xs : List X) (svc : Service) (start served : List Service) (before after : List Call)
      → svc ≡ target x
      → HasPort E svc
      → Interrupted xs (start ++ svc ∷ []) served (call_at E tag op svc ∷ before) after
      → Interrupted (x ∷ xs) start served before after
  Interrupted-later x xs svc start served before after same port i = record {
    finished = x ∷ i.finished;
    rest = i.rest;
    tried = i.tried;
    split = ap (λ l. x ∷ l) i.split;
    noted = rw (← same) (i.noted ∙ append_assoc start (svc ∷ []) (map target i.finished));
    ports = (rw (← same) port, i.ports);
    next = i.next;
    calls = rw (← same) i.calls;
  }

  module _ {S : Type 0} (step : X → S → History → Outcome (Service × S) × History) where
    loop_later :
        (x : X) (xs : List X) (svc : Service) (start : List Service) (h h' : History) (r : Served S)
        → svc ≡ target x
        → HasPort E svc
        → alters h' ≡ call_at E tag op svc ∷ alters h
        → LoopSpec xs (start ++ svc ∷ []) h' r
        → LoopSpec (x ∷ xs) start h r
    loop_later x xs svc start h h' (done s, served, h'') same port called (noted, ports, calls) = (
      rw (← same) (noted ∙ append_assoc start (svc ∷ []) (map target xs)),
      (rw (← same) port, ports),
      calls ∙ rw (called, same),
    )
    loop_later x xs svc start h h' (failed e, served, h'') same port called i =
        Interrupted-later x xs svc start served _ _ same port (rw called at i)
    loop_later x xs svc start h h' (panicked e, served, h'') same port called i =
        Interrupted-later x xs svc start served _ _ same port (rw called at i)

    pub serve_each-LoopSpec :
        ((x : X) (s : S) (h : History) → RoundSpec x h (step x s h))
        → (xs : List X) (s : S) (start : List Service) (h : History)
        → LoopSpec xs start h (serve_each step xs s start h)
    unfolding serve_each
    serve_each-LoopSpec round [] s start h = (rw append-nil, tt, refl)
    serve_each-LoopSpec round (x ∷ xs) s start h =
        round_then (step x s h) (round x s h)
          (λ s' start' h'. serve_each-LoopSpec round xs s' start' h')
      where
        round_then :
            (r : Outcome (Service × S) × History)
            → RoundSpec x h r
            → ((s' : S) (start' : List Service) (h' : History)
                → LoopSpec xs start' h' (serve_each step xs s' start' h'))
            → LoopSpec (x ∷ xs) start h (elim r.0 [
              | done p ↦ serve_each step xs p.1 (start ++ p.0 ∷ []) r.1
              | failed e ↦ (failed e, start, r.1)
              | panicked p ↦ (panicked p, start, r.1)
            ])
        round_then (done p, h') (same, port, called) more =
            loop_later x xs p.0 start h h' _ same port called (more p.1 (start ++ p.0 ∷ []) h')
        round_then (failed e, h') w more = Interrupted-here x xs start h h' w
        round_then (panicked p, h') w more = Interrupted-here x xs start h h' w
