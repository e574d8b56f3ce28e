-- ===== src/V2fly/Grpc/Connects.antt =====
-- A client of a v2ray server is one of a server that has been connected to.
use v2ray_operator.Prelude.{
  String, Bool, true, false, Option, some, ◌∷◌, ◌≡◌, refl, arith, eq_refl, if◌then◌else◌,
}
use v2ray_operator.V2fly.Config.{V2rayConfig, server_addr}
use mathlib.Core.Path.{subst}
use v2ray_operator.V2fly.Grpc.{connected as client_of, V2rayGrpcApi, labelled, new_v2ray_grpc_api}
use v2ray_operator.Cluster.Effect.{
  Outcome, done, failed, panicked, M, Error, Reply, ok, err, wrap, fail, ◌>>=◌,
}
use v2ray_operator.Cluster.Requests.{Call, History}
use v2ray_operator.Cluster.Env.{Env}
use v2ray_operator.Cluster.Trace.{attempt-request}
use v2ray_operator.Cluster.Adds.{Adds, stop, more, connected, Ready, Adds-trans}
use v2ray_operator.Cluster.Makes.{Makes, continue-Adds}

-- The server of a client that was returned.
abbrev IfApi : Env → Outcome V2rayGrpcApi → History → Type 0
IfApi E (done api) h = connected E (server_addr api.config) h ≡ true
IfApi E (failed e) h = Unit
IfApi E (panicked m) h = Unit

module _ (P : History → Call → Bool) (E : Env) where
  pub record Connects (server : Option String) (m : M V2rayGrpcApi) : Type 0 where
    pub calls : (h : History) → Ready E server h → Adds P h (m h).1
    pub api : (h : History) → Ready E server h → IfApi E (m h).0 (m h).1

-- What `labelled` makes of an outcome.
abbrev relabelled : {A : Type 0} → String → Outcome A × History → Outcome A × History
relabelled text (done a, h) = (done a, h)
relabelled text (failed e, h) = (failed (wrap text e), h)
relabelled text (panicked m, h) = (panicked m, h)

module _ {A : Type 0} (text : String) where
  labelled-relabelled : (m : M A) (h : History) → labelled text m h ≡ relabelled text (m h)
  unfolding labelled ◌>>=◌
  labelled-relabelled m h = ground arith

  relabelled_calls :
      {P : History → Call → Bool} {h : History} (r : Outcome A × History)
      → Adds P h r.1
      → Adds P h (relabelled text r).1
  relabelled_calls (done a, h') s = s
  relabelled_calls (failed e, h') s = s
  relabelled_calls (panicked m, h') s = s

  -- A step with a text in front of its error calls what the step calls.
  pub Makes-labelled :
      {P : History → Call → Bool} {E : Env} {server : Option String} (m : M A)
      → Makes P E server m
      → Makes P E server (labelled text m)
  Makes-labelled m s = record {
    at = λ h now. rw labelled-relabelled (relabelled_calls (m h) (s.at h now));
  }

relabelled_api :
    (E : Env) (text : String) (r : Outcome V2rayGrpcApi × History)
    → IfApi E r.0 r.1
    → IfApi E (relabelled text r).0 (relabelled text r).1
relabelled_api E text (done api, h) now = now
relabelled_api E text (failed e, h) now = tt
relabelled_api E text (panicked m, h) now = tt

returned_api :
    (E : Env) (api : V2rayGrpcApi) (r : Outcome V2rayGrpcApi × History)
    → r.0 ≡ done api
    → IfApi E r.0 r.1
    → connected E (server_addr api.config) r.1 ≡ true
returned_api E api r returned now =
    let here : IfApi E (done api) r.1 = subst (λ o. IfApi E o r.1) returned now in here

dialled_calls :
    {P : History → Call → Bool} (cfg : V2rayConfig) (h : History) (r : Reply (Unit {0}))
    → P h (Call.dial (server_addr cfg)) ≡ true
    → Adds P h (client_of cfg r (Call.dial (server_addr cfg) ∷ h)).1
unfolding client_of ◌>>=◌
dialled_calls cfg h (ok a) p = more _ p stop
dialled_calls cfg h (err e) p = more _ p stop

dialled_api :
    (E : Env) (cfg : V2rayConfig) (h : History) (r : Reply (Unit {0}))
    → E.dial h (server_addr cfg) ≡ r
    → let (o, h') = client_of cfg r (Call.dial (server_addr cfg) ∷ h) in IfApi E o h'
unfolding client_of ◌>>=◌
dialled_api E cfg h (ok a) answer = rw answer (ground (arith, eq_refl (server_addr cfg)))
dialled_api E cfg h (err e) answer = tt

module _ {P : History → Call → Bool} {E : Env} {server : Option String} where
  pub Connects-new :
      (cfg : V2rayConfig)
      → ((h : History) (addr : String) → P h (Call.dial addr) ≡ true)
      → Connects P E server (new_v2ray_grpc_api E cfg)
  unfolding new_v2ray_grpc_api ◌>>=◌
  Connects-new cfg dials = record {
    calls = λ h now. rw attempt-request (dialled_calls cfg h _ (dials h _));
    api = λ h now. rw attempt-request (dialled_api E cfg h _ refl);
  }

  pub Connects-fail : (e : Error) → Connects P E server (fail e)
  unfolding ◌>>=◌
  Connects-fail e = record { calls = λ h now. stop; api = λ h now. tt }

  pub Connects-if :
      (b : Bool) (m n : M V2rayGrpcApi)
      → Connects P E server m
      → Connects P E server n
      → Connects P E server (if b then m else n)
  Connects-if true m n cm cn = cm
  Connects-if false m n cm cn = cn

  -- A step with a text in front of its error.
  pub Connects-labelled :
      (text : String) (m : M V2rayGrpcApi)
      → Connects P E server m
      → Connects P E server (labelled text m)
  Connects-labelled text m c = record {
    calls = λ h now. rw labelled-relabelled (relabelled_calls text (m h) (c.calls h now));
    api = λ h now. rw labelled-relabelled (relabelled_api E text (m h) (c.api h now));
  }

  pub Makes-connect :
      {A : Type 0} (m : M V2rayGrpcApi) (f : V2rayGrpcApi → M A)
      → Connects P E server m
      → ((api : V2rayGrpcApi) → Makes P E (some (server_addr api.config)) (f api))
      → Makes P E server (m >>= f)
  unfolding ◌>>=◌
  Makes-connect m f c rest = record {
    at = λ h now. continue-Adds f h (m h) (c.calls h now) (λ api returned.
        Adds-trans (c.calls h now)
          ((rest api).at (m h).1 (returned_api E api (m h) returned (c.api h now))));
  }
