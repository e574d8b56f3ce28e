-- ===== src/V2fly/Grpc/Sends.antt =====
-- Which requests the operations on whole configurations send, and what they leave behind when one of
-- them fails.
use v2ray_operator.Prelude.{
  String, Bool, true, false, List, [], ◌∷◌, ◌++◌, map, ◌≡◌, refl, ap, arith,
}
use v2ray_operator.V2fly.Grpc.{add_each, remove_each, labelled}
use v2ray_operator.Cluster.Effect.{
  M, Reply, ok, err, wrap, Outcome, done, failed, panicked, lift, request, continue, ◌>>=◌,
}
use v2ray_operator.Cluster.Requests.{Call, History, HandlerConfig}
use v2ray_operator.Cluster.Env.{Detour}
use v2ray_operator.Cluster.Trace.{onto}

-- What the inbounds or outbounds build to, up to the first that cannot be built.
abbrev pub builds : List Detour → List HandlerConfig
builds [] = []
builds (c ∷ cs) = let rest = builds cs in elim c.build [ ok b ↦ b ∷ rest | err e ↦ [] ]

abbrev pub all_build : List Detour → Bool
all_build [] = true
all_build (c ∷ cs) = let rest = all_build cs in elim c.build [ ok b ↦ rest | err e ↦ false ]

abbrev pub tag_of : Detour → String
tag_of c = c.tag

module _ {X : Type 0} (call : X → Call) where
  -- The requests for the first items went out, once each and in order, and no others.
  pub record SentPrefix (xs : List X) (h h' : History) : Type 0 where
    pub sent : List X
    pub rest : List X
    pub split : xs ≡ sent ++ rest
    pub calls : h' ≡ onto (map call sent) h

  pub SentPrefix-none : (xs : List X) (h : History) → SentPrefix xs h h
  SentPrefix-none xs h = record { sent = []; rest = xs; split = refl; calls = refl }

  pub SentPrefix-cons :
      (x : X) (xs : List X) (h h' : History)
      → SentPrefix xs (call x ∷ h) h'
      → SentPrefix (x ∷ xs) h h'
  SentPrefix-cons x xs h h' p = record {
    sent = x ∷ p.sent;
    rest = p.rest;
    split = ap (λ l. x ∷ l) p.split;
    calls = p.calls;
  }

-- After an addition: on success every item could be built and was sent.
abbrev pub AddSpec :
    (HandlerConfig → Call) → List Detour → History → Outcome (Unit {0}) × History → Type 0
AddSpec call cs h (done _, h') = (all_build cs ≡ true) × (h' ≡ onto (map call (builds cs)) h)
AddSpec call cs h (failed e, h') = SentPrefix call (builds cs) h h'
AddSpec call cs h (panicked m, h') = ⊥

-- After a removal: on success the requests went out for all tags.
abbrev pub RemoveSpec :
    (String → Call) → List String → History → Outcome (Unit {0}) × History → Type 0
RemoveSpec call tags h (done _, h') = h' ≡ onto (map call tags) h
RemoveSpec call tags h (failed e, h') = SentPrefix call tags h h'
RemoveSpec call tags h (panicked m, h') = ⊥

RemoveSpec-cons :
    (call : String → Call) (t : String) (ts : List String) (h : History)
    (r : Outcome (Unit {0}) × History)
    → RemoveSpec call ts (call t ∷ h) r
    → RemoveSpec call (t ∷ ts) h r
RemoveSpec-cons call t ts h (done a, h') s = s
RemoveSpec-cons call t ts h (failed e, h') s = SentPrefix-cons call t ts h h' s
RemoveSpec-cons call t ts h (panicked m, h') s = s

AddSpec-cons :
    (call : HandlerConfig → Call) (c : Detour) (cs : List Detour) (b : HandlerConfig) (h : History)
    (r : Outcome (Unit {0}) × History)
    → c.build ≡ ok b
    → AddSpec call cs (call b ∷ h) r
    → AddSpec call (c ∷ cs) h r
AddSpec-cons call c cs b h (done a, h') built s = rw built s
AddSpec-cons call c cs b h (failed e, h') built s =
    rw built (SentPrefix-cons call b (builds cs) h h' s)
AddSpec-cons call c cs b h (panicked m, h') built s = s

-- The answer to one request, whose error gets a text in front.
abbrev answered : String → Call → Reply (Unit {0}) → History → Outcome (Unit {0}) × History
answered text c (ok a) h = (done a, c ∷ h)
answered text c (err e) h = (failed (wrap text e), c ∷ h)

labelled-request :
    (text : String) (c : Call) (answer : History → Reply (Unit {0})) (h : History)
    → labelled text (request c answer) h ≡ answered text c (answer h) h
unfolding labelled ◌>>=◌
labelled-request text c answer h = ground arith

pub labelled-lift :
    {A : Type 0} (text : String) (r : Reply A) (h : History)
    → labelled text (lift r) h ≡ elim r as (λ _. Outcome A × History) [
      | ok a ↦ (done a, h)
      | err e ↦ (failed (wrap text e), h)
    ]
unfolding labelled ◌>>=◌
labelled-lift text (ok a) h = refl
labelled-lift text (err e) h = refl

module _ (call : String → String → Call) (answer : String → String → History → Reply (Unit {0}))
    (text addr : String) where
  remove_then :
      (t : String) (ts : List String) (h : History) (a : Reply (Unit {0})) (rest : M (Unit {0}))
      → RemoveSpec (call addr) ts (call addr t ∷ h) (rest (call addr t ∷ h))
      → let p = answered text (call addr t) a h in
        RemoveSpec (call addr) (t ∷ ts) h (continue p.0 (λ _. rest) p.1)
  remove_then t ts h (ok a) rest s = RemoveSpec-cons (call addr) t ts h _ s
  remove_then t ts h (err e) rest s = SentPrefix-cons (call addr) t ts h _ (SentPrefix-none _ ts _)

  pub remove_each-RemoveSpec :
      (tags : List String) (h : History)
      → RemoveSpec
          (call addr)
          tags
          h
          (remove_each (λ a t. request (call a t) (answer a t)) text addr tags h)
  unfolding remove_each ◌>>=◌
  remove_each-RemoveSpec [] h = refl
  remove_each-RemoveSpec (t ∷ ts) h =
      rw labelled-request
        (remove_then t ts h (answer addr t h) _ (remove_each-RemoveSpec ts (call addr t ∷ h)))

module _ (call : String → HandlerConfig → Call)
    (answer : String → HandlerConfig → History → Reply (Unit {0})) (name addr : String) where
  add_then :
      (c : Detour) (cs : List Detour) (b : HandlerConfig) (h : History) (a : Reply (Unit {0}))
      (rest : M (Unit {0})) (text : String)
      → c.build ≡ ok b
      → AddSpec (call addr) cs (call addr b ∷ h) (rest (call addr b ∷ h))
      → let p = answered text (call addr b) a h in
        AddSpec (call addr) (c ∷ cs) h (continue p.0 (λ _. rest) p.1)
  add_then c cs b h (ok a) rest text built s = AddSpec-cons (call addr) c cs b h _ built s
  add_then c cs b h (err e) rest text built s =
      rw built (SentPrefix-cons (call addr) b (builds cs) h _ (SentPrefix-none _ (builds cs) _))

  pub add_each-AddSpec :
      (cs : List Detour) (h : History)
      → AddSpec (call addr) cs h (add_each (λ a b. request (call a b) (answer a b)) name addr cs h)
  unfolding add_each ◌>>=◌
  add_each-AddSpec [] h = (refl, refl)
  add_each-AddSpec (c ∷ cs) h = by_build c.build refl (λ h. add_each-AddSpec cs h)
    where
      by_build :
          (r : Reply HandlerConfig)
          → c.build ≡ r
          → ((h : History)
              → AddSpec
                  (call addr)
                  cs
                  h
                  (add_each (λ a b. request (call a b) (answer a b)) name addr cs h))
          → AddSpec
              (call addr)
              (c ∷ cs)
              h
              (add_each (λ a b. request (call a b) (answer a b)) name addr (c ∷ cs) h)
      by_build (ok b) built more = rw built (
          rw labelled-lift (
            rw labelled-request (
              add_then (record c { build = ok b }) cs b h (answer addr b h) _ _ refl
                (more (call addr b ∷ h)))))
      by_build (err e) built more = rw built (rw labelled-lift (SentPrefix-none _ _ _))
