-- ===== src/V2fly/Grpc/Configs.antt =====
-- Adding and removing the inbounds or outbounds of a whole configuration.
use v2ray_operator.Prelude.{
  String, true, false, List, [], ◌∷◌, map, is_empty, ◌≡◌, refl, some, arith, if◌then◌else◌,
}
use v2ray_operator.V2fly.Structs.{V2rayInstanceConfig}
use v2ray_operator.V2fly.Config.{server_addr, to_v2ray_v4_config}
use v2ray_operator.V2fly.Grpc.{
  V2rayGrpcApi, tags_of, add_inbound, add_outbound, remove_inbound, remove_outbound,
}
use v2ray_operator.V2fly.Grpc.Sends.{
  builds, all_build, tag_of, SentPrefix, SentPrefix-none, AddSpec, RemoveSpec, labelled-lift,
  remove_each-RemoveSpec, add_each-AddSpec,
}
use v2ray_operator.V2fly.Grpc.Remove.{has_empty_tag}
use v2ray_operator.Cluster.Effect.{Error, M, ok, Outcome, done, failed, panicked, fail, ◌>>=◌}
use v2ray_operator.Cluster.Requests.{Call, History, HandlerConfig}
use v2ray_operator.Cluster.Env.{Env, Detour, V4Config}
use v2ray_operator.Cluster.Trace.{onto}

tags_of-full :
    (text : String) (cs : List Detour)
    → has_empty_tag cs ≡ false
    → tags_of text cs ≡ ok (map tag_of cs)
unfolding tags_of
tags_of-full text [] h = refl
tags_of-full text (c ∷ cs) h = grind (arith, tags_of-full text cs)

-- The same for whole operations, which refuse an empty list.
abbrev pub AddedAll :
    (HandlerConfig → Call) → List Detour → History → Outcome (Unit {0}) × History → Type 0
AddedAll call cs h (done _, h') =
    (is_empty cs ≡ false) × (all_build cs ≡ true) × (h' ≡ onto (map call (builds cs)) h)
AddedAll call cs h (failed e, h') = SentPrefix call (builds cs) h h'
AddedAll call cs h (panicked m, h') = ⊥

abbrev pub RemovedAll :
    (String → Call) → List Detour → History → Outcome (Unit {0}) × History → Type 0
RemovedAll call cs h (done _, h') = (is_empty cs ≡ false) × (h' ≡ onto (map call (map tag_of cs)) h)
RemovedAll call cs h (failed e, h') = SentPrefix call (map tag_of cs) h h'
RemovedAll call cs h (panicked m, h') = ⊥

added_if :
    (call : HandlerConfig → Call) (cs : List Detour) (h : History) (e : Error) (m : M (Unit {0}))
    → AddSpec call cs h (m h)
    → AddedAll call cs h ((if is_empty cs then fail e else m) h)
unfolding ◌>>=◌
added_if call [] h e m s = SentPrefix-none call [] h
added_if call (c ∷ cs) h e m s = nonempty (m h) s
  where
    nonempty :
        (r : Outcome (Unit {0}) × History) → AddSpec call (c ∷ cs) h r → AddedAll call (c ∷ cs) h r
    nonempty (done a, h') (built, calls) = (refl, built, calls)
    nonempty (failed e, h') s = s
    nonempty (panicked m, h') s = s

removed_if :
    (call : String → Call) (cs : List Detour) (h : History) (e : Error) (m : M (Unit {0}))
    → RemoveSpec call (map tag_of cs) h (m h)
    → RemovedAll call cs h ((if is_empty cs then fail e else m) h)
unfolding ◌>>=◌
removed_if call [] h e m s = SentPrefix-none call [] h
removed_if call (c ∷ cs) h e m s = nonempty (m h) s
  where
    nonempty :
        (r : Outcome (Unit {0}) × History)
        → RemoveSpec call (map tag_of (c ∷ cs)) h r
        → RemovedAll call (c ∷ cs) h r
    nonempty (done a, h') calls = (refl, calls)
    nonempty (failed e, h') s = s
    nonempty (panicked m, h') s = s

-- Where a configuration can be converted, adding its inbounds or its outbounds sends the first of
-- them that can be built, once each and in order. Without an error it has sent all of them, and there
-- was at least one; after an error, what had been sent stays, and nothing is taken back.
pub add_inbound-AddedAll :
    (E : Env) (api : V2rayGrpcApi) (cfg : V2rayInstanceConfig) (c : V4Config) (h : History)
    → to_v2ray_v4_config E (some cfg) ≡ ok c
    → let addr = server_addr api.config in
      AddedAll (Call.add_inbound addr) c.inbound_configs h (add_inbound E api cfg h)
      × AddedAll (Call.add_outbound addr) c.outbound_configs h (add_outbound E api cfg h)
unfolding add_inbound add_outbound ◌>>=◌
add_inbound-AddedAll E api cfg c h converted = (
  rw (labelled-lift, converted)
      (added_if _ c.inbound_configs h _ _
        (add_each-AddSpec Call.add_inbound (λ a b h. E.add_inbound h a b) _ _ c.inbound_configs h)),
  rw (labelled-lift, converted)
      (added_if _ c.outbound_configs h _ _ (
        add_each-AddSpec Call.add_outbound (λ a b h. E.add_outbound h a b) _ _ c.outbound_configs
          h)),
)

-- Where a configuration can be converted and none of its tags is empty, removing its inbounds or its
-- outbounds sends the removal of the first of them, once each and in order. Without an error it has
-- sent all of them, and there was at least one; after an error, those that had been sent stay removed.
pub remove_inbound-RemovedAll :
    (E : Env) (api : V2rayGrpcApi) (cfg : V2rayInstanceConfig) (c : V4Config) (h : History)
    → to_v2ray_v4_config E (some cfg) ≡ ok c
    → has_empty_tag c.inbound_configs ≡ false
    → has_empty_tag c.outbound_configs ≡ false
    → let addr = server_addr api.config in
      RemovedAll (Call.remove_inbound addr) c.inbound_configs h (remove_inbound E api cfg h)
      × RemovedAll (Call.remove_outbound addr) c.outbound_configs h (remove_outbound E api cfg h)
unfolding remove_inbound remove_outbound ◌>>=◌
remove_inbound-RemovedAll E api cfg c h converted full_in full_out = (
  rw (labelled-lift, converted)
      (removed_if _ c.inbound_configs h _ _ (
        rw (tags_of-full _ _ full_in)
          (remove_each-RemoveSpec Call.remove_inbound (λ a t h. E.remove_inbound h a t) _ _ _ h))),
  rw (labelled-lift, converted)
      (removed_if _ c.outbound_configs h _ _ (
        rw (tags_of-full _ _ full_out) (
          remove_each-RemoveSpec Call.remove_outbound (λ a t h. E.remove_outbound h a t) _ _ _ h))),
)
