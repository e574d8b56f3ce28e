-- ===== src/User/Registered.antt =====
-- What the v2ray servers hold: whether a user is registered for an inbound of a server, read off the
-- calls made and their answers.
pub mod Loop
pub mod Ends
pub mod Reaches
pub mod Rollback
use v2ray_operator.Prelude.{
  String, Bool, true, false, ◌&&◌, List, [], ◌∷◌, ◌==◌, Bool-cases, inl, inr, ◌≡◌, refl,
  if◌then◌else◌, arith,
}
use v2ray_operator.Prelude.Text.{contains}
use v2ray_operator.Api.Core.{Service}
use v2ray_operator.V2fly.Config.{server_addr}
use v2ray_operator.V2fly.Grpc.{V2rayGrpcApi, alter_inbound, altered, already_exists}
use v2ray_operator.Cluster.Effect.{
  Error, Reply, ok, err, Outcome, done, failed, panicked, M, lift, settle, ◌>>=◌,
}
use v2ray_operator.Cluster.Requests.{
  ProtocolUser, InboundOperation, add_user, remove_user, Call, History,
}
use v2ray_operator.Cluster.Env.{Env}
use v2ray_operator.Cluster.Trace.{attempt-request}

abbrev pub email_of : InboundOperation → String
email_of (add_user u) = u.email
email_of (remove_user email) = email

-- The user is there after an addition, and not after a removal.
abbrev pub holds_after : InboundOperation → Bool
holds_after (add_user u) = true
holds_after (remove_user email) = false

-- A request that is refused changes nothing.
abbrev pub after_answer : InboundOperation → Reply (Unit {0}) → Bool → Bool
after_answer op (ok _) before = holds_after op
after_answer op (err e) before = before

-- One server, one inbound and one user, with what was there before the first call.
module _ (E : Env) (start : Bool) (addr tag email : String) where
  abbrev pub concerns : String → String → InboundOperation → Bool
  concerns a t op = (a == addr) && (t == tag) && (email_of op == email)

  abbrev pub registered : History → Bool
  registered [] = start
  registered (Call.alter_inbound a t op ∷ h) =
      let before = registered h in
      if concerns a t op then after_answer op (E.alter_inbound h a t op) before else before
  registered (_ ∷ h) = registered h

  -- A server says that a user exists only if it does.
  abbrev pub Honest : Type 0
  Honest =
      (h : History) (a t : String) (u : ProtocolUser) (e : Error)
      → E.alter_inbound h a t (add_user u) ≡ err e
      → contains e.text (already_exists u.email) ≡ true
      → concerns a t (add_user u) ≡ true
      → registered h ≡ true

  -- The state after an outcome that is no error; nothing is said of another.
  abbrev pub DoneWith {ℓ} : {A : Type ℓ} → Bool → Outcome A × History → Type 0
  DoneWith b (done a, h) = registered h ≡ b
  DoneWith b (failed e, h) = Unit
  DoneWith b (panicked m, h) = Unit

  settled :
      (api : V2rayGrpcApi) (t : String) (op : InboundOperation) (h : History) (r : Reply (Unit {0}))
      → Honest
      → E.alter_inbound h (server_addr api.config) t op ≡ r
      → DoneWith
          (if concerns (server_addr api.config) t op then holds_after op else registered h)
          (settle (altered op r), Call.alter_inbound (server_addr api.config) t op ∷ h)
  unfolding altered
  settled api t op h (ok a) honest answer = rw answer (ground arith)
  settled api t (remove_user m) h (err e) honest answer = tt
  settled api t (add_user u) h (err e) honest answer =
      elim (Bool-cases (contains e.text (already_exists u.email))) [
        | inl exists ↦
            rw exists
              (rw answer (ground (arith, honest h (server_addr api.config) t u e answer exists)))
        | inr unknown ↦ rw unknown tt
      ]

  pub DoneWith-alter_inbound :
      (api : V2rayGrpcApi) (t : String) (op : InboundOperation) (h : History)
      → Honest
      → DoneWith
          (if concerns (server_addr api.config) t op then holds_after op else registered h)
          (alter_inbound E api t op h)
  unfolding alter_inbound ◌>>=◌
  DoneWith-alter_inbound api t op h honest = rw attempt-request (settled api t op h _ honest refl)
