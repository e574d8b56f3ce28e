-- ===== src/Cluster/Adds.antt =====
-- Histories that go on by calls that pass a test, which reads a call and the calls before it, and the
-- servers that a connection has been made to.
use v2ray_operator.Prelude.{
  String, Bool, true, false, ◌||◌, Option, none, some, [], ◌∷◌, ◌==◌, ◌≡◌, arith, if◌then◌else◌,
}
use v2ray_operator.Cluster.Requests.{Call, History}
use v2ray_operator.Cluster.Effect.{Reply, ok, err}
use v2ray_operator.Cluster.Env.{Env}

-- The second history goes on from the first by calls that pass the test.
pub data Adds (P : History → Call → Bool) : History → History → Type 0 where
  stop : {h : History} → Adds P h h
  more : {h h' : History} (c : Call) → P h' c ≡ true → Adds P h h' → Adds P h (c ∷ h')

pub Adds-trans :
    {P : History → Call → Bool} {h h' h'' : History} → Adds P h h' → Adds P h' h'' → Adds P h h''
Adds-trans a stop = a
Adds-trans a (more c p b) = more c p (Adds-trans a b)

pub Adds-weaken :
    {P Q : History → Call → Bool} {h h' : History}
    → ((h : History) (c : Call) → P h c ≡ true → Q h c ≡ true)
    → Adds P h h'
    → Adds Q h h'
Adds-weaken sub stop = stop
Adds-weaken sub (more c p a) = more c (sub _ c p) (Adds-weaken sub a)

abbrev answered : Reply (Unit {0}) → Bool
answered (ok _) = true
answered (err e) = false

-- A connection to the server at the address has been made.
abbrev pub connected : Env → String → History → Bool
connected E addr [] = false
connected E addr (Call.dial a ∷ h) =
    let rest = connected E addr h in if answered (E.dial h a) then (a == addr) || rest else rest
connected E addr (_ ∷ h) = connected E addr h

connected-cons :
    (E : Env) (addr : String) (c : Call) (h : History)
    → connected E addr h ≡ true
    → connected E addr (c ∷ h) ≡ true
connected-cons E addr (Call.dial a) h now = ground arith
connected-cons E addr _ h now = now

-- The server that an action may count on.
abbrev pub Ready : Env → Option String → History → Type 0
Ready E none h = Unit
Ready E (some addr) h = connected E addr h ≡ true

pub Ready-Adds :
    {P : History → Call → Bool} (E : Env) (server : Option String) {h h' : History}
    → Adds P h h'
    → Ready E server h
    → Ready E server h'
Ready-Adds E none a now = tt
Ready-Adds E (some addr) stop now = now
Ready-Adds E (some addr) (more c p a) now =
    connected-cons E addr c _ (Ready-Adds E (some addr) a now)
