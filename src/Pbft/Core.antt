-- ===== src/Pbft/Core.antt =====
-- The state of a replica, `pbftCore` of pbft/pbft.go, and what it calls outside itself.
-- The uint64 fields are natural numbers whose arithmetic wraps where the code computes.
use spree.Base.{ℕ, Bool, Option, List, [], ◌∷◌, Bytes, true, false}
use spree.Base.Map.{Map}
use spree.Pbft.Messages.{
  RequestBatch, PrePrepare, Prepare, Commit, Checkpoint, ViewChange, NewView, PqEntry, Message,
  Qidx, MsgId, Vcidx,
}

-- The fields that `NewPbftCore` sets and nothing changes. `n`, `k` and `l` are `N`, `K` and `L`;
-- `n`, `f` and `replica_count` are Go `int`s that are not negative. Durations are nanoseconds.
pub record Config : Type 0 where
  pub id : ℕ
  pub n : ℕ
  pub f : ℕ
  pub k : ℕ
  pub log_multiplier : ℕ
  pub l : ℕ
  pub replica_count : ℕ
  pub byzantine : Bool
  pub request_timeout : ℕ
  pub vc_resend_timeout : ℕ
  pub new_view_timeout : ℕ
  pub null_request_timeout : ℕ
  pub broadcast_timeout : ℕ
  pub view_change_period : ℕ

-- `msgCert`
pub record MsgCert : Type 0 where
  pub digest : Bytes
  pub pre_prepare : Option PrePrepare
  pub sent_prepare : Bool
  pub prepare : List Prepare
  pub sent_commit : Bool
  pub commit : List Commit

-- `stateUpdateTarget`, with its embedded `checkpointMessage`
pub record StateUpdateTarget : Type 0 where
  pub seq_no : ℕ
  pub id : Bytes
  pub replicas : List ℕ

-- The events that the code sends to itself: by its timers, or as the result of a handler.
pub data InternalEvent : Type 0 where
  view_change_timer : InternalEvent
  view_change_resend_timer : InternalEvent
  view_change_quorum : InternalEvent
  null_request : InternalEvent
  view_changed : InternalEvent

pub data TimerName : Type 0 where
  new_view_timer vc_resend_timer null_request_timer : TimerName

pub data TimerCall : Type 0 where
  soft_reset : ℕ → InternalEvent → TimerCall
  reset : ℕ → InternalEvent → TimerCall
  stop : TimerCall

-- The calls that a replica makes on its consumer (`innerStack`) and on its timers.
pub data Effect : Type 0 where
  broadcast : Bytes → Effect
  unicast : Bytes → ℕ → Effect
  execute : ℕ → Option RequestBatch → Effect
  skip_to : ℕ → Bytes → List ℕ → Effect
  invalidate_state : Effect
  store_state : Bytes → Bytes → Effect
  del_state : Bytes → Effect
  timer : TimerName → TimerCall → Effect

pub record Core : Type 0 where
  pub config : Config
  pub open config use *
  pub active_view : Bool
  pub h : ℕ
  pub last_exec : ℕ
  pub seq_no : ℕ
  pub view : ℕ
  pub chkpts : Map ℕ Bytes
  pub pset : Map ℕ PqEntry
  pub qset : Map Qidx PqEntry
  pub skip_in_progress : Bool
  pub state_transferring : Bool
  pub high_state_target : Option StateUpdateTarget
  pub h_chkpts : Map ℕ ℕ
  pub current_exec : Option ℕ
  pub timer_active : Bool
  pub new_view_timer_reason : Bytes
  pub last_new_view_timeout : ℕ
  pub outstanding_req_batches : Map Bytes (Option RequestBatch)
  pub view_change_seq_no : ℕ
  pub missing_req_batches : Map Bytes Bool
  pub req_batch_store : Map Bytes (Option RequestBatch)
  pub cert_store : Map MsgId MsgCert
  pub checkpoint_store : Map Checkpoint Bool
  pub view_change_store : Map Vcidx ViewChange
  pub new_view_store : Map ℕ NewView
  -- every call made so far, the newest first
  pub out : List Effect

-- What the code uses of packages outside the repository. The answers of the consumer may depend
-- on all the calls that it has had.
pub record Env : Type 0 where
  -- proto.Marshal; `none` is an error
  pub marshal_message : Message → Option Bytes
  pub marshal_request_batch : Option RequestBatch → Option Bytes
  pub marshal_pq_set : List PqEntry → Option Bytes
  pub marshal_view_change : ViewChange → Option Bytes
  -- sha3.ShakeSum256 with 64 bytes of output
  pub shake_sum256 : Bytes → Bytes
  -- the consumer
  pub sign : List Effect → Bytes → Option Bytes
  pub verify : List Effect → ℕ → Bytes → Bytes → Bool
  pub get_state : List Effect → Bytes
  pub read_state_set : List Effect → Bytes → Option (Map Bytes Bytes)
  -- the random choice of `innerBroadcast`: the replica left out, if it goes byzantine
  pub go_byzantine : List Effect → Option ℕ

-- A panic, `logger.Fatal`, or a call that the fuel of the model does not reach.
pub data Fault : Type 0 where
  panic fatal out_of_fuel : Fault

-- A method that ends in a fault leaves the state as it is at that point.
pub data Outcome (A : Type 0) : Type 0 where
  ok : A → Core → Outcome A
  fault : Fault → Core → Outcome A

abbrev pub final : {A : Type 0} → Outcome A → Core
final (ok a s) = s
final (fault x s) = s

-- A method of `pbftCore`.
abbrev pub M : Type 0 → Type 0
M A = Core → Outcome A

abbrev pub and_then : {A B : Type 0} → Outcome A → (A → M B) → Outcome B
and_then (ok a s) f = f a s
and_then (fault x s) f = fault x s

unfoldable pub pure : {A : Type 0} → A → M A
pure a s = ok a s

unfoldable pub skip : M (Unit {0})
skip s = ok tt s

unfoldable pub get : M Core
get s = ok s s

unfoldable pub modify : (Core → Core) → M (Unit {0})
modify g s = ok tt (g s)

unfoldable pub raise : {A : Type 0} → Fault → M A
raise x s = fault x s

abbrev pub emit : Effect → M (Unit {0})
emit e = modify (λ s. record s { out = e ∷ s.out })

-- A test of a method. A test between values is written `cond`.
infix 1 if◌then◌else◌
unfoldable pub if◌then◌else◌ : {A : Type 0} → Bool → M A → M A → M A
if true then m else n = m
if false then m else n = n

-- To open this is to open all of the above.
infixl 5 ◌>>=◌ ◌>>◌
unfoldable pub ◌>>=◌ : {A B : Type 0} → M A → (A → M B) → M B
unfolding pure skip get modify raise if◌then◌else◌
◌>>=◌ m f s = and_then (m s) f

abbrev pub ◌>>◌ : {A B : Type 0} → M A → M B → M B
m >> k = m >>= λ _. k

-- `for _, a := range as { body(a) }`
unfoldable pub for_each : {A : Type 0} → List A → (A → M (Unit {0})) → M (Unit {0})
unfolding ◌>>=◌
for_each [] body = skip
for_each (a ∷ rest) body = body a >> for_each rest body
