-- ===== src/Pbft/Fixtures.antt =====
-- Small states of a replica, for the tests.
use spree.Base.{list_eq, ℕ, true, false, none, some, [], ◌∷◌, nat_eq, List}
use spree.Pbft.Messages.{PrePrepare, Prepare, Commit, msg_id_eq}
use spree.Pbft.Core.{Config, Core, Env, MsgCert}
use spree.Pbft.Cert.{empty_cert}
use spree.Pbft.Normal.{msg_id}
use spree.Pbft.Init.{Settings, Stored}
use spree.Pbft.Replica.{Event, commit}

-- Four replicas, one of which may be faulty; this is replica 1, a backup of view 0.
abbrev pub four : Config
four = record {
  id = 1;
  n = 4;
  f = 1;
  k = 10;
  log_multiplier = 4;
  l = 40;
  replica_count = 4;
  byzantine = false;
  request_timeout = 2;
  vc_resend_timeout = 2;
  new_view_timeout = 2;
  null_request_timeout = 0;
  broadcast_timeout = 1;
  view_change_period = 0;
}

abbrev pub idle : Core
idle = record {
  config = four;
  active_view = true;
  h = 0;
  last_exec = 0;
  seq_no = 0;
  view = 0;
  chkpts = (0, []) ∷ [];
  pset = [];
  qset = [];
  skip_in_progress = false;
  state_transferring = false;
  high_state_target = none;
  h_chkpts = [];
  current_exec = none;
  timer_active = false;
  new_view_timer_reason = [];
  last_new_view_timeout = 2;
  outstanding_req_batches = [];
  view_change_seq_no = 1000;
  missing_req_batches = [];
  req_batch_store = [];
  cert_store = [];
  checkpoint_store = [];
  view_change_store = [];
  new_view_store = [];
  out = [];
}

-- Nothing can be marshalled, signatures are all right, and the hash is the identity.
abbrev pub mute : Env
mute = record {
  marshal_message = λ m. none;
  marshal_request_batch = λ b. none;
  marshal_pq_set = λ q. none;
  marshal_view_change = λ vc. none;
  shake_sum256 = λ b. b;
  sign = λ out b. none;
  verify = λ out id sig b. true;
  get_state = λ out. [];
  read_state_set = λ out prefix. none;
  go_byzantine = λ out. none;
}

abbrev pub prepare_of : ℕ → Prepare
prepare_of id = record { view = 0; sequence_number = 1; batch_digest = 7 ∷ []; replica_id = id }

abbrev pub commit_of : ℕ → Commit
commit_of id = record { view = 0; sequence_number = 1; batch_digest = 7 ∷ []; replica_id = id }

abbrev pub pre_prepare_of : PrePrepare
pre_prepare_of = record {
  view = 0;
  sequence_number = 1;
  batch_digest = 7 ∷ [];
  request_batch = none;
  replica_id = 0;
}

abbrev pub cert_with : List Prepare → List Commit → MsgCert
cert_with ps cs = record empty_cert {
  digest = 7 ∷ [];
  pre_prepare = some pre_prepare_of;
  sent_prepare = true;
  prepare = ps;
  sent_commit = true;
  commit = cs;
}

abbrev pub with_cert : MsgCert → Core
with_cert cert = record idle {
  req_batch_store = (7 ∷ [], none) ∷ [];
  cert_store = (msg_id 0 1, cert) ∷ [];
}

-- The batch is prepared, and two of the three commits are there.
abbrev pub nearly : Core
nearly = with_cert (cert_with (prepare_of 1 ∷ prepare_of 2 ∷ []) (commit_of 1 ∷ commit_of 2 ∷ []))

abbrev pub other : Core
other = with_cert (cert_with (prepare_of 2 ∷ prepare_of 3 ∷ []) [])

abbrev pub third_commit : Core
third_commit =
    with_cert
      (cert_with (prepare_of 1 ∷ prepare_of 2 ∷ []) (commit_of 1 ∷ commit_of 2 ∷ commit_of 3 ∷ []))

abbrev pub last_commit : List (ℕ × Event)
last_commit = (5, commit (commit_of 3)) ∷ []

abbrev pub settings_of_four : Settings
settings_of_four = record {
  n = 4;
  f = 1;
  k = 10;
  log_multiplier = 4;
  view_change_period = 0;
  byzantine = false;
  request = some 2;
  resend_view_change = some 2;
  view_change = some 2;
  null_request = none;
  broadcast = some 1;
}

-- A store that has nothing.
abbrev pub empty_store : Stored
empty_store = record {
  read_state = λ key. none;
  read_state_set = λ prefix. some [];
  last_seq_no = none;
  unmarshal_pq_set = λ raw. some [];
  unmarshal_request_batch = λ raw. none;
}
