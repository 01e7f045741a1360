-- ===== src/Pbft/Wire/Tests.antt =====
-- A protobuf library that can encode commits and byte slices only, and the laws at it.
use spree.Base.{
  ℕ, zero, suc, ◌≡◌, refl, false, true, Option, none, some, [], ◌∷◌, ◌++◌, Bytes, length, arith, ap,
  sym, ◌∙◌, some_inj, codes,
}
use spree.Pbft.Messages.{Commit, commit, BatchPayload}
use spree.Pbft.Wire.{marshal_case, Decoded, Codec, Proto, IsCodec, IsProto}
use spree.Pbft.Wire.Case.{ReadsBack}
use spree.Pbft.Wire.MessageField.{
  message_oneof_marshaler, message_oneof_sizer, message_oneof_unmarshaler,
}
use spree.Pbft.Wire.BatchMessageField.{
  batch_message_oneof_marshaler, batch_message_oneof_sizer, batch_message_oneof_unmarshaler,
}
use spree.Pbft.Wire.Getters.{first_answer, getters_lem}
use spree.Pbft.Wire.Laws.{message_oneof_lem, batch_message_oneof_lem}

-- The first `n` bytes with what comes behind them.
abbrev split : ℕ → Bytes → Decoded Bytes
split zero b = record { value = []; failed = false; rest = b }
split (suc n) [] = record { value = []; failed = true; rest = [] }
split (suc n) (x ∷ b) =
    let d = split n b in record { value = x ∷ d.value; failed = d.failed; rest = d.rest }

split-append :
    (x rest : Bytes)
    → split (length x) (x ++ rest) ≡ record { value = x; failed = false; rest = rest }
split-append [] rest = refl
split-append (a ∷ x) rest =
    ap (λ (d : Decoded Bytes). record { value = a ∷ d.value; failed = d.failed; rest = d.rest })
      (split-append x rest)

abbrev read_block : Bytes → Decoded Bytes
read_block [] = record { value = []; failed = true; rest = [] }
read_block (n ∷ b) = split n b

abbrev commit_of : Bytes → Commit
commit_of (v ∷ n ∷ i ∷ d) = record {
  view = v;
  sequence_number = n;
  batch_digest = d;
  replica_id = i;
}
commit_of _ = record { view = 0; sequence_number = 0; batch_digest = []; replica_id = 0 }

abbrev block_of : Commit → Bytes
block_of c = c.view ∷ c.sequence_number ∷ c.replica_id ∷ c.batch_digest

abbrev commit_decoded : Decoded Bytes → Decoded Commit
commit_decoded d = record { value = commit_of d.value; failed = d.failed; rest = d.rest }

abbrev commit_codec : Codec Commit
commit_codec = record {
  encode = λ c. some (length (block_of c) ∷ block_of c);
  decode = λ b. commit_decoded (read_block b);
  size = λ c. length (block_of c);
}

abbrev no_codec : {A : Type 0} → A → Codec A
no_codec a = record {
  encode = λ x. none;
  decode = λ b. record { value = a; failed = true; rest = b };
  size = λ x. 0;
}

abbrev head_varint : Bytes → Option (ℕ × Bytes)
head_varint [] = none
head_varint (n ∷ b) = some (n, b)

abbrev proto : Proto
proto = record {
  encode_varint = λ n. n ∷ [];
  decode_varint = head_varint;
  size_varint = λ n. 1;
  encode_raw_bytes = λ x. length x ∷ x;
  decode_raw_bytes = read_block;
  request = no_codec (record { timestamp = none; payload = []; replica_id = 0; signature = [] });
  request_batch = no_codec (record { batch = [] });
  pre_prepare = no_codec (record {
    view = 0;
    sequence_number = 0;
    batch_digest = [];
    request_batch = none;
    replica_id = 0;
  });
  prepare = no_codec (record { view = 0; sequence_number = 0; batch_digest = []; replica_id = 0 });
  commit = commit_codec;
  checkpoint = no_codec (record { sequence_number = 0; replica_id = 0; id = [] });
  view_change =
      no_codec (record {
        view = 0;
        h = 0;
        cset = [];
        pset = [];
        qset = [];
        replica_id = 0;
        signature = [];
      });
  new_view = no_codec (record { view = 0; vset = []; xset = []; replica_id = 0 });
  fetch_request_batch = no_codec (record { batch_digest = []; replica_id = 0 });
}

no_codec-IsCodec : {A : Type 0} (a : A) → IsCodec proto (no_codec a)
no_codec-IsCodec a = record {
  decode-encode = λ x frame rest e. cc;
  length-encode = λ x frame e. cc;
}

commit_codec-IsCodec : IsCodec proto commit_codec
commit_codec-IsCodec = record {
  decode-encode = λ c frame rest e.
      ap (λ b. commit_decoded (read_block (b ++ rest))) (sym (some_inj e))
      ∙ ap commit_decoded (split-append (block_of c) rest);
  length-encode = λ c frame e. omega (arith, ap length (some_inj e));
}

proto-IsProto : IsProto proto
proto-IsProto = record {
  decode_varint-encode = λ n rest. refl;
  length-encode_varint = λ n. refl;
  decode_raw_bytes-encode = λ x rest. split-append x rest;
  length-encode_raw_bytes = λ x. omega arith;
  request = no_codec-IsCodec _;
  request_batch = no_codec-IsCodec _;
  pre_prepare = no_codec-IsCodec _;
  prepare = no_codec-IsCodec _;
  commit = commit_codec-IsCodec;
  checkpoint = no_codec-IsCodec _;
  view_change = no_codec-IsCodec _;
  new_view = no_codec-IsCodec _;
  fetch_request_batch = no_codec-IsCodec _;
}

abbrev sample : Commit
sample = record { view = 1; sequence_number = 7; batch_digest = codes "d"; replica_id = 2 }

abbrev sample_bytes : Bytes
sample_bytes = 34 ∷ 4 ∷ 1 ∷ 7 ∷ 2 ∷ codes "d"

sample_marshaled : message_oneof_marshaler proto (some (commit sample)) ≡ some sample_bytes
unfolding message_oneof_marshaler marshal_case
sample_marshaled = refl

message_oneof_lem_example :
    ReadsBack proto (message_oneof_unmarshaler proto) (commit sample) none sample_bytes (0 ∷ [])
    × (message_oneof_sizer proto (some (commit sample)) ≡ 6)
message_oneof_lem_example =
    message_oneof_lem proto proto-IsProto (commit sample) none sample_bytes (0 ∷ [])
      sample_marshaled

pbft_message_marshaled :
    batch_message_oneof_marshaler proto (some (BatchPayload.pbft_message (codes "m")))
    ≡ some (26 ∷ 1 ∷ codes "m")
unfolding batch_message_oneof_marshaler marshal_case
pbft_message_marshaled = refl

batch_message-ReadsBack :
    ReadsBack proto
      (batch_message_oneof_unmarshaler proto)
      (BatchPayload.pbft_message (codes "m"))
      none
      (26 ∷ 1 ∷ codes "m")
      []
    × (batch_message_oneof_sizer proto (some (BatchPayload.pbft_message (codes "m"))) ≡ 3)
batch_message-ReadsBack =
    batch_message_oneof_lem proto proto-IsProto (BatchPayload.pbft_message (codes "m")) none
      (26 ∷ 1 ∷ codes "m") [] pbft_message_marshaled

commit_answers : first_answer (some (some (commit sample))) ≡ some (commit sample)
commit_answers = getters_lem (some (some (commit sample)))
