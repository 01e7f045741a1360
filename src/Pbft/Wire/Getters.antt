-- ===== src/Pbft/Wire/Getters.antt =====
-- The generated accessors of pbft/messages.go. A message is a pointer to a struct with the field
-- `payload`: `none` is nil, `some none` a message whose payload is nil.
use spree.Base.{◌≡◌, refl, Option, none, some}
use spree.Pbft.Messages.{
  RequestBatch, PrePrepare, Prepare, Commit, Checkpoint, ViewChange, NewView, FetchRequestBatch,
  Message, request_batch, pre_prepare, prepare, commit, checkpoint, view_change, new_view,
  fetch_request_batch, return_request_batch,
}

-- `GetPayload`
abbrev pub get_payload : {P : Type 0} → Option (Option P) → Option P
get_payload none = none
get_payload (some payload) = payload

abbrev pub as_request_batch : Option Message → Option RequestBatch
as_request_batch (some (request_batch x)) = some x
as_request_batch _ = none

abbrev pub as_pre_prepare : Option Message → Option PrePrepare
as_pre_prepare (some (pre_prepare x)) = some x
as_pre_prepare _ = none

abbrev pub as_prepare : Option Message → Option Prepare
as_prepare (some (prepare x)) = some x
as_prepare _ = none

abbrev pub as_commit : Option Message → Option Commit
as_commit (some (commit x)) = some x
as_commit _ = none

abbrev pub as_checkpoint : Option Message → Option Checkpoint
as_checkpoint (some (checkpoint x)) = some x
as_checkpoint _ = none

abbrev pub as_view_change : Option Message → Option ViewChange
as_view_change (some (view_change x)) = some x
as_view_change _ = none

abbrev pub as_new_view : Option Message → Option NewView
as_new_view (some (new_view x)) = some x
as_new_view _ = none

abbrev pub as_fetch_request_batch : Option Message → Option FetchRequestBatch
as_fetch_request_batch (some (fetch_request_batch x)) = some x
as_fetch_request_batch _ = none

abbrev pub as_return_request_batch : Option Message → Option RequestBatch
as_return_request_batch (some (return_request_batch x)) = some x
as_return_request_batch _ = none

-- `GetRequestBatch`
unfoldable pub get_request_batch : Option (Option Message) → Option RequestBatch
get_request_batch m = as_request_batch (get_payload m)

-- `GetPrePrepare`
unfoldable pub get_pre_prepare : Option (Option Message) → Option PrePrepare
get_pre_prepare m = as_pre_prepare (get_payload m)

-- `GetPrepare`
unfoldable pub get_prepare : Option (Option Message) → Option Prepare
get_prepare m = as_prepare (get_payload m)

-- `GetCommit`
unfoldable pub get_commit : Option (Option Message) → Option Commit
get_commit m = as_commit (get_payload m)

-- `GetCheckpoint`
unfoldable pub get_checkpoint : Option (Option Message) → Option Checkpoint
get_checkpoint m = as_checkpoint (get_payload m)

-- `GetViewChange`
unfoldable pub get_view_change : Option (Option Message) → Option ViewChange
get_view_change m = as_view_change (get_payload m)

-- `GetNewView`
unfoldable pub get_new_view : Option (Option Message) → Option NewView
get_new_view m = as_new_view (get_payload m)

-- `GetFetchRequestBatch`
unfoldable pub get_fetch_request_batch : Option (Option Message) → Option FetchRequestBatch
get_fetch_request_batch m = as_fetch_request_batch (get_payload m)

-- `GetReturnRequestBatch`
unfoldable pub get_return_request_batch : Option (Option Message) → Option RequestBatch
get_return_request_batch m = as_return_request_batch (get_payload m)

-- The payload of the first accessor that answers.
abbrev or_else : {A : Type 0} → Option A → (A → Message) → Option Message → Option Message
or_else none wrap other = other
or_else (some x) wrap other = some (wrap x)

abbrev pub first_answer : Option (Option Message) → Option Message
first_answer m = or_else (get_request_batch m) request_batch (
    or_else (get_pre_prepare m) pre_prepare (
      or_else (get_prepare m) prepare (
        or_else (get_commit m) commit (
          or_else (get_checkpoint m) checkpoint (
            or_else (get_view_change m) view_change (
              or_else (get_new_view m) new_view (
                or_else (get_fetch_request_batch m) fetch_request_batch
                  (or_else (get_return_request_batch m) return_request_batch none))))))))

-- For every message, the nine accessors of `Message` together tell its payload: it is the one for
-- which an accessor answers, with that answer, and nil where the message or the payload is nil.
pub getters_lem : (m : Option (Option Message)) → first_answer m ≡ get_payload m
unfolding get_request_batch get_pre_prepare get_prepare get_commit get_checkpoint get_view_change
    get_new_view get_fetch_request_batch get_return_request_batch
getters_lem none = refl
getters_lem (some none) = refl
getters_lem (some (some (request_batch x))) = refl
getters_lem (some (some (pre_prepare x))) = refl
getters_lem (some (some (prepare x))) = refl
getters_lem (some (some (commit x))) = refl
getters_lem (some (some (checkpoint x))) = refl
getters_lem (some (some (view_change x))) = refl
getters_lem (some (some (new_view x))) = refl
getters_lem (some (some (fetch_request_batch x))) = refl
getters_lem (some (some (return_request_batch x))) = refl
