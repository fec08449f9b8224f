-- ===== src/Examples/Commits.antt =====
-- The commits of the server at concrete inputs.
use doom_draft.Base.{
  ◌+◌, ℕ, ◌≤◌, ◌≡◌, ◌⊎◌, inl, refl, true, false, List, [], ◌∷◌, ◌++◌, Option, some, none, length,
  arith, codes, ◌==◌, if◌then◌else◌,
}
use doom_draft.OrdMap.{find, same_key}
use doom_draft.Keys.{bytes_ord}
use doom_draft.DocOps.{Bytes, insert_op, delete_op}
use doom_draft.DocState.{CommittedOp, collect_ops, sort_ops, read_ops, replay, reconstruct}
use doom_draft.DocState.Replay.{put_op}
use doom_draft.Msgs.{Errc, Response, response_serial, put_response, redirection_response}
use doom_draft.Db.{PancyDb, empty_db}
use doom_draft.Db.Invariant.{empty-Inv}
use doom_draft.Http.Text.{valid_doc_id, all_id_bytes}
use doom_draft.Http.Registry.{parse_docs_registry, docs_registry_key}
use doom_draft.Http.Frames.{Reply, hash_client_id}
use doom_draft.Http.Cache.{PerDocCache, ServerCacheState, empty_cache, empty_server, upgrade, doc}
use doom_draft.Http.Cache.Mirrors.{Mirrors}
use doom_draft.ClientModel.{take_response}
use doom_draft.ClientModel.Waiters.{NoneOf, take_response-NoneOf, take_response_commute}
use doom_draft.Lockseq.Client.{new_client, begin_sequence}
use doom_draft.Lockseq.Client.Phases.{Phased}
use doom_draft.Lockseq.Client.Run.{Steps, begins, Steps-Phased}
use doom_draft.Lockseq.Accepted.{Left, done, holding}
use doom_draft.Http.Submit.{HttpClientModel, submit_put}
use doom_draft.Http.Submit.Answered.{Answered, submit_put-Answered}
use doom_draft.Http.Submit.Retry.{NeverIn, submit_put-OnlyOne, submit_put-AllRedirect}
use doom_draft.Http.Handlers.{begin_post_op, end_post_op, PostedOp, version_reply}
use doom_draft.Http.Handlers.Begin.{TurnedAway, Submits, begin_post_op-Reads}
use doom_draft.Http.Handlers.Commit.{end_post_op-Mirrors}
use doom_draft.Http.Stream.{open_stream, stream_rounds, emit_ops}
use doom_draft.Http.Stream.Rounds.{Advances, stream_rounds-Advances}
use doom_draft.Http.Stream.Delivery.{newer, events, emit_ops-newer}
use doom_draft.Http.Server.{begin_post_docs, replies, bad_docs, submits_docs}
use doom_draft.Http.Server.Polling.{run_http_server}
use doom_draft.Http.Server.Registered.{Registered}
use doom_draft.Http.Server.Reached.{starts, Reached-Registered, begin_post_docs-parse_docs_registry}

-- The answer of version 4 to a put, and a redirection to replica 2.
abbrev put_four : Response
put_four =
    put_response
      (record { serial = 4096; errcode = Errc.ok; actual = []; previous_version = 0; version = 4 })

abbrev to_two : Response
to_two = redirection_response 8192 Errc.redirect 2

take_response-NoneOf_example :
    (front : List Response) × (back : List Response) × (put_four ∷ to_two ∷ []
      ≡ front ++ to_two ∷ back)
    × (put_four ∷ [] ≡ front ++ back)
    × (response_serial to_two ≡ 8192)
    × NoneOf 8192 front
unfolding take_response
take_response-NoneOf_example =
    take_response-NoneOf 8192 (put_four ∷ to_two ∷ []) to_two (put_four ∷ []) refl

take_response_commute_example :
    (p : List Response) × (take_response 8192 (put_four ∷ to_two ∷ []) ≡ some (to_two, p))
    × (take_response 4096 p ≡ some (put_four, []))
unfolding take_response
take_response_commute_example =
    take_response_commute 4096 8192 (put_four ∷ to_two ∷ []) put_four to_two (to_two ∷ []) []
      (omega arith) refl refl

abbrev client : HttpClientModel
client = record { leader = 0; next_serial_offset = 0 }

-- Only replica 2 answers.
abbrev from_two : ℕ → ℕ → Option Response
from_two tries replica = if replica == 2 then some put_four else none

submit_put-Answered_example :
    let (s, c') = submit_put 3 client from_two in
    (length s.asked ≤ 12)
    × (((s.version ≡ 0) × (c'.leader ≡ client.leader))
        ⊎ (Answered from_two 0 s × (s.leader ≡ some c'.leader)))
submit_put-Answered_example = submit_put-Answered 3 client from_two

submit_put-OnlyOne_example :
    ((submit_put 3 client from_two).0.version ≡ 4)
    × ((submit_put 3 client from_two).1.leader ≡ 2)
    × (length (submit_put 3 client from_two).0.asked ≤ 3)
submit_put-OnlyOne_example =
    submit_put-OnlyOne 3 2 4 client from_two (omega arith) (omega arith) (omega arith)
      (λ t r h. ground (arith, h), λ t. (_, refl, refl, refl))

-- Every replica but 2 redirects to it.
abbrev redirecting : ℕ → ℕ → Option Response
redirecting tries replica = if replica == 2 then some put_four else some to_two

submit_put-AllRedirect_example :
    ((submit_put 3 client redirecting).0.version ≡ 0)
    × NeverIn 2 (submit_put 3 client redirecting).0.asked
submit_put-AllRedirect_example =
    submit_put-AllRedirect 3 2 client redirecting
      (λ t r h. (8192, Errc.redirect, ground (arith, h))) refl (omega arith)

abbrev posted_body : Bytes
posted_body = codes "{\"type\":\"I\",\"pos\":0,\"text\":\"hi\",\"client_id\":\"c_1\",\"seq\":0}"

begin_post_op-Reads_example :
    TurnedAway empty_server posted_body (begin_post_op empty_server (codes "m") posted_body)
    ⊎ Submits empty_server
        (codes "m")
        posted_body
        (begin_post_op empty_server (codes "m") posted_body)
begin_post_op-Reads_example = begin_post_op-Reads empty_server (codes "m") posted_body tt

abbrev posted : PostedOp
posted = record { op = insert_op 0 (codes "hi"); client_id = codes "c_1"; seq = 0 }

abbrev after_post : ServerCacheState × Reply
after_post = end_post_op empty_server (codes "m") posted empty_db.next_version

abbrev after_put : PancyDb
after_put =
    put_op empty_db (codes "m") 5 (hash_client_id (codes "c_1")) 0 (insert_op 0 (codes "hi"))

end_post_op-Mirrors_example :
    Mirrors after_put (codes "m") (doc after_post.0 (codes "m"))
    × (after_post.1 ≡ version_reply empty_db.next_version)
    × ((j : Bytes) → same_key (codes "m") j ≡ false → doc after_post.0 j ≡ doc empty_server j)
unfolding find upgrade read_ops sort_ops collect_ops reconstruct replay
end_post_op-Mirrors_example =
    end_post_op-Mirrors empty_server (codes "m") posted empty_db 5 tt empty-Inv refl (omega arith)
      (omega arith) (inl ((refl, refl, refl), refl))

-- Operations of versions 4, 6 and 9.
abbrev op_of : ℕ → CommittedOp
op_of version = record {
  version = version;
  client_id = 3;
  client_seq = version;
  op = delete_op 0 1;
  client_id_label = [];
}

abbrev late_cache : PerDocCache
late_cache = record empty_cache { ops = op_of 4 ∷ op_of 6 ∷ []; version = 6 }

stream_rounds-Advances_example :
    Advances
      (open_stream 4 9)
      (stream_rounds ((true, late_cache, late_cache) ∷ []) (open_stream 4 9)).0
stream_rounds-Advances_example =
    stream_rounds-Advances ((true, late_cache, late_cache) ∷ []) (open_stream 4 9)

emit_ops-newer_example :
    ((emit_ops (op_of 4 ∷ op_of 6 ∷ []) (open_stream 4 9)).1 ≡ true)
    × ((emit_ops
          (op_of 4 ∷ op_of 6 ∷ op_of 9 ∷ [])
          (emit_ops (op_of 4 ∷ op_of 6 ∷ []) (open_stream 4 9)).0).1
        ≡ true)
    × ((emit_ops
          (op_of 4 ∷ op_of 6 ∷ op_of 9 ∷ [])
          (emit_ops (op_of 4 ∷ op_of 6 ∷ []) (open_stream 4 9)).0).0.sent
        ≡ events (newer 4 (op_of 4 ∷ op_of 6 ∷ op_of 9 ∷ [])))
emit_ops-newer_example =
    emit_ops-newer (op_of 4 ∷ op_of 6 ∷ []) (op_of 9 ∷ []) (open_stream 4 9)
      ((omega arith, (omega arith, tt)), ((omega arith, tt), (tt, tt))) (omega arith)

abbrev started : ServerCacheState
started = run_http_server empty_db (codes "m") empty_server

Reached-Registered_example : Registered started
unfolding valid_doc_id all_id_bytes
Reached-Registered_example = Reached-Registered none (codes "m") started refl (starts empty_db)

begin_post_docs-parse_docs_registry_example :
    (let (g', served) = begin_post_docs started (some (codes "a")) in
      ((valid_doc_id (codes "a") ≡ false) × (g' ≡ started) × (served ≡ replies bad_docs))
      ⊎ ((value : Bytes) × (served ≡ submits_docs (codes "a") docs_registry_key value)
          × (parse_docs_registry value ≡ g'.known_docs)
          × (find (codes "a") g'.known_docs ≡ some tt)))
unfolding valid_doc_id all_id_bytes
begin_post_docs-parse_docs_registry_example =
    begin_post_docs-parse_docs_registry none (codes "m") started (codes "a") refl (starts empty_db)

abbrev versions_from : ℕ → ℕ → ℕ
versions_from n i = n + i

-- In group 5 client 3 holds the lock and wrote one of two values; group 6 is finished.
abbrev two_groups : List Left
two_groups =
    holding 5 (versions_from 20) 30 1 1 (codes "c3 ab") (codes "c5 12")
    ∷ done 6 (versions_from 40) 2 (codes "c4 e0")
    ∷ []

-- Client 3 after it chose two values for group 7.
Steps-Phased_example : Phased 3 (begin_sequence 3 7 (codes "ab") 2 (new_client 0 3))
Steps-Phased_example =
    Steps-Phased 3 (begin_sequence 3 7 (codes "ab") 2 (new_client 0 3)) (omega arith)
      (begins 7 2 (codes "ab") refl (omega arith) (omega arith) (Steps.starts 0))
