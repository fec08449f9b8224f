-- ===== src/Msgs.antt =====
-- pset4/pancy_msgs.hh: the messages between clients and the replicated database.
use doom_draft.Base.{ℕ, Bool, false, not, ◌==◌}
use doom_draft.DocOps.{Bytes}

-- `int64_t`; `negsuc n` is -(n + 1).
pub data ℤ : Type 0 where
  pos : ℕ → ℤ
  negsuc : ℕ → ℤ

-- Versions of stored values are positive; 0 stands for an absent key.
abbrev pub nonexistent_version : ℕ
nonexistent_version = 0

abbrev pub any_version : ℤ
any_version = negsuc 0

pub data Errc : Type 0 where
  ok not_found no_match redirect : Errc

pub record GetRequest : Type 0 where
  pub serial : ℕ
  pub key : Bytes

pub record PutRequest : Type 0 where
  pub serial : ℕ
  pub key : Bytes
  pub value : Bytes
  pub version_match : ℤ

pub record CasRequest : Type 0 where
  pub serial : ℕ
  pub key : Bytes
  pub expected : Bytes
  pub desired : Bytes
  pub version_match : ℤ

pub record RemoveRequest : Type 0 where
  pub serial : ℕ
  pub key : Bytes
  pub version_match : ℤ

pub record GetResponse : Type 0 where
  pub serial : ℕ
  pub errcode : Errc
  pub value : Bytes
  pub version : ℕ

-- `put_response`, `cas_response` and `remove_response` have the same fields.
pub record Modification : Type 0 where
  pub serial : ℕ
  pub errcode : Errc
  pub actual : Bytes
  pub previous_version : ℕ
  pub version : ℕ

pub data Request : Type 0 where
  get_request : GetRequest → Request
  put_request : PutRequest → Request
  cas_request : CasRequest → Request
  remove_request : RemoveRequest → Request

pub data Response : Type 0 where
  redirection_response : ℕ → Errc → ℕ → Response
  get_response : GetResponse → Response
  put_response : Modification → Response
  cas_response : Modification → Response
  remove_response : Modification → Response

-- `message_serial`, of a request and of a response.
abbrev pub message_serial : Request → ℕ
message_serial (get_request r) = r.serial
message_serial (put_request r) = r.serial
message_serial (cas_request r) = r.serial
message_serial (remove_request r) = r.serial

abbrev pub response_serial : Response → ℕ
response_serial (redirection_response serial e r) = serial
response_serial (get_response r) = r.serial
response_serial (put_response r) = r.serial
response_serial (cas_response r) = r.serial
response_serial (remove_response r) = r.serial

abbrev pub response_errcode : Response → Errc
response_errcode (redirection_response serial e r) = e
response_errcode (get_response r) = r.errcode
response_errcode (put_response r) = r.errcode
response_errcode (cas_response r) = r.errcode
response_errcode (remove_response r) = r.errcode

-- `version_match >= 0 && version_match != version`.
abbrev pub mismatch : ℤ → ℕ → Bool
mismatch (pos n) version = not (n == version)
mismatch (negsuc n) version = false
