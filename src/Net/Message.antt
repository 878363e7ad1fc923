-- ===== src/Net/Message.antt =====
-- The kinds of the messages of wfldb-net/src/lib.rs.
pub mod Request
pub mod Response
use wfl_db.Prelude.{lit, Str}

pub data RequestType : Type 0 where
  get : RequestType
  put : RequestType
  delete : RequestType
  scan : RequestType
  batch : RequestType

pub data ResponseStatus : Type 0 where
  ok : ResponseStatus
  not_found : ResponseStatus
  error : ResponseStatus
  unauthorized : ResponseStatus

-- `format!("{:?}", request_type)`
abbrev pub type_text : RequestType → Str
type_text get = lit "Get"
type_text put = lit "Put"
type_text delete = lit "Delete"
type_text scan = lit "Scan"
type_text batch = lit "Batch"

-- `format!("{:?}", status)`
abbrev pub status_text : ResponseStatus → Str
status_text ok = lit "Ok"
status_text not_found = lit "NotFound"
status_text error = lit "Error"
status_text unauthorized = lit "Unauthorized"
