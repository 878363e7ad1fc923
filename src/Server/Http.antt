-- ===== src/Server/Http.antt =====
-- Requests and responses, as far as the handlers of wfldb-server/src look at them.
use wfl_db.Prelude.{ℕ, Bool, Bytes, Str}
use wfl_db.Core.Outcome.{Answer}
use wfl_db.Core.BucketId.{BucketId}
use wfl_db.Core.Key.{Key}

pub data Method : Type 0 where
  get put post delete other : Method

-- `body` is what collecting the body gives: its bytes, or an error of the connection.
pub record Request : Type 0 where
  pub method : Method
  pub path : Str
  pub body : Answer Bytes

-- The bodies that the handlers format, by what they show.
pub data Reply : Type 0 where
  healthy : Reply
  echo : Bytes → Reply
  stored : BucketId → Key → ℕ → ℕ → Bool → Reply
  raw : Bytes → Reply
  deleted : BucketId → Key → Reply
  error : Str → Reply

-- A response of the simple server: `headers` gives its headers and `body_text` its body.
pub record Response : Type 0 where
  pub status : ℕ
  pub reply : Reply

abbrev pub respond : ℕ → Reply → Response
respond status reply = record { status = status; reply = reply }
