-- ===== src/Server/Body.antt =====
-- The bodies of the responses of simple_server_fixed.rs, and of simple_server.rs, as text: what
-- `format!` makes of the templates of `handle_request`.
pub mod Escapes
use wfl_db.Core.Decimal.{to_string, bool_text}
use wfl_db.Prelude.{length, false, String, true, ◌++◌, lit, Str, Bytes, Bool, ℕ}
use wfl_db.Server.Http.{Reply}

-- `String::from_utf8_lossy`, the text of a version, and the time that an echo shows.
module _ (from_utf8_lossy : Bytes → Str) (version_text : ℕ → Str) (timestamp : Str) where
  unfoldable pub body_text : Reply → Bytes
  body_text Reply.healthy =
      lit "{\"status\":\"healthy\",\"version\":\"0.1.0\",\"service\":\"wfldb\"}"
  body_text (Reply.echo bytes) =
      lit "{\"echo\":\""
      ++ from_utf8_lossy bytes
      ++ lit "\",\"size\":"
      ++ to_string (length bytes)
      ++ lit ",\"timestamp\":\""
      ++ timestamp
      ++ lit "\"}"
  body_text (Reply.stored id key size version chunked) =
      lit "{\"success\":true,\"bucket\":\""
      ++ id.as_str
      ++ lit "\",\"key\":\""
      ++ key.as_str
      ++ lit "\",\"size\":"
      ++ to_string size
      ++ lit ",\"version\":\""
      ++ version_text version
      ++ lit "\",\"chunked\":"
      ++ bool_text chunked
      ++ lit "}"
  body_text (Reply.raw bytes) = bytes
  body_text (Reply.deleted id key) =
      lit "{\"success\":true,\"bucket\":\""
      ++ id.as_str
      ++ lit "\",\"key\":\""
      ++ key.as_str
      ++ lit "\",\"deleted\":true}"
  body_text (Reply.error e) = lit "{\"error\":\"" ++ e ++ lit "\"}"
