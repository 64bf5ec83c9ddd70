-- ===== src/Rpc/Env.antt =====
-- What src/rpc.c calls and this development does not model: the HTTP library (evhttpx), the JSON
-- printer (cJSON), the clock and the storage engine; and an HTTP request as the handlers see it.
use reveldb.Prelude.{ℕ, Option, List, Bytes}
use reveldb.Engine.{LevelDb}
use reveldb.Rpc.Json.{Json}

-- `evhttpx_kv_t`: a header or a query argument
pub record Kv : Type 0 where
  pub key : Bytes
  pub val : Bytes

-- `evhttpx_proto`
pub data Proto : Type 0 where
  proto_invalid proto_10 proto_11 : Proto

-- `http_method_e`, as far as the handlers tell methods apart
pub data Method : Type 0 where
  method_get method_post : Method
  method_other : ℕ → Method

-- `evhttpx_request_t`
pub record Request : Type 0 where
  pub proto : Proto
  pub method : Method
  pub headers_in : List Kv
  pub query : List Kv

pub record Env : Type 1 where
  -- leveldb/c.h
  pub engine : LevelDb
  -- `evhttpx_kv_find`
  pub kv_find : List Kv → Bytes → Option Bytes
  -- `cJSON_PrintUnformatted`
  pub print_unformatted : Json → Bytes
  -- `gmttime_now`, at the time of the request
  pub now : Bytes
  -- What a block of memory holds before anything is written to it
  pub fill : ℕ → ℕ
