-- ===== src/Redis/Client.antt =====
-- The redis++ client, a parameter: what each command answers, and what it makes of the store.
use outgame_lobby_server.Prelude.{ℕ, List, Option, Bytes}

-- A command answers, or throws a `sw::redis::Error`.
pub data Reply (A : Type 0) : Type 0 where
  answered : A → Reply A
  failed : Reply A

-- `hget_all` is a pipeline of `HGET` commands for one field, each with its own reply.
pub record Redis : Type 1 where
  pub Store : Type 0
  pub hget : (key field : Bytes) → Store → Reply (Option Bytes) × Store
  pub hget_all :
      (keys : List Bytes) (field : Bytes) → Store → Reply (List (Reply (Option Bytes))) × Store
  pub hset : (key field value : Bytes) → Store → Reply (Unit {0}) × Store
  pub expire : (key : Bytes) (seconds : ℕ) → Store → Reply (Unit {0}) × Store
  pub del : (key : Bytes) → Store → Reply (Unit {0}) × Store
  pub publish : (channel message : Bytes) → Store → Reply (Unit {0}) × Store
