-- ===== src/Db/Inventory.antt =====
-- Servers, their agents and model directories, and the model inventory.
use ai_infra_console.Prelude.{ℕ, Text, Bool, Option}

pub record Server : Type 0 where
  pub id : ℕ
  pub name : Text
  pub hostname : Option Text
  pub host : Option Text
  pub type : Text
  pub status : Text

pub record ServerAgent : Type 0 where
  pub id : ℕ
  pub server_id : ℕ
  pub token_hash : Option Text
  pub revoked_at : Option ℕ

pub record ServerModelDirectory : Type 0 where
  pub id : ℕ
  pub server_id : ℕ
  pub path : Text
  pub is_default : Bool
  pub is_allowed : Bool
  pub is_available : Bool

pub record Model : Type 0 where
  pub id : ℕ
  pub source : Text
  pub source_id : Text
  pub name : Text
  pub display_name : Option Text

pub record ModelFile : Type 0 where
  pub id : ℕ
  pub model_id : ℕ
  pub server_id : ℕ
  pub directory_id : Option ℕ
  pub path : Text
  pub format : Option Text
  pub revision : Option Text
  pub status : Text
