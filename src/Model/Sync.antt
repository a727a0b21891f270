-- ===== src/Model/Sync.antt =====
-- internal/models/application.go: the result of a sync. The codes of a phase, a status and a health
-- are constants of another library; a phase has the constants that the code names, and `other`.
use lemuria.Prelude.{Text, List}
use lemuria.Model.Application.{ResourceKey}

pub data SyncPhase : Type 0 where
  succeeded failed running error : SyncPhase
  other : Text → SyncPhase

pub record ResourceResult : Type 0 where
  pub resource : ResourceKey
  pub status : Text
  pub message : Text
  pub health_status : Text
  pub health_message : Text

pub record SyncResult : Type 0 where
  pub application : Text
  pub revision : Text
  pub phase : SyncPhase
  pub message : Text
  pub resources : List ResourceResult
  pub health_status : Text

pub record ResourceHealthInfo : Type 0 where
  pub resource : ResourceKey
  pub health_status : Text
  pub health_message : Text
