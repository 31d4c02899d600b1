-- ===== src/Detect/Evidence.antt =====
-- `LexicalEvidence` of crates/zonkey-detect/src/classifier.rs.
use zon_key.Text.{Str}
use zon_key.Types.Float.{Confidence}
use zon_key.Types.{DecisionReason}

pub data LexicalEvidence : Type 0 where
  candidate : Str → Confidence → DecisionReason → LexicalEvidence
  never_transform vietnamese unsupported unknown : LexicalEvidence
