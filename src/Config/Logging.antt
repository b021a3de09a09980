-- ===== src/Config/Logging.antt =====
-- The log level (cqrs-runtime/src/logging.rs). The parser of levels is a parameter.
use account_management_servi.Base.{Option, none, some, Text, text, Result, ok, ◌>>=◌, ok_or}
use account_management_servi.Config.{Lookup}

pub record LoggingConfig (L : Type 0) : Type 0 where
  pub level_filter : L

module _ {L : Type 0} (parse_level : Text → Option L) where
  -- The error of the parser is without contents.
  unfoldable pub from_lookup : Lookup → Result (Unit {0}) (LoggingConfig L)
  from_lookup lookup = do
    level ←
        ok_or (parse_level (elim (lookup (text "RUST_LOG")) [ some s ↦ s | none ↦ text "info" ])) tt
    ok (record { level_filter = level })
