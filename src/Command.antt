-- ===== src/Command.antt =====
-- Command gateways with bounded conflict retry (cqrs-runtime/src/command.rs).
pub mod Retry
pub mod Executor

-- The errors of the framework's `AggregateError`, without the sources that they box.
pub data AggregateError (D : Type 0) : Type 0 where
  user_error : D → AggregateError D
  aggregate_conflict database_connection_error : AggregateError D
  deserialization_error unexpected_error : AggregateError D

pub data CommandGatewayError (D : Type 0) : Type 0 where
  domain : D → CommandGatewayError D
  conflict unavailable : CommandGatewayError D
