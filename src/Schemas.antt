-- ===== src/Schemas.antt =====
-- breachscope/schemas.py: the records that the stages of the analysis exchange.
use breach_scope.Prelude.{String, Option, List}
use breach_scope.Prelude.Json.{Fields}

-- `raw` is the event's dictionary of source fields.
pub record Event : Type 0 where
  pub timestamp : String
  pub host : String
  pub source : String
  pub event_id : Option String
  pub level : Option String
  pub user : Option String
  pub command_line : Option String
  pub raw : Fields

-- One entry of `all_of`.
pub record Condition : Type 0 where
  pub field : String
  pub operator : String
  pub pattern : String

-- `mitre_technique` is what `__post_init__` leaves in it.
pub record Rule : Type 0 where
  pub id : String
  pub name : String
  pub description : String
  pub field : String
  pub pattern : String
  pub mitre_technique : Option String
  pub severity : String
  pub operator : Option String
  pub fields : Option (List String)
  pub all_of : Option (List Condition)

pub record Finding : Type 0 where
  pub rule_id : String
  pub rule_name : String
  pub severity : String
  pub mitre_technique : Option String
  pub event : Event
  pub matched_value : String
  pub matched_context : String
