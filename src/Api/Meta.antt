-- ===== src/Api/Meta.antt =====
-- The parts of metav1 that the custom resources carry: label selectors, conditions, and the
-- metadata fields that the operator reads or writes.
use reactive_policy.Common.{ℤ, Time, String, List, Option, Assoc}

pub record LabelSelectorRequirement : Type 0 where
  pub key : String
  pub operator : String
  pub values : List String

pub record LabelSelector : Type 0 where
  pub match_labels : Assoc String
  pub match_expressions : List LabelSelectorRequirement

pub data ConditionStatus : Type 0 where
  cond_true cond_false : ConditionStatus

pub record Condition : Type 0 where
  pub condition_type : String
  pub status : ConditionStatus
  pub reason : String
  pub message : String
  pub observed_generation : ℤ

pub record ObjectMeta : Type 0 where
  pub name : String
  pub generate_name : String
  pub namespace : String
  pub uid : String
  pub labels : Assoc String
  pub generation : ℤ
  pub creation_timestamp : Time

-- A parameter map of raw JSON texts; `none` is Go's nil map.
abbrev pub RawParams : Type 0
RawParams = Option (Assoc String)
