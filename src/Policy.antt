-- ===== src/Policy.antt =====
-- The compiled domain policy of backend/src/recordlane/policy.py: the document that compile_policy
-- leaves in `CompiledPolicy`, and the library functions that its methods call.
--   Normalize   _text and CompiledPolicy.normalize
--   Validate    CompiledPolicy.validate
--   Blocking    CompiledPolicy.blocking_keys
--   Compare     CompiledPolicy.compare
-- What compile_policy refuses cannot be written here: a type, a normalizer, a comparator or an
-- algorithm is a constructor. Floats are the parameter `Floats`: Python's operations by name, with
-- their laws stated where a theorem needs them.
use recordlane.Base.{ℕ, String, Bool, Option, List}
use recordlane.Json.{Value}
pub mod Normalize
pub mod Validate
pub mod Blocking
pub mod Compare
pub mod Samples
mod Decision
mod Tests

-- What the methods call from the standard library.
pub record Library : Type 0 where
  -- unicodedata.normalize("NFKC", s), s.strip(), re.sub(r"\s+", " ", s), s.upper(), s.casefold()
  pub nfkc : String → String
  pub strip : String → String
  pub collapse : String → String
  pub upper : String → String
  pub casefold : String → String
  -- str(v)
  pub to_text : Value → String
  -- str(Decimal(s).normalize()), or nothing on InvalidOperation
  pub decimal : String → Option String
  -- re.fullmatch(pattern, s) is a match, or nothing if the pattern does not compile
  pub fullmatch : String → String → Option Bool

-- Floats, and SequenceMatcher(None, s, t).ratio().
pub record Floats : Type 1 where
  pub Float : Type 0
  pub zero : Float
  pub one : Float
  pub add : Float → Float → Float
  pub sub : Float → Float → Float
  pub mul : Float → Float → Float
  pub div : Float → Float → Float
  pub neg : Float → Float
  pub log : Float → Float
  pub exp : Float → Float
  pub round : Float → ℕ → Float
  -- x <= y
  pub le : Float → Float → Bool
  pub is_zero : Float → Bool
  pub sequence_ratio : String → String → Float

pub data Kind : Type 0 where
  string reference integer decimal boolean date datetime identifier enum : Kind

pub data Normalizer : Type 0 where
  preserve uppercase_trim unicode_casefold : Normalizer

pub record Attribute : Type 0 where
  pub key : String
  pub name : String
  pub type : Option Kind
  pub required : Bool
  pub allowed_values : Option (List Value)
  pub pattern : Option String
  pub normalizer : Option Normalizer
  pub read_roles : List String
  pub write_roles : List String

pub record Identifier : Type 0 where
  pub field : String
  pub namespace : String
  pub hard_conflict : Bool

pub record Prefix : Type 0 where
  pub field : String
  pub length : ℕ

pub record Strategy : Type 0 where
  pub fields : List String
  pub prefix : Option Prefix

pub data Comparator : Type 0 where
  exact sequence_ratio : Comparator

pub data Algorithm : Type 0 where
  weighted_score fellegi_sunter : Algorithm

pub record Comparison (F : Type 0) : Type 0 where
  pub field : String
  pub comparator : Comparator
  pub weight : F
  pub missing_score : Option F
  pub m_probability : F
  pub u_probability : F

pub record Matching (F : Type 0) : Type 0 where
  pub algorithm : Algorithm
  pub prior_match_probability : F
  pub blocking : List Strategy
  pub comparisons : List (Comparison F)
  pub review : F
  pub auto_link : F

-- The survivorship rule of an attribute, or the default.
pub data SurvivorStrategy : Type 0 where
  source_priority_then_observation_time : SurvivorStrategy
  verified_then_source_priority_then_observation_time : SurvivorStrategy

pub data SurvivorRule : Type 0 where
  named : SurvivorStrategy → SurvivorRule
  detailed : SurvivorStrategy → List String → SurvivorRule

pub record CompiledPolicy (F : Type 0) : Type 0 where
  pub attributes : List Attribute
  pub identifiers : List Identifier
  pub matching : Matching F
  pub survivorship : List (String × SurvivorRule)
  pub version : String
  pub checksum : String
