-- ===== src/Domain/Rules.antt =====
-- crates/roadsim-domain/src/rules.rs: the ruleset pin of a project and its accepted exceptions.
use road_sim.Prelude.{
  ℕ, not, ◌&&◌, List, [], ◌∷◌, map, Option, none, Result, ok, ◌>>=◌, ◌>>◌, reject_if, reject_some,
  ltb, ◌==◌, if◌then◌else◌, is_empty, is_some, sort_by_key,
}
use road_sim.Types.Ids.{ObjectKind, ObjectRef, object_ref}
use road_sim.Types.Fault.{Fault, fault}
use road_sim.Domain.Text.{Text, is_blank, byte_length}
use road_sim.Domain.Multimodal.{duplicate_object_ref}

pub data RuleConfigErrorCode : Type 0 where
  empty_text text_too_long missing_ruleset_pin duplicate_exception : RuleConfigErrorCode

abbrev pub RuleConfigError : Type 0
RuleConfigError = Fault RuleConfigErrorCode

-- `RuleText::<MAX>::new`
unfoldable pub new_text : ℕ → Text → Result Text RuleConfigError
unfolding is_blank byte_length
new_text max value = do
  reject_if (is_blank value) (fault RuleConfigErrorCode.empty_text [])
  reject_if (ltb max (byte_length value)) (fault RuleConfigErrorCode.text_too_long [])
  ok value

pub record RulesetPin : Type 0 where
  pub ruleset_id : Text
  pub exact_version : Text
  pub artifact_sha256 : ℕ

unfoldable pub new_pin : Text → Text → ℕ → Result RulesetPin RuleConfigError
unfolding new_text
new_pin ruleset_id exact_version artifact_sha256 = do
  id ← new_text 128 ruleset_id
  version ← new_text 128 exact_version
  ok (record { ruleset_id = id; exact_version = version; artifact_sha256 = artifact_sha256 })

pub data ExceptionStatus : Type 0 where
  accepted stale : ExceptionStatus

pub record RuleException : Type 0 where
  pub id : ℕ
  pub rule_id : Text
  pub object : ObjectRef
  pub accepted_object_hash : ℕ
  pub accepted_ruleset_hash : ℕ
  pub accepted_by : Text
  pub accepted_at_unix_s : ℕ
  pub basis : Text
  pub comment : Text

-- The constructor takes the fields, given as a record.
unfoldable pub new_exception : RuleException → Result RuleException RuleConfigError
unfolding new_text
new_exception e = do
  rule_id ← new_text 256 e.rule_id
  accepted_by ← new_text 256 e.accepted_by
  basis ← new_text 4096 e.basis
  comment ← new_text 4096 e.comment
  ok (record e { rule_id = rule_id; accepted_by = accepted_by; basis = basis; comment = comment })

unfoldable pub status : RuleException → ℕ → ℕ → ExceptionStatus
status e current_object_hash current_ruleset_hash =
    if (e.accepted_object_hash == current_object_hash)
      && (e.accepted_ruleset_hash == current_ruleset_hash)
    then accepted
    else stale

pub record RuleConfiguration : Type 0 where
  pub ruleset_pin : Option RulesetPin
  pub exceptions : List RuleException

abbrev pub unconfigured : RuleConfiguration
unconfigured = record { ruleset_pin = none; exceptions = [] }

abbrev pub exception_key : RuleException → ℕ
exception_key e = e.id

abbrev pub exception_ref : RuleException → ObjectRef
exception_ref e = object_ref ObjectKind.rule_exception e.id

unfoldable pub new :
    Option RulesetPin → List RuleException → Result RuleConfiguration RuleConfigError
unfolding sort_by_key duplicate_object_ref
new ruleset_pin given = do
  reject_if (not (is_some ruleset_pin) && not (is_empty given))
      (fault RuleConfigErrorCode.missing_ruleset_pin (map exception_ref given))
  let exceptions = sort_by_key exception_key given
  reject_some (λ duplicate. fault RuleConfigErrorCode.duplicate_exception (duplicate ∷ []))
      (duplicate_object_ref ObjectKind.rule_exception (map exception_key exceptions))
  ok (record { ruleset_pin = ruleset_pin; exceptions = exceptions })
