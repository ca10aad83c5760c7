-- ===== src/Mlp/ResultCodes.antt =====
-- internal/mlp/resultcodes.go.
use vectorcore_gmlc.Base.{Bool, if◌then◌else◌}
use vectorcore_gmlc.Base.Text.{Text, codes}
use vectorcore_gmlc.Errors.{
  Error, unauthenticated, forbidden, not_found, invalid_target, unsupported_service,
  invalid_location_type,
}

pub data ResultCode : Type 0 where
  system_failure unauthorized_application unknown_subscriber position_method_failure : ResultCode
  timeout format_error service_not_supported invalid_protocol_element_value : ResultCode
  attribute_value_not_supported : ResultCode

-- The `resid` attribute. The slogan is a text for people.
abbrev pub code_id : ResultCode → Text
code_id ResultCode.system_failure = codes "1"
code_id ResultCode.unauthorized_application = codes "3"
code_id ResultCode.unknown_subscriber = codes "4"
code_id ResultCode.position_method_failure = codes "6"
code_id ResultCode.timeout = codes "7"
code_id ResultCode.format_error = codes "105"
code_id ResultCode.service_not_supported = codes "108"
code_id ResultCode.invalid_protocol_element_value = codes "110"
code_id ResultCode.attribute_value_not_supported = codes "113"

unfoldable pub error_to_result_code : Error → ResultCode
error_to_result_code unauthenticated = ResultCode.unauthorized_application
error_to_result_code forbidden = ResultCode.unauthorized_application
error_to_result_code not_found = ResultCode.unknown_subscriber
error_to_result_code invalid_target = ResultCode.invalid_protocol_element_value
error_to_result_code unsupported_service = ResultCode.service_not_supported
error_to_result_code invalid_location_type = ResultCode.attribute_value_not_supported
error_to_result_code _ = ResultCode.system_failure

-- Both branches of the `switch` give the same code.
unfoldable pub outcome_result_code : Bool → ResultCode
outcome_result_code timed_out =
    if timed_out then ResultCode.timeout else ResultCode.position_method_failure
