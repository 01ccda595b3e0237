-- ===== src/Errors/Request.antt =====
-- The error codes of errors/error.go that a request can cause, one constant for each variable.
use developer_gateway.Errors.{
  ErrorCode, authentication_error, input_error, not_found, not_implemented, resource_limit_reached,
  state_conflict,
}

abbrev pub err_out_of_range : ErrorCode
err_out_of_range = record {
  category = input_error;
  code = 2001;
  desc = "Out of range. Provided value is out of the allowed range.";
}

abbrev pub err_http_content_length_missing : ErrorCode
err_http_content_length_missing = record {
  category = input_error;
  code = 2002;
  desc = "Content-length header missing from request.";
}

abbrev pub err_http_content_length_limit : ErrorCode
err_http_content_length_limit = record {
  category = input_error;
  code = 2003;
  desc = "Content-length exceeds request limit.";
}

abbrev pub err_http_content_type_application_json : ErrorCode
err_http_content_type_application_json = record {
  category = input_error;
  code = 2004;
  desc = "Content-type should be application/json.";
}

abbrev pub err_deserialize_json : ErrorCode
err_deserialize_json = record {
  category = input_error;
  code = 2005;
  desc = "Failed to deserialize body as JSON.";
}

abbrev pub err_invalid_address : ErrorCode
err_invalid_address = record {
  category = input_error;
  code = 2006;
  desc = "Provided invalid address.";
}

abbrev pub err_empty_input : ErrorCode
err_empty_input = record { category = input_error; code = 2007; desc = "Input cannot be empty." }

abbrev pub err_unknown_subscription_type : ErrorCode
err_unknown_subscription_type = record {
  category = input_error;
  code = 2008;
  desc = "Unknown subscription type.";
}

abbrev pub err_parse_query_params : ErrorCode
err_parse_query_params = record {
  category = input_error;
  code = 2009;
  desc = "Failed to parse query parameters.";
}

abbrev pub err_subscribe_filter_address : ErrorCode
err_subscribe_filter_address = record {
  category = input_error;
  code = 2010;
  desc = "Only address is available at this time for filtering.";
}

abbrev pub err_invalid_key : ErrorCode
err_invalid_key = record { category = input_error; code = 2011; desc = "Provided invalid key." }

abbrev pub err_topic_logs_supported : ErrorCode
err_topic_logs_supported = record {
  category = input_error;
  code = 2012;
  desc = "Only logs topic supported for subscriptions.";
}

abbrev pub err_string_not_hex : ErrorCode
err_string_not_hex = record {
  category = input_error;
  code = 2013;
  desc = "Provided string is not a valid hex encoding.";
}

abbrev pub err_queue_limit_reached : ErrorCode
err_queue_limit_reached = record {
  category = resource_limit_reached;
  code = 3001;
  desc =
      "The number of unconfirmed requests has reached its limit. No further requests can be processed until requests are confirmed.";
}

abbrev pub err_queue_discard_not_exists : ErrorCode
err_queue_discard_not_exists = record {
  category = state_conflict;
  code = 4001;
  desc = "Attempt to discard elements from a queue that does not exist.";
}

abbrev pub err_subscription_already_exists : ErrorCode
err_subscription_already_exists = record {
  category = state_conflict;
  code = 4002;
  desc = "Attempt to create a subscription that already exists.";
}

abbrev pub err_api_not_implemented : ErrorCode
err_api_not_implemented = record {
  category = not_implemented;
  code = 5001;
  desc = "API not Implemented.";
}

abbrev pub err_queue_not_found : ErrorCode
err_queue_not_found = record { category = not_found; code = 6001; desc = "Queue not found." }

abbrev pub err_subscription_not_found : ErrorCode
err_subscription_not_found = record {
  category = not_found;
  code = 6002;
  desc = "Subscription not found.";
}

abbrev pub err_invalid_aad : ErrorCode
err_invalid_aad = record {
  category = authentication_error;
  code = 7001;
  desc = "Provided AAD is not valid.";
}

abbrev pub err_failed_aad_verification : ErrorCode
err_failed_aad_verification = record {
  category = authentication_error;
  code = 7002;
  desc = "Failed to verify AAD in transaction data.";
}

abbrev pub err_authenticate_request : ErrorCode
err_authenticate_request = record {
  category = authentication_error;
  code = 7003;
  desc = "Failed to authenticate request.";
}

abbrev pub err_verify_request : ErrorCode
err_verify_request = record {
  category = authentication_error;
  code = 7004;
  desc = "Failed to verify request.";
}
