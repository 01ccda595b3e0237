-- ===== src/Errors/Table.antt =====
-- Every error code that errors/error.go declares, in its order.
use developer_gateway.Prelude.{List, [], ◌∷◌, ◌++◌}
use developer_gateway.Errors.{ErrorCode}
use developer_gateway.Errors.Internal.{
  err_internal_error, err_invalid_state_change_error, err_estimate_gas, err_signed_tx,
  err_send_transaction, err_transaction_receipt, err_transaction_receipt_status, err_fetch_nonce,
  err_max_attempts_reached, err_ekiden_dial, err_ekiden_parse_certificate, err_ekiden_get_committee,
  err_ekiden_committee_kind_undefined, err_ekiden_committee_not_found,
  err_ekiden_committee_leader_not_found, err_ekiden_get_node, err_ekiden_parse_node_certificate,
  err_ekiden_node_no_address, err_ekiden_port_invalid, err_ekiden_address_invalid,
  err_ekiden_address_transport_unsupported, err_ekiden_encode_tx, err_ekiden_submit_tx,
  err_ekiden_encode_rlp_tx, err_ekiden_sign_tx, err_ekiden_decode_response,
  err_ekiden_empty_response, err_ekiden_get_public_key, err_queue_retrieve, err_queue_remove,
  err_queue_discard, err_queue_insert, err_sign_transaction, err_execute_transaction,
  err_get_expiry, err_get_public_key, err_remove_wallet, err_queue_next, err_unkown_event_type,
  err_deserialize_event, err_get_balance, err_get_service_code, err_service_code_not_deployed,
  err_queue_exists, err_ekiden_get_code,
}
use developer_gateway.Errors.Request.{
  err_out_of_range, err_http_content_length_missing, err_http_content_length_limit,
  err_http_content_type_application_json, err_deserialize_json, err_invalid_address,
  err_empty_input, err_unknown_subscription_type, err_parse_query_params,
  err_subscribe_filter_address, err_invalid_key, err_topic_logs_supported, err_string_not_hex,
  err_queue_limit_reached, err_queue_discard_not_exists, err_subscription_already_exists,
  err_api_not_implemented, err_queue_not_found, err_subscription_not_found, err_invalid_aad,
  err_failed_aad_verification, err_authenticate_request, err_verify_request,
}

abbrev internal_codes : List ErrorCode
internal_codes =
    err_internal_error ∷ err_invalid_state_change_error ∷ err_estimate_gas ∷ err_signed_tx
    ∷ err_send_transaction ∷ err_transaction_receipt ∷ err_transaction_receipt_status
    ∷ err_fetch_nonce ∷ err_max_attempts_reached ∷ err_ekiden_dial ∷ err_ekiden_parse_certificate
    ∷ err_ekiden_get_committee ∷ err_ekiden_committee_kind_undefined
    ∷ err_ekiden_committee_not_found ∷ err_ekiden_committee_leader_not_found ∷ err_ekiden_get_node
    ∷ err_ekiden_parse_node_certificate ∷ err_ekiden_node_no_address ∷ err_ekiden_port_invalid
    ∷ err_ekiden_address_invalid ∷ err_ekiden_address_transport_unsupported ∷ err_ekiden_encode_tx
    ∷ err_ekiden_submit_tx ∷ err_ekiden_encode_rlp_tx ∷ err_ekiden_sign_tx
    ∷ err_ekiden_decode_response ∷ err_ekiden_empty_response ∷ err_ekiden_get_public_key
    ∷ err_queue_retrieve ∷ err_queue_remove ∷ err_queue_discard ∷ err_queue_insert
    ∷ err_sign_transaction ∷ err_execute_transaction ∷ err_get_expiry ∷ err_get_public_key
    ∷ err_remove_wallet ∷ err_queue_next ∷ err_unkown_event_type ∷ err_deserialize_event
    ∷ err_get_balance ∷ err_get_service_code ∷ err_service_code_not_deployed ∷ err_queue_exists
    ∷ err_ekiden_get_code ∷ []

abbrev request_codes : List ErrorCode
request_codes =
    err_out_of_range ∷ err_http_content_length_missing ∷ err_http_content_length_limit
    ∷ err_http_content_type_application_json ∷ err_deserialize_json ∷ err_invalid_address
    ∷ err_empty_input ∷ err_unknown_subscription_type ∷ err_parse_query_params
    ∷ err_subscribe_filter_address ∷ err_invalid_key ∷ err_topic_logs_supported ∷ err_string_not_hex
    ∷ err_queue_limit_reached ∷ err_queue_discard_not_exists ∷ err_subscription_already_exists
    ∷ err_api_not_implemented ∷ err_queue_not_found ∷ err_subscription_not_found ∷ err_invalid_aad
    ∷ err_failed_aad_verification ∷ err_authenticate_request ∷ err_verify_request ∷ []

abbrev pub declared_codes : List ErrorCode
declared_codes = internal_codes ++ request_codes
