-- ===== src/Errors/Internal.antt =====
-- The error codes of errors/error.go whose category is InternalError, one constant for each variable.
use developer_gateway.Errors.{ErrorCode, internal_error}

abbrev pub err_internal_error : ErrorCode
err_internal_error = record {
  category = internal_error;
  code = 1000;
  desc = "Internal Error. Please check the status of the service.";
}

abbrev pub err_invalid_state_change_error : ErrorCode
err_invalid_state_change_error = record {
  category = internal_error;
  code = 1001;
  desc = "Internal Error. Please check the status of the service.";
}

abbrev pub err_estimate_gas : ErrorCode
err_estimate_gas = record {
  category = internal_error;
  code = 1002;
  desc = "Internal Error. Please check the status of the service.";
}

abbrev pub err_signed_tx : ErrorCode
err_signed_tx = record {
  category = internal_error;
  code = 1003;
  desc = "Internal Error. Please check the status of the service.";
}

abbrev pub err_send_transaction : ErrorCode
err_send_transaction = record {
  category = internal_error;
  code = 1004;
  desc = "Internal Error. Please check the status of the service.";
}

abbrev pub err_transaction_receipt : ErrorCode
err_transaction_receipt = record {
  category = internal_error;
  code = 1005;
  desc = "Internal Error. Please check the status of the service.";
}

abbrev pub err_transaction_receipt_status : ErrorCode
err_transaction_receipt_status = record {
  category = internal_error;
  code = 1006;
  desc = "Internal Error. Please check the status of the service.";
}

abbrev pub err_fetch_nonce : ErrorCode
err_fetch_nonce = record {
  category = internal_error;
  code = 1007;
  desc = "Internal Error. Please check the status of the service.";
}

abbrev pub err_max_attempts_reached : ErrorCode
err_max_attempts_reached = record {
  category = internal_error;
  code = 1008;
  desc = "Internal Error. Please check the status of the service.";
}

abbrev pub err_ekiden_dial : ErrorCode
err_ekiden_dial = record {
  category = internal_error;
  code = 1009;
  desc = "Internal Error. Please check the status of the service.";
}

abbrev pub err_ekiden_parse_certificate : ErrorCode
err_ekiden_parse_certificate = record {
  category = internal_error;
  code = 1009;
  desc = "Internal Error. Please check the status of the service.";
}

abbrev pub err_ekiden_get_committee : ErrorCode
err_ekiden_get_committee = record {
  category = internal_error;
  code = 1011;
  desc = "Internal Error. Please check the status of the service.";
}

abbrev pub err_ekiden_committee_kind_undefined : ErrorCode
err_ekiden_committee_kind_undefined = record {
  category = internal_error;
  code = 1012;
  desc = "Internal Error. Please check the status of the service.";
}

abbrev pub err_ekiden_committee_not_found : ErrorCode
err_ekiden_committee_not_found = record {
  category = internal_error;
  code = 1013;
  desc = "Internal Error. Please check the status of the service.";
}

abbrev pub err_ekiden_committee_leader_not_found : ErrorCode
err_ekiden_committee_leader_not_found = record {
  category = internal_error;
  code = 1014;
  desc = "Internal Error. Please check the status of the service.";
}

abbrev pub err_ekiden_get_node : ErrorCode
err_ekiden_get_node = record {
  category = internal_error;
  code = 1015;
  desc = "Internal Error. Please check the status of the service.";
}

abbrev pub err_ekiden_parse_node_certificate : ErrorCode
err_ekiden_parse_node_certificate = record {
  category = internal_error;
  code = 1016;
  desc = "Internal Error. Please check the status of the service.";
}

abbrev pub err_ekiden_node_no_address : ErrorCode
err_ekiden_node_no_address = record {
  category = internal_error;
  code = 1017;
  desc = "Internal Error. Please check the status of the service.";
}

abbrev pub err_ekiden_port_invalid : ErrorCode
err_ekiden_port_invalid = record {
  category = internal_error;
  code = 1019;
  desc = "Internal Error. Please check the status of the service.";
}

abbrev pub err_ekiden_address_invalid : ErrorCode
err_ekiden_address_invalid = record {
  category = internal_error;
  code = 1019;
  desc = "Internal Error. Please check the status of the service.";
}

abbrev pub err_ekiden_address_transport_unsupported : ErrorCode
err_ekiden_address_transport_unsupported = record {
  category = internal_error;
  code = 1020;
  desc = "Internal Error. Please check the status of the service.";
}

abbrev pub err_ekiden_encode_tx : ErrorCode
err_ekiden_encode_tx = record {
  category = internal_error;
  code = 1021;
  desc = "Internal Error. Please check the status of the service.";
}

abbrev pub err_ekiden_submit_tx : ErrorCode
err_ekiden_submit_tx = record {
  category = internal_error;
  code = 1022;
  desc = "Internal Error. Please check the status of the service.";
}

abbrev pub err_ekiden_encode_rlp_tx : ErrorCode
err_ekiden_encode_rlp_tx = record {
  category = internal_error;
  code = 1023;
  desc = "Internal Error. Please check the status of the service.";
}

abbrev pub err_ekiden_sign_tx : ErrorCode
err_ekiden_sign_tx = record {
  category = internal_error;
  code = 1024;
  desc = "Internal Error. Please check the status of the service.";
}

abbrev pub err_ekiden_decode_response : ErrorCode
err_ekiden_decode_response = record {
  category = internal_error;
  code = 1025;
  desc = "Internal Error. Please check the status of the service.";
}

abbrev pub err_ekiden_empty_response : ErrorCode
err_ekiden_empty_response = record {
  category = internal_error;
  code = 1026;
  desc = "Internal Error. Please check the status of the service.";
}

abbrev pub err_ekiden_get_public_key : ErrorCode
err_ekiden_get_public_key = record {
  category = internal_error;
  code = 1027;
  desc = "Internal Error. Please check the status of the service.";
}

abbrev pub err_queue_retrieve : ErrorCode
err_queue_retrieve = record {
  category = internal_error;
  code = 1028;
  desc = "Internal Error. Please check the status of the service.";
}

abbrev pub err_queue_remove : ErrorCode
err_queue_remove = record {
  category = internal_error;
  code = 1029;
  desc = "Internal Error. Please check the status of the service.";
}

abbrev pub err_queue_discard : ErrorCode
err_queue_discard = record {
  category = internal_error;
  code = 1030;
  desc = "Internal Error. Please check the status of the service.";
}

abbrev pub err_queue_insert : ErrorCode
err_queue_insert = record {
  category = internal_error;
  code = 1031;
  desc = "Internal Error. Please check the status of the service.";
}

abbrev pub err_sign_transaction : ErrorCode
err_sign_transaction = record {
  category = internal_error;
  code = 1032;
  desc = "Internal Error. Please check the status of the service.";
}

abbrev pub err_execute_transaction : ErrorCode
err_execute_transaction = record {
  category = internal_error;
  code = 1033;
  desc = "Internal Error. Please check the status of the service.";
}

abbrev pub err_get_expiry : ErrorCode
err_get_expiry = record {
  category = internal_error;
  code = 1034;
  desc = "Internal Error. Please check the status of the service.";
}

abbrev pub err_get_public_key : ErrorCode
err_get_public_key = record {
  category = internal_error;
  code = 1035;
  desc = "Internal Error. Please check the status of the service.";
}

abbrev pub err_remove_wallet : ErrorCode
err_remove_wallet = record {
  category = internal_error;
  code = 1036;
  desc = "Internal Error. Please check the status of the service.";
}

abbrev pub err_queue_next : ErrorCode
err_queue_next = record {
  category = internal_error;
  code = 1037;
  desc = "Internal Error. Please check the status of the service.";
}

abbrev pub err_unkown_event_type : ErrorCode
err_unkown_event_type = record {
  category = internal_error;
  code = 1038;
  desc = "Internal Error. Please check the status of the service.";
}

abbrev pub err_deserialize_event : ErrorCode
err_deserialize_event = record {
  category = internal_error;
  code = 1039;
  desc = "Internal Error. Please check the status of the service.";
}

abbrev pub err_get_balance : ErrorCode
err_get_balance = record {
  category = internal_error;
  code = 1040;
  desc = "Internal Error. Please check the status of the service.";
}

abbrev pub err_get_service_code : ErrorCode
err_get_service_code = record {
  category = internal_error;
  code = 1041;
  desc = "Internal Error. Please check the status of the service.";
}

abbrev pub err_service_code_not_deployed : ErrorCode
err_service_code_not_deployed = record {
  category = internal_error;
  code = 1042;
  desc = "Internal Error. Please check the status of the service.";
}

abbrev pub err_queue_exists : ErrorCode
err_queue_exists = record {
  category = internal_error;
  code = 1043;
  desc = "Internal Error. Please check the status of the service.";
}

abbrev pub err_ekiden_get_code : ErrorCode
err_ekiden_get_code = record {
  category = internal_error;
  code = 1044;
  desc = "Internal Error. Please check the status of the service.";
}
