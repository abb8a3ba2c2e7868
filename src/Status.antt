-- ===== src/Status.antt =====
-- The status codes of include/ua_statuscodes.h that the modelled code returns.
use opc_ua.Common.{ℕ}

abbrev pub good : ℕ
good = 0

abbrev pub bad_internal_error : ℕ
bad_internal_error = 0x80020000

abbrev pub bad_out_of_memory : ℕ
bad_out_of_memory = 0x80030000

abbrev pub bad_encoding_error : ℕ
bad_encoding_error = 0x80060000

abbrev pub bad_decoding_error : ℕ
bad_decoding_error = 0x80070000

abbrev pub bad_security_mode_rejected : ℕ
bad_security_mode_rejected = 0x80540000

abbrev pub bad_node_id_unknown : ℕ
bad_node_id_unknown = 0x80340000

abbrev pub bad_node_id_exists : ℕ
bad_node_id_exists = 0x805e0000

abbrev pub bad_user_access_denied : ℕ
bad_user_access_denied = 0x801f0000

abbrev pub bad_identity_token_invalid : ℕ
bad_identity_token_invalid = 0x80200000

abbrev pub bad_secure_channel_id_invalid : ℕ
bad_secure_channel_id_invalid = 0x80220000

abbrev pub bad_session_id_invalid : ℕ
bad_session_id_invalid = 0x80250000

abbrev pub bad_too_many_sessions : ℕ
bad_too_many_sessions = 0x80560000

abbrev pub bad_subscription_id_invalid : ℕ
bad_subscription_id_invalid = 0x80280000

abbrev pub bad_monitored_item_id_invalid : ℕ
bad_monitored_item_id_invalid = 0x80420000

abbrev pub bad_sequence_number_invalid : ℕ
bad_sequence_number_invalid = 0x80880000

abbrev pub bad_node_id_invalid : ℕ
bad_node_id_invalid = 0x80330000

abbrev pub bad_service_unsupported : ℕ
bad_service_unsupported = 0x800b0000

abbrev pub bad_session_not_activated : ℕ
bad_session_not_activated = 0x80270000

abbrev pub bad_not_supported : ℕ
bad_not_supported = 0x803d0000

abbrev pub bad_nothing_to_do : ℕ
bad_nothing_to_do = 0x800f0000

abbrev pub bad_continuation_point_invalid : ℕ
bad_continuation_point_invalid = 0x804a0000

abbrev pub bad_no_continuation_points : ℕ
bad_no_continuation_points = 0x804b0000

abbrev pub bad_reference_type_id_invalid : ℕ
bad_reference_type_id_invalid = 0x804c0000

abbrev pub bad_browse_direction_invalid : ℕ
bad_browse_direction_invalid = 0x804d0000

abbrev pub bad_view_id_unknown : ℕ
bad_view_id_unknown = 0x806b0000

abbrev pub bad_no_match : ℕ
bad_no_match = 0x806f0000

abbrev pub bad_not_implemented : ℕ
bad_not_implemented = 0x80400000

abbrev pub uncertain_reference_not_deleted : ℕ
uncertain_reference_not_deleted = 0x40bc0000

abbrev pub bad_parent_node_id_invalid : ℕ
bad_parent_node_id_invalid = 0x805b0000

abbrev pub bad_reference_not_allowed : ℕ
bad_reference_not_allowed = 0x805c0000
