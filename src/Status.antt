-- ===== src/Status.antt =====
-- app/core/constants.py: the states of a case and of a queue item.
use ms_integracion_smartsupe.Prelude.{Bool, true, false}

pub data SmartStatus : Type 0 where
  created file_download_ok file_download_error report_ack_ok report_ack_error : SmartStatus
  send_to_smart_ok send_to_smart_error : SmartStatus
  send_update_smart_ok send_update_smart_error : SmartStatus
  final_document_upload_ok final_document_upload_error : SmartStatus
  pending processing sfc_done completed failed_final : SmartStatus

-- The test `data["estado"] ~= estado_failed_final`, and the test for `PENDIENTE`.
abbrev pub is_failed_final : SmartStatus → Bool
is_failed_final failed_final = true
is_failed_final _ = false

abbrev pub is_pending : SmartStatus → Bool
is_pending pending = true
is_pending _ = false
