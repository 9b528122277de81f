-- ===== src/Tests/Smokes.antt =====
-- Runs of the test programs of the shell, with a validator that accepts any question.
use ism.Prelude.{◌≡◌, refl, true}
use ism.Queue.{
  has_storage, tail, enqueue, queue_init, enqueue_authenticated_stream_bytes,
  enqueue_authenticated_stream_fin, enqueue_ready_response, enqueue_send_complete,
  enqueue_stream_reset, dequeue,
}
use ism.Queue.Dispatch.{handle_event, dispatch_one}
use ism.Adapter.{
  adapter_init, on_send_complete, on_stream_reset, settle_send, submit_send, frame_response,
  respond, prepare_ready_response, on_authenticated_stream_bytes,
  adapter_on_authenticated_stream_fin,
}
use ism.Table.{
  reset_stream, active_ptr_from, stream_is_active_ptr, sync_slot, sync_from, sync_stream_slots,
  init_from, connection_init, find_from, find_stream, claim_from, open_stream, on_stream,
  on_authenticated_stream_fin, dispatch_authenticated_stream_data, close_stream_from, close_stream,
  active_slot_from, complete_response_send, dispatch_response_send_finished, dispatch_stream_reset,
  on_authenticated_stream_data,
}
use ism.Stream.{
  u32_from_be_u16_bytes, body_bytes_after_prefix, body_bytes_after_stored_prefix, advance_message,
  remaining_message, advance_message_checked, advance_body_phase, fragment_phase,
  finish_stream_phase, finish_doq_phase, bounded_copy_len, fragment_copy_plan, next_stream_phase,
  copy_body_bytes, handle_stream_data, handle_stream_fin, shell_phase_code,
}
use ism.Response.{
  framed_length, prefix_hi, prefix_lo, copy_response_from, prepare_doq_response_send_for_stream,
  prepare_doq_response_send, prepare_response_send_for_stream, prepare_response_send,
}
use ism.Worker.{
  noerror_response_flags_hi, noerror_response_flags_lo, scan_uncompressed_qname_length,
  qname_length, valid_doq_request_id, prepare_worker_minimal_error_response_send,
  copy_question_from, prepare_worker_question_noerror_response_send, answer_ready,
  validate_minimal_uncompressed_question_request, prepare_worker_validated_minimal_response_send,
  dispatch_ready_stream_validated_minimal_response, prepare_worker_empty_noerror_response_send,
  process_ready_stream, process_ready_stream_empty_response, dispatch_ready_stream,
  dispatch_ready_stream_empty_response, process_ready_stream_validated_minimal_response,
}
use ism.Runtime.{
  runtime_stream_init, bind_msquic_stream, runtime_send, runtime_on_send_complete,
  runtime_on_stream_reset, on_fin, copy_enqueue_and_dispatch, receive_buffers, on_receive,
  on_msquic_receive, protocol_error, stream_callback,
}
use ism.Connections.{
  stream_slot_init, connection_runtime_init, connection_runtime_send, release_slot, allocate_slot,
  slot_callback, accept_connection, listener_callback, connection_callback,
}
use ism.Prelude.{first_from}
use ism.Smoke.EventQueue
use ism.Smoke.EventQueue.{ism_smoke_event_queue}
use ism.Smoke.Adapters
use ism.Smoke.Adapters.{ism_smoke_msquic_adapter}
use ism.Smoke.Runtimes
use ism.Smoke.Runtimes.{ism_smoke_msquic_runtime}
use ism.Smoke.Scaffold
use ism.Smoke.Scaffold.{ism_smoke_shell_scaffold}
use ism.Smoke.Connections
use ism.Smoke.Connections.{smoke_main}
use ism.Smoke.ProofAudit
use ism.Smoke.ProofAudit.{ism_smoke_proof_audit}
use ism.Smoke.Connections.ProtocolErrors
use ism.Tests.{any_question, reset_event, zeros}

ism_smoke_event_queue_passes : ism_smoke_event_queue any_question (λ i. reset_event) ≡ true
unfolding ism_smoke_event_queue EventQueue.smoke_order EventQueue.smoke_dispatch has_storage tail
    enqueue queue_init enqueue_authenticated_stream_bytes enqueue_authenticated_stream_fin
    enqueue_ready_response enqueue_send_complete enqueue_stream_reset dequeue handle_event
    dispatch_one adapter_init on_send_complete on_stream_reset settle_send submit_send
    frame_response respond prepare_ready_response on_authenticated_stream_bytes
    adapter_on_authenticated_stream_fin reset_stream active_ptr_from stream_is_active_ptr sync_slot
    sync_from sync_stream_slots init_from connection_init find_from find_stream claim_from
    open_stream on_stream on_authenticated_stream_fin dispatch_authenticated_stream_data
    close_stream_from close_stream active_slot_from complete_response_send
    dispatch_response_send_finished dispatch_stream_reset u32_from_be_u16_bytes
    body_bytes_after_prefix body_bytes_after_stored_prefix advance_message remaining_message
    advance_message_checked advance_body_phase fragment_phase finish_stream_phase finish_doq_phase
    bounded_copy_len fragment_copy_plan next_stream_phase copy_body_bytes handle_stream_data
    handle_stream_fin shell_phase_code framed_length prefix_hi prefix_lo copy_response_from
    prepare_doq_response_send_for_stream prepare_doq_response_send noerror_response_flags_hi
    noerror_response_flags_lo scan_uncompressed_qname_length qname_length valid_doq_request_id
    prepare_worker_minimal_error_response_send copy_question_from
    prepare_worker_question_noerror_response_send answer_ready
    validate_minimal_uncompressed_question_request prepare_worker_validated_minimal_response_send
    dispatch_ready_stream_validated_minimal_response
ism_smoke_event_queue_passes = refl

ism_smoke_msquic_adapter_passes : ism_smoke_msquic_adapter any_question ≡ true
unfolding ism_smoke_msquic_adapter Adapters.smoke_answer Adapters.smoke_invalid
    Adapters.smoke_capped Adapters.smoke_reset Adapters.smoke_failed_send adapter_init
    on_send_complete on_stream_reset settle_send submit_send frame_response respond
    prepare_ready_response on_authenticated_stream_bytes adapter_on_authenticated_stream_fin
    reset_stream active_ptr_from stream_is_active_ptr sync_slot sync_from sync_stream_slots
    init_from connection_init find_from find_stream claim_from open_stream on_stream
    on_authenticated_stream_fin dispatch_authenticated_stream_data close_stream_from close_stream
    active_slot_from complete_response_send dispatch_response_send_finished dispatch_stream_reset
    u32_from_be_u16_bytes body_bytes_after_prefix body_bytes_after_stored_prefix advance_message
    remaining_message advance_message_checked advance_body_phase fragment_phase finish_stream_phase
    finish_doq_phase bounded_copy_len fragment_copy_plan next_stream_phase copy_body_bytes
    handle_stream_data handle_stream_fin shell_phase_code framed_length prefix_hi prefix_lo
    copy_response_from prepare_doq_response_send_for_stream prepare_doq_response_send
    noerror_response_flags_hi noerror_response_flags_lo scan_uncompressed_qname_length qname_length
    valid_doq_request_id prepare_worker_minimal_error_response_send copy_question_from
    prepare_worker_question_noerror_response_send answer_ready
    validate_minimal_uncompressed_question_request prepare_worker_validated_minimal_response_send
    dispatch_ready_stream_validated_minimal_response
ism_smoke_msquic_adapter_passes = refl

ism_smoke_msquic_runtime_passes : ism_smoke_msquic_runtime any_question (λ i. reset_event) ≡ true
unfolding ism_smoke_msquic_runtime Runtimes.smoke_answer Runtimes.smoke_reset
    Runtimes.smoke_undersized has_storage tail enqueue queue_init enqueue_authenticated_stream_bytes
    enqueue_authenticated_stream_fin enqueue_ready_response enqueue_send_complete
    enqueue_stream_reset dequeue handle_event dispatch_one adapter_init on_send_complete
    on_stream_reset settle_send submit_send frame_response respond prepare_ready_response
    on_authenticated_stream_bytes adapter_on_authenticated_stream_fin reset_stream active_ptr_from
    stream_is_active_ptr sync_slot sync_from sync_stream_slots init_from connection_init find_from
    find_stream claim_from open_stream on_stream on_authenticated_stream_fin
    dispatch_authenticated_stream_data close_stream_from close_stream active_slot_from
    complete_response_send dispatch_response_send_finished dispatch_stream_reset
    u32_from_be_u16_bytes body_bytes_after_prefix body_bytes_after_stored_prefix advance_message
    remaining_message advance_message_checked advance_body_phase fragment_phase finish_stream_phase
    finish_doq_phase bounded_copy_len fragment_copy_plan next_stream_phase copy_body_bytes
    handle_stream_data handle_stream_fin shell_phase_code framed_length prefix_hi prefix_lo
    copy_response_from prepare_doq_response_send_for_stream prepare_doq_response_send
    noerror_response_flags_hi noerror_response_flags_lo scan_uncompressed_qname_length qname_length
    valid_doq_request_id prepare_worker_minimal_error_response_send copy_question_from
    prepare_worker_question_noerror_response_send answer_ready
    validate_minimal_uncompressed_question_request prepare_worker_validated_minimal_response_send
    dispatch_ready_stream_validated_minimal_response runtime_stream_init bind_msquic_stream
    runtime_send runtime_on_send_complete runtime_on_stream_reset on_fin copy_enqueue_and_dispatch
    receive_buffers on_receive on_msquic_receive protocol_error stream_callback
ism_smoke_msquic_runtime_passes = refl

ism_smoke_shell_scaffold_passes : ism_smoke_shell_scaffold any_question ≡ true
unfolding ism_smoke_shell_scaffold Scaffold.smoke_table Scaffold.smoke_error_worker
    Scaffold.smoke_empty_worker Scaffold.smoke_validated_worker Scaffold.smoke_invalid_request
    adapter_init on_send_complete on_stream_reset settle_send submit_send frame_response respond
    prepare_ready_response on_authenticated_stream_bytes adapter_on_authenticated_stream_fin
    reset_stream active_ptr_from stream_is_active_ptr sync_slot sync_from sync_stream_slots
    init_from connection_init find_from find_stream claim_from open_stream on_stream
    on_authenticated_stream_fin dispatch_authenticated_stream_data on_authenticated_stream_data
    close_stream_from close_stream active_slot_from complete_response_send
    dispatch_response_send_finished dispatch_stream_reset u32_from_be_u16_bytes
    body_bytes_after_prefix body_bytes_after_stored_prefix advance_message remaining_message
    advance_message_checked advance_body_phase fragment_phase finish_stream_phase finish_doq_phase
    bounded_copy_len fragment_copy_plan next_stream_phase copy_body_bytes handle_stream_data
    handle_stream_fin shell_phase_code framed_length prefix_hi prefix_lo copy_response_from
    prepare_response_send_for_stream prepare_doq_response_send_for_stream prepare_response_send
    prepare_doq_response_send noerror_response_flags_hi noerror_response_flags_lo
    scan_uncompressed_qname_length qname_length valid_doq_request_id
    prepare_worker_minimal_error_response_send prepare_worker_empty_noerror_response_send
    copy_question_from prepare_worker_question_noerror_response_send answer_ready
    process_ready_stream process_ready_stream_empty_response dispatch_ready_stream
    dispatch_ready_stream_empty_response validate_minimal_uncompressed_question_request
    prepare_worker_validated_minimal_response_send process_ready_stream_validated_minimal_response
    dispatch_ready_stream_validated_minimal_response
ism_smoke_shell_scaffold_passes = refl

smoke_main_passes : smoke_main any_question (λ i. reset_event) zeros ≡ true
unfolding smoke_main Connections.smoke_accept Connections.smoke_first_stream
    Connections.smoke_second_stream Connections.smoke_refusals ProtocolErrors.smoke_protocol_errors
    has_storage tail enqueue queue_init enqueue_authenticated_stream_bytes
    enqueue_authenticated_stream_fin enqueue_ready_response enqueue_send_complete
    enqueue_stream_reset dequeue handle_event dispatch_one adapter_init on_send_complete
    on_stream_reset settle_send submit_send frame_response respond prepare_ready_response
    on_authenticated_stream_bytes adapter_on_authenticated_stream_fin reset_stream active_ptr_from
    stream_is_active_ptr sync_slot sync_from sync_stream_slots init_from connection_init find_from
    find_stream claim_from open_stream on_stream on_authenticated_stream_fin
    dispatch_authenticated_stream_data close_stream_from close_stream active_slot_from
    complete_response_send dispatch_response_send_finished dispatch_stream_reset
    u32_from_be_u16_bytes body_bytes_after_prefix body_bytes_after_stored_prefix advance_message
    remaining_message advance_message_checked advance_body_phase fragment_phase finish_stream_phase
    finish_doq_phase bounded_copy_len fragment_copy_plan next_stream_phase copy_body_bytes
    handle_stream_data handle_stream_fin shell_phase_code framed_length prefix_hi prefix_lo
    copy_response_from prepare_doq_response_send_for_stream prepare_doq_response_send
    noerror_response_flags_hi noerror_response_flags_lo scan_uncompressed_qname_length qname_length
    valid_doq_request_id prepare_worker_minimal_error_response_send copy_question_from
    prepare_worker_question_noerror_response_send answer_ready
    validate_minimal_uncompressed_question_request prepare_worker_validated_minimal_response_send
    dispatch_ready_stream_validated_minimal_response runtime_stream_init bind_msquic_stream
    runtime_send runtime_on_send_complete runtime_on_stream_reset on_fin copy_enqueue_and_dispatch
    receive_buffers on_receive on_msquic_receive protocol_error stream_callback stream_slot_init
    connection_runtime_init connection_runtime_send release_slot allocate_slot slot_callback
    accept_connection listener_callback connection_callback first_from
smoke_main_passes = refl

ism_smoke_proof_audit_passes : ism_smoke_proof_audit any_question zeros ≡ true
unfolding ism_smoke_proof_audit ProofAudit.smoke_split ProofAudit.smoke_excess ProofAudit.smoke_cut
    ProofAudit.smoke_short_length ProofAudit.smoke_request_id ProofAudit.smoke_reopen adapter_init
    on_send_complete on_stream_reset settle_send submit_send frame_response respond
    prepare_ready_response on_authenticated_stream_bytes adapter_on_authenticated_stream_fin
    reset_stream active_ptr_from stream_is_active_ptr sync_slot sync_from sync_stream_slots
    init_from connection_init find_from find_stream claim_from open_stream on_stream
    on_authenticated_stream_fin dispatch_authenticated_stream_data on_authenticated_stream_data
    close_stream_from close_stream active_slot_from complete_response_send
    dispatch_response_send_finished dispatch_stream_reset u32_from_be_u16_bytes
    body_bytes_after_prefix body_bytes_after_stored_prefix advance_message remaining_message
    advance_message_checked advance_body_phase fragment_phase finish_stream_phase finish_doq_phase
    bounded_copy_len fragment_copy_plan next_stream_phase copy_body_bytes handle_stream_data
    handle_stream_fin shell_phase_code framed_length prefix_hi prefix_lo copy_response_from
    prepare_response_send_for_stream prepare_doq_response_send_for_stream prepare_response_send
    prepare_doq_response_send noerror_response_flags_hi noerror_response_flags_lo
    scan_uncompressed_qname_length qname_length valid_doq_request_id
    prepare_worker_minimal_error_response_send prepare_worker_empty_noerror_response_send
    copy_question_from prepare_worker_question_noerror_response_send answer_ready
    process_ready_stream process_ready_stream_empty_response dispatch_ready_stream
    dispatch_ready_stream_empty_response validate_minimal_uncompressed_question_request
    prepare_worker_validated_minimal_response_send process_ready_stream_validated_minimal_response
    dispatch_ready_stream_validated_minimal_response
ism_smoke_proof_audit_passes = refl
