-- ===== src/System/Orders.antt =====
-- The theorems on the QR payments at concrete inputs.
use mathlib.Core.List.{[], ◌∷◌}
use Prim.Native.String.{◌++◌}
use banking_mobile_backend.Prelude.{
  or_else, ◌≡◌, ◌≢◌, refl, some, ok, find, ◌>>=◌, update_where, any,
}
use banking_mobile_backend.Payments.Services.{Store, top_ups, ask, send_proof}
use banking_mobile_backend.Payments.Repository.{
  get_payment_by_id, merge_webhook_processing_result, update_payment, merged, create_row,
}
use banking_mobile_backend.Payments.Topup.{
  build_topup_payload_from_request, build_topup_request_from_payment,
}
use banking_mobile_backend.Sip.{
  has_order, topup_of, find_by_order_id, complete_sip_payment, with_callback,
  create_topup_if_not_exists, mark_failed, with_failure, find_by_idempotency_key,
  create_sip_payment, sip_row, save_sip_qr_response, with_qr,
}
use banking_mobile_backend.Sip.Create.{
  create_sip_qr, reply_or_new, reply_of, new_sip_qr, sip_input, sip_request, fresh_reply,
}
use banking_mobile_backend.Sip.Callback.{
  handle_sip_callback, ack, settle_order, check_amount, check_currency, accept_order, top_up_order,
  topup_ref, amount_differs,
}
use banking_mobile_backend.Sip.Delivery.{handle_sip_callback-replay, handle_sip_callback-once}
use banking_mobile_backend.Sip.Rejected.{handle_sip_callback-IsRejected, IsRejected, currency}
use banking_mobile_backend.Sip.Ledger.{IsLedger, handle_sip_callback-IsLedger}
use banking_mobile_backend.Sip.Recorded.{HasTransaction, handle_sip_callback-HasTransaction}
use banking_mobile_backend.Sip.Creation.{create_sip_qr-replay}
use banking_mobile_backend.System.Fixtures.{
  order, store, services, callback, draws, qr_request, cents, empty_store, qr,
}

abbrev after_callback : Store
after_callback = (handle_sip_callback services cents callback store).1

callback_run : handle_sip_callback services cents callback store ≡ (ok ack, after_callback)
unfolding handle_sip_callback ◌>>=◌ find_by_order_id find settle_order check_amount check_currency
    accept_order complete_sip_payment get_payment_by_id update_payment with_callback
    create_topup_if_not_exists top_up_order build_topup_request_from_payment ask
    merge_webhook_processing_result merged send_proof build_topup_payload_from_request update_where
    any topup_ref mark_failed with_failure amount_differs
callback_run = refl

handle_sip_callback-replay_example :
    handle_sip_callback services cents callback after_callback ≡ (ok ack, after_callback)
handle_sip_callback-replay_example =
    handle_sip_callback-replay services services cents callback callback store refl callback_run

callback_sent : top_ups after_callback.calls ≢ top_ups store.calls
unfolding handle_sip_callback ◌>>=◌ find_by_order_id find settle_order check_amount check_currency
    accept_order complete_sip_payment get_payment_by_id update_payment with_callback
    create_topup_if_not_exists top_up_order build_topup_request_from_payment ask
    merge_webhook_processing_result merged send_proof build_topup_payload_from_request update_where
    any topup_ref mark_failed with_failure amount_differs
callback_sent h = cc

handle_sip_callback-once_example :
    handle_sip_callback services cents callback after_callback ≡ (ok ack, after_callback)
handle_sip_callback-once_example =
    handle_sip_callback-once services services cents callback callback store refl callback_sent

order_found : find (has_order "order-1") store.payments ≡ some order
unfolding find
order_found = refl

handle_sip_callback-IsRejected_example :
    IsRejected store
      (handle_sip_callback services cents (record callback { moneda = some "USD" }) store)
handle_sip_callback-IsRejected_example =
    handle_sip_callback-IsRejected services cents (record callback { moneda = some "USD" }) order
      store order_found refl (currency "USD" refl refl)

abbrev after_qr : Store
after_qr = (create_sip_qr services draws 5 qr_request empty_store).1

qr_run :
    create_sip_qr services draws 5 qr_request empty_store
    ≡ (ok (fresh_reply 0 "order-9" qr), after_qr)
unfolding create_sip_qr find_by_idempotency_key reply_or_new reply_of new_sip_qr ◌>>=◌ find
    create_sip_payment create_row sip_row sip_input sip_request any ask save_sip_qr_response
    update_payment with_qr fresh_reply update_where
qr_run = refl

create_sip_qr-replay_example :
    create_sip_qr services draws 5 qr_request after_qr ≡ (ok (fresh_reply 0 "order-9" qr), after_qr)
create_sip_qr-replay_example =
    create_sip_qr-replay services services draws draws 5 qr_request empty_store refl qr_run

abbrev ledger_store : Store
ledger_store = record store { transactions = topup_of 5 950 "QRBMSC-order-1" "SIP QR TOPUP" ∷ [] }

handle_sip_callback-IsLedger_example :
    IsLedger (handle_sip_callback services cents callback ledger_store).1
handle_sip_callback-IsLedger_example =
    handle_sip_callback-IsLedger services cents callback ledger_store (tt, tt)

handle_sip_callback-HasTransaction_example :
    HasTransaction
      ("QRBMSC-" ++ "order-1")
      order.user_id
      (or_else order.net_amount_mxn order.net_amount)
      []
      after_callback
handle_sip_callback-HasTransaction_example =
    handle_sip_callback-HasTransaction services cents callback order store order_found refl
      callback_run
