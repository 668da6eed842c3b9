-- ===== src/Transfer/Tests.antt =====
-- The theorems on transfers at two users.
use banking_mobile_backend.Prelude.{
  all_of, ◌≡◌, refl, ◌⊎◌, none, some, [], ◌∷◌, ok, find, ◌>>=◌, try_catch, ◌==◌, if◌then◌else◌,
}
use banking_mobile_backend.Payments.Utils.{is_space}
use banking_mobile_backend.Transfer.{by_email, TransferRequest, transfer, complete_transfer, notify}
use banking_mobile_backend.Transfer.Names.{
  NameParts, trim_start, trim_end, not_blank, join, build_full_name,
}
use banking_mobile_backend.Transfer.Receipts.{
  User, Profile, TransferHost, TransferStore, Receipt, internal_transfer, ask_transfer, find_user,
  persist_receipt, backoffice_name, resolve_user_display_name, create_internal_transfer_receipt,
}
use banking_mobile_backend.Transfer.Sent.{transfers, IsSent, transfer-IsSent}
use banking_mobile_backend.Cards.{Card, physical, active}
use banking_mobile_backend.Cards.Service.{CardServices}
use banking_mobile_backend.Transfer.Route.{
  Bank, IsPermitted, transfer_route, transfer_route-IsPermitted,
}
use banking_mobile_backend.Transfer.Recorded.{IsRecorded, transfer-IsRecorded}

abbrev ana : User
ana = record {
  id = 1;
  email = "ana@x";
  alias = none;
  complete_name = none;
  first_name = some "Ana";
  last_name = none;
  second_last_name = none;
}

abbrev luis : User
luis = record ana { id = 2; email = "luis@x"; first_name = some "Luis" }

abbrev profile : Profile
profile = record { user_id = 2; external_customer_id = some 20 }

abbrev parts : NameParts
parts = record {
  first_name = some "Luis";
  middle_name = none;
  last_name = none;
  second_last_name = none;
}

abbrev parts_of_ana : NameParts
parts_of_ana = record parts { first_name = some "Ana" }

abbrev host : TransferHost
host = record {
  transfer = λ calls order. ok "t1";
  spei = λ calls order. ok "t2";
  user_info = λ calls customer. ok (if customer == 10 then parts_of_ana else parts);
  notify = λ calls user. ok tt;
  to_fixed = λ n. "1.00";
  now = "today";
}

abbrev store : TransferStore
store = record { users = ana ∷ luis ∷ []; profiles = profile ∷ []; receipts = []; calls = [] }

abbrev request : TransferRequest
request = record { target = "luis@x"; amount = 100; description = "rent" }

abbrev after : TransferStore
after = (transfer host 1 request 10 by_email store).1

abbrev receipt : Receipt
receipt = record {
  date_time = "today";
  amount = 100;
  sender_name = "Ana";
  receiver_name = "Luis";
  detail = internal_transfer;
}

transfer_run : transfer host 1 request 10 by_email store ≡ (ok ("t1", receipt), after)
unfolding transfer complete_transfer notify is_space trim_start trim_end not_blank join
    build_full_name ask_transfer find_user persist_receipt all_of backoffice_name
    resolve_user_display_name create_internal_transfer_receipt find ◌>>=◌ try_catch
transfer_run = refl

transfer-IsSent_example :
    (transfers after.calls ≡ transfers store.calls) ⊎ IsSent host 1 request 10 by_email store after
transfer-IsSent_example = transfer-IsSent host 1 request 10 by_email store

transfer-IsRecorded_example : IsRecorded host 1 request 10 by_email receipt store after
transfer-IsRecorded_example = transfer-IsRecorded host 1 request 10 by_email store transfer_run

abbrev card : Card
card = record {
  id = 1;
  user_id = some 1;
  card_identifier = "PHYSICAL_1";
  card_type = physical;
  status = active;
  prospera_card_id = some 70;
  masked_number = none;
  reference_batch = none;
  created_at = 10;
}

abbrev services : CardServices
services = record { confirm = λ calls key. ok tt; view_pin = λ calls key. ok (some "1234") }

abbrev bank : Bank
bank = record { cards = record { cards = card ∷ []; calls = [] }; wallet = store }

abbrev routed : Bank
routed = (transfer_route services host (some "1234") 1 request 10 by_email bank).1

transfer_route-IsPermitted_example :
    (transfers routed.wallet.calls ≡ transfers bank.wallet.calls)
    ⊎ IsPermitted services (some "1234") 1 bank.cards
transfer_route-IsPermitted_example =
    transfer_route-IsPermitted services (some "1234") 1 host request 10 by_email bank
