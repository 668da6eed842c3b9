-- ===== src/Transfer.antt =====
-- src/services/transfer.service.ts: transfers between wallets and payments by SPEI.
pub mod Names
pub mod Receipts
pub mod Sent
pub mod Recorded
pub mod Route
mod Tests
use Prim.Native.String.{◌++◌}
use banking_mobile_backend.Prelude.{
  ℕ, String, Bool, Option, none, some, List, [], ◌∷◌, ◌==◌, str_eq, find, bad_request, type_error,
  Result, Action, ◌>>=◌, ◌>>◌, pure, gets, or_throw, throw_if,
}
use banking_mobile_backend.Cards.Service.{given}
use banking_mobile_backend.Transfer.Names.{NameParts, build_full_name}
use banking_mobile_backend.Transfer.Receipts.{
  User, Profile, TransferOrder, SpeiOrder, TransferCall, TransferHost, TransferStore, Receipt,
  ask_transfer, find_user, create_internal_transfer_receipt, create_spei_cashout_receipt,
}

pub data QueryType : Type 0 where
  by_email by_alias : QueryType

pub record TransferRequest : Type 0 where
  pub target : String
  pub amount : ℕ
  pub description : String

pub record SpeiCashoutRequest : Type 0 where
  pub clabe : String
  pub amount : ℕ
  pub description : String
  pub receiver_name : String
  pub entity_name : String

abbrev pub has_email : String → User → Bool
has_email email u = str_eq u.email email

abbrev pub has_alias : String → User → Bool
has_alias alias u = elim u.alias [ none ↦ Bool.false | some a ↦ str_eq a alias ]

abbrev pub find_recipient : QueryType → String → List User → Option User
find_recipient by_email target users = find (has_email target) users
find_recipient by_alias target users = find (has_alias target) users

abbrev pub customer_of : Option Profile → Option ℕ
customer_of none = none
customer_of (some p) = given p.external_customer_id

abbrev pub wallet_of : ℕ → List Profile → Option ℕ
wallet_of user profiles = customer_of (find (λ (p : Profile). p.user_id == user) profiles)

abbrev pub names_of : User → NameParts
names_of u = record {
  first_name = u.first_name;
  middle_name = none;
  last_name = u.last_name;
  second_last_name = u.second_last_name;
}

module _ (host : TransferHost) where
  unfoldable pub notify : ℕ → (title body : String) → Action TransferStore (Unit {0})
  notify user title body =
      ask_transfer (TransferCall.notification user title body) (λ calls. host.notify calls user)

  abbrev pub order_to : ℕ → TransferRequest → ℕ → TransferOrder
  order_to customer request target = record {
    amount = request.amount;
    source = customer;
    target = target;
    description = request.description;
  }

  -- The calls after the wallet has accepted the transfer.
  unfoldable pub complete_transfer :
      (user customer : ℕ)
      → TransferRequest
      → User
      → (target : ℕ) → String
      → Action TransferStore (String × Receipt)
  complete_transfer user customer request recipient target transaction = do
    receipt ← create_internal_transfer_receipt host user customer recipient.id target request.amount
    found ← gets (λ s. find_user user s.users)
    sender ← or_throw found (type_error "Cannot read properties of null (reading 'firstName')")
    let amount = host.to_fixed request.amount
    notify recipient.id "Transferencia recibida"
        ("Recibiste $" ++ amount ++ " MXN de " ++ build_full_name (names_of sender))
    notify user "Transferencia enviada"
        ("Enviaste $" ++ amount ++ " MXN a " ++ build_full_name (names_of recipient))
    pure (transaction, receipt)

  unfoldable pub transfer :
      (user : ℕ)
      → TransferRequest
      → (customer : ℕ) → QueryType
      → Action TransferStore (String × Receipt)
  transfer user request customer query = do
    found ← gets (λ s. find_recipient query request.target s.users)
    recipient ← or_throw found (bad_request "Recipient not found")
    throw_if (recipient.id == user) (bad_request "Cannot transfer to yourself")
    wallet ← gets (λ s. wallet_of recipient.id s.profiles)
    target ← or_throw wallet (bad_request "Recipient wallet not found")
    let order = order_to customer request target
    transaction ← ask_transfer (TransferCall.transfer order) (λ calls. host.transfer calls order)
    complete_transfer user customer request recipient target transaction

  unfoldable pub spei_cashout :
      (user : ℕ) → SpeiCashoutRequest → (customer : ℕ) → Action TransferStore (String × Receipt)
  spei_cashout user request customer = do
    let order : SpeiOrder = record {
      clabe = request.clabe;
      amount = request.amount;
      description = request.description;
    }
    transaction ← ask_transfer (TransferCall.spei order) (λ calls. host.spei calls order)
    receipt ←
        create_spei_cashout_receipt host user customer request.receiver_name request.entity_name
          request.clabe request.amount
    pure (transaction, receipt)
