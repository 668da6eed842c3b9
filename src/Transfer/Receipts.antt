-- ===== src/Transfer/Receipts.antt =====
-- src/services/transfer-receipt.service.ts and src/repositories/transferReceipt.repository.ts: the
-- receipts of transfers, with the state and the services that a transfer uses.
use banking_mobile_backend.Prelude.{
  all_of, ℕ, String, Option, none, some, List, [], ◌∷◌, ◌==◌, or_else, truthy, find,
  internal_server, Result, ok, Action, ◌>>=◌, ◌>>◌, pure, gets, or_throw, try_catch,
}
use banking_mobile_backend.Cards.Masking.{mask_clabe}
use banking_mobile_backend.Transfer.Names.{NameParts, build_full_name, not_blank, join}

-- The columns of `Users` and of `BackofficeCustomerProfile` that a transfer reads.
pub record User : Type 0 where
  pub id : ℕ
  pub email : String
  pub alias : Option String
  pub complete_name : Option String
  pub first_name : Option String
  pub last_name : Option String
  pub second_last_name : Option String

pub record Profile : Type 0 where
  pub user_id : ℕ
  pub external_customer_id : Option ℕ

-- Amounts in hundredths.
pub record TransferOrder : Type 0 where
  pub amount : ℕ
  pub source : ℕ
  pub target : ℕ
  pub description : String

pub record SpeiOrder : Type 0 where
  pub clabe : String
  pub amount : ℕ
  pub description : String

pub data TransferCall : Type 0 where
  transfer : TransferOrder → TransferCall
  spei : SpeiOrder → TransferCall
  user_info : (customer : ℕ) → TransferCall
  notification : (user : ℕ) (title body : String) → TransferCall

-- The answers of the wallet's backoffice, by the calls made so far, and of the notifications;
-- `to_fixed` writes an amount with two decimals, `now` is the time in the receipt.
pub record TransferHost : Type 0 where
  pub transfer : List TransferCall → TransferOrder → Result String
  pub spei : List TransferCall → SpeiOrder → Result String
  pub user_info : List TransferCall → ℕ → Result NameParts
  pub notify : List TransferCall → ℕ → Result (Unit {0})
  pub to_fixed : ℕ → String
  pub now : String

pub data ReceiptDetail : Type 0 where
  internal_transfer : ReceiptDetail
  spei_cashout : (entity_name receiver_clabe_masked : String) → ReceiptDetail

pub record Receipt : Type 0 where
  pub date_time : String
  pub amount : ℕ
  pub sender_name : String
  pub receiver_name : String
  pub detail : ReceiptDetail

pub record TransferStore : Type 0 where
  pub users : List User
  pub profiles : List Profile
  pub receipts : List (ℕ × Receipt)
  pub calls : List TransferCall

unfoldable pub ask_transfer :
    {A : Type 0} → TransferCall → (List TransferCall → Result A) → Action TransferStore A
ask_transfer call answer s = (answer s.calls, record s { calls = call ∷ s.calls })

unfoldable pub find_user : ℕ → List User → Option User
unfolding find
find_user id users = find (λ (u : User). u.id == id) users

unfoldable pub persist_receipt : ℕ → Receipt → Action TransferStore (Unit {0})
persist_receipt user receipt s = (ok tt, record s { receipts = (user, receipt) ∷ s.receipts })

abbrev pub local_name : User → String
local_name u =
    or_else (truthy u.complete_name)
      (join (not_blank (u.first_name ∷ u.last_name ∷ u.second_last_name ∷ [])))

module _ (host : TransferHost) where
  unfoldable pub backoffice_name : ℕ → Action TransferStore (Option String)
  backoffice_name customer = do
    parts ← ask_transfer (TransferCall.user_info customer) (λ calls. host.user_info calls customer)
    pure (truthy (some (build_full_name parts)))

  abbrev pub name_or_local : ℕ → Option String → Action TransferStore String
  name_or_local user (some name) = pure name
  name_or_local user none = do
    found ← gets (λ s. find_user user s.users)
    u ← or_throw found (internal_server "Unable to generate transfer receipt")
    or_throw (truthy (some (local_name u))) (internal_server "Unable to generate transfer receipt")

  unfoldable pub resolve_user_display_name : (customer user : ℕ) → Action TransferStore String
  resolve_user_display_name customer user = do
    name ← try_catch (backoffice_name customer) (λ e. pure none)
    name_or_local user name

  unfoldable pub create_internal_transfer_receipt :
      (user customer recipient recipient_customer amount : ℕ) → Action TransferStore Receipt
  create_internal_transfer_receipt user customer recipient recipient_customer amount = do
    (sender, receiver) ←
        all_of (resolve_user_display_name customer user)
          (resolve_user_display_name recipient_customer recipient)
    let receipt : Receipt = record {
      date_time = host.now;
      amount = amount;
      sender_name = sender;
      receiver_name = receiver;
      detail = internal_transfer;
    }
    persist_receipt user receipt
    pure receipt

  unfoldable pub create_spei_cashout_receipt :
      (user customer : ℕ) (receiver entity clabe : String) (amount : ℕ)
      → Action TransferStore Receipt
  create_spei_cashout_receipt user customer receiver entity clabe amount = do
    sender ← resolve_user_display_name customer user
    let receipt : Receipt = record {
      date_time = host.now;
      amount = amount;
      sender_name = sender;
      receiver_name = receiver;
      detail = spei_cashout entity (mask_clabe clabe);
    }
    persist_receipt user receipt
    pure receipt
