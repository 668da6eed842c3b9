-- ===== src/Transfer/Sent.antt =====
-- How often a transfer is sent to the wallet, to whom, and what a returned transfer has recorded.
use banking_mobile_backend.Prelude.{
  all_of, ℕ, String, ◌≡◌, refl, ◌⊎◌, inl, inr, false, Option, none, some, List, [], ◌∷◌, ◌==◌,
  Bool-cases, Option-cases, Result-cases, Action, ◌>>=◌,
}
use banking_mobile_backend.Prelude.Keeps.{Keeps, keeps_rules}
use banking_mobile_backend.Transfer.{
  QueryType, TransferRequest, find_recipient, wallet_of, order_to, notify, complete_transfer,
  transfer,
}
use banking_mobile_backend.Transfer.Receipts.{
  User, TransferOrder, TransferCall, TransferHost, TransferStore, Receipt, ask_transfer,
  persist_receipt, backoffice_name, name_or_local, resolve_user_display_name,
  create_internal_transfer_receipt,
}

-- The transfers sent to the wallet, the newest first.
abbrev pub transfers : List TransferCall → List TransferOrder
transfers [] = []
transfers (TransferCall.transfer order ∷ calls) = order ∷ transfers calls
transfers (TransferCall.spei order ∷ calls) = transfers calls
transfers (TransferCall.user_info customer ∷ calls) = transfers calls
transfers (TransferCall.notification user title body ∷ calls) = transfers calls

abbrev HasSent : List TransferOrder → TransferStore → Type 0
HasSent sent s = transfers s.calls ≡ sent

module _ (sent : List TransferOrder) where
  all_of-HasSent :
      {A B : Type 0} (m : Action TransferStore A) (n : Action TransferStore B)
      → Keeps (HasSent sent) m
      → Keeps (HasSent sent) n
      → Keeps (HasSent sent) (all_of m n)
  unfolding all_of
  all_of-HasSent m n km kn = record { at = λ s h. let (r, s1) = m s in kn.at s1 (km.at s h) }

  persist_receipt-HasSent :
      (user : ℕ) (receipt : Receipt) → Keeps (HasSent sent) (persist_receipt user receipt)
  unfolding persist_receipt
  persist_receipt-HasSent user receipt = record { at = λ s h. h }

  module _ (host : TransferHost) where
    backoffice_name-HasSent : (customer : ℕ) → Keeps (HasSent sent) (backoffice_name host customer)
    unfolding backoffice_name ask_transfer ◌>>=◌
    backoffice_name-HasSent customer = record {
      at = λ s h. elim (Result-cases (host.user_info s.calls customer)) [
        | inl (e, failed) ↦ rw (failed, backoffice_name) h
        | inr (parts, answered) ↦ rw (answered, backoffice_name) h
      ];
    }

    name_or_local-HasSent :
        (user : ℕ) (name : Option String) → Keeps (HasSent sent) (name_or_local host user name)
    name_or_local-HasSent user none = search (keeps_rules)
    name_or_local-HasSent user (some name) = search (keeps_rules)

    resolve_user_display_name-HasSent :
        (customer user : ℕ) → Keeps (HasSent sent) (resolve_user_display_name host customer user)
    unfolding resolve_user_display_name
    resolve_user_display_name-HasSent customer user =
        search (keeps_rules, backoffice_name-HasSent, name_or_local-HasSent)

    receipt-HasSent :
        (user customer recipient recipient_customer amount : ℕ)
        → Keeps (HasSent sent) (
            create_internal_transfer_receipt host user customer recipient recipient_customer amount)
    unfolding create_internal_transfer_receipt
    receipt-HasSent user customer recipient recipient_customer amount =
        search
          (keeps_rules, all_of-HasSent, resolve_user_display_name-HasSent, persist_receipt-HasSent)
          depth 10

    notify-HasSent :
        (user : ℕ) (title body : String) → Keeps (HasSent sent) (notify host user title body)
    unfolding notify ask_transfer
    notify-HasSent user title body = record { at = λ s h. h }

    complete_transfer-HasSent :
        (user customer : ℕ) (request : TransferRequest) (recipient : User) (target : ℕ)
        (transaction : String)
        → Keeps
            (HasSent sent)
            (complete_transfer host user customer request recipient target transaction)
    unfolding complete_transfer
    complete_transfer-HasSent user customer request recipient target transaction =
        search (keeps_rules, receipt-HasSent, notify-HasSent) depth 14

-- The transfer of a request: to another user, who was looked up, and to that user's wallet.
pub record IsSent (host : TransferHost) (user : ℕ) (request : TransferRequest) (customer : ℕ)
    (query : QueryType) (s after : TransferStore) : Type 0 where
  pub recipient : User
  pub target : ℕ
  pub found : find_recipient query request.target s.users ≡ some recipient
  pub another : (recipient.id == user) ≡ false
  pub wallet : wallet_of recipient.id s.profiles ≡ some target
  pub order : TransferOrder
  pub amount : order.amount ≡ request.amount
  pub source : order.source ≡ customer
  pub of_recipient : order.target ≡ target
  pub description : order.description ≡ request.description
  pub sent : transfers after.calls ≡ order ∷ transfers s.calls

module _ (host : TransferHost) (user : ℕ) (request : TransferRequest) (customer : ℕ)
    (query : QueryType) (s : TransferStore) where
  asked-HasSent :
      (recipient : User) (target : ℕ)
      → let order = order_to host customer request target in
        transfers
          ((ask_transfer (TransferCall.transfer order) (λ calls. host.transfer calls order)
              >>= complete_transfer host user customer request recipient target)
            s).1.calls
        ≡ order ∷ transfers s.calls
  unfolding ask_transfer ◌>>=◌
  asked-HasSent recipient target =
      let order = order_to host customer request target in
      let asked : TransferStore = record s { calls = TransferCall.transfer order ∷ s.calls } in
      elim (Result-cases (host.transfer s.calls order)) [
        | inl (e, failed) ↦ rw failed refl
        | inr (transaction, accepted) ↦ rw accepted (
            (complete_transfer-HasSent (order ∷ transfers s.calls) host user customer request
                recipient target transaction).at
              asked refl)
      ]

  -- A request for a transfer sends nothing to the wallet, or exactly one transfer: of the requested
  -- amount and with the description of the request, from the wallet of the caller to that of the user
  -- who was looked up, who is another user.
  pub transfer-IsSent :
      let after = (transfer host user request customer query s).1 in
      (transfers after.calls ≡ transfers s.calls) ⊎ IsSent host user request customer query s after
  unfolding transfer ◌>>=◌
  transfer-IsSent = elim (Option-cases (find_recipient query request.target s.users)) [
    | inl missing ↦ rw (missing, transfer) (inl refl)
    | inr (recipient, found) ↦ elim (Bool-cases (recipient.id == user)) [
      | inl self ↦ rw (found, self, transfer) (inl refl)
      | inr another ↦ elim (Option-cases (wallet_of recipient.id s.profiles)) [
        | inl closed ↦ rw (found, another, closed, transfer) (inl refl)
        | inr (target, wallet) ↦ inr (record {
          recipient = recipient;
          target = target;
          found = found;
          another = another;
          wallet = wallet;
          order = order_to host customer request target;
          amount = refl;
          source = refl;
          of_recipient = refl;
          description = refl;
          sent = rw (found, another, wallet, transfer) (asked-HasSent recipient target);
        })
      ]
    ]
  ]
