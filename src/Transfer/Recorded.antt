-- ===== src/Transfer/Recorded.antt =====
-- What a transfer that returned has recorded.
use banking_mobile_backend.Prelude.{
  ℕ, String, ◌≡◌, ◌≢◌, ◌⊎◌, refl, sym, subst, ap, ◌∙◌, inl, inr, Option, none, some, truthy, List,
  ◌∷◌, str_eq, eq_iff, Bool-cases, Option-cases, Result-cases, arith, Result, ok, ◌>>=◌, ◌>>◌,
  or_throw, try_catch, pure, internal_server,
}
use banking_mobile_backend.Prelude.Keeps.{Keeps}
use banking_mobile_backend.Prelude.Runs.{
  all_of-run, gets-run, or_throw-run, bind-run, throw_if-run, pure-run,
}
use banking_mobile_backend.Transfer.{
  QueryType, TransferRequest, find_recipient, wallet_of, notify, complete_transfer, transfer,
}
use banking_mobile_backend.Transfer.Receipts.{
  User, TransferCall, TransferHost, TransferStore, Receipt, ask_transfer, persist_receipt,
  find_user, local_name, backoffice_name, name_or_local, resolve_user_display_name,
  create_internal_transfer_receipt,
}
use banking_mobile_backend.Transfer.Names.{NameParts, build_full_name}

abbrev HasReceipts : List (ℕ × Receipt) → TransferStore → Type 0
HasReceipts receipts s = s.receipts ≡ receipts

truthy-full : (o : Option String) (t : String) → truthy o ≡ some t → t ≢ ""
truthy-full none t h = cc h
truthy-full (some x) t h = elim (Bool-cases (str_eq x "")) [
  | inl blank ↦ cc (blank, h)
  | inr full ↦ λ same. ground (arith, full, h, same, eq_iff x "")
]

truthy-same : (x t : String) → truthy (some x) ≡ some t → t ≡ x
truthy-same x t h = elim (Bool-cases (str_eq x "")) [
  | inl blank ↦ cc (blank, h)
  | inr full ↦ cc (full, h)
]

-- The name of a user: the one that the backoffice has for the customer number, or the one that the
-- users' table has; never the empty text.
pub record IsNameOf (host : TransferHost) (customer user : ℕ) (users : List User) (name : String)
    : Type 0 where
  pub full : name ≢ ""
  pub source :
      ((calls : List TransferCall) × (parts : NameParts) × (host.user_info calls customer
          ≡ ok parts)
        × (name ≡ build_full_name parts))
      ⊎ ((u : User) × (find_user user users ≡ some u) × (name ≡ local_name u))

abbrev IsSame : TransferStore → TransferStore → Type 0
IsSame s s' = (s'.receipts ≡ s.receipts) × (s'.users ≡ s.users)

local_named :
    (host : TransferHost) (customer user : ℕ) (u : User) (s : TransferStore) {name : String}
    {s' : TransferStore}
    → find_user user s.users ≡ some u
    → or_throw
        (truthy (some (local_name u)))
        (internal_server "Unable to generate transfer receipt")
        s
      ≡ (ok name, s')
    → IsNameOf host customer user s.users name × IsSame s s'
unfolding or_throw
local_named host customer user u s {name} known run =
    elim (Option-cases (truthy (some (local_name u)))) [
      | inl blank ↦ absurd (cc (rw blank at run))
      | inr (t, full) ↦
          let done = rw full at run in
          let same : t ≡ name = cc done in
          (
            subst (IsNameOf host customer user s.users) same (record {
              full = truthy-full (some (local_name u)) t full;
              source = inr (u, known, truthy-same (local_name u) t full);
            }),
            (ap (λ x. x.1.receipts) (sym done), ap (λ x. x.1.users) (sym done)),
          )
    ]

module _ (host : TransferHost) where
  named :
      (customer user : ℕ) (o : Option String) (s : TransferStore) {name : String}
      {s' : TransferStore}
      → ((t : String) → o ≡ some t → IsNameOf host customer user s.users t)
      → name_or_local host user o s ≡ (ok name, s')
      → IsNameOf host customer user s.users name × IsSame s s'
  named customer user none s h run =
      let (u, known, run1) = or_throw-run _ _ _ (gets-run _ _ run) in
      local_named host customer user u s known run1
  named customer user (some t) s h run =
      let (same, kept) = pure-run t run in
      (
        subst (IsNameOf host customer user s.users) same (h t refl),
        (ap (λ x. x.receipts) (sym kept), ap (λ x. x.users) (sym kept)),
      )

  resolve_user_display_name-named :
      (customer user : ℕ) (s : TransferStore) {name : String} {s' : TransferStore}
      → resolve_user_display_name host customer user s ≡ (ok name, s')
      → IsNameOf host customer user s.users name × IsSame s s'
  unfolding resolve_user_display_name backoffice_name ask_transfer try_catch ◌>>=◌
  resolve_user_display_name-named customer user s run =
      let asked : TransferStore = record s { calls = TransferCall.user_info customer ∷ s.calls } in
      elim (Result-cases (host.user_info s.calls customer)) [
        | inl (e, failed) ↦ named customer user none asked (λ t same. cc same) (rw failed at run)
        | inr (parts, answered) ↦
            let name = build_full_name parts in
            named customer user (truthy (some name)) asked
              (λ t told. record {
                full = truthy-full (some name) t told;
                source = inl (s.calls, parts, answered, truthy-same name t told);
              })
              (rw answered at run)
      ]

-- What is recorded of a transfer between two users: the receipt, its amount and the two names.
record IsReceiptOf (host : TransferHost) (user customer recipient target amount : ℕ)
    (receipt : Receipt) (s after : TransferStore) : Type 0 where
  stored : after.receipts ≡ (user, receipt) ∷ s.receipts
  same_amount : receipt.amount ≡ amount
  sender : IsNameOf host customer user s.users receipt.sender_name
  receiver : IsNameOf host target recipient s.users receipt.receiver_name

-- The receipt of a transfer to the user who was looked up: the sender's name is one of the caller,
-- the receiver's name is one of that user.
pub record IsRecorded (host : TransferHost) (user : ℕ) (request : TransferRequest) (customer : ℕ)
    (query : QueryType) (receipt : Receipt) (s after : TransferStore) : Type 0 where
  pub recipient : User
  pub target : ℕ
  pub found : find_recipient query request.target s.users ≡ some recipient
  pub wallet : wallet_of recipient.id s.profiles ≡ some target
  pub stored : after.receipts ≡ (user, receipt) ∷ s.receipts
  pub amount : receipt.amount ≡ request.amount
  pub sender : IsNameOf host customer user s.users receipt.sender_name
  pub receiver : IsNameOf host target recipient.id s.users receipt.receiver_name

module _ (host : TransferHost) where
  -- A receipt that is made from two names is stored.
  stored :
      (receipt : Receipt) (user : ℕ) (s : TransferStore) {result : Receipt} {s' : TransferStore}
      → (persist_receipt user receipt >> pure receipt) s ≡ (ok result, s')
      → (receipt ≡ result) × (s'.receipts ≡ (user, result) ∷ s.receipts)
  unfolding persist_receipt ◌>>=◌
  stored receipt user s {result} run =
      let same : receipt ≡ result = cc run in
      (same, ap (λ t. t.1.receipts) (sym run) ∙ ap (λ r. (user, r) ∷ s.receipts) same)

  receipt-run :
      (user customer recipient recipient_customer amount : ℕ) (s : TransferStore)
      {receipt : Receipt} {s' : TransferStore}
      → create_internal_transfer_receipt host user customer recipient recipient_customer amount s
        ≡ (ok receipt, s')
      → IsReceiptOf host user customer recipient recipient_customer amount receipt s s'
  unfolding create_internal_transfer_receipt
  receipt-run user customer recipient recipient_customer amount s {receipt} run =
      let (both, s1, resolved, run1) = bind-run _ _ run in
      let (middle, first, second) =
        all_of-run (resolve_user_display_name host customer user)
          (resolve_user_display_name host recipient_customer recipient) s resolved in
      let (sender_name, receiver_name) = both in
      let (sender, (kept, users)) = resolve_user_display_name-named host customer user s first in
      let (receiver, (kept', _)) =
        resolve_user_display_name-named host recipient_customer recipient middle second in
      let (same, written) = stored _ user s1 run1 in
      record {
        stored = written ∙ ap (λ rs. (user, receipt) ∷ rs) (kept' ∙ kept);
        same_amount = ap (λ r. r.amount) (sym same);
        sender = subst (λ r. IsNameOf host customer user s.users r.sender_name) same sender;
        receiver =
            subst (λ r. IsNameOf host recipient_customer recipient s.users r.receiver_name) same
              (subst (λ us. IsNameOf host recipient_customer recipient us receiver_name) users
                receiver);
      }

  notify-HasReceipts :
      (receipts : List (ℕ × Receipt)) (user : ℕ) (title body : String)
      → Keeps (HasReceipts receipts) (notify host user title body)
  unfolding notify ask_transfer
  notify-HasReceipts receipts user title body = record { at = λ s h. h }

  complete_transfer-IsRecorded :
      (user customer : ℕ) (request : TransferRequest) (recipient : User) (target : ℕ)
      (transaction : String) (s : TransferStore) {id : String} {receipt : Receipt}
      {s' : TransferStore}
      → complete_transfer host user customer request recipient target transaction s
        ≡ (ok (id, receipt), s')
      → IsReceiptOf host user customer recipient.id target request.amount receipt s s'
  unfolding complete_transfer
  complete_transfer-IsRecorded user customer request recipient target transaction s {receipt} run =
      let (made, s1, created, run1) = bind-run _ _ run in
      let told = receipt-run user customer recipient.id target request.amount s created in
      let (sender_user, known, run2) = or_throw-run _ _ _ (gets-run _ _ run1) in
      let (_, s2, sent, run3) = bind-run _ _ run2 in
      let (_, s3, sent', run4) = bind-run _ _ run3 in
      let (same, kept) = pure-run _ run4 in
      let same_receipt : made ≡ receipt = ap (λ p. p.1) same in
      let kept1 =
        subst (HasReceipts s1.receipts) (ap (λ t. t.1) sent)
          ((notify-HasReceipts s1.receipts _ _ _).at s1 refl) in
      let kept2 =
        subst (HasReceipts s1.receipts) (ap (λ t. t.1) sent')
          ((notify-HasReceipts s1.receipts _ _ _).at s2 kept1) in
      record {
        stored =
            ap (λ x. x.receipts) (sym kept)
            ∙ kept2
            ∙ told.stored
            ∙ ap (λ r. (user, r) ∷ s.receipts) same_receipt;
        same_amount = ap (λ r. r.amount) (sym same_receipt) ∙ told.same_amount;
        sender =
            subst (λ r. IsNameOf host customer user s.users r.sender_name) same_receipt told.sender;
        receiver =
            subst (λ r. IsNameOf host target recipient.id s.users r.receiver_name) same_receipt
              told.receiver;
      }

ask_transfer-kept :
    {A : Type 0} (call : TransferCall) (answer : List TransferCall → Result A) (s : TransferStore)
    {a : A} {s' : TransferStore}
    → ask_transfer call answer s ≡ (ok a, s')
    → IsSame s s'
unfolding ask_transfer
ask_transfer-kept call answer s run =
    (ap (λ t. t.1.receipts) (sym run), ap (λ t. t.1.users) (sym run))

-- A transfer that returns has stored the receipt that it returns, as the newest one and for the
-- caller: over the requested amount, with a name of the caller as the sender's, and a name of the
-- user who was looked up, to whose wallet the money went, as the receiver's. A name is the one that
-- the backoffice has for the customer number or the one of the users' table, and is not empty.
pub transfer-IsRecorded :
    (host : TransferHost) (user : ℕ) (request : TransferRequest) (customer : ℕ) (query : QueryType)
    (s : TransferStore) {id : String} {receipt : Receipt} {s' : TransferStore}
    → transfer host user request customer query s ≡ (ok (id, receipt), s')
    → IsRecorded host user request customer query receipt s s'
unfolding transfer
transfer-IsRecorded host user request customer query s {receipt} run =
    let (recipient, found, run1) = or_throw-run _ _ _ (gets-run _ _ run) in
    let (another, run2) = throw_if-run _ _ _ run1 in
    let (target, wallet, run3) = or_throw-run _ _ _ (gets-run _ _ run2) in
    let (transaction, s1, asked, run4) = bind-run _ _ run3 in
    let recorded =
      complete_transfer-IsRecorded host user customer request recipient target transaction s1
        run4 in
    let (kept, users) = ask_transfer-kept _ _ s asked in
    record {
      recipient = recipient;
      target = target;
      found = found;
      wallet = wallet;
      stored = recorded.stored ∙ ap (λ rs. (user, receipt) ∷ rs) kept;
      amount = recorded.same_amount;
      sender =
          subst (λ us. IsNameOf host customer user us receipt.sender_name) users recorded.sender;
      receiver =
          subst (λ us. IsNameOf host target recipient.id us receipt.receiver_name) users
            recorded.receiver;
    }
